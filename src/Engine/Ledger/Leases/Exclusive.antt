-- ===== src/Engine/Ledger/Leases/Exclusive.antt =====
-- The authority over a scope in crates/latte-engine/src/storage.rs: acquisitions and renewals against
-- a live lease.
use text.Mathlib.TextPositions.{eq_refl}
use latte_code.Base.{
  ℕ, suc, ◌+◌, ◌≤◌, ◌<◌, ◌≡◌, refl, ap, inl, inr, String, true, false, Option, some, List, [], ◌∷◌,
  ok, err, ◌==◌, any, All, find, count, update, nat_eq, string_eq, eq_iff, arith, Bool-cases,
  i64_max,
}
use latte_code.Core.Protocol.{TurnId}
use latte_code.Engine.Ledger.{Database, Lease, lease_lost, is_live_row, is_authoritative}
use latte_code.Engine.Ledger.Leases.{put, acquire_scoped_lease, renew_lease}
use latte_code.Engine.Ledger.Leases.Acquire.{Source, acquire-ok}
use latte_code.Engine.Ledger.Leases.Rows.{Apart, Separate}
use latte_code.Engine.Ledger.Leases.Fencing.{IsSound}

module _ (lease : Lease) (now : ℕ) where
  -- Above a row of the scope there is no live row of the lease.
  none-Apart :
      (x : Lease) (rows : List Lease)
      → x.scope ≡ lease.scope
      → All (Apart x) rows
      → any (is_live_row lease now) rows ≡ false
  none-Apart x [] e a = refl
  none-Apart x (r ∷ rs) e a =
      ground (arith, a.0.0, eq_iff r.scope lease.scope, none-Apart x rs e a.1)

  zero-Apart :
      (x : Lease) (rows : List Lease)
      → x.scope ≡ lease.scope
      → All (Apart x) rows
      → count (is_live_row lease now) rows ≡ 0
  zero-Apart x [] e a = refl
  zero-Apart x (r ∷ rs) e a =
      ground (arith, a.0.0, eq_iff r.scope lease.scope, zero-Apart x rs e a.1)

  -- The row that an acquisition reads is the live one.
  live-find :
      (rows : List Lease) {held : Lease}
      → Separate rows
      → any (is_live_row lease now) rows ≡ true
      → find (λ (r : Lease). r.scope == lease.scope) rows ≡ some held
      → is_live_row lease now held ≡ true
  live-find [] s a e = cc
  live-find (x ∷ xs) {held} s a e = elim (Bool-cases (x.scope == lease.scope)) [
    | inl q ↦ ground (arith, none-Apart x xs (ground (arith, eq_iff x.scope lease.scope)) s.0)
    | inr q ↦ ground (arith, live-find xs {held = held} s.1)
  ]

  find-some :
      (rows : List Lease)
      → any (is_live_row lease now) rows ≡ true
      → (held : Lease) × (find (λ (r : Lease). r.scope == lease.scope) rows ≡ some held)
  find-some [] a = cc
  find-some (x ∷ xs) a = elim (Bool-cases (x.scope == lease.scope)) [
    | inl q ↦ (x, rw q)
    | inr q ↦ rw q (find-some xs (ground arith))
  ]

  live-count :
      (rows : List Lease)
      → Separate rows
      → any (is_live_row lease now) rows ≡ true
      → count (is_live_row lease now) rows ≡ 1
  live-count [] s a = cc
  live-count (x ∷ xs) s a = elim (Bool-cases (is_live_row lease now x)) [
    | inl q ↦ rw q (ap suc (zero-Apart x xs (ground (arith, eq_iff x.scope lease.scope)) s.0))
    | inr q ↦ rw q (live-count xs s.1 (rw q at a))
  ]

-- While a lease is live, an acquisition of its scope succeeds only for its owner, and hands out the
-- same token again; the counter stays.
pub acquire_exclusive :
    (db : Database) (lease : Lease) (owner : String) (turn : Option TurnId) (now ttl : ℕ)
    {l : Lease} {db' : Database}
    → IsSound db
    → is_authoritative db lease now ≡ true
    → acquire_scoped_lease db lease.scope owner turn now ttl ≡ ok (l, db')
    → (owner ≡ lease.owner) × (l.fencing_token ≡ lease.fencing_token)
unfolding is_authoritative
acquire_exclusive db lease owner turn now ttl {l} {db'} v a h =
    let (held, e) = find-some lease now db.leases a in
    let live = live-find lease now db.leases {held = held} v.separate a e in
    let source = (acquire-ok db lease.scope owner turn now ttl h).3 in go held e live source
  where
    go :
        (held : Lease)
        → find (λ (r : Lease). r.scope == lease.scope) db.leases ≡ some held
        → is_live_row lease now held ≡ true
        → Source db lease.scope owner now l.fencing_token db'.last_token
        → (owner ≡ lease.owner) × (l.fencing_token ≡ lease.fencing_token)
    go held e live (inl (held', e', o, t, k, c)) = ground (arith, eq_iff held.owner lease.owner)
    go held e live (inr (k, c, dead)) = ground (arith, dead held e)

put-live :
    (l : Lease) (t : ℕ) (rows : List Lease)
    → t < l.expires_at_ms
    → any (is_live_row l t) (put l rows) ≡ true
unfolding put
put-live l t rows h = ground (arith, replaced rows, eq_refl l.scope, eq_refl l.owner)
  where
    replaced :
        (rows : List Lease)
        → any (λ (r : Lease). r.scope == l.scope) rows ≡ true
        → any (is_live_row l t) (update (λ (r : Lease). r.scope == l.scope) (λ r. l) rows) ≡ true
    replaced [] q = cc
    replaced (r ∷ rs) q = ground (arith, replaced rs, eq_refl l.scope, eq_refl l.owner)

-- What an acquisition hands out is authoritative until it runs out.
pub acquire-is_authoritative :
    (db : Database) (scope owner : String) (turn : Option TurnId) (now ttl t : ℕ) {l : Lease}
    {db' : Database}
    → acquire_scoped_lease db scope owner turn now ttl ≡ ok (l, db')
    → t < now + ttl
    → is_authoritative db' l t ≡ true
unfolding is_authoritative
acquire-is_authoritative db scope owner turn now ttl t {l} h q =
    let (s, o, x, src, e) = acquire-ok db scope owner turn now ttl h in
    rw e (put-live l t db.leases (omega arith))

abbrev extended : ℕ → Lease → Lease
extended x r = record r { expires_at_ms = x }

-- A renewal succeeds exactly for a lease that is authoritative now, as far as the new expiry is in
-- range. The renewed lease keeps its scope, owner and token, and is authoritative until it runs out.
pub renew_iff :
    (db : Database) (lease : Lease) (now ttl : ℕ)
    → IsSound db
    → lease.fencing_token ≤ i64_max
    → now + ttl ≤ i64_max
    → (is_authoritative db lease now ≡ true
        → (db' : Database) × (renew_lease db lease now ttl
            ≡ ok (record lease { expires_at_ms = now + ttl }, db'))
          × ((t : ℕ)
              → t < now + ttl
              → is_authoritative db' (record lease { expires_at_ms = now + ttl }) t ≡ true))
      × (is_authoritative db lease now ≡ false → renew_lease db lease now ttl ≡ err lease_lost)
unfolding is_authoritative renew_lease
renew_iff db lease now ttl v k x = (
  λ a. (
    record db { leases = update (is_live_row lease now) (extended (now + ttl)) db.leases },
    ground (arith, live-count lease now db.leases v.separate a),
    λ t q. renewed t q db.leases a,
  ),
  λ a. ground (arith, dead db.leases a),
)
  where
    dead :
        (rows : List Lease)
        → any (is_live_row lease now) rows ≡ false
        → count (is_live_row lease now) rows ≡ 0
    dead [] a = refl
    dead (r ∷ rs) a = ground (arith, dead rs)

    renewed :
        (t : ℕ)
        → t < now + ttl
        → (rows : List Lease) → any (is_live_row lease now) rows ≡ true
        → any
            (is_live_row (record lease { expires_at_ms = now + ttl }) t)
            (update (is_live_row lease now) (extended (now + ttl)) rows)
          ≡ true
    renewed t q [] a = cc
    renewed t q (r ∷ rs) a = ground (arith, renewed t q rs)
