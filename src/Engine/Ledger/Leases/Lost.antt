-- ===== src/Engine/Ledger/Leases/Lost.antt =====
-- Leases of crates/latte-engine/src/storage.rs that were lost, to an expiry, a release or another owner.
use latte_code.Base.{
  ℕ, ◌+◌, ◌≤◌, ◌≡◌, ◌≢◌, refl, ◌⊎◌, inl, inr, String, Bool, true, false, not, Option, some, List,
  [], ◌∷◌, ok, ◌==◌, any, keep, find, count, update, delete, nat_eq, string_eq, eq_iff, arith,
}
use latte_code.Core.Protocol.{TurnId}
use latte_code.Engine.Ledger.{Database, Lease, names_row, is_live_row, is_authoritative}
use latte_code.Engine.Ledger.Leases.{put, acquire_scoped_lease, renew_lease, release_lease}
use latte_code.Engine.Ledger.Leases.Acquire.{Source, acquire-ok}
use latte_code.Engine.Ledger.Leases.Fencing.{IsSound, Source-Bounded}

-- The token of the lease is used up, and no row carries it for its scope and owner.
pub record IsLost (db : Database) (lease : Lease) : Type 0 where
  pub spent : lease.fencing_token ≤ db.last_token
  pub gone : any (names_row lease) db.leases ≡ false

module _ (lease : Lease) where
  gone-live :
      (now : ℕ) (rows : List Lease)
      → any (names_row lease) rows ≡ false
      → any (is_live_row lease now) rows ≡ false
  gone-live now [] h = refl
  gone-live now (r ∷ rs) h = ground (arith, gone-live now rs)

  gone-count :
      (now : ℕ) (rows : List Lease)
      → any (names_row lease) rows ≡ false
      → count (is_live_row lease now) rows ≡ 0
  gone-count now [] h = refl
  gone-count now (r ∷ rs) h = ground (arith, gone-count now rs)

  -- A written row that is not the lease's brings nothing back, and replaces the row of its scope.
  module _ (l : Lease) (other : names_row lease l ≡ false) where
    abbrev at_scope : Lease → Bool
    at_scope r = r.scope == l.scope

    gone-update :
        (rows : List Lease)
        → any (names_row lease) rows ≡ false
        → any (names_row lease) (update at_scope (λ r. l) rows) ≡ false
    gone-update [] h = refl
    gone-update (r ∷ rs) h = ground (arith, other, gone-update rs)

    gone-put :
        (rows : List Lease)
        → any (names_row lease) rows ≡ false
        → any (names_row lease) (put l rows) ≡ false
    unfolding put
    gone-put rows h = ground (arith, other, gone-update rows h)

    replaced-update :
        (rows : List Lease)
        → l.scope ≡ lease.scope
        → any (names_row lease) (update at_scope (λ r. l) rows) ≡ false
    replaced-update [] e = refl
    replaced-update (r ∷ rs) e =
        ground
          (arith, other, eq_iff r.scope l.scope, eq_iff r.scope lease.scope, replaced-update rs e)

    absent-gone :
        (rows : List Lease)
        → l.scope ≡ lease.scope
        → any at_scope rows ≡ false
        → any (names_row lease) rows ≡ false
    absent-gone [] e h = refl
    absent-gone (r ∷ rs) e h =
        ground (arith, eq_iff r.scope l.scope, eq_iff r.scope lease.scope, absent-gone rs e)

    replaced-put :
        (rows : List Lease) → l.scope ≡ lease.scope → any (names_row lease) (put l rows) ≡ false
    unfolding put
    replaced-put rows e = ground (arith, other, replaced-update rows e, absent-gone rows e)

find-test : (p : Lease → Bool) (rows : List Lease) {r : Lease} → find p rows ≡ some r → p r ≡ true
find-test p [] h = cc
find-test p (x ∷ xs) {r} h = ground (arith, find-test p xs {r = r})

find-any :
    (p q : Lease → Bool) (rows : List Lease) {r : Lease}
    → find p rows ≡ some r
    → any q rows ≡ false
    → q r ≡ false
find-any p q [] h k = cc
find-any p q (x ∷ xs) {r} h k = ground (arith, find-any p q xs {r = r})

-- A lost lease is not authoritative at any time.
pub lost-is_authoritative :
    (db : Database) (lease : Lease) (now : ℕ)
    → IsLost db lease
    → is_authoritative db lease now ≡ false
unfolding is_authoritative
lost-is_authoritative db lease now v = gone-live lease now db.leases v.gone

Source-other :
    (db : Database) (lease l : Lease) (now last : ℕ)
    → IsLost db lease
    → Source db l.scope l.owner now l.fencing_token last
    → names_row lease l ≡ false
Source-other db lease l now last v (inl (held, e, o, t, k, c)) =
    let scope = find-test _ db.leases {r = held} e in
    let other = find-any _ (names_row lease) db.leases {r = held} e v.gone in
    ground (arith, scope, other, eq_iff held.scope l.scope)
Source-other db lease l now last v (inr (k, c, dead)) = ground (arith, v.spent)

pub IsLost-acquire :
    (db : Database) (lease : Lease) (scope owner : String) (turn : Option TurnId) (now ttl : ℕ)
    {l : Lease} {db' : Database}
    → IsSound db
    → IsLost db lease
    → acquire_scoped_lease db scope owner turn now ttl ≡ ok (l, db')
    → IsLost db' lease
IsLost-acquire db lease scope owner turn now ttl {l} {db'} w v h =
    let (s, o, x, src, e) = acquire-ok db scope owner turn now ttl h in
    let source : Source db l.scope l.owner now l.fencing_token db'.last_token = rw (s, o) src in
    let grown = (Source-Bounded db l now db'.last_token w source).1 in
    record {
      spent = omega (arith, v.spent);
      gone =
          rw e (
            gone-put lease l (Source-other db lease l now db'.last_token v source) db.leases
              v.gone);
    }

module _ (lease : Lease) where
  gone-touch :
      (p : Lease → Bool) (x : ℕ) (rows : List Lease)
      → any (names_row lease) rows ≡ false
      → any (names_row lease) (update p (λ (r : Lease). record r { expires_at_ms = x }) rows)
        ≡ false
  gone-touch p x [] h = refl
  gone-touch p x (r ∷ rs) h = ground (arith, gone-touch p x rs)

  gone-keep :
      (p : Lease → Bool) (rows : List Lease)
      → any (names_row lease) rows ≡ false
      → any (names_row lease) (keep p rows) ≡ false
  gone-keep p [] h = refl
  gone-keep p (r ∷ rs) h = ground (arith, gone-keep p rs)

pub IsLost-renew :
    (db : Database) (lease held : Lease) (now ttl : ℕ) {l : Lease} {db' : Database}
    → IsLost db lease
    → renew_lease db held now ttl ≡ ok (l, db')
    → IsLost db' lease
unfolding renew_lease
IsLost-renew db lease held now ttl v h =
    let gone = gone-touch lease (is_live_row held now) (now + ttl) db.leases v.gone in
    record { spent = ground (arith, v.spent); gone = ground (arith, gone) }

pub IsLost-release :
    (db : Database) (lease held : Lease) {db' : Database}
    → IsLost db lease
    → release_lease db held ≡ ok db'
    → IsLost db' lease
unfolding release_lease
IsLost-release db lease held v h =
    let gone = gone-keep lease (λ r. not (names_row held r)) db.leases v.gone in
    record { spent = ground (arith, v.spent); gone = ground (arith, gone) }

-- An acquisition of the scope under another owner, or with another token, takes the lease away.
pub acquire-IsLost :
    (db : Database) (lease : Lease) (owner : String) (turn : Option TurnId) (now ttl : ℕ)
    {l : Lease} {db' : Database}
    → IsSound db
    → lease.fencing_token ≤ db.last_token
    → acquire_scoped_lease db lease.scope owner turn now ttl ≡ ok (l, db')
    → (owner ≢ lease.owner) ⊎ (l.fencing_token ≢ lease.fencing_token)
    → IsLost db' lease
acquire-IsLost db lease owner turn now ttl {l} {db'} w t h differs =
    let (s, o, x, src, e) = acquire-ok db lease.scope owner turn now ttl h in
    let source : Source db l.scope l.owner now l.fencing_token db'.last_token = rw (s, o) src in
    let grown = (Source-Bounded db l now db'.last_token w source).1 in
    let other : names_row lease l ≡ false = ground (arith, o, eq_iff l.owner lease.owner) in
    record { spent = omega (arith, t); gone = rw e (replaced-put lease l other db.leases s) }

-- A released lease is lost.
pub release-IsLost :
    (db : Database) (lease : Lease) {db' : Database}
    → lease.fencing_token ≤ db.last_token
    → release_lease db lease ≡ ok db'
    → IsLost db' lease
unfolding release_lease
release-IsLost db lease {db'} t h =
    let gone = deleted db.leases in record { spent = ground arith; gone = ground (arith, gone) }
  where
    deleted : (rows : List Lease) → any (names_row lease) (delete (names_row lease) rows) ≡ false
    deleted [] = refl
    deleted (r ∷ rs) = ground (arith, deleted rs)
