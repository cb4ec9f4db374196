-- ===== src/Engine/Ledger/Leases/Claims.antt =====
-- What an acquisition of crates/latte-engine/src/storage.rs does to the turns that it takes over.
use latte_code.Base.{
  ℕ, ◌≤◌, ◌≡◌, refl, ap, inl, inr, String, Bool, true, false, Option, none, some, List, [], ◌∷◌, ok,
  All-find, ◌==◌, ◌+◌, any, find, update, nat_eq, string_eq, arith, Bool-cases, >>=-eq-ok,
}
use latte_code.Core.Protocol.{TurnId}
use latte_code.Engine.Ledger.{
  Database, Lease, TurnRow, runtime_scope, is_authoritative, is_live_row,
}
use latte_code.Engine.Ledger.Leases.{
  choose_token, upsert, install, claims, claim_turns, acquire_scoped_lease,
}
use latte_code.Engine.Ledger.Leases.Acquire.{acquire-ok, install-ok}
use latte_code.Engine.Ledger.Leases.Rows.{Bounded}

abbrev pub retoken : ℕ → TurnRow → TurnRow
retoken token r = record r { lease_token = token }

-- The rows that get the token, and the tables that stay.
abbrev pub Claimed : ℕ → Database → Database → Type 0
Claimed token db db' =
    (p : TurnRow → Bool) × (db'.turns ≡ update p (retoken token) db.turns)
    × (db'.read_model ≡ db.read_model)
    × (db'.events ≡ db.events)

none-claimed : (token : ℕ) (xs : List TurnRow) → xs ≡ update (λ r. false) (retoken token) xs
none-claimed token [] = refl
none-claimed token (x ∷ xs) = ap (λ ys. x ∷ ys) (none-claimed token xs)

claim_turns-Claimed :
    (db : Database) (token : ℕ) (turn : Option TurnId) {db' : Database}
    → claim_turns db token turn ≡ ok db'
    → Claimed token db db'
unfolding claim_turns
claim_turns-Claimed db token none h = (claims db none, ground arith, ground arith, ground arith)
claim_turns-Claimed db token (some id) h =
    (claims db (some id), ground arith, ground arith, ground arith)

install-Claimed :
    (db : Database) (lease : Lease) (last : ℕ) (turn : Option TurnId) {l : Lease} {db' : Database}
    → install db lease last turn ≡ ok (l, db')
    → Claimed lease.fencing_token db db'
unfolding install
install-Claimed db lease last turn {l} {db'} h =
    let (leases, p, q) = >>=-eq-ok (upsert lease db.leases) _ h in
    let held : Database = record db { leases = leases; last_token = last } in
    elim (Bool-cases (lease.scope == runtime_scope)) [
      | inl r ↦
          let claimed : claim_turns held lease.fencing_token turn ≡ ok db' = ground (arith, q, r) in
          claim_turns-Claimed held lease.fencing_token turn {db' = db'} claimed
      | inr r ↦ (
        λ r. false,
        rw (← none-claimed lease.fencing_token db.turns) (ground (arith, q, r)),
        ground (arith, q, r),
        ground (arith, q, r),
      )
    ]

pub acquire-Claimed :
    (db : Database) (scope owner : String) (turn : Option TurnId) (now ttl : ℕ) {l : Lease}
    {db' : Database}
    → acquire_scoped_lease db scope owner turn now ttl ≡ ok (l, db')
    → Claimed l.fencing_token db db'
unfolding acquire_scoped_lease
acquire-Claimed db scope owner turn now ttl {l} {db'} h =
    let row : Option Lease = find (λ (r : Lease). r.scope == scope) db.leases in
    let chosen = >>=-eq-ok (choose_token row owner now db.last_token) _ h in
    let lease : Lease = record {
      scope = scope;
      owner = owner;
      fencing_token = chosen.0.0;
      expires_at_ms = now + ttl;
    } in
    let installed : install db lease chosen.0.1 turn ≡ ok (l, db') = ground (arith, chosen.2) in
    let same : l ≡ lease = (install-ok db lease chosen.0.1 turn {l = l} {db' = db'} installed).0 in
    rw (ap (λ (x : Lease). x.fencing_token) same)
      (install-Claimed db lease chosen.0.1 turn {l = l} {db' = db'} installed)

-- A token that is found on a lease is not above the counter, and the counter does not fall.
pub acquired_token_le :
    (db : Database) (scope owner : String) (turn : Option TurnId) (now ttl : ℕ) {l : Lease}
    {db' : Database}
    → Bounded db.last_token db.leases
    → acquire_scoped_lease db scope owner turn now ttl ≡ ok (l, db')
    → (db.last_token ≤ db'.last_token) × (l.fencing_token ≤ db'.last_token)
acquired_token_le db scope owner turn now ttl {l} {db'} v h =
    elim (acquire-ok db scope owner turn now ttl {l = l} {db' = db'} h).3 [
      | inl (held, f, o, e, t, n) ↦
          let below =
            All-find (λ (r : Lease). r.fencing_token ≤ db.last_token)
              (λ (r : Lease). r.scope == scope) db.leases {a = held} v f in
          (omega (arith, n), omega (arith, t, n, below))
      | inr (t, n, gone) ↦ (omega (arith, n), omega (arith, t, n))
    ]

pub live_token_le :
    (db : Database) (lease : Lease) (now : ℕ)
    → Bounded db.last_token db.leases
    → is_authoritative db lease now ≡ true
    → lease.fencing_token ≤ db.last_token
unfolding is_authoritative
live_token_le db lease now v live = go db.leases v live
  where
    go :
        (rows : List Lease)
        → Bounded db.last_token rows
        → any (is_live_row lease now) rows ≡ true
        → lease.fencing_token ≤ db.last_token
    go [] b q = cc
    go (x ∷ xs) b q = ground (arith, b.0, go xs b.1)
