-- ===== src/Engine/Ledger/Leases/Fencing.antt =====
-- The invariant of the rows of `runtime_lease` in crates/latte-engine/src/storage.rs, and the lease
-- operations on it.
use latte_code.Base.{
  ℕ, ◌+◌, ◌≤◌, ◌≡◌, refl, inl, inr, String, not, Option, ok, keep, All, All-mono, All-find,
  All-keep, All-update, update, nat_eq, string_eq, arith,
}
use latte_code.Core.Protocol.{TurnId}
use latte_code.Engine.Ledger.{Database, Lease, names_row, is_live_row}
use latte_code.Engine.Ledger.Leases.{acquire_scoped_lease, renew_lease, release_lease}
use latte_code.Engine.Ledger.Leases.Acquire.{Source, acquire-ok}
use latte_code.Engine.Ledger.Leases.Rows.{
  Separate, Bounded, Fresh, Separate-put, Bounded-put, find-Fresh, new-Fresh, Separate-keep,
  Separate-touch,
}

-- The rows have distinct scopes and distinct tokens, none above the counter.
pub record IsSound (db : Database) : Type 0 where
  pub separate : Separate db.leases
  pub bounded : Bounded db.last_token db.leases

Source-Fresh :
    (db : Database) (l : Lease) (now last : ℕ)
    → IsSound db
    → Source db l.scope l.owner now l.fencing_token last
    → All (Fresh l) db.leases
Source-Fresh db l now last v (inl (held, e, o, t, k, c)) =
    find-Fresh l db.leases held v.separate e k
Source-Fresh db l now last v (inr (k, c, dead)) = new-Fresh l db.last_token db.leases v.bounded k

pub Source-Bounded :
    (db : Database) (l : Lease) (now last : ℕ)
    → IsSound db
    → Source db l.scope l.owner now l.fencing_token last
    → (l.fencing_token ≤ last) × (db.last_token ≤ last) × Bounded last db.leases
Source-Bounded db l now last v (inl (held, e, o, t, k, c)) =
    let b =
      All-find (λ (r : Lease). r.fencing_token ≤ db.last_token) _ db.leases {a = held} v.bounded
        e in
    (omega arith, omega arith, rw c v.bounded)
Source-Bounded db l now last v (inr (k, c, dead)) = (
  omega arith,
  omega arith,
  All-mono (λ (r : Lease). r.fencing_token ≤ db.last_token) _ (λ r h. omega arith) db.leases
      v.bounded,
)

-- An acquisition keeps the rows sound.
pub acquire-IsSound :
    (db : Database) (scope owner : String) (turn : Option TurnId) (now ttl : ℕ) {l : Lease}
    {db' : Database}
    → IsSound db
    → acquire_scoped_lease db scope owner turn now ttl ≡ ok (l, db')
    → IsSound db'
acquire-IsSound db scope owner turn now ttl {l} {db'} v h =
    let (s, o, x, src, e) = acquire-ok db scope owner turn now ttl h in
    let source : Source db l.scope l.owner now l.fencing_token db'.last_token = rw (s, o) src in
    let (a, b, c) = Source-Bounded db l now db'.last_token v source in
    record {
      separate = rw e (Separate-put l db.leases (Source-Fresh db l now _ v source) v.separate);
      bounded = rw e (Bounded-put l db'.last_token db.leases a c);
    }

-- A renewal keeps the rows sound.
pub renew-IsSound :
    (db : Database) (lease : Lease) (now ttl : ℕ) {l : Lease} {db' : Database}
    → IsSound db
    → renew_lease db lease now ttl ≡ ok (l, db')
    → IsSound db'
unfolding renew_lease
renew-IsSound db lease now ttl {l} {db'} v h =
    let touch = λ (r : Lease). record r { expires_at_ms = now + ttl } in
    let test = is_live_row lease now in
    let rows : db'.leases ≡ update test touch db.leases = ground arith in
    let last : db'.last_token ≡ db.last_token = ground arith in
    record {
      separate = rw rows (Separate-touch test touch (λ r. (refl, refl)) db.leases v.separate);
      bounded =
          rw (rows, last)
            (All-update (λ (r : Lease). r.fencing_token ≤ db.last_token) test touch (λ r b. b)
              db.leases v.bounded);
    }

-- So does a release.
pub release-IsSound :
    (db : Database) (lease : Lease) {db' : Database}
    → IsSound db
    → release_lease db lease ≡ ok db'
    → IsSound db'
unfolding release_lease
release-IsSound db lease {db'} v h =
    let test = λ (r : Lease). not (names_row lease r) in
    let rows : db'.leases ≡ keep test db.leases = ground arith in
    let last : db'.last_token ≡ db.last_token = ground arith in
    record {
      separate = rw rows (Separate-keep test db.leases v.separate);
      bounded =
          rw (rows, last)
            (All-keep (λ (r : Lease). r.fencing_token ≤ db.last_token) test db.leases v.bounded);
    }
