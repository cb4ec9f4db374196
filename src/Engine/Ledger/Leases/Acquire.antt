-- ===== src/Engine/Ledger/Leases/Acquire.antt =====
-- What an acquisition of crates/latte-engine/src/storage.rs writes, and where its token comes from.
use latte_code.Base.{
  ℕ, ◌+◌, ◌≤◌, ◌<◌, ◌≡◌, refl, ◌⊎◌, inl, inr, String, ◌&&◌, Option, none, some, ok, ◌==◌, find, ltb,
  nat_eq, string_eq, eq_iff, arith, Bool-cases, >>=-eq-ok,
}
use latte_code.Core.Protocol.{TurnId}
use latte_code.Engine.Ledger.{Database, Lease}
use latte_code.Engine.Ledger.Leases.{
  choose_token, put, upsert, install, claim_turns, acquire_scoped_lease,
}

claim_turns_leases :
    (db : Database) (token : ℕ) (turn : Option TurnId) {db' : Database}
    → claim_turns db token turn ≡ ok db'
    → (db'.leases ≡ db.leases) × (db'.last_token ≡ db.last_token) × (db'.effects ≡ db.effects)
unfolding claim_turns
claim_turns_leases db token none h = ground arith
claim_turns_leases db token (some id) h = ground arith

-- Where the token of an acquired lease comes from: the live row of the same owner, or the counter,
-- where the scope has no live row.
abbrev pub Source : Database → String → String → ℕ → ℕ → ℕ → Type 0
Source db scope owner now token last =
    ((held : Lease) × (find (λ (r : Lease). r.scope == scope) db.leases ≡ some held)
      × (held.owner ≡ owner)
      × (now < held.expires_at_ms)
      × (token ≡ held.fencing_token)
      × (last ≡ db.last_token))
    ⊎ ((token ≡ db.last_token + 1)
        × (last ≡ db.last_token + 1)
        × ((r : Lease)
            → find (λ (r : Lease). r.scope == scope) db.leases ≡ some r
            → r.expires_at_ms ≤ now))

choose_token-Source :
    (db : Database) (scope owner : String) (now : ℕ) (o : Option Lease) {token last : ℕ}
    → find (λ (r : Lease). r.scope == scope) db.leases ≡ o
    → choose_token o owner now db.last_token ≡ ok (token, last)
    → Source db scope owner now token last
unfolding choose_token
choose_token-Source db scope owner now none e h = inr (ground arith, ground arith, λ r q. cc)
choose_token-Source db scope owner now (some held) e h =
    elim (Bool-cases (ltb now held.expires_at_ms && held.owner == owner)) [
      | inl q ↦ inl (
        held,
        e,
        ground (arith, eq_iff held.owner owner),
        ground arith,
        ground arith,
        ground arith,
      )
      | inr q ↦ inr (ground arith, ground arith, λ r k. ground arith)
    ]

pub install-ok :
    (db : Database) (lease : Lease) (last : ℕ) (turn : Option TurnId) {l : Lease} {db' : Database}
    → install db lease last turn ≡ ok (l, db')
    → (l ≡ lease) × (db'.last_token ≡ last) × (db'.leases ≡ put lease db.leases)
unfolding install upsert
install-ok db lease last turn {l} {db'} h =
    let (leases, p, q) = >>=-eq-ok (upsert lease db.leases) _ h in
    let held : Database = record db { leases = leases; last_token = last } in
    ground (arith, q, claim_turns_leases held lease.fencing_token turn {db' = db'})

pub acquire-ok :
    (db : Database) (scope owner : String) (turn : Option TurnId) (now ttl : ℕ) {l : Lease}
    {db' : Database}
    → acquire_scoped_lease db scope owner turn now ttl ≡ ok (l, db')
    → (l.scope ≡ scope)
      × (l.owner ≡ owner)
      × (l.expires_at_ms ≡ now + ttl)
      × Source db scope owner now l.fencing_token db'.last_token
      × (db'.leases ≡ put l db.leases)
unfolding acquire_scoped_lease
acquire-ok db scope owner turn now ttl {l} {db'} h =
    let row : Option Lease = find (λ (r : Lease). r.scope == scope) db.leases in
    let chosen = >>=-eq-ok (choose_token row owner now db.last_token) _ h in
    let source = choose_token-Source db scope owner now row refl chosen.1 in
    let lease : Lease = record {
      scope = scope;
      owner = owner;
      fencing_token = chosen.0.0;
      expires_at_ms = now + ttl;
    } in
    ground (arith, install-ok db lease chosen.0.1 turn {l = l} {db' = db'}, source, chosen.2)

install-effects :
    (db : Database) (lease : Lease) (last : ℕ) (turn : Option TurnId) {l : Lease} {db' : Database}
    → install db lease last turn ≡ ok (l, db')
    → db'.effects ≡ db.effects
unfolding install upsert
install-effects db lease last turn {l} {db'} h =
    let (leases, p, q) = >>=-eq-ok (upsert lease db.leases) _ h in
    let held : Database = record db { leases = leases; last_token = last } in
    ground (arith, q, claim_turns_leases held lease.fencing_token turn {db' = db'})

-- An acquisition leaves the effects alone.
pub acquire-effects :
    (db : Database) (scope owner : String) (turn : Option TurnId) (now ttl : ℕ) {l : Lease}
    {db' : Database}
    → acquire_scoped_lease db scope owner turn now ttl ≡ ok (l, db')
    → db'.effects ≡ db.effects
unfolding acquire_scoped_lease
acquire-effects db scope owner turn now ttl {l} {db'} h =
    let row : Option Lease = find (λ (r : Lease). r.scope == scope) db.leases in
    let chosen = >>=-eq-ok (choose_token row owner now db.last_token) _ h in
    let lease : Lease = record {
      scope = scope;
      owner = owner;
      fencing_token = chosen.0.0;
      expires_at_ms = now + ttl;
    } in
    ground (arith, install-effects db lease chosen.0.1 turn {l = l} {db' = db'}, chosen.2)
