-- ===== src/Engine/Ledger/Leases.antt =====
-- The lease operations of crates/latte-engine/src/storage.rs: acquire, renew, and release outside a
-- session.
pub mod Acquire
pub mod Claims
pub mod Rows
pub mod Fencing
pub mod Lost
pub mod Exclusive
pub mod Examples
use latte_code.Base.{
  ℕ, ◌+◌, ◌-◌, String, Bool, true, false, not, ◌&&◌, Option, none, some, List, [], ◌∷◌, map, Result,
  ok, err, guard, ◌>>=◌, ◌>>◌, ◌==◌, any, find, count, update, delete, ltb, leb, if◌then◌else◌,
  u64_max, nat_eq, string_eq,
}
use latte_code.Core.Protocol.{TurnId, TurnStatus}
use latte_code.Engine.Ledger.{
  Database, Lease, TurnRow, StorageError, sql, invalid_data, turn_not_found, engine_unavailable,
  lease_lost, linked_turn_requires_session_commit, fits, names_row, is_live_row, runtime_scope,
  is_linked,
}

-- `u64::checked_add`.
abbrev pub checked_add : ℕ → ℕ → StorageError → Result ℕ StorageError
checked_add a b e = if leb (a + b) u64_max then ok (a + b) else err e

-- A fresh fencing token, and the counter that holds it.
allocate : ℕ → Result (ℕ × ℕ) StorageError
allocate last = do
  token ← checked_add last 1 (invalid_data "fencing token overflow")
  fits token
  ok (token, token)

-- The token of the lease and the new counter, by the row that holds the scope now.
pub choose_token : Option Lease → String → ℕ → ℕ → Result (ℕ × ℕ) StorageError
unfolding allocate
choose_token none owner now last = allocate last
choose_token (some held) owner now last =
    if ltb now held.expires_at_ms && held.owner == owner
    then ok (held.fencing_token, last)
    else if ltb now held.expires_at_ms
    then err engine_unavailable
    else allocate last

-- `INSERT INTO runtime_lease … ON CONFLICT(scope) DO UPDATE`: one row for each scope.
pub put : Lease → List Lease → List Lease
put lease rows =
    if any (λ (r : Lease). r.scope == lease.scope) rows
    then update (λ (r : Lease). r.scope == lease.scope) (λ r. lease) rows
    else lease ∷ rows

-- The column `owner` is unique.
pub upsert : Lease → List Lease → Result (List Lease) StorageError
upsert lease rows =
    if any (λ (r : Lease). not (r.scope == lease.scope) && r.owner == lease.owner) rows
    then err sql
    else ok (put lease rows)

abbrev is_queued : TurnStatus → Bool
is_queued TurnStatus.queued = true
is_queued _ = false

-- The turns that a runtime lease takes over: the given one, or every queued one, unless a session
-- owns it.
abbrev claims : Database → Option TurnId → TurnRow → Bool
claims db none row = is_queued row.status && not (is_linked db row.turn_id)
claims db (some id) row = row.turn_id == id && not (is_linked db row.turn_id)

claimed : Database → ℕ → Option TurnId → Database
claimed db token turn = record db {
  turns = update (claims db turn) (λ (r : TurnRow). record r { lease_token = token }) db.turns;
}

pub claim_turns : Database → ℕ → Option TurnId → Result Database StorageError
unfolding claimed
claim_turns db token none = ok (claimed db token none)
claim_turns db token (some id) =
    if count (claims db (some id)) db.turns == 1
    then ok (claimed db token (some id))
    else err (
        if any (λ (r : TurnRow). r.turn_id == id) db.turns
        then linked_turn_requires_session_commit
        else turn_not_found id)

-- The writes of an acquisition: the row of the lease, the counter, and the turns it takes over.
pub install : Database → Lease → ℕ → Option TurnId → Result (Lease × Database) StorageError
install db lease last turn = do
  leases ← upsert lease db.leases
  let held : Database = record db { leases = leases; last_token = last }
  after ←
      (if lease.scope == runtime_scope then claim_turns held lease.fencing_token turn else ok held)
  ok (lease, after)

-- `Storage::acquire_scoped_lease`.
pub acquire_scoped_lease :
    Database → String → String → Option TurnId → ℕ → ℕ → Result (Lease × Database) StorageError
acquire_scoped_lease db scope owner turn now ttl = do
  (token, last) ←
      choose_token (find (λ (r : Lease). r.scope == scope) db.leases) owner now db.last_token
  expires ← checked_add now ttl (invalid_data "lease expiry overflow")
  fits token
  fits expires
  install db
      (record { scope = scope; owner = owner; fencing_token = token; expires_at_ms = expires }) last
      turn

-- `Storage::renew_lease`.
unfoldable pub renew_lease : Database → Lease → ℕ → ℕ → Result (Lease × Database) StorageError
renew_lease db lease now ttl = do
  expires ← checked_add now ttl (invalid_data "lease expiry overflow")
  fits expires
  fits lease.fencing_token
  fits now
  guard (count (is_live_row lease now) db.leases == 1) lease_lost
  ok (
    record lease { expires_at_ms = expires },
    record db {
      leases =
          update (is_live_row lease now) (λ (r : Lease). record r { expires_at_ms = expires })
            db.leases;
    },
  )

-- `Storage::release_lease` for a lease whose scope is not a session's.
unfoldable pub release_lease : Database → Lease → Result Database StorageError
release_lease db lease = do
  fits lease.fencing_token
  guard (count (names_row lease) db.leases == 1) lease_lost
  ok (record db { leases = delete (names_row lease) db.leases })
