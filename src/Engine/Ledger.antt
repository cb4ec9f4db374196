-- ===== src/Engine/Ledger.antt =====
-- crates/latte-engine/src/storage.rs: the tables that carry the authority over turns and effects, as
-- lists of rows, and the SQL conditions that the operations share. An integer column holds a number up
-- to `i64_max`; a JSON column holds the value that it encodes. A transaction that fails returns no
-- database: the caller goes on with the one that it had.
pub mod Leases
pub mod Turns
pub mod Effects
pub mod Replace
pub mod Waiting
pub mod History
pub mod Fixtures
use latte_code.Base.{
  ℕ, String, ◌≡◌, Bool, true, false, ◌&&◌, Option, none, some, List, Result, ok, err, guard, ◌==◌,
  any, ltb, leb, i64_max, nat_eq, string_eq,
}
use latte_code.Core.Protocol.{TurnId, TurnStatus, EventEnvelope}
use latte_code.Core.Turn.{TurnState}

abbrev pub SessionId : Type 0
SessionId = ℕ

-- `sql` stands for an error of the SQLite library, such as a broken constraint or a missing row.
pub data StorageError : Type 0 where
  sql : StorageError
  invalid_data : String → StorageError
  newer_schema : ℕ → ℕ → StorageError
  turn_not_found : TurnId → StorageError
  stale_revision : ℕ → ℕ → StorageError
  engine_unavailable lease_lost effect_fenced : StorageError
  session_not_found : SessionId → StorageError
  stale_session_revision : ℕ → ℕ → StorageError
  linked_turn_requires_session_commit session_command_replay_mismatch : StorageError
  session_already_exists : SessionId → StorageError
  session_active_turn_mismatch : StorageError

-- `StorageError::is_coordinator_conflict`.
pub is_coordinator_conflict : StorageError → Bool
is_coordinator_conflict engine_unavailable = true
is_coordinator_conflict lease_lost = true
is_coordinator_conflict (stale_revision _ _) = true
is_coordinator_conflict (stale_session_revision _ _) = true
is_coordinator_conflict _ = false

-- A lease as its owner holds it, and a row of `runtime_lease`.
pub record Lease : Type 0 where
  pub scope : String
  pub owner : String
  pub fencing_token : ℕ
  pub expires_at_ms : ℕ

-- A row of `turns`.
pub record TurnRow : Type 0 where
  pub turn_id : TurnId
  pub state : TurnState
  pub status : TurnStatus
  pub revision : ℕ
  pub last_seq : ℕ
  pub lease_token : ℕ
  pub effect_epoch : ℕ

-- A row of `turn_read_model`.
pub record ReadRow : Type 0 where
  pub turn_id : TurnId
  pub revision : ℕ
  pub last_seq : ℕ
  pub state : TurnState

-- A row of `events`.
pub record EventRow : Type 0 where
  pub turn_id : TurnId
  pub seq : ℕ
  pub envelope : EventEnvelope
  pub created_at_ms : ℕ

pub data EffectStatus : Type 0 where
  declared prepared started observed_success observed_failed unknown : EffectStatus

-- A row of `effects`; its digest and descriptor are null only in rows that tests declare.
pub record EffectRow : Type 0 where
  pub effect_id : String
  pub turn_id : TurnId
  pub status : EffectStatus
  pub started_at_ms : ℕ
  pub attempt : ℕ
  pub descriptor : String
  pub approval_digest : String
  pub pre_evidence : String
  pub post_evidence : Option String
  pub prepared_at_ms : ℕ
  pub observed_at_ms : Option ℕ

-- A row of `pending_permissions`.
pub record PermissionRow : Type 0 where
  pub effect_id : String
  pub turn_id : TurnId
  pub turn_revision : ℕ
  pub lease_owner : String
  pub lease_token : ℕ
  pub approval_digest : String
  pub consumed_at_ms : Option ℕ

-- `last_token` is the one row of `runtime_lease_epoch`; `linked` are the turns of `session_turns`.
pub record Database : Type 0 where
  pub leases : List Lease
  pub last_token : ℕ
  pub turns : List TurnRow
  pub linked : List TurnId
  pub read_model : List ReadRow
  pub events : List EventRow
  pub effects : List EffectRow
  pub permissions : List PermissionRow
  pub checkpoints : List (TurnId × String)

-- `to_i64`, where the number is bound to a column or a condition.
abbrev pub fits : ℕ → Result (Unit {0}) StorageError
fits n = guard (leb n i64_max) (invalid_data "integer exceeds sqlite range")

-- The row that a lease names: `scope=? AND owner=? AND fencing_token=?`.
abbrev pub names_row : Lease → Lease → Bool
names_row lease row =
    row.scope == lease.scope && row.owner == lease.owner && row.fencing_token == lease.fencing_token

-- `… AND expires_at_ms>?`.
abbrev pub is_live_row : Lease → ℕ → Lease → Bool
is_live_row lease now row = names_row lease row && ltb now row.expires_at_ms

-- `SELECT EXISTS(SELECT 1 FROM runtime_lease WHERE …)`.
pub is_authoritative : Database → Lease → ℕ → Bool
is_authoritative db lease now = any (is_live_row lease now) db.leases

-- `LEGACY_RUNTIME_LEASE_SCOPE`.
abbrev pub runtime_scope : String
runtime_scope = "runtime"

-- `require_legacy_runtime_lease`.
abbrev pub require_runtime : Lease → Result (Unit {0}) StorageError
require_runtime lease = guard (lease.scope == runtime_scope) lease_lost

abbrev pub is_linked : Database → TurnId → Bool
is_linked db id = any (λ t. t == id) db.linked
