-- ===== src/Engine/Ledger/Waiting.antt =====
-- The writes of crates/latte-engine/src/storage.rs that end a turn outside the state machine, in the
-- runtime scope: a waiting turn is cancelled or denied, and a running one is interrupted after its
-- lease was lost. Checkpoints are written under the same guard.
pub mod Effects
pub mod Interrupt
pub mod Turns
pub mod Examples
use latte_code.Base.{
  ℕ, ◌+◌, String, Bool, true, false, not, ◌&&◌, ◌||◌, Option, none, some, List, [], ◌∷◌, Result, ok,
  err, guard, ◌>>=◌, ◌>>◌, ◌==◌, any, find, count, update, delete, leb, if◌then◌else◌, ok_or,
  nat_eq, string_eq,
}
use latte_code.Core.Protocol.{
  TurnId, EventId, TurnStatus, TurnFailure, FailureCode, Retryability, RuntimeEvent,
  PendingPermission, running, cancelling, waiting_permission, waiting_input, completed, failed,
}
use latte_code.Core.Protocol as Protocol
use latte_code.Core.Turn.{TurnState}
use latte_code.Engine.Ledger.{
  Database, Lease, TurnRow, EffectRow, PermissionRow, StorageError, sql, invalid_data,
  stale_revision, lease_lost, fits, require_runtime, is_authoritative, observed_failed, unknown,
}
use latte_code.Engine.Ledger.Leases.{checked_add}
use latte_code.Engine.Ledger.Turns.{at_turn, commit}
use latte_code.Engine.Ledger.Effects.{is_prepared, is_started, is_none, turn_at, changes}

abbrev pub is_ended : TurnStatus → Bool
is_ended completed = true
is_ended failed = true
is_ended TurnStatus.interrupted = true
is_ended _ = false

abbrev pub is_waiting_permission : TurnStatus → Bool
is_waiting_permission waiting_permission = true
is_waiting_permission _ = false

abbrev pub is_waiting : TurnStatus → Bool
is_waiting waiting_permission = true
is_waiting waiting_input = true
is_waiting _ = false

-- The unconsumed permission that a turn waits for, and its prepared effect.
abbrev pub bound_permission : TurnId → PendingPermission → PermissionRow → Bool
bound_permission id p row =
    row.effect_id == p.request_id
    && row.turn_id == id
    && row.approval_digest == p.operation_digest
    && is_none row.consumed_at_ms

abbrev pub bound_effect : TurnId → PendingPermission → EffectRow → Bool
bound_effect id p row = row.effect_id == p.request_id && row.turn_id == id && is_prepared row.status

abbrev pub failed_effect : Bool → ℕ → EffectRow → EffectRow
failed_effect denied now row = record row {
  status = observed_failed;
  post_evidence = some (if denied then "{\"denied\":true}" else "{\"cancelled\":true}");
  observed_at_ms = some now;
}

-- The permission is deleted and its effect has failed.
pub withdraw :
    Database → TurnId → Option PendingPermission → Bool → ℕ → Result Database StorageError
withdraw db id none denied now = ok db
withdraw db id (some p) denied now = do
  guard (count (bound_permission id p) db.permissions == 1)
      (invalid_data "waiting permission binding is not prepared")
  guard (count (bound_effect id p) db.effects == 1)
      (invalid_data "prepared effect cancellation failed")
  ok (record db {
    permissions = delete (bound_permission id p) db.permissions;
    effects = update (bound_effect id p) (failed_effect denied now) db.effects;
  })

abbrev pub abandoned_failure : Bool → TurnFailure
abandoned_failure denied = record {
  code = if denied then FailureCode.permission_denied else FailureCode.cancelled;
  message = if denied then "permission denied" else "run cancelled while waiting";
  retryability = Retryability.terminal;
}

-- The turn as the cancellation leaves it.
abbrev pub abandoned : TurnState → ℕ → Bool → TurnState
abandoned s revision denied = record s {
  revision = revision;
  status = failed;
  pending_permission = none;
  pending_input = none;
  failure = some (abandoned_failure denied);
}

-- A cancellation of a turn that has not ended, on the row that was read.
pub abandon :
    Database
    → TurnId
    → TurnRow
    → ℕ
    → Lease
    → EventId
    → ℕ
    → Bool
    → Result (TurnState × Option ℕ × Database) StorageError
abandon db id row expected lease event_id now denied = do
  guard (not (denied && not (is_waiting_permission row.state.status)))
      (invalid_data "turn is not waiting for permission")
  guard (is_waiting row.state.status) (invalid_data "turn is not waiting")
  released ← withdraw db id row.state.pending_permission denied now
  revision ← checked_add row.state.revision 1 (invalid_data "revision overflow")
  seq ← checked_add row.last_seq 1 (invalid_data "sequence overflow")
  after ←
      commit released id (abandoned row.state revision denied) (RuntimeEvent.state_changed failed)
        seq lease.fencing_token event_id now
        (λ (r : TurnRow). r.turn_id == id && r.revision == expected)
  ok (
    abandoned row.state revision denied,
    some seq,
    record after { checkpoints = delete (λ (c : TurnId × String). c.0 == id) after.checkpoints },
  )

-- `Storage::cancel_waiting`; no sequence number where the turn had ended already.
unfoldable pub cancel_waiting :
    Database
    → TurnId
    → ℕ
    → Lease
    → EventId
    → ℕ
    → Bool
    → Result (TurnState × Option ℕ × Database) StorageError
cancel_waiting db id expected lease event_id now denied = do
  require_runtime lease
  fits lease.fencing_token
  fits now
  guard (is_authoritative db lease now) lease_lost
  row ← ok_or (find (at_turn id) db.turns) sql
  guard (row.state.revision == expected) (stale_revision expected row.state.revision)
  guard (leb row.lease_token lease.fencing_token) lease_lost
  (if is_ended row.state.status
      then ok (row.state, none, db)
      else abandon db id row expected lease event_id now denied)

pub data LeaseLossRecovery : Type 0 where
  interrupted : TurnState → LeaseLossRecovery
  fenced_noop : LeaseLossRecovery
  already_terminal : TurnState → LeaseLossRecovery

abbrev pub is_running : TurnStatus → Bool
is_running running = true
is_running cancelling = true
is_running _ = false

abbrev pub unsettled : TurnId → EffectRow → Bool
unsettled id row = row.turn_id == id && is_started row.status

-- The writes of an interruption, on the row that was read.
unfoldable pub interrupt_row :
    Database → TurnRow → TurnId → EventId → ℕ → Result (LeaseLossRecovery × Database) StorageError
interrupt_row db row id event_id now = do
  revision ← checked_add row.state.revision 1 (invalid_data "revision overflow")
  seq ← checked_add row.last_seq 1 (invalid_data "sequence overflow")
  let next : TurnState = record row.state { revision = revision; status = TurnStatus.interrupted }
  after ←
      commit db id next (RuntimeEvent.state_changed TurnStatus.interrupted) seq row.lease_token
        event_id now (at_turn id)
  ok (
    interrupted next,
    record after {
      effects =
          update (unsettled id) (λ (e : EffectRow). record e { status = unknown }) after.effects;
    },
  )

-- `Storage::interrupt_after_lease_loss`.
unfoldable pub interrupt_after_lease_loss :
    Database → TurnId → Lease → ℕ → EventId → ℕ → Result (LeaseLossRecovery × Database) StorageError
interrupt_after_lease_loss db id lost expected event_id now = do
  require_runtime lost
  fits lost.fencing_token
  fits now
  guard (not (is_authoritative db lost now)) (invalid_data "lease is still authoritative")
  row ← ok_or (find (at_turn id) db.turns) sql
  (if not (row.lease_token == lost.fencing_token && row.state.revision == expected)
      then ok (fenced_noop, db)
      else if not (is_running row.state.status)
      then ok (already_terminal row.state, db)
      else interrupt_row db row id event_id now)

module _ (json_error : String → Option String) where
  abbrev check_payload : String → Result (Unit {0}) StorageError
  check_payload text = elim (json_error text) [
    | none ↦ ok tt
    | some message ↦ err (invalid_data message)
  ]

  -- `Storage::put_checkpoint`: one checkpoint for each turn.
  unfoldable pub put_checkpoint :
      Database → TurnId → ℕ → Lease → String → ℕ → Result Database StorageError
  put_checkpoint db id expected lease payload now = do
    require_runtime lease
    check_payload payload
    fits now
    fits lease.fencing_token
    fits expected
    guard (is_authoritative db lease now && turn_at db id expected lease.fencing_token) lease_lost
    ok (record db {
      checkpoints = (id, payload) ∷ delete (λ (c : TurnId × String). c.0 == id) db.checkpoints;
    })

-- `Storage::checkpoint`.
pub checkpoint : Database → TurnId → Option String
checkpoint db id = elim (find (λ (c : TurnId × String). c.0 == id) db.checkpoints) [
  | none ↦ none
  | some c ↦ some c.1
]
