-- ===== src/Engine/Ledger/Turns.antt =====
-- The turn operations of crates/latte-engine/src/storage.rs for turns of the runtime scope: create,
-- load, apply a transition, and append an event. The identifier of a new event is an argument.
pub mod Rows
pub mod Commit
pub mod Create
pub mod Append
pub mod Touched
pub mod Examples
pub mod Apply
use latte_code.Base.{
  ℕ, ◌+◌, String, Bool, true, false, not, ◌&&◌, ◌||◌, Option, none, some, List, [], ◌∷◌, ◌++◌, map,
  Result, ok, err, guard, ◌>>=◌, ◌>>◌, ◌==◌, any, find, count, update, delete, ltb, leb,
  if◌then◌else◌, ok_or, u64_max, nat_eq, string_eq,
}
use latte_code.Core.Protocol.{
  TurnId, EventId, TurnStatus, TurnFailure, FailureCode, Retryability, RuntimeEvent, EventEnvelope,
  protocol_version, Handoff, PendingPermission,
}
use latte_code.Core.Turn.{TurnState, Transition, TransitionError, transition}
use latte_code.Engine.Ledger.{
  Database, Lease, TurnRow, ReadRow, EventRow, EffectRow, PermissionRow, EffectStatus, StorageError,
  sql, invalid_data, turn_not_found, stale_revision, lease_lost, fits, require_runtime,
  is_authoritative,
}
use latte_code.Engine.Ledger.Leases.{checked_add}

abbrev pub at_turn : TurnId → TurnRow → Bool
at_turn id row = row.turn_id == id

abbrev pub read_at : TurnId → ReadRow → Bool
read_at id row = row.turn_id == id

-- `Storage::create_run_with_baseline` without a baseline, as `Storage::create_turn` of the tests calls
-- it; the primary keys of both tables refuse a turn that is there.
pub create_turn : Database → TurnState → ℕ → Result Database StorageError
create_turn db state now = do
  fits state.revision
  fits now
  guard (not (any (at_turn state.turn_id) db.turns)) sql
  guard (not (any (read_at state.turn_id) db.read_model)) sql
  let row : TurnRow = record {
    turn_id = state.turn_id;
    state = state;
    status = state.status;
    revision = state.revision;
    last_seq = 0;
    lease_token = 0;
    effect_epoch = 0;
  }
  let read : ReadRow = record {
    turn_id = state.turn_id;
    revision = state.revision;
    last_seq = 0;
    state = state;
  }
  ok (record db { turns = row ∷ db.turns; read_model = read ∷ db.read_model })

-- `Storage::load_turn`.
unfoldable pub load_turn : Database → TurnId → Result TurnState StorageError
load_turn db id = elim (find (read_at id) db.read_model) [
  | none ↦ err (turn_not_found id)
  | some r ↦ ok r.state
]

-- The event of a new state.
abbrev pub event_of : TurnState → RuntimeEvent
event_of state = elim state.handoff [
  | some handoff ↦ RuntimeEvent.handoff_produced handoff
  | none ↦ RuntimeEvent.state_changed state.status
]

-- `INSERT INTO events`: the key is the turn and the sequence number, and the event's identifier is
-- unique.
unfoldable pub insert_event : EventRow → List EventRow → Result (List EventRow) StorageError
insert_event e events =
    if any
      (λ (x : EventRow).
        (x.turn_id == e.turn_id && x.seq == e.seq) || x.envelope.event_id == e.envelope.event_id)
      events
    then err sql
    else ok (events ++ e ∷ [])

-- `UPDATE turns SET state_json=…,status=…,revision=…,last_seq=…,lease_token=…`.
abbrev pub written : TurnState → ℕ → ℕ → TurnRow → TurnRow
written state seq token row = record row {
  state = state;
  status = state.status;
  revision = state.revision;
  last_seq = seq;
  lease_token = token;
}

-- `UPDATE turn_read_model SET revision=…,last_seq=…,state_json=…`.
abbrev pub mirrored : TurnState → ℕ → ReadRow → ReadRow
mirrored state seq row = record row { revision = state.revision; last_seq = seq; state = state }

-- A commit of a new state of the turn: its event, its row where the test selects it, and its mirror.
unfoldable pub commit :
    Database
    → TurnId
    → TurnState
    → RuntimeEvent
    → ℕ
    → ℕ
    → EventId
    → ℕ
    → (TurnRow → Bool)
    → Result Database StorageError
commit db id next event seq token event_id now selects = do
  let envelope : EventEnvelope = record {
    protocol_version = protocol_version;
    event_id = event_id;
    turn_id = id;
    revision = next.revision;
    event = event;
  }
  fits seq
  fits next.revision
  fits now
  events ←
      insert_event (record { turn_id = id; seq = seq; envelope = envelope; created_at_ms = now })
        db.events
  ok (record db {
    turns = update selects (written next seq token) db.turns;
    read_model = update (read_at id) (mirrored next seq) db.read_model;
    events = events;
  })

module _ (describe : TransitionError → String) where
  -- `map_err(|e| StorageError::InvalidData(e.to_string()))`.
  abbrev pub invalid_transition : Result TurnState TransitionError → Result TurnState StorageError
  invalid_transition (ok s) = ok s
  invalid_transition (err e) = err (invalid_data (describe e))

  -- `Storage::apply_transition`.
  unfoldable pub apply_transition :
      Database
      → TurnId
      → ℕ
      → Transition
      → EventId
      → ℕ
      → Lease
      → Result (TurnState × Database) StorageError
  apply_transition db id expected t event_id now lease = do
    require_runtime lease
    fits lease.fencing_token
    fits now
    guard (is_authoritative db lease now) lease_lost
    row ← ok_or (find (at_turn id) db.turns) sql
    guard (row.state.revision == expected) (stale_revision expected row.state.revision)
    guard (leb row.lease_token lease.fencing_token) lease_lost
    next ← invalid_transition (transition row.state expected t)
    seq ← checked_add row.last_seq 1 (invalid_data "event sequence overflow")
    after ←
        commit db id next (event_of next) seq lease.fencing_token event_id now
          (λ (r : TurnRow). r.turn_id == id && r.revision == expected)
    ok (next, after)

-- `Storage::append_event`, with the event's identifier as an argument; only tests call it.
unfoldable pub append_event :
    Database
    → TurnState
    → ℕ
    → EventId
    → RuntimeEvent
    → ℕ
    → Lease
    → Result (ℕ × Database) StorageError
append_event db next expected event_id event now lease = do
  require_runtime lease
  fits lease.fencing_token
  fits now
  guard (is_authoritative db lease now) lease_lost
  row ← ok_or (find (at_turn next.turn_id) db.turns) (turn_not_found next.turn_id)
  guard (row.revision == expected) (stale_revision expected row.revision)
  guard (leb row.lease_token lease.fencing_token) lease_lost
  following ← checked_add expected 1 (invalid_data "revision overflow")
  guard (next.revision == following) (invalid_data "next state revision must increment once")
  seq ← checked_add row.last_seq 1 (invalid_data "event sequence overflow")
  after ←
      commit db next.turn_id next event seq lease.fencing_token event_id now
        (λ (r : TurnRow). r.turn_id == next.turn_id && r.revision == expected)
  ok (seq, after)
