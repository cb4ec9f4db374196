-- ===== src/Engine/Ledger/Fixtures.antt =====
-- Concrete tables and values for the tests of crates/latte-engine/src/storage.rs.
use latte_code.Base.{String, Option, none, some, [], ◌∷◌}
use latte_code.Core.Protocol.{queued, waiting_permission}
use latte_code.Core.Turn.{TurnState, TransitionError}
use latte_code.Engine.Ledger.{Database, Lease, TurnRow, EffectRow, PermissionRow, prepared}
use latte_code.Engine.Ledger.Effects.{EffectAuthority}

abbrev pub describe : TransitionError → String
describe e = "transition refused"

abbrev pub json_error : String → Option String
json_error text = none

abbrev pub first_lease : Lease
first_lease = record {
  scope = "runtime";
  owner = "engine-1";
  fencing_token = 1;
  expires_at_ms = 100;
}

abbrev pub second_lease : Lease
second_lease = record {
  scope = "runtime";
  owner = "engine-2";
  fencing_token = 2;
  expires_at_ms = 250;
}

abbrev pub queued_turn : TurnState
queued_turn = record {
  turn_id = 7;
  revision = 0;
  status = queued;
  pending_permission = none;
  pending_input = none;
  failure = none;
  handoff = none;
}

abbrev pub other_turn : TurnState
other_turn = record queued_turn { turn_id = 8 }

abbrev pub turn_row : TurnRow
turn_row = record {
  turn_id = 7;
  state = queued_turn;
  status = queued;
  revision = 0;
  last_seq = 0;
  lease_token = 1;
  effect_epoch = 0;
}

-- One queued turn under the first lease.
abbrev pub tables : Database
tables = record {
  leases = first_lease ∷ [];
  last_token = 1;
  turns = turn_row ∷ [];
  linked = [];
  read_model = (record { turn_id = 7; revision = 0; last_seq = 0; state = queued_turn }) ∷ [];
  events = [];
  effects = [];
  permissions = [];
  checkpoints = [];
}

abbrev pub write_effect : EffectRow
write_effect = record {
  effect_id = "effect-1";
  turn_id = 7;
  status = prepared;
  started_at_ms = 10;
  attempt = 1;
  descriptor = "{}";
  approval_digest = "digest-1";
  pre_evidence = "{}";
  post_evidence = none;
  prepared_at_ms = 10;
  observed_at_ms = none;
}

abbrev pub write_permission : PermissionRow
write_permission = record {
  effect_id = "effect-1";
  turn_id = 7;
  turn_revision = 0;
  lease_owner = "engine-1";
  lease_token = 1;
  approval_digest = "digest-1";
  consumed_at_ms = none;
}

-- A prepared effect of the turn, with its permission.
abbrev pub approved : Database
approved = record tables { effects = write_effect ∷ []; permissions = write_permission ∷ [] }

abbrev pub write_authority : EffectAuthority
write_authority = record {
  turn_id = 7;
  expected_revision = 0;
  lease = first_lease;
  effect_id = "effect-1";
  digest = "digest-1";
  attempt = 1;
}

-- The turn waits for the permission of the effect.
abbrev pub waiting_turn : TurnState
waiting_turn = record queued_turn {
  revision = 2;
  status = waiting_permission;
  pending_permission =
      some
        (record { request_id = "effect-1"; operation_digest = "digest-1"; description = "write" });
}

abbrev pub waiting_row : TurnRow
waiting_row = record turn_row {
  state = waiting_turn;
  status = waiting_permission;
  revision = 2;
  last_seq = 2;
}

abbrev pub asking : Database
asking = record approved {
  turns = waiting_row ∷ [];
  read_model = (record { turn_id = 7; revision = 2; last_seq = 2; state = waiting_turn }) ∷ [];
  permissions = (record write_permission { turn_revision = 2 }) ∷ [];
}
