-- ===== src/Engine/Ledger/Waiting/Examples.antt =====
-- A denied turn of crates/latte-engine/src/storage.rs on concrete tables.
use latte_code.Base.{true, [], ◌∷◌}
use latte_code.Core.Protocol.{RuntimeEvent, failed}
use latte_code.Core.Turn.{TurnState}
use latte_code.Engine.Ledger.{Database}
use latte_code.Engine.Ledger.Fixtures.{waiting_turn, waiting_row, asking, write_effect}
use latte_code.Engine.Ledger.Turns.Commit.{logged_event}
use latte_code.Engine.Ledger.Waiting.{abandoned, failed_effect}

abbrev denied_turn : TurnState
denied_turn = abandoned waiting_turn 3 true

abbrev after_denial : Database
after_denial = record asking {
  turns =
      (record waiting_row { state = denied_turn; status = failed; revision = 3; last_seq = 3 })
      ∷ [];
  read_model = (record { turn_id = 7; revision = 3; last_seq = 3; state = denied_turn }) ∷ [];
  events = logged_event 7 denied_turn (RuntimeEvent.state_changed failed) 3 41 50 ∷ [];
  permissions = [];
  effects = failed_effect true 50 write_effect ∷ [];
}
