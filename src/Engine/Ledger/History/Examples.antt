-- ===== src/Engine/Ledger/History/Examples.antt =====
-- Histories of the ledger of crates/latte-engine/src/storage.rs on concrete tables.
use latte_code.Base.{
  ℕ, ◌≡◌, ◌≢◌, refl, ◌⊎◌, String, true, false, none, some, [], ◌∷◌, ok, any, arith,
}
use latte_code.Engine.Ledger.{
  Database, Lease, prepared, started, unknown, observed_failed, is_authoritative,
}
use latte_code.Engine.Ledger.Fixtures.{
  describe, json_error, first_lease, second_lease, tables, approved, write_authority, write_effect,
  queued_turn, other_turn, turn_row,
}
use latte_code.Engine.Ledger.Leases.Lost.{IsLost}
use latte_code.Engine.Ledger.Leases.Examples.{tables-IsSound, taken, take_over, first-IsLost}
use latte_code.Engine.Ledger.Effects.{EffectAuthority, consumable, consume_permission_and_start}
use latte_code.Engine.Ledger.Replace.Examples.{inherited, rebound, rebind}
use latte_code.Core.Protocol.{TurnId, TurnStatus, RuntimeEvent, running}
use latte_code.Engine.Ledger.Effects.Status.{status_of}
use latte_code.Engine.Ledger.Effects.Examples.{
  running_write, consume_write, written_effect, finish_write,
}
use latte_code.Engine.Ledger.History.{
  IsLedger, History, idle, step, acquired, created, applied, finished, lease_loss,
}
use latte_code.Engine.Ledger.Waiting.{interrupted, interrupt_row, interrupt_after_lease_loss}
use latte_code.Engine.Ledger.Waiting.Interrupt.{IsInterruption}
use latte_code.Engine.Ledger.History.Fenced.{lost_only_interrupts}
use latte_code.Engine.Ledger.History.Whole.{IsWhole, History-IsWhole}
use latte_code.Engine.Ledger.Turns.Examples.{
  tables-IsConsistent, create_other, with_other, started_turn,
}
use latte_code.Engine.Ledger.Turns.Commit.{logged_event}
use latte_code.Engine.Ledger.Turns.{event_of, apply_transition, commit, insert_event}
use latte_code.Core.Turn.{TurnState, start, transition}
use latte_code.Core.Turn.Invariant.{IsWellFormed}
use latte_code.Engine.Ledger.History.Safety.{
  History-IsLedger, History-IsLost, consume_once, replace_final,
}

tables-IsLedger : IsLedger tables
tables-IsLedger = record { sound = tables-IsSound; keyed = tt }

approved-IsLedger : IsLedger approved
approved-IsLedger = record {
  sound = record { separate = (tt, tt); bounded = (omega arith, tt) };
  keyed = (refl, tt);
}

finished_write : History describe json_error running_write written_effect
finished_write = step idle (finished write_authority true "{}" 30 finish_write)

taken_over : History describe json_error tables taken
taken_over = step idle (acquired "runtime" "engine-2" none 150 100 second_lease take_over)

taken-IsLedger : IsLedger taken
taken-IsLedger = History-IsLedger describe json_error tables-IsLedger taken_over

History-IsLost_example :
    IsLost taken first_lease × ((now : ℕ) → is_authoritative taken first_lease now ≡ false)
History-IsLost_example =
    History-IsLost describe json_error first_lease taken-IsLedger first-IsLost idle

consume_once_example :
    consume_permission_and_start written_effect "effect-1" 7 0 first_lease "digest-1" 40
    ≢ ok (write_authority, running_write)
consume_once_example =
    consume_once describe json_error approved "effect-1" 7 0 first_lease "digest-1" 20
      {a = write_authority} {db' = running_write} {db'' = written_effect} approved-IsLedger
      consume_write finished_write 7 0 first_lease "digest-1" 40 (write_authority, running_write)

inherited-IsLedger : IsLedger inherited
inherited-IsLedger = record {
  sound = record { separate = (tt, tt); bounded = (omega arith, tt) };
  keyed = (refl, tt);
}

replace_final_example :
    (status_of inherited "effect-1" ≡ some prepared)
    × (status_of rebound "effect-1" ≡ some observed_failed)
    × ((turn' : TurnId) (revision' : ℕ) (lease' : Lease) (digest' : String) (now' : ℕ)
          (r : EffectAuthority × Database)
        → consume_permission_and_start rebound "effect-1" turn' revision' lease' digest' now'
          ≢ ok r)
    × (status_of rebound "effect-2" ≡ some prepared)
    × (any (consumable "effect-2" 7 4 second_lease "digest-2") rebound.permissions ≡ true)
replace_final_example =
    replace_final describe json_error inherited "effect-1" "effect-2" 7 4 1 "{}" "digest-2"
      second_lease 120 {db' = rebound} {db'' = rebound} inherited-IsLedger rebind idle

-- The second turn is created, then the first one starts.
abbrev started_first : Database
started_first = record with_other {
  turns =
      (record turn_row { turn_id = 8; state = other_turn; lease_token = 0 })
      ∷ (record turn_row { state = started_turn; status = running; revision = 1; last_seq = 1 })
      ∷ [];
  read_model =
      (record { turn_id = 8; revision = 0; last_seq = 0; state = other_turn })
      ∷ (record { turn_id = 7; revision = 1; last_seq = 1; state = started_turn })
      ∷ [];
  events = logged_event 7 started_turn (event_of started_turn) 1 41 50 ∷ [];
}

start_first :
    apply_transition describe with_other 7 0 start 41 50 first_lease
    ≡ ok (started_turn, started_first)
unfolding apply_transition is_authoritative commit insert_event transition
start_first = refl

tables-IsWhole : IsWhole tables
tables-IsWhole = record {
  ledger = tables-IsLedger;
  tables = record { agrees = tables-IsConsistent; owned = tt };
}

other-IsWellFormed : IsWellFormed other_turn
other-IsWellFormed = ground arith

History-IsWhole_example : IsWhole started_first
History-IsWhole_example =
    History-IsWhole describe json_error tables-IsWhole
      (step (step idle (created other_turn 5 create_other))
        (applied 7 0 start 41 50 first_lease started_turn start_first))
      ((tt, other-IsWellFormed), tt)

-- A running turn whose lease was given back.
abbrev running_turn : TurnState
running_turn = record queued_turn { revision = 1; status = running }

abbrev deserted : Database
deserted = record tables {
  leases = [];
  turns =
      (record turn_row { state = running_turn; status = running; revision = 1; last_seq = 1 }) ∷ [];
  read_model = (record { turn_id = 7; revision = 1; last_seq = 1; state = running_turn }) ∷ [];
  effects = (record write_effect { status = started }) ∷ [];
}

abbrev stopped_turn : TurnState
stopped_turn = record running_turn { revision = 2; status = TurnStatus.interrupted }

abbrev recovered : Database
recovered = record deserted {
  turns =
      (record turn_row {
        state = stopped_turn;
        status = TurnStatus.interrupted;
        revision = 2;
        last_seq = 2;
      })
      ∷ [];
  read_model = (record { turn_id = 7; revision = 2; last_seq = 2; state = stopped_turn }) ∷ [];
  events =
      logged_event 7 stopped_turn (RuntimeEvent.state_changed TurnStatus.interrupted) 2 51 60 ∷ [];
  effects = (record write_effect { status = unknown }) ∷ [];
}

deserted-IsLedger : IsLedger deserted
deserted-IsLedger = record { sound = record { separate = tt; bounded = tt }; keyed = (refl, tt) }

recover :
    interrupt_after_lease_loss deserted 7 first_lease 1 51 60
    ≡ ok (interrupted stopped_turn, recovered)
unfolding interrupt_after_lease_loss interrupt_row is_authoritative commit insert_event
recover = refl

lost_only_interrupts_example :
    (true ≡ true) × ((recovered ≡ deserted) ⊎ IsInterruption deserted first_lease recovered)
lost_only_interrupts_example =
    lost_only_interrupts describe json_error first_lease {db = deserted} {db' = deserted}
      {db'' = recovered} deserted-IsLedger (record { spent = omega arith; gone = refl }) idle
      (lease_loss 7 first_lease 1 51 60 (interrupted stopped_turn) recover) refl
