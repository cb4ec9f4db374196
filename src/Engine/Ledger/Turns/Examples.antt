-- ===== src/Engine/Ledger/Turns/Examples.antt =====
-- The turns of crates/latte-engine/src/storage.rs on concrete tables.
use latte_code.Base.{ℕ, ◌≡◌, ◌≢◌, refl, true, [], ◌∷◌, ◌++◌, ok, arith}
use latte_code.Core.Protocol.{TurnId, running}
use latte_code.Core.Turn.{TurnState, start, transition}
use latte_code.Core.Turn.Invariant.{IsWellFormed}
use latte_code.Engine.Ledger.{Database, is_authoritative}
use latte_code.Engine.Ledger.Fixtures.{
  describe, first_lease, queued_turn, other_turn, tables, turn_row,
}
use latte_code.Engine.Ledger.Turns.{
  append_event, apply_transition, create_turn, load_turn, commit, insert_event, event_of,
}
use latte_code.Engine.Ledger.Turns.Rows.{IsConsistent}
use latte_code.Engine.Ledger.Turns.Commit.{SameElse, logged_event}
use latte_code.Engine.Ledger.Turns.Apply.{apply_refines, apply-IsConsistent, apply_total}

pub queued-IsWellFormed : IsWellFormed queued_turn
queued-IsWellFormed = ground arith

pub tables-IsConsistent : IsConsistent tables
tables-IsConsistent = record {
  distinct = (refl, tt);
  rows = (
    record {
      identity = refl;
      revision = refl;
      status = refl;
      formed = queued-IsWellFormed;
      token = omega arith;
    },
    tt,
  );
  mirror = refl;
  logged = tt;
}

abbrev pub started_turn : TurnState
started_turn = record queued_turn { revision = 1; status = running }

abbrev after_start : Database
after_start = record tables {
  turns =
      (record turn_row { state = started_turn; status = running; revision = 1; last_seq = 1 }) ∷ [];
  read_model = (record { turn_id = 7; revision = 1; last_seq = 1; state = started_turn }) ∷ [];
  events = logged_event 7 started_turn (event_of started_turn) 1 41 50 ∷ [];
}

apply_start :
    apply_transition describe tables 7 0 start 41 50 first_lease ≡ ok (started_turn, after_start)
unfolding apply_transition is_authoritative commit insert_event transition
apply_start = refl

apply-IsConsistent_example : IsConsistent after_start
apply-IsConsistent_example =
    apply-IsConsistent describe tables 7 0 start 41 50 first_lease {next = started_turn}
      {db' = after_start} tables-IsConsistent (omega arith) apply_start

apply_refines_example :
    ((s : TurnState) × (load_turn tables 7 ≡ ok s) × (transition s 0 start ≡ ok started_turn))
    × (load_turn after_start 7 ≡ ok started_turn)
    × ((j : TurnId) → j ≢ 7 → load_turn after_start j ≡ load_turn tables j)
    × ((seq : ℕ) × (after_start.events
          ≡ tables.events ++ logged_event 7 started_turn (event_of started_turn) seq 41 50 ∷ []))
    × SameElse tables after_start
apply_refines_example =
    apply_refines describe tables 7 0 start 41 50 first_lease {next = started_turn}
      {db' = after_start} tables-IsConsistent apply_start

live : is_authoritative tables first_lease 50 ≡ true
unfolding is_authoritative
live = refl

start_step : transition queued_turn 0 start ≡ ok started_turn
unfolding transition
start_step = refl

apply_total_example :
    (db' : Database) × (apply_transition describe tables 7 0 start 41 50 first_lease
      ≡ ok (started_turn, db'))
apply_total_example =
    apply_total describe tables 7 0 start 41 50 first_lease {row = turn_row} {next = started_turn}
      tables-IsConsistent refl (omega arith) (omega arith) live refl (omega arith) start_step
      (omega arith) (omega arith) refl

abbrev pub with_other : Database
with_other = record tables {
  turns = (record turn_row { turn_id = 8; state = other_turn; lease_token = 0 }) ∷ tables.turns;
  read_model =
      (record { turn_id = 8; revision = 0; last_seq = 0; state = other_turn }) ∷ tables.read_model;
}

pub create_other : create_turn tables other_turn 5 ≡ ok with_other
unfolding create_turn
create_other = refl

appended :
    append_event tables started_turn 0 41 (event_of started_turn) 50 first_lease
    ≡ ok (1, after_start)
unfolding append_event is_authoritative commit insert_event
appended = refl
