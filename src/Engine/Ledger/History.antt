-- ===== src/Engine/Ledger/History.antt =====
-- Histories of the ledger of crates/latte-engine/src/storage.rs: any sequence of successful calls, by
-- any number of lease holders, in any order and at any times. The calls are those of the program, and
-- append_event, which tests make; what holds of these histories holds of those without it.
mod Examples
pub mod Steps
pub mod Tables
pub mod Whole
pub mod Fenced
pub mod Safety
use latte_code.Base.{
  ℕ, ◌≡◌, ◌≢◌, refl, ap, ◌∙◌, subst, String, Bool, true, false, Option, none, some, Result, ok, err,
  arith,
}
use latte_code.Core.Protocol.{TurnId, EventId}
use latte_code.Core.Turn.{TurnState, Transition, TransitionError}
use latte_code.Engine.Ledger.{
  Database, Lease, EffectRow, EffectStatus, StorageError, is_authoritative, prepared, started,
  observed_success, observed_failed, unknown,
}
use latte_code.Engine.Ledger.Leases.{acquire_scoped_lease, renew_lease, release_lease}
use latte_code.Engine.Ledger.Leases.Acquire.{acquire-effects}
use latte_code.Engine.Ledger.Leases.Fencing.{
  IsSound, acquire-IsSound, renew-IsSound, release-IsSound,
}
use latte_code.Engine.Ledger.Leases.Lost.{
  IsLost, lost-is_authoritative, IsLost-acquire, IsLost-renew, IsLost-release,
}
use latte_code.Engine.Ledger.Turns.{create_turn, apply_transition}
use latte_code.Engine.Ledger.Turns.Create.{create-ok}
use latte_code.Engine.Ledger.Turns.Apply.{apply-SameElse}
use latte_code.Engine.Ledger.Effects.{
  EffectAuthority, create_prepared_permission, consume_permission_and_start, finish_effect,
  mark_effect_unknown,
}
use latte_code.Engine.Ledger.Replace.{replace_pending_effect}
use latte_code.Engine.Ledger.Effects.Status.{
  Keyed, status_of, Moves, stays, prepares, starts, succeeds, fails, loses, cancels, create-Moves,
  consume-Moves, finish-Moves, mark-Moves,
}
use latte_code.Engine.Ledger.Effects.Once.{
  is_spent, Moves-is_spent, consume-status_of, create-Keyed, consume-Keyed, finish-Keyed,
  mark-Keyed,
}
use latte_code.Engine.Ledger.Effects.Untouched.{
  SameLeases, create-SameLeases, consume-SameLeases, finish-SameLeases, mark-SameLeases,
}
use latte_code.Core.Protocol.{RuntimeEvent}
use latte_code.Engine.Ledger.Turns.{append_event}
use latte_code.Engine.Ledger.Waiting.{
  LeaseLossRecovery, cancel_waiting, interrupt_after_lease_loss, put_checkpoint,
}

-- A call that succeeded, between the tables before and after it.
pub data Call (describe : TransitionError → String) (json_error : String → Option String)
    (db db' : Database) : Type 0 where
  acquired :
      (scope owner : String) (turn : Option TurnId) (now ttl : ℕ) (l : Lease)
      → acquire_scoped_lease db scope owner turn now ttl ≡ ok (l, db')
      → Call describe json_error db db'
  renewed :
      (held : Lease) (now ttl : ℕ) (l : Lease)
      → renew_lease db held now ttl ≡ ok (l, db')
      → Call describe json_error db db'
  released : (held : Lease) → release_lease db held ≡ ok db' → Call describe json_error db db'
  created :
      (state : TurnState) (now : ℕ)
      → create_turn db state now ≡ ok db'
      → Call describe json_error db db'
  applied :
      (id : TurnId) (expected : ℕ) (t : Transition) (event_id : EventId) (now : ℕ) (held : Lease)
      (next : TurnState)
      → apply_transition describe db id expected t event_id now held ≡ ok (next, db')
      → Call describe json_error db db'
  prepared_permission :
      (effect_id : String) (turn : TurnId) (expected bound attempt : ℕ) (descriptor digest : String)
      (held : Lease) (now : ℕ)
      → create_prepared_permission json_error db effect_id turn expected bound attempt descriptor
          digest held now
        ≡ ok db'
      → Call describe json_error db db'
  consumed_permission :
      (effect_id : String) (turn : TurnId) (revision : ℕ) (held : Lease) (digest : String) (now : ℕ)
      (a : EffectAuthority)
      → consume_permission_and_start db effect_id turn revision held digest now ≡ ok (a, db')
      → Call describe json_error db db'
  finished :
      (a : EffectAuthority) (success : Bool) (post : String) (now : ℕ)
      → finish_effect json_error db a success post now ≡ ok db'
      → Call describe json_error db db'
  marked_unknown :
      (a : EffectAuthority) (now : ℕ)
      → mark_effect_unknown db a now ≡ ok db'
      → Call describe json_error db db'
  appended :
      (next : TurnState) (expected : ℕ) (event_id : EventId) (event : RuntimeEvent) (now : ℕ)
      (held : Lease) (seq : ℕ)
      → append_event db next expected event_id event now held ≡ ok (seq, db')
      → Call describe json_error db db'
  ended :
      (id : TurnId) (expected : ℕ) (held : Lease) (event_id : EventId) (now : ℕ) (denied : Bool)
      (next : TurnState) (seq : Option ℕ)
      → cancel_waiting db id expected held event_id now denied ≡ ok (next, seq, db')
      → Call describe json_error db db'
  lease_loss :
      (id : TurnId) (lost : Lease) (expected : ℕ) (event_id : EventId) (now : ℕ)
      (r : LeaseLossRecovery)
      → interrupt_after_lease_loss db id lost expected event_id now ≡ ok (r, db')
      → Call describe json_error db db'
  checkpointed :
      (id : TurnId) (expected : ℕ) (held : Lease) (payload : String) (now : ℕ)
      → put_checkpoint json_error db id expected held payload now ≡ ok db'
      → Call describe json_error db db'
  replaced :
      (old_id new_id : String) (turn : TurnId) (revision attempt : ℕ) (descriptor digest : String)
      (held : Lease) (now : ℕ)
      → replace_pending_effect json_error db old_id new_id turn revision attempt descriptor digest
          held now
        ≡ ok db'
      → Call describe json_error db db'

pub data History (describe : TransitionError → String) (json_error : String → Option String)
    (db : Database) : Database → Type 0 where
  idle : History describe json_error db db
  step :
      {mid last : Database}
      → History describe json_error db mid
      → Call describe json_error mid last
      → History describe json_error db last

-- The invariant that the leases and the effects need of every state.
pub record IsLedger (db : Database) : Type 0 where
  pub sound : IsSound db
  pub keyed : Keyed db.effects

abbrev pub is_outcome : EffectStatus → Bool
is_outcome observed_success = true
is_outcome observed_failed = true
is_outcome unknown = true
is_outcome _ = false
