-- ===== src/Core/Turn.antt =====
-- crates/latte-core/src/state.rs: the durable state of one turn and its checked transitions.
pub mod Revision
pub mod Invariant
pub mod Graph
pub mod Outcomes
mod Examples
use latte_code.Base.{
  ℕ, ◌+◌, String, List, Bool, true, false, not, ◌&&◌, Option, none, some, Result, ok, err, ◌==◌,
  all, is_empty, if◌then◌else◌, ok_or, ◌>>=◌, guard, ◌>>◌, u64_max, nat_eq, string_eq,
}
use latte_code.Core.Protocol.{
  TurnId, TurnStatus, PendingPermission, PendingInput, TurnFailure, Handoff, Evidence, FailureCode,
  Retryability, is_completed, is_passed, is_retryable, queued, running, waiting_permission,
  waiting_input, cancelling, interrupted, failed, completed,
}

pub record TurnState : Type 0 where
  pub turn_id : TurnId
  pub revision : ℕ  -- u64
  pub status : TurnStatus
  pub pending_permission : Option PendingPermission
  pub pending_input : Option PendingInput
  pub failure : Option TurnFailure
  pub handoff : Option Handoff

-- Every legal state mutation.
pub data CompletionPolicy : Type 0 where
  verification_not_required verification_required : CompletionPolicy

pub data Transition : Type 0 where
  start : Transition
  request_permission : PendingPermission → Transition
  resolve_permission : String → Bool → Transition
  refresh_permission : PendingPermission → Transition
  request_input : PendingInput → Transition
  provide_input : String → Transition
  cancel interrupt : Transition
  fail : TurnFailure → Transition
  resume : Transition
  complete : Handoff → CompletionPolicy → Transition

pub data TransitionError : Type 0 where
  stale_revision : ℕ → ℕ → TransitionError
  invalid : TurnStatus → TransitionError
  mismatched_request missing_pending completed_immutable revision_overflow : TransitionError

-- `TurnState::queued`.
unfoldable pub new : TurnId → TurnState
new id = record {
  turn_id = id;
  revision = 0;
  status = queued;
  pending_permission = none;
  pending_input = none;
  failure = none;
  handoff = none;
}

abbrev pub denial : TurnFailure
denial = record {
  code = FailureCode.permission_denied;
  message = "permission was denied";
  retryability = Retryability.terminal;
}

abbrev pub unverified : TurnFailure
unverified = record {
  code = FailureCode.verification_failed;
  message = "required verification did not pass";
  retryability = Retryability.terminal;
}

resolve : TurnState → String → Bool → Option PendingPermission → Result TurnState TransitionError
resolve next request_id allowed none = err missing_pending
resolve next request_id allowed (some pending) =
    if pending.request_id == request_id
    then ok (
        if allowed
        then record next { pending_permission = none; status = running }
        else record next { pending_permission = none; status = failed; failure = some denial })
    else err mismatched_request

provide : TurnState → String → Option PendingInput → Result TurnState TransitionError
provide next request_id none = err missing_pending
provide next request_id (some pending) =
    if pending.request_id == request_id
    then ok (record next { pending_input = none; status = running })
    else err mismatched_request

-- The second disjunct of the guard of `Resume`.
abbrev resumable : Option TurnFailure → Bool
resumable none = false
resumable (some f) = is_retryable f.retryability

pub verification_passed : CompletionPolicy → Handoff → Bool
verification_passed verification_not_required h = true
verification_passed verification_required h =
    not (is_empty h.evidence) && all (λ (e : Evidence). is_passed e.status) h.evidence

finish : TurnState → Handoff → CompletionPolicy → TurnState
unfolding verification_passed
finish next h policy =
    if verification_passed policy h
    then record next { status = completed; handoff = some h }
    else record next { status = failed; failure = some unverified }

-- The `match` of `transition`: the transition, the status that its guards test, the state and the
-- copy with the next revision.
arm : Transition → TurnStatus → TurnState → TurnState → Result TurnState TransitionError
unfolding resolve provide finish
arm start queued s next = ok (record next { status = running })
arm (request_permission r) running s next =
    ok (record next { status = waiting_permission; pending_permission = some r })
arm (resolve_permission id allowed) waiting_permission s next =
    resolve next id allowed s.pending_permission
arm (refresh_permission r) waiting_permission s next =
    ok (record next { status = waiting_permission; pending_permission = some r })
arm (request_input r) running s next =
    ok (record next { status = waiting_input; pending_input = some r })
arm (provide_input id) waiting_input s next = provide next id s.pending_input
arm cancel queued s next =
    ok (record next { status = cancelling; pending_input = none; pending_permission = none })
arm cancel running s next =
    ok (record next { status = cancelling; pending_input = none; pending_permission = none })
arm cancel waiting_permission s next =
    ok (record next { status = cancelling; pending_input = none; pending_permission = none })
arm cancel waiting_input s next =
    ok (record next { status = cancelling; pending_input = none; pending_permission = none })
arm interrupt running s next = ok (record next { status = interrupted })
arm interrupt cancelling s next = ok (record next { status = interrupted })
arm (fail f) queued s next = ok (record next { status = failed; failure = some f })
arm (fail f) running s next = ok (record next { status = failed; failure = some f })
arm (fail f) cancelling s next = ok (record next { status = failed; failure = some f })
arm resume interrupted s next = ok (record next { status = queued; failure = none })
arm resume failed s next =
    if resumable s.failure
    then ok (record next { status = queued; failure = none })
    else err (invalid failed)
arm (complete h policy) running s next = ok (finish next h policy)
arm _ status s next = err (invalid status)

-- `TurnState::transition`.
unfoldable pub transition : TurnState → ℕ → Transition → Result TurnState TransitionError
unfolding arm
transition s expected_revision t = do
  guard (s.revision == expected_revision) (stale_revision expected_revision s.revision)
  guard (not (is_completed s.status)) completed_immutable
  guard (not (s.revision == u64_max)) revision_overflow
  arm t s.status s (record s { revision = s.revision + 1 })
