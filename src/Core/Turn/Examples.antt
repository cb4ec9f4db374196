-- ===== src/Core/Turn/Examples.antt =====
-- The transitions of crates/latte-core/src/state.rs on concrete turns.
use mathlib.Core.Logic.Or
use mathlib.Core.List.{mem-cons, not-mem-nil}
use latte_code.Base.{◌≡◌, refl, Bool, true, false, none, some, [], ◌∷◌, ok, err, arith}
use latte_code.Core.Protocol.{
  PendingPermission, Handoff, Evidence, VerificationStatus, queued, running, waiting_permission,
  failed, completed,
}
use latte_code.Core.Turn.{
  TurnState, Transition, verification_required, mismatched_request, start, request_permission,
  complete, resolve_permission, denial, unverified, transition, new,
}
use latte_code.Core.Turn.Revision.{Reaches, here, next}
use latte_code.Core.Turn.Invariant.{IsWellFormed, Reaches-IsWellFormed}
use latte_code.Core.Turn.Graph.{◌⟶◌, LandsIn, allows, transition-⟶, ⟶-LandsIn}
use latte_code.Core.Turn.Outcomes.{
  IsVerified, VerificationStatus-set, complete-IsVerified, resolve_exact,
}

abbrev fresh : TurnState
fresh = record {
  turn_id = 7;
  revision = 0;
  status = queued;
  pending_permission = none;
  pending_input = none;
  failure = none;
  handoff = none;
}

abbrev active : TurnState
active = record fresh { revision = 1; status = running }

abbrev write_request : PendingPermission
write_request = record {
  request_id = "permission-1";
  operation_digest = "digest";
  description = "write a file";
}

abbrev waiting : TurnState
waiting = record fresh {
  revision = 2;
  status = waiting_permission;
  pending_permission = some write_request;
}

abbrev denied : TurnState
denied = record fresh { revision = 3; status = failed; failure = some denial }

abbrev check : Evidence
check = record { name = "check-0"; status = VerificationStatus.passed; summary = "result" }

abbrev report : Handoff
report = record { summary = "done"; files_changed = "src/lib.rs" ∷ []; evidence = check ∷ [] }

abbrev done : TurnState
done = record fresh { revision = 2; status = completed; handoff = some report }

transition_start : transition fresh 0 start ≡ ok active
unfolding transition
transition_start = refl

transition_ask : transition active 1 (request_permission write_request) ≡ ok waiting
unfolding transition
transition_ask = refl

transition_wrong : transition waiting 2 (resolve_permission "wrong" true) ≡ err mismatched_request
unfolding transition
transition_wrong = refl

transition_deny : transition waiting 2 (resolve_permission "permission-1" false) ≡ ok denied
unfolding transition
transition_deny = refl

transition_complete : transition active 1 (complete report verification_required) ≡ ok done
unfolding transition
transition_complete = refl

started : Reaches (new 7) 1 active
unfolding new transition
started = next 0 start here refl

waiting-IsWellFormed : IsWellFormed waiting
waiting-IsWellFormed = ground arith

active-IsWellFormed : IsWellFormed active
active-IsWellFormed = ground arith

Reaches-IsWellFormed_example : IsWellFormed active
Reaches-IsWellFormed_example = Reaches-IsWellFormed 7 started

transition-⟶_example : queued ⟶ running
transition-⟶_example = transition-⟶ fresh 0 start transition_start

⟶-LandsIn_example : (t : Transition) × LandsIn running (transition waiting 2 t)
⟶-LandsIn_example = ⟶-LandsIn waiting waiting-IsWellFormed (λ e. cc) (λ e. cc) refl allows

report-IsVerified : IsVerified report
report-IsVerified = (
  λ e. cc,
  λ e m.
      Or.elim (VerificationStatus-set _ _) (mem-cons.0 m) (λ q. ground (arith, q))
        (λ n. absurd (not-mem-nil n)),
)

complete-IsVerified_example :
    (IsVerified report → (done.status ≡ completed) × (done.handoff ≡ some report))
    × (¬ IsVerified report
        → (done.status ≡ failed) × (done.failure ≡ some unverified) × (done.handoff ≡ none))
complete-IsVerified_example =
    complete-IsVerified active 1 report active-IsWellFormed transition_complete

complete-IsVerified_done : done.status ≡ completed
complete-IsVerified_done = (complete-IsVerified_example.0 report-IsVerified).0

resolve_exact_example :
    ((p : PendingPermission) × (waiting.pending_permission ≡ some p)
      × (p.request_id ≡ "permission-1"))
    × (denied.pending_permission ≡ none)
    × (false ≡ true → (denied.status ≡ running) × (denied.failure ≡ none))
    × (◌≡◌ {A = Bool} false false → (denied.status ≡ failed) × (denied.failure ≡ some denial))
resolve_exact_example =
    resolve_exact waiting 2 "permission-1" false waiting-IsWellFormed transition_deny
