-- ===== src/Core/Turn/Graph.antt =====
-- The lifecycle of crates/latte-core/src/state.rs as a diagram of statuses, and what its edges need.
use latte_code.Base.{
  ℕ, ◌≡◌, ◌≢◌, true, false, Option, none, some, String, [], Result, ok, err, arith, u64_max,
}
use latte_code.Core.Protocol.{
  TurnStatus, PendingPermission, PendingInput, Handoff, queued, running, waiting_permission,
  waiting_input, cancelling, interrupted, failed, completed,
}
use latte_code.Core.Turn.{
  TurnState, Transition, TransitionError, start, request_permission, refresh_permission,
  request_input, provide_input, fail, resume, arm, complete, cancel, interrupt, resolve_permission,
  denial, verification_not_required, resumable, transition,
}
use latte_code.Core.Turn.Invariant.{IsWellFormed}
use text.Mathlib.TextPositions.{eq_refl}

infix 40 ◌⟶◌
pub data ◌⟶◌ : TurnStatus → TurnStatus → Type 0 where
  starts : queued ⟶ running
  asks : running ⟶ waiting_permission
  allows : waiting_permission ⟶ running
  denies : waiting_permission ⟶ failed
  refreshes : waiting_permission ⟶ waiting_permission
  requests : running ⟶ waiting_input
  provides : waiting_input ⟶ running
  cancels_queued : queued ⟶ cancelling
  cancels_running : running ⟶ cancelling
  cancels_permission : waiting_permission ⟶ cancelling
  cancels_input : waiting_input ⟶ cancelling
  interrupts : running ⟶ interrupted
  stops : cancelling ⟶ interrupted
  fails_queued : queued ⟶ failed
  fails_running : running ⟶ failed
  fails_cancelling : cancelling ⟶ failed
  resumes : interrupted ⟶ queued
  retries : failed ⟶ queued
  completes : running ⟶ completed

ruleset edges = (
  starts, asks, allows, denies, refreshes, requests, provides, cancels_queued, cancels_running,
  cancels_permission, cancels_input, interrupts, stops, fails_queued, fails_running,
  fails_cancelling, resumes, retries, completes,
)

arm-⟶ :
    (t : Transition) (status : TurnStatus) (s next : TurnState) {s' : TurnState}
    → arm t status s next ≡ ok s'
    → status ⟶ s'.status
unfolding arm
arm-⟶ start status s n h = grind (arith, edges)
arm-⟶ (request_permission r) status s n h = grind (arith, edges)
arm-⟶ (resolve_permission id allowed) status s n h = grind (arith, edges)
arm-⟶ (refresh_permission r) status s n h = grind (arith, edges)
arm-⟶ (request_input r) status s n h = grind (arith, edges)
arm-⟶ (provide_input id) status s n h = grind (arith, edges)
arm-⟶ cancel status s n h = grind (arith, edges)
arm-⟶ interrupt status s n h = grind (arith, edges)
arm-⟶ (fail f) status s n h = grind (arith, edges)
arm-⟶ resume status s n h = grind (arith, edges)
arm-⟶ (complete h' p) status s n h = grind (arith, edges)

-- An accepted transition follows an edge of the diagram.
pub transition-⟶ :
    (s : TurnState) (expected : ℕ) (t : Transition) {s' : TurnState}
    → transition s expected t ≡ ok s'
    → s.status ⟶ s'.status
unfolding transition
transition-⟶ s expected t h = grind (arith, arm-⟶)

-- A call that succeeds in the given status.
abbrev pub LandsIn : TurnStatus → Result TurnState TransitionError → Type 0
LandsIn status (ok s) = s.status ≡ status
LandsIn status (err e) = ⊥

abbrev permission_id : Option PendingPermission → String
permission_id none = ""
permission_id (some p) = p.request_id

abbrev input_id : Option PendingInput → String
input_id none = ""
input_id (some p) = p.request_id

abbrev question : PendingPermission
question = record { request_id = "p"; operation_digest = "d"; description = "" }

abbrev prompt : PendingInput
prompt = record { request_id = "i"; prompt = "" }

abbrev nothing_done : Handoff
nothing_done = record { summary = ""; files_changed = []; evidence = [] }

-- A transition for each edge.
via : {a b : TurnStatus} → TurnState → a ⟶ b → Transition
via s starts = start
via s asks = request_permission question
via s allows = resolve_permission (permission_id s.pending_permission) true
via s denies = resolve_permission (permission_id s.pending_permission) false
via s refreshes = refresh_permission question
via s requests = request_input prompt
via s provides = provide_input (input_id s.pending_input)
via s cancels_queued = cancel
via s cancels_running = cancel
via s cancels_permission = cancel
via s cancels_input = cancel
via s interrupts = interrupt
via s stops = interrupt
via s fails_queued = fail denial
via s fails_running = fail denial
via s fails_cancelling = fail denial
via s resumes = resume
via s retries = resume
via s completes = complete nothing_done verification_not_required

-- From a well-formed turn that is not at the last revision, and whose failure is retryable where it
-- has failed, every edge of the diagram is taken by some transition at the current revision.
pub ⟶-LandsIn :
    (s : TurnState) {a b : TurnStatus}
    → IsWellFormed s
    → s.revision ≢ u64_max
    → (s.status ≡ failed → resumable s.failure ≡ true)
    → s.status ≡ a
    → a ⟶ b
    → (t : Transition) × LandsIn b (transition s s.revision t)
unfolding transition via
⟶-LandsIn s v room again e starts = (via s starts, ground arith)
⟶-LandsIn s v room again e asks = (via s asks, ground arith)
⟶-LandsIn s v room again e allows =
    (via s allows, ground (arith, eq_refl (permission_id s.pending_permission)))
⟶-LandsIn s v room again e denies =
    (via s denies, ground (arith, eq_refl (permission_id s.pending_permission)))
⟶-LandsIn s v room again e refreshes = (via s refreshes, ground arith)
⟶-LandsIn s v room again e requests = (via s requests, ground arith)
⟶-LandsIn s v room again e provides =
    (via s provides, ground (arith, eq_refl (input_id s.pending_input)))
⟶-LandsIn s v room again e cancels_queued = (via s cancels_queued, ground arith)
⟶-LandsIn s v room again e cancels_running = (via s cancels_running, ground arith)
⟶-LandsIn s v room again e cancels_permission = (via s cancels_permission, ground arith)
⟶-LandsIn s v room again e cancels_input = (via s cancels_input, ground arith)
⟶-LandsIn s v room again e interrupts = (via s interrupts, ground arith)
⟶-LandsIn s v room again e stops = (via s stops, ground arith)
⟶-LandsIn s v room again e fails_queued = (via s fails_queued, ground arith)
⟶-LandsIn s v room again e fails_running = (via s fails_running, ground arith)
⟶-LandsIn s v room again e fails_cancelling = (via s fails_cancelling, ground arith)
⟶-LandsIn s v room again e resumes = (via s resumes, ground arith)
⟶-LandsIn s v room again e retries = (via s retries, ground arith)
⟶-LandsIn s v room again e completes = (via s completes, ground arith)
