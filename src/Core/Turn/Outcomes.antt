-- ===== src/Core/Turn/Outcomes.antt =====
-- The decisions of crates/latte-core/src/state.rs: approval by exact identity, verification before
-- completion, and which ends are final.
use mathlib.Core.List.{Mem, mem-cons, not-mem-nil, mem-cons_self, mem-cons_of_mem}
use mathlib.Core.Logic.Or
use latte_code.Base.{
  ℕ, ◌+◌, ◌≡◌, ◌≢◌, refl, inl, inr, ◌↔◌, Bool, true, false, none, some, String, List, [], ◌∷◌, ok,
  err, arith, u64_max, eq_iff, all, Option-cases, ◌>>=◌, ◌≤◌,
}
use latte_code.Core.Protocol.{
  TurnStatus, TurnFailure, PendingPermission, Handoff, Evidence, Retryability, VerificationStatus,
  is_passed, queued, running, waiting_permission, waiting_input, failed, completed,
}
use latte_code.Core.Turn.{
  TurnState, Transition, verification_required, invalid, complete, cancel, interrupt, resume,
  resolve_permission, denial, unverified, verification_passed, transition,
}
use latte_code.Core.Turn.Invariant.{IsWellFormed}

-- Every item of evidence has passed, and there is one.
abbrev pub IsVerified : Handoff → Type 0
IsVerified h =
    (h.evidence ≢ []) × ((e : Evidence) → Mem e h.evidence → e.status ≡ VerificationStatus.passed)

pub VerificationStatus-set : IsSet VerificationStatus
VerificationStatus-set = hlevel

all-Mem :
    (es : List Evidence)
    → all (λ (e : Evidence). is_passed e.status) es ≡ true
    → (e : Evidence) → Mem e es
    → e.status ≡ VerificationStatus.passed
all-Mem [] h e m = absurd (not-mem-nil m)
all-Mem (x ∷ xs) h e m =
    Or.elim (VerificationStatus-set _ _) (mem-cons.0 m) (λ q. ground (arith, q))
      (all-Mem xs (ground arith) e)

Mem-all :
    (es : List Evidence)
    → ((e : Evidence) → Mem e es → e.status ≡ VerificationStatus.passed)
    → all (λ (e : Evidence). is_passed e.status) es ≡ true
Mem-all [] h = refl
Mem-all (x ∷ xs) h =
    ground (arith, h x mem-cons_self, Mem-all xs (λ e m. h e (mem-cons_of_mem x m)))

verification_passed-IsVerified :
    (h : Handoff) → (verification_passed verification_required h ≡ true) ↔ IsVerified h
unfolding verification_passed
verification_passed-IsVerified h = (
  λ p. (λ q. ground arith, all-Mem h.evidence (ground arith)),
  λ v. ground (arith, v.0, Mem-all h.evidence v.1),
)

-- Under the policy that requires verification, a running turn completes with its handoff exactly when
-- there is evidence and every item has passed; otherwise it fails, for good, without a handoff.
pub complete-IsVerified :
    (s : TurnState) (expected : ℕ) (h : Handoff) {s' : TurnState}
    → IsWellFormed s
    → transition s expected (complete h verification_required) ≡ ok s'
    → ((IsVerified h → (s'.status ≡ completed) × (s'.handoff ≡ some h))
        × (¬ IsVerified h
            → (s'.status ≡ failed) × (s'.failure ≡ some unverified) × (s'.handoff ≡ none)))
unfolding transition
complete-IsVerified s expected h v e =
    (λ p. ground (arith, (verification_passed-IsVerified h).1 p), λ n. ground (arith, v, refused n))
  where
    refused : ¬ IsVerified h → verification_passed verification_required h ≢ true
    refused n q = n ((verification_passed-IsVerified h).0 q)

-- A decision on a permission is accepted only for the request that is pending, by its exact
-- identifier. Allowed, the turn runs on with no failure; denied, it has failed for good. Either way
-- nothing is pending any more.
pub resolve_exact :
    (s : TurnState) (expected : ℕ) (id : String) (allowed : Bool) {s' : TurnState}
    → IsWellFormed s
    → transition s expected (resolve_permission id allowed) ≡ ok s'
    → ((p : PendingPermission) × (s.pending_permission ≡ some p) × (p.request_id ≡ id))
      × (s'.pending_permission ≡ none)
      × (allowed ≡ true → (s'.status ≡ running) × (s'.failure ≡ none))
      × (allowed ≡ false → (s'.status ≡ failed) × (s'.failure ≡ some denial))
unfolding transition
resolve_exact s expected id allowed v h = elim (Option-cases s.pending_permission) [
  | inl e ↦ absurd (ground (arith, e))
  | inr (p, e) ↦ (
    (p, e, ground (arith, eq_iff p.request_id id)),
    ground (arith, e),
    λ a. ground (arith, e),
    λ a. ground (arith, e),
  )
]

-- A turn that failed for good stays as it is: each transition at its revision is refused.
pub terminal_failure :
    (s : TurnState) (f : TurnFailure) (t : Transition)
    → s.status ≡ failed
    → s.failure ≡ some f
    → f.retryability ≡ Retryability.terminal
    → s.revision ≢ u64_max
    → transition s s.revision t ≡ err (invalid failed)
unfolding transition
terminal_failure s f t e k r room = ground arith

-- The statuses that `Cancel` is legal from.
abbrev pub is_active : TurnStatus → Bool
is_active queued = true
is_active running = true
is_active waiting_permission = true
is_active waiting_input = true
is_active _ = false

-- An active turn with three revisions left can be cancelled, then interrupted, then resumed: it is
-- queued again three revisions later, with nothing pending and all else as it was.
pub cancel_interrupt_resume :
    (s : TurnState)
    → IsWellFormed s
    → is_active s.status ≡ true
    → s.revision + 3 ≤ u64_max
    → (transition s s.revision cancel >>= λ s1.
        transition s1 s1.revision interrupt >>= λ s2. transition s2 s2.revision resume)
      ≡ ok (record s {
        revision = s.revision + 3;
        status = queued;
        pending_permission = none;
        pending_input = none;
      })
unfolding transition
cancel_interrupt_resume s v h room = ground arith
