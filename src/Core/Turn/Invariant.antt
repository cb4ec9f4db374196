-- ===== src/Core/Turn/Invariant.antt =====
-- What holds of every turn that crates/latte-core/src/state.rs makes: each optional part of the state
-- is there exactly in the status that owns it.
use latte_code.Base.{ℕ, ◌≤◌, ◌≡◌, ◌≢◌, Bool, true, false, ok, err, arith, u64_max, is_some}
use latte_code.Core.Protocol.{
  TurnId, TurnStatus, is_completed, waiting_permission, waiting_input, failed,
}
use latte_code.Core.Turn.Revision.{Reaches, here, next}
use latte_code.Core.Turn.{TurnState, Transition, missing_pending, transition, new}

abbrev pub awaits_permission : TurnStatus → Bool
awaits_permission waiting_permission = true
awaits_permission _ = false

abbrev pub awaits_input : TurnStatus → Bool
awaits_input waiting_input = true
awaits_input _ = false

abbrev pub is_failed : TurnStatus → Bool
is_failed failed = true
is_failed _ = false

pub record IsWellFormed (s : TurnState) : Type 0 where
  pub bounded : s.revision ≤ u64_max
  pub permission : is_some s.pending_permission ≡ awaits_permission s.status
  pub input : is_some s.pending_input ≡ awaits_input s.status
  pub failure : is_some s.failure ≡ is_failed s.status
  pub handoff : is_some s.handoff ≡ is_completed s.status

new-IsWellFormed : (id : TurnId) → IsWellFormed (new id)
unfolding new
new-IsWellFormed id = ground arith

-- An accepted transition keeps the state well formed.
pub transition-IsWellFormed :
    (s : TurnState) (expected : ℕ) (t : Transition) {s' : TurnState}
    → IsWellFormed s
    → transition s expected t ≡ ok s'
    → IsWellFormed s'
unfolding transition
transition-IsWellFormed s expected t v h = ground arith

-- On a well-formed turn no transition is refused for a missing pending request.
pub transition-ne-missing_pending :
    (s : TurnState) (expected : ℕ) (t : Transition)
    → IsWellFormed s
    → transition s expected t ≢ err missing_pending
unfolding transition
transition-ne-missing_pending s expected t v h = ground arith

-- Every state that a new turn reaches is well formed.
pub Reaches-IsWellFormed :
    (id : TurnId) {n : ℕ} {s : TurnState} → Reaches (new id) n s → IsWellFormed s
Reaches-IsWellFormed id here = new-IsWellFormed id
Reaches-IsWellFormed id (next {t = t} expected r path h) =
    transition-IsWellFormed t expected r (Reaches-IsWellFormed id path) h
