-- ===== src/Core/Turn/Revision.antt =====
-- Optimistic concurrency of crates/latte-core/src/state.rs: what the revision of a turn guarantees.
use latte_code.Base.{ℕ, suc, ◌+◌, ◌≡◌, ◌≢◌, ok, err, arith, u64_max}
use latte_code.Core.Protocol.{completed}
use latte_code.Core.Turn.{
  TurnState, Transition, stale_revision, completed_immutable, revision_overflow, transition,
}

-- An accepted transition names the current revision of a turn that is not completed and whose
-- revision is not the last one; the new state has the same identity and the next revision.
pub transition-ok :
    (s : TurnState) (expected : ℕ) (t : Transition) {s' : TurnState}
    → transition s expected t ≡ ok s'
    → (s.revision ≡ expected)
      × (s.revision ≢ u64_max)
      × (s.status ≢ completed)
      × (s'.revision ≡ s.revision + 1)
      × (s'.turn_id ≡ s.turn_id)
unfolding transition
transition-ok s expected t h = ground arith

-- Two writers that read the same revision: once one transition is accepted, any other that names
-- that revision is refused as stale.
pub transition_conflict :
    (s : TurnState) (expected : ℕ) (t u : Transition) {s' : TurnState}
    → transition s expected t ≡ ok s'
    → transition s' expected u ≡ err (stale_revision expected (expected + 1))
unfolding transition
transition_conflict s expected t u h = ground (arith, transition-ok s expected t h)

-- The guards in their order: a wrong revision is reported first, then a completed turn, then the
-- last revision.
pub transition_refusals :
    (s : TurnState) (expected : ℕ) (t : Transition)
    → (s.revision ≢ expected → transition s expected t ≡ err (stale_revision expected s.revision))
      × (s.revision ≡ expected
          → s.status ≡ completed
          → transition s expected t ≡ err completed_immutable)
      × (s.revision ≡ expected
          → s.status ≢ completed
          → expected ≡ u64_max
          → transition s expected t ≡ err revision_overflow)
unfolding transition
transition_refusals s expected t = (λ h. ground arith, λ h k. ground arith, λ h k l. ground arith)

-- The states that accepted transitions lead to, with their number.
pub data Reaches (s : TurnState) : ℕ → TurnState → Type 0 where
  here : Reaches s 0 s
  next :
      {n : ℕ} {t u : TurnState} (expected : ℕ) (r : Transition)
      → Reaches s n t
      → transition t expected r ≡ ok u
      → Reaches s (suc n) u

-- Along any accepted transitions the identity stays and the revision counts them.
pub Reaches-revision :
    {s t : TurnState} {n : ℕ}
    → Reaches s n t
    → (t.revision ≡ s.revision + n) × (t.turn_id ≡ s.turn_id)
Reaches-revision here = ground arith
Reaches-revision (next {t = t} expected r path h) =
    ground (arith, Reaches-revision path, transition-ok t expected r h)
