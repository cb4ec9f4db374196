-- ===== src/Tui/Command/Policy.antt =====
-- The argument of a command of crates/latte-tui/src/command.rs, and what its policy makes of it.
use latte_code.Base.{
  ◌≡◌, ◌≢◌, ◌⊎◌, inl, inr, refl, sym, subst, String, ◌==◌, string_eq, eq_iff, Bool-cases,
}
use latte_code.Tui.Command.{
  CommandDescriptor, ArgumentPolicy, SlashResolution, command, unexpected_argument,
  missing_argument, no_argument, optional, required, accept_under,
}

-- A policy admits an argument: none may be given, any may, or one has to be.
abbrev pub Admits : ArgumentPolicy → String → Type 0
Admits no_argument a = a ≡ ""
Admits optional a = Unit
Admits required a = a ≢ ""

-- What becomes of a command with an argument that its policy admits, forbids or misses.
abbrev pub IsJudged : CommandDescriptor → String → SlashResolution → Type 0
IsJudged d a r =
    ((r ≡ command d a) × Admits d.arguments a)
    ⊎ ((r ≡ unexpected_argument d.name) × (d.arguments ≡ no_argument) × (a ≢ ""))
    ⊎ ((r ≡ missing_argument d.name) × (d.arguments ≡ required) × (a ≡ ""))

pub accept_under-IsJudged :
    (policy : ArgumentPolicy) (d : CommandDescriptor) (a : String)
    → d.arguments ≡ policy
    → IsJudged d a (accept_under policy d a)
accept_under-IsJudged optional d a h =
    inl (refl, subst (λ (p : ArgumentPolicy). Admits p a) (sym h) tt)
accept_under-IsJudged no_argument d a h = elim (Bool-cases (a == "")) [
  | inl empty ↦
      inl
        (rw empty refl, subst (λ (p : ArgumentPolicy). Admits p a) (sym h) ((eq_iff a "").0 empty))
  | inr given ↦ inr (inl (rw given refl, h, λ e. let hit = (eq_iff a "").1 e in cc (given, hit)))
]
accept_under-IsJudged required d a h = elim (Bool-cases (a == "")) [
  | inl empty ↦ inr (inr (rw empty refl, h, (eq_iff a "").0 empty))
  | inr given ↦ inl (
    rw given refl,
    subst (λ (p : ArgumentPolicy). Admits p a) (sym h)
        (λ e. let hit = (eq_iff a "").1 e in cc (given, hit)),
  )
]
