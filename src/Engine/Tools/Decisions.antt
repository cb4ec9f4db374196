-- ===== src/Engine/Tools/Decisions.antt =====
-- What `ToolRegistry::prepare_for_engine` of crates/latte-engine/src/tools.rs decides.
use latte_code.Base.{
  ◌≡◌, inl, inr, refl, sym, ap, ◌∙◌, subst, String, Bool, true, false, not, ◌||◌, List, ok, guard,
  ok_or, ok-inj, >>=-eq-ok, Bool-cases, string_eq, is_some, arith,
}
use latte_code.Engine.Workspace.{Files, unsupported_safe_path_operation}
use latte_code.Engine.Policy.{
  EffectClass, PolicyDecision, PermissionPolicy, allow, deny, read_only, create, modify, decide,
  is_read_only,
}
use latte_code.Engine.Tools.{
  Json, Builtin, Prepared, ToolInvocation, OperationBinding, unknown, path_rejected, read_required,
  is_modify, approve, prepare, prepare_for_engine, find_tool,
}
use latte_code.Engine.Tools.Readings.{is_reading, prepare-reading}

module _ (j : Json) (root : List String) (fs : Files) where
  open j use {Value}

  decide-deny :
      (policy : PermissionPolicy) (e : EffectClass) (target : String)
      → policy.is_match target ≡ true
      → decide policy e target ≡ deny
  unfolding decide
  decide-deny policy e target h = rw h refl

  decide-allow :
      (policy : PermissionPolicy) (e : EffectClass) (target : String)
      → decide policy e target ≡ allow
      → is_read_only e ≡ true
  unfolding decide
  decide-allow policy read_only target h = refl
  decide-allow policy create target h = absurd (ground (arith, Bool-cases (policy.is_match target)))
  decide-allow policy modify target h = absurd (ground (arith, Bool-cases (policy.is_match target)))

  -- What `approve` gives of a prepared action.
  abbrev Approved :
      PermissionPolicy
      → Bool
      → (OperationBinding Value → String)
      → ToolInvocation Value
      → Prepared
      → Prepared × PolicyDecision × String
      → Type 0
  Approved policy supported digest i q (p, d, g) =
      (p ≡ record q { expected_hash = i.precondition })
      × (d ≡ decide policy p.effect p.target)
      × (is_read_only p.effect || supported ≡ true)
      × (not (is_modify j root fs p.effect) || is_some i.precondition ≡ true)
      × (g
          ≡ digest (record {
            descriptor_version = 1;
            invocation = i;
            target = p.target;
            policy_version = policy.version;
          }))

  approve-ok :
      (policy : PermissionPolicy) (supported : Bool) (digest : OperationBinding Value → String)
      (i : ToolInvocation Value) (q : Prepared) {out : Prepared × PolicyDecision × String}
      → approve j root fs policy supported digest i q ≡ ok out
      → Approved policy supported digest i q out
  unfolding approve
  approve-ok policy supported digest i q {out} h =
      let (safe, first, h1) =
        >>=-eq-ok
          (guard (is_read_only q.effect || supported)
            (path_rejected unsupported_safe_path_operation))
          _ h in
      let (held, second, h2) =
        >>=-eq-ok
          (guard (not (is_modify j root fs q.effect) || is_some i.precondition)
            (read_required q.target))
          _ h1 in
      subst (Approved policy supported digest i q) (ok-inj h2)
        (refl, refl, ground (arith, first), ground (arith, second), refl)

  -- What an invocation is prepared to: a target that a deny glob matches is denied; only an action that
  -- changes nothing is allowed without being asked for; any other is prepared only where safe mutations
  -- are supported, and a modification only with a precondition, which becomes its expected hash; the
  -- digest binds the invocation, the target and the version of the policy.
  pub prepare-IsAuthorized :
      (policy : PermissionPolicy) (tools : List Builtin) (supported : Bool)
      (digest : OperationBinding Value → String) (i : ToolInvocation Value) {p : Prepared}
      {d : PolicyDecision} {g : String}
      → prepare_for_engine j root fs policy tools supported digest i ≡ ok (p, d, g)
      → (policy.is_match p.target ≡ true → d ≡ deny)
        × (d ≡ allow → is_reading p.action ≡ true)
        × (is_reading p.action ≡ false → supported ≡ true)
        × (p.effect ≡ modify → is_some i.precondition ≡ true)
        × (p.expected_hash ≡ i.precondition)
        × (g
            ≡ digest (record {
              descriptor_version = 1;
              invocation = i;
              target = p.target;
              policy_version = policy.version;
            }))
  unfolding prepare_for_engine
  prepare-IsAuthorized policy tools supported digest i {p} {d} {g} h =
      let (tool, found, after) = >>=-eq-ok (ok_or (find_tool i.name tools) (unknown i.name)) _ h in
      let (q, prepared, last) = >>=-eq-ok (prepare j root fs tool i.input) _ after in
      let (made, decided, safe, held, bound) = approve-ok policy supported digest i q last in
      let reading : is_read_only p.effect ≡ true → is_reading p.action ≡ true = λ free.
        ap (λ r. is_reading r.action) made
        ∙ prepare-reading j root fs tool i.input {p = q} prepared
            (sym (ap (λ r. is_read_only r.effect) made) ∙ free) in
      (
        λ matched. decided ∙ decide-deny policy p.effect p.target matched,
        λ allowed. reading (decide-allow policy p.effect p.target (sym decided ∙ allowed)),
        λ changing. elim (Bool-cases (is_read_only p.effect)) [
          | inl free ↦ absurd (ground (arith, reading free))
          | inr bound ↦ ground (arith, safe)
        ],
        λ modifies. ground (arith, held, ap (is_modify j root fs) modifies),
        ap (λ r. r.expected_hash) made,
        bound,
      )
