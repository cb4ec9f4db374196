-- ===== src/Headless/Compaction/Plans.antt =====
-- What `prepare_history` of crates/latte-headless/src/session.rs prepares: a request within the budget
-- that ends with the prompt, whatever becomes of the summary.
use latte_code.Base.{
  ℕ, suc, ◌≤◌, ◌≡◌, refl, sym, ap, ◌∙◌, ◌⊎◌, subst, inl, inr, String, Bool, true, false, ◌&&◌,
  Option, none, some, List, [], ◌∷◌, ◌++◌, ok, >>=-eq-ok, ok-inj, append_assoc, nat_eq, is_empty,
  Bool-cases, Option-cases, Result-cases, arith,
}
use latte_code.Headless.Policy.{budget, history_policy}
use latte_code.Headless.Request.{VolatileTurnContext, volatile_messages, wire_bytes, enforce_budget}
use latte_code.Headless.Request.Closed.{enforce_budget_iff}
use latte_code.Headless.Request.Assembly.{assemble_request, segment_messages, summary_messages}
use latte_code.Headless.Message.{Message}
use latte_code.Headless.History.{Segment}
use latte_code.Headless.Compaction.{take, drop}
use latte_code.Headless.Compaction.Planner.{
  SupersededHistory, max_of, PreparedHistory, complete, elided, summarized, degraded, Planning,
  turn_request, within_budget, prompt_message, wrap_summary, prepare_summary_tier,
  apply_pre_turn_elision, compacted, summarize_history, summary_source, elides, is_cured,
}
use latte_code.Headless.Elision.{elide_prefix}

abbrev pub messages_of : {M : Type 0} → PreparedHistory M → List M
messages_of (complete ms) = ms
messages_of (elided ms sequences) = ms
messages_of (summarized ms superseded summary) = ms
messages_of (degraded ms) = ms

module _ (P : Type 0) {Value : Type 0} (plan : Planning P Value) where
  -- A request that the budget of the policy admits.
  abbrev pub IsSendable : List (Message Value) → Type 0
  IsSendable ms =
      (n : ℕ) × (limit : ℕ) × (wire_bytes {P = P} plan.to_vec ms ≡ ok n)
      × (budget {P = P} (history_policy plan.context) ≡ ok limit)
      × (n ≤ limit)

  -- A request of the turn: it begins with the system message and ends with the prompt.
  abbrev pub IsFramed : String → List (Message Value) → Type 0
  IsFramed prompt ms =
      (middle : List (Message Value)) × (ms
        ≡ plan.system ∷ (middle ++ prompt_message plan prompt ∷ []))

  abbrev pub IsTurn : String → List (Message Value) → Type 0
  IsTurn prompt ms = IsSendable ms × IsFramed prompt ms

  -- How the failures are counted.
  abbrev pub IsCounted : ℕ → PreparedHistory (Message Value) → ℕ → Type 0
  IsCounted before (complete ms) after = after ≡ before
  IsCounted before (elided ms sequences) after = after ≡ before
  IsCounted before (summarized ms superseded summary) after = after ≡ 0
  IsCounted before (degraded ms) after = after ≡ suc before

  within_budget-IsSendable :
      (ms : List (Message Value)) → within_budget plan ms ≡ true → IsSendable ms
  within_budget-IsSendable ms h =
      elim (Result-cases
        (enforce_budget {P = P} plan.to_vec plan.describe ms (history_policy plan.context))) [
          | inl (e, refused) ↦ absurd (ground (arith, h, refused))
          | inr (out, sent) ↦
              ((enforce_budget_iff P plan.to_vec plan.describe ms out
                  (history_policy plan.context)).0
                sent).1
        ]

  pub request-IsFramed :
      (volatile : VolatileTurnContext (Message Value)) (prompt : String) (summary : Option String)
      (segments : List (Segment Value))
      → IsFramed prompt (turn_request plan volatile prompt summary segments)
  unfolding assemble_request
  request-IsFramed volatile prompt summary segments =
      let s = summary_messages wrap_summary summary in
      let h = segment_messages segments in
      let v = volatile_messages volatile in
      let p = prompt_message plan prompt ∷ [] in
      (
        s ++ (h ++ v),
        ap (λ ms. plan.system ∷ ms)
            (sym (append_assoc s (h ++ v) p ∙ ap (λ ms. s ++ ms) (append_assoc h v p))),
      )

  module _ (volatile : VolatileTurnContext (Message Value)) (prompt : String)
      (plain : List (Message Value)) where
    -- There is no summary, or the request with it is not within the budget.
    abbrev pub IsUnusable : List (Segment Value) → ℕ → Type 0
    IsUnusable fitting boundary =
        let source = (summary_source plan prompt fitting boundary).1 in
        (summarize_history plan source ≡ none)
        ⊎ ((summary : String) × (summarize_history plan source ≡ some summary)
            × (within_budget plan
                  (turn_request plan volatile prompt (some summary) (drop boundary fitting))
                ≡ false))

    -- What a compaction gives: a request of the elided segments, a request with the provider's summary in
    -- front of what the boundary retains, or the plain request where there is no usable summary.
    abbrev pub IsTried :
        ℕ → List (Segment Value) → ℕ → Bool → PreparedHistory (Message Value) → Type 0
    IsTried limit segments boundary reactive (complete ms) = ⊥
    IsTried limit segments boundary reactive (elided ms sequences) =
        (ms ≡ turn_request plan volatile prompt none (elide_prefix plan.json segments boundary).0)
        × (sequences ≡ (elide_prefix plan.json segments boundary).1)
    IsTried limit segments boundary reactive (summarized ms superseded summary) =
        (fitting : List (Segment Value)) × (apply_pre_turn_elision plan volatile prompt limit
            segments boundary reactive
          ≡ ok (none, fitting))
        × (summarize_history plan (summary_source plan prompt fitting boundary).1 ≡ some summary)
        × (ms ≡ turn_request plan volatile prompt (some summary) (drop boundary fitting))
    IsTried limit segments boundary reactive (degraded ms) =
        (ms ≡ plain)
        × ((fitting : List (Segment Value)) × (apply_pre_turn_elision plan volatile prompt limit
                segments boundary reactive
              ≡ ok (none, fitting))
            × IsUnusable fitting boundary)

  module _ (volatile : VolatileTurnContext (Message Value)) (prompt : String)
      (plain : List (Message Value)) (plain_turn : IsTurn prompt plain) where
    -- The summary tier either sends a summary within the budget, or degrades to the plain request.
    summary_tier_cases :
        (fitting : List (Segment Value)) (boundary failures : ℕ)
        → ((prepare_summary_tier plan volatile prompt fitting boundary plain failures
              ≡ (degraded plain, suc failures))
            × IsUnusable volatile prompt plain fitting boundary)
          ⊎ ((superseded : SupersededHistory) × (summary : String) × (prepare_summary_tier plan
                  volatile prompt fitting boundary plain failures
                ≡ (
                  summarized
                      (turn_request plan volatile prompt (some summary) (drop boundary fitting))
                      superseded
                      summary,
                  0,
                ))
              × (within_budget plan
                    (turn_request plan volatile prompt (some summary) (drop boundary fitting))
                  ≡ true)
              × (summarize_history plan (summary_source plan prompt fitting boundary).1
                  ≡ some summary))
    unfolding prepare_summary_tier
    summary_tier_cases fitting boundary failures =
        let source = summary_source plan prompt fitting boundary in
        elim (Option-cases (summarize_history plan source.1)) [
          | inl n ↦ inl (rw (prepare_summary_tier, n) refl, inl n)
          | inr (summary, f) ↦
              elim (Bool-cases (
                within_budget plan
                  (turn_request plan volatile prompt (some summary) (drop boundary fitting)))) [
                    | inl q ↦ inr (
                      record {
                        through_sequence = max_of (take boundary fitting);
                        retain_from_sequence = source.0;
                      },
                      summary,
                      rw (prepare_summary_tier, f, q) refl,
                      q,
                      f,
                    )
                    | inr q ↦ inl (rw (prepare_summary_tier, f, q) refl, inr (summary, f, q))
                  ]
        ]

    abbrev IsCompaction :
        ℕ → List (Segment Value) → ℕ → Bool → ℕ → PreparedHistory (Message Value) → ℕ → Type 0
    IsCompaction limit segments boundary reactive failures p after =
        IsTurn prompt (messages_of p)
        × IsCounted failures p after
        × IsTried volatile prompt plain limit segments boundary reactive p

    summary_tier-IsTurn :
        (limit : ℕ) (segments : List (Segment Value)) (reactive : Bool)
        (fitting : List (Segment Value)) (boundary failures : ℕ)
        → apply_pre_turn_elision plan volatile prompt limit segments boundary reactive
          ≡ ok (none, fitting)
        → let (p, after) =
            prepare_summary_tier plan volatile prompt fitting boundary plain failures in
          IsCompaction limit segments boundary reactive failures p after
    summary_tier-IsTurn limit segments reactive fitting boundary failures t =
        elim (summary_tier_cases fitting boundary failures) [
          | inl (e, unusable) ↦ rw e (plain_turn, refl, (refl, (fitting, t, unusable)))
          | inr (superseded, summary, e, q, f) ↦
              let kept = drop boundary fitting in
              rw e (
                (
                  within_budget-IsSendable (turn_request plan volatile prompt (some summary) kept)
                      q,
                  request-IsFramed volatile prompt (some summary) kept,
                ),
                refl,
                (fitting, t, f, refl),
              )
        ]

    -- The elision tier prepares a request only of the elided segments, and within the budget.
    elision_cases :
        (limit : ℕ) (segments : List (Segment Value)) (boundary : ℕ) (reactive : Bool)
        {p : PreparedHistory (Message Value)} {fitting : List (Segment Value)}
        → apply_pre_turn_elision plan volatile prompt limit segments boundary reactive
          ≡ ok (some p, fitting)
        → (elided
              (turn_request plan volatile prompt none (elide_prefix plan.json segments boundary).0)
              (elide_prefix plan.json segments boundary).1
            ≡ p)
          × IsTurn prompt
              (turn_request plan volatile prompt none (elide_prefix plan.json segments boundary).0)
    unfolding apply_pre_turn_elision
    elision_cases limit segments boundary reactive {p} {fitting} h =
        let next = (elide_prefix plan.json segments boundary).0 in
        let sequences = (elide_prefix plan.json segments boundary).1 in
        let ms = turn_request plan volatile prompt none next in
        elim (Bool-cases (elides plan.context.compaction.strategy)) [
          | inr q ↦ cc (rw q at h)
          | inl q ↦ elim (Bool-cases (is_empty sequences)) [
            | inl z ↦ cc (rw (q, z) at h)
            | inr z ↦
                let (cured, c, k) =
                  >>=-eq-ok (is_cured plan volatile prompt limit reactive next) _
                    (rw (q, z) at h) in
                elim (Bool-cases (cured && within_budget plan ms)) [
                  | inr w ↦ cc (ok-inj (rw w at k))
                  | inl w ↦ (
                    cc (ok-inj (rw w at k)),
                    (
                      within_budget-IsSendable ms (ground (arith, w)),
                      request-IsFramed volatile prompt none next,
                    ),
                  )
                ]
          ]
        ]

    -- What is compacted comes from the elision tier, with the failures unchanged, or from the summary tier.
    abbrev IsCompacted :
        ℕ → List (Segment Value) → ℕ → Bool → ℕ → PreparedHistory (Message Value) → ℕ → Type 0
    IsCompacted limit segments boundary reactive failures p failures' =
        ((fitting : List (Segment Value)) × (apply_pre_turn_elision plan volatile prompt limit
              segments boundary reactive
            ≡ ok (some p, fitting))
          × (failures' ≡ failures))
        ⊎ ((fitting : List (Segment Value)) × (apply_pre_turn_elision plan volatile prompt limit
                segments boundary reactive
              ≡ ok (none, fitting))
            × (prepare_summary_tier plan volatile prompt fitting boundary plain failures
                ≡ (p, failures')))

    IsCompacted-split :
        (limit : ℕ) (segments : List (Segment Value)) (boundary : ℕ) (reactive : Bool)
        (failures : ℕ) (p : PreparedHistory (Message Value)) (failures' : ℕ)
        (o : Option (PreparedHistory (Message Value))) (fitting : List (Segment Value))
        → apply_pre_turn_elision plan volatile prompt limit segments boundary reactive
          ≡ ok (o, fitting)
        → elim o [
          | some done ↦ (done, failures)
          | none ↦ prepare_summary_tier plan volatile prompt fitting boundary plain failures
        ]
          ≡ (p, failures')
        → IsCompacted limit segments boundary reactive failures p failures'
    IsCompacted-split limit segments boundary reactive failures p failures' (some done) fitting e
          k =
        let same : done ≡ p = ap (λ (r : PreparedHistory (Message Value) × ℕ). r.0) k in
        inl (
          fitting,
          e ∙ ap (λ d. ok (some d, fitting)) same,
          sym (ap (λ (r : PreparedHistory (Message Value) × ℕ). r.1) k),
        )
    IsCompacted-split limit segments boundary reactive failures p failures' none fitting e k =
        inr (fitting, e, k)

    compacted_cases :
        (limit : ℕ) (segments : List (Segment Value)) (boundary : ℕ) (reactive : Bool)
        (failures : ℕ) {p : PreparedHistory (Message Value)} {failures' : ℕ}
        → compacted plan volatile prompt limit segments boundary reactive plain failures
          ≡ ok (p, failures')
        → IsCompacted limit segments boundary reactive failures p failures'
    unfolding compacted
    compacted_cases limit segments boundary reactive failures {p} {failures'} h =
        let (out, e, k) =
          >>=-eq-ok (apply_pre_turn_elision plan volatile prompt limit segments boundary reactive) _
            h in
        IsCompacted-split limit segments boundary reactive failures p failures' out.0 out.1 e
          (ok-inj k)

    pub compacted-IsTurn :
        (limit : ℕ) (segments : List (Segment Value)) (boundary : ℕ) (reactive : Bool)
        (failures : ℕ) {p : PreparedHistory (Message Value)} {failures' : ℕ}
        → compacted plan volatile prompt limit segments boundary reactive plain failures
          ≡ ok (p, failures')
        → IsCompaction limit segments boundary reactive failures p failures'
    compacted-IsTurn limit segments boundary reactive failures {p} {failures'} h =
        elim (compacted_cases limit segments boundary reactive failures {p = p}
          {failures' = failures'} h) [
            | inl (fitting, e, same) ↦
                let (it, turn) =
                  elision_cases limit segments boundary reactive {p = p} {fitting = fitting} e in
                subst (λ r. IsCompaction limit segments boundary reactive failures r failures') it
                  (turn, same, (refl, refl))
            | inr (fitting, t, e) ↦
                subst
                  (λ (r : PreparedHistory (Message Value) × ℕ).
                    IsCompaction limit segments boundary reactive failures r.0 r.1)
                  e (summary_tier-IsTurn limit segments reactive fitting boundary failures t)
          ]
