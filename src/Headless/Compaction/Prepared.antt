-- ===== src/Headless/Compaction/Prepared.antt =====
-- What `prepare_history` of crates/latte-headless/src/session.rs gives a new turn.
use latte_code.Base.{
  ℕ, ◌-◌, ◌≡◌, refl, sym, ap, ◌∙◌, ◌⊎◌, subst, inl, inr, String, Bool, true, false, not, ◌||◌, none,
  some, List, [], ◌∷◌, Result, ok, err, guard, >>=-eq-ok, ok-inj, length, ltb, Bool-cases,
  Option-cases,
}
use latte_code.Core.Profile.{compacts}
use latte_code.Core.Session.{TranscriptEntry}
use latte_code.Headless.Policy.{SessionRuntimeError, budget, history_policy}
use latte_code.Headless.Request.{FitSelection, VolatileTurnContext, filtered, fit_request}
use latte_code.Headless.Message.{Message}
use latte_code.Headless.History.{Segment}
use latte_code.Headless.History.Scan.{scan_history_segments}
use latte_code.Headless.Compaction.{drop}
use latte_code.Headless.Compaction.Window.{turn_entries, fit-assemble}
use latte_code.Headless.Compaction.Planner.{
  lift, PreparedHistory, complete, Planning, turn_request, prompt_message, wrap_summary,
  compaction_breaker_tripped, compaction_boundary, planned, prepare_history,
}
use latte_code.Headless.Compaction.Plans.{
  messages_of, IsSendable, IsTurn, IsCounted, IsTried, request-IsFramed, compacted-IsTurn,
}

module _ (P : Type 0) {Value : Type 0} (plan : Planning P Value) where
  -- No compaction is tried.
  abbrev pub is_resting : ℕ → Bool
  is_resting failures =
      not (compacts plan.context.compaction.strategy) || compaction_breaker_tripped failures

  -- The request without a compaction: what the fit keeps of the history and of the volatile context.
  abbrev pub plain_window :
      List (Segment Value)
      → VolatileTurnContext (Message Value)
      → String
      → FitSelection (Message Value)
      → List (Message Value)
  plain_window segments volatile prompt sel =
      turn_request plan (filtered volatile sel.repository_kept sel.reminder_kept) prompt none
        (drop (length segments - sel.history_kept) segments)

  -- Either nothing is tried, since compaction rests or finds no boundary, and the plain window is sent;
  -- or there is a boundary, and what is prepared is what the compaction at it gives.
  abbrev pub IsPlanned :
      ℕ
      → List (Segment Value)
      → VolatileTurnContext (Message Value)
      → String
      → ℕ
      → FitSelection (Message Value)
      → PreparedHistory (Message Value)
      → Type 0
  IsPlanned limit segments volatile prompt failures sel p =
      let discard_at = length segments - sel.history_kept in
      let plain = plain_window segments volatile prompt sel in
      ((p ≡ complete plain)
        × ((is_resting failures ≡ true)
            ⊎ (compaction_boundary {P = P} plan limit discard_at segments plain ≡ ok none)))
      ⊎ ((is_resting failures ≡ false)
          × ((boundary : ℕ) × (compaction_boundary {P = P} plan limit discard_at segments plain
                ≡ ok (some boundary))
              × IsTried P plan (filtered volatile sel.repository_kept sel.reminder_kept) prompt
                  plain limit segments boundary (ltb 0 discard_at) p))

  -- What is prepared: a request of the turn, with its failures counted, planned from what the fit keeps
  -- under the budget of the policy.
  abbrev pub IsPrepared :
      List (TranscriptEntry Value)
      → VolatileTurnContext (Message Value)
      → String
      → ℕ
      → PreparedHistory (Message Value)
      → ℕ
      → Type 0
  IsPrepared entries volatile prompt failures p after =
      let segments = scan_history_segments plan.json entries in
      IsTurn P plan prompt (messages_of p)
      × IsCounted P plan failures p after
      × ((limit : ℕ) × (sel : FitSelection (Message Value)) × (budget {P = P}
              (history_policy plan.context)
            ≡ ok limit)
          × (fit_request {P = P} plan.to_vec plan.system
                (turn_entries segments volatile (prompt_message plan prompt ∷ [])) limit
              ≡ ok sel)
          × (sel.prompt_kept ≡ true)
          × IsPlanned limit segments volatile prompt failures sel p)

  lift-ok : {A : Type 0} {a : A} (r : Result A (SessionRuntimeError P)) → lift r ≡ ok a → r ≡ ok a
  lift-ok (ok b) h = ap ok (ok-inj h)
  lift-ok (err e) h = cc

  guard-true :
      {E : Type 0} {done : Unit {0}} (test : Bool) (refusal : E)
      → guard test refusal ≡ ok done
      → test ≡ true
  guard-true true refusal h = refl
  guard-true false refusal h = cc

  -- The plain request of what the fit keeps, where it keeps the prompt.
  window-IsTurn :
      (segments : List (Segment Value)) (volatile : VolatileTurnContext (Message Value))
      (prompt : String) (limit : ℕ) (sel : FitSelection (Message Value))
      → fit_request {P = P} plan.to_vec plan.system
          (turn_entries segments volatile (prompt_message plan prompt ∷ []))
          limit
        ≡ ok sel
      → sel.prompt_kept ≡ true
      → budget {P = P} (history_policy plan.context) ≡ ok limit
      → IsTurn P plan prompt (
          turn_request plan
            (filtered volatile sel.repository_kept sel.reminder_kept)
            prompt
            none
            (drop (length segments - sel.history_kept) segments))
  window-IsTurn segments volatile prompt limit sel f k b =
      let fitted = filtered volatile sel.repository_kept sel.reminder_kept in
      let kept = drop (length segments - sel.history_kept) segments in
      let (same, at_most, (n, bytes, fits)) =
        fit-assemble P plan.to_vec wrap_summary plan.system segments volatile
          (prompt_message plan prompt) limit {sel = sel} f k in
      (
        subst (IsSendable P plan) (sym same) (n, limit, bytes, b, fits),
        request-IsFramed P plan fitted prompt none kept,
      )

  -- What a plan gives, with its count.
  abbrev IsGiven :
      ℕ
      → List (Segment Value)
      → VolatileTurnContext (Message Value)
      → String
      → ℕ
      → FitSelection (Message Value)
      → PreparedHistory (Message Value)
      → ℕ
      → Type 0
  IsGiven limit segments volatile prompt failures sel p after =
      IsTurn P plan prompt (messages_of p)
      × IsCounted P plan failures p after
      × IsPlanned limit segments volatile prompt failures sel p

  planned-IsGiven :
      (limit : ℕ) (segments : List (Segment Value)) (volatile : VolatileTurnContext (Message Value))
      (prompt : String) (failures : ℕ) (sel : FitSelection (Message Value))
      {p : PreparedHistory (Message Value)} {after : ℕ}
      → IsTurn P plan prompt (plain_window segments volatile prompt sel)
      → planned plan limit segments volatile prompt failures sel ≡ ok (p, after)
      → IsGiven limit segments volatile prompt failures sel p after
  unfolding planned
  planned-IsGiven limit segments volatile prompt failures sel {p} {after} turn h =
      let discard_at = length segments - sel.history_kept in
      let fitted = filtered volatile sel.repository_kept sel.reminder_kept in
      let plain = plain_window segments volatile prompt sel in
      let given = λ (r : PreparedHistory (Message Value) × ℕ).
        IsGiven limit segments volatile prompt failures sel r.0 r.1 in
      elim (Bool-cases (is_resting failures)) [
        | inl q ↦ subst given (ok-inj (rw q at h)) (turn, refl, inl (refl, inl q))
        | inr q ↦
            let (boundary, b, k) =
              >>=-eq-ok (compaction_boundary {P = P} plan limit discard_at segments plain) _
                (rw q at h) in
            elim (Option-cases boundary) [
              | inl n ↦ subst given (ok-inj (rw n at k)) (turn, refl, inl (refl, inr (b ∙ ap ok n)))
              | inr (at, s) ↦
                  let (done, counted, tried) =
                    compacted-IsTurn P plan fitted prompt plain turn limit segments at
                      (ltb 0 discard_at) failures {p = p} {failures' = after} (rw s at k) in
                  (done, counted, inr (q, (at, b ∙ ap ok s, tried)))
            ]
      ]

  -- Every request that is prepared for a turn is within the budget of the policy, begins with the system
  -- message and ends with the prompt. Where compaction is off or three failures are counted, or where the
  -- window needs none, it is the plain window of what the fit keeps, and nothing is counted. Otherwise
  -- it is a request of the elided segments, with nothing counted; or a request with the provider's
  -- summary, which resets the count; or, where there is no summary or the request with it is not within
  -- the budget, the plain window as a degraded one, which counts one failure.
  pub prepare_history-IsPrepared :
      (entries : List (TranscriptEntry Value)) (prompt : String)
      (volatile : VolatileTurnContext (Message Value)) (failures : ℕ)
      {p : PreparedHistory (Message Value)} {after : ℕ}
      → prepare_history {P = P} plan entries prompt volatile failures ≡ ok (p, after)
      → IsPrepared entries volatile prompt failures p after
  unfolding prepare_history
  prepare_history-IsPrepared entries prompt volatile failures {p} {after} h =
      let segments = scan_history_segments plan.json entries in
      let window = turn_entries segments volatile (prompt_message plan prompt ∷ []) in
      let (limit, b, h1) = >>=-eq-ok (lift (budget (history_policy plan.context))) _ h in
      let (sel, f, h2) = >>=-eq-ok (lift (fit_request plan.to_vec plan.system window limit)) _ h1 in
      let (checked, g, h3) = >>=-eq-ok (guard sel.prompt_kept _) _ h2 in
      let within = lift-ok (budget (history_policy plan.context)) b in
      let fits = lift-ok (fit_request plan.to_vec plan.system window limit) f in
      let shown = guard-true sel.prompt_kept _ g in
      let (done, counted, made) =
        planned-IsGiven limit segments volatile prompt failures sel {p = p} {after = after}
          (window-IsTurn segments volatile prompt limit sel fits shown within) h3 in
      (done, counted, (limit, sel, within, fits, shown, made))
