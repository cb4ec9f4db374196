-- ===== src/Headless/Compaction/Planner.antt =====
-- `prepare_history` of crates/latte-headless/src/session.rs: the request of a new turn, with the
-- compaction that a full window calls for. The head of the system prompt, the texts' redaction and the
-- provider's reply to a summary request are parameters.
use latte_code.Base.{
  ℕ, suc, ◌-◌, max, String, Bool, true, false, not, ◌&&◌, ◌||◌, Option, none, some, List, [], ◌∷◌,
  Result, ok, err, guard, ◌>>=◌, ◌>>◌, ◌==◌, nat_eq, string_eq, ltb, leb, length, is_empty,
  if◌then◌else◌, ◌<>◌,
}
use latte_code.Core.Profile.{
  CompactionStrategy, off, summarize_on_discard, elide_tool_results_then_summarize, compacts,
  ContextPolicy, usage,
}
use latte_code.Core.Session.{TranscriptEntry}
use latte_code.Headless.Policy.{SessionRuntimeError, history, budget, history_policy}
use latte_code.Headless.Request.{
  FitSelection, VolatileTurnContext, filtered, wire_bytes, fit_request, enforce_budget,
}
use latte_code.Headless.Request.Assembly.{assemble_request}
use latte_code.Headless.Message.{Message, system_message, user_message, Json}
use latte_code.Headless.History.{Segment, new_segment}
use latte_code.Headless.History.Scan.{scan_history_segments}
use latte_code.Headless.Elision.{elide_prefix}
use latte_code.Headless.Compaction.{
  take, drop, proactive_retain_boundary, compaction_source, fold_prompt_into_summary_source,
}
use latte_code.Headless.Compaction.Window.{turn_entries}

-- An error of the runtime, or a panic of the projection of the window.
pub data Failure (P : Type 0) : Type 0 where
  failed : SessionRuntimeError P → Failure P
  panicked : Failure P

abbrev pub lift : {P A : Type 0} → Result A (SessionRuntimeError P) → Result A (Failure P)
lift (ok a) = ok a
lift (err e) = err (failed e)

abbrev pub is_ok : {A E : Type 0} → Result A E → Bool
is_ok (ok a) = true
is_ok (err e) = false

pub record SupersededHistory : Type 0 where
  pub through_sequence : ℕ
  pub retain_from_sequence : Option ℕ

pub data PreparedHistory (M : Type 0) : Type 0 where
  complete : List M → PreparedHistory M
  elided : List M → List ℕ → PreparedHistory M
  summarized : List M → SupersededHistory → String → PreparedHistory M
  degraded : List M → PreparedHistory M

abbrev pub elides : CompactionStrategy → Bool
elides elide_tool_results_then_summarize = true
elides summarize_on_discard = false
elides off = false

-- `MAX_COMPACTION_FAILURES`.
abbrev pub max_compaction_failures : ℕ
max_compaction_failures = 3

-- `compaction_breaker_tripped`, `note_compaction_failure` and `note_compaction_success`, on what the
-- process has counted for the session.
abbrev pub compaction_breaker_tripped : ℕ → Bool
compaction_breaker_tripped failures = leb max_compaction_failures failures

abbrev pub note_compaction_failure : ℕ → ℕ
note_compaction_failure failures = suc failures

abbrev pub note_compaction_success : ℕ → ℕ
note_compaction_success failures = 0

abbrev pub max_of : {Value : Type 0} → List (Segment Value) → ℕ
max_of [] = 0
max_of (s ∷ ss) = elim s.max_sequence [ none ↦ max_of ss | some n ↦ max n (max_of ss) ]

abbrev pub wrap_summary : {Value : Type 0} → String → Message Value
wrap_summary summary =
    user_message ("Earlier conversation, automatically compacted to this summary:\n\n" <> summary)

-- The services that the planner calls, and what it knows of the session.
pub record Planning (P : Type 0) (Value : Type 0) : Type 0 where
  pub json : Json Value
  pub to_vec : List (Message Value) → Result (List ℕ) String
  pub redact : String → String
  pub trim : String → String
  pub describe : ℕ → String
  pub reply : List (Message Value) → Option String
  pub instructions : String
  pub system : Message Value
  pub context : ContextPolicy

module _ {P : Type 0} {Value : Type 0} (plan : Planning P Value) where
  open plan use {json, to_vec, redact, trim, describe, reply, instructions, system, context}

  abbrev pub prompt_message : String → Message Value
  prompt_message prompt = user_message (redact prompt)

  -- `prospective_prompt_segment`.
  abbrev pub prospective_prompt_segment : String → Segment Value
  prospective_prompt_segment prompt =
      new_segment none none (prompt_message prompt ∷ []) ("[user]\n" <> redact prompt <> "\n")

  -- The summary request of `summarize_history`, without a lease.
  unfoldable pub summarize_history : String → Option String
  summarize_history source = elim (reply (system_message instructions ∷ user_message source ∷ [])) [
    | none ↦ none
    | some message ↦ if trim message == "" then none else some (redact (trim message))
  ]

  abbrev pub due : ℕ → Result Bool (Failure P)
  due used = elim (usage context used 0) [
    | none ↦ err panicked
    | some u ↦ ok u.proactive_compaction_due
  ]

  abbrev pub within_budget : List (Message Value) → Bool
  within_budget ms = is_ok (enforce_budget {P = P} to_vec describe ms (history_policy context))

  -- What the summary is made of.
  abbrev pub summary_source : String → List (Segment Value) → ℕ → Option ℕ × String
  summary_source prompt fitting boundary =
      let (retain_from, source) = compaction_source fitting boundary context.compaction in
      elim retain_from [
        | some from ↦ (some from, source)
        | none ↦ (
          none,
          fold_prompt_into_summary_source redact source prompt
              context.compaction.max_summary_source_bytes,
        )
      ]

  module _ (volatile : VolatileTurnContext (Message Value)) (prompt : String) where
    abbrev pub turn_request : Option String → List (Segment Value) → List (Message Value)
    turn_request summary segments =
        assemble_request wrap_summary system summary segments volatile
          (some (prompt_message prompt))

    -- Whether the elided segments relieve the window.
    unfoldable pub is_cured : ℕ → Bool → List (Segment Value) → Result Bool (Failure P)
    is_cured limit true segments = do
      sel ← lift (
          fit_request to_vec system
            (turn_entries segments volatile (prospective_prompt_segment prompt).messages) limit)
      ok (sel.prompt_kept && sel.history_kept == length segments)
    is_cured limit false segments = do
      used ← lift (wire_bytes to_vec (turn_request none segments))
      pressed ← due used
      ok (not pressed)

    -- `apply_pre_turn_elision`.
    unfoldable pub apply_pre_turn_elision :
        ℕ
        → List (Segment Value)
        → ℕ
        → Bool
        → Result (Option (PreparedHistory (Message Value)) × List (Segment Value)) (Failure P)
    apply_pre_turn_elision limit segments boundary reactive =
        if not (elides context.compaction.strategy)
        then ok (none, segments)
        else let (next, sequences) = elide_prefix json segments boundary in
          if is_empty sequences then ok (none, segments) else do
            cured ← is_cured limit reactive next
            ok (
                if cured && within_budget (turn_request none next)
                then (some (elided (turn_request none next) sequences), next)
                else (none, next))

    -- `prepare_summary_tier`, with the failures counted after it.
    unfoldable pub prepare_summary_tier :
        List (Segment Value) → ℕ → List (Message Value) → ℕ → PreparedHistory (Message Value) × ℕ
    prepare_summary_tier fitting boundary plain failures =
        let (retain_from, source) = summary_source prompt fitting boundary in
        elim (summarize_history source) [
          | none ↦ (degraded plain, note_compaction_failure failures)
          | some summary ↦
              let messages = turn_request (some summary) (drop boundary fitting) in
              if within_budget messages
              then (
                summarized messages
                    (record {
                      through_sequence = max_of (take boundary fitting);
                      retain_from_sequence = retain_from;
                    })
                    summary,
                note_compaction_success failures,
              )
              else (degraded plain, note_compaction_failure failures)
        ]

    -- The elision tier, then the summary tier.
    unfoldable pub compacted :
        ℕ
        → List (Segment Value)
        → ℕ
        → Bool
        → List (Message Value)
        → ℕ
        → Result (PreparedHistory (Message Value) × ℕ) (Failure P)
    compacted limit segments boundary reactive plain failures = do
      (prepared, fitting) ← apply_pre_turn_elision limit segments boundary reactive
      ok (elim prepared [
        | some done ↦ (done, failures)
        | none ↦ prepare_summary_tier fitting boundary plain failures
      ])

  -- Where to compact: what the fit discarded, or the proactive boundary of a window that is due.
  unfoldable pub compaction_boundary :
      ℕ → ℕ → List (Segment Value) → List (Message Value) → Result (Option ℕ) (Failure P)
  compaction_boundary limit discard_at segments plain =
      if ltb 0 discard_at then ok (some discard_at) else do
        used ← lift (wire_bytes to_vec plain)
        pressed ← due used
        if pressed
            then lift
                (proactive_retain_boundary to_vec segments limit context.compaction.retain_ratio 0)
            else ok none

  -- What is prepared of a window that the fit has selected.
  unfoldable pub planned :
      ℕ
      → List (Segment Value)
      → VolatileTurnContext (Message Value)
      → String
      → ℕ
      → FitSelection (Message Value)
      → Result (PreparedHistory (Message Value) × ℕ) (Failure P)
  planned limit segments volatile prompt failures sel =
      let discard_at = length segments - sel.history_kept in
      let fitted = filtered volatile sel.repository_kept sel.reminder_kept in
      let plain = turn_request fitted prompt none (drop discard_at segments) in
      if not (compacts context.compaction.strategy) || compaction_breaker_tripped failures
      then ok (complete plain, failures)
      else do
        boundary ← compaction_boundary limit discard_at segments plain
        elim boundary [
          | none ↦ ok (complete plain, failures)
          | some at ↦ compacted fitted prompt limit segments at (ltb 0 discard_at) plain failures
        ]

  -- `prepare_history`, on the entries of the transcript, with the failures counted before and after.
  unfoldable pub prepare_history :
      List (TranscriptEntry Value)
      → String
      → VolatileTurnContext (Message Value)
      → ℕ
      → Result (PreparedHistory (Message Value) × ℕ) (Failure P)
  prepare_history entries prompt volatile failures =
      let segments = scan_history_segments json entries in
      do
        limit ← lift (budget (history_policy context))
        sel ← lift (
            fit_request to_vec system
              (turn_entries segments volatile (prospective_prompt_segment prompt).messages) limit)
        guard sel.prompt_kept
            (failed (history "newest complete user segment exceeds the exact request budget"))
        planned limit segments volatile prompt failures sel
