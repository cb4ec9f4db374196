-- ===== src/Headless/History/Grammar.antt =====
-- The history that crates/latte-headless/src/session.rs projects keeps the grammar of messages, whatever
-- the transcript holds.
use latte_code.Base.{
  ℕ, ◌≡◌, refl, inl, inr, String, true, Option, none, some, List, [], ◌∷◌, ◌++◌, string_eq, nat_eq,
  any, All, All-append, keep, ◌<>◌, Bool-cases, arith,
}
use latte_code.Core.Session.{
  TranscriptEntry, TranscriptKind, user, assistant, tool_call, tool_result, permission, input,
  failure, completion, system, compact_summary, tool_result_elision,
}
use latte_code.Headless.Message.{Message, assistant_message, tool_message, Json}
use latte_code.Headless.History.{
  Segment, push_text, push_message, declared_tool_call, answers, append_denied_tool_results,
  add_result, is_aborted, recorded_result, assistant_calls, apply_kind, apply_entry, apply_entries,
}
use latte_code.Headless.History.Scan.{
  Split, newest_summary, elided_sequences, is_retained, not_elision, summary_of_card, scan_split,
  scan_history_segments,
}
use latte_code.Headless.History.Pairing.{
  IsPaired, Admits, AnsweredFrom-append, recorded-append, append_denied-Answered,
  append_denied-recorded, All-on_last,
}

module _ {Value : Type 0} where
  any-last :
      (id : String) (name : Option String) (content : String) (ms : List (Message Value))
      → any (answers id) (ms ++ tool_message id name content ∷ []) ≡ true
  any-last id name content [] = ground (arith, (string_eq.test_iff id id).1 refl)
  any-last id name content (m ∷ ms) = ground (arith, any-last id name content ms)

  push-IsPaired :
      (s : Segment Value) (m : Message Value) (text : String) (sequence : ℕ)
      → Admits s.messages m
      → IsPaired s
      → IsPaired (push_text text sequence (push_message m s))
  push-IsPaired s m text sequence a h = (
    AnsweredFrom-append [] s.messages (m ∷ []) h.0 (a, tt),
    recorded-append s.messages (m ∷ []) s.tool_results h.1,
  )

  denied-IsPaired :
      (s : Segment Value)
      → IsPaired s
      → IsPaired (record s { messages = append_denied_tool_results s.messages })
  denied-IsPaired s h =
      (append_denied-Answered s.messages h.0, append_denied-recorded s.messages s.tool_results h.1)

module _ {Value : Type 0} (json : Json Value) where
  add_result-IsPaired :
      (elided : List ℕ) (entry : TranscriptEntry Value) (found : Option (String × String × Value))
      (s : Segment Value)
      → IsPaired s
      → IsPaired (add_result json elided entry found s)
  add_result-IsPaired elided entry none s h = h
  add_result-IsPaired elided entry (some (id, original, payload)) s h =
      elim (Bool-cases (declared_tool_call s.messages id)) [
        | inl q ↦ rw q (
          AnsweredFrom-append [] s.messages _ h.0 (q, tt),
          All-append (λ r. any (answers r.1) (s.messages ++ _) ≡ true) s.tool_results _
              (recorded-append s.messages _ s.tool_results h.1) (any-last id _ _ s.messages, tt),
        )
        | inr q ↦ rw q h
      ]

  apply_kind-IsPaired :
      (kind : TranscriptKind) (ss : List (Segment Value)) (entry : TranscriptEntry Value)
      (elided : List ℕ)
      → All IsPaired ss
      → All IsPaired (apply_kind json kind ss entry elided)
  unfolding apply_kind
  apply_kind-IsPaired user ss entry elided h = All-append IsPaired ss _ h (((tt, tt), tt), tt)
  apply_kind-IsPaired assistant ss entry elided h =
      All-on_last IsPaired _
        (λ s.
          push-IsPaired s (assistant_message (some entry.text) (assistant_calls json entry.payload))
            ("[assistant]\n" <> entry.text <> "\n") entry.sequence tt)
        ss h
  apply_kind-IsPaired tool_result ss entry elided h =
      All-on_last IsPaired _ (add_result-IsPaired elided entry (recorded_result json entry.payload))
        ss h
  apply_kind-IsPaired failure ss entry elided h =
      elim (Bool-cases (is_aborted json entry.payload)) [
        | inl q ↦ rw q (All-on_last IsPaired _ denied-IsPaired ss h)
        | inr q ↦ rw q h
      ]
  apply_kind-IsPaired tool_call ss entry elided h = h
  apply_kind-IsPaired permission ss entry elided h = h
  apply_kind-IsPaired input ss entry elided h = h
  apply_kind-IsPaired completion ss entry elided h = h
  apply_kind-IsPaired system ss entry elided h = h
  apply_kind-IsPaired compact_summary ss entry elided h = h
  apply_kind-IsPaired tool_result_elision ss entry elided h = h

  apply_entries-IsPaired :
      (ss : List (Segment Value)) (es : List (TranscriptEntry Value)) (elided : List ℕ)
      → All IsPaired ss
      → All IsPaired (apply_entries json ss es elided)
  unfolding apply_entries apply_entry
  apply_entries-IsPaired ss [] elided h = h
  apply_entries-IsPaired ss (e ∷ es) elided h =
      apply_entries-IsPaired (apply_kind json e.kind ss e elided) es elided
        (apply_kind-IsPaired e.kind ss e elided h)

  scan_split-IsPaired :
      (elided : List ℕ) (entries : List (TranscriptEntry Value)) (split : Option (Split Value))
      → All IsPaired (scan_split json elided entries split)
  unfolding scan_split
  scan_split-IsPaired elided entries none = apply_entries-IsPaired [] entries elided tt
  scan_split-IsPaired elided entries (some s) =
      let kept = keep (is_retained json s.card) s.before in
      apply_entries-IsPaired (summary_of_card json s.card ∷ apply_entries json [] kept elided)
        (keep not_elision s.after) elided (((tt, tt), tt), apply_entries-IsPaired [] kept elided tt)

  -- In the history of any transcript, each `tool` message stands in a segment after an assistant message
  -- of that segment that made the call that it answers, and each recorded result has its message there.
  pub scan-IsPaired :
      (entries : List (TranscriptEntry Value)) → All IsPaired (scan_history_segments json entries)
  unfolding scan_history_segments
  scan-IsPaired entries =
      scan_split-IsPaired (elided_sequences json entries) entries (newest_summary entries)
