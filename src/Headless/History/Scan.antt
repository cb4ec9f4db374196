-- ===== src/Headless/History/Scan.antt =====
-- `scan_history_segments` of crates/latte-headless/src/session.rs: the newest summary supersedes what is
-- older than itself, but for the entries that its card retains.
use latte_code.Base.{
  ℕ, Bool, true, false, not, ◌&&◌, Option, none, some, List, [], ◌∷◌, ◌++◌, keep, leb,
  if◌then◌else◌, ◌<>◌,
}
use latte_code.Core.Session.{TranscriptEntry, TranscriptKind, compact_summary, tool_result_elision}
use latte_code.Headless.Message.{Json, user_message, and_then}
use latte_code.Headless.History.{Segment, summary_segment, elision_card_sequences, apply_entries}

abbrev pub is_summary_kind : TranscriptKind → Bool
is_summary_kind compact_summary = true
is_summary_kind _ = false

abbrev pub is_elision_kind : TranscriptKind → Bool
is_elision_kind tool_result_elision = true
is_elision_kind _ = false

-- A summary card, with the entries before and after it.
pub record Split (Value : Type 0) : Type 0 where
  pub before : List (TranscriptEntry Value)
  pub card : TranscriptEntry Value
  pub after : List (TranscriptEntry Value)

module _ {Value : Type 0} where
  abbrev pub is_summary : TranscriptEntry Value → Bool
  is_summary e = is_summary_kind e.kind

  abbrev pub is_elision : TranscriptEntry Value → Bool
  is_elision e = is_elision_kind e.kind

  abbrev pub not_elision : TranscriptEntry Value → Bool
  not_elision e = not (is_elision e)

  abbrev pub split_step :
      TranscriptEntry Value
      → List (TranscriptEntry Value)
      → Option (Split Value)
      → Option (Split Value)
  split_step e es (some s) = some (record s { before = e ∷ s.before })
  split_step e es none =
      if is_summary e then some (record { before = []; card = e; after = es }) else none

  -- The newest summary card.
  unfoldable pub newest_summary : List (TranscriptEntry Value) → Option (Split Value)
  newest_summary [] = none
  newest_summary (e ∷ es) = split_step e es (newest_summary es)

module _ {Value : Type 0} (json : Json Value) where
  open json use {get, as_u64}

  -- The union of what the elision cards list.
  unfoldable pub elided_sequences : List (TranscriptEntry Value) → List ℕ
  elided_sequences [] = []
  elided_sequences (e ∷ es) =
      let rest = elided_sequences es in
      if is_elision e then elision_card_sequences json e ++ rest else rest

  abbrev pub retain_from : TranscriptEntry Value → Option ℕ
  retain_from card =
      and_then card.payload λ payload. and_then (get payload "retain_from_sequence") as_u64

  abbrev pub is_from : Option ℕ → ℕ → Bool
  is_from none sequence = false
  is_from (some from) sequence = leb from sequence

  -- What a summary card retains of the entries before it.
  abbrev pub is_retained : TranscriptEntry Value → TranscriptEntry Value → Bool
  is_retained card e =
      not (is_summary e) && (not_elision e && is_from (retain_from card) e.sequence)

  abbrev pub summary_of_card : TranscriptEntry Value → Segment Value
  summary_of_card card =
      summary_segment card.sequence card.turn_id (user_message card.text)
        ("[compacted summary]\n" <> card.text <> "\n")

  unfoldable pub scan_split :
      List ℕ → List (TranscriptEntry Value) → Option (Split Value) → List (Segment Value)
  scan_split elided entries none = apply_entries json [] entries elided
  scan_split elided entries (some s) =
      apply_entries json
        (summary_of_card s.card ∷ apply_entries json [] (keep (is_retained s.card) s.before) elided)
        (keep not_elision s.after) elided

  -- `scan_history_segments`.
  unfoldable pub scan_history_segments : List (TranscriptEntry Value) → List (Segment Value)
  scan_history_segments entries =
      scan_split (elided_sequences entries) entries (newest_summary entries)
