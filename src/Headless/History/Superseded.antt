-- ===== src/Headless/History/Superseded.antt =====
-- What a summary supersedes in crates/latte-headless/src/session.rs plays no part in the history.
use latte_code.Base.{
  ℕ, ◌≤◌, ◌≡◌, ◌≢◌, ◌⊎◌, refl, sym, ap, ◌∙◌, inl, inr, Bool, true, false, ◌||◌, Option, none, some,
  List, [], ◌∷◌, ◌++◌, keep, All, Picks, Decides, Picks-keep, Bool-cases, arith,
}
use latte_code.Core.Session.{TranscriptEntry, TranscriptKind, compact_summary, tool_result_elision}
use latte_code.Headless.Message.{Json, and_then}
use latte_code.Headless.History.{Segment, apply_entries, apply_entry, apply_kind}
use latte_code.Headless.History.Scan.{
  is_summary, is_elision, not_elision, newest_summary, elided_sequences, is_retained,
  is_summary_kind, is_elision_kind, is_from, retain_from, summary_of_card, scan_split,
  scan_history_segments,
}

module _ {Value : Type 0} where
  -- No summary card.
  abbrev pub NoSummary : List (TranscriptEntry Value) → Type 0
  NoSummary = All λ e. is_summary e ≡ false

  newest_summary-none :
      (es : List (TranscriptEntry Value)) → NoSummary es → newest_summary es ≡ none
  unfolding newest_summary
  newest_summary-none [] h = refl
  newest_summary-none (e ∷ es) h = rw (newest_summary-none es h.1, h.0) refl

  pub newest_summary-append :
      (before : List (TranscriptEntry Value)) (card : TranscriptEntry Value)
      (after : List (TranscriptEntry Value))
      → is_summary card ≡ true
      → NoSummary after
      → newest_summary (before ++ card ∷ after)
        ≡ some (record { before = before; card = card; after = after })
  unfolding newest_summary
  newest_summary-append [] card after c h = rw (newest_summary-none after h, c) refl
  newest_summary-append (e ∷ before) card after c h =
      rw (newest_summary-append before card after c h) refl

module _ {Value : Type 0} (json : Json Value) where
  -- The entries before the card that the next scan still needs: those that it retains, and the elision
  -- cards.
  abbrev pub is_needed : TranscriptEntry Value → TranscriptEntry Value → Bool
  is_needed card e = is_retained json card e || is_elision e

  needed-retained :
      (card : TranscriptEntry Value) (es : List (TranscriptEntry Value))
      → keep (is_retained json card) (keep (is_needed card) es) ≡ keep (is_retained json card) es
  needed-retained card [] = refl
  needed-retained card (e ∷ es) = ground (arith, needed-retained card es)

  needed-elided :
      (card : TranscriptEntry Value) (before after : List (TranscriptEntry Value))
      → elided_sequences json (keep (is_needed card) before ++ after)
        ≡ elided_sequences json (before ++ after)
  unfolding elided_sequences
  needed-elided card [] after = refl
  needed-elided card (e ∷ es) after = ground (arith, needed-elided card es after)

  -- The entries that a card does not need play no part.
  scan-needed :
      (before : List (TranscriptEntry Value)) (card : TranscriptEntry Value)
      (after : List (TranscriptEntry Value))
      → is_summary card ≡ true
      → NoSummary after
      → scan_history_segments json (keep (is_needed card) before ++ card ∷ after)
        ≡ scan_history_segments json (before ++ card ∷ after)
  unfolding scan_history_segments scan_split
  scan-needed before card after c h =
      rw
        (
          newest_summary-append (keep (is_needed card) before) card after c h,
          newest_summary-append before card after c h,
          needed-elided card before (card ∷ after),
        )
        (ap
          (λ kept.
            apply_entries json
              (summary_of_card json card
                ∷ apply_entries json [] kept (elided_sequences json (before ++ card ∷ after)))
              (keep not_elision after) (elided_sequences json (before ++ card ∷ after)))
          (needed-retained card before))

  -- Where the retained entries begin, by the payload of a card.
  abbrev pub boundary_of : TranscriptEntry Value → Option ℕ
  boundary_of card =
      and_then card.payload
        λ payload. and_then (json.get payload "retain_from_sequence") json.as_u64

  abbrev pub IsFrom : Option ℕ → ℕ → Type 0
  IsFrom none sequence = ⊥
  IsFrom (some from) sequence = from ≤ sequence

  -- An elision card, or an entry from the boundary on that is no summary.
  abbrev pub IsNeeded : Option ℕ → TranscriptEntry Value → Type 0
  IsNeeded boundary e =
      (e.kind ≡ tool_result_elision) ⊎ ((e.kind ≢ compact_summary) × IsFrom boundary e.sequence)

  IsFrom-Decides : (boundary : Option ℕ) → Decides (is_from json boundary) (IsFrom boundary)
  IsFrom-Decides none = (λ n h. cc, λ n h bad. bad)
  IsFrom-Decides (some from) = (λ n h. ground (arith, h), λ n h l. ground (arith, h, l))

  elision-eq : (k : TranscriptKind) → is_elision_kind k ≡ true → k ≡ tool_result_elision
  elision-eq k h = ground arith

  summary-eq : (k : TranscriptKind) → is_summary_kind k ≡ true → k ≡ compact_summary
  summary-eq k h = ground arith

  no_both : (k : TranscriptKind) → is_elision_kind k ≡ true → is_summary_kind k ≡ false
  no_both k h = ground arith

  pub IsNeeded-Decides :
      (card : TranscriptEntry Value) (boundary : Option ℕ)
      → boundary_of card ≡ boundary
      → Decides (is_needed card) (IsNeeded boundary)
  IsNeeded-Decides card boundary b = (wanted, unwanted)
    where
      same : retain_from json card ≡ boundary
      same = b

      wanted : (e : TranscriptEntry Value) → is_needed card e ≡ true → IsNeeded boundary e
      wanted e h = elim (Bool-cases (is_elision e)) [
        | inl q ↦ inl (elision-eq e.kind q)
        | inr q ↦
            let from : is_from json (retain_from json card) e.sequence ≡ true =
              ground (arith, q, h) in
            let plain : is_summary e ≡ false = ground (arith, q, h) in
            inr (
              λ k. let bad : is_summary_kind e.kind ≡ true = rw k refl in cc (plain, bad),
              (IsFrom-Decides boundary).0 e.sequence (rw same at from),
            )
      ]

      unwanted : (e : TranscriptEntry Value) → is_needed card e ≡ false → ¬ IsNeeded boundary e
      unwanted e h (inl k) =
          let hit : is_elision_kind e.kind ≡ true = rw k refl in ground (arith, h, hit)
      unwanted e h (inr (k, from)) = elim (Bool-cases (is_elision e)) [
        | inl q ↦ ground (arith, q, h)
        | inr q ↦ elim (Bool-cases (is_summary e)) [
          | inl r ↦ k (summary-eq e.kind r)
          | inr r ↦
              let missed : is_from json (retain_from json card) e.sequence ≡ false =
                ground (arith, q, r, h) in
              (IsFrom-Decides boundary).1 e.sequence (rw same at missed) from
        ]
      ]

  plain_scan :
      (es : List (TranscriptEntry Value))
      → NoSummary es
      → scan_history_segments json es ≡ apply_entries json [] es (elided_sequences json es)
  unfolding scan_history_segments scan_split
  plain_scan es h = rw (newest_summary-none es h) refl

  needed-NoSummary :
      (card : TranscriptEntry Value) (es : List (TranscriptEntry Value))
      → NoSummary (keep (is_needed card) es)
  needed-NoSummary card [] = tt
  needed-NoSummary card (e ∷ es) = elim (Bool-cases (is_needed card e)) [
    | inr q ↦ rw q (needed-NoSummary card es)
    | inl q ↦
        let plain : is_summary e ≡ false = elim (Bool-cases (is_elision e)) [
          | inl r ↦ no_both e.kind r
          | inr r ↦ ground (arith, q, r)
        ] in
        rw q (plain, needed-NoSummary card es)
  ]

  elided-snoc :
      (card : TranscriptEntry Value) (es : List (TranscriptEntry Value))
      → is_elision card ≡ false
      → elided_sequences json (es ++ card ∷ []) ≡ elided_sequences json es
  unfolding elided_sequences
  elided-snoc card [] h = rw h refl
  elided-snoc card (e ∷ es) h = rw (elided-snoc card es h) refl

  elision-applied :
      (segments : List (Segment Value)) (e : TranscriptEntry Value) (elided : List ℕ)
      → is_elision e ≡ true
      → apply_entry json segments e elided ≡ segments
  unfolding apply_entry apply_kind
  elision-applied segments e elided h = rw (elision-eq e.kind h) refl

  -- Elision cards make no segments.
  needed-applied :
      (card : TranscriptEntry Value) (es : List (TranscriptEntry Value)) (elided : List ℕ)
      (segments : List (Segment Value))
      → apply_entries json segments (keep (is_needed card) es) elided
        ≡ apply_entries json segments (keep (is_retained json card) es) elided
  unfolding apply_entries
  needed-applied card [] elided segments = refl
  needed-applied card (e ∷ es) elided segments =
      let rest = needed-applied card es elided in
      elim (Bool-cases (is_elision e)) [
        | inl q ↦
            let needs : is_needed card e ≡ true = ground (arith, q) in
            let keeps : is_retained json card e ≡ false = ground (arith, q) in
            rw (needs, keeps)
              (ap (λ ss. apply_entries json ss (keep (is_needed card) es) elided)
                  (elision-applied segments e elided q)
                ∙ rest segments)
        | inr q ↦ elim (Bool-cases (is_retained json card e)) [
          | inl r ↦
              let needs : is_needed card e ≡ true = ground (arith, r) in
              rw (needs, r) (rest (apply_entry json segments e elided))
          | inr r ↦
              let needs : is_needed card e ≡ false = ground (arith, q, r) in
              rw (needs, r) (rest segments)
        ]
      ]

  -- The newest summary card, alone behind a transcript, gives its summary and then the history of the
  -- needed entries by themselves: the elision cards, and from the boundary of the card on all that is no
  -- summary. Before other entries without a summary card they give the history of the whole: what the
  -- card supersedes can be left out of the window that is read.
  pub scan-superseded :
      (before needed after : List (TranscriptEntry Value)) (card : TranscriptEntry Value)
      (boundary : Option ℕ)
      → card.kind ≡ compact_summary
      → boundary_of card ≡ boundary
      → Picks (IsNeeded boundary) before needed
      → NoSummary after
      → (scan_history_segments json (before ++ card ∷ [])
          ≡ summary_of_card json card ∷ scan_history_segments json needed)
        × (scan_history_segments json (before ++ card ∷ after)
            ≡ scan_history_segments json (needed ++ card ∷ after))
  unfolding scan_history_segments scan_split apply_entries
  scan-superseded before needed after card boundary k b picks none_after =
      let kept = keep (is_needed card) before in
      let chosen : needed ≡ kept =
        Picks-keep (is_needed card) (IsNeeded boundary) (IsNeeded-Decides card boundary b) picks in
      let summary : is_summary card ≡ true = rw k refl in
      let plain : is_elision card ≡ false = rw k refl in
      let elided = elided_sequences json (before ++ card ∷ []) in
      let same : elided ≡ elided_sequences json kept =
        sym (needed-elided card before (card ∷ [])) ∙ elided-snoc card kept plain in
      let alone : scan_history_segments json (before ++ card ∷ [])
          ≡ summary_of_card json card
            ∷ apply_entries json [] (keep (is_retained json card) before) elided =
        rw (newest_summary-append before card [] summary tt) refl in
      let by_themselves : apply_entries json [] (keep (is_retained json card) before) elided
          ≡ scan_history_segments json kept =
        sym (needed-applied card before elided [])
        ∙ ap (apply_entries json [] kept) same
        ∙ sym (plain_scan kept (needed-NoSummary card before)) in
      (
        alone
            ∙ ap (λ ss. summary_of_card json card ∷ ss)
                (by_themselves ∙ sym (ap (scan_history_segments json) chosen)),
        sym (scan-needed before card after summary none_after)
            ∙ sym (ap (λ es. scan_history_segments json (es ++ card ∷ after)) chosen),
      )
