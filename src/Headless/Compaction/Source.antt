-- ===== src/Headless/Compaction/Source.antt =====
-- The text that a summary is made of in crates/latte-headless/src/session.rs stays within its bound, and
-- what that costs the prompt.
use Prim.Native.Char.{len_utf8}
use Prim.Native.String
use Prim.Native.String.len.{cons}
use text.Mathlib.TextPositions.{len-append, len_utf8-pos}
use latte_code.Base.{
  ℕ, ◌+◌, ◌-◌, ◌≤◌, ◌≡◌, refl, sym, ap, inl, inr, min, String, true, false, List, [], ◌∷◌, ◌==◌,
  nat_eq, ltb, leb, ltb→lt, leb→le, Bool-cases, ◌<>◌, nil-append, cons-append, arith,
}
use latte_code.Core.Profile.{CompactionPolicy}
use latte_code.Headless.Request.Assembly.{HistorySegment}
use latte_code.Headless.Compaction.{
  cut_text, taken, source_parts, compaction_source, fold_prompt_into_summary_source, reverse_onto,
  take,
}

cut_text-len : (bytes : ℕ) (s : String) → Prim.Native.String.len (cut_text bytes s) ≤ bytes
unfolding cut_text
cut_text-len bytes Prim.Native.String.[] = omega arith
cut_text-len bytes (Prim.Native.String.◌∷◌ a s) = elim (Bool-cases (leb (len_utf8 a) bytes)) [
  | inl q ↦
      let rest = cut_text (bytes - len_utf8 a) s in
      rw q (
        omega
          (arith, cons a rest, cut_text-len (bytes - len_utf8 a) s, leb→le (len_utf8 a) bytes q))
  | inr q ↦ rw q (omega arith)
]

cut_text-nil : (t : String) → cut_text 0 t ≡ ""
unfolding cut_text
cut_text-nil Prim.Native.String.[] = refl
cut_text-nil (Prim.Native.String.◌∷◌ a t) =
    let (k, e) = len_utf8-pos a in
    let over : leb (len_utf8 a) 0 ≡ false = ground (arith, e) in rw over refl

-- A text that fills the bound is the cut of whatever follows it.
cut_text-full : (s t : String) → cut_text (Prim.Native.String.len s) (s <> t) ≡ s
unfolding cut_text
cut_text-full Prim.Native.String.[] t = rw (nil-append t) (cut_text-nil t)
cut_text-full (Prim.Native.String.◌∷◌ a s) t =
    let fits : leb (len_utf8 a) (len_utf8 a + Prim.Native.String.len s) ≡ true = ground arith in
    let left : len_utf8 a + Prim.Native.String.len s - len_utf8 a ≡ Prim.Native.String.len s =
      omega arith in
    rw (cons-append a s t, cons a s, fits, left)
      (ap (λ r. Prim.Native.String.◌∷◌ a r) (cut_text-full s t))

taken-len : (bound : ℕ) (s : String) → Prim.Native.String.len (taken bound s) ≤ bound
taken-len bound s =
    let size = min (Prim.Native.String.len s) bound in
    elim (Bool-cases (ltb size (Prim.Native.String.len s))) [
      | inl q ↦ rw q (omega (arith, cut_text-len size s))
      | inr q ↦ rw q (ground (arith, q))
    ]

source_parts-len :
    {Message : Type 0} (bound : ℕ) (ss : List (HistorySegment Message))
    → Prim.Native.String.len (source_parts bound ss) ≤ bound
unfolding source_parts
source_parts-len bound [] = omega arith
source_parts-len bound (s ∷ ss) = elim (Bool-cases (bound == 0)) [
  | inl q ↦ rw q (omega arith)
  | inr q ↦
      let text = taken bound s.text in
      let rest = source_parts (bound - Prim.Native.String.len text) ss in
      rw q (
        omega (
          arith,
          len-append text rest,
          taken-len bound s.text,
          source_parts-len (bound - Prim.Native.String.len text) ss,
        ))
]

-- The text that a summary is made of never has more bytes than the profile's bound.
pub compaction_source-len :
    {Message : Type 0} (segments : List (HistorySegment Message)) (boundary : ℕ)
    (compaction : CompactionPolicy)
    → Prim.Native.String.len (compaction_source segments boundary compaction).1
      ≤ compaction.max_summary_source_bytes
unfolding compaction_source
compaction_source-len segments boundary compaction =
    source_parts-len compaction.max_summary_source_bytes (reverse_onto (take boundary segments) [])

-- With the prompt folded in, the text is still within the bound; it holds the whole prompt after the
-- history where both fit, and nothing of the prompt where the history alone fills the bound.
pub fold_prompt-cut :
    (redact : String → String) (source prompt : String) (max_bytes : ℕ)
    → let folded = fold_prompt_into_summary_source redact source prompt max_bytes in
      let shown = "\n[user]\n" <> redact prompt <> "\n" in
      (Prim.Native.String.len folded ≤ max_bytes)
      × (Prim.Native.String.len source + Prim.Native.String.len shown ≤ max_bytes
          → folded ≡ source <> shown)
      × (Prim.Native.String.len source ≡ max_bytes → folded ≡ source)
unfolding fold_prompt_into_summary_source
fold_prompt-cut redact source prompt max_bytes =
    let shown = "\n[user]\n" <> redact prompt <> "\n" in
    let whole = source <> shown in
    let sum = len-append source shown in
    let longer = len-append "\n[user]\n" (redact prompt <> "\n") in
    elim (Bool-cases (ltb max_bytes (Prim.Native.String.len whole))) [
      | inl q ↦ rw q (
        cut_text-len max_bytes whole,
        λ fits.
            absurd (omega (arith, sum, fits, ltb→lt max_bytes (Prim.Native.String.len whole) q)),
        λ full. rw (sym full) (cut_text-full source shown),
      )
      | inr q ↦
          rw q
            (ground (arith, q), λ fits. refl, λ full. absurd (ground (arith, q, sum, full, longer)))
    ]
