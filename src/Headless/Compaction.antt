-- ===== src/Headless/Compaction.antt =====
-- The compaction of a conversation in crates/latte-headless/src/session.rs: which segments are kept as
-- they are, and the bounded text that a summary is made of.
pub mod Boundary
pub mod Source
pub mod Runs
pub mod Kept
pub mod Window
pub mod Planner
pub mod Plans
pub mod Prepared
mod Examples
use Prim.Native.Char.{Char, len_utf8}
use Prim.Native.String
use latte_code.Base.{
  ℕ, zero, suc, ◌+◌, ◌-◌, ◌*◌, ◌/◌, min, String, Bool, true, false, Option, none, some, is_some,
  List, [], ◌∷◌, ◌++◌, Result, ok, ◌>>=◌, ◌==◌, nat_eq, ltb, leb, length, if◌then◌else◌, u64_max,
  ◌<>◌,
}
use latte_code.Core.Profile.{CompactionPolicy}
use latte_code.Headless.Policy.{SessionRuntimeError}
use latte_code.Headless.Request.{wire_bytes}
use latte_code.Headless.Request.Assembly.{HistorySegment}

abbrev pub reverse_onto {ℓ} : {A : Type ℓ} → List A → List A → List A
reverse_onto [] acc = acc
reverse_onto (x ∷ xs) acc = reverse_onto xs (x ∷ acc)

-- `segments[..n]` and `segments[n..]`.
abbrev pub take {ℓ} : {A : Type ℓ} → ℕ → List A → List A
take zero xs = []
take (suc n) [] = []
take (suc n) (x ∷ xs) = x ∷ take n xs

abbrev pub drop {ℓ} : {A : Type ℓ} → ℕ → List A → List A
drop zero xs = xs
drop (suc n) [] = []
drop (suc n) (x ∷ xs) = drop n xs

-- `budget.saturating_mul(retain_ratio) / 100`.
abbrev pub retain_bytes : ℕ → ℕ → ℕ
retain_bytes budget ratio = min (budget * ratio) u64_max / 100

module _ {P : Type 0} {Message : Type 0} (to_vec : List Message → Result (List ℕ) String) where
  -- The walk of `proactive_retain_boundary` over the segments from the newest on, with the bytes and the
  -- boundary so far.
  pub retain_walk : ℕ → List (HistorySegment Message) → ℕ → ℕ → Result ℕ (SessionRuntimeError P)
  retain_walk allowance [] accumulated boundary = ok boundary
  retain_walk allowance (s ∷ older) accumulated boundary = elim s.from_summary [
    | true ↦ ok (length older + 1)
    | false ↦ wire_bytes to_vec s.messages >>= λ size. elim (accumulated == 0) [
      | true ↦ retain_walk allowance older size (length older)
      | false ↦ elim (ltb allowance (min (accumulated + size) u64_max)) [
        | true ↦ ok boundary
        | false ↦ retain_walk allowance older (accumulated + size) (length older)
      ]
    ]
  ]

  -- `proactive_retain_boundary`, for at most as many immobile segments as there are.
  pub proactive_retain_boundary :
      List (HistorySegment Message) → ℕ → ℕ → ℕ → Result (Option ℕ) (SessionRuntimeError P)
  proactive_retain_boundary segments budget ratio immobile_tail =
      let movable_end = length segments - immobile_tail in
      retain_walk (retain_bytes budget ratio) (reverse_onto (take movable_end segments) []) 0
        movable_end
      >>= λ boundary. ok (if ltb 0 boundary then some boundary else none)

-- The longest prefix of whole characters within the bytes.
pub cut_text : ℕ → String → String
cut_text bytes Prim.Native.String.[] = ""
cut_text bytes (Prim.Native.String.◌∷◌ a s) =
    if leb (len_utf8 a) bytes
    then Prim.Native.String.◌∷◌ a (cut_text (bytes - len_utf8 a) s)
    else ""

-- The part of a text that the remaining bound admits.
abbrev pub taken : ℕ → String → String
taken bound text =
    let size = min (Prim.Native.String.len text) bound in
    if ltb size (Prim.Native.String.len text) then cut_text size text else text

module _ {Message : Type 0} where
  -- The texts of the segments from the newest on, within the bound.
  pub source_parts : ℕ → List (HistorySegment Message) → String
  source_parts bound [] = ""
  source_parts bound (s ∷ older) =
      if bound == 0
      then ""
      else let text = taken bound s.text in
        text <> source_parts (bound - Prim.Native.String.len text) older

  -- The first sequence of the oldest retained segment that has one.
  abbrev pub first_retained : List (HistorySegment Message) → Option ℕ
  first_retained [] = none
  first_retained (s ∷ ss) = elim s.first_sequence [ none ↦ first_retained ss | some n ↦ some n ]

  -- `compaction_source`.
  unfoldable pub compaction_source :
      List (HistorySegment Message) → ℕ → CompactionPolicy → Option ℕ × String
  compaction_source segments boundary compaction = (
    first_retained (drop boundary segments),
    source_parts compaction.max_summary_source_bytes (reverse_onto (take boundary segments) []),
  )

-- `fold_prompt_into_summary_source`; `redact` is `redact_session_text`.
pub fold_prompt_into_summary_source : (String → String) → String → String → ℕ → String
fold_prompt_into_summary_source redact source prompt max_bytes =
    let folded = source <> "\n[user]\n" <> redact prompt <> "\n" in
    if ltb max_bytes (Prim.Native.String.len folded) then cut_text max_bytes folded else folded
