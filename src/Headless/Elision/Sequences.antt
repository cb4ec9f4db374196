-- ===== src/Headless/Elision/Sequences.antt =====
-- What elision lists and what it leaves in crates/latte-headless/src/session.rs: the sequence of every
-- recorded result before the boundary, and a skeleton as its text.
use latte_code.Base.{
  ℕ, zero, suc, ◌≡◌, refl, subst, sym, ap, ◌∙◌, inl, inr, String, Bool, true, false, Option, some,
  List, [], ◌∷◌, ◌++◌, map, All, ◌==◌, string_eq, any, if◌then◌else◌, Bool-cases,
}
use latte_code.Headless.Message.{
  Message, system_message, user_message, assistant_message, tool_message, Json, unwrap_or,
}
use latte_code.Headless.History.{Segment, answers, elided_tool_skeleton}
use latte_code.Core.Session.{TranscriptEntry}
use latte_code.Headless.History.Scan.{scan_history_segments}
use latte_code.Headless.History.Pairing.{IsRecorded, IsPaired}
use latte_code.Headless.History.Grammar.{scan-IsPaired}
use latte_code.Headless.Elision.{
  Target, result_text, targets, elide_message, elide_target, elide_targets, elide_prefix,
  segment_targets, skeleton_of,
}

abbrev pair_of : Target → ℕ × String
pair_of t = (t.sequence, t.id)

map-sequences : (ts : List Target) → map (λ r. r.0) (map pair_of ts) ≡ map (λ t. t.sequence) ts
map-sequences [] = refl
map-sequences (t ∷ ts) = ap (λ l. t.sequence ∷ l) (map-sequences ts)

-- What holds of the targets holds of the results that they stand for.
All-targets :
    (P : String → Type 0) (ts : List Target)
    → All (λ t. P t.id) ts
    → All (λ r. P r.1) (map pair_of ts)
All-targets P [] h = tt
All-targets P (t ∷ ts) h = (h.0, All-targets P ts h.1)

module _ {Value : Type 0} where
  result_text-some :
      (id : String) (ms : List (Message Value))
      → any (answers id) ms ≡ true
      → (original : String) × (result_text id ms ≡ some original)
  result_text-some id [] h = cc
  result_text-some id (tool_message other name content ∷ ms) h = elim (Bool-cases (other == id)) [
    | inl q ↦ (content, rw q refl)
    | inr q ↦ rw q (result_text-some id ms (rw q at h))
  ]
  result_text-some id (system_message content ∷ ms) h = result_text-some id ms h
  result_text-some id (user_message content ∷ ms) h = result_text-some id ms h
  result_text-some id (assistant_message content calls ∷ ms) h = result_text-some id ms h

  -- Each recorded result is a target.
  targets-All :
      (rs : List (ℕ × String)) (ms : List (Message Value))
      → All (λ r. any (answers r.1) ms ≡ true) rs
      → map pair_of (targets rs ms) ≡ rs
  unfolding targets
  targets-All [] ms h = refl
  targets-All ((sequence, id) ∷ rs) ms h =
      let (original, e) = result_text-some id ms h.0 in
      rw e (ap (λ l. (sequence, id) ∷ l) (targets-All rs ms h.1))

  -- The sequences of the results recorded in the first segments.
  pub recorded_sequences : ℕ → List (Segment Value) → List ℕ
  recorded_sequences n [] = []
  recorded_sequences zero (s ∷ ss) = []
  recorded_sequences (suc n) (s ∷ ss) = map (λ r. r.0) s.tool_results ++ recorded_sequences n ss

module _ {Value : Type 0} (json : Json Value) where
  -- The text of a skeleton.
  abbrev pub IsSkeleton : String → Type 0
  IsSkeleton content =
      (name : Option String) × (original : String) × (payload : Value) × (content
        ≡ elided_tool_skeleton json name original payload)

  -- A result of the call is a skeleton.
  abbrev pub SkeletonFor : String → Message Value → Type 0
  SkeletonFor id (tool_message other name content) = (other == id) ≡ true → IsSkeleton content
  SkeletonFor id (system_message content) = Unit
  SkeletonFor id (user_message content) = Unit
  SkeletonFor id (assistant_message content calls) = Unit

  replaced-IsSkeleton :
      (b : Bool) (name : Option String) (original content : String)
      → IsSkeleton content
      → IsSkeleton (if b then skeleton_of json name original else content)
  replaced-IsSkeleton true name original content h =
      (name, original, unwrap_or (json.from_str original) json.empty_object, refl)
  replaced-IsSkeleton false name original content h = h

  elide_message-keeps :
      (t : Target) (id : String) (ms : List (Message Value))
      → All (SkeletonFor id) ms
      → All (SkeletonFor id) (map (elide_message json t) ms)
  unfolding elide_message
  elide_message-keeps t id [] h = tt
  elide_message-keeps t id (tool_message other name content ∷ ms) h = (
    λ q. replaced-IsSkeleton (other == t.id) name t.original content (h.0 q),
    elide_message-keeps t id ms h.1,
  )
  elide_message-keeps t id (system_message content ∷ ms) h = (tt, elide_message-keeps t id ms h.1)
  elide_message-keeps t id (user_message content ∷ ms) h = (tt, elide_message-keeps t id ms h.1)
  elide_message-keeps t id (assistant_message content calls ∷ ms) h =
      (tt, elide_message-keeps t id ms h.1)

  elide_message-makes :
      (t : Target) (ms : List (Message Value))
      → All (SkeletonFor t.id) (map (elide_message json t) ms)
  unfolding elide_message
  elide_message-makes t [] = tt
  elide_message-makes t (tool_message other name content ∷ ms) = (
    λ q. rw q (name, t.original, unwrap_or (json.from_str t.original) json.empty_object, refl),
    elide_message-makes t ms,
  )
  elide_message-makes t (system_message content ∷ ms) = (tt, elide_message-makes t ms)
  elide_message-makes t (user_message content ∷ ms) = (tt, elide_message-makes t ms)
  elide_message-makes t (assistant_message content calls ∷ ms) = (tt, elide_message-makes t ms)

  elide_targets-keeps :
      (id : String) (s : Segment Value) (ts : List Target)
      → All (SkeletonFor id) s.messages
      → All (SkeletonFor id) (elide_targets json s ts).messages
  unfolding elide_targets elide_target
  elide_targets-keeps id s [] h = h
  elide_targets-keeps id s (t ∷ ts) h =
      elide_targets-keeps id (elide_target json s t) ts (elide_message-keeps t id s.messages h)

  elide_targets-makes :
      (s : Segment Value) (ts : List Target)
      → All (λ t. All (SkeletonFor t.id) (elide_targets json s ts).messages) ts
  unfolding elide_targets elide_target
  elide_targets-makes s [] = tt
  elide_targets-makes s (t ∷ ts) = (
    elide_targets-keeps t.id (elide_target json s t) ts (elide_message-makes t s.messages),
    elide_targets-makes (elide_target json s t) ts,
  )

  elide_targets-results :
      (s : Segment Value) (ts : List Target)
      → (elide_targets json s ts).tool_results ≡ s.tool_results
  unfolding elide_targets elide_target
  elide_targets-results s [] = refl
  elide_targets-results s (t ∷ ts) = elide_targets-results (elide_target json s t) ts

  -- Every recorded result of the first segments has a skeleton as its text.
  abbrev pub ElidedUpTo : ℕ → List (Segment Value) → Type 0
  ElidedUpTo n [] = Unit
  ElidedUpTo zero (s ∷ ss) = Unit
  ElidedUpTo (suc n) (s ∷ ss) =
      All (λ r. All (SkeletonFor r.1) s.messages) s.tool_results × ElidedUpTo n ss

  elide_segment :
      (s : Segment Value)
      → IsRecorded s
      → let out = elide_targets json s (segment_targets s) in
        All (λ r. All (SkeletonFor r.1) out.messages) out.tool_results
  elide_segment s h =
      let ts = segment_targets s in
      let out = elide_targets json s ts in
      subst (λ rs. All (λ r. All (SkeletonFor r.1) out.messages) rs)
        (targets-All s.tool_results s.messages h ∙ sym (elide_targets-results s ts))
        (All-targets (λ id. All (SkeletonFor id) out.messages) ts (elide_targets-makes s ts))

  elide_prefix-lists :
      (ss : List (Segment Value)) (boundary : ℕ)
      → All IsPaired ss
      → ((elide_prefix json ss boundary).1 ≡ recorded_sequences boundary ss)
        × ElidedUpTo boundary (elide_prefix json ss boundary).0
  unfolding elide_prefix recorded_sequences
  elide_prefix-lists [] boundary h = (refl, tt)
  elide_prefix-lists (s ∷ ss) zero h = (refl, tt)
  elide_prefix-lists (s ∷ ss) (suc boundary) h =
      let (listed, elided) = elide_prefix-lists ss boundary h.1 in
      let ts = segment_targets s in
      let mine : map (λ t. t.sequence) ts ≡ map (λ r. r.0) s.tool_results =
        sym (map-sequences ts)
        ∙ ap (map (λ r. r.0)) (targets-All s.tool_results s.messages h.0.1) in
      (
        ap (λ l. l ++ (elide_prefix json ss boundary).1) mine
            ∙ ap (λ l. map (λ r. r.0) s.tool_results ++ l) listed,
        (elide_segment s h.0.1, elided),
      )

  -- In the history of any transcript, elision up to a boundary lists exactly the sequences of the
  -- recorded results of the segments before it, in order, and leaves a skeleton as the text of each.
  pub elide-scan :
      (entries : List (TranscriptEntry Value)) (boundary : ℕ)
      → ((elide_prefix json (scan_history_segments json entries) boundary).1
          ≡ recorded_sequences boundary (scan_history_segments json entries))
        × ElidedUpTo boundary (elide_prefix json (scan_history_segments json entries) boundary).0
  elide-scan entries boundary =
      elide_prefix-lists (scan_history_segments json entries) boundary (scan-IsPaired json entries)
