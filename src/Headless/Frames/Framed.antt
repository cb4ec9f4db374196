-- ===== src/Headless/Frames/Framed.antt =====
-- What a framed text of crates/latte-headless/src/session.rs shows: its own two tokens and no other.
use Prim.Native.Char.{Char, code}
use Prim.Native.String
use latte_code.Base.{
  ◌≡◌, refl, sym, ap, ◌∙◌, ◌⊎◌, inl, inr, String, true, false, none, some, [], ◌∷◌, ◌==◌, nat_eq,
  string_eq, any, Bool-cases, Option-cases, all_chars, ◌<>◌, nil-append, cons-append, arith,
}
use latte_code.Headless.Frames.{
  volatile_frame_tags, frame_token, escape_from, escape_volatile_frames, frame_volatile,
  matched_tag, after_tag, after_end,
}
use latte_code.Headless.Frames.Boundaries.{
  frames, first_tag, second_tag, matched-first, matched-second, after_tag-head,
}
use latte_code.Headless.Frames.Escape.{frames-plain, frames-token, is_plain, escape_from-frames}

after_tag_self : (p r : String) → after_tag p (p <> r) ≡ some r
unfolding after_tag
after_tag_self Prim.Native.String.[] r = rw (nil-append r) refl
after_tag_self (Prim.Native.String.◌∷◌ a p) r =
    rw (cons-append a p r) (ground (arith, after_tag_self p r))

matched-self-first :
    (r : String) → matched_tag volatile_frame_tags (first_tag <> r) ≡ some (first_tag, r)
matched-self-first r = matched-first (first_tag <> r) {r = r} (after_tag_self first_tag r)

matched-self-second :
    (r : String) → matched_tag volatile_frame_tags (second_tag <> r) ≡ some (second_tag, r)
matched-self-second r =
    matched-second (second_tag <> r) {r = r} not_first (after_tag_self second_tag r)
  where
    not_first : after_tag first_tag (second_tag <> r) ≡ none
    not_first = elim (Option-cases (after_tag first_tag (second_tag <> r))) [
      | inl n ↦ n
      | inr (x, clash) ↦ absurd (
          omega (
            arith,
            after_tag-head "r" "epository-context" (second_tag <> r) {r = x} clash,
            after_tag-head "s" "ystem-reminder" (second_tag <> r) {r = r}
                (after_tag_self second_tag r),
          ))
    ]

tag_cases :
    (tag : String)
    → any (λ t. t == tag) volatile_frame_tags ≡ true
    → (tag ≡ first_tag) ⊎ (tag ≡ second_tag)
tag_cases tag h = elim (Bool-cases (first_tag == tag)) [
  | inl e ↦ inl (sym ((string_eq.test_iff first_tag tag).0 e))
  | inr e ↦ elim (Bool-cases (second_tag == tag)) [
    | inl d ↦ inr (sym ((string_eq.test_iff second_tag tag).0 d))
    | inr d ↦ absurd (ground (arith, e, d))
  ]
]

module _ (a : Char) (p rest : String) (tag_begins : (code a == 47) ≡ false)
    (matched : (r : String)
      → matched_tag volatile_frame_tags (Prim.Native.String.◌∷◌ a p <> r)
        ≡ some (Prim.Native.String.◌∷◌ a p, r)) where
  frame_token-open :
      frame_token (Prim.Native.String.◌∷◌ a p <> ">\n" <> rest)
      ≡ some (record { closing = false; tag = Prim.Native.String.◌∷◌ a p; rest = "\n" <> rest })
  unfolding frame_token after_end
  frame_token-open =
      let found : matched_tag volatile_frame_tags (Prim.Native.String.◌∷◌ a (p <> ">\n" <> rest))
          ≡ some (Prim.Native.String.◌∷◌ a p, ">\n" <> rest) =
        rw (cons-append a p (">\n" <> rest)) at (matched (">\n" <> rest)) in
      rw (cons-append a p (">\n" <> rest), tag_begins, found, cons-append ">" "\n" rest) refl

  -- The opening token of a frame.
  frames-open :
      all_chars is_plain (Prim.Native.String.◌∷◌ a p) ≡ true
      → frames ("<" <> Prim.Native.String.◌∷◌ a p <> ">\n" <> rest)
        ≡ (false, Prim.Native.String.◌∷◌ a p) ∷ frames rest
  frames-open pl =
      let inside = Prim.Native.String.◌∷◌ a p <> ">\n" <> rest in
      rw
        (
          cons-append "<" "" inside,
          nil-append inside,
          frames-token "<" inside
              {t = record {
                closing = false;
                tag = Prim.Native.String.◌∷◌ a p;
                rest = "\n" <> rest;
              }}
              refl frame_token-open,
          frames-plain (Prim.Native.String.◌∷◌ a p) (">\n" <> rest) pl,
          frames-plain ">\n" rest refl,
        )
        refl

-- A framed text, whatever the body is, shows exactly two frame tokens: the frame's own opening token
-- first and its closing token last.
pub frame_volatile-frames :
    (tag body : String)
    → any (λ t. t == tag) volatile_frame_tags ≡ true
    → frames (frame_volatile tag body) ≡ (false, tag) ∷ (true, tag) ∷ []
unfolding frame_volatile escape_volatile_frames frames frame_token matched_tag after_tag after_end
frame_volatile-frames tag body h = elim (tag_cases tag h) [
  | inl e ↦ rw e (
      frames-open "r" "epository-context" (escape_from 0 body <> "\n</repository-context>") refl
        matched-self-first refl
      ∙ ap (λ fs. (false, first_tag) ∷ fs)
          (escape_from-frames 0 body "\n</repository-context>" refl))
  | inr e ↦ rw e (
      frames-open "s" "ystem-reminder" (escape_from 0 body <> "\n</system-reminder>") refl
        matched-self-second refl
      ∙ ap (λ fs. (false, second_tag) ∷ fs) (escape_from-frames 0 body "\n</system-reminder>" refl))
]
