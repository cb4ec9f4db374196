-- ===== src/Headless/Frames/Boundaries.antt =====
-- What a reader of a text takes for frame tokens, and why escaping the text that follows a `<` makes
-- none of them: both texts agree up to where the escaped one has a `<`, a `[`, or its end.
use Prim.Native.Char.{Char, code}
use Prim.Native.String
use latte_code.Base.{
  ℕ, ◌≡◌, refl, sym, ◌∙◌, subst, inl, inr, String, Bool, true, false, not, ◌||◌, ◌&&◌, Option, none,
  some, List, [], ◌∷◌, ◌==◌, nat_eq, if◌then◌else◌, Bool-cases, Option-cases, all_chars, arith,
}
use latte_code.Headless.Frames.{
  Token, volatile_frame_tags, is_less, lower, is_ascii_whitespace, after_tag, matched_tag,
  after_end, ended_token, frame_token,
}

abbrev pub Frame : Type 0
Frame = Bool × String

abbrev pub noted : Option Token → List Frame → List Frame
noted none fs = fs
noted (some t) fs = (t.closing, t.tag) ∷ fs

-- The frame tokens of a text, opening or closing, with their tags, in order.
unfoldable pub frames : String → List Frame
frames Prim.Native.String.[] = []
frames (Prim.Native.String.◌∷◌ a s) =
    let rest = frames s in if is_less (code a) then noted (frame_token s) rest else rest

-- A text whose first characters belong to no token.
abbrev begins_less : String → Bool
begins_less Prim.Native.String.[] = false
begins_less (Prim.Native.String.◌∷◌ a s) = is_less (code a)

abbrev pub is_cut : String → Bool
is_cut Prim.Native.String.[] = true
is_cut (Prim.Native.String.◌∷◌ a s) =
    is_less (code a) || code a == 91 || (code a == 10 && begins_less s)

-- The first text is the second one up to a cut.
pub data Shadow : String → String → Type 0 where
  cut : (e s : String) → is_cut e ≡ true → Shadow e s
  same :
      (a : Char) (e s : String)
      → Shadow e s
      → Shadow (Prim.Native.String.◌∷◌ a e) (Prim.Native.String.◌∷◌ a s)

-- A character of a tag in lower case.
abbrev pub is_tag_char : ℕ → Bool
is_tag_char n = not (lower n == 60 || lower n == 91 || lower n == 10)

after_tag-cut :
    (a b : Char) (p e : String) {r : String}
    → is_tag_char (code a) ≡ true
    → is_cut (Prim.Native.String.◌∷◌ b e) ≡ true
    → after_tag (Prim.Native.String.◌∷◌ a p) (Prim.Native.String.◌∷◌ b e) ≡ some r
    → ⊥
unfolding after_tag
after_tag-cut a b p e t c h = ground arith

after_tag-Shadow :
    (p e s : String) {r : String}
    → all_chars is_tag_char p ≡ true
    → Shadow e s
    → after_tag p e ≡ some r
    → (r' : String) × (after_tag p s ≡ some r') × Shadow r r'
unfolding after_tag
after_tag-Shadow Prim.Native.String.[] e s {r} t sh h =
    let it : e ≡ r = ground arith in (s, refl, subst (λ x. Shadow x s) it sh)
after_tag-Shadow (Prim.Native.String.◌∷◌ a p) Prim.Native.String.[] s t (cut _ _ c) h = cc
after_tag-Shadow (Prim.Native.String.◌∷◌ a p) (Prim.Native.String.◌∷◌ b e) s {r} t (cut _ _ c) h =
    absurd (after_tag-cut a b p e {r = r} (ground arith) c h)
after_tag-Shadow (Prim.Native.String.◌∷◌ a p) _ _ t (same b e s sh) h =
    elim (Bool-cases (lower (code b) == lower (code a))) [
      | inl q ↦
          let (r', f, sh') = after_tag-Shadow p e s (ground arith) sh (rw q at h) in
          (r', rw q f, sh')
      | inr q ↦ absurd (ground (arith, q))
    ]

after_end-Shadow :
    (e s : String) {r : String}
    → Shadow e s
    → after_end e ≡ some r
    → (r' : String) × (after_end s ≡ some r')
unfolding after_end
after_end-Shadow Prim.Native.String.[] s (cut _ _ c) h = cc
after_end-Shadow (Prim.Native.String.◌∷◌ b Prim.Native.String.[]) s (cut _ _ c) h =
    absurd (ground arith)
after_end-Shadow (Prim.Native.String.◌∷◌ b (Prim.Native.String.◌∷◌ d e)) s (cut _ _ c) h =
    absurd (ground arith)
after_end-Shadow _ _ {r} (same a e s sh) h = elim (Bool-cases (is_ascii_whitespace (code a))) [
  | inl w ↦ rw w (after_end-Shadow e s {r = r} sh (rw w at h))
  | inr w ↦ elim (Bool-cases (code a == 62)) [
    | inl g ↦ rw (w, g) (s, refl)
    | inr g ↦ absurd (ground (arith, w, g))
  ]
]

abbrev head_of : String → ℕ
head_of Prim.Native.String.[] = 0
head_of (Prim.Native.String.◌∷◌ a s) = lower (code a)

-- Two tags that a text both begins with begin alike.
pub after_tag-head :
    (a : Char) (p s : String) {r : String}
    → after_tag (Prim.Native.String.◌∷◌ a p) s ≡ some r
    → head_of s ≡ lower (code a)
unfolding after_tag
after_tag-head a p Prim.Native.String.[] h = cc
after_tag-head a p (Prim.Native.String.◌∷◌ b s) h = ground arith

-- After the tag, the token ends in the escaped text only where it does in the other one.
after_tag-ended :
    (tag e s : String) {r : String}
    → all_chars is_tag_char tag ≡ true
    → Shadow e s
    → after_tag tag e ≡ some r
    → (r' : String) × (after_tag tag s ≡ some r') × (after_end r' ≡ none → after_end r ≡ none)
after_tag-ended tag e s {r} t sh h =
    let (r', f, sh') = after_tag-Shadow tag e s {r = r} t sh h in
    (
      r',
      f,
      λ (none_left : after_end r' ≡ none). elim (Option-cases (after_end r)) [
        | inl n ↦ n
        | inr (x, g) ↦
            let (x', g') = after_end-Shadow r r' {r = x} sh' g in
            let clash : none ≡ some x' = sym none_left ∙ g' in cc
      ],
    )

abbrev pub first_tag : String
first_tag = "repository-context"

abbrev pub second_tag : String
second_tag = "system-reminder"

pub matched-first :
    (s : String) {r : String}
    → after_tag first_tag s ≡ some r
    → matched_tag volatile_frame_tags s ≡ some (first_tag, r)
unfolding matched_tag
matched-first s h = ground (arith, h)

pub matched-second :
    (s : String) {r : String}
    → after_tag first_tag s ≡ none
    → after_tag second_tag s ≡ some r
    → matched_tag volatile_frame_tags s ≡ some (second_tag, r)
unfolding matched_tag
matched-second s n h = ground (arith, n, h)

pub matched-none :
    (s : String)
    → after_tag first_tag s ≡ none
    → after_tag second_tag s ≡ none
    → matched_tag volatile_frame_tags s ≡ none
unfolding matched_tag
matched-none s n h = ground (arith, n, h)

ended-none :
    (closing : Bool) (tag r : String)
    → (ended_token closing (some (tag, r)) ≡ none → after_end r ≡ none)
      × (after_end r ≡ none → ended_token closing (some (tag, r)) ≡ none)
ended-none closing tag r = (λ h. ground arith, λ h. ground (arith, h))

ended-Shadow :
    (closing : Bool) (e s : String)
    → Shadow e s
    → ended_token closing (matched_tag volatile_frame_tags s) ≡ none
    → ended_token closing (matched_tag volatile_frame_tags e) ≡ none
ended-Shadow closing e s sh h = elim (Option-cases (after_tag first_tag e)) [
  | inr (r, f) ↦
      let (r', f', ends) = after_tag-ended first_tag e s {r = r} refl sh f in
      let left = (ended-none closing first_tag r').0 (rw (matched-first s {r = r'} f') at h) in
      rw (matched-first e {r = r} f) ((ended-none closing first_tag r).1 (ends left))
  | inl n ↦ elim (Option-cases (after_tag second_tag e)) [
    | inl m ↦ rw (matched-none e n m) refl
    | inr (r, f) ↦
        let (r', f', ends) = after_tag-ended second_tag e s {r = r} refl sh f in
        elim (Option-cases (after_tag first_tag s)) [
          | inr (x, clash) ↦
              let one = after_tag-head "r" "epository-context" s {r = x} clash in
              let two = after_tag-head "s" "ystem-reminder" s {r = r'} f' in
              absurd (omega (arith, one, two))
          | inl m ↦
              let left =
                (ended-none closing second_tag r').0 (rw (matched-second s {r = r'} m f') at h) in
              rw (matched-second e {r = r} n f) ((ended-none closing second_tag r).1 (ends left))
        ]
  ]
]

cut-after_tag :
    (t a : Char) (p s : String)
    → is_tag_char (code t) ≡ true
    → is_cut (Prim.Native.String.◌∷◌ a s) ≡ true
    → after_tag (Prim.Native.String.◌∷◌ t p) (Prim.Native.String.◌∷◌ a s) ≡ none
cut-after_tag t a p s ok c =
    elim (Option-cases (after_tag (Prim.Native.String.◌∷◌ t p) (Prim.Native.String.◌∷◌ a s))) [
      | inl n ↦ n
      | inr (r, f) ↦ absurd (after_tag-cut t a p s {r = r} ok c f)
    ]

cut-frame_token : (e : String) → is_cut e ≡ true → frame_token e ≡ none
unfolding frame_token
cut-frame_token Prim.Native.String.[] c = refl
cut-frame_token (Prim.Native.String.◌∷◌ a s) c =
    let other : (code a == 47) ≡ false = ground arith in
    let none_left =
      matched-none (Prim.Native.String.◌∷◌ a s) (cut-after_tag "r" a "epository-context" s refl c)
        (cut-after_tag "s" a "ystem-reminder" s refl c) in
    rw (other, none_left) refl

-- Where the text after a `<` begins no token, the escaped one begins none either.
pub frame_token-Shadow : (e s : String) → Shadow e s → frame_token s ≡ none → frame_token e ≡ none
unfolding frame_token
frame_token-Shadow e s (cut _ _ c) h = cut-frame_token e c
frame_token-Shadow _ _ (same a e s sh) h = elim (Bool-cases (code a == 47)) [
  | inl q ↦ rw q (ended-Shadow true e s sh (rw q at h))
  | inr q ↦ rw q (
      ended-Shadow false (Prim.Native.String.◌∷◌ a e) (Prim.Native.String.◌∷◌ a s) (same a e s sh)
        (rw q at h))
]
