-- ===== src/Headless/Frames/Escape.antt =====
-- What escaping leaves of frame tokens, and what a framed text shows: crates/latte-headless/src/session.rs.
use Prim.Native.Char.{Char, code}
use Prim.Native.String
use latte_code.Base.{
  ℕ, zero, suc, ◌-◌, ◌≡◌, ◌↔◌, refl, sym, ap, ◌∙◌, ◌⊎◌, subst, inl, inr, String, Bool, true, false,
  not, Option, none, some, [], ◌∷◌, ◌==◌, nat_eq, string_eq, Bool-cases, Option-cases, all_chars,
  ◌<>◌, nil-append, cons-append, text-append-nil, text-append_assoc, arith,
}
use latte_code.Headless.Frames.{
  Token, volatile_frame_tags, is_less, frame_token, replacement, escape_from,
  escape_volatile_frames, matched_tag, after_tag, ended_token,
}
use latte_code.Headless.Frames.Boundaries.{
  frames, is_cut, Shadow, cut, same, frame_token-Shadow, first_tag, second_tag, matched-first,
  matched-second, matched-none,
}

abbrev pub is_plain : ℕ → Bool
is_plain n = not (is_less n)

-- A text without `<` has no frame tokens, whatever follows it.
pub frames-plain : (s t : String) → all_chars is_plain s ≡ true → frames (s <> t) ≡ frames t
unfolding frames
frames-plain Prim.Native.String.[] t h = rw (nil-append t) refl
frames-plain (Prim.Native.String.◌∷◌ a s) t h =
    rw (cons-append a s t) (ground (arith, frames-plain s t))

-- A replacement has no `<`, and begins with a `[`.
IsReplacement : String → Type 0
IsReplacement r = (all_chars is_plain r ≡ true) × ((t : String) → is_cut (r <> t) ≡ true)

all_chars-append :
    (p : ℕ → Bool) (s t : String)
    → all_chars p s ≡ true
    → all_chars p t ≡ true
    → all_chars p (s <> t) ≡ true
all_chars-append p Prim.Native.String.[] t h k = rw (nil-append t) k
all_chars-append p (Prim.Native.String.◌∷◌ a s) t h k =
    rw (cons-append a s t) (ground (arith, all_chars-append p s t))

matched_tag-plain :
    (s : String) {tag r : String}
    → matched_tag volatile_frame_tags s ≡ some (tag, r)
    → all_chars is_plain tag ≡ true
matched_tag-plain s {tag} {r} h = elim (Option-cases (after_tag first_tag s)) [
  | inr (x, f) ↦
      let it : first_tag ≡ tag = cc (sym (matched-first s {r = x} f) ∙ h) in
      subst (λ t. all_chars is_plain t ≡ true) it refl
  | inl n ↦ elim (Option-cases (after_tag second_tag s)) [
    | inr (x, f) ↦
        let it : second_tag ≡ tag = cc (sym (matched-second s {r = x} n f) ∙ h) in
        subst (λ t. all_chars is_plain t ≡ true) it refl
    | inl m ↦ cc (matched-none s n m)
  ]
]

ended-plain :
    (closing : Bool) (s : String) (m : Option (String × String)) {t : Token}
    → matched_tag volatile_frame_tags s ≡ m
    → ended_token closing m ≡ some t
    → all_chars is_plain t.tag ≡ true
ended-plain closing s none e h = cc
ended-plain closing s (some (tag, after)) {t} e h =
    let it : tag ≡ t.tag = ground arith in
    subst (λ x. all_chars is_plain x ≡ true) it (matched_tag-plain s {r = after} e)

token-plain : (s : String) {t : Token} → frame_token s ≡ some t → all_chars is_plain t.tag ≡ true
unfolding frame_token
token-plain Prim.Native.String.[] h = cc
token-plain (Prim.Native.String.◌∷◌ a s) {t} h = elim (Bool-cases (code a == 47)) [
  | inl q ↦ ended-plain true s (matched_tag volatile_frame_tags s) {t = t} refl (rw q at h)
  | inr q ↦
      let all = Prim.Native.String.◌∷◌ a s in
      ended-plain false all (matched_tag volatile_frame_tags all) {t = t} refl (rw q at h)
]

replacement-plain :
    (closing : Bool) (tag : String)
    → all_chars is_plain tag ≡ true
    → all_chars is_plain (replacement closing tag) ≡ true
replacement-plain true tag h =
    all_chars-append is_plain "[/" (tag <> "]") refl (all_chars-append is_plain tag "]" h refl)
replacement-plain false tag h =
    all_chars-append is_plain "[" (tag <> "]") refl (all_chars-append is_plain tag "]" h refl)

replacement-cut :
    (closing : Bool) (tag rest : String) → is_cut (replacement closing tag <> rest) ≡ true
replacement-cut true tag rest =
    rw (cons-append "[" "/" (tag <> "]"), cons-append "[" ("/" <> tag <> "]") rest) refl
replacement-cut false tag rest =
    rw (cons-append "[" "" (tag <> "]"), cons-append "[" ("" <> tag <> "]") rest) refl

-- The steps of the escape: a character that is kept, and a token that is replaced.
pub escape_from-kept :
    (a : Char) (s : String)
    → (is_less (code a) ≡ false) ⊎ (frame_token s ≡ none)
    → escape_from 0 (Prim.Native.String.◌∷◌ a s) ≡ Prim.Native.String.◌∷◌ a (escape_from 0 s)
unfolding escape_from
escape_from-kept a s (inl h) = rw (escape_from, h) refl
escape_from-kept a s (inr h) = elim (Bool-cases (is_less (code a))) [
  | inl q ↦ rw (escape_from, q, h) refl
  | inr q ↦ rw (escape_from, q) refl
]

pub escape_from-token :
    (a : Char) (s : String) {t : Token}
    → is_less (code a) ≡ true
    → frame_token s ≡ some t
    → escape_from 0 (Prim.Native.String.◌∷◌ a s)
      ≡ replacement t.closing t.tag
        <> escape_from (Prim.Native.String.count s - Prim.Native.String.count t.rest) s
unfolding escape_from
escape_from-token a s h k = rw (escape_from, h, k) refl

-- Either a character is kept or it begins a token.
Token-cases :
    (a : Char) (s : String)
    → ((is_less (code a) ≡ false) ⊎ (frame_token s ≡ none))
      ⊎ ((t : Token) × (is_less (code a) ≡ true) × (frame_token s ≡ some t))
Token-cases a s = elim (Bool-cases (is_less (code a))) [
  | inr q ↦ inl (inl q)
  | inl q ↦ elim (Option-cases (frame_token s)) [ inl n ↦ inl (inr n) | inr (t, f) ↦ inr (t, q, f) ]
]

escape_from-end : (k : ℕ) → escape_from k "" ≡ ""
unfolding escape_from
escape_from-end zero = refl
escape_from-end (suc k) = refl

escape_from-skip :
    (k : ℕ) (a : Char) (s : String)
    → escape_from (suc k) (Prim.Native.String.◌∷◌ a s) ≡ escape_from k s
unfolding escape_from
escape_from-skip k a s = refl

escape_from-Shadow : (s stop : String) → is_cut stop ≡ true → Shadow (escape_from 0 s <> stop) s
escape_from-Shadow Prim.Native.String.[] stop c =
    cut (escape_from 0 "" <> stop) "" (rw (escape_from-end 0, nil-append stop) c)
escape_from-Shadow (Prim.Native.String.◌∷◌ a s) stop c = elim (Token-cases a s) [
  | inl kept ↦
      rw (escape_from-kept a s kept, cons-append a (escape_from 0 s) stop)
        (same a (escape_from 0 s <> stop) s (escape_from-Shadow s stop c))
  | inr (t, q, f) ↦
      let rest = escape_from (Prim.Native.String.count s - Prim.Native.String.count t.rest) s in
      cut (escape_from 0 (Prim.Native.String.◌∷◌ a s) <> stop) (Prim.Native.String.◌∷◌ a s) (
        rw
          (
            escape_from-token a s {t = t} q f,
            text-append_assoc (replacement t.closing t.tag) rest stop,
          )
          (replacement-cut t.closing t.tag (rest <> stop)))
]

-- A `<` that began no token begins none before the escaped text.
frames-kept :
    (a : Char) (e s : String)
    → (is_less (code a) ≡ false) ⊎ (frame_token s ≡ none)
    → Shadow e s
    → frames (Prim.Native.String.◌∷◌ a e) ≡ frames e
unfolding frames
frames-kept a e s (inl q) sh = rw q refl
frames-kept a e s (inr n) sh = elim (Bool-cases (is_less (code a))) [
  | inl q ↦ rw (q, frame_token-Shadow e s sh n) refl
  | inr q ↦ rw q refl
]

-- Escaping leaves no frame token, also before what follows.
pub escape_from-frames :
    (k : ℕ) (s stop : String) → is_cut stop ≡ true → frames (escape_from k s <> stop) ≡ frames stop
escape_from-frames k Prim.Native.String.[] stop c = rw (escape_from-end k, nil-append stop) refl
escape_from-frames (suc k) (Prim.Native.String.◌∷◌ a s) stop c =
    rw (escape_from-skip k a s) (escape_from-frames k s stop c)
escape_from-frames zero (Prim.Native.String.◌∷◌ a s) stop c = elim (Token-cases a s) [
  | inl kept ↦
      rw (escape_from-kept a s kept, cons-append a (escape_from 0 s) stop)
        (frames-kept a (escape_from 0 s <> stop) s kept (escape_from-Shadow s stop c)
          ∙ escape_from-frames zero s stop c)
  | inr (t, q, f) ↦
      let k = Prim.Native.String.count s - Prim.Native.String.count t.rest in
      rw
        (
          escape_from-token a s {t = t} q f,
          text-append_assoc (replacement t.closing t.tag) (escape_from k s) stop,
          frames-plain (replacement t.closing t.tag) (escape_from k s <> stop)
              (replacement-plain t.closing t.tag (token-plain s {t = t} f)),
        )
        (escape_from-frames k s stop c)
]

Shadow-refl : (s : String) → Shadow s s
Shadow-refl Prim.Native.String.[] = cut "" "" refl
Shadow-refl (Prim.Native.String.◌∷◌ a s) = same a s s (Shadow-refl s)

pub frames-token :
    (a : Char) (s : String) {t : Token}
    → is_less (code a) ≡ true
    → frame_token s ≡ some t
    → frames (Prim.Native.String.◌∷◌ a s) ≡ (t.closing, t.tag) ∷ frames s
unfolding frames
frames-token a s q f = rw (q, f) refl

escape_from-id : (s : String) → frames s ≡ [] → escape_from 0 s ≡ s
escape_from-id Prim.Native.String.[] h = escape_from-end 0
escape_from-id (Prim.Native.String.◌∷◌ a s) h = elim (Token-cases a s) [
  | inl kept ↦
      escape_from-kept a s kept
      ∙ ap (λ t. Prim.Native.String.◌∷◌ a t)
          (escape_from-id s (sym (frames-kept a s s kept (Shadow-refl s)) ∙ h))
  | inr (t, q, f) ↦ cc (sym (frames-token a s {t = t} q f) ∙ h)
]

-- A text stays as it is exactly when it has no frame tokens, and its escape has none: so a second
-- escape changes nothing.
pub escape_unchanged :
    (body : String)
    → ((escape_volatile_frames body ≡ body) ↔ (frames body ≡ []))
      × (frames (escape_volatile_frames body) ≡ [])
      × (escape_volatile_frames (escape_volatile_frames body) ≡ escape_volatile_frames body)
unfolding escape_volatile_frames frames
escape_unchanged body =
    let none_left : frames (escape_from 0 body) ≡ [] =
      subst (λ t. frames t ≡ []) (text-append-nil (escape_from 0 body))
        (escape_from-frames 0 body "" refl) in
    (
      (λ h. sym (ap frames h) ∙ none_left, escape_from-id body),
      none_left,
      escape_from-id (escape_from 0 body) none_left,
    )
