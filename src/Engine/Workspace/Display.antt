-- ===== src/Engine/Workspace/Display.antt =====
-- The text that `WorkspacePath::display` of crates/latte-engine/src/workspace.rs shows of a path, which
-- permissions and later accesses are asked about.
use Prim.Native.Char.{Char, code}
use Prim.Native.String
use latte_code.Base.{
  ℕ, ◌≡◌, refl, sym, ap, ◌∙◌, inl, inr, String, Bool, false, not, ◌||◌, List, [], ◌∷◌, ok, ok_or,
  >>=-eq-ok, Bool-cases, ◌==◌, nat_eq, string_eq, keep, All, if◌then◌else◌, arith,
}
use latte_code.Engine.Workspace.{
  escape, push, joined, keep_right, segments, is_skipped, strip, trim_left, trim_right, text_of,
  forward, lexical, display, slash,
}
use latte_code.Engine.Workspace.Contained.{IsRoot, names, strip-append, lexical-IsDown}

abbrev pub any_char : (ℕ → Bool) → String → Bool
any_char p Prim.Native.String.[] = false
any_char p (Prim.Native.String.◌∷◌ a s) = p (code a) || any_char p s

abbrev pub is_slash : ℕ → Bool
is_slash n = n == slash

abbrev pub is_backslash : ℕ → Bool
is_backslash n = n == 92

abbrev IsBare : String → Type 0
IsBare s = any_char is_slash s ≡ false

abbrev IsForward : String → Type 0
IsForward s = any_char is_backslash s ≡ false

segments-slash : (s t : String) → IsBare s → segments (joined s t) ≡ s ∷ segments t
segments-slash Prim.Native.String.[] t h = refl
segments-slash (Prim.Native.String.◌∷◌ a s) t h = elim (Bool-cases (is_slash (code a))) [
  | inl e ↦ absurd (ground (arith, e))
  | inr e ↦ rw (e, segments-slash s t (rw e at h)) refl
]

segments-bare : (s : String) → IsBare s → segments s ≡ s ∷ []
segments-bare Prim.Native.String.[] h = refl
segments-bare (Prim.Native.String.◌∷◌ a s) h = elim (Bool-cases (is_slash (code a))) [
  | inl e ↦ absurd (ground (arith, e))
  | inr e ↦ rw (e, segments-bare s (rw e at h)) refl
]

segments-text_of :
    (s : String) (ss : List String)
    → IsBare s
    → All IsBare ss
    → segments (text_of (s ∷ ss)) ≡ s ∷ ss
segments-text_of s [] h all = segments-bare s h
segments-text_of s (t ∷ ss) h all =
    segments-slash s (text_of (t ∷ ss)) h ∙ ap (λ r. s ∷ r) (segments-text_of t ss all.0 all.1)

-- The segments of a text have no slash, and no backslash that the text has not.
segments-IsBare : (s : String) → All IsBare (segments s)
segments-IsBare Prim.Native.String.[] = (refl, tt)
segments-IsBare (Prim.Native.String.◌∷◌ a s) = elim (Bool-cases (is_slash (code a))) [
  | inl e ↦ rw e (refl, segments-IsBare s)
  | inr e ↦ rw e (push-IsBare a (segments s) e (segments-IsBare s))
]
  where
    push-IsBare :
        (a : Char) (ss : List String)
        → is_slash (code a) ≡ false
        → All IsBare ss
        → All IsBare (push a ss)
    push-IsBare a [] e h = (rw e refl, tt)
    push-IsBare a (s ∷ ss) e h = (rw e h.0, h.1)

segments-IsForward : (s : String) → IsForward s → All IsForward (segments s)
segments-IsForward Prim.Native.String.[] h = (refl, tt)
segments-IsForward (Prim.Native.String.◌∷◌ a s) h = elim (Bool-cases (is_backslash (code a))) [
  | inl e ↦ absurd (ground (arith, e))
  | inr e ↦ elim (Bool-cases (is_slash (code a))) [
    | inl at ↦ rw at (refl, segments-IsForward s (rw e at h))
    | inr at ↦ rw at (push-IsForward a (segments s) e (segments-IsForward s (rw e at h)))
  ]
]
  where
    push-IsForward :
        (a : Char) (ss : List String)
        → is_backslash (code a) ≡ false
        → All IsForward ss
        → All IsForward (push a ss)
    push-IsForward a [] e h = (rw e refl, tt)
    push-IsForward a (s ∷ ss) e h = (rw e h.0, h.1)

forward-id : (s : String) → IsForward s → forward s ≡ s
forward-id Prim.Native.String.[] h = refl
forward-id (Prim.Native.String.◌∷◌ a s) h = elim (Bool-cases (is_backslash (code a))) [
  | inl e ↦ absurd (ground (arith, e))
  | inr e ↦ rw (e, forward-id s (rw e at h)) refl
]

text_of-IsForward : (ss : List String) → All IsForward ss → IsForward (text_of ss)
text_of-IsForward [] h = refl
text_of-IsForward (s ∷ []) h = h.0
text_of-IsForward (s ∷ t ∷ ss) h =
    forward_joined s (text_of (t ∷ ss)) h.0 (text_of-IsForward (t ∷ ss) h.1)
  where
    forward_joined : (u v : String) → IsForward u → IsForward v → IsForward (joined u v)
    forward_joined Prim.Native.String.[] v f g = g
    forward_joined (Prim.Native.String.◌∷◌ a u) v f g = elim (Bool-cases (is_backslash (code a))) [
      | inl e ↦ absurd (ground (arith, e))
      | inr e ↦ rw e (forward_joined u v (rw e at f) g)
    ]

-- Trimming keeps the names, and what holds of all segments.
abbrev named : List String → List String
named ss = keep (λ (s : String). not (is_skipped s)) ss

named-trim_left : (ss : List String) → named (trim_left ss) ≡ named ss
named-trim_left [] = refl
named-trim_left (s ∷ ss) = elim (Bool-cases (is_skipped s)) [
  | inl e ↦ rw e (named-trim_left ss)
  | inr e ↦ let at : trim_left (s ∷ ss) ≡ s ∷ ss = rw e refl in ap named at
]

named-trim_right : (ss : List String) → named (trim_right ss) ≡ named ss
named-trim_right [] = refl
named-trim_right (s ∷ ss) = kept (trim_right ss) (named-trim_right ss)
  where
    kept : (ts : List String) → named ts ≡ named ss → named (keep_right s ts) ≡ named (s ∷ ss)
    kept [] same = elim (Bool-cases (is_skipped s)) [
      | inl e ↦ let at : keep_right s [] ≡ [] = rw e refl in ap named at ∙ rw e same
      | inr e ↦
          let at : keep_right s [] ≡ s ∷ [] = rw e refl in ap named at ∙ rw e (ap (λ r. s ∷ r) same)
    ]
    kept (t ∷ ts) same = ap (λ (r : List String). if not (is_skipped s) then s ∷ r else r) same

names-text_of : (ss : List String) → All IsBare ss → names (text_of ss) ≡ named ss
unfolding is_skipped
names-text_of [] h = refl
names-text_of (s ∷ ss) h = ap named (segments-text_of s ss h.0 h.1)

All-trim_left {κ} : (P : String → Type κ) (ss : List String) → All P ss → All P (trim_left ss)
All-trim_left P [] h = tt
All-trim_left P (s ∷ ss) h = elim (Bool-cases (is_skipped s)) [
  | inl e ↦ rw e (All-trim_left P ss h.1)
  | inr e ↦ rw e h
]

All-trim_right {κ} : (P : String → Type κ) (ss : List String) → All P ss → All P (trim_right ss)
All-trim_right P [] h = tt
All-trim_right P (s ∷ ss) h = kept (trim_right ss) (All-trim_right P ss h.1)
  where
    kept : (ts : List String) → All P ts → All P (keep_right s ts)
    kept [] g = elim (Bool-cases (is_skipped s)) [ inl e ↦ rw e tt | inr e ↦ rw e (h.0, tt) ]
    kept (t ∷ ts) g = (h.0, g)

All-trimmed {κ} :
    (P : String → Type κ) (ss : List String) → All P ss → All P (trim_right (trim_left ss))
All-trimmed P ss h = All-trim_right P (trim_left ss) (All-trim_left P ss h)

-- The text that is shown spells the names of the path, for a path without a backslash.
pub display-names :
    (root : List String) (input : String) {shown : String}
    → IsRoot root
    → any_char is_backslash input ≡ false
    → display root input ≡ ok shown
    → names shown ≡ names input
unfolding display
display-names root input {shown} canonical plain h =
    let (given, accepted, after) = >>=-eq-ok (lexical root input) _ h in
    let (at, _, _) = lexical-IsDown root input accepted in
    let (relative, stripped, same) = >>=-eq-ok (ok_or (strip root given) escape) _ after in
    let whole : segments input ≡ relative =
      ground (arith, strip-append root (segments input) canonical, at, stripped) in
    let trimmed = trim_right (trim_left (segments input)) in
    let text : forward (text_of trimmed) ≡ shown =
      ap (λ r. forward (text_of (trim_right (trim_left r)))) whole ∙ ground (arith, same) in
    ap names (
      sym text
      ∙ forward-id (text_of trimmed) (
          text_of-IsForward trimmed
            (All-trimmed IsForward (segments input) (segments-IsForward input plain))))
    ∙ names-text_of trimmed (All-trimmed IsBare (segments input) (segments-IsBare input))
    ∙ named-trim_right (trim_left (segments input))
    ∙ named-trim_left (segments input)
