-- ===== src/Headless/Frames.antt =====
-- The volatile frames of crates/latte-headless/src/session.rs: how workspace text and reminders are
-- wrapped, and how frame tokens inside of them are neutralized. A text is walked by its characters: the
-- bytes that the code tests are all ASCII.
pub mod Boundaries
pub mod Escape
pub mod Framed
mod Examples
use Prim.Native.Char.{Char, code}
use Prim.Native.String
use latte_code.Base.{
  ℕ, zero, suc, ◌+◌, ◌-◌, String, Bool, true, false, ◌||◌, ◌&&◌, Option, none, some, List, [], ◌∷◌,
  ◌==◌, nat_eq, leb, if◌then◌else◌, ◌<>◌,
}

-- `VOLATILE_FRAME_TAGS`.
abbrev pub volatile_frame_tags : List String
volatile_frame_tags = "repository-context" ∷ "system-reminder" ∷ []

abbrev pub is_less : ℕ → Bool
is_less n = n == 60

-- `u8::to_ascii_lowercase`, by which `eq_ignore_ascii_case` compares.
abbrev pub lower : ℕ → ℕ
lower n = if leb 65 n && leb n 90 then n + 32 else n

-- `u8::is_ascii_whitespace`.
abbrev pub is_ascii_whitespace : ℕ → Bool
is_ascii_whitespace n = n == 32 || n == 9 || n == 10 || n == 12 || n == 13

-- What follows the tag, if the text begins with it in any case of its letters.
pub after_tag : String → String → Option String
after_tag Prim.Native.String.[] s = some s
after_tag (Prim.Native.String.◌∷◌ a p) Prim.Native.String.[] = none
after_tag (Prim.Native.String.◌∷◌ a p) (Prim.Native.String.◌∷◌ b s) =
    if lower (code b) == lower (code a) then after_tag p s else none

-- The first of the tags that the text begins with, and what follows it.
pub matched_tag : List String → String → Option (String × String)
matched_tag [] s = none
matched_tag (tag ∷ tags) s = elim (after_tag tag s) [
  | some rest ↦ some (tag, rest)
  | none ↦ matched_tag tags s
]

-- What follows whitespace and `>`.
pub after_end : String → Option String
after_end Prim.Native.String.[] = none
after_end (Prim.Native.String.◌∷◌ a s) =
    let rest = after_end s in
    if is_ascii_whitespace (code a) then rest else if code a == 62 then some s else none

pub record Token : Type 0 where
  pub closing : Bool
  pub tag : String
  pub rest : String

abbrev pub ended_token : Bool → Option (String × String) → Option Token
ended_token closing none = none
ended_token closing (some (tag, after)) = elim (after_end after) [
  | none ↦ none
  | some rest ↦ some (record { closing = closing; tag = tag; rest = rest })
]

-- The frame token whose `<` stands before the text.
pub frame_token : String → Option Token
frame_token Prim.Native.String.[] = none
frame_token (Prim.Native.String.◌∷◌ a s) =
    if code a == 47
    then ended_token true (matched_tag volatile_frame_tags s)
    else ended_token false (matched_tag volatile_frame_tags (Prim.Native.String.◌∷◌ a s))

abbrev pub replacement : Bool → String → String
replacement true tag = "[/" <> tag <> "]"
replacement false tag = "[" <> tag <> "]"

-- `escape_volatile_frames`, from where the cursor stands: the number is what is left of the token that
-- the cursor steps over.
pub escape_from : ℕ → String → String
escape_from k Prim.Native.String.[] = ""
escape_from (suc k) (Prim.Native.String.◌∷◌ a s) = escape_from k s
escape_from zero (Prim.Native.String.◌∷◌ a s) = elim (is_less (code a)) [
  | false ↦ Prim.Native.String.◌∷◌ a (escape_from zero s)
  | true ↦ elim (frame_token s) [
    | none ↦ Prim.Native.String.◌∷◌ a (escape_from zero s)
    | some t ↦
        replacement t.closing t.tag
        <> escape_from (Prim.Native.String.count s - Prim.Native.String.count t.rest) s
  ]
]

pub escape_volatile_frames : String → String
escape_volatile_frames body = escape_from 0 body

-- `frame_volatile`.
pub frame_volatile : String → String → String
frame_volatile tag body = "<" <> tag <> ">\n" <> escape_volatile_frames body <> "\n</" <> tag <> ">"
