-- ===== src/Base/Texts.antt =====
-- Texts: `push_str` as an operator, the laws of it, and tests on all characters.
use Prim.Native.Char.{code}
use Prim.Native.Nat.{ℕ, zero, suc, ◌/◌, ◌%◌}
use Prim.Native.String
use Prim.Native.String.{String}
use mathlib.Core.Bool.{Bool, true, ◌&&◌}
use latte_code.Base.Tests.{◌==◌, nat_eq, ltb, if◌then◌else◌}
pub use text.Mathlib.TextLemmas.{
  nil-append, cons-append, append-nil as text-append-nil, append_assoc as text-append_assoc,
}

infixr 65 ◌<>◌
abbrev pub ◌<>◌ : String → String → String
s <> t = Prim.Native.String.◌++◌ s t

abbrev pub all_chars : (ℕ → Bool) → String → Bool
all_chars p Prim.Native.String.[] = true
all_chars p (Prim.Native.String.◌∷◌ a s) = p (code a) && all_chars p s

digit : ℕ → String
digit n =
    if n == 0
    then "0"
    else if n == 1
    then "1"
    else if n == 2
    then "2"
    else if n == 3
    then "3"
    else if n == 4
    then "4"
    else if n == 5
    then "5"
    else if n == 6
    then "6"
    else if n == 7
    then "7"
    else if n == 8
    then "8"
    else "9"

unfoldable pub decimal_from : ℕ → ℕ → String
unfolding digit
decimal_from zero n = ""
decimal_from (suc f) n =
    let front = decimal_from f (n / 10) in if ltb n 10 then digit n else front <> digit (n % 10)

-- A `usize` in decimal digits, of which it has at most twenty.
abbrev pub decimal : ℕ → String
decimal n = decimal_from 20 n
