-- ===== src/Engine/Cursor.antt =====
-- The cursors of the session list in crates/latte-engine/src/storage.rs. A text is the list of its
-- codes; the integers are those of the `sessions` rows, which the schema keeps from being negative.
pub mod RoundTrip
mod Examples
use latte_code.Base.{
  ℕ, zero, suc, ◌+◌, ◌-◌, ◌*◌, ◌/◌, ◌%◌, Bool, true, false, ◌&&◌, Option, none, some, List, [], ◌∷◌,
  ◌++◌, Result, ok, err, guard, ◌>>=◌, ◌>>◌, ◌==◌, ltb, leb, ok_or, i64_max, u64_max, nat_eq,
  if◌then◌else◌,
}
use latte_code.Engine.Ledger.{StorageError, invalid_data}

-- `SESSION_CURSOR_PREFIX`.
abbrev pub session_cursor_prefix : List ℕ
session_cursor_prefix = b'v' ∷ b'1' ∷ b'_' ∷ []

abbrev pub hex_digit : ℕ → ℕ
hex_digit n = if ltb n 10 then b'0' + n else b'a' + (n - 10)

-- `{:x}`: a `u64` has at most sixteen digits.
pub hex_from : ℕ → ℕ → List ℕ
hex_from zero n = []
hex_from (suc f) n =
    let front = hex_from f (n / 16) in
    if ltb n 16 then hex_digit n ∷ [] else front ++ (hex_digit (n % 16) ∷ [])

abbrev pub hex : ℕ → List ℕ
hex n = hex_from 16 n

pub encode_session_cursor : ℕ → ℕ → List ℕ
encode_session_cursor updated_at_ms rowid =
    session_cursor_prefix ++ (hex updated_at_ms ++ (b':' ∷ hex rowid))

pub strip_prefix : List ℕ → List ℕ → Option (List ℕ)
strip_prefix [] s = some s
strip_prefix (c ∷ p) [] = none
strip_prefix (c ∷ p) (d ∷ s) = let rest = strip_prefix p s in if c == d then rest else none

abbrev put_before : ℕ → Option (List ℕ × List ℕ) → Option (List ℕ × List ℕ)
put_before d none = none
put_before d (some (before, after)) = some (d ∷ before, after)

pub split_once : ℕ → List ℕ → Option (List ℕ × List ℕ)
split_once c [] = none
split_once c (d ∷ s) =
    let rest = split_once c s in if d == c then some ([], s) else put_before d rest

-- `char::to_digit(16)`.
abbrev pub hex_value : ℕ → Option ℕ
hex_value c =
    if leb b'0' c && leb c b'9'
    then some (c - b'0')
    else if leb b'a' c && leb c b'f'
    then some (c - b'a' + 10)
    else if leb b'A' c && leb c b'F'
    then some (c - b'A' + 10)
    else none

-- The digits after those of a number, none past the range of `u64`.
abbrev pub shift_in : ℕ → Option ℕ → Option ℕ
shift_in n none = none
shift_in n (some d) = if leb (n * 16 + d) u64_max then some (n * 16 + d) else none

pub hex_digits : Option ℕ → List ℕ → Option ℕ
hex_digits none s = none
hex_digits (some n) [] = some n
hex_digits (some n) (c ∷ s) = hex_digits (shift_in n (hex_value c)) s

abbrev pub digits : List ℕ → Option ℕ
digits [] = none
digits (c ∷ s) = hex_digits (some 0) (c ∷ s)

-- `u64::from_str_radix(hex, 16)`, which takes one plus sign before the digits.
pub from_str_radix : List ℕ → Option ℕ
from_str_radix [] = none
from_str_radix (c ∷ s) = if c == b'+' then digits s else digits (c ∷ s)

abbrev pub invalid : StorageError
invalid = invalid_data "invalid session cursor"

pub parse : List ℕ → Result ℕ StorageError
parse text = do
  unsigned ← ok_or (from_str_radix text) invalid
  guard (leb unsigned i64_max) invalid
  ok unsigned

pub decode_session_cursor : List ℕ → Result (ℕ × ℕ) StorageError
decode_session_cursor cursor = do
  body ← ok_or (strip_prefix session_cursor_prefix cursor) invalid
  parts ← ok_or (split_once b':' body) invalid
  updated ← parse parts.0
  rowid ← parse parts.1
  ok (updated, rowid)
