-- ===== src/Engine/Cursor/RoundTrip.antt =====
-- Session cursors of crates/latte-engine/src/storage.rs, written and read back.
use latte_code.Base.{
  append_assoc, append-nil, ℕ, zero, suc, ◌+◌, ◌*◌, ◌/◌, ◌%◌, ◌≤◌, ◌<◌, ◌≡◌, refl, sym, ap, ◌∙◌,
  ◌⊎◌, inl, inr, Bool, true, false, ◌&&◌, not, none, some, List, [], ◌∷◌, ◌++◌, ok, err, all, ◌==◌,
  ltb, leb, i64_max, u64_max, nat_eq, arith, Bool-cases, Option-cases,
}
use latte_code.Engine.Cursor.{
  session_cursor_prefix, hex_digit, hex_from, hex, encode_session_cursor, strip_prefix, split_once,
  hex_value, shift_in, hex_digits, digits, from_str_radix, invalid, parse, decode_session_cursor,
}

-- The number has at most `f + 1` hexadecimal digits.
abbrev Fits : ℕ → ℕ → Type 0
Fits zero n = n < 16
Fits (suc f) n = Fits f (n / 16)

hex_value-hex_digit : (d : ℕ) → d < 16 → hex_value (hex_digit d) ≡ some d
hex_value-hex_digit d h = ground arith

digit-step :
    (n d m : ℕ) (s : List ℕ)
    → d < 16
    → n * 16 + d ≡ m
    → m ≤ u64_max
    → hex_digits (some n) (hex_digit d ∷ s) ≡ hex_digits (some m) s
unfolding hex_digits
digit-step n d m s h e b =
    let kept : shift_in n (some d) ≡ some m = ground (arith, e, b) in
    ap (λ o. hex_digits (shift_in n o) s) (hex_value-hex_digit d h) ∙ ap (λ o. hex_digits o s) kept

one_digit :
    (f n : ℕ) (s : List ℕ)
    → ltb n 16 ≡ true
    → hex_digits (some 0) (hex_from (suc f) n ++ s) ≡ hex_digits (some n) s
unfolding hex_from
one_digit f n s q =
    let small : n < 16 = ground (arith, q) in
    rw q (digit-step 0 n n s small (omega arith) (omega (arith, small)))

-- Reading the digits of a number gives the number.
hex_digits-hex :
    (f n : ℕ) (s : List ℕ)
    → Fits f n
    → n ≤ u64_max
    → hex_digits (some 0) (hex_from (suc f) n ++ s) ≡ hex_digits (some n) s
unfolding hex_from
hex_digits-hex zero n s h b = one_digit zero n s (ground (arith, h))
hex_digits-hex (suc k) n s h b = elim (Bool-cases (ltb n 16)) [
  | inl q ↦ one_digit (suc k) n s q
  | inr q ↦
      let last = hex_digit (n % 16) ∷ [] in
      let split : hex_from (suc (suc k)) n ≡ hex_from (suc k) (n / 16) ++ last = rw q refl in
      ap (λ t. hex_digits (some 0) (t ++ s)) split
      ∙ ap (hex_digits (some 0)) (append_assoc (hex_from (suc k) (n / 16)) last s)
      ∙ hex_digits-hex k (n / 16) (last ++ s) h (omega arith)
      ∙ digit-step (n / 16) (n % 16) n s (omega arith) (omega arith) b
]

-- The digits are neither colons nor plus signs, and there is one at least.
abbrev plain : ℕ → Bool
plain c = not (c == b':') && not (c == b'+')

plain-hex_digit : (d : ℕ) → d < 16 → plain (hex_digit d) ≡ true
plain-hex_digit d h = ground arith

all-snoc :
    (xs : List ℕ) (d : ℕ) → all plain xs ≡ true → plain d ≡ true → all plain (xs ++ (d ∷ [])) ≡ true
all-snoc [] d h k = ground (arith)
all-snoc (x ∷ xs) d h k = ground (arith, all-snoc xs d)

all-hex : (f n : ℕ) → all plain (hex_from f n) ≡ true
unfolding hex_from
all-hex zero n = refl
all-hex (suc f) n = elim (Bool-cases (ltb n 16)) [
  | inl q ↦ let one = plain-hex_digit n (ground (arith, q)) in rw q (ground (arith, one))
  | inr q ↦ rw q (
      all-snoc (hex_from f (n / 16)) (hex_digit (n % 16)) (all-hex f (n / 16))
        (plain-hex_digit (n % 16) (omega arith)))
]

split_once-append :
    (xs s : List ℕ) → all plain xs ≡ true → split_once b':' (xs ++ (b':' ∷ s)) ≡ some (xs, s)
unfolding split_once
split_once-append [] s h = refl
split_once-append (x ∷ xs) s h =
    let rest = split_once-append xs s (ground (arith, h)) in
    let other : (x == b':') ≡ false = ground (arith, h) in rw (other, rest) refl

from_str_radix-plain : (xs : List ℕ) → all plain xs ≡ true → from_str_radix xs ≡ digits xs
unfolding from_str_radix
from_str_radix-plain [] h = refl
from_str_radix-plain (x ∷ xs) h = ground arith

digits-hex : (f n : ℕ) → digits (hex_from (suc f) n) ≡ hex_digits (some 0) (hex_from (suc f) n)
unfolding hex_from
digits-hex f n = elim (Bool-cases (ltb n 16)) [
  | inl q ↦ rw q refl
  | inr q ↦ rw q (snoc (hex_from f (n / 16)))
]
  where
    snoc :
        (xs : List ℕ)
        → digits (xs ++ (hex_digit (n % 16) ∷ []))
          ≡ hex_digits (some 0) (xs ++ (hex_digit (n % 16) ∷ []))
    snoc [] = refl
    snoc (x ∷ xs) = refl

from_str_radix-hex : (n : ℕ) → n ≤ u64_max → from_str_radix (hex n) ≡ some n
unfolding hex_digits
from_str_radix-hex n h =
    from_str_radix-plain (hex n) (all-hex 16 n)
    ∙ digits-hex 15 n
    ∙ sym (ap (hex_digits (some 0)) (append-nil (hex n)))
    ∙ hex_digits-hex 15 n [] (omega (arith, h)) h

parse-hex : (n : ℕ) → n ≤ i64_max → parse (hex n) ≡ ok n
unfolding parse
parse-hex n h = rw (from_str_radix-hex n (omega (arith, h))) (ground (arith, h))

-- A position in the range of a column comes back from its cursor.
pub decode-encode :
    (updated_at_ms rowid : ℕ)
    → updated_at_ms ≤ i64_max
    → rowid ≤ i64_max
    → decode_session_cursor (encode_session_cursor updated_at_ms rowid) ≡ ok (updated_at_ms, rowid)
unfolding decode_session_cursor encode_session_cursor strip_prefix
decode-encode a b h k =
    rw (split_once-append (hex a) (hex b) (all-hex 16 a), parse-hex a h, parse-hex b k) refl

parse-cases :
    (text : List ℕ) → (parse text ≡ err invalid) ⊎ ((n : ℕ) × (parse text ≡ ok n) × (n ≤ i64_max))
unfolding parse
parse-cases text = elim (Option-cases (from_str_radix text)) [
  | inl e ↦ inl (rw e refl)
  | inr (n, e) ↦ elim (Bool-cases (leb n i64_max)) [
    | inl q ↦ inr (n, rw (e, q) refl, ground (arith, q))
    | inr q ↦ inl (rw (e, q) refl)
  ]
]

strip_prefix-ok : (p s : List ℕ) {t : List ℕ} → strip_prefix p s ≡ some t → s ≡ p ++ t
unfolding strip_prefix
strip_prefix-ok [] s h = ground (arith, h)
strip_prefix-ok (c ∷ p) [] h = cc
strip_prefix-ok (c ∷ p) (d ∷ s) {t} h = elim (Bool-cases (c == d)) [
  | inl q ↦
      let rest = strip_prefix-ok p s {t = t} (ground (arith, q, h)) in
      let same : c ≡ d = ground (arith, q) in rw (rest, same) refl
  | inr q ↦ absurd (ground (arith, q, h))
]

split_once-cases :
    (c : ℕ) (s : List ℕ)
    → (split_once c s ≡ none)
      ⊎ ((u r : List ℕ) × (split_once c s ≡ some (u, r)) × (s ≡ u ++ (c ∷ r)))
unfolding split_once
split_once-cases c [] = inl refl
split_once-cases c (d ∷ s) = elim (Bool-cases (d == c)) [
  | inl q ↦ let same : d ≡ c = ground (arith, q) in inr ([], s, rw q refl, rw same refl)
  | inr q ↦ elim (split_once-cases c s) [
    | inl e ↦ inl (rw (q, e) refl)
    | inr (u, r, e, whole) ↦ inr (d ∷ u, r, rw (q, e) refl, ap (λ t. d ∷ t) whole)
  ]
]

-- The refusal with the one error, or the parts of an accepted cursor and the position that they give.
abbrev pub IsSettled : List ℕ → Type 0
IsSettled cursor =
    (decode_session_cursor cursor ≡ err invalid)
    ⊎ ((updated_at_ms rowid : ℕ) × (updated row : List ℕ) × (decode_session_cursor cursor
          ≡ ok (updated_at_ms, rowid))
        × (cursor ≡ session_cursor_prefix ++ (updated ++ (b':' ∷ row)))
        × (parse updated ≡ ok updated_at_ms)
        × (parse row ≡ ok rowid)
        × (updated_at_ms ≤ i64_max)
        × (rowid ≤ i64_max)
        × (decode_session_cursor (encode_session_cursor updated_at_ms rowid)
            ≡ decode_session_cursor cursor))

-- Any text is refused with the one error, or it is the prefix and two numbers around a colon; the
-- numbers are in the range of the columns then, and their own cursor gives them again.
pub decode-IsSettled : (cursor : List ℕ) → IsSettled cursor
unfolding decode_session_cursor
decode-IsSettled cursor = elim (Option-cases (strip_prefix session_cursor_prefix cursor)) [
  | inl e ↦ inl (rw e refl)
  | inr (body, e) ↦ elim (split_once-cases b':' body) [
    | inl f ↦ inl (rw (e, f) refl)
    | inr (updated, row, f, parts) ↦ elim (parse-cases updated) [
      | inl g ↦ inl (rw (e, f, g) refl)
      | inr (a, g, ha) ↦ elim (parse-cases row) [
        | inl k ↦ inl (rw (e, f, g, k) refl)
        | inr (b, k, hb) ↦
            let accepted : decode_session_cursor cursor ≡ ok (a, b) = rw (e, f, g, k) refl in
            let whole =
              strip_prefix-ok session_cursor_prefix cursor e
              ∙ ap (λ t. session_cursor_prefix ++ t) parts in
            inr (
              a,
              b,
              updated,
              row,
              accepted,
              whole,
              g,
              k,
              ha,
              hb,
              decode-encode a b ha hb ∙ sym accepted,
            )
      ]
    ]
  ]
]
