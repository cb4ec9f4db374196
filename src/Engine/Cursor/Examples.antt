-- ===== src/Engine/Cursor/Examples.antt =====
-- Session cursors of crates/latte-engine/src/storage.rs on concrete texts.
use latte_code.Base.{ℕ, ◌≡◌, refl, List, [], ◌∷◌, ok, err, arith, i64_max}
use latte_code.Engine.Cursor.{
  hex_from, encode_session_cursor, strip_prefix, split_once, hex_digits, from_str_radix, parse,
  invalid, decode_session_cursor,
}
use latte_code.Engine.Cursor.RoundTrip.{decode-encode, IsSettled, decode-IsSettled}

-- `v1_1f:a`.
abbrev cursor : List ℕ
cursor = b'v' ∷ b'1' ∷ b'_' ∷ b'1' ∷ b'f' ∷ b':' ∷ b'a' ∷ []

encode : encode_session_cursor 31 10 ≡ cursor
unfolding encode_session_cursor hex_from
encode = refl

-- `v1_+1F:0A` is read as the same position.
loose :
    decode_session_cursor (b'v' ∷ b'1' ∷ b'_' ∷ b'+' ∷ b'1' ∷ b'F' ∷ b':' ∷ b'0' ∷ b'A' ∷ [])
    ≡ ok (31, 10)
unfolding decode_session_cursor strip_prefix split_once parse from_str_radix hex_digits
loose = refl

-- `v1_1f`, and `v1_:a`.
no_rowid : decode_session_cursor (b'v' ∷ b'1' ∷ b'_' ∷ b'1' ∷ b'f' ∷ []) ≡ err invalid
unfolding decode_session_cursor strip_prefix split_once
no_rowid = refl

no_time : decode_session_cursor (b'v' ∷ b'1' ∷ b'_' ∷ b':' ∷ b'a' ∷ []) ≡ err invalid
unfolding decode_session_cursor strip_prefix split_once parse from_str_radix
no_time = refl

decode-encode_example : decode_session_cursor (encode_session_cursor i64_max 10) ≡ ok (i64_max, 10)
decode-encode_example = decode-encode i64_max 10 (omega arith) (omega arith)

decode-IsSettled_example : IsSettled cursor
decode-IsSettled_example = decode-IsSettled cursor
