-- ===== src/Engine/Conversation/Examples.antt =====
-- The conversation store of crates/latte-engine/src/conversation.rs on a concrete format, in which a
-- record is one symbol and an identifier is written as that many letters.
use latte_code.Base.{
  ℕ, zero, suc, ◌≤◌, ◌≡◌, refl, ap, subst, String, Bool, true, false, Option, some, none, List, [],
  ◌∷◌, ◌++◌, ok, err, any, leb, is_empty, u64_max, ◌==◌, string_eq, if◌then◌else◌, arith,
}
use Prim.Native.String
use latte_code.Core.Session.{TranscriptEntry, user, assistant}
use latte_code.Engine.Conversation.Format.{
  Codec, lookup, header_fields, entry_fields, torn_header, max_file_bytes, max_record_bytes,
}
use latte_code.Engine.Conversation.{truncate, sync, read}
use latte_code.Engine.Conversation.Lines.{file_of}
use latte_code.Engine.Conversation.Written.{Written, done, more, IsHeader}
use latte_code.Engine.Conversation.Recovery.{sync-recovers}
use latte_code.Engine.Conversation.Appends.{IsKept, sync-IsKept, sync-torn_header}

mutual
  data Json : Type 0 where
    nothing : Json
    natural : ℕ → Json
    words : String → Json
    members : Members → Json

  data Members : Type 0 where
    no_member : Members
    member : String → Json → Members → Members

abbrev to_members : List (String × Json) → Members
to_members [] = no_member
to_members ((k, v) ∷ fields) = member k v (to_members fields)

abbrev lookup_member : String → Members → Option Json
lookup_member k no_member = none
lookup_member k (member j v fields) = if j == k then some v else lookup_member k fields

abbrev get_member : Json → String → Option Json
get_member (members fields) k = lookup_member k fields
get_member nothing k = none
get_member (natural n) k = none
get_member (words s) k = none

abbrev words_of : Json → Option String
words_of (words s) = some s
words_of nothing = none
words_of (natural n) = none
words_of (members fields) = none

abbrev natural_of : Json → Option ℕ
natural_of (natural n) = if leb n u64_max then some n else none
natural_of nothing = none
natural_of (words s) = none
natural_of (members fields) = none

abbrev is_nothing : Json → Bool
is_nothing nothing = true
is_nothing (natural n) = false
is_nothing (words s) = false
is_nothing (members fields) = false

abbrev is_end : Option Json → Bool
is_end none = true
is_end (some v) = false

abbrev parse_line : List (Option Json) → Option Json
parse_line (some v ∷ []) = some v
parse_line (some v ∷ b ∷ bs) = none
parse_line (none ∷ bs) = none
parse_line [] = none

get_lookup :
    (fields : List (String × Json)) (k : String)
    → lookup_member k (to_members fields) ≡ lookup k fields
get_lookup [] k = refl
get_lookup ((j, v) ∷ fields) k = ap (λ r. if j == k then some v else r) (get_lookup fields k)

abbrev letters : ℕ → String
letters zero = ""
letters (suc n) = Prim.Native.String.◌∷◌ "i" (letters n)

abbrev count_letters : String → ℕ
count_letters Prim.Native.String.[] = 0
count_letters (Prim.Native.String.◌∷◌ a s) = suc (count_letters s)

count-letters : (n : ℕ) → count_letters (letters n) ≡ n
count-letters zero = refl
count-letters (suc n) = ap (λ k. suc k) (count-letters n)

fitting : (n : ℕ) → n ≤ u64_max → natural_of (natural n) ≡ some n
fitting n fit = ground arith

back :
    (v : Json) {bytes : List (Option Json)}
    → some (some v ∷ []) ≡ some bytes
    → (parse_line bytes ≡ some v) × (any is_end bytes ≡ false) × (is_empty bytes ≡ false)
back v e =
    subst (λ bs. (parse_line bs ≡ some v) × (any is_end bs ≡ false) × (is_empty bs ≡ false))
      (ap (λ o. elim o [ none ↦ [] | some bs ↦ bs ]) e) (refl, refl, refl)

abbrev symbols : Codec
symbols = record {
  Byte = Option Json;
  newline = none;
  is_newline = is_end;
  Value = Json;
  object = λ fields. members (to_members fields);
  text = words;
  number = natural;
  null = nothing;
  get = get_member;
  as_str = words_of;
  as_u64 = natural_of;
  is_null = is_nothing;
  to_vec = λ v. some (some v ∷ []);
  from_slice = parse_line;
  id_text = letters;
  parse_id = λ s. some (count_letters s);
  IsPlain = λ v. Unit;
  IsExact = λ v. Unit;
  is_newline-newline = refl;
  get-object = λ fields k distinct. get_lookup fields k;
  as_str-text = λ s. refl;
  as_u64-number = fitting;
  is_null-null = refl;
  is_null-text = λ s. refl;
  parse_id-id_text = λ i. ap some (count-letters i);
  text-IsPlain = λ s. tt;
  number-IsPlain = λ n. tt;
  null-IsPlain = tt;
  object-IsExact = λ fields h. tt;
  from_slice-to_vec = λ v exact e. back v e;
}

abbrev question : TranscriptEntry Json
question = record {
  entry_id = 1;
  sequence = 1;
  turn_id = none;
  kind = user;
  text = "fix";
  payload = none;
  source_key = "a";
  created_at_ms = 10;
}

abbrev answer : TranscriptEntry Json
answer = record {
  entry_id = 2;
  sequence = 4;
  turn_id = some 3;
  kind = assistant;
  text = "done";
  payload = some (natural 6);
  source_key = "b";
  created_at_ms = 11;
}

abbrev thanks : TranscriptEntry Json
thanks = record question { entry_id = 3; sequence = 5 }

abbrev line_of : TranscriptEntry Json → List (Option Json)
line_of e = some (members (to_members (entry_fields symbols e))) ∷ []

abbrev header : List (Option Json)
header = some (members (to_members (header_fields symbols 7 "w" 9))) ∷ []

header-IsHeader : IsHeader symbols 7 "w" 9 header
unfolding max_record_bytes
header-IsHeader = (refl, omega arith)

small : 8 ≤ max_file_bytes
unfolding max_file_bytes
small = omega arith

one : 1 ≤ max_file_bytes
unfolding max_file_bytes
one = omega arith

asked : Written symbols 0 (question ∷ []) (line_of question ∷ [])
unfolding max_record_bytes
asked = more (omega arith) (omega arith, omega arith, tt) refl (omega arith) done

answered : Written symbols 1 (answer ∷ thanks ∷ []) (line_of answer ∷ line_of thanks ∷ [])
unfolding max_record_bytes
answered =
    more (omega arith) (omega arith, omega arith, (tt, refl)) refl (omega arith)
      (more (omega arith) (omega arith, omega arith, tt) refl (omega arith) done)

-- The file of the three entries.
abbrev file : List (Option Json)
file = file_of symbols (header ∷ line_of question ∷ line_of answer ∷ line_of thanks ∷ [])

sync-recovers_example :
    (sync symbols 7 "w" 9 (answer ∷ thanks ∷ []) (truncate symbols 5 file) ≡ (file, ok tt))
    × (read symbols 7 "w" file ≡ (file, ok (question ∷ answer ∷ thanks ∷ [])))
sync-recovers_example =
    sync-recovers symbols {session = 7} {key = "w"} {created = 9} {h = header} {xs = question ∷ []}
      {ys = answer ∷ thanks ∷ []} {ls = line_of question ∷ []}
      {ms = line_of answer ∷ line_of thanks ∷ []} 5 header-IsHeader asked answered small
      (omega arith)

sync-IsKept_example :
    (kept added : List (Option Json)) × IsKept symbols (truncate symbols 5 file) kept
    × ((sync symbols 7 "w" 9 (answer ∷ []) (truncate symbols 5 file)).0 ≡ kept ++ added)
sync-IsKept_example = sync-IsKept symbols 7 "w" 9 (answer ∷ []) (truncate symbols 5 file)

sync-torn_header_example :
    (sync symbols 7 "w" 9 (question ∷ []) header ≡ (header, err torn_header))
    × (read symbols 7 "w" header ≡ (header, err torn_header))
sync-torn_header_example = sync-torn_header symbols 7 "w" 9 (question ∷ []) header refl refl one
