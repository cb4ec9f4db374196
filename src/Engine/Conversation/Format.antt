-- ===== src/Engine/Conversation/Format.antt =====
-- The records of the conversation file of crates/latte-engine/src/conversation.rs, as they are written
-- and read. The file is a list of bytes, which is read only by the test for a newline; serde_json and
-- uuid are parameters, and so are the bytes that they speak of.
use latte_code.Base.{
  ℕ, ◌≤◌, ◌≡◌, String, Bool, true, false, not, ◌||◌, ◌&&◌, Option, none, some, List, [], ◌∷◌,
  Result, ok, err, guard, ok_or, ◌>>=◌, ◌>>◌, ◌==◌, nat_eq, string_eq, any, keep, length, is_empty,
  leb, if◌then◌else◌, All, u64_max,
}
use latte_code.Core.Protocol.{TurnId}
use latte_code.Core.Session.{TranscriptEntry, TranscriptKind, kind_name, parse_kind}

abbrev pub lookup {ℓ} : {A : Type ℓ} → String → List (String × A) → Option A
lookup k [] = none
lookup k ((j, a) ∷ fields) = if j == k then some a else lookup k fields

abbrev pub distinct_keys {ℓ} : {A : Type ℓ} → List (String × A) → Bool
distinct_keys [] = true
distinct_keys ((k, a) ∷ fields) = not (any (λ f. f.0 == k) fields) && distinct_keys fields

-- What the store takes from serde_json and uuid. `IsExact` holds of the values that survive being
-- written and read, `IsPlain` of those that survive it as fields of an object: no fractional numbers,
-- and no deeper nesting than the reader allows.
pub record Codec : Type 1 where
  pub Byte : Type 0
  pub newline : Byte
  pub is_newline : Byte → Bool
  pub Value : Type 0
  pub object : List (String × Value) → Value
  pub text : String → Value
  pub number : ℕ → Value
  pub null : Value
  pub get : Value → String → Option Value
  pub as_str : Value → Option String
  pub as_u64 : Value → Option ℕ
  pub is_null : Value → Bool
  pub to_vec : Value → Option (List Byte)
  pub from_slice : List Byte → Option Value
  pub id_text : ℕ → String
  pub parse_id : String → Option ℕ
  pub IsPlain : Value → Type 0
  pub IsExact : Value → Type 0
  pub is_newline-newline : is_newline newline ≡ true
  pub get-object :
      (fields : List (String × Value)) (k : String)
      → distinct_keys fields ≡ true
      → get (object fields) k ≡ lookup k fields
  pub as_str-text : (s : String) → as_str (text s) ≡ some s
  pub as_u64-number : (n : ℕ) → n ≤ u64_max → as_u64 (number n) ≡ some n
  pub is_null-null : is_null null ≡ true
  pub is_null-text : (s : String) → is_null (text s) ≡ false
  pub parse_id-id_text : (i : ℕ) → parse_id (id_text i) ≡ some i
  pub text-IsPlain : (s : String) → IsPlain (text s)
  pub number-IsPlain : (n : ℕ) → IsPlain (number n)
  pub null-IsPlain : IsPlain null
  pub object-IsExact :
      (fields : List (String × Value))
      → All (λ (f : String × Value). IsPlain f.1) fields
      → IsExact (object fields)
  pub from_slice-to_vec :
      (v : Value) {bytes : List Byte}
      → IsExact v
      → to_vec v ≡ some bytes
      → (from_slice bytes ≡ some v) × (any is_newline bytes ≡ false) × (is_empty bytes ≡ false)

pub data ConversationError : Type 0 where
  missing_file too_large torn_header missing_header header_mismatch record_too_long json :
      ConversationError
  invalid_record_type no_sequence no_entry_id not_strictly_increasing invalid_entry_id :
      ConversationError
  invalid_turn_id no_kind no_content no_source_key no_creation_time : ConversationError
  different_entry_id : ℕ → ConversationError
  not_increasing : ℕ → ℕ → ConversationError

-- `MAX_FILE_BYTES` and `MAX_RECORD_BYTES`.
unfoldable pub max_file_bytes : ℕ
max_file_bytes = 67108864

unfoldable pub max_record_bytes : ℕ
max_record_bytes = 2097152

module _ (c : Codec) where
  open c use {
    Byte, newline, is_newline, Value, object, text, number, null, get, as_str, as_u64, is_null,
    to_vec, from_slice, id_text, parse_id,
  }

  -- `serde_json::json!` of an identifier that may be missing, and of a payload.
  abbrev pub optional_id : Option TurnId → Value
  optional_id none = null
  optional_id (some t) = text (id_text t)

  abbrev pub optional_value : Option Value → Value
  optional_value none = null
  optional_value (some v) = v

  -- The fields of the header and of an entry, as `sync` writes them.
  abbrev pub header_fields : ℕ → String → ℕ → List (String × Value)
  header_fields session key created =
      ("record", text "session")
      ∷ ("format_version", number 1)
      ∷ ("session_id", text (id_text session))
      ∷ ("workspace_id", text key)
      ∷ ("created_at_ms", number created)
      ∷ []

  abbrev pub entry_fields : TranscriptEntry Value → List (String × Value)
  entry_fields e =
      ("record", text "entry")
      ∷ ("format_version", number 1)
      ∷ ("entry_id", text (id_text e.entry_id))
      ∷ ("seq", number e.sequence)
      ∷ ("turn_id", optional_id e.turn_id)
      ∷ ("created_at_ms", number e.created_at_ms)
      ∷ ("kind", text (kind_name e.kind))
      ∷ ("content", text e.text)
      ∷ ("payload", optional_value e.payload)
      ∷ ("source_key", text e.source_key)
      ∷ []

  -- `record.get(name).and_then(Value::as_str)`, and the same for numbers.
  unfoldable pub get_str : Value → String → Option String
  get_str v name = elim (get v name) [ none ↦ none | some w ↦ as_str w ]

  unfoldable pub get_u64 : Value → String → Option ℕ
  get_u64 v name = elim (get v name) [ none ↦ none | some w ↦ as_u64 w ]

  unfoldable pub get_present : Value → String → Option Value
  get_present v name = elim (get v name) [
    | none ↦ none
    | some w ↦ if is_null w then none else some w
  ]

  abbrev pub is_text : Option String → String → Bool
  is_text none s = false
  is_text (some t) s = t == s

  abbrev pub is_number : Option ℕ → ℕ → Bool
  is_number none n = false
  is_number (some m) n = m == n

  abbrev pub or_else : Option Value → Option Value → Option Value
  or_else none w = w
  or_else (some v) w = some v

  -- The turn of a record, with the older name of its key.
  unfoldable pub read_turn : Value → Result (Option TurnId) ConversationError
  read_turn v = elim (or_else (get_present v "turn_id") (get_present v "run_id")) [
    | none ↦ ok none
    | some w ↦ elim (as_str w) [
      | none ↦ err invalid_turn_id
      | some s ↦ elim (parse_id s) [ none ↦ err invalid_turn_id | some t ↦ ok (some t) ]
    ]
  ]

  -- The kind, as a text; serde_json would also take an object with this one key and null.
  unfoldable pub read_kind : Value → Result TranscriptKind ConversationError
  read_kind v = do
    w ← ok_or (get v "kind") no_kind
    s ← ok_or (as_str w) json
    ok_or (parse_kind s) json

  -- The rest of an entry, once its sequence number and identifier are accepted.
  unfoldable pub read_fields : Value → ℕ → String → Result (TranscriptEntry Value) ConversationError
  read_fields v sequence id = do
    entry_id ← ok_or (parse_id id) invalid_entry_id
    turn_id ← read_turn v
    kind ← read_kind v
    content ← ok_or (get_str v "content") no_content
    source_key ← ok_or (get_str v "source_key") no_source_key
    created ← ok_or (get_u64 v "created_at_ms") no_creation_time
    ok (record {
      entry_id = entry_id;
      sequence = sequence;
      turn_id = turn_id;
      kind = kind;
      text = content;
      payload = get_present v "payload";
      source_key = source_key;
      created_at_ms = created;
    })

  -- The checks of one line: the sequence number and the identifier of its record.
  unfoldable pub read_identity : Value → Result (ℕ × String) ConversationError
  read_identity v = do
    guard (is_text (get_str v "record") "entry" && is_number (get_u64 v "format_version") 1)
        invalid_record_type
    sequence ← ok_or (get_u64 v "seq") no_sequence
    id ← ok_or (get_str v "entry_id") no_entry_id
    ok (sequence, id)

  -- The loop over the lines after the header. `seen` is the map `entries` so far.
  unfoldable pub read_records :
      ℕ
      → List (ℕ × String)
      → List (List Byte)
      → Result (List (ℕ × String) × List (TranscriptEntry Value)) ConversationError
  read_records previous seen [] = ok ([], [])
  read_records previous seen (line ∷ lines) = do
    guard (leb (length line) max_record_bytes) record_too_long
    v ← ok_or (from_slice line) json
    (sequence, id) ← read_identity v
    guard (not (leb sequence previous || any (λ (p : ℕ × String). p.0 == sequence) seen))
        not_strictly_increasing
    entry ← read_fields v sequence id
    (ids, entries) ← read_records sequence ((sequence, id) ∷ seen) lines
    ok ((sequence, id) ∷ ids, entry ∷ entries)

  -- `bytes.split(|value| *value == b'\n')`.
  abbrev push : Byte → List (List Byte) → List (List Byte)
  push b [] = (b ∷ []) ∷ []
  push b (l ∷ ls) = (b ∷ l) ∷ ls

  unfoldable pub split_lines : List Byte → List (List Byte)
  split_lines [] = [] ∷ []
  split_lines (b ∷ bs) = if is_newline b then [] ∷ split_lines bs else push b (split_lines bs)

  unfoldable pub read_lines :
      ℕ
      → String
      → List Byte
      → Result (List (ℕ × String) × List (TranscriptEntry Value)) ConversationError
  read_lines session key bytes =
      elim (keep (λ (l : List Byte). not (is_empty l)) (split_lines bytes)) [
        | [] ↦ err missing_header
        | first ∷ lines ↦ (do
          v ← ok_or (from_slice first) json
          guard
              (is_text (get_str v "record") "session"
                && is_number (get_u64 v "format_version") 1
                && is_text (get_str v "session_id") (id_text session)
                && is_text (get_str v "workspace_id") key)
              header_mismatch
          read_records 0 [] lines)
      ]
