-- ===== src/Engine/Conversation/Records.antt =====
-- The records of the conversation file of crates/latte-engine/src/conversation.rs: what `sync` writes
-- of an entry is what `repair_and_read` reads of its line.
use latte_code.Base.{
  ℕ, ◌≤◌, ◌≡◌, refl, ap, String, true, false, Option, none, some, List, ok, if◌then◌else◌, ◌==◌,
  nat_eq, string_eq, u64_max, arith, eq_iff,
}
use latte_code.Core.Protocol.{TurnId}
use latte_code.Core.Session.{TranscriptEntry, kind_name, parse_kind-kind_name}
use latte_code.Engine.Conversation.Format.{
  Codec, distinct_keys, entry_fields, lookup, get_str, get_u64, get_present, read_turn, read_kind,
  read_fields, read_identity, optional_id, optional_value,
}

pub same_text : (s : String) → (s == s) ≡ true
same_text s = (eq_iff s s).1 refl

pub same_number : (n : ℕ) → (n == n) ≡ true
same_number n = (nat_eq.test_iff n n).1 refl

module _ (c : Codec) where
  open c use {
    Byte, newline, is_newline, Value, object, text, number, null, get, id_text, is_null, to_vec,
    from_slice,
  }

  -- The payloads that a record keeps: exact in JSON and not null.
  abbrev pub IsPayload : Option Value → Type 0
  IsPayload none = Unit
  IsPayload (some v) = c.IsPlain v × (is_null v ≡ false)

  abbrev pub IsEntry : TranscriptEntry Value → Type 0
  IsEntry e = (e.sequence ≤ u64_max) × (e.created_at_ms ≤ u64_max) × IsPayload e.payload

  abbrev entry_value : TranscriptEntry Value → Value
  entry_value e = object (entry_fields c e)

  pub get_str-object :
      (fields : List (String × Value)) (k s : String)
      → distinct_keys fields ≡ true
      → lookup k fields ≡ some (text s)
      → get_str c (object fields) k ≡ some s
  unfolding get_str
  get_str-object fields k s d h = rw (c.get-object fields k d, h, get_str) (c.as_str-text s)

  pub get_u64-object :
      (fields : List (String × Value)) (k : String) (n : ℕ)
      → distinct_keys fields ≡ true
      → n ≤ u64_max
      → lookup k fields ≡ some (number n)
      → get_u64 c (object fields) k ≡ some n
  unfolding get_u64
  get_u64-object fields k n d fit h =
      rw (c.get-object fields k d, h, get_u64) (c.as_u64-number n fit)

  pub read_identity-entry :
      (e : TranscriptEntry Value)
      → IsEntry e
      → read_identity c (entry_value e) ≡ ok (e.sequence, id_text e.entry_id)
  unfolding read_identity
  read_identity-entry e h =
      rw
        (
          get_str-object (entry_fields c e) "record" "entry" refl refl,
          get_u64-object (entry_fields c e) "format_version" 1 refl (omega arith) refl,
          get_u64-object (entry_fields c e) "seq" e.sequence refl h.0 refl,
          get_str-object (entry_fields c e) "entry_id" (id_text e.entry_id) refl refl,
        )
        refl

  -- A field that is null is read as missing, and any other as it is.
  get_present-entry :
      (e : TranscriptEntry Value) (k : String) (v : Value)
      → lookup k (entry_fields c e) ≡ some v
      → get_present c (entry_value e) k ≡ (if is_null v then none else some v)
  unfolding get_present
  get_present-entry e k v h = rw (c.get-object (entry_fields c e) k refl, h, get_present) refl

  get_present-missing :
      (e : TranscriptEntry Value) (k : String)
      → lookup k (entry_fields c e) ≡ none
      → get_present c (entry_value e) k ≡ none
  unfolding get_present
  get_present-missing e k h = rw (c.get-object (entry_fields c e) k refl, h, get_present) refl

  read_turn-entry :
      (e : TranscriptEntry Value) (turn : Option TurnId)
      → e.turn_id ≡ turn
      → read_turn c (entry_value e) ≡ ok turn
  unfolding read_turn
  read_turn-entry e none h =
      rw
        (
          get_present-entry e "turn_id" null (ap (λ t. some (optional_id c t)) h),
          c.is_null-null,
          get_present-missing e "run_id" refl,
          read_turn,
        )
        refl
  read_turn-entry e (some t) h =
      rw
        (
          get_present-entry e "turn_id" (text (id_text t)) (ap (λ t. some (optional_id c t)) h),
          c.is_null-text (id_text t),
          c.as_str-text (id_text t),
          c.parse_id-id_text t,
          read_turn,
        )
        refl

  read_kind-entry : (e : TranscriptEntry Value) → read_kind c (entry_value e) ≡ ok e.kind
  unfolding read_kind
  read_kind-entry e =
      rw
        (
          c.get-object (entry_fields c e) "kind" refl,
          c.as_str-text (kind_name e.kind),
          parse_kind-kind_name e.kind,
        )
        refl

  get_present-payload :
      (e : TranscriptEntry Value) (payload : Option Value)
      → e.payload ≡ payload
      → IsPayload payload
      → get_present c (entry_value e) "payload" ≡ payload
  get_present-payload e none same h =
      rw
        (
          get_present-entry e "payload" null (ap (λ p. some (optional_value c p)) same),
          c.is_null-null,
        )
        refl
  get_present-payload e (some v) same h =
      rw (get_present-entry e "payload" v (ap (λ p. some (optional_value c p)) same), h.1) refl

  pub read_fields-entry :
      (e : TranscriptEntry Value)
      → IsEntry e
      → read_fields c (entry_value e) e.sequence (id_text e.entry_id) ≡ ok e
  unfolding read_fields
  read_fields-entry e h =
      rw
        (
          c.parse_id-id_text e.entry_id,
          read_turn-entry e e.turn_id refl,
          read_kind-entry e,
          get_present-payload e e.payload refl h.2,
          get_str-object (entry_fields c e) "content" e.text refl refl,
          get_str-object (entry_fields c e) "source_key" e.source_key refl refl,
          get_u64-object (entry_fields c e) "created_at_ms" e.created_at_ms refl h.1 refl,
        )
        refl
