-- ===== src/Engine/Conversation.antt =====
-- crates/latte-engine/src/conversation.rs: the append-only file of a session, with its repair. A read or
-- write of the file succeeds.
pub mod Format
pub mod Lines
pub mod Records
pub mod Written
pub mod Entries
pub mod Recovery
pub mod Appends
mod Examples
use latte_code.Base.{
  ℕ, zero, suc, ◌+◌, ◌≤◌, ◌≡◌, String, Bool, true, false, not, ◌||◌, ◌&&◌, Option, none, some, List,
  [], ◌∷◌, ◌++◌, map, Result, ok, err, guard, ok_or, ◌>>=◌, ◌>>◌, ◌==◌, nat_eq, string_eq, any,
  find, keep, length, is_empty, ltb, leb, if◌then◌else◌, All, u64_max,
}
use latte_code.Core.Protocol.{TurnId}
use latte_code.Core.Session.{TranscriptEntry, TranscriptKind, kind_name, parse_kind}
use latte_code.Engine.Conversation.Format.{
  Codec, ConversationError, different_entry_id, entry_fields, header_fields, json, max_file_bytes,
  max_record_bytes, missing_file, not_increasing, read_lines, record_too_long, too_large,
  torn_header,
}

-- `existing.keys().next_back()`, or zero.
pub last_key : List (ℕ × String) → ℕ
last_key [] = 0
last_key (p ∷ []) = p.0
last_key (p ∷ ps) = last_key ps

module _ (c : Codec) where
  open c use {Byte, newline, is_newline, Value, object, id_text, to_vec}

  -- `bytes.ends_with(b"\n")`, the position of the last newline, and `truncate`.
  pub ends_line : List Byte → Bool
  ends_line [] = false
  ends_line (b ∷ []) = is_newline b
  ends_line (b ∷ bs) = ends_line bs

  pub last_newline : List Byte → Option ℕ
  last_newline [] = none
  last_newline (b ∷ bs) = elim (last_newline bs) [
    | some i ↦ some (suc i)
    | none ↦ if is_newline b then some 0 else none
  ]

  abbrev pub truncate : ℕ → List Byte → List Byte
  truncate n [] = []
  truncate zero (b ∷ bs) = []
  truncate (suc n) (b ∷ bs) = b ∷ truncate n bs

  -- A torn last line is cut off.
  pub repair : List Byte → Result (List Byte) ConversationError
  repair bytes = if ends_line bytes then ok bytes else elim (last_newline bytes) [
    | none ↦ err torn_header
    | some i ↦ ok (truncate (suc i) bytes)
  ]

  -- `repair_and_read`: the file afterwards, and what was read.
  pub repair_and_read :
      ℕ
      → String
      → List Byte
      → List Byte × Result (List (ℕ × String) × List (TranscriptEntry Value)) ConversationError
  repair_and_read session key bytes =
      if ltb max_file_bytes (length bytes) then (bytes, err too_large) else elim (repair bytes) [
        | err e ↦ (bytes, err e)
        | ok kept ↦ (kept, read_lines c session key kept)
      ]

  -- `write_record`, at the end of the file.
  pub write_record : List Byte → Value → Result (List Byte) ConversationError
  write_record file v = do
    bytes ← ok_or (to_vec v) json
    guard (leb (length bytes) max_record_bytes) record_too_long
    ok (file ++ (bytes ++ newline ∷ []))

  -- The loop of `sync`: the file keeps what was written before an error.
  pub append_entries :
      List (ℕ × String)
      → ℕ
      → List (TranscriptEntry Value)
      → List Byte
      → List Byte × Result (Unit {0}) ConversationError
  append_entries existing last [] file = (file, ok tt)
  append_entries existing last (e ∷ es) file =
      elim (find (λ (p : ℕ × String). p.0 == e.sequence) existing) [
        | some p ↦ elim (p.1 == id_text e.entry_id) [
          | true ↦ append_entries existing last es file
          | false ↦ (file, err (different_entry_id e.sequence))
        ]
        | none ↦ elim (leb e.sequence last) [
          | true ↦ (file, err (not_increasing last e.sequence))
          | false ↦ elim (write_record file (object (entry_fields c e))) [
            | err x ↦ (file, err x)
            | ok more ↦ append_entries existing e.sequence es more
          ]
        ]
      ]

  -- A new file gets its header.
  pub start_file :
      ℕ
      → String
      → ℕ
      → List (TranscriptEntry Value)
      → List Byte
      → Result (List Byte) ConversationError
  start_file session key created entries file =
      if is_empty file
      then (if is_empty entries
          then err missing_file
          else write_record file (object (header_fields c session key created)))
      else ok file

  -- The rest of `sync`, after `repair_and_read`.
  abbrev pub add_missing :
      List (TranscriptEntry Value)
      → List Byte × Result (List (ℕ × String) × List (TranscriptEntry Value)) ConversationError
      → List Byte × Result (Unit {0}) ConversationError
  add_missing entries (kept, err e) = (kept, err e)
  add_missing entries (kept, ok (existing, _)) =
      append_entries existing (last_key existing) entries kept

  -- `ConversationStore::sync`.
  pub sync :
      ℕ
      → String
      → ℕ
      → List (TranscriptEntry Value)
      → List Byte
      → List Byte × Result (Unit {0}) ConversationError
  sync session key created entries file = elim (start_file session key created entries file) [
    | err e ↦ (file, err e)
    | ok started ↦ add_missing entries (repair_and_read session key started)
  ]

  -- The entries of `repair_and_read`, without the map.
  abbrev pub entries_of :
      List Byte × Result (List (ℕ × String) × List (TranscriptEntry Value)) ConversationError
      → List Byte × Result (List (TranscriptEntry Value)) ConversationError
  entries_of (kept, err e) = (kept, err e)
  entries_of (kept, ok (_, entries)) = (kept, ok entries)

  -- `ConversationStore::read`.
  pub read :
      ℕ → String → List Byte → List Byte × Result (List (TranscriptEntry Value)) ConversationError
  read session key file = entries_of (repair_and_read session key file)
