-- ===== src/Engine/Conversation/Written.antt =====
-- The lines that `ConversationStore::sync` of crates/latte-engine/src/conversation.rs writes of entries
-- in increasing order are the lines that `repair_and_read` reads the entries from.
use latte_code.Base.{
  ℕ, ◌≤◌, ◌<◌, ◌≡◌, refl, String, true, false, Option, none, some, List, [], ◌∷◌, ok, any, length,
  leb, ◌==◌, nat_eq, string_eq, All, All-mono, arith,
}
use latte_code.Core.Protocol.{TurnId}
use latte_code.Core.Session.{TranscriptEntry}
use latte_code.Engine.Conversation.Format.{
  Codec, header_fields, entry_fields, read_records, read_lines, optional_id, optional_value,
  max_record_bytes,
}
use latte_code.Engine.Conversation.Lines.{IsLine, file_of, keep-split_lines}
use latte_code.Engine.Conversation.Records.{
  IsEntry, IsPayload, get_str-object, get_u64-object, same_text, read_identity-entry,
  read_fields-entry,
}

-- Entries above a sequence number, in increasing order, with the lines of their records.
pub data Written (c : Codec)
    : ℕ → List (TranscriptEntry c.Value) → List (List c.Byte) → Type 0 where
  done : {previous : ℕ} → Written c previous [] []
  more :
      {previous : ℕ} {e : TranscriptEntry c.Value} {es : List (TranscriptEntry c.Value)}
      {l : List c.Byte} {ls : List (List c.Byte)}
      → previous < e.sequence
      → IsEntry c e
      → c.to_vec (c.object (entry_fields c e)) ≡ some l
      → length l ≤ max_record_bytes
      → Written c e.sequence es ls
      → Written c previous (e ∷ es) (l ∷ ls)

module _ (c : Codec) where
  open c use {
    Byte, newline, is_newline, Value, object, text, number, id_text, is_null, to_vec, from_slice,
  }

  -- The line of the header.
  abbrev pub IsHeader : ℕ → String → ℕ → List Byte → Type 0
  IsHeader session key created h =
      (to_vec (object (header_fields c session key created)) ≡ some h)
      × (length h ≤ max_record_bytes)

  -- The map of the sequence numbers that were read.
  abbrev pub ids : List (TranscriptEntry Value) → List (ℕ × String)
  ids [] = []
  ids (e ∷ es) = (e.sequence, id_text e.entry_id) ∷ ids es

  -- The last sequence number, after a first one.
  abbrev pub last : ℕ → List (TranscriptEntry Value) → ℕ
  last previous [] = previous
  last previous (e ∷ es) = last e.sequence es

  entry-IsExact : (e : TranscriptEntry Value) → IsEntry c e → c.IsExact (object (entry_fields c e))
  entry-IsExact e h = c.object-IsExact (entry_fields c e) (
    c.text-IsPlain _,
    (
      c.number-IsPlain _,
      (
        c.text-IsPlain _,
        (
          c.number-IsPlain _,
          (
            turn e.turn_id,
            (
              c.number-IsPlain _,
              (
                c.text-IsPlain _,
                (c.text-IsPlain _, (payload e.payload h.2, (c.text-IsPlain _, (tt)))),
              ),
            ),
          ),
        ),
      ),
    ),
  )
    where
      turn : (t : Option TurnId) → c.IsPlain (optional_id c t)
      turn none = c.null-IsPlain
      turn (some t) = c.text-IsPlain _

      payload : (p : Option Value) → IsPayload c p → c.IsPlain (optional_value c p)
      payload none h = c.null-IsPlain
      payload (some v) h = h.0

  header-IsExact :
      (session : ℕ) (key : String) (created : ℕ)
      → c.IsExact (object (header_fields c session key created))
  header-IsExact session key created = c.object-IsExact (header_fields c session key created) (
    c.text-IsPlain _,
    (c.number-IsPlain _, (c.text-IsPlain _, (c.text-IsPlain _, (c.number-IsPlain _, (tt))))),
  )

  IsLine-header :
      {session : ℕ} {key : String} {created : ℕ} {h : List Byte}
      → IsHeader session key created h
      → IsLine c h
  IsLine-header {session} {key} {created} w =
      let (_, bare, filled) = c.from_slice-to_vec _ (header-IsExact session key created) w.0 in
      (bare, filled)

  pub IsLine-Written :
      {previous : ℕ} {es : List (TranscriptEntry Value)} {ls : List (List Byte)}
      → Written c previous es ls
      → All (IsLine c) ls
  IsLine-Written done = tt
  IsLine-Written (more {e = e} up fit line size rest) =
      let (_, bare, filled) = c.from_slice-to_vec _ (entry-IsExact e fit) line in
      ((bare, filled), IsLine-Written rest)

  unseen :
      (previous s : ℕ) (seen : List (ℕ × String))
      → All (λ (p : ℕ × String). p.0 ≤ previous) seen
      → previous < s
      → any (λ (p : ℕ × String). p.0 == s) seen ≡ false
  unseen previous s [] h up = refl
  unseen previous s (p ∷ seen) h up = ground (arith, unseen previous s seen)

  -- The lines of the entries are read back as the entries.
  pub read_records-Written :
      {previous : ℕ} {es : List (TranscriptEntry Value)} {ls : List (List Byte)}
      (seen : List (ℕ × String))
      → All (λ (p : ℕ × String). p.0 ≤ previous) seen
      → Written c previous es ls
      → read_records c previous seen ls ≡ ok (ids es, es)
  unfolding read_records
  read_records-Written seen h done = refl
  read_records-Written {previous} seen h (more {e = e} {l = l} up fit line size rest) =
      let (back, _, _) = c.from_slice-to_vec _ (entry-IsExact e fit) line in
      let fits : leb (length l) max_record_bytes ≡ true = ground arith in
      let climbs : leb e.sequence previous ≡ false = ground arith in
      rw
        (
          fits,
          back,
          read_identity-entry c e fit,
          climbs,
          unseen previous e.sequence seen h up,
          read_fields-entry c e fit,
          read_records-Written ((e.sequence, id_text e.entry_id) ∷ seen)
              (omega arith, All-mono _ _ (λ p below. ground arith) seen h) rest,
        )
        refl

  -- A written file is read back.
  pub read_lines-Written :
      {session : ℕ} {key : String} {created : ℕ} {h : List Byte} {es : List (TranscriptEntry Value)}
      {ls : List (List Byte)}
      → IsHeader session key created h
      → Written c 0 es ls
      → read_lines c session key (file_of c (h ∷ ls)) ≡ ok (ids es, es)
  unfolding read_lines
  read_lines-Written {session} {key} {created} {h} {es} {ls} w all =
      let (back, _, _) = c.from_slice-to_vec _ (header-IsExact session key created) w.0 in
      rw
        (
          keep-split_lines c (h ∷ ls) (IsLine-header w, IsLine-Written all),
          back,
          get_str-object c (header_fields c session key created) "record" "session" refl refl,
          get_u64-object c (header_fields c session key created) "format_version" 1 refl
              (omega arith) refl,
          get_str-object c (header_fields c session key created) "session_id" (id_text session) refl
              refl,
          get_str-object c (header_fields c session key created) "workspace_id" key refl refl,
          same_text (id_text session),
          same_text key,
          read_records-Written [] tt all,
          read_lines,
        )
        refl
