-- ===== src/Engine/Conversation/Appends.antt =====
-- `ConversationStore::sync` of crates/latte-engine/src/conversation.rs on any file, on a new one, and on
-- one whose header is torn.
use latte_code.Base.{
  ℕ, suc, ◌≤◌, ◌≡◌, refl, subst, sym, ap, ◌∙◌, inl, inr, String, false, some, none, List, [], ◌∷◌,
  ◌++◌, Result, ok, err, any, find, leb, ltb, length, is_empty, append_assoc, append-nil, ◌==◌,
  nat_eq, string_eq, arith, Bool-cases, Option-cases, Result-cases,
}
use latte_code.Core.Session.{TranscriptEntry}
use latte_code.Engine.Conversation.Format.{
  Codec, ConversationError, torn_header, header_fields, entry_fields, max_file_bytes,
}
use latte_code.Engine.Conversation.{
  append_entries, add_missing, entries_of, write_record, last_key, sync, read, repair_and_read,
  start_file, truncate, repair, ends_line, last_newline,
}
use latte_code.Engine.Conversation.Lines.{file_of, last_newline-none}
use latte_code.Engine.Conversation.Written.{Written, done, IsHeader}
use latte_code.Engine.Conversation.Entries.{append_entries-new, write_record-line}
use latte_code.Engine.Conversation.Recovery.{repair_and_read-whole}

module _ (c : Codec) where
  open c use {Byte, newline, is_newline, Value, object, to_vec}

  none-last_newline : (bs : List Byte) → last_newline c bs ≡ none → any is_newline bs ≡ false
  unfolding last_newline
  none-last_newline [] h = refl
  none-last_newline (b ∷ bs) h = elim (Option-cases (last_newline c bs)) [
    | inl e ↦ ground (arith, none-last_newline bs e)
    | inr (i, e) ↦ absurd (ground (arith, e))
  ]

  truncate-none : (bs : List Byte) → truncate c 0 bs ≡ []
  truncate-none [] = refl
  truncate-none (b ∷ bs) = refl

  -- What follows the last newline has none.
  after_last :
      (i : ℕ) (bs : List Byte)
      → last_newline c bs ≡ some i
      → (torn : List Byte) × (bs ≡ truncate c (suc i) bs ++ torn) × (any is_newline torn ≡ false)
  unfolding last_newline
  after_last i [] h = cc
  after_last i (b ∷ bs) h = elim (Option-cases (last_newline c bs)) [
    | inl e ↦
        let at : i ≡ 0 = ground (arith, e) in
        (
          bs,
          subst (λ k. b ∷ bs ≡ b ∷ (truncate c k bs ++ bs)) (sym at)
              (ap (λ r. b ∷ (r ++ bs)) (sym (truncate-none bs))),
          none-last_newline bs e,
        )
    | inr (j, e) ↦
        let at : i ≡ suc j = ground (arith, e) in
        let (torn, same, bare) = after_last j bs e in
        (
          torn,
          subst (λ k. b ∷ bs ≡ b ∷ (truncate c k bs ++ torn)) (sym at) (ap (λ r. b ∷ r) same),
          bare,
        )
  ]

  write_record-appends :
      (file : List Byte) (v : Value) {out : List Byte}
      → write_record c file v ≡ ok out
      → (added : List Byte) × (out ≡ file ++ added)
  unfolding write_record
  write_record-appends file v h = elim (Option-cases (to_vec v)) [
    | inl e ↦ absurd (ground (arith, e))
    | inr (l, e) ↦ (l ++ newline ∷ [], ground (arith, e))
  ]

  append_entries-appends :
      (existing : List (ℕ × String)) (previous : ℕ) (es : List (TranscriptEntry Value))
      (file : List Byte)
      → (added : List Byte) × ((append_entries c existing previous es file).0 ≡ file ++ added)
  unfolding append_entries
  append_entries-appends existing previous [] file = ([], sym (append-nil file))
  append_entries-appends existing previous (e ∷ es) file =
      elim (Option-cases (find (λ (p : ℕ × String). p.0 == e.sequence) existing)) [
        | inr (p, found) ↦ elim (Bool-cases (p.1 == c.id_text e.entry_id)) [
          | inl same ↦
              rw (found, same, append_entries) (append_entries-appends existing previous es file)
          | inr other ↦ rw (found, other, append_entries) ([], sym (append-nil file))
        ]
        | inl lost ↦ elim (Bool-cases (leb e.sequence previous)) [
          | inl low ↦ rw (lost, low, append_entries) ([], sym (append-nil file))
          | inr high ↦ elim (Result-cases (write_record c file (object (entry_fields c e)))) [
            | inl (x, refused) ↦
                rw (lost, high, refused, append_entries) ([], sym (append-nil file))
            | inr (out, wrote) ↦
                let (first, at) = write_record-appends file (object (entry_fields c e)) wrote in
                let (rest, then_at) = append_entries-appends existing e.sequence es out in
                rw (lost, high, wrote, append_entries)
                  (first ++ rest, then_at ∙ ap (λ f. f ++ rest) at ∙ append_assoc file first rest)
          ]
        ]
      ]

  add_missing-appends :
      (es : List (TranscriptEntry Value))
      (found : List Byte
        × Result (List (ℕ × String) × List (TranscriptEntry Value)) ConversationError)
      → (added : List Byte) × ((add_missing c es found).0 ≡ found.0 ++ added)
  add_missing-appends es (kept, err e) = ([], sym (append-nil kept))
  add_missing-appends es (kept, ok (existing, _)) =
      append_entries-appends existing (last_key existing) es kept

  -- A file that is kept but for a torn last line.
  abbrev pub IsKept : List Byte → List Byte → Type 0
  IsKept file kept = (torn : List Byte) × (file ≡ kept ++ torn) × (any is_newline torn ≡ false)

  whole : (file : List Byte) → IsKept file file
  whole file = ([], sym (append-nil file), refl)

  repair_and_read-IsKept :
      (session : ℕ) (key : String) (file : List Byte)
      → IsKept file (repair_and_read c session key file).0
  unfolding repair_and_read repair
  repair_and_read-IsKept session key file = elim (Bool-cases (ltb max_file_bytes (length file))) [
    | inl large ↦ rw (large, repair_and_read) (whole file)
    | inr small ↦ elim (Bool-cases (ends_line c file)) [
      | inl ended ↦ rw (small, ended, repair_and_read) (whole file)
      | inr torn ↦ elim (Option-cases (last_newline c file)) [
        | inl lost ↦ rw (small, torn, lost, repair_and_read) (whole file)
        | inr (i, at) ↦ rw (small, torn, at, repair_and_read) (after_last i file at)
      ]
    ]
  ]

  -- Whatever the file and the entries are, and also where it fails, a sync keeps the file but for bytes
  -- after its last newline, and adds at its end.
  pub sync-IsKept :
      (session : ℕ) (key : String) (created : ℕ) (es : List (TranscriptEntry Value))
      (file : List Byte)
      → (kept added : List Byte) × IsKept file kept
        × ((sync c session key created es file).0 ≡ kept ++ added)
  unfolding sync start_file
  sync-IsKept session key created es [] = ([], (sync c session key created es []).0, whole [], refl)
  sync-IsKept session key created es (b ∷ bs) =
      let file = b ∷ bs in
      let (added, same) = add_missing-appends es (repair_and_read c session key file) in
      ((repair_and_read c session key file).0, added, repair_and_read-IsKept session key file, same)

  -- A sync of entries in increasing order to an empty file writes the header and their lines.
  pub sync-new :
      {session : ℕ} {key : String} {created : ℕ} {h : List Byte} {e : TranscriptEntry Value}
      {es : List (TranscriptEntry Value)} {ls : List (List Byte)}
      → IsHeader c session key created h
      → Written c 0 (e ∷ es) ls
      → length (file_of c (h ∷ [])) ≤ max_file_bytes
      → sync c session key created (e ∷ es) [] ≡ (file_of c (h ∷ ls), ok tt)
  unfolding sync start_file last_key
  sync-new {session} {key} {created} {h} {e} {es} {ls} head w size =
      let wrote =
        write_record-line c [] (object (header_fields c session key created)) head.0 head.1 in
      rw (wrote, repair_and_read-whole c {es = []} {ls = []} head done size, sync)
        (append_entries-new c [] 0 (e ∷ es) ls (file_of c (h ∷ [])) tt w
          ∙ ap (λ f. (f, ok tt)) (append_assoc h (newline ∷ []) (file_of c ls)))

  bare-ends_line : (bs : List Byte) → any is_newline bs ≡ false → ends_line c bs ≡ false
  unfolding ends_line
  bare-ends_line [] h = refl
  bare-ends_line (b ∷ []) h = ground (arith, Bool-cases (is_newline b))
  bare-ends_line (b ∷ d ∷ bs) h =
      bare-ends_line (d ∷ bs) (ground (arith, Bool-cases (is_newline b)))

  repair_and_read-bare :
      (session : ℕ) (key : String) (file : List Byte)
      → any is_newline file ≡ false
      → length file ≤ max_file_bytes
      → repair_and_read c session key file ≡ (file, err torn_header)
  unfolding repair_and_read repair
  repair_and_read-bare session key file bare size =
      let small : ltb max_file_bytes (length file) ≡ false = ground arith in
      rw (small, bare-ends_line file bare, last_newline-none c file bare, repair_and_read) refl

  -- A file without any newline, not empty and within the limit, is left as it is and refused with a torn
  -- header, by syncs and by reads.
  pub sync-torn_header :
      (session : ℕ) (key : String) (created : ℕ) (es : List (TranscriptEntry Value))
      (file : List Byte)
      → is_empty file ≡ false
      → any is_newline file ≡ false
      → length file ≤ max_file_bytes
      → (sync c session key created es file ≡ (file, err torn_header))
        × (read c session key file ≡ (file, err torn_header))
  unfolding sync start_file read
  sync-torn_header session key created es file filled bare size = (
    rw (filled, repair_and_read-bare session key file bare size, sync) refl,
    ap (entries_of c) (repair_and_read-bare session key file bare size),
  )
