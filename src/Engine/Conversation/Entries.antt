-- ===== src/Engine/Conversation/Entries.antt =====
-- The loop of `ConversationStore::sync` of crates/latte-engine/src/conversation.rs, on entries of which
-- the file has the first ones.
use latte_code.Base.{
  ℕ, ◌≤◌, ◌<◌, ◌≡◌, refl, sym, ap, String, true, false, some, none, List, [], ◌∷◌, ◌++◌, ok, find,
  leb, length, ◌==◌, nat_eq, string_eq, append_assoc, append-nil, All, All-mono, arith,
}
use latte_code.Core.Session.{TranscriptEntry}
use latte_code.Engine.Conversation.Format.{Codec, entry_fields, max_record_bytes}
use latte_code.Engine.Conversation.{append_entries, write_record, last_key}
use latte_code.Engine.Conversation.Lines.{file_of}
use latte_code.Engine.Conversation.Records.{same_text, same_number}
use latte_code.Engine.Conversation.Written.{Written, done, more, ids, last}

module _ (c : Codec) where
  open c use {Byte, newline, Value, object, id_text, to_vec}

  -- The entry at its sequence number in the map.
  abbrev pub IsFound : List (ℕ × String) → TranscriptEntry Value → Type 0
  IsFound existing e =
      find (λ (p : ℕ × String). p.0 == e.sequence) existing ≡ some (e.sequence, id_text e.entry_id)

  pub write_record-line :
      (file : List Byte) (v : Value) {l : List Byte}
      → to_vec v ≡ some l
      → length l ≤ max_record_bytes
      → write_record c file v ≡ ok (file ++ (l ++ newline ∷ []))
  unfolding write_record
  write_record-line file v {l} line size =
      let fits : leb (length l) max_record_bytes ≡ true = ground arith in rw (line, fits) refl

  -- Entries above all that the map has are found missing.
  missing :
      (previous s : ℕ) (existing : List (ℕ × String))
      → All (λ (p : ℕ × String). p.0 ≤ previous) existing
      → previous < s
      → find (λ (p : ℕ × String). p.0 == s) existing ≡ none
  missing previous s [] h up = refl
  missing previous s (p ∷ existing) h up = ground (arith, missing previous s existing)

  -- They are written, in their order.
  pub append_entries-new :
      (existing : List (ℕ × String)) (previous : ℕ) (es : List (TranscriptEntry Value))
      (ls : List (List Byte)) (file : List Byte)
      → All (λ (p : ℕ × String). p.0 ≤ previous) existing
      → Written c previous es ls
      → append_entries c existing previous es file ≡ (file ++ file_of c ls, ok tt)
  unfolding append_entries
  append_entries-new existing previous es ls file h done =
      ap (λ f. (f, ok tt)) (sym (append-nil file))
  append_entries-new existing previous xs rs file h
        (more {e = e} {es = es} {l = l} {ls = ls} up fit line size rest) =
      let above : leb e.sequence previous ≡ false = ground arith in
      rw
        (
          missing previous e.sequence existing h up,
          above,
          write_record-line file (object (entry_fields c e)) line size,
          append_entries-new existing e.sequence es ls (file ++ (l ++ newline ∷ []))
              (All-mono _ _ (λ p below. omega (arith, below, up)) existing h) rest,
          append_assoc file (l ++ newline ∷ []) (file_of c ls),
          append_assoc l (newline ∷ []) (file_of c ls),
          append_entries,
        )
        refl

  -- Entries that the map has are passed over.
  pub append_entries-found :
      (existing : List (ℕ × String)) (previous : ℕ) (es later : List (TranscriptEntry Value))
      (file : List Byte)
      → All (IsFound existing) es
      → append_entries c existing previous (es ++ later) file
        ≡ append_entries c existing previous later file
  unfolding append_entries
  append_entries-found existing previous [] later file h = refl
  append_entries-found existing previous (e ∷ es) later file h =
      rw (h.0, same_text (id_text e.entry_id), append_entries)
        (append_entries-found existing previous es later file h.1)

  above-Written :
      {previous : ℕ} {es : List (TranscriptEntry Value)} {ls : List (List Byte)}
      → Written c previous es ls
      → All (λ (e : TranscriptEntry Value). previous < e.sequence) es
  above-Written done = tt
  above-Written (more {es = es} up fit line size rest) =
      (up, All-mono _ _ (λ e later. omega (arith, up, later)) es (above-Written rest))

  -- What was written is found.
  pub IsFound-Written :
      {previous : ℕ} {es : List (TranscriptEntry Value)} {ls : List (List Byte)}
      → Written c previous es ls
      → All (IsFound (ids c es)) es
  IsFound-Written done = tt
  IsFound-Written (more {e = e} {es = es} up fit line size rest) =
      (rw (same_number e.sequence) refl, shift es (above-Written rest) (IsFound-Written rest))
    where
      shift :
          (xs : List (TranscriptEntry Value))
          → All (λ (d : TranscriptEntry Value). e.sequence < d.sequence) xs
          → All (IsFound (ids c es)) xs
          → All (IsFound (ids c (e ∷ es))) xs
      shift [] up found = tt
      shift (d ∷ xs) up found = (ground (arith, up, found), shift xs up.1 found.1)

  -- The sequence numbers that were written are at most the last one, which is the last key of the map.
  pub below-last :
      {previous : ℕ} {es : List (TranscriptEntry Value)} {ls : List (List Byte)}
      → Written c previous es ls
      → (previous ≤ last c previous es)
        × All (λ (p : ℕ × String). p.0 ≤ last c previous es) (ids c es)
  below-last done = (omega arith, tt)
  below-last (more up fit line size rest) =
      let (low, all) = below-last rest in (omega (arith, low, up), (low, all))

  pub last_key-ids :
      (previous : ℕ) (e : TranscriptEntry Value) (es : List (TranscriptEntry Value))
      → last_key (ids c (e ∷ es)) ≡ last c previous (e ∷ es)
  unfolding last_key
  last_key-ids previous e [] = refl
  last_key-ids previous e (d ∷ es) = last_key-ids e.sequence d es
