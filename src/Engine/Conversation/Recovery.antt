-- ===== src/Engine/Conversation/Recovery.antt =====
-- `ConversationStore::sync` and `read` of crates/latte-engine/src/conversation.rs on a file that lost
-- its end: the entries that are given again are all in the file afterwards, and once.
use latte_code.Base.{
  ℕ, zero, suc, ◌-◌, ◌≤◌, ◌≡◌, refl, sym, ap, ◌∙◌, subst, String, false, List, [], ◌∷◌, ◌++◌, ok,
  any, ltb, length, is_empty, append_assoc, append-nil, All, arith,
}
use latte_code.Core.Session.{TranscriptEntry}
use latte_code.Engine.Conversation.Format.{Codec, max_file_bytes}
use latte_code.Engine.Conversation.{
  append_entries, last_key, sync, read, entries_of, repair_and_read, start_file, truncate,
}
use latte_code.Engine.Conversation.Lines.{file_of, repair-file_of, truncate-file_of}
use latte_code.Engine.Conversation.Written.{
  Written, done, more, ids, last, IsHeader, IsLine-Written, read_lines-Written,
}
use latte_code.Engine.Conversation.Entries.{
  IsFound, append_entries-new, append_entries-found, IsFound-Written, below-last, last_key-ids,
}

module _ (c : Codec) where
  open c use {Byte, newline, is_newline, Value, object}

  Written-split :
      {previous : ℕ} {es : List (TranscriptEntry Value)} (ms ns : List (List Byte))
      → Written c previous es (ms ++ ns)
      → (ps qs : List (TranscriptEntry Value)) × (es ≡ ps ++ qs)
        × Written c previous ps ms
        × Written c (last c previous ps) qs ns
  Written-split {es = es} [] ns w = ([], es, refl, done, w)
  Written-split {previous = previous} (m ∷ ms) ns (more {e = e} up fit line size rest) =
      let (ps, qs, same, front, back) = Written-split {previous = e.sequence} ms ns rest in
      (e ∷ ps, qs, ap (λ r. e ∷ r) same, more up fit line size front, back)

  Written-join :
      {previous : ℕ} {xs ys : List (TranscriptEntry Value)} {ls ms : List (List Byte)}
      → Written c previous xs ls
      → Written c (last c previous xs) ys ms
      → Written c previous (xs ++ ys) (ls ++ ms)
  Written-join done w = w
  Written-join (more up fit line size rest) w = more up fit line size (Written-join rest w)

  last-append :
      (previous : ℕ) (xs ys : List (TranscriptEntry Value))
      → last c previous (xs ++ ys) ≡ last c (last c previous xs) ys
  last-append previous [] ys = refl
  last-append previous (e ∷ xs) ys = last-append e.sequence xs ys

  last_key-last : (es : List (TranscriptEntry Value)) → last_key (ids c es) ≡ last c 0 es
  unfolding last_key
  last_key-last [] = refl
  last_key-last (e ∷ es) = last_key-ids c 0 e es

  file_of-append : (ls ms : List (List Byte)) → file_of c (ls ++ ms) ≡ file_of c ls ++ file_of c ms
  file_of-append [] ms = refl
  file_of-append (l ∷ ls) ms =
      ap (λ r. l ++ newline ∷ r) (file_of-append ls ms)
      ∙ sym (append_assoc l (newline ∷ file_of c ls) (file_of c ms))

  truncate-whole :
      (n : ℕ) (front rest : List Byte)
      → length front ≤ n
      → truncate c n (front ++ rest) ≡ front ++ truncate c (n - length front) rest
  truncate-whole n [] rest fit = ap (λ k. truncate c k rest) (omega arith)
  truncate-whole zero (b ∷ front) rest fit = absurd (omega (arith, fit))
  truncate-whole (suc n) (b ∷ front) rest fit =
      ap (λ r. b ∷ r)
        (truncate-whole n front rest (omega (arith, fit))
          ∙ ap (λ k. front ++ truncate c k rest) (omega arith))

  length-truncate : (n : ℕ) (bs : List Byte) → length (truncate c n bs) ≤ length bs
  length-truncate n [] = omega arith
  length-truncate zero (b ∷ bs) = omega arith
  length-truncate (suc n) (b ∷ bs) = omega (arith, length-truncate n bs)

  starts : (l : List Byte) (b : Byte) (rest : List Byte) → is_empty (l ++ b ∷ rest) ≡ false
  starts [] b rest = refl
  starts (d ∷ l) b rest = refl

  All-back {κ} :
      (P : TranscriptEntry Value → Type κ) (xs ys : List (TranscriptEntry Value))
      → All P (xs ++ ys)
      → All P ys
  All-back P [] ys h = h
  All-back P (e ∷ xs) ys h = All-back P xs ys h.1

  -- What is read of a file that is written, but for a torn line at its end.
  repair_and_read-Written :
      {session : ℕ} {key : String} {created : ℕ} {h : List Byte} {es : List (TranscriptEntry Value)}
      {ls : List (List Byte)} (torn : List Byte)
      → IsHeader c session key created h
      → Written c 0 es ls
      → any is_newline torn ≡ false
      → length (file_of c (h ∷ ls) ++ torn) ≤ max_file_bytes
      → repair_and_read c session key (file_of c (h ∷ ls) ++ torn)
        ≡ (file_of c (h ∷ ls), ok (ids c es, es))
  unfolding repair_and_read
  repair_and_read-Written {h = h} {ls = ls} torn head w bare size =
      let small : ltb max_file_bytes (length (file_of c (h ∷ ls) ++ torn)) ≡ false = ground arith in
      rw (small, repair-file_of c h ls torn bare, read_lines-Written c head w, repair_and_read) refl

  pub repair_and_read-whole :
      {session : ℕ} {key : String} {created : ℕ} {h : List Byte} {es : List (TranscriptEntry Value)}
      {ls : List (List Byte)}
      → IsHeader c session key created h
      → Written c 0 es ls
      → length (file_of c (h ∷ ls)) ≤ max_file_bytes
      → repair_and_read c session key (file_of c (h ∷ ls)) ≡ (file_of c (h ∷ ls), ok (ids c es, es))
  repair_and_read-whole {session} {key} {h = h} {ls = ls} head w size =
      let file = file_of c (h ∷ ls) in
      ap (repair_and_read c session key) (sym (append-nil file))
      ∙ repair_and_read-Written [] head w refl
          (subst (λ f. length f ≤ max_file_bytes) (sym (append-nil file)) size)

  sync-file :
      {session : ℕ} {key : String} {created : ℕ} {h : List Byte} {es : List (TranscriptEntry Value)}
      {ls : List (List Byte)} (torn : List Byte) (given : List (TranscriptEntry Value))
      → IsHeader c session key created h
      → Written c 0 es ls
      → any is_newline torn ≡ false
      → length (file_of c (h ∷ ls) ++ torn) ≤ max_file_bytes
      → sync c session key created given (file_of c (h ∷ ls) ++ torn)
        ≡ append_entries c (ids c es) (last c 0 es) given (file_of c (h ∷ ls))
  unfolding sync start_file
  sync-file {h = h} {es = es} {ls = ls} torn given head w bare size =
      let filled : is_empty (file_of c (h ∷ ls) ++ torn) ≡ false =
        ap is_empty (append_assoc h (newline ∷ file_of c ls) torn)
        ∙ starts h newline (file_of c ls ++ torn) in
      rw (filled, repair_and_read-Written torn head w bare size, last_key-last es, sync) refl

  sync-all :
      {session : ℕ} {key : String} {created : ℕ} {h : List Byte} {qs : List (TranscriptEntry Value)}
      {ls ns : List (List Byte)} (xs ps : List (TranscriptEntry Value)) (torn : List Byte)
      → IsHeader c session key created h
      → Written c 0 (xs ++ ps) ls
      → Written c (last c 0 (xs ++ ps)) qs ns
      → any is_newline torn ≡ false
      → length (file_of c (h ∷ ls) ++ torn) ≤ max_file_bytes
      → sync c session key created (ps ++ qs) (file_of c (h ∷ ls) ++ torn)
        ≡ (file_of c (h ∷ ls) ++ file_of c ns, ok tt)
  sync-all {h = h} {qs = qs} {ls = ls} {ns = ns} xs ps torn head w later bare size =
      sync-file torn (ps ++ qs) head w bare size
      ∙ append_entries-found c (ids c (xs ++ ps)) (last c 0 (xs ++ ps)) ps qs (file_of c (h ∷ ls))
          (All-back (IsFound c (ids c (xs ++ ps))) xs ps (IsFound-Written c w))
      ∙ append_entries-new c (ids c (xs ++ ps)) (last c 0 (xs ++ ps)) qs ns (file_of c (h ∷ ls))
          (below-last c w).1 later

  sync-cut :
      {session : ℕ} {key : String} {created : ℕ} {h : List Byte}
      {xs ys : List (TranscriptEntry Value)} {ls : List (List Byte)} (us vs : List (List Byte))
      (torn : List Byte)
      → IsHeader c session key created h
      → Written c 0 xs ls
      → Written c (last c 0 xs) ys (us ++ vs)
      → any is_newline torn ≡ false
      → length (file_of c (h ∷ (ls ++ us)) ++ torn) ≤ max_file_bytes
      → sync c session key created ys (file_of c (h ∷ (ls ++ us)) ++ torn)
        ≡ (file_of c (h ∷ (ls ++ (us ++ vs))), ok tt)
  sync-cut {session} {key} {created} {h} {xs} {ys} {ls} us vs torn head w later bare size =
      let (ps, qs, same, front, back) = Written-split us vs later in
      let back : Written c (last c 0 (xs ++ ps)) qs vs =
        subst (λ k. Written c k qs vs) (sym (last-append 0 xs ps)) back in
      let whole : file_of c (h ∷ (ls ++ us)) ++ file_of c vs ≡ file_of c (h ∷ (ls ++ (us ++ vs))) =
        sym (file_of-append (h ∷ (ls ++ us)) vs)
        ∙ ap (λ r. file_of c (h ∷ r)) (append_assoc ls us vs) in
      ap (λ y. sync c session key created y (file_of c (h ∷ (ls ++ us)) ++ torn)) same
      ∙ sync-all xs ps torn head (Written-join w front) back bare size
      ∙ ap (λ f. (f, ok tt)) whole

  -- The file of a session, within the limit, holds a header and the records of entries in increasing
  -- order, of which all but the last ones were synced before; it is cut at any place after the synced
  -- lines. Then giving `sync` the other entries again makes the whole file, and a read of the whole file
  -- gives all entries.
  pub sync-recovers :
      {session : ℕ} {key : String} {created : ℕ} {h : List Byte}
      {xs ys : List (TranscriptEntry Value)} {ls ms : List (List Byte)} (n : ℕ)
      → IsHeader c session key created h
      → Written c 0 xs ls
      → Written c (last c 0 xs) ys ms
      → length (file_of c (h ∷ (ls ++ ms))) ≤ max_file_bytes
      → length (file_of c (h ∷ ls)) ≤ n
      → (sync c session key created ys (truncate c n (file_of c (h ∷ (ls ++ ms))))
          ≡ (file_of c (h ∷ (ls ++ ms)), ok tt))
        × (read c session key (file_of c (h ∷ (ls ++ ms)))
            ≡ (file_of c (h ∷ (ls ++ ms)), ok (xs ++ ys)))
  unfolding read
  sync-recovers {session} {key} {created} {h} {xs} {ys} {ls} {ms} n head w later size keeps =
      let (us, vs, torn, split, bare, cut) =
        truncate-file_of c (n - length (file_of c (h ∷ ls))) ms (IsLine-Written c later) in
      let cut_file : truncate c n (file_of c (h ∷ (ls ++ ms)))
          ≡ file_of c (h ∷ (ls ++ us)) ++ torn =
        ap (truncate c n) (file_of-append (h ∷ ls) ms)
        ∙ truncate-whole n (file_of c (h ∷ ls)) (file_of c ms) keeps
        ∙ ap (λ r. file_of c (h ∷ ls) ++ r) cut
        ∙ sym (append_assoc (file_of c (h ∷ ls)) (file_of c us) torn)
        ∙ ap (λ r. r ++ torn) (sym (file_of-append (h ∷ ls) us)) in
      let small : length (file_of c (h ∷ (ls ++ us)) ++ torn) ≤ max_file_bytes =
        subst (λ f. length f ≤ max_file_bytes) cut_file
          (omega (arith, length-truncate n (file_of c (h ∷ (ls ++ ms))), size)) in
      (
        ap (sync c session key created ys) cut_file
            ∙ sync-cut us vs torn head w (subst (Written c (last c 0 xs) ys) split later) bare small
            ∙ ap (λ r. (file_of c (h ∷ (ls ++ r)), ok tt)) (sym split),
        ap (entries_of c) (repair_and_read-whole head (Written-join w later) size),
      )
