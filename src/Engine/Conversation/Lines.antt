-- ===== src/Engine/Conversation/Lines.antt =====
-- The lines of the conversation file of crates/latte-engine/src/conversation.rs: what its repair leaves
-- of a file whose end was lost.
use latte_code.Base.{
  ℕ, zero, suc, ◌≤◌, ◌≡◌, ◌⊎◌, append_assoc, append-nil, refl, sym, ap, ◌∙◌, inl, inr, false, not,
  none, some, List, [], ◌∷◌, ◌++◌, ok, any, keep, length, is_empty, All, arith, Bool-cases,
}
use latte_code.Engine.Conversation.Format.{Codec, split_lines}
use latte_code.Engine.Conversation.{ends_line, last_newline, truncate, repair}

module _ (c : Codec) where
  open c use {Byte, newline, is_newline}

  -- The file of some lines.
  abbrev pub file_of : List (List Byte) → List Byte
  file_of [] = []
  file_of (l ∷ ls) = l ++ newline ∷ file_of ls

  -- The bytes of a record.
  abbrev pub IsLine : List Byte → Type 0
  IsLine l = (any is_newline l ≡ false) × (is_empty l ≡ false)

  split_lines-line :
      (l rest : List Byte)
      → any is_newline l ≡ false
      → split_lines c (l ++ newline ∷ rest) ≡ l ∷ split_lines c rest
  unfolding split_lines
  split_lines-line [] rest h = rw c.is_newline-newline refl
  split_lines-line (b ∷ l) rest h = elim (Bool-cases (is_newline b)) [
    | inl e ↦ absurd (ground (arith, e))
    | inr e ↦ rw (e, split_lines-line l rest (rw e at h)) refl
  ]

  split_lines-empty : split_lines c [] ≡ [] ∷ []
  unfolding split_lines
  split_lines-empty = refl

  -- The lines of a file are read back.
  pub keep-split_lines :
      (ls : List (List Byte))
      → All IsLine ls
      → keep (λ (l : List Byte). not (is_empty l)) (split_lines c (file_of ls)) ≡ ls
  keep-split_lines [] h = rw split_lines-empty refl
  keep-split_lines (l ∷ ls) h =
      rw (split_lines-line l (file_of ls) h.0.0, h.0.1, keep-split_lines ls h.1) refl

  ends_line-append :
      (front : List Byte) (b : Byte) (bs : List Byte)
      → ends_line c (front ++ b ∷ bs) ≡ ends_line c (b ∷ bs)
  unfolding ends_line
  ends_line-append [] b bs = refl
  ends_line-append (a ∷ []) b bs = refl
  ends_line-append (a ∷ d ∷ front) b bs = ends_line-append (d ∷ front) b bs

  ends_line-torn :
      (a b : Byte) (torn : List Byte)
      → any is_newline (b ∷ torn) ≡ false
      → ends_line c (a ∷ b ∷ torn) ≡ false
  unfolding ends_line
  ends_line-torn a b [] h = ground (arith, Bool-cases (is_newline b))
  ends_line-torn a b (d ∷ torn) h =
      ends_line-torn b d torn (ground (arith, Bool-cases (is_newline b)))

  pub last_newline-none :
      (torn : List Byte) → any is_newline torn ≡ false → last_newline c torn ≡ none
  unfolding last_newline
  last_newline-none [] h = refl
  last_newline-none (b ∷ torn) h = elim (Bool-cases (is_newline b)) [
    | inl e ↦ absurd (ground (arith, e))
    | inr e ↦ rw (last_newline-none torn (rw e at h), e) refl
  ]

  last_newline-append :
      (front torn : List Byte)
      → any is_newline torn ≡ false
      → last_newline c (front ++ newline ∷ torn) ≡ some (length front)
  unfolding last_newline
  last_newline-append [] torn h = rw (last_newline-none torn h, c.is_newline-newline) refl
  last_newline-append (b ∷ front) torn h = rw (last_newline-append front torn h) refl

  truncate-append :
      (front torn : List Byte)
      → truncate c (suc (length front)) (front ++ newline ∷ torn) ≡ front ++ newline ∷ []
  truncate-append [] [] = refl
  truncate-append [] (b ∷ torn) = refl
  truncate-append (b ∷ front) torn = ap (λ bs. b ∷ bs) (truncate-append front torn)

  -- Repair cuts off what follows the last newline.
  repair-torn :
      (front torn : List Byte)
      → any is_newline torn ≡ false
      → repair c (front ++ newline ∷ torn) ≡ ok (front ++ newline ∷ [])
  unfolding repair ends_line
  repair-torn front [] h = rw (ends_line-append front newline [], c.is_newline-newline) refl
  repair-torn front (b ∷ torn) h =
      rw
        (
          ends_line-append front newline (b ∷ torn),
          ends_line-torn newline b torn h,
          last_newline-append front (b ∷ torn) h,
          truncate-append front (b ∷ torn),
        )
        refl

  -- The last newline of a file.
  file_of-last :
      (l : List Byte) (ls : List (List Byte))
      → (front : List Byte) × ((torn : List Byte)
          → file_of (l ∷ ls) ++ torn ≡ front ++ newline ∷ torn)
  file_of-last l [] = (l, λ torn. append_assoc l (newline ∷ []) torn)
  file_of-last l (m ∷ ls) =
      let (front, same) = file_of-last m ls in
      (
        l ++ newline ∷ front,
        λ torn.
            append_assoc l (newline ∷ file_of (m ∷ ls)) torn
            ∙ ap (λ r. l ++ newline ∷ r) (same torn)
            ∙ sym (append_assoc l (newline ∷ front) (newline ∷ torn)),
      )

  pub repair-file_of :
      (l : List Byte) (ls : List (List Byte)) (torn : List Byte)
      → any is_newline torn ≡ false
      → repair c (file_of (l ∷ ls) ++ torn) ≡ ok (file_of (l ∷ ls))
  repair-file_of l ls torn h =
      let (front, same) = file_of-last l ls in
      ap (repair c) (same torn)
      ∙ repair-torn front torn h
      ∙ ap ok (sym (same []) ∙ append-nil (file_of (l ∷ ls)))

  truncate-line :
      (n : ℕ) (l rest : List Byte)
      → (truncate c n (l ++ newline ∷ rest) ≡ truncate c n l) × (n ≤ length l)
        ⊎ ((m : ℕ) × (truncate c n (l ++ newline ∷ rest) ≡ l ++ newline ∷ truncate c m rest))
  truncate-line zero [] rest = inl (refl, omega arith)
  truncate-line zero (b ∷ l) rest = inl (refl, omega arith)
  truncate-line (suc n) [] rest = inr (n, refl)
  truncate-line (suc n) (b ∷ l) rest = elim (truncate-line n l rest) [
    | inl (e, fit) ↦ inl (ap (λ r. b ∷ r) e, omega (arith, fit))
    | inr (m, e) ↦ inr (m, ap (λ r. b ∷ r) e)
  ]

  any-truncate :
      (n : ℕ) (l : List Byte) → any is_newline l ≡ false → any is_newline (truncate c n l) ≡ false
  any-truncate n [] h = refl
  any-truncate zero (b ∷ l) h = refl
  any-truncate (suc n) (b ∷ l) h = ground (arith, any-truncate n l)

  -- The first bytes of a file are whole lines and the beginning of another.
  pub truncate-file_of :
      (n : ℕ) (ls : List (List Byte))
      → All IsLine ls
      → (ms ns : List (List Byte)) × (torn : List Byte) × (ls ≡ ms ++ ns)
        × (any is_newline torn ≡ false)
        × (truncate c n (file_of ls) ≡ file_of ms ++ torn)
  truncate-file_of n [] h = ([], [], [], refl, refl, refl)
  truncate-file_of n (l ∷ ls) h = elim (truncate-line n l (file_of ls)) [
    | inl (e, _) ↦ ([], l ∷ ls, truncate c n l, refl, any-truncate n l h.0.0, e)
    | inr (m, e) ↦
        let (ms, ns, torn, split, bare, same) = truncate-file_of m ls h.1 in
        (
          l ∷ ms,
          ns,
          torn,
          ap (λ r. l ∷ r) split,
          bare,
          e ∙ ap (λ r. l ++ newline ∷ r) same ∙ sym (append_assoc l (newline ∷ file_of ms) torn),
        )
  ]
