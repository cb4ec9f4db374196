-- ===== src/Headless/Compaction/Runs.antt =====
-- The slots of the runs of entries that a turn of crates/latte-headless/src/session.rs fits: the volatile
-- tails and the prompt.
use latte_code.Base.{
  ◌+◌, ◌≡◌, refl, sym, ap, ◌∙◌, subst, inl, inr, Bool, true, false, ◌||◌, Option, none, some, List,
  [], ◌∷◌, ◌++◌, count, any, append_assoc, append-nil, Bool-cases, arith, nat_eq,
}
use latte_code.Headless.Request.{
  FitEntry, Slot, slot, prompt_entry, volatile_entry, repository_tail, reminder_tail, kept_messages,
  of_kind, is_history, is_prompt, is_repository, is_reminder, listed, entry_of, filter_option,
}
use latte_code.Headless.Request.Slots.{entries_of}

module _ {Message : Type 0} where
  pub kept-append :
      (xs ys : List (Slot Message))
      → kept_messages (xs ++ ys) ≡ kept_messages xs ++ kept_messages ys
  unfolding kept_messages
  kept-append [] ys = refl
  kept-append (x ∷ xs) ys = elim (Bool-cases x.kept) [
    | inl q ↦ rw q (
        ap (λ ms. x.entry.messages ++ ms) (kept-append xs ys)
        ∙ sym (append_assoc x.entry.messages (kept_messages xs) (kept_messages ys)))
    | inr q ↦ rw q (kept-append xs ys)
  ]

  pub any-append :
      (p : Slot Message → Bool) (xs ys : List (Slot Message))
      → any p (xs ++ ys) ≡ (any p xs || any p ys)
  any-append p [] ys = refl
  any-append p (x ∷ xs) ys = ground (arith, any-append p xs ys)

  pub count-append :
      (p : Slot Message → Bool) (xs ys : List (Slot Message))
      → count p (xs ++ ys) ≡ count p xs + count p ys
  count-append p [] ys = omega arith
  count-append p (x ∷ xs) ys = ground (arith, count-append p xs ys)

  -- The slots of two runs of entries.
  pub record Parts (ss : List (Slot Message)) (xs ys : List (FitEntry Message)) : Type 0 where
    pub front : List (Slot Message)
    pub back : List (Slot Message)
    pub whole : ss ≡ front ++ back
    pub first : entries_of front ≡ xs
    pub second : entries_of back ≡ ys

  pub parts :
      (ss : List (Slot Message)) (xs ys : List (FitEntry Message))
      → entries_of ss ≡ xs ++ ys
      → Parts ss xs ys
  parts ss [] ys e = record { front = []; back = ss; whole = refl; first = refl; second = e }
  parts [] (x ∷ xs) ys e = cc
  parts (s ∷ ss) (x ∷ xs) ys e =
      let p = parts ss xs ys (ground arith) in
      record {
        front = s ∷ p.front;
        back = p.back;
        whole = ap (λ l. s ∷ l) p.whole;
        first =
            let same : s.entry ≡ x = ground arith in
            ap (λ l. s.entry ∷ l) p.first ∙ ap (λ y. y ∷ xs) same;
        second = p.second;
      }

  abbrev pub IsRepository : Option Message → List (Slot Message) → Type 0
  IsRepository o ss =
      (kept_messages ss ≡ listed (filter_option (any (of_kind is_repository) ss) o))
      × (any (of_kind is_reminder) ss ≡ false)
      × (any (of_kind is_prompt) ss ≡ false)
      × (count (of_kind is_history) ss ≡ 0)

  abbrev pub IsReminder : Option Message → List (Slot Message) → Type 0
  IsReminder o ss =
      (kept_messages ss ≡ listed (filter_option (any (of_kind is_reminder) ss) o))
      × (any (of_kind is_repository) ss ≡ false)
      × (any (of_kind is_prompt) ss ≡ false)
      × (count (of_kind is_history) ss ≡ 0)

  IsRepository-slot :
      (m : Message) (k : Bool)
      → IsRepository (some m) (slot (volatile_entry repository_tail (m ∷ [])) k ∷ [])
  unfolding kept_messages
  IsRepository-slot m true = (refl, refl, refl, refl)
  IsRepository-slot m false = (refl, refl, refl, refl)

  IsReminder-slot :
      (m : Message) (k : Bool)
      → IsReminder (some m) (slot (volatile_entry reminder_tail (m ∷ [])) k ∷ [])
  unfolding kept_messages
  IsReminder-slot m true = (refl, refl, refl, refl)
  IsReminder-slot m false = (refl, refl, refl, refl)

  pub IsRepository-slots :
      (o : Option Message) (ss : List (Slot Message))
      → entries_of ss ≡ entry_of repository_tail o
      → IsRepository o ss
  unfolding kept_messages
  IsRepository-slots none [] e = (refl, refl, refl, refl)
  IsRepository-slots none (s ∷ ss) e = cc
  IsRepository-slots (some m) [] e = cc
  IsRepository-slots (some m) (s ∷ []) e =
      let same : s.entry ≡ volatile_entry repository_tail (m ∷ []) = ground arith in
      subst (λ en. IsRepository (some m) (slot en s.kept ∷ [])) (sym same)
        (IsRepository-slot m s.kept)
  IsRepository-slots (some m) (s ∷ t ∷ ss) e = cc

  pub IsReminder-slots :
      (o : Option Message) (ss : List (Slot Message))
      → entries_of ss ≡ entry_of reminder_tail o
      → IsReminder o ss
  unfolding kept_messages
  IsReminder-slots none [] e = (refl, refl, refl, refl)
  IsReminder-slots none (s ∷ ss) e = cc
  IsReminder-slots (some m) [] e = cc
  IsReminder-slots (some m) (s ∷ []) e =
      let same : s.entry ≡ volatile_entry reminder_tail (m ∷ []) = ground arith in
      subst (λ en. IsReminder (some m) (slot en s.kept ∷ [])) (sym same) (IsReminder-slot m s.kept)
  IsReminder-slots (some m) (s ∷ t ∷ ss) e = cc

  -- The prompt's slot, where it is kept.
  abbrev pub IsPromptOf : List Message → List (Slot Message) → Type 0
  IsPromptOf prompt ss =
      (kept_messages ss ≡ prompt)
      × (any (of_kind is_repository) ss ≡ false)
      × (any (of_kind is_reminder) ss ≡ false)
      × (count (of_kind is_history) ss ≡ 0)

  IsPromptOf-slot :
      (prompt : List Message) (k : Bool)
      → any (of_kind is_prompt) (slot (prompt_entry prompt) k ∷ []) ≡ true
      → IsPromptOf prompt (slot (prompt_entry prompt) k ∷ [])
  unfolding kept_messages
  IsPromptOf-slot prompt true h = (append-nil prompt, refl, refl, refl)
  IsPromptOf-slot prompt false h = cc

  pub IsPromptOf-slots :
      (prompt : List Message) (ss : List (Slot Message))
      → entries_of ss ≡ prompt_entry prompt ∷ []
      → any (of_kind is_prompt) ss ≡ true
      → IsPromptOf prompt ss
  IsPromptOf-slots prompt [] e k = cc
  IsPromptOf-slots prompt (s ∷ []) e k =
      let same : s.entry ≡ prompt_entry prompt = ground arith in
      subst
        (λ en.
          any (of_kind is_prompt) (slot en s.kept ∷ []) ≡ true
          → IsPromptOf prompt (slot en s.kept ∷ []))
        (sym same) (IsPromptOf-slot prompt s.kept) k
  IsPromptOf-slots prompt (s ∷ t ∷ ss) e k = cc
