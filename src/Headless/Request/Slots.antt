-- ===== src/Headless/Request/Slots.antt =====
-- The arrays of the two-phase fit of crates/latte-headless/src/session.rs: entries dropped, tails
-- admitted, and the shape that both keep.
use latte_code.Base.{
  ℕ, ◌-◌, ◌≡◌, refl, inl, inr, true, false, List, [], ◌∷◌, map, All, nat_eq, arith, Bool-cases,
}
use latte_code.Headless.Request.{FitEntry, Slot, slot, kept_messages, dropped, reversed, admit}

module _ {Message : Type 0} where
  -- The slots are those of the entries, in order.
  abbrev pub entries_of : List (Slot Message) → List (FitEntry Message)
  entries_of = map λ s. s.entry

  -- An entry of the core is kept only with every newer one.
  abbrev pub NewestKept : List (Slot Message) → Type 0
  NewestKept [] = Unit
  NewestKept (s ∷ ss) =
      (s.entry.mandatory ≡ true
        → s.kept ≡ true
        → All (λ (t : Slot Message). t.entry.mandatory ≡ true → t.kept ≡ true) ss)
      × NewestKept ss

  -- A tail is kept only with every tail before it.
  abbrev pub TailsPrefix : List (Slot Message) → Type 0
  TailsPrefix [] = Unit
  TailsPrefix (s ∷ ss) =
      (s.entry.mandatory ≡ false
        → s.kept ≡ false
        → All (λ (t : Slot Message). t.entry.mandatory ≡ false → t.kept ≡ false) ss)
      × TailsPrefix ss

  -- The tails are not kept.
  abbrev pub NoTails : List (Slot Message) → Type 0
  NoTails = All λ (t : Slot Message). t.entry.mandatory ≡ false → t.kept ≡ false

  abbrev pub AllCore : List (Slot Message) → Type 0
  AllCore = All λ (t : Slot Message). t.entry.mandatory ≡ true → t.kept ≡ true

  pub NewestKept-dropped :
      (older : List (FitEntry Message)) (newer : List (Slot Message))
      → NewestKept newer
      → NewestKept (dropped older newer)
  unfolding dropped
  NewestKept-dropped [] newer v = v
  NewestKept-dropped (e ∷ older) newer v =
      NewestKept-dropped older (slot e false ∷ newer) (λ m k. cc, v)

  pub NoTails-dropped :
      (older : List (FitEntry Message)) (newer : List (Slot Message))
      → NoTails newer
      → NoTails (dropped older newer)
  unfolding dropped
  NoTails-dropped [] newer v = v
  NoTails-dropped (e ∷ older) newer v = NoTails-dropped older (slot e false ∷ newer) (λ m. refl, v)

  pub entries-dropped :
      (older : List (FitEntry Message)) (newer : List (Slot Message))
      → entries_of (dropped older newer) ≡ reversed older (entries_of newer)
  unfolding dropped reversed
  entries-dropped [] newer = refl
  entries-dropped (e ∷ older) newer = entries-dropped older (slot e false ∷ newer)

  pub kept-dropped :
      (older : List (FitEntry Message)) (newer : List (Slot Message))
      → kept_messages (dropped older newer) ≡ kept_messages newer
  unfolding dropped kept_messages
  kept-dropped [] newer = refl
  kept-dropped (e ∷ older) newer = kept-dropped older (slot e false ∷ newer)

  -- Admitting tails changes neither the core nor the entries, and admits a prefix.
  pub AllCore-admit : (n : ℕ) (ss : List (Slot Message)) → AllCore ss → AllCore (admit n ss)
  unfolding admit
  AllCore-admit n [] v = tt
  AllCore-admit n (s ∷ ss) v = elim (Bool-cases s.entry.mandatory) [
    | inl m ↦ rw m (λ k. v.0 m, AllCore-admit n ss v.1)
    | inr m ↦ rw m (λ k. ground arith, AllCore-admit (n - 1) ss v.1)
  ]

  pub NewestKept-admit :
      (n : ℕ) (ss : List (Slot Message)) → NewestKept ss → NewestKept (admit n ss)
  unfolding admit
  NewestKept-admit n [] v = tt
  NewestKept-admit n (s ∷ ss) v = elim (Bool-cases s.entry.mandatory) [
    | inl m ↦ rw m (λ a k. AllCore-admit n ss (v.0 m k), NewestKept-admit n ss v.1)
    | inr m ↦ rw m (λ a k. absurd (ground arith), NewestKept-admit (n - 1) ss v.1)
  ]

  pub NoTails-admit : (ss : List (Slot Message)) → NoTails (admit 0 ss)
  unfolding admit
  NoTails-admit [] = tt
  NoTails-admit (s ∷ ss) = elim (Bool-cases s.entry.mandatory) [
    | inl m ↦ rw m (λ k. absurd (ground arith), NoTails-admit ss)
    | inr m ↦ rw m (λ k. refl, NoTails-admit ss)
  ]

  pub TailsPrefix-admit : (n : ℕ) (ss : List (Slot Message)) → TailsPrefix (admit n ss)
  unfolding admit
  TailsPrefix-admit n [] = tt
  TailsPrefix-admit n (s ∷ ss) = elim (Bool-cases s.entry.mandatory) [
    | inl m ↦ rw m (λ a k. absurd (ground arith), TailsPrefix-admit n ss)
    | inr m ↦ rw m (
      λ a k. let end : n ≡ 0 = ground arith in rw end (NoTails-admit ss),
      TailsPrefix-admit (n - 1) ss,
    )
  ]

  pub entries-admit : (n : ℕ) (ss : List (Slot Message)) → entries_of (admit n ss) ≡ entries_of ss
  unfolding admit
  entries-admit n [] = refl
  entries-admit n (s ∷ ss) = elim (Bool-cases s.entry.mandatory) [
    | inl m ↦ ground (arith, m, entries-admit n ss)
    | inr m ↦ ground (arith, m, entries-admit (n - 1) ss)
  ]

  -- Without tails, admitting none changes nothing that is sent.
  pub kept-admit :
      (ss : List (Slot Message)) → NoTails ss → kept_messages (admit 0 ss) ≡ kept_messages ss
  unfolding admit kept_messages
  kept-admit [] v = refl
  kept-admit (s ∷ ss) v = elim (Bool-cases s.entry.mandatory) [
    | inl m ↦ ground (arith, m, kept-admit ss v.1)
    | inr m ↦ ground (arith, m, v.0 m, kept-admit ss v.1)
  ]
