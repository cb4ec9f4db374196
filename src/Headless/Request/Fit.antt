-- ===== src/Headless/Request/Fit.antt =====
-- What the two-phase fit of crates/latte-headless/src/session.rs keeps: a window within the budget, the
-- newest of the history, and the volatile tails as a prefix.
use latte_code.Base.{
  append-nil, ok-inj, ℕ, zero, suc, ◌≤◌, ◌≡◌, refl, subst, ◌∙◌, ◌⊎◌, inl, inr, String, true, false,
  List, [], ◌∷◌, ◌++◌, Result, ok, count, leb, nat_eq, arith, Bool-cases, if-true, if-false,
  >>=-eq-ok,
}
use latte_code.Headless.Request.{
  FitEntry, Slot, slot, kept_messages, dropped, reversed, admit, is_optional, wire_bytes, fit_core,
  fit_tails, fit_slots,
}
use latte_code.Headless.Request.Slots.{
  entries_of, NewestKept, TailsPrefix, NoTails, AllCore, NewestKept-dropped, NoTails-dropped,
  entries-dropped, kept-dropped, NewestKept-admit, TailsPrefix-admit, entries-admit, kept-admit,
}

reversed-reversed :
    {Message : Type 0} (es acc acc' : List (FitEntry Message))
    → reversed (reversed es acc) acc' ≡ reversed acc (es ++ acc')
unfolding reversed
reversed-reversed [] acc acc' = refl
reversed-reversed (e ∷ es) acc acc' = reversed-reversed es (e ∷ acc) acc'

module _ (P : Type 0) {Message : Type 0} (to_vec : List Message → Result (List ℕ) String)
    (system : Message) (limit : ℕ) where
  -- The messages fit with the system message, as encoded.
  abbrev pub FitsIn : List Message → Type 0
  FitsIn ms = (n : ℕ) × (wire_bytes {P = P} to_vec (system ∷ ms) ≡ ok n) × (n ≤ limit)

  abbrev pub Within : List Message → Type 0
  Within ms = (ms ≡ []) ⊎ FitsIn ms

  fit_core-ok :
      (rev : List (FitEntry Message)) (newer : List (Slot Message)) {slots : List (Slot Message)}
      → fit_core {P = P} to_vec system limit rev newer ≡ ok slots
      → AllCore newer
      → NewestKept newer
      → NoTails newer
      → Within (kept_messages newer)
      → NewestKept slots
        × NoTails slots
        × Within (kept_messages slots)
        × (entries_of slots ≡ reversed rev (entries_of newer))
  unfolding fit_core reversed kept_messages
  fit_core-ok [] newer {slots} h a v t w =
      let same : newer ≡ slots = ground arith in
      subst
        (λ (ss : List (Slot Message)).
          NewestKept ss
          × NoTails ss
          × Within (kept_messages ss)
          × (entries_of ss ≡ entries_of newer))
        same (v, t, w, refl)
  fit_core-ok (e ∷ older) newer {slots} h a v t w = elim (Bool-cases e.mandatory) [
    | inl m ↦
        let (n, fits, k) =
          >>=-eq-ok (wire_bytes {P = P} to_vec (system ∷ kept_messages (slot e true ∷ newer))) _
            (if-true _ m h) in
        elim (Bool-cases (leb n limit)) [
          | inl q ↦
              fit_core-ok older (slot e true ∷ newer) {slots = slots} (if-true _ q k) (λ u. refl, a)
                (λ u w. a, v) (λ u. absurd (ground arith), t) (inr (n, fits, ground arith))
          | inr q ↦
              let same : dropped (e ∷ older) newer ≡ slots = ok-inj (if-false _ q k) in
              subst
                (λ (ss : List (Slot Message)).
                  NewestKept ss
                  × NoTails ss
                  × Within (kept_messages ss)
                  × (entries_of ss ≡ reversed older (e ∷ entries_of newer)))
                same
                (
                  NewestKept-dropped (e ∷ older) newer v,
                  NoTails-dropped (e ∷ older) newer t,
                  rw (kept-dropped (e ∷ older) newer) w,
                  entries-dropped (e ∷ older) newer,
                )
        ]
    | inr m ↦
        fit_core-ok older (slot e false ∷ newer) {slots = slots} (if-false _ m h)
          (λ u. absurd (ground arith), a) (λ u w. cc, v) (λ u. refl, t) w
  ]

  fit_tails-ok :
      (core : List (Slot Message)) (n : ℕ) {k : ℕ}
      → fit_tails {P = P} to_vec system limit core n ≡ ok k
      → (k ≡ 0) ⊎ FitsIn (kept_messages (admit k core))
  unfolding fit_tails
  fit_tails-ok core zero h = inl (ground arith)
  fit_tails-ok core (suc n) {k} h =
      let (b, fits, r) =
        >>=-eq-ok (wire_bytes {P = P} to_vec (system ∷ kept_messages (admit (suc n) core))) _ h in
      elim (Bool-cases (leb b limit)) [
        | inl q ↦
            let same : suc n ≡ k = ground arith in
            inr (
              subst (λ (j : ℕ). FitsIn (kept_messages (admit j core))) same (b, fits, ground arith))
        | inr q ↦ fit_tails-ok core n {k = k} (if-false _ q r)
      ]

  -- What `fit_request` decides on entries that it fits: each entry has its place, an entry of the core
  -- is kept only with every newer one, a tail only with every tail before it, and what is sent with
  -- the system message is within the budget as it is encoded, or empty.
  pub fit_slots-IsFit :
      (entries : List (FitEntry Message)) {slots : List (Slot Message)}
      → fit_slots {P = P} to_vec system entries limit ≡ ok slots
      → (entries_of slots ≡ entries)
        × NewestKept slots
        × TailsPrefix slots
        × Within (kept_messages slots)
  unfolding fit_slots kept_messages reversed
  fit_slots-IsFit entries {slots} h =
      let (core, c, r) =
        >>=-eq-ok (fit_core {P = P} to_vec system limit (reversed entries []) []) _ h in
      let (v, t, w, e) =
        fit_core-ok (reversed entries []) [] {slots = core} c tt tt tt (inl refl) in
      let (k, d, s) =
        >>=-eq-ok (fit_tails {P = P} to_vec system limit core (count is_optional core)) _ r in
      let same : admit k core ≡ slots = ground arith in
      let all : entries_of core ≡ entries =
        e ∙ reversed-reversed entries [] [] ∙ append-nil entries in
      let bound : Within (kept_messages (admit k core)) = elim (fit_tails-ok core _ d) [
        | inl z ↦ rw (z, kept-admit core t) w
        | inr f ↦ inr f
      ] in
      subst
        (λ (ss : List (Slot Message)).
          (entries_of ss ≡ entries) × NewestKept ss × TailsPrefix ss × Within (kept_messages ss))
        same
        (entries-admit k core ∙ all, NewestKept-admit k core v, TailsPrefix-admit k core, bound)
