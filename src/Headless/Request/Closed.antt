-- ===== src/Headless/Request/Closed.antt =====
-- How a request of crates/latte-headless/src/session.rs is refused: a prompt that does not fit takes
-- the history with it, and a request above the budget is not sent.
use latte_code.Base.{
  ℕ, zero, suc, ◌≤◌, ◌≡◌, ◌↔◌, refl, sym, ap, ◌∙◌, inl, inr, String, true, false, List, [], ◌∷◌,
  ◌++◌, Result, ok, All, any, count, leb, length, nat_eq, arith, Bool-cases, >>=-eq-ok,
}
use latte_code.Headless.Policy.{SessionHistoryPolicy, budget}
use latte_code.Headless.Request.{
  FitEntry, FitSelection, Slot, slot, kept_messages, dropped, reversed, admit, select, is_optional,
  wire_bytes, fit_core, fit_tails, fit_slots, fit_request, of_kind, is_history, is_prompt,
  prompt_entry, enforce_budget,
}
use latte_code.Headless.Request.Slots.{entries_of, NewestKept, AllCore}
use latte_code.Headless.Request.Fit.{fit_slots-IsFit, Within}

module _ {Message : Type 0} (prompt : List Message) where
  -- Where the whole core is kept, so is the prompt that ends it.
  AllCore-prompt :
      (ss : List (Slot Message)) (es : List (FitEntry Message))
      → entries_of ss ≡ es ++ prompt_entry prompt ∷ []
      → AllCore ss
      → any (of_kind is_prompt) ss ≡ true
  AllCore-prompt [] [] h a = cc
  AllCore-prompt [] (e ∷ es) h a = cc
  AllCore-prompt (s ∷ ss) [] h a =
      let same : s.entry ≡ prompt_entry prompt = ground arith in ground (arith, a.0)
  AllCore-prompt (s ∷ ss) (e ∷ es) h a = ground (arith, AllCore-prompt ss es (ground arith) a.1)

  dropped-history :
      (ss : List (Slot Message)) (es : List (FitEntry Message))
      → entries_of ss ≡ es ++ prompt_entry prompt ∷ []
      → All (λ (e : FitEntry Message). is_history e.kind ≡ true → e.mandatory ≡ true) es
      → NewestKept ss
      → any (of_kind is_prompt) ss ≡ false
      → count (of_kind is_history) ss ≡ 0
  dropped-history [] es h c v n = refl
  dropped-history (s ∷ []) [] h c v n =
      let same : s.entry ≡ prompt_entry prompt = ground arith in ground (arith)
  dropped-history (s ∷ t ∷ ss) [] h c v n = cc
  dropped-history (s ∷ ss) (e ∷ es) h c v n =
      let same : s.entry ≡ e = ground arith in
      let rest : entries_of ss ≡ es ++ prompt_entry prompt ∷ [] = ground arith in
      let below = dropped-history ss es rest c.1 v.1 (ground arith) in
      elim (Bool-cases (of_kind is_history s)) [
        | inl q ↦
            let core : s.entry.mandatory ≡ true = ground (arith, c.0) in
            let found = AllCore-prompt ss es rest (v.0 core (ground arith)) in absurd (ground arith)
        | inr q ↦ rw q below
      ]

module _ (P : Type 0) {Message : Type 0} (to_vec : List Message → Result (List ℕ) String) where
  -- A request fails closed: where the prompt that ends the entries is not kept, no history is kept
  -- either, so that a window never goes out with history and without its prompt.
  pub prompt_closed :
      (system : Message) (entries : List (FitEntry Message)) (prompt : List Message) (limit : ℕ)
      {sel : FitSelection Message}
      → All (λ (e : FitEntry Message). is_history e.kind ≡ true → e.mandatory ≡ true) entries
      → fit_request {P = P} to_vec system (entries ++ prompt_entry prompt ∷ []) limit ≡ ok sel
      → sel.prompt_kept ≡ false
      → sel.history_kept ≡ 0
  unfolding fit_request
  prompt_closed system entries prompt limit {sel} c h n =
      let (slots, f, k) =
        >>=-eq-ok (fit_slots {P = P} to_vec system (entries ++ prompt_entry prompt ∷ []) limit) _
          h in
      let (same, newest, tails, within) =
        fit_slots-IsFit P to_vec system limit (entries ++ prompt_entry prompt ∷ []) {slots = slots}
          f in
      let selected : select slots ≡ sel = ground arith in
      let missing : any (of_kind is_prompt) slots ≡ false =
        ap (λ (s : FitSelection Message). s.prompt_kept) selected ∙ n in
      sym (ap (λ (s : FitSelection Message). s.history_kept) selected)
      ∙ dropped-history prompt slots entries same c newest missing

  -- Where every message list can be encoded, the fit gives a selection, and its messages are within
  -- the budget with the system message, or none.
  pub fit_request_total :
      (system : Message) (entries : List (FitEntry Message)) (limit : ℕ)
      → ((ms : List Message) → (bytes : List ℕ) × (to_vec ms ≡ ok bytes))
      → (sel : FitSelection Message) × (fit_request {P = P} to_vec system entries limit ≡ ok sel)
        × Within P to_vec system limit sel.messages
  unfolding fit_request fit_slots fit_core fit_tails wire_bytes
  fit_request_total system entries limit encodes =
      let (core, c) = core_total (reversed entries []) [] in
      let (k, t) = tails_total core (count is_optional core) in
      let f : fit_slots {P = P} to_vec system entries limit ≡ ok (admit k core) = rw (c, t) in
      (
        select (admit k core),
        rw f,
        (fit_slots-IsFit P to_vec system limit entries {slots = admit k core} f).3,
      )
    where
      wire_total : (ms : List Message) → (n : ℕ) × (wire_bytes {P = P} to_vec ms ≡ ok n)
      wire_total ms = let (bytes, e) = encodes ms in (length bytes, rw e)

      core_total :
          (rev : List (FitEntry Message)) (newer : List (Slot Message))
          → (slots : List (Slot Message)) × (fit_core {P = P} to_vec system limit rev newer
              ≡ ok slots)
      core_total [] newer = (newer, refl)
      core_total (e ∷ older) newer = elim (Bool-cases e.mandatory) [
        | inl m ↦
            let (n, f) = wire_total (system ∷ kept_messages (slot e true ∷ newer)) in
            elim (Bool-cases (leb n limit)) [
              | inl q ↦
                  let (slots, k) = core_total older (slot e true ∷ newer) in
                  (slots, ground (arith, m, f, q, k))
              | inr q ↦ (dropped (e ∷ older) newer, ground (arith, m, f, q))
            ]
        | inr m ↦
            let (slots, k) = core_total older (slot e false ∷ newer) in
            (slots, ground (arith, m, k))
      ]

      tails_total :
          (core : List (Slot Message)) (n : ℕ)
          → (k : ℕ) × (fit_tails {P = P} to_vec system limit core n ≡ ok k)
      tails_total core zero = (0, refl)
      tails_total core (suc n) =
          let (b, f) = wire_total (system ∷ kept_messages (admit (suc n) core)) in
          elim (Bool-cases (leb b limit)) [
            | inl q ↦ (suc n, ground (arith, f, q))
            | inr q ↦ let (k, d) = tails_total core n in (k, ground (arith, f, q, d))
          ]

  -- A request is sent exactly when it is encoded within the budget of the policy, and then unchanged.
  pub enforce_budget_iff :
      (describe : ℕ → String) (ms out : List Message) (policy : SessionHistoryPolicy)
      → (enforce_budget {P = P} to_vec describe ms policy ≡ ok out) ↔ (
          (out ≡ ms)
          × ((n : ℕ) × (limit : ℕ) × (wire_bytes {P = P} to_vec ms ≡ ok n)
              × (budget {P = P} policy ≡ ok limit)
              × (n ≤ limit)))
  unfolding enforce_budget
  enforce_budget_iff describe ms out policy = (
    λ h.
        let (n, f, k) = >>=-eq-ok (wire_bytes {P = P} to_vec ms) _ h in
        let (limit, b, r) = >>=-eq-ok (budget {P = P} policy) _ k in
        (ground arith, (n, limit, f, b, ground arith)),
    λ w. let (e, (n, limit, f, b, l)) = w in ground (arith, f, b),
  )
