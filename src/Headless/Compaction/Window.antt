-- ===== src/Headless/Compaction/Window.antt =====
-- The window that the fit of crates/latte-headless/src/session.rs selects for a turn is the request that
-- is assembled from what it kept.
use latte_code.Base.{
  ℕ, ◌-◌, ◌≤◌, ◌≡◌, sym, ap, ◌∙◌, subst, inl, inr, String, Bool, true, ◌||◌, none, some, List, [],
  ◌∷◌, ◌++◌, map, Result, ok, >>=-eq-ok, length, count, any, append_assoc, arith, nat_eq,
}
use latte_code.Headless.Request.{
  FitEntry, FitSelection, Slot, history_entry, prompt_entry, repository_tail, kept_messages, select,
  of_kind, is_history, is_prompt, is_repository, is_reminder, VolatileTurnContext,
  volatile_messages, fit_entries, entry_of, filtered, fit_request, fit_slots,
}
use latte_code.Headless.Request.Slots.{entries_of, NewestKept}
use latte_code.Headless.Request.Fit.{fit_slots-IsFit, FitsIn}
use latte_code.Headless.Request.Assembly.{HistorySegment, segment_messages, assemble_request}
use latte_code.Headless.Compaction.{drop}
use latte_code.Headless.Compaction.Runs.{
  kept-append, any-append, count-append, parts, IsRepository, IsReminder, IsPromptOf,
  IsRepository-slots, IsReminder-slots, IsPromptOf-slots,
}
use latte_code.Headless.Compaction.Kept.{
  history_entries, IsHistory, IsHistory-slots, NewestKept-front,
}

module _ {Message : Type 0} where
  -- The entries of a turn: its history, the volatile tails, and the prompt.
  abbrev pub turn_entries :
      List (HistorySegment Message)
      → VolatileTurnContext Message
      → List Message
      → List (FitEntry Message)
  turn_entries history volatile prompt =
      map (λ s. history_entry s.messages) history
      ++ (fit_entries volatile ++ prompt_entry prompt ∷ [])

  -- The messages of a selection, from what it counts as kept.
  abbrev pub turn_window :
      List (HistorySegment Message)
      → VolatileTurnContext Message
      → List Message
      → FitSelection Message
      → List Message
  turn_window history volatile prompt sel =
      segment_messages (drop (length history - sel.history_kept) history)
      ++ (volatile_messages (filtered volatile sel.repository_kept sel.reminder_kept) ++ prompt)

  any-runs :
      (p : Slot Message → Bool) (h r m q : List (Slot Message))
      → any p (h ++ ((r ++ m) ++ q)) ≡ (any p h || ((any p r || any p m) || any p q))
  any-runs p h r m q =
      ground (arith, any-append p h ((r ++ m) ++ q), any-append p (r ++ m) q, any-append p r m)

  kept-runs :
      (h r m q : List (Slot Message))
      → kept_messages (h ++ ((r ++ m) ++ q))
        ≡ kept_messages h ++ (kept_messages r ++ kept_messages m) ++ kept_messages q
  kept-runs h r m q =
      kept-append h ((r ++ m) ++ q)
      ∙ ap (λ ms. kept_messages h ++ ms)
          (kept-append (r ++ m) q ∙ ap (λ ms. ms ++ kept_messages q) (kept-append r m))
      ∙ sym (append_assoc (kept_messages h) (kept_messages r ++ kept_messages m) (kept_messages q))

  runs-window :
      (history : List (HistorySegment Message)) (volatile : VolatileTurnContext Message)
      (prompt : List Message) (h r m q : List (Slot Message))
      → IsHistory history h
      → IsRepository volatile.repository r
      → IsReminder volatile.reminder m
      → IsPromptOf prompt q
      → let ss = h ++ ((r ++ m) ++ q) in
        (kept_messages ss ≡ turn_window history volatile prompt (select ss))
        × ((select ss).history_kept ≤ length history)
  runs-window history volatile prompt h r m q hh hr hm hq =
      let repository : any (of_kind is_repository) (h ++ ((r ++ m) ++ q))
          ≡ any (of_kind is_repository) r =
        ground (arith, any-runs (of_kind is_repository) h r m q, hh.no_repository, hm.1, hq.1) in
      let reminder : any (of_kind is_reminder) (h ++ ((r ++ m) ++ q))
          ≡ any (of_kind is_reminder) m =
        ground (arith, any-runs (of_kind is_reminder) h r m q, hh.no_reminder, hr.1, hq.2) in
      let counted : count (of_kind is_history) (h ++ ((r ++ m) ++ q))
          ≡ count (of_kind is_history) h =
        omega (
          arith,
          count-append (of_kind is_history) h ((r ++ m) ++ q),
          count-append (of_kind is_history) (r ++ m) q,
          count-append (of_kind is_history) r m,
          hr.3,
          hm.3,
          hq.3,
        ) in
      (
        rw (repository, reminder, counted, kept-runs h r m q, hh.kept_suffix, hr.0, hm.0, hq.0)
            (append_assoc _ _ prompt),
        omega (arith, counted, hh.at_most),
      )

  select-window :
      (history : List (HistorySegment Message)) (volatile : VolatileTurnContext Message)
      (prompt : List Message) (ss : List (Slot Message))
      → entries_of ss ≡ turn_entries history volatile prompt
      → NewestKept ss
      → (select ss).prompt_kept ≡ true
      → (kept_messages ss ≡ turn_window history volatile prompt (select ss))
        × ((select ss).history_kept ≤ length history)
  select-window history volatile prompt ss e n k =
      let one = parts ss (history_entries history) _ e in
      let two = parts one.back (fit_entries volatile) _ one.second in
      let three = parts two.front (entry_of repository_tail volatile.repository) _ two.first in
      let h = one.front in
      let r = three.front in
      let m = three.back in
      let q = two.back in
      let whole : ss ≡ h ++ ((r ++ m) ++ q) =
        one.whole ∙ ap (λ l. h ++ l) (two.whole ∙ ap (λ l. l ++ q) three.whole) in
      let hh =
        IsHistory-slots history h one.first
          (NewestKept-front h one.back (subst NewestKept one.whole n)) in
      let hr = IsRepository-slots volatile.repository r three.first in
      let hm = IsReminder-slots volatile.reminder m three.second in
      let kept : any (of_kind is_prompt) q ≡ true = ground (
        arith,
        any-runs (of_kind is_prompt) h r m q,
        ap (any (of_kind is_prompt)) whole,
        k,
        hh.no_prompt,
        hr.2,
        hm.2,
      ) in
      let hq = IsPromptOf-slots prompt q two.second kept in
      subst
        (λ l.
          (kept_messages l ≡ turn_window history volatile prompt (select l))
          × ((select l).history_kept ≤ length history))
        (sym whole) (runs-window history volatile prompt h r m q hh hr hm hq)

not_empty {ℓ} : {A : Type ℓ} (xs ys : List A) (z : A) → xs ++ (ys ++ z ∷ []) ≡ [] → ⊥
not_empty [] [] z h = cc
not_empty [] (y ∷ ys) z h = cc
not_empty (x ∷ xs) ys z h = cc

module _ (P : Type 0) {Message : Type 0} (to_vec : List Message → Result (List ℕ) String)
    (wrap_summary : String → Message) where
  -- Where the fit of a turn keeps the prompt, the plain request that is assembled from what it kept is
  -- exactly the window that it measured, and so is within the budget.
  pub fit-assemble :
      (system : Message) (history : List (HistorySegment Message))
      (volatile : VolatileTurnContext Message) (prompt : Message) (limit : ℕ)
      {sel : FitSelection Message}
      → fit_request {P = P} to_vec system (turn_entries history volatile (prompt ∷ [])) limit
        ≡ ok sel
      → sel.prompt_kept ≡ true
      → (assemble_request wrap_summary system none
            (drop (length history - sel.history_kept) history)
            (filtered volatile sel.repository_kept sel.reminder_kept)
            (some prompt)
          ≡ system ∷ sel.messages)
        × (sel.history_kept ≤ length history)
        × FitsIn P to_vec system limit sel.messages
  unfolding fit_request assemble_request
  fit-assemble system history volatile prompt limit {sel} h k =
      let entries = turn_entries history volatile (prompt ∷ []) in
      let (slots, f, out) = >>=-eq-ok (fit_slots {P = P} to_vec system entries limit) _ h in
      let (same, newest, tails, within) =
        fit_slots-IsFit P to_vec system limit entries {slots = slots} f in
      let selected : select slots ≡ sel = ground arith in
      let (window, at_most) =
        select-window history volatile (prompt ∷ []) slots same newest
          (ap (λ s. s.prompt_kept) selected ∙ k) in
      subst
        (λ s.
          (assemble_request wrap_summary system none
              (drop (length history - s.history_kept) history)
              (filtered volatile s.repository_kept s.reminder_kept) (some prompt)
            ≡ system ∷ s.messages)
          × (s.history_kept ≤ length history)
          × FitsIn P to_vec system limit s.messages)
        selected
        (
          ap (λ ms. system ∷ ms) (sym window),
          at_most,
          elim within [
            | inl empty ↦ absurd (not_empty _ _ prompt (sym window ∙ empty))
            | inr fits ↦ fits
          ],
        )
