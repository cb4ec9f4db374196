-- ===== src/Headless/Compaction/Kept.antt =====
-- The slots of the history that a turn of crates/latte-headless/src/session.rs fits: a suffix is kept.
use latte_code.Base.{
  suc, ◌-◌, ◌≤◌, ◌≡◌, refl, sym, ap, ◌∙◌, subst, Bool, true, false, List, [], ◌∷◌, ◌++◌, map,
  length, count, any, All, arith, nat_eq,
}
use latte_code.Headless.Request.{
  FitEntry, Slot, slot, history_entry, kept_messages, of_kind, is_history, is_prompt, is_repository,
  is_reminder,
}
use latte_code.Headless.Request.Slots.{entries_of, NewestKept, AllCore}
use latte_code.Headless.Request.Assembly.{HistorySegment, segment_messages}
use latte_code.Headless.Compaction.{drop}

module _ {Message : Type 0} where
  abbrev pub history_entries : List (HistorySegment Message) → List (FitEntry Message)
  history_entries = map λ s. history_entry s.messages

  -- Of the history a suffix is kept, as many segments as the selection counts.
  pub record IsHistory (history : List (HistorySegment Message)) (ss : List (Slot Message))
      : Type 0 where
    pub kept_suffix :
        kept_messages ss
        ≡ segment_messages (drop (length history - count (of_kind is_history) ss) history)
    pub at_most : count (of_kind is_history) ss ≤ length history
    pub all_kept : AllCore ss → count (of_kind is_history) ss ≡ length history
    pub no_repository : any (of_kind is_repository) ss ≡ false
    pub no_reminder : any (of_kind is_reminder) ss ≡ false
    pub no_prompt : any (of_kind is_prompt) ss ≡ false

  IsHistory-slot :
      (h : HistorySegment Message) (history : List (HistorySegment Message)) (k : Bool)
      (ss : List (Slot Message))
      → IsHistory history ss
      → (k ≡ true → AllCore ss)
      → IsHistory (h ∷ history) (slot (history_entry h.messages) k ∷ ss)
  unfolding kept_messages segment_messages
  IsHistory-slot h history true ss ih core =
      let counted : count (of_kind is_history) ss ≡ length history = ih.all_kept (core refl) in
      let c = count (of_kind is_history) ss in
      let whole : length history - c ≡ 0 = omega (arith, counted) in
      let whole' : suc (length history) - suc c ≡ 0 = omega (arith, counted) in
      let suffix : kept_messages ss ≡ segment_messages history =
        ih.kept_suffix ∙ ap (λ n. segment_messages (drop n history)) whole in
      record {
        kept_suffix =
            ap (λ ms. h.messages ++ ms) suffix
            ∙ sym (ap (λ n. segment_messages (drop n (h ∷ history))) whole');
        at_most = omega (arith, counted);
        all_kept = λ a. omega (arith, counted);
        no_repository = ih.no_repository;
        no_reminder = ih.no_reminder;
        no_prompt = ih.no_prompt;
      }
  IsHistory-slot h history false ss ih core =
      let c = count (of_kind is_history) ss in
      let one_less : suc (length history) - c ≡ suc (length history - c) =
        omega (arith, ih.at_most) in
      record {
        kept_suffix =
            ih.kept_suffix ∙ sym (ap (λ n. segment_messages (drop n (h ∷ history))) one_less);
        at_most = omega (arith, ih.at_most);
        all_kept = λ a. cc (a.0 refl);
        no_repository = ih.no_repository;
        no_reminder = ih.no_reminder;
        no_prompt = ih.no_prompt;
      }

  pub IsHistory-slots :
      (history : List (HistorySegment Message)) (ss : List (Slot Message))
      → entries_of ss ≡ history_entries history
      → NewestKept ss
      → IsHistory history ss
  unfolding kept_messages segment_messages
  IsHistory-slots [] [] e n = record {
    kept_suffix = refl;
    at_most = omega arith;
    all_kept = λ a. refl;
    no_repository = refl;
    no_reminder = refl;
    no_prompt = refl;
  }
  IsHistory-slots [] (s ∷ ss) e n = cc
  IsHistory-slots (h ∷ history) [] e n = cc
  IsHistory-slots (h ∷ history) (s ∷ ss) e n =
      let same : s.entry ≡ history_entry h.messages = ground arith in
      let ih = IsHistory-slots history ss (ground arith) n.1 in
      let core : s.kept ≡ true → AllCore ss = λ k. n.0 (ap (λ en. en.mandatory) same) k in
      subst (λ en. IsHistory (h ∷ history) (slot en s.kept ∷ ss)) (sym same)
        (IsHistory-slot h history s.kept ss ih core)

  All-front :
      (P : Slot Message → Type 0) (xs ys : List (Slot Message)) → All P (xs ++ ys) → All P xs
  All-front P [] ys h = tt
  All-front P (x ∷ xs) ys h = (h.0, All-front P xs ys h.1)

  pub NewestKept-front : (xs ys : List (Slot Message)) → NewestKept (xs ++ ys) → NewestKept xs
  NewestKept-front [] ys h = tt
  NewestKept-front (x ∷ xs) ys h = (λ m k. All-front _ xs ys (h.0 m k), NewestKept-front xs ys h.1)
