-- ===== src/Headless/History/Denied.antt =====
-- A denied round of tool calls in crates/latte-headless/src/session.rs: each call of it has a result.
use latte_code.Base.{
  ◌≡◌, refl, sym, ap, ◌∙◌, subst, ◌⊎◌, inl, inr, String, Bool, true, false, not, some, List, [],
  ◌∷◌, ◌++◌, map, string_eq, eq_iff, any, keep, append-nil, append_assoc, All, All-mono, All-append,
  Option, Picks, Decides, keep-Picks, Bool-cases, arith,
}
use latte_code.Headless.Message.{
  ToolCall, Message, system_message, user_message, assistant_message, tool_message,
}
use latte_code.Headless.History.{
  answers, last_calls, denied_results, denied_content, append_denied_tool_results,
}

module _ {Value : Type 0} where
  -- The message is the result of a call.
  abbrev pub IsResult : String → Message Value → Type 0
  IsResult id (tool_message other name content) = other ≡ id
  IsResult id (system_message content) = ⊥
  IsResult id (user_message content) = ⊥
  IsResult id (assistant_message content calls) = ⊥

  -- The call has a result among the messages.
  abbrev pub IsAnsweredBy : List (Message Value) → ToolCall Value → Type 0
  IsAnsweredBy [] call = ⊥
  IsAnsweredBy (m ∷ ms) call = IsResult call.id m ⊎ IsAnsweredBy ms call

  abbrev pub IsOpen : List (Message Value) → ToolCall Value → Type 0
  IsOpen ms call = ¬ IsAnsweredBy ms call

  abbrev pub IsOther : Message Value → Type 0
  IsOther (assistant_message content calls) = ⊥
  IsOther (tool_message other name content) = Unit
  IsOther (system_message content) = Unit
  IsOther (user_message content) = Unit

  -- The calls of the last assistant message; none, where there is no assistant message.
  abbrev pub IsRound : List (Message Value) → List (ToolCall Value) → Type 0
  IsRound ms calls =
      (All IsOther ms × (calls ≡ []))
      ⊎ ((front tail : List (Message Value)) × (content : Option String) × (ms
            ≡ front ++ assistant_message content calls ∷ tail)
          × All IsOther tail)

  -- The result that a denied call gets.
  abbrev pub denial : ToolCall Value → Message Value
  denial call = tool_message call.id (some call.name) denied_content

  last_calls-others :
      (ms : List (Message Value)) (found : List (ToolCall Value))
      → All IsOther ms
      → last_calls ms found ≡ found
  unfolding last_calls
  last_calls-others [] found h = refl
  last_calls-others (tool_message i n c ∷ ms) found h = last_calls-others ms found h.1
  last_calls-others (system_message c ∷ ms) found h = last_calls-others ms found h.1
  last_calls-others (user_message c ∷ ms) found h = last_calls-others ms found h.1
  last_calls-others (assistant_message c cs ∷ ms) found h = absurd h.0

  last_calls-front :
      (front tail : List (Message Value)) (content : Option String)
      (calls found : List (ToolCall Value))
      → All IsOther tail
      → last_calls (front ++ assistant_message content calls ∷ tail) found ≡ calls
  unfolding last_calls
  last_calls-front [] tail content calls found h = last_calls-others tail calls h
  last_calls-front (assistant_message c cs ∷ ms) tail content calls found h =
      last_calls-front ms tail content calls cs h
  last_calls-front (tool_message i n c ∷ ms) tail content calls found h =
      last_calls-front ms tail content calls found h
  last_calls-front (system_message c ∷ ms) tail content calls found h =
      last_calls-front ms tail content calls found h
  last_calls-front (user_message c ∷ ms) tail content calls found h =
      last_calls-front ms tail content calls found h

  last_calls-IsRound :
      (ms : List (Message Value)) (calls : List (ToolCall Value))
      → IsRound ms calls
      → last_calls ms [] ≡ calls
  last_calls-IsRound ms calls (inl (others, none)) = last_calls-others ms [] others ∙ sym none
  last_calls-IsRound ms calls (inr (front, tail, content, whole, others)) =
      ap (λ t. last_calls t []) whole ∙ last_calls-front front tail content calls [] others

  answers-Decides : (id : String) → Decides (answers id) (IsResult id)
  answers-Decides id = (found, missed)
    where
      found : (m : Message Value) → answers id m ≡ true → IsResult id m
      found (tool_message other name content) h = (eq_iff other id).0 h
      found (system_message content) h = cc
      found (user_message content) h = cc
      found (assistant_message content calls) h = cc

      missed : (m : Message Value) → answers id m ≡ false → ¬ IsResult id m
      missed (tool_message other name content) h e =
          let hit = (eq_iff other id).1 e in ground (arith, h, hit)
      missed (system_message content) h e = e
      missed (user_message content) h e = e
      missed (assistant_message content calls) h e = e

  any-IsAnsweredBy :
      (ms : List (Message Value)) (call : ToolCall Value)
      → any (answers call.id) ms ≡ true
      → IsAnsweredBy ms call
  any-IsAnsweredBy [] call h = cc
  any-IsAnsweredBy (m ∷ ms) call h = elim (Bool-cases (answers call.id m)) [
    | inl q ↦ inl ((answers-Decides call.id).0 m q)
    | inr q ↦ inr (any-IsAnsweredBy ms call (ground (arith, q, h)))
  ]

  none-IsOpen :
      (ms : List (Message Value)) (call : ToolCall Value)
      → any (answers call.id) ms ≡ false
      → IsOpen ms call
  none-IsOpen [] call h bad = bad
  none-IsOpen (m ∷ ms) call h (inl bad) = (answers-Decides call.id).1 m (ground (arith, h)) bad
  none-IsOpen (m ∷ ms) call h (inr bad) = none-IsOpen ms call (ground (arith, h)) bad

  abbrev is_open : List (Message Value) → ToolCall Value → Bool
  is_open ms call = not (any (answers call.id) ms)

  IsOpen-Decides : (ms : List (Message Value)) → Decides (is_open ms) (IsOpen ms)
  IsOpen-Decides ms = (
    λ call h. none-IsOpen ms call (ground (arith, h)),
    λ call h bad. bad (any-IsAnsweredBy ms call (ground (arith, h))),
  )

  denied_results-keep :
      (segment : List (Message Value)) (calls : List (ToolCall Value))
      → denied_results segment calls ≡ map denial (keep (is_open segment) calls)
  unfolding denied_results
  denied_results-keep segment [] = refl
  denied_results-keep segment (call ∷ calls) = elim (Bool-cases (any (answers call.id) segment)) [
    | inl q ↦ rw (q, denied_results-keep segment calls) refl
    | inr q ↦ rw (q, denied_results-keep segment calls) refl
  ]

  IsAnsweredBy-left :
      (xs ys : List (Message Value)) (call : ToolCall Value)
      → IsAnsweredBy xs call
      → IsAnsweredBy (xs ++ ys) call
  IsAnsweredBy-left [] ys call h = absurd h
  IsAnsweredBy-left (x ∷ xs) ys call (inl h) = inl h
  IsAnsweredBy-left (x ∷ xs) ys call (inr h) = inr (IsAnsweredBy-left xs ys call h)

  IsAnsweredBy-right :
      (xs ys : List (Message Value)) (call : ToolCall Value)
      → IsAnsweredBy ys call
      → IsAnsweredBy (xs ++ ys) call
  IsAnsweredBy-right [] ys call h = h
  IsAnsweredBy-right (x ∷ xs) ys call h = inr (IsAnsweredBy-right xs ys call h)

  IsAnsweredBy-insert :
      (xs ys : List (Message Value)) (m : Message Value) (call : ToolCall Value)
      → IsAnsweredBy (xs ++ ys) call
      → IsAnsweredBy (xs ++ m ∷ ys) call
  IsAnsweredBy-insert [] ys m call h = inr h
  IsAnsweredBy-insert (x ∷ xs) ys m call (inl h) = inl h
  IsAnsweredBy-insert (x ∷ xs) ys m call (inr h) = inr (IsAnsweredBy-insert xs ys m call h)

  -- The denials of the open calls answer every call.
  All-IsAnsweredBy :
      (segment : List (Message Value)) (calls : List (ToolCall Value))
      → All (IsAnsweredBy (segment ++ map denial (keep (is_open segment) calls))) calls
  All-IsAnsweredBy segment [] = tt
  All-IsAnsweredBy segment (call ∷ calls) =
      let rest = map denial (keep (is_open segment) calls) in
      let answers_all = λ (cs : List (ToolCall Value)).
        All (IsAnsweredBy (segment ++ map denial cs)) (call ∷ calls) in
      elim (Bool-cases (any (answers call.id) segment)) [
        | inl q ↦
            let same : keep (is_open segment) calls ≡ keep (is_open segment) (call ∷ calls) =
              rw q refl in
            subst answers_all same (
              IsAnsweredBy-left segment rest call (any-IsAnsweredBy segment call q),
              All-IsAnsweredBy segment calls,
            )
        | inr q ↦
            let same : call ∷ keep (is_open segment) calls ≡ keep (is_open segment) (call ∷ calls) =
              rw q refl in
            subst answers_all same (
              IsAnsweredBy-right segment (denial call ∷ rest) call (inl refl),
              All-mono (IsAnsweredBy (segment ++ rest))
                  (IsAnsweredBy (segment ++ denial call ∷ rest))
                  (λ c h. IsAnsweredBy-insert segment rest (denial call) c h) calls
                  (All-IsAnsweredBy segment calls),
            )
      ]

  none_open :
      (ms : List (Message Value)) (calls : List (ToolCall Value))
      → All (IsAnsweredBy ms) calls
      → keep (is_open ms) calls ≡ []
  none_open ms [] h = refl
  none_open ms (call ∷ calls) h = elim (Bool-cases (any (answers call.id) ms)) [
    | inl q ↦ rw q (none_open ms calls h.1)
    | inr q ↦ absurd (none-IsOpen ms call q h.0)
  ]

  denials-IsOther : (calls : List (ToolCall Value)) → All IsOther (map denial calls)
  denials-IsOther [] = tt
  denials-IsOther (call ∷ calls) = (tt, denials-IsOther calls)

  -- What is added is no assistant message, so the round stays the same.
  IsRound-append :
      (ms more : List (Message Value)) (calls : List (ToolCall Value))
      → All IsOther more
      → IsRound ms calls
      → IsRound (ms ++ more) calls
  IsRound-append ms more calls h (inl (others, none)) =
      inl (All-append IsOther ms more others h, none)
  IsRound-append ms more calls h (inr (front, tail, content, whole, others)) = inr (
    front,
    tail ++ more,
    content,
    ap (λ t. t ++ more) whole ∙ append_assoc front (assistant_message content calls ∷ tail) more,
    All-append IsOther tail more others h,
  )

  -- A denied round gets exactly one denial for each call of the last assistant message that has no
  -- result in the segment, in the order of the calls, behind what the segment had; then every call of
  -- the message has a result, and a second denial adds nothing.
  pub append_denied_complete :
      (segment : List (Message Value)) (calls : List (ToolCall Value))
      → IsRound segment calls
      → ((open_calls : List (ToolCall Value)) × Picks (IsOpen segment) calls open_calls
          × (append_denied_tool_results segment ≡ segment ++ map denial open_calls))
        × All (IsAnsweredBy (append_denied_tool_results segment)) calls
        × (append_denied_tool_results (append_denied_tool_results segment)
            ≡ append_denied_tool_results segment)
  unfolding append_denied_tool_results
  append_denied_complete segment calls r =
      let open_calls = keep (is_open segment) calls in
      let out = segment ++ map denial open_calls in
      let gives : append_denied_tool_results segment ≡ out =
        ap (λ cs. segment ++ denied_results segment cs) (last_calls-IsRound segment calls r)
        ∙ ap (λ ds. segment ++ ds) (denied_results-keep segment calls) in
      let answered = All-IsAnsweredBy segment calls in
      let after =
        IsRound-append segment (map denial open_calls) calls (denials-IsOther open_calls) r in
      let again : append_denied_tool_results out ≡ out =
        ap (λ cs. out ++ denied_results out cs) (last_calls-IsRound out calls after)
        ∙ ap (λ ds. out ++ ds) (denied_results-keep out calls)
        ∙ ap (λ cs. out ++ map denial cs) (none_open out calls answered)
        ∙ append-nil out in
      (
        (open_calls, keep-Picks _ (IsOpen segment) (IsOpen-Decides segment) calls, gives),
        subst (λ ms. All (IsAnsweredBy ms) calls) (sym gives) answered,
        ap append_denied_tool_results gives ∙ again ∙ sym gives,
      )
