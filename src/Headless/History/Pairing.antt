-- ===== src/Headless/History/Pairing.antt =====
-- The grammar of the history that crates/latte-headless/src/session.rs projects: a `tool` message stands
-- only after an assistant message of the same segment that made its call.
use latte_code.Base.{
  ℕ, ◌≡◌, refl, subst, sym, inl, inr, String, Bool, true, Option, some, List, [], ◌∷◌, ◌++◌,
  string_eq, nat_eq, any, All, All-mono, append_assoc, append-nil, Bool-cases, arith,
}
use latte_code.Headless.Message.{
  ToolCall, Message, system_message, user_message, assistant_message, tool_message,
}
use latte_code.Headless.History.{
  Segment, on_last, is_call, declared_tool_call, last_calls, answers, denied_results,
  denied_content, append_denied_tool_results,
}

module _ {Value : Type 0} where
  -- A `tool` message may follow only what declares its call.
  abbrev pub Admits : List (Message Value) → Message Value → Type 0
  Admits before (tool_message id name content) = declared_tool_call before id ≡ true
  Admits before (system_message content) = Unit
  Admits before (user_message content) = Unit
  Admits before (assistant_message content calls) = Unit

  -- Every `tool` message answers a call that an assistant message before it made; `before` is what the
  -- segment has so far.
  abbrev pub AnsweredFrom : List (Message Value) → List (Message Value) → Type 0
  AnsweredFrom before [] = Unit
  AnsweredFrom before (m ∷ ms) = Admits before m × AnsweredFrom (before ++ m ∷ []) ms

  abbrev pub IsAnswered : Segment Value → Type 0
  IsAnswered s = AnsweredFrom [] s.messages

  -- Each recorded result has its message in the segment.
  abbrev pub IsRecorded : Segment Value → Type 0
  IsRecorded s = All (λ r. any (answers r.1) s.messages ≡ true) s.tool_results

  abbrev pub IsPaired : Segment Value → Type 0
  IsPaired s = IsAnswered s × IsRecorded s

  pub any-left :
      (p : Message Value → Bool) (xs ys : List (Message Value))
      → any p xs ≡ true
      → any p (xs ++ ys) ≡ true
  any-left p [] ys h = cc
  any-left p (x ∷ xs) ys h = ground (arith, any-left p xs ys)

  -- Messages may be added, and with them no result.
  pub recorded-append :
      (ms ns : List (Message Value)) (rs : List (ℕ × String))
      → All (λ r. any (answers r.1) ms ≡ true) rs
      → All (λ r. any (answers r.1) (ms ++ ns) ≡ true) rs
  recorded-append ms ns rs =
      All-mono (λ r. any (answers r.1) ms ≡ true) (λ r. any (answers r.1) (ms ++ ns) ≡ true)
        (λ r h. any-left (answers r.1) ms ns h) rs

  pub AnsweredFrom-append :
      (before ms ns : List (Message Value))
      → AnsweredFrom before ms
      → AnsweredFrom (before ++ ms) ns
      → AnsweredFrom before (ms ++ ns)
  AnsweredFrom-append before [] ns h k = subst (λ b. AnsweredFrom b ns) (append-nil before) k
  AnsweredFrom-append before (m ∷ ms) ns h k = (
    h.0,
    AnsweredFrom-append (before ++ m ∷ []) ms ns h.1
        (subst (λ b. AnsweredFrom b ns) (sym (append_assoc before (m ∷ []) ms)) k),
  )

  pub declared-append :
      (xs ys : List (Message Value)) (id : String)
      → declared_tool_call xs id ≡ true
      → declared_tool_call (xs ++ ys) id ≡ true
  unfolding declared_tool_call
  declared-append [] ys id h = cc
  declared-append (x ∷ xs) ys id h = ground (arith, declared-append xs ys id)

  declared-last :
      (xs : List (Message Value)) (content : Option String) (calls : List (ToolCall Value))
      (id : String)
      → any (is_call id) calls ≡ true
      → declared_tool_call (xs ++ assistant_message content calls ∷ []) id ≡ true
  unfolding declared_tool_call
  declared-last [] content calls id h = ground arith
  declared-last (x ∷ xs) content calls id h = ground (arith, declared-last xs content calls id h)

  -- What the segment has declared of a list of calls.
  abbrev AllDeclared : List (Message Value) → List (ToolCall Value) → Type 0
  AllDeclared ms = All λ call. declared_tool_call ms call.id ≡ true

  any-middle :
      (p : ToolCall Value → Bool) (front : List (ToolCall Value)) (call : ToolCall Value)
      (calls : List (ToolCall Value))
      → p call ≡ true
      → any p (front ++ call ∷ calls) ≡ true
  any-middle p [] call calls h = ground (arith, h)
  any-middle p (c ∷ front) call calls h = ground (arith, any-middle p front call calls h)

  calls_found :
      (front calls : List (ToolCall Value))
      → All (λ call. any (is_call call.id) (front ++ calls) ≡ true) calls
  calls_found front [] = tt
  calls_found front (call ∷ calls) = (
    any-middle (is_call call.id) front call calls ((string_eq.test_iff call.id call.id).1 refl),
    subst (λ cs. All (λ c. any (is_call c.id) cs ≡ true) calls)
        (append_assoc front (call ∷ []) calls) (calls_found (front ++ call ∷ []) calls),
  )

  AllDeclared-last :
      (before : List (Message Value)) (content : Option String) (calls : List (ToolCall Value))
      → AllDeclared (before ++ assistant_message content calls ∷ []) calls
  AllDeclared-last before content calls =
      All-mono (λ call. any (is_call call.id) calls ≡ true)
        (λ call. declared_tool_call (before ++ assistant_message content calls ∷ []) call.id ≡ true)
        (λ call h. declared-last before content calls call.id h) calls (calls_found [] calls)

  AllDeclared-append :
      (xs ys : List (Message Value)) (calls : List (ToolCall Value))
      → AllDeclared xs calls
      → AllDeclared (xs ++ ys) calls
  AllDeclared-append xs ys calls =
      All-mono (λ call. declared_tool_call xs call.id ≡ true)
        (λ call. declared_tool_call (xs ++ ys) call.id ≡ true)
        (λ call h. declared-append xs ys call.id h) calls

  last_calls-AllDeclared :
      (before ms : List (Message Value)) (found : List (ToolCall Value))
      → AllDeclared before found
      → AllDeclared (before ++ ms) (last_calls ms found)
  unfolding last_calls
  last_calls-AllDeclared before [] found h = rw (append-nil before) h
  last_calls-AllDeclared before (assistant_message content calls ∷ ms) found h =
      let m : Message Value = assistant_message content calls in
      subst (λ b. AllDeclared b (last_calls ms calls)) (append_assoc before (m ∷ []) ms)
        (last_calls-AllDeclared (before ++ m ∷ []) ms calls (AllDeclared-last before content calls))
  last_calls-AllDeclared before (system_message content ∷ ms) found h =
      let m : Message Value = system_message content in
      subst (λ b. AllDeclared b (last_calls ms found)) (append_assoc before (m ∷ []) ms)
        (last_calls-AllDeclared (before ++ m ∷ []) ms found
          (AllDeclared-append before (m ∷ []) found h))
  last_calls-AllDeclared before (user_message content ∷ ms) found h =
      let m : Message Value = user_message content in
      subst (λ b. AllDeclared b (last_calls ms found)) (append_assoc before (m ∷ []) ms)
        (last_calls-AllDeclared (before ++ m ∷ []) ms found
          (AllDeclared-append before (m ∷ []) found h))
  last_calls-AllDeclared before (tool_message id name content ∷ ms) found h =
      let m : Message Value = tool_message id name content in
      subst (λ b. AllDeclared b (last_calls ms found)) (append_assoc before (m ∷ []) ms)
        (last_calls-AllDeclared (before ++ m ∷ []) ms found
          (AllDeclared-append before (m ∷ []) found h))

  denied-Answered :
      (segment before : List (Message Value)) (calls : List (ToolCall Value))
      → AllDeclared before calls
      → AnsweredFrom before (denied_results segment calls)
  unfolding denied_results
  denied-Answered segment before [] h = tt
  denied-Answered segment before (call ∷ calls) h =
      elim (Bool-cases (any (answers call.id) segment)) [
        | inl q ↦ rw q (denied-Answered segment before calls h.1)
        | inr q ↦
            let m : Message Value = tool_message call.id (some call.name) denied_content in
            rw q (
              h.0,
              denied-Answered segment (before ++ m ∷ []) calls
                  (AllDeclared-append before (m ∷ []) calls h.1),
            )
      ]

  pub append_denied-Answered :
      (ms : List (Message Value))
      → AnsweredFrom [] ms
      → AnsweredFrom [] (append_denied_tool_results ms)
  unfolding append_denied_tool_results
  append_denied-Answered ms h =
      AnsweredFrom-append [] ms (denied_results ms (last_calls ms [])) h
        (denied-Answered ms ms (last_calls ms []) (last_calls-AllDeclared [] ms [] tt))

  pub append_denied-recorded :
      (ms : List (Message Value)) (rs : List (ℕ × String))
      → All (λ r. any (answers r.1) ms ≡ true) rs
      → All (λ r. any (answers r.1) (append_denied_tool_results ms) ≡ true) rs
  unfolding append_denied_tool_results
  append_denied-recorded ms rs h = recorded-append ms (denied_results ms (last_calls ms [])) rs h

  pub All-on_last :
      (P : Segment Value → Type 0) (f : Segment Value → Segment Value)
      → ((s : Segment Value) → P s → P (f s))
      → (ss : List (Segment Value)) → All P ss
      → All P (on_last f ss)
  All-on_last P f h [] a = tt
  All-on_last P f h (s ∷ []) a = (h s a.0, tt)
  All-on_last P f h (s ∷ t ∷ ss) a = (a.0, All-on_last P f h (t ∷ ss) a.1)
