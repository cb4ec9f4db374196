-- ===== src/Headless/Elision/Outline.antt =====
-- Elision keeps the grammar of the history in crates/latte-headless/src/session.rs: only the texts of
-- tool results change, and only before the boundary.
use latte_code.Base.{ℕ, zero, suc, ◌≡◌, refl, ap, ◌∙◌, List, [], ◌∷◌, map}
use latte_code.Headless.Message.{
  Message, system_message, user_message, assistant_message, tool_message, Json,
}
use latte_code.Headless.History.{Segment}
use latte_code.Headless.Elision.{
  Target, elide_message, elide_target, elide_targets, elide_prefix, segment_targets,
}

module _ {Value : Type 0} where
  -- A message without the text of a tool result.
  abbrev pub message_outline : Message Value → Message Value
  message_outline (tool_message id name content) = tool_message id name ""
  message_outline (system_message content) = system_message content
  message_outline (user_message content) = user_message content
  message_outline (assistant_message content calls) = assistant_message content calls

  -- A segment without its text and the texts of its tool results.
  abbrev pub outline : Segment Value → Segment Value
  outline s = record s { messages = map message_outline s.messages; text = "" }

  -- The segments from the boundary on.
  unfoldable pub from_boundary : ℕ → List (Segment Value) → List (Segment Value)
  from_boundary n [] = []
  from_boundary zero (s ∷ ss) = s ∷ ss
  from_boundary (suc n) (s ∷ ss) = from_boundary n ss

module _ {Value : Type 0} (json : Json Value) where
  messages-outline :
      (t : Target) (ms : List (Message Value))
      → map message_outline (map (elide_message json t) ms) ≡ map message_outline ms
  unfolding elide_message
  messages-outline t [] = refl
  messages-outline t (tool_message id name content ∷ ms) =
      ap (λ l. tool_message id name "" ∷ l) (messages-outline t ms)
  messages-outline t (system_message content ∷ ms) =
      ap (λ l. system_message content ∷ l) (messages-outline t ms)
  messages-outline t (user_message content ∷ ms) =
      ap (λ l. user_message content ∷ l) (messages-outline t ms)
  messages-outline t (assistant_message content calls ∷ ms) =
      ap (λ l. assistant_message content calls ∷ l) (messages-outline t ms)

  targets-outline :
      (s : Segment Value) (ts : List Target) → outline (elide_targets json s ts) ≡ outline s
  unfolding elide_targets elide_target
  targets-outline s [] = refl
  targets-outline s (t ∷ ts) =
      targets-outline (elide_target json s t) ts
      ∙ ap (λ ms. record s { messages = ms; text = "" }) (messages-outline t s.messages)

  -- Elision changes only the texts before the boundary: every segment keeps its messages but for the
  -- texts of its tool results, with its sequences, its turn and its record of results, and the segments
  -- from the boundary on are the same.
  pub elide_prefix-outline :
      (ss : List (Segment Value)) (boundary : ℕ)
      → (map outline (elide_prefix json ss boundary).0 ≡ map outline ss)
        × (from_boundary boundary (elide_prefix json ss boundary).0 ≡ from_boundary boundary ss)
  unfolding elide_prefix from_boundary
  elide_prefix-outline [] boundary = (refl, refl)
  elide_prefix-outline (s ∷ ss) zero = (refl, refl)
  elide_prefix-outline (s ∷ ss) (suc boundary) =
      let (rest, suffix) = elide_prefix-outline ss boundary in
      (
        ap (λ l. outline (elide_targets json s (segment_targets s)) ∷ l) rest
            ∙ ap (λ o. o ∷ map outline ss) (targets-outline s (segment_targets s)),
        suffix,
      )
