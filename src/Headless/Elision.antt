-- ===== src/Headless/Elision.antt =====
-- `elide_prefix` of crates/latte-headless/src/session.rs: the tool results of older segments become
-- skeletons, without a request to a model.
pub mod Outline
pub mod Sequences
mod Examples
use Prim.Native.Char.{Char}
use Prim.Native.String
use latte_code.Base.{
  ℕ, zero, suc, ◌-◌, String, Bool, true, false, Option, none, some, is_some, List, [], ◌∷◌, ◌++◌,
  map, ◌==◌, string_eq, if◌then◌else◌, ◌<>◌,
}
use latte_code.Engine.Tools.Execute.{strip_text}
use latte_code.Headless.Message.{
  Message, system_message, user_message, assistant_message, tool_message, Json, unwrap_or,
}
use latte_code.Headless.History.{Segment, elided_tool_skeleton}

-- `str::replace`, from where the last match ends: the number is what is left of it.
pub replace_from : String → String → ℕ → String → String
replace_from before after k Prim.Native.String.[] = ""
replace_from before after (suc k) (Prim.Native.String.◌∷◌ a s) = replace_from before after k s
replace_from before after zero (Prim.Native.String.◌∷◌ a s) =
    elim (is_some (strip_text before (Prim.Native.String.◌∷◌ a s))) [
      | false ↦ Prim.Native.String.◌∷◌ a (replace_from before after zero s)
      | true ↦ after <> replace_from before after (Prim.Native.String.count before - 1) s
    ]

-- A target of the elision: the sequence of a result, the id of its call, and its text.
pub record Target : Type 0 where
  pub sequence : ℕ
  pub id : String
  pub original : String

abbrev pub targeted : ℕ → String → Option String → List Target → List Target
targeted sequence id none rest = rest
targeted sequence id (some original) rest =
    record { sequence = sequence; id = id; original = original } ∷ rest

module _ {Value : Type 0} where
  -- The text of the first result of the call.
  abbrev pub result_text : String → List (Message Value) → Option String
  result_text id [] = none
  result_text id (tool_message other name content ∷ ms) =
      if other == id then some content else result_text id ms
  result_text id (system_message content ∷ ms) = result_text id ms
  result_text id (user_message content ∷ ms) = result_text id ms
  result_text id (assistant_message content calls ∷ ms) = result_text id ms

  -- The originals, captured before any of them is replaced.
  pub targets : List (ℕ × String) → List (Message Value) → List Target
  targets [] ms = []
  targets ((sequence, id) ∷ rs) ms = targeted sequence id (result_text id ms) (targets rs ms)

  abbrev pub segment_targets : Segment Value → List Target
  segment_targets s = targets s.tool_results s.messages

  -- The name of the last result of the call, which the loop leaves in `name`.
  pub last_name : String → List (Message Value) → Option String → Option String
  last_name id [] name = name
  last_name id (tool_message other found content ∷ ms) name =
      last_name id ms (if other == id then found else name)
  last_name id (system_message content ∷ ms) name = last_name id ms name
  last_name id (user_message content ∷ ms) name = last_name id ms name
  last_name id (assistant_message content calls ∷ ms) name = last_name id ms name

module _ {Value : Type 0} (json : Json Value) where
  open json use {from_str, empty_object}

  abbrev pub skeleton_of : Option String → String → String
  skeleton_of name original =
      elided_tool_skeleton json name original (unwrap_or (from_str original) empty_object)

  -- A result of the call gets its skeleton; other messages stay.
  pub elide_message : Target → Message Value → Message Value
  elide_message t (tool_message id name content) =
      tool_message id name (if id == t.id then skeleton_of name t.original else content)
  elide_message t (system_message content) = system_message content
  elide_message t (user_message content) = user_message content
  elide_message t (assistant_message content calls) = assistant_message content calls

  pub elide_target : Segment Value → Target → Segment Value
  elide_target s t =
      let skeleton = skeleton_of (last_name t.id s.messages none) t.original in
      record s {
        messages = map (elide_message t) s.messages;
        text =
            replace_from ("[tool]\n" <> t.original <> "\n") ("[tool]\n" <> skeleton <> "\n") 0
              s.text;
      }

  pub elide_targets : Segment Value → List Target → Segment Value
  elide_targets s [] = s
  elide_targets s (t ∷ ts) = elide_targets (elide_target s t) ts

  -- `elide_prefix`: the segments, and the sequences of the results that are elided.
  pub elide_prefix : List (Segment Value) → ℕ → List (Segment Value) × List ℕ
  elide_prefix [] boundary = ([], [])
  elide_prefix (s ∷ ss) zero = (s ∷ ss, [])
  elide_prefix (s ∷ ss) (suc boundary) =
      let (next, sequences) = elide_prefix ss boundary in
      let ts = segment_targets s in
      (elide_targets s ts ∷ next, map (λ t. t.sequence) ts ++ sequences)
