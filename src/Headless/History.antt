-- ===== src/Headless/History.antt =====
-- The projection of a conversation's transcript to provider history in
-- crates/latte-headless/src/session.rs: the segments of its user cards, the newest summary in front of
-- what it retains, and the skeletons of elided tool results.
pub mod Scan
pub mod Pairing
pub mod Grammar
pub mod Denied
pub mod Superseded
mod Examples
use Prim.Native.String
use latte_code.Base.{
  ℕ, ◌+◌, max, String, Bool, true, false, not, ◌||◌, ◌&&◌, Option, none, some, is_some, List, [],
  ◌∷◌, ◌++◌, map, ◌==◌, nat_eq, string_eq, any, find, keep, leb, if◌then◌else◌, ◌<>◌, decimal,
}
use latte_code.Core.Protocol.{TurnId}
use latte_code.Core.Session.{
  TranscriptEntry, TranscriptKind, user, assistant, tool_call, tool_result, permission, input,
  failure, completion, system, compact_summary, tool_result_elision,
}
use latte_code.Headless.Message.{
  ToolCall, Message, system_message, user_message, assistant_message, tool_message, Json, and_then,
  unwrap_or,
}
use latte_code.Headless.Request.Assembly.{HistorySegment}

abbrev pub Segment : Type 0 → Type 0
Segment Value = HistorySegment (Message Value)

-- The order of `Option`: `None` is below every `Some`.
abbrev pub max_some : Option ℕ → ℕ → Option ℕ
max_some none n = some n
max_some (some m) n = some (max m n)

abbrev pub denied_content : String
denied_content = "permission denied by user; tool was not executed"

module _ {Value : Type 0} where
  -- `HistorySegment::new`.
  abbrev pub new_segment : Option ℕ → Option TurnId → List (Message Value) → String → Segment Value
  new_segment first turn messages text = record {
    messages = messages;
    text = text;
    first_sequence = first;
    max_sequence = first;
    from_summary = false;
    turn_id = turn;
    tool_results = [];
  }

  -- `HistorySegment::summary_segment`.
  abbrev pub summary_segment : ℕ → Option TurnId → Message Value → String → Segment Value
  summary_segment sequence turn message text = record {
    messages = message ∷ [];
    text = text;
    first_sequence = some sequence;
    max_sequence = some sequence;
    from_summary = true;
    turn_id = turn;
    tool_results = [];
  }

  abbrev pub push_message : Message Value → Segment Value → Segment Value
  push_message m s = record s { messages = s.messages ++ m ∷ [] }

  abbrev pub push_tool_result : ℕ → String → Segment Value → Segment Value
  push_tool_result sequence id s = record s { tool_results = s.tool_results ++ (sequence, id) ∷ [] }

  abbrev pub push_text : String → ℕ → Segment Value → Segment Value
  push_text text sequence s = record s {
    text = s.text <> text;
    max_sequence = max_some s.max_sequence sequence;
  }

  -- `segments.last_mut()`, and what is done to it.
  abbrev pub on_last : (Segment Value → Segment Value) → List (Segment Value) → List (Segment Value)
  on_last f [] = []
  on_last f (s ∷ []) = f s ∷ []
  on_last f (s ∷ t ∷ ss) = s ∷ on_last f (t ∷ ss)

  abbrev pub is_call : String → ToolCall Value → Bool
  is_call id call = call.id == id

  abbrev pub declares : String → Message Value → Bool
  declares id (assistant_message content calls) = any (is_call id) calls
  declares id (system_message content) = false
  declares id (user_message content) = false
  declares id (tool_message other name content) = false

  -- `declared_tool_call`.
  unfoldable pub declared_tool_call : List (Message Value) → String → Bool
  declared_tool_call segment id = any (declares id) segment

  -- The calls of the last assistant message of a segment, none without one.
  unfoldable pub last_calls : List (Message Value) → List (ToolCall Value) → List (ToolCall Value)
  last_calls [] found = found
  last_calls (assistant_message content calls ∷ ms) found = last_calls ms calls
  last_calls (system_message content ∷ ms) found = last_calls ms found
  last_calls (user_message content ∷ ms) found = last_calls ms found
  last_calls (tool_message id name content ∷ ms) found = last_calls ms found

  abbrev pub answers : String → Message Value → Bool
  answers id (tool_message other name content) = other == id
  answers id (system_message content) = false
  answers id (user_message content) = false
  answers id (assistant_message content calls) = false

  -- The results of the calls that have none in the segment.
  unfoldable pub denied_results :
      List (Message Value) → List (ToolCall Value) → List (Message Value)
  denied_results segment [] = []
  denied_results segment (call ∷ calls) =
      let rest = denied_results segment calls in
      if any (answers call.id) segment
      then rest
      else tool_message call.id (some call.name) denied_content ∷ rest

  -- `append_denied_tool_results`.
  unfoldable pub append_denied_tool_results : List (Message Value) → List (Message Value)
  append_denied_tool_results segment = segment ++ denied_results segment (last_calls segment [])

module _ {Value : Type 0} (json : Json Value) where
  open json use {get, as_str, as_bool, as_u64, as_array, tool_calls_of}

  abbrev pub text_at : Value → String → Option String
  text_at payload key = and_then (get payload key) as_str

  -- `elided_tool_skeleton`.
  pub elided_tool_skeleton : Option String → String → Value → String
  elided_tool_skeleton name original payload =
      "[elided tool result: tool="
      <> unwrap_or name "unknown"
      <> ", original_bytes="
      <> decimal (Prim.Native.String.len original)
      <> ", status="
      <> (if is_some (get payload "error") then "error" else "ok")
      <> (if unwrap_or (and_then (get payload "truncated") as_bool) false
          then ", truncated"
          else "")
      <> "]"

  abbrev pub listed_sequences : List Value → List ℕ
  listed_sequences [] = []
  listed_sequences (v ∷ vs) = elim (as_u64 v) [
    | none ↦ listed_sequences vs
    | some n ↦ n ∷ listed_sequences vs
  ]

  -- `elision_card_sequences`.
  pub elision_card_sequences : TranscriptEntry Value → List ℕ
  elision_card_sequences entry = listed_sequences (
      unwrap_or
        (and_then entry.payload λ payload. and_then (get payload "tool_result_sequences") as_array)
        [])

  abbrev pub assistant_calls : Option Value → List (ToolCall Value)
  assistant_calls payload =
      unwrap_or (and_then payload λ p. and_then (get p "tool_calls") tool_calls_of) []

  -- The call that a tool result answers, its text for the provider, and its payload.
  abbrev pub recorded_result : Option Value → Option (String × String × Value)
  recorded_result payload = and_then payload λ p.
      and_then (text_at p "tool_call_id")
        λ id. and_then (text_at p "provider_content") λ original. some (id, original, p)

  abbrev pub is_elided : List ℕ → ℕ → Bool
  is_elided elided sequence = any (λ n. n == sequence) elided

  abbrev pub add_result :
      List ℕ
      → TranscriptEntry Value
      → Option (String × String × Value)
      → Segment Value
      → Segment Value
  add_result elided entry none s = s
  add_result elided entry (some (id, original, payload)) s =
      let name = text_at payload "name" in
      let content =
        if is_elided elided entry.sequence
        then elided_tool_skeleton name original payload
        else original in
      if declared_tool_call s.messages id
      then push_text ("[tool]\n" <> content <> "\n") entry.sequence
          (push_tool_result entry.sequence id (push_message (tool_message id name content) s))
      else s

  abbrev pub is_aborted : Option Value → Bool
  is_aborted none = false
  is_aborted (some payload) = elim (text_at payload "provider_tool_round_aborted") [
    | none ↦ false
    | some reason ↦ reason == "permission_denied"
  ]

  -- `apply_entry`, by the kind of the card.
  unfoldable pub apply_kind :
      TranscriptKind → List (Segment Value) → TranscriptEntry Value → List ℕ → List (Segment Value)
  apply_kind user segments entry elided =
      segments
      ++ new_segment (some entry.sequence) entry.turn_id (user_message entry.text ∷ [])
          ("[user]\n" <> entry.text <> "\n")
        ∷ []
  apply_kind assistant segments entry elided =
      on_last
        (λ s.
          push_text ("[assistant]\n" <> entry.text <> "\n") entry.sequence
            (push_message (assistant_message (some entry.text) (assistant_calls entry.payload)) s))
        segments
  apply_kind tool_result segments entry elided =
      on_last (add_result elided entry (recorded_result entry.payload)) segments
  apply_kind failure segments entry elided =
      if is_aborted entry.payload
      then on_last (λ s. record s { messages = append_denied_tool_results s.messages }) segments
      else segments
  apply_kind tool_call segments entry elided = segments
  apply_kind permission segments entry elided = segments
  apply_kind input segments entry elided = segments
  apply_kind completion segments entry elided = segments
  apply_kind system segments entry elided = segments
  apply_kind compact_summary segments entry elided = segments
  apply_kind tool_result_elision segments entry elided = segments

  unfoldable pub apply_entry :
      List (Segment Value) → TranscriptEntry Value → List ℕ → List (Segment Value)
  apply_entry segments entry elided = apply_kind entry.kind segments entry elided

  unfoldable pub apply_entries :
      List (Segment Value) → List (TranscriptEntry Value) → List ℕ → List (Segment Value)
  apply_entries segments [] elided = segments
  apply_entries segments (e ∷ es) elided = apply_entries (apply_entry segments e elided) es elided
