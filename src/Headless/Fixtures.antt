-- ===== src/Headless/Fixtures.antt =====
-- A transcript with one answered and one denied call, and JSON payloads as a small data type: test data
-- for the history of crates/latte-headless/src/session.rs.
use latte_code.Base.{ℕ, String, Option, none, some, List, [], ◌∷◌, ◌==◌, string_eq, if◌then◌else◌}
use latte_code.Core.Session.{
  TranscriptEntry, TranscriptKind, user, assistant, tool_result, failure, compact_summary,
  tool_result_elision,
}
use latte_code.Headless.Message.{ToolCall, Json}

pub data Value : Type 0 where
  empty aborted : Value
  text : String → Value
  number : ℕ → Value
  round call : String → Value
  result : String → String → Value
  elision retained : ℕ → Value

abbrev pub get_field : Value → String → Option Value
get_field (round id) key = if key == "tool_calls" then some (call id) else none
get_field (result id content) key =
    if key == "tool_call_id"
    then some (text id)
    else if key == "provider_content"
    then some (text content)
    else if key == "name"
    then some (text "read_file")
    else none
get_field (elision n) key = if key == "tool_result_sequences" then some (number n) else none
get_field (retained n) key = if key == "retain_from_sequence" then some (number n) else none
get_field aborted key =
    if key == "provider_tool_round_aborted" then some (text "permission_denied") else none
get_field empty key = none
get_field (text s) key = none
get_field (number n) key = none
get_field (call id) key = none

abbrev pub text_of : Value → Option String
text_of (text s) = some s
text_of _ = none

abbrev pub number_of : Value → Option ℕ
number_of (number n) = some n
number_of _ = none

abbrev pub array_of : Value → Option (List Value)
array_of (number n) = some (number n ∷ [])
array_of _ = none

abbrev pub calls_of : Value → Option (List (ToolCall Value))
calls_of (call id) = some (record { id = id; name = "read_file"; input = empty } ∷ [])
calls_of _ = none

abbrev pub json : Json Value
json = record {
  from_str = λ s. none;
  empty_object = empty;
  get = get_field;
  as_str = text_of;
  as_bool = λ v. none;
  as_u64 = number_of;
  as_array = array_of;
  tool_calls_of = calls_of;
}

abbrev pub entry : ℕ → TranscriptKind → String → Option Value → TranscriptEntry Value
entry sequence kind words payload = record {
  entry_id = sequence;
  sequence = sequence;
  turn_id = some 7;
  kind = kind;
  text = words;
  payload = payload;
  source_key = "";
  created_at_ms = 0;
}

-- Two rounds: the first call is answered, the second one denied.
abbrev pub rounds : List (TranscriptEntry Value)
rounds =
    entry 1 user "hello" none
    ∷ entry 2 assistant "reading" (some (round "c1"))
    ∷ entry 3 tool_result "" (some (result "c1" "file text"))
    ∷ entry 4 user "again" none
    ∷ entry 5 assistant "more" (some (round "c2"))
    ∷ entry 6 failure "" (some aborted)
    ∷ []

abbrev pub summary_card : TranscriptEntry Value
summary_card = entry 7 compact_summary "a summary" (some (retained 4))

abbrev pub elision_card : TranscriptEntry Value
elision_card = entry 8 tool_result_elision "" (some (elision 3))
