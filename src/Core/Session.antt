-- ===== src/Core/Session.antt =====
-- crates/latte-core/src/session.rs: the cards of a conversation's transcript, over the type of their
-- JSON payloads, and the names of their kinds in JSON.
use latte_code.Base.{ℕ, String, ◌≡◌, refl, Option, none, some, ◌==◌, if◌then◌else◌, string_eq}
use latte_code.Core.Protocol.{TurnId}

abbrev pub TranscriptEntryId : Type 0
TranscriptEntryId = ℕ

pub data TranscriptKind : Type 0 where
  user assistant tool_call tool_result permission input : TranscriptKind
  failure completion system compact_summary tool_result_elision : TranscriptKind

pub record TranscriptEntry (Value : Type 0) : Type 0 where
  pub entry_id : TranscriptEntryId
  pub sequence : ℕ
  pub turn_id : Option TurnId
  pub kind : TranscriptKind
  pub text : String
  pub payload : Option Value
  pub source_key : String
  pub created_at_ms : ℕ

-- The serialized name of a kind.
pub kind_name : TranscriptKind → String
kind_name user = "user"
kind_name assistant = "assistant"
kind_name tool_call = "tool_call"
kind_name tool_result = "tool_result"
kind_name permission = "permission"
kind_name input = "input"
kind_name failure = "failure"
kind_name completion = "completion"
kind_name system = "system"
kind_name compact_summary = "compact_summary"
kind_name tool_result_elision = "tool_result_elision"

-- The kind of a serialized name.
pub parse_kind : String → Option TranscriptKind
parse_kind s =
    if s == "user"
    then some user
    else if s == "assistant"
    then some assistant
    else if s == "tool_call"
    then some tool_call
    else if s == "tool_result"
    then some tool_result
    else if s == "permission"
    then some permission
    else if s == "input"
    then some input
    else if s == "failure"
    then some failure
    else if s == "completion"
    then some completion
    else if s == "system"
    then some system
    else if s == "compact_summary"
    then some compact_summary
    else if s == "tool_result_elision"
    then some tool_result_elision
    else none

pub parse_kind-kind_name : (k : TranscriptKind) → parse_kind (kind_name k) ≡ some k
unfolding parse_kind kind_name
parse_kind-kind_name user = refl
parse_kind-kind_name assistant = refl
parse_kind-kind_name tool_call = refl
parse_kind-kind_name tool_result = refl
parse_kind-kind_name permission = refl
parse_kind-kind_name input = refl
parse_kind-kind_name failure = refl
parse_kind-kind_name completion = refl
parse_kind-kind_name system = refl
parse_kind-kind_name compact_summary = refl
parse_kind-kind_name tool_result_elision = refl
