-- ===== src/Headless/Message.antt =====
-- The messages of crates/latte-headless/src/provider.rs, over the type of JSON values, and what the
-- runtime reads of such values by serde_json.
use latte_code.Base.{ℕ, String, Bool, Option, none, some, List}

pub record ToolCall (Value : Type 0) : Type 0 where
  pub id : String
  pub name : String
  pub input : Value

pub data Message (Value : Type 0) : Type 0 where
  system_message : String → Message Value
  user_message : String → Message Value
  assistant_message : Option String → List (ToolCall Value) → Message Value
  tool_message : String → Option String → String → Message Value

-- serde_json's `from_str`, `json!({})`, `Value::get`, `as_str`, `as_bool`, `as_u64`, `as_array`, and
-- `from_value` to a list of tool calls.
pub record Json (Value : Type 0) : Type 0 where
  pub from_str : String → Option Value
  pub empty_object : Value
  pub get : Value → String → Option Value
  pub as_str : Value → Option String
  pub as_bool : Value → Option Bool
  pub as_u64 : Value → Option ℕ
  pub as_array : Value → Option (List Value)
  pub tool_calls_of : Value → Option (List (ToolCall Value))

-- `Option::and_then`.
abbrev pub and_then : {A B : Type 0} → Option A → (A → Option B) → Option B
and_then none f = none
and_then (some a) f = f a

-- `Option::unwrap_or`.
abbrev pub unwrap_or : {A : Type 0} → Option A → A → A
unwrap_or none d = d
unwrap_or (some a) d = a
