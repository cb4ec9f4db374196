-- ===== src/Headless/Policy.antt =====
-- `SessionHistoryPolicy` of crates/latte-headless/src/session.rs, its budget, and its projection from a
-- resolved profile in crates/latte-headless/src/profile.rs.
pub mod Budget
mod Examples
use latte_code.Base.{
  ℕ, zero, ◌-◌, ◌+◌, min, String, Bool, true, false, not, ◌||◌, Option, none, some, List, map,
  Result, ok, err, guard, ◌>>=◌, ◌>>◌, ◌==◌, ltb, leb, length, nat_eq,
}
use latte_code.Core.Profile.{ContextPolicy}
use latte_code.Engine.Ledger.{StorageError}

-- The errors of the session runtime, over those of the provider.
pub data SessionRuntimeError (P : Type 0) : Type 0 where
  storage : StorageError → SessionRuntimeError P
  provider_configuration : String → SessionRuntimeError P
  provider : P → SessionRuntimeError P
  history : String → SessionRuntimeError P
  invalid_state mailbox_full : SessionRuntimeError P
  effect : String → SessionRuntimeError P

pub record SessionHistoryPolicy : Type 0 where
  pub max_request_bytes : ℕ
  pub max_input_bytes : ℕ
  pub reserved_output_bytes : ℕ
  pub context_cap_bytes : ℕ
  pub max_tool_rounds : Option ℕ
  pub provider_timeout_ms : ℕ

abbrev is_zero_bound : Option ℕ → Bool
is_zero_bound (some zero) = true
is_zero_bound _ = false

-- `SessionHistoryPolicy::validate`.
unfoldable pub validate : SessionHistoryPolicy → Result (Unit {0}) String
validate p = do
  guard
      (not (
        p.max_request_bytes == 0
        || p.max_input_bytes == 0
        || leb p.max_input_bytes p.reserved_output_bytes
        || p.context_cap_bytes == 0))
      "max_request_bytes/context cap must be nonzero and reserved output must be smaller than input budget"
  guard (not (is_zero_bound p.max_tool_rounds))
      "max_tool_rounds must be omitted (unlimited) or at least 1"
  guard (not (p.provider_timeout_ms == 0)) "provider_timeout_ms must be nonzero"

-- `map_err(SessionRuntimeError::History)`.
abbrev pub or_history :
    {P : Type 0} {A : Type 0} → Result A String → Result A (SessionRuntimeError P)
or_history (ok a) = ok a
or_history (err e) = err (history e)

-- `SessionHistoryPolicy::budget`.
unfoldable pub budget : {P : Type 0} → SessionHistoryPolicy → Result ℕ (SessionRuntimeError P)
budget p = do
  or_history (validate p)
  ok (min p.max_request_bytes (p.max_input_bytes - p.reserved_output_bytes))

-- `ResolvedProfile::history_policy`, from the profile's context policy.
abbrev pub history_policy : ContextPolicy → SessionHistoryPolicy
history_policy c = record {
  max_request_bytes = c.max_request_bytes;
  max_input_bytes = c.max_input_bytes;
  reserved_output_bytes = c.reserved_output_bytes;
  context_cap_bytes = c.context_cap_bytes;
  max_tool_rounds = c.max_tool_rounds;
  provider_timeout_ms = c.provider_timeout_ms;
}
