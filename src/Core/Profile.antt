-- ===== src/Core/Profile.antt =====
-- crates/latte-core/src/profile.rs: the budgets of a harness profile, their validation, and the
-- read-only projection of how full a request window is. A `usize` has 64 bits.
pub mod Budget
pub mod Examples
use latte_code.Base.{
  ℕ, zero, suc, ◌+◌, ◌-◌, ◌*◌, ◌/◌, ◌%◌, min, String, Bool, true, false, not, ◌&&◌, ◌||◌, Option,
  none, some, List, Result, ok, err, guard, ◌>>=◌, ◌>>◌, ◌==◌, find, ltb, leb, if◌then◌else◌,
  nat_eq, string_eq, u64_max,
}

pub record ProfileVersion : Type 0 where
  pub major : ℕ
  pub minor : ℕ

-- `ProfileVersion::V1_0`.
abbrev pub v1_0 : ProfileVersion
v1_0 = record { major = 1; minor = 0 }

pub data CompactionStrategy : Type 0 where
  off summarize_on_discard elide_tool_results_then_summarize : CompactionStrategy

-- `strategy != CompactionStrategy::Off`.
abbrev pub compacts : CompactionStrategy → Bool
compacts off = false
compacts _ = true

pub record CompactionPolicy : Type 0 where
  pub strategy : CompactionStrategy
  pub trigger_ratio : ℕ
  pub retain_ratio : ℕ
  pub summary_prompt_id : String
  pub max_summary_source_bytes : ℕ

abbrev pub default_compaction : CompactionPolicy
default_compaction = record {
  strategy = off;
  trigger_ratio = 90;
  retain_ratio = 20;
  summary_prompt_id = "agent.summarize";
  max_summary_source_bytes = 32 * 1024;
}

pub record TokenEstimateParams : Type 0 where
  pub bytes_per_token : ℕ

pub record ContextPolicy : Type 0 where
  pub max_request_bytes : ℕ
  pub max_input_bytes : ℕ
  pub reserved_output_bytes : ℕ
  pub context_cap_bytes : ℕ
  pub max_tool_rounds : Option ℕ
  pub provider_timeout_ms : ℕ
  pub compaction : CompactionPolicy
  pub token_estimate : TokenEstimateParams

abbrev pub default_context : ContextPolicy
default_context = record {
  max_request_bytes = 512 * 1024;
  max_input_bytes = 384 * 1024;
  reserved_output_bytes = 128 * 1024;
  context_cap_bytes = 64 * 1024;
  max_tool_rounds = none;
  provider_timeout_ms = 60000;
  compaction = default_compaction;
  token_estimate = record { bytes_per_token = 4 };
}

pub record ContextUsage : Type 0 where
  pub request_budget_bytes : ℕ
  pub used_bytes : ℕ
  pub remaining_bytes : ℕ
  pub context_cap_bytes : ℕ
  pub estimated_used_tokens : ℕ
  pub estimated_budget_tokens : ℕ
  pub estimated_remaining_tokens : ℕ
  pub discarded_segments : ℕ
  pub compaction_strategy : CompactionStrategy
  pub trigger_ratio : ℕ
  pub proactive_compaction_due : Bool

-- `usize::div_ceil`, which panics on a zero divisor.
unfoldable pub div_ceil : ℕ → ℕ → Option ℕ
div_ceil bytes zero = none
div_ceil bytes (suc d) = some (if ltb 0 (bytes % suc d) then bytes / suc d + 1 else bytes / suc d)

-- `TokenEstimateParams::estimate_tokens`.
abbrev pub estimate_tokens : TokenEstimateParams → ℕ → Option ℕ
estimate_tokens params bytes = div_ceil bytes params.bytes_per_token

abbrev is_some_zero : Option ℕ → Bool
is_some_zero (some zero) = true
is_some_zero _ = false

module _ (trim : String → String) where
  -- The checks of an enabled compaction.
  pub validate_compaction : CompactionPolicy → Result (Unit {0}) String
  validate_compaction c = do
    guard (not (c.trigger_ratio == 0 || ltb 100 c.trigger_ratio))
        "compaction trigger_ratio must be in 1..=100 when enabled"
    guard (not (c.retain_ratio == 0 || ltb 80 c.retain_ratio))
        "compaction retain_ratio must be in 1..=80 when enabled"
    guard (not (c.max_summary_source_bytes == 0))
        "compaction max_summary_source_bytes must be nonzero"
    guard (not (trim c.summary_prompt_id == "")) "compaction summary_prompt_id must not be empty"

  -- `ContextPolicy::validate`; `trim` is `str::trim`.
  pub validate : ContextPolicy → Result (Unit {0}) String
  validate p = do
    guard
        (not (
          p.max_request_bytes == 0
          || p.max_input_bytes == 0
          || leb p.max_input_bytes p.reserved_output_bytes
          || p.context_cap_bytes == 0))
        "max_request_bytes/context cap must be nonzero and reserved output must be smaller than input budget"
    guard (not (p.provider_timeout_ms == 0)) "provider_timeout_ms must be nonzero"
    guard (not (is_some_zero p.max_tool_rounds)) "max_tool_rounds must be at least 1 when set"
    guard (not (p.token_estimate.bytes_per_token == 0)) "bytes_per_token must be nonzero"
    if compacts p.compaction.strategy then validate_compaction p.compaction else ok tt

-- `ContextPolicy::request_budget_bytes`; subtraction stops at zero.
abbrev pub request_budget_bytes : ContextPolicy → ℕ
request_budget_bytes p = min p.max_request_bytes (p.max_input_bytes - p.reserved_output_bytes)

-- A product of two `usize`.
abbrev pub wrapping : ℕ → ℕ
wrapping n = n % (u64_max + 1)

-- `proactive_compaction_due`, from the estimated tokens in use and in the budget.
unfoldable pub is_due : CompactionPolicy → ℕ → ℕ → Bool
is_due c used budget =
    compacts c.strategy
    && ltb 0 c.trigger_ratio
    && leb (wrapping (budget * c.trigger_ratio)) (wrapping (used * 100))

-- `ContextPolicy::usage`.
unfoldable pub usage : ContextPolicy → ℕ → ℕ → Option ContextUsage
usage p used discarded =
    let budget = request_budget_bytes p in
    let remaining = budget - used in
    elim (estimate_tokens p.token_estimate used) [
      | none ↦ none
      | some estimated_used ↦ elim (estimate_tokens p.token_estimate budget) [
        | none ↦ none
        | some estimated_budget ↦ elim (estimate_tokens p.token_estimate remaining) [
          | none ↦ none
          | some estimated_remaining ↦ some (record {
            request_budget_bytes = budget;
            used_bytes = used;
            remaining_bytes = remaining;
            context_cap_bytes = p.context_cap_bytes;
            estimated_used_tokens = estimated_used;
            estimated_budget_tokens = estimated_budget;
            estimated_remaining_tokens = estimated_remaining;
            discarded_segments = discarded;
            compaction_strategy = p.compaction.strategy;
            trigger_ratio = p.compaction.trigger_ratio;
            proactive_compaction_due = is_due p.compaction estimated_used estimated_budget;
          })
        ]
      ]
    ]

-- The slots of a profile, each once; the map's order is not observed.
pub record SystemPromptSpec : Type 0 where
  pub slots : List (String × String)

pub record HarnessProfile : Type 0 where
  pub profile_id : String
  pub version : ProfileVersion
  pub context : ContextPolicy
  pub prompts : SystemPromptSpec

-- `SystemPromptSpec::render`; `replace` is `str::replace`: the template, the pattern, the new text.
pub render :
    (String → String → String → String) → SystemPromptSpec → String → String → Option String
render replace spec slot context = elim (find (λ (s : String × String). s.0 == slot) spec.slots) [
  | none ↦ none
  | some s ↦ some (replace s.1 "{repository_context}" context)
]

-- `HarnessProfile::validate`; `trim` and `len` are those of `str`.
pub validate_profile : (String → String) → (String → ℕ) → HarnessProfile → Result (Unit {0}) String
validate_profile trim len p = do
  guard (not (trim p.profile_id == "" || ltb 128 (len p.profile_id)))
      "profile_id must be 1..=128 non-whitespace characters"
  validate trim p.context
