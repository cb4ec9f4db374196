-- ===== src/Core/Profile/Budget.antt =====
-- What the budgets of crates/latte-core/src/profile.rs promise once they are validated.
use native.Mathlib.Nat.{
  div-add-mod, mod-lt, mod-eq_of_lt, mul-le-mul_left, le_of_mul-le-mul_left, mul-add, mul-one,
}
use latte_code.Base.{
  ℕ, zero, suc, ◌+◌, ◌-◌, ◌*◌, ◌/◌, ◌%◌, ◌≤◌, ◌<◌, ◌≡◌, ◌≢◌, ◌↔◌, inl, inr, String, true, false,
  some, ok, ltb, leb, nat_eq, string_eq, eq_iff, u64_max, arith, Bool-cases,
}
use latte_code.Core.Profile.{
  CompactionPolicy, ContextPolicy, ContextUsage, off, compacts, div_ceil, validate,
  validate_compaction, request_budget_bytes, is_due, usage,
}

-- The limits of an enabled compaction.
pub record IsCompaction (trim : String → String) (c : CompactionPolicy) : Type 0 where
  pub trigger : (0 < c.trigger_ratio) × (c.trigger_ratio ≤ 100)
  pub retain : (0 < c.retain_ratio) × (c.retain_ratio ≤ 80)
  pub source : 0 < c.max_summary_source_bytes
  pub prompt : trim c.summary_prompt_id ≢ ""

-- The limits of a policy.
pub record IsPolicy (trim : String → String) (p : ContextPolicy) : Type 0 where
  pub request : 0 < p.max_request_bytes
  pub reserved : p.reserved_output_bytes < p.max_input_bytes
  pub cap : 0 < p.context_cap_bytes
  pub timeout : 0 < p.provider_timeout_ms
  pub rounds : p.max_tool_rounds ≢ some 0
  pub estimate : 0 < p.token_estimate.bytes_per_token
  pub compaction : compacts p.compaction.strategy ≡ true → IsCompaction trim p.compaction

module _ (trim : String → String) where
  validate_compaction_iff :
      (c : CompactionPolicy) → (validate_compaction trim c ≡ ok tt) ↔ IsCompaction trim c
  unfolding validate_compaction
  validate_compaction_iff c = (
    λ h. record {
      trigger = ground (arith);
      retain = ground (arith);
      source = ground (arith);
      prompt = λ e. ground (arith, eq_iff (trim c.summary_prompt_id) "");
    },
    λ v.
        ground
          (arith, v.trigger, v.retain, v.source, v.prompt, eq_iff (trim c.summary_prompt_id) ""),
  )

  -- A policy is accepted exactly when it has its limits, those of the compaction only where a
  -- compaction is enabled.
  pub validate_iff : (p : ContextPolicy) → (validate trim p ≡ ok tt) ↔ IsPolicy trim p
  unfolding validate
  validate_iff p = (
    λ h. record {
      request = ground (arith);
      reserved = ground (arith);
      cap = ground (arith);
      timeout = ground (arith);
      rounds = λ e. ground (arith);
      estimate = ground (arith);
      compaction = λ e. (validate_compaction_iff p.compaction).0 (ground (arith));
    },
    λ v. elim (Bool-cases (compacts p.compaction.strategy)) [
      | inl e ↦ ground (
        arith,
        v.request,
        v.reserved,
        v.cap,
        v.timeout,
        v.rounds,
        v.estimate,
        (validate_compaction_iff p.compaction).1 (v.compaction e),
      )
      | inr e ↦ ground (arith, v.request, v.reserved, v.cap, v.timeout, v.rounds, v.estimate)
    ],
  )

module _ (bytes b q r : ℕ) (whole : b * q + r ≡ bytes) where
  above : r < b → bytes ≤ b * (q + 1)
  above h = omega (arith, mul-add b q 1, mul-one b)

  least_above : 0 < r → (m : ℕ) → bytes ≤ b * m → q + 1 ≤ m
  least_above h m k = elim (Bool-cases (leb m q)) [
    | inl low ↦
        let le : m ≤ q = ground arith in
        let more = mul-le-mul_left {m = m} {n = q} b le in absurd (omega arith)
    | inr high ↦ ground arith
  ]

-- The estimate rounds up: it is the least number of tokens that hold the bytes.
pub div_ceil_least :
    (bytes b : ℕ)
    → 0 < b
    → (n : ℕ) × (div_ceil bytes b ≡ some n) × (bytes ≤ b * n) × ((m : ℕ) → bytes ≤ b * m → n ≤ m)
unfolding div_ceil
div_ceil_least bytes zero h = absurd (omega arith)
div_ceil_least bytes (suc d) h =
    let q = bytes / suc d in
    let r = bytes % suc d in
    let whole = div-add-mod bytes (suc d) in
    elim (Bool-cases (ltb 0 r)) [
      | inl e ↦ (
        q + 1,
        rw e,
        above bytes (suc d) q r whole (mod-lt bytes {m = suc d} h),
        least_above bytes (suc d) q r whole (ground arith),
      )
      | inr e ↦
          let none_left : r ≡ 0 = ground arith in
          (
            q,
            rw e,
            omega arith,
            λ m k. le_of_mul-le-mul_left {m = q} {n = m} {k = suc d} (omega arith) h,
          )
    ]

-- For a policy with its limits the projection exists, whatever the window: the budget is not zero,
-- what is used and what remains make it up unless more is used, and a compaction is never due while
-- it is off.
pub usage_total :
    (trim : String → String) (p : ContextPolicy) (used discarded : ℕ)
    → validate trim p ≡ ok tt
    → (u : ContextUsage) × (usage p used discarded ≡ some u)
      × (0 < u.request_budget_bytes)
      × (u.used_bytes ≤ u.request_budget_bytes
          → u.used_bytes + u.remaining_bytes ≡ u.request_budget_bytes)
      × (u.request_budget_bytes ≤ u.used_bytes → u.remaining_bytes ≡ 0)
      × (p.compaction.strategy ≡ off → u.proactive_compaction_due ≡ false)
unfolding usage is_due
usage_total trim p used discarded h =
    let v = (validate_iff trim p).0 h in
    let budget = request_budget_bytes p in
    let b = p.token_estimate.bytes_per_token in
    let (x, e, s, t) = div_ceil_least used b v.estimate in
    let (y, f, s', t') = div_ceil_least budget b v.estimate in
    let (z, g, s'', t'') = div_ceil_least (budget - used) b v.estimate in
    (
      record {
        request_budget_bytes = budget;
        used_bytes = used;
        remaining_bytes = budget - used;
        context_cap_bytes = p.context_cap_bytes;
        estimated_used_tokens = x;
        estimated_budget_tokens = y;
        estimated_remaining_tokens = z;
        discarded_segments = discarded;
        compaction_strategy = p.compaction.strategy;
        trigger_ratio = p.compaction.trigger_ratio;
        proactive_compaction_due = is_due p.compaction x y;
      },
      ground (arith, e, f, g),
      omega (arith, v.request, v.reserved),
      λ k. omega arith,
      λ k. omega arith,
      λ k. rw k,
    )

-- The trigger on estimates that a `usize` holds a hundred times: it fires exactly when a compaction is
-- enabled, its ratio is not zero, and that share of the budget is in use.
pub is_due_iff :
    (c : CompactionPolicy) (used budget : ℕ)
    → used * 100 ≤ u64_max
    → budget * c.trigger_ratio ≤ u64_max
    → (is_due c used budget ≡ true) ↔ (
        (compacts c.strategy ≡ true)
        × (0 < c.trigger_ratio)
        × (budget * c.trigger_ratio ≤ used * 100))
unfolding is_due
is_due_iff c used budget h k =
    let left = mod-eq_of_lt {n = budget * c.trigger_ratio} {m = u64_max + 1} (omega arith) in
    let right = mod-eq_of_lt {n = used * 100} {m = u64_max + 1} (omega arith) in
    ground (arith, left, right)
