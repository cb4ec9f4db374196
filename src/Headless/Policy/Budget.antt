-- ===== src/Headless/Policy/Budget.antt =====
-- The budget of crates/latte-headless/src/session.rs is the budget that the profile projects.

use latte_code.Base.{◌<◌, ◌≡◌, String, ok, nat_eq, arith}
use latte_code.Core.Profile.{ContextPolicy, request_budget_bytes}
use latte_code.Core.Profile as Profile
use latte_code.Core.Profile.Budget.{validate_iff}
use latte_code.Headless.Policy.{validate, budget, history_policy}

-- For a profile that was validated, the runtime's budget is the one that the profile reports, and it
-- is not zero.
pub budget-history_policy :
    {P : Type 0} (trim : String → String) (c : ContextPolicy)
    → Profile.validate trim c ≡ ok tt
    → (budget {P = P} (history_policy c) ≡ ok (request_budget_bytes c))
      × (0 < request_budget_bytes c)
unfolding budget validate
budget-history_policy trim c h =
    let v = (validate_iff trim c).0 h in
    (
      ground (arith, v.request, v.reserved, v.cap, v.timeout, v.rounds),
      omega (arith, v.request, v.reserved),
    )
