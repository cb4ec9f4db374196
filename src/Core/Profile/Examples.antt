-- ===== src/Core/Profile/Examples.antt =====
-- The budgets of crates/latte-core/src/profile.rs on concrete policies.
use latte_code.Base.{◌≡◌, refl, String, ok}
use latte_code.Core.Profile.{
  CompactionPolicy, summarize_on_discard, default_compaction, default_context, validate,
}

abbrev pub trim : String → String
trim s = s

abbrev summarizing : CompactionPolicy
summarizing = record default_compaction { strategy = summarize_on_discard }

pub default-ok : validate trim default_context ≡ ok tt
unfolding validate
default-ok = refl
