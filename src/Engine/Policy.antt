-- ===== src/Engine/Policy.antt =====
-- crates/latte-engine/src/policy.rs: the decision on an effect, with the globs as a parameter.
use latte_code.Base.{ℕ, String, Bool, true, false, if◌then◌else◌}

pub data EffectClass : Type 0 where
  read_only create modify : EffectClass

pub data PolicyDecision : Type 0 where
  allow ask deny : PolicyDecision

-- `PermissionPolicy`, whose globs are a parameter.
pub record PermissionPolicy : Type 0 where
  pub is_match : String → Bool
  pub version : ℕ

abbrev pub is_read_only : EffectClass → Bool
is_read_only read_only = true
is_read_only create = false
is_read_only modify = false

unfoldable pub decide : PermissionPolicy → EffectClass → String → PolicyDecision
decide policy effect target =
    if policy.is_match target then deny else if is_read_only effect then allow else ask
