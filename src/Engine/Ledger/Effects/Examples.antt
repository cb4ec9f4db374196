-- ===== src/Engine/Ledger/Effects/Examples.antt =====
-- The effects of crates/latte-engine/src/storage.rs on concrete tables.
use latte_code.Base.{◌≡◌, refl, true, some, [], ◌∷◌, ok}
use latte_code.Engine.Ledger.{Database, is_authoritative, started, observed_success}
use latte_code.Engine.Ledger.Fixtures.{
  json_error, first_lease, approved, turn_row, write_effect, write_permission, write_authority,
}
use latte_code.Engine.Ledger.Effects.{turn_at, consume_permission_and_start, finish_effect}

-- The permission is consumed, and the effect started.
abbrev pub running_write : Database
running_write = record approved {
  effects = (record write_effect { status = started; started_at_ms = 20 }) ∷ [];
  permissions = (record write_permission { consumed_at_ms = some 20 }) ∷ [];
  turns = (record turn_row { effect_epoch = 1 }) ∷ [];
}

pub consume_write :
    consume_permission_and_start approved "effect-1" 7 0 first_lease "digest-1" 20
    ≡ ok (write_authority, running_write)
unfolding consume_permission_and_start is_authoritative
consume_write = refl

-- The effect succeeded.
abbrev pub written_effect : Database
written_effect = record running_write {
  effects =
      (record write_effect {
        status = observed_success;
        started_at_ms = 20;
        post_evidence = some "{}";
        observed_at_ms = some 30;
      })
      ∷ [];
}

pub finish_write :
    finish_effect json_error running_write write_authority true "{}" 30 ≡ ok written_effect
unfolding finish_effect is_authoritative turn_at
finish_write = refl
