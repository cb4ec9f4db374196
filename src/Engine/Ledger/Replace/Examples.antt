-- ===== src/Engine/Ledger/Replace/Examples.antt =====
-- A pending effect of crates/latte-engine/src/storage.rs that a new engine takes over, on concrete
-- tables.
use latte_code.Base.{◌≡◌, refl, ◌∷◌, [], ok, err}
use latte_code.Engine.Ledger.{Database, is_authoritative, lease_lost}
use latte_code.Engine.Ledger.Fixtures.{
  json_error, first_lease, second_lease, asking, waiting_row, write_effect,
}
use latte_code.Engine.Ledger.Effects.{turn_at, prepared_effect}
use latte_code.Engine.Ledger.Replace.{replace_pending_effect, lease_changed, rebound_permission}

-- The second engine holds the lease, and the turn is bound to it.
abbrev pub inherited : Database
inherited = record asking {
  leases = second_lease ∷ [];
  last_token = 2;
  turns = (record waiting_row { lease_token = 2 }) ∷ [];
}

abbrev pub rebound : Database
rebound = record inherited {
  effects =
      prepared_effect "effect-2" 7 1 "{}" "digest-2" 120 ∷ lease_changed 120 write_effect ∷ [];
  permissions = rebound_permission "effect-2" 7 4 second_lease "digest-2" ∷ [];
}

pub rebind :
    replace_pending_effect json_error inherited "effect-1" "effect-2" 7 4 1 "{}" "digest-2"
      second_lease 120
    ≡ ok rebound
unfolding replace_pending_effect is_authoritative turn_at
rebind = refl

-- The holder of the permission does not replace it.
rebind-holder :
    replace_pending_effect json_error asking "effect-1" "effect-2" 7 4 1 "{}" "digest-2" first_lease
      50
    ≡ err lease_lost
unfolding replace_pending_effect is_authoritative turn_at
rebind-holder = refl
