-- ===== src/Engine/Ledger/Replace.antt =====
-- `Storage::replace_pending_effect` of crates/latte-engine/src/storage.rs: the owner of a new lease
-- takes over an effect that still waits for its permission.
pub mod Examples
pub mod Rebound
use latte_code.Base.{
  ℕ, ◌-◌, String, ◌≡◌, Bool, ◌&&◌, ◌||◌, not, Option, none, some, ok, Result, guard, ◌>>=◌, ◌>>◌,
  ◌==◌, any, count, update, delete, nat_eq, string_eq,
}
use latte_code.Core.Protocol.{TurnId}
use latte_code.Engine.Ledger.{
  Database, Lease, EffectRow, PermissionRow, StorageError, invalid_data, lease_lost, fits,
  require_runtime, is_authoritative, observed_failed,
}
use latte_code.Engine.Ledger.Effects.{
  check_json, is_none, is_prepared, turn_at, insert_effect, insert_permission, prepared_effect,
}

-- `e.effect_id=? AND e.turn_id=? AND e.status='prepared'`.
abbrev pub pending_effect : String → TurnId → EffectRow → Bool
pending_effect effect_id turn e =
    e.effect_id == effect_id && e.turn_id == turn && is_prepared e.status

-- The prepared effect that a permission belongs to.
abbrev pub backs : PermissionRow → EffectRow → Bool
backs p e = pending_effect p.effect_id p.turn_id e && e.approval_digest == p.approval_digest

-- The permission that the new lease may take over: open, of a prepared effect, and bound to another
-- lease.
abbrev pub replaceable : Database → String → TurnId → Lease → PermissionRow → Bool
replaceable db effect_id turn lease p =
    p.turn_id == turn
    && any (backs p) db.effects
    && p.effect_id == effect_id
    && is_none p.consumed_at_ms
    && (not (p.lease_owner == lease.owner) || not (p.lease_token == lease.fencing_token))

-- The row that the `DELETE` takes away.
abbrev pub withdrawn : Database → String → TurnId → PermissionRow → Bool
withdrawn db effect_id turn p =
    p.effect_id == effect_id
    && p.turn_id == turn
    && is_none p.consumed_at_ms
    && any
        (λ (e : EffectRow).
          pending_effect effect_id turn e && e.approval_digest == p.approval_digest)
        db.effects

abbrev pub lease_changed : ℕ → EffectRow → EffectRow
lease_changed now e = record e {
  status = observed_failed;
  post_evidence = some "{\"abandoned\":\"lease_changed\"}";
  observed_at_ms = some now;
}

abbrev pub rebound_permission : String → TurnId → ℕ → Lease → String → PermissionRow
rebound_permission effect_id turn revision lease digest = record {
  effect_id = effect_id;
  turn_id = turn;
  turn_revision = revision;
  lease_owner = lease.owner;
  lease_token = lease.fencing_token;
  approval_digest = digest;
  consumed_at_ms = none;
}

-- The turn stands two revisions before the one that the new permission names.
unfoldable pub replace_pending_effect :
    (String → Option String)
    → Database
    → String
    → String
    → TurnId
    → ℕ
    → ℕ
    → String
    → String
    → Lease
    → ℕ
    → Result Database StorageError
unfolding insert_effect insert_permission
replace_pending_effect json_error db old_effect_id new_effect_id turn revision attempt descriptor
      digest lease now =
    do
      require_runtime lease
      check_json json_error descriptor
      fits lease.fencing_token
      fits now
      fits (revision - 2)
      guard
          (is_authoritative db lease now
            && turn_at db turn (revision - 2) lease.fencing_token
            && any (replaceable db old_effect_id turn lease) db.permissions)
          lease_lost
      guard
          (count (withdrawn db old_effect_id turn) db.permissions == 1
            && count (pending_effect old_effect_id turn) db.effects == 1)
          (invalid_data "old pending effect cannot be replaced")
      fits attempt
      effects ←
          insert_effect (prepared_effect new_effect_id turn attempt descriptor digest now)
            (update (pending_effect old_effect_id turn) (lease_changed now) db.effects)
      fits revision
      permissions ←
          insert_permission (rebound_permission new_effect_id turn revision lease digest)
            (delete (withdrawn db old_effect_id turn) db.permissions)
      ok (record db { effects = effects; permissions = permissions })
