-- ===== src/Engine/Ledger/Effects.antt =====
-- The effect ledger of crates/latte-engine/src/storage.rs for the runtime scope: an effect is prepared
-- with its permission, started by consuming the permission, and finished or marked unknown by the
-- authority that started it.
pub mod Status
pub mod Once
pub mod Untouched
pub mod Examples
use latte_code.Base.{
  ℕ, ◌+◌, ◌-◌, ◌≡◌, String, Bool, true, false, not, ◌&&◌, ◌||◌, Option, none, some, List, [], ◌∷◌,
  ◌++◌, map, Result, ok, err, guard, ◌>>=◌, ◌>>◌, ◌==◌, any, find, count, update, delete, ltb, leb,
  if◌then◌else◌, ok_or, nat_eq, string_eq,
}
use latte_code.Core.Protocol.{TurnId}
use latte_code.Engine.Ledger.{
  Database, Lease, TurnRow, EffectRow, PermissionRow, EffectStatus, StorageError, sql, invalid_data,
  lease_lost, effect_fenced, fits, require_runtime, is_authoritative, is_live_row, prepared,
  started, observed_success, observed_failed, unknown,
}

pub record EffectAuthority : Type 0 where
  pub turn_id : TurnId
  pub expected_revision : ℕ
  pub lease : Lease
  pub effect_id : String
  pub digest : String
  pub attempt : ℕ

abbrev pub is_prepared : EffectStatus → Bool
is_prepared prepared = true
is_prepared _ = false

abbrev pub is_started : EffectStatus → Bool
is_started started = true
is_started _ = false

abbrev pub is_none {ℓ} : {A : Type ℓ} → Option A → Bool
is_none none = true
is_none (some a) = false

-- `EXISTS(SELECT 1 FROM turns WHERE turn_id=? AND revision=? AND lease_token=?)`.
unfoldable pub turn_at : Database → TurnId → ℕ → ℕ → Bool
turn_at db id revision token =
    any (λ (r : TurnRow). r.turn_id == id && r.revision == revision && r.lease_token == token)
      db.turns

-- `INSERT INTO effects`, with the primary key.
unfoldable pub insert_effect : EffectRow → List EffectRow → Result (List EffectRow) StorageError
insert_effect e rows =
    if any (λ (x : EffectRow). x.effect_id == e.effect_id) rows then err sql else ok (e ∷ rows)

-- `INSERT INTO pending_permissions`: the primary key, and the digest is unique.
unfoldable pub insert_permission :
    PermissionRow → List PermissionRow → Result (List PermissionRow) StorageError
insert_permission p rows =
    if any
      (λ (x : PermissionRow). x.effect_id == p.effect_id || x.approval_digest == p.approval_digest)
      rows
    then err sql
    else ok (p ∷ rows)

abbrev pub prepared_effect : String → TurnId → ℕ → String → String → ℕ → EffectRow
prepared_effect effect_id turn attempt descriptor digest now = record {
  effect_id = effect_id;
  turn_id = turn;
  status = prepared;
  started_at_ms = now;
  attempt = attempt;
  descriptor = descriptor;
  approval_digest = digest;
  pre_evidence = "{}";
  post_evidence = none;
  prepared_at_ms = now;
  observed_at_ms = none;
}

-- The condition of the consuming `UPDATE` on a row of `pending_permissions`.
abbrev pub consumable : String → TurnId → ℕ → Lease → String → PermissionRow → Bool
consumable effect_id turn revision lease digest p =
    p.effect_id == effect_id
    && p.turn_id == turn
    && p.turn_revision == revision
    && p.lease_owner == lease.owner
    && p.lease_token == lease.fencing_token
    && p.approval_digest == digest
    && is_none p.consumed_at_ms

abbrev pub startable : String → String → EffectRow → Bool
startable effect_id digest e =
    e.effect_id == effect_id && is_prepared e.status && e.approval_digest == digest

-- The effect that an authority may still observe.
abbrev pub observable : EffectAuthority → EffectRow → Bool
observable a e =
    e.effect_id == a.effect_id
    && e.turn_id == a.turn_id
    && is_started e.status
    && e.attempt == a.attempt
    && e.approval_digest == a.digest

-- The rows that an `UPDATE` with conditions outside its table changes.
abbrev pub changes {ℓ} : {A : Type ℓ} → Bool → (A → Bool) → A → Bool
changes outside p x = outside && p x

-- The lease and the turn of an authority, as its terminal writes require them.
abbrev pub holds : Database → EffectAuthority → ℕ → Bool
holds db a now =
    is_authoritative db a.lease now
    && turn_at db a.turn_id a.expected_revision a.lease.fencing_token

-- The three writes of a consumption: the permission, the effect and the turn's effect epoch.
abbrev pub consumed : Database → String → TurnId → ℕ → Lease → String → ℕ → Database
consumed db effect_id turn revision lease digest now = record db {
  permissions =
      update (consumable effect_id turn revision lease digest)
        (λ (p : PermissionRow). record p { consumed_at_ms = some now }) db.permissions;
  effects =
      update (startable effect_id digest)
        (λ (e : EffectRow). record e { status = started; started_at_ms = now }) db.effects;
  turns =
      update
        (λ (r : TurnRow).
          r.turn_id == turn && r.revision == revision && r.lease_token == lease.fencing_token)
        (λ (r : TurnRow). record r { effect_epoch = r.effect_epoch + 1 }) db.turns;
}

module _ (json_error : String → Option String) where
  -- `serde_json::from_str::<Value>(text).map_err(invalid_json)`.
  abbrev pub check_json : String → Result (Unit {0}) StorageError
  check_json text = elim (json_error text) [
    | none ↦ ok tt
    | some message ↦ err (invalid_data message)
  ]

  -- `Storage::create_prepared_permission`.
  unfoldable pub create_prepared_permission :
      Database
      → String
      → TurnId
      → ℕ
      → ℕ
      → ℕ
      → String
      → String
      → Lease
      → ℕ
      → Result Database StorageError
  unfolding insert_effect insert_permission
  create_prepared_permission db effect_id turn expected bound attempt descriptor digest lease now =
      do
        require_runtime lease
        check_json descriptor
        fits lease.fencing_token
        fits now
        fits expected
        guard (is_authoritative db lease now && turn_at db turn expected lease.fencing_token)
            lease_lost
        fits attempt
        effects ←
            insert_effect (prepared_effect effect_id turn attempt descriptor digest now) db.effects
        fits bound
        permissions ←
            insert_permission
              (record {
                effect_id = effect_id;
                turn_id = turn;
                turn_revision = bound;
                lease_owner = lease.owner;
                lease_token = lease.fencing_token;
                approval_digest = digest;
                consumed_at_ms = none;
              })
              db.permissions
        ok (record db { effects = effects; permissions = permissions })

  -- `Storage::finish_effect`.
  unfoldable pub finish_effect :
      Database → EffectAuthority → Bool → String → ℕ → Result Database StorageError
  finish_effect db a success post now = do
    require_runtime a.lease
    check_json post
    fits now
    fits a.attempt
    fits a.lease.fencing_token
    fits a.expected_revision
    guard (count (changes (holds db a now) (observable a)) db.effects == 1) effect_fenced
    ok (record db {
      effects =
          update (changes (holds db a now) (observable a))
            (λ (e : EffectRow). record e {
              status = if success then observed_success else observed_failed;
              post_evidence = some post;
              observed_at_ms = some now;
            })
            db.effects;
    })

-- `Storage::consume_permission_and_start`.
unfoldable pub consume_permission_and_start :
    Database
    → String
    → TurnId
    → ℕ
    → Lease
    → String
    → ℕ
    → Result (EffectAuthority × Database) StorageError
consume_permission_and_start db effect_id turn revision lease digest now = do
  require_runtime lease
  fits now
  fits revision
  fits lease.fencing_token
  let outside =
      any (λ (r : TurnRow). r.turn_id == turn && r.revision == revision) db.turns
      && is_authoritative db lease now
  guard
      (count (changes outside (consumable effect_id turn revision lease digest)) db.permissions
        == 1)
      (invalid_data "permission is stale, mismatched, consumed, or lease-invalid")
  guard (count (startable effect_id digest) db.effects == 1)
      (invalid_data "effect preparation or approval digest mismatch")
  guard
      (count
          (λ (r : TurnRow).
            r.turn_id == turn && r.revision == revision && r.lease_token == lease.fencing_token)
          db.turns
        == 1)
      lease_lost
  row ← ok_or (find (λ (e : EffectRow). e.effect_id == effect_id) db.effects) sql
  ok (
    record {
      turn_id = turn;
      expected_revision = revision;
      lease = lease;
      effect_id = effect_id;
      digest = digest;
      attempt = row.attempt;
    },
    consumed db effect_id turn revision lease digest now,
  )

-- `Storage::mark_effect_unknown`.
unfoldable pub mark_effect_unknown : Database → EffectAuthority → ℕ → Result Database StorageError
mark_effect_unknown db a now = do
  require_runtime a.lease
  fits now
  fits a.attempt
  fits a.lease.fencing_token
  fits a.expected_revision
  guard (count (changes (holds db a now) (observable a)) db.effects == 1) effect_fenced
  ok (record db {
    effects =
        update (changes (holds db a now) (observable a))
          (λ (e : EffectRow). record e { status = unknown; observed_at_ms = some now }) db.effects;
  })

-- `Storage::permission_matches`: the turn is one revision before the permission's.
pub permission_matches :
    Database → String → TurnId → ℕ → Lease → String → ℕ → Result Bool StorageError
permission_matches db effect_id turn revision lease digest now = do
  require_runtime lease
  fits revision
  fits lease.fencing_token
  fits now
  ok (
      any (consumable effect_id turn revision lease digest) db.permissions
      && any (λ (r : TurnRow). r.turn_id == turn && r.revision + 1 == revision) db.turns
      && is_authoritative db lease now)
