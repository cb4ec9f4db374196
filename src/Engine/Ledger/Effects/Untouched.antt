-- ===== src/Engine/Ledger/Effects/Untouched.antt =====
-- The tables that the effect operations of crates/latte-engine/src/storage.rs leave alone.
use latte_code.Base.{ℕ, ◌≡◌, String, Bool, Option, ok, nat_eq, string_eq, arith}
use latte_code.Core.Protocol.{TurnId}
use latte_code.Engine.Ledger.{Database, Lease}
use latte_code.Engine.Ledger.Effects.{
  EffectAuthority, create_prepared_permission, consume_permission_and_start, finish_effect,
  mark_effect_unknown,
}

-- The leases and their counter.
abbrev pub SameLeases : Database → Database → Type 0
SameLeases db db' = (db'.leases ≡ db.leases) × (db'.last_token ≡ db.last_token)

pub consume-SameLeases :
    (db : Database) (effect_id : String) (turn : TurnId) (revision : ℕ) (lease : Lease)
    (digest : String) (now : ℕ) {a : EffectAuthority} {db' : Database}
    → consume_permission_and_start db effect_id turn revision lease digest now ≡ ok (a, db')
    → SameLeases db db'
unfolding consume_permission_and_start
consume-SameLeases db effect_id turn revision lease digest now {a} {db'} h = ground arith

pub finish-SameLeases :
    (json_error : String → Option String) (db : Database) (a : EffectAuthority) (success : Bool)
    (post : String) (now : ℕ) {db' : Database}
    → finish_effect json_error db a success post now ≡ ok db'
    → SameLeases db db'
unfolding finish_effect
finish-SameLeases json_error db a success post now {db'} h = ground arith

pub mark-SameLeases :
    (db : Database) (a : EffectAuthority) (now : ℕ) {db' : Database}
    → mark_effect_unknown db a now ≡ ok db'
    → SameLeases db db'
unfolding mark_effect_unknown
mark-SameLeases db a now {db'} h = ground arith

pub create-SameLeases :
    (json_error : String → Option String) (db : Database) (effect_id : String) (turn : TurnId)
    (expected bound attempt : ℕ) (descriptor digest : String) (lease : Lease) (now : ℕ)
    {db' : Database}
    → create_prepared_permission json_error db effect_id turn expected bound attempt descriptor
        digest lease now
      ≡ ok db'
    → SameLeases db db'
unfolding create_prepared_permission
create-SameLeases json_error db effect_id turn expected bound attempt descriptor digest lease now
      {db'} h =
    ground arith
