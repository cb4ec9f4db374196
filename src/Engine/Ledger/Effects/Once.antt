-- ===== src/Engine/Ledger/Effects/Once.antt =====
-- What the consumption of a permission in crates/latte-engine/src/storage.rs needs of the effects, and
-- the key of their table.
use latte_code.Base.{
  ℕ, ◌≡◌, refl, subst, inl, inr, String, Bool, true, false, Option, none, some, List, [], ◌∷◌, ok,
  ◌==◌, any, find, count, update, if◌then◌else◌, nat_eq, string_eq, eq_iff, arith, Bool-cases,
}
use latte_code.Core.Protocol.{TurnId}
use latte_code.Engine.Ledger.{
  Database, Lease, EffectRow, EffectStatus, prepared, started, observed_success, observed_failed,
  unknown, declared,
}
use latte_code.Engine.Ledger.Effects.{
  EffectAuthority, startable, observable, changes, holds, create_prepared_permission,
  consume_permission_and_start, finish_effect, mark_effect_unknown, prepared_effect,
}
use latte_code.Engine.Ledger.Effects.Status.{
  Keyed, has_id, status_of, find-update, Moves, stays, prepares, starts, succeeds, fails, loses,
  cancels,
}

-- The effect was started, whatever came of it.
abbrev pub is_spent : Option EffectStatus → Bool
is_spent none = false
is_spent (some declared) = false
is_spent (some prepared) = false
is_spent (some _) = true

pub Moves-is_spent : {s t : Option EffectStatus} → Moves s t → is_spent s ≡ true → is_spent t ≡ true
Moves-is_spent stays h = h
Moves-is_spent prepares h = cc
Moves-is_spent starts h = refl
Moves-is_spent succeeds h = refl
Moves-is_spent fails h = refl
Moves-is_spent loses h = refl
Moves-is_spent cancels h = cc

-- The one row that a condition on an effect's row selects is the row of that effect.
pub find-selected :
    (id : String) (p : EffectRow → Bool)
    → ((e : EffectRow) → p e ≡ true → has_id id e ≡ true)
    → (xs : List EffectRow) → Keyed xs
    → count p xs ≡ 1
    → (e : EffectRow) × (find (has_id id) xs ≡ some e) × (p e ≡ true)
find-selected id p own [] k h = cc
find-selected id p own (x ∷ xs) k h = elim (Bool-cases (x.effect_id == id)) [
  | inl q ↦
      let same : x.effect_id ≡ id = (eq_iff x.effect_id id).0 q in
      let rest = none xs (subst (λ (t : String). any (has_id t) xs ≡ false) same k.0) in
      (x, rw q, ground (arith, rest))
  | inr q ↦
      let other : p x ≡ false = elim (Bool-cases (p x)) [
        | inl r ↦ let hit = own x r in absurd (ground (arith, hit, q))
        | inr r ↦ r
      ] in
      let (e, f, s) = find-selected id p own xs k.1 (ground (arith, other)) in (e, rw q f, s)
]
  where
    none : (ys : List EffectRow) → any (has_id id) ys ≡ false → count p ys ≡ 0
    none [] h = refl
    none (y ∷ ys) h = elim (Bool-cases (p y)) [
      | inl r ↦ let hit = own y r in ground (arith, hit)
      | inr r ↦ ground (arith, r, none ys)
    ]

-- A consumption finds its effect prepared and leaves it started.
pub consume-status_of :
    (db : Database) (effect_id : String) (turn : TurnId) (revision : ℕ) (lease : Lease)
    (digest : String) (now : ℕ) {a : EffectAuthority} {db' : Database}
    → Keyed db.effects
    → consume_permission_and_start db effect_id turn revision lease digest now ≡ ok (a, db')
    → (status_of db effect_id ≡ some prepared) × (status_of db' effect_id ≡ some started)
unfolding consume_permission_and_start
consume-status_of db effect_id turn revision lease digest now {a} {db'} k h =
    let start = λ (e : EffectRow). record e { status = started; started_at_ms = now } in
    let rows : db'.effects ≡ update (startable effect_id digest) start db.effects = ground arith in
    let (e, f, s) =
      find-selected effect_id (startable effect_id digest) (λ x q. ground arith) db.effects k
        (ground arith) in
    let was : e.status ≡ prepared = ground arith in
    let seen = find-update effect_id (startable effect_id digest) start (λ x. refl) db.effects in
    (rw (f, was), rw (rows, seen, f, s))

pub Keyed-update :
    (p : EffectRow → Bool) (f : EffectRow → EffectRow)
    → ((e : EffectRow) → (f e).effect_id ≡ e.effect_id)
    → (xs : List EffectRow) → Keyed xs
    → Keyed (update p f xs)
Keyed-update p f k [] h = tt
Keyed-update p f k (x ∷ xs) h = elim (Bool-cases (p x)) [
  | inl q ↦ rw q (rw (k x, kept x.effect_id xs) h.0, Keyed-update p f k xs h.1)
  | inr q ↦ rw q (rw (kept x.effect_id xs) h.0, Keyed-update p f k xs h.1)
]
  where
    kept :
        (id : String) (ys : List EffectRow) → any (has_id id) (update p f ys) ≡ any (has_id id) ys
    kept id [] = refl
    kept id (y ∷ ys) = ground (arith, k y, kept id ys)

-- Each operation keeps the primary key.
pub consume-Keyed :
    (db : Database) (effect_id : String) (turn : TurnId) (revision : ℕ) (lease : Lease)
    (digest : String) (now : ℕ) {a : EffectAuthority} {db' : Database}
    → Keyed db.effects
    → consume_permission_and_start db effect_id turn revision lease digest now ≡ ok (a, db')
    → Keyed db'.effects
unfolding consume_permission_and_start
consume-Keyed db effect_id turn revision lease digest now {a} {db'} k h =
    let start = λ (e : EffectRow). record e { status = started; started_at_ms = now } in
    let rows : db'.effects ≡ update (startable effect_id digest) start db.effects = ground arith in
    rw rows (Keyed-update (startable effect_id digest) start (λ e. refl) db.effects k)

pub finish-Keyed :
    (json_error : String → Option String) (db : Database) (a : EffectAuthority) (success : Bool)
    (post : String) (now : ℕ) {db' : Database}
    → Keyed db.effects
    → finish_effect json_error db a success post now ≡ ok db'
    → Keyed db'.effects
unfolding finish_effect
finish-Keyed json_error db a success post now {db'} k h =
    let done = λ (e : EffectRow). record e {
      status = if success then observed_success else observed_failed;
      post_evidence = some post;
      observed_at_ms = some now;
    } in
    let rows : db'.effects ≡ update (changes (holds db a now) (observable a)) done db.effects =
      ground arith in
    rw rows (Keyed-update (changes (holds db a now) (observable a)) done (λ e. refl) db.effects k)

pub mark-Keyed :
    (db : Database) (a : EffectAuthority) (now : ℕ) {db' : Database}
    → Keyed db.effects
    → mark_effect_unknown db a now ≡ ok db'
    → Keyed db'.effects
unfolding mark_effect_unknown
mark-Keyed db a now {db'} k h =
    let done = λ (e : EffectRow). record e { status = unknown; observed_at_ms = some now } in
    let rows : db'.effects ≡ update (changes (holds db a now) (observable a)) done db.effects =
      ground arith in
    rw rows (Keyed-update (changes (holds db a now) (observable a)) done (λ e. refl) db.effects k)

pub create-Keyed :
    (json_error : String → Option String) (db : Database) (effect_id : String) (turn : TurnId)
    (expected bound attempt : ℕ) (descriptor digest : String) (lease : Lease) (now : ℕ)
    {db' : Database}
    → Keyed db.effects
    → create_prepared_permission json_error db effect_id turn expected bound attempt descriptor
        digest lease now
      ≡ ok db'
    → Keyed db'.effects
unfolding create_prepared_permission
create-Keyed json_error db effect_id turn expected bound attempt descriptor digest lease now {db'} k
      h =
    let rows : db'.effects
        ≡ prepared_effect effect_id turn attempt descriptor digest now ∷ db.effects =
      ground arith in
    let free : any (has_id effect_id) db.effects ≡ false = ground arith in rw rows (free, k)
