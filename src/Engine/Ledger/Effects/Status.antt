-- ===== src/Engine/Ledger/Effects/Status.antt =====
-- The status of one effect in crates/latte-engine/src/storage.rs, seen through each operation.
use latte_code.Base.{
  ℕ, ◌≡◌, refl, sym, subst, inl, inr, String, Bool, true, false, Option, none, some, List, [], ◌∷◌,
  ok, ◌==◌, any, find, update, if◌then◌else◌, nat_eq, string_eq, eq_iff, arith, Bool-cases,
}
use latte_code.Core.Protocol.{TurnId}
use latte_code.Engine.Ledger.{
  Database, Lease, EffectRow, EffectStatus, prepared, started, observed_success, observed_failed,
  unknown,
}
use latte_code.Engine.Ledger.Effects.{
  EffectAuthority, startable, observable, changes, holds, is_started, is_prepared,
  create_prepared_permission, consume_permission_and_start, finish_effect, mark_effect_unknown,
  prepared_effect,
}

abbrev pub has_id : String → EffectRow → Bool
has_id id e = e.effect_id == id

abbrev pub Keyed : List EffectRow → Type 0
Keyed [] = Unit
Keyed (x ∷ xs) = (any (has_id x.effect_id) xs ≡ false) × Keyed xs

abbrev pub row_status : Option EffectRow → Option EffectStatus
row_status none = none
row_status (some e) = some e.status

abbrev pub touched :
    (EffectRow → Bool) → (EffectRow → EffectRow) → Option EffectRow → Option EffectRow
touched p f none = none
touched p f (some e) = some (if p e then f e else e)

-- The status that is recorded for an effect.
abbrev pub status_of : Database → String → Option EffectStatus
status_of db id = row_status (find (has_id id) db.effects)

-- One call moves an effect along one edge, or leaves it.
pub data Moves : Option EffectStatus → Option EffectStatus → Type 0 where
  stays : {s : Option EffectStatus} → Moves s s
  prepares : Moves none (some prepared)
  starts : Moves (some prepared) (some started)
  succeeds : Moves (some started) (some observed_success)
  fails : Moves (some started) (some observed_failed)
  loses : Moves (some started) (some unknown)
  cancels : Moves (some prepared) (some observed_failed)

-- An update that keeps the identifiers, seen from one effect.
pub find-update :
    (id : String) (p : EffectRow → Bool) (f : EffectRow → EffectRow)
    → ((e : EffectRow) → (f e).effect_id ≡ e.effect_id)
    → (rows : List EffectRow)
    → find (has_id id) (update p f rows) ≡ touched p f (find (has_id id) rows)
find-update id p f k [] = refl
find-update id p f k (x ∷ xs) = elim (Bool-cases (p x)) [
  | inl q ↦ rw q (ground (arith, k x, q, find-update id p f k xs))
  | inr q ↦ rw q (ground (arith, q, find-update id p f k xs))
]

-- So an update moves each effect by the edge of the rows that it selects.
pub Moves-update :
    (id : String) (rows : List EffectRow) (p : EffectRow → Bool) (f : EffectRow → EffectRow)
    → ((e : EffectRow) → (f e).effect_id ≡ e.effect_id)
    → ((e : EffectRow) → p e ≡ true → Moves (some e.status) (some (f e).status))
    → Moves (row_status (find (has_id id) rows)) (row_status (find (has_id id) (update p f rows)))
Moves-update id rows p f k h = rw (find-update id p f k rows) (go (find (has_id id) rows))
  where
    go : (o : Option EffectRow) → Moves (row_status o) (row_status (touched p f o))
    go none = stays
    go (some e) = elim (Bool-cases (p e)) [ inl q ↦ rw q (h e q) | inr q ↦ rw q stays ]

pub Moves-from :
    {s t : EffectStatus} (a : EffectStatus)
    → s ≡ a
    → Moves (some a) (some t)
    → Moves (some s) (some t)
Moves-from {s} {t} a e m = subst (λ (x : EffectStatus). Moves (some x) (some t)) (sym e) m

pub started-eq : (s : EffectStatus) → is_started s ≡ true → s ≡ started
started-eq s h = ground arith

pub prepared-eq : (s : EffectStatus) → is_prepared s ≡ true → s ≡ prepared
prepared-eq s h = ground arith

-- Consuming a permission moves each effect along an edge.
pub consume-Moves :
    (db : Database) (effect_id : String) (turn : TurnId) (revision : ℕ) (lease : Lease)
    (digest : String) (now : ℕ) {a : EffectAuthority} {db' : Database}
    → consume_permission_and_start db effect_id turn revision lease digest now ≡ ok (a, db')
    → (id : String) → Moves (status_of db id) (status_of db' id)
unfolding consume_permission_and_start
consume-Moves db effect_id turn revision lease digest now {a} {db'} h id =
    let start = λ (e : EffectRow). record e { status = started; started_at_ms = now } in
    let rows : db'.effects ≡ update (startable effect_id digest) start db.effects = ground arith in
    rw rows (
      Moves-update id db.effects (startable effect_id digest) start (λ e. refl)
        (λ e q. Moves-from prepared (prepared-eq e.status (ground arith)) starts))

-- So does the end of an effect that the code observed, and the mark of one that it could not observe.
pub finish-Moves :
    (json_error : String → Option String) (db : Database) (a : EffectAuthority) (success : Bool)
    (post : String) (now : ℕ) {db' : Database}
    → finish_effect json_error db a success post now ≡ ok db'
    → (id : String) → Moves (status_of db id) (status_of db' id)
unfolding finish_effect
finish-Moves json_error db a true post now {db'} h id =
    let done = λ (e : EffectRow). record e {
      status = observed_success;
      post_evidence = some post;
      observed_at_ms = some now;
    } in
    let rows : db'.effects ≡ update (changes (holds db a now) (observable a)) done db.effects =
      ground arith in
    rw rows (
      Moves-update id db.effects (changes (holds db a now) (observable a)) done (λ e. refl)
        (λ e q. Moves-from started (started-eq e.status (ground arith)) succeeds))
finish-Moves json_error db a false post now {db'} h id =
    let done = λ (e : EffectRow). record e {
      status = observed_failed;
      post_evidence = some post;
      observed_at_ms = some now;
    } in
    let rows : db'.effects ≡ update (changes (holds db a now) (observable a)) done db.effects =
      ground arith in
    rw rows (
      Moves-update id db.effects (changes (holds db a now) (observable a)) done (λ e. refl)
        (λ e q. Moves-from started (started-eq e.status (ground arith)) fails))

pub mark-Moves :
    (db : Database) (a : EffectAuthority) (now : ℕ) {db' : Database}
    → mark_effect_unknown db a now ≡ ok db'
    → (id : String) → Moves (status_of db id) (status_of db' id)
unfolding mark_effect_unknown
mark-Moves db a now {db'} h id =
    let done = λ (e : EffectRow). record e { status = unknown; observed_at_ms = some now } in
    let rows : db'.effects ≡ update (changes (holds db a now) (observable a)) done db.effects =
      ground arith in
    rw rows (
      Moves-update id db.effects (changes (holds db a now) (observable a)) done (λ e. refl)
        (λ e q. Moves-from started (started-eq e.status (ground arith)) loses))

-- Preparing adds one prepared effect under a new identifier.
pub create-Moves :
    (json_error : String → Option String) (db : Database) (effect_id : String) (turn : TurnId)
    (expected bound attempt : ℕ) (descriptor digest : String) (lease : Lease) (now : ℕ)
    {db' : Database}
    → create_prepared_permission json_error db effect_id turn expected bound attempt descriptor
        digest lease now
      ≡ ok db'
    → (id : String) → Moves (status_of db id) (status_of db' id)
unfolding create_prepared_permission
create-Moves json_error db effect_id turn expected bound attempt descriptor digest lease now {db'} h
      id =
    let rows : db'.effects
        ≡ prepared_effect effect_id turn attempt descriptor digest now ∷ db.effects =
      ground arith in
    let free : any (has_id effect_id) db.effects ≡ false = ground arith in
    rw rows (elim (Bool-cases (effect_id == id)) [
      | inl q ↦
          let same : effect_id ≡ id = (eq_iff effect_id id).0 q in
          rw
            (
              q,
              absent db.effects
                  (subst (λ (t : String). any (has_id t) db.effects ≡ false) same free),
            )
            prepares
      | inr q ↦ rw q stays
    ])
  where
    absent : (xs : List EffectRow) → any (has_id id) xs ≡ false → find (has_id id) xs ≡ none
    absent [] q = refl
    absent (x ∷ xs) q = ground (arith, absent xs)
