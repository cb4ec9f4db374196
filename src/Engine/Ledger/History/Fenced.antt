-- ===== src/Engine/Ledger/History/Fenced.antt =====
-- Who may write the ledger of crates/latte-engine/src/storage.rs: the leases that the calls of a history
-- name.
use latte_code.Base.{
  ℕ, ◌≡◌, refl, subst, ◌⊎◌, inl, inr, String, Bool, true, false, Option, none, some, List, [], ◌∷◌,
  ok, any, count, nat_eq, string_eq, arith, Bool-cases,
}
use latte_code.Core.Protocol.{TurnId, EventId, RuntimeEvent}
use latte_code.Core.Turn.{TurnState, TransitionError}
use latte_code.Engine.Ledger.{Database, Lease, is_authoritative, is_live_row, names_row}
use latte_code.Engine.Ledger.Leases.{renew_lease, release_lease}
use latte_code.Engine.Ledger.Leases.Lost.{IsLost}
use latte_code.Engine.Ledger.Turns.{append_event}
use latte_code.Engine.Ledger.Turns.Apply.{apply-ok}
use latte_code.Engine.Ledger.Effects.{
  EffectAuthority, observable, consumable, changes, create_prepared_permission,
  consume_permission_and_start, finish_effect, mark_effect_unknown,
}
use latte_code.Engine.Ledger.Replace.{replace_pending_effect}
use latte_code.Engine.Ledger.Waiting.{cancel_waiting, put_checkpoint}
use latte_code.Engine.Ledger.Waiting.Interrupt.{IsInterruption, interrupt-cases}
use latte_code.Engine.Ledger.History.{
  IsLedger, Call, History, acquired, renewed, released, created, applied, prepared_permission,
  consumed_permission, finished, marked_unknown, appended, ended, lease_loss, checkpointed,
  replaced,
}
use latte_code.Engine.Ledger.History.Safety.{History-IsLost}

-- The lease that a call names. An acquisition asks for one, and a turn is created without one.
abbrev pub named :
    {describe : TransitionError → String} {json_error : String → Option String} {db db' : Database}
    → Call describe json_error db db'
    → Option Lease
named (acquired _ _ _ _ _ _ _) = none
named (renewed held _ _ _ _) = some held
named (released held _) = some held
named (created _ _ _) = none
named (applied _ _ _ _ _ held _ _) = some held
named (prepared_permission _ _ _ _ _ _ _ held _ _) = some held
named (consumed_permission _ _ _ held _ _ _ _) = some held
named (finished a _ _ _ _) = some a.lease
named (marked_unknown a _ _) = some a.lease
named (appended _ _ _ _ _ held _ _) = some held
named (ended _ _ held _ _ _ _ _ _) = some held
named (lease_loss _ lost _ _ _ _ _) = some lost
named (checkpointed _ _ held _ _ _) = some held
named (replaced _ _ _ _ _ _ _ held _ _) = some held

-- The call is `interrupt_after_lease_loss`.
abbrev pub is_recovery :
    {describe : TransitionError → String} {json_error : String → Option String} {db db' : Database}
    → Call describe json_error db db'
    → Bool
is_recovery (lease_loss _ _ _ _ _ _ _) = true
is_recovery _ = false

none-changes {ℓ} : {A : Type ℓ} (p : A → Bool) (xs : List A) → count (changes false p) xs ≡ 0
none-changes p [] = refl
none-changes p (x ∷ xs) = none-changes p xs

count-any {ℓ} : {A : Type ℓ} (p : A → Bool) (xs : List A) → count p xs ≡ 1 → any p xs ≡ true
count-any p [] h = cc
count-any p (x ∷ xs) h = elim (Bool-cases (p x)) [
  | inl q ↦ rw q refl
  | inr q ↦ rw q (count-any p xs (rw q at h))
]

renew-live :
    (db : Database) (held : Lease) (now ttl : ℕ) {r : Lease × Database}
    → renew_lease db held now ttl ≡ ok r
    → is_authoritative db held now ≡ true
unfolding renew_lease is_authoritative
renew-live db held now ttl h = count-any (is_live_row held now) db.leases (ground arith)

pub append-live :
    (db : Database) (next : TurnState) (expected : ℕ) (event_id : EventId) (event : RuntimeEvent)
    (now : ℕ) (held : Lease) {r : ℕ × Database}
    → append_event db next expected event_id event now held ≡ ok r
    → is_authoritative db held now ≡ true
unfolding append_event
append-live db next expected event_id event now held h = ground arith

consume-live :
    (db : Database) (effect_id : String) (turn : TurnId) (revision : ℕ) (held : Lease)
    (digest : String) (now : ℕ) {r : EffectAuthority × Database}
    → consume_permission_and_start db effect_id turn revision held digest now ≡ ok r
    → is_authoritative db held now ≡ true
unfolding consume_permission_and_start
consume-live db effect_id turn revision held digest now h =
    elim (Bool-cases (is_authoritative db held now)) [
      | inl q ↦ q
      | inr q ↦
          let no = none-changes (consumable effect_id turn revision held digest) db.permissions in
          absurd (ground (arith, q, no))
    ]

mark-live :
    (db : Database) (a : EffectAuthority) (now : ℕ) {db' : Database}
    → mark_effect_unknown db a now ≡ ok db'
    → is_authoritative db a.lease now ≡ true
unfolding mark_effect_unknown
mark-live db a now h = elim (Bool-cases (is_authoritative db a.lease now)) [
  | inl q ↦ q
  | inr q ↦ absurd (ground (arith, q, none-changes (observable a) db.effects))
]

pub cancel-live :
    (db : Database) (id : TurnId) (expected : ℕ) (held : Lease) (event_id : EventId) (now : ℕ)
    (denied : Bool) {r : TurnState × Option ℕ × Database}
    → cancel_waiting db id expected held event_id now denied ≡ ok r
    → is_authoritative db held now ≡ true
unfolding cancel_waiting
cancel-live db id expected held event_id now denied h = ground arith

module _ (json_error : String → Option String) (db : Database) where
  create-live :
      (effect_id : String) (turn : TurnId) (expected bound attempt : ℕ) (descriptor digest : String)
      (held : Lease) (now : ℕ) {db' : Database}
      → create_prepared_permission json_error db effect_id turn expected bound attempt descriptor
          digest held now
        ≡ ok db'
      → is_authoritative db held now ≡ true
  unfolding create_prepared_permission
  create-live effect_id turn expected bound attempt descriptor digest held now h = ground arith

  finish-live :
      (a : EffectAuthority) (success : Bool) (post : String) (now : ℕ) {db' : Database}
      → finish_effect json_error db a success post now ≡ ok db'
      → is_authoritative db a.lease now ≡ true
  unfolding finish_effect
  finish-live a success post now h = elim (Bool-cases (is_authoritative db a.lease now)) [
    | inl q ↦ q
    | inr q ↦ absurd (ground (arith, q, none-changes (observable a) db.effects))
  ]

  checkpoint-live :
      (id : TurnId) (expected : ℕ) (held : Lease) (payload : String) (now : ℕ) {db' : Database}
      → put_checkpoint json_error db id expected held payload now ≡ ok db'
      → is_authoritative db held now ≡ true
  unfolding put_checkpoint
  checkpoint-live id expected held payload now h = ground arith

  replace-live :
      (old_id new_id : String) (turn : TurnId) (revision attempt : ℕ) (descriptor digest : String)
      (held : Lease) (now : ℕ) {db' : Database}
      → replace_pending_effect json_error db old_id new_id turn revision attempt descriptor digest
          held now
        ≡ ok db'
      → is_authoritative db held now ≡ true
  unfolding replace_pending_effect
  replace-live old_id new_id turn revision attempt descriptor digest held now h = ground arith

release-named :
    (db : Database) (held : Lease) {db' : Database}
    → release_lease db held ≡ ok db'
    → any (names_row held) db.leases ≡ true
unfolding release_lease
release-named db held h = count-any (names_row held) db.leases (ground arith)

-- What a call shows of the lease that it names: the recovery interrupts under it, and any other call
-- finds it authoritative, or finds its row.
abbrev Shows : Database → Database → Bool → Option Lease → Type 0
Shows db db' recovery none = Unit
Shows db db' true (some l) = (db' ≡ db) ⊎ IsInterruption db l db'
Shows db db' false (some l) =
    ((now : ℕ) × (is_authoritative db l now ≡ true)) ⊎ (any (names_row l) db.leases ≡ true)

module _ (describe : TransitionError → String) (json_error : String → Option String) where
  Call-Shows :
      {db db' : Database} (c : Call describe json_error db db')
      → Shows db db' (is_recovery c) (named c)
  Call-Shows {db} (acquired s o t n x l h) = tt
  Call-Shows {db} (renewed r n x l h) = inl (n, renew-live db r n x h)
  Call-Shows {db} (released r h) = inr (release-named db r h)
  Call-Shows {db} (created s n h) = tt
  Call-Shows {db} {db'} (applied id e t i n r s h) =
      let (row, f, old, moved, live, scope, put) =
        apply-ok describe db id e t i n r {next = s} {db' = db'} h in
      inl (n, live)
  Call-Shows {db} (prepared_permission i t e b a x d r n h) =
      inl (n, create-live json_error db i t e b a x d r n h)
  Call-Shows {db} (consumed_permission i t e r d n a h) = inl (n, consume-live db i t e r d n h)
  Call-Shows {db} (finished a s p n h) = inl (n, finish-live json_error db a s p n h)
  Call-Shows {db} (marked_unknown a n h) = inl (n, mark-live db a n h)
  Call-Shows {db} (appended x e i t n r s h) = inl (n, append-live db x e i t n r h)
  Call-Shows {db} (ended i e r x n d t s h) = inl (n, cancel-live db i e r x n d h)
  Call-Shows {db} {db'} (lease_loss i l e x n r h) =
      interrupt-cases db i l e x n {r = r} {db' = db'} h
  Call-Shows {db} (checkpointed i e r p n h) = inl (n, checkpoint-live json_error db i e r p n h)
  Call-Shows {db} (replaced o i t e a x d r n h) =
      inl (n, replace-live json_error db o i t e a x d r n h)

  -- A lost lease writes nothing more, but for the interruption of its own turns: after any history of
  -- calls, by any holders, the only call that names it and succeeds is interrupt_after_lease_loss. That
  -- leaves every table, or interrupts one running turn that was last written under the token of the
  -- lease, with one event, makes its started effects unknown and keeps the leases, the permissions and
  -- the checkpoints.
  pub lost_only_interrupts :
      (lease : Lease) {db db' db'' : Database}
      → IsLedger db
      → IsLost db lease
      → History describe json_error db db'
      → (c : Call describe json_error db' db'') → named c ≡ some lease
      → (is_recovery c ≡ true) × ((db'' ≡ db') ⊎ IsInterruption db' lease db'')
  lost_only_interrupts lease {db} {db'} {db''} v w h c e =
      let (lost, dead) = History-IsLost describe json_error lease v w h in
      let shown = subst (λ (o : Option Lease). Shows db' db'' (is_recovery c) o) e (Call-Shows c) in
      elim (Bool-cases (is_recovery c)) [
        | inl q ↦ (q, subst (λ (b : Bool). Shows db' db'' b (some lease)) q shown)
        | inr q ↦ elim (subst (λ (b : Bool). Shows db' db'' b (some lease)) q shown) [
          | inl (now, live) ↦ absurd (cc (dead now, live))
          | inr there ↦ absurd (cc (lost.gone, there))
        ]
      ]
