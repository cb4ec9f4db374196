-- ===== src/Engine/Ledger/History/Tables.antt =====
-- The calls of crates/latte-engine/src/storage.rs that do not commit a transition, seen from the tables
-- of turns.
use latte_code.Base.{
  ℕ, ◌+◌, ◌≡◌, refl, subst, inl, inr, String, Bool, true, Option, some, List, [], ◌∷◌, ok, All,
  All-find, ◌&&◌, ◌==◌, find, nat_eq, string_eq, arith, Bool-cases, Option-cases, Result-cases,
  u64_max, ◌≤◌,
}
use latte_code.Core.Protocol.{TurnId, EventId, TurnStatus, RuntimeEvent}
use latte_code.Core.Turn.{TurnState}
use latte_code.Core.Turn.Invariant.{IsWellFormed}
use latte_code.Engine.Ledger.{Database, Lease, TurnRow}
use latte_code.Engine.Ledger.Leases.{renew_lease, release_lease}
use latte_code.Engine.Ledger.Turns.{at_turn, commit}
use latte_code.Engine.Ledger.Turns.Rows.{IsConsistent, IsRow}
use latte_code.Engine.Ledger.Turns.Commit.{commit-IsConsistent}
use latte_code.Engine.Ledger.Turns.Touched.{Owned, commit-Owned}
use latte_code.Engine.Ledger.Effects.{
  EffectAuthority, create_prepared_permission, finish_effect, mark_effect_unknown,
}
use latte_code.Engine.Ledger.Replace.{replace_pending_effect}
use latte_code.Engine.Ledger.Waiting.{
  LeaseLossRecovery, cancel_waiting, abandon, interrupt_row, interrupt_after_lease_loss,
  put_checkpoint, is_ended, is_running,
}
use latte_code.Engine.Ledger.Waiting.Effects.{abandon-ok, withdraw-ok}
use latte_code.Engine.Ledger.Waiting.Turns.{cancel-IsConsistent, find-id}

-- Turns, read model and events agree, and every event has its turn.
pub record IsSane (db : Database) : Type 0 where
  pub agrees : IsConsistent db
  pub owned : Owned db.turns db.events

abbrev pub SameTurns : Database → Database → Type 0
SameTurns db db' =
    (db'.turns ≡ db.turns)
    × (db'.read_model ≡ db.read_model)
    × (db'.events ≡ db.events)
    × (db'.last_token ≡ db.last_token)

pub same-IsSane : (db db' : Database) → SameTurns db db' → IsSane db → IsSane db'
same-IsSane db db' (t, r, e, n) v = record {
  agrees = record {
    distinct = rw t v.agrees.distinct;
    rows = rw (t, n) v.agrees.rows;
    mirror = rw (t, r) v.agrees.mirror;
    logged = rw (t, e) v.agrees.logged;
  };
  owned = rw (t, e) v.owned;
}

pub renew-SameTurns :
    (db : Database) (held : Lease) (now ttl : ℕ) {l : Lease} {db' : Database}
    → renew_lease db held now ttl ≡ ok (l, db')
    → SameTurns db db'
unfolding renew_lease
renew-SameTurns db held now ttl h = ground arith

pub release-SameTurns :
    (db : Database) (held : Lease) {db' : Database}
    → release_lease db held ≡ ok db'
    → SameTurns db db'
unfolding release_lease
release-SameTurns db held h = ground arith

pub mark-SameTurns :
    (db : Database) (a : EffectAuthority) (now : ℕ) {db' : Database}
    → mark_effect_unknown db a now ≡ ok db'
    → SameTurns db db'
unfolding mark_effect_unknown
mark-SameTurns db a now h = ground arith

module _ (json_error : String → Option String) (db : Database) where
  pub create-SameTurns :
      (effect_id : String) (turn : TurnId) (expected bound attempt : ℕ) (descriptor digest : String)
      (lease : Lease) (now : ℕ) {db' : Database}
      → create_prepared_permission json_error db effect_id turn expected bound attempt descriptor
          digest lease now
        ≡ ok db'
      → SameTurns db db'
  unfolding create_prepared_permission
  create-SameTurns effect_id turn expected bound attempt descriptor digest lease now h =
      ground arith

  pub finish-SameTurns :
      (a : EffectAuthority) (success : Bool) (post : String) (now : ℕ) {db' : Database}
      → finish_effect json_error db a success post now ≡ ok db'
      → SameTurns db db'
  unfolding finish_effect
  finish-SameTurns a success post now h = ground arith

  pub checkpoint-SameTurns :
      (id : TurnId) (expected : ℕ) (lease : Lease) (payload : String) (now : ℕ) {db' : Database}
      → put_checkpoint json_error db id expected lease payload now ≡ ok db'
      → SameTurns db db'
  unfolding put_checkpoint
  checkpoint-SameTurns id expected lease payload now h = ground arith

  pub replace-SameTurns :
      (old_id new_id : String) (turn : TurnId) (revision attempt : ℕ) (descriptor digest : String)
      (lease : Lease) (now : ℕ) {db' : Database}
      → replace_pending_effect json_error db old_id new_id turn revision attempt descriptor digest
          lease now
        ≡ ok db'
      → SameTurns db db'
  unfolding replace_pending_effect
  replace-SameTurns old_id new_id turn revision attempt descriptor digest lease now h = ground arith

-- A cancellation, whether it writes or not.
pub cancel-IsSane :
    (db : Database) (id : TurnId) (expected : ℕ) (lease : Lease) (event_id : EventId) (now : ℕ)
    (denied : Bool) {next : TurnState} {seq : Option ℕ} {db' : Database}
    → IsSane db
    → lease.fencing_token ≤ db.last_token
    → cancel_waiting db id expected lease event_id now denied ≡ ok (next, seq, db')
    → IsSane db'
unfolding cancel_waiting
cancel-IsSane db id expected lease event_id now denied {next} {seq} {db'} v l h =
    elim (Option-cases (find (at_turn id) db.turns)) [
      | inl e ↦ absurd (ground (arith, e))
      | inr (row, e) ↦ elim (Bool-cases (is_ended row.state.status)) [
        | inl d ↦
            let same : db ≡ db' = ground (arith, e, d) in subst (λ (x : Database). IsSane x) same v
        | inr d ↦
            let done : abandon db id row expected lease event_id now denied ≡ ok (next, seq, db') =
              ground (arith, e, d) in
            let (released, after, w, c, n, s, x, q, same) =
              abandon-ok db id row expected lease event_id now denied {next = next} {seq = seq}
                {db' = db'} done in
            let (u, g, turns, reads, events) =
              withdraw-ok db id row.state.pending_permission denied now {db' = released} w in
            let (found, formed, agrees) =
              cancel-IsConsistent db id expected lease event_id now denied {next = next}
                {seq = row.last_seq + 1} {db' = db'} v.agrees l
                (subst
                  (λ (z : Option ℕ).
                    cancel_waiting db id expected lease event_id now denied ≡ ok (next, z, db'))
                  q h) in
            let owned : Owned after.turns after.events =
              commit-Owned released id next (RuntimeEvent.state_changed TurnStatus.failed)
                (row.last_seq + 1) lease.fencing_token event_id now _ {row = row} {db' = after} c
                (rw turns e) (rw (turns, events) v.owned) in
            record { agrees = agrees; owned = rw same owned }
      ]
    ]

interrupted-IsWellFormed :
    (s : TurnState)
    → IsWellFormed s
    → is_running s.status ≡ true
    → s.revision + 1 ≤ u64_max
    → IsWellFormed (record s { revision = s.revision + 1; status = TurnStatus.interrupted })
interrupted-IsWellFormed s v w b = ground (arith, v)

every : (p : TurnRow → Bool) (xs : List TurnRow) → All (λ (r : TurnRow). p r ≡ p r) xs
every p [] = tt
every p (x ∷ xs) = (refl, every p xs)

interrupt_row-IsSane :
    (db : Database) (row : TurnRow) (id : TurnId) (event_id : EventId) (now : ℕ)
    {r : LeaseLossRecovery} {db' : Database}
    → IsSane db
    → find (at_turn id) db.turns ≡ some row
    → is_running row.state.status ≡ true
    → interrupt_row db row id event_id now ≡ ok (r, db')
    → IsSane db'
unfolding interrupt_row
interrupt_row-IsSane db row id event_id now {r} {db'} v f b h =
    let next : TurnState = record row.state {
      revision = row.state.revision + 1;
      status = TurnStatus.interrupted;
    } in
    let event = RuntimeEvent.state_changed TurnStatus.interrupted in
    let seq = row.last_seq + 1 in
    let put = commit db id next event seq row.lease_token event_id now (at_turn id) in
    let fit = All-find (IsRow db.last_token) (at_turn id) db.turns {a = row} v.agrees.rows f in
    elim (Result-cases put) [
      | inl (e, c) ↦ absurd (ground (arith, c))
      | inr (after, c) ↦
          let room : row.state.revision + 1 ≤ u64_max = ground (arith, c) in
          let made : IsConsistent after =
            commit-IsConsistent db id next event seq row.lease_token event_id now (at_turn id) c
              {row = row} v.agrees f (every (at_turn id) db.turns) refl
              (ground (arith, fit.identity, find-id id db.turns {r = row} f))
              (interrupted-IsWellFormed row.state fit.formed b room) fit.token in
          let owned =
            commit-Owned db id next event seq row.lease_token event_id now (at_turn id) {row = row}
              c f v.owned in
          same-IsSane after db' (ground (arith, c)) (record { agrees = made; owned = owned })
    ]

-- A call after the loss of a lease, whether it interrupts the turn or not.
pub interrupt-IsSane :
    (db : Database) (id : TurnId) (lost : Lease) (expected : ℕ) (event_id : EventId) (now : ℕ)
    {r : LeaseLossRecovery} {db' : Database}
    → IsSane db
    → interrupt_after_lease_loss db id lost expected event_id now ≡ ok (r, db')
    → IsSane db'
unfolding interrupt_after_lease_loss
interrupt-IsSane db id lost expected event_id now {r} {db'} v h =
    elim (Option-cases (find (at_turn id) db.turns)) [
      | inl e ↦ absurd (ground (arith, e))
      | inr (row, e) ↦
          elim (Bool-cases
            (row.lease_token == lost.fencing_token && row.state.revision == expected)) [
              | inl a ↦ elim (Bool-cases (is_running row.state.status)) [
                | inl b ↦
                    interrupt_row-IsSane db row id event_id now {r = r} {db' = db'} v e b
                      (ground (arith, e, a, b))
                | inr b ↦ same-IsSane db db' (ground (arith, e, a, b)) v
              ]
              | inr a ↦ same-IsSane db db' (ground (arith, e, a)) v
            ]
    ]
