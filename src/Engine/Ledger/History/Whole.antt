-- ===== src/Engine/Ledger/History/Whole.antt =====
-- All tables of crates/latte-engine/src/storage.rs along a history of calls.
use latte_code.Base.{
  ℕ, ◌+◌, ◌≡◌, refl, String, Option, ok, ◌&&◌, ◌==◌, update, nat_eq, string_eq, arith,
}
use latte_code.Core.Protocol.{TurnId, EventId, RuntimeEvent}
use latte_code.Core.Turn.{TurnState, Transition, TransitionError}
use latte_code.Core.Turn.Invariant.{IsWellFormed}
use latte_code.Engine.Ledger.{Database, Lease, TurnRow}
use latte_code.Engine.Ledger.Leases.Claims.{
  retoken, acquire-Claimed, acquired_token_le, live_token_le,
}
use latte_code.Engine.Ledger.Leases.{acquire_scoped_lease}
use latte_code.Engine.Ledger.Turns.{create_turn, event_of, append_event, apply_transition}
use latte_code.Engine.Ledger.Turns.Create.{created_row, create-ok, create-IsConsistent}
use latte_code.Engine.Ledger.Turns.Apply.{apply-ok, apply-IsConsistent}
use latte_code.Engine.Ledger.Turns.Append.{append-ok, append-IsConsistent}
use latte_code.Engine.Ledger.Turns.Touched.{
  Owned-new, Owned-free, Owned-touched, touched-IsConsistent, commit-Owned,
}
use latte_code.Engine.Ledger.Effects.{EffectAuthority, consume_permission_and_start}
use latte_code.Engine.Ledger.History.{
  IsLedger, Call, History, idle, step, acquired, renewed, released, created, applied,
  prepared_permission, consumed_permission, finished, marked_unknown, appended, ended, lease_loss,
  checkpointed, replaced,
}
use latte_code.Engine.Ledger.History.Fenced.{append-live, cancel-live}
use latte_code.Engine.Ledger.History.Steps.{Call-IsLedger}
use latte_code.Engine.Ledger.History.Tables.{
  IsSane, same-IsSane, renew-SameTurns, release-SameTurns, mark-SameTurns, create-SameTurns,
  finish-SameTurns, checkpoint-SameTurns, replace-SameTurns, cancel-IsSane, interrupt-IsSane,
}

acquire-IsSane :
    (db : Database) (scope owner : String) (turn : Option TurnId) (now ttl : ℕ) {l : Lease}
    {db' : Database}
    → IsLedger db
    → IsSane db
    → acquire_scoped_lease db scope owner turn now ttl ≡ ok (l, db')
    → IsSane db'
acquire-IsSane db scope owner turn now ttl {l} {db'} k v h =
    let (p, t, r, e) = acquire-Claimed db scope owner turn now ttl {l = l} {db' = db'} h in
    let (grows, below) =
      acquired_token_le db scope owner turn now ttl {l = l} {db' = db'} k.sound.bounded h in
    let give = retoken l.fencing_token in
    record {
      agrees =
          touched-IsConsistent p give db db' (λ x. refl) (λ x w. ground (arith, w, below)) grows t r
            e v.agrees;
      owned = rw (t, e) (Owned-touched p give (λ x. refl) db.turns db.events v.owned);
    }

create-IsSane :
    (db : Database) (state : TurnState) (now : ℕ) {db' : Database}
    → IsSane db
    → IsWellFormed state
    → create_turn db state now ≡ ok db'
    → IsSane db'
create-IsSane db state now {db'} v w h =
    let (turns, reads, events, free, rest) = create-ok db state now {db' = db'} h in
    let fresh = Owned-free state.turn_id db.turns db.events free v.owned in
    record {
      agrees = (create-IsConsistent db state now {db' = db'} v.agrees w fresh h).0;
      owned = rw (turns, events) (Owned-new (created_row state) db.turns db.events v.owned);
    }

consume-IsSane :
    (db : Database) (effect_id : String) (turn : TurnId) (revision : ℕ) (lease : Lease)
    (digest : String) (now : ℕ) {a : EffectAuthority} {db' : Database}
    → IsSane db
    → consume_permission_and_start db effect_id turn revision lease digest now ≡ ok (a, db')
    → IsSane db'
unfolding consume_permission_and_start
consume-IsSane db effect_id turn revision lease digest now {a} {db'} v h =
    let p = λ (r : TurnRow).
      r.turn_id == turn && r.revision == revision && r.lease_token == lease.fencing_token in
    let count_up = λ (r : TurnRow). record r { effect_epoch = r.effect_epoch + 1 } in
    let t : db'.turns ≡ update p count_up db.turns = ground arith in
    let e : db'.events ≡ db.events = ground arith in
    record {
      agrees =
          touched-IsConsistent p count_up db db' (λ x. refl) (λ x w. ground (arith, w))
            (ground arith) t (ground arith) e v.agrees;
      owned = rw (t, e) (Owned-touched p count_up (λ x. refl) db.turns db.events v.owned);
    }

append-IsSane :
    (db : Database) (next : TurnState) (expected : ℕ) (event_id : EventId) (event : RuntimeEvent)
    (now : ℕ) (lease : Lease) {seq : ℕ} {db' : Database}
    → IsLedger db
    → IsSane db
    → IsWellFormed next
    → append_event db next expected event_id event now lease ≡ ok (seq, db')
    → IsSane db'
append-IsSane db next expected event_id event now lease {seq} {db'} k v w h =
    let (row, f, e, q, n, put) =
      append-ok db next expected event_id event now lease {seq = seq} {db' = db'} h in
    let live = append-live db next expected event_id event now lease {r = (seq, db')} h in
    let below = live_token_le db lease now k.sound.bounded live in
    record {
      agrees =
          (append-IsConsistent db next expected event_id event now lease {seq = seq} {db' = db'}
            v.agrees w below h).0;
      owned =
          commit-Owned db next.turn_id next event seq lease.fencing_token event_id now _ {row = row}
            put f v.owned;
    }

-- The state that a call brings along, where it brings one, is well formed.
abbrev pub IsFormed :
    {describe : TransitionError → String} {json_error : String → Option String} {db db' : Database}
    → Call describe json_error db db'
    → Type 0
IsFormed (created state _ _) = IsWellFormed state
IsFormed (appended next _ _ _ _ _ _ _) = IsWellFormed next
IsFormed _ = Unit

abbrev pub AllFormed :
    {describe : TransitionError → String} {json_error : String → Option String} {db db' : Database}
    → History describe json_error db db'
    → Type 0
AllFormed idle = Unit
AllFormed (step h c) = AllFormed h × IsFormed c

pub record IsWhole (db : Database) : Type 0 where
  pub ledger : IsLedger db
  pub tables : IsSane db

module _ (describe : TransitionError → String) (json_error : String → Option String) where
  apply-IsSane :
      (db : Database) (id : TurnId) (expected : ℕ) (t : Transition) (event_id : EventId) (now : ℕ)
      (lease : Lease) {next : TurnState} {db' : Database}
      → IsLedger db
      → IsSane db
      → apply_transition describe db id expected t event_id now lease ≡ ok (next, db')
      → IsSane db'
  apply-IsSane db id expected t event_id now lease {next} {db'} k v h =
      let (row, f, old, moved, live, scope, put) =
        apply-ok describe db id expected t event_id now lease {next = next} {db' = db'} h in
      let below = live_token_le db lease now k.sound.bounded live in
      record {
        agrees =
            apply-IsConsistent describe db id expected t event_id now lease {next = next}
              {db' = db'} v.agrees below h;
        owned =
            commit-Owned db id next (event_of next) (row.last_seq + 1) lease.fencing_token event_id
              now _ {row = row} put f v.owned;
      }

  Call-IsSane :
      {db db' : Database}
      → IsLedger db
      → IsSane db
      → (c : Call describe json_error db db') → IsFormed c
      → IsSane db'
  Call-IsSane {db} {db'} k v (acquired s o t n x l h) f = acquire-IsSane db s o t n x k v h
  Call-IsSane {db} {db'} k v (renewed r n x l h) f =
      same-IsSane db db' (renew-SameTurns db r n x h) v
  Call-IsSane {db} {db'} k v (released r h) f = same-IsSane db db' (release-SameTurns db r h) v
  Call-IsSane {db} {db'} k v (created s n h) f = create-IsSane db s n v f h
  Call-IsSane {db} {db'} k v (applied id e t i n r s h) f = apply-IsSane db id e t i n r k v h
  Call-IsSane {db} {db'} k v (prepared_permission i t e b a x d r n h) f =
      same-IsSane db db' (create-SameTurns json_error db i t e b a x d r n h) v
  Call-IsSane {db} {db'} k v (consumed_permission i t e r d n a h) f =
      consume-IsSane db i t e r d n v h
  Call-IsSane {db} {db'} k v (finished a s p n h) f =
      same-IsSane db db' (finish-SameTurns json_error db a s p n h) v
  Call-IsSane {db} {db'} k v (marked_unknown a n h) f =
      same-IsSane db db' (mark-SameTurns db a n h) v
  Call-IsSane {db} {db'} k v (appended x e i t n r s h) f = append-IsSane db x e i t n r k v f h
  Call-IsSane {db} {db'} k v (ended i e r x n d t s h) f =
      let live = cancel-live db i e r x n d {r = (t, s, db')} h in
      cancel-IsSane db i e r x n d v (live_token_le db r n k.sound.bounded live) h
  Call-IsSane {db} {db'} k v (lease_loss i l e x n r h) f = interrupt-IsSane db i l e x n v h
  Call-IsSane {db} {db'} k v (checkpointed i e r p n h) f =
      same-IsSane db db' (checkpoint-SameTurns json_error db i e r p n h) v
  Call-IsSane {db} {db'} k v (replaced o i t e a x d r n h) f =
      same-IsSane db db' (replace-SameTurns json_error db o i t e a x d r n h) v

  -- Every history of successful calls, whose created and appended states are well formed, keeps all
  -- tables together: the leases and effects with their keys, the turns equal to their states and to
  -- the read model, each state well formed, no token above the counter, and every event one of a turn
  -- that is there, at most at its last sequence number.
  pub History-IsWhole :
      {db db' : Database}
      → IsWhole db
      → (h : History describe json_error db db') → AllFormed h
      → IsWhole db'
  History-IsWhole v idle f = v
  History-IsWhole v (step h c) f =
      let w = History-IsWhole v h f.0 in
      record {
        ledger = Call-IsLedger describe json_error w.ledger c;
        tables = Call-IsSane w.ledger w.tables c f.1;
      }
