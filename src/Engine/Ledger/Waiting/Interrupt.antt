-- ===== src/Engine/Ledger/Waiting/Interrupt.antt =====
-- What the interruption of a running turn and a checkpoint do to effects and leases in
-- crates/latte-engine/src/storage.rs.
use latte_code.Base.{
  ℕ, ◌+◌, ◌≡◌, refl, sym, subst, ◌⊎◌, inl, inr, String, true, ◌&&◌, Option, some, [], ◌∷◌, ◌++◌, ok,
  ◌==◌, find, update, nat_eq, string_eq, arith, Bool-cases, Option-cases, Result-cases,
}
use latte_code.Core.Protocol.{TurnId, EventId, TurnStatus, RuntimeEvent}
use latte_code.Core.Turn.{TurnState}
use latte_code.Engine.Ledger.{Database, Lease, TurnRow, EffectRow, started, unknown}
use latte_code.Engine.Ledger.Turns.{at_turn, written, commit}
use latte_code.Engine.Ledger.Turns.Commit.{logged_event, commit-ok}
use latte_code.Engine.Ledger.Effects.Status.{loses, Moves-from, started-eq}
use latte_code.Engine.Ledger.Effects.Untouched.{SameLeases}
use latte_code.Engine.Ledger.Waiting.{
  LeaseLossRecovery, interrupt_row, interrupt_after_lease_loss, unsettled, is_running,
  put_checkpoint,
}
use latte_code.Engine.Ledger.Waiting.Effects.{Updated, same-Updated}

-- The turn as the interruption leaves it.
abbrev interrupted_turn : TurnState → TurnState
interrupted_turn s = record s { revision = s.revision + 1; status = TurnStatus.interrupted }

abbrev unknown_effect : EffectRow → EffectRow
unknown_effect e = record e { status = unknown }

-- A running turn that was last written under the token of the lease is interrupted at its next revision,
-- which is logged; its effects that had started become unknown, and the other tables are the same.
abbrev pub IsInterruption : Database → Lease → Database → Type 0
IsInterruption db lost db' =
    (id : TurnId) × (row : TurnRow) × (event_id : EventId) × (now : ℕ) × (find (at_turn id) db.turns
      ≡ some row)
    × (row.lease_token ≡ lost.fencing_token)
    × (is_running row.state.status ≡ true)
    × (db'.turns
        ≡ update (at_turn id)
            (written (interrupted_turn row.state) (row.last_seq + 1) row.lease_token) db.turns)
    × (db'.events
        ≡ db.events
          ++ logged_event id (interrupted_turn row.state)
              (RuntimeEvent.state_changed TurnStatus.interrupted) (row.last_seq + 1) event_id now
            ∷ [])
    × (db'.effects ≡ update (unsettled id) unknown_effect db.effects)
    × SameLeases db db'
    × (db'.permissions ≡ db.permissions)
    × (db'.checkpoints ≡ db.checkpoints)

interrupt_row-ok :
    (db : Database) (row : TurnRow) (id : TurnId) (lost : Lease) (event_id : EventId) (now : ℕ)
    {r : LeaseLossRecovery} {db' : Database}
    → find (at_turn id) db.turns ≡ some row
    → row.lease_token ≡ lost.fencing_token
    → is_running row.state.status ≡ true
    → interrupt_row db row id event_id now ≡ ok (r, db')
    → IsInterruption db lost db'
unfolding interrupt_row
interrupt_row-ok db row id lost event_id now {r} {db'} f t b h =
    let next = interrupted_turn row.state in
    let put =
      commit db id next (RuntimeEvent.state_changed TurnStatus.interrupted) (row.last_seq + 1)
        row.lease_token event_id now (at_turn id) in
    elim (Result-cases put) [
      | inl (e, c) ↦ absurd (ground (arith, c))
      | inr (after, c) ↦
          let (turns, reads, events, rest) =
            commit-ok db id next (RuntimeEvent.state_changed TurnStatus.interrupted)
              (row.last_seq + 1) row.lease_token event_id now (at_turn id) {db' = after} c in
          let same : db'
              ≡ record after { effects = update (unsettled id) unknown_effect after.effects } =
            ground (arith, c) in
          let (l, k, n, e, p, m) = rest in
          (
            id,
            row,
            event_id,
            now,
            f,
            t,
            b,
            rw same turns,
            rw same events,
            rw (same, e) refl,
            (rw same l, rw same k),
            rw same p,
            rw same m,
          )
    ]

-- A call that interrupts leaves every table, or interrupts one turn.
pub interrupt-cases :
    (db : Database) (id : TurnId) (lost : Lease) (expected : ℕ) (event_id : EventId) (now : ℕ)
    {r : LeaseLossRecovery} {db' : Database}
    → interrupt_after_lease_loss db id lost expected event_id now ≡ ok (r, db')
    → (db' ≡ db) ⊎ IsInterruption db lost db'
unfolding interrupt_after_lease_loss
interrupt-cases db id lost expected event_id now {r} {db'} h =
    elim (Option-cases (find (at_turn id) db.turns)) [
      | inl e ↦ absurd (ground (arith, e))
      | inr (row, e) ↦
          elim (Bool-cases
            (row.lease_token == lost.fencing_token && row.state.revision == expected)) [
              | inl a ↦ elim (Bool-cases (is_running row.state.status)) [
                | inl b ↦ inr (
                    interrupt_row-ok db row id lost event_id now {r = r} {db' = db'} e
                      (ground (arith, a)) b (ground (arith, e, a, b)))
                | inr b ↦ inl (ground (arith, e, a, b))
              ]
              | inr a ↦ inl (ground (arith, e, a))
            ]
    ]

-- A call that interrupts keeps the leases, and moves each effect along an edge.
pub interrupt-Updated :
    (db : Database) (id : TurnId) (lost : Lease) (expected : ℕ) (event_id : EventId) (now : ℕ)
    {r : LeaseLossRecovery} {db' : Database}
    → interrupt_after_lease_loss db id lost expected event_id now ≡ ok (r, db')
    → Updated db db' × SameLeases db db'
interrupt-Updated db id lost expected event_id now {r} {db'} h =
    elim (interrupt-cases db id lost expected event_id now {r = r} {db' = db'} h) [
      | inl e ↦
          subst (λ (d : Database). Updated db d × SameLeases db d) (sym e)
            (same-Updated db db refl, (refl, refl))
      | inr (k, row, x, n, f, t, b, turns, events, effects, same, p, m) ↦ (
        (
          unsettled k,
          unknown_effect,
          effects,
          λ e. refl,
          λ e q. Moves-from started (started-eq e.status (ground arith)) loses,
        ),
        same,
      )
    ]

-- A checkpoint touches neither.
pub put_checkpoint-Same :
    (json_error : String → Option String) (db : Database) (id : TurnId) (expected : ℕ)
    (lease : Lease) (payload : String) (now : ℕ) {db' : Database}
    → put_checkpoint json_error db id expected lease payload now ≡ ok db'
    → (db'.effects ≡ db.effects) × SameLeases db db'
unfolding put_checkpoint
put_checkpoint-Same json_error db id expected lease payload now h =
    (ground arith, (ground arith, ground arith))
