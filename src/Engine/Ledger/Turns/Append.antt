-- ===== src/Engine/Ledger/Turns/Append.antt =====
-- `Storage::append_event` of crates/latte-engine/src/storage.rs.
use latte_code.Base.{
  ℕ, ◌+◌, ◌≤◌, ◌≡◌, refl, inl, inr, ◌&&◌, some, [], ◌∷◌, ◌++◌, ok, ◌==◌, find, nat_eq, string_eq,
  arith, Option-cases,
}
use latte_code.Core.Protocol.{EventId, RuntimeEvent}
use latte_code.Core.Turn.{TurnState}
use latte_code.Core.Turn.Invariant.{IsWellFormed}
use latte_code.Engine.Ledger.{Database, Lease, TurnRow}
use latte_code.Engine.Ledger.Turns.{at_turn, commit, append_event}
use latte_code.Engine.Ledger.Turns.Rows.{IsConsistent, selects-at_turn}
use latte_code.Engine.Ledger.Turns.Commit.{SameElse, logged_event, commit-ok, commit-IsConsistent}

pub append-ok :
    (db : Database) (next : TurnState) (expected : ℕ) (event_id : EventId) (event : RuntimeEvent)
    (now : ℕ) (lease : Lease) {seq : ℕ} {db' : Database}
    → append_event db next expected event_id event now lease ≡ ok (seq, db')
    → (row : TurnRow) × (find (at_turn next.turn_id) db.turns ≡ some row)
      × (row.revision ≡ expected)
      × (seq ≡ row.last_seq + 1)
      × (next.revision ≡ expected + 1)
      × (commit db next.turn_id next event seq lease.fencing_token event_id now
            (λ (r : TurnRow). r.turn_id == next.turn_id && r.revision == expected)
          ≡ ok db')
unfolding append_event
append-ok db next expected event_id event now lease h =
    elim (Option-cases (find (at_turn next.turn_id) db.turns)) [
      | inl e ↦ absurd (ground (arith, e))
      | inr (row, e) ↦
          (row, e, ground (arith, e), ground (arith, e), ground (arith, e), ground (arith, e))
    ]

-- Appending an event with a well-formed next state, under a lease whose token was given out, keeps the
-- tables consistent, advances the revision by one, and adds one event at the next sequence number of
-- the turn.
pub append-IsConsistent :
    (db : Database) (next : TurnState) (expected : ℕ) (event_id : EventId) (event : RuntimeEvent)
    (now : ℕ) (lease : Lease) {seq : ℕ} {db' : Database}
    → IsConsistent db
    → IsWellFormed next
    → lease.fencing_token ≤ db.last_token
    → append_event db next expected event_id event now lease ≡ ok (seq, db')
    → IsConsistent db'
      × (next.revision ≡ expected + 1)
      × (db'.events ≡ db.events ++ logged_event next.turn_id next event seq event_id now ∷ [])
append-IsConsistent db next expected event_id event now lease {seq} {db'} v w l h =
    let (row, f, e, q, n, put) = append-ok db next expected event_id event now lease h in
    (
      commit-IsConsistent db next.turn_id next event seq lease.fencing_token event_id now _ put
          {row = row} v f
          (selects-at_turn next.turn_id expected db.turns {row = row} v.distinct f e) q refl w l,
      n,
      (commit-ok db next.turn_id next event seq lease.fencing_token event_id now _ put).2,
    )

-- It leaves the leases and the effects alone.
pub append-SameElse :
    (db : Database) (next : TurnState) (expected : ℕ) (event_id : EventId) (event : RuntimeEvent)
    (now : ℕ) (lease : Lease) {seq : ℕ} {db' : Database}
    → append_event db next expected event_id event now lease ≡ ok (seq, db')
    → SameElse db db'
append-SameElse db next expected event_id event now lease {seq} h =
    let (row, f, e, q, n, put) = append-ok db next expected event_id event now lease h in
    (commit-ok db next.turn_id next event seq lease.fencing_token event_id now _ put).3
