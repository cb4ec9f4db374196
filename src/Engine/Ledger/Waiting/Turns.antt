-- ===== src/Engine/Ledger/Waiting/Turns.antt =====
-- What the cancellation of a waiting turn does to the turn in crates/latte-engine/src/storage.rs.
use latte_code.Base.{
  ℕ, ◌+◌, ◌≤◌, ◌≡◌, refl, sym, ◌∙◌, inl, inr, Bool, true, some, List, [], ◌∷◌, ok, All-find, find,
  nat_eq, string_eq, arith, Bool-cases, Option-cases, u64_max,
}
use latte_code.Core.Protocol.{TurnId, EventId, TurnStatus, RuntimeEvent}
use latte_code.Core.Turn.{TurnState}
use latte_code.Core.Turn.Invariant.{IsWellFormed}
use latte_code.Engine.Ledger.{Database, Lease, TurnRow}
use latte_code.Engine.Ledger.Turns.{at_turn, load_turn}
use latte_code.Engine.Ledger.Turns.Rows.{IsConsistent, IsRow, selects-at_turn, find-view}
use latte_code.Engine.Ledger.Turns.Commit.{commit-IsConsistent}
use latte_code.Engine.Ledger.Waiting.{abandon, abandoned, cancel_waiting, is_ended, is_waiting}
use latte_code.Engine.Ledger.Waiting.Effects.{abandon-ok, withdraw-ok}

cancel-ok :
    (db : Database) (id : TurnId) (expected : ℕ) (lease : Lease) (event_id : EventId) (now : ℕ)
    (denied : Bool) {next : TurnState} {seq : ℕ} {db' : Database}
    → cancel_waiting db id expected lease event_id now denied ≡ ok (next, some seq, db')
    → (row : TurnRow) × (find (at_turn id) db.turns ≡ some row)
      × (row.state.revision ≡ expected)
      × (abandon db id row expected lease event_id now denied ≡ ok (next, some seq, db'))
unfolding cancel_waiting
cancel-ok db id expected lease event_id now denied {next} {seq} {db'} h =
    elim (Option-cases (find (at_turn id) db.turns)) [
      | inl e ↦ absurd (ground (arith, e))
      | inr (row, e) ↦ elim (Bool-cases (is_ended row.state.status)) [
        | inl d ↦ absurd (ground (arith, e, d))
        | inr d ↦ (row, e, ground (arith, e, d), ground (arith, e, d))
      ]
    ]

pub find-id :
    (id : TurnId) (xs : List TurnRow) {r : TurnRow} → find (at_turn id) xs ≡ some r → r.turn_id ≡ id
find-id id [] f = cc
find-id id (x ∷ xs) {r} f = ground (arith, find-id id xs {r = r})

abandoned-IsWellFormed :
    (s : TurnState) (denied : Bool)
    → IsWellFormed s
    → is_waiting s.status ≡ true
    → s.revision + 1 ≤ u64_max
    → IsWellFormed (abandoned s (s.revision + 1) denied)
abandoned-IsWellFormed s denied v w b = ground (arith, v)

pub cancel-IsConsistent :
    (db : Database) (id : TurnId) (expected : ℕ) (lease : Lease) (event_id : EventId) (now : ℕ)
    (denied : Bool) {next : TurnState} {seq : ℕ} {db' : Database}
    → IsConsistent db
    → lease.fencing_token ≤ db.last_token
    → cancel_waiting db id expected lease event_id now denied ≡ ok (next, some seq, db')
    → ((s : TurnState) × (load_turn db id ≡ ok s)
        × (is_waiting s.status ≡ true)
        × (s.revision ≡ expected)
        × (next ≡ abandoned s (expected + 1) denied))
      × IsWellFormed next
      × IsConsistent db'
unfolding load_turn
cancel-IsConsistent db id expected lease event_id now denied {next} {seq} {db'} v l h =
    let (row, f, r, done) =
      cancel-ok db id expected lease event_id now denied {next = next} {seq = seq} {db' = db'} h in
    let (released, after, w, c, n, s, x, q, same) =
      abandon-ok db id row expected lease event_id now denied {next = next} {seq = some seq}
        {db' = db'} done in
    let (u, g, turns, reads, events) =
      withdraw-ok db id row.state.pending_permission denied now {db' = released} w in
    let fit = All-find (IsRow db.last_token) (at_turn id) db.turns {a = row} v.rows f in
    let before : IsConsistent released = record {
      distinct = rw turns v.distinct;
      rows = rw (turns, g.1) v.rows;
      mirror = rw (turns, reads) v.mirror;
      logged = rw (turns, events) v.logged;
    } in
    let found : find (at_turn id) released.turns ≡ some row = rw turns f in
    let formed : IsWellFormed next =
      rw n (abandoned-IsWellFormed row.state denied fit.formed s x) in
    let identity : next.turn_id ≡ id =
      ground (arith, n, fit.identity, find-id id db.turns {r = row} f) in
    let made : IsConsistent after =
      commit-IsConsistent released id next (RuntimeEvent.state_changed TurnStatus.failed)
        (row.last_seq + 1) lease.fencing_token event_id now _ c {row = row} before found
        (selects-at_turn id expected released.turns {row = row} before.distinct found
          (fit.revision ∙ r))
        refl identity formed (rw g.1 l) in
    let seen = find-view id db.turns {row = row} f in
    (
      (row.state, ground (arith, v.mirror, seen), s, r, rw (sym r) n),
      formed,
      rw same (record {
        distinct = made.distinct;
        rows = made.rows;
        mirror = made.mirror;
        logged = made.logged;
      }),
    )
