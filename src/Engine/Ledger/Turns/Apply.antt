-- ===== src/Engine/Ledger/Turns/Apply.antt =====
-- `Storage::apply_transition` of crates/latte-engine/src/storage.rs makes exactly the transition of the
-- state machine on the stored turn, logs it once, and is refused to a lost lease.
use latte_code.Base.{
  ℕ, ◌+◌, ◌≤◌, ◌<◌, ◌≡◌, ◌≢◌, refl, ap, ◌∙◌, inl, inr, String, true, false, ◌&&◌, some, List, [],
  ◌∷◌, ◌++◌, map, ok, err, ◌==◌, any, All, All-find, find, update, nat_eq, string_eq, eq_iff, arith,
  Bool-cases, Option-cases, i64_max,
}
use latte_code.Core.Protocol.{TurnId, EventId}
use latte_code.Core.Turn.{TurnState, Transition, TransitionError, transition}
use latte_code.Core.Turn.Revision.{transition-ok}
use latte_code.Core.Turn.Invariant.{transition-IsWellFormed}
use latte_code.Engine.Ledger.{
  Database, Lease, TurnRow, EventRow, lease_lost, runtime_scope, is_authoritative,
}
use latte_code.Engine.Ledger.Leases.Lost.{IsLost, lost-is_authoritative}
use latte_code.Engine.Ledger.Turns.{
  at_turn, read_at, written, mirrored, commit, event_of, apply_transition, load_turn,
}
use latte_code.Engine.Ledger.Turns.Rows.{
  IsConsistent, IsRow, Logged, view, selects-at_turn, mirror-written, find-view, find-written,
  find-unmirrored,
}
use latte_code.Engine.Ledger.Turns.Commit.{
  logged_event, SameElse, commit-ok, commit-IsConsistent, commit_total,
}

module _ (describe : TransitionError → String) where
  -- What a successful call went through.
  pub apply-ok :
      (db : Database) (id : TurnId) (expected : ℕ) (t : Transition) (event_id : EventId) (now : ℕ)
      (lease : Lease) {next : TurnState} {db' : Database}
      → apply_transition describe db id expected t event_id now lease ≡ ok (next, db')
      → (row : TurnRow) × (find (at_turn id) db.turns ≡ some row)
        × (row.lease_token ≤ lease.fencing_token)
        × (transition row.state expected t ≡ ok next)
        × (is_authoritative db lease now ≡ true)
        × (lease.scope ≡ runtime_scope)
        × (commit db id next
              (event_of next)
              (row.last_seq + 1)
              lease.fencing_token
              event_id
              now
              (λ (r : TurnRow). r.turn_id == id && r.revision == expected)
            ≡ ok db')
  unfolding apply_transition
  apply-ok db id expected t event_id now lease h =
      elim (Option-cases (find (at_turn id) db.turns)) [
        | inl e ↦ absurd (ground (arith, e))
        | inr (row, e) ↦ (
          row,
          e,
          ground (arith, e),
          ground (arith, e),
          ground (arith, e),
          ground (arith, e, eq_iff lease.scope runtime_scope),
          ground (arith, e),
        )
      ]

  module _ (db : Database) (id : TurnId) (expected : ℕ) (t : Transition) (event_id : EventId)
      (now : ℕ) (lease : Lease) where
    -- A successful call keeps the tables consistent.
    pub apply-IsConsistent :
        {next : TurnState} {db' : Database}
        → IsConsistent db
        → lease.fencing_token ≤ db.last_token
        → apply_transition describe db id expected t event_id now lease ≡ ok (next, db')
        → IsConsistent db'
    apply-IsConsistent {next} {db'} v l h =
        let (row, f, old, step, live, scope, written) =
          apply-ok db id expected t event_id now lease h in
        let fit = All-find (IsRow db.last_token) (at_turn id) db.turns {a = row} v.rows f in
        let at = find-test db.turns f in
        let made = transition-ok row.state expected t step in
        commit-IsConsistent db id next (event_of next) (row.last_seq + 1) lease.fencing_token
          event_id now _ written v f
          (selects-at_turn id expected db.turns {row = row} v.distinct f
            (ground (arith, fit, made)))
          refl (ground (arith, fit, made, at))
          (transition-IsWellFormed row.state expected t fit.formed step) l
      where
        find-test :
            (xs : List TurnRow) {r : TurnRow} → find (at_turn id) xs ≡ some r → r.turn_id ≡ id
        find-test [] f = cc
        find-test (x ∷ xs) {r} f = ground (arith, find-test xs {r = r})

    -- On consistent tables a successful call is the transition of the state machine on the turn that
    -- was loaded: the new state is loaded from then on, every other turn is as it was, one event with
    -- the next revision is appended, and leases, effects and permissions are untouched.
    pub apply_refines :
        {next : TurnState} {db' : Database}
        → IsConsistent db
        → apply_transition describe db id expected t event_id now lease ≡ ok (next, db')
        → ((s : TurnState) × (load_turn db id ≡ ok s) × (transition s expected t ≡ ok next))
          × (load_turn db' id ≡ ok next)
          × ((j : TurnId) → j ≢ id → load_turn db' j ≡ load_turn db j)
          × ((seq : ℕ) × (db'.events
                ≡ db.events ++ logged_event id next (event_of next) seq event_id now ∷ []))
          × SameElse db db'
    unfolding load_turn
    apply_refines {next} {db'} v h =
        let (row, f, old, step, live, scope, put) =
          apply-ok db id expected t event_id now lease h in
        let (turns, reads, events, rest) =
          commit-ok db id next (event_of next) (row.last_seq + 1) lease.fencing_token event_id now _
            put in
        let wrote = written next (row.last_seq + 1) lease.fencing_token in
        let mirror : db'.read_model ≡ map view (update (at_turn id) wrote db.turns) =
          reads
          ∙ ap (update (read_at id) (mirrored next (row.last_seq + 1))) v.mirror
          ∙ mirror-written id next (row.last_seq + 1) lease.fencing_token db.turns in
        let before = find-view id db.turns {row = row} f in
        let after =
          find-view id (update (at_turn id) wrote db.turns) {row = wrote row}
            (find-written id next (row.last_seq + 1) lease.fencing_token db.turns {row = row} f) in
        (
          (row.state, ground (arith, v.mirror, before), step),
          ground (arith, mirror, after),
          λ j n. ground (
            arith,
            reads,
            find-unmirrored id next (row.last_seq + 1) lease.fencing_token j db.read_model n,
          ),
          (row.last_seq + 1, events),
          rest,
        )

    -- It leaves the leases and the effects alone.
    pub apply-SameElse :
        {next : TurnState} {db' : Database}
        → apply_transition describe db id expected t event_id now lease ≡ ok (next, db')
        → SameElse db db'
    apply-SameElse {next} h =
        let (row, f, old, step, live, scope, put) =
          apply-ok db id expected t event_id now lease h in
        (commit-ok db id next (event_of next) (row.last_seq + 1) lease.fencing_token event_id now _
          put).3

    -- A lost lease writes nothing: the call is refused whatever it asks for.
    pub apply_fenced :
        lease.scope ≡ runtime_scope
        → lease.fencing_token ≤ i64_max
        → now ≤ i64_max
        → IsLost db lease
        → apply_transition describe db id expected t event_id now lease ≡ err lease_lost
    unfolding apply_transition
    apply_fenced s k n v =
        ground (arith, lost-is_authoritative db lease now v, eq_iff lease.scope runtime_scope)

    -- No event stands at a sequence number above the last one of its turn.
    free-seq :
        (seq : ℕ) (turns : List TurnRow) (events : List EventRow) {row : TurnRow}
        → find (at_turn id) turns ≡ some row
        → row.last_seq < seq
        → All (Logged turns) events
        → any (λ (x : EventRow). x.turn_id == id && x.seq == seq) events ≡ false
    free-seq seq turns [] f l a = refl
    free-seq seq turns (e ∷ es) {row} f l a =
        let above = λ (q : e.turn_id ≡ id). bound turns f q a.0 in
        ground (arith, above, free-seq seq turns es {row = row} f l a.1)
      where
        bound :
            (xs : List TurnRow) {r : TurnRow}
            → find (at_turn id) xs ≡ some r
            → e.turn_id ≡ id
            → All (λ (r : TurnRow). r.turn_id ≡ e.turn_id → e.seq ≤ r.last_seq) xs
            → e.seq ≤ r.last_seq
        bound [] f q a = cc
        bound (x ∷ xs) {r} f q a = elim (Bool-cases (at_turn id x)) [
          | inl hit ↦ let low : e.seq ≤ x.last_seq = a.0 (ground arith) in ground arith
          | inr miss ↦ bound xs {r = r} (rw miss at f) q a.1
        ]

    -- The call succeeds wherever the state machine accepts the transition: on consistent tables, for
    -- an authoritative lease that is not older than the turn's, with an event identifier that is new
    -- and numbers in the range of the columns.
    pub apply_total :
        {row : TurnRow} {next : TurnState}
        → IsConsistent db
        → lease.scope ≡ runtime_scope
        → lease.fencing_token ≤ i64_max
        → now ≤ i64_max
        → is_authoritative db lease now ≡ true
        → find (at_turn id) db.turns ≡ some row
        → row.lease_token ≤ lease.fencing_token
        → transition row.state expected t ≡ ok next
        → next.revision ≤ i64_max
        → row.last_seq < i64_max
        → any (λ (x : EventRow). x.envelope.event_id == event_id) db.events ≡ false
        → (db' : Database) × (apply_transition describe db id expected t event_id now lease
            ≡ ok (next, db'))
    unfolding apply_transition
    apply_total {row} {next} v s k n a f l step r q fresh =
        let made = transition-ok row.state expected t step in
        let free =
          free-seq (row.last_seq + 1) db.turns db.events {row = row} f (omega arith) v.logged in
        let (db', done) =
          commit_total db id next (event_of next) (row.last_seq + 1) lease.fencing_token event_id
            now (λ (r : TurnRow). r.turn_id == id && r.revision == expected) (omega arith) r n free
            fresh in
        (db', ground (arith, eq_iff lease.scope runtime_scope, done))
