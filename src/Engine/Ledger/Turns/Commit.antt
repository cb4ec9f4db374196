-- ===== src/Engine/Ledger/Turns/Commit.antt =====
-- What a commit of a new state of a turn writes in crates/latte-engine/src/storage.rs.
use latte_code.Base.{
  ℕ, ◌+◌, ◌≤◌, ◌≡◌, refl, ◌∙◌, Bool, false, ◌&&◌, ◌||◌, some, List, [], ◌∷◌, ◌++◌, ok, ◌==◌, any,
  All, All-mono, All-append, find, update, nat_eq, string_eq, arith, i64_max,
}
use latte_code.Core.Protocol.{TurnId, EventId, RuntimeEvent, protocol_version}
use latte_code.Core.Turn.{TurnState}
use latte_code.Core.Turn.Invariant.{IsWellFormed}
use latte_code.Engine.Ledger.{Database, TurnRow, EventRow}
use latte_code.Engine.Ledger.Turns.{at_turn, read_at, written, mirrored, insert_event, commit}
use latte_code.Engine.Ledger.Turns.Rows.{
  IsConsistent, Logged, update-same, Distinct-written, mirror-written, rows-written, Logged-written,
  Logged-new, find-below,
}

-- The event that a commit appends.
abbrev pub logged_event : TurnId → TurnState → RuntimeEvent → ℕ → EventId → ℕ → EventRow
logged_event id next event seq event_id now = record {
  turn_id = id;
  seq = seq;
  envelope = record {
    protocol_version = protocol_version;
    event_id = event_id;
    turn_id = id;
    revision = next.revision;
    event = event;
  };
  created_at_ms = now;
}

-- The tables that a commit leaves alone.
abbrev pub SameElse : Database → Database → Type 0
SameElse db db' =
    (db'.leases ≡ db.leases)
    × (db'.last_token ≡ db.last_token)
    × (db'.linked ≡ db.linked)
    × (db'.effects ≡ db.effects)
    × (db'.permissions ≡ db.permissions)
    × (db'.checkpoints ≡ db.checkpoints)

module _ (db : Database) (id : TurnId) (next : TurnState) (event : RuntimeEvent) (seq token : ℕ)
    (event_id : EventId) (now : ℕ) (selects : TurnRow → Bool) {db' : Database}
    (h : commit db id next event seq token event_id now selects ≡ ok db') where
  pub commit-ok :
      (db'.turns ≡ update selects (written next seq token) db.turns)
      × (db'.read_model ≡ update (read_at id) (mirrored next seq) db.read_model)
      × (db'.events ≡ db.events ++ logged_event id next event seq event_id now ∷ [])
      × SameElse db db'
  unfolding commit insert_event
  commit-ok = ground arith

  pub commit-IsConsistent :
      {row : TurnRow}
      → IsConsistent db
      → find (at_turn id) db.turns ≡ some row
      → All (λ (r : TurnRow). selects r ≡ at_turn id r) db.turns
      → seq ≡ row.last_seq + 1
      → next.turn_id ≡ id
      → IsWellFormed next
      → token ≤ db.last_token
      → IsConsistent db'
  commit-IsConsistent {row} v f sel q i w t =
      let (turns, reads, events, rest) = commit-ok in
      let wrote = written next seq token in
      let same : db'.turns ≡ update (at_turn id) wrote db.turns =
        turns ∙ update-same selects (at_turn id) wrote db.turns sel in
      let below = find-below id db.turns seq {row = row} v.distinct f (omega arith) in
      let entry = logged_event id next event seq event_id now in
      record {
        distinct = rw same (Distinct-written id next seq token db.turns v.distinct);
        rows =
            rw (same, rest.1)
              (rows-written id next seq token db.last_token db.last_token db.turns i w t
                (omega arith) v.rows);
        mirror = rw (same, reads, v.mirror) (mirror-written id next seq token db.turns);
        logged =
            rw (same, events)
              (All-append (Logged (update (at_turn id) wrote db.turns)) db.events (entry ∷ [])
                (All-mono _ _ (λ e k. Logged-written id next seq token e db.turns below k) db.events
                  v.logged)
                (Logged-new id next seq token entry db.turns refl refl, tt));
      }

any-or :
    (p q : EventRow → Bool) (es : List EventRow)
    → any p es ≡ false
    → any q es ≡ false
    → any (λ x. p x || q x) es ≡ false
any-or p q [] h k = refl
any-or p q (e ∷ es) h k = ground (arith, any-or p q es)

-- A commit with a new key and numbers in range succeeds.
pub commit_total :
    (db : Database) (id : TurnId) (next : TurnState) (event : RuntimeEvent) (seq token : ℕ)
    (event_id : EventId) (now : ℕ) (selects : TurnRow → Bool)
    → seq ≤ i64_max
    → next.revision ≤ i64_max
    → now ≤ i64_max
    → any (λ (x : EventRow). x.turn_id == id && x.seq == seq) db.events ≡ false
    → any (λ (x : EventRow). x.envelope.event_id == event_id) db.events ≡ false
    → (db' : Database) × (commit db id next event seq token event_id now selects ≡ ok db')
unfolding commit insert_event
commit_total db id next event seq token event_id now selects a b c d e =
    let clash =
      any-or (λ (x : EventRow). x.turn_id == id && x.seq == seq)
        (λ (x : EventRow). x.envelope.event_id == event_id) db.events d e in
    (
      record db {
        turns = update selects (written next seq token) db.turns;
        read_model = update (read_at id) (mirrored next seq) db.read_model;
        events = db.events ++ logged_event id next event seq event_id now ∷ [];
      },
      ground (arith, clash),
    )
