-- ===== src/Engine/Ledger/Turns/Create.antt =====
-- `Storage::create_turn` of crates/latte-engine/src/storage.rs.
use latte_code.Base.{
  ℕ, ◌≡◌, ◌≢◌, refl, sym, subst, false, List, [], ◌∷◌, ok, ◌==◌, any, All, nat_eq, arith,
}
use latte_code.Core.Protocol.{TurnId}
use latte_code.Core.Turn.{TurnState}
use latte_code.Core.Turn.Invariant.{IsWellFormed}
use latte_code.Engine.Ledger.{Database, TurnRow, EventRow}
use latte_code.Engine.Ledger.Turns.{at_turn, create_turn, load_turn}
use latte_code.Engine.Ledger.Turns.Rows.{IsConsistent, IsRow, Logged, view}
use latte_code.Engine.Ledger.Turns.Commit.{SameElse}

abbrev pub created_row : TurnState → TurnRow
created_row state = record {
  turn_id = state.turn_id;
  state = state;
  status = state.status;
  revision = state.revision;
  last_seq = 0;
  lease_token = 0;
  effect_epoch = 0;
}

pub create-ok :
    (db : Database) (state : TurnState) (now : ℕ) {db' : Database}
    → create_turn db state now ≡ ok db'
    → (db'.turns ≡ created_row state ∷ db.turns)
      × (db'.read_model ≡ view (created_row state) ∷ db.read_model)
      × (db'.events ≡ db.events)
      × (any (at_turn state.turn_id) db.turns ≡ false)
      × SameElse db db'
unfolding create_turn
create-ok db state now h = ground arith

-- A turn that is created well formed, with no event of its identifier in the log, is loaded as it was
-- created, leaves every other turn as it was, and keeps the tables consistent; the identifier was new.
pub create-IsConsistent :
    (db : Database) (state : TurnState) (now : ℕ) {db' : Database}
    → IsConsistent db
    → IsWellFormed state
    → any (λ (e : EventRow). e.turn_id == state.turn_id) db.events ≡ false
    → create_turn db state now ≡ ok db'
    → IsConsistent db'
      × (load_turn db' state.turn_id ≡ ok state)
      × ((j : TurnId) → j ≢ state.turn_id → load_turn db' j ≡ load_turn db j)
unfolding load_turn
create-IsConsistent db state now {db'} v w e h =
    let (turns, reads, events, free, rest) = create-ok db state now {db' = db'} h in
    let all : All (IsRow db.last_token) (created_row state ∷ db.turns) = (
      record { identity = refl; revision = refl; status = refl; formed = w; token = omega arith },
      v.rows,
    ) in
    (
      record {
        distinct = rw turns (free, v.distinct);
        rows = subst (λ (n : ℕ). All (IsRow n) db'.turns) (sym rest.1) (rw turns all);
        mirror = rw (turns, reads, v.mirror);
        logged = rw (turns, events) (below db.events e v.logged);
      },
      ground (arith, reads),
      λ j n. ground (arith, reads),
    )
  where
    below :
        (es : List EventRow)
        → any (λ (e : EventRow). e.turn_id == state.turn_id) es ≡ false
        → All (Logged db.turns) es
        → All (Logged (created_row state ∷ db.turns)) es
    below [] q a = tt
    below (x ∷ xs) q a = ((λ k. absurd (ground arith), a.0), below xs (ground arith) a.1)
