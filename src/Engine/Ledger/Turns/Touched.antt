-- ===== src/Engine/Ledger/Turns/Touched.antt =====
-- Writes of crates/latte-engine/src/storage.rs on columns of a turn that its state does not show, and
-- the turns that the events belong to.
use latte_code.Base.{
  ℕ, ◌≤◌, ◌≡◌, refl, ap, subst, inl, inr, Bool, true, false, some, List, [], ◌∷◌, map, ok, ◌==◌,
  any, All, All-mono, All-append, All-update, find, update, nat_eq, arith, Bool-cases,
}
use latte_code.Core.Protocol.{TurnId, EventId, RuntimeEvent}
use latte_code.Core.Turn.{TurnState}
use latte_code.Engine.Ledger.{Database, TurnRow, ReadRow, EventRow}
use latte_code.Engine.Ledger.Turns.{at_turn, commit, written}
use latte_code.Engine.Ledger.Turns.Rows.{Distinct, IsRow, IsConsistent, Logged, view}
use latte_code.Engine.Ledger.Turns.Commit.{logged_event, commit-ok}

-- Every event is one of a turn that is there.
abbrev pub Owned : List TurnRow → List EventRow → Type 0
Owned turns = All (λ (e : EventRow). any (at_turn e.turn_id) turns ≡ true)

pub find-any :
    (id : TurnId) (xs : List TurnRow) {row : TurnRow}
    → find (at_turn id) xs ≡ some row
    → any (at_turn id) xs ≡ true
find-any id [] f = cc
find-any id (x ∷ xs) {row} f = ground (arith, find-any id xs {row = row})

pub Owned-new :
    (row : TurnRow) (turns : List TurnRow) (es : List EventRow)
    → Owned turns es
    → Owned (row ∷ turns) es
Owned-new row turns es o = All-mono _ _ (λ e h. ground (arith, h)) es o

-- A turn that is not there has no events.
pub Owned-free :
    (id : TurnId) (turns : List TurnRow) (es : List EventRow)
    → any (at_turn id) turns ≡ false
    → Owned turns es
    → any (λ (e : EventRow). e.turn_id == id) es ≡ false
Owned-free id turns [] free o = refl
Owned-free id turns (e ∷ es) free o = elim (Bool-cases (e.turn_id == id)) [
  | inr q ↦ rw q (Owned-free id turns es free o.1)
  | inl q ↦
      let same : e.turn_id ≡ id = ground (arith, q) in
      let there : any (at_turn id) turns ≡ true =
        subst (λ (t : TurnId). any (at_turn t) turns ≡ true) same o.0 in
      absurd (ground (arith, free, there))
]

module _ (p : TurnRow → Bool) (f : TurnRow → TurnRow)
    (same : (r : TurnRow) → (f r).turn_id ≡ r.turn_id) where
  pub any-touched :
      (t : TurnId) (xs : List TurnRow) → any (at_turn t) (update p f xs) ≡ any (at_turn t) xs
  any-touched t [] = refl
  any-touched t (x ∷ xs) = ground (arith, same x, any-touched t xs)

  pub Owned-touched :
      (xs : List TurnRow) (es : List EventRow) → Owned xs es → Owned (update p f xs) es
  Owned-touched xs es o = All-mono _ _ (λ e h. rw (any-touched e.turn_id xs) h) es o

  Distinct-touched : (xs : List TurnRow) → Distinct xs → Distinct (update p f xs)
  Distinct-touched [] d = tt
  Distinct-touched (x ∷ xs) d = elim (Bool-cases (p x)) [
    | inl q ↦ rw q (rw (same x, any-touched x.turn_id xs) d.0, Distinct-touched xs d.1)
    | inr q ↦ rw q (rw (any-touched x.turn_id xs) d.0, Distinct-touched xs d.1)
  ]

view-touched :
    (p : TurnRow → Bool) (f : TurnRow → TurnRow)
    → ((r : TurnRow) → view (f r) ≡ view r)
    → (xs : List TurnRow) → map view (update p f xs) ≡ map view xs
view-touched p f h [] = refl
view-touched p f h (x ∷ xs) = elim (Bool-cases (p x)) [
  | inl q ↦ rw (q, h x, view-touched p f h xs) refl
  | inr q ↦ rw (q, view-touched p f h xs) refl
]

-- A write that the read model does not see keeps the tables consistent, where it writes no newer token
-- than the counter's.
pub touched-IsConsistent :
    (p : TurnRow → Bool) (f : TurnRow → TurnRow) (db db' : Database)
    → ((r : TurnRow) → view (f r) ≡ view r)
    → ((r : TurnRow) → IsRow db'.last_token r → IsRow db'.last_token (f r))
    → db.last_token ≤ db'.last_token
    → db'.turns ≡ update p f db.turns
    → db'.read_model ≡ db.read_model
    → db'.events ≡ db.events
    → IsConsistent db
    → IsConsistent db'
touched-IsConsistent p f db db' seen fits l turns reads events v =
    let known = λ (r : TurnRow). ap (λ (x : ReadRow). x.turn_id) (seen r) in
    let last = λ (r : TurnRow). ap (λ (x : ReadRow). x.last_seq) (seen r) in
    let grown = All-mono _ (IsRow db'.last_token) (λ r h. ground (arith, h, l)) db.turns v.rows in
    record {
      distinct = rw turns (Distinct-touched p f known db.turns v.distinct);
      rows = rw turns (All-update (IsRow db'.last_token) p f fits db.turns grown);
      mirror = rw (turns, reads, v.mirror, view-touched p f seen db.turns) refl;
      logged =
          rw (turns, events)
            (All-mono (Logged db.turns) (Logged (update p f db.turns))
              (λ e h.
                All-update (λ (r : TurnRow). r.turn_id ≡ e.turn_id → e.seq ≤ r.last_seq) p f
                  (λ r k i. ground (arith, known r, last r, k)) db.turns h)
              db.events v.logged);
    }

-- So does a commit, for the row that it finds.
pub commit-Owned :
    (db : Database) (id : TurnId) (next : TurnState) (event : RuntimeEvent) (seq token : ℕ)
    (event_id : EventId) (now : ℕ) (selects : TurnRow → Bool) {row : TurnRow} {db' : Database}
    → commit db id next event seq token event_id now selects ≡ ok db'
    → find (at_turn id) db.turns ≡ some row
    → Owned db.turns db.events
    → Owned db'.turns db'.events
commit-Owned db id next event seq token event_id now selects {row} h f o =
    let (turns, reads, events, rest) =
      commit-ok db id next event seq token event_id now selects h in
    let wrote = written next seq token in
    rw (turns, events)
      (All-append _ db.events (logged_event id next event seq event_id now ∷ [])
        (Owned-touched selects wrote (λ r. refl) db.turns db.events o)
        (
          rw (any-touched selects wrote (λ r. refl) id db.turns)
              (find-any id db.turns {row = row} f),
          tt,
        ))
