-- ===== src/Engine/Ledger/Turns/Rows.antt =====
-- The tables of turns in crates/latte-engine/src/storage.rs agree with each other: one row for each
-- turn, its columns those of the state it encodes, the read model its mirror, and every event below
-- the last sequence number of its turn.
use latte_code.Base.{
  ℕ, ◌≤◌, ◌≡◌, ◌≢◌, refl, subst, inl, inr, Bool, false, ◌&&◌, some, List, [], ◌∷◌, map, ◌==◌, any,
  All, All-mono, find, update, nat_eq, arith, Bool-cases,
}
use latte_code.Core.Protocol.{TurnId}
use latte_code.Core.Turn.{TurnState}
use latte_code.Core.Turn.Invariant.{IsWellFormed}
use latte_code.Engine.Ledger.{Database, TurnRow, ReadRow, EventRow}
use latte_code.Engine.Ledger.Turns.{at_turn, read_at, written, mirrored}

abbrev pub Distinct : List TurnRow → Type 0
Distinct [] = Unit
Distinct (x ∷ xs) = (any (at_turn x.turn_id) xs ≡ false) × Distinct xs

-- The columns of a row are those of its state, and no newer lease than the counter wrote it.
pub record IsRow (last_token : ℕ) (r : TurnRow) : Type 0 where
  pub identity : r.turn_id ≡ r.state.turn_id
  pub revision : r.revision ≡ r.state.revision
  pub status : r.status ≡ r.state.status
  pub formed : IsWellFormed r.state
  pub token : r.lease_token ≤ last_token

abbrev pub view : TurnRow → ReadRow
view r = record {
  turn_id = r.turn_id;
  revision = r.revision;
  last_seq = r.last_seq;
  state = r.state;
}

abbrev pub Logged : List TurnRow → EventRow → Type 0
Logged turns e = All (λ (r : TurnRow). r.turn_id ≡ e.turn_id → e.seq ≤ r.last_seq) turns

pub record IsConsistent (db : Database) : Type 0 where
  pub distinct : Distinct db.turns
  pub rows : All (IsRow db.last_token) db.turns
  pub mirror : db.read_model ≡ map view db.turns
  pub logged : All (Logged db.turns) db.events

pub update-same {ℓ} :
    {A : Type ℓ} (p q : A → Bool) (f : A → A) (xs : List A)
    → All (λ x. p x ≡ q x) xs
    → update p f xs ≡ update q f xs
update-same p q f [] h = refl
update-same p q f (x ∷ xs) h = rw (h.0, update-same p q f xs h.1)

module _ (id : TurnId) where
  absent-ne :
      (xs : List TurnRow) → any (at_turn id) xs ≡ false → All (λ (r : TurnRow). r.turn_id ≢ id) xs
  absent-ne [] h = tt
  absent-ne (x ∷ xs) h = (λ e. ground arith, absent-ne xs (ground arith))

  -- The condition on the revision selects the row of the turn, and no other.
  pub selects-at_turn :
      (expected : ℕ) (xs : List TurnRow) {row : TurnRow}
      → Distinct xs
      → find (at_turn id) xs ≡ some row
      → row.revision ≡ expected
      → All (λ (r : TurnRow). (r.turn_id == id && r.revision == expected) ≡ at_turn id r) xs
  selects-at_turn expected [] d f e = tt
  selects-at_turn expected (x ∷ xs) {row} d f e = elim (Bool-cases (at_turn id x)) [
    | inl q ↦ (
      ground arith,
      All-mono _ _ (λ r n. ground arith) xs
          (absent-ne xs (
            let same : x.turn_id ≡ id = ground arith in
            subst (λ (t : TurnId). any (at_turn t) xs ≡ false) same d.0)),
    )
    | inr q ↦ (ground arith, selects-at_turn expected xs {row = row} d.1 (rw q at f) e)
  ]

  module _ (next : TurnState) (seq token : ℕ) where
    any-written :
        (t : TurnId) (xs : List TurnRow)
        → any (at_turn t) (update (at_turn id) (written next seq token) xs) ≡ any (at_turn t) xs
    any-written t [] = refl
    any-written t (x ∷ xs) = ground (arith, any-written t xs)

    pub Distinct-written :
        (xs : List TurnRow)
        → Distinct xs
        → Distinct (update (at_turn id) (written next seq token) xs)
    Distinct-written [] d = tt
    Distinct-written (x ∷ xs) d = ground (arith, any-written x.turn_id xs, Distinct-written xs d.1)

    pub mirror-written :
        (xs : List TurnRow)
        → update (read_at id) (mirrored next seq) (map view xs)
          ≡ map view (update (at_turn id) (written next seq token) xs)
    mirror-written [] = refl
    mirror-written (x ∷ xs) = ground (arith, mirror-written xs)

    pub rows-written :
        (n m : ℕ) (xs : List TurnRow)
        → next.turn_id ≡ id
        → IsWellFormed next
        → token ≤ m
        → n ≤ m
        → All (IsRow n) xs
        → All (IsRow m) (update (at_turn id) (written next seq token) xs)
    rows-written n m [] i w t l h = tt
    rows-written n m (x ∷ xs) i w t l h = elim (Bool-cases (at_turn id x)) [
      | inl q ↦ rw q (ground (arith, h.0), rows-written n m xs i w t l h.1)
      | inr q ↦ rw q (ground (arith, h.0), rows-written n m xs i w t l h.1)
    ]

    -- Sequence numbers only grow, so the older events stay below them.
    pub Logged-written :
        (e : EventRow) (xs : List TurnRow)
        → All (λ (r : TurnRow). r.turn_id ≡ id → r.last_seq ≤ seq) xs
        → Logged xs e
        → Logged (update (at_turn id) (written next seq token) xs) e
    Logged-written e [] g h = tt
    Logged-written e (x ∷ xs) g h = elim (Bool-cases (at_turn id x)) [
      | inl q ↦ rw q (λ k. ground (arith, g.0, h.0 k), Logged-written e xs g.1 h.1)
      | inr q ↦ rw q (h.0, Logged-written e xs g.1 h.1)
    ]

    pub Logged-new :
        (e : EventRow) (xs : List TurnRow)
        → e.turn_id ≡ id
        → e.seq ≡ seq
        → Logged (update (at_turn id) (written next seq token) xs) e
    Logged-new e [] t k = tt
    Logged-new e (x ∷ xs) t k = elim (Bool-cases (at_turn id x)) [
      | inl q ↦ rw q (λ n. omega arith, Logged-new e xs t k)
      | inr q ↦ rw q (λ n. absurd (ground arith), Logged-new e xs t k)
    ]

  -- Where the row of the turn is known, so is every row of the turn.
  pub find-below :
      (xs : List TurnRow) (seq : ℕ) {row : TurnRow}
      → Distinct xs
      → find (at_turn id) xs ≡ some row
      → row.last_seq ≤ seq
      → All (λ (r : TurnRow). r.turn_id ≡ id → r.last_seq ≤ seq) xs
  find-below [] seq d f l = tt
  find-below (x ∷ xs) seq {row} d f l = elim (Bool-cases (at_turn id x)) [
    | inl q ↦ (
      λ n. ground arith,
      All-mono _ _ (λ r n k. absurd (n k)) xs
          (absent-ne xs (
            let same : x.turn_id ≡ id = ground arith in
            subst (λ (t : TurnId). any (at_turn t) xs ≡ false) same d.0)),
    )
    | inr q ↦ (λ n. absurd (ground arith), find-below xs seq {row = row} d.1 (rw q at f) l)
  ]

  -- The read model answers for the row of the turn.
  pub find-view :
      (xs : List TurnRow) {row : TurnRow}
      → find (at_turn id) xs ≡ some row
      → find (read_at id) (map view xs) ≡ some (view row)
  find-view [] f = cc
  find-view (x ∷ xs) {row} f = ground (arith, find-view xs {row = row})

  module _ (next : TurnState) (seq token : ℕ) where
    pub find-written :
        (xs : List TurnRow) {row : TurnRow}
        → find (at_turn id) xs ≡ some row
        → find (at_turn id) (update (at_turn id) (written next seq token) xs)
          ≡ some (written next seq token row)
    find-written [] f = cc
    find-written (x ∷ xs) {row} f = ground (arith, find-written xs {row = row})

    -- The read model of another turn is not written.
    pub find-unmirrored :
        (j : TurnId) (xs : List ReadRow)
        → j ≢ id
        → find (read_at j) (update (read_at id) (mirrored next seq) xs) ≡ find (read_at j) xs
    find-unmirrored j [] n = refl
    find-unmirrored j (x ∷ xs) n = ground (arith, find-unmirrored j xs n)
