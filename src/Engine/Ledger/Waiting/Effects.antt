-- ===== src/Engine/Ledger/Waiting/Effects.antt =====
-- What the cancellation of a waiting turn does to effects and leases in
-- crates/latte-engine/src/storage.rs.
use latte_code.Base.{
  ℕ, ◌+◌, ◌≤◌, u64_max, ◌≡◌, refl, ap, ◌∙◌, inl, inr, String, Bool, true, false, ◌&&◌, Option, none,
  some, List, [], ◌∷◌, ok, ◌==◌, find, update, nat_eq, string_eq, arith, Bool-cases, Option-cases,
  Result-cases,
}
use latte_code.Core.Protocol.{TurnId, EventId, TurnStatus, RuntimeEvent, PendingPermission}
use latte_code.Core.Turn.{TurnState}
use latte_code.Engine.Ledger.{Database, Lease, TurnRow, EffectRow, prepared}
use latte_code.Engine.Ledger.Turns.{at_turn, commit}
use latte_code.Engine.Ledger.Turns.Commit.{commit-ok}
use latte_code.Engine.Ledger.Effects.Status.{
  Keyed, status_of, Moves, cancels, Moves-update, Moves-from, prepared-eq,
}
use latte_code.Engine.Ledger.Effects.Once.{Keyed-update}
use latte_code.Engine.Ledger.Effects.Untouched.{SameLeases}
use latte_code.Engine.Ledger.Waiting.{
  withdraw, abandon, abandoned, cancel_waiting, bound_effect, failed_effect, is_ended, is_waiting,
}

-- The effects after a call, as one update that moves each effect along an edge.
abbrev pub Updated : Database → Database → Type 0
Updated db db' =
    (p : EffectRow → Bool) × (f : EffectRow → EffectRow) × (db'.effects ≡ update p f db.effects)
    × ((e : EffectRow) → (f e).effect_id ≡ e.effect_id)
    × ((e : EffectRow) → p e ≡ true → Moves (some e.status) (some (f e).status))

pub Updated-Moves :
    (db db' : Database)
    → Updated db db'
    → (id : String) → Moves (status_of db id) (status_of db' id)
Updated-Moves db db' (p, f, e, k, m) id = rw e (Moves-update id db.effects p f k m)

pub Updated-Keyed : (db db' : Database) → Updated db db' → Keyed db.effects → Keyed db'.effects
Updated-Keyed db db' (p, f, e, k, m) v = rw e (Keyed-update p f k db.effects v)

update-none : (xs : List EffectRow) → xs ≡ update (λ e. false) (λ e. e) xs
update-none [] = refl
update-none (x ∷ xs) = ap (λ ys. x ∷ ys) (update-none xs)

pub same-Updated : (db db' : Database) → db'.effects ≡ db.effects → Updated db db'
same-Updated db db' e = (λ x. false, λ x. x, e ∙ update-none db.effects, λ x. refl, λ x q. cc)

pub withdraw-ok :
    (db : Database) (id : TurnId) (p : Option PendingPermission) (denied : Bool) (now : ℕ)
    {db' : Database}
    → withdraw db id p denied now ≡ ok db'
    → Updated db db'
      × SameLeases db db'
      × (db'.turns ≡ db.turns)
      × (db'.read_model ≡ db.read_model)
      × (db'.events ≡ db.events)
unfolding withdraw
withdraw-ok db id none denied now {db'} h = (
  same-Updated db db' (ground arith),
  (ground arith, ground arith),
  ground arith,
  ground arith,
  ground arith,
)
withdraw-ok db id (some p) denied now {db'} h = (
  (
    bound_effect id p,
    failed_effect denied now,
    ground arith,
    λ e. refl,
    λ e q. Moves-from prepared (prepared-eq e.status (ground arith)) cancels,
  ),
  (ground arith, ground arith),
  ground arith,
  ground arith,
  ground arith,
)

-- What a cancellation went through.
pub abandon-ok :
    (db : Database) (id : TurnId) (row : TurnRow) (expected : ℕ) (lease : Lease)
    (event_id : EventId) (now : ℕ) (denied : Bool) {next : TurnState} {seq : Option ℕ}
    {db' : Database}
    → abandon db id row expected lease event_id now denied ≡ ok (next, seq, db')
    → (released : Database) × (after : Database) × (withdraw db id row.state.pending_permission
          denied now
        ≡ ok released)
      × (commit released id next
            (RuntimeEvent.state_changed TurnStatus.failed)
            (row.last_seq + 1)
            lease.fencing_token
            event_id
            now
            (λ (r : TurnRow). r.turn_id == id && r.revision == expected)
          ≡ ok after)
      × (next ≡ abandoned row.state (row.state.revision + 1) denied)
      × (is_waiting row.state.status ≡ true)
      × (row.state.revision + 1 ≤ u64_max)
      × (seq ≡ some (row.last_seq + 1))
      × (db' ≡ record after { checkpoints = db'.checkpoints })
unfolding abandon
abandon-ok db id row expected lease event_id now denied {next} {seq} {db'} h =
    let next' = abandoned row.state (row.state.revision + 1) denied in
    elim (Result-cases (withdraw db id row.state.pending_permission denied now)) [
      | inl (e, q) ↦ absurd (ground (arith, q))
      | inr (released, q) ↦
          let put =
            commit released id next' (RuntimeEvent.state_changed TurnStatus.failed)
              (row.last_seq + 1) lease.fencing_token event_id now
              (λ (r : TurnRow). r.turn_id == id && r.revision == expected) in
          elim (Result-cases put) [
            | inl (e, c) ↦ absurd (ground (arith, q, c))
            | inr (after, c) ↦
                let state : next ≡ next' = ground (arith, q, c) in
                (
                  released,
                  after,
                  q,
                  rw state c,
                  state,
                  ground (arith, q, c),
                  ground (arith, q, c),
                  ground (arith, q, c),
                  ground (arith, q, c),
                )
          ]
    ]

-- A call that cancels keeps the leases, and moves each effect along an edge.
pub cancel-Updated :
    (db : Database) (id : TurnId) (expected : ℕ) (lease : Lease) (event_id : EventId) (now : ℕ)
    (denied : Bool) {next : TurnState} {seq : Option ℕ} {db' : Database}
    → cancel_waiting db id expected lease event_id now denied ≡ ok (next, seq, db')
    → Updated db db' × SameLeases db db'
unfolding cancel_waiting
cancel-Updated db id expected lease event_id now denied {next} {seq} {db'} h =
    elim (Option-cases (find (at_turn id) db.turns)) [
      | inl e ↦ absurd (ground (arith, e))
      | inr (row, e) ↦ elim (Bool-cases (is_ended row.state.status)) [
        | inl d ↦ (
          same-Updated db db' (ground (arith, e, d)),
          (ground (arith, e, d), ground (arith, e, d)),
        )
        | inr d ↦
            let done : abandon db id row expected lease event_id now denied ≡ ok (next, seq, db') =
              ground (arith, e, d) in
            let (released, after, w, c, n, s, x, q, same) =
              abandon-ok db id row expected lease event_id now denied {next = next} {seq = seq}
                {db' = db'} done in
            let (f, g, k, u, effects) =
              withdraw-ok db id row.state.pending_permission denied now {db' = released} w in
            let rest =
              (commit-ok released id next (RuntimeEvent.state_changed TurnStatus.failed)
                (row.last_seq + 1) lease.fencing_token event_id now _ {db' = after} c).3 in
            (
              (f.0, f.1, ground (arith, same, rest, f.2), f.3, f.4),
              (ground (arith, same, rest, g), ground (arith, same, rest, g)),
            )
      ]
    ]
