-- ===== src/Engine/Ledger/Replace/Rebound.antt =====
-- What `replace_pending_effect` of crates/latte-engine/src/storage.rs does to the effects, the
-- permissions and the leases.
use latte_code.Base.{
  ℕ, ◌≡◌, refl, subst, inl, inr, String, true, false, Option, none, some, List, [], ◌∷◌, ok, ◌==◌,
  any, find, count, update, delete, nat_eq, string_eq, eq_iff, arith, Bool-cases,
}
use latte_code.Core.Protocol.{TurnId}
use latte_code.Engine.Ledger.{Database, Lease, EffectRow, prepared, observed_failed}
use latte_code.Engine.Ledger.Effects.{prepared_effect, consumable}
use latte_code.Engine.Ledger.Effects.Status.{
  Keyed, has_id, status_of, Moves, prepares, cancels, Moves-update, Moves-from, prepared-eq,
  find-update,
}
use latte_code.Engine.Ledger.Effects.Once.{Keyed-update, find-selected}
use latte_code.Engine.Ledger.Effects.Untouched.{SameLeases}
use latte_code.Engine.Ledger.Replace.{
  pending_effect, lease_changed, withdrawn, replace_pending_effect, rebound_permission,
}

module _ (json_error : String → Option String) (db : Database) (old_id new_id : String)
    (turn : TurnId) (revision attempt : ℕ) (descriptor digest : String) (lease : Lease) (now : ℕ)
    {db' : Database}
    (h : replace_pending_effect json_error db old_id new_id turn revision attempt descriptor digest
        lease now
      ≡ ok db') where
  abbrev after : List EffectRow
  after = update (pending_effect old_id turn) (lease_changed now) db.effects

  rows-eq : db'.effects ≡ prepared_effect new_id turn attempt descriptor digest now ∷ after
  unfolding replace_pending_effect
  rows-eq = ground arith

  new-free : any (has_id new_id) after ≡ false
  unfolding replace_pending_effect
  new-free = ground arith

  old-once : count (pending_effect old_id turn) db.effects ≡ 1
  unfolding replace_pending_effect
  old-once = ground arith

  pub replace-SameLeases : SameLeases db db'
  unfolding replace_pending_effect
  replace-SameLeases = ground arith

  pub replace-consumable : any (consumable new_id turn revision lease digest) db'.permissions ≡ true
  unfolding replace_pending_effect
  replace-consumable =
      let row = rebound_permission new_id turn revision lease digest in
      let rows : db'.permissions ≡ row ∷ delete (withdrawn db old_id turn) db.permissions =
        ground arith in
      let own = (eq_iff new_id new_id).1 refl in
      let holder = (eq_iff lease.owner lease.owner).1 refl in
      let same = (eq_iff digest digest).1 refl in rw (rows, own, holder, same) (ground arith)

  pub replace-Moves : (id : String) → Moves (status_of db id) (status_of db' id)
  replace-Moves id = rw rows-eq (elim (Bool-cases (new_id == id)) [
    | inl q ↦
        let same : new_id ≡ id = (eq_iff new_id id).0 q in
        rw
          (
            q,
            absent db.effects (subst (λ (t : String). any (has_id t) after ≡ false) same new-free),
          )
          prepares
    | inr q ↦ rw q (
        Moves-update id db.effects (pending_effect old_id turn) (lease_changed now) (λ e. refl)
          (λ e r. Moves-from prepared (prepared-eq e.status (ground arith)) cancels))
  ])
    where
      absent :
          (xs : List EffectRow)
          → any (has_id id) (update (pending_effect old_id turn) (lease_changed now) xs) ≡ false
          → find (has_id id) xs ≡ none
      absent [] q = refl
      absent (x ∷ xs) q = ground (arith, absent xs)

  pub replace-Keyed : Keyed db.effects → Keyed db'.effects
  replace-Keyed k = rw rows-eq (
    new-free,
    Keyed-update (pending_effect old_id turn) (lease_changed now) (λ e. refl) db.effects k,
  )

  -- The old effect was prepared and has failed; the new one is prepared.
  pub replace-status_of :
      Keyed db.effects
      → (status_of db old_id ≡ some prepared)
        × (status_of db' old_id ≡ some observed_failed)
        × (status_of db' new_id ≡ some prepared)
  replace-status_of k =
      let (e, f, s) =
        find-selected old_id (pending_effect old_id turn) (λ x q. ground arith) db.effects k
          old-once in
      let was : e.status ≡ prepared = prepared-eq e.status (ground arith) in
      let seen =
        find-update old_id (pending_effect old_id turn) (lease_changed now) (λ x. refl)
          db.effects in
      let found : find (has_id old_id) after ≡ some (lease_changed now e) = rw (seen, f, s) refl in
      let other : (new_id == old_id) ≡ false = elim (Bool-cases (new_id == old_id)) [
        | inl q ↦
            let same : new_id ≡ old_id = (eq_iff new_id old_id).0 q in
            let free : any (has_id old_id) after ≡ false =
              subst (λ (t : String). any (has_id t) after ≡ false) same new-free in
            let there = hit (lease_changed now e) after found in
            absurd (ground (arith, free, there))
        | inr q ↦ q
      ] in
      (
        rw (f, was) refl,
        rw (rows-eq, other, found) refl,
        rw (rows-eq, (eq_iff new_id new_id).1 refl) refl,
      )
    where
      hit :
          (e : EffectRow) (xs : List EffectRow)
          → find (has_id old_id) xs ≡ some e
          → any (has_id old_id) xs ≡ true
      hit e [] q = cc
      hit e (x ∷ xs) q = ground (arith, hit e xs)
