-- ===== src/Engine/Ledger/History/Safety.antt =====
-- What every history of the ledger of crates/latte-engine/src/storage.rs guarantees.
use latte_code.Base.{ℕ, ◌≡◌, ◌≢◌, refl, String, true, false, Option, some, ok, any, arith}
use latte_code.Core.Protocol.{TurnId}
use latte_code.Core.Turn.{TransitionError}
use latte_code.Engine.Ledger.{
  Database, Lease, EffectStatus, prepared, observed_failed, is_authoritative,
}
use latte_code.Engine.Ledger.Leases.Lost.{IsLost, lost-is_authoritative}
use latte_code.Engine.Ledger.Effects.{EffectAuthority, consumable, consume_permission_and_start}
use latte_code.Engine.Ledger.Replace.{replace_pending_effect}
use latte_code.Engine.Ledger.Replace.Rebound.{replace-status_of, replace-consumable}
use latte_code.Engine.Ledger.Effects.Status.{
  status_of, Moves, stays, prepares, starts, succeeds, fails, loses, cancels,
}
use latte_code.Engine.Ledger.Effects.Once.{is_spent, Moves-is_spent, consume-status_of}
use latte_code.Engine.Ledger.History.{
  IsLedger, is_outcome, History, idle, step, consumed_permission, replaced,
}
use latte_code.Engine.Ledger.History.Steps.{Call-IsLedger, Call-IsLost, Call-Moves}

kept :
    {a b : Option EffectStatus} {s : EffectStatus}
    → Moves a b
    → is_outcome s ≡ true
    → a ≡ some s
    → b ≡ some s
kept stays o e = e
kept prepares o e = cc
kept starts o e = ground (arith)
kept succeeds o e = ground (arith)
kept fails o e = ground (arith)
kept loses o e = ground (arith)
kept cancels o e = ground (arith)

module _ (describe : TransitionError → String) (json_error : String → Option String) where
  -- Every history of successful calls keeps the invariant: leases with distinct scopes and tokens
  -- below the counter, and effects with distinct identifiers.
  pub History-IsLedger :
      {db db' : Database} → IsLedger db → History describe json_error db db' → IsLedger db'
  History-IsLedger v idle = v
  History-IsLedger v (step h c) = Call-IsLedger describe json_error (History-IsLedger v h) c

  -- A lost lease stays lost: no history of calls by any holders makes it authoritative again, at any
  -- time.
  pub History-IsLost :
      (lease : Lease) {db db' : Database}
      → IsLedger db
      → IsLost db lease
      → History describe json_error db db'
      → IsLost db' lease × ((now : ℕ) → is_authoritative db' lease now ≡ false)
  History-IsLost lease {db} {db'} v w h =
      let gone = go h in (gone, λ now. lost-is_authoritative db' lease now gone)
    where
      go : {last : Database} → History describe json_error db last → IsLost last lease
      go idle = w
      go (step k c) = Call-IsLost describe json_error lease (History-IsLedger v k) (go k) c

  History-is_spent :
      (id : String) {db db' : Database}
      → is_spent (status_of db id) ≡ true
      → History describe json_error db db'
      → is_spent (status_of db' id) ≡ true
  History-is_spent id s idle = s
  History-is_spent id s (step h c) =
      Moves-is_spent (Call-Moves describe json_error id c) (History-is_spent id s h)

  -- An approved effect is started at most once: after a permission for it was consumed, no later
  -- consumption for that effect succeeds, whatever happened in between and whatever it presents.
  pub consume_once :
      (db : Database) (effect_id : String) (turn : TurnId) (revision : ℕ) (lease : Lease)
      (digest : String) (now : ℕ) {a : EffectAuthority} {db' db'' : Database}
      → IsLedger db
      → consume_permission_and_start db effect_id turn revision lease digest now ≡ ok (a, db')
      → History describe json_error db' db''
      → (turn' : TurnId) (revision' : ℕ) (lease' : Lease) (digest' : String) (now' : ℕ)
        (r : EffectAuthority × Database)
      → consume_permission_and_start db'' effect_id turn' revision' lease' digest' now' ≢ ok r
  consume_once db effect_id turn revision lease digest now {a} {db'} {db''} v h k turn' revision'
        lease' digest' now' r h' =
      let first = (consume-status_of db effect_id turn revision lease digest now v.keyed h).1 in
      let after =
        Call-IsLedger describe json_error v
          (consumed_permission effect_id turn revision lease digest now a h) in
      let spent = History-is_spent effect_id (rw first) k in
      let again =
        (consume-status_of db'' effect_id turn' revision' lease' digest' now' {a = r.0} {db' = r.1}
          (History-IsLedger after k).keyed h').0 in
      ground (arith, again)

  pub outcome_final :
      (id : String) (s : EffectStatus) {db db' : Database}
      → is_outcome s ≡ true
      → status_of db id ≡ some s
      → History describe json_error db db'
      → status_of db' id ≡ some s
  outcome_final id s o e idle = e
  outcome_final id s o e (step h c) =
      kept (Call-Moves describe json_error id c) o (outcome_final id s o e h)

  -- A replaced effect is over: where a new lease took over a pending effect, the old effect was only
  -- prepared and stays failed, and in no later history does any consumption for it succeed. Its
  -- replacement is prepared, with an open permission that carries the new lease, revision and digest.
  pub replace_final :
      (db : Database) (old_id new_id : String) (turn : TurnId) (revision attempt : ℕ)
      (descriptor digest : String) (lease : Lease) (now : ℕ) {db' db'' : Database}
      → IsLedger db
      → replace_pending_effect json_error db old_id new_id turn revision attempt descriptor digest
          lease now
        ≡ ok db'
      → History describe json_error db' db''
      → (status_of db old_id ≡ some prepared)
        × (status_of db'' old_id ≡ some observed_failed)
        × ((turn' : TurnId) (revision' : ℕ) (lease' : Lease) (digest' : String) (now' : ℕ)
              (r : EffectAuthority × Database)
            → consume_permission_and_start db'' old_id turn' revision' lease' digest' now' ≢ ok r)
        × (status_of db' new_id ≡ some prepared)
        × (any (consumable new_id turn revision lease digest) db'.permissions ≡ true)
  replace_final db old_id new_id turn revision attempt descriptor digest lease now {db'} {db''} v h
        k =
      let (was, failed, fresh) =
        replace-status_of json_error db old_id new_id turn revision attempt descriptor digest lease
          now h v.keyed in
      let call = replaced old_id new_id turn revision attempt descriptor digest lease now h in
      let last = History-IsLedger (Call-IsLedger describe json_error v call) k in
      let stays_failed = outcome_final old_id observed_failed refl failed k in
      (
        was,
        stays_failed,
        λ turn' revision' lease' digest' now' r h'.
            let again =
              (consume-status_of db'' old_id turn' revision' lease' digest' now' {a = r.0}
                {db' = r.1} last.keyed h').0 in
            ground (arith, again, stays_failed),
        fresh,
        replace-consumable json_error db old_id new_id turn revision attempt descriptor digest lease
            now h,
      )
