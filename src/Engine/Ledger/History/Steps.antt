-- ===== src/Engine/Ledger/History/Steps.antt =====
-- Each call of a history of the ledger of crates/latte-engine/src/storage.rs, seen from the leases and
-- from one effect.
use latte_code.Base.{◌≡◌, String, Option, arith}
use latte_code.Core.Turn.{TransitionError}
use latte_code.Engine.Ledger.{Database, Lease}
use latte_code.Engine.Ledger.Leases.{renew_lease, release_lease}
use latte_code.Engine.Ledger.Leases.Acquire.{acquire-effects}
use latte_code.Engine.Ledger.Leases.Fencing.{
  IsSound, acquire-IsSound, renew-IsSound, release-IsSound,
}
use latte_code.Engine.Ledger.Leases.Lost.{IsLost, IsLost-acquire, IsLost-renew, IsLost-release}
use latte_code.Engine.Ledger.Turns.Create.{create-ok}
use latte_code.Engine.Ledger.Turns.Apply.{apply-SameElse}
use latte_code.Engine.Ledger.Effects.Status.{
  Keyed, status_of, Moves, stays, create-Moves, consume-Moves, finish-Moves, mark-Moves,
}
use latte_code.Engine.Ledger.Effects.Once.{create-Keyed, consume-Keyed, finish-Keyed, mark-Keyed}
use latte_code.Engine.Ledger.Effects.Untouched.{
  SameLeases, create-SameLeases, consume-SameLeases, finish-SameLeases, mark-SameLeases,
}
use latte_code.Engine.Ledger.Replace.Rebound.{replace-SameLeases, replace-Moves, replace-Keyed}
use latte_code.Engine.Ledger.History.{
  IsLedger, Call, acquired, renewed, released, created, applied, prepared_permission,
  consumed_permission, finished, marked_unknown, appended, ended, lease_loss, checkpointed,
  replaced,
}
use latte_code.Engine.Ledger.Turns.Append.{append-SameElse}
use latte_code.Engine.Ledger.Waiting.Effects.{Updated-Moves, Updated-Keyed, cancel-Updated}
use latte_code.Engine.Ledger.Waiting.Interrupt.{interrupt-Updated, put_checkpoint-Same}

same-IsLedger :
    (db db' : Database) → SameLeases db db' → IsLedger db → Keyed db'.effects → IsLedger db'
same-IsLedger db db' s v k = record {
  sound = record { separate = rw s.0 v.sound.separate; bounded = rw (s.0, s.1) v.sound.bounded };
  keyed = k;
}

moved-IsLedger :
    (db db' : Database) → db'.effects ≡ db.effects → IsLedger db → IsSound db' → IsLedger db'
moved-IsLedger db db' e v w = record { sound = w; keyed = rw e v.keyed }

same-IsLost :
    (lease : Lease) (db db' : Database) → SameLeases db db' → IsLost db lease → IsLost db' lease
same-IsLost lease db db' s v = record { spent = rw s.1 v.spent; gone = rw s.0 v.gone }

same-Moves :
    (id : String) (db db' : Database)
    → db'.effects ≡ db.effects
    → Moves (status_of db id) (status_of db' id)
same-Moves id db db' e = rw e stays

module _ (describe : TransitionError → String) (json_error : String → Option String) where
  pub Call-IsLedger :
      {db db' : Database} → IsLedger db → Call describe json_error db db' → IsLedger db'
  unfolding renew_lease release_lease
  Call-IsLedger {db} {db'} v (acquired s o t n x l h) =
      moved-IsLedger db db' (acquire-effects db s o t n x h) v
        (acquire-IsSound db s o t n x v.sound h)
  Call-IsLedger {db} {db'} v (renewed r n x l h) =
      moved-IsLedger db db' (ground arith) v (renew-IsSound db r n x v.sound h)
  Call-IsLedger {db} {db'} v (released r h) =
      moved-IsLedger db db' (ground arith) v (release-IsSound db r v.sound h)
  Call-IsLedger {db} {db'} v (created s n h) =
      let same = (create-ok db s n {db' = db'} h).4 in
      same-IsLedger db db' (same.0, same.1) v (rw same.3 v.keyed)
  Call-IsLedger {db} {db'} v (applied id e t i n r s h) =
      let same = apply-SameElse describe db id e t i n r h in
      same-IsLedger db db' (same.0, same.1) v (rw same.3 v.keyed)
  Call-IsLedger {db} {db'} v (prepared_permission i t e b a x d r n h) =
      same-IsLedger db db' (create-SameLeases json_error db i t e b a x d r n h) v
        (create-Keyed json_error db i t e b a x d r n v.keyed h)
  Call-IsLedger {db} {db'} v (consumed_permission i t e r d n a h) =
      same-IsLedger db db' (consume-SameLeases db i t e r d n h) v
        (consume-Keyed db i t e r d n v.keyed h)
  Call-IsLedger {db} {db'} v (finished a s p n h) =
      same-IsLedger db db' (finish-SameLeases json_error db a s p n h) v
        (finish-Keyed json_error db a s p n v.keyed h)
  Call-IsLedger {db} {db'} v (marked_unknown a n h) =
      same-IsLedger db db' (mark-SameLeases db a n h) v (mark-Keyed db a n v.keyed h)
  Call-IsLedger {db} {db'} v (appended x e i t n r s h) =
      let same = append-SameElse db x e i t n r h in
      same-IsLedger db db' (same.0, same.1) v (rw same.3 v.keyed)
  Call-IsLedger {db} {db'} v (ended i e r x n d t s h) =
      let (u, same) = cancel-Updated db i e r x n d h in
      same-IsLedger db db' same v (Updated-Keyed db db' u v.keyed)
  Call-IsLedger {db} {db'} v (lease_loss i l e x n r h) =
      let (u, same) = interrupt-Updated db i l e x n h in
      same-IsLedger db db' same v (Updated-Keyed db db' u v.keyed)
  Call-IsLedger {db} {db'} v (checkpointed i e r p n h) =
      let (f, same) = put_checkpoint-Same json_error db i e r p n h in
      same-IsLedger db db' same v (rw f v.keyed)
  Call-IsLedger {db} {db'} v (replaced o i t e a x d r n h) =
      same-IsLedger db db' (replace-SameLeases json_error db o i t e a x d r n h) v
        (replace-Keyed json_error db o i t e a x d r n h v.keyed)

  pub Call-IsLost :
      (lease : Lease) {db db' : Database}
      → IsLedger db
      → IsLost db lease
      → Call describe json_error db db'
      → IsLost db' lease
  Call-IsLost lease {db} {db'} v w (acquired s o t n x l h) =
      IsLost-acquire db lease s o t n x v.sound w h
  Call-IsLost lease {db} {db'} v w (renewed r n x l h) = IsLost-renew db lease r n x w h
  Call-IsLost lease {db} {db'} v w (released r h) = IsLost-release db lease r w h
  Call-IsLost lease {db} {db'} v w (created s n h) =
      let same = (create-ok db s n {db' = db'} h).4 in same-IsLost lease db db' (same.0, same.1) w
  Call-IsLost lease {db} {db'} v w (applied id e t i n r s h) =
      let same = apply-SameElse describe db id e t i n r h in
      same-IsLost lease db db' (same.0, same.1) w
  Call-IsLost lease {db} {db'} v w (prepared_permission i t e b a x d r n h) =
      same-IsLost lease db db' (create-SameLeases json_error db i t e b a x d r n h) w
  Call-IsLost lease {db} {db'} v w (consumed_permission i t e r d n a h) =
      same-IsLost lease db db' (consume-SameLeases db i t e r d n h) w
  Call-IsLost lease {db} {db'} v w (finished a s p n h) =
      same-IsLost lease db db' (finish-SameLeases json_error db a s p n h) w
  Call-IsLost lease {db} {db'} v w (marked_unknown a n h) =
      same-IsLost lease db db' (mark-SameLeases db a n h) w
  Call-IsLost lease {db} {db'} v w (appended x e i t n r s h) =
      let same = append-SameElse db x e i t n r h in same-IsLost lease db db' (same.0, same.1) w
  Call-IsLost lease {db} {db'} v w (ended i e r x n d t s h) =
      same-IsLost lease db db' (cancel-Updated db i e r x n d h).1 w
  Call-IsLost lease {db} {db'} v w (lease_loss i l e x n r h) =
      same-IsLost lease db db' (interrupt-Updated db i l e x n h).1 w
  Call-IsLost lease {db} {db'} v w (checkpointed i e r p n h) =
      same-IsLost lease db db' (put_checkpoint-Same json_error db i e r p n h).1 w
  Call-IsLost lease {db} {db'} v w (replaced o i t e a x d r n h) =
      same-IsLost lease db db' (replace-SameLeases json_error db o i t e a x d r n h) w

  pub Call-Moves :
      (id : String) {db db' : Database}
      → Call describe json_error db db'
      → Moves (status_of db id) (status_of db' id)
  unfolding renew_lease release_lease
  Call-Moves id {db} {db'} (acquired s o t n x l h) =
      same-Moves id db db' (acquire-effects db s o t n x h)
  Call-Moves id {db} {db'} (renewed r n x l h) = same-Moves id db db' (ground arith)
  Call-Moves id {db} {db'} (released r h) = same-Moves id db db' (ground arith)
  Call-Moves id {db} {db'} (created s n h) =
      same-Moves id db db' ((create-ok db s n {db' = db'} h).4).3
  Call-Moves id {db} {db'} (applied j e t i n r s h) =
      same-Moves id db db' (apply-SameElse describe db j e t i n r h).3
  Call-Moves id {db} {db'} (prepared_permission i t e b a x d r n h) =
      create-Moves json_error db i t e b a x d r n h id
  Call-Moves id {db} {db'} (consumed_permission i t e r d n a h) = consume-Moves db i t e r d n h id
  Call-Moves id {db} {db'} (finished a s p n h) = finish-Moves json_error db a s p n h id
  Call-Moves id {db} {db'} (marked_unknown a n h) = mark-Moves db a n h id
  Call-Moves id {db} {db'} (appended x e i t n r s h) =
      same-Moves id db db' (append-SameElse db x e i t n r h).3
  Call-Moves id {db} {db'} (ended i e r x n d t s h) =
      Updated-Moves db db' (cancel-Updated db i e r x n d h).0 id
  Call-Moves id {db} {db'} (lease_loss i l e x n r h) =
      Updated-Moves db db' (interrupt-Updated db i l e x n h).0 id
  Call-Moves id {db} {db'} (checkpointed i e r p n h) =
      same-Moves id db db' (put_checkpoint-Same json_error db i e r p n h).0
  Call-Moves id {db} {db'} (replaced o i t e a x d r n h) =
      replace-Moves json_error db o i t e a x d r n h id
