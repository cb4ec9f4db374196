-- ===== src/Engine/Ledger/Leases/Examples.antt =====
-- The leases of crates/latte-engine/src/storage.rs on concrete tables.
use latte_code.Base.{◌≡◌, inr, refl, true, none, [], ◌∷◌, ok, arith}
use latte_code.Engine.Ledger.{Database, is_authoritative}
use latte_code.Engine.Ledger.Fixtures.{first_lease, second_lease, tables, turn_row}
use latte_code.Engine.Ledger.Leases.{
  allocate, choose_token, put, upsert, claimed, claim_turns, install, acquire_scoped_lease,
  release_lease,
}
use latte_code.Engine.Ledger.Leases.Fencing.{IsSound}
use latte_code.Engine.Ledger.Leases.Lost.{IsLost, acquire-IsLost}
use latte_code.Engine.Ledger.Leases.Exclusive.{acquire_exclusive}

pub tables-IsSound : IsSound tables
tables-IsSound = record { separate = (tt, tt); bounded = (omega arith, tt) }

live : is_authoritative tables first_lease 50 ≡ true
unfolding is_authoritative
live = refl

-- The owner of a live lease takes it again.
abbrev again : Database
again = record tables {
  leases = (record first_lease { expires_at_ms = 150 }) ∷ [];
  turns = (record turn_row { lease_token = 1 }) ∷ [];
}

acquire_again :
    acquire_scoped_lease tables "runtime" "engine-1" none 50 100
    ≡ ok (record first_lease { expires_at_ms = 150 }, again)
unfolding acquire_scoped_lease choose_token install upsert put claim_turns claimed
acquire_again = refl

-- After it ran out, another owner takes it.
abbrev pub taken : Database
taken = record tables {
  leases = second_lease ∷ [];
  last_token = 2;
  turns = (record turn_row { lease_token = 2 }) ∷ [];
}

pub take_over :
    acquire_scoped_lease tables "runtime" "engine-2" none 150 100 ≡ ok (second_lease, taken)
unfolding acquire_scoped_lease choose_token allocate install upsert put claim_turns claimed
take_over = refl

acquire_exclusive_example : ("engine-1" ≡ first_lease.owner) × (1 ≡ first_lease.fencing_token)
acquire_exclusive_example =
    acquire_exclusive tables first_lease "engine-1" none 50 100
      {l = record first_lease { expires_at_ms = 150 }} {db' = again} tables-IsSound live
      acquire_again

abbrev released : Database
released = record tables { leases = [] }

release : release_lease tables first_lease ≡ ok released
unfolding release_lease
release = refl

pub first-IsLost : IsLost taken first_lease
first-IsLost =
    acquire-IsLost tables first_lease "engine-2" none 150 100 {l = second_lease} {db' = taken}
      tables-IsSound (omega arith) take_over (inr (ground arith))
