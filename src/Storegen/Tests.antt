-- ===== src/Storegen/Tests.antt =====
-- Concrete runs of the store's guard, and the theorems of `Latch` at them.
use distributed_rate_limiter.Prelude.{◌≡◌, refl, arith, true, false, none, some, [], bytes}
use distributed_rate_limiter.Prelude.Int.{pos}
use distributed_rate_limiter.Storegen.{Guard, World, cleared, new_guard, reconcile, proposed}
use distributed_rate_limiter.Storegen.Latch.{restored_store_stays_refused, wiped_store_recovers}
use distributed_rate_limiter.Cluster.State.{State, apply_store_gen, generation_below}

-- The cluster committed generation 5, and the store was wiped.
abbrev wiped : World
wiped = record {
  identity = some (0, bytes "r1");
  committed = 5;
  committed_later = 5;
  mint = λ n. some n;
  can_propose = true;
}

-- The store came back under generation 3.
abbrev older : World
older = record wiped { identity = some (3, bytes "r1") }

-- The generation minted for the wiped store has been committed.
abbrev renamed : World
renamed = record wiped { identity = some (6, bytes "r1"); committed = 6; committed_later = 6 }

abbrev closed_guard : Guard
closed_guard = record new_guard { blocked = true; reason = cleared; latches = pos 1 }

abbrev five : State
five = record { members = []; vnodes = pos 0; ring_epoch = 0; policy_gen = 0; store_gen = 5 }

renamed-opens : (reconcile renamed closed_guard).0.blocked ≡ false
unfolding reconcile
renamed-opens = refl

wiped-closes : (reconcile wiped new_guard).0.blocked ≡ true
unfolding reconcile
wiped-closes = refl

restored_store_stays_refused_example :
    ((reconcile older new_guard).1 ≡ proposed 3)
    × ((reconcile older new_guard).0.blocked ≡ true)
    × (apply_store_gen five 3 ≡ (five, false, some generation_below))
restored_store_stays_refused_example =
    restored_store_stays_refused older new_guard 3 (bytes "r1") five refl (omega arith)
      (omega arith) refl refl refl

wiped_store_recovers_example :
    ((reconcile wiped new_guard).1 ≡ proposed 6)
    × ((reconcile wiped new_guard).0.blocked ≡ true)
    × (apply_store_gen five 6 ≡ (record five { store_gen = 6 }, true, none))
    × ((reconcile renamed (reconcile wiped new_guard).0).0.blocked ≡ false)
wiped_store_recovers_example =
    wiped_store_recovers wiped renamed new_guard (bytes "r1") (bytes "r1") five refl (omega arith)
      (omega arith) refl refl refl refl refl refl
