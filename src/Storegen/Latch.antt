-- ===== src/Storegen/Latch.antt =====
-- When the guard closes and opens, and how the cluster comes to agree on a store again.
use distributed_rate_limiter.Prelude.{
  ℕ, ◌+◌, ◌<◌, ◌≡◌, ◌≢◌, ◌⊎◌, if◌then◌else◌, ◌==◌, arith, true, false, Option, none, some, Text,
}
use distributed_rate_limiter.Prelude.Int.{pos, add64}
use distributed_rate_limiter.Storegen.{
  Guard, World, Reason, proposed, check, latch, clear, settle, adopt, reconcile, reconcile_read,
}
use distributed_rate_limiter.Cluster.State.{State, u64_next, apply_store_gen, generation_below}

-- The generation in force in the store once a reconciliation is over, if it is known.
abbrev pub in_force : World → Option ℕ
in_force w = elim w.identity [
  | none ↦ none
  | some (gen, run) ↦
      if gen == 0 then w.mint (if w.committed == 0 then 1 else u64_next w.committed) else some gen
]

-- Whatever the store and the cluster say, a closed guard opens only in a reconciliation that finds
-- the store under a generation that the cluster has committed, when it began or when it asked again.
pub reconcile_opens :
    (w : World) (g : Guard)
    → g.blocked ≡ true
    → (reconcile w g).0.blocked ≡ false
    → (in_force w ≡ some w.committed) ⊎ (in_force w ≡ some w.committed_later)
unfolding reconcile reconcile_read adopt settle latch clear
reconcile_opens w g closed opened = ground arith

-- The generation that the store has when a reconciliation begins, if it can be read.
abbrev pub observed : World → Option ℕ
observed w = elim w.identity [ none ↦ none | some (gen, run) ↦ some gen ]

-- An open guard closes only if the cluster had committed a generation, and the store was read and was
-- under another one or none: an outage or a restart that kept the generation never closes it.
pub reconcile_closes :
    (w : World) (g : Guard)
    → g.blocked ≡ false
    → (reconcile w g).0.blocked ≡ true
    → (w.committed ≢ 0) × (observed w ≢ none) × (observed w ≢ some w.committed)
unfolding reconcile reconcile_read adopt settle latch clear
reconcile_closes w g was closed = (λ e. ground arith, λ e. ground arith, λ e. ground arith)

-- Once the cluster has committed a generation, a store read under another one or none leaves the guard
-- closed, whatever it was, unless the cluster has come to commit the one now in force; every check
-- that follows is refused and counted.
pub reconcile_refuses :
    (w : World) (g : Guard) (gen : ℕ)
    → w.committed ≢ 0
    → observed w ≡ some gen
    → gen ≢ w.committed
    → in_force w ≢ some w.committed_later
    → (r : Reason) × (check (reconcile w g).0
        ≡ (record (reconcile w g).0 { denials = add64 (reconcile w g).0.denials (pos 1) }, some r))
unfolding reconcile reconcile_read adopt settle latch clear check
reconcile_refuses w g gen nonzero read differs later = ((reconcile w g).0.reason, ground arith)

-- A store restored under an older generation is never recovered from: the reconciliation proposes
-- that generation, the cluster's state machine refuses it and keeps its own, and the guard stays
-- closed as long as the cluster commits no other generation meanwhile.
pub restored_store_stays_refused :
    (w : World) (g : Guard) (gen : ℕ) (run : Text) (s : State)
    → w.identity ≡ some (gen, run)
    → 0 < gen
    → gen < w.committed
    → w.committed_later ≡ w.committed
    → w.can_propose ≡ true
    → s.store_gen ≡ w.committed
    → ((reconcile w g).1 ≡ proposed gen)
      × ((reconcile w g).0.blocked ≡ true)
      × (apply_store_gen s gen ≡ (s, false, some generation_below))
unfolding reconcile reconcile_read adopt settle latch clear apply_store_gen
restored_store_stays_refused w g gen run s read pos_gen below later can agreed =
    (ground arith, ground arith, ground arith)

-- A wiped store is recovered from in two rounds. The first closes the guard, mints the generation
-- above the committed one and proposes it; the state machine accepts it; and the second, which
-- reads what was minted and finds it committed, opens the guard.
pub wiped_store_recovers :
    (w w' : World) (g : Guard) (run run' : Text) (s : State)
    → w.identity ≡ some (0, run)
    → 0 < w.committed
    → w.committed + 1 < 18446744073709551616
    → w.mint (w.committed + 1) ≡ some (w.committed + 1)
    → w.committed_later ≡ w.committed
    → w.can_propose ≡ true
    → s.store_gen ≡ w.committed
    → w'.identity ≡ some (w.committed + 1, run')
    → w'.committed ≡ w.committed + 1
    → ((reconcile w g).1 ≡ proposed (w.committed + 1))
      × ((reconcile w g).0.blocked ≡ true)
      × (apply_store_gen s (w.committed + 1)
          ≡ (record s { store_gen = w.committed + 1 }, true, none))
      × ((reconcile w' (reconcile w g).0).0.blocked ≡ false)
unfolding reconcile reconcile_read adopt settle latch clear apply_store_gen
wiped_store_recovers w w' g run run' s wiped pos_gen fits minted later can agreed read' committed' =
    (ground arith, ground arith, ground arith, ground arith)
