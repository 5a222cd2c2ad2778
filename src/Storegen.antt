-- ===== src/Storegen.antt =====
-- internal/storegen/guard.go: the guard that refuses to decide while the counter store is not the
-- one that the cluster agreed on. The store and the log are what a `World` says.
pub mod Latch
mod Tests
use distributed_rate_limiter.Prelude.{
  ℕ, ◌+◌, ◌%◌, Bool, true, false, not, ◌==◌, Option, none, some, [], Text, if◌then◌else◌,
}
use distributed_rate_limiter.Prelude.Int.{ℤ, pos, add64}
use distributed_rate_limiter.Cluster.State.{u64_next}

-- Why the guard refuses.
pub data Reason : Type 0 where
  unstated cleared : Reason
  generation : ℕ → ℕ → Reason
  reported : Text → Reason

pub record Guard : Type 0 where
  pub blocked : Bool
  pub reason : Reason
  pub run_id : Text
  pub seen : ℕ
  pub denials : ℤ
  pub latches : ℤ

-- What a reconciliation finds: the store's identity or `none` for an error, what the cluster has
-- committed when it begins and when it asks again, what minting a candidate returns, and whether
-- there is a log to propose to.
pub record World : Type 0 where
  pub identity : Option (ℕ × Text)
  pub committed : ℕ
  pub committed_later : ℕ
  pub mint : ℕ → Option ℕ
  pub can_propose : Bool

-- How a reconciliation ends: with an error of the store or without one, and what it proposed.
pub data Ending : Type 0 where
  store_error : Ending
  settled : Ending
  proposed : ℕ → Ending

abbrev pub new_guard : Guard
new_guard = record {
  blocked = false;
  reason = unstated;
  run_id = [];
  seen = 0;
  denials = pos 0;
  latches = pos 0;
}

-- `Check`: the guard, and the reason of a refusal.
unfoldable pub check : Guard → Guard × Option Reason
check g = elim g.blocked [
  | false ↦ (g, none)
  | true ↦ (record g { denials = add64 g.denials (pos 1) }, some g.reason)
]

-- `latch`, which `Fence` calls.
unfoldable pub latch : Reason → Guard → Guard
latch r g = record g {
  blocked = true;
  reason = r;
  latches = if g.blocked then g.latches else add64 g.latches (pos 1);
}

abbrev pub fence : Text → Guard → Guard
fence text g = latch (reported text) g

unfoldable pub clear : Guard → Guard
clear g = record g { blocked = false; reason = unstated }

-- `adopt` once the generation in force is known.
unfoldable pub settle : World → Guard → ℕ → Guard × Ending
unfolding clear
settle w g in_force =
    if in_force == w.committed_later
    then (clear g, settled)
    else if w.can_propose
    then (g, proposed in_force)
    else (g, settled)

-- `adopt`.
unfoldable pub adopt : World → Guard → ℕ → ℕ → Guard × Ending
unfolding settle
adopt w g observed candidate =
    if observed == 0
    then elim (w.mint candidate) [
      | none ↦ (g, store_error)
      | some minted ↦ settle w (record g { seen = minted }) minted
    ]
    else settle w g observed

-- The identity is recorded before anything is decided.
abbrev pub noted : ℕ → Text → Guard → Guard
noted gen run g = record g { run_id = run; seen = gen }

-- `Reconcile` with an identity that was read.
unfoldable pub reconcile_read : World → ℕ → Text → Guard → Guard × Ending
unfolding adopt latch clear
reconcile_read w gen run g =
    if w.committed == 0
    then adopt w (noted gen run g) gen 1
    else if gen == 0
    then adopt w (latch cleared (noted gen run g)) gen (u64_next w.committed)
    else if gen == w.committed
    then (clear (noted gen run g), settled)
    else adopt w (latch (generation gen w.committed) (noted gen run g)) gen (u64_next w.committed)

-- `Reconcile`. A restart that kept the generation only adds a line to the log.
unfoldable pub reconcile : World → Guard → Guard × Ending
unfolding reconcile_read
reconcile w g = elim w.identity [
  | none ↦ (g, store_error)
  | some (gen, run) ↦ reconcile_read w gen run g
]
