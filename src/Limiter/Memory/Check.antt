-- ===== src/Limiter/Memory/Check.antt =====
-- internal/limiter/memory.go: `Check` and `Sweep` on the whole store. A check reads the clock
-- once for itself and, if it makes room first, once for the sweep.
use distributed_rate_limiter.Prelude.{
  ℕ, ◌+◌, Bool, true, false, Option, none, some, List, [], ◌∷◌, map, length, Text, if◌then◌else◌,
  ◌==◌, ◌&&◌, ◌++◌,
}
use distributed_rate_limiter.Prelude.Int.{ℤ, pos, ltb_ℤ, ◌+ℤ◌, ◌-ℤ◌}
use distributed_rate_limiter.Prelude.Map.{lookup, insert}
use distributed_rate_limiter.Limiter.Limit.{Limit}
use distributed_rate_limiter.Limiter.Limit.Key.{key}
use distributed_rate_limiter.Limiter.Request.{Request, effective_cost}
use distributed_rate_limiter.Limiter.Gcra.{gcra_expiry}
use distributed_rate_limiter.Limiter.Memory.{
  Memory, TenantState, WindowState, Pending, Outcome, answered, failed, panicked, too_many_keys,
  refuse_limits, evaluate_one, all_allowed, fresh_count, reread_all, limiting_name, commit,
}

-- The loop over `ts.gcra`: what is kept.
unfoldable pub sweep_gcra : ℤ → List (Text × ℤ) → List (Text × ℤ)
sweep_gcra now [] = []
sweep_gcra now ((k, tat) ∷ m) =
    if ltb_ℤ now (gcra_expiry tat) then (k, tat) ∷ sweep_gcra now m else sweep_gcra now m

-- The loop over `ts.windows`: what is kept.
unfoldable pub sweep_windows : ℤ → List (Text × WindowState) → List (Text × WindowState)
sweep_windows now [] = []
sweep_windows now ((k, w) ∷ m) =
    if ltb_ℤ now w.expiry then (k, w) ∷ sweep_windows now m else sweep_windows now m

unfoldable pub sweep_tenant : ℤ → TenantState → TenantState
unfolding sweep_gcra sweep_windows
sweep_tenant now ts = record {
  gcra = sweep_gcra now ts.gcra;
  windows = sweep_windows now ts.windows;
}

-- The counters of a tenant.
abbrev pub size : TenantState → ℕ
size ts = length ts.gcra + length ts.windows

-- The loop over the tenants; one with no counter left is dropped.
unfoldable pub sweep_tenants : ℤ → List (Text × TenantState) → List (Text × TenantState)
unfolding sweep_tenant
sweep_tenants now [] = []
sweep_tenants now ((t, ts) ∷ m) =
    let rest = sweep_tenants now m in
    if size (sweep_tenant now ts) == 0 then rest else (t, sweep_tenant now ts) ∷ rest

abbrev pub total : List (Text × TenantState) → ℕ
total [] = 0
total ((t, ts) ∷ m) = size ts + total m

-- `Sweep`: the store without the expired counters, and how many there were.
unfoldable pub sweep : ℤ → Memory → Memory × ℤ
unfolding sweep_tenants
sweep now m =
    let left = sweep_tenants now m.tenants in
    let removed = pos (total m.tenants) -ℤ pos (total left) in
    (
      record m {
        tenants = left;
        keys = if ltb_ℤ (pos 0) removed then m.keys -ℤ removed else m.keys;
      },
      removed,
    )

abbrev pub empty_tenant : TenantState
empty_tenant = record { gcra = []; windows = [] }

-- `lockTenant`: the tenant's state, created if there is none.
abbrev pub tenant_of : Memory → Text → TenantState
tenant_of m tenant = elim (lookup tenant m.tenants) [ none ↦ empty_tenant | some ts ↦ ts ]

abbrev pub with_tenant : Memory → Text → TenantState → Memory
with_tenant m tenant ts = record m { tenants = insert tenant ts m.tenants }

-- Room is made before the check if the request could need more keys than are left.
unfoldable pub make_room : ℤ → ℕ → Memory → Memory
unfolding sweep
make_room now n m = if ltb_ℤ m.max_keys (m.keys +ℤ pos n) then (sweep now m).0 else m

-- The budget does not have room for the new counters.
abbrev pub is_full : Memory → List Pending → Bool
is_full m ps =
    ltb_ℤ (pos 0) (pos (fresh_count ps)) && ltb_ℤ m.max_keys (m.keys +ℤ pos (fresh_count ps))

-- What follows the first pass: a refusal, a peek, a full store, or the commit.
unfoldable pub conclude : Memory → Request → ℤ → TenantState → List Pending → Memory × Outcome
conclude m req now ts ps =
    let decisions = map (λ (p : Pending). p.decision) ps in
    let refused : Outcome = elim (reread_all ts now ps) [
      | none ↦ panicked
      | some ds ↦ answered (record { allowed = false; decisions = ds; limiting = limiting_name ds })
    ] in
    let granted = answered (record { allowed = true; decisions = decisions; limiting = [] }) in
    if all_allowed ps
    then if req.peek_only
      then (m, granted)
      else if is_full m ps
      then (m, failed too_many_keys)
      else (
        record m {
          tenants = insert req.tenant (commit ts ps) m.tenants;
          keys = m.keys +ℤ pos (fresh_count ps);
        },
        granted,
      )
    else (m, refused)

module _ (sha256 : Text → Text) where
  -- The first pass: every limit against the state it finds.
  unfoldable pub evaluate : TenantState → ℤ → ℤ → Text → List Limit → Option (List Pending)
  evaluate ts now cost tenant [] = some []
  evaluate ts now cost tenant (l ∷ ls) =
      elim (evaluate_one ts now cost (key sha256 l tenant) l l.algorithm) [
        | none ↦ none
        | some p ↦ elim (evaluate ts now cost tenant ls) [ none ↦ none | some ps ↦ some (p ++ ps) ]
      ]

  -- `Check` once it holds the tenant's lock.
  unfoldable pub check_locked : Memory → ℤ → Request → Memory × Outcome
  unfolding evaluate conclude
  check_locked m now req =
      let ts = tenant_of m req.tenant in
      let m' = with_tenant m req.tenant ts in
      elim (evaluate ts now (effective_cost req) req.tenant req.limits) [
        | none ↦ (m', panicked)
        | some ps ↦ conclude m' req now ts ps
      ]

  -- `Check`.
  unfoldable pub check : Memory → ℤ → ℤ → Request → Memory × Outcome
  unfolding check_locked make_room
  check m sweep_now now req = elim (refuse_limits (effective_cost req) req.limits) [
    | some e ↦ (m, failed e)
    | none ↦ elim req.limits [
      | [] ↦ (m, answered (record { allowed = true; decisions = []; limiting = [] }))
      | l ∷ ls ↦ check_locked (make_room sweep_now (length (l ∷ ls)) m) now req
    ]
  ]
