-- ===== src/Limiter/Memory/Atomic.antt =====
-- All or nothing: what a check that is not an admission leaves behind, and what an admission
-- writes.
use distributed_rate_limiter.Prelude.{
  Bool, ◌≡◌, ◌⊎◌, ◌≢◌, true, false, some, List, [], map, Text, text_eq, text_eq_iff, arith, All,
  ◌++◌, ◌∷◌,
}
use distributed_rate_limiter.Prelude.Int.{ℤ, pos, ◌+ℤ◌}
use distributed_rate_limiter.Prelude.Map.{lookup, insert, lookup-insert}
use distributed_rate_limiter.Limiter.Request.{Request, Result, effective_cost}
use distributed_rate_limiter.Limiter.Memory.{
  Memory, TenantState, Pending, Outcome, answered, failed, panicked, fresh_count, all_allowed,
  commit, Staged, arrival, entries,
}
use distributed_rate_limiter.Limiter.Memory.Check.{tenant_of, with_tenant, evaluate}

-- Creating the state that was looked up anyway changes no tenant's counters.
pub tenant_of-with_tenant :
    (m : Memory) (t u : Text) → tenant_of (with_tenant m t (tenant_of m t)) u ≡ tenant_of m u
tenant_of-with_tenant m t u =
    ground (arith, lookup-insert t u (tenant_of m t) m.tenants, text_eq_iff t u)

-- What an admission answers.
abbrev pub granted : List Pending → Result
granted ps = record {
  allowed = true;
  decisions = map (λ (p : Pending). p.decision) ps;
  limiting = [];
}

-- What an admission leaves, and what it answers.
abbrev admitted : Memory → Request → TenantState → List Pending → Memory × Outcome
admitted m req ts ps = (
  record m {
    tenants = insert req.tenant (commit ts ps) m.tenants;
    keys = m.keys +ℤ pos (fresh_count ps);
  },
  answered (granted ps),
)

-- The answer lets the request through.
abbrev pub admits : Outcome → Bool
admits (answered r) = r.allowed
admits (failed e) = false
admits panicked = false

-- It does not, or the request was a peek.
abbrev pub IsWithheld : Request → Outcome → Type 0
IsWithheld req o = (admits o ≡ false) ⊎ (req.peek_only ≡ true)

-- What a tenant holds under a staged key.
abbrev pub Holds : TenantState → Text → Staged → Type 0
Holds ts k (arrival t) = lookup k ts.gcra ≡ some t
Holds ts k (entries w) = lookup k ts.windows ≡ some w

-- An admission: every limit was evaluated and admitted, no other tenant changed, and the tenant holds
-- every staged counter, the last one staged where a key comes twice, and its other counters as
-- they were.
pub record Admission (sha256 : Text → Text) (m : Memory) (now : ℤ) (req : Request)
    (after : Memory × Outcome) : Type 0 where
  pub not_peek : req.peek_only ≡ false
  pub staged : List Pending
  pub evaluated :
      evaluate sha256 (tenant_of m req.tenant) now (effective_cost req) req.tenant req.limits
      ≡ some staged
  pub all_admitted : all_allowed staged ≡ true
  pub result : after.1 ≡ answered (granted staged)
  pub charged :
      (first last : List Pending) (p : Pending)
      → staged ≡ first ++ p ∷ last
      → All (λ q. text_eq q.at p.at ≡ false) last
      → Holds (tenant_of after.0 req.tenant) p.at p.staged
  pub kept :
      (k : Text)
      → All (λ q. text_eq q.at k ≡ false) staged
      → (lookup k (tenant_of after.0 req.tenant).gcra ≡ lookup k (tenant_of m req.tenant).gcra)
        × (lookup k (tenant_of after.0 req.tenant).windows
            ≡ lookup k (tenant_of m req.tenant).windows)
  pub others : (u : Text) → u ≢ req.tenant → tenant_of after.0 u ≡ tenant_of m u
  pub counted : after.0.keys ≡ m.keys +ℤ pos (fresh_count staged)

-- Nothing was written: every tenant's counters and their number are as they were.
abbrev pub IsUnwritten : Memory → Memory → Type 0
IsUnwritten m m' = ((u : Text) → tenant_of m' u ≡ tenant_of m u) × (m'.keys ≡ m.keys)
