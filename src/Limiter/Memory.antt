-- ===== src/Limiter/Memory.antt =====
-- internal/limiter/memory.go: the in-memory store and its `Check` and `Sweep`, run to the end one
-- at a time. The 64 shards are one map of tenants here: a shard only says which lock guards it.
pub mod Check
pub mod Forget
pub mod Atomic
use distributed_rate_limiter.Prelude.{
  ℕ, suc, ◌+◌, Bool, true, false, ◌&&◌, not, Option, none, some, List, [], ◌∷◌, ◌++◌, map, length,
  Text, bytes, if◌then◌else◌, ◌>>=◌,
}
use distributed_rate_limiter.Prelude.Int.{ℤ, pos, negsuc, ltb_ℤ, leb_ℤ, ◌+ℤ◌, ◌-ℤ◌, zero_time}
use distributed_rate_limiter.Prelude.Map.{lookup, insert, delete}
use distributed_rate_limiter.Limiter.Limit.{
  Limit, LimitError, Algorithm, token_bucket, sliding_window, other, validate, capacity,
}
use distributed_rate_limiter.Limiter.Limit.Key.{key}
use distributed_rate_limiter.Limiter.Request.{Request, Decision, Result, effective_cost}
use distributed_rate_limiter.Limiter.Gcra.{gcra_check, gcra_expiry}
use distributed_rate_limiter.Limiter.Window.{window_check, window_expiry}

pub record WindowState : Type 0 where
  pub log : List ℤ
  pub expiry : ℤ

pub record TenantState : Type 0 where
  pub gcra : List (Text × ℤ)
  pub windows : List (Text × WindowState)

pub record Memory : Type 0 where
  pub max_keys : ℤ
  pub keys : ℤ
  pub tenants : List (Text × TenantState)

abbrev pub default_max_keys : ℤ
default_max_keys = pos 1048576

-- `NewMemory`, given the bound that the options ask for.
unfoldable pub new_memory : ℤ → Memory
new_memory n = record {
  max_keys = if leb_ℤ n (pos 0) then default_max_keys else n;
  keys = pos 0;
  tenants = [];
}

pub data CheckError : Type 0 where
  invalid : LimitError → CheckError
  cost_exceeds_capacity too_many_keys : CheckError

-- What `Check` returns: a result, an error, or a panic.
pub data Outcome : Type 0 where
  answered : Result → Outcome
  failed : CheckError → Outcome
  panicked : Outcome

-- The loop over the limits before any lock is taken.
unfoldable pub refuse_limits : ℤ → List Limit → Option CheckError
refuse_limits cost [] = none
refuse_limits cost (l ∷ ls) = elim (validate l) [
  | some e ↦ some (invalid e)
  | none ↦ if ltb_ℤ (capacity l) cost then some cost_exceeds_capacity else refuse_limits cost ls
]

-- What a limit's evaluation stages: the state to store if every limit admits.
pub data Staged : Type 0 where
  arrival : ℤ → Staged
  entries : WindowState → Staged

pub record Pending : Type 0 where
  pub at : Text
  pub limit : Limit
  pub staged : Staged
  pub fresh : Bool
  pub decision : Decision

abbrev pub stored_tat : TenantState → Text → ℤ
stored_tat ts k = elim (lookup k ts.gcra) [ none ↦ zero_time | some t ↦ t ]

abbrev pub stored_log : TenantState → Text → List ℤ
stored_log ts k = elim (lookup k ts.windows) [ none ↦ [] | some w ↦ w.log ]

abbrev pub is_missing {ℓ} : {A : Type ℓ} → Option A → Bool
is_missing none = true
is_missing (some a) = false

-- One round of the first pass, by the limit's algorithm. An unknown one stages nothing.
unfoldable pub evaluate_one : TenantState → ℤ → ℤ → Text → Limit → Algorithm → Option (List Pending)
evaluate_one ts now cost k l token_bucket = do
  (t, d) ← gcra_check l (stored_tat ts k) now cost
  some (
      record {
        at = k;
        limit = l;
        staged = arrival t;
        fresh = is_missing (lookup k ts.gcra);
        decision = d;
      }
      ∷ [])
evaluate_one ts now cost k l sliding_window = do
  (log, d) ← window_check l (stored_log ts k) now cost
  some (
      record {
        at = k;
        limit = l;
        staged = entries (record { log = log; expiry = window_expiry l log });
        fresh = is_missing (lookup k ts.windows);
        decision = d;
      }
      ∷ [])
evaluate_one ts now cost k l (other a) = some []

-- `result.Allowed` after the first pass.
unfoldable pub all_allowed : List Pending → Bool
all_allowed [] = true
all_allowed (p ∷ ps) = p.decision.allowed && all_allowed ps

unfoldable pub fresh_count : List Pending → ℕ
fresh_count [] = 0
fresh_count (p ∷ ps) = (if p.fresh then 1 else 0) + fresh_count ps

-- What a refused request reports for a limit that would have admitted it: a peek.
unfoldable pub reread : TenantState → ℤ → Pending → Staged → Option Decision
reread ts now p (arrival t) = do
  (_, peek) ← gcra_check p.limit (stored_tat ts p.at) now (pos 0)
  some (record p.decision { remaining = peek.remaining; reset_after = peek.reset_after })
reread ts now p (entries w) = do
  (_, peek) ← window_check p.limit (stored_log ts p.at) now (pos 0)
  some (record p.decision { remaining = peek.remaining; reset_after = peek.reset_after })

unfoldable pub reread_all : TenantState → ℤ → List Pending → Option (List Decision)
unfolding reread
reread_all ts now [] = some []
reread_all ts now (p ∷ ps) = do
  d ← if p.decision.allowed then reread ts now p p.staged else some p.decision
  ds ← reread_all ts now ps
  some (d ∷ ds)

name_from : Text → ℤ → List Decision → Text
name_from name worst [] = name
name_from name worst (d ∷ ds) =
    let longer = not d.allowed && ltb_ℤ worst d.retry_after in
    name_from (if longer then d.name else name) (if longer then d.retry_after else worst) ds

-- `limitingName`.
unfoldable pub limiting_name : List Decision → Text
unfolding name_from
limiting_name ds = name_from [] (negsuc 0) ds

-- The second pass: what was staged is stored.
unfoldable pub commit_one : TenantState → Text → Staged → TenantState
commit_one ts k (arrival t) = record ts { gcra = insert k t ts.gcra }
commit_one ts k (entries w) = record ts { windows = insert k w ts.windows }

unfoldable pub commit : TenantState → List Pending → TenantState
unfolding commit_one
commit ts [] = ts
commit ts (p ∷ ps) = commit (commit_one ts p.at p.staged) ps
