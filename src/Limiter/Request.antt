-- ===== src/Limiter/Request.antt =====
-- internal/limiter/limit.go: what a caller asks and what it is told.
use distributed_rate_limiter.Prelude.{
  ℕ, Bool, ◌&&◌, not, List, [], ◌∷◌, Option, none, some, Text, if◌then◌else◌,
}
use distributed_rate_limiter.Prelude.Int.{ℤ, pos, ltb_ℤ, leb_ℤ}
use distributed_rate_limiter.Limiter.Limit.{Limit}

pub record Decision : Type 0 where
  pub name : Text
  pub allowed : Bool
  pub limit : ℤ
  pub remaining : ℤ
  pub retry_after : ℤ
  pub reset_after : ℤ

pub record Request : Type 0 where
  pub tenant : Text
  pub limits : List Limit
  pub cost : ℤ
  pub peek_only : Bool
  pub store_gen : ℕ
  pub policy_gen : ℕ

-- `EffectiveCost`: a peek costs nothing, and zero or less is read as one.
unfoldable pub effective_cost : Request → ℤ
effective_cost r = if r.peek_only then pos 0 else if leb_ℤ r.cost (pos 0) then pos 1 else r.cost

pub record Result : Type 0 where
  pub allowed : Bool
  pub decisions : List Decision
  pub limiting : Text

worst_after : ℤ → List Decision → ℤ
worst_after worst [] = worst
worst_after worst (d ∷ ds) =
    worst_after (if not d.allowed && ltb_ℤ worst d.retry_after then d.retry_after else worst) ds

-- `Result.RetryAfter`.
unfoldable pub retry_after : Result → ℤ
unfolding worst_after
retry_after r = worst_after (pos 0) r.decisions

tightest_from : Decision → List Decision → Decision
tightest_from best [] = best
tightest_from best (d ∷ ds) =
    tightest_from (if ltb_ℤ d.remaining best.remaining then d else best) ds

-- `Result.Tightest`: `none` where the source returns false.
unfoldable pub tightest : Result → Option Decision
unfolding tightest_from
tightest r = elim r.decisions [ [] ↦ none | d ∷ ds ↦ some (tightest_from d ds) ]
