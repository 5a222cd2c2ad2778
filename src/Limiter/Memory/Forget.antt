-- ===== src/Limiter/Memory/Forget.antt =====
-- Forgetting is safe: a counter that the sweeper may drop decides as one that is not there.
use distributed_rate_limiter.Prelude.{◌≡◌, refl, List, [], ◌∷◌, if◌then◌else◌, arith}
use distributed_rate_limiter.Prelude.Int.{ℤ, pos, ltb_ℤ, ◌≤ℤ◌, ◌+ℤ◌, zero_time, eq_of_parts}
use distributed_rate_limiter.Limiter.Limit.{Limit}
use distributed_rate_limiter.Limiter.Limit.Sizes.{HasSizes, period_ns}
use distributed_rate_limiter.Limiter.Gcra.{gcra_check, gcra_expiry}
use distributed_rate_limiter.Limiter.Window.{live_from, window_check, window_expiry}
use distributed_rate_limiter.Limiter.Window.Log.{cutoff_lem, live}
use distributed_rate_limiter.Limiter.Window.Retry.{IsOrdered, aged_iff}

-- Once its expiry has come, a bucket's arrival time makes no difference to any later check: the
-- check answers as for a bucket never used, whatever the limit and the cost.
pub gcra_check_forget :
    (l : Limit) (tat now cost : ℤ)
    → gcra_expiry tat ≤ℤ now
    → zero_time ≤ℤ now
    → gcra_check l tat now cost ≡ gcra_check l zero_time now cost
unfolding gcra_check
gcra_check_forget l tat now cost old h =
    let at : (if ltb_ℤ tat now then now else tat) ≡ now = ground (arith, eq_of_parts tat now) in
    let zero : (if ltb_ℤ zero_time now then now else zero_time) ≡ now =
      ground (arith, eq_of_parts zero_time now) in
    rw (at, zero)

all_aged :
    (l : Limit) (log : List ℤ) (now : ℤ)
    → HasSizes l
    → IsOrdered log
    → window_expiry l log ≤ℤ now
    → live l now log ≡ []
unfolding window_expiry live_from
all_aged l [] now s o h = refl
all_aged l (t ∷ []) now s o h =
    let past : t +ℤ pos (period_ns l) ≤ℤ now = rw s.period_pos at h in
    ground (arith, (aged_iff l t now).1 past)
all_aged l (t ∷ u ∷ log) now s o h = ground (arith, all_aged l (u ∷ log) now s o.1 h)

-- For an accepted limit, once its expiry has come, an ordered log makes no difference to any
-- later check: the check answers as for an empty log, and returns the same log.
pub window_check_forget :
    (l : Limit) (log : List ℤ) (now cost : ℤ)
    → HasSizes l
    → IsOrdered log
    → window_expiry l log ≤ℤ now
    → window_check l log now cost ≡ window_check l [] now cost
unfolding window_check live_from
window_check_forget l log now cost s o h = rw (cutoff_lem l now s, all_aged l log now s o h)
