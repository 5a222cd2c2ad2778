-- ===== src/Limiter/Window.antt =====
-- internal/limiter/window.go: the sliding window, whose state is a log of instants, oldest first.
-- `none` is a panic: an index out of range.
pub mod Log
pub mod Retry
pub mod Exact
use distributed_rate_limiter.Prelude.{
  Bool, true, false, Option, none, some, List, [], ◌∷◌, ◌++◌, length, get_elem?, replicate,
  if◌then◌else◌, ◌>>=◌,
}
use distributed_rate_limiter.Prelude.Int.{
  ℤ, pos, negsuc, pos_part, ltb_ℤ, ◌==ℤ◌, add64, sub64, neg64, add_time, sub_time, zero_time,
}
use distributed_rate_limiter.Limiter.Limit.{Limit}
use distributed_rate_limiter.Limiter.Request.{Decision}

-- The loop that finds where the live part of the log starts, and the slice from there.
unfoldable pub live_from : ℤ → List ℤ → List ℤ
live_from cutoff [] = []
live_from cutoff (t ∷ log) = if ltb_ℤ cutoff t then t ∷ log else live_from cutoff log

-- `log[i]`.
abbrev pub index : List ℤ → ℤ → Option ℤ
index log (pos i) = get_elem? log i
index log (negsuc i) = none

-- `log[0].Add(l.Period).Sub(now)`, and 0 for an empty log.
unfoldable pub reset_after_of : Limit → List ℤ → ℤ → ℤ
reset_after_of l [] now = pos 0
reset_after_of l (t ∷ log) now = sub_time (add_time t l.period) now

abbrev pub told : Limit → Bool → ℤ → ℤ → ℤ → Decision
told l allowed remaining retry reset = record {
  name = l.name;
  allowed = allowed;
  limit = l.count;
  remaining = remaining;
  retry_after = retry;
  reset_after = reset;
}

-- The part of `windowCheck` after the log is pruned.
unfoldable pub window_decide : Limit → List ℤ → ℤ → ℤ → Option (List ℤ × Decision)
unfolding reset_after_of
window_decide l log now cost =
    let used = pos (length log) in
    let left = sub64 l.count used in
    let remaining = if ltb_ℤ left (pos 0) then pos 0 else left in
    let reset = reset_after_of l log now in
    let refused : ℤ → Option (List ℤ × Decision) = λ oldest.
      some (log, told l false remaining (sub_time (add_time oldest l.period) now) reset) in
    let log' = log ++ replicate (pos_part cost) now in
    let admitted : ℤ → Option (List ℤ × Decision) = λ oldest. some (
      log',
      told l true (sub64 l.count (pos (length log'))) (pos 0)
          (sub_time (add_time oldest l.period) now),
    ) in
    if cost ==ℤ pos 0
    then some (log, told l true remaining (pos 0) reset)
    else if ltb_ℤ l.count (add64 used cost)
    then index log (sub64 (sub64 (add64 used cost) l.count) (pos 1)) >>= refused
    else index log' (pos 0) >>= admitted

-- `windowCheck`: the log to store, and the decision.
unfoldable pub window_check : Limit → List ℤ → ℤ → ℤ → Option (List ℤ × Decision)
unfolding window_decide live_from
window_check l log now cost =
    window_decide l (live_from (add_time now (neg64 l.period)) log) now cost

-- `windowExpiry`.
unfoldable pub window_expiry : Limit → List ℤ → ℤ
window_expiry l [] = zero_time
window_expiry l (t ∷ []) = add_time t l.period
window_expiry l (t ∷ u ∷ log) = window_expiry l (u ∷ log)
