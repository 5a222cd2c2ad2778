-- ===== src/Limiter/Gcra.antt =====
-- internal/limiter/gcra.go: the token bucket, whose state is one instant, the theoretical arrival
-- time. Instants are nanoseconds from Go's zero time; `none` is a panic.
pub mod Bucket
pub mod Overflow
pub mod Rate
pub mod Admission
use distributed_rate_limiter.Prelude.{Bool, true, false, Option, none, some, if◌then◌else◌, ◌>>=◌}
use distributed_rate_limiter.Prelude.Int.{
  ℤ, pos, ltb_ℤ, ◌==ℤ◌, sub64, mul64, div64, add_time, sub_time, neg64,
}
use distributed_rate_limiter.Limiter.Limit.{Limit, emission, tolerance, capacity}
use distributed_rate_limiter.Limiter.Request.{Decision}

-- The closure `headroom`.
unfoldable pub headroom : ℤ → ℤ → ℤ → ℤ → Option ℤ
headroom emission tolerance now t =
    let free = sub64 tolerance (sub_time t now) in
    if ltb_ℤ free (pos 0) then some (pos 0) else div64 free emission

-- What a branch of `gcraCheck` returns, its `Remaining` computed.
answer : Limit → Bool → ℤ → ℤ → ℤ → ℤ → Option (ℤ × Decision)
answer l allowed tat retry reset remaining = some (
  tat,
  record {
    name = l.name;
    allowed = allowed;
    limit = capacity l;
    remaining = remaining;
    retry_after = retry;
    reset_after = reset;
  },
)

-- `gcraCheck` from the point where `tat` is not before `now`.
gcra_decide : Limit → ℤ → ℤ → ℤ → ℤ → ℤ → Option (ℤ × Decision)
unfolding answer
gcra_decide l emission tolerance tat now cost =
    let next = add_time tat (mul64 emission cost) in
    let allow_at = add_time next (neg64 tolerance) in
    let peeked = answer l true tat (pos 0) (sub_time tat now) in
    let refused = answer l false tat (sub_time allow_at now) (sub_time tat now) in
    let admitted = answer l true next (pos 0) (sub_time next now) in
    if cost ==ℤ pos 0
    then headroom emission tolerance now tat >>= peeked
    else if ltb_ℤ now allow_at
    then headroom emission tolerance now tat >>= refused
    else headroom emission tolerance now next >>= admitted

-- `gcraCheck`: the arrival time to store, and the decision.
unfoldable pub gcra_check : Limit → ℤ → ℤ → ℤ → Option (ℤ × Decision)
unfolding gcra_decide
gcra_check l tat now cost = do
  e ← emission l
  t ← tolerance l
  gcra_decide l e t (if ltb_ℤ tat now then now else tat) now cost

-- `gcraExpiry`.
abbrev pub gcra_expiry : ℤ → ℤ
gcra_expiry tat = tat
