-- ===== src/Limiter/Gcra/Overflow.antt =====
-- What happens to a limit that `Validate` accepts although its tolerance is no int64.
use distributed_rate_limiter.Prelude.{
  ℕ, zero, suc, ◌-◌, Bool-cases, inl, inr, ◌*◌, ◌≤◌, ◌<◌, ◌≡◌, refl, some, none, arith, false,
  if◌then◌else◌,
}
use distributed_rate_limiter.Prelude.Int.{
  ℤ, pos, negsuc, ◌+ℤ◌, ◌≤ℤ◌, ltb_ℤ, mul64_high, sub_time, sub64, div64, quot64, neg64-negsuc,
  mul64-pos, +ℤ_parts,
}
use distributed_rate_limiter.Limiter.Limit.{Limit, capacity, validate, tolerance}
use distributed_rate_limiter.Limiter.Limit.Sizes.{HasSizes, capacity_of, validate-HasSizes}
use distributed_rate_limiter.Limiter.Limit.Emission.{interval, emission-interval, interval_small}
use distributed_rate_limiter.Limiter.Request.{Decision}
use distributed_rate_limiter.Limiter.Gcra.{gcra_check, gcra_decide, headroom}
use distributed_rate_limiter.Limiter.Gcra.Bucket.{full, full_lem}

-- The tolerance wraps around to a negative duration.
tolerance_wraps :
    (l : Limit)
    → HasSizes l
    → 9223372036854775808 ≤ full l
    → full l < 18446744073709551616
    → tolerance l ≡ some (negsuc (18446744073709551615 - full l))
unfolding tolerance
tolerance_wraps l s h k = rw (
  full_lem l,
  emission-interval l s,
  s.capacity_pos,
  mul64_high (interval l) (capacity_of l) (rw (← full_lem l) h) (rw (← full_lem l) k),
)

div64-some : (a : ℤ) (e : ℕ) → div64 a (pos (suc e)) ≡ some (quot64 a (pos (suc e)))
unfolding div64 quot64
div64-some a e = ground arith

-- The remaining units are computed without a panic.
headroom-some : (e : ℕ) (t now tat : ℤ) → (r : ℤ) × (headroom (pos (suc e)) t now tat ≡ some r)
unfolding headroom
headroom-some e t now tat =
    let free = sub64 t (sub_time tat now) in
    elim (Bool-cases (ltb_ℤ free (pos 0))) [
      | inl less ↦ (pos 0, rw (headroom, less) refl)
      | inr more ↦ (quot64 free (pos (suc e)), rw (headroom, more, div64-some free e) refl)
    ]

refuses :
    (l : Limit) (e a : ℕ) (tat now : ℤ) (c : ℕ)
    → now ≤ℤ tat
    → 0 < c
    → suc e * c < 9223372036854775808
    → a < 9223372036854775807
    → (d : Decision) × (gcra_decide l (pos (suc e)) (negsuc a) tat now (pos c) ≡ some (tat, d))
      × (d.allowed ≡ false)
unfolding gcra_decide
refuses l e a tat now c late h k small =
    let (r, left) = headroom-some e (negsuc a) now tat in
    (
      record {
        name = l.name;
        allowed = false;
        limit = capacity l;
        remaining = r;
        retry_after = sub_time (tat +ℤ pos (suc e * c) +ℤ pos (suc a)) now;
        reset_after = sub_time tat now;
      },
      ground (
        arith,
        mul64-pos (suc e) c k,
        neg64-negsuc a small,
        left,
        +ℤ_parts tat (pos (suc e * c)),
        +ℤ_parts (tat +ℤ pos (suc e * c)) (pos (suc a)),
      ),
      refl,
    )

refuses_now :
    (l : Limit) (e a : ℕ) (tat now : ℤ)
    → 0 < e
    → e < 9223372036854775808
    → a < 9223372036854775807
    → now ≤ℤ tat
    → (d : Decision) × (gcra_decide l (pos e) (negsuc a) tat now (pos 1) ≡ some (tat, d))
      × (d.allowed ≡ false)
refuses_now l zero a tat now h k small late = absurd (omega arith)
refuses_now l (suc e) a tat now h k small late =
    refuses l e a tat now 1 late (omega arith) (omega arith) small

-- Each limit that `Validate` accepts and whose tolerance lies between 2^63 and 2^64 nanoseconds
-- (such as 1 per day with a burst of 200,000) refuses every request of one unit, whatever arrival
-- time its bucket holds, and so also when the bucket is full. The check does not panic and takes
-- nothing.
pub overflow_lockout :
    (l : Limit) (tat now : ℤ)
    → validate l ≡ none
    → 9223372036854775808 < full l
    → full l < 18446744073709551616
    → (d : Decision) × (gcra_check l tat now (pos 1) ≡ some (if ltb_ℤ tat now then now else tat, d))
      × (d.allowed ≡ false)
unfolding gcra_check
overflow_lockout l tat now v h k =
    let s = validate-HasSizes l v in
    let some_interval : 0 < interval l = positive (interval l) (rw (full_lem l) at h) in
    rw (emission-interval l s, tolerance_wraps l s (omega arith) k)
      (refuses_now l (interval l) (18446744073709551615 - full l)
        (if ltb_ℤ tat now then now else tat) now some_interval (omega (arith, interval_small l s))
        (omega arith) (ground arith))
  where
    positive : (i : ℕ) → 9223372036854775808 < i * capacity_of l → 0 < i
    positive zero x = absurd (omega arith)
    positive (suc i) x = omega arith
