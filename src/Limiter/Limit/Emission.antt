-- ===== src/Limiter/Limit/Emission.antt =====
-- The emission interval of a limit: what it is, and that it is never faster than the limit says.
use distributed_rate_limiter.Prelude.{
  ℕ, ◌+◌, ◌-◌, ◌*◌, ◌/◌, ◌%◌, ◌≤◌, ◌<◌, ◌≡◌, refl, ◌⊎◌, none, some, arith, if◌then◌else◌, ◌==◌, ltb,
}
use distributed_rate_limiter.Prelude.Int.{
  pos, add64-pos, sub64-pos, mul64-pos, div64-pos, rem64-pos,
}
use native.Mathlib.Nat.{div-le_self, div-add-mod, mod-lt, mul-le-mul_left}
use native.Mathlib.Decide.{dec_lt}
use distributed_rate_limiter.Limiter.Limit.{Limit, emission, tolerance, validate, round_up}
use distributed_rate_limiter.Limiter.Limit.Sizes.{
  HasSizes, period_ns, count_of, capacity_of, validate-HasSizes,
}

-- The period over the count, rounded up.
ceiling : ℕ → ℕ → ℕ
ceiling p n = if p % n == 0 then p / n else p / n + 1

-- The least multiple of a microsecond that is not below `x`, and not 0.
whole_quanta : ℕ → ℕ
whole_quanta x =
    let up = if x % 1000 == 0 then x else x + (1000 - x % 1000) in if ltb up 1000 then 1000 else up

unfoldable pub interval : Limit → ℕ
unfolding ceiling whole_quanta
interval l = whole_quanta (ceiling (period_ns l) (count_of l))

round_up-pos :
    (x : ℕ)
    → x ≤ 86400000000001
    → round_up (pos x) (pos (x % 1000)) ≡ pos (if x % 1000 == 0 then x else x + (1000 - x % 1000))
unfolding round_up
round_up-pos x h = ground (
  arith,
  sub64-pos 1000 (x % 1000) (omega arith) (omega arith),
  add64-pos x (1000 - x % 1000) (omega arith),
)

ceiling-le : (p n : ℕ) → ceiling p n ≤ p + 1
unfolding ceiling
ceiling-le p n = ground (arith, div-le_self p n)

ceiling_lem : (p n : ℕ) → ceiling p n ≡ (if p % n == 0 then p / n else p / n + 1)
unfolding ceiling
ceiling_lem p n = refl

emission_steps :
    (l : Limit) (p n : ℕ)
    → l.period ≡ pos p
    → l.count ≡ pos n
    → 0 < n
    → p ≤ 86400000000000
    → emission l ≡ some (pos (whole_quanta (ceiling p n)))
unfolding emission whole_quanta
emission_steps l p n ep en h k = ground (
  arith,
  div64-pos p n h (omega arith),
  rem64-pos p n h,
  ceiling_lem p n,
  div-le_self p n,
  add64-pos (p / n) 1 (omega (arith, div-le_self p n)),
  rem64-pos (ceiling p n) 1000 (omega arith),
  ceiling-le p n,
  sub64-pos 1000 (ceiling p n % 1000) (omega arith) (omega arith),
  add64-pos (ceiling p n) (1000 - ceiling p n % 1000) (omega (arith, ceiling-le p n)),
)

-- It is what the code computes.
pub emission-interval : (l : Limit) → HasSizes l → emission l ≡ some (pos (interval l))
unfolding interval
emission-interval l s =
    emission_steps l (period_ns l) (count_of l) s.period_pos s.count_pos s.count_lower
      s.period_upper

ceiling-mul : (p n : ℕ) → 0 < n → (p ≤ n * ceiling p n) × (n * ceiling p n < p + n)
unfolding ceiling
ceiling-mul p n h = grind (arith, div-add-mod p n, mod-lt p h)

whole_quanta_bounds :
    (x : ℕ)
    → (x ≤ whole_quanta x)
      × (1000 ≤ whole_quanta x)
      × (whole_quanta x % 1000 ≡ 0)
      × (whole_quanta x < x + 1000 ⊎ whole_quanta x ≡ 1000)
unfolding whole_quanta
whole_quanta_bounds x = ground arith

mul_cancel_lt : (n a b : ℕ) → n * a < n * b + n → a ≤ b
mul_cancel_lt n a b h = elim (dec_lt b a) [
  | yes more ↦ absurd (grind (arith, mul-le-mul_left n more))
  | no le ↦ omega arith
]

interval_least : (x k : ℕ) → k % 1000 ≡ 0 → 0 < k → x ≤ k → whole_quanta x ≤ k
unfolding whole_quanta
interval_least x k h pos_k le = ground arith

-- For a limit that `Validate` accepts, the emission interval is a positive whole number of
-- microseconds, `count` units of it take at least the period, so the rate is never above the
-- configured one, and it is the least such interval.
pub emission_least :
    (l : Limit)
    → validate l ≡ none
    → (e : ℕ) × (emission l ≡ some (pos e))
      × (1000 ≤ e)
      × (e % 1000 ≡ 0)
      × (period_ns l ≤ count_of l * e)
      × ((k : ℕ) → k % 1000 ≡ 0 → 0 < k → period_ns l ≤ count_of l * k → e ≤ k)
unfolding interval
emission_least l v = (
  interval l,
  emission-interval l s,
  (whole_quanta_bounds c).1,
  (whole_quanta_bounds c).2,
  grind (arith, (ceiling-mul p n s.count_lower).0, (whole_quanta_bounds c).0, mul-le-mul_left),
  λ k whole some_k enough.
      interval_least c k whole some_k
        (mul_cancel_lt n c k (omega (arith, ceiling-mul p n s.count_lower))),
)
  where
    s : HasSizes l
    s = validate-HasSizes l v

    p : ℕ
    p = period_ns l

    n : ℕ
    n = count_of l

    c : ℕ
    c = ceiling p n

-- The tolerance is the capacity's worth of intervals, where the product fits an int64.
pub tolerance-interval :
    (l : Limit)
    → HasSizes l
    → interval l * capacity_of l < 9223372036854775808
    → tolerance l ≡ some (pos (interval l * capacity_of l))
unfolding tolerance
tolerance-interval l s h =
    rw (emission-interval l s, s.capacity_pos, mul64-pos (interval l) (capacity_of l) h)

interval_upper :
    (l : Limit) → HasSizes l → count_of l * interval l < period_ns l + 1001 * count_of l
unfolding interval
interval_upper l s =
    let c = ceiling (period_ns l) (count_of l) in
    let le : whole_quanta c ≤ c + 1000 = omega (arith, whole_quanta_bounds c) in
    omega
      (arith, mul-le-mul_left (count_of l) le, ceiling-mul (period_ns l) (count_of l) s.count_lower)

-- With a burst no larger than the count it always fits.
pub tolerance_fits :
    (l : Limit)
    → HasSizes l
    → capacity_of l ≤ count_of l
    → interval l * capacity_of l < 9223372036854775808
tolerance_fits l s h = omega (arith, interval_upper l s, mul-le-mul_left (interval l) h)

pub interval_lower : (l : Limit) → 1000 ≤ interval l
unfolding interval
interval_lower l = (whole_quanta_bounds (ceiling (period_ns l) (count_of l))).1

pub interval_small : (l : Limit) → HasSizes l → interval l ≤ 86400000001001
unfolding interval
interval_small l s = omega (
  arith,
  whole_quanta_bounds (ceiling (period_ns l) (count_of l)),
  ceiling-le (period_ns l) (count_of l),
  s.period_upper,
)

-- It is a whole number of microseconds.
pub interval_quantum : (l : Limit) → interval l ≡ 1000 * (interval l / 1000)
unfolding interval
interval_quantum l = omega (arith, whole_quanta_bounds (ceiling (period_ns l) (count_of l)))
