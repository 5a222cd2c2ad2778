-- ===== src/Limiter/Gcra/Bucket.antt =====
-- The bucket behind the arrival time: what `gcraCheck` computes, in natural numbers.
use distributed_rate_limiter.Prelude.{
  ℕ, ◌+◌, ◌-◌, ◌*◌, ◌/◌, ◌≤◌, ◌<◌, ◌≡◌, refl, some, arith, if◌then◌else◌, ◌==◌, ltb, true, false,
  Bool,
}
use distributed_rate_limiter.Prelude.Int.{
  ℤ, pos, neg, ◌+ℤ◌, ◌≤ℤ◌, pos_part, ltb_ℤ, sub64-pos, mul64-pos, div64-pos, neg64-pos,
  sub_time-add, neg_parts, int_laws, +ℤ_parts, -ℤ_parts, ◌-ℤ◌, one_part, eq_of_parts,
  add-sub-cancel,
}
use native.Mathlib.Nat.{mul-le-mul_left}
use distributed_rate_limiter.Limiter.Limit.{Limit, capacity}
use distributed_rate_limiter.Limiter.Limit.Sizes.{HasSizes, capacity_of}
use distributed_rate_limiter.Limiter.Limit.Emission.{
  interval, emission-interval, tolerance-interval, interval_lower,
}
use distributed_rate_limiter.Limiter.Request.{Decision}
use distributed_rate_limiter.Limiter.Gcra.{gcra_check, gcra_decide, headroom}

headroom-pos :
    (e t d : ℕ) (now : ℤ)
    → 0 < e
    → t < 9223372036854775808
    → d ≤ t
    → headroom (pos e) (pos t) now (now +ℤ pos d) ≡ some (pos ((t - d) / e))
unfolding headroom
headroom-pos e t d now he ht hd =
    rw (sub_time-add now d (omega arith), sub64-pos t d hd ht)
      (ground (arith, div64-pos (t - d) e he (omega arith)))

told : Limit → Bool → ℕ → ℕ → ℕ → Decision
told l allowed remaining retry reset = record {
  name = l.name;
  allowed = allowed;
  limit = capacity l;
  remaining = pos remaining;
  retry_after = pos retry;
  reset_after = pos reset;
}

-- The rule in natural numbers, for a bucket with debt `d` of the tolerance `t`: `c` units cost
-- `e * c` of it.
unfoldable pub verdict : Limit → ℕ → ℕ → ℤ → ℕ → ℕ → ℤ × Decision
unfolding told
verdict l e t now d c =
    if c == 0
    then (now +ℤ pos d, told l true ((t - d) / e) 0 d)
    else if ltb t (d + e * c)
    then (now +ℤ pos d, told l false ((t - d) / e) (d + e * c - t) d)
    else (now +ℤ pos (d + e * c), told l true ((t - (d + e * c)) / e) 0 (d + e * c))

add_time_twice : (u : ℤ) (a b : ℕ) → u +ℤ pos a +ℤ pos b ≡ u +ℤ pos (a + b)
add_time_twice u a b = omega int_laws

back : (u : ℤ) (a b : ℕ) → b < a → u +ℤ pos a +ℤ neg b ≡ u +ℤ pos (a - b)
back u a b h = omega (int_laws, neg_parts b)

is_after : (u : ℤ) (a b : ℕ) → ltb_ℤ u (u +ℤ pos a +ℤ neg b) ≡ ltb b a
is_after u a b = ground (arith, +ℤ_parts u (pos a), +ℤ_parts (u +ℤ pos a) (neg b), neg_parts b)

module _ (l : Limit) (e t : ℕ) (now : ℤ) (d c : ℕ) where
  decide-verdict :
      0 < e
      → t < 9223372036854775808
      → d ≤ t
      → e * c ≤ t
      → gcra_decide l (pos e) (pos t) (now +ℤ pos d) now (pos c) ≡ some (verdict l e t now d c)
  unfolding gcra_decide verdict
  decide-verdict he ht hd hc = ground (
    arith,
    mul64-pos e c (omega arith),
    neg64-pos t ht,
    add_time_twice now d (e * c),
    is_after now (d + e * c) t,
    back now (d + e * c) t,
    sub_time-add now d (omega arith),
    sub_time-add now (d + e * c),
    sub_time-add now (d + e * c - t),
    headroom-pos e t d now he ht hd,
    headroom-pos e t (d + e * c) now he ht,
  )

-- How far the arrival time lies ahead of now: 0 for a full bucket.
abbrev pub debt : ℤ → ℤ → ℕ
debt tat now = pos_part (tat -ℤ now)

pub catch_up : (tat now : ℤ) → (if ltb_ℤ tat now then now else tat) ≡ now +ℤ pos (debt tat now)
catch_up tat now = ground (
  arith,
  -ℤ_parts tat now,
  one_part (tat -ℤ now),
  +ℤ_parts now (pos (debt tat now)),
  eq_of_parts now (now +ℤ pos (debt tat now)),
  eq_of_parts tat (now +ℤ pos (debt tat now)),
)

pub debt-add : (now : ℤ) (d : ℕ) → debt (now +ℤ pos d) now ≡ d
debt-add now d = rw (add-sub-cancel now (pos d))

-- The nanoseconds that a full bucket's worth of units takes to accrue.
unfoldable pub full : Limit → ℕ
full l = interval l * capacity_of l

pub full_lem : (l : Limit) → full l ≡ interval l * capacity_of l
unfolding full
full_lem l = refl

-- A limit that `Validate` accepts, with a tolerance that an int64 can hold.
pub record IsSound (l : Limit) : Type 0 where
  pub sizes : HasSizes l
  pub fits : full l < 9223372036854775808

pub cost-le-full : (l : Limit) (c : ℕ) → c ≤ capacity_of l → interval l * c ≤ full l
unfolding full
cost-le-full l c k = mul-le-mul_left (interval l) k

-- A debt shrinks with the time that passes, down to nothing.
pub debt_later :
    (tat now later : ℤ) (x : ℕ) → later ≡ now +ℤ pos x → debt tat later ≡ debt tat now - x
debt_later tat now later x e = ground (
  arith,
  -ℤ_parts tat now,
  -ℤ_parts tat later,
  one_part (tat -ℤ now),
  one_part (tat -ℤ later),
  +ℤ_parts now (pos x),
)

pub elapsed : (now later : ℤ) → now ≤ℤ later → (x : ℕ) × (later ≡ now +ℤ pos x)
elapsed now later h = (
  pos_part (later -ℤ now),
  omega (
    arith,
    -ℤ_parts later now,
    one_part (later -ℤ now),
    +ℤ_parts now (pos (pos_part (later -ℤ now))),
    eq_of_parts,
  ),
)

pub check-verdict :
    (l : Limit) (tat now : ℤ) (c : ℕ)
    → IsSound l
    → debt tat now ≤ full l
    → c ≤ capacity_of l
    → gcra_check l tat now (pos c) ≡ some (verdict l (interval l) (full l) now (debt tat now) c)
unfolding gcra_check full
check-verdict l tat now c s h k =
    rw (emission-interval l s.sizes, tolerance-interval l s.sizes s.fits, catch_up tat now)
      (decide-verdict l (interval l) (full l) now (debt tat now) c (omega (arith, interval_lower l))
        s.fits h (mul-le-mul_left (interval l) k))
