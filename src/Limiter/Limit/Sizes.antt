-- ===== src/Limiter/Limit/Sizes.antt =====
-- What a limit that `Validate` accepts looks like.
use distributed_rate_limiter.Prelude.{ℕ, ◌≤◌, ◌<◌, ◌≡◌, refl, none, arith}
use distributed_rate_limiter.Prelude.Int.{pos, pos_part}
use distributed_rate_limiter.Limiter.Limit.{
  Limit, Algorithm, token_bucket, sliding_window, other, validate, capacity, bucket_capacity,
}

abbrev pub period_ns : Limit → ℕ
period_ns l = pos_part l.period

abbrev pub count_of : Limit → ℕ
count_of l = pos_part l.count

abbrev pub capacity_of : Limit → ℕ
capacity_of l = pos_part (capacity l)

-- The bounds that an accepted limit has, each number a natural one.
pub record HasSizes (l : Limit) : Type 0 where
  pub count_pos : l.count ≡ pos (count_of l)
  pub count_lower : 0 < count_of l
  pub count_upper : count_of l ≤ 100000000
  pub period_pos : l.period ≡ pos (period_ns l)
  pub period_lower : 0 < period_ns l
  pub period_upper : period_ns l ≤ 86400000000000
  pub capacity_pos : capacity l ≡ pos (capacity_of l)
  pub capacity_lower : 0 < capacity_of l
  pub capacity_upper : capacity_of l ≤ 100000000

-- Every limit that `Validate` accepts has these bounds.
pub validate-HasSizes : (l : Limit) → validate l ≡ none → HasSizes l
unfolding validate capacity
validate-HasSizes l h = ground arith

-- A sliding window holds its count.
capacity_as : (a : Algorithm) (l : Limit) → a ≡ sliding_window → bucket_capacity a l ≡ l.count
unfolding bucket_capacity
capacity_as token_bucket l h = cc
capacity_as sliding_window l h = refl
capacity_as (other a) l h = cc

pub capacity-count : (l : Limit) → l.algorithm ≡ sliding_window → capacity l ≡ l.count
unfolding capacity
capacity-count l h = capacity_as l.algorithm l h
