-- ===== src/Limiter/Limit.antt =====
-- internal/limiter/limit.go: a limit, its validation and the durations derived from it. A
-- `time.Duration` is an int64 of nanoseconds; `none` is a panic of the Go code (a division by 0).
pub mod Sizes
pub mod Key
pub mod Names
pub mod Emission
use distributed_rate_limiter.Prelude.{
  Bool, true, false, ◌&&◌, ◌||◌, not, Option, none, some, [], Text, text_eq, contains_byte,
  if◌then◌else◌, ◌>>=◌,
}
use distributed_rate_limiter.Prelude.Int.{
  ℤ, pos, ltb_ℤ, leb_ℤ, ◌==ℤ◌, add64, sub64, mul64, div64, rem64, quot64,
}

-- `Algorithm` is a string in the source: `other` is any string but the two constants.
pub data Algorithm : Type 0 where
  token_bucket sliding_window : Algorithm
  other : Text → Algorithm

pub record Limit : Type 0 where
  pub name : Text
  pub algorithm : Algorithm
  pub count : ℤ
  pub period : ℤ
  pub burst : ℤ

abbrev pub max_period : ℤ
max_period = pos 86400000000000

abbrev pub max_count : ℤ
max_count = pos 100000000

abbrev pub max_window_count : ℤ
max_window_count = pos 100000

abbrev pub quantum : ℤ
quantum = pos 1000

pub data LimitError : Type 0 where
  empty_name bad_name unknown_algorithm count_not_positive count_too_large : LimitError
  period_not_positive period_too_long burst_negative burst_too_large too_fast : LimitError
  separate_burst window_too_large : LimitError

-- The second `switch` of `Validate`. The division is reached with a positive count only.
unfoldable pub validate_algorithm : Algorithm → Limit → Option LimitError
validate_algorithm token_bucket l =
    if ltb_ℤ (quot64 l.period l.count) (pos 1) then some too_fast else none
validate_algorithm sliding_window l =
    if not (l.burst ==ℤ pos 0) && not (l.burst ==ℤ l.count)
    then some separate_burst
    else if ltb_ℤ max_window_count l.count
    then some window_too_large
    else none
validate_algorithm (other a) l = none

-- The checks between the two: on the sizes.
unfoldable pub validate_sizes : Limit → Option LimitError
unfolding validate_algorithm
validate_sizes l =
    if leb_ℤ l.count (pos 0)
    then some count_not_positive
    else if ltb_ℤ max_count l.count
    then some count_too_large
    else if leb_ℤ l.period (pos 0)
    then some period_not_positive
    else if ltb_ℤ max_period l.period
    then some period_too_long
    else if ltb_ℤ l.burst (pos 0)
    then some burst_negative
    else if ltb_ℤ max_count l.burst
    then some burst_too_large
    else validate_algorithm l.algorithm l

abbrev pub is_known : Algorithm → Bool
is_known (other a) = false
is_known token_bucket = true
is_known sliding_window = true

-- `Validate`: `none` is the nil error.
unfoldable pub validate : Limit → Option LimitError
unfolding validate_sizes
validate l =
    if text_eq l.name []
    then some empty_name
    else if contains_byte b':' l.name || contains_byte b'{' l.name || contains_byte b'}' l.name
    then some bad_name
    else if not (is_known l.algorithm)
    then some unknown_algorithm
    else validate_sizes l

bucket_capacity : Algorithm → Limit → ℤ
bucket_capacity sliding_window l = l.count
bucket_capacity token_bucket l = if ltb_ℤ (pos 0) l.burst then l.burst else l.count
bucket_capacity (other a) l = if ltb_ℤ (pos 0) l.burst then l.burst else l.count

unfoldable pub capacity : Limit → ℤ
unfolding bucket_capacity
capacity l = bucket_capacity l.algorithm l

-- `e += Quantum - r` unless `r` is 0.
unfoldable pub round_up : ℤ → ℤ → ℤ
round_up e r = if r ==ℤ pos 0 then e else add64 e (sub64 quantum r)

unfoldable pub emission : Limit → Option ℤ
unfolding round_up
emission l = do
  e ← div64 l.period l.count
  m ← rem64 l.period l.count
  let up = if m ==ℤ pos 0 then e else add64 e (pos 1)
  r ← rem64 up quantum
  let rounded = round_up up r
  some (if ltb_ℤ rounded quantum then quantum else rounded)

unfoldable pub tolerance : Limit → Option ℤ
tolerance l = do e ← emission l; some (mul64 e (capacity l))
