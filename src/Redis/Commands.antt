-- ===== src/Redis/Commands.antt =====
-- The Redis commands that internal/limiter/redis/check.lua calls, over a server that is not part
-- of the repository: a server's state with the answer or the effect of each command. Numbers are
-- kept as decimal strings, which the script writes and reads exactly below 2 ^ 53. A server here
-- answers each command: an error that a command raises, for a key of another type, a value that is
-- no number, or a full memory, is not modelled.
use distributed_rate_limiter.Prelude.{
  ℕ, ◌<◌, ◌/◌, ◌≡◌, Bool, ◌&&◌, Option, some, Text, text_eq, if◌then◌else◌,
}
use distributed_rate_limiter.Prelude.Int.{ℤ, pos, negsuc, ◌≤ℤ◌}

-- Lua's numbers are doubles: `round` is the double nearest to a whole number, and `floor_div` is
-- `math.floor` of a quotient as doubles divide.
pub record Doubles : Type 0 where
  pub round : ℤ → ℤ
  pub floor_div : ℤ → ℤ → ℤ

-- What IEEE 754 says of doubles: whole numbers up to 2 ^ 53 are doubles, and below it a quotient is
-- never rounded up to the next whole number.
pub record IsDouble (num : Doubles) : Type 0 where
  pub exact : (z : ℤ) → negsuc 9007199254740991 ≤ℤ z → z ≤ℤ pos 9007199254740992 → num.round z ≡ z
  pub divides :
      (a e : ℕ) → 0 < e → a < 9007199254740992 → num.floor_div (pos a) (pos e) ≡ pos (a / e)

pub record Server : Type 1 where
  pub State : Type 0
  pub doubles : Doubles
  -- A field of `HMGET key ...`, and `HSET key field value`.
  pub hget : State → Text → Text → Option ℤ
  pub hset : State → Text → Text → ℤ → State
  -- `GET key`, and `SET key value PX ttl`.
  pub get : State → Text → Option ℤ
  pub set_px : State → Text → ℤ → ℤ → State
  -- `ZCOUNT key (low +inf` and `ZCOUNT key score score`.
  pub zcount_above : State → Text → ℤ → ℕ
  pub zcount_at : State → Text → ℤ → ℕ
  -- The score that `ZRANGEBYSCORE key (low +inf WITHSCORES LIMIT index 1` returns.
  pub zscore_above : State → Text → ℤ → ℤ → Option ℤ
  -- `ZREMRANGEBYSCORE key -inf high`, `ZADD key score member` and `PEXPIRE key ttl`.
  pub zremrange_upto : State → Text → ℤ → State
  pub zadd : State → Text → ℤ → Text → State
  pub pexpire : State → Text → ℤ → State
  -- `TIME`: seconds and microseconds.
  pub time : State → ℤ × ℤ

-- What a hash answers after each command: a field reads as it was last written, and a command on
-- another key leaves it.
pub record HasHashes (R : Server) : Type 0 where
  pub hget-hset :
      (s : R.State) (k f : Text) (v : ℤ) (j g : Text)
      → R.hget (R.hset s k f v) j g ≡ (if text_eq k j && text_eq f g then some v else R.hget s j g)
  pub hget-set_px :
      (s : R.State) (k : Text) (v t : ℤ) (j g : Text)
      → text_eq k j ≡ Bool.false
      → R.hget (R.set_px s k v t) j g ≡ R.hget s j g
  pub hget-zremrange_upto :
      (s : R.State) (k : Text) (v : ℤ) (j g : Text)
      → text_eq k j ≡ Bool.false
      → R.hget (R.zremrange_upto s k v) j g ≡ R.hget s j g
  pub hget-zadd :
      (s : R.State) (k : Text) (v : ℤ) (m : Text) (j g : Text)
      → text_eq k j ≡ Bool.false
      → R.hget (R.zadd s k v m) j g ≡ R.hget s j g
  pub hget-pexpire :
      (s : R.State) (k : Text) (t : ℤ) (j g : Text)
      → text_eq k j ≡ Bool.false
      → R.hget (R.pexpire s k t) j g ≡ R.hget s j g
