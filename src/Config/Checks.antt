-- ===== src/Config/Checks.antt =====
-- internal/config: what the checks of a configuration share.
use distributed_rate_limiter.Prelude.{
  Bool, false, ◌||◌, List, [], ◌∷◌, Text, text_eq, contains_byte,
}
use distributed_rate_limiter.Prelude.Int.{ℤ, pos, ltb_ℤ}
use distributed_rate_limiter.Limiter.Limit.{LimitError}

-- The parts of an upstream's URL that are read.
pub record Url : Type 0 where
  pub scheme : Text
  pub host : Text

pub data ConfigError : Type 0 where
  no_node_id bad_node_id no_http_addr bad_backend no_redis_addr negative_sweep : ConfigError
  bad_policy_store no_dsn negative_cache stale_too_short secret_in_file : ConfigError
  unnamed_route duplicate_route relative_prefix duplicate_prefix bad_upstream bad_scheme :
      ConfigError
  relative_strip foreign_strip : ConfigError
  no_member_id no_member_addr duplicate_id duplicate_addr self_missing negative_vnodes : ConfigError
  negative_forward_timeout raft_alone negative_raft_timeout no_raft_addr raft_addr_taken :
      ConfigError
  unnamed_policy empty_policy bad_failure_mode duplicate_limit : ConfigError
  bad_limit : LimitError → ConfigError
  unknown_default unnamed_tenant bad_tenant unknown_policy : ConfigError

-- A key of a Go map that is used as a set.
unfoldable pub has_text : Text → List Text → Bool
has_text k [] = false
has_text k (t ∷ ts) = text_eq t k || has_text k ts

-- `strings.ContainsAny`, for ASCII characters.
unfoldable pub contains_any : Text → Text → Bool
contains_any s [] = false
contains_any s (c ∷ cs) = contains_byte c s || contains_any s cs

abbrev pub is_negative : ℤ → Bool
is_negative d = ltb_ℤ d (pos 0)
