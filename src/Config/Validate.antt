-- ===== src/Config/Validate.antt =====
-- internal/config/config.go: `Validate`, which makes the other checks in turn.
use distributed_rate_limiter.Prelude.{
  not, ◌&&◌, ◌||◌, Option, none, some, [], ◌∷◌, Text, bytes, text_eq, contains_byte, if◌then◌else◌,
}
use distributed_rate_limiter.Prelude.Int.{pos, ltb_ℤ}
use distributed_rate_limiter.Policy.{has_prefix}
use distributed_rate_limiter.Config.{Config}
use distributed_rate_limiter.Config.Checks.{
  Url, ConfigError, contains_any, is_negative, no_node_id, bad_node_id, no_http_addr, bad_backend,
  no_redis_addr, negative_sweep, bad_policy_store, no_dsn, negative_cache, stale_too_short,
  secret_in_file,
}
use distributed_rate_limiter.Config.RouteChecks.{validate_routes}
use distributed_rate_limiter.Config.ClusterChecks.{validate_cluster}
use distributed_rate_limiter.Config.PolicyChecks.{validate_named, validate_uses}

-- The checks on the policy store and on the cache.
unfoldable pub validate_store : Config → Option ConfigError
validate_store c =
    if not (text_eq c.policy.store (bytes "static") || text_eq c.policy.store (bytes "postgres"))
    then some bad_policy_store
    else if text_eq c.policy.store (bytes "postgres") && text_eq c.postgres.dsn []
    then some no_dsn
    else if is_negative c.policy.cache_ttl
        || (is_negative c.policy.negative_cache_ttl || is_negative c.policy.stale_for)
    then some negative_cache
    else if ltb_ℤ (pos 0) c.policy.stale_for && ltb_ℤ c.policy.stale_for c.policy.cache_ttl
    then some stale_too_short
    else if contains_byte b' ' c.auth.jwt_secret_env || has_prefix c.auth.jwt_secret_env (bytes "-")
    then some secret_in_file
    else none

-- The checks on the node and on its limiter.
unfoldable pub validate_node : Config → Option ConfigError
unfolding contains_any
validate_node c =
    if text_eq c.node.id []
    then some no_node_id
    else if contains_any c.node.id (b' ' ∷ 9 ∷ bytes ":/")
    then some bad_node_id
    else if text_eq c.node.http_addr []
    then some no_http_addr
    else if not
        (text_eq c.limiter.backend (bytes "memory") || text_eq c.limiter.backend (bytes "redis"))
    then some bad_backend
    else if text_eq c.limiter.backend (bytes "redis") && text_eq c.redis.addr []
    then some no_redis_addr
    else if is_negative c.limiter.sweep_interval
    then some negative_sweep
    else none

-- The first of two errors.
abbrev pub first_of : Option ConfigError → Option ConfigError → Option ConfigError
first_of (some e) o = some e
first_of none o = o

-- `Config.Validate`: `none` is the nil error.
unfoldable pub validate_config : (Text → Option Url) → Config → Option ConfigError
unfolding validate_node validate_store validate_routes validate_cluster validate_named validate_uses
validate_config parse_url c = first_of (validate_node c) (
    first_of (validate_store c) (
      first_of (validate_routes parse_url [] [] c.routes) (
        first_of (validate_cluster c)
          (first_of (validate_named [] c.policies.named) (validate_uses c.policies)))))
