-- ===== src/Config/RouteChecks.antt =====
-- internal/config/routes.go: `validateRoutes`. `url.Parse` is a parameter.
use distributed_rate_limiter.Prelude.{
  not, ◌&&◌, ◌||◌, Option, none, some, List, [], ◌∷◌, Text, bytes, text_eq, if◌then◌else◌,
}
use distributed_rate_limiter.Policy.{has_prefix}
use distributed_rate_limiter.Config.{Route}
use distributed_rate_limiter.Config.Checks.{
  Url, ConfigError, has_text, unnamed_route, duplicate_route, relative_prefix, duplicate_prefix,
  bad_upstream, bad_scheme, relative_strip, foreign_strip,
}

module _ (parse_url : Text → Option Url) where
  -- The checks on a route's upstream.
  unfoldable pub validate_upstream : Text → Option ConfigError
  validate_upstream upstream = elim (parse_url upstream) [
    | none ↦ some bad_upstream
    | some u ↦
        if text_eq u.scheme [] || text_eq u.host []
        then some bad_upstream
        else if not (text_eq u.scheme (bytes "http")) && not (text_eq u.scheme (bytes "https"))
        then some bad_scheme
        else none
  ]

  -- The checks on a route's strip prefix.
  unfoldable pub validate_strip : Route → Option ConfigError
  unfolding has_prefix
  validate_strip r =
      if text_eq r.strip_prefix []
      then none
      else if not (has_prefix r.strip_prefix (bytes "/"))
      then some relative_strip
      else if not (has_prefix r.path_prefix r.strip_prefix)
      then some foreign_strip
      else none

  -- One round of `validateRoutes`, with the names and the prefixes seen.
  unfoldable pub validate_route : List Text → List Text → Route → Option ConfigError
  unfolding validate_upstream validate_strip has_text
  validate_route names prefixes r =
      if text_eq r.name []
      then some unnamed_route
      else if has_text r.name names
      then some duplicate_route
      else if not (has_prefix r.path_prefix (bytes "/"))
      then some relative_prefix
      else if has_text r.path_prefix prefixes
      then some duplicate_prefix
      else elim (validate_upstream r.upstream) [ some e ↦ some e | none ↦ validate_strip r ]

  -- `validateRoutes`.
  unfoldable pub validate_routes : List Text → List Text → List Route → Option ConfigError
  unfolding validate_route
  validate_routes names prefixes [] = none
  validate_routes names prefixes (r ∷ rs) = elim (validate_route names prefixes r) [
    | some e ↦ some e
    | none ↦ validate_routes (r.name ∷ names) (r.path_prefix ∷ prefixes) rs
  ]
