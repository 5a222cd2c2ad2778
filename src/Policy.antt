-- ===== src/Policy.antt =====
-- internal/policy/policy.go: which of a tenant's limits apply to a request, and the source that the
-- configuration file gives. `strings.EqualFold`, which compares by Unicode case folding, is a
-- parameter.
pub mod Selection
pub mod Load
pub mod Cache
pub mod Freshness
pub mod Stamps
mod Tests
use distributed_rate_limiter.Prelude.{
  ℕ, Bool, true, false, not, ◌&&◌, ◌||◌, Option, none, some, List, [], ◌∷◌, ◌==◌, Text, bytes,
  text_eq, if◌then◌else◌,
}
use distributed_rate_limiter.Prelude.Map.{lookup}
use distributed_rate_limiter.Limiter.Limit.{Limit}

pub record Match : Type 0 where
  pub method : Text
  pub path_prefix : Text

pub record Policy : Type 0 where
  pub name : Text
  pub limits : List Limit
  pub matches : List Match
  pub failure_mode : Text
  pub gen : ℕ

-- `strings.HasPrefix(s, prefix)`.
unfoldable pub has_prefix : Text → Text → Bool
has_prefix s [] = true
has_prefix [] (p ∷ prefix) = false
has_prefix (b ∷ s) (p ∷ prefix) = (b == p) && has_prefix s prefix

pub data MatchError : Type 0 where
  bad_method bad_prefix : MatchError

abbrev is_any_method : Text → Bool
is_any_method m = text_eq m [] || text_eq m (bytes "*")

abbrev is_http_method : Text → Bool
is_http_method m =
    text_eq m (bytes "GET")
    || text_eq m (bytes "HEAD")
    || text_eq m (bytes "POST")
    || text_eq m (bytes "PUT")
    || text_eq m (bytes "PATCH")
    || text_eq m (bytes "DELETE")
    || text_eq m (bytes "OPTIONS")

-- `Match.Validate`.
unfoldable pub validate_match : Match → Option MatchError
unfolding has_prefix
validate_match m =
    if not (is_any_method m.method || is_http_method m.method)
    then some bad_method
    else if not (text_eq m.path_prefix []) && not (has_prefix m.path_prefix (bytes "/"))
    then some bad_prefix
    else none

-- `Match.Universal`.
unfoldable pub is_universal : Match → Bool
is_universal m = is_any_method m.method && text_eq m.path_prefix []

-- `Policy.FailsClosed`.
unfoldable pub fails_closed : Policy → Bool
fails_closed p = not (text_eq p.failure_mode (bytes "open"))

module _ (equal_fold : Text → Text → Bool) where
  -- `Match.Applies`.
  unfoldable pub applies : Match → Text → Text → Bool
  unfolding has_prefix
  applies m method path =
      if not (text_eq m.method [])
        && not (text_eq m.method (bytes "*"))
        && not (equal_fold m.method method)
      then false
      else if not (text_eq m.path_prefix []) && not (has_prefix path m.path_prefix)
      then false
      else true

  -- `Policy.matchApplies` for an index within the matches.
  unfoldable pub match_applies : Match → Text → Text → Bool
  unfolding applies is_universal
  match_applies m method path =
      if is_universal m
      then true
      else if text_eq method [] && text_eq path []
      then false
      else applies m method path

  -- The first loop of `Policy.LimitsFor`: no limit is left out.
  unfoldable pub all_apply : List Limit → List Match → Text → Text → Bool
  unfolding match_applies
  all_apply [] ms method path = true
  all_apply (l ∷ ls) [] method path = true
  all_apply (l ∷ ls) (m ∷ ms) method path =
      if match_applies m method path then all_apply ls ms method path else false

  -- Its second loop; an index past the matches always applies.
  unfoldable pub choose : List Limit → List Match → Text → Text → List Limit
  unfolding match_applies
  choose [] ms method path = []
  choose (l ∷ ls) [] method path = l ∷ choose ls [] method path
  choose (l ∷ ls) (m ∷ ms) method path =
      let rest = choose ls ms method path in if match_applies m method path then l ∷ rest else rest

  -- `Policy.LimitsFor`.
  unfoldable pub limits_for : Policy → Text → Text → List Limit
  unfolding all_apply choose
  limits_for p method path = elim p.matches [
    | [] ↦ p.limits
    | m ∷ ms ↦
        if all_apply p.limits (m ∷ ms) method path
        then p.limits
        else choose p.limits (m ∷ ms) method path
  ]

-- What a policy source answers: a policy, the two facts about a tenant, or a failure to find out.
pub data Found : Type 0 where
  found : Policy → Found
  tenant_not_found tenant_disabled source_failed : Found

-- `Static`.
pub record Static : Type 0 where
  pub by_tenant : List (Text × Policy)
  pub fallback : Option Policy

-- `Static.Lookup`.
unfoldable pub lookup_static : Static → Text → Found
lookup_static s tenant = elim (lookup tenant s.by_tenant) [
  | some p ↦ found p
  | none ↦ elim s.fallback [ none ↦ tenant_not_found | some p ↦ found p ]
]
