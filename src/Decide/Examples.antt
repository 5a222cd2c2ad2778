-- ===== src/Decide/Examples.antt =====
-- A service with one plan for all tenants that always grants, for the tests of its surfaces.
use distributed_rate_limiter.Prelude.{true, false, none, [], ◌∷◌, bytes, text_eq}
use distributed_rate_limiter.Prelude.Int.{pos}
use distributed_rate_limiter.Limiter.Limit.{Limit, token_bucket}
use distributed_rate_limiter.Limiter.Request.{Result}
use distributed_rate_limiter.Policy.{Policy, found}
use distributed_rate_limiter.Decide.{Query, decided, Parts, Service}

abbrev plan_limit : Limit
plan_limit = record {
  name = bytes "api";
  algorithm = token_bucket;
  count = pos 2;
  period = pos 1000000000;
  burst = pos 3;
}

abbrev one_plan : Policy
one_plan = record {
  name = bytes "free";
  limits = plan_limit ∷ [];
  matches = [];
  failure_mode = bytes "open";
  gen = 2;
}

abbrev all_granted : Result
all_granted = record { allowed = true; decisions = []; limiting = [] }

abbrev pub example_parts : Parts Unit Unit
example_parts = record {
  lookup = λ s tenant. (s, found one_plan);
  invalidate = λ s tenant. s;
  check = λ k request. (k, decided all_granted);
  owner_of = none;
  forward = none;
  equal_fold = text_eq;
  store_gen = 1;
  newest_policy_gen = 2;
  node = bytes "a";
  has_hub = false;
  at = pos 0;
}

abbrev pub example_service : Service Unit Unit
example_service = record {
  policies = tt;
  checker = tt;
  guard = none;
  hub = [];
  local = pos 0;
  forwarded = pos 0;
  fell_back = pos 0;
  policy_stale = pos 0;
  store_fenced = pos 0;
}

abbrev pub example_query : Query
example_query = record {
  tenant = bytes "acme";
  method = bytes "GET";
  path = bytes "/v1/x";
  cost = pos 1;
  peek = false;
  forwarded = false;
}
