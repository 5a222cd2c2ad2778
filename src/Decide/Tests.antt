-- ===== src/Decide/Tests.antt =====
-- Concrete questions, and the theorems of `Fences`, `Routing` and `Policy.Selection` at them.
use distributed_rate_limiter.Prelude.{
  ◌≡◌, refl, arith, Bool, true, false, Option, none, some, [], ◌∷◌, Text, bytes, text_eq,
}
use distributed_rate_limiter.Prelude.Int.{pos}
use distributed_rate_limiter.Limiter.Limit.{Limit, token_bucket}
use distributed_rate_limiter.Limiter.Request.{Result}
use distributed_rate_limiter.Cluster.Members.{Node}
use distributed_rate_limiter.Storegen.{Guard, new_guard, cleared}
use distributed_rate_limiter.Policy.{Policy, found}
use distributed_rate_limiter.Decide.{
  Query, Outcome, failed, fenced, decided, store_reset, Parts, Service, PeerReply, peer_unavailable,
  decide, decide_first, look, ask, is_outdated,
}
use distributed_rate_limiter.Decide.Fences

abbrev limit : Limit
limit = record {
  name = bytes "api";
  algorithm = token_bucket;
  count = pos 2;
  period = pos 1000000000;
  burst = pos 3;
}

-- A tenant-wide limit and one for GET requests under /v1.
abbrev plan : Policy
plan = record {
  name = bytes "free";
  limits = limit ∷ limit ∷ [];
  matches =
      record { method = []; path_prefix = [] }
      ∷ record { method = bytes "GET"; path_prefix = bytes "/v1" }
      ∷ [];
  failure_mode = bytes "open";
  gen = 2;
}

abbrev granted : Result
granted = record { allowed = true; decisions = []; limiting = [] }

abbrev owner : Node
owner = record { id = bytes "b"; addr = bytes "b:1" }

abbrev view : Text → Option (Node × Bool)
view tenant = some (owner, false)

abbrev silent : Text → Query → PeerReply
silent addr q = peer_unavailable

-- A source with one policy for all, a checker that always grants, and a ring on which another node
-- owns every tenant and does not answer.
abbrev parts : Parts Unit Unit
parts = record {
  lookup = λ s tenant. (s, found plan);
  invalidate = λ s tenant. s;
  check = λ k request. (k, decided granted);
  owner_of = some view;
  forward = some silent;
  equal_fold = text_eq;
  store_gen = 1;
  newest_policy_gen = 2;
  node = bytes "a";
  has_hub = true;
  at = pos 0;
}

-- The same with a checker that finds another store.
abbrev reset_parts : Parts Unit Unit
reset_parts = record parts { check = λ k request. (k, store_reset) }

abbrev service : Service Unit Unit
service = record {
  policies = tt;
  checker = tt;
  guard = some new_guard;
  hub = [];
  local = pos 0;
  forwarded = pos 0;
  fell_back = pos 0;
  policy_stale = pos 0;
  store_fenced = pos 0;
}

abbrev closed_guard : Guard
closed_guard = record new_guard { blocked = true; reason = cleared }

abbrev query : Query
query = record {
  tenant = bytes "acme";
  method = bytes "GET";
  path = bytes "/v1/x";
  cost = pos 1;
  peek = true;
  forwarded = false;
}

abbrev out : Outcome
out = record {
  result = granted;
  policy = plan;
  degraded = none;
  owner = bytes "b";
  forwarded = false;
}

fresh : is_outdated reset_parts plan ≡ false
unfolding is_outdated
fresh = refl

source_answers : (look reset_parts query service).1 ≡ found plan
unfolding look
source_answers = refl

store_differs : (ask reset_parts query plan (look reset_parts query service).0).1 ≡ store_reset
unfolding ask
store_differs = refl

reset_refuses_all_example :
    ((decide_first reset_parts query service).1 ≡ failed fenced (some plan))
    × ((decide reset_parts query (decide_first reset_parts query service).0).1 ≡ failed fenced none)
reset_refuses_all_example =
    Fences.reset_refuses_all reset_parts query query service new_guard plan refl source_answers
      fresh store_differs (λ e. ground arith)
