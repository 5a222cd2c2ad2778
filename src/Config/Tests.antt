-- ===== src/Config/Tests.antt =====
-- A configuration with a policy, a tenant, and a cluster of two.
use distributed_rate_limiter.Prelude.Map.{lookup}
use distributed_rate_limiter.Prelude.{
  contains_byte, text_eq, ◌≡◌, ◌≢◌, refl, ℕ, ◌+◌, ◌*◌, Option, none, some, [], ◌∷◌, Text, bytes,
}
use distributed_rate_limiter.Prelude.Int.{quot64, pos}
use distributed_rate_limiter.Limiter.Limit.{validate, Limit, token_bucket}
use distributed_rate_limiter.Policy.{Policy, Static, found, lookup_static}
use distributed_rate_limiter.Policy.Load.{new_static}
use mathlib.Core.List.{Perm}
use distributed_rate_limiter.Config.{Config, defaults, Route, Member}
use distributed_rate_limiter.Config.Checks.{Url}
use distributed_rate_limiter.Config.Validate.{validate_config}
use distributed_rate_limiter.Config.Limits.{IsSound}
use distributed_rate_limiter.Config.Accepted.{assigned, accepted_policies}
use distributed_rate_limiter.Cluster.State.{State}
use distributed_rate_limiter.Cluster.Members.{has_id}
use distributed_rate_limiter.Cluster.View.{new_view}
use distributed_rate_limiter.Config.ClusterChecks.{lists_self}
use distributed_rate_limiter.Config.Adding.{members_of}
use distributed_rate_limiter.Config.Joining.{expected, accepted_view}

abbrev per_second : Limit
per_second = record {
  name = bytes "second";
  algorithm = token_bucket;
  count = pos 10;
  period = pos 1000000000;
  burst = pos 0;
}

abbrev echo : Route
echo = record {
  name = bytes "echo";
  path_prefix = bytes "/api";
  upstream = bytes "http://a";
  strip_prefix = [];
}

abbrev member_a : Member
member_a = record { id = bytes "gateway-1"; addr = bytes "a:1"; raft_addr = [] }

abbrev member_b : Member
member_b = record { id = bytes "gateway-2"; addr = bytes "b:1"; raft_addr = [] }

abbrev example : Config
example = record defaults {
  policies = record {
    default_ = bytes "free";
    named = (bytes "free", record { limits = per_second ∷ []; failure_mode = [] }) ∷ [];
    tenants = (bytes "acme", bytes "free") ∷ [];
  };
  routes = echo ∷ [];
  cluster = record defaults.cluster { members = member_b ∷ member_a ∷ []; vnodes = pos 2 };
}

-- A parser that takes every upstream for one address.
abbrev one_url : Text → Option Url
one_url t = some (record { scheme = bytes "http"; host = bytes "a" })

example_accepted : validate_config one_url example ≡ none
unfolding validate_config text_eq contains_byte validate quot64 lookup
example_accepted = refl

accepted_policies_example :
    (s : Static) × (new_static example.policies ≡ some s)
    × ((t : Text) → lookup_static s t ≡ assigned example.policies t)
    × ((t : Text) (q : Policy) → lookup_static s t ≡ found q → IsSound q.limits)
accepted_policies_example = accepted_policies one_url example example_accepted

-- A hash to try the ring with.
abbrev add_up : Text → ℕ
add_up [] = 7
add_up (b ∷ bs) = b + 3 * add_up bs

has_members : example.cluster.members ≢ []
has_members e = cc

accepted_view_example :
    (s : State) × (new_view add_up
        (bytes "gateway-1")
        (members_of (member_b ∷ member_a ∷ []))
        (pos 2)
      ≡ expected add_up example s)
    × (s.vnodes ≡ pos 2)
    × ((k : Text) → has_id k s.members ≡ lists_self k (member_b ∷ member_a ∷ []))
    × Perm s.members (members_of (member_b ∷ member_a ∷ []))
accepted_view_example = accepted_view one_url add_up example example_accepted has_members
