-- ===== src/Config/Accepted.antt =====
-- What an accepted configuration guarantees to the policy source that is built from it.
use distributed_rate_limiter.Prelude.{
  ◌≡◌, inl, inr, refl, sym, ◌∙◌, arith, Option, none, some, List, [], ◌∷◌, Text, text_eq,
  if◌then◌else◌, Bool-cases, Option-cases,
}
use distributed_rate_limiter.Prelude.Map.{lookup, insert, lookup-insert}
use distributed_rate_limiter.Policy.{Policy, Static, Found, found, tenant_not_found, lookup_static}
use distributed_rate_limiter.Policy.Load.{policy_of, load_tenants, load_default, new_static}
use distributed_rate_limiter.Config.{Config, Policies, PolicyConfig}
use distributed_rate_limiter.Config.Checks.{ConfigError, Url}
use distributed_rate_limiter.Config.PolicyChecks.{validate_named, validate_tenants, validate_uses}
use distributed_rate_limiter.Config.Validate.{
  validate_config, validate_node, validate_store, first_of,
}
use distributed_rate_limiter.Config.RouteChecks.{validate_routes}
use distributed_rate_limiter.Config.ClusterChecks.{validate_cluster}
use distributed_rate_limiter.Config.Limits.{IsSound, named-IsSound}

abbrev pub named_policy : Policies → Text → Option Policy
named_policy p name = elim (lookup name p.named) [ none ↦ none | some q ↦ some (policy_of name q) ]

abbrev pub default_policy : Policies → Option Policy
default_policy p = if text_eq p.default_ [] then none else named_policy p p.default_

abbrev pub assigned_by : Policies → Option Text → Option Policy
assigned_by p none = default_policy p
assigned_by p (some name) = named_policy p name

abbrev pub found_or_not : Option Policy → Found
found_or_not none = tenant_not_found
found_or_not (some q) = found q

-- What a configuration says of a tenant: the policy that it names for it, or else the default.
unfoldable pub assigned : Policies → Text → Found
assigned p tenant = found_or_not (assigned_by p (lookup tenant p.tenants))

-- What the loaded policies hold for a tenant, given what the configuration names for it.
abbrev IsLoaded : List (Text × PolicyConfig) → Option Text → Option Policy → Type 0
IsLoaded named none o = o ≡ none
IsLoaded named (some name) o =
    (q : PolicyConfig) × (lookup name named ≡ some q) × (o ≡ some (policy_of name q))

insert-IsLoaded :
    (named : List (Text × PolicyConfig)) (tenant name t : Text) (q : PolicyConfig) (o : Option Text)
    (done : List (Text × Policy))
    → lookup name named ≡ some q
    → IsLoaded named o (lookup t done)
    → IsLoaded named
        (if text_eq tenant t then some name else o)
        (lookup t (insert tenant (policy_of name q) done))
insert-IsLoaded named tenant name t q o done e h = elim (Bool-cases (text_eq tenant t)) [
  | inl y ↦ rw (lookup-insert tenant t (policy_of name q) done, y) (q, e, refl)
  | inr y ↦ rw (lookup-insert tenant t (policy_of name q) done, y) h
]

-- Accepted tenants are loaded, each with the policy that it names.
tenants_load :
    (named : List (Text × PolicyConfig)) (ts : List (Text × Text))
    → validate_tenants named ts ≡ none
    → (done : List (Text × Policy)) × (load_tenants named ts ≡ some done)
      × ((t : Text) → IsLoaded named (lookup t ts) (lookup t done))
unfolding validate_tenants load_tenants lookup
tenants_load named [] h = ([], refl, λ t. refl)
tenants_load named ((tenant, name) ∷ ts) h = elim (Option-cases (lookup name named)) [
  | inl e ↦ ground (arith, e)
  | inr (q, e) ↦
      let (done, loads, holds) = tenants_load named ts (ground (arith, e)) in
      (
        insert tenant (policy_of name q) done,
        rw (loads, e) refl,
        λ t. insert-IsLoaded named tenant name t q (lookup t ts) done e (holds t),
      )
]

lookup_loaded :
    (p : Policies) (done : List (Text × Policy)) (t : Text) (o : Option Text) (d : Option Policy)
    → lookup t done ≡ d
    → IsLoaded p.named o d
    → lookup_static (record { by_tenant = done; fallback = default_policy p }) t
      ≡ found_or_not (assigned_by p o)
unfolding lookup_static
lookup_loaded p done t none d e h =
    let gone : lookup t done ≡ none = cc in rw (lookup_static, gone) (go (default_policy p))
  where
    go :
        (o : Option Policy)
        → (elim o [ none ↦ tenant_not_found | some q ↦ found q ]) ≡ found_or_not o
    go none = refl
    go (some q) = refl
lookup_loaded p done t (some name) d e (q, at, h) =
    let here : lookup t done ≡ some (policy_of name q) = cc in
    rw (lookup_static, here, named_policy, at) refl

default_loads :
    (p : Policies) (done : List (Text × Policy))
    → validate_uses p ≡ none
    → load_default p done ≡ some (record { by_tenant = done; fallback = default_policy p })
unfolding load_default validate_uses
default_loads p done h = elim (Bool-cases (text_eq p.default_ [])) [
  | inl e ↦ rw e refl
  | inr e ↦ elim (Option-cases (lookup p.default_ p.named)) [
    | inl x ↦ cc
    | inr (d, x) ↦ rw (e, default_policy, named_policy, x) refl
  ]
]

uses_tenants : (p : Policies) → validate_uses p ≡ none → validate_tenants p.named p.tenants ≡ none
unfolding validate_uses
uses_tenants p h = elim (Bool-cases (text_eq p.default_ [])) [
  | inl e ↦ cc
  | inr e ↦ elim (Option-cases (lookup p.default_ p.named)) [ inl x ↦ cc | inr (d, x) ↦ cc ]
]

named_policy-IsSound :
    (p : Policies) (name : Text) (q : Policy)
    → validate_named [] p.named ≡ none
    → found_or_not (named_policy p name) ≡ found q
    → IsSound q.limits
named_policy-IsSound p name q h e = elim (Option-cases (lookup name p.named)) [
  | inl x ↦ cc
  | inr (r, x) ↦
      let same : policy_of name r ≡ q = cc in rw (← same) (named-IsSound [] p.named name r h x)
]

assigned-IsSound :
    (p : Policies) (o : Option Text) (q : Policy)
    → validate_named [] p.named ≡ none
    → found_or_not (assigned_by p o) ≡ found q
    → IsSound q.limits
assigned-IsSound p (some name) q h e = named_policy-IsSound p name q h e
assigned-IsSound p none q h e = elim (Bool-cases (text_eq p.default_ [])) [
  | inl x ↦ cc
  | inr x ↦ named_policy-IsSound p p.default_ q h (cc)
]

pub first_of-none : (a b : Option ConfigError) → first_of a b ≡ none → (a ≡ none) × (b ≡ none)
first_of-none none b h = (refl, h)
first_of-none (some e) b h = cc

-- The checks on the policies, passed.
policies_pass :
    (parse_url : Text → Option Url) (c : Config)
    → validate_config parse_url c ≡ none
    → (validate_named [] c.policies.named ≡ none) × (validate_uses c.policies ≡ none)
unfolding validate_config
policies_pass parse_url c h =
    let after_node = first_of-none (validate_node c) _ h in
    let after_store = first_of-none (validate_store c) _ after_node.1 in
    let after_routes = first_of-none (validate_routes parse_url [] [] c.routes) _ after_store.1 in
    let after_cluster = first_of-none (validate_cluster c) _ after_routes.1 in
    first_of-none (validate_named [] c.policies.named) (validate_uses c.policies) after_cluster.1

-- A configuration that is accepted makes a policy source. It answers every tenant with the policy
-- that the configuration assigns to it, or with no such tenant; and the limits that it answers are
-- one at least, all valid, and named apart, so that no two of them share a counter.
pub accepted_policies :
    (parse_url : Text → Option Url) (c : Config)
    → validate_config parse_url c ≡ none
    → (s : Static) × (new_static c.policies ≡ some s)
      × ((t : Text) → lookup_static s t ≡ assigned c.policies t)
      × ((t : Text) (q : Policy) → lookup_static s t ≡ found q → IsSound q.limits)
unfolding new_static assigned
accepted_policies parse_url c h =
    let (named, uses) = policies_pass parse_url c h in
    let p = c.policies in
    let (done, loads, holds) = tenants_load p.named p.tenants (uses_tenants p uses) in
    let answers =
      λ (t : Text). lookup_loaded p done t (lookup t p.tenants) (lookup t done) refl (holds t) in
    (
      record { by_tenant = done; fallback = default_policy p },
      rw (new_static, loads) (default_loads p done uses),
      answers,
      λ t q e. assigned-IsSound p (lookup t p.tenants) q named (sym (answers t) ∙ e),
    )
