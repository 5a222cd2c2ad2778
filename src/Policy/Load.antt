-- ===== src/Policy/Load.antt =====
-- internal/policy/policy.go: the source that the policies of a configuration file make.
use distributed_rate_limiter.Prelude.{
  Option, none, some, List, [], ◌∷◌, Text, text_eq, if◌then◌else◌,
}
use distributed_rate_limiter.Prelude.Map.{lookup, insert}
use distributed_rate_limiter.Policy.{Policy, Static}
use distributed_rate_limiter.Config.{Policies, PolicyConfig}

-- What `NewStatic` builds of one policy; the limits are copied.
abbrev pub policy_of : Text → PolicyConfig → Policy
policy_of name p = record {
  name = name;
  limits = p.limits;
  matches = [];
  failure_mode = p.failure_mode;
  gen = 0;
}

-- The loop over the tenants, a Go map: it may go from the list's end to its head. `none` is an error.
unfoldable pub load_tenants :
    List (Text × PolicyConfig) → List (Text × Text) → Option (List (Text × Policy))
load_tenants named [] = some []
load_tenants named ((tenant, name) ∷ ts) = elim (load_tenants named ts) [
  | none ↦ none
  | some done ↦ elim (lookup name named) [
    | none ↦ none
    | some p ↦ some (insert tenant (policy_of name p) done)
  ]
]

-- The rest of `NewStatic`: the default policy.
unfoldable pub load_default : Policies → List (Text × Policy) → Option Static
load_default p done =
    if text_eq p.default_ []
    then some (record { by_tenant = done; fallback = none })
    else elim (lookup p.default_ p.named) [
      | none ↦ none
      | some d ↦ some (record { by_tenant = done; fallback = some (policy_of p.default_ d) })
    ]

-- `NewStatic`; `none` is an error.
unfoldable pub new_static : Policies → Option Static
unfolding load_tenants load_default
new_static p = elim (load_tenants p.named p.tenants) [
  | none ↦ none
  | some done ↦ load_default p done
]
