-- ===== src/Config/PolicyChecks.antt =====
-- internal/config/config.go: the checks of `Validate` on policies, the default and tenants.
use distributed_rate_limiter.Prelude.{
  Bool, not, ◌||◌, Option, none, some, List, [], ◌∷◌, ◌++◌, Text, bytes, text_eq, if◌then◌else◌,
}
use distributed_rate_limiter.Prelude.Map.{lookup}
use distributed_rate_limiter.Limiter.Limit.{Limit, validate}
use distributed_rate_limiter.Config.{PolicyConfig, Policies}
use distributed_rate_limiter.Config.Checks.{
  ConfigError, has_text, contains_any, unnamed_policy, empty_policy, bad_failure_mode,
  duplicate_limit, bad_limit, unknown_default, unnamed_tenant, bad_tenant, unknown_policy,
}

-- The key that a limit takes in `seen`.
abbrev pub seen_key : Text → Limit → Text
seen_key name l = name ++ (bytes "/" ++ l.name)

-- The loop over one policy's limits, with the keys seen; else the keys seen after it.
pub data Seen : Type 0 where
  rejected : ConfigError → Seen
  seen : List Text → Seen

unfoldable pub validate_limits : Text → List Text → List Limit → Seen
unfolding has_text
validate_limits name keys [] = seen keys
validate_limits name keys (l ∷ ls) = elim (validate l) [
  | some e ↦ rejected (bad_limit e)
  | none ↦
      if has_text (seen_key name l) keys
      then rejected duplicate_limit
      else validate_limits name (seen_key name l ∷ keys) ls
]

abbrev pub is_failure_mode : Text → Bool
is_failure_mode t = text_eq t [] || (text_eq t (bytes "closed") || text_eq t (bytes "open"))

-- One round of the loop over the policies.
unfoldable pub validate_policy : Text → List Text → PolicyConfig → Seen
unfolding validate_limits
validate_policy name keys p = if text_eq name [] then rejected unnamed_policy else elim p.limits [
  | [] ↦ rejected empty_policy
  | l ∷ ls ↦
      if not (is_failure_mode p.failure_mode)
      then rejected bad_failure_mode
      else validate_limits name keys (l ∷ ls)
]

-- The loop over the policies.
unfoldable pub validate_named : List Text → List (Text × PolicyConfig) → Option ConfigError
unfolding validate_policy
validate_named keys [] = none
validate_named keys ((name, p) ∷ ps) = elim (validate_policy name keys p) [
  | rejected e ↦ some e
  | seen keys' ↦ validate_named keys' ps
]

-- The loop over the tenants.
unfoldable pub validate_tenants :
    List (Text × PolicyConfig) → List (Text × Text) → Option ConfigError
unfolding contains_any
validate_tenants named [] = none
validate_tenants named ((tenant, name) ∷ ts) =
    if text_eq tenant []
    then some unnamed_tenant
    else if contains_any tenant (bytes ":{}")
    then some bad_tenant
    else elim (lookup name named) [
      | none ↦ some unknown_policy
      | some p ↦ validate_tenants named ts
    ]

-- The check on the default policy, and the tenants after it.
unfoldable pub validate_uses : Policies → Option ConfigError
unfolding validate_tenants
validate_uses p =
    if text_eq p.default_ []
    then validate_tenants p.named p.tenants
    else elim (lookup p.default_ p.named) [
      | none ↦ some unknown_default
      | some d ↦ validate_tenants p.named p.tenants
    ]
