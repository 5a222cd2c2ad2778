-- ===== src/Config/Limits.antt =====
-- What the checks on the limits of a policy establish.
use distributed_rate_limiter.Prelude.{
  ◌≡◌, ◌≢◌, ◌⊎◌, inl, inr, refl, arith, Bool, false, not, ◌||◌, none, some, List, [], ◌∷◌, ◌++◌,
  Text, text_eq, text_eq_iff, All, if◌then◌else◌, Bool-cases, Option-cases,
}
use distributed_rate_limiter.Prelude.Map.{lookup}
use distributed_rate_limiter.Limiter.Limit.{Limit, validate}
use distributed_rate_limiter.Config.{PolicyConfig}
use distributed_rate_limiter.Config.Checks.{ConfigError, has_text, empty_policy, bad_failure_mode}
use distributed_rate_limiter.Config.PolicyChecks.{
  Seen, rejected, seen, seen_key, validate_limits, validate_policy, validate_named, is_failure_mode,
}

-- A limit of the list has the name.
abbrev pub has_name : Text → List Limit → Bool
has_name k [] = false
has_name k (l ∷ ls) = text_eq l.name k || has_name k ls

abbrev pub HasDistinctNames : List Limit → Type 0
HasDistinctNames [] = Unit {0}
HasDistinctNames (l ∷ ls) = (has_name l.name ls ≡ false) × HasDistinctNames ls

-- What the checker relies on: there is a limit, each of them is valid, and no two share a name, and so
-- a counter.
pub record IsSound (limits : List Limit) : Type 0 where
  pub present : limits ≢ []
  pub valid : All (λ l. validate l ≡ none) limits
  pub distinct : HasDistinctNames limits

text_eq-append : (s t u : Text) → text_eq (s ++ t) (s ++ u) ≡ text_eq t u
unfolding text_eq
text_eq-append [] t u = refl
text_eq-append (b ∷ s) t u = ground (arith, text_eq-append s t u)

seen_key-same :
    (name : Text) (k l : Limit)
    → text_eq (seen_key name k) (seen_key name l) ≡ text_eq k.name l.name
unfolding text_eq
seen_key-same name k l = text_eq-append name (b'/' ∷ k.name) (b'/' ∷ l.name)

unseen_names :
    (name : Text) (l : Limit) (keys : List Text) (ls : List Limit)
    → All (λ k. has_text (seen_key name k) (seen_key name l ∷ keys) ≡ false) ls
    → has_name l.name ls ≡ false
unfolding has_text
unseen_names name l keys [] h = refl
unseen_names name l keys (k ∷ ls) h = ground (
  arith,
  h.0,
  unseen_names name l keys ls h.1,
  seen_key-same name l k,
  text_eq_iff k.name l.name,
  text_eq_iff l.name k.name,
)

later :
    (name : Text) (l : Limit) (keys : List Text) (ls : List Limit)
    → All (λ k. has_text (seen_key name k) (seen_key name l ∷ keys) ≡ false) ls
    → All (λ k. has_text (seen_key name k) keys ≡ false) ls
unfolding has_text
later name l keys [] h = tt
later name l keys (k ∷ ls) h = (ground (arith, h.0), later name l keys ls h.1)

limits-IsSound :
    (name : Text) (keys keys' : List Text) (ls : List Limit)
    → validate_limits name keys ls ≡ seen keys'
    → All (λ l. validate l ≡ none) ls
      × HasDistinctNames ls
      × All (λ l. has_text (seen_key name l) keys ≡ false) ls
unfolding validate_limits
limits-IsSound name keys keys' [] h = (tt, tt, tt)
limits-IsSound name keys keys' (l ∷ ls) h = elim (Option-cases (validate l)) [
  | inr (e, x) ↦ cc
  | inl x ↦ elim (Bool-cases (has_text (seen_key name l) keys)) [
    | inl y ↦ cc
    | inr y ↦
        let (valid, distinct, unseen) =
          limits-IsSound name (seen_key name l ∷ keys) keys' ls (cc) in
        (
          (x, valid),
          (unseen_names name l keys ls unseen, distinct),
          (y, later name l keys ls unseen),
        )
  ]
]

Seen-cases :
    (o : Seen) → ((e : ConfigError) × (o ≡ rejected e)) ⊎ ((keys : List Text) × (o ≡ seen keys))
Seen-cases (rejected e) = inl (e, refl)
Seen-cases (seen keys) = inr (keys, refl)

-- A list of limits that passes the checks of its policy is sound.
listed-IsSound :
    (name : Text) (keys keys' : List Text) (mode : Text) (ls : List Limit)
    → (elim ls [
      | [] ↦ rejected empty_policy
      | l ∷ rest ↦
          if not (is_failure_mode mode)
          then rejected bad_failure_mode
          else validate_limits name keys (l ∷ rest)
    ])
      ≡ seen keys'
    → IsSound ls
listed-IsSound name keys keys' mode [] h = cc
listed-IsSound name keys keys' mode (l ∷ ls) h = elim (Bool-cases (is_failure_mode mode)) [
  | inr e ↦ let bad : rejected bad_failure_mode ≡ seen keys' = cc in cc
  | inl e ↦
      let good : validate_limits name keys (l ∷ ls) ≡ seen keys' = cc in
      let (valid, distinct, unseen) = limits-IsSound name keys keys' (l ∷ ls) good in
      record { present = λ x. cc; valid = valid; distinct = distinct }
]

policy-IsSound :
    (name : Text) (keys keys' : List Text) (p : PolicyConfig)
    → validate_policy name keys p ≡ seen keys'
    → IsSound p.limits
unfolding validate_policy
policy-IsSound name keys keys' p h = elim (Bool-cases (text_eq name [])) [
  | inl e ↦ cc
  | inr e ↦ listed-IsSound name keys keys' p.failure_mode p.limits (cc)
]

pub named-IsSound :
    (keys : List Text) (named : List (Text × PolicyConfig)) (name : Text) (p : PolicyConfig)
    → validate_named keys named ≡ none
    → lookup name named ≡ some p
    → IsSound p.limits
unfolding validate_named lookup
named-IsSound keys [] name p h e = cc
named-IsSound keys ((j, q) ∷ ps) name p h e = elim (Seen-cases (validate_policy j keys q)) [
  | inl (x, o) ↦ cc
  | inr (keys', o) ↦ elim (Bool-cases (text_eq j name)) [
    | inl y ↦ let same : q ≡ p = cc in rw (← same) (policy-IsSound j keys keys' q o)
    | inr y ↦ named-IsSound keys' ps name p (cc) (cc)
  ]
]
