-- ===== src/Admin.antt =====
-- The management API (internal/gateway/admin.go and cluster_admin.go, with the records of
-- internal/policy/postgres.go): what it takes and returns. A time of creation is left out.
pub mod Store
pub mod Edits
pub mod Guard
pub mod Fenced
pub mod Printed
mod Tests
use distributed_rate_limiter.Prelude.{
  Bool, true, false, ◌||◌, not, Option, none, some, List, [], ◌∷◌, Text, text_eq, bytes,
  if◌then◌else◌,
}
use distributed_rate_limiter.Prelude.Int.{ℤ, pos, mul64, quot64}
use distributed_rate_limiter.Limiter.Limit.{
  Limit, LimitError, Algorithm, token_bucket, sliding_window, other, validate,
}
use distributed_rate_limiter.Limiter.Limit.Key.{algorithm_name}
use distributed_rate_limiter.Config.PolicyChecks.{is_failure_mode}
use distributed_rate_limiter.Policy.{Match, MatchError, is_universal, validate_match}

pub record TenantRecord : Type 0 where
  pub id : Text
  pub name : Text
  pub policy : Text
  pub disabled : Bool

pub record PolicyRecord : Type 0 where
  pub name : Text
  pub failure_mode : Text
  pub description : Text
  pub limits : List Limit
  pub matches : List Match

pub record LimitDto : Type 0 where
  pub name : Text
  pub algorithm : Text
  pub count : ℤ
  pub period_ms : ℤ
  pub burst : ℤ
  pub method : Text
  pub path_prefix : Text

pub record PolicyDto : Type 0 where
  pub name : Text
  pub failure_mode : Text
  pub description : Text
  pub limits : List LimitDto

-- `limiter.Algorithm(s)`.
unfoldable pub algorithm_of : Text → Algorithm
algorithm_of t =
    if text_eq t (bytes "token_bucket")
    then token_bucket
    else if text_eq t (bytes "sliding_window")
    then sliding_window
    else other t

unfoldable pub limit_from : LimitDto → Limit
unfolding algorithm_of
limit_from d = record {
  name = d.name;
  algorithm = algorithm_of d.algorithm;
  count = d.count;
  period = mul64 d.period_ms (pos 1000000);
  burst = d.burst;
}

abbrev pub match_from : LimitDto → Match
match_from d = record { method = d.method; path_prefix = d.path_prefix }

unfoldable pub limits_from : List LimitDto → List Limit
unfolding limit_from
limits_from [] = []
limits_from (d ∷ ds) = limit_from d ∷ limits_from ds

unfoldable pub matches_from : List LimitDto → List Match
matches_from [] = []
matches_from (d ∷ ds) = match_from d ∷ matches_from ds

-- `toRecord`.
unfoldable pub to_record : PolicyDto → Text → PolicyRecord
unfolding limits_from matches_from
to_record d name = record {
  name = name;
  failure_mode = d.failure_mode;
  description = d.description;
  limits = limits_from d.limits;
  matches = matches_from d.limits;
}

-- One round of the loop of `policyToDTO`, with the match at its place if there is one.
unfoldable pub limit_dto : Limit → Option Match → LimitDto
limit_dto l m =
    let plain : LimitDto = record {
      name = l.name;
      algorithm = algorithm_name l.algorithm;
      count = l.count;
      period_ms = quot64 l.period (pos 1000000);
      burst = l.burst;
      method = [];
      path_prefix = [];
    } in
    elim m [
      | none ↦ plain
      | some x ↦
          if is_universal x
          then plain
          else record plain { method = x.method; path_prefix = x.path_prefix }
    ]

unfoldable pub limit_dtos : List Limit → List Match → List LimitDto
unfolding limit_dto
limit_dtos [] ms = []
limit_dtos (l ∷ ls) [] = limit_dto l none ∷ limit_dtos ls []
limit_dtos (l ∷ ls) (m ∷ ms) = limit_dto l (some m) ∷ limit_dtos ls ms

-- `policyToDTO`.
unfoldable pub policy_to_dto : PolicyRecord → PolicyDto
unfolding limit_dtos
policy_to_dto r = record {
  name = r.name;
  failure_mode = r.failure_mode;
  description = r.description;
  limits = limit_dtos r.limits r.matches;
}

pub data RecordError : Type 0 where
  nameless bad_failure_mode limitless : RecordError
  bad_limit : LimitError → RecordError
  shared_name : RecordError
  bad_match : MatchError → RecordError

unfoldable pub is_seen : Text → List Text → Bool
is_seen k [] = false
is_seen k (x ∷ xs) = text_eq x k || is_seen k xs

-- The loop over the limits, with the names seen so far.
unfoldable pub validate_record_limits : List Text → List Limit → Option RecordError
unfolding is_seen
validate_record_limits seen [] = none
validate_record_limits seen (l ∷ ls) = elim (validate l) [
  | some e ↦ some (bad_limit e)
  | none ↦
      let rest = validate_record_limits (l.name ∷ seen) ls in
      if is_seen l.name seen then some shared_name else rest
]

unfoldable pub validate_matches : List Match → Option RecordError
validate_matches [] = none
validate_matches (m ∷ ms) = elim (validate_match m) [
  | some e ↦ some (bad_match e)
  | none ↦ validate_matches ms
]

-- `PolicyRecord.Validate`.
unfoldable pub validate_record : PolicyRecord → Option RecordError
unfolding validate_record_limits validate_matches
validate_record r =
    if text_eq r.name []
    then some nameless
    else if not (is_failure_mode r.failure_mode)
    then some bad_failure_mode
    else elim r.limits [
      | [] ↦ some limitless
      | l ∷ ls ↦ elim (validate_record_limits [] r.limits) [
        | some e ↦ some e
        | none ↦ validate_matches r.matches
      ]
    ]
