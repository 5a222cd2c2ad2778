-- ===== src/Admin/Printed.antt =====
-- `policyToDTO` after `toRecord`, both of internal/gateway/admin.go.
use distributed_rate_limiter.Prelude.{
  ℕ, ◌*◌, ◌<◌, ◌≡◌, refl, sym, ap, Bool-cases, inl, inr, some, List, [], ◌∷◌, All, Text, text_eq,
  text_eq_iff, bytes, arith, if◌then◌else◌,
}
use distributed_rate_limiter.Prelude.Int.{pos, mul64, quot64, mul64-pos, quot64-pos}
use native.Mathlib.Nat.{mul-div_left}
use distributed_rate_limiter.Limiter.Limit.Key.{algorithm_name}
use distributed_rate_limiter.Policy.{is_universal}
use distributed_rate_limiter.Admin.{
  LimitDto, PolicyDto, algorithm_of, limit_from, match_from, limits_from, matches_from, to_record,
  limit_dto, limit_dtos, policy_to_dto,
}

algorithm_name-of : (t : Text) → algorithm_name (algorithm_of t) ≡ t
unfolding algorithm_of
algorithm_name-of t = elim (Bool-cases (text_eq t (bytes "token_bucket"))) [
  | inl bucket ↦ rw bucket (sym ((text_eq_iff t (bytes "token_bucket")).0 bucket))
  | inr other_ ↦ elim (Bool-cases (text_eq t (bytes "sliding_window"))) [
    | inl window ↦ rw (other_, window) (sym ((text_eq_iff t (bytes "sliding_window")).0 window))
    | inr unknown_ ↦ rw (other_, unknown_) refl
  ]
]

-- A period that an int64 holds in nanoseconds.
abbrev pub Fits : LimitDto → Type 0
Fits d = (n : ℕ) × (d.period_ms ≡ pos n) × (n * 1000000 < 9223372036854775808)

-- A limit that applies to every request is printed without a method and a path.
unfoldable pub printed : LimitDto → LimitDto
printed d = if is_universal (match_from d) then record d { method = []; path_prefix = [] } else d

unfoldable pub printed_all : List LimitDto → List LimitDto
unfolding printed
printed_all [] = []
printed_all (d ∷ ds) = printed d ∷ printed_all ds

period-back :
    (d : LimitDto) → Fits d → quot64 (mul64 d.period_ms (pos 1000000)) (pos 1000000) ≡ d.period_ms
period-back d (n, e, fits) =
    rw (e, mul64-pos n 1000000 fits, quot64-pos (n * 1000000) 1000000 fits)
      (ap pos (mul-div_left n (omega arith)))

limit_dto-printed :
    (d : LimitDto) → Fits d → limit_dto (limit_from d) (some (match_from d)) ≡ printed d
unfolding limit_dto limit_from printed
limit_dto-printed d fits = ground (arith, period-back d fits, algorithm_name-of d.algorithm)

limit_dtos-printed_all :
    (ds : List LimitDto)
    → All Fits ds
    → limit_dtos (limits_from ds) (matches_from ds) ≡ printed_all ds
unfolding limit_dtos limits_from matches_from printed_all
limit_dtos-printed_all [] h = refl
limit_dtos-printed_all (d ∷ ds) h = rw (limit_dto-printed d h.0, limit_dtos-printed_all ds h.1) refl

-- A policy whose periods an int64 holds in nanoseconds, taken as a record and given back, is the
-- policy that was sent under the name of its path, with the method and the path left out of the
-- limits that apply to every request.
pub policy_to_dto-to_record :
    (d : PolicyDto) (name : Text)
    → All Fits d.limits
    → policy_to_dto (to_record d name) ≡ record d { name = name; limits = printed_all d.limits }
unfolding policy_to_dto to_record
policy_to_dto-to_record d name h = rw (limit_dtos-printed_all d.limits h) refl
