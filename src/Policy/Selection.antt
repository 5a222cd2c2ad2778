-- ===== src/Policy/Selection.antt =====
-- Which limits `LimitsFor` returns.
use distributed_rate_limiter.Prelude.{
  ℕ, suc, ◌≡◌, ◌∙◌, sym, refl, ap, arith, Bool, true, ◌&&◌, ◌||◌, not, Option, none, some, List, [],
  ◌∷◌, Text, text_eq, get_elem?, if◌then◌else◌,
}
use distributed_rate_limiter.Limiter.Limit.{Limit}
use distributed_rate_limiter.Policy.{
  Policy, Match, is_universal, applies, match_applies, all_apply, choose, limits_for,
}

module _ (equal_fold : Text → Text → Bool) where
  choose-none : (ls : List Limit) (method path : Text) → choose equal_fold ls [] method path ≡ ls
  unfolding choose
  choose-none [] method path = refl
  choose-none (l ∷ ls) method path = ap (λ r. l ∷ r) (choose-none ls method path)

  choose-all :
      (ls : List Limit) (ms : List Match) (method path : Text)
      → all_apply equal_fold ls ms method path ≡ true
      → choose equal_fold ls ms method path ≡ ls
  unfolding choose all_apply
  choose-all [] ms method path h = refl
  choose-all (l ∷ ls) [] method path h = choose-none (l ∷ ls) method path
  choose-all (l ∷ ls) (m ∷ ms) method path h = ground (arith, choose-all ls ms method path)

  limits_for-choose :
      (p : Policy) (method path : Text)
      → limits_for equal_fold p method path ≡ choose equal_fold p.limits p.matches method path
  unfolding limits_for
  limits_for-choose p method path =
      elim p.matches
        as (λ ms.
          elim ms [
            | [] ↦ p.limits
            | m ∷ rest ↦
                if all_apply equal_fold p.limits (m ∷ rest) method path
                then p.limits
                else choose equal_fold p.limits (m ∷ rest) method path
          ]
          ≡ choose equal_fold p.limits ms method path) [
            | [] ↦ sym (choose-none p.limits method path)
            | m ∷ ms ↦ ground (arith, choose-all p.limits (m ∷ ms) method path)
          ]

  -- An entry of `Matches` covers the request: there is none, it covers everything, or the request is
  -- described and it covers its method and path.
  pub covers : Option Match → Text → Text → Bool
  covers none method path = true
  covers (some m) method path =
      is_universal m
      || (not (text_eq method [] && text_eq path []) && applies equal_fold m method path)

  covers-match :
      (m : Match) (method path : Text)
      → match_applies equal_fold m method path ≡ covers (some m) method path
  unfolding match_applies covers
  covers-match m method path = ground arith

  -- The limits, in order, whose entry of `Matches` covers the request, from index `i` on.
  pub selected : List Match → ℕ → List Limit → Text → Text → List Limit
  selected ms i [] method path = []
  selected ms i (l ∷ ls) method path =
      let rest = selected ms (suc i) ls method path in
      if covers (get_elem? ms i) method path then l ∷ rest else rest

  selected-shift :
      (m : Match) (ms : List Match) (i : ℕ) (ls : List Limit) (method path : Text)
      → selected (m ∷ ms) (suc i) ls method path ≡ selected ms i ls method path
  unfolding selected
  selected-shift m ms i [] method path = refl
  selected-shift m ms i (l ∷ ls) method path = rw (selected-shift m ms (suc i) ls method path)

  selected-none : (i : ℕ) (ls : List Limit) (method path : Text) → selected [] i ls method path ≡ ls
  unfolding selected covers
  selected-none i [] method path = refl
  selected-none i (l ∷ ls) method path = ap (λ r. l ∷ r) (selected-none (suc i) ls method path)

  choose-selected :
      (ls : List Limit) (ms : List Match) (method path : Text)
      → choose equal_fold ls ms method path ≡ selected ms 0 ls method path
  unfolding choose selected
  choose-selected [] ms method path = refl
  choose-selected (l ∷ ls) [] method path =
      choose-none (l ∷ ls) method path ∙ sym (selected-none 0 (l ∷ ls) method path)
  choose-selected (l ∷ ls) (m ∷ ms) method path = ground (
    arith,
    choose-selected ls ms method path,
    covers-match m method path,
    selected-shift m ms 0 ls method path,
  )

  -- `LimitsFor`, with its fast path, returns exactly the limits, in their order, whose entry of
  -- `Matches` at the same index covers the request; a limit with no entry is always returned, and an
  -- entry that does not cover everything never covers a request with no method and no path.
  pub limits_for-selected :
      (p : Policy) (method path : Text)
      → limits_for equal_fold p method path ≡ selected p.matches 0 p.limits method path
  limits_for-selected p method path =
      limits_for-choose p method path ∙ choose-selected p.limits p.matches method path
