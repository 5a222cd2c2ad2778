-- ===== src/Limiter/Gcra/Admission.antt =====
-- What `gcraCheck` admits, and that the numbers it reports are true.
use distributed_rate_limiter.Prelude.{
  ℕ, ◌+◌, ◌-◌, ◌*◌, ◌/◌, ◌≤◌, ◌<◌, ◌≡◌, refl, ap, ◌∙◌, ◌↔◌, some, arith, true, false, ltb, ◌==◌,
  if◌then◌else◌,
}
use distributed_rate_limiter.Prelude.Int.{ℤ, pos, ◌+ℤ◌, ◌≤ℤ◌, add-le_iff}
use native.Mathlib.Nat.{le-div_iff_mul-le, mul_comm}
use distributed_rate_limiter.Limiter.Limit.{Limit}
use distributed_rate_limiter.Limiter.Limit.Sizes.{capacity_of}
use distributed_rate_limiter.Limiter.Limit.Emission.{interval, interval_lower}
use distributed_rate_limiter.Limiter.Request.{Decision}
use distributed_rate_limiter.Limiter.Gcra.{gcra_check}
use distributed_rate_limiter.Limiter.Gcra.Bucket.{
  verdict, debt, debt-add, full, IsSound, check-verdict, cost-le-full, debt_later, elapsed,
}

-- The arrival time lies at most a full bucket ahead of now.
abbrev pub Within : Limit → ℤ → ℤ → Type 0
Within l tat now = debt tat now ≤ full l

-- For an accepted limit whose tolerance fits an int64, and an arrival time within it, a check of
-- 1 up to `capacity` units never panics; it admits exactly when the units fit beside the debt;
-- the new arrival time is later by the units' worth if admitted and else only brought up to now;
-- and it is again within the tolerance.
pub gcra_check_admits :
    (l : Limit) (tat now : ℤ) (c : ℕ)
    → IsSound l
    → Within l tat now
    → 0 < c
    → c ≤ capacity_of l
    → (tat' : ℤ) × (d : Decision) × (gcra_check l tat now (pos c) ≡ some (tat', d))
      × ((d.allowed ≡ true) ↔ (debt tat now + interval l * c ≤ full l))
      × (d.allowed ≡ true → tat' ≡ now +ℤ pos (debt tat now + interval l * c))
      × (d.allowed ≡ false → tat' ≡ now +ℤ pos (debt tat now))
      × Within l tat' now
unfolding verdict
gcra_check_admits l tat now c s h hc k = (
  (verdict l (interval l) (full l) now (debt tat now) c).0,
  (verdict l (interval l) (full l) now (debt tat now) c).1,
  check-verdict l tat now c s h k,
  ground arith,
  ground arith,
  ground arith,
  ground (arith, debt-add now (debt tat now), debt-add now (debt tat now + interval l * c)),
)

-- For an accepted limit whose tolerance fits an int64 and an arrival time within it, a check of
-- no units (a peek) admits, reports the whole units left, and returns the arrival time only
-- brought up to now.
pub gcra_check_peek :
    (l : Limit) (tat now : ℤ)
    → IsSound l
    → Within l tat now
    → (d : Decision) × (gcra_check l tat now (pos 0) ≡ some (now +ℤ pos (debt tat now), d))
      × (d.allowed ≡ true)
      × (d.remaining ≡ pos ((full l - debt tat now) / interval l))
unfolding verdict
gcra_check_peek l tat now s h = (
  (verdict l (interval l) (full l) now (debt tat now) 0).1,
  check-verdict l tat now 0 s h (omega arith),
  refl,
  refl,
)

fits_iff : (e t d c : ℕ) → 0 < e → d ≤ t → (c ≤ (t - d) / e) ↔ (d + e * c ≤ t)
fits_iff e t d c he hd = (
  λ h. omega (arith, (le-div_iff_mul-le {k = e} {x = c} {y = t - d} he).0 h, mul_comm c e),
  λ h. (le-div_iff_mul-le {k = e} {x = c} {y = t - d} he).1 (omega (arith, mul_comm c e)),
)

-- The debt that a check leaves.
owed : ℕ → ℕ → ℕ → ℕ → ℕ
owed e t d c = if c == 0 then d else if ltb t (d + e * c) then d else d + e * c

verdict-owed :
    (l : Limit) (e t : ℕ) (now : ℤ) (d c : ℕ)
    → d ≤ t
    → ((verdict l e t now d c).0 ≡ now +ℤ pos (owed e t d c))
      × ((verdict l e t now d c).1.remaining ≡ pos ((t - owed e t d c) / e))
      × (owed e t d c ≤ t)
unfolding verdict owed
verdict-owed l e t now d c h = ground arith

verdict-allowed :
    (l : Limit) (e t : ℕ) (now : ℤ) (d c : ℕ)
    → 0 < c
    → ((verdict l e t now d c).1.allowed ≡ true) ↔ (d + e * c ≤ t)
unfolding verdict
verdict-allowed l e t now d c h = ground arith

verdict-retry :
    (l : Limit) (e t : ℕ) (now : ℤ) (d c : ℕ)
    → (verdict l e t now d c).1.allowed ≡ false
    → ((verdict l e t now d c).1.retry_after ≡ pos (d + e * c - t)) × (t < d + e * c)
unfolding verdict
verdict-retry l e t now d c h = ground arith

-- A check of `c` units from `tat`, known to give `tat'` and `d`.
module _ (l : Limit) (tat now : ℤ) (c : ℕ) (tat' : ℤ) (d : Decision) (s : IsSound l)
    (h : Within l tat now) (k : c ≤ capacity_of l)
    (e : gcra_check l tat now (pos c) ≡ some (tat', d)) where
  result-verdict : (tat', d) ≡ verdict l (interval l) (full l) now (debt tat now) c
  result-verdict = cc (check-verdict l tat now c s h k)

-- For an accepted limit whose tolerance fits an int64 and an arrival time within it, the
-- remaining units that a check of up to `capacity` units reports, admitted or not, are exactly
-- the most that a next check at the same instant admits.
pub remaining_exact :
    (l : Limit) (tat now : ℤ) (c c' : ℕ) (tat' tat'' : ℤ) (d d' : Decision)
    → IsSound l
    → Within l tat now
    → c ≤ capacity_of l
    → 0 < c'
    → c' ≤ capacity_of l
    → gcra_check l tat now (pos c) ≡ some (tat', d)
    → gcra_check l tat' now (pos c') ≡ some (tat'', d')
    → (d'.allowed ≡ true) ↔ (pos c' ≤ℤ d.remaining)
remaining_exact l tat now c c' tat' tat'' d d' s h k pos_c' k' e e' = ground (
  arith,
  first,
  second,
  owing,
  here,
  verdict-allowed l (interval l) (full l) now w c' pos_c',
  fits_iff (interval l) (full l) w c' (omega (arith, interval_lower l)) owing.2,
)
  where
    w : ℕ
    w = owed (interval l) (full l) (debt tat now) c

    first : (tat', d) ≡ verdict l (interval l) (full l) now (debt tat now) c
    first = result-verdict l tat now c tat' d s h k e

    owing :
        ((verdict l (interval l) (full l) now (debt tat now) c).0 ≡ now +ℤ pos w)
        × ((verdict l (interval l) (full l) now (debt tat now) c).1.remaining
            ≡ pos ((full l - w) / interval l))
        × (w ≤ full l)
    owing = verdict-owed l (interval l) (full l) now (debt tat now) c h

    here : debt tat' now ≡ w
    here = rw (ap (λ p. p.0) first ∙ owing.0) (debt-add now w)

    second : (tat'', d') ≡ verdict l (interval l) (full l) now w c'
    second = rw (← here) (result-verdict l tat' now c' tat'' d' s (rw here owing.2) k' e')

-- For an accepted limit whose tolerance fits an int64 and an arrival time within it, a refusal's
-- `RetryAfter` is exact: with no other admission, the same request is admitted at that time or
-- later, and refused at every instant from the refusal up to it.
pub retry_after_exact :
    (l : Limit) (tat now later : ℤ) (c : ℕ) (tat' tat'' : ℤ) (d d' : Decision)
    → IsSound l
    → Within l tat now
    → 0 < c
    → c ≤ capacity_of l
    → now ≤ℤ later
    → gcra_check l tat now (pos c) ≡ some (tat', d)
    → d.allowed ≡ false
    → gcra_check l tat later (pos c) ≡ some (tat'', d')
    → (d'.allowed ≡ true) ↔ (now +ℤ d.retry_after ≤ℤ later)
retry_after_exact l tat now later c tat' tat'' d d' s h pos_c k le e refused e' =
    let (x, at) = elapsed now later le in
    let D = debt tat now in
    let shrunk : debt tat later ≡ D - x = debt_later tat now later x at in
    let still : Within l tat later = omega arith in
    let first = result-verdict l tat now c tat' d s h k e in
    let second = result-verdict l tat later c tat'' d' s still k e' in
    let w = D + interval l * c - full l in
    let (waits, over) = verdict-retry l (interval l) (full l) now D c (ground arith) in
    let wait : d.retry_after ≡ pos w = ap (λ p. p.1.retry_after) first ∙ waits in
    let admits = verdict-allowed l (interval l) (full l) later (debt tat later) c pos_c in
    let fits = cost-le-full l c k in
    let verdict_now : (d'.allowed ≡ true) ↔ (w ≤ x) = ground arith in
    rw (wait, at)
      (λ a. (add-le_iff now w x).1 (verdict_now.0 a), λ b. verdict_now.1 ((add-le_iff now w x).0 b))
