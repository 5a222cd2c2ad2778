-- ===== src/Limiter/Window/Retry.antt =====
-- A refusal's `RetryAfter` by the sliding window.
use distributed_rate_limiter.Prelude.{
  ℕ, zero, suc, ◌+◌, ◌-◌, ◌≤◌, ◌<◌, ◌≡◌, refl, ap, some, arith, true, false, List, [], ◌∷◌,
  get_elem?, All, Bool-cases, inl, inr, length, ◌↔◌,
}
use distributed_rate_limiter.Prelude.Int.{
  ℤ, pos, neg, ltb_ℤ, ◌≤ℤ◌, ◌<ℤ◌, pos_part, neg_part, ◌+ℤ◌, ◌-ℤ◌, +ℤ_parts, -ℤ_parts, neg_parts,
  one_part, sub_time, sub_time_exact, eq_of_parts, InInt64,
}
use distributed_rate_limiter.Limiter.Limit.{Limit}
use distributed_rate_limiter.Limiter.Limit.Sizes.{HasSizes, count_of, period_ns}
use distributed_rate_limiter.Limiter.Request.{Decision}
use distributed_rate_limiter.Limiter.Window.{live_from, window_check}
use distributed_rate_limiter.Limiter.Window.Log.{
  cutoff, live, length-live_from-le, window_check_pruned, window_check_over,
}

-- Oldest first.
abbrev pub IsOrdered : List ℤ → Type 0
IsOrdered [] = Unit {0}
IsOrdered (t ∷ []) = Unit {0}
IsOrdered (t ∷ u ∷ log) = (t ≤ℤ u) × IsOrdered (u ∷ log)

IsOrdered-tail : (u : ℤ) (log : List ℤ) → IsOrdered (u ∷ log) → IsOrdered log
IsOrdered-tail u [] o = tt
IsOrdered-tail u (t ∷ log) o = o.1

IsOrdered-head :
    (u : ℤ) (log : List ℤ) (i : ℕ) (t : ℤ) → IsOrdered (u ∷ log) → get_elem? log i ≡ some t → u ≤ℤ t
IsOrdered-head u [] i t o e = cc
IsOrdered-head u (v ∷ log) zero t o e = ground arith
IsOrdered-head u (v ∷ log) (suc i) t o e = omega (arith, IsOrdered-head v log i t o.1 e)

-- In an ordered log the entries that aged out by `at` number more than `i` exactly when entry `i`
-- aged out.
pub live_from-index :
    (at : ℤ) (log : List ℤ) (i : ℕ) (t : ℤ)
    → IsOrdered log
    → get_elem? log i ≡ some t
    → (length (live_from at log) + i < length log) ↔ (t ≤ℤ at)
unfolding live_from
live_from-index at [] i t o e = cc
live_from-index at (u ∷ log) zero t o e = ground (arith, length-live_from-le at log)
live_from-index at (u ∷ log) (suc i) t o e =
    ground
      (arith, live_from-index at log i t (IsOrdered-tail u log o) e, IsOrdered-head u log i t o e)

live_from-live_from :
    (at later : ℤ) (log : List ℤ)
    → at ≤ℤ later
    → live_from later (live_from at log) ≡ live_from later log
unfolding live_from
live_from-live_from at later [] h = refl
live_from-live_from at later (t ∷ log) h = ground (arith, live_from-live_from at later log h)

IsOrdered-live_from : (at : ℤ) (log : List ℤ) → IsOrdered log → IsOrdered (live_from at log)
unfolding live_from
IsOrdered-live_from at [] o = tt
IsOrdered-live_from at (t ∷ log) o = elim (Bool-cases (ltb_ℤ at t)) [
  | inl young ↦ rw young o
  | inr aged ↦ rw aged (IsOrdered-live_from at log (IsOrdered-tail t log o))
]

-- In an ordered log what is left are entries younger than the cut-off, and old ones no later than
-- `now`.
live_from-entry :
    (at now : ℤ) (log : List ℤ) (i : ℕ) (t : ℤ)
    → IsOrdered log
    → All (λ u. u ≤ℤ now) log
    → get_elem? (live_from at log) i ≡ some t
    → (at <ℤ t) × (t ≤ℤ now)
unfolding live_from
live_from-entry at now [] i t o past e = cc
live_from-entry at now (u ∷ log) zero t o past e =
    ground (arith, live_from-entry at now log 0 t (IsOrdered-tail u log o) past.1)
live_from-entry at now (u ∷ log) (suc i) t o past e = elim (Bool-cases (ltb_ℤ at u)) [
  | inl young ↦
      let e' : get_elem? log i ≡ some t = rw young at e in
      ground (arith, IsOrdered-head u log i t o e', entry_past log i past.1 e')
  | inr aged ↦ live_from-entry at now log (suc i) t (IsOrdered-tail u log o) past.1 (rw aged at e)
]
  where
    entry_past :
        (log : List ℤ) (i : ℕ) → All (λ u. u ≤ℤ now) log → get_elem? log i ≡ some t → t ≤ℤ now
    entry_past [] i a h = cc
    entry_past (v ∷ r) zero a h = ground arith
    entry_past (v ∷ r) (suc i) a h = entry_past r i a.1 h

wait_for :
    (l : Limit) (oldest now : ℤ)
    → HasSizes l
    → cutoff l now <ℤ oldest
    → oldest ≤ℤ now
    → now +ℤ sub_time (oldest +ℤ l.period) now ≡ oldest +ℤ pos (period_ns l)
wait_for l oldest now s young past =
    let until = oldest +ℤ l.period in
    let inside : InInt64 (until -ℤ now) = omega (
      arith,
      s.period_upper,
      -ℤ_parts until now,
      one_part (until -ℤ now),
      +ℤ_parts oldest (pos (period_ns l)),
      ap (λ z. pos_part (oldest +ℤ z)) s.period_pos,
      ap (λ z. neg_part (oldest +ℤ z)) s.period_pos,
      +ℤ_parts now (neg (period_ns l)),
      neg_parts (period_ns l),
    ) in
    rw (sub_time_exact until now inside) (
      omega (
        arith,
        -ℤ_parts until now,
        +ℤ_parts now (until -ℤ now),
        eq_of_parts,
        ap (λ z. pos_part (oldest +ℤ z)) s.period_pos,
        ap (λ z. neg_part (oldest +ℤ z)) s.period_pos,
      ))

pub aged_iff : (l : Limit) (t now : ℤ) → (t ≤ℤ cutoff l now) ↔ (t +ℤ pos (period_ns l) ≤ℤ now)
aged_iff l t now = (
  λ h. omega (
    arith,
    +ℤ_parts now (neg (period_ns l)),
    neg_parts (period_ns l),
    +ℤ_parts t (pos (period_ns l)),
  ),
  λ h. omega (
    arith,
    +ℤ_parts now (neg (period_ns l)),
    neg_parts (period_ns l),
    +ℤ_parts t (pos (period_ns l)),
  ),
)

-- For accepted sizes and an ordered log of at most `count` entries, none later than now, a
-- refused request's `RetryAfter` is exact: with no other admission, the same request is admitted
-- at that time or later, and refused at every instant from the refusal up to it.
pub window_retry_exact :
    (l : Limit) (log : List ℤ) (now later : ℤ) (c : ℕ) (log' log'' : List ℤ) (d d' : Decision)
    → HasSizes l
    → length log ≤ count_of l
    → IsOrdered log
    → All (λ t. t ≤ℤ now) log
    → 0 < c
    → c ≤ count_of l
    → now ≤ℤ later
    → window_check l log now (pos c) ≡ some (log', d)
    → d.allowed ≡ false
    → window_check l log later (pos c) ≡ some (log'', d')
    → (d'.allowed ≡ true) ↔ (now +ℤ d.retry_after ≤ℤ later)
window_retry_exact l log now later c log' log'' d d' s h o past pos_c k le e refused e' =
    let inside = live l now log in
    let fewer : length inside ≤ count_of l =
      omega (arith, length-live_from-le (cutoff l now) log) in
    let (x, xd, xe, xa) = window_check_pruned l log now c s h pos_c k in
    let (y, yd, ye, ya) = window_check_pruned l log later c s h pos_c k in
    let over : count_of l < length inside + c = ground arith in
    let (oldest, at, z, zd, ze, wait) = window_check_over l log now c s fewer pos_c k over in
    let (young, old) = live_from-entry (cutoff l now) now log _ oldest o past at in
    let until = wait_for l oldest now s young old in
    let i = length inside + c - count_of l - 1 in
    let same =
      live_from-live_from (cutoff l now) (cutoff l later) log
        (omega (arith, +ℤ_parts now (neg (period_ns l)), +ℤ_parts later (neg (period_ns l)))) in
    let leaves =
      live_from-index (cutoff l later) inside i oldest (IsOrdered-live_from (cutoff l now) log o)
        at in
    let wait' : d.retry_after ≡ sub_time (oldest +ℤ l.period) now = ground arith in
    let admitted : (d'.allowed ≡ true)
        ↔ (length (live_from (cutoff l later) inside) + c ≤ count_of l) =
      ground arith in
    let left = aged_iff l oldest later in
    rw (wait', until)
      (
        λ allowed. left.0 (leaves.0 (omega (arith, admitted.0 allowed))),
        λ reached. admitted.1 (omega (arith, leaves.1 (left.1 reached))),
      )
