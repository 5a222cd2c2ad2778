-- ===== src/Limiter/Window/Exact.antt =====
-- The sliding window is exact: over any sequence of requests, no window holds more than the count.
use distributed_rate_limiter.Prelude.{
  ℕ, zero, suc, ◌+◌, ◌≤◌, ◌<◌, ◌≡◌, refl, ap, Option, some, arith, List, [], ◌∷◌, ◌++◌, ◌>>=◌, All,
  if◌then◌else◌, Bool-cases, inl, inr, length, replicate, ◌&&◌, All-append, All-map,
}
use distributed_rate_limiter.Prelude.Int.{
  ℤ, pos, neg, ltb_ℤ, leb_ℤ, ◌≤ℤ◌, ◌<ℤ◌, pos_part, neg_part, ◌+ℤ◌, +ℤ_parts, neg_parts,
}
use native.Mathlib.Decide.{dec_lt}
use distributed_rate_limiter.Limiter.Limit.{Limit}
use distributed_rate_limiter.Limiter.Limit.Sizes.{HasSizes, count_of, period_ns}
use distributed_rate_limiter.Limiter.Window.{window_check}
use distributed_rate_limiter.Limiter.Window.Log.{cutoff, live, live_from-split, window_check_pruned}

-- A sequence of requests on one log, each a wait since the one before and a number of units. As
-- in the store, only an admitted request writes its log back. The result is the instant of each
-- unit admitted.
unfoldable pub serve : Limit → List ℤ → ℤ → List (ℕ × ℕ) → Option (List ℤ)
serve l log now [] = some []
serve l log now ((wait, c) ∷ rest) = do
  (log', d) ← window_check l log (now +ℤ pos wait) (pos c)
  more ← serve l (if d.allowed then log' else log) (now +ℤ pos wait) rest
  some ((if d.allowed then replicate c (now +ℤ pos wait) else []) ++ more)

abbrev pub IsAskable : Limit → List (ℕ × ℕ) → Type 0
IsAskable l = All (λ r. (0 < r.1) × (r.1 ≤ count_of l))

-- The units admitted in the window of the period that begins after `from`.
pub in_window : Limit → ℤ → List ℤ → ℕ
in_window l from [] = 0
in_window l from (t ∷ ts) =
    (if ltb_ℤ from t && leb_ℤ t (from +ℤ pos (period_ns l)) then 1 else 0) + in_window l from ts

in_window-append :
    (l : Limit) (from : ℤ) (ts us : List ℤ)
    → in_window l from (ts ++ us) ≡ in_window l from ts + in_window l from us
unfolding in_window
in_window-append l from [] us = omega arith
in_window-append l from (t ∷ ts) us = omega (arith, in_window-append l from ts us)

in_window-le : (l : Limit) (from : ℤ) (ts : List ℤ) → in_window l from ts ≤ length ts
unfolding in_window
in_window-le l from [] = omega arith
in_window-le l from (t ∷ ts) = ground (arith, in_window-le l from ts)

-- Entries at or before the window's start are outside.
in_window_before :
    (l : Limit) (from : ℤ) (ts : List ℤ) → All (λ t. t ≤ℤ from) ts → in_window l from ts ≡ 0
unfolding in_window
in_window_before l from [] h = refl
in_window_before l from (t ∷ ts) h = ground (arith, in_window_before l from ts h.1)

-- So are entries after its end.
in_window_after :
    (l : Limit) (from t : ℤ) (n : ℕ)
    → from +ℤ pos (period_ns l) <ℤ t
    → in_window l from (replicate n t) ≡ 0
unfolding in_window
in_window_after l from t zero h = refl
in_window_after l from t (suc n) h = ground (arith, in_window_after l from t n h)

-- What is known of a counter between two requests: `older` are the units that left the log.
record Kept (l : Limit) (now : ℤ) (older log : List ℤ) : Type 0 where
  aged : All (λ t. t ≤ℤ cutoff l now) older
  short : length log ≤ count_of l
  exact : (from : ℤ) → in_window l from older + in_window l from log ≤ count_of l

-- Units that left the window stay out of it.
aged_later :
    (l : Limit) (now : ℤ) (wait : ℕ) (ts : List ℤ)
    → All (λ t. t ≤ℤ cutoff l now) ts
    → All (λ t. t ≤ℤ cutoff l (now +ℤ pos wait)) ts
aged_later l now wait ts = All-map _ _ ts λ t h. omega (
  arith,
  +ℤ_parts now (pos wait),
  +ℤ_parts now (neg (period_ns l)),
  +ℤ_parts (now +ℤ pos wait) (neg (period_ns l)),
)

-- If nothing is left in `older` that a window reaching `now` could hold, the log bounds it; a
-- window that ends before `now` holds what it held before.
extend_exact :
    (l : Limit) (now from : ℤ) (older log : List ℤ) (c : ℕ)
    → All (λ t. t ≤ℤ cutoff l now) older
    → length (log ++ replicate c now) ≤ count_of l
    → in_window l from older + in_window l from log ≤ count_of l
    → in_window l from older + in_window l from (log ++ replicate c now) ≤ count_of l
extend_exact l now from older log c aged short before =
    let to = from +ℤ pos (period_ns l) in
    elim (dec_lt (pos_part to + neg_part now) (pos_part now + neg_part to)) [
      | yes ended ↦
          omega (
            arith,
            in_window-append l from log (replicate c now),
            in_window_after l from now c ended,
          )
      | no reaching ↦
          let gone = in_window_before l from older (
            All-map _ _ older
              (λ t h. omega (
                arith,
                +ℤ_parts from (pos (period_ns l)),
                +ℤ_parts now (neg (period_ns l)),
                neg_parts (period_ns l),
              ))
              aged) in
          omega (arith, in_window-le l from (log ++ replicate c now))
    ]

-- The step of an admitted request.
admit-Kept :
    (l : Limit) (now : ℤ) (older log log' : List ℤ) (c : ℕ)
    → Kept l now older log
    → log' ≡ live l now log ++ replicate c now
    → length log' ≤ count_of l
    → (older' : List ℤ) × Kept l now older' log'
      × ((from : ℤ)
          → in_window l from older' + in_window l from log'
            ≡ in_window l from older + in_window l from log + in_window l from (replicate c now))
admit-Kept l now older log log' c k e short =
    let (old, split, aged) = live_from-split (cutoff l now) log in
    let all_aged = All-append _ older old k.aged aged in
    let same : (from : ℤ)
        → in_window l from (older ++ old) + in_window l from (live l now log)
          ≡ in_window l from older + in_window l from log =
      λ from. omega (
        arith,
        in_window-append l from older old,
        in_window-append l from old (live l now log),
        ap (in_window l from) split,
      ) in
    (
      older ++ old,
      record {
        aged = all_aged;
        short = short;
        exact = λ from. rw e (
            extend_exact l now from (older ++ old) (live l now log) c all_aged (rw e at short)
              (rw (same from) (k.exact from)));
      },
      λ from.
          rw e
            (omega (arith, same from, in_window-append l from (live l now log) (replicate c now))),
    )

serve-Kept :
    (l : Limit) (now : ℤ) (older log : List ℤ) (rs : List (ℕ × ℕ))
    → HasSizes l
    → Kept l now older log
    → IsAskable l rs
    → (more : List ℤ) × (serve l log now rs ≡ some more)
      × ((from : ℤ)
          → in_window l from older + in_window l from log + in_window l from more ≤ count_of l)
unfolding serve in_window
serve-Kept l now older log [] s k a = ([], refl, λ from. omega (arith, k.exact from))
serve-Kept l now older log ((wait, c) ∷ rest) s k a =
    let now' = now +ℤ pos wait in
    let k' : Kept l now' older log = record {
      aged = aged_later l now wait older k.aged;
      short = k.short;
      exact = k.exact;
    } in
    let (log', d, e, admits) = window_check_pruned l log now' c s k.short a.0.0 a.0.1 in
    elim (Bool-cases d.allowed) [
      | inl yes_ ↦
          let (older', next, sums) =
            admit-Kept l now' older log log' c k' (admits.1 yes_) admits.3 in
          let (more, run, bound) = serve-Kept l now' older' log' rest s next a.1 in
          (
            replicate c now' ++ more,
            rw (e, yes_, run),
            λ from.
                omega
                  (arith, bound from, sums from, in_window-append l from (replicate c now') more),
          )
      | inr no_ ↦
          let (more, run, bound) = serve-Kept l now' older log rest s k' a.1 in
          (more, rw (e, no_, run), bound)
    ]

-- For accepted sizes and an empty log, over any sequence of requests of 1 up to `count` units
-- with the clock never going back, no check panics, and every window of the period, wherever it
-- begins, holds at most `count` admitted units.
pub window_exact :
    (l : Limit) (now : ℤ) (rs : List (ℕ × ℕ))
    → HasSizes l
    → IsAskable l rs
    → (admitted : List ℤ) × (serve l [] now rs ≡ some admitted)
      × ((from : ℤ) → in_window l from admitted ≤ count_of l)
unfolding in_window
window_exact l now rs s a =
    let (more, run, bound) =
      serve-Kept l now [] [] rs s
        (record { aged = tt; short = omega arith; exact = λ from. omega arith }) a in
    (more, run, λ from. omega (arith, bound from))
