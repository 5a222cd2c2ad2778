-- ===== src/Limiter/Window/Log.antt =====
-- What `windowCheck` computes, in natural numbers, and the order of the log.
use distributed_rate_limiter.Prelude.{
  ℕ, ◌↔◌, ◌+◌, ◌-◌, ◌≤◌, ◌<◌, ◌≡◌, refl, ap, some, arith, true, false, List, [], ◌∷◌, ◌++◌, All,
  Bool-cases, inl, inr, length, get_elem?, replicate, length-append, length-replicate,
  get_elem?-some,
}
use distributed_rate_limiter.Prelude.Int.{
  ℤ, pos, neg, ltb_ℤ, ◌≤ℤ◌, ◌<ℤ◌, ◌+ℤ◌, neg64, sub_time, add_time, add64-pos, sub64-pos, neg64-pos,
}
use native.Mathlib.Decide.{dec_le}
use distributed_rate_limiter.Limiter.Limit.{Limit}
use distributed_rate_limiter.Limiter.Limit.Sizes.{HasSizes, count_of, period_ns}
use distributed_rate_limiter.Limiter.Request.{Decision}
use distributed_rate_limiter.Limiter.Window.{
  live_from, reset_after_of, told, window_decide, window_check,
}

-- The instant before which an entry has aged out.
abbrev pub cutoff : Limit → ℤ → ℤ
cutoff l now = now +ℤ neg (period_ns l)

abbrev pub live : Limit → ℤ → List ℤ → List ℤ
live l now log = live_from (cutoff l now) log

pub cutoff_lem : (l : Limit) (now : ℤ) → HasSizes l → add_time now (neg64 l.period) ≡ cutoff l now
cutoff_lem l now s = rw (s.period_pos, neg64-pos (period_ns l) (omega arith))

-- What is dropped has aged out.
pub live_from-split :
    (at : ℤ) (log : List ℤ)
    → (old : List ℤ) × (log ≡ old ++ live_from at log) × All (λ t. t ≤ℤ at) old
unfolding live_from
live_from-split at [] = ([], refl, tt)
live_from-split at (t ∷ log) = elim (Bool-cases (ltb_ℤ at t)) [
  | inl young ↦ ([], rw young, tt)
  | inr aged ↦
      let (old, e, all) = live_from-split at log in
      (t ∷ old, rw aged (ap (◌∷◌ t) e), (ground arith, all))
]

pub length-live_from-le : (at : ℤ) (log : List ℤ) → length (live_from at log) ≤ length log
unfolding live_from
length-live_from-le at [] = omega arith
length-live_from-le at (t ∷ log) = ground (arith, length-live_from-le at log)

-- What `windowCheck` does to a log of live entries.
abbrev pub Admits : Limit → List ℤ → ℤ → ℕ → List ℤ → Decision → Type 0
Admits l log now c log' d =
    ((d.allowed ≡ true) ↔ (length log + c ≤ count_of l))
    × (d.allowed ≡ true → log' ≡ log ++ replicate c now)
    × (d.allowed ≡ false → log' ≡ log)
    × (length log' ≤ count_of l)
    × (d.remaining ≡ pos (count_of l - length log'))

abbrev refusal : Limit → List ℤ → ℤ → ℕ → ℤ → Decision
refusal l log now c oldest =
    told l false (pos (count_of l - length log)) (sub_time (oldest +ℤ l.period) now)
      (reset_after_of l log now)

module _ (l : Limit) (log : List ℤ) (now : ℤ) (c : ℕ) (s : HasSizes l) (h : length log ≤ count_of l)
    (pos_c : 0 < c) (k : c ≤ count_of l) where
  decide_fits :
      length log + c ≤ count_of l
      → (log' : List ℤ) × (d : Decision) × (window_decide l log now (pos c) ≡ some (log', d))
        × Admits l log now c log' d
  unfolding window_decide
  decide_fits fits =
      let len : length (log ++ replicate c now) ≡ length log + c =
        omega (arith, length-append log (replicate c now), length-replicate c now) in
      let (oldest, e) = get_elem?-some (log ++ replicate c now) 0 (omega arith) in
      (
        log ++ replicate c now,
        told l true (pos (count_of l - (length log + c))) (pos 0)
            (sub_time (oldest +ℤ l.period) now),
        ground (
          arith,
          s.count_pos,
          len,
          e,
          add64-pos (length log) c (omega (arith, s.count_upper)),
          sub64-pos (count_of l) (length (log ++ replicate c now)) (omega arith)
              (omega (arith, s.count_upper)),
        ),
        (ground arith, λ _. refl, λ no_. cc, omega arith, rw len),
      )

  decide_refusal :
      count_of l < length log + c
      → (oldest : ℤ) → get_elem? log (length log + c - count_of l - 1) ≡ some oldest
      → window_decide l log now (pos c) ≡ some (log, refusal l log now c oldest)
  unfolding window_decide
  decide_refusal over oldest e = ground (
    arith,
    s.count_pos,
    e,
    add64-pos (length log) c (omega (arith, s.count_upper)),
    sub64-pos (count_of l) (length log) h (omega (arith, s.count_upper)),
    sub64-pos (length log + c) (count_of l) (omega arith) (omega (arith, s.count_upper)),
    sub64-pos (length log + c - count_of l) 1 (omega arith) (omega (arith, s.count_upper)),
  )

  decide_over :
      count_of l < length log + c
      → (log' : List ℤ) × (d : Decision) × (window_decide l log now (pos c) ≡ some (log', d))
        × Admits l log now c log' d
  decide_over over =
      let (oldest, e) = get_elem?-some log (length log + c - count_of l - 1) (omega arith) in
      (
        log,
        refusal l log now c oldest,
        decide_refusal over oldest e,
        (ground arith, λ yes_. cc, λ _. refl, h, refl),
      )

-- `windowCheck`, with its loop over the log.
pub window_check_pruned :
    (l : Limit) (log : List ℤ) (now : ℤ) (c : ℕ)
    → HasSizes l
    → length log ≤ count_of l
    → 0 < c
    → c ≤ count_of l
    → (log' : List ℤ) × (d : Decision) × (window_check l log now (pos c) ≡ some (log', d))
      × Admits l (live l now log) now c log' d
unfolding window_check
window_check_pruned l log now c s h pos_c k =
    let fewer : length (live l now log) ≤ count_of l =
      omega (arith, length-live_from-le (cutoff l now) log) in
    rw (cutoff_lem l now s) (elim (dec_le (length (live l now log) + c) (count_of l)) [
      | yes fits ↦ decide_fits l (live l now log) now c s fewer pos_c k fits
      | no over ↦ decide_over l (live l now log) now c s fewer pos_c k (omega arith)
    ])

-- What is left of a log: the entries at its front that aged out are gone, up to the first one that
-- has not.
abbrev pub IsPruned : Limit → ℤ → List ℤ → List ℤ → Type 0
IsPruned l now log kept =
    ((old : List ℤ) × (log ≡ old ++ kept) × All (λ t. t ≤ℤ cutoff l now) old)
    × ((t : ℤ) (rest : List ℤ) → kept ≡ t ∷ rest → cutoff l now <ℤ t)

live_from-young :
    (at : ℤ) (log : List ℤ) (t : ℤ) (rest : List ℤ) → live_from at log ≡ t ∷ rest → at <ℤ t
unfolding live_from
live_from-young at [] t rest e = cc
live_from-young at (x ∷ log) t rest e = elim (Bool-cases (ltb_ℤ at x)) [
  | inl young ↦ let same : x ≡ t = cc in ground arith
  | inr aged ↦ live_from-young at log t rest (cc)
]

-- For an accepted sliding window over a log no longer than the count, in order or not, a check of 1
-- up to `count` units never panics. It lets go of the entries at the front of the log that aged
-- out, up to the first one still inside the window, and of no other. It admits exactly when the
-- units fit beside the entries that are left; it appends one entry for each unit if admitted, and
-- none else; the log stays within the count, and the remaining units are those it leaves.
pub window_check-Admits :
    (l : Limit) (log : List ℤ) (now : ℤ) (c : ℕ)
    → HasSizes l
    → length log ≤ count_of l
    → 0 < c
    → c ≤ count_of l
    → (kept : List ℤ) × IsPruned l now log kept
      × (log' : List ℤ) × (d : Decision) × (window_check l log now (pos c) ≡ some (log', d))
      × Admits l kept now c log' d
window_check-Admits l log now c s h pos_c k =
    let (log', d, e, a) = window_check_pruned l log now c s h pos_c k in
    (
      live l now log,
      (live_from-split (cutoff l now) log, live_from-young (cutoff l now) log),
      log',
      d,
      e,
      a,
    )

-- What a refusal reports: the wait until the entry whose leaving makes room has left.
pub window_check_over :
    (l : Limit) (log : List ℤ) (now : ℤ) (c : ℕ)
    → HasSizes l
    → length (live l now log) ≤ count_of l
    → 0 < c
    → c ≤ count_of l
    → count_of l < length (live l now log) + c
    → (oldest : ℤ) × (get_elem? (live l now log) (length (live l now log) + c - count_of l - 1)
        ≡ some oldest)
      × (log' : List ℤ) × (d : Decision) × (window_check l log now (pos c) ≡ some (log', d))
      × (d.retry_after ≡ sub_time (oldest +ℤ l.period) now)
unfolding window_check
window_check_over l log now c s h pos_c k over =
    let (oldest, e) =
      get_elem?-some (live l now log) (length (live l now log) + c - count_of l - 1)
        (omega arith) in
    (
      oldest,
      e,
      live l now log,
      refusal l (live l now log) now c oldest,
      rw (cutoff_lem l now s) (decide_refusal l (live l now log) now c s h pos_c k over oldest e),
      refl,
    )
