-- ===== src/Redis/Agreement/Window.antt =====
-- The `sw` branch of check.lua against `windowCheck`: one keeps microseconds, the other instants.
use distributed_rate_limiter.Prelude.{
  ℕ, zero, suc, ◌+◌, ◌-◌, ◌*◌, ◌≤◌, ◌<◌, ◌≡◌, refl, ap, inl, inr, Text, true, Bool-cases, some,
  List, [], ◌∷◌, ◌++◌, map, All, length, get_elem?, replicate, arith, ltb, if◌then◌else◌,
  length-append, length-replicate,
}
use distributed_rate_limiter.Prelude.Int.{
  ℤ, pos, neg, ltb_ℤ, ◌+ℤ◌, ◌-ℤ◌, add-pos, sub-pos, quot64-pos, int_laws, +ℤ_parts, -ℤ_parts,
  sub_time, sub_time-add, neg_parts, add64-pos, sub64-pos,
}
use native.Mathlib.Nat.{mul-div_right}
use distributed_rate_limiter.Limiter.Limit.{Limit, sliding_window}
use distributed_rate_limiter.Limiter.Limit.Sizes.{HasSizes, count_of, period_ns, capacity-count}
use distributed_rate_limiter.Limiter.Window.{window_decide, live_from, reset_after_of, index}
use distributed_rate_limiter.Redis.Script.{Entry, Judged, judge_window, leaves_in, clamp}
use distributed_rate_limiter.Redis.Client.{micros}
use distributed_rate_limiter.Redis.Calls.{entry_as}
use distributed_rate_limiter.Redis.Reply.{decision_of}
use distributed_rate_limiter.Redis.Agreement.Bucket.{thousandfold}

-- The instant of a microsecond of the server's clock, which begins at `u`.
abbrev pub instant : ℤ → ℕ → ℤ
instant u t = u +ℤ pos (1000 * t)

-- The scores that are still inside a window of `p` microseconds.
unfoldable pub young : ℕ → ℕ → List ℕ → List ℕ
young p now [] = []
young p now (t ∷ ts) = if ltb now (t + p) then t ∷ ts else young p now ts

is_young : (p now t : ℕ) → ltb_ℤ (pos now -ℤ pos p) (pos t) ≡ ltb now (t + p)
is_young p now t = ground (arith, -ℤ_parts (pos now) (pos p))

is_live :
    (u : ℤ) (p now t : ℕ) → ltb_ℤ (instant u now +ℤ neg (1000 * p)) (instant u t) ≡ ltb now (t + p)
is_live u p now t = ground (
  arith,
  +ℤ_parts u (pos (1000 * now)),
  +ℤ_parts u (pos (1000 * t)),
  +ℤ_parts (instant u now) (neg (1000 * p)),
  neg_parts (1000 * p),
)

pub live_scores :
    (p now : ℕ) (ts : List ℕ) → live_from (pos now -ℤ pos p) (map pos ts) ≡ map pos (young p now ts)
unfolding live_from young
live_scores p now [] = refl
live_scores p now (t ∷ ts) = elim (Bool-cases (ltb now (t + p))) [
  | inl live ↦ rw (is_young p now t, live) refl
  | inr aged ↦ rw (is_young p now t, aged) (live_scores p now ts)
]

pub live_instants :
    (u : ℤ) (p now : ℕ) (ts : List ℕ)
    → live_from (instant u now +ℤ neg (1000 * p)) (map (instant u) ts)
      ≡ map (instant u) (young p now ts)
unfolding live_from young
live_instants u p now [] = refl
live_instants u p now (t ∷ ts) = elim (Bool-cases (ltb now (t + p))) [
  | inl live ↦ rw (is_live u p now t, live) refl
  | inr aged ↦ rw (is_live u p now t, aged) (live_instants u p now ts)
]

-- In order, none after now, and all inside the window.
abbrev pub AreLive : ℕ → ℕ → List ℕ → Type 0
AreLive p now ts = All (λ t. (t ≤ now) × (now < t + p)) ts

module _ (u : ℤ) (p now t : ℕ) (h : t ≤ now) (k : now < t + p)
    (fits : 1000 * p < 9223372036854775808) where
  leaves : (m : ℤ) → leaves_in (some (pos t)) (pos p) (pos now) m ≡ pos (t + p - now)
  unfolding leaves_in clamp
  leaves m = rw (add-pos t p, sub-pos (t + p) now (omega arith)) (ground arith)

  leaves_instant :
      sub_time (instant u t +ℤ pos (1000 * p)) (instant u now) ≡ pos (1000 * (t + p - now))
  leaves_instant =
      let later : instant u t +ℤ pos (1000 * p) ≡ instant u now +ℤ pos (1000 * (t + p - now)) =
        omega int_laws in
      rw later (sub_time-add (instant u now) (1000 * (t + p - now)) (omega arith))

pub length-map : {A B : Type 0} (f : A → B) (xs : List A) → length (map f xs) ≡ length xs
length-map f [] = refl
length-map f (x ∷ xs) = ap suc (length-map f xs)

get_elem?-map :
    {A B : Type 0} (f : A → B) (xs : List A) (i : ℕ) (a : A)
    → get_elem? xs i ≡ some a
    → get_elem? (map f xs) i ≡ some (f a)
get_elem?-map f [] i a h = cc
get_elem?-map f (x ∷ xs) zero a h = ground (arith, h)
get_elem?-map f (x ∷ xs) (suc i) a h = get_elem?-map f xs i a h

All-get_elem? :
    (P : ℕ → Type 0) (xs : List ℕ) (i : ℕ)
    → All P xs
    → i < length xs
    → (a : ℕ) × (get_elem? xs i ≡ some a) × P a
All-get_elem? P [] i h k = absurd (omega arith)
All-get_elem? P (x ∷ xs) zero h k = (x, refl, h.0)
All-get_elem? P (x ∷ xs) (suc i) h k = All-get_elem? P xs i h.1 (omega arith)

-- What the script reads of the live scores: how many, the oldest, and the one that makes room.
abbrev pub of_scores : List ℕ → ℕ → ℕ → Entry → ℕ → Judged
of_scores ts now c x n =
    judge_window (pos (length (map pos ts))) (index (map pos ts) (pos 0))
      (index (map pos ts) (pos (length (map pos ts)) +ℤ pos c -ℤ pos n -ℤ pos 1)) (pos now) (pos c)
      x

room : (a b : ℕ) → b ≤ a → clamp (pos a -ℤ pos b) ≡ pos (a - b)
unfolding clamp
room a b h = rw (sub-pos a b h) (ground arith)

-- When the oldest entry leaves, and `m` without one.
wait_us : ℕ → ℕ → ℕ → List ℕ → ℕ
wait_us p now m [] = m
wait_us p now m (t ∷ ts) = t + p - now

module _ (l : Limit) (s : HasSizes l) (p now : ℕ) (u : ℤ) (key : Text)
    (period : l.period ≡ pos (1000 * p)) where
  p_upper : 1000 * p ≤ 86400000000000
  p_upper = let e : period_ns l ≡ 1000 * p = rw period refl in omega (arith, s.period_upper, e)

  period_fits : 1000 * p < 9223372036854775808
  period_fits = omega (arith, p_upper)

  pub entry_p : (entry_as sliding_window key l).a ≡ pos p
  unfolding entry_as micros
  entry_p =
      rw (period, quot64-pos (1000 * p) 1000 period_fits) (ap pos (mul-div_right p (omega arith)))

  pub entry_n : (entry_as sliding_window key l).b ≡ pos (count_of l)
  unfolding entry_as
  entry_n = s.count_pos

  wait_us-le : (m : ℕ) (ts : List ℕ) → AreLive p now ts → m ≤ p → wait_us p now m ts ≤ p
  unfolding wait_us
  wait_us-le m [] h k = k
  wait_us-le m (t ∷ ts) h k = omega (arith, h.0)

  leaves_oldest :
      (m : ℕ) (ts : List ℕ)
      → AreLive p now ts
      → leaves_in (get_elem? (map pos ts) 0) (pos p) (pos now) (pos m) ≡ pos (wait_us p now m ts)
  unfolding wait_us leaves_in
  leaves_oldest m [] h = refl
  leaves_oldest m (t ∷ ts) h = leaves u p now t h.0.0 h.0.1 period_fits (pos m)

  reset_oldest :
      (ts : List ℕ)
      → AreLive p now ts
      → reset_after_of l (map (instant u) ts) (instant u now) ≡ pos (1000 * wait_us p now 0 ts)
  unfolding wait_us reset_after_of
  reset_oldest [] h = refl
  reset_oldest (t ∷ ts) h = rw period (leaves_instant u p now t h.0.0 h.0.1 period_fits)

  admitted_oldest :
      (c : ℕ) (ts : List ℕ)
      → AreLive p now ts
      → 0 < c
      → (o : ℤ) × (get_elem? (map (instant u) ts ++ replicate c (instant u now)) 0 ≡ some o)
        × (sub_time (o +ℤ l.period) (instant u now) ≡ pos (1000 * wait_us p now p ts))
  unfolding wait_us
  admitted_oldest zero [] h k = absurd (omega arith)
  admitted_oldest (suc c) [] h k =
      (instant u now, refl, rw period (sub_time-add (instant u now) (1000 * p) period_fits))
  admitted_oldest c (t ∷ ts) h k =
      (instant u t, refl, rw period (leaves_instant u p now t h.0.0 h.0.1 period_fits))

  module _ (alg : l.algorithm ≡ sliding_window) (ts : List ℕ) (live : AreLive p now ts)
      (few : length ts ≤ count_of l) where
    pub window_peek :
        window_decide l (map (instant u) ts) (instant u now) (pos 0)
        ≡ some (
          map (instant u) ts,
          decision_of true l (of_scores ts now 0 (entry_as sliding_window key l) (count_of l)),
        )
    unfolding window_decide decision_of judge_window
    window_peek = ground (
      arith,
      entry_p,
      entry_n,
      s.count_pos,
      length-map (instant u) ts,
      length-map pos ts,
      capacity-count l alg,
      leaves_oldest 0 ts live,
      reset_oldest ts live,
      sub64-pos (count_of l) (length ts) few (omega (arith, s.count_upper)),
      room (count_of l) (length ts) few,
      thousandfold (wait_us p now 0 ts) p (wait_us-le 0 ts live (omega arith)) period_fits,
      thousandfold 0 p (omega arith) period_fits,
    )

    module _ (c : ℕ) (pos_c : 0 < c) (k : c ≤ count_of l) where
      making_room : ℕ
      making_room = length ts + c - count_of l - 1

      script_index :
          count_of l < length ts + c
          → pos (length ts) +ℤ pos c -ℤ pos (count_of l) -ℤ pos 1 ≡ pos making_room
      unfolding making_room
      script_index over =
          rw
            (
              add-pos (length ts) c,
              sub-pos (length ts + c) (count_of l) (omega arith),
              sub-pos (length ts + c - count_of l) 1 (omega arith),
            )
            refl

      pub window_refused :
          count_of l < length ts + c
          → window_decide l (map (instant u) ts) (instant u now) (pos c)
            ≡ some (
              map (instant u) ts,
              decision_of true l (of_scores ts now c (entry_as sliding_window key l) (count_of l)),
            )
      unfolding window_decide decision_of judge_window making_room
      window_refused over =
          let (t, at, (le, lt)) = All-get_elem? _ ts making_room live (omega arith) in
          ground (
            arith,
            entry_p,
            entry_n,
            s.count_pos,
            period,
            length-map (instant u) ts,
            length-map pos ts,
            capacity-count l alg,
            leaves_oldest 0 ts live,
            reset_oldest ts live,
            script_index over,
            get_elem?-map (instant u) ts making_room t at,
            get_elem?-map pos ts making_room t at,
            leaves u p now t le lt period_fits (pos p),
            leaves_instant u p now t le lt period_fits,
            add-pos (length ts) c,
            add64-pos (length ts) c (omega (arith, s.count_upper)),
            sub64-pos (length ts + c) (count_of l) (omega arith) (omega (arith, s.count_upper)),
            sub64-pos (length ts + c - count_of l) 1 (omega arith) (omega (arith, s.count_upper)),
            sub64-pos (count_of l) (length ts) few (omega (arith, s.count_upper)),
            room (count_of l) (length ts) few,
            thousandfold (wait_us p now 0 ts) p (wait_us-le 0 ts live (omega arith)) period_fits,
            thousandfold (t + p - now) p (omega arith) period_fits,
          )

      pub window_admitted :
          length ts + c ≤ count_of l
          → window_decide l (map (instant u) ts) (instant u now) (pos c)
            ≡ some (
              map (instant u) ts ++ replicate c (instant u now),
              decision_of true l (of_scores ts now c (entry_as sliding_window key l) (count_of l)),
            )
      unfolding window_decide decision_of judge_window
      window_admitted fits =
          let (o, at, wait) = admitted_oldest c ts live pos_c in
          let len : length (map (instant u) ts ++ replicate c (instant u now)) ≡ length ts + c =
            omega (
              arith,
              length-append (map (instant u) ts) (replicate c (instant u now)),
              length-replicate c (instant u now),
              length-map (instant u) ts,
            ) in
          ground (
            arith,
            entry_p,
            entry_n,
            s.count_pos,
            length-map (instant u) ts,
            length-map pos ts,
            capacity-count l alg,
            leaves_oldest p ts live,
            at,
            wait,
            len,
            add-pos (length ts) c,
            add64-pos (length ts) c (omega (arith, s.count_upper)),
            sub64-pos (count_of l) (length ts + c) fits (omega (arith, s.count_upper)),
            sub-pos (count_of l) (length ts) few,
            room (count_of l - length ts) c (omega arith),
            thousandfold 0 p (omega arith) period_fits,
            thousandfold (wait_us p now p ts) p (wait_us-le p ts live (omega arith)) period_fits,
          )
