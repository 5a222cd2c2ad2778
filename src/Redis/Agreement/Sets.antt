-- ===== src/Redis/Agreement/Sets.antt =====
-- A sliding window of check.lua, with its sorted set, against the log of `windowCheck`.
use distributed_rate_limiter.Prelude.{
  ℕ, ◌+◌, ◌*◌, ◌≤◌, ◌<◌, ◌≡◌, refl, ap, sym, ◌∙◌, inl, inr, Text, Bool, true, ◌&&◌, Bool-cases,
  some, List, [], ◌∷◌, ◌++◌, map, All, length, replicate, arith, ltb, leb, if◌then◌else◌, text_eq,
}
use distributed_rate_limiter.Prelude.Int.{
  ℤ, pos, pos_part, neg, add-pos, ◌+ℤ◌, ◌-ℤ◌, add_time, neg64,
}
use mathlib.Core.Path.{subst}
use distributed_rate_limiter.Limiter.Limit.{Limit, sliding_window}
use distributed_rate_limiter.Limiter.Limit.Sizes.{HasSizes, count_of}
use distributed_rate_limiter.Limiter.Window.{window_check, window_decide, live_from, index}
use distributed_rate_limiter.Limiter.Window.Log.{cutoff_lem}
use distributed_rate_limiter.Redis.Commands.{Server}
use distributed_rate_limiter.Redis.Script.{Judged, judge, judge_window}
use distributed_rate_limiter.Redis.Calls.{entry_as}
use distributed_rate_limiter.Redis.Reply.{decision_of}
use distributed_rate_limiter.Redis.Agreement.Bucket.{le_or_lt}
use distributed_rate_limiter.Redis.Agreement.Window.{
  length-map, instant, young, AreLive, of_scores, live_scores, live_instants, entry_p, entry_n,
  window_peek, window_refused, window_admitted,
}

-- What the commands on a sorted set answer, from its scores in order: those above a bound are the
-- end of the list, and an index counts from the lowest of them.
pub record HasSets (R : Server) (scores : R.State → Text → List ℕ) : Type 0 where
  pub zcount_above-scores :
      (s : R.State) (k : Text) (low : ℤ)
      → R.zcount_above s k low ≡ length (live_from low (map pos (scores s k)))
  pub zscore_above-scores :
      (s : R.State) (k : Text) (low i : ℤ)
      → R.zscore_above s k low i ≡ index (live_from low (map pos (scores s k))) i

judge_sliding :
    (R : Server) (s : R.State) (now cost : ℤ) (key : Text) (l : Limit)
    → judge R s now cost (entry_as sliding_window key l) ≡ (
        let e = entry_as sliding_window key l in
        let used = pos (R.zcount_above s key (now -ℤ e.a)) in
        some (
          judge_window used
            (R.zscore_above s key (now -ℤ e.a) (pos 0))
            (R.zscore_above s key (now -ℤ e.a) (used +ℤ cost -ℤ e.b -ℤ pos 1))
            now
            cost
            e))
unfolding judge entry_as text_eq
judge_sliding R s now cost key l = refl

-- Each score is at most the next.
abbrev pub IsAscending : List ℕ → Type 0
IsAscending [] = Unit
IsAscending (t ∷ ts) = All (λ x. t ≤ x) ts × IsAscending ts

all_live :
    (p now t : ℕ) (ts : List ℕ)
    → now < t + p
    → All (λ x. t ≤ x) ts
    → All (λ x. x ≤ now) ts
    → AreLive p now ts
all_live p now t [] h above before = tt
all_live p now t (x ∷ ts) h above before =
    ((before.0, omega (arith, above.0)), all_live p now t ts h above.1 before.1)

young-AreLive :
    (p now : ℕ) (ts : List ℕ)
    → IsAscending ts
    → All (λ x. x ≤ now) ts
    → AreLive p now (young p now ts)
unfolding young
young-AreLive p now [] h before = tt
young-AreLive p now (t ∷ ts) h before = elim (Bool-cases (ltb now (t + p))) [
  | inl live ↦
      let lt : now < t + p = ground (arith, live) in
      rw live ((before.0, lt), all_live p now t ts lt h.0 before.1)
  | inr aged ↦ rw aged (young-AreLive p now ts h.1 before.1)
]

-- What a window holds after a check: the live entries, with one more for each unit let in.
abbrev pub kept_log : ℤ → ℕ → ℕ → Bool → List ℕ → List ℤ
kept_log u now c admitted live =
    if admitted then map (instant u) live ++ replicate c (instant u now) else map (instant u) live

module _ (l : Limit) (s : HasSizes l) (alg : l.algorithm ≡ sliding_window) (p : ℕ)
    (period : l.period ≡ pos (1000 * p)) (u : ℤ) (key : Text) (now c : ℕ)
    (cost : c ≤ count_of l) where
  decide_agrees :
      (ts : List ℕ)
      → AreLive p now ts
      → length ts ≤ count_of l
      → (log' : List ℤ) × (window_decide l (map (instant u) ts) (instant u now) (pos c)
          ≡ some (
            log',
            decision_of true l (of_scores ts now c (entry_as sliding_window key l) (count_of l)),
          ))
        × (log' ≡ kept_log u now c (ltb 0 c && leb (length ts + c) (count_of l)) ts)
  decide_agrees ts live few = elim (le_or_lt c 0) [
    | inl none_ ↦
        let zero_cost : 0 ≡ c = omega arith in
        subst
          (λ n.
            (log' : List ℤ) × (window_decide l (map (instant u) ts) (instant u now) (pos n)
              ≡ some (
                log',
                decision_of true l
                    (of_scores ts now n (entry_as sliding_window key l) (count_of l)),
              ))
            × (log' ≡ kept_log u now n (ltb 0 n && leb (length ts + n) (count_of l)) ts))
          zero_cost (_, window_peek l s p now u key period alg ts live few, refl)
    | inr some_ ↦ elim (le_or_lt (length ts + c) (count_of l)) [
      | inl fits ↦ (
        _,
        window_admitted l s p now u key period alg ts live few c some_ cost fits,
        ground arith,
      )
      | inr over ↦
          (_, window_refused l s p now u key period alg ts live few c some_ cost over, ground arith)
    ]
  ]

  scores_allowed :
      (ts : List ℕ)
      → (ltb 0 c && (of_scores ts now c (entry_as sliding_window key l) (count_of l)).allowed)
        ≡ (ltb 0 c && leb (length ts + c) (count_of l))
  unfolding judge_window
  scores_allowed ts =
      ground (arith, entry_n l s p now u key period, length-map pos ts, add-pos (length ts) c)

  judge_scores :
      (R : Server) (scores : R.State → Text → List ℕ)
      → HasSets R scores
      → (st : R.State)
      → judge R st (pos now) (pos c) (entry_as sliding_window key l)
        ≡ some (
            of_scores
              (young p now (scores st key))
              now
              c
              (entry_as sliding_window key l)
              (count_of l))
  judge_scores R scores L st =
      judge_sliding R st (pos now) (pos c) key l
      ∙ rw
          (
            entry_p l s p now u key period,
            entry_n l s p now u key period,
            L.zcount_above-scores,
            L.zscore_above-scores,
            L.zscore_above-scores,
            live_scores p now (scores st key),
          )
          refl

  -- For an accepted sliding window whose period is a whole number of microseconds, over a sorted
  -- set with the scores of the log, in order and none after now, with no more live ones than the
  -- count, and for a cost within the count: the script decides as `windowCheck` does, the same
  -- admission, remaining units and waits, its microseconds read as nanoseconds; and the log that
  -- `windowCheck` returns has the live entries, with one for each unit if they are let in.
  pub window_agrees :
      (R : Server) (scores : R.State → Text → List ℕ)
      → HasSets R scores
      → (st : R.State) → IsAscending (scores st key)
      → All (λ t. t ≤ now) (scores st key)
      → length (young p now (scores st key)) ≤ count_of l
      → (j : Judged) × (log' : List ℤ) × (judge R st
            (pos now)
            (pos c)
            (entry_as sliding_window key l)
          ≡ some j)
        × (window_check l (map (instant u) (scores st key)) (instant u now) (pos c)
            ≡ some (log', decision_of true l j))
        × (log' ≡ kept_log u now c (ltb 0 c && j.allowed) (young p now (scores st key)))
  unfolding window_check
  window_agrees R scores L st ascending before few =
      let ts = young p now (scores st key) in
      let live = young-AreLive p now (scores st key) ascending before in
      let (log', e, kept) = decide_agrees ts live few in
      let at : add_time (instant u now) (neg64 l.period) ≡ instant u now +ℤ neg (1000 * p) =
        cutoff_lem l (instant u now) s ∙ ap (λ z. instant u now +ℤ neg (pos_part z)) period in
      (
        _,
        log',
        judge_scores R scores L st,
        rw (window_check, at, live_instants u p now (scores st key)) e,
        kept ∙ ap (λ b. kept_log u now c b ts) (sym (scores_allowed ts)),
      )
