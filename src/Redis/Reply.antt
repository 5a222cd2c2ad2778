-- ===== src/Redis/Reply.antt =====
-- The reply of internal/limiter/redis/check.lua and what `parseResult` in redis.go makes of it.
use distributed_rate_limiter.Prelude.{
  suc, ◌+◌, ◌*◌, ◌≡◌, refl, ap, inl, inr, Bool, true, false, Bool-cases, ◌&&◌, Option-cases, Option,
  none, some, List, [], ◌∷◌, map, All, length, Text, text_eq, arith, List-cases, if◌then◌else◌,
  ◌==◌,
}
use mathlib.Core.Path.{subst}
use distributed_rate_limiter.Prelude.Int.{ℤ, pos, ltb_ℤ, ◌==ℤ◌, mul64}
use distributed_rate_limiter.Limiter.Limit.{
  Limit, Algorithm, token_bucket, sliding_window, other, validate, capacity, is_known,
}
use distributed_rate_limiter.Limiter.Limit.Key.{key, meta_key}
use distributed_rate_limiter.Limiter.Request.{Request, Result, Decision, effective_cost}
use distributed_rate_limiter.Redis.Commands.{Server}
use distributed_rate_limiter.Redis.Script.{
  Prefix, Entry, Judged, judge, judge_all, allowed_all, flag, consumes, reported, reported_all,
  answer, decide, noted, clock_of,
}
use distributed_rate_limiter.Redis.Client.{
  RedisError, invalid, cost_exceeds_capacity, unknown_algorithm, unreachable, malformed,
  policy_stale, store_reset, Outcome, answered, failed, panicked, delivered, read_decisions,
  read_decision, read_sized, read_body, parse_result, to_int, result_of, refuse_limits, check,
}
use distributed_rate_limiter.Redis.Calls.{
  entry_as, entries_of, ran, prefix_of, accepted_limits, validate-is_known, check_checked,
  check_unchecked, check_no_limits, check_sent-ran,
}
use distributed_rate_limiter.Redis.Traffic.{run_parsed-cases, stale-failed, reset-failed}

-- The decision that a limit's four values stand for.
unfoldable pub decision_of : Bool → Limit → Judged → Decision
decision_of after l j = record {
  name = l.name;
  allowed = j.allowed;
  limit = capacity l;
  remaining = if after then j.remaining_after else j.remaining_now;
  retry_after = mul64 j.retry (pos 1000);
  reset_after = mul64 (if after then j.reset_after else j.reset_now) (pos 1000);
}

unfoldable pub decisions_of : Bool → List Limit → List Judged → List Decision
unfolding decision_of
decisions_of after [] js = []
decisions_of after (l ∷ ls) [] = []
decisions_of after (l ∷ ls) (j ∷ js) = decision_of after l j ∷ decisions_of after ls js

flag_lem : (b : Bool) → (flag b ==ℤ pos 1) ≡ b
unfolding flag
flag_lem true = refl
flag_lem false = refl

read_decisions-reported_all :
    (after : Bool) (ls : List Limit) (js : List Judged)
    → length js ≡ length ls
    → read_decisions ls (reported_all after js) ≡ answered (decisions_of after ls js)
unfolding read_decisions reported_all reported decisions_of decision_of read_decision to_int
read_decisions-reported_all after [] js h = refl
read_decisions-reported_all after (l ∷ ls) [] h = cc
read_decisions-reported_all after (l ∷ ls) (j ∷ js) h =
    rw (read_decisions-reported_all after ls js (omega arith), flag_lem j.allowed) refl

length-reported_all :
    (after : Bool) (js : List Judged) → length (reported_all after js) ≡ 4 * length js
unfolding reported_all reported
length-reported_all after [] = refl
length-reported_all after (j ∷ js) = omega (arith, length-reported_all after js)

-- Reading a reply gives back what the script decided, with the limits' names and capacities.
pub parse_result-answer :
    (p : Prefix) (js : List Judged) (req : Request)
    → length js ≡ length req.limits
    → parse_result (answer p js) req
      ≡ answered (result_of (allowed_all js) (decisions_of (consumes p js) req.limits js))
unfolding parse_result answer read_body read_sized to_int
parse_result-answer p js req h =
    let len : (suc (length (reported_all (consumes p js) js)) == 1 + 4 * length req.limits) ≡ true =
      ground (arith, length-reported_all (consumes p js) js) in
    rw (len, read_decisions-reported_all (consumes p js) req.limits js h, flag_lem (allowed_all js))
      refl

judge-some :
    (R : Server) (s : R.State) (now cost : ℤ) (a : Algorithm) (k : Text) (l : Limit)
    → is_known a ≡ true
    → (j : Judged) × (judge R s now cost (entry_as a k l) ≡ some j)
unfolding judge entry_as text_eq
judge-some R s now cost token_bucket k l h = (_, refl)
judge-some R s now cost sliding_window k l h = (_, refl)
judge-some R s now cost (other a) k l h = cc

-- The script decides about every limit that is accepted.
pub judge_all-some :
    (R : Server) (s : R.State) (now cost : ℤ) (sha256 : Text → Text) (tenant : Text)
    → (ls : List Limit) → All (λ l. validate l ≡ none) ls
    → (js : List Judged) × (judge_all R s now cost (entries_of sha256 tenant ls) ≡ some js)
      × (length js ≡ length ls)
unfolding judge_all entries_of
judge_all-some R s now cost sha256 tenant [] h = ([], refl, refl)
judge_all-some R s now cost sha256 tenant (l ∷ ls) h =
    let (j, e) =
      judge-some R s now cost l.algorithm (key sha256 l tenant) l (validate-is_known l h.0) in
    let (js, es, len) = judge_all-some R s now cost sha256 tenant ls h.1 in
    (j ∷ js, rw (e, es) refl, ap suc len)

pub decide-answer :
    (R : Server) (s : R.State) (p : Prefix) (es : List Entry) (js : List Judged)
    → judge_all R s (clock_of R s p) p.cost es ≡ some js
    → (decide R s p es).1 ≡ answer p js
unfolding decide
decide-answer R s p es js h = rw (decide, h) refl

-- Every decision allows the request.
all_decided : List Decision → Bool
all_decided [] = true
all_decided (d ∷ ds) = d.allowed && all_decided ds

decisions_of-names :
    (after : Bool) (ls : List Limit) (js : List Judged)
    → length js ≡ length ls
    → (map (λ (d : Decision). d.name) (decisions_of after ls js) ≡ map (λ (l : Limit). l.name) ls)
      × (allowed_all js ≡ all_decided (decisions_of after ls js))
unfolding decisions_of decision_of all_decided allowed_all
decisions_of-names after [] [] h = (refl, refl)
decisions_of-names after [] (j ∷ js) h = cc
decisions_of-names after (l ∷ ls) [] h = cc
decisions_of-names after (l ∷ ls) (j ∷ js) h =
    let (names, all) = decisions_of-names after ls js (omega arith) in
    (ap (◌∷◌ l.name) names, ap (◌&&◌ j.allowed) all)

-- What a caller can be told when its call reaches the server and comes back: a decision for each
-- limit in order, all of them together allowing the request or not; or one of the refusals that
-- are its own to understand.
unfoldable pub Understood : Request → Outcome Result → Type 0
unfolding all_decided
Understood req (answered res) =
    (map (λ (d : Decision). d.name) res.decisions ≡ map (λ (l : Limit). l.name) req.limits)
    × (res.allowed ≡ all_decided res.decisions)
Understood req (failed (invalid e)) = Unit
Understood req (failed cost_exceeds_capacity) = Unit
Understood req (failed (policy_stale sent stored)) = sent ≡ req.policy_gen
Understood req (failed (store_reset sent stored)) = sent ≡ req.store_gen
Understood req (failed unknown_algorithm) = ⊥
Understood req (failed unreachable) = ⊥
Understood req (failed malformed) = ⊥
Understood req panicked = ⊥

refused_limits-Understood :
    (cost : ℤ) (ls : List Limit) (req : Request) (e : RedisError)
    → refuse_limits cost ls ≡ some e
    → Understood req (failed e)
unfolding refuse_limits Understood
refused_limits-Understood cost [] req e h = cc
refused_limits-Understood cost (l ∷ ls) req e h = elim (Option-cases (validate l)) [
  | inr (v, bad) ↦
      let eq : invalid v ≡ e = ground (arith, h, bad) in
      subst (λ x. Understood req (failed x)) eq tt
  | inl fine ↦ elim (Bool-cases (ltb_ℤ (capacity l) cost)) [
    | inl over ↦
        let eq : cost_exceeds_capacity ≡ e = ground (arith, h, fine, over) in
        subst (λ x. Understood req (failed x)) eq tt
    | inr under ↦ refused_limits-Understood cost ls req e (ground (arith, h, fine, under))
  ]
]

module _ (R : Server) (sha256 : Text → Text) (clock : Option ℤ) where
  ran-Understood :
      (s : R.State) (req : Request)
      → All (λ l. validate l ≡ none) req.limits
      → Understood req (parse_result (ran sha256 R clock s req).1 req)
  unfolding Understood
  ran-Understood s req h =
      let p = prefix_of clock req (effective_cost req) in
      let es = entries_of sha256 req.tenant req.limits in
      let meta = meta_key req.tenant in
      elim (run_parsed-cases R s meta p es) [
        | inl (v, e) ↦ rw (e, reset-failed req v) refl
        | inr (inl (v, e)) ↦ rw (e, stale-failed req v) refl
        | inr (inr (recent, e)) ↦
            let s' = noted R s meta p in
            let (js, judged, len) =
              judge_all-some R s' (clock_of R s' p) p.cost sha256 req.tenant req.limits h in
            let (names, all) = decisions_of-names (consumes p js) req.limits js len in
            rw (e, decide-answer R s' p es js judged, parse_result-answer p js req len) (names, all)
      ]

  -- A call that reaches the server and comes back, and whose run no command stops with an error (each
  -- key holds a value of the type that the script writes there, a number where it reads one, and the
  -- server has memory for the writes), is never unreadable, whatever those values are: the caller
  -- is told a decision for each limit in the request's order, and that the request is
  -- allowed exactly if all of them allow it; or that a limit or the cost is invalid; or that one
  -- of the generations that it sent is not the one in force.
  pub check-Understood :
      (s : R.State) (req : Request) → Understood req (check sha256 R clock delivered s req).1
  unfolding Understood all_decided
  check-Understood s req = elim (Option-cases (refuse_limits (effective_cost req) req.limits)) [
    | inr (e, refused) ↦
        rw (check_unchecked sha256 R clock delivered s req e refused)
          (refused_limits-Understood (effective_cost req) req.limits req e refused)
    | inl passed ↦ elim (List-cases req.limits) [
      | inl empty ↦
          rw (check_no_limits sha256 R clock delivered s req passed empty, empty) (refl, refl)
      | inr some_limit ↦
          rw
            (
              check_checked sha256 R clock delivered s req passed some_limit,
              check_sent-ran sha256 R clock s req (accepted_limits req passed),
            )
            (ran-Understood s req (accepted_limits req passed))
    ]
  ]
