-- ===== src/Redis/Client.antt =====
-- internal/limiter/redis/redis.go: the arguments of the script and the reading of its reply.
-- Whether a call reaches the server, and whether the reply comes back, is what a `Delivery` says.
use distributed_rate_limiter.Prelude.{
  ℕ, ◌+◌, ◌*◌, ◌-◌, ◌%◌, Bool, true, ◌&&◌, not, Option, none, some, List, [], ◌∷◌, ◌++◌, map,
  length, Text, bytes, ltb, leb, ◌==◌, if◌then◌else◌,
}
use distributed_rate_limiter.Prelude.Int.{ℤ, pos, negsuc, neg, ltb_ℤ, ◌==ℤ◌, mul64, quot64}
use distributed_rate_limiter.Limiter.Limit.{
  Limit, LimitError, Algorithm, token_bucket, sliding_window, other, capacity, emission, tolerance,
  validate,
}
use distributed_rate_limiter.Limiter.Limit.Key.{key, meta_key}
use distributed_rate_limiter.Limiter.Request.{Request, Result, Decision, effective_cost}
use distributed_rate_limiter.Redis.Commands.{Server}
use distributed_rate_limiter.Redis.Script.{
  Arg, number, word, Value, int_value, text_value, strange_value, Raw, array, scalar, failure, run,
}

pub data RedisError : Type 0 where
  invalid : LimitError → RedisError
  cost_exceeds_capacity unknown_algorithm unreachable malformed : RedisError
  policy_stale store_reset : ℕ → ℕ → RedisError

-- What a function of the client returns: a value, an error, or a panic.
pub data Outcome {ℓ} (A : Type ℓ) : Type ℓ where
  answered : A → Outcome A
  failed : RedisError → Outcome A
  panicked : Outcome A

infixl 5 ◌>>=◌
abbrev pub ◌>>=◌ {ℓ κ} : {A : Type ℓ} {B : Type κ} → Outcome A → (A → Outcome B) → Outcome B
answered a >>= f = f a
failed e >>= f = failed e
panicked >>= f = panicked

abbrev pub or_panic {ℓ} : {A : Type ℓ} → Option A → Outcome A
or_panic none = panicked
or_panic (some a) = answered a

unfoldable pub micros : ℤ → ℤ
micros d = quot64 d (pos 1000)

-- The four arguments of a limit.
unfoldable pub limit_args : Algorithm → Limit → Outcome (List Arg)
unfolding micros
limit_args token_bucket l = do
  e ← or_panic (emission l)
  t ← or_panic (tolerance l)
  answered (word (bytes "tb") ∷ number (micros e) ∷ number (micros t) ∷ number (capacity l) ∷ [])
limit_args sliding_window l =
    answered (word (bytes "sw") ∷ number (micros l.period) ∷ number l.count ∷ number l.count ∷ [])
limit_args (other a) l = failed unknown_algorithm

unfoldable pub all_args : List Limit → Outcome (List Arg)
unfolding limit_args
all_args [] = answered []
all_args (l ∷ ls) = do mine ← limit_args l.algorithm l; rest ← all_args ls; answered (mine ++ rest)

-- The clock that a test may have put in, in microseconds: 0 without one.
abbrev pub override_of : Option ℤ → ℤ
override_of none = pos 0
override_of (some now) = now

unfoldable pub prefix_args : Option ℤ → Request → ℤ → List Arg
prefix_args clock req cost =
    number (pos req.store_gen)
    ∷ number (pos req.policy_gen)
    ∷ number cost
    ∷ number (if req.peek_only then pos 1 else pos 0)
    ∷ number (override_of clock)
    ∷ []

-- `fmt.Sscanf(n, "%d", &parsed)`: spaces, a sign, and the digits that follow.
unfoldable pub skip_spaces : Text → Text
skip_spaces [] = []
skip_spaces (b ∷ bs) = if b == 32 then skip_spaces bs else b ∷ bs

unfoldable pub scan_digits : ℕ → Text → ℕ
scan_digits n [] = n
scan_digits n (b ∷ bs) =
    let rest = scan_digits (10 * n + (b - b'0')) bs in if leb b'0' b && leb b b'9' then rest else n

unfoldable pub scan_number : Text → Option ℕ
unfolding scan_digits
scan_number [] = none
scan_number (b ∷ bs) = if leb b'0' b && leb b b'9' then some (scan_digits 0 (b ∷ bs)) else none

unfoldable pub scan_int : Text → Option ℤ
unfolding scan_number skip_spaces
scan_int t = elim (skip_spaces t) [
  | [] ↦ none
  | b ∷ bs ↦
      if b == b'-'
      then elim (scan_number bs) [
        | none ↦ none
        | some n ↦ if ltb 9223372036854775808 n then none else some (neg n)
      ]
      else elim (scan_number (if b == b'+' then bs else b ∷ bs)) [
        | none ↦ none
        | some n ↦ if ltb 9223372036854775807 n then none else some (pos n)
      ]
]

-- `toInt`.
unfoldable pub to_int : Value → Outcome ℤ
unfolding scan_int
to_int (int_value n) = answered n
to_int (text_value t) = elim (scan_int t) [ none ↦ failed malformed | some n ↦ answered n ]
to_int strange_value = failed malformed

-- `uint64(stored)`.
abbrev pub to_u64 : ℤ → ℕ
to_u64 (pos n) = n % 18446744073709551616
to_u64 (negsuc n) = 18446744073709551615 - n % 18446744073709551616

-- The generation of a fenced reply, or 0.
unfoldable pub stored_in : List Value → ℤ
unfolding to_int
stored_in [] = pos 0
stored_in (v ∷ vs) = elim (to_int v) [ answered n ↦ n | _ ↦ pos 0 ]

-- `fenceError`, given the status and the values that follow it.
unfoldable pub fence_error : ℤ → List Value → Request → RedisError
unfolding stored_in
fence_error status vs req =
    if status ==ℤ pos 1
    then policy_stale req.policy_gen (to_u64 (stored_in vs))
    else if status ==ℤ pos 2
    then store_reset req.store_gen (to_u64 (stored_in vs))
    else malformed

worst_from : Text → ℤ → List Decision → Text
worst_from name worst [] = name
worst_from name worst (d ∷ ds) =
    let longer = not d.allowed && ltb_ℤ worst d.retry_after in
    worst_from (if longer then d.name else name) (if longer then d.retry_after else worst) ds

-- `worstRefusal`.
unfoldable pub worst_refusal : List Decision → Text
unfolding worst_from
worst_refusal ds = worst_from [] (negsuc 0) ds

-- One round of the loop over the limits.
unfoldable pub read_decision : Limit → Value → Value → Value → Value → Outcome Decision
unfolding to_int
read_decision l v0 v1 v2 v3 = do
  allowed ← to_int v0
  remaining ← to_int v1
  retry ← to_int v2
  reset ← to_int v3
  answered record {
    name = l.name;
    allowed = allowed ==ℤ pos 1;
    limit = capacity l;
    remaining = remaining;
    retry_after = mul64 retry (pos 1000);
    reset_after = mul64 reset (pos 1000);
  }

-- The loop. An index out of range is a panic, which the length check before it excludes.
unfoldable pub read_decisions : List Limit → List Value → Outcome (List Decision)
unfolding read_decision
read_decisions [] vs = answered []
read_decisions (l ∷ ls) (v0 ∷ v1 ∷ v2 ∷ v3 ∷ vs) = do
  d ← read_decision l v0 v1 v2 v3
  ds ← read_decisions ls vs
  answered (d ∷ ds)
read_decisions (l ∷ ls) vs = panicked

abbrev pub result_of : Bool → List Decision → Result
result_of allowed ds = record {
  allowed = allowed;
  decisions = ds;
  limiting = if allowed then [] else worst_refusal ds;
}

unfoldable pub read_sized : Value → List Value → Request → Outcome Result
unfolding read_decisions to_int
read_sized v vs req = do
  allowed ← to_int v
  ds ← read_decisions req.limits vs
  answered (result_of (allowed ==ℤ pos 1) ds)

-- What follows the status in a reply that is not fenced.
unfoldable pub read_body : List Value → Request → Outcome Result
unfolding read_sized
read_body [] req = failed malformed
read_body (v ∷ vs) req =
    if length (v ∷ vs) == 1 + 4 * length req.limits then read_sized v vs req else failed malformed

-- `parseResult`, and the error that the call itself returned.
unfoldable pub parse_result : Raw → Request → Outcome Result
unfolding read_body fence_error to_int
parse_result failure req = failed unreachable
parse_result scalar req = failed malformed
parse_result (array []) req = failed malformed
parse_result (array (v ∷ vs)) req = do
  status ← to_int v
  if status ==ℤ pos 0 then read_body vs req else failed (fence_error status vs req)

-- The loop over the limits before anything is sent.
unfoldable pub refuse_limits : ℤ → List Limit → Option RedisError
refuse_limits cost [] = none
refuse_limits cost (l ∷ ls) = elim (validate l) [
  | some e ↦ some (invalid e)
  | none ↦ if ltb_ℤ (capacity l) cost then some cost_exceeds_capacity else refuse_limits cost ls
]

pub data Delivery : Type 0 where
  delivered request_lost reply_lost : Delivery

-- A call as a gateway makes it: the clock of a test if there is one, and how the call fares.
abbrev pub Call : Type 0
Call = Option ℤ × Delivery × Request

module _ (sha256 : Text → Text) where
  -- `callArgs`.
  unfoldable pub call_args : Option ℤ → Request → ℤ → Outcome (List Text × List Arg)
  unfolding all_args prefix_args
  call_args clock req cost = do
    args ← all_args req.limits
    answered (
      meta_key req.tenant ∷ map (λ l. key sha256 l req.tenant) req.limits,
      prefix_args clock req cost ++ args,
    )

  module _ (R : Server) where
    -- The call of the script.
    unfoldable pub script_run : Delivery → R.State → List Text → List Arg → R.State × Raw
    script_run delivered s keys args = run R s keys args
    script_run request_lost s keys args = (s, failure)
    script_run reply_lost s keys args = ((run R s keys args).0, failure)

    -- `Check` with at least one limit, all of them accepted.
    unfoldable pub check_sent : Option ℤ → Delivery → R.State → Request → R.State × Outcome Result
    unfolding call_args script_run parse_result
    check_sent clock d s req = elim (call_args clock req (effective_cost req)) [
      | failed e ↦ (s, failed e)
      | panicked ↦ (s, panicked)
      | answered (keys, args) ↦
          let (s', raw) = script_run d s keys args in (s', parse_result raw req)
    ]

    -- `Check`.
    unfoldable pub check : Option ℤ → Delivery → R.State → Request → R.State × Outcome Result
    unfolding check_sent refuse_limits
    check clock d s req = elim (refuse_limits (effective_cost req) req.limits) [
      | some e ↦ (s, failed e)
      | none ↦ elim req.limits [
        | [] ↦ (s, answered (record { allowed = true; decisions = []; limiting = [] }))
        | l ∷ ls ↦ check_sent clock d s req
      ]
    ]

    -- What a sequence of calls leaves in the store.
    unfoldable pub checks : List Call → R.State → R.State
    unfolding check
    checks [] s = s
    checks ((clock, d, req) ∷ calls) s = checks calls (check clock d s req).0
