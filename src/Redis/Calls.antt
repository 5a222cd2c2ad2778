-- ===== src/Redis/Calls.antt =====
-- What the client sends for limits that `Validate` accepts, and how the script reads it.
use distributed_rate_limiter.Prelude.{
  ◌≡◌, ◌≢◌, refl, true, false, Option, none, some, List, [], ◌∷◌, ◌++◌, map, All, Text, bytes,
  text_eq, Option-cases, List-cases, All-map, arith, Bool-cases, inl, inr, ◌⊎◌, if◌then◌else◌,
}
use distributed_rate_limiter.Prelude.Int.{ℤ, pos, mul64, ltb_ℤ}
use distributed_rate_limiter.Limiter.Limit.{
  Limit, Algorithm, token_bucket, sliding_window, other, validate, capacity, emission, tolerance,
  is_known,
}
use distributed_rate_limiter.Limiter.Limit.Key.{key, meta_key}
use distributed_rate_limiter.Limiter.Limit.Sizes.{validate-HasSizes}
use distributed_rate_limiter.Limiter.Limit.Emission.{interval, emission-interval}
use distributed_rate_limiter.Limiter.Request.{Request, Result, effective_cost}
use distributed_rate_limiter.Redis.Commands.{Server}
use distributed_rate_limiter.Redis.Script.{
  Arg, number, word, Prefix, Entry, read_entries, read_args, run, run_parsed, Raw,
}
use distributed_rate_limiter.Redis.Client.{
  Outcome, answered, failed, RedisError, micros, limit_args, all_args, call_args, override_of,
  prefix_args, refuse_limits, check_sent, check, Delivery, delivered, request_lost, reply_lost,
  script_run, parse_result,
}

-- The entry that the script reads for a limit.
abbrev bucket_entry : Text → Limit → Entry
bucket_entry k l = record {
  key = k;
  kind = bytes "tb";
  a = micros (pos (interval l));
  b = micros (mul64 (pos (interval l)) (capacity l));
  capacity = capacity l;
}

abbrev window_entry : Text → Limit → Entry
window_entry k l = record {
  key = k;
  kind = bytes "sw";
  a = micros l.period;
  b = l.count;
  capacity = l.count;
}

unfoldable pub entry_as : Algorithm → Text → Limit → Entry
entry_as token_bucket k l = bucket_entry k l
entry_as sliding_window k l = window_entry k l
entry_as (other a) k l = window_entry k l

unfoldable pub args_of : Entry → List Arg
args_of e = word e.kind ∷ number e.a ∷ number e.b ∷ number e.capacity ∷ []

limit_args_as :
    (a : Algorithm) (k : Text) (l : Limit)
    → emission l ≡ some (pos (interval l))
    → is_known a ≡ true
    → limit_args a l ≡ answered (args_of (entry_as a k l))
unfolding limit_args entry_as args_of tolerance
limit_args_as token_bucket k l e h = rw e refl
limit_args_as sliding_window k l e h = refl
limit_args_as (other a) k l e h = cc

pub validate-is_known : (l : Limit) → validate l ≡ none → is_known l.algorithm ≡ true
unfolding validate
validate-is_known l h = ground arith

pub limit_args-entry_as :
    (k : Text) (l : Limit)
    → validate l ≡ none
    → limit_args l.algorithm l ≡ answered (args_of (entry_as l.algorithm k l))
limit_args-entry_as k l h =
    limit_args_as l.algorithm k l (emission-interval l (validate-HasSizes l h))
      (validate-is_known l h)

module _ (sha256 : Text → Text) (tenant : Text) where
  unfoldable pub entries_of : List Limit → List Entry
  entries_of [] = []
  entries_of (l ∷ ls) = entry_as l.algorithm (key sha256 l tenant) l ∷ entries_of ls

  flat : List Entry → List Arg
  flat [] = []
  flat (e ∷ es) = args_of e ++ flat es

  all_args-flat :
      (ls : List Limit)
      → All (λ l. validate l ≡ none) ls
      → all_args ls ≡ answered (flat (entries_of ls))
  unfolding all_args entries_of flat
  all_args-flat [] h = refl
  all_args-flat (l ∷ ls) h =
      rw (limit_args-entry_as (key sha256 l tenant) l h.0, all_args-flat ls h.1) refl

  entry_key : (a : Algorithm) (k : Text) (l : Limit) → (entry_as a k l).key ≡ k
  unfolding entry_as
  entry_key token_bucket k l = refl
  entry_key sliding_window k l = refl
  entry_key (other a) k l = refl

  read-flat :
      (ls : List Limit)
      → read_entries (map (λ l. key sha256 l tenant) ls) (flat (entries_of ls))
        ≡ some (entries_of ls)
  unfolding read_entries entries_of flat args_of
  read-flat [] = refl
  read-flat (l ∷ ls) = rw (read-flat ls, entry_key l.algorithm (key sha256 l tenant) l) refl

abbrev pub prefix_of : Option ℤ → Request → ℤ → Prefix
prefix_of clock req cost = record {
  store_gen = pos req.store_gen;
  policy_gen = pos req.policy_gen;
  cost = cost;
  peek = if req.peek_only then pos 1 else pos 0;
  override = override_of clock;
}

-- What passes the loop before the call: every limit is accepted, and can hold the cost.
pub refuse_limits-none :
    (cost : ℤ) (ls : List Limit)
    → refuse_limits cost ls ≡ none
    → All (λ l. (validate l ≡ none) × (ltb_ℤ (capacity l) cost ≡ false)) ls
unfolding refuse_limits
refuse_limits-none cost [] h = tt
refuse_limits-none cost (l ∷ ls) h = elim (Option-cases (validate l)) [
  | inr (e, v) ↦ absurd (ground (arith, v))
  | inl v ↦ elim (Bool-cases (ltb_ℤ (capacity l) cost)) [
    | inl c ↦ absurd (ground (arith, v, c))
    | inr c ↦ ((v, c), refuse_limits-none cost ls (ground (arith, v, c)))
  ]
]

-- No counter lies where the fences do.
abbrev pub IsApart : Text → Entry → Type 0
IsApart meta e = text_eq e.key meta ≡ false

key_apart :
    (sha256 : Text → Text) (l : Limit) (tenant holder : Text)
    → text_eq (key sha256 l tenant) (meta_key holder) ≡ false
unfolding key meta_key text_eq
key_apart sha256 l tenant holder = refl

pub entries-IsApart :
    (sha256 : Text → Text) (tenant holder : Text) (ls : List Limit)
    → All (IsApart (meta_key holder)) (entries_of sha256 tenant ls)
unfolding entries_of
entries-IsApart sha256 tenant holder [] = tt
entries-IsApart sha256 tenant holder (l ∷ ls) = (
  rw (entry_key sha256 tenant l.algorithm (key sha256 l tenant) l)
      (key_apart sha256 l tenant holder),
  entries-IsApart sha256 tenant holder ls,
)

pub accepted_limits :
    (req : Request)
    → refuse_limits (effective_cost req) req.limits ≡ none
    → All (λ l. validate l ≡ none) req.limits
accepted_limits req h =
    All-map _ _ req.limits (λ l both. both.0) (refuse_limits-none (effective_cost req) req.limits h)

module _ (sha256 : Text → Text) (R : Server) (clock : Option ℤ) where
  -- What the script does with the client's call.
  abbrev pub ran : R.State → Request → R.State × Raw
  ran s req =
      run_parsed R s (meta_key req.tenant) (prefix_of clock req (effective_cost req))
        (entries_of sha256 req.tenant req.limits)

  run-ran :
      (s : R.State) (req : Request)
      → run R s (meta_key req.tenant ∷ map (λ l. key sha256 l req.tenant) req.limits) (
          prefix_args clock req (effective_cost req)
          ++ flat sha256 req.tenant (entries_of sha256 req.tenant req.limits))
        ≡ ran s req
  unfolding run read_args prefix_args
  run-ran s req = rw (run, read_args, read-flat sha256 req.tenant req.limits) refl

  -- A call that is delivered, for limits that are accepted.
  pub check_sent-ran :
      (s : R.State) (req : Request)
      → All (λ l. validate l ≡ none) req.limits
      → check_sent sha256 R clock delivered s req ≡ ((ran s req).0, parse_result (ran s req).1 req)
  unfolding check_sent call_args script_run
  check_sent-ran s req h =
      rw (check_sent, call_args, all_args-flat sha256 req.tenant req.limits h, run-ran s req) refl

  check_sent-lost :
      (s : R.State) (req : Request)
      → All (λ l. validate l ≡ none) req.limits
      → (check_sent sha256 R clock request_lost s req).0 ≡ s
  unfolding check_sent call_args script_run
  check_sent-lost s req h =
      rw (check_sent, call_args, all_args-flat sha256 req.tenant req.limits h) refl

  check_sent-silent :
      (s : R.State) (req : Request)
      → All (λ l. validate l ≡ none) req.limits
      → (check_sent sha256 R clock reply_lost s req).0 ≡ (ran s req).0
  unfolding check_sent call_args script_run
  check_sent-silent s req h =
      rw (check_sent, call_args, all_args-flat sha256 req.tenant req.limits h, run-ran s req) refl

  -- What a call leaves in the store is what the script leaves, or nothing new.
  check_sent-state :
      (d : Delivery) (s : R.State) (req : Request)
      → All (λ l. validate l ≡ none) req.limits
      → ((check_sent sha256 R clock d s req).0 ≡ s)
        ⊎ ((check_sent sha256 R clock d s req).0 ≡ (ran s req).0)
  check_sent-state delivered s req h = inr (rw (check_sent-ran s req h) refl)
  check_sent-state request_lost s req h = inl (check_sent-lost s req h)
  check_sent-state reply_lost s req h = inr (check_sent-silent s req h)

  check_limits :
      (d : Delivery) (s : R.State) (req : Request) (ls : List Limit)
      → ls ≢ []
      → elim ls as (λ x. R.State × Outcome Result) [
        | [] ↦ (s, answered (record { allowed = true; decisions = []; limiting = [] }))
        | l ∷ rest ↦ check_sent sha256 R clock d s req
      ]
        ≡ check_sent sha256 R clock d s req
  check_limits d s req [] h = absurd (h refl)
  check_limits d s req (l ∷ ls) h = refl

  pub check_checked :
      (d : Delivery) (s : R.State) (req : Request)
      → refuse_limits (effective_cost req) req.limits ≡ none
      → req.limits ≢ []
      → check sha256 R clock d s req ≡ check_sent sha256 R clock d s req
  unfolding check
  check_checked d s req h some_limit = rw (check, h) (check_limits d s req req.limits some_limit)

  pub check_unchecked :
      (d : Delivery) (s : R.State) (req : Request) (e : RedisError)
      → refuse_limits (effective_cost req) req.limits ≡ some e
      → check sha256 R clock d s req ≡ (s, failed e)
  unfolding check
  check_unchecked d s req e h = rw (check, h) refl

  pub check_no_limits :
      (d : Delivery) (s : R.State) (req : Request)
      → refuse_limits (effective_cost req) req.limits ≡ none
      → req.limits ≡ []
      → check sha256 R clock d s req
        ≡ (s, answered (record { allowed = true; decisions = []; limiting = [] }))
  unfolding check
  check_no_limits d s req h e = ground (arith, h, e)

  pub check-state :
      (d : Delivery) (s : R.State) (req : Request)
      → ((check sha256 R clock d s req).0 ≡ s) ⊎ ((check sha256 R clock d s req).0 ≡ (ran s req).0)
  check-state d s req = elim (Option-cases (refuse_limits (effective_cost req) req.limits)) [
    | inr (e, refused) ↦ inl (rw (check_unchecked d s req e refused) refl)
    | inl passed ↦ elim (List-cases req.limits) [
      | inl empty ↦ inl (rw (check_no_limits d s req passed empty) refl)
      | inr some_limit ↦
          rw (check_checked d s req passed some_limit)
            (check_sent-state d s req (accepted_limits req passed))
    ]
  ]
