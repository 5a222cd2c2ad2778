-- ===== src/Redis/Tests.antt =====
-- A small server with the commands of Redis that the script calls, and runs against it.
use distributed_rate_limiter.Limiter.Limit.Emission.{interval}
use distributed_rate_limiter.Prelude.{
  contains_byte, ℕ, ◌+◌, ◌*◌, ◌/◌, ◌≡◌, refl, ◌⊎◌, ◌<◌, true, false, ◌&&◌, Option, none, some, List,
  [], ◌∷◌, map, All, length, Text, bytes, text_eq, ltb, if◌then◌else◌, arith,
}
use distributed_rate_limiter.Prelude.Int.{◌-ℤ◌, rem64, div64, quot64, ℤ, pos, pos_part}
use distributed_rate_limiter.Limiter.Limit.{
  tolerance, emission, capacity, Limit, token_bucket, sliding_window, validate,
}
use distributed_rate_limiter.Limiter.Limit.Sizes.{validate-HasSizes}
use distributed_rate_limiter.Limiter.Request.{Request, Result, effective_cost}
use distributed_rate_limiter.Limiter.Gcra.{gcra_check}
use distributed_rate_limiter.Limiter.Gcra.Bucket.{full, IsSound, debt}
use distributed_rate_limiter.Limiter.Window.{window_check, live_from, index}
use distributed_rate_limiter.Redis.Commands.{Doubles, IsDouble, Server, HasHashes}
use distributed_rate_limiter.Redis.Script.{run, Judged, judge, judge_bucket}
use distributed_rate_limiter.Redis.Client.{
  Outcome, failed, policy_stale, store_reset, delivered, reply_lost, check, checks,
}
use distributed_rate_limiter.Redis.Calls.{entry_as}
use distributed_rate_limiter.Redis.Traffic.{outdated_caller-refused}
use distributed_rate_limiter.Redis.Reply.{Understood, check-Understood, decision_of}
use distributed_rate_limiter.Redis.Identity.{mints, generation_of}
use distributed_rate_limiter.Redis.Naming.{got_of, mints-AreOne}
use distributed_rate_limiter.Redis.Agreement.Bucket.{emission_us, bucket_agrees, owed_us}
use distributed_rate_limiter.Redis.Agreement.Window.{instant, young}
use distributed_rate_limiter.Redis.Agreement.Sets.{HasSets, window_agrees, kept_log}

record Kept : Type 0 where
  hash : Text → Text → Option ℤ
  string : Text → Option ℤ
  set : Text → List ℕ

abbrev add_score : ℕ → List ℕ → List ℕ
add_score t [] = t ∷ []
add_score t (x ∷ xs) = if ltb t x then t ∷ x ∷ xs else x ∷ add_score t xs

abbrev count_at : ℕ → List ℕ → ℕ
count_at t [] = 0
count_at t (x ∷ xs) = (if ltb x t then 0 else if ltb t x then 0 else 1) + count_at t xs

-- Numbers that are never rounded.
abbrev exact_doubles : Doubles
exact_doubles = record { round = λ z. z; floor_div = λ a b. pos (pos_part a / pos_part b) }

exact_doubles-IsDouble : IsDouble exact_doubles
exact_doubles-IsDouble = record { exact = λ z l u. refl; divides = λ a e h k. refl }

abbrev small_server : Server
small_server = record {
  State = Kept;
  doubles = exact_doubles;
  hget = λ s k f. s.hash k f;
  hset = λ s k f v. record s {
    hash = λ j g. if text_eq k j && text_eq f g then some v else s.hash j g;
  };
  get = λ s k. s.string k;
  set_px = λ s k v t. record s { string = λ j. if text_eq k j then some v else s.string j };
  zcount_above = λ s k low. length (live_from low (map pos (s.set k)));
  zcount_at = λ s k at. count_at (pos_part at) (s.set k);
  zscore_above = λ s k low i. index (live_from low (map pos (s.set k))) i;
  zremrange_upto = λ s k high. record s {
    set = λ j. if text_eq k j then map pos_part (live_from high (map pos (s.set k))) else s.set j;
  };
  zadd = λ s k at m. record s {
    set = λ j. if text_eq k j then add_score (pos_part at) (s.set k) else s.set j;
  };
  pexpire = λ s k t. s;
  time = λ s. (pos 10, pos 500000);
}

small_server-HasHashes : HasHashes small_server
small_server-HasHashes = record {
  hget-hset = λ s k f v j g. refl;
  hget-set_px = λ s k v t j g h. refl;
  hget-zremrange_upto = λ s k v j g h. refl;
  hget-zadd = λ s k v m j g h. refl;
  hget-pexpire = λ s k t j g h. refl;
}

small_server-HasSets : HasSets small_server (λ s k. s.set k)
small_server-HasSets = record {
  zcount_above-scores = λ s k low. refl;
  zscore_above-scores = λ s k low i. refl;
}

abbrev empty_store : Kept
empty_store = record { hash = λ k f. none; string = λ k. none; set = λ k. [] }

abbrev two_a_second : Limit
two_a_second = record {
  name = bytes "burst";
  algorithm = token_bucket;
  count = pos 2;
  period = pos 1000000000;
  burst = pos 0;
}

abbrev three_in_ten : Limit
three_in_ten = record {
  name = bytes "steady";
  algorithm = sliding_window;
  count = pos 3;
  period = pos 10000000000;
  burst = pos 0;
}

abbrev plain_hash : Text → Text
plain_hash t = bytes "abcd"

abbrev asking : ℕ → Request
asking gen = record {
  tenant = bytes "acme";
  limits = two_a_second ∷ three_in_ten ∷ [];
  cost = pos 1;
  peek_only = false;
  store_gen = 7;
  policy_gen = gen;
}

-- A tightened policy is enforced, once more with the reply lost; the older one is then refused.
abbrev after_tightening : Kept
unfolding check checks
after_tightening =
    checks plain_hash small_server ((none, reply_lost, asking 6) ∷ [])
      (check plain_hash small_server none delivered empty_store (asking 5)).0

outdated_caller-refused_example :
    (v : ℕ) × (o : Outcome Result) × ((o ≡ failed (policy_stale 4 v))
      ⊎ (o ≡ failed (store_reset 7 v)))
    × (check plain_hash small_server none delivered after_tightening (asking 4)
        ≡ (after_tightening, o))
unfolding check validate text_eq contains_byte quot64 capacity effective_cost emission div64 rem64
    tolerance run after_tightening checks
outdated_caller-refused_example =
    outdated_caller-refused small_server small_server-HasHashes plain_hash none none empty_store
      (asking 5) (asking 4) _ ((none, reply_lost, asking 6) ∷ []) (λ e. cc) refl refl (omega arith)
      (omega arith) (λ e. cc) refl

check-Understood_example :
    Understood (asking 5) (check plain_hash small_server none delivered empty_store (asking 5)).1
check-Understood_example = check-Understood small_server plain_hash none empty_store (asking 5)

two_a_second-valid : validate two_a_second ≡ none
unfolding validate text_eq contains_byte quot64
two_a_second-valid = refl

three_in_ten-valid : validate three_in_ten ≡ none
unfolding validate text_eq contains_byte
three_in_ten-valid = refl

two_a_second-IsSound : IsSound two_a_second
unfolding full interval capacity
two_a_second-IsSound = record {
  sizes = validate-HasSizes two_a_second two_a_second-valid;
  fits = omega arith;
}

-- A bucket that owes a quarter of a second, asked for one unit at 3 s.
bucket_agrees_example :
    let j =
      judge_bucket exact_doubles
        (some (pos 3250000))
        (pos 3000000)
        (pos 1)
        (entry_as token_bucket (bytes "k") two_a_second) in
    (tat' : ℤ) × (gcra_check two_a_second (pos 3250000000) (pos 3000000000) (pos 1)
      ≡ some (tat', decision_of true two_a_second j))
    × (0 < 1
        → j.allowed ≡ true
        → debt tat' (pos 3000000000) ≡ 1000 * owed_us (some j.write) 3000000)
unfolding ◌-ℤ◌ emission_us interval capacity
bucket_agrees_example =
    bucket_agrees two_a_second two_a_second-IsSound (bytes "k") exact_doubles (some (pos 3250000))
      (pos 3250000000) (pos 3000000000) 3000000 1 exact_doubles-IsDouble refl refl (omega arith)
      (omega arith) (omega arith) (omega arith)

-- A window with one entry that has aged out and two that have not, asked for two units.
abbrev windowed : Kept
windowed = record empty_store { set = λ k. 1000000 ∷ 12000000 ∷ 13000000 ∷ [] }

window_agrees_example :
    (j : Judged) × (log' : List ℤ) × (judge small_server windowed
        (pos 15000000)
        (pos 2)
        (entry_as sliding_window (bytes "k") three_in_ten)
      ≡ some j)
    × (window_check three_in_ten
          (map (instant (pos 0)) (windowed.set (bytes "k")))
          (instant (pos 0) 15000000)
          (pos 2)
        ≡ some (log', decision_of true three_in_ten j))
    × (log'
        ≡ kept_log
            (pos 0)
            15000000
            2
            (ltb 0 2 && j.allowed)
            (young 10000000 15000000 (windowed.set (bytes "k"))))
unfolding young
window_agrees_example =
    window_agrees three_in_ten (validate-HasSizes three_in_ten three_in_ten-valid) refl 10000000
      refl (pos 0) (bytes "k") 15000000 2 (omega arith) small_server (λ s k. s.set k)
      small_server-HasSets windowed (ground arith) (ground arith) (omega arith)

mints-AreOne_example :
    All (λ o. o ≡ some 41) (mints (λ t. t) none (41 ∷ 7 ∷ 99 ∷ [])).1
    × (generation_of (λ t. t) (got_of (mints (λ t. t) none (41 ∷ 7 ∷ 99 ∷ [])).0) ≡ some 41)
mints-AreOne_example =
    mints-AreOne (λ t. t) (λ n. refl) 41 (7 ∷ 99 ∷ []) (omega arith)
      (omega arith, (omega arith, (omega arith, tt)))
