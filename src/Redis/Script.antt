-- ===== src/Redis/Script.antt =====
-- internal/limiter/redis/check.lua: every limit of a tenant decided in one run, which nothing
-- interleaves. The branch for `tb` rounds each number to a double as Lua does; elsewhere numbers are
-- whole, and exact below 2 ^ 53.
use distributed_rate_limiter.Prelude.{
  ℕ, zero, suc, ◌+◌, ◌/◌, Bool, true, false, ◌&&◌, not, Option, none, some, List, [], ◌∷◌, ◌++◌,
  Text, text_eq, ltb, bytes, if◌then◌else◌, ◌>>=◌,
}
use distributed_rate_limiter.Prelude.Int.{ℤ, pos, pos_part, ltb_ℤ, ◌==ℤ◌, ◌+ℤ◌, ◌-ℤ◌, ◌*ℤ◌}
use distributed_rate_limiter.Prelude.Format.{format_int}
use distributed_rate_limiter.Redis.Commands.{Doubles, Server}

-- An argument: a number, or the kind of a limit.
pub data Arg : Type 0 where
  number : ℤ → Arg
  word : Text → Arg

-- A value of a reply, as the client receives it; `strange_value` is of no type it knows.
pub data Value : Type 0 where
  int_value : ℤ → Value
  text_value : Text → Value
  strange_value : Value

-- What a call of the script gives the client: an array, something else, or an error.
pub data Raw : Type 0 where
  array : List Value → Raw
  scalar failure : Raw

-- `ARGV[1]` to `ARGV[5]`.
pub record Prefix : Type 0 where
  pub store_gen : ℤ
  pub policy_gen : ℤ
  pub cost : ℤ
  pub peek : ℤ
  pub override : ℤ

-- A key with its four arguments.
pub record Entry : Type 0 where
  pub key : Text
  pub kind : Text
  pub a : ℤ
  pub b : ℤ
  pub capacity : ℤ

-- One entry of `state`; `write` is the `new_tat` or the number of live entries.
pub record Judged : Type 0 where
  pub is_bucket : Bool
  pub key : Text
  pub allowed : Bool
  pub retry : ℤ
  pub remaining_now : ℤ
  pub reset_now : ℤ
  pub remaining_after : ℤ
  pub reset_after : ℤ
  pub write : ℤ
  pub cutoff : ℤ
  pub period : ℤ

unfoldable pub clamp : ℤ → ℤ
clamp v = if ltb_ℤ v (pos 0) then pos 0 else v

-- `math.floor(clamp(v) / emission)`.
unfoldable pub whole_units : Doubles → ℤ → ℤ → ℤ
unfolding clamp
whole_units num v emission = num.floor_div (clamp v) emission

unfoldable pub ttl_ms : ℤ → ℤ
ttl_ms us = let ms = (pos_part us + 999) / 1000 in if ltb ms 1 then pos 1 else pos ms

-- The arrival time that counts: the stored one, unless it has passed.
unfoldable pub arrival_time : Option ℤ → ℤ → ℤ
arrival_time none now = now
arrival_time (some stored) now = if ltb_ℤ stored now then now else stored

-- `tonumber(stored)`.
abbrev pub to_number : Doubles → Option ℤ → Option ℤ
to_number num none = none
to_number num (some v) = some (num.round v)

-- The branch for `tb`, from what `GET` returned.
unfoldable pub judge_bucket : Doubles → Option ℤ → ℤ → ℤ → Entry → Judged
unfolding whole_units clamp arrival_time
judge_bucket num stored at units e =
    let now = num.round at in
    let cost = num.round units in
    let emission = num.round e.a in
    let tolerance = num.round e.b in
    let tat = arrival_time (to_number num stored) now in
    let ahead = num.round (tat -ℤ now) in
    let new_tat = num.round (tat +ℤ num.round (emission *ℤ cost)) in
    let new_ahead = num.round (new_tat -ℤ now) in
    let allow_at = num.round (new_tat -ℤ tolerance) in
    let remaining = whole_units num (num.round (tolerance -ℤ ahead)) emission in
    let as_is : Judged = record {
      is_bucket = true;
      key = e.key;
      allowed = true;
      retry = pos 0;
      remaining_now = remaining;
      reset_now = clamp ahead;
      remaining_after = remaining;
      reset_after = clamp ahead;
      write = pos 0;
      cutoff = pos 0;
      period = pos 0;
    } in
    if cost ==ℤ pos 0
    then as_is
    else if ltb_ℤ now allow_at
    then record as_is { allowed = false; retry = clamp (num.round (allow_at -ℤ now)) }
    else record as_is {
      remaining_after = whole_units num (num.round (tolerance -ℤ new_ahead)) emission;
      reset_after = clamp new_ahead;
      write = new_tat;
    }

-- `oldest[2]` or `entry[2]` seen from now, and what stands in for a missing one.
unfoldable pub leaves_in : Option ℤ → ℤ → ℤ → ℤ → ℤ
unfolding clamp
leaves_in none period now missing = missing
leaves_in (some score) period now missing = clamp (score +ℤ period -ℤ now)

-- The branch for `sw`, from the number of live entries, the oldest of them, and the one whose
-- leaving makes room.
unfoldable pub judge_window : ℤ → Option ℤ → Option ℤ → ℤ → ℤ → Entry → Judged
unfolding clamp leaves_in
judge_window used oldest entry now cost e =
    let as_is : Judged = record {
      is_bucket = false;
      key = e.key;
      allowed = true;
      retry = pos 0;
      remaining_now = clamp (e.b -ℤ used);
      reset_now = leaves_in oldest e.a now (pos 0);
      remaining_after = clamp (e.b -ℤ used);
      reset_after = leaves_in oldest e.a now (pos 0);
      write = pos 0;
      cutoff = pos 0;
      period = pos 0;
    } in
    if cost ==ℤ pos 0
    then as_is
    else if ltb_ℤ e.b (used +ℤ cost)
    then record as_is { allowed = false; retry = leaves_in entry e.a now e.a }
    else record as_is {
      remaining_after = clamp (e.b -ℤ used -ℤ cost);
      reset_after = leaves_in oldest e.a now e.a;
      write = used;
      cutoff = now -ℤ e.a;
      period = e.a;
    }

-- `allowed_all`.
unfoldable pub allowed_all : List Judged → Bool
allowed_all [] = true
allowed_all (j ∷ js) = j.allowed && allowed_all js

unfoldable pub flag : Bool → ℤ
flag true = pos 1
flag false = pos 0

-- Whether the run consumes: every limit allows it, it is not a peek, and it costs something.
unfoldable pub consumes : Prefix → List Judged → Bool
unfolding allowed_all
consumes p js = allowed_all js && (p.peek ==ℤ pos 0) && ltb_ℤ (pos 0) p.cost

-- The four values of a limit.
unfoldable pub reported : Bool → Judged → List Value
unfolding flag
reported after j =
    int_value (flag j.allowed)
    ∷ int_value (if after then j.remaining_after else j.remaining_now)
    ∷ int_value j.retry
    ∷ int_value (if after then j.reset_after else j.reset_now)
    ∷ []

unfoldable pub reported_all : Bool → List Judged → List Value
unfolding reported
reported_all after [] = []
reported_all after (j ∷ js) = reported after j ++ reported_all after js

-- The reply of a run that the fences let through.
unfoldable pub answer : Prefix → List Judged → Raw
unfolding reported_all consumes flag
answer p js =
    array (int_value (pos 0) ∷ int_value (flag (allowed_all js)) ∷ reported_all (consumes p js) js)

-- A fenced reply: a status and the generation that is stored.
abbrev pub refusal : ℕ → ℤ → Raw
refusal status stored = array (int_value (pos status) ∷ int_value stored ∷ [])

-- `ARGV` after the prefix, four for each key.
unfoldable pub read_entries : List Text → List Arg → Option (List Entry)
read_entries [] args = some []
read_entries (k ∷ ks) (word w ∷ number a ∷ number b ∷ number c ∷ args) = do
  es ← read_entries ks args
  some (record { key = k; kind = w; a = a; b = b; capacity = c } ∷ es)
read_entries (k ∷ ks) args = none

-- The prefix and the entries; `none` where the script stops with an error.
unfoldable pub read_args : List Text → List Arg → Option (Text × Prefix × List Entry)
unfolding read_entries
read_args (meta ∷ ks) (number sg ∷ number pg ∷ number c ∷ number p ∷ number o ∷ args) = do
  es ← read_entries ks args
  some (meta, record { store_gen = sg; policy_gen = pg; cost = c; peek = p; override = o }, es)
read_args keys args = none

abbrev pub store_field : Text
store_field = bytes "store_gen"

abbrev pub policy_field : Text
policy_field = bytes "policy_gen"

-- Each fence: the generation that is stored, when it refuses the caller's.
unfoldable pub other_store : ℤ → Option ℤ → Option ℤ
other_store mine none = none
other_store mine (some stored) =
    if ltb_ℤ (pos 0) mine && not (stored ==ℤ mine) then some stored else none

unfoldable pub newer_policy : ℤ → Option ℤ → Option ℤ
newer_policy mine none = none
newer_policy mine (some stored) =
    if ltb_ℤ (pos 0) mine && ltb_ℤ mine stored then some stored else none

abbrev pub is_absent : Option ℤ → Bool
is_absent none = true
is_absent (some g) = false

-- `stored_policy == nil or policy_gen > stored_policy`.
abbrev pub is_ahead : ℤ → Option ℤ → Bool
is_ahead mine none = true
is_ahead mine (some stored) = ltb_ℤ stored mine

-- `math.floor` of whole numbers is left out. `count` is `cost`, or 0 if it is negative.
module _ (R : Server) where
  -- What is recorded past the fences.
  unfoldable pub note_store : R.State → Text → Prefix → Option ℤ → R.State
  note_store s meta p stored =
      if ltb_ℤ (pos 0) p.store_gen && is_absent stored
      then R.hset s meta store_field p.store_gen
      else s

  unfoldable pub note_policy : R.State → Text → Prefix → Option ℤ → R.State
  note_policy s meta p stored =
      if ltb_ℤ (pos 0) p.policy_gen && is_ahead p.policy_gen stored
      then R.hset s meta policy_field p.policy_gen
      else s

  -- `now`: the override, or the server's own clock.
  unfoldable pub clock_of : R.State → Prefix → ℤ
  clock_of s p =
      let (seconds, micros) = R.time s in
      if ltb_ℤ (pos 0) p.override then p.override else seconds *ℤ pos 1000000 +ℤ micros

  unfoldable pub judge : R.State → ℤ → ℤ → Entry → Option Judged
  unfolding judge_bucket judge_window
  judge s now cost e =
      let low = now -ℤ e.a in
      let used = pos (R.zcount_above s e.key low) in
      if text_eq e.kind (bytes "tb")
      then some (judge_bucket R.doubles (R.get s e.key) now cost e)
      else if text_eq e.kind (bytes "sw")
      then some (
          judge_window used (R.zscore_above s e.key low (pos 0))
            (R.zscore_above s e.key low (used +ℤ cost -ℤ e.b -ℤ pos 1)) now cost e)
      else none

  unfoldable pub judge_all : R.State → ℤ → ℤ → List Entry → Option (List Judged)
  unfolding judge
  judge_all s now cost [] = some []
  judge_all s now cost (e ∷ es) = do
    j ← judge s now cost e
    js ← judge_all s now cost es
    some (j ∷ js)

  -- The loop of `ZADD`: the member is the instant with a suffix that no other has.
  unfoldable pub add_members : R.State → Text → ℤ → ℕ → ℕ → R.State
  add_members s k now same zero = s
  add_members s k now same (suc count) =
      let s' = R.zadd s k now (format_int now ++ (b'-' ∷ format_int (pos (same + 1)))) in
      add_members s' k now (same + 1) count

  unfoldable pub commit_one : R.State → ℤ → ℤ → Judged → R.State
  unfolding ttl_ms add_members
  commit_one s now cost j =
      if j.is_bucket
      then R.set_px s j.key j.write (ttl_ms (j.write -ℤ now))
      else let s' = R.zremrange_upto s j.key j.cutoff in
        let s'' = add_members s' j.key now (R.zcount_at s' j.key now) (pos_part cost) in
        R.pexpire s'' j.key (ttl_ms j.period)

  unfoldable pub commit_all : R.State → ℤ → ℤ → List Judged → R.State
  unfolding commit_one
  commit_all s now cost [] = s
  commit_all s now cost (j ∷ js) = commit_all (commit_one s now cost j) now cost js

  -- The script from the point where the caller's generations are recorded.
  unfoldable pub decide : R.State → Prefix → List Entry → R.State × Raw
  unfolding judge_all commit_all consumes answer clock_of
  decide s p es = elim (judge_all s (clock_of s p) p.cost es) [
    | none ↦ (s, failure)
    | some js ↦ (if consumes p js then commit_all s (clock_of s p) p.cost js else s, answer p js)
  ]

  unfoldable pub noted : R.State → Text → Prefix → R.State
  unfolding note_store note_policy
  noted s meta p =
      note_policy (note_store s meta p (R.hget s meta store_field)) meta p
        (R.hget s meta policy_field)

  unfoldable pub run_parsed : R.State → Text → Prefix → List Entry → R.State × Raw
  unfolding decide noted other_store newer_policy
  run_parsed s meta p es = elim (other_store p.store_gen (R.hget s meta store_field)) [
    | some stored ↦ (s, refusal 2 stored)
    | none ↦ elim (newer_policy p.policy_gen (R.hget s meta policy_field)) [
      | some stored ↦ (s, refusal 1 stored)
      | none ↦ decide (noted s meta p) p es
    ]
  ]

  -- The whole script.
  unfoldable pub run : R.State → List Text → List Arg → R.State × Raw
  unfolding run_parsed read_args
  run s keys args = elim (read_args keys args) [
    | none ↦ (s, failure)
    | some (meta, p, es) ↦ run_parsed s meta p es
  ]
