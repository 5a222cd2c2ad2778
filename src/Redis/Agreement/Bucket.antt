-- ===== src/Redis/Agreement/Bucket.antt =====
-- The `tb` branch of check.lua against `gcraCheck`: one counts microseconds, the other nanoseconds.
use distributed_rate_limiter.Prelude.{
  ℕ, ◌+◌, ◌-◌, ◌*◌, ◌/◌, ◌≤◌, ◌<◌, ◌≡◌, refl, ap, sym, ◌∙◌, ◌⊎◌, inl, inr, Text, true, false,
  Option, none, some, arith, ltb, ◌==◌, if◌then◌else◌,
}
use distributed_rate_limiter.Prelude.Int.{
  ℤ, pos, negsuc, pos_part, ltb_ℤ, ◌-ℤ◌, mul-pos, add-pos, sub-pos, mul64-pos, quot64-pos, mul64,
  int_laws, -ℤ_parts, one_part,
}
use native.Mathlib.Nat.{mul-div-mul_left, mul-div_right, mul-le-mul_left, mul_assoc}
use native.Mathlib.Decide.{dec_le}
use distributed_rate_limiter.Limiter.Limit.{Limit, token_bucket}
use distributed_rate_limiter.Limiter.Limit.Sizes.{capacity_of}
use distributed_rate_limiter.Limiter.Limit.Emission.{
  interval, interval_quantum, interval_small, interval_lower,
}
use distributed_rate_limiter.Limiter.Gcra.{gcra_check}
use distributed_rate_limiter.Limiter.Gcra.Bucket.{
  IsSound, full, full_lem, debt, debt-add, verdict, check-verdict,
}
use distributed_rate_limiter.Redis.Commands.{Doubles, IsDouble}
use distributed_rate_limiter.Redis.Script.{
  Entry, Judged, judge_bucket, arrival_time, whole_units, clamp, to_number,
}
use distributed_rate_limiter.Redis.Client.{micros}
use distributed_rate_limiter.Redis.Calls.{entry_as}
use distributed_rate_limiter.Redis.Reply.{decision_of}

-- What the script makes of a bucket with debt `d`, in natural numbers of microseconds.
judged : Entry → ℕ → ℕ → ℕ → ℕ → ℕ → Judged
judged x e t now d c =
    let as_is : Judged = record {
      is_bucket = true;
      key = x.key;
      allowed = true;
      retry = pos 0;
      remaining_now = pos ((t - d) / e);
      reset_now = pos d;
      remaining_after = pos ((t - d) / e);
      reset_after = pos d;
      write = pos 0;
      cutoff = pos 0;
      period = pos 0;
    } in
    if c == 0
    then as_is
    else if ltb t (d + e * c)
    then record as_is { allowed = false; retry = pos (d + e * c - t) }
    else record as_is {
      remaining_after = pos ((t - (d + e * c)) / e);
      reset_after = pos (d + e * c);
      write = pos (now + (d + e * c));
    }

back : (now x : ℕ) → pos (now + x) -ℤ pos now ≡ pos x
back now x = omega int_laws

is_over : (now t x : ℕ) → ltb_ℤ (pos now) (pos (now + x) -ℤ pos t) ≡ ltb t x
is_over now t x = ground (arith, -ℤ_parts (pos (now + x)) (pos t))

excess : (now t x : ℕ) → t ≤ x → pos (now + x) -ℤ pos t -ℤ pos now ≡ pos (x - t)
excess now t x h = omega int_laws

pub le_or_lt : (a b : ℕ) → a ≤ b ⊎ b < a
le_or_lt a b = elim (dec_le a b) [ yes le ↦ inl le | no more ↦ inr (omega arith) ]

clamp-pos : (n : ℕ) → clamp (pos n) ≡ pos n
unfolding clamp
clamp-pos n = ground arith

-- The numbers that a run of the branch comes across are all doubles.
module _ (num : Doubles) (law : IsDouble num) where
  whole : (n : ℕ) → n ≤ 9007199254740992 → num.round (pos n) ≡ pos n
  whole n h = law.exact (pos n) (omega arith) (omega arith)

  apart :
      (a b : ℕ)
      → a ≤ 9007199254740992
      → b ≤ 9007199254740992
      → num.round (pos a -ℤ pos b) ≡ pos a -ℤ pos b
  apart a b h k =
      law.exact (pos a -ℤ pos b) (omega (arith, -ℤ_parts (pos a) (pos b)))
        (omega (arith, -ℤ_parts (pos a) (pos b)))

  units_left :
      (t d e : ℕ)
      → d ≤ t
      → 0 < e
      → t < 9007199254740992
      → whole_units num (pos t -ℤ pos d) (pos e) ≡ pos ((t - d) / e)
  unfolding whole_units
  units_left t d e h e_pos k =
      rw (sub-pos t d h, whole_units, clamp-pos (t - d)) (law.divides (t - d) e e_pos (omega arith))

  module _ (x : Entry) (e t now d c : ℕ) (xa : x.a ≡ pos e) (xb : x.b ≡ pos t) (h : d ≤ t)
      (e_pos : 0 < e) (t_small : t < 9007199254740992)
      (sum_small : now + (d + e * c) < 9007199254740992) (c_small : c ≤ 9007199254740992)
      (e_small : e ≤ 9007199254740992) where
    judge_bucket-judged :
        (stored : Option ℤ)
        → to_number num stored ≡ stored
        → arrival_time stored (pos now) ≡ pos (now + d)
        → d + e * c ≤ t ⊎ t < d + e * c
        → judge_bucket num stored (pos now) (pos c) x ≡ judged x e t now d c
    unfolding judge_bucket judged
    judge_bucket-judged stored kept at (inl fits) =
        let sum : now + d + e * c ≡ now + (d + e * c) = omega arith in
        let not_over : ltb t (d + e * c) ≡ false = ground arith in
        rw
          (
            xa,
            xb,
            whole now (omega arith),
            whole c c_small,
            whole e e_small,
            whole t (omega arith),
            kept,
            at,
            mul-pos e c,
            whole (e * c) (omega arith),
            add-pos (now + d) (e * c),
            sum,
            whole (now + (d + e * c)) (omega arith),
            back now d,
            whole d (omega arith),
            back now (d + e * c),
            whole (d + e * c) (omega arith),
            apart t d (omega arith) (omega arith),
            units_left t d e h e_pos t_small,
            apart (now + (d + e * c)) t (omega arith) (omega arith),
            is_over now t (d + e * c),
            not_over,
            apart t (d + e * c) (omega arith) (omega arith),
            units_left t (d + e * c) e fits e_pos t_small,
          )
          (ground arith)
    judge_bucket-judged stored kept at (inr more) =
        let sum : now + d + e * c ≡ now + (d + e * c) = omega arith in
        let over : ltb t (d + e * c) ≡ true = ground arith in
        rw
          (
            xa,
            xb,
            whole now (omega arith),
            whole c c_small,
            whole e e_small,
            whole t (omega arith),
            kept,
            at,
            mul-pos e c,
            whole (e * c) (omega arith),
            add-pos (now + d) (e * c),
            sum,
            whole (now + (d + e * c)) (omega arith),
            back now d,
            whole d (omega arith),
            apart t d (omega arith) (omega arith),
            units_left t d e h e_pos t_small,
            apart (now + (d + e * c)) t (omega arith) (omega arith),
            is_over now t (d + e * c),
            over,
            excess now t (d + e * c) (omega arith),
            whole (d + e * c - t) (omega arith),
          )
          (ground arith)

-- A quotient of nanoseconds is that of the microseconds.
units_scaled : (e t d : ℕ) → (1000 * t - 1000 * d) / (1000 * e) ≡ (t - d) / e
units_scaled e t d =
    let sub : 1000 * t - 1000 * d ≡ 1000 * (t - d) = omega arith in
    rw sub (mul-div-mul_left {m = 1000} (t - d) e (omega arith))

pub thousandfold :
    (x t : ℕ) → x ≤ t → 1000 * t < 9223372036854775808 → mul64 (pos x) (pos 1000) ≡ pos (1000 * x)
thousandfold x t h fits = mul64-pos x 1000 (omega arith) ∙ ap pos (omega arith)

times : (e c : ℕ) → 1000 * e * c ≡ 1000 * (e * c)
times e c = mul_assoc 1000 e c

module _ (l : Limit) (x : Entry) (e t now d c : ℕ) (u : ℤ) (h : d ≤ t) (k : e * c ≤ t)
    (fits : 1000 * t < 9223372036854775808) where
  verdict-judged :
      (verdict l (1000 * e) (1000 * t) u (1000 * d) c).1 ≡ decision_of true l (judged x e t now d c)
  unfolding verdict judged decision_of
  verdict-judged = elim (dec_le (d + e * c) t) [
    | yes in_time ↦ ground (
      arith,
      times e c,
      units_scaled e t d,
      units_scaled e t (d + e * c),
      thousandfold 0 t (omega arith) fits,
      thousandfold d t h fits,
      thousandfold (d + e * c) t in_time fits,
    )
    | no late ↦ ground (
      arith,
      times e c,
      units_scaled e t d,
      thousandfold 0 t (omega arith) fits,
      thousandfold d t h fits,
      thousandfold (d + e * c - t) t (omega arith) fits,
    )
  ]

  verdict-write :
      0 < c
      → (judged x e t now d c).allowed ≡ true
      → debt (verdict l (1000 * e) (1000 * t) u (1000 * d) c).0 u
        ≡ 1000 * pos_part ((judged x e t now d c).write -ℤ pos now)
  unfolding verdict judged
  verdict-write pos_c yes_ = elim (dec_le (d + e * c) t) [
    | yes in_time ↦
        ground (arith, times e c, debt-add u (1000 * d + 1000 * (e * c)), back now (d + e * c))
    | no late ↦ absurd (ground arith)
  ]

-- How far the stored arrival time lies ahead of now, in microseconds.
abbrev pub owed_us : Option ℤ → ℕ → ℕ
owed_us none now = 0
owed_us (some stored) now = pos_part (stored -ℤ pos now)

arrival-owed :
    (stored : Option ℤ) (now : ℕ) → arrival_time stored (pos now) ≡ pos (now + owed_us stored now)
unfolding arrival_time
arrival-owed none now = ap pos (omega arith)
arrival-owed (some (pos v)) now =
    ground (arith, -ℤ_parts (pos v) (pos now), one_part (pos v -ℤ pos now))
arrival-owed (some (negsuc v)) now =
    ground (arith, -ℤ_parts (negsuc v) (pos now), one_part (negsuc v -ℤ pos now))

-- The sizes of a bucket in microseconds.
unfoldable pub emission_us : Limit → ℕ
emission_us l = interval l / 1000

abbrev pub tolerance_us : Limit → ℕ
tolerance_us l = emission_us l * capacity_of l

interval-emission_us : (l : Limit) → interval l ≡ 1000 * emission_us l
unfolding emission_us
interval-emission_us l = interval_quantum l

full-tolerance_us : (l : Limit) → full l ≡ 1000 * tolerance_us l
full-tolerance_us l =
    rw (full_lem l, interval-emission_us l) (mul_assoc 1000 (emission_us l) (capacity_of l))

module _ (l : Limit) (s : IsSound l) (key : Text) where
  tolerance_us_fits : 1000 * tolerance_us l < 9223372036854775808
  tolerance_us_fits = omega (arith, full-tolerance_us l, s.fits)

  entry_a : (entry_as token_bucket key l).a ≡ pos (emission_us l)
  unfolding entry_as micros emission_us
  entry_a = quot64-pos (interval l) 1000 (omega (arith, interval_small l s.sizes))

  entry_b : (entry_as token_bucket key l).b ≡ pos (tolerance_us l)
  unfolding entry_as micros
  entry_b =
      let full_ns : interval l * capacity_of l ≡ 1000 * tolerance_us l =
        sym (full_lem l) ∙ full-tolerance_us l in
      let small : interval l * capacity_of l < 9223372036854775808 =
        omega (arith, full_lem l, s.fits) in
      let whole : 1000 * tolerance_us l / 1000 ≡ tolerance_us l =
        mul-div_right (tolerance_us l) (omega arith) in
      rw
        (
          s.sizes.capacity_pos,
          mul64-pos (interval l) (capacity_of l) small,
          quot64-pos (interval l * capacity_of l) 1000 small,
          full_ns,
          whole,
        )
        refl

  -- On a bucket that both hold with the same debt, within what the limit tolerates, and for a cost
  -- within the capacity, the script decides as `gcraCheck` does: the same admission, the same
  -- remaining units and the same waits, its microseconds read as nanoseconds. What it would store
  -- when it admits owes what the arrival time that `gcraCheck` returns owes. The arrival time after
  -- the cost and the tolerance are below 2^53 microseconds, and what is stored is a double.
  pub bucket_agrees :
      (num : Doubles) (stored : Option ℤ) (tat u : ℤ) (now c : ℕ)
      → IsDouble num
      → to_number num stored ≡ stored
      → debt tat u ≡ 1000 * owed_us stored now
      → owed_us stored now ≤ tolerance_us l
      → c ≤ capacity_of l
      → now + (owed_us stored now + emission_us l * c) < 9007199254740992
      → tolerance_us l < 9007199254740992
      → let j = judge_bucket num stored (pos now) (pos c) (entry_as token_bucket key l) in
        (tat' : ℤ) × (gcra_check l tat u (pos c) ≡ some (tat', decision_of true l j))
        × (0 < c → j.allowed ≡ true → debt tat' u ≡ 1000 * owed_us (some j.write) now)
  bucket_agrees num stored tat u now c law kept same within cost sum_small t_small =
      let x = entry_as token_bucket key l in
      let e = emission_us l in
      let t = tolerance_us l in
      let d = owed_us stored now in
      let k : e * c ≤ t = mul-le-mul_left e cost in
      let e_pos : 0 < e = omega (arith, interval_lower l, interval-emission_us l) in
      let e_small : e ≤ 9007199254740992 =
        omega (arith, interval_small l s.sizes, interval-emission_us l) in
      let j : judge_bucket num stored (pos now) (pos c) x ≡ judged x e t now d c =
        judge_bucket-judged num law x e t now d c entry_a entry_b within e_pos t_small sum_small
          (omega (arith, s.sizes.capacity_upper)) e_small stored kept (arrival-owed stored now)
          (le_or_lt (d + e * c) t) in
      let v = verdict l (1000 * e) (1000 * t) u (1000 * d) c in
      let checked : gcra_check l tat u (pos c) ≡ some v =
        check-verdict l tat u c s (omega (arith, full-tolerance_us l)) cost
        ∙ rw (interval-emission_us l, full-tolerance_us l, same) refl in
      (
        v.0,
        rw (checked, j)
            (ap (λ z. some (v.0, z)) (verdict-judged l x e t now d c u within k tolerance_us_fits)),
        rw j (verdict-write l x e t now d c u within k tolerance_us_fits),
      )
