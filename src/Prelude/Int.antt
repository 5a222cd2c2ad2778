-- ===== src/Prelude/Int.antt =====
-- Signed integers over the native numbers, and Go's int64 arithmetic on them: sums and products
-- wrap around, a division truncates towards zero, and a division by zero panics (`none`).
use Prim.Native.Nat.{ℕ, zero, suc, ◌+◌, ◌-◌, ◌*◌, ◌/◌, ◌%◌, ◌≤◌, ◌<◌}
use mathlib.Core.Path.{◌≡◌, refl, ◌∙◌}
use mathlib.Core.Logic.{◌↔◌, ◌⊎◌, inl, inr}
use mathlib.Core.Bool.{Bool}
use mathlib.Core.Option.{Option, none, some}
use native.Mathlib.Omega.{arith}
use native.Mathlib.Nat.{div-le_self}
use distributed_rate_limiter.Prelude.Tests.{ltb, leb, ◌==◌, if◌then◌else◌}

-- `negsuc n` is -(n + 1).
pub data ℤ : Type 0 where
  pos : ℕ → ℤ
  negsuc : ℕ → ℤ

abbrev pub pos_part : ℤ → ℕ
pos_part (pos n) = n
pos_part (negsuc n) = 0

abbrev pub neg_part : ℤ → ℕ
neg_part (pos n) = 0
neg_part (negsuc n) = suc n

-- a - b, as an integer.
abbrev pub sub_ℕ : ℕ → ℕ → ℤ
sub_ℕ a b = if leb b a then pos (a - b) else negsuc (b - a - 1)

infixl 65 ◌+ℤ◌ ◌-ℤ◌
infixl 70 ◌*ℤ◌
infix 50 ◌≤ℤ◌ ◌<ℤ◌ ◌==ℤ◌
unfoldable pub ◌+ℤ◌ : ℤ → ℤ → ℤ
a +ℤ b = sub_ℕ (pos_part a + pos_part b) (neg_part a + neg_part b)

unfoldable pub ◌-ℤ◌ : ℤ → ℤ → ℤ
a -ℤ b = sub_ℕ (pos_part a + neg_part b) (neg_part a + pos_part b)

unfoldable pub ◌*ℤ◌ : ℤ → ℤ → ℤ
a *ℤ b =
    sub_ℕ (pos_part a * pos_part b + neg_part a * neg_part b)
      (pos_part a * neg_part b + neg_part a * pos_part b)

abbrev pub ◌≤ℤ◌ : ℤ → ℤ → Type 0
a ≤ℤ b = pos_part a + neg_part b ≤ pos_part b + neg_part a

abbrev pub ◌<ℤ◌ : ℤ → ℤ → Type 0
a <ℤ b = pos_part a + neg_part b < pos_part b + neg_part a

abbrev pub ltb_ℤ : ℤ → ℤ → Bool
ltb_ℤ a b = ltb (pos_part a + neg_part b) (pos_part b + neg_part a)

abbrev pub leb_ℤ : ℤ → ℤ → Bool
leb_ℤ a b = leb (pos_part a + neg_part b) (pos_part b + neg_part a)

abbrev pub ◌==ℤ◌ : ℤ → ℤ → Bool
a ==ℤ b = pos_part a + neg_part b == pos_part b + neg_part a

-- The negation of a natural number.
abbrev pub neg : ℕ → ℤ
neg zero = pos 0
neg (suc n) = negsuc n

-- One lemma for each operation lets `omega` work with the operations shut.
pub +ℤ_parts :
    (a b : ℤ)
    → pos_part (a +ℤ b) + neg_part a + neg_part b ≡ neg_part (a +ℤ b) + pos_part a + pos_part b
unfolding ◌+ℤ◌
+ℤ_parts a b = ground arith

pub -ℤ_parts :
    (a b : ℤ)
    → pos_part (a -ℤ b) + neg_part a + pos_part b ≡ neg_part (a -ℤ b) + pos_part a + neg_part b
unfolding ◌-ℤ◌
-ℤ_parts a b = ground arith

pub eq_of_parts : (a b : ℤ) → pos_part a + neg_part b ≡ pos_part b + neg_part a → a ≡ b
eq_of_parts a b h = ground arith

pub one_part : (a : ℤ) → (pos_part a ≡ 0) ⊎ (neg_part a ≡ 0)
one_part (pos n) = inr refl
one_part (negsuc n) = inl refl

pub pos_of_nonneg : (a : ℤ) → neg_part a ≡ 0 → a ≡ pos (pos_part a)
pos_of_nonneg (pos n) h = refl
pos_of_nonneg (negsuc n) h = absurd (omega arith)

pub ruleset int_laws = (arith, +ℤ_parts, -ℤ_parts, eq_of_parts, one_part)

pub add-le_iff : (u : ℤ) (a b : ℕ) → (u +ℤ pos a ≤ℤ u +ℤ pos b) ↔ (a ≤ b)
add-le_iff u a b = (
  λ h. omega (arith, +ℤ_parts u (pos a), +ℤ_parts u (pos b)),
  λ h. omega (arith, +ℤ_parts u (pos a), +ℤ_parts u (pos b)),
)

pub mul-pos : (a b : ℕ) → pos a *ℤ pos b ≡ pos (a * b)
unfolding ◌*ℤ◌
mul-pos a b = ground arith

-- The int64 with the same low 64 bits: two's complement wrap-around.
of_bits : ℕ → ℤ
of_bits u = if ltb u 9223372036854775808 then pos u else negsuc (18446744073709551616 - u - 1)

pub wrap64 : ℤ → ℤ
unfolding of_bits
wrap64 (pos n) = of_bits (n % 18446744073709551616)
wrap64 (negsuc n) = of_bits (18446744073709551616 - 1 - n % 18446744073709551616)

abbrev pub InInt64 : ℤ → Type 0
InInt64 z = (pos_part z < 9223372036854775808) × (neg_part z ≤ 9223372036854775808)

-- A value that an int64 can hold is kept.
pub wrap64_of_InInt64 : (z : ℤ) → InInt64 z → wrap64 z ≡ z
unfolding wrap64
wrap64_of_InInt64 (pos n) (h, k) =
    let e : n % 18446744073709551616 ≡ n = omega arith in ground arith
wrap64_of_InInt64 (negsuc n) (h, k) =
    let e : n % 18446744073709551616 ≡ n = omega arith in ground arith

unfoldable pub add64 : ℤ → ℤ → ℤ
unfolding ◌+ℤ◌ wrap64
add64 a b = wrap64 (a +ℤ b)

unfoldable pub sub64 : ℤ → ℤ → ℤ
unfolding ◌-ℤ◌ wrap64
sub64 a b = wrap64 (a -ℤ b)

unfoldable pub neg64 : ℤ → ℤ
unfolding sub64
neg64 a = sub64 (pos 0) a

unfoldable pub mul64 : ℤ → ℤ → ℤ
unfolding ◌*ℤ◌ wrap64
mul64 a b = wrap64 (a *ℤ b)

-- `a / b` of int64: the quotient of the sizes with the sign of the product.
quot : ℤ → ℤ → ℤ
quot (pos a) (pos b) = pos (a / b)
quot (pos a) (negsuc b) = neg (a / suc b)
quot (negsuc a) (pos b) = neg (suc a / b)
quot (negsuc a) (negsuc b) = pos (suc a / suc b)

unfoldable pub div64 : ℤ → ℤ → Option ℤ
unfolding quot wrap64
div64 a b = if b ==ℤ pos 0 then none else some (wrap64 (quot a b))

-- The same where the divisor is known not to be 0.
unfoldable pub quot64 : ℤ → ℤ → ℤ
unfolding quot wrap64
quot64 a b = wrap64 (quot a b)

-- `a % b` of int64 takes the sign of `a`.
remainder : ℤ → ℤ → ℤ
remainder (pos a) b = pos (a % (pos_part b + neg_part b))
remainder (negsuc a) b = neg (suc a % (pos_part b + neg_part b))

unfoldable pub rem64 : ℤ → ℤ → Option ℤ
unfolding remainder
rem64 a b = if b ==ℤ pos 0 then none else some (remainder a b)

-- At values that stay within an int64 the operations are the exact ones.
pub add64_exact : (a b : ℤ) → InInt64 (a +ℤ b) → add64 a b ≡ a +ℤ b
unfolding add64
add64_exact a b h = wrap64_of_InInt64 (a +ℤ b) h

pub sub64_exact : (a b : ℤ) → InInt64 (a -ℤ b) → sub64 a b ≡ a -ℤ b
unfolding sub64
sub64_exact a b h = wrap64_of_InInt64 (a -ℤ b) h

pub add-pos : (a b : ℕ) → pos a +ℤ pos b ≡ pos (a + b)
unfolding ◌+ℤ◌
add-pos a b = ground arith

pub sub-pos : (a b : ℕ) → b ≤ a → pos a -ℤ pos b ≡ pos (a - b)
unfolding ◌-ℤ◌
sub-pos a b h = ground arith

pub neg_parts : (a : ℕ) → (pos_part (neg a) ≡ 0) × (neg_part (neg a) ≡ a)
neg_parts zero = (refl, refl)
neg_parts (suc a) = (refl, refl)

pub sub-neg : (a : ℕ) → pos 0 -ℤ pos a ≡ neg a
unfolding ◌-ℤ◌
sub-neg zero = refl
sub-neg (suc a) = ground arith

pub sub-negsuc : (a : ℕ) → pos 0 -ℤ negsuc a ≡ pos (suc a)
unfolding ◌-ℤ◌
sub-negsuc a = ground arith

pub add64-pos : (a b : ℕ) → a + b < 9223372036854775808 → add64 (pos a) (pos b) ≡ pos (a + b)
add64-pos a b h = add64_exact (pos a) (pos b) (rw (add-pos a b) (h, omega arith)) ∙ add-pos a b

pub sub64-pos : (a b : ℕ) → b ≤ a → a < 9223372036854775808 → sub64 (pos a) (pos b) ≡ pos (a - b)
sub64-pos a b h k =
    sub64_exact (pos a) (pos b) (rw (sub-pos a b h) (omega arith, omega arith)) ∙ sub-pos a b h

pub neg64-pos : (a : ℕ) → a < 9223372036854775808 → neg64 (pos a) ≡ neg a
unfolding neg64
neg64-pos zero h = refl
neg64-pos (suc a) h = rw (sub-neg (suc a)) (wrap64_of_InInt64 (negsuc a) (omega arith, omega arith))

pub mul64-pos : (a b : ℕ) → a * b < 9223372036854775808 → mul64 (pos a) (pos b) ≡ pos (a * b)
unfolding mul64
mul64-pos a b h = rw (mul-pos a b) (wrap64_of_InInt64 (pos (a * b)) (h, omega arith))

-- A product past the int64 range, and below twice it, comes out negative.
pub mul64_high :
    (a b : ℕ)
    → 9223372036854775808 ≤ a * b
    → a * b < 18446744073709551616
    → mul64 (pos a) (pos b) ≡ negsuc (18446744073709551615 - a * b)
unfolding mul64
mul64_high a b h k =
    let e : (a * b) % 18446744073709551616 ≡ a * b = omega arith in rw (mul-pos a b) (ground arith)

pub neg64-negsuc : (a : ℕ) → a < 9223372036854775807 → neg64 (negsuc a) ≡ pos (suc a)
unfolding neg64
neg64-negsuc a h = rw (sub-negsuc a) (wrap64_of_InInt64 (pos (suc a)) (omega arith, omega arith))

pub sub64-negsuc : (a : ℕ) → a < 9223372036854775808 → sub64 (negsuc a) (pos 0) ≡ negsuc a
sub64-negsuc a h =
    let e : negsuc a -ℤ pos 0 ≡ negsuc a = omega int_laws in
    sub64_exact (negsuc a) (pos 0) (rw e (omega arith, omega arith)) ∙ e

pub div64-pos :
    (a b : ℕ) → 0 < b → a < 9223372036854775808 → div64 (pos a) (pos b) ≡ some (pos (a / b))
unfolding div64
div64-pos a b h k =
    ground (arith, wrap64_of_InInt64 (pos (a / b)) (omega (arith, div-le_self a b), omega arith))

pub quot64-pos : (a b : ℕ) → a < 9223372036854775808 → quot64 (pos a) (pos b) ≡ pos (a / b)
unfolding quot64
quot64-pos a b h = wrap64_of_InInt64 (pos (a / b)) (omega (arith, div-le_self a b), omega arith)

pub rem64-pos : (a b : ℕ) → 0 < b → rem64 (pos a) (pos b) ≡ some (pos (a % b))
unfolding rem64
rem64-pos a b h = ground arith

-- Go's `t.Add(d)` and `t.Sub(u)` on instants, as nanoseconds from the zero time: `Sub` saturates.
abbrev pub zero_time : ℤ
zero_time = pos 0

abbrev pub add_time : ℤ → ℤ → ℤ
add_time t d = t +ℤ d

saturate64 : ℤ → ℤ
saturate64 (pos n) = if ltb n 9223372036854775808 then pos n else pos 9223372036854775807
saturate64 (negsuc n) = if ltb n 9223372036854775808 then negsuc n else negsuc 9223372036854775807

unfoldable pub sub_time : ℤ → ℤ → ℤ
unfolding ◌-ℤ◌ saturate64
sub_time t u = saturate64 (t -ℤ u)

saturate64_of_InInt64 : (z : ℤ) → InInt64 z → saturate64 z ≡ z
unfolding saturate64
saturate64_of_InInt64 (pos n) (h, k) = ground arith
saturate64_of_InInt64 (negsuc n) (h, k) = ground arith

pub sub_time_exact : (t u : ℤ) → InInt64 (t -ℤ u) → sub_time t u ≡ t -ℤ u
unfolding sub_time
sub_time_exact t u h = saturate64_of_InInt64 (t -ℤ u) h

pub add-sub-cancel : (a b : ℤ) → a +ℤ b -ℤ a ≡ b
add-sub-cancel a b = omega int_laws

-- An instant `d` after `u`, seen from `u`.
pub sub_time-add : (u : ℤ) (d : ℕ) → d < 9223372036854775808 → sub_time (u +ℤ pos d) u ≡ pos d
sub_time-add u d h =
    sub_time_exact (u +ℤ pos d) u (rw (add-sub-cancel u (pos d)) (h, omega arith))
    ∙ add-sub-cancel u (pos d)

sub_self : (u : ℤ) → u -ℤ u ≡ pos 0
sub_self u = omega int_laws

pub sub_time_self : (u : ℤ) → sub_time u u ≡ pos 0
sub_time_self u = sub_time_exact u u (rw (sub_self u) (omega arith, omega arith)) ∙ sub_self u
