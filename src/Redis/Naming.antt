-- ===== src/Redis/Naming.antt =====
-- Naming a store: internal/limiter/redis/storegen.lua and the client that reads its answer.
use distributed_rate_limiter.Prelude.{
  ℕ, zero, suc, ◌+◌, ◌-◌, ◌*◌, ◌/◌, ◌%◌, ◌^◌, ◌<◌, ◌≡◌, ◌≢◌, refl, ap, ◌∙◌, true, Bool-cases, inl,
  inr, ltb, Option, none, some, List, [], ◌∷◌, All, Text, arith,
}
use distributed_rate_limiter.Prelude.Int.{pos}
use distributed_rate_limiter.Prelude.Format.{decimal, format_int, format_int-pos}
use distributed_rate_limiter.Gateway.Numbers.{parse_digits}
use distributed_rate_limiter.Redis.Identity.{
  parse_uint, name_store, mint, mints, generation_of, Got, missing, value,
}

digit_read :
    (n d : ℕ) (rest : Text)
    → d < 10
    → parse_digits n ((b'0' + d) ∷ rest) ≡ parse_digits (10 * n + d) rest
unfolding parse_digits
digit_read n d rest h = let e : b'0' + d - b'0' ≡ d = omega arith in rw e (ground arith)

read_end : (n : ℕ) → parse_digits n [] ≡ some n
unfolding parse_digits
read_end n = refl

parse_digits-decimal :
    (fuel n : ℕ) (rest : Text)
    → n < 10 ^ suc fuel
    → parse_digits 0 (decimal (suc fuel) n rest) ≡ parse_digits n rest
unfolding decimal
parse_digits-decimal zero n rest h =
    let small : ltb n 10 ≡ true = ground arith in
    rw small (digit_read 0 n rest (omega arith) ∙ ap (λ k. parse_digits k rest) (omega arith))
parse_digits-decimal (suc fuel) n rest h = elim (Bool-cases (ltb n 10)) [
  | inl small ↦
      rw small (digit_read 0 n rest (ground arith) ∙ ap (λ k. parse_digits k rest) (omega arith))
  | inr large ↦
      let fits : n / 10 < 10 ^ suc fuel = omega arith in
      let whole : 10 * (n / 10) + n % 10 ≡ n = omega arith in
      rw large (
        parse_digits-decimal fuel (n / 10) ((b'0' + n % 10) ∷ rest) fits
        ∙ (digit_read (n / 10) (n % 10) rest (omega arith) ∙ ap (λ k. parse_digits k rest) whole))
]

decimal-starts : (fuel n : ℕ) (rest : Text) → decimal (suc fuel) n rest ≢ []
unfolding decimal
decimal-starts zero n rest h = elim (Bool-cases (ltb n 10)) [
  | inl small ↦ absurd (ground (arith, h, small))
  | inr large ↦ absurd (ground (arith, h, large))
]
decimal-starts (suc fuel) n rest h = elim (Bool-cases (ltb n 10)) [
  | inl small ↦ absurd (ground (arith, h, small))
  | inr large ↦ decimal-starts fuel (n / 10) ((b'0' + n % 10) ∷ rest) (ground (arith, h, large))
]

parse_uint_read :
    (t : Text) (n : ℕ)
    → t ≢ []
    → parse_digits 0 t ≡ some n
    → n < 18446744073709551616
    → parse_uint t ≡ some n
unfolding parse_uint
parse_uint_read [] n h e k = absurd (h refl)
parse_uint_read (b ∷ bs) n h e k = ground (arith, e)

-- Reading a generation back gives the generation.
pub parse_uint-format_int :
    (n : ℕ) → n < 18446744073709551616 → parse_uint (format_int (pos n)) ≡ some n
parse_uint-format_int n h = rw (format_int-pos n) (
    parse_uint_read (decimal 20 n []) n (decimal-starts 19 n [])
      (parse_digits-decimal 19 n [] (omega arith) ∙ read_end n) h)

-- What `GET` answers for the key as it is.
abbrev pub got_of : Option Text → Got
got_of none = missing
got_of (some t) = value t

module _ (trim : Text → Text)
    (kept : (n : ℕ) → trim (format_int (pos n)) ≡ format_int (pos n)) where
  mint_first :
      (c : ℕ)
      → 0 < c
      → c < 18446744073709551616
      → mint trim none c ≡ (some (format_int (pos c)), some c)
  unfolding mint name_store
  mint_first zero h k = absurd (omega arith)
  mint_first (suc c) h k = rw (kept (suc c), parse_uint-format_int (suc c) k) refl

  mint_later :
      (c later : ℕ)
      → 0 < later
      → c < 18446744073709551616
      → mint trim (some (format_int (pos c))) later ≡ (some (format_int (pos c)), some c)
  unfolding mint name_store
  mint_later c zero h k = absurd (omega arith)
  mint_later c (suc later) h k = rw (kept c, parse_uint-format_int c k) refl

  mints_later :
      (c : ℕ) (cs : List ℕ)
      → c < 18446744073709551616
      → All (λ n. 0 < n) cs
      → ((mints trim (some (format_int (pos c))) cs).0 ≡ some (format_int (pos c)))
        × All (λ o. o ≡ some c) (mints trim (some (format_int (pos c))) cs).1
  unfolding mints
  mints_later c [] h k = (refl, tt)
  mints_later c (x ∷ cs) h k =
      let (stored, all) = mints_later c cs h k.1 in rw (mint_later c x k.0 h) (stored, (refl, all))

  -- However many gateways name an empty store, whatever generations they propose: each of them is
  -- told the generation that the first one proposed, and that is what the store says from then on.
  -- Trimming leaves the digits of a number.
  pub mints-AreOne :
      (c : ℕ) (cs : List ℕ)
      → c < 18446744073709551616
      → All (λ n. 0 < n) (c ∷ cs)
      → All (λ o. o ≡ some c) (mints trim none (c ∷ cs)).1
        × (generation_of trim (got_of (mints trim none (c ∷ cs)).0) ≡ some c)
  unfolding mints generation_of
  mints-AreOne c cs h k =
      let (stored, all) = mints_later c cs h k.1 in
      rw (mint_first c k.0 h) ((refl, all), rw (stored, kept c, parse_uint-format_int c h) refl)
