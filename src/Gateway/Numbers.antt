-- ===== src/Gateway/Numbers.antt =====
-- `strconv.ParseInt(s, 10, 64)`.
use distributed_rate_limiter.Prelude.{
  ℕ, ◌+◌, ◌*◌, ◌-◌, ◌&&◌, ltb, leb, ◌==◌, Option, none, some, [], ◌∷◌, Text, if◌then◌else◌, ◌>>=◌,
}
use distributed_rate_limiter.Prelude.Int.{ℤ, pos, neg}

-- The digits, most significant first, after the number read so far.
unfoldable pub parse_digits : ℕ → Text → Option ℕ
parse_digits n [] = some n
parse_digits n (b ∷ bs) =
    let rest = parse_digits (10 * n + (b - b'0')) bs in
    if leb b'0' b && leb b b'9' then rest else none

abbrev parse_size : Text → Option ℕ
parse_size [] = none
parse_size (b ∷ bs) = parse_digits 0 (b ∷ bs)

-- `none` is a syntax error or a number that no int64 holds.
unfoldable pub parse_int : Text → Option ℤ
unfolding parse_digits
parse_int [] = none
parse_int (b ∷ bs) =
    if b == b'-'
    then parse_size bs >>= (λ n. if ltb 9223372036854775808 n then none else some (neg n))
    else parse_size (if b == b'+' then bs else b ∷ bs)
      >>= (λ n. if ltb 9223372036854775807 n then none else some (pos n))
