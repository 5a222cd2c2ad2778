-- ===== src/Prelude/Format.antt =====
-- The formatting of the Go library that the keys use: decimal integers and hexadecimal bytes.
use Prim.Native.Nat.{ℕ, zero, suc, ◌+◌, ◌/◌, ◌%◌}
use mathlib.Core.Path.{◌≡◌, refl}
use mathlib.Core.List.{List, [], ◌∷◌}
use distributed_rate_limiter.Prelude.Tests.{ltb, if◌then◌else◌}
use distributed_rate_limiter.Prelude.Bytes.{Text}
use distributed_rate_limiter.Prelude.Int.{ℤ, pos, negsuc}

abbrev pub take {ℓ} : {A : Type ℓ} → ℕ → List A → List A
take zero xs = []
take (suc n) [] = []
take (suc n) (x ∷ xs) = x ∷ take n xs

-- Decimal digits, most significant first. Twenty digits hold every 64-bit number.
unfoldable pub decimal : ℕ → ℕ → Text → Text
decimal zero n rest = rest
decimal (suc fuel) n rest =
    let more = decimal fuel (n / 10) ((b'0' + n % 10) ∷ rest) in
    if ltb n 10 then (b'0' + n) ∷ rest else more

unfoldable pub format_int : ℤ → Text
unfolding decimal
format_int (pos n) = decimal 20 n []
format_int (negsuc n) = b'-' ∷ decimal 20 (suc n) []

pub format_int-pos : (n : ℕ) → format_int (pos n) ≡ decimal 20 n []
unfolding format_int
format_int-pos n = refl

unfoldable pub hex_digit : ℕ → ℕ
hex_digit d = if ltb d 10 then b'0' + d else b'W' + d

unfoldable pub hex_encode : Text → Text
unfolding hex_digit
hex_encode [] = []
hex_encode (b ∷ t) = hex_digit (b / 16) ∷ hex_digit (b % 16) ∷ hex_encode t
