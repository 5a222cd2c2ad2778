-- ===== src/Gateway/Waiting.antt =====
-- The whole seconds of the Retry-After and X-RateLimit-Reset headers.
use distributed_rate_limiter.Prelude.{
  ℕ, ◌+◌, ◌*◌, ◌/◌, ◌%◌, ◌<◌, ◌≤◌, ◌≡◌, refl, arith, Bool-cases, inl, inr,
}
use distributed_rate_limiter.Prelude.Int.{pos, quot64-pos, rem64-pos, add64-pos, ◌==ℤ◌, leb_ℤ}
use distributed_rate_limiter.Gateway.{seconds_ceil}

-- A wait of so many nanoseconds is rounded up to whole seconds: to wait for them is to wait long
-- enough, and one second less would be too short.
pub seconds_ceil_up :
    (n : ℕ)
    → n < 9223372036854775808
    → (s : ℕ) × (seconds_ceil (pos n) ≡ pos s)
      × ((n ≤ s * 1000000000) × (s * 1000000000 < n + 1000000000))
unfolding seconds_ceil
seconds_ceil_up n lt = elim (Bool-cases (leb_ℤ (pos n) (pos 0))) [
  | inl z ↦ let zero_ : n ≡ 0 = ground arith in (0, rw z refl, (omega arith, omega arith))
  | inr p ↦
      let r = rem64-pos n 1000000000 (omega arith) in
      let q = quot64-pos n 1000000000 lt in
      elim (Bool-cases (pos (n % 1000000000) ==ℤ pos 0)) [
        | inl e ↦
            let whole : n % 1000000000 ≡ 0 = ground arith in
            (n / 1000000000, rw (p, r, e) q, (omega arith, omega arith))
        | inr e ↦
            let part : 0 < n % 1000000000 = ground arith in
            (
              n / 1000000000 + 1,
              rw (p, r, e, q) (add64-pos (n / 1000000000) 1 (omega arith)),
              (omega arith, omega arith),
            )
      ]
]
