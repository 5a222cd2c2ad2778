-- ===== src/Limiter/Tests.antt =====
-- Concrete runs of the limiter, and the theorems of its modules at them.
use distributed_rate_limiter.Prelude.{
  ℕ, ◌+◌, ◌-◌, Bool, ◌*◌, ◌≤◌, ◌<◌, ◌≡◌, refl, ◌↔◌, true, false, none, some, arith, List, [], ◌∷◌,
  Text, bytes, text_eq, contains_byte,
}
use distributed_rate_limiter.Prelude.Int.{
  add64, sub_time, neg64, mul64, rem64, div64, ◌-ℤ◌, ℤ, pos, quot64, ◌+ℤ◌, ◌≤ℤ◌,
}
use distributed_rate_limiter.Limiter.Limit.{
  tolerance, capacity, Limit, token_bucket, sliding_window, validate, emission,
}
use distributed_rate_limiter.Limiter.Limit.Sizes.{HasSizes, count_of, validate-HasSizes}
use distributed_rate_limiter.Limiter.Limit.Emission.{interval}
use distributed_rate_limiter.Limiter.Request.{Request, Decision}
use distributed_rate_limiter.Limiter.Gcra.{headroom, gcra_check}
use distributed_rate_limiter.Limiter.Gcra.Bucket.{debt, full, IsSound}
use distributed_rate_limiter.Limiter.Gcra.Admission
use distributed_rate_limiter.Limiter.Gcra.Rate
use distributed_rate_limiter.Limiter.Limit.Key.{key, fingerprint}
use distributed_rate_limiter.Limiter.Limit.Names
use distributed_rate_limiter.Limiter.Gcra.Overflow
use distributed_rate_limiter.Limiter.Window.{window_check}
use distributed_rate_limiter.Limiter.Window.Log
use distributed_rate_limiter.Limiter.Window.Retry
use distributed_rate_limiter.Limiter.Window.Exact
use distributed_rate_limiter.Limiter.Memory.{Memory, new_memory}
use distributed_rate_limiter.Limiter.Memory.Atomic

-- Two a second with a burst of 3.
abbrev bucket : Limit
bucket = record {
  name = bytes "api";
  algorithm = token_bucket;
  count = pos 2;
  period = pos 1000000000;
  burst = pos 3;
}

-- Two a second, exactly.
abbrev window : Limit
window = record bucket { algorithm = sliding_window; burst = pos 0 }

-- One a day with a burst of 200,000.
abbrev huge : Limit
huge = record bucket { count = pos 1; period = pos 86400000000000; burst = pos 200000 }

bucket-valid : validate bucket ≡ none
unfolding validate text_eq contains_byte quot64
bucket-valid = refl

window-valid : validate window ≡ none
unfolding validate text_eq contains_byte quot64
window-valid = refl

huge-valid : validate huge ≡ none
unfolding validate text_eq contains_byte quot64
huge-valid = refl

bucket-IsSound : IsSound bucket
unfolding full interval capacity
bucket-IsSound = record { sizes = validate-HasSizes bucket bucket-valid; fits = omega arith }

fits-full : (d : ℕ) → d ≤ 1500000000 → d ≤ full bucket
unfolding full interval capacity
fits-full d h = omega arith

huge-full : (9223372036854775808 < full huge) × (full huge < 18446744073709551616)
unfolding full interval capacity
huge-full = (omega arith, omega arith)

window-HasSizes : HasSizes window
window-HasSizes = validate-HasSizes window window-valid

empty-Within : debt (pos 0) (pos 0) ≤ full bucket
unfolding ◌-ℤ◌
empty-Within = fits-full 0 (omega arith)

gcra_check_admits_example :
    (tat' : ℤ) × (d : Decision) × (gcra_check bucket (pos 0) (pos 0) (pos 3) ≡ some (tat', d))
    × ((d.allowed ≡ true) ↔ (debt (pos 0) (pos 0) + interval bucket * 3 ≤ full bucket))
    × (d.allowed ≡ true → tat' ≡ pos 0 +ℤ pos (debt (pos 0) (pos 0) + interval bucket * 3))
    × (d.allowed ≡ false → tat' ≡ pos 0 +ℤ pos (debt (pos 0) (pos 0)))
    × (debt tat' (pos 0) ≤ full bucket)
unfolding capacity
gcra_check_admits_example =
    Admission.gcra_check_admits bucket (pos 0) (pos 0) 3 bucket-IsSound empty-Within (omega arith)
      (omega arith)

-- The decision on `bucket` with these numbers.
abbrev answer : Bool → ℤ → ℤ → ℤ → Decision
answer allowed remaining retry reset = record {
  name = bytes "api";
  allowed = allowed;
  limit = pos 3;
  remaining = remaining;
  retry_after = retry;
  reset_after = reset;
}

first_unit :
    gcra_check bucket (pos 0) (pos 0) (pos 1)
    ≡ some (pos 500000000, answer true (pos 2) (pos 0) (pos 500000000))
unfolding gcra_check emission div64 rem64 tolerance ◌+ℤ◌ mul64 neg64 capacity headroom sub_time
first_unit = refl

second_unit :
    gcra_check bucket (pos 500000000) (pos 0) (pos 1)
    ≡ some (pos 1000000000, answer true (pos 1) (pos 0) (pos 1000000000))
unfolding gcra_check emission div64 rem64 tolerance ◌+ℤ◌ mul64 neg64 capacity headroom sub_time
second_unit = refl

spent :
    gcra_check bucket (pos 1500000000) (pos 0) (pos 1)
    ≡ some (pos 1500000000, answer false (pos 0) (pos 500000000) (pos 1500000000))
unfolding gcra_check emission div64 rem64 tolerance ◌+ℤ◌ mul64 neg64 capacity headroom sub_time
spent = refl

recovered :
    gcra_check bucket (pos 1500000000) (pos 500000000) (pos 1)
    ≡ some (pos 2000000000, answer true (pos 0) (pos 0) (pos 1500000000))
unfolding gcra_check emission div64 rem64 tolerance ◌+ℤ◌ mul64 neg64 capacity headroom sub_time
recovered = refl

retry_after_exact_example : (true ≡ true) ↔ (pos 0 +ℤ pos 500000000 ≤ℤ pos 500000000)
unfolding ◌-ℤ◌ capacity
retry_after_exact_example =
    Admission.retry_after_exact bucket (pos 1500000000) (pos 0) (pos 500000000) 1 (pos 1500000000)
      (pos 2000000000) (answer false (pos 0) (pos 500000000) (pos 1500000000))
      (answer true (pos 0) (pos 0) (pos 1500000000)) bucket-IsSound
      (fits-full 1500000000 (omega arith)) (omega arith) (omega arith) (omega arith) spent refl
      recovered

abbrev asks : List (ℕ × ℕ)
asks = (0, 3) ∷ (500000000, 1) ∷ []

serve_bounded_example :
    (end : ℤ) × (n : ℕ) × (Rate.serve bucket (pos 0) (pos 0) asks ≡ some (end, n))
    × (interval bucket * n ≤ full bucket - debt (pos 0) (pos 0) + Rate.duration asks)
unfolding capacity
serve_bounded_example =
    Rate.serve_bounded bucket (pos 0) (pos 0) asks bucket-IsSound empty-Within
      ((omega arith, omega arith), ((omega arith, omega arith), tt))

overflow_lockout_example :
    (d : Decision) × (gcra_check huge (pos 0) (pos 0) (pos 1) ≡ some (pos 0, d))
    × (d.allowed ≡ false)
overflow_lockout_example =
    Overflow.overflow_lockout huge (pos 0) (pos 0) huge-valid huge-full.0 huge-full.1

-- Two units at 0 and at half a second.
abbrev filled : List ℤ
filled = pos 0 ∷ pos 500000000 ∷ []

window_check-Admits_example :
    (kept : List ℤ) × Log.IsPruned window (pos 1000000000) filled kept
    × (log' : List ℤ) × (d : Decision) × (window_check window filled (pos 1000000000) (pos 1)
        ≡ some (log', d))
    × Log.Admits window kept (pos 1000000000) 1 log' d
window_check-Admits_example =
    Log.window_check-Admits window filled (pos 1000000000) 1 window-HasSizes (omega arith)
      (omega arith) (omega arith)

window_full :
    window_check window filled (pos 600000000) (pos 1)
    ≡ some (filled, record (answer false (pos 0) (pos 400000000) (pos 400000000)) { limit = pos 2 })
unfolding window_check add64 neg64 sub_time
window_full = refl

window_freed :
    window_check window filled (pos 1000000000) (pos 1)
    ≡ some (
      pos 500000000 ∷ pos 1000000000 ∷ [],
      record (answer true (pos 0) (pos 0) (pos 500000000)) { limit = pos 2 },
    )
unfolding window_check add64 neg64 sub_time
window_freed = refl

window_retry_exact_example : (true ≡ true) ↔ (pos 600000000 +ℤ pos 400000000 ≤ℤ pos 1000000000)
window_retry_exact_example =
    Retry.window_retry_exact window filled (pos 600000000) (pos 1000000000) 1 filled
      (pos 500000000 ∷ pos 1000000000 ∷ [])
      (record (answer false (pos 0) (pos 400000000) (pos 400000000)) { limit = pos 2 })
      (record (answer true (pos 0) (pos 0) (pos 500000000)) { limit = pos 2 }) window-HasSizes
      (omega arith) (omega arith, tt) (omega arith, (omega arith, tt)) (omega arith) (omega arith)
      (omega arith) window_full refl window_freed

abbrev singles : List (ℕ × ℕ)
singles = (0, 1) ∷ (500000000, 1) ∷ (100000000, 1) ∷ (400000000, 1) ∷ []

window_exact_example :
    (admitted : List ℤ) × (Exact.serve window [] (pos 0) singles ≡ some admitted)
    × ((from : ℤ) → Exact.in_window window from admitted ≤ count_of window)
window_exact_example = Exact.window_exact window (pos 0) singles window-HasSizes (
  (omega arith, omega arith),
  ((omega arith, omega arith), ((omega arith, omega arith), ((omega arith, omega arith), tt))),
)

-- In place of SHA-256.
abbrev digest : Text → Text
digest t = t

abbrev both : Request
both = record {
  tenant = bytes "acme";
  limits = bucket ∷ window ∷ [];
  cost = pos 1;
  peek_only = false;
  store_gen = 0;
  policy_gen = 0;
}

abbrev store : Memory
store = new_memory (pos 0)

-- In place of SHA-256, with bytes for its result.
abbrev four_bytes : Text → Text
four_bytes t = 1 ∷ 2 ∷ 3 ∷ 255 ∷ []

key-determines_example :
    (bytes "acme" ≡ bytes "acme")
    × (bucket.name ≡ window.name)
    × (fingerprint four_bytes bucket ≡ fingerprint four_bytes window)
unfolding key fingerprint
key-determines_example =
    Names.key-determines four_bytes
      (λ t. (omega arith, (omega arith, (omega arith, (omega arith, tt))))) bucket window
      (bytes "acme") (bytes "acme") bucket-valid window-valid refl
