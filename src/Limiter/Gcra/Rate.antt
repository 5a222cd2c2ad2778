-- ===== src/Limiter/Gcra/Rate.antt =====
-- The rate that the token bucket holds over any sequence of requests.
use distributed_rate_limiter.Prelude.{
  ℕ, ◌+◌, ◌-◌, ◌*◌, ◌≤◌, ◌<◌, ◌≡◌, refl, Option, some, arith, List, [], ◌∷◌, ◌>>=◌, All,
  if◌then◌else◌,
}
use distributed_rate_limiter.Prelude.Int.{ℤ, pos, ◌+ℤ◌}
use native.Mathlib.Nat.{mul-add}
use distributed_rate_limiter.Limiter.Limit.{Limit}
use distributed_rate_limiter.Limiter.Limit.Sizes.{capacity_of}
use distributed_rate_limiter.Limiter.Limit.Emission.{interval}
use distributed_rate_limiter.Limiter.Request.{Decision}
use distributed_rate_limiter.Limiter.Gcra.{gcra_check}
use distributed_rate_limiter.Limiter.Gcra.Bucket.{debt, debt-add, full, IsSound, debt_later}
use distributed_rate_limiter.Limiter.Gcra.Admission.{Within, gcra_check_admits}

-- A sequence of requests on one counter, each a wait since the one before and a number of units.
-- As in the store, only an admitted request writes its arrival time back. The result is the
-- arrival time at the end and the number of units admitted.
unfoldable pub serve : Limit → ℤ → ℤ → List (ℕ × ℕ) → Option (ℤ × ℕ)
serve l tat now [] = some (tat, 0)
serve l tat now ((wait, c) ∷ rest) = do
  (tat', d) ← gcra_check l tat (now +ℤ pos wait) (pos c)
  (end, n) ← serve l (if d.allowed then tat' else tat) (now +ℤ pos wait) rest
  some (end, if d.allowed then n + c else n)

abbrev pub duration : List (ℕ × ℕ) → ℕ
duration [] = 0
duration ((wait, c) ∷ rest) = wait + duration rest

-- Every request asks for 1 up to `capacity` units, as `Memory.Check` makes sure.
abbrev pub IsAskable : Limit → List (ℕ × ℕ) → Type 0
IsAskable l = All (λ r. (0 < r.1) × (r.1 ≤ capacity_of l))

-- One request moves the debt by what it was given.
serve_step :
    (l : Limit) (tat now : ℤ) (c : ℕ)
    → IsSound l
    → Within l tat now
    → (0 < c) × (c ≤ capacity_of l)
    → (tat' : ℤ) × (d : Decision) × (gcra_check l tat now (pos c) ≡ some (tat', d))
      × Within l (if d.allowed then tat' else tat) now
      × (debt (if d.allowed then tat' else tat) now
          ≡ debt tat now + interval l * (if d.allowed then c else 0))
serve_step l tat now c s h a =
    let (tat', d, e, fits, grown, kept, inside) = gcra_check_admits l tat now c s h a.0 a.1 in
    (tat', d, e, ground arith, ground (arith, debt-add now (debt tat now + interval l * c)))

serve_total :
    (l : Limit) (tat now : ℤ) (rs : List (ℕ × ℕ))
    → IsSound l
    → Within l tat now
    → IsAskable l rs
    → (end : ℤ) × (n : ℕ) × (serve l tat now rs ≡ some (end, n))
      × (interval l * n + debt tat now ≤ full l + duration rs)
unfolding serve
serve_total l tat now [] s h a = (tat, 0, refl, omega arith)
serve_total l tat now ((wait, c) ∷ rest) s h a =
    let less = debt_later tat now (now +ℤ pos wait) wait refl in
    let (tat', d, e, inside, paid) = serve_step l tat (now +ℤ pos wait) c s (omega arith) a.0 in
    let (end, n, run, bound) =
      serve_total l (if d.allowed then tat' else tat) (now +ℤ pos wait) rest s inside a.1 in
    (end, if d.allowed then n + c else n, rw (e, run), ground (arith, mul-add (interval l) n c))

-- For an accepted limit whose tolerance fits an int64 and an arrival time within it, over any
-- sequence of requests of 1 up to `capacity` units with the clock never going back, no check
-- panics, and the units admitted take together no more time to accrue than what the bucket had
-- left at the start plus the time that passed.
pub serve_bounded :
    (l : Limit) (tat now : ℤ) (rs : List (ℕ × ℕ))
    → IsSound l
    → Within l tat now
    → IsAskable l rs
    → (end : ℤ) × (n : ℕ) × (serve l tat now rs ≡ some (end, n))
      × (interval l * n ≤ full l - debt tat now + duration rs)
serve_bounded l tat now rs s h a =
    let (end, n, run, bound) = serve_total l tat now rs s h a in (end, n, run, omega arith)
