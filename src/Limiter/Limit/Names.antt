-- ===== src/Limiter/Limit/Names.antt =====
-- Where counters live: the key tells the tenant and the rule.
use distributed_rate_limiter.Prelude.{
  ℕ, ◌≡◌, ◌⊎◌, inl, inr, ◌<◌, zero, suc, All, drop, refl, ap, arith, true, false, ◌||◌, none, [],
  ◌∷◌, ◌++◌, Text, contains_byte,
}
use distributed_rate_limiter.Prelude.Format.{hex_encode, hex_digit, take}
use distributed_rate_limiter.Limiter.Limit.{Limit, validate}
use distributed_rate_limiter.Limiter.Limit.Key.{fingerprint, described, key}

contains-append :
    (c : ℕ) (s t : Text) → contains_byte c (s ++ t) ≡ contains_byte c s || contains_byte c t
unfolding contains_byte
contains-append c [] t = refl
contains-append c (b ∷ s) t = ground (arith, contains-append c s t)

contains-last : (c : ℕ) (s t : Text) → contains_byte c (s ++ c ∷ t) ≡ true
unfolding contains_byte
contains-last c [] t = ground arith
contains-last c (b ∷ s) t = ground (arith, contains-last c s t)

-- A text is split at its last occurrence of a byte in one way only.
split_last :
    (c : ℕ) (s t a b : Text)
    → contains_byte c a ≡ false
    → contains_byte c b ≡ false
    → s ++ c ∷ a ≡ t ++ c ∷ b
    → (s ≡ t) × (a ≡ b)
split_last c [] [] a b ha hb e = ground arith
split_last c [] (y ∷ t) a b ha hb e = ground (arith, contains-last c t b)
split_last c (x ∷ s) [] a b ha hb e = ground (arith, contains-last c s a)
split_last c (x ∷ s) (y ∷ t) a b ha hb e = ground (arith, split_last c s t a b ha hb)

-- No byte of the hexadecimal digits.
abbrev IsOutside : ℕ → Type 0
IsOutside c = (102 < c) ⊎ ((57 < c) × (c < 97))

hex-outside :
    (c : ℕ) (t : Text) → IsOutside c → All (λ b. b < 256) t → contains_byte c (hex_encode t) ≡ false
unfolding contains_byte hex_encode hex_digit
hex-outside c [] o h = refl
hex-outside c (b ∷ t) o h = ground (arith, hex-outside c t o h.1)

take-All : (n : ℕ) (t : Text) → All (λ b. b < 256) t → All (λ b. b < 256) (take n t)
take-All zero t h = tt
take-All (suc n) [] h = tt
take-All (suc n) (b ∷ t) h = (h.0, take-All n t h.1)

named : (l : Limit) → validate l ≡ none → contains_byte b'}' l.name ≡ false
unfolding validate
named l v = ground arith

module _ (sha256 : Text → Text) (is_bytes : (t : Text) → All (λ b. b < 256) (sha256 t)) where
  fingerprint-outside :
      (l : Limit) (c : ℕ) → IsOutside c → contains_byte c (fingerprint sha256 l) ≡ false
  unfolding fingerprint
  fingerprint-outside l c o =
      hex-outside c (take 4 (sha256 (described l))) o
        (take-All 4 (sha256 (described l)) (is_bytes (described l)))

  suffix-outside :
      (l : Limit)
      → validate l ≡ none
      → contains_byte b'}' (b':' ∷ (l.name ++ b':' ∷ fingerprint sha256 l)) ≡ false
  unfolding contains_byte
  suffix-outside l v = ground (
    arith,
    contains-append b'}' l.name (b':' ∷ fingerprint sha256 l),
    named l v,
    fingerprint-outside l b'}' (inl (omega arith)),
  )

  -- Two counters of accepted limits share a key only if they are of the same tenant, the same rule's
  -- name and the same fingerprint, whatever bytes the tenants' ids hold. SHA-256 is any function that
  -- returns bytes.
  pub key-determines :
      (l k : Limit) (t u : Text)
      → validate l ≡ none
      → validate k ≡ none
      → key sha256 l t ≡ key sha256 k u
      → (t ≡ u) × (l.name ≡ k.name) × (fingerprint sha256 l ≡ fingerprint sha256 k)
  unfolding key
  key-determines l k t u v w e =
      let ls = l.name ++ b':' ∷ fingerprint sha256 l in
      let ks = k.name ++ b':' ∷ fingerprint sha256 k in
      let (tenants, rest) =
        split_last b'}' t u (b':' ∷ ls) (b':' ∷ ks) (suffix-outside l v) (suffix-outside k w)
          (ap (drop 5) e) in
      let (names, prints) =
        split_last b':' l.name k.name (fingerprint sha256 l) (fingerprint sha256 k)
          (fingerprint-outside l b':' (inr (omega arith, omega arith)))
          (fingerprint-outside k b':' (inr (omega arith, omega arith))) (ap (drop 1) rest) in
      (tenants, names, prints)
