-- ===== src/Prelude/Sorts.antt =====
-- What `sort.Slice` computes with a strict weak order, as an insertion sort.
use mathlib.Core.Path.{◌≡◌}
use mathlib.Core.Logic.{inl, inr}
use mathlib.Core.Bool.{Bool, true, false}
use mathlib.Core.List.{List, [], ◌∷◌}
use distributed_rate_limiter.Prelude.Tests.{if◌then◌else◌, Bool-cases}
use distributed_rate_limiter.Prelude.Lists.{All, All-map}

module _ {ℓ} {A : Type ℓ} (before : A → A → Bool) where
  unfoldable pub insert_by : A → List A → List A
  insert_by x [] = x ∷ []
  insert_by x (y ∷ ys) = if before x y then x ∷ y ∷ ys else y ∷ insert_by x ys

  unfoldable pub sort_by : List A → List A
  unfolding insert_by
  sort_by [] = []
  sort_by (x ∷ xs) = insert_by x (sort_by xs)

  -- No entry comes before an earlier one.
  abbrev pub IsSortedBy : List A → Type 0
  IsSortedBy [] = Unit
  IsSortedBy (x ∷ xs) = All (λ y. before y x ≡ false) xs × IsSortedBy xs

  -- A strict weak order.
  pub record IsStrict : Type ℓ where
    pub asym : (x y : A) → before x y ≡ true → before y x ≡ false
    pub trans : (x y z : A) → before y x ≡ false → before z y ≡ false → before z x ≡ false

  module _ {κ} (P : A → Type κ) where
    pub All-insert_by : (x : A) (xs : List A) → P x → All P xs → All P (insert_by x xs)
    unfolding insert_by
    All-insert_by x [] p h = (p, tt)
    All-insert_by x (y ∷ ys) p h = elim (Bool-cases (before x y)) [
      | inl lt ↦ rw lt (p, h)
      | inr ge ↦ rw ge (h.0, All-insert_by x ys p h.1)
    ]

    pub All-sort_by : (xs : List A) → All P xs → All P (sort_by xs)
    unfolding sort_by
    All-sort_by [] h = tt
    All-sort_by (x ∷ xs) h = All-insert_by x (sort_by xs) h.0 (All-sort_by xs h.1)

    insert_by_all : (x : A) (xs : List A) → All P (insert_by x xs) → P x × All P xs
    unfolding insert_by
    insert_by_all x [] h = h
    insert_by_all x (y ∷ ys) h = split (before x y) (λ k. insert_by_all x ys k) h
      where
        split :
            (b : Bool)
            → (All P (insert_by x ys) → P x × All P ys)
            → All P (if b then x ∷ y ∷ ys else y ∷ insert_by x ys)
            → P x × All P (y ∷ ys)
        split true inner k = (k.0, k.1)
        split false inner k = let (p, rest) = inner k.1 in (p, (k.0, rest))

    -- What holds of every entry of the sorted list holds of every entry of the list.
    pub sort_by_all : (xs : List A) → All P (sort_by xs) → All P xs
    unfolding sort_by
    sort_by_all [] h = tt
    sort_by_all (x ∷ xs) h =
        let (p, rest) = insert_by_all x (sort_by xs) h in (p, sort_by_all xs rest)

  module _ (strict : IsStrict) where
    insert-IsSortedBy : (x : A) (xs : List A) → IsSortedBy xs → IsSortedBy (insert_by x xs)
    unfolding insert_by
    insert-IsSortedBy x [] h = (tt, tt)
    insert-IsSortedBy x (y ∷ ys) h = elim (Bool-cases (before x y)) [
      | inl lt ↦ rw lt (
          let above = strict.asym x y lt in
          (
            (
              above,
              All-map (λ z. before z y ≡ false) (λ z. before z x ≡ false) ys
                  (λ z k. strict.trans x y z above k) h.0,
            ),
            h,
          ))
      | inr ge ↦
          rw ge (All-insert_by (λ z. before z y ≡ false) x ys ge h.0, insert-IsSortedBy x ys h.1)
    ]

    pub sort_by-IsSortedBy : (xs : List A) → IsSortedBy (sort_by xs)
    unfolding sort_by
    sort_by-IsSortedBy [] = tt
    sort_by-IsSortedBy (x ∷ xs) = insert-IsSortedBy x (sort_by xs) (sort_by-IsSortedBy xs)
