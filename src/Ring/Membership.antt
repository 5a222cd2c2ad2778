-- ===== src/Ring/Membership.antt =====
-- Which nodes a list holds, sorted or not.
use distributed_rate_limiter.Prelude.{
  ℕ, zero, suc, ◌≡◌, ◌⊎◌, inl, inr, refl, sym, ap, arith, Bool, true, false, none, some, List, [],
  ◌∷◌, text_eq_iff, text_lt, get_elem?, All, All-map, if◌then◌else◌, Bool-cases,
}
use distributed_rate_limiter.Cluster.Members.{
  Node, has_id, HasDistinctIds, insert_member, sort_onto, sort_members,
}
use distributed_rate_limiter.Ring.{refuse_ids}

-- An entry of a list.
unfoldable pub IsIn : Node → List Node → Type 0
IsIn n [] = ⊥
IsIn n (m ∷ ms) = (n ≡ m) ⊎ IsIn n ms

pub get_elem?-IsIn : (ns : List Node) (i : ℕ) (n : Node) → get_elem? ns i ≡ some n → IsIn n ns
unfolding IsIn
get_elem?-IsIn [] i n e = cc
get_elem?-IsIn (m ∷ ms) zero n e = inl (cc)
get_elem?-IsIn (m ∷ ms) (suc i) n e = inr (get_elem?-IsIn ms i n e)

pub IsIn-get_elem? : (ns : List Node) (n : Node) → IsIn n ns → (i : ℕ) × (get_elem? ns i ≡ some n)
unfolding IsIn
IsIn-get_elem? [] n h = elim h [ ]
IsIn-get_elem? (m ∷ ms) n (inl e) = (0, ap some (sym e))
IsIn-get_elem? (m ∷ ms) n (inr h) = let (i, e) = IsIn-get_elem? ms n h in (suc i, e)

IsIn-insert : (n m : Node) (ms : List Node) → (n ≡ m) ⊎ IsIn n ms → IsIn n (insert_member m ms)
unfolding IsIn insert_member
IsIn-insert n m [] h = h
IsIn-insert n m (k ∷ ms) h = elim (Bool-cases (text_lt m.id k.id)) [
  | inl lt ↦ rw lt h
  | inr ge ↦ rw ge (elim h [
    | inl e ↦ inr (IsIn-insert n m ms (inl e))
    | inr (inl e) ↦ inl e
    | inr (inr i) ↦ inr (IsIn-insert n m ms (inr i))
  ])
]

IsIn-inserted : (n m : Node) (ms : List Node) → IsIn n (insert_member m ms) → (n ≡ m) ⊎ IsIn n ms
unfolding IsIn insert_member
IsIn-inserted n m [] h = h
IsIn-inserted n m (k ∷ ms) h = split (text_lt m.id k.id) (λ i. IsIn-inserted n m ms i) h
  where
    split :
        (b : Bool)
        → (IsIn n (insert_member m ms) → (n ≡ m) ⊎ IsIn n ms)
        → IsIn n (if b then m ∷ k ∷ ms else k ∷ insert_member m ms)
        → (n ≡ m) ⊎ ((n ≡ k) ⊎ IsIn n ms)
    split true inner i = i
    split false inner (inl e) = inr (inl e)
    split false inner (inr i) = elim (inner i) [ inl e ↦ inl e | inr j ↦ inr (inr j) ]

IsIn-sort_onto :
    (n : Node) (done ms : List Node) → IsIn n done ⊎ IsIn n ms → IsIn n (sort_onto done ms)
unfolding IsIn sort_onto
IsIn-sort_onto n done [] (inl i) = i
IsIn-sort_onto n done [] (inr i) = elim i [ ]
IsIn-sort_onto n done (m ∷ ms) (inl i) =
    IsIn-sort_onto n (insert_member m done) ms (inl (IsIn-insert n m done (inr i)))
IsIn-sort_onto n done (m ∷ ms) (inr (inl e)) =
    IsIn-sort_onto n (insert_member m done) ms (inl (IsIn-insert n m done (inl e)))
IsIn-sort_onto n done (m ∷ ms) (inr (inr i)) = IsIn-sort_onto n (insert_member m done) ms (inr i)

IsIn-sorted_onto :
    (n : Node) (done ms : List Node) → IsIn n (sort_onto done ms) → IsIn n done ⊎ IsIn n ms
unfolding IsIn sort_onto
IsIn-sorted_onto n done [] i = inl i
IsIn-sorted_onto n done (m ∷ ms) i = elim (IsIn-sorted_onto n (insert_member m done) ms i) [
  | inr j ↦ inr (inr j)
  | inl j ↦ elim (IsIn-inserted n m done j) [ inl e ↦ inr (inl e) | inr k ↦ inl k ]
]

-- Sorting neither loses nor makes up a node.
pub IsIn-sort : (n : Node) (ms : List Node) → IsIn n ms → IsIn n (sort_members ms)
unfolding sort_members
IsIn-sort n ms i = IsIn-sort_onto n [] ms (inr i)

pub IsIn-sorted : (n : Node) (ms : List Node) → IsIn n (sort_members ms) → IsIn n ms
unfolding sort_members IsIn
IsIn-sorted n ms i = elim (IsIn-sorted_onto n [] ms i) [ inl j ↦ elim j [ ] | inr j ↦ j ]

unseen_first :
    (n : Node) (ns seen : List Node)
    → All (λ m. has_id m.id (n ∷ seen) ≡ false) ns
    → has_id n.id ns ≡ false
unfolding has_id
unseen_first n [] seen h = refl
unseen_first n (m ∷ ns) seen h =
    ground (arith, h.0, unseen_first n ns seen h.1, text_eq_iff n.id m.id, text_eq_iff m.id n.id)

-- The ids that the loop lets pass are distinct, and none of them was seen before.
pub refuse_ids-HasDistinctIds :
    (seen ns : List Node)
    → refuse_ids seen ns ≡ none
    → HasDistinctIds ns × All (λ n. has_id n.id seen ≡ false) ns
unfolding refuse_ids has_id
refuse_ids-HasDistinctIds seen [] h = (tt, tt)
refuse_ids-HasDistinctIds seen (n ∷ ns) h =
    let (distinct, unseen) = refuse_ids-HasDistinctIds (n ∷ seen) ns (ground arith) in
    (
      (unseen_first n ns seen unseen, distinct),
      (
        ground arith,
        All-map (λ m. has_id m.id (n ∷ seen) ≡ false) (λ m. has_id m.id seen ≡ false) ns
            (λ m k. ground (arith, k)) unseen,
      ),
    )

IsIn-has_id : (n : Node) (ms : List Node) → IsIn n ms → has_id n.id ms ≡ true
unfolding IsIn has_id
IsIn-has_id n [] i = elim i [ ]
IsIn-has_id n (m ∷ ms) (inl e) = rw (← e) (ground (arith, text_eq_iff n.id n.id))
IsIn-has_id n (m ∷ ms) (inr i) = ground (arith, IsIn-has_id n ms i)

-- Among distinct ids, one id is one node.
pub IsIn-same :
    (n m : Node) (ms : List Node) → HasDistinctIds ms → IsIn n ms → IsIn m ms → n.id ≡ m.id → n ≡ m
unfolding IsIn
IsIn-same n m [] d i j e = elim i [ ]
IsIn-same n m (k ∷ ms) d (inl a) (inl b) e = cc
IsIn-same n m (k ∷ ms) d (inl a) (inr j) e = cc (IsIn-has_id m ms j, d.0, ap (λ (x : Node). x.id) a)
IsIn-same n m (k ∷ ms) d (inr i) (inl b) e = cc (IsIn-has_id n ms i, d.0, ap (λ (x : Node). x.id) b)
IsIn-same n m (k ∷ ms) d (inr i) (inr j) e = IsIn-same n m ms d.1 i j e
