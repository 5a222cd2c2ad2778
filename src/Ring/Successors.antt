-- ===== src/Ring/Successors.antt =====
-- The walk around the ring: it ends, within the ring, with distinct nodes.
use mathlib.Core.List.{append-nil, append_assoc}
use native.Mathlib.Nat.{mod-lt, mod-eq_of_lt}
use distributed_rate_limiter.Prelude.{
  ℕ, zero, suc, ◌%◌, ◌<◌, ◌≤◌, ◌≡◌, ◌≢◌, inl, inr, refl, sym, ap, ◌∙◌, arith, false, some, List, [],
  ◌∷◌, ◌++◌, Text, length, get_elem?, get_elem?-some, All, All-append, All-map, if◌then◌else◌,
  Bool-cases, Option-cases,
}
use distributed_rate_limiter.Prelude.Int.{ℤ, pos, leb_ℤ, ltb_ℤ}
use distributed_rate_limiter.Prelude.Sorts.{sort_by, All-sort_by}
use distributed_rate_limiter.Cluster.Members.{Node, has_id, HasDistinctIds, sort_members}
use distributed_rate_limiter.Cluster.Sorting.{HasDistinctIds-append_one}
use distributed_rate_limiter.Ring.{
  Point, Ring, built, before, points_each, all_points, build, new, first_from, search, node_at,
  walk, owner, successors,
}
use distributed_rate_limiter.Ring.Membership.{IsIn, get_elem?-IsIn, IsIn-sorted, IsIn-sort}
use distributed_rate_limiter.Ring.Owners.{IsPointOf, all_points-IsPointOf}
use distributed_rate_limiter.Ring.Stability.{
  new-build, points_exist, points_each_pos, All-get_elem?,
}

-- There is a point, and each stands for a node.
pub record IsWhole (r : Ring) : Type 0 where
  pub some_point : 0 < length r.points
  pub stands : All (λ p. (n : Node) × (get_elem? r.nodes p.node ≡ some n)) r.points

node_at-some :
    (r : Ring) (i : ℕ) → IsWhole r → i < length r.points → (n : Node) × (node_at r i ≡ some n)
unfolding node_at
node_at-some r i w lt =
    let (p, at) = get_elem?-some r.points i lt in
    let (n, here) =
      All-get_elem? (λ p. (n : Node) × (get_elem? r.nodes p.node ≡ some n)) r.points i p w.stands
        at in
    (n, rw at here)

node_at-IsIn : (r : Ring) (i : ℕ) (n : Node) → node_at r i ≡ some n → IsIn n r.nodes
unfolding node_at
node_at-IsIn r i n h = elim (Option-cases (get_elem? r.points i)) [
  | inl e ↦ cc
  | inr (p, e) ↦ get_elem?-IsIn r.nodes p.node n (cc)
]

-- What the walk returns after the nodes it has already.
pub record IsWalked (r : Ring) (left : ℕ) (before_ : List Node) (out : List Node) : Type 0 where
  pub more : List Node
  pub from : out ≡ before_ ++ more
  pub distinct : HasDistinctIds out
  pub listed : All (λ n. IsIn n r.nodes) out
  pub bounded : length more ≤ left

walk-IsWalked :
    (r : Ring) (i rounds left : ℕ) (out : List Node)
    → IsWhole r
    → HasDistinctIds out
    → All (λ n. IsIn n r.nodes) out
    → (result : List Node) × (walk r i rounds left out ≡ some result) × IsWalked r left out result
unfolding walk
walk-IsWalked r i zero left out w d l = (
  out,
  refl,
  record {
    more = [];
    from = sym (append-nil out);
    distinct = d;
    listed = l;
    bounded = omega arith;
  },
)
walk-IsWalked r i (suc rounds) zero out w d l = (
  out,
  refl,
  record {
    more = [];
    from = sym (append-nil out);
    distinct = d;
    listed = l;
    bounded = omega arith;
  },
)
walk-IsWalked r i (suc rounds) (suc left) out w d l =
    let (n, at) = node_at-some r (i % length r.points) w (mod-lt i w.some_point) in
    elim (Bool-cases (has_id n.id out)) [
      | inl seen ↦
          let (result, ends, k) = walk-IsWalked r (suc i) rounds (suc left) out w d l in
          (result, rw (walk, at, seen) ends, k)
      | inr fresh ↦
          let listed = node_at-IsIn r (i % length r.points) n at in
          let (result, ends, k) =
            walk-IsWalked r (suc i) rounds left (out ++ n ∷ []) w
              (HasDistinctIds-append_one out n d fresh)
              (All-append (λ m. IsIn m r.nodes) out (n ∷ []) l (listed, tt)) in
          (
            result,
            rw (walk, at, fresh) ends,
            record {
              more = n ∷ k.more;
              from = k.from ∙ append_assoc out (n ∷ []) k.more;
              distinct = k.distinct;
              listed = k.listed;
              bounded = let b = k.bounded in omega arith;
            },
          )
    ]

first_from-le : (h : ℕ) (ps : List Point) → first_from h ps ≤ length ps
unfolding first_from
first_from-le h [] = omega arith
first_from-le h (p ∷ ps) = ground (arith, first_from-le h ps)

search-lt : (h : ℕ) (r : Ring) → IsWhole r → search h r < length r.points
unfolding search
search-lt h r w = ground (arith, first_from-le h r.points, w.some_point)

-- The walk from a place within the ring finds the node there first.
walk-leads :
    (r : Ring) (i rounds left : ℕ)
    → IsWhole r
    → i < length r.points
    → (m : Node) × (node_at r i ≡ some m)
      × ((result : List Node) × (walk r i (suc rounds) (suc left) [] ≡ some result)
          × IsWalked r left (m ∷ []) result)
unfolding walk has_id
walk-leads r i rounds left w lt =
    let (m, at) = node_at-some r i w lt in
    let same : i % length r.points ≡ i = mod-eq_of_lt lt in
    let (result, ends, k) =
      walk-IsWalked r (suc i) rounds left (m ∷ []) w (refl, tt) (node_at-IsIn r i m at, tt) in
    (m, at, (result, rw (walk, same, at) ends, k))

module _ (xxhash : Text → ℕ) where
  build-IsWhole :
      (n : Node) (ns : List Node) (each : ℕ) → 0 < each → IsWhole (build xxhash (n ∷ ns) each)
  unfolding build
  build-IsWhole n ns each lt = record {
    some_point =
        positive (sort_by (before (n ∷ ns)) (all_points xxhash each 0 (n ∷ ns)))
          (points_exist xxhash each n ns lt);
    stands =
        All-map (IsPointOf xxhash each (n ∷ ns))
          (λ p. (m : Node) × (get_elem? (n ∷ ns) p.node ≡ some m))
          (sort_by (before (n ∷ ns)) (all_points xxhash each 0 (n ∷ ns))) (λ p k. (k.0, k.1))
          (All-sort_by (before (n ∷ ns)) (IsPointOf xxhash each (n ∷ ns))
            (all_points xxhash each 0 (n ∷ ns))
            (all_points-IsPointOf xxhash each 0 (n ∷ ns) (n ∷ ns)
              (λ j k m e h. let same : k ≡ j = omega arith in rw same h)));
  }
    where
      positive : (ps : List Point) → ps ≢ [] → 0 < length ps
      positive [] h = elim (h refl) [ ]
      positive (p ∷ ps) h = omega arith

  -- What `Successors` answers for a positive count: the owner and further nodes.
  pub record IsLed (r : Ring) (key : Text) (n : ℕ) (out : List Node) : Type 0 where
    pub first : Node
    pub owns : owner xxhash r key ≡ some first
    pub rest : List Node
    pub from : out ≡ first ∷ rest
    pub bounded : length out ≤ n
    pub distinct : HasDistinctIds out

  lead :
      (r : Ring) (key : Text) (points limit n : ℕ)
      → IsWhole r
      → points ≡ length r.points
      → 0 < limit
      → limit ≤ n
      → (out : List Node) × (walk r (search (xxhash key) r) points limit [] ≡ some out)
        × ((All (λ m. IsIn m r.nodes) out) × IsLed r key n out)
  unfolding owner
  lead r key zero limit n w e a b = let lt = w.some_point in let no : ⊥ = omega arith in elim no [ ]
  lead r key (suc k) zero n w e a b = let no : ⊥ = omega arith in elim no [ ]
  lead r key (suc k) (suc l) n w e a b =
      let (m, at, (out, ends, walked)) =
        walk-leads r (search (xxhash key) r) k l w (search-lt (xxhash key) r w) in
      let size : length out ≡ suc (length walked.more) = ap length walked.from in
      (
        out,
        ends,
        (
          walked.listed,
          record {
            first = m;
            owns = at;
            rest = walked.more;
            from = walked.from;
            bounded = let c = walked.bounded in omega arith;
            distinct = walked.distinct;
          },
        ),
      )

  sorted-IsWhole :
      (ns : List Node) (n : Node) (each : ℕ)
      → 0 < each
      → IsIn n ns
      → IsWhole (build xxhash ns each) × (0 < length (build xxhash ns each).nodes)
  unfolding IsIn build
  sorted-IsWhole [] n each lt i = elim i [ ]
  sorted-IsWhole (k ∷ ns) n each lt i = (build-IsWhole k ns each lt, omega arith)

  new-IsWhole :
      (ns : List Node) (v : ℤ) (r : Ring)
      → new xxhash ns v ≡ built r
      → (r ≡ build xxhash (sort_members ns) (points_each v)) × (IsWhole r × (0 < length r.nodes))
  unfolding new IsIn
  new-IsWhole [] v r h = cc
  new-IsWhole (n ∷ ns) v r h =
      let (e, ids) = new-build xxhash n ns v r h in
      let whole =
        sorted-IsWhole (sort_members (n ∷ ns)) n (points_each v) (points_each_pos xxhash v)
          (IsIn-sort n (n ∷ ns) (first_IsIn n ns)) in
      (e, rw e whole)
    where
      first_IsIn : (n : Node) (ns : List Node) → IsIn n (n ∷ ns)
      first_IsIn n ns = inl refl

  -- For a positive count the walk around a ring that was built ends within it, and answers the key's
  -- owner first, then other nodes of the arguments, no two with one id and no more than asked for.
  pub successors-IsLed :
      (ns : List Node) (v : ℤ) (r : Ring) (key : Text) (n : ℕ)
      → new xxhash ns v ≡ built r
      → 0 < n
      → (out : List Node) × (successors xxhash r key (pos n) ≡ some out)
        × ((All (λ m. IsIn m ns) out) × IsLed r key n out)
  unfolding successors build
  successors-IsLed ns v r key n h lt =
      let (e, (whole, some_node)) = new-IsWhole ns v r h in
      let limit = if ltb_ℤ (pos (length r.nodes)) (pos n) then length r.nodes else n in
      let (out, ends, (listed, led)) =
        lead r key (length r.points) limit n whole refl (ground arith) (ground arith) in
      let asked : leb_ℤ (pos n) (pos 0) ≡ false = ground arith in
      let nodes : r.nodes ≡ sort_members ns = ap (λ (x : Ring). x.nodes) e in
      (
        out,
        rw (successors, asked) ends,
        (
          All-map (λ m. IsIn m r.nodes) (λ m. IsIn m ns) out
              (λ m i. IsIn-sorted m ns (rw (← nodes) i)) listed,
          led,
        ),
      )
