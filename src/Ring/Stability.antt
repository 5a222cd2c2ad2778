-- ===== src/Ring/Stability.antt =====
-- The owner of a key is the nearest node; so it moves only when it leaves or a nearer one joins.
use distributed_rate_limiter.Prelude.{
  ℕ, zero, suc, ◌<◌, ◌≡◌, ◌≢◌, inl, refl, arith, none, some, List, [], ◌∷◌, Text, get_elem?, All,
}
use distributed_rate_limiter.Prelude.Int.{ℤ}
use distributed_rate_limiter.Prelude.Sorts.{sort_by, All-sort_by, sort_by_all, sort_by-IsSortedBy}
use distributed_rate_limiter.Cluster.Members.{Node, HasDistinctIds, sort_members}
use distributed_rate_limiter.Ring.{
  Point, Ring, built, before, points_each, all_points, build, refuse_ids, new, search, node_at,
  owner,
}
use distributed_rate_limiter.Ring.Points.{
  spot, IsNearer, IsNearer-both, before-IsStrict, place, place_nearest,
}
use distributed_rate_limiter.Ring.Membership.{
  IsIn, IsIn-sort, IsIn-sorted, refuse_ids-HasDistinctIds, IsIn-same,
}
use distributed_rate_limiter.Ring.Owners.{
  IsNearest, IsPointOf, all_points-IsPointOf, all_points_cover, point-IsNearest, virtual,
}

pub All-get_elem? :
    (P : Point → Type 0) (ps : List Point) (i : ℕ) (p : Point)
    → All P ps
    → get_elem? ps i ≡ some p
    → P p
All-get_elem? P [] i p h e = cc
All-get_elem? P (q ∷ ps) zero p h e = let same : p ≡ q = cc in rw same h.0
All-get_elem? P (q ∷ ps) (suc i) p h e = All-get_elem? P ps i p h.1 e

module _ (xxhash : Text → ℕ) where
  pub points_exist :
      (each : ℕ) (n : Node) (ns : List Node)
      → 0 < each
      → sort_by (before (n ∷ ns)) (all_points xxhash each 0 (n ∷ ns)) ≢ []
  points_exist each n ns lt e =
      all_points_cover xxhash (λ p. ⊥) each 0 (n ∷ ns) 0 0 0 n
        (sort_by_all (before (n ∷ ns)) (λ p. ⊥) (all_points xxhash each 0 (n ∷ ns)) (rw e tt)) refl
        lt (omega arith)

  -- A ring with a node has an owner for every key, and it is a nearest node.
  owner_of_build :
      (each : ℕ) (n : Node) (ns : List Node) (key : Text)
      → 0 < each
      → (m : Node) × (owner xxhash (build xxhash (n ∷ ns) each) key ≡ some m)
        × IsNearest xxhash each (n ∷ ns) (xxhash key) m
  unfolding owner search node_at build
  owner_of_build each n ns key lt =
      let order = before (n ∷ ns) in
      let points = all_points xxhash each 0 (n ∷ ns) in
      let (p, at, near) =
        place_nearest (n ∷ ns) (xxhash key) (sort_by order points)
          (sort_by-IsSortedBy order (before-IsStrict (n ∷ ns)) points)
          (points_exist each n ns lt) in
      let of_node =
        All-get_elem? (IsPointOf xxhash each (n ∷ ns)) (sort_by order points)
          (place (xxhash key) (sort_by order points)) p
          (All-sort_by order (IsPointOf xxhash each (n ∷ ns)) points (
            all_points-IsPointOf xxhash each 0 (n ∷ ns) (n ∷ ns)
              (λ j k m e h. let same : k ≡ j = omega arith in rw same h)))
          at in
      let (m, here, nearest) =
        point-IsNearest xxhash each (n ∷ ns) (xxhash key) p
          (sort_by_all order (λ q. IsNearer (xxhash key) (spot (n ∷ ns) p) (spot (n ∷ ns) q)) points
            near)
          of_node in
      (m, rw at here, nearest)

  pub new-build :
      (n : Node) (ns : List Node) (v : ℤ) (r : Ring)
      → new xxhash (n ∷ ns) v ≡ built r
      → (r ≡ build xxhash (sort_members (n ∷ ns)) (points_each v))
        × (refuse_ids [] (sort_members (n ∷ ns)) ≡ none)
  unfolding new
  new-build n ns v r h = (ground arith, ground arith)

  pub points_each_pos : (v : ℤ) → 0 < points_each v
  unfolding points_each
  points_each_pos v = ground arith

  -- Nearest among the sorted nodes is nearest among the nodes.
  IsNearest-unsorted :
      (each h : ℕ) (ns : List Node) (m : Node)
      → IsNearest xxhash each (sort_members ns) h m
      → IsNearest xxhash each ns h m
  IsNearest-unsorted each h ns m near = record {
    listed = IsIn-sorted m ns near.listed;
    at = near.at;
    at_lt = near.at_lt;
    least = λ k w k_in lt. near.least k w (IsIn-sort k ns k_in) lt;
  }

  owner_of_sorted :
      (each : ℕ) (ns : List Node) (n : Node) (key : Text)
      → 0 < each
      → IsIn n ns
      → (m : Node) × (owner xxhash (build xxhash ns each) key ≡ some m)
        × IsNearest xxhash each ns (xxhash key) m
  unfolding IsIn
  owner_of_sorted each [] n key lt i = elim i [ ]
  owner_of_sorted each (k ∷ ns) n key lt i = owner_of_build each k ns key lt

  -- Every key has an owner in a ring that was built: a node of the arguments with a virtual node that
  -- no virtual node of any of them comes before, going up from the key's hash and around the end.
  pub new-IsNearest :
      (ns : List Node) (v : ℤ) (r : Ring) (key : Text)
      → new xxhash ns v ≡ built r
      → (m : Node) × (owner xxhash r key ≡ some m)
        × IsNearest xxhash (points_each v) ns (xxhash key) m
  unfolding new IsIn
  new-IsNearest [] v r key h = cc
  new-IsNearest (n ∷ ns) v r key h =
      let (e, ids) = new-build n ns v r h in
      let (m, owns, near) =
        owner_of_sorted (points_each v) (sort_members (n ∷ ns)) n key (points_each_pos v)
          (IsIn-sort n (n ∷ ns) (inl refl)) in
      (m, rw e owns, IsNearest-unsorted (points_each v) (xxhash key) (n ∷ ns) m near)

  new-distinct :
      (ns : List Node) (v : ℤ) (r : Ring)
      → new xxhash ns v ≡ built r
      → HasDistinctIds (sort_members ns)
  unfolding new
  new-distinct [] v r h = cc
  new-distinct (n ∷ ns) v r h =
      (refuse_ids-HasDistinctIds [] (sort_members (n ∷ ns)) (new-build n ns v r h).1).0

  -- Two nearest nodes of a list have one id.
  nearest_once :
      (each h : ℕ) (ns : List Node) (m k : Node)
      → IsNearest xxhash each ns h m
      → IsNearest xxhash each ns h k
      → m.id ≡ k.id
  nearest_once each h ns m k a b =
      IsNearer-both h (virtual xxhash m a.at) (virtual xxhash k b.at)
        (a.least k b.at b.listed b.at_lt) (b.least m a.at a.listed a.at_lt)

  -- Ownership is stable: of two rings with as many points per node, where every node of the second
  -- is one of the first's, the second gives a key to its owner in the first whenever that node is
  -- still there. So a node that leaves moves only its own keys, one that joins takes keys but moves
  -- none between the others, and the order of the nodes makes no difference.
  pub owner_stays :
      (ns ns' : List Node) (v v' : ℤ) (r r' : Ring) (key : Text) (n : Node)
      → new xxhash ns v ≡ built r
      → new xxhash ns' v' ≡ built r'
      → points_each v' ≡ points_each v
      → ((m : Node) → IsIn m ns' → IsIn m ns)
      → owner xxhash r key ≡ some n
      → IsIn n ns'
      → owner xxhash r' key ≡ some n
  owner_stays ns ns' v v' r r' key n b b' same fewer owns stays =
      let (m, m_owns, m_near) = new-IsNearest ns v r key b in
      let (k, k_owns, k_near) = new-IsNearest ns' v' r' key b' in
      let is_m : m ≡ n = cc in
      let kept : IsNearest xxhash (points_each v) ns' (xxhash key) m = record {
        listed = rw is_m stays;
        at = m_near.at;
        at_lt = m_near.at_lt;
        least = λ j w j_in lt. m_near.least j w (fewer j j_in) lt;
      } in
      let ids = nearest_once (points_each v) (xxhash key) ns' k m (rw same at k_near) kept in
      let is_k : k ≡ m =
        IsIn-same k m (sort_members ns') (new-distinct ns' v' r' b') (IsIn-sort k ns' k_near.listed)
          (IsIn-sort m ns' kept.listed) ids in
      rw (k_owns, is_k, is_m) refl
