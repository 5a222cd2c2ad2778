-- ===== src/Ring/Owners.antt =====
-- Who owns a key: the node with the nearest point, whatever other nodes there are.
use distributed_rate_limiter.Prelude.{
  ℕ, zero, suc, ◌+◌, ◌<◌, ◌≡◌, refl, arith, some, List, [], ◌∷◌, ◌++◌, Text, get_elem?, All,
  All-append,
}
use distributed_rate_limiter.Cluster.Members.{Node}
use distributed_rate_limiter.Ring.{Point, id_at, vnode_hash, node_points, all_points}
use distributed_rate_limiter.Ring.Membership.{IsIn, get_elem?-IsIn, IsIn-get_elem?}
use distributed_rate_limiter.Ring.Points.{Spot, spot, IsNearer}

module _ (xxhash : Text → ℕ) where
  -- A node's virtual node.
  abbrev pub virtual : Node → ℕ → Spot
  virtual n v = (vnode_hash xxhash n.id v, n.id)

  -- A point is one of the virtual nodes of the node it names.
  abbrev pub IsPointOf : ℕ → List Node → Point → Type 0
  IsPointOf each ns p =
      (n : Node) × (get_elem? ns p.node ≡ some n)
      × ((v : ℕ) × (v < each) × (p.hash ≡ vnode_hash xxhash n.id v))

  node_points-IsPointOf :
      (each : ℕ) (ns : List Node) (n : Node) (i v left : ℕ)
      → get_elem? ns i ≡ some n
      → v + left ≡ each
      → All (IsPointOf each ns) (node_points xxhash n.id i v left)
  unfolding node_points
  node_points-IsPointOf each ns n i v zero at e = tt
  node_points-IsPointOf each ns n i v (suc left) at e = (
    (n, at, (v, omega arith, refl)),
    node_points-IsPointOf each ns n i (suc v) left at (omega arith),
  )

  pub all_points-IsPointOf :
      (each i : ℕ) (all_ ns : List Node)
      → ((j k : ℕ) (n : Node) → k ≡ i + j → get_elem? ns j ≡ some n → get_elem? all_ k ≡ some n)
      → All (IsPointOf each all_) (all_points xxhash each i ns)
  unfolding all_points
  all_points-IsPointOf each i all_ [] at = tt
  all_points-IsPointOf each i all_ (n ∷ ns) at =
      All-append (IsPointOf each all_) (node_points xxhash n.id i 0 each)
        (all_points xxhash each (suc i) ns)
        (node_points-IsPointOf each all_ n i 0 each (at 0 i n (omega arith) refl) (omega arith))
        (all_points-IsPointOf each (suc i) all_ ns (λ j k m e. at (suc j) k m (omega arith)))

  -- What holds of every point holds at every virtual node of every node.
  node_points_cover :
      (P : Point → Type 0) (id : Text) (i v left w u : ℕ)
      → All P (node_points xxhash id i v left)
      → w < left
      → u ≡ v + w
      → P (record { hash = vnode_hash xxhash id u; node = i })
  unfolding node_points
  node_points_cover P id i v zero w u h lt e = elim lt [ ]
  node_points_cover P id i v (suc left) zero u h lt e =
      let same : u ≡ v = omega arith in rw same h.0
  node_points_cover P id i v (suc left) (suc w) u h lt e =
      node_points_cover P id i (suc v) left w u h.1 (omega arith) (omega arith)

  All-append_both :
      (P : Point → Type 0) (ps qs : List Point) → All P (ps ++ qs) → All P ps × All P qs
  All-append_both P [] qs h = (tt, h)
  All-append_both P (p ∷ ps) qs h = let (a, b) = All-append_both P ps qs h.1 in ((h.0, a), b)

  pub all_points_cover :
      (P : Point → Type 0) (each i : ℕ) (ns : List Node) (j k w : ℕ) (n : Node)
      → All P (all_points xxhash each i ns)
      → get_elem? ns j ≡ some n
      → w < each
      → k ≡ i + j
      → P (record { hash = vnode_hash xxhash n.id w; node = k })
  unfolding all_points
  all_points_cover P each i [] j k w n h at lt e = cc
  all_points_cover P each i (m ∷ ms) zero k w n h at lt e =
      let parts =
        All-append_both P (node_points xxhash m.id i 0 each) (all_points xxhash each (suc i) ms)
          h in
      let here = node_points_cover P m.id i 0 each w w parts.0 lt (omega arith) in
      let same : k ≡ i = omega arith in let node : n ≡ m = cc in rw (same, node) here
  all_points_cover P each i (m ∷ ms) (suc j) k w n h at lt e =
      let parts =
        All-append_both P (node_points xxhash m.id i 0 each) (all_points xxhash each (suc i) ms)
          h in
      all_points_cover P each (suc i) ms j k w n parts.1 at lt (omega arith)

  -- The node has a virtual node that no virtual node of any node is nearer to the hash than.
  pub record IsNearest (each : ℕ) (ns : List Node) (h : ℕ) (n : Node) : Type 0 where
    pub listed : IsIn n ns
    pub at : ℕ
    pub at_lt : at < each
    pub least : (m : Node) (w : ℕ) → IsIn m ns → w < each → IsNearer h (virtual n at) (virtual m w)

  id_at-some : (ns : List Node) (i : ℕ) (n : Node) → get_elem? ns i ≡ some n → id_at ns i ≡ n.id
  unfolding id_at
  id_at-some ns i n e = rw (id_at, e) refl

  IsNearer-along : (h : ℕ) (s s' t t' : Spot) → s ≡ s' → t ≡ t' → IsNearer h s t → IsNearer h s' t'
  IsNearer-along h s s' t t' e f k = rw (← e, ← f) k

  spot_of :
      (ns : List Node) (p : Point) (n : Node) (v : ℕ)
      → get_elem? ns p.node ≡ some n
      → p.hash ≡ vnode_hash xxhash n.id v
      → spot ns p ≡ virtual n v
  spot_of ns p n v at hash = rw (hash, id_at-some ns p.node n at) refl

  -- A point that is nearest among the points stands for a nearest node.
  pub point-IsNearest :
      (each : ℕ) (ns : List Node) (h : ℕ) (p : Point)
      → All (λ q. IsNearer h (spot ns p) (spot ns q)) (all_points xxhash each 0 ns)
      → IsPointOf each ns p
      → (n : Node) × (get_elem? ns p.node ≡ some n) × IsNearest each ns h n
  point-IsNearest each ns h p all_ (n, here, (v, lt, hash)) = (
    n,
    here,
    record {
      listed = get_elem?-IsIn ns p.node n here;
      at = v;
      at_lt = lt;
      least = λ m w m_in w_lt.
          let (j, m_at) = IsIn-get_elem? ns m m_in in
          let near =
            all_points_cover (λ q. IsNearer h (spot ns p) (spot ns q)) each 0 ns j j w m all_ m_at
              w_lt (omega arith) in
          let from = spot_of ns p n v here hash in
          let to =
            spot_of ns (record { hash = vnode_hash xxhash m.id w; node = j }) m w m_at refl in
          IsNearer-along h _ _ _ _ from to near;
    },
  )
