-- ===== src/Ring.antt =====
-- internal/ring/ring.go: the consistent hash. xxhash is a parameter, a function from bytes to
-- numbers. A node's place in the sorted list stands for it in a point, as in the source.
pub mod Points
pub mod Membership
pub mod Owners
pub mod Stability
pub mod Successors
mod Tests
use distributed_rate_limiter.Prelude.{
  ℕ, zero, suc, ◌+◌, ◌%◌, Bool, true, false, ◌||◌, ◌==◌, ltb, Option, none, some, List, [], ◌∷◌,
  ◌++◌, Text, bytes, text_eq, text_lt, length, get_elem?, if◌then◌else◌, ◌>>=◌,
}
use distributed_rate_limiter.Prelude.Int.{ℤ, pos, pos_part, leb_ℤ, ltb_ℤ}
use distributed_rate_limiter.Prelude.Format.{format_int}
use distributed_rate_limiter.Prelude.Sorts.{sort_by}
use distributed_rate_limiter.Cluster.Members.{Node, has_id, sort_members}

pub record Point : Type 0 where
  pub hash : ℕ
  pub node : ℕ

pub record Ring : Type 0 where
  pub vnodes : ℕ
  pub nodes : List Node
  pub points : List Point

pub data RingError : Type 0 where
  no_nodes too_many_vnodes empty_id shared_id : RingError

pub data Built : Type 0 where
  built : Ring → Built
  failed : RingError → Built

abbrev pub default_vnodes : ℕ
default_vnodes = 256

abbrev pub max_vnodes : ℤ
max_vnodes = pos 4096

-- The count of points per node that `New` uses.
unfoldable pub points_each : ℤ → ℕ
points_each v = if leb_ℤ v (pos 0) then default_vnodes else pos_part v

-- The loop of `New` over the sorted nodes; `seen` are the ids before.
unfoldable pub refuse_ids : List Node → List Node → Option RingError
refuse_ids seen [] = none
refuse_ids seen (n ∷ ns) =
    if text_eq n.id []
    then some empty_id
    else if has_id n.id seen
    then some shared_id
    else refuse_ids (n ∷ seen) ns

-- The id of the node that a point stands for; its place is always within the list.
unfoldable pub id_at : List Node → ℕ → Text
id_at ns i = elim (get_elem? ns i) [ none ↦ [] | some n ↦ n.id ]

-- The order of the points: by hash, and by id where two hashes collide.
unfoldable pub before : List Node → Point → Point → Bool
unfolding id_at
before ns p q =
    if p.hash == q.hash then text_lt (id_at ns p.node) (id_at ns q.node) else ltb p.hash q.hash

module _ (xxhash : Text → ℕ) where
  -- `vnodeHash`.
  unfoldable pub vnode_hash : Text → ℕ → ℕ
  vnode_hash id v = xxhash (id ++ (0 ∷ (bytes "vnode" ++ (0 ∷ format_int (pos v)))))

  -- The points of one node, from the virtual node `v` on.
  unfoldable pub node_points : Text → ℕ → ℕ → ℕ → List Point
  unfolding vnode_hash
  node_points id i v zero = []
  node_points id i v (suc left) =
      record { hash = vnode_hash id v; node = i } ∷ node_points id i (suc v) left

  -- The points of the nodes, from the place `i` on.
  unfoldable pub all_points : ℕ → ℕ → List Node → List Point
  unfolding node_points
  all_points each i [] = []
  all_points each i (n ∷ ns) = node_points n.id i 0 each ++ all_points each (suc i) ns

  -- `New` once the arguments are accepted.
  unfoldable pub build : List Node → ℕ → Ring
  unfolding all_points before
  build sorted each = record {
    vnodes = each;
    nodes = sorted;
    points = sort_by (before sorted) (all_points each 0 sorted);
  }

  -- `New`.
  unfoldable pub new : List Node → ℤ → Built
  unfolding refuse_ids points_each build
  new [] vnodes = failed no_nodes
  new (n ∷ ns) vnodes =
      if ltb_ℤ max_vnodes (pos (points_each vnodes))
      then failed too_many_vnodes
      else elim (refuse_ids [] (sort_members (n ∷ ns))) [
        | some e ↦ failed e
        | none ↦ built (build (sort_members (n ∷ ns)) (points_each vnodes))
      ]

-- `sort.Search` on the sorted points: the place of the first at or after the hash, or their number.
unfoldable pub first_from : ℕ → List Point → ℕ
first_from h [] = 0
first_from h (p ∷ ps) = if ltb p.hash h then suc (first_from h ps) else 0

-- `Ring.search`.
unfoldable pub search : ℕ → Ring → ℕ
unfolding first_from
search h r = if first_from h r.points == length r.points then 0 else first_from h r.points

-- The node that a place among the points stands for; `none` is an index out of range.
unfoldable pub node_at : Ring → ℕ → Option Node
node_at r i = get_elem? r.points i >>= (λ (p : Point). get_elem? r.nodes p.node)

-- The loop of `Successors`, with the rounds and the nodes that are left to find.
unfoldable pub walk : Ring → ℕ → ℕ → ℕ → List Node → Option (List Node)
unfolding node_at
walk r i zero left out = some out
walk r i (suc rounds) zero out = some out
walk r i (suc rounds) (suc left) out = elim (node_at r (i % length r.points)) [
  | none ↦ none
  | some n ↦ elim (has_id n.id out) [
    | true ↦ walk r (suc i) rounds (suc left) out
    | false ↦ walk r (suc i) rounds left (out ++ n ∷ [])
  ]
]

module _ (xxhash : Text → ℕ) where
  -- `Ring.Owner`.
  unfoldable pub owner : Ring → Text → Option Node
  unfolding search node_at
  owner r key = node_at r (search (xxhash key) r)

  -- `Ring.Successors`.
  unfoldable pub successors : Ring → Text → ℤ → Option (List Node)
  unfolding search walk
  successors r key n =
      if leb_ℤ n (pos 0)
      then some []
      else walk r (search (xxhash key) r) (length r.points)
          (if ltb_ℤ (pos (length r.nodes)) n then length r.nodes else pos_part n) []

-- `Ring.Node`.
unfoldable pub node_named : Text → List Node → Option Node
node_named k [] = none
node_named k (n ∷ ns) = if text_eq n.id k then some n else node_named k ns

-- The loop of `Ring.Distribution`, for one id.
unfoldable pub share : Ring → Text → ℕ
share r k = count r.points
  where
    count : List Point → ℕ
    count [] = 0
    count (p ∷ ps) = (if text_eq (id_at r.nodes p.node) k then 1 else 0) + count ps
