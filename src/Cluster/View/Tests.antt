-- ===== src/Cluster/View/Tests.antt =====
-- Two nodes of one cluster.
use distributed_rate_limiter.Prelude.{
  text_lt, ℕ, ◌+◌, ◌*◌, ◌≡◌, refl, true, List, [], ◌∷◌, Text, bytes, some, text_eq,
}
use distributed_rate_limiter.Prelude.Int.{pos}
use distributed_rate_limiter.Cluster.Members.{has_id, sort_members, Node}
use distributed_rate_limiter.Cluster.State.{addr_of, is_taken, apply_add, apply, State}
use distributed_rate_limiter.Ring.{build, new, points_each}
use distributed_rate_limiter.Ring.Owners.{IsNearest}
use distributed_rate_limiter.Cluster.View.{
  View, Change, changes, committed, configured, new_view, viewed, view_owner,
}
use distributed_rate_limiter.Cluster.View.Agreement.{view_owner-IsNearest}

-- A hash to try the ring with.
abbrev add_up : Text → ℕ
add_up [] = 7
add_up (b ∷ bs) = b + 3 * add_up bs

abbrev node_a : Node
node_a = record { id = bytes "a"; addr = bytes "a:1" }

abbrev node_b : Node
node_b = record { id = bytes "b"; addr = bytes "b:1" }

abbrev pair_state : State
pair_state = record {
  members = node_a ∷ node_b ∷ [];
  vnodes = pos 2;
  ring_epoch = 2;
  policy_gen = 0;
  store_gen = 0;
}

abbrev seen_from : Text → View
seen_from self = record {
  self = self;
  state = pair_state;
  ring = some (build add_up (node_a ∷ node_b ∷ []) 2);
}

made_a : new_view add_up (bytes "a") (node_b ∷ node_a ∷ []) (pos 2) ≡ viewed (seen_from (bytes "a"))
unfolding new_view build text_eq apply apply_add is_taken addr_of sort_members has_id text_lt new
made_a = refl

made_b : new_view add_up (bytes "b") (node_a ∷ node_b ∷ []) (pos 2) ≡ viewed (seen_from (bytes "b"))
unfolding new_view build text_eq apply apply_add is_taken addr_of sort_members has_id text_lt new
made_b = refl

abbrev news : List Change
news =
    committed (record pair_state { members = node_a ∷ [] })
    ∷ configured (node_b ∷ node_a ∷ []) (pos 3)
    ∷ []

-- A state without the node, which is refused, and a configuration with both nodes again.
abbrev later : View
later = changes add_up (seen_from (bytes "b")) news

view_owner-IsNearest_example :
    (has_id later.self later.state.members ≡ true)
    × (n : Node) × (view_owner add_up later (bytes "t") ≡ some (n, text_eq n.id later.self))
    × IsNearest add_up (points_each later.state.vnodes) later.state.members (add_up (bytes "t")) n
view_owner-IsNearest_example =
    view_owner-IsNearest add_up (bytes "b") (node_a ∷ node_b ∷ []) (pos 2) (seen_from (bytes "b"))
      news (bytes "t") made_b
