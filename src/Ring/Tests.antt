-- ===== src/Ring/Tests.antt =====
-- Small rings.
use distributed_rate_limiter.Prelude.Format.{format_int}
use distributed_rate_limiter.Prelude.Sorts.{sort_by}
use distributed_rate_limiter.Prelude.{
  List, All, arith, text_eq, text_lt, ℕ, ◌+◌, ◌*◌, ◌≡◌, refl, [], ◌∷◌, Text, bytes, some, inl, inr,
}
use distributed_rate_limiter.Prelude.Int.{pos}
use distributed_rate_limiter.Cluster.Members.{has_id, sort_members, Node}
use distributed_rate_limiter.Ring.{successors, Ring, built, build, new, owner, points_each}
use distributed_rate_limiter.Ring.Successors.{IsLed, successors-IsLed}
use distributed_rate_limiter.Ring.Membership.{IsIn}
use distributed_rate_limiter.Ring.Owners.{IsNearest}
use distributed_rate_limiter.Ring.Stability.{new-IsNearest, owner_stays}

-- A hash to try the ring with.
abbrev add_up : Text → ℕ
add_up [] = 7
add_up (b ∷ bs) = b + 3 * add_up bs

abbrev node_a : Node
node_a = record { id = bytes "a"; addr = bytes "a:1" }

abbrev node_b : Node
node_b = record { id = bytes "b"; addr = bytes "b:1" }

abbrev node_c : Node
node_c = record { id = bytes "c"; addr = bytes "c:1" }

abbrev small : Ring
small = build add_up (node_a ∷ node_b ∷ node_c ∷ []) 2

small_built : new add_up (node_c ∷ node_a ∷ node_b ∷ []) (pos 2) ≡ built small
unfolding new build sort_members text_lt text_eq has_id
small_built = refl

abbrev smaller : Ring
smaller = build add_up (node_a ∷ node_c ∷ []) 2

smaller_built : new add_up (node_a ∷ node_c ∷ []) (pos 2) ≡ built smaller
unfolding new build sort_members text_lt text_eq has_id
smaller_built = refl

new-IsNearest_example :
    (m : Node) × (owner add_up small (bytes "tenant") ≡ some m)
    × IsNearest add_up
        (points_each (pos 2))
        (node_c ∷ node_a ∷ node_b ∷ [])
        (add_up (bytes "tenant"))
        m
new-IsNearest_example =
    new-IsNearest add_up (node_c ∷ node_a ∷ node_b ∷ []) (pos 2) small (bytes "tenant") small_built

owned : owner add_up small (bytes "tenant") ≡ some node_a
unfolding owner build sort_by format_int
owned = refl

fewer : (m : Node) → IsIn m (node_a ∷ node_c ∷ []) → IsIn m (node_c ∷ node_a ∷ node_b ∷ [])
unfolding IsIn
fewer m (inl e) = inr (inl e)
fewer m (inr (inl e)) = inl e
fewer m (inr (inr x)) = elim x [ ]

still_there : IsIn node_a (node_a ∷ node_c ∷ [])
unfolding IsIn
still_there = inl refl

owner_stays_example : owner add_up smaller (bytes "tenant") ≡ some node_a
owner_stays_example =
    owner_stays add_up (node_c ∷ node_a ∷ node_b ∷ []) (node_a ∷ node_c ∷ []) (pos 2) (pos 2) small
      smaller (bytes "tenant") node_a small_built smaller_built refl fewer owned still_there

successors-IsLed_example :
    (out : List Node) × (successors add_up small (bytes "tenant") (pos 2) ≡ some out)
    × ((All (λ m. IsIn m (node_c ∷ node_a ∷ node_b ∷ [])) out)
        × IsLed add_up small (bytes "tenant") 2 out)
successors-IsLed_example =
    successors-IsLed add_up (node_c ∷ node_a ∷ node_b ∷ []) (pos 2) small (bytes "tenant") 2
      small_built (omega arith)
