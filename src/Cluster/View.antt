-- ===== src/Cluster/View.antt =====
-- internal/cluster/cluster.go, and `State.Ring` of internal/cluster/state.go: a node's view of the
-- cluster, a committed state beside the ring made from it. xxhash is a parameter.
pub mod Agreement
mod Tests
use distributed_rate_limiter.Prelude.{
  ℕ, Bool, true, false, not, ◌==◌, Option, none, some, List, [], ◌∷◌, Text, text_eq, length,
  if◌then◌else◌,
}
use distributed_rate_limiter.Prelude.Int.{ℤ, pos, ◌==ℤ◌}
use distributed_rate_limiter.Cluster.Members.{Node, has_id}
use distributed_rate_limiter.Cluster.State.{
  State, Command, CommandKind, add_shard, remove_shard, set_vnodes, ApplyError, Applied, apply,
}
use distributed_rate_limiter.Ring.{Ring, RingError, Built, built, failed, new, owner}

-- A node's id, the state that it holds, and the ring; a nil ring is `none`.
pub record View : Type 0 where
  pub self : Text
  pub state : State
  pub ring : Option Ring

pub data ViewError : Type 0 where
  no_self not_a_member : ViewError
  bad_entry : ApplyError → ViewError
  bad_ring : RingError → ViewError

pub data Viewed : Type 0 where
  viewed : View → Viewed
  refused : ViewError → Viewed

-- The entries that a configuration is turned into.
abbrev pub entry : CommandKind → Node → ℤ → Command
entry kind n v = record { kind = kind; members = []; member = n; id = n.id; vnodes = v; gen = 0 }

abbrev pub first_state : ℤ → State
first_state v = record { members = []; vnodes = v; ring_epoch = 0; policy_gen = 0; store_gen = 0 }

-- The loop that adds the members one by one.
unfoldable pub add_all : State → List Node → State × Option ApplyError
add_all s [] = (s, none)
add_all s (n ∷ ns) =
    let (next, _, err) = apply s (entry add_shard n (pos 0)) in
    elim err [ some e ↦ (s, some e) | none ↦ add_all next ns ]

-- The loop that removes the members of the list that are not kept.
unfoldable pub remove_all : List Node → State → List Node → State × Option ApplyError
remove_all keep s [] = (s, none)
remove_all keep s (n ∷ ns) =
    if has_id n.id keep
    then remove_all keep s ns
    else (let (next, _, err) = apply s (entry remove_shard n (pos 0)) in
        elim err [ some e ↦ (s, some e) | none ↦ remove_all keep next ns ])

-- What happens to a view: a committed state is adopted, or a configuration replaces it; one that is
-- refused leaves it.
pub data Change : Type 0 where
  committed : State → Change
  configured : List Node → ℤ → Change

abbrev pub kept_or : View → Viewed → View
kept_or w (viewed w') = w'
kept_or w (refused e) = w

module _ (xxhash : Text → ℕ) where
  -- `State.Ring`, put beside the state under the id; with no members there is no ring.
  unfoldable pub with_ring : Text → State → List Node → Viewed
  with_ring self s [] = viewed (record { self = self; state = s; ring = none })
  with_ring self s (n ∷ ns) = elim (new xxhash (n ∷ ns) s.vnodes) [
    | failed e ↦ refused (bad_ring e)
    | built r ↦ viewed (record { self = self; state = s; ring = some r })
  ]

  -- `Adopt`, by the node with the id.
  unfoldable pub adopt : Text → State → Viewed
  unfolding with_ring
  adopt self s = if has_id self s.members then with_ring self s s.members else refused not_a_member

  -- `New`.
  unfoldable pub new_view : Text → List Node → ℤ → Viewed
  unfolding adopt add_all
  new_view self members v =
      if text_eq self []
      then refused no_self
      else (let (s, err) = add_all (first_state v) members in
          elim err [ some e ↦ refused (bad_entry e) | none ↦ adopt self s ])

  -- The end of `Replace`: the vnode count, and the swap.
  unfoldable pub finish_replace : Text → State → ℤ → Viewed
  unfolding adopt
  finish_replace self s v =
      if v ==ℤ s.vnodes
      then adopt self s
      else (let (next, _, err) = apply s (entry set_vnodes (record { id = []; addr = [] }) v) in
          elim err [ some e ↦ refused (bad_entry e) | none ↦ adopt self next ])

  -- `Replace`: the new view, whose state has the epoch that it returns.
  unfoldable pub replace : View → List Node → ℤ → Viewed
  unfolding remove_all add_all finish_replace
  replace w members v =
      let (left, gone) = remove_all members w.state w.state.members in
      let (next, err) = add_all left members in
      elim gone [
        | some e ↦ refused (bad_entry e)
        | none ↦ elim err [ some e ↦ refused (bad_entry e) | none ↦ finish_replace w.self next v ]
      ]

  -- `Owner`: the node, and whether it is this one; `none` is no ring.
  unfoldable pub view_owner : View → Text → Option (Node × Bool)
  view_owner w tenant = elim w.ring [
    | none ↦ none
    | some r ↦
        if length r.nodes == 0
        then none
        else elim (owner xxhash r tenant) [ none ↦ none | some n ↦ some (n, text_eq n.id w.self) ]
  ]

  unfoldable pub change : View → Change → View
  unfolding adopt replace
  change w (committed s) = kept_or w (adopt w.self s)
  change w (configured members v) = kept_or w (replace w members v)

  unfoldable pub changes : View → List Change → View
  unfolding change
  changes w [] = w
  changes w (c ∷ cs) = changes (change w c) cs
