-- ===== src/Cluster/State.antt =====
-- internal/cluster/state.go: the replicated state and `Apply`. A uint64 wraps around at 2^64.
pub mod Invariant
pub mod Epoch
pub mod Entries
use distributed_rate_limiter.Prelude.{
  ℕ, ◌+◌, ◌%◌, Bool, true, false, ◌&&◌, ◌||◌, not, ◌==◌, ltb, Option, none, some, List, [], ◌∷◌,
  ◌++◌, Text, text_eq, if◌then◌else◌,
}
use distributed_rate_limiter.Prelude.Int.{ℤ, pos, ltb_ℤ, ◌==ℤ◌}
use distributed_rate_limiter.Cluster.Members.{Node, has_id, sort_members}

pub record State : Type 0 where
  pub members : List Node
  pub vnodes : ℤ
  pub ring_epoch : ℕ
  pub policy_gen : ℕ
  pub store_gen : ℕ

-- `CommandKind` is a string in the source: `unknown` is any string but the six.
pub data CommandKind : Type 0 where
  seed_ring add_shard remove_shard set_vnodes bump_policy_gen set_store_gen : CommandKind
  unknown : Text → CommandKind

pub record Command : Type 0 where
  pub kind : CommandKind
  pub members : List Node
  pub member : Node
  pub id : Text
  pub vnodes : ℤ
  pub gen : ℕ

-- The messages of `ErrNotApplicable`.
pub data ApplyError : Type 0 where
  no_members vnodes_outside named_twice no_id no_address address_taken : ApplyError
  vnodes_negative vnodes_too_many generation_zero generation_below unknown_kind : ApplyError

abbrev pub max_vnodes : ℤ
max_vnodes = pos 4096

abbrev pub u64_next : ℕ → ℕ
u64_next n = (n + 1) % 18446744073709551616

-- What `Apply` returns: the state, whether it changed, and the error if it does not apply.
abbrev pub Applied : Type 0
Applied = State × Bool × Option ApplyError

-- Another member answers on the address.
unfoldable pub is_taken : Node → List Node → Bool
is_taken n [] = false
is_taken n (m ∷ ms) = (not (text_eq m.id n.id) && text_eq m.addr n.addr) || is_taken n ms

-- The address of the first member with the id.
unfoldable pub addr_of : Text → List Node → Option Text
addr_of k [] = none
addr_of k (m ∷ ms) = if text_eq m.id k then some m.addr else addr_of k ms

-- `next.Members[i].Addr = c.Member.Addr` at the first member with the id.
unfoldable pub move_member : Node → List Node → List Node
move_member n [] = []
move_member n (m ∷ ms) =
    if text_eq m.id n.id then record m { addr = n.addr } ∷ ms else m ∷ move_member n ms

-- The members without the first one with the id.
unfoldable pub drop_member : Text → List Node → List Node
drop_member k [] = []
drop_member k (m ∷ ms) = if text_eq m.id k then ms else m ∷ drop_member k ms

-- The loop of `AddShard` over the members, and what follows it.
unfoldable pub place_member : State → Node → Option Text → Applied
place_member s n none = (
  record s { members = sort_members (s.members ++ n ∷ []); ring_epoch = u64_next s.ring_epoch },
  true,
  none,
)
place_member s n (some addr) =
    if text_eq addr n.addr
    then (s, false, none)
    else (record s { members = move_member n s.members }, true, none)

-- The case `AddShard`.
unfoldable pub apply_add : State → Node → Applied
unfolding place_member
apply_add s n =
    if text_eq n.id []
    then (s, false, some no_id)
    else if text_eq n.addr []
    then (s, false, some no_address)
    else if is_taken n s.members
    then (s, false, some address_taken)
    else place_member s n (addr_of n.id s.members)

-- Some id is named twice.
unfoldable pub has_twin : List Node → Bool
has_twin [] = false
has_twin (m ∷ ms) = has_id m.id ms || has_twin ms

-- The loop of `SeedRing` that adds the members one by one.
unfoldable pub seed_members : State → List Node → State × Option ApplyError
seed_members s [] = (s, none)
seed_members s (m ∷ ms) =
    let (s', _, err) = apply_add s m in
    elim err [ some e ↦ (s', some e) | none ↦ seed_members s' ms ]

abbrev pub seeded_or : State → ℕ → State × Option ApplyError → Applied
seeded_or s epoch (seeded, some e) = (s, false, some e)
seeded_or s epoch (seeded, none) = (record seeded { ring_epoch = u64_next epoch }, true, none)

-- The case `SeedRing`.
unfoldable pub apply_seed : State → List Node → ℤ → Applied
unfolding has_twin
apply_seed s [] vnodes = elim s.members [
  | m ∷ ms ↦ (s, false, none)
  | [] ↦ (s, false, some no_members)
]
apply_seed s (n ∷ ns) vnodes = elim s.members [
  | m ∷ ms ↦ (s, false, none)
  | [] ↦
      if ltb_ℤ vnodes (pos 0) || ltb_ℤ max_vnodes vnodes
      then (s, false, some vnodes_outside)
      else if has_twin (n ∷ ns)
      then (s, false, some named_twice)
      else seeded_or s s.ring_epoch
          (seed_members (record s { members = []; vnodes = vnodes }) (n ∷ ns))
]

-- The case `RemoveShard`.
unfoldable pub apply_remove : State → Text → Applied
apply_remove s k =
    if text_eq k []
    then (s, false, some no_id)
    else if has_id k s.members
    then (
      record s { members = drop_member k s.members; ring_epoch = u64_next s.ring_epoch },
      true,
      none,
    )
    else (s, false, none)

-- The case `SetVNodes`.
unfoldable pub apply_vnodes : State → ℤ → Applied
apply_vnodes s v =
    if ltb_ℤ v (pos 0)
    then (s, false, some vnodes_negative)
    else if ltb_ℤ max_vnodes v
    then (s, false, some vnodes_too_many)
    else if v ==ℤ s.vnodes
    then (s, false, none)
    else (record s { vnodes = v; ring_epoch = u64_next s.ring_epoch }, true, none)

-- The case `SetStoreGen`.
unfoldable pub apply_store_gen : State → ℕ → Applied
apply_store_gen s g =
    if g == 0
    then (s, false, some generation_zero)
    else if g == s.store_gen
    then (s, false, none)
    else if ltb g s.store_gen
    then (s, false, some generation_below)
    else (record s { store_gen = g }, true, none)

apply_kind : CommandKind → State → Command → Applied
apply_kind seed_ring s c = apply_seed s c.members c.vnodes
apply_kind add_shard s c = apply_add s c.member
apply_kind remove_shard s c = apply_remove s c.id
apply_kind set_vnodes s c = apply_vnodes s c.vnodes
apply_kind bump_policy_gen s c = (record s { policy_gen = u64_next s.policy_gen }, true, none)
apply_kind set_store_gen s c = apply_store_gen s c.gen
apply_kind (unknown k) s c = (s, false, some unknown_kind)

-- `Apply`.
unfoldable pub apply : State → Command → Applied
unfolding apply_kind
apply s c = apply_kind c.kind s c

-- The state of a node that has applied nothing.
unfoldable pub new_state : State
new_state = record { members = []; vnodes = pos 0; ring_epoch = 0; policy_gen = 0; store_gen = 0 }

-- The entries of a log in order; one that does not apply is skipped.
unfoldable pub replay : State → List Command → State
replay s [] = s
replay s (c ∷ log) = replay (apply s c).0 log
