-- ===== src/Cluster/State/Invariant.antt =====
-- What holds of the replicated state after every entry of the log.
use distributed_rate_limiter.Prelude.{
  ℕ, ◌≡◌, refl, true, false, Option, none, some, List, [], ◌∷◌, ◌++◌, Text, text_eq, text_lt_trans,
  ◌∙◌, arith, Bool-cases, Option-cases, inl, inr,
}
use distributed_rate_limiter.Prelude.Int.{ℤ, pos, ◌≤ℤ◌}
use distributed_rate_limiter.Cluster.Members.{Node, has_id, IsAscending, IsAscending-distinct}
use distributed_rate_limiter.Cluster.Sorting.{
  sort_members-IsAscending, HasDistinctIds-append_one, has_id-sort, has_id-append,
}
use distributed_rate_limiter.Cluster.Addresses.{
  HasDistinctAddrs, sort-HasDistinctAddrs, append-HasDistinctAddrs, move-HasDistinctAddrs,
  drop-HasDistinctAddrs,
}
use distributed_rate_limiter.Cluster.State.{
  State, Command, CommandKind, seed_ring, add_shard, remove_shard, set_vnodes, bump_policy_gen,
  set_store_gen, unknown, max_vnodes, is_taken, addr_of, move_member, drop_member, place_member,
  apply_add, seed_members, apply_seed, apply_remove, apply_vnodes, apply_store_gen, apply,
  apply_kind, new_state, replay, seeded_or, ApplyError,
}

pub addr_of-none : (k : Text) (ms : List Node) → addr_of k ms ≡ none → has_id k ms ≡ false
unfolding addr_of has_id
addr_of-none k [] h = refl
addr_of-none k (m ∷ ms) h = ground (arith, addr_of-none k ms)

pub addr_of-some :
    (k : Text) (ms : List Node) (a : Text) → addr_of k ms ≡ some a → has_id k ms ≡ true
unfolding addr_of has_id
addr_of-some k [] a h = cc
addr_of-some k (m ∷ ms) a h = ground (arith, addr_of-some k ms a)

-- Moving a member to another address leaves the ids, and so the order.
move-IsAscending : (n : Node) (ms : List Node) → IsAscending ms → IsAscending (move_member n ms)
unfolding move_member
move-IsAscending n [] h = tt
move-IsAscending n (m ∷ []) h = ground arith
move-IsAscending n (m ∷ o ∷ ms) h = ground (arith, move-IsAscending n (o ∷ ms) h.1)

pub has_id-move : (k : Text) (n : Node) (ms : List Node) → has_id k (move_member n ms) ≡ has_id k ms
unfolding move_member has_id
has_id-move k n [] = refl
has_id-move k n (m ∷ ms) = ground (arith, has_id-move k n ms)

drop-IsAscending : (k : Text) (ms : List Node) → IsAscending ms → IsAscending (drop_member k ms)
unfolding drop_member
drop-IsAscending k [] h = tt
drop-IsAscending k (m ∷ []) h = ground arith
drop-IsAscending k (m ∷ n ∷ []) h = ground arith
drop-IsAscending k (m ∷ n ∷ o ∷ ms) h =
    ground (arith, text_lt_trans m.id n.id o.id h.0 h.1.0, drop-IsAscending k (n ∷ o ∷ ms) h.1)

abbrev HasNoEmptyId : List Node → Type 0
HasNoEmptyId ms = has_id [] ms ≡ false

drop-HasNoEmptyId :
    (j k : Text) (ms : List Node) → has_id j ms ≡ false → has_id j (drop_member k ms) ≡ false
unfolding drop_member has_id
drop-HasNoEmptyId j k [] h = refl
drop-HasNoEmptyId j k (m ∷ ms) h = ground (arith, drop-HasNoEmptyId j k ms)

-- The members are sorted by id with no id twice or empty and no address twice or empty, and the
-- vnode count is within its bounds.
pub record IsValid (s : State) : Type 0 where
  pub sorted : IsAscending s.members
  pub named : has_id [] s.members ≡ false
  pub addressed : HasDistinctAddrs s.members
  pub bounded : (pos 0 ≤ℤ s.vnodes) × (s.vnodes ≤ℤ max_vnodes)

place_new-IsValid :
    (s : State) (n : Node)
    → IsValid s
    → text_eq n.id [] ≡ false
    → text_eq n.addr [] ≡ false
    → is_taken n s.members ≡ false
    → has_id n.id s.members ≡ false
    → IsValid (place_member s n none).0
unfolding place_member has_id
place_new-IsValid s n v i a t new = record {
  sorted =
      sort_members-IsAscending (s.members ++ n ∷ [])
        (HasDistinctIds-append_one s.members n (IsAscending-distinct s.members v.sorted) new);
  named =
      ground
        (arith, has_id-sort [] (s.members ++ n ∷ []), has_id-append [] s.members (n ∷ []), v.named);
  addressed =
      sort-HasDistinctAddrs (s.members ++ n ∷ [])
        (append-HasDistinctAddrs s.members n v.addressed t new a);
  bounded = v.bounded;
}

add-IsValid : (s : State) (n : Node) → IsValid s → IsValid (apply_add s n).0
unfolding apply_add place_member
add-IsValid s n v = elim (Bool-cases (text_eq n.id [])) [
  | inl i ↦ rw i v
  | inr i ↦ elim (Bool-cases (text_eq n.addr [])) [
    | inl a ↦ rw (i, a) v
    | inr a ↦ elim (Bool-cases (is_taken n s.members)) [
      | inl t ↦ rw (i, a, t) v
      | inr t ↦ elim (Option-cases (addr_of n.id s.members)) [
        | inl new ↦
            rw (i, a, t, new) (place_new-IsValid s n v i a t (addr_of-none n.id s.members new))
        | inr (addr, old) ↦ elim (Bool-cases (text_eq addr n.addr)) [
          | inl same ↦ rw (i, a, t, old, same) v
          | inr moved ↦
              rw (i, a, t, old, moved)
                (record {
                  sorted = move-IsAscending n s.members v.sorted;
                  named = has_id-move [] n s.members ∙ v.named;
                  addressed =
                      move-HasDistinctAddrs n s.members v.addressed t a
                        (IsAscending-distinct s.members v.sorted);
                  bounded = v.bounded;
                })
        ]
      ]
    ]
  ]
]

seed-IsValid : (s : State) (ms : List Node) → IsValid s → IsValid (seed_members s ms).0
unfolding seed_members
seed-IsValid s [] v = v
seed-IsValid s (m ∷ ms) v = elim (Option-cases (apply_add s m).2) [
  | inl fine ↦ rw (fine, seed_members) (seed-IsValid (apply_add s m).0 ms (add-IsValid s m v))
  | inr (e, bad) ↦ rw (bad, seed_members) (add-IsValid s m v)
]

seeded-IsValid :
    (s : State) (epoch : ℕ) (r : State × Option ApplyError)
    → IsValid s
    → IsValid r.0
    → IsValid (seeded_or s epoch r).0
seeded-IsValid s epoch (seeded, none) v w = record {
  sorted = w.sorted;
  named = w.named;
  addressed = w.addressed;
  bounded = w.bounded;
}
seeded-IsValid s epoch (seeded, some e) v w = v

apply_seed-IsValid :
    (s : State) (ms : List Node) (k : ℤ) → IsValid s → IsValid (apply_seed s ms k).0
unfolding apply_seed has_id
apply_seed-IsValid s [] k v = ground arith
apply_seed-IsValid s (n ∷ ns) k v = ground (
  arith,
  seeded-IsValid s s.ring_epoch (seed_members (record s { members = []; vnodes = k }) (n ∷ ns)) v,
  seed-IsValid (record s { members = []; vnodes = k }) (n ∷ ns),
)

remove-IsValid : (s : State) (k : Text) → IsValid s → IsValid (apply_remove s k).0
unfolding apply_remove
remove-IsValid s k v = ground (
  arith,
  drop-IsAscending k s.members v.sorted,
  drop-HasNoEmptyId [] k s.members v.named,
  drop-HasDistinctAddrs k s.members v.addressed,
)

vnodes-IsValid : (s : State) (n : ℤ) → IsValid s → IsValid (apply_vnodes s n).0
unfolding apply_vnodes
vnodes-IsValid s n v = ground arith

store_gen-IsValid : (s : State) (g : ℕ) → IsValid s → IsValid (apply_store_gen s g).0
unfolding apply_store_gen
store_gen-IsValid s g v = ground arith

apply_kind-IsValid :
    (k : CommandKind) (s : State) (c : Command) → IsValid s → IsValid (apply_kind k s c).0
unfolding apply_kind
apply_kind-IsValid seed_ring s c v = apply_seed-IsValid s c.members c.vnodes v
apply_kind-IsValid add_shard s c v = add-IsValid s c.member v
apply_kind-IsValid remove_shard s c v = remove-IsValid s c.id v
apply_kind-IsValid set_vnodes s c v = vnodes-IsValid s c.vnodes v
apply_kind-IsValid bump_policy_gen s c v = record {
  sorted = v.sorted;
  named = v.named;
  addressed = v.addressed;
  bounded = v.bounded;
}
apply_kind-IsValid set_store_gen s c v = store_gen-IsValid s c.gen v
apply_kind-IsValid (unknown k) s c v = v

-- Every entry of the log, applied or refused, keeps a valid state valid: members sorted by id, no
-- id and no address twice or empty, and the vnode count in its bounds.
pub apply-IsValid : (s : State) (c : Command) → IsValid s → IsValid (apply s c).0
unfolding apply
apply-IsValid s c v = apply_kind-IsValid c.kind s c v

-- Any log, applied to a new node's state, leaves a valid one: members sorted by id, no id and no
-- address twice or empty, and the vnode count in its bounds.
pub replay-IsValid : (log : List Command) → IsValid (replay new_state log)
unfolding new_state has_id replay
replay-IsValid log =
    go new_state log
      (record { sorted = tt; named = refl; addressed = tt; bounded = (omega arith, omega arith) })
  where
    go : (s : State) (log : List Command) → IsValid s → IsValid (replay s log)
    go s [] v = v
    go s (c ∷ log) v = go (apply s c).0 log (apply-IsValid s c v)
