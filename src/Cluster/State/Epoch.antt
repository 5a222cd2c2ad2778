-- ===== src/Cluster/State/Epoch.antt =====
-- When the ring's epoch and the generations advance.
use distributed_rate_limiter.Prelude.{
  ℕ, ◌≡◌, refl, sym, ap, ◌∙◌, ◌≢◌, ◌⊎◌, Bool, true, false, ◌||◌, Option, none, some, List, [], ◌∷◌,
  ◌++◌, map, Text, text_eq, text_eq_iff, text_eq_refl, arith, Bool-cases, Option-cases, inl, inr,
}
use mathlib.Core.Bool.{true≢false, false≢true}
use distributed_rate_limiter.Prelude.Int.{ℤ}
use distributed_rate_limiter.Cluster.Members.{Node, has_id, IsAscending-distinct, HasDistinctIds}
use distributed_rate_limiter.Cluster.Sorting.{has_id-sort, has_id-append}
use distributed_rate_limiter.Cluster.State.{
  State, Command, CommandKind, seed_ring, add_shard, remove_shard, set_vnodes, bump_policy_gen,
  set_store_gen, unknown, u64_next, addr_of, move_member, drop_member, place_member, apply_add,
  seed_members, apply_seed, apply_remove, apply_vnodes, apply_store_gen, apply, apply_kind,
  seeded_or, ApplyError,
}
use distributed_rate_limiter.Cluster.State.Invariant.{
  IsValid, addr_of-none, addr_of-some, has_id-move,
}

abbrev pub ids : State → List Text
ids s = map (λ (m : Node). m.id) s.members

is_among : Text → List Text → Bool
is_among k [] = false
is_among k (j ∷ js) = text_eq j k || is_among k js

has_id-ids : (k : Text) (ms : List Node) → has_id k ms ≡ is_among k (map (λ (m : Node). m.id) ms)
unfolding has_id is_among
has_id-ids k [] = refl
has_id-ids k (m ∷ ms) = ground (arith, has_id-ids k ms)

-- Members that differ in whether they have an id differ in their ids.
ids_differ : (k : Text) (s t : State) → has_id k s.members ≢ has_id k t.members → ids t ≢ ids s
ids_differ k s t h e =
    h (has_id-ids k s.members ∙ ap (is_among k) (sym e) ∙ sym (has_id-ids k t.members))

ids-move :
    (n : Node) (ms : List Node)
    → map (λ (m : Node). m.id) (move_member n ms) ≡ map (λ (m : Node). m.id) ms
unfolding move_member
ids-move n [] = refl
ids-move n (m ∷ ms) = ground (arith, ids-move n ms)

has_id-drop : (k : Text) (ms : List Node) → HasDistinctIds ms → has_id k (drop_member k ms) ≡ false
unfolding has_id drop_member
has_id-drop k [] d = refl
has_id-drop k (m ∷ ms) d = ground (arith, has_id-drop k ms d.1, text_eq_iff m.id k)

-- The epoch rule: the same ids and vnodes and the same epoch, or a difference in one of them and
-- the next epoch.
abbrev pub FollowsEpochRule : State → State → Type 0
FollowsEpochRule s t =
    ((ids t ≡ ids s) × (t.vnodes ≡ s.vnodes) × (t.ring_epoch ≡ s.ring_epoch))
    ⊎ (((ids t ≢ ids s) ⊎ (t.vnodes ≢ s.vnodes)) × (t.ring_epoch ≡ u64_next s.ring_epoch))

has_id-place : (s : State) (n : Node) → has_id n.id (place_member s n none).0.members ≡ true
unfolding place_member has_id
has_id-place s n = ground (
  arith,
  has_id-sort n.id (s.members ++ n ∷ []),
  has_id-append n.id s.members (n ∷ []),
  text_eq_refl n.id,
)

place-rule :
    (s : State) (n : Node) → FollowsEpochRule s (place_member s n (addr_of n.id s.members)).0
unfolding place_member
place-rule s n = elim (Option-cases (addr_of n.id s.members)) [
  | inl new ↦
      let absent = addr_of-none n.id s.members new in
      rw new (
        inr (
          inl (
              ids_differ n.id s (place_member s n none).0
                (λ e. true≢false (sym (has_id-place s n) ∙ sym e ∙ absent))),
          refl,
        ))
  | inr (addr, old) ↦ elim (Bool-cases (text_eq addr n.addr)) [
    | inl same ↦ rw (old, same) (inl (refl, refl, refl))
    | inr moved ↦ rw (old, moved) (inl (ids-move n s.members, refl, refl))
  ]
]

add-rule : (s : State) (n : Node) → FollowsEpochRule s (apply_add s n).0
unfolding apply_add
add-rule s n = ground (arith, place-rule s n)

-- Adding a member loses none, and if it applies the member is there.
place-has :
    (k : Text) (s : State) (n : Node)
    → has_id k (place_member s n (addr_of n.id s.members)).0.members
      ≡ (text_eq n.id k || has_id k s.members)
unfolding place_member has_id
place-has k s n = elim (Option-cases (addr_of n.id s.members)) [
  | inl new ↦
      ground (arith, has_id-sort k (s.members ++ n ∷ []), has_id-append k s.members (n ∷ []))
  | inr (addr, old) ↦
      ground
        (arith, has_id-move k n s.members, addr_of-some n.id s.members addr old, text_eq_iff n.id k)
]

add-has :
    (k : Text) (s : State) (n : Node)
    → ((apply_add s n).2 ≡ none
        → has_id k (apply_add s n).0.members ≡ (text_eq n.id k || has_id k s.members))
      × (has_id k s.members ≡ true → has_id k (apply_add s n).0.members ≡ true)
unfolding apply_add
add-has k s n = ground (arith, place-has k s n)

seed-has :
    (k : Text) (s : State) (ms : List Node)
    → has_id k s.members ≡ true
    → has_id k (seed_members s ms).0.members ≡ true
unfolding seed_members
seed-has k s [] h = h
seed-has k s (m ∷ ms) h = elim (Option-cases (apply_add s m).2) [
  | inl fine ↦ rw (fine, seed_members) (seed-has k (apply_add s m).0 ms ((add-has k s m).1 h))
  | inr (e, bad) ↦ rw (bad, seed_members) ((add-has k s m).1 h)
]

seed-has_first :
    (s : State) (m : Node) (ms : List Node)
    → (seed_members s (m ∷ ms)).1 ≡ none
    → has_id m.id (seed_members s (m ∷ ms)).0.members ≡ true
unfolding seed_members
seed-has_first s m ms h = elim (Option-cases (apply_add s m).2) [
  | inl fine ↦
      rw (fine, seed_members)
        (seed-has m.id (apply_add s m).0 ms
          ((add-has m.id s m).0 fine ∙ ap (λ b. b || has_id m.id s.members) (text_eq_refl m.id)))
  | inr (e, bad) ↦ cc (rw (bad, seed_members) at h)
]

seeded-rule :
    (s : State) (r : State × Option ApplyError)
    → (r.1 ≡ none → ids r.0 ≢ ids s)
    → FollowsEpochRule s (seeded_or s s.ring_epoch r).0
seeded-rule s (t, none) h = inr (inl (h refl), refl)
seeded-rule s (t, some e) h = inl (refl, refl, refl)

seed-rule :
    (s : State) (ms : List Node) (v : ℤ) (old : List Node)
    → s.members ≡ old
    → FollowsEpochRule s (apply_seed s ms v).0
unfolding apply_seed has_id
seed-rule s [] v old e = ground arith
seed-rule s (n ∷ ns) v (m ∷ ms) e = ground arith
seed-rule s (n ∷ ns) v [] e =
    let start = record s { members = []; vnodes = v } in
    let r = seed_members start (n ∷ ns) in
    let grows : r.1 ≡ none → ids r.0 ≢ ids s = λ fine.
      ids_differ n.id s r.0 (rw e (λ same. false≢true (same ∙ seed-has_first start n ns fine))) in
    ground (arith, seeded-rule s r grows)

remove-rule : (s : State) (k : Text) → IsValid s → FollowsEpochRule s (apply_remove s k).0
unfolding apply_remove
remove-rule s k v = elim (Bool-cases (text_eq k [])) [
  | inl empty ↦ rw empty (inl (refl, refl, refl))
  | inr named ↦ elim (Bool-cases (has_id k s.members)) [
    | inr absent ↦ rw (named, absent) (inl (refl, refl, refl))
    | inl there ↦
        let gone = has_id-drop k s.members (IsAscending-distinct s.members v.sorted) in
        let left = record s { members = drop_member k s.members } in
        rw (named, there)
          (inr (inl (ids_differ k s left (λ e. true≢false (sym there ∙ e ∙ gone))), refl))
  ]
]

vnodes-rule : (s : State) (n : ℤ) → FollowsEpochRule s (apply_vnodes s n).0
unfolding apply_vnodes
vnodes-rule s n = ground arith

store_gen-rule : (s : State) (g : ℕ) → FollowsEpochRule s (apply_store_gen s g).0
unfolding apply_store_gen
store_gen-rule s g = ground arith

apply_kind-rule :
    (k : CommandKind) (s : State) (c : Command)
    → IsValid s
    → FollowsEpochRule s (apply_kind k s c).0
unfolding apply_kind
apply_kind-rule seed_ring s c v = seed-rule s c.members c.vnodes s.members refl
apply_kind-rule add_shard s c v = add-rule s c.member
apply_kind-rule remove_shard s c v = remove-rule s c.id v
apply_kind-rule set_vnodes s c v = vnodes-rule s c.vnodes
apply_kind-rule bump_policy_gen s c v = inl (refl, refl, refl)
apply_kind-rule set_store_gen s c v = store_gen-rule s c.gen
apply_kind-rule (unknown k) s c v = inl (refl, refl, refl)

-- The epoch rule of `Apply`, on every entry: in a valid state the ring epoch advances, by one,
-- exactly when the list of member ids or the vnode count changes.
pub apply-epoch : (s : State) (c : Command) → IsValid s → FollowsEpochRule s (apply s c).0
unfolding apply
apply-epoch s c v = apply_kind-rule c.kind s c v
