-- ===== src/Cluster/State/Entries.antt =====
-- What an entry of the log may not do: move a state it refuses, or take a generation back.
use distributed_rate_limiter.Prelude.{
  ℕ, ◌≤◌, ◌≡◌, refl, false, Option, none, some, List, [], ◌∷◌, Text, arith,
}
use distributed_rate_limiter.Prelude.Int.{ℤ}
use distributed_rate_limiter.Cluster.Members.{Node}
use distributed_rate_limiter.Cluster.State.{
  State, Command, CommandKind, seed_ring, add_shard, remove_shard, set_vnodes, bump_policy_gen,
  set_store_gen, unknown, ApplyError, Applied, place_member, apply_add, seed_members, apply_seed,
  apply_remove, apply_vnodes, apply_store_gen, apply, apply_kind, seeded_or, replay,
}

-- An entry that is refused or reports no change leaves the state.
abbrev pub Reports : State → Applied → Type 0
Reports s r =
    ((e : ApplyError) → r.2 ≡ some e → (r.1 ≡ false) × (r.0 ≡ s)) × (r.1 ≡ false → r.0 ≡ s)

add-Reports : (s : State) (n : Node) → Reports s (apply_add s n)
unfolding apply_add place_member
add-Reports s n = (λ e h. ground arith, λ h. ground arith)

seeded-Reports :
    (s : State) (epoch : ℕ) (r : State × Option ApplyError) → Reports s (seeded_or s epoch r)
seeded-Reports s epoch (t, none) = (λ e h. ground arith, λ h. ground arith)
seeded-Reports s epoch (t, some e) = (λ f h. (refl, refl), λ h. refl)

seed-Reports : (s : State) (ms : List Node) (v : ℤ) → Reports s (apply_seed s ms v)
unfolding apply_seed
seed-Reports s [] v = (λ e h. ground arith, λ h. ground arith)
seed-Reports s (n ∷ ns) v =
    let r = seed_members (record s { members = []; vnodes = v }) (n ∷ ns) in
    let part = seeded-Reports s s.ring_epoch r in
    (λ e h. ground (arith, part.0 e), λ h. ground (arith, part.1))

remove-Reports : (s : State) (k : Text) → Reports s (apply_remove s k)
unfolding apply_remove
remove-Reports s k = (λ e h. ground arith, λ h. ground arith)

vnodes-Reports : (s : State) (v : ℤ) → Reports s (apply_vnodes s v)
unfolding apply_vnodes
vnodes-Reports s v = (λ e h. ground arith, λ h. ground arith)

store_gen-Reports : (s : State) (g : ℕ) → Reports s (apply_store_gen s g)
unfolding apply_store_gen
store_gen-Reports s g = (λ e h. ground arith, λ h. ground arith)

apply_kind-Reports : (k : CommandKind) (s : State) (c : Command) → Reports s (apply_kind k s c)
unfolding apply_kind
apply_kind-Reports seed_ring s c = seed-Reports s c.members c.vnodes
apply_kind-Reports add_shard s c = add-Reports s c.member
apply_kind-Reports remove_shard s c = remove-Reports s c.id
apply_kind-Reports set_vnodes s c = vnodes-Reports s c.vnodes
apply_kind-Reports bump_policy_gen s c = (λ e h. ground arith, λ h. ground arith)
apply_kind-Reports set_store_gen s c = store_gen-Reports s c.gen
apply_kind-Reports (unknown k) s c = (λ e h. (refl, refl), λ h. refl)

-- An entry that is refused reports no change, and an entry that reports no change leaves the
-- state exactly as it was.
pub apply-Reports : (s : State) (c : Command) → Reports s (apply s c)
unfolding apply
apply-Reports s c = apply_kind-Reports c.kind s c

add_store_gen : (s : State) (n : Node) → (apply_add s n).0.store_gen ≡ s.store_gen
unfolding apply_add place_member
add_store_gen s n = ground arith

seed_store_gen : (s : State) (ms : List Node) → (seed_members s ms).0.store_gen ≡ s.store_gen
unfolding seed_members
seed_store_gen s [] = refl
seed_store_gen s (m ∷ ms) = ground (arith, seed_store_gen (apply_add s m).0 ms, add_store_gen s m)

seeded_store_gen :
    (s : State) (epoch : ℕ) (r : State × Option ApplyError)
    → r.0.store_gen ≡ s.store_gen
    → (seeded_or s epoch r).0.store_gen ≡ s.store_gen
seeded_store_gen s epoch (t, none) h = h
seeded_store_gen s epoch (t, some e) h = refl

seed_keeps : (s : State) (ms : List Node) (v : ℤ) → s.store_gen ≤ (apply_seed s ms v).0.store_gen
unfolding apply_seed
seed_keeps s [] v = ground arith
seed_keeps s (n ∷ ns) v =
    let start = record s { members = []; vnodes = v } in
    ground (
      arith,
      seeded_store_gen s s.ring_epoch (seed_members start (n ∷ ns)) (seed_store_gen start (n ∷ ns)),
    )

apply_kind-store_gen :
    (k : CommandKind) (s : State) (c : Command) → s.store_gen ≤ (apply_kind k s c).0.store_gen
unfolding apply_kind apply_seed apply_remove apply_vnodes apply_store_gen
apply_kind-store_gen seed_ring s c = seed_keeps s c.members c.vnodes
apply_kind-store_gen add_shard s c = omega (arith, add_store_gen s c.member)
apply_kind-store_gen remove_shard s c = ground arith
apply_kind-store_gen set_vnodes s c = ground arith
apply_kind-store_gen bump_policy_gen s c = omega arith
apply_kind-store_gen set_store_gen s c = ground arith
apply_kind-store_gen (unknown k) s c = omega arith

-- No log takes the store generation back.
pub replay-store_gen-le : (s : State) (log : List Command) → s.store_gen ≤ (replay s log).store_gen
unfolding replay apply
replay-store_gen-le s [] = omega arith
replay-store_gen-le s (c ∷ log) =
    omega (arith, apply_kind-store_gen c.kind s c, replay-store_gen-le (apply s c).0 log)
