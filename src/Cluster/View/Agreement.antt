-- ===== src/Cluster/View/Agreement.antt =====
-- A view and the ring of its state stay together, so the owner it reports is that of its state.
use distributed_rate_limiter.Prelude.{
  ℕ, ◌≡◌, refl, arith, true, false, ◌==◌, Option, none, some, List, [], ◌∷◌, Text, text_eq, length,
  Bool-cases, inl, inr, get_elem?, ◌>>=◌, sym, ap,
}
use distributed_rate_limiter.Prelude.Int.{ℤ, ◌==ℤ◌}
use distributed_rate_limiter.Cluster.Members.{Node, has_id}
use distributed_rate_limiter.Cluster.State.{State, apply, ApplyError, set_vnodes}
use distributed_rate_limiter.Ring.{
  Ring, Point, Built, built, failed, new, owner, node_at, search, points_each,
}
use distributed_rate_limiter.Ring.Owners.{IsNearest}
use distributed_rate_limiter.Ring.Stability.{new-IsNearest}
use distributed_rate_limiter.Cluster.View.{
  View, Viewed, viewed, refused, with_ring, adopt, new_view, finish_replace, replace, view_owner,
  Change, committed, configured, change, changes, add_all, remove_all, first_state, entry,
  bad_entry, view_owner, kept_or,
}

module _ (xxhash : Text → ℕ) where
  -- The node is a member of its state, and the ring is the one that the state describes.
  pub record IsConsistent (w : View) : Type 0 where
    pub member : has_id w.self w.state.members ≡ true
    pub ring : Ring
    pub holds : w.ring ≡ some ring
    pub described : new xxhash w.state.members w.state.vnodes ≡ built ring

  -- A node with a state that it is a member of, and with a ring that was built from it.
  settled :
      (self : Text) (s : State) (r : Ring)
      → has_id self s.members ≡ true
      → new xxhash s.members s.vnodes ≡ built r
      → IsConsistent (record { self = self; state = s; ring = some r })
  settled self s r m b = record { member = m; ring = r; holds = refl; described = b }

  with_ring-IsConsistent :
      (self : Text) (s : State) (ns : List Node) (w : View)
      → s.members ≡ ns
      → has_id self s.members ≡ true
      → with_ring xxhash self s ns ≡ viewed w
      → IsConsistent w
  unfolding with_ring has_id
  with_ring-IsConsistent self s [] w e m h = cc (sym (ap (has_id self) e), m)
  with_ring-IsConsistent self s (n ∷ ns) w e m h = split (new xxhash (n ∷ ns) s.vnodes) refl
    where
      split : (b : Built) → new xxhash (n ∷ ns) s.vnodes ≡ b → IsConsistent w
      split (failed x) b = cc
      split (built r) b =
          let same : record { self = self; state = s; ring = some r } ≡ w = cc in
          let described : new xxhash s.members s.vnodes ≡ built r = rw e b in
          rw (← same) (settled self s r m described)

  adopt-IsConsistent :
      (self : Text) (s : State) (w : View) → adopt xxhash self s ≡ viewed w → IsConsistent w
  unfolding adopt
  adopt-IsConsistent self s w h = elim (Bool-cases (has_id self s.members)) [
    | inl e ↦ with_ring-IsConsistent self s s.members w refl e (cc)
    | inr e ↦ cc
  ]

  -- What follows an entry is reached when the entry is accepted.
  accepted :
      (o : Option ApplyError) (next : Viewed) (w : View)
      → (elim o [ some e ↦ refused (bad_entry e) | none ↦ next ]) ≡ viewed w
      → next ≡ viewed w
  accepted none next w h = h
  accepted (some e) next w h = cc

  finish_replace-IsConsistent :
      (self : Text) (s : State) (v : ℤ) (w : View)
      → finish_replace xxhash self s v ≡ viewed w
      → IsConsistent w
  unfolding finish_replace
  finish_replace-IsConsistent self s v w h = elim (Bool-cases (v ==ℤ s.vnodes)) [
    | inl e ↦ adopt-IsConsistent self s w (cc)
    | inr e ↦
        let out = apply s (entry set_vnodes (record { id = []; addr = [] }) v) in
        adopt-IsConsistent self out.0 w (accepted out.2 (adopt xxhash self out.0) w (cc))
  ]

  replace-IsConsistent :
      (u : View) (ms : List Node) (v : ℤ) (w : View)
      → replace xxhash u ms v ≡ viewed w
      → IsConsistent w
  unfolding replace
  replace-IsConsistent u ms v w h =
      let left = remove_all ms u.state u.state.members in
      let next = add_all left.0 ms in
      let done = finish_replace xxhash u.self next.0 v in
      finish_replace-IsConsistent u.self next.0 v w (
        accepted next.1 done w
          (accepted left.1 (elim next.1 [ some e ↦ refused (bad_entry e) | none ↦ done ]) w h))

  -- A view that a configuration makes holds the ring of its state, and its node is a member.
  pub new_view-IsConsistent :
      (self : Text) (ms : List Node) (v : ℤ) (w : View)
      → new_view xxhash self ms v ≡ viewed w
      → IsConsistent w
  unfolding new_view
  new_view-IsConsistent self ms v w h = elim (Bool-cases (text_eq self [])) [
    | inl e ↦ cc
    | inr e ↦
        let made = add_all (first_state v) ms in
        adopt-IsConsistent self made.0 w (accepted made.1 (adopt xxhash self made.0) w (cc))
  ]

  change-IsConsistent : (w : View) (c : Change) → IsConsistent w → IsConsistent (change xxhash w c)
  unfolding change
  change-IsConsistent w (committed s) k =
      kept (adopt xxhash w.self s) (λ u e. adopt-IsConsistent w.self s u e)
    where
      kept :
          (d : Viewed) → ((u : View) → d ≡ viewed u → IsConsistent u) → IsConsistent (kept_or w d)
      kept (viewed u) f = f u refl
      kept (refused e) f = k
  change-IsConsistent w (configured ms v) k =
      kept (replace xxhash w ms v) (λ u e. replace-IsConsistent w ms v u e)
    where
      kept :
          (d : Viewed) → ((u : View) → d ≡ viewed u → IsConsistent u) → IsConsistent (kept_or w d)
      kept (viewed u) f = f u refl
      kept (refused e) f = k

  -- Whatever states and configurations a view is given afterwards, and whichever of them it refuses,
  -- it holds the ring of its state and its node is a member.
  pub changes-IsConsistent :
      (w : View) (cs : List Change) → IsConsistent w → IsConsistent (changes xxhash w cs)
  unfolding changes
  changes-IsConsistent w [] k = k
  changes-IsConsistent w (c ∷ cs) k =
      changes-IsConsistent (change xxhash w c) cs (change-IsConsistent w c k)

  has_nodes : (r : Ring) (i : ℕ) (n : Node) → node_at r i ≡ some n → (length r.nodes == 0) ≡ false
  unfolding node_at
  has_nodes r i n h = split r.nodes (get_elem? r.points i) h
    where
      split :
          (ns : List Node) (o : Option Point)
          → (o >>= (λ p. get_elem? ns p.node)) ≡ some n
          → (length ns == 0) ≡ false
      split [] none e = cc
      split [] (some p) e = cc
      split (m ∷ ms) o e = ground arith

  owned_by :
      (w : View) (r : Ring) (tenant : Text) (n : Node)
      → w.ring ≡ some r
      → owner xxhash r tenant ≡ some n
      → view_owner xxhash w tenant ≡ some (n, text_eq n.id w.self)
  unfolding view_owner owner
  owned_by w r tenant n holds owns =
      let full = has_nodes r (search (xxhash tenant) r) n owns in rw (holds, full, owns) refl

  -- A node makes its view from a configuration. Then, whatever states and configurations the view is
  -- given, in whatever order and whichever of them it refuses: the node is a member of the state
  -- that the view holds, and the owner that it reports for a tenant is the member of that state
  -- with the virtual node nearest to the tenant's hash, going up from it and around the end.
  pub view_owner-IsNearest :
      (self : Text) (ms : List Node) (v : ℤ) (w : View) (cs : List Change) (tenant : Text)
      → new_view xxhash self ms v ≡ viewed w
      → let u = changes xxhash w cs in
        (has_id u.self u.state.members ≡ true)
        × (n : Node) × (view_owner xxhash u tenant ≡ some (n, text_eq n.id u.self))
        × IsNearest xxhash (points_each u.state.vnodes) u.state.members (xxhash tenant) n
  view_owner-IsNearest self ms v w cs tenant made =
      let u = changes xxhash w cs in
      let c = changes-IsConsistent w cs (new_view-IsConsistent self ms v w made) in
      let (n, owns, near) =
        new-IsNearest xxhash u.state.members u.state.vnodes c.ring tenant c.described in
      (c.member, n, owned_by u c.ring tenant n c.holds owns, near)
