-- ===== src/Config/Joining.antt =====
-- cmd/gateway/main.go, where it builds the view of the cluster from an accepted configuration.
use distributed_rate_limiter.Prelude.{
  ℕ, ◌≡◌, ◌≢◌, inl, inr, refl, ◌∙◌, arith, true, false, Option, none, some, List, [], ◌∷◌, Text,
  text_eq, text_eq_iff, text_eq_refl, if◌then◌else◌, Bool-cases, Option-cases,
}
use distributed_rate_limiter.Prelude.Int.{ℤ, pos, ltb_ℤ}
use mathlib.Core.List.{Perm, append-nil}
use distributed_rate_limiter.Cluster.Members.{
  Node, has_id, sort_members, HasDistinctIds, IsAscending-distinct,
}
use distributed_rate_limiter.Cluster.Sorting.{has_id-sort, sort_members-IsAscending}
use distributed_rate_limiter.Cluster.Addresses.{has_addr}
use distributed_rate_limiter.Cluster.State.{State, max_vnodes}
use distributed_rate_limiter.Cluster.State.Invariant.{IsValid}
use distributed_rate_limiter.Cluster.View.{
  Viewed, viewed, refused, bad_ring, new_view, add_all, first_state, adopt, with_ring,
}
use distributed_rate_limiter.Ring.{
  new, Built, build, built, failed, too_many_vnodes, refuse_ids, points_each,
}
use distributed_rate_limiter.Ring
use distributed_rate_limiter.Config.{Config, Member}
use distributed_rate_limiter.Config.Accepted.{first_of-none}
use distributed_rate_limiter.Config.Checks.{Url}
use distributed_rate_limiter.Config.ClusterChecks.{validate_members, validate_cluster, lists_self}
use distributed_rate_limiter.Config.Validate.{validate_config, validate_node, validate_store}
use distributed_rate_limiter.Config.RouteChecks.{validate_routes}
use distributed_rate_limiter.Config.Adding.{members_of, IsSeen, joined, unseen}

refuse_none :
    (seen ns : List Node)
    → HasDistinctIds ns
    → has_id [] ns ≡ false
    → ((k : Text) → has_id k seen ≡ true → has_id k ns ≡ false)
    → refuse_ids seen ns ≡ none
unfolding refuse_ids has_id
refuse_none seen [] d e f = refl
refuse_none seen (n ∷ ns) d e f =
    let unseen_id = unseen (has_id n.id seen) (has_id n.id (n ∷ ns)) in
    let rest = refuse_none (n ∷ seen) ns d.1 (ground arith) (λ k h. still k h) in
    ground (arith, rest, f n.id, text_eq_refl n.id)
  where
    still : (k : Text) → has_id k (n ∷ seen) ≡ true → has_id k ns ≡ false
    still k h = ground (arith, f k, d.0, text_eq_iff n.id k)

-- A count that is not set is the default, which is within the bound.
capped : (v : ℤ) → ltb_ℤ Ring.max_vnodes (pos (points_each v)) ≡ ltb_ℤ max_vnodes v
unfolding points_each
capped v = ground arith

-- The ring of a valid membership: it is refused just when it has too many virtual nodes.
ring_of :
    (xxhash : Text → ℕ) (self : Text) (ms : List Node) (v : ℤ)
    → HasDistinctIds ms
    → has_id [] ms ≡ false
    → has_id self ms ≡ true
    → new xxhash ms v ≡ (
        if ltb_ℤ max_vnodes v
        then failed too_many_vnodes
        else built (build xxhash (sort_members ms) (points_each v)))
unfolding new has_id
ring_of xxhash self [] v a e h = cc
ring_of xxhash self (m ∷ ms) v a e h =
    let distinct =
      IsAscending-distinct (sort_members (m ∷ ms)) (sort_members-IsAscending (m ∷ ms) a) in
    let passes =
      refuse_none [] (sort_members (m ∷ ms)) distinct (has_id-sort [] (m ∷ ms) ∙ e) (λ k x. cc x) in
    let bound : ltb_ℤ Ring.max_vnodes (pos (points_each v)) ≡ ltb_ℤ max_vnodes v = capped v in
    rw (new, passes, bound) refl

node_and_cluster :
    (parse_url : Text → Option Url) (c : Config)
    → validate_config parse_url c ≡ none
    → (validate_node c ≡ none) × (validate_cluster c ≡ none)
unfolding validate_config
node_and_cluster parse_url c h =
    let after_node = first_of-none (validate_node c) _ h in
    let after_store = first_of-none (validate_store c) _ after_node.1 in
    let after_routes = first_of-none (validate_routes parse_url [] [] c.routes) _ after_store.1 in
    (after_node.0, (first_of-none (validate_cluster c) _ after_routes.1).0)

cluster_facts :
    (c : Config)
    → validate_cluster c ≡ none
    → c.cluster.members ≢ []
    → (validate_members [] [] c.cluster.members ≡ none)
      × (lists_self c.node.id c.cluster.members ≡ true)
      × (ltb_ℤ c.cluster.vnodes (pos 0) ≡ false)
unfolding validate_cluster
cluster_facts c h e = go c.cluster.members refl
  where
    go :
        (ms : List Member)
        → c.cluster.members ≡ ms
        → (validate_members [] [] ms ≡ none)
          × (lists_self c.node.id ms ≡ true)
          × (ltb_ℤ c.cluster.vnodes (pos 0) ≡ false)
    go [] x = elim (e x) [ ]
    go (m ∷ ms) x = elim (Option-cases (validate_members [] [] (m ∷ ms))) [
      | inr (er, y) ↦ cc
      | inl y ↦ elim (Bool-cases (lists_self c.node.id (m ∷ ms))) [
        | inr z ↦ cc
        | inl z ↦ elim (Bool-cases (ltb_ℤ c.cluster.vnodes (pos 0))) [
          | inl w ↦ cc
          | inr w ↦ (y, z, w)
        ]
      ]
    ]

first_IsSeen : (v : ℤ) → IsSeen [] [] (first_state v)
unfolding has_id has_addr
first_IsSeen v = record { known = λ k h. cc; held = λ a h. cc }

-- A ring that is made of members, and one that is refused.
abbrev view_of : Text → State → Built → Viewed
view_of self s (built r) = viewed (record { self = self; state = s; ring = some r })
view_of self s (failed e) = refused (bad_ring e)

with_ring_of :
    (xxhash : Text → ℕ) (self : Text) (s : State) (ns : List Node)
    → has_id self ns ≡ true
    → with_ring xxhash self s ns ≡ view_of self s (new xxhash ns s.vnodes)
unfolding with_ring has_id
with_ring_of xxhash self s [] h = cc
with_ring_of xxhash self s (n ∷ ns) h = go (new xxhash (n ∷ ns) s.vnodes)
  where
    go :
        (b : Built)
        → (elim b [
          | failed e ↦ refused (bad_ring e)
          | built r ↦ viewed (record { self = self; state = s; ring = some r })
        ])
          ≡ view_of self s b
    go (failed e) = refl
    go (built r) = refl

joined_view :
    (xxhash : Text → ℕ) (self : Text) (ns : List Node) (v : ℤ)
    → text_eq self [] ≡ false
    → (add_all (first_state v) ns).1 ≡ none
    → has_id self (add_all (first_state v) ns).0.members ≡ true
    → new_view xxhash self ns v
      ≡ view_of self
          (add_all (first_state v) ns).0
          (new xxhash (add_all (first_state v) ns).0.members (add_all (first_state v) ns).0.vnodes)
unfolding new_view adopt
joined_view xxhash self ns v i fine h =
    rw (new_view, i, fine, adopt, h)
      (with_ring_of xxhash self (add_all (first_state v) ns).0
        (add_all (first_state v) ns).0.members h)

too_many :
    (xxhash : Text → ℕ) (self : Text) (ms : List Node) (v : ℤ)
    → has_id self ms ≡ true
    → ltb_ℤ max_vnodes v ≡ true
    → new xxhash ms v ≡ failed too_many_vnodes
unfolding new has_id
too_many xxhash self [] v h m = cc
too_many xxhash self (n ∷ ns) v h m = let bound = capped v ∙ m in rw (new, bound) refl

within : (v : ℤ) → ltb_ℤ v (pos 0) ≡ false → ltb_ℤ max_vnodes v ≡ false → IsValid (first_state v)
unfolding has_id
within v a b = record {
  sorted = tt;
  named = refl;
  addressed = tt;
  bounded = (ground arith, ground arith);
}

node_named : (c : Config) → validate_node c ≡ none → text_eq c.node.id [] ≡ false
unfolding validate_node
node_named c h = elim (Bool-cases (text_eq c.node.id [])) [ inl e ↦ cc | inr e ↦ e ]

abbrev pub expected : (Text → ℕ) → Config → State → Viewed
expected xxhash c s =
    if ltb_ℤ max_vnodes c.cluster.vnodes
    then refused (bad_ring too_many_vnodes)
    else viewed (record {
      self = c.node.id;
      state = s;
      ring = some (build xxhash (sort_members s.members) (points_each c.cluster.vnodes));
    })

as_expected :
    (xxhash : Text → ℕ) (c : Config) (s : State)
    → s.vnodes ≡ c.cluster.vnodes
    → has_id c.node.id s.members ≡ true
    → (ltb_ℤ max_vnodes c.cluster.vnodes ≡ false → IsValid s)
    → view_of c.node.id s (new xxhash s.members s.vnodes) ≡ expected xxhash c s
as_expected xxhash c s e h valid = elim (Bool-cases (ltb_ℤ max_vnodes c.cluster.vnodes)) [
  | inl m ↦
      let refuses = too_many xxhash c.node.id s.members c.cluster.vnodes h m in
      rw (e, refuses, expected, m) refl
  | inr m ↦
      let w = valid m in
      let builds =
        ring_of xxhash c.node.id s.members c.cluster.vnodes
          (IsAscending-distinct s.members w.sorted) w.named h in
      rw (e, builds, expected, m) refl
]

-- With a cluster that is accepted, a node makes its view: its members are those that the
-- configuration lists, each once with the id and the address it is listed with, up to the order; and
-- it has the configured count of virtual nodes. The one exception is a count above 4096, which is
-- accepted and then refused by the ring.
pub accepted_view :
    (parse_url : Text → Option Url) (xxhash : Text → ℕ) (c : Config)
    → validate_config parse_url c ≡ none
    → c.cluster.members ≢ []
    → (s : State) × (new_view xxhash c.node.id (members_of c.cluster.members) c.cluster.vnodes
        ≡ expected xxhash c s)
      × (s.vnodes ≡ c.cluster.vnodes)
      × ((k : Text) → has_id k s.members ≡ lists_self k c.cluster.members)
      × Perm s.members (members_of c.cluster.members)
unfolding has_id
accepted_view parse_url xxhash c h e =
    let (named, cluster) = node_and_cluster parse_url c h in
    let (pass, self, nonneg) = cluster_facts c cluster e in
    let v = c.cluster.vnodes in
    let made = add_all (first_state v) (members_of c.cluster.members) in
    let join = joined [] [] c.cluster.members (first_state v) pass (first_IsSeen v) in
    let member : has_id c.node.id made.0.members ≡ true = join.has c.node.id ∙ self in
    let view =
      joined_view xxhash c.node.id (members_of c.cluster.members) v (node_named c named) join.fine
        member in
    (
      made.0,
      view ∙ as_expected xxhash c made.0 join.vnodes member (λ m. join.valid (within v nonneg m)),
      join.vnodes,
      join.has,
      rw (append-nil) at join.listed,
    )
