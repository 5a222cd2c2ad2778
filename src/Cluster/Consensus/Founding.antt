-- ===== src/Cluster/Consensus/Founding.antt =====
-- Who creates the cluster: internal/cluster/consensus.go derives it from the peers it is given.
use distributed_rate_limiter.Prelude.{
  ◌≡◌, refl, ap, sym, ◌∙◌, Bool, true, false, ◌&&◌, not, Bool-cases, inl, inr, Option, none, some,
  List, [], ◌∷◌, map, All, Text, text_eq, text_eq_iff, text_lt, text_lt_irrefl, text_lt_trans,
  text_lt_total, arith,
}
use mathlib.Core.Path.{subst}
use distributed_rate_limiter.Prelude.Sorts.{
  sort_by, IsSortedBy, IsStrict, sort_by-IsSortedBy, sort_by_all,
}
use distributed_rate_limiter.Cluster.Consensus.{
  Peer, Timing, Options, Raft, Voter, Started, refused, running, find_peer, bootstrapper, start,
  start_raft, start_listed, no_peers, is_some_id,
}

text_lt-asym : (x y : Text) → text_lt x y ≡ true → text_lt y x ≡ false
text_lt-asym x y h = elim (Bool-cases (text_lt y x)) [
  | inl back ↦ absurd (ground (arith, text_lt_trans x y x h back, text_lt_irrefl x))
  | inr fine ↦ fine
]

text_lt-co : (x y z : Text) → text_lt y x ≡ false → text_lt z y ≡ false → text_lt z x ≡ false
text_lt-co x y z h k = elim (text_lt_total x y) [
  | inl same ↦ subst (λ w. text_lt z w ≡ false) (sym same) k
  | inr (inr above) ↦ absurd (ground arith)
  | inr (inl below) ↦ elim (Bool-cases (text_lt z x)) [
    | inl lt ↦ absurd (ground (arith, text_lt_trans z x y lt below))
    | inr fine ↦ fine
  ]
]

text_lt-IsStrict : IsStrict text_lt
text_lt-IsStrict = record { asym = text_lt-asym; trans = text_lt-co }

abbrev ids_of : List Peer → List Text
ids_of ps = map (λ (p : Peer). p.id) ps

first_of : List Text → Option Text
first_of [] = none
first_of (k ∷ ks) = some k

first-least :
    (ks : List Text) (k : Text)
    → IsSortedBy text_lt ks
    → first_of ks ≡ some k
    → All (λ j. text_lt j k ≡ false) ks
unfolding first_of
first-least [] k h e = tt
first-least (x ∷ ks) k h e =
    let same : x ≡ k = ground (arith, e) in
    subst (λ w. All (λ j. text_lt j w ≡ false) (x ∷ ks)) same (text_lt_irrefl x, h.0)

bootstrapper-first : (ps : List Peer) → bootstrapper ps ≡ first_of (sort_by text_lt (ids_of ps))
unfolding bootstrapper first_of
bootstrapper-first ps = split (sort_by text_lt (ids_of ps))
  where
    split :
        (ks : List Text)
        → elim ks as (λ x. Option Text) [ [] ↦ none | id ∷ ids ↦ some id ] ≡ first_of ks
    split [] = refl
    split (k ∷ ks) = refl

find_peer-All :
    (P : Text → Type 0) (ps : List Peer) (id : Text) (p : Peer)
    → All P (ids_of ps)
    → find_peer ps id ≡ some p
    → P id
unfolding find_peer
find_peer-All P [] id p h e = cc
find_peer-All P (q ∷ ps) id p h e = elim (Bool-cases (text_eq q.id id)) [
  | inl here ↦ subst P ((text_eq_iff q.id id).0 here) h.0
  | inr there ↦ find_peer-All P ps id p h.1 (ground (arith, e, there))
]

-- No listed peer comes before the one that bootstraps.
bootstrapper-least :
    (ps : List Peer) (k id : Text) (p : Peer)
    → bootstrapper ps ≡ some k
    → find_peer ps id ≡ some p
    → text_lt id k ≡ false
bootstrapper-least ps k id p e found =
    let all =
      first-least (sort_by text_lt (ids_of ps)) k
        (sort_by-IsSortedBy text_lt text_lt-IsStrict (ids_of ps))
        (sym (bootstrapper-first ps) ∙ e) in
    find_peer-All (λ j. text_lt j k ≡ false) ps id p
      (sort_by_all text_lt (λ j. text_lt j k ≡ false) (ids_of ps) all) found

creates_by : (o : Option Text) (id : Text) → is_some_id o id ≡ true → o ≡ some id
creates_by none id h = cc
creates_by (some k) id h = rw ((text_eq_iff k id).0 h) refl

start_raft-creates :
    (o : Options) (r : Raft) (existing : Bool) (t : Timing) (v : List Voter)
    → start_raft o r existing ≡ running t (some v)
    → (existing ≡ false) × (bootstrapper o.peers ≡ some o.node_id)
unfolding start_raft
start_raft-creates o r existing t v h =
    elim (Bool-cases (not existing && is_some_id (bootstrapper o.peers) o.node_id)) [
      | inl creates ↦ (
        ground (arith, creates),
        creates_by (bootstrapper o.peers) o.node_id (ground (arith, creates)),
      )
      | inr joins ↦ absurd (ground (arith, h, joins))
    ]

start_listed-creates :
    (o : Options) (r : Raft) (self : Option Peer) (existing : Option Bool) (t : Timing)
    → (v : List Voter) → start_listed o r self existing ≡ running t (some v)
    → (existing ≡ some false) × (bootstrapper o.peers ≡ some o.node_id)
unfolding start_listed
start_listed-creates o r none existing t v h = cc
start_listed-creates o r (some self) none t v h = absurd (ground arith)
start_listed-creates o r (some self) (some existing) t v h =
    let (fresh, first) = start_raft-creates o r existing t v (ground arith) in
    (ap some fresh, first)

start_peers-creates :
    (o : Options) (r : Raft) (ps : List Peer) (s : Started) (t : Timing) (v : List Voter)
    → elim ps as (λ x. Started) [ [] ↦ refused no_peers | p ∷ rest ↦ s ] ≡ running t (some v)
    → s ≡ running t (some v)
start_peers-creates o r [] s t v h = cc
start_peers-creates o r (p ∷ ps) s t v h = h

-- A node that creates the cluster has no log yet, and is the peer whose id sorts first.
start-creates :
    (o : Options) (r : Raft) (t : Timing) (v : List Voter)
    → start o r ≡ running t (some v)
    → (r.existing ≡ some false) × (bootstrapper o.peers ≡ some o.node_id)
unfolding start
start-creates o r t v h =
    start_listed-creates o r (find_peer o.peers o.node_id) r.existing t v
      (start_peers-creates o r o.peers _ t v (ground arith))

-- Two nodes that are each among the other's peers and both create the cluster when they start are
-- one node, in whatever order and with whatever other peers their lists are given; and each of them
-- had no log before.
pub start_creates_once :
    (o o' : Options) (r r' : Raft) (t t' : Timing) (v v' : List Voter) (p p' : Peer)
    → find_peer o.peers o'.node_id ≡ some p'
    → find_peer o'.peers o.node_id ≡ some p
    → start o r ≡ running t (some v)
    → start o' r' ≡ running t' (some v')
    → (o.node_id ≡ o'.node_id) × (r.existing ≡ some false) × (r'.existing ≡ some false)
start_creates_once o o' r r' t t' v v' p p' mine yours e e' =
    let (fresh, first) = start-creates o r t v e in
    let (fresh', first') = start-creates o' r' t' v' e' in
    let a = bootstrapper-least o.peers o.node_id o'.node_id p' first mine in
    let b = bootstrapper-least o'.peers o'.node_id o.node_id p first' yours in
    (
      elim (text_lt_total o.node_id o'.node_id) [
        | inl same ↦ same
        | inr (inl below) ↦ absurd (ground arith)
        | inr (inr above) ↦ absurd (ground arith)
      ],
      fresh,
      fresh',
    )
