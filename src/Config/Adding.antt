-- ===== src/Config/Adding.antt =====
-- The loop of `cluster.New` over members that the configuration's checks have accepted.
use distributed_rate_limiter.Prelude.{
  ◌≡◌, refl, ◌∙◌, arith, Bool, true, false, ◌||◌, Option, none, List, [], ◌∷◌, ◌++◌, Text, text_eq,
}
use distributed_rate_limiter.Prelude.Int.{pos}
use mathlib.Core.List.{Perm, perm_middle, append-nil}
use mathlib.Core.List.Perm
use distributed_rate_limiter.Cluster.Members.{Node, has_id}
use distributed_rate_limiter.Cluster.Sorting.{sort_members-perm, has_id-sort, has_id-append}
use distributed_rate_limiter.Cluster.Addresses.{has_addr, has_addr-sort, has_addr-append}
use distributed_rate_limiter.Cluster.State.{
  State, ApplyError, apply, apply_add, place_member, is_taken, addr_of, add_shard,
}
use distributed_rate_limiter.Cluster.State.Invariant.{IsValid, apply-IsValid}
use distributed_rate_limiter.Cluster.View.{add_all, entry}
use distributed_rate_limiter.Config.{Member}
use distributed_rate_limiter.Config.Checks.{has_text}
use distributed_rate_limiter.Config.ClusterChecks.{validate_members, lists_self}

-- The members that the configuration lists, as the ring knows them.
abbrev pub node_of : Member → Node
node_of m = record { id = m.id; addr = m.addr }

unfoldable pub members_of : List Member → List Node
members_of [] = []
members_of (m ∷ ms) = node_of m ∷ members_of ms

-- The ids and the addresses of a state are among those that the loop has seen.
pub record IsSeen (ids addrs : List Text) (s : State) : Type 0 where
  pub known : (k : Text) → has_id k s.members ≡ true → has_text k ids ≡ true
  pub held : (a : Text) → has_addr a s.members ≡ true → has_text a addrs ≡ true

not_taken : (n : Node) (ms : List Node) → has_addr n.addr ms ≡ false → is_taken n ms ≡ false
unfolding has_addr is_taken
not_taken n [] h = refl
not_taken n (m ∷ ms) h = ground (arith, not_taken n ms)

not_known : (k : Text) (ms : List Node) → has_id k ms ≡ false → addr_of k ms ≡ none
unfolding has_id addr_of
not_known k [] h = refl
not_known k (m ∷ ms) h = ground (arith, not_known k ms)

pub unseen : (b c : Bool) → (b ≡ true → c ≡ true) → c ≡ false → b ≡ false
unseen true c f h = cc (f refl)
unseen false c f h = refl

-- A member with an id and an address that nobody has is added at the end.
abbrev after_adding : State → Node → State
after_adding s n = (place_member s n none).0

add_fresh :
    (s : State) (n : Node)
    → text_eq n.id [] ≡ false
    → text_eq n.addr [] ≡ false
    → has_id n.id s.members ≡ false
    → has_addr n.addr s.members ≡ false
    → ((apply s (entry add_shard n (pos 0))).0 ≡ after_adding s n)
      × ((apply s (entry add_shard n (pos 0))).2 ≡ none)
unfolding apply apply_add place_member
add_fresh s n i a k h =
    let free = not_taken n s.members h in
    let gone = not_known n.id s.members k in
    (rw (i, a, free, gone) refl, rw (i, a, free, gone) refl)

has_id-after :
    (k : Text) (s : State) (n : Node)
    → has_id k (after_adding s n).members ≡ (has_id k s.members || text_eq n.id k)
unfolding place_member has_id
has_id-after k s n =
    ground (arith, has_id-sort k (s.members ++ n ∷ []), has_id-append k s.members (n ∷ []))

has_addr-after :
    (a : Text) (s : State) (n : Node)
    → has_addr a (after_adding s n).members ≡ (has_addr a s.members || text_eq n.addr a)
unfolding place_member has_addr
has_addr-after a s n =
    ground (arith, has_addr-sort a (s.members ++ n ∷ []), has_addr-append a s.members (n ∷ []))

after-IsSeen :
    (ids addrs : List Text) (s : State) (n : Node)
    → IsSeen ids addrs s
    → IsSeen (n.id ∷ ids) (n.addr ∷ addrs) (after_adding s n)
unfolding has_text
after-IsSeen ids addrs s n v = record {
  known = λ k h. ground (arith, has_id-after k s n, v.known k);
  held = λ a h. ground (arith, has_addr-after a s n, v.held a);
}

-- What is left of a state when all the members have been added to it.
pub record IsJoined (s : State) (ms : List Member) (out : State × Option ApplyError) : Type 0 where
  pub fine : out.1 ≡ none
  pub vnodes : out.0.vnodes ≡ s.vnodes
  pub has : (k : Text) → has_id k out.0.members ≡ (has_id k s.members || lists_self k ms)
  pub valid : IsValid s → IsValid out.0
  pub listed : Perm out.0.members (members_of ms ++ s.members)

fresh_first :
    (ids addrs : List Text) (m : Member) (ms : List Member)
    → validate_members ids addrs (m ∷ ms) ≡ none
    → ((text_eq m.id [] ≡ false) × (text_eq m.addr [] ≡ false))
      × ((has_text m.id ids ≡ false) × (has_text m.addr addrs ≡ false))
      × (validate_members (m.id ∷ ids) (m.addr ∷ addrs) ms ≡ none)
unfolding validate_members
fresh_first ids addrs m ms h =
    ((ground arith, ground arith), (ground arith, ground arith), ground arith)

add_all-fresh :
    (s : State) (n : Node) (ns : List Node) (t : State)
    → (apply s (entry add_shard n (pos 0))).0 ≡ t
    → (apply s (entry add_shard n (pos 0))).2 ≡ none
    → add_all s (n ∷ ns) ≡ add_all t ns
unfolding add_all
add_all-fresh s n ns t e f = rw (add_all, f, e) refl

kept_vnodes : (s : State) (n : Node) → (after_adding s n).vnodes ≡ s.vnodes
unfolding place_member
kept_vnodes s n = refl

-- The new member stands in front of the others, up to the order.
in_front :
    (n : Node) (ns : List Node) (s : State)
    → Perm (ns ++ (after_adding s n).members) (n ∷ ns ++ s.members)
unfolding place_member
in_front n ns s =
    let at_end : Perm (s.members ++ n ∷ []) (n ∷ s.members) =
      rw (append-nil) at (perm_middle {a = n} s.members []) in
    Perm.trans
      (Perm.append (Perm.refl ns) (Perm.trans (sort_members-perm (s.members ++ n ∷ [])) at_end))
      (perm_middle ns s.members)

pub joined :
    (ids addrs : List Text) (ms : List Member) (s : State)
    → validate_members ids addrs ms ≡ none
    → IsSeen ids addrs s
    → IsJoined s ms (add_all s (members_of ms))
unfolding validate_members members_of add_all lists_self
joined ids addrs [] s h v = record {
  fine = refl;
  vnodes = refl;
  has = λ k. ground arith;
  valid = λ w. w;
  listed = Perm.refl s.members;
}
joined ids addrs (m ∷ ms) s h v =
    let ((i, a), (k, o), rest) = fresh_first ids addrs m ms h in
    let n = node_of m in
    let (lands, fine) =
      add_fresh s n i a (unseen (has_id m.id s.members) (has_text m.id ids) (v.known m.id) k)
        (unseen (has_addr m.addr s.members) (has_text m.addr addrs) (v.held m.addr) o) in
    let after =
      joined (m.id ∷ ids) (m.addr ∷ addrs) ms (after_adding s n) rest
        (after-IsSeen ids addrs s n v) in
    rw (add_all-fresh s n (members_of ms) (after_adding s n) lands fine) (record {
      fine = after.fine;
      vnodes = after.vnodes ∙ kept_vnodes s n;
      has = λ j. ground (arith, after.has j, has_id-after j s n);
      valid = λ w. after.valid (rw (← lands) (apply-IsValid s (entry add_shard n (pos 0)) w));
      listed = Perm.trans after.listed (in_front n (members_of ms) s);
    })
