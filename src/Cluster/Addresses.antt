-- ===== src/Cluster/Addresses.antt =====
-- Addresses of members: no two members answer on one.
use distributed_rate_limiter.Prelude.{
  Bool, true, false, ◌||◌, ◌≡◌, refl, List, [], ◌∷◌, ◌++◌, Text, text_eq, arith, text_eq_iff,
}
use distributed_rate_limiter.Cluster.Members.{
  HasDistinctIds, Node, has_id, insert_member, sort_onto, sort_members,
}
use distributed_rate_limiter.Cluster.State.{is_taken, move_member, drop_member}

unfoldable pub has_addr : Text → List Node → Bool
has_addr a [] = false
has_addr a (m ∷ ms) = text_eq m.addr a || has_addr a ms

-- No address twice, and none empty.
abbrev pub HasDistinctAddrs : List Node → Type 0
HasDistinctAddrs [] = Unit {0}
HasDistinctAddrs (m ∷ ms) =
    (has_addr m.addr ms ≡ false) × (text_eq m.addr [] ≡ false) × HasDistinctAddrs ms

has_addr-insert :
    (a : Text) (n : Node) (ms : List Node)
    → has_addr a (insert_member n ms) ≡ (text_eq n.addr a || has_addr a ms)
unfolding has_addr insert_member
has_addr-insert a n [] = refl
has_addr-insert a n (m ∷ ms) = ground (arith, has_addr-insert a n ms)

insert-HasDistinctAddrs :
    (n : Node) (ms : List Node)
    → HasDistinctAddrs ms
    → has_addr n.addr ms ≡ false
    → text_eq n.addr [] ≡ false
    → HasDistinctAddrs (insert_member n ms)
unfolding insert_member has_addr
insert-HasDistinctAddrs n [] h a e = (refl, e, tt)
insert-HasDistinctAddrs n (m ∷ ms) h a e = ground (
  arith,
  has_addr-insert m.addr n ms,
  text_eq_iff n.addr m.addr,
  text_eq_iff m.addr n.addr,
  insert-HasDistinctAddrs n ms h.2,
)

abbrev AreNew : List Node → List Node → Type 0
AreNew done [] = Unit {0}
AreNew done (m ∷ ms) = (has_addr m.addr done ≡ false) × AreNew done ms

AreNew-insert :
    (n : Node) (done ms : List Node)
    → AreNew done ms
    → has_addr n.addr ms ≡ false
    → AreNew (insert_member n done) ms
unfolding has_addr
AreNew-insert n done [] h a = tt
AreNew-insert n done (m ∷ ms) h a = (
  ground
      (arith, has_addr-insert m.addr n done, text_eq_iff n.addr m.addr, text_eq_iff m.addr n.addr),
  AreNew-insert n done ms h.1 (ground arith),
)

sort_onto-HasDistinctAddrs :
    (done ms : List Node)
    → HasDistinctAddrs done
    → HasDistinctAddrs ms
    → AreNew done ms
    → HasDistinctAddrs (sort_onto done ms)
unfolding sort_onto
sort_onto-HasDistinctAddrs done [] h d a = h
sort_onto-HasDistinctAddrs done (m ∷ ms) h d a =
    sort_onto-HasDistinctAddrs (insert_member m done) ms (insert-HasDistinctAddrs m done h a.0 d.1)
      d.2 (AreNew-insert m done ms a.1 d.0)

AreNew-nil : (ms : List Node) → AreNew [] ms
unfolding has_addr
AreNew-nil [] = tt
AreNew-nil (m ∷ ms) = (refl, AreNew-nil ms)

pub sort-HasDistinctAddrs :
    (ms : List Node) → HasDistinctAddrs ms → HasDistinctAddrs (sort_members ms)
unfolding sort_members
sort-HasDistinctAddrs ms d = sort_onto-HasDistinctAddrs [] ms tt d (AreNew-nil ms)

has_addr-sort_onto :
    (a : Text) (done ms : List Node)
    → has_addr a (sort_onto done ms) ≡ (has_addr a ms || has_addr a done)
unfolding sort_onto has_addr
has_addr-sort_onto a done [] = refl
has_addr-sort_onto a done (m ∷ ms) =
    ground (arith, has_addr-sort_onto a (insert_member m done) ms, has_addr-insert a m done)

pub has_addr-sort : (a : Text) (ms : List Node) → has_addr a (sort_members ms) ≡ has_addr a ms
unfolding sort_members has_addr
has_addr-sort a ms = ground (arith, has_addr-sort_onto a [] ms)

pub has_addr-append :
    (a : Text) (ms ns : List Node) → has_addr a (ms ++ ns) ≡ (has_addr a ms || has_addr a ns)
unfolding has_addr
has_addr-append a [] ns = refl
has_addr-append a (m ∷ ms) ns = ground (arith, has_addr-append a ms ns)

-- An address that nobody else holds may be added under a new id.
pub append-HasDistinctAddrs :
    (ms : List Node) (n : Node)
    → HasDistinctAddrs ms
    → is_taken n ms ≡ false
    → has_id n.id ms ≡ false
    → text_eq n.addr [] ≡ false
    → HasDistinctAddrs (ms ++ n ∷ [])
unfolding has_addr is_taken has_id
append-HasDistinctAddrs [] n d t i e = (refl, e, tt)
append-HasDistinctAddrs (m ∷ ms) n d t i e = (
  ground (
    arith,
    has_addr-append m.addr ms (n ∷ []),
    text_eq_iff n.addr m.addr,
    text_eq_iff m.addr n.addr,
  ),
  d.1,
  append-HasDistinctAddrs ms n d.2 (ground arith) (ground arith) e,
)

has_addr-move :
    (a : Text) (n : Node) (ms : List Node)
    → has_addr a (move_member n ms) ≡ true
    → (text_eq n.addr a || has_addr a ms) ≡ true
unfolding has_addr move_member
has_addr-move a n [] h = cc
has_addr-move a n (m ∷ ms) h = ground (arith, has_addr-move a n ms)

-- Nobody with another id holds it: then only the member itself may.
not_taken :
    (n : Node) (ms : List Node)
    → is_taken n ms ≡ false
    → has_id n.id ms ≡ false
    → has_addr n.addr ms ≡ false
unfolding has_addr is_taken has_id
not_taken n [] t i = refl
not_taken n (m ∷ ms) t i = ground (arith, not_taken n ms)

pub move-HasDistinctAddrs :
    (n : Node) (ms : List Node)
    → HasDistinctAddrs ms
    → is_taken n ms ≡ false
    → text_eq n.addr [] ≡ false
    → HasDistinctIds ms
    → HasDistinctAddrs (move_member n ms)
unfolding move_member has_addr is_taken
move-HasDistinctAddrs n [] d t e u = tt
move-HasDistinctAddrs n (m ∷ ms) d t e u = ground (
  arith,
  text_eq_iff m.id n.id,
  text_eq_iff n.addr m.addr,
  text_eq_iff m.addr n.addr,
  not_taken n ms,
  has_addr-move m.addr n ms,
  move-HasDistinctAddrs n ms d.2,
)

has_addr-drop :
    (a k : Text) (ms : List Node) → has_addr a ms ≡ false → has_addr a (drop_member k ms) ≡ false
unfolding has_addr drop_member
has_addr-drop a k [] h = refl
has_addr-drop a k (m ∷ ms) h = ground (arith, has_addr-drop a k ms)

pub drop-HasDistinctAddrs :
    (k : Text) (ms : List Node) → HasDistinctAddrs ms → HasDistinctAddrs (drop_member k ms)
unfolding drop_member
drop-HasDistinctAddrs k [] d = tt
drop-HasDistinctAddrs k (m ∷ ms) d =
    ground (arith, has_addr-drop m.addr k ms d.0, drop-HasDistinctAddrs k ms d.2)
