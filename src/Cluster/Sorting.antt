-- ===== src/Cluster/Sorting.antt =====
-- Sorting members by id keeps them, and puts distinct ids in order.
use distributed_rate_limiter.Prelude.{
  false, ◌||◌, ◌≡◌, refl, List, [], ◌∷◌, ◌++◌, Text, arith, text_eq_iff,
}
use mathlib.Core.List.{Perm, perm_middle, append-nil}
use mathlib.Core.List.Perm
use distributed_rate_limiter.Cluster.Members.{
  Node, has_id, insert_member, insert_member-perm, sort_onto, sort_members, IsAscending,
  HasDistinctIds, insert-IsAscending, has_id-insert,
}

-- None of `ms` is among `done`.
abbrev AreNew : List Node → List Node → Type 0
AreNew done [] = Unit {0}
AreNew done (m ∷ ms) = (has_id m.id done ≡ false) × AreNew done ms

AreNew-insert :
    (n : Node) (done ms : List Node)
    → AreNew done ms
    → has_id n.id ms ≡ false
    → AreNew (insert_member n done) ms
unfolding has_id
AreNew-insert n done [] h a = tt
AreNew-insert n done (m ∷ ms) h a = (
  ground (arith, has_id-insert m.id n done, text_eq_iff n.id m.id, text_eq_iff m.id n.id),
  AreNew-insert n done ms h.1 (ground arith),
)

sort_onto-IsAscending :
    (done ms : List Node)
    → IsAscending done
    → HasDistinctIds ms
    → AreNew done ms
    → IsAscending (sort_onto done ms)
unfolding sort_onto
sort_onto-IsAscending done [] h d a = h
sort_onto-IsAscending done (m ∷ ms) h d a =
    sort_onto-IsAscending (insert_member m done) ms (insert-IsAscending m done h a.0) d.1
      (AreNew-insert m done ms a.1 d.0)

AreNew-nil : (ms : List Node) → AreNew [] ms
unfolding has_id
AreNew-nil [] = tt
AreNew-nil (m ∷ ms) = (refl, AreNew-nil ms)

-- Members with distinct ids come out sorted.
pub sort_members-IsAscending : (ms : List Node) → HasDistinctIds ms → IsAscending (sort_members ms)
unfolding sort_members
sort_members-IsAscending ms d = sort_onto-IsAscending [] ms tt d (AreNew-nil ms)

sort_onto-perm : (done ms : List Node) → Perm (sort_onto done ms) (ms ++ done)
unfolding sort_onto
sort_onto-perm done [] = Perm.refl done
sort_onto-perm done (m ∷ ms) =
    Perm.trans (sort_onto-perm (insert_member m done) ms)
      (Perm.trans (Perm.append (Perm.refl ms) (insert_member-perm m done)) (perm_middle ms done))

-- No member is lost or made up.
pub sort_members-perm : (ms : List Node) → Perm (sort_members ms) ms
unfolding sort_members
sort_members-perm ms = rw (append-nil) at (sort_onto-perm [] ms)

sort_onto-has :
    (k : Text) (done ms : List Node) → has_id k (sort_onto done ms) ≡ (has_id k ms || has_id k done)
unfolding sort_onto has_id
sort_onto-has k done [] = refl
sort_onto-has k done (m ∷ ms) =
    ground (arith, sort_onto-has k (insert_member m done) ms, has_id-insert k m done)

pub has_id-sort : (k : Text) (ms : List Node) → has_id k (sort_members ms) ≡ has_id k ms
unfolding sort_members has_id
has_id-sort k ms = ground (arith, sort_onto-has k [] ms)

pub has_id-append :
    (k : Text) (ms ns : List Node) → has_id k (ms ++ ns) ≡ (has_id k ms || has_id k ns)
unfolding has_id
has_id-append k [] ns = refl
has_id-append k (m ∷ ms) ns = ground (arith, has_id-append k ms ns)

pub HasDistinctIds-append_one :
    (ms : List Node) (n : Node)
    → HasDistinctIds ms
    → has_id n.id ms ≡ false
    → HasDistinctIds (ms ++ n ∷ [])
unfolding has_id
HasDistinctIds-append_one [] n d a = (refl, tt)
HasDistinctIds-append_one (m ∷ ms) n d a = (
  ground (arith, has_id-append m.id ms (n ∷ []), text_eq_iff m.id n.id, text_eq_iff n.id m.id),
  HasDistinctIds-append_one ms n d.1 (ground arith),
)
