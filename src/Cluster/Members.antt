-- ===== src/Cluster/Members.antt =====
-- internal/ring/ring.go and internal/cluster/state.go: members, and a list of them sorted by id.
use distributed_rate_limiter.Prelude.{
  Bool, true, false, ◌||◌, ◌≡◌, refl, List, [], ◌∷◌, Text, text_eq, text_lt, if◌then◌else◌, arith,
  text_eq_iff, text_lt_trans, text_lt_total, text_lt_irrefl, Bool-cases, inl, inr,
}
use mathlib.Core.List.{Perm}
use mathlib.Core.List.Perm

pub record Node : Type 0 where
  pub id : Text
  pub addr : Text

-- `State.Has`, and the `seen` map of a loop over members.
unfoldable pub has_id : Text → List Node → Bool
has_id k [] = false
has_id k (m ∷ ms) = text_eq m.id k || has_id k ms

unfoldable pub insert_member : Node → List Node → List Node
insert_member n [] = n ∷ []
insert_member n (m ∷ ms) = if text_lt n.id m.id then n ∷ m ∷ ms else m ∷ insert_member n ms

pub insert_member-perm : (n : Node) (ms : List Node) → Perm (insert_member n ms) (n ∷ ms)
unfolding insert_member
insert_member-perm n [] = Perm.refl (n ∷ [])
insert_member-perm n (m ∷ ms) = elim (Bool-cases (text_lt n.id m.id)) [
  | inl lt ↦ rw lt (Perm.refl (n ∷ m ∷ ms))
  | inr ge ↦ rw ge (Perm.trans (Perm.cons m (insert_member-perm n ms)) (Perm.swap n m ms))
]

-- Sorting by id, one member after the other.
unfoldable pub sort_onto : List Node → List Node → List Node
unfolding insert_member
sort_onto done [] = done
sort_onto done (m ∷ ms) = sort_onto (insert_member m done) ms

-- `sortMembers`.
unfoldable pub sort_members : List Node → List Node
unfolding sort_onto
sort_members ms = sort_onto [] ms

-- Sorted by id, with no id twice.
abbrev pub IsAscending : List Node → Type 0
IsAscending [] = Unit {0}
IsAscending (m ∷ []) = Unit {0}
IsAscending (m ∷ n ∷ ms) = (text_lt m.id n.id ≡ true) × IsAscending (n ∷ ms)

-- No id twice, in any order.
abbrev pub HasDistinctIds : List Node → Type 0
HasDistinctIds [] = Unit {0}
HasDistinctIds (m ∷ ms) = (has_id m.id ms ≡ false) × HasDistinctIds ms

pub IsAscending-tail : (m : Node) (ms : List Node) → IsAscending (m ∷ ms) → IsAscending ms
IsAscending-tail m [] h = tt
IsAscending-tail m (n ∷ ms) h = h.1

-- An id below the first is not in a sorted list.
pub has_id-below :
    (k : Text) (m : Node) (ms : List Node)
    → IsAscending (m ∷ ms)
    → text_lt k m.id ≡ true
    → has_id k (m ∷ ms) ≡ false
unfolding has_id
has_id-below k m [] h lt = ground (arith, text_eq_iff m.id k, text_lt_irrefl k)
has_id-below k m (n ∷ ms) h lt = ground (
  arith,
  text_eq_iff m.id k,
  text_lt_irrefl k,
  has_id-below k n ms h.1 (text_lt_trans k m.id n.id lt h.0),
)

pub IsAscending-distinct : (ms : List Node) → IsAscending ms → HasDistinctIds ms
unfolding has_id
IsAscending-distinct [] h = tt
IsAscending-distinct (m ∷ []) h = (refl, tt)
IsAscending-distinct (m ∷ n ∷ ms) h =
    (has_id-below m.id n ms h.1 h.0, IsAscending-distinct (n ∷ ms) h.1)

pub has_id-insert :
    (k : Text) (n : Node) (ms : List Node)
    → has_id k (insert_member n ms) ≡ (text_eq n.id k || has_id k ms)
unfolding has_id insert_member
has_id-insert k n [] = refl
has_id-insert k n (m ∷ ms) = ground (arith, has_id-insert k n ms)

-- A new id goes to its place.
pub insert-IsAscending :
    (n : Node) (ms : List Node)
    → IsAscending ms
    → has_id n.id ms ≡ false
    → IsAscending (insert_member n ms)
unfolding insert_member has_id
insert-IsAscending n [] h a = tt
insert-IsAscending n (m ∷ []) h a = ground (arith, text_eq_iff m.id n.id, text_lt_total n.id m.id)
insert-IsAscending n (m ∷ o ∷ ms) h a =
    ground
      (arith, text_eq_iff m.id n.id, text_lt_total n.id m.id, insert-IsAscending n (o ∷ ms) h.1)
