-- ===== src/Ring/Points.antt =====
-- The points of a ring: what each stands for, and the order they are sorted in.
use distributed_rate_limiter.Prelude.{
  ℕ, suc, ◌<◌, ◌≡◌, ◌≢◌, ◌⊎◌, inl, inr, refl, ap, arith, Bool, true, false, some, List, [], ◌∷◌,
  Text, text_lt, text_lt_irrefl, text_lt_trans, text_lt_total, ltb, ◌==◌, length, get_elem?, All,
  All-map, if◌then◌else◌, Bool-cases,
}
use distributed_rate_limiter.Prelude.Sorts.{IsStrict, IsSortedBy}
use distributed_rate_limiter.Cluster.Members.{Node}
use distributed_rate_limiter.Ring.{Point, before, id_at, first_from}

-- A place on the ring: a hash, and the id that breaks a tie.
abbrev pub Spot : Type 0
Spot = ℕ × Text

pub spot_before : Spot → Spot → Bool
spot_before (h, a) (k, b) = if h == k then text_lt a b else ltb h k

spot_before-asym : (s t : Spot) → spot_before s t ≡ true → spot_before t s ≡ false
unfolding spot_before
spot_before-asym (h, a) (k, b) e = ground (arith, text_lt_trans a b a, text_lt_irrefl a)

-- Neither of two spots before the other: the same spot.
pub spot_before-total :
    (s t : Spot) → spot_before s t ≡ false → spot_before t s ≡ false → (s.0 ≡ t.0) × (s.1 ≡ t.1)
unfolding spot_before
spot_before-total (h, a) (k, b) p q = ground (arith, text_lt_total a b)

text_le_trans : (a b c : Text) → text_lt b a ≡ false → text_lt c b ≡ false → text_lt c a ≡ false
text_le_trans a b c p q = elim (text_lt_total a b) [
  | inl same ↦ rw same q
  | inr (inl lt) ↦ elim (Bool-cases (text_lt c a)) [
    | inl less ↦ cc (text_lt_trans c a b less lt)
    | inr no_ ↦ no_
  ]
  | inr (inr gt) ↦ cc
]

spot_before_trans :
    (s t u : Spot) → spot_before t s ≡ false → spot_before u t ≡ false → spot_before u s ≡ false
unfolding spot_before
spot_before_trans (h, a) (k, b) (l, c) p q = ground (arith, text_le_trans a b c)

-- The spot of a point.
abbrev pub spot : List Node → Point → Spot
spot ns p = (p.hash, id_at ns p.node)

pub before-IsStrict : (ns : List Node) → IsStrict (before ns)
unfolding spot_before before
before-IsStrict ns = record {
  asym = λ p q h. spot_before-asym (spot ns p) (spot ns q) h;
  trans = λ p q r h k. spot_before_trans (spot ns p) (spot ns q) (spot ns r) h k;
}

-- One spot is met no later than another, going up from a hash and around the end.
abbrev pub IsNearer : ℕ → Spot → Spot → Type 0
IsNearer h s t =
    ((ltb s.0 h ≡ false) × (ltb t.0 h ≡ true))
    ⊎ ((ltb s.0 h ≡ ltb t.0 h) × (spot_before t s ≡ false))

pub IsNearer-both : (h : ℕ) (s t : Spot) → IsNearer h s t → IsNearer h t s → s.1 ≡ t.1
IsNearer-both h s t (inl a) (inl b) = cc
IsNearer-both h s t (inl a) (inr b) = cc
IsNearer-both h s t (inr a) (inl b) = cc
IsNearer-both h s t (inr a) (inr b) = (spot_before-total s t b.1 a.1).1

spot_irrefl : (s : Spot) → spot_before s s ≡ false
unfolding spot_before
spot_irrefl s = ground (arith, text_lt_irrefl s.1)

-- On sorted points, the first at or after the hash is the nearest; if there is none, all are before.
pub first_from-cases :
    (ns : List Node) (h : ℕ) (ps : List Point)
    → IsSortedBy (before ns) ps
    → ((p : Point) × (get_elem? ps (first_from h ps) ≡ some p)
        × (first_from h ps < length ps)
        × (ltb p.hash h ≡ false)
        × All (λ q. IsNearer h (spot ns p) (spot ns q)) ps)
      ⊎ ((first_from h ps ≡ length ps) × All (λ q. ltb q.hash h ≡ true) ps)
unfolding first_from before spot_before
first_from-cases ns h [] o = inr (refl, tt)
first_from-cases ns h (p ∷ ps) o = elim (Bool-cases (ltb p.hash h)) [
  | inr late ↦ inl (
    p,
    rw late refl,
    rw late (omega arith),
    late,
    (
      inr (refl, spot_irrefl (spot ns p)),
      All-map (λ q. before ns q p ≡ false) (λ q. IsNearer h (spot ns p) (spot ns q)) ps
          (λ q later. nearer_late p q late later) o.0,
    ),
  )
  | inl early ↦ elim (first_from-cases ns h ps o.1) [
    | inr (e, all_) ↦ inr (rw early (ap suc e), (early, all_))
    | inl (q, at, lt, late, all_) ↦
        inl (q, rw early at, rw early (omega arith), late, (inl (late, early), all_))
  ]
]
  where
    nearer_late :
        (p q : Point)
        → ltb p.hash h ≡ false
        → before ns q p ≡ false
        → IsNearer h (spot ns p) (spot ns q)
    nearer_late p q late later = elim (Bool-cases (ltb q.hash h)) [
      | inl low ↦ inl (late, low)
      | inr high ↦ inr (rw (late, high) refl, later)
    ]

-- The place that `search` takes in a list of points.
abbrev pub place : ℕ → List Point → ℕ
place h ps = if first_from h ps == length ps then 0 else first_from h ps

all_early :
    (ns : List Node) (h : ℕ) (p : Point) (qs : List Point)
    → ltb p.hash h ≡ true
    → All (λ q. before ns q p ≡ false) qs
    → All (λ q. ltb q.hash h ≡ true) qs
    → All (λ q. IsNearer h (spot ns p) (spot ns q)) qs
unfolding before spot_before
all_early ns h p [] early o a = tt
all_early ns h p (q ∷ qs) early o a =
    (inr (rw (early, a.0) refl, o.0), all_early ns h p qs early o.1 a.1)

-- On sorted points that are not empty, the place is that of a nearest one.
pub place_nearest :
    (ns : List Node) (h : ℕ) (ps : List Point)
    → IsSortedBy (before ns) ps
    → ps ≢ []
    → (p : Point) × (get_elem? ps (place h ps) ≡ some p)
      × All (λ q. IsNearer h (spot ns p) (spot ns q)) ps
place_nearest ns h [] o some_ = absurd (some_ refl)
place_nearest ns h (p ∷ ps) o some_ = elim (first_from-cases ns h (p ∷ ps) o) [
  | inl (q, at, lt, late, all_) ↦
      let inside : (first_from h (p ∷ ps) == length (p ∷ ps)) ≡ false = ground arith in
      (q, rw inside at, all_)
  | inr (e, all_) ↦
      let past : (first_from h (p ∷ ps) == length (p ∷ ps)) ≡ true = ground arith in
      (
        p,
        rw past refl,
        (inr (refl, spot_irrefl (spot ns p)), all_early ns h p ps all_.0 o.0 all_.1),
      )
]
