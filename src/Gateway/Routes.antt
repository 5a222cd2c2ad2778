-- ===== src/Gateway/Routes.antt =====
-- Which route a path takes.
use distributed_rate_limiter.Prelude.{
  ◌<◌, ◌≤◌, ◌≡◌, ◌⊎◌, inl, inr, refl, ap, sym, ◌∙◌, arith, Bool, true, false, ltb, ◌==◌, Option,
  none, some, List, [], ◌∷◌, Text, text_eq_iff, length, Bool-cases, Option-cases, ==_iff,
}
use distributed_rate_limiter.Policy.{has_prefix}
use distributed_rate_limiter.Config.{Route}
use distributed_rate_limiter.Config.Checks.{Url, has_text}
use distributed_rate_limiter.Config.RouteChecks.{validate_route, validate_routes}
use distributed_rate_limiter.Gateway.Proxy.{match, match_from}

-- A route of the list.
unfoldable pub IsRoute : Route → List Route → Type 0
IsRoute q [] = ⊥
IsRoute q (r ∷ rs) = (q ≡ r) ⊎ IsRoute q rs

abbrev pub takes : Text → Route → Bool
takes path r = has_prefix path r.path_prefix

-- What the loop makes of the best route so far: it is kept or a longer one of the list is found, and
-- no route of the list that takes the path is longer than the result.
record IsBest (path : Text) (best : Option Route) (rs : List Route) (r : Route) : Type 0 where
  from : (best ≡ some r) ⊎ (IsRoute r rs × (takes path r ≡ true))
  longest :
      (q : Route) → IsRoute q rs → takes path q ≡ true → length q.path_prefix ≤ length r.path_prefix
  kept : (b : Route) → best ≡ some b → length b.path_prefix ≤ length r.path_prefix

skip_IsBest :
    (path : Text) (best : Option Route) (q : Route) (rs : List Route) (r : Route)
    → (takes path q ≡ true → length q.path_prefix ≤ length r.path_prefix)
    → IsBest path best rs r
    → IsBest path best (q ∷ rs) r
unfolding IsRoute
skip_IsBest path best q rs r short k = record {
  from = elim k.from [ inl e ↦ inl e | inr (i, t) ↦ inr (inr i, t) ];
  longest = λ p i t. elim i [ inl e ↦ rw e (short (rw (← e) t)) | inr j ↦ k.longest p j t ];
  kept = k.kept;
}

take_IsBest :
    (path : Text) (best : Option Route) (q : Route) (rs : List Route) (r : Route)
    → takes path q ≡ true
    → ((b : Route) → best ≡ some b → length b.path_prefix ≤ length q.path_prefix)
    → IsBest path (some q) rs r
    → IsBest path best (q ∷ rs) r
unfolding IsRoute
take_IsBest path best q rs r t longer k = record {
  from = elim k.from [
    | inl e ↦ let same : q ≡ r = cc in inr (inl (sym same), rw (← same) t)
    | inr (i, t') ↦ inr (inr i, t')
  ];
  longest = λ p i t'. elim i [ inl e ↦ rw e (k.kept q refl) | inr j ↦ k.longest p j t' ];
  kept = λ b e. let a = longer b e in let c = k.kept q refl in omega arith;
}

match_from-IsBest :
    (path : Text) (best : Option Route) (rs : List Route) (r : Route)
    → match_from best path rs ≡ some r
    → IsBest path best rs r
unfolding match_from IsRoute
match_from-IsBest path best [] r h = record {
  from = inl h;
  longest = λ q i t. elim i [ ];
  kept = λ b e. let same : b ≡ r = cc in rw same (omega arith);
}
match_from-IsBest path best (q ∷ rs) r h = elim (Bool-cases (takes path q)) [
  | inr miss ↦ skip_IsBest path best q rs r (λ t. cc) (match_from-IsBest path best rs r (cc))
  | inl hit ↦ elim (Option-cases best) [
    | inl nil ↦
        take_IsBest path best q rs r hit (λ b e. cc) (match_from-IsBest path (some q) rs r (cc))
    | inr (b, is_b) ↦ elim (Bool-cases (ltb (length b.path_prefix) (length q.path_prefix))) [
      | inl lt ↦
          take_IsBest path best q rs r hit (λ c e. let same : c ≡ b = cc in rw same (ground arith))
            (match_from-IsBest path (some q) rs r (cc))
      | inr ge ↦
          let k = match_from-IsBest path best rs r (cc) in
          let far = k.kept b is_b in skip_IsBest path best q rs r (λ t. ground arith) k
    ]
  ]
]

match_from-none :
    (path : Text) (best : Option Route) (rs : List Route) (q : Route)
    → match_from best path rs ≡ none
    → (best ≡ none) × (IsRoute q rs → takes path q ≡ false)
unfolding match_from IsRoute
match_from-none path best [] q h = (h, λ i. elim i [ ])
match_from-none path best (p ∷ rs) q h = elim (Bool-cases (takes path p)) [
  | inr miss ↦
      let (nil, out) = match_from-none path best rs q (cc) in
      (nil, λ i. elim i [ inl e ↦ rw e miss | inr j ↦ out j ])
  | inl hit ↦ elim (Option-cases best) [
    | inl nil ↦ cc ((match_from-none path (some p) rs q (cc)).0)
    | inr (b, is_b) ↦ elim (Bool-cases (ltb (length b.path_prefix) (length p.path_prefix))) [
      | inl lt ↦ cc ((match_from-none path (some p) rs q (cc)).0)
      | inr ge ↦ cc ((match_from-none path best rs q (cc)).0)
    ]
  ]
]

same_prefix :
    (path p q : Text)
    → has_prefix path p ≡ true
    → has_prefix path q ≡ true
    → length p ≡ length q
    → p ≡ q
unfolding has_prefix
same_prefix path [] [] h k e = refl
same_prefix path [] (c ∷ q) h k e = let no : ⊥ = omega arith in elim no [ ]
same_prefix path (b ∷ p) [] h k e = let no : ⊥ = omega arith in elim no [ ]
same_prefix [] (b ∷ p) (c ∷ q) h k e = cc
same_prefix (a ∷ path) (b ∷ p) (c ∷ q) h k e =
    let rest : p ≡ q = same_prefix path p q (ground arith) (ground arith) (omega arith) in
    let first : b ≡ c = ground (arith, ==_iff a b, ==_iff a c) in rw (rest, first) refl

module _ (parse_url : Text → Option Url) where
  route_passes :
      (names prefixes : List Text) (r : Route)
      → validate_route parse_url names prefixes r ≡ none
      → has_text r.path_prefix prefixes ≡ false
  unfolding validate_route
  route_passes names prefixes r h = elim (Bool-cases (has_text r.path_prefix prefixes)) [
    | inr e ↦ e
    | inl e ↦ ground arith
  ]

  routes_pass :
      (names prefixes : List Text) (r : Route) (rs : List Route)
      → validate_routes parse_url names prefixes (r ∷ rs) ≡ none
      → (has_text r.path_prefix prefixes ≡ false)
        × (validate_routes parse_url (r.name ∷ names) (r.path_prefix ∷ prefixes) rs ≡ none)
  unfolding validate_routes
  routes_pass names prefixes r rs h =
      elim (Option-cases (validate_route parse_url names prefixes r)) [
        | inr (e, x) ↦ cc
        | inl x ↦ (route_passes names prefixes r x, cc)
      ]

  fresh :
      (names prefixes : List Text) (rs : List Route) (q : Route)
      → validate_routes parse_url names prefixes rs ≡ none
      → IsRoute q rs
      → has_text q.path_prefix prefixes ≡ false
  unfolding IsRoute has_text
  fresh names prefixes [] q h i = elim i [ ]
  fresh names prefixes (r ∷ rs) q h (inl e) = rw e (routes_pass names prefixes r rs h).0
  fresh names prefixes (r ∷ rs) q h (inr i) = ground (
    arith,
    fresh (r.name ∷ names) (r.path_prefix ∷ prefixes) rs q (routes_pass names prefixes r rs h).1 i,
  )

  one_route :
      (names prefixes : List Text) (rs : List Route) (q r : Route)
      → validate_routes parse_url names prefixes rs ≡ none
      → IsRoute q rs
      → IsRoute r rs
      → q.path_prefix ≡ r.path_prefix
      → q ≡ r
  unfolding IsRoute has_text
  one_route names prefixes [] q r h i j e = elim i [ ]
  one_route names prefixes (p ∷ rs) q r h (inl i) (inl j) e = i ∙ sym j
  one_route names prefixes (p ∷ rs) q r h (inr i) (inr j) e =
      one_route (p.name ∷ names) (p.path_prefix ∷ prefixes) rs q r
        (routes_pass names prefixes p rs h).1 i j e
  one_route names prefixes (p ∷ rs) q r h (inl i) (inr j) e =
      let out =
        fresh (p.name ∷ names) (p.path_prefix ∷ prefixes) rs r (routes_pass names prefixes p rs h).1
          j in
      let same : p.path_prefix ≡ r.path_prefix = sym (ap (λ (x : Route). x.path_prefix) i) ∙ e in
      ground (arith, out, (text_eq_iff p.path_prefix r.path_prefix).1)
  one_route names prefixes (p ∷ rs) q r h (inr i) (inl j) e =
      let out =
        fresh (p.name ∷ names) (p.path_prefix ∷ prefixes) rs q (routes_pass names prefixes p rs h).1
          i in
      let same : p.path_prefix ≡ q.path_prefix = sym (e ∙ ap (λ (x : Route). x.path_prefix) j) in
      ground (arith, out, (text_eq_iff p.path_prefix q.path_prefix).1)

  -- With routes that are accepted, a path that begins with the prefix of any route is routed: to a
  -- route whose prefix it begins with, and every other such route has a shorter prefix. So the order of
  -- the routes decides nothing.
  pub match_longest :
      (path : Text) (rs : List Route) (q : Route)
      → validate_routes parse_url [] [] rs ≡ none
      → IsRoute q rs
      → takes path q ≡ true
      → (r : Route) × (match path rs ≡ some r)
        × ((IsRoute r rs × (takes path r ≡ true))
            × ((q ≡ r) ⊎ (length q.path_prefix < length r.path_prefix)))
  unfolding match
  match_longest path rs q h i t = elim (Option-cases (match path rs)) [
    | inl e ↦ cc ((match_from-none path none rs q e).1 i)
    | inr (r, e) ↦
        let best = match_from-IsBest path none rs r e in
        let le = best.longest q i t in
        let from : IsRoute r rs × (takes path r ≡ true) = elim best.from [
          | inl x ↦ cc
          | inr x ↦ x
        ] in
        (
          r,
          e,
          (
            from,
            elim (Bool-cases (length q.path_prefix == length r.path_prefix)) [
              | inl x ↦
                  let lengths : length q.path_prefix ≡ length r.path_prefix = ground arith in
                  inl (
                    one_route [] [] rs q r h i from.0
                      (same_prefix path q.path_prefix r.path_prefix t from.1 lengths))
              | inr x ↦ inr (ground arith)
            ],
          ),
        )
  ]
