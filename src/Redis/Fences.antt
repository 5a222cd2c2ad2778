-- ===== src/Redis/Fences.antt =====
-- What the two fences of internal/limiter/redis/check.lua keep: a generation once recorded for a
-- tenant only grows, whatever calls come in between.
use distributed_rate_limiter.Prelude.{
  ℕ, zero, suc, ◌+◌, ◌≡◌, refl, inl, inr, Bool, ◌&&◌, true, false, Bool-cases, Option-cases, Option,
  none, some, List, [], ◌∷◌, All, Text, text_eq, text_eq_refl, arith, if◌then◌else◌, ◌∙◌,
}
use distributed_rate_limiter.Prelude.Int.{ℤ, pos, pos_part, ltb_ℤ, ◌≤ℤ◌, ◌<ℤ◌}
use mathlib.Core.Path.{subst}
use distributed_rate_limiter.Redis.Commands.{Server, HasHashes}
use distributed_rate_limiter.Redis.Calls.{IsApart}
use distributed_rate_limiter.Redis.Script.{
  Prefix, Entry, Judged, judge, judge_all, judge_bucket, judge_window, add_members, commit_one,
  commit_all, consumes, decide, noted, note_store, note_policy, newer_policy, store_field,
  policy_field, is_ahead, is_absent, clock_of,
}

-- A recorded generation of at least `g`.
abbrev pub AtLeast : ℤ → Option ℤ → Type 0
AtLeast g o = (v : ℤ) × (o ≡ some v) × (g ≤ℤ v)

abbrev KeyApart : Text → Judged → Type 0
KeyApart meta j = text_eq j.key meta ≡ false

judge_key :
    (R : Server) (s : R.State) (now cost : ℤ) (e : Entry) (j : Judged)
    → judge R s now cost e ≡ some j
    → j.key ≡ e.key
unfolding judge judge_bucket judge_window
judge_key R s now cost e j h = ground arith

module _ (R : Server) (L : HasHashes R) (meta : Text) where
  judge_all-KeyApart :
      (s : R.State) (now cost : ℤ) (es : List Entry) (js : List Judged)
      → All (IsApart meta) es
      → judge_all R s now cost es ≡ some js
      → All (KeyApart meta) js
  unfolding judge_all
  judge_all-KeyApart s now cost [] [] h e = tt
  judge_all-KeyApart s now cost [] (j ∷ js) h e = cc
  judge_all-KeyApart s now cost (x ∷ es) js h e = elim (Option-cases (judge R s now cost x)) [
    | inl gone ↦ absurd (ground (arith, gone))
    | inr (j, one) ↦ elim (Option-cases (judge_all R s now cost es)) [
      | inl gone ↦ absurd (ground (arith, one, gone))
      | inr (rest, more) ↦
          let eq : j ∷ rest ≡ js = ground (arith, one, more) in
          subst (All (KeyApart meta)) eq (
            rw (judge_key R s now cost x j one) h.0,
            judge_all-KeyApart s now cost es rest h.1 more,
          )
    ]
  ]

  hget-add_members :
      (n : ℕ) (s : R.State) (k : Text) (now : ℤ) (same : ℕ) (g : Text)
      → text_eq k meta ≡ false
      → R.hget (add_members R s k now same n) meta g ≡ R.hget s meta g
  unfolding add_members
  hget-add_members zero s k now same g h = refl
  hget-add_members (suc n) s k now same g h =
      hget-add_members n _ k now (same + 1) g h ∙ L.hget-zadd s k now _ meta g h

  hget-commit_one :
      (s : R.State) (now cost : ℤ) (j : Judged) (g : Text)
      → text_eq j.key meta ≡ false
      → R.hget (commit_one R s now cost j) meta g ≡ R.hget s meta g
  unfolding commit_one
  hget-commit_one s now cost j g h = elim (Bool-cases j.is_bucket) [
    | inl bucket ↦ rw bucket (L.hget-set_px s j.key j.write _ meta g h)
    | inr window ↦ rw window (
        L.hget-pexpire _ j.key _ meta g h
        ∙ (hget-add_members (pos_part cost) _ j.key now _ g h
            ∙ L.hget-zremrange_upto s j.key j.cutoff meta g h))
  ]

  hget-commit_all :
      (js : List Judged) (s : R.State) (now cost : ℤ) (g : Text)
      → All (KeyApart meta) js
      → R.hget (commit_all R s now cost js) meta g ≡ R.hget s meta g
  unfolding commit_all
  hget-commit_all [] s now cost g h = refl
  hget-commit_all (j ∷ js) s now cost g h =
      hget-commit_all js _ now cost g h.1 ∙ hget-commit_one s now cost j g h.0

  -- Deciding writes counters only.
  pub hget-decide :
      (s : R.State) (p : Prefix) (es : List Entry) (g : Text)
      → All (IsApart meta) es
      → R.hget (decide R s p es).0 meta g ≡ R.hget s meta g
  unfolding decide
  hget-decide s p es g h = elim (Option-cases (judge_all R s (clock_of R s p) p.cost es)) [
    | inl stopped ↦ rw (decide, stopped) refl
    | inr (js, e) ↦ elim (Bool-cases (consumes p js)) [
      | inl used ↦
          rw (decide, e, used)
            (hget-commit_all js s (clock_of R s p) p.cost g
              (judge_all-KeyApart s (clock_of R s p) p.cost es js h e))
      | inr unused ↦ rw (decide, e, unused) refl
    ]
  ]

  hget_if :
      (b : Bool) (s : R.State) (k f : Text) (v : ℤ) (g : Text)
      → R.hget (if b then R.hset s k f v else s) meta g
        ≡ (if b && (text_eq k meta && text_eq f g) then some v else R.hget s meta g)
  hget_if true s k f v g = L.hget-hset s k f v meta g
  hget_if false s k f v g = refl

  -- A field after both records, whoever they are for.
  hget-noted :
      (s : R.State) (k : Text) (p : Prefix) (g : Text)
      → R.hget (noted R s k p) meta g ≡ (
          if (ltb_ℤ (pos 0) p.policy_gen && is_ahead p.policy_gen (R.hget s k policy_field))
            && (text_eq k meta && text_eq policy_field g)
          then some p.policy_gen
          else if (ltb_ℤ (pos 0) p.store_gen && is_absent (R.hget s k store_field))
              && (text_eq k meta && text_eq store_field g)
          then some p.store_gen
          else R.hget s meta g)
  unfolding noted note_store note_policy
  hget-noted s k p g =
      rw (hget_if _ _ k policy_field p.policy_gen g, hget_if _ _ k store_field p.store_gen g) refl

  -- The generations of another tenant.
  pub hget-noted_ne :
      (s : R.State) (k : Text) (p : Prefix) (g : Text)
      → text_eq k meta ≡ false
      → R.hget (noted R s k p) meta g ≡ R.hget s meta g
  hget-noted_ne s k p g h = rw (hget-noted s k p g) (ground (arith, h))

  module _ (s : R.State) (p : Prefix) where
    policy-noted : R.hget (noted R s meta p) meta policy_field ≡ (
        if ltb_ℤ (pos 0) p.policy_gen && is_ahead p.policy_gen (R.hget s meta policy_field)
        then some p.policy_gen
        else R.hget s meta policy_field)
    unfolding text_eq
    policy-noted = rw (hget-noted s meta p policy_field, text_eq_refl meta) (ground arith)

    pub store-noted : R.hget (noted R s meta p) meta store_field ≡ (
        if ltb_ℤ (pos 0) p.store_gen && is_absent (R.hget s meta store_field)
        then some p.store_gen
        else R.hget s meta store_field)
    unfolding text_eq
    store-noted = rw (hget-noted s meta p store_field, text_eq_refl meta) (ground arith)

    pub noted-AtLeast :
        (g : ℤ)
        → AtLeast g (R.hget s meta policy_field)
        → AtLeast g (R.hget (noted R s meta p) meta policy_field)
    noted-AtLeast g (v, e, h) =
        elim (Bool-cases (ltb_ℤ (pos 0) p.policy_gen && ltb_ℤ v p.policy_gen)) [
          | inl ahead ↦ (p.policy_gen, ground (arith, policy-noted), ground arith)
          | inr not_ahead ↦ (v, ground (arith, policy-noted), h)
        ]

    pub passed-AtLeast :
        pos 0 <ℤ p.policy_gen
        → newer_policy p.policy_gen (R.hget s meta policy_field) ≡ none
        → AtLeast p.policy_gen (R.hget (noted R s meta p) meta policy_field)
    unfolding newer_policy
    passed-AtLeast h e = elim (Option-cases (R.hget s meta policy_field)) [
      | inl absent ↦ (p.policy_gen, ground (arith, policy-noted), omega arith)
      | inr (v, stored) ↦ elim (Bool-cases (ltb_ℤ v p.policy_gen)) [
        | inl ahead ↦ (p.policy_gen, ground (arith, policy-noted), omega arith)
        | inr not_ahead ↦ (v, ground (arith, policy-noted), ground (arith, e, stored))
      ]
    ]
