-- ===== src/Redis/Traffic.antt =====
-- The generation fence of internal/limiter/redis over any sequence of calls, from any gateways and
-- for any tenants.
use distributed_rate_limiter.Prelude.{
  ℕ, ◌≡◌, ◌≢◌, refl, ap, sym, ◌∙◌, ◌⊎◌, inl, inr, ◌<◌, Bool-cases, Option-cases, Option, none, List,
  [], ◌∷◌, All, Text, text_eq, text_eq_iff, arith,
}
use mathlib.Core.Path.{subst}
use distributed_rate_limiter.Prelude.Int.{ℤ, pos, ◌<ℤ◌}
use distributed_rate_limiter.Limiter.Limit.Key.{meta_key}
use distributed_rate_limiter.Limiter.Request.{Request, Result, effective_cost}
use distributed_rate_limiter.Redis.Commands.{Server, HasHashes}
use distributed_rate_limiter.Redis.Script.{
  Prefix, Entry, run_parsed, other_store, newer_policy, decide, noted, refusal, store_field,
  policy_field,
}
use distributed_rate_limiter.Redis.Client.{
  Outcome, answered, failed, policy_stale, store_reset, Delivery, delivered, to_u64, Call, check,
  checks, refuse_limits, parse_result, fence_error, stored_in, to_int,
}
use distributed_rate_limiter.Redis.Calls.{
  IsApart, entries_of, entries-IsApart, prefix_of, ran, check_sent-ran, check-state, check_checked,
  accepted_limits, check_unchecked,
}
use distributed_rate_limiter.Redis.Fences.{
  AtLeast, hget-decide, hget-noted_ne, noted-AtLeast, passed-AtLeast,
}

-- How a run of the script ends: at one of the fences, or with a decision.
pub run_parsed-cases :
    (R : Server) (s : R.State) (meta : Text) (p : Prefix) (es : List Entry)
    → ((v : ℤ) × (run_parsed R s meta p es ≡ (s, refusal 2 v)))
      ⊎ ((v : ℤ) × (run_parsed R s meta p es ≡ (s, refusal 1 v)))
      ⊎ ((newer_policy p.policy_gen (R.hget s meta policy_field) ≡ none)
          × (run_parsed R s meta p es ≡ decide R (noted R s meta p) p es))
unfolding run_parsed
run_parsed-cases R s meta p es =
    elim (Option-cases (other_store p.store_gen (R.hget s meta store_field))) [
      | inr (v, e) ↦ inl (v, rw (run_parsed, e) refl)
      | inl same ↦ elim (Option-cases (newer_policy p.policy_gen (R.hget s meta policy_field))) [
        | inr (v, e) ↦ inr (inl (v, rw (run_parsed, same, e) refl))
        | inl recent ↦ inr (inr (recent, rw (run_parsed, same, recent) refl))
      ]
    ]

abbrev Accepts : Request → Type 0
Accepts req = refuse_limits (effective_cost req) req.limits ≡ none

-- What the client makes of a refusal.
pub stale-failed :
    (req : Request) (v : ℤ)
    → parse_result (refusal 1 v) req ≡ failed (policy_stale req.policy_gen (to_u64 v))
unfolding parse_result fence_error stored_in to_int
stale-failed req v = refl

pub reset-failed :
    (req : Request) (v : ℤ)
    → parse_result (refusal 2 v) req ≡ failed (store_reset req.store_gen (to_u64 v))
unfolding parse_result fence_error stored_in to_int
reset-failed req v = refl

module _ (R : Server) (L : HasHashes R) (sha256 : Text → Text) where
  run-AtLeast :
      (s : R.State) (k meta : Text) (p : Prefix) (es : List Entry) (g : ℤ)
      → All (IsApart meta) es
      → AtLeast g (R.hget s meta policy_field)
      → AtLeast g (R.hget (run_parsed R s k p es).0 meta policy_field)
  run-AtLeast s k meta p es g apart h = elim (run_parsed-cases R s k p es) [
    | inl (v, e) ↦ rw e h
    | inr (inl (v, e)) ↦ rw e h
    | inr (inr (recent, e)) ↦
        rw (e, hget-decide R L meta (noted R s k p) p es policy_field apart)
          (elim (Bool-cases (text_eq k meta)) [
            | inl same ↦
                let eq : meta ≡ k = sym ((text_eq_iff k meta).0 same) in
                subst (λ j. AtLeast g (R.hget (noted R s j p) meta policy_field)) eq
                  (noted-AtLeast R L meta s p g h)
            | inr apart_key ↦ rw (hget-noted_ne R L meta s k p policy_field apart_key) h
          ])
  ]

  check-AtLeast :
      (clock : Option ℤ) (d : Delivery) (s : R.State) (req : Request) (tenant : Text) (g : ℤ)
      → AtLeast g (R.hget s (meta_key tenant) policy_field)
      → AtLeast g (R.hget (check sha256 R clock d s req).0 (meta_key tenant) policy_field)
  check-AtLeast clock d s req tenant g h = elim (check-state sha256 R clock d s req) [
    | inl e ↦ rw e h
    | inr e ↦ rw e (
        run-AtLeast s (meta_key req.tenant) (meta_key tenant) _ _ g
          (entries-IsApart sha256 req.tenant tenant req.limits) h)
  ]

  checks-AtLeast :
      (calls : List Call) (s : R.State) (tenant : Text) (g : ℤ)
      → AtLeast g (R.hget s (meta_key tenant) policy_field)
      → AtLeast g (R.hget (checks sha256 R calls s) (meta_key tenant) policy_field)
  unfolding checks
  checks-AtLeast [] s tenant g h = h
  checks-AtLeast ((clock, d, req) ∷ calls) s tenant g h =
      checks-AtLeast calls _ tenant g (check-AtLeast clock d s req tenant g h)

  ran-AtLeast :
      (clock : Option ℤ) (s : R.State) (req : Request) (res : Result)
      → 0 < req.policy_gen
      → parse_result (ran sha256 R clock s req).1 req ≡ answered res
      → AtLeast
          (pos req.policy_gen)
          (R.hget (ran sha256 R clock s req).0 (meta_key req.tenant) policy_field)
  ran-AtLeast clock s req res h e =
      let p = prefix_of clock req (effective_cost req) in
      let es = entries_of sha256 req.tenant req.limits in
      elim (run_parsed-cases R s (meta_key req.tenant) p es) [
        | inl (v, refused) ↦ absurd (ground (arith, e, refused, reset-failed req v))
        | inr (inl (v, refused)) ↦ absurd (ground (arith, e, refused, stale-failed req v))
        | inr (inr (recent, ran_)) ↦
            rw
              (
                ran_,
                hget-decide R L (meta_key req.tenant) (noted R s (meta_key req.tenant) p) p es
                    policy_field (entries-IsApart sha256 req.tenant req.tenant req.limits),
              )
              (passed-AtLeast R L (meta_key req.tenant) s p (omega arith) recent)
      ]

  -- A call that gets an answer has recorded its generation.
  answered-AtLeast :
      (clock : Option ℤ) (s : R.State) (req : Request) (res : Result)
      → req.limits ≢ []
      → 0 < req.policy_gen
      → (check sha256 R clock delivered s req).1 ≡ answered res
      → AtLeast
          (pos req.policy_gen)
          (R.hget (check sha256 R clock delivered s req).0 (meta_key req.tenant) policy_field)
  answered-AtLeast clock s req res some_limit h e =
      elim (Option-cases (refuse_limits (effective_cost req) req.limits)) [
        | inr (refusal_, refused) ↦
            absurd
              (ground (arith, e, check_unchecked sha256 R clock delivered s req refusal_ refused))
        | inl passed ↦
            let same =
              check_checked sha256 R clock delivered s req passed some_limit
              ∙ check_sent-ran sha256 R clock s req (accepted_limits req passed) in
            rw same (ran-AtLeast clock s req res h (ap (λ x. x.1) (sym same) ∙ e))
      ]

  -- The script refuses an older generation than the one it has recorded.
  old-refused :
      (s : R.State) (meta : Text) (p : Prefix) (es : List Entry) (g : ℤ)
      → AtLeast g (R.hget s meta policy_field)
      → pos 0 <ℤ p.policy_gen
      → p.policy_gen <ℤ g
      → ((v : ℤ) × (run_parsed R s meta p es ≡ (s, refusal 2 v)))
        ⊎ ((v : ℤ) × (run_parsed R s meta p es ≡ (s, refusal 1 v)))
  unfolding newer_policy
  old-refused s meta p es g (v, stored, le) some_gen older = elim (run_parsed-cases R s meta p es) [
    | inl a ↦ inl a
    | inr (inl a) ↦ inr a
    | inr (inr (recent, e)) ↦ absurd (ground (arith, recent, stored))
  ]

  -- Two calls for a tenant, each with at least one limit. After the first was answered, admitted or
  -- not, and whatever calls of whatever tenants follow it, lost ones among them, the second, which
  -- carries a generation of the policy that is not 0 and is older than the first's, and limits that
  -- pass validation, is refused by one of the fences and leaves the store as it is. The server's
  -- hashes answer as Redis's do, every key holds what the script writes there, and no command of a
  -- run raises an error.
  pub outdated_caller-refused :
      (clock now : Option ℤ) (s : R.State) (first late : Request) (res : Result)
      → (calls : List Call) → first.limits ≢ []
      → (check sha256 R clock delivered s first).1 ≡ answered res
      → late.tenant ≡ first.tenant
      → 0 < late.policy_gen
      → late.policy_gen < first.policy_gen
      → late.limits ≢ []
      → refuse_limits (effective_cost late) late.limits ≡ none
      → (v : ℕ) × (o : Outcome Result) × ((o ≡ failed (policy_stale late.policy_gen v))
          ⊎ (o ≡ failed (store_reset late.store_gen v)))
        × (check sha256 R now delivered
              (checks sha256 R calls (check sha256 R clock delivered s first).0)
              late
            ≡ (checks sha256 R calls (check sha256 R clock delivered s first).0, o))
  outdated_caller-refused clock now s first late res calls l0 e same some_gen older l1 passed =
      let s1 = (check sha256 R clock delivered s first).0 in
      let s2 = checks sha256 R calls s1 in
      let kept =
        checks-AtLeast calls s1 first.tenant (pos first.policy_gen)
          (answered-AtLeast clock s first res l0 (omega arith) e) in
      let sent =
        check_checked sha256 R now delivered s2 late passed l1
        ∙ check_sent-ran sha256 R now s2 late (accepted_limits late passed) in
      elim (old-refused s2 (meta_key late.tenant) (prefix_of now late (effective_cost late))
        (entries_of sha256 late.tenant late.limits) (pos first.policy_gen) (rw same kept)
        (omega arith) (omega arith)) [
          | inl (v, r) ↦
              (to_u64 v, _, inr refl, sent ∙ rw r (ap (λ o. (s2, o)) (reset-failed late v)))
          | inr (v, r) ↦
              (to_u64 v, _, inl refl, sent ∙ rw r (ap (λ o. (s2, o)) (stale-failed late v)))
        ]
