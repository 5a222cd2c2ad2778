-- ===== src/Admin/Fenced.antt =====
-- What an edit through internal/gateway/admin.go has done when it answers 200.
use distributed_rate_limiter.Prelude.{
  ◌≡◌, refl, sym, ap, ◌∙◌, ◌⊎◌, inl, inr, true, false, Bool-cases, Option-cases, Option, none, some,
  [], Text, text_eq, arith, ◌||◌,
}
use distributed_rate_limiter.Cluster.State.{Command, bump_policy_gen, u64_next, apply}
use distributed_rate_limiter.Cluster.Fsm.{Fsm, is_kindless}
use distributed_rate_limiter.Cluster.Consensus.{
  Log, Proposed, accepted, inapplicable_entry, not_leader, unencodable, commit_failed, propose,
  caught_up,
}
use distributed_rate_limiter.Cluster.Consensus.Proposals.{Honest, propose-IsHonest}
use distributed_rate_limiter.Admin.{
  RecordError, PolicyDto, TenantRecord, to_record, policy_to_dto, validate_record,
}
use distributed_rate_limiter.Admin.Store.{
  StoreError, tenant_missing, conflict, store_failed, AdminStore, Managed, Setup, Response,
  policy_body, tenant_body,
}
use distributed_rate_limiter.Admin.Edits.{
  command, no_node, unfenced, bump, after_write, finish, put_policy, put_tenant, completed,
  drop_cached, admin_error, told,
}

admin_error-status : (e : StoreError) → (admin_error e).status ≡ 200 → ⊥
unfolding admin_error
admin_error-status tenant_missing h = omega arith
admin_error-status conflict h = omega arith
admin_error-status store_failed h = omega arith

unfenced-status : (p : Proposed) (r : Response) → unfenced p ≡ some r → r.status ≡ 409
unfolding unfenced
unfenced-status (accepted s changed) r h = cc
unfenced-status (not_leader id addr) r h = ground arith
unfenced-status (inapplicable_entry e) r h = ground arith
unfenced-status unencodable r h = ground arith
unfenced-status commit_failed r h = ground arith

kind_given : is_kindless bump_policy_gen ≡ false
unfolding is_kindless
kind_given = refl

-- A bump that was accepted gave the next generation.
bumped :
    (f g f' : Fsm) (p : Proposed)
    → Honest f g (command bump_policy_gen no_node []) f' p
    → unfenced p ≡ none
    → f'.state.policy_gen ≡ u64_next g.state.policy_gen
unfolding unfenced Honest apply
bumped f g f' (accepted s changed) h e = ground (arith, h.0, h.1)
bumped f g f' (not_leader id addr) h e = cc
bumped f g f' (inapplicable_entry x) h e = cc
bumped f g f' unencodable h e = cc
bumped f g f' commit_failed h e = cc

module _ (A : AdminStore) {B : Type 0} (encode : Command → Option B)
    (unmarshal : B → Option Command)
    (back : (b : B)
      → encode (command bump_policy_gen no_node []) ≡ some b
      → unmarshal b ≡ some (command bump_policy_gen no_node []))
    (setup : Setup) where
  -- There is no log to fence with, or policies are left unfenced, or they have the generation after
  -- the one that they had once the entries of others that come first were applied.
  abbrev pub IsFenced : Managed A.State → Managed A.State → Type 0
  IsFenced m m' =
      (setup.control ≡ none)
      ⊎ (setup.no_policy_gen ≡ true)
      ⊎ ((log : Log) × (setup.control ≡ some log)
          × (m'.machine.state.policy_gen
              ≡ u64_next (caught_up log.meanwhile m.machine).state.policy_gen))

  abbrev Keeps : Managed A.State → Managed A.State → Type 0
  Keeps m m' = (m'.store ≡ m.store) × (m'.cache ≡ m.cache)

  bump_proposes :
      (m : Managed A.State) (log : Log)
      → setup.control ≡ some log
      → setup.no_policy_gen ≡ false
      → let r = propose encode unmarshal log m.machine (command bump_policy_gen no_node []) in
        bump A encode unmarshal setup m ≡ (record m { machine = r.0 }, unfenced r.1)
  unfolding bump
  bump_proposes m log e on_ = rw (e, on_) refl

  bump_alone :
      (m : Managed A.State)
      → (setup.control ≡ none) ⊎ (setup.no_policy_gen ≡ true)
      → bump A encode unmarshal setup m ≡ (m, none)
  unfolding bump
  bump_alone m (inl alone) = rw alone refl
  bump_alone m (inr off) = elim (Option-cases setup.control) [
    | inl alone ↦ rw alone refl
    | inr (log, e) ↦ rw (e, off) refl
  ]

  bump-IsFenced :
      (m : Managed A.State)
      → (bump A encode unmarshal setup m).1 ≡ none
      → Keeps m (bump A encode unmarshal setup m).0 × IsFenced m (bump A encode unmarshal setup m).0
  unfolding bump
  bump-IsFenced m h = elim (Option-cases setup.control) [
    | inl alone ↦ rw alone ((refl, refl), inl refl)
    | inr (log, e) ↦ elim (Bool-cases setup.no_policy_gen) [
      | inl off ↦ rw (e, off) ((refl, refl), inr (inl refl))
      | inr on_ ↦
          let same = bump_proposes m log e on_ in
          let c = command bump_policy_gen no_node [] in
          let r = propose encode unmarshal log m.machine c in
          let next =
            bumped m.machine (caught_up log.meanwhile m.machine) r.0 r.1
              (propose-IsHonest encode unmarshal c back kind_given log m.machine)
              (sym (ap (λ x. x.1) same) ∙ h) in
          rw same ((refl, refl), inr (inr (log, e, next)))
    ]
  ]

  bump_stops :
      (m : Managed A.State) (r : Response)
      → (bump A encode unmarshal setup m).1 ≡ some r
      → r.status ≡ 409
  bump_stops m r h = elim (Option-cases setup.control) [
    | inl alone ↦ absurd (ground (arith, bump_alone m (inl alone), h))
    | inr (log, e) ↦ elim (Bool-cases setup.no_policy_gen) [
      | inl off ↦ absurd (ground (arith, bump_alone m (inr off), h))
      | inr on_ ↦ unfenced-status _ r (sym (ap (λ x. x.1) (bump_proposes m log e on_)) ∙ h)
    ]
  ]

  module _ (s : A.State) (tenant : Text) (done : Response) (m : Managed A.State) where
    abbrev written : Managed A.State
    written = record m { store = s; cache = drop_cached tenant m.cache }

    finish_done :
        (bump A encode unmarshal setup written).1 ≡ none
        → finish A encode unmarshal setup (s, none) tenant done m
          ≡ ((bump A encode unmarshal setup written).0, done)
    unfolding finish after_write
    finish_done h = ground (arith, h)

    finish_stopped :
        (r : Response)
        → (bump A encode unmarshal setup written).1 ≡ some r
        → finish A encode unmarshal setup (s, none) tenant done m
          ≡ ((bump A encode unmarshal setup written).0, r)
    unfolding finish after_write
    finish_stopped r h = ground (arith, h)

  -- What an edit has done when it ends with the answer for success.
  pub Done : A.State × Option StoreError → Text → Managed A.State → Managed A.State → Type 0
  Done w tenant m m' =
      (w.1 ≡ none) × (m'.store ≡ w.0) × (m'.cache ≡ drop_cached tenant m.cache) × IsFenced m m'

  finish-Done :
      (w : A.State × Option StoreError) (tenant : Text) (done : Response) (m : Managed A.State)
      → (finish A encode unmarshal setup w tenant done m).1.status ≡ 200
      → Done w tenant m (finish A encode unmarshal setup w tenant done m).0
  unfolding finish Done
  finish-Done (s, some e) tenant done m h = absurd (admin_error-status e h)
  finish-Done (s, none) tenant done m h =
      let m0 = written s tenant done m in
      elim (Option-cases (bump A encode unmarshal setup m0).1) [
        | inr (r, stop) ↦
            let e : r.status ≡ 200 =
              sym (ap (λ x. x.1.status) (finish_stopped s tenant done m r stop)) ∙ h in
            absurd (omega (arith, bump_stops m0 r stop, e))
        | inl go ↦
            let ((store, cache), fenced) = bump-IsFenced m0 go in
            rw (finish_done s tenant done m go) (refl, store, cache, fenced)
      ]

  put_policy_passed :
      (name : Text) (d : PolicyDto) (m : Managed A.State)
      → validate_record (to_record d name) ≡ none
      → (done : Response) × (put_policy A encode unmarshal setup name (some d) m
          ≡ finish A encode unmarshal setup (A.upsert_policy m.store (to_record d name)) [] done m)
  unfolding put_policy
  put_policy_passed name d m h =
      (told 200 (policy_body (policy_to_dto (to_record d name))), rw (put_policy, h) refl)

  put_policy_refused :
      (name : Text) (d : PolicyDto) (m : Managed A.State) (e : RecordError)
      → validate_record (to_record d name) ≡ some e
      → (put_policy A encode unmarshal setup name (some d) m).1.status ≡ 400
  unfolding put_policy
  put_policy_refused name d m e h = rw (put_policy, h) refl

  -- A policy is answered 200 only if it passed its checks, the store took it, this node's cache was
  -- dropped, and the log gave the policies the generation after the one that they had once the
  -- entries of others that come first were applied, unless there is no log or policies are left
  -- unfenced. The json package reads the command for the next generation back as it wrote it.
  pub put_policy-IsFenced :
      (name : Text) (d : PolicyDto) (m : Managed A.State)
      → (put_policy A encode unmarshal setup name (some d) m).1.status ≡ 200
      → (validate_record (to_record d name) ≡ none)
        × Done
            (A.upsert_policy m.store (to_record d name))
            []
            m
            (put_policy A encode unmarshal setup name (some d) m).0
  put_policy-IsFenced name d m h = elim (Option-cases (validate_record (to_record d name))) [
    | inr (e, bad) ↦ absurd (omega (arith, put_policy_refused name d m e bad, h))
    | inl fine ↦
        let (done, same) = put_policy_passed name d m fine in
        (
          fine,
          rw same (
              finish-Done (A.upsert_policy m.store (to_record d name)) [] done m
                (sym (ap (λ x. x.1.status) same) ∙ h)),
        )
  ]

  put_tenant_passed :
      (id : Text) (t : TenantRecord) (m : Managed A.State)
      → (text_eq (completed id t).id [] || text_eq (completed id t).policy []) ≡ false
      → put_tenant A encode unmarshal setup id (some t) m
        ≡ finish A encode unmarshal setup
            (A.upsert_tenant m.store (completed id t))
            (completed id t).id
            (told 200 (tenant_body (completed id t)))
            m
  unfolding put_tenant
  put_tenant_passed id t m h = rw (put_tenant, h) refl

  put_tenant_refused :
      (id : Text) (t : TenantRecord) (m : Managed A.State)
      → (text_eq (completed id t).id [] || text_eq (completed id t).policy []) ≡ true
      → (put_tenant A encode unmarshal setup id (some t) m).1.status ≡ 400
  unfolding put_tenant
  put_tenant_refused id t m h = rw (put_tenant, h) refl

  -- A tenant is answered 200 only if its record, with the id of the path, names an id and a policy,
  -- the store took it, this node's cache let go of the tenant, and the log gave the policies the
  -- generation after the one before its entry, unless there is no log or policies are left unfenced.
  pub put_tenant-IsFenced :
      (id : Text) (t : TenantRecord) (m : Managed A.State)
      → (put_tenant A encode unmarshal setup id (some t) m).1.status ≡ 200
      → ((text_eq (completed id t).id [] || text_eq (completed id t).policy []) ≡ false)
        × Done
            (A.upsert_tenant m.store (completed id t))
            (completed id t).id
            m
            (put_tenant A encode unmarshal setup id (some t) m).0
  put_tenant-IsFenced id t m h =
      elim (Bool-cases (text_eq (completed id t).id [] || text_eq (completed id t).policy [])) [
        | inl bad ↦ absurd (omega (arith, put_tenant_refused id t m bad, h))
        | inr fine ↦
            let same = put_tenant_passed id t m fine in
            (
              fine,
              rw same (
                  finish-Done (A.upsert_tenant m.store (completed id t)) (completed id t).id
                    (told 200 (tenant_body (completed id t))) m
                    (sym (ap (λ x. x.1.status) same) ∙ h)),
            )
      ]
