-- ===== src/Decide.antt =====
-- internal/decide/decide.go, with the production build's fault hook, which does nothing
-- (internal/decide/fault_off.go): the one place an admission question is answered. The policy
-- source, the checker, the ring and the peers are what `Parts` says; the guard is the one of
-- internal/storegen.
pub mod Fences
pub mod Routing
pub mod Examples
mod Tests
use distributed_rate_limiter.Prelude.{
  ℕ, zero, suc, Bool, true, false, not, ◌&&◌, Option, none, some, List, [], ◌∷◌, Text, text_eq, ltb,
  bytes, if◌then◌else◌,
}
use distributed_rate_limiter.Prelude.Int.{ℤ, pos, leb_ℤ, add64}
use distributed_rate_limiter.Limiter.Request.{Request, Result}
use distributed_rate_limiter.Cluster.Members.{Node}
use distributed_rate_limiter.Storegen.{Guard, check, fence}
use distributed_rate_limiter.Policy.{
  Policy, Found, found, tenant_not_found, tenant_disabled, source_failed, fails_closed, limits_for,
}

pub record Query : Type 0 where
  pub tenant : Text
  pub method : Text
  pub path : Text
  pub cost : ℤ
  pub peek : Bool
  pub forwarded : Bool

pub record Degraded : Type 0 where
  pub reason : Text
  pub mode : Text

pub record Outcome : Type 0 where
  pub result : Result
  pub policy : Policy
  pub degraded : Option Degraded
  pub owner : Text
  pub forwarded : Bool

-- The errors a surface tells apart.
pub data DecideError : Type 0 where
  no_tenant fenced store_unavailable cost_exceeds missing disabled no_policy : DecideError

-- What `Decide` returns: an outcome, or an error with the policy that some errors carry.
pub data Answer : Type 0 where
  answered : Outcome → Answer
  failed : DecideError → Option Policy → Answer

-- What the checker returns; `no_answer` is any error but the three that are told apart.
pub data Reply : Type 0 where
  decided : Result → Reply
  cost_too_large policy_stale store_reset : Reply
  no_answer : Text → Reply

-- What a peer returns; `peer_unavailable` is `ErrPeerUnavailable`.
pub data PeerReply : Type 0 where
  peer_answered : Outcome → PeerReply
  peer_unavailable : PeerReply
  peer_failed : DecideError → PeerReply

-- A decision as the hub publishes it.
pub record Published : Type 0 where
  pub tenant : Text
  pub policy : Text
  pub allowed : Bool
  pub limiting : Text
  pub node : Text
  pub cost : ℤ
  pub at : ℤ

-- What the service is given. A view or a forwarder that is nil is `none`; the generations and the
-- instant are those that one decision reads.
pub record Parts (S K : Type 0) : Type 0 where
  pub lookup : S → Text → S × Found
  pub invalidate : S → Text → S
  pub check : K → Request → K × Reply
  pub owner_of : Option (Text → Option (Node × Bool))
  pub forward : Option (Text → Query → PeerReply)
  pub equal_fold : Text → Text → Bool
  pub store_gen : ℕ
  pub newest_policy_gen : ℕ
  pub node : Text
  pub has_hub : Bool
  pub at : ℤ

pub record Service (S K : Type 0) : Type 0 where
  pub policies : S
  pub checker : K
  pub guard : Option Guard
  pub hub : List Published
  pub local : ℤ
  pub forwarded : ℤ
  pub fell_back : ℤ
  pub policy_stale : ℤ
  pub store_fenced : ℤ

-- `errors.Is` on what `Lookup` returns.
abbrev about : Found → DecideError
about (found p) = no_policy
about tenant_not_found = missing
about tenant_disabled = disabled
about source_failed = no_policy

module _ {S K : Type 0} (parts : Parts S K) where
  -- `publish`.
  unfoldable pub publish : Query → Outcome → Service S K → Service S K
  publish q out s =
      if parts.has_hub
      then record s {
        hub =
            record {
              tenant = q.tenant;
              policy = out.policy.name;
              allowed = out.result.allowed;
              limiting = out.result.limiting;
              node = parts.node;
              cost = if leb_ℤ q.cost (pos 0) then pos 1 else q.cost;
              at = parts.at;
            }
            ∷ s.hub;
      }
      else s

  -- The request that `decideHere` makes of the checker.
  unfoldable pub request_for : Query → Policy → Request
  request_for q pol = record {
    tenant = q.tenant;
    limits = limits_for parts.equal_fold pol q.method q.path;
    cost = q.cost;
    peek_only = q.peek;
    store_gen = parts.store_gen;
    policy_gen = pol.gen;
  }

  -- A stale policy is counted and the cached copy dropped.
  unfoldable pub drop_stale : Query → Service S K → Service S K
  drop_stale q s = record s {
    policy_stale = add64 s.policy_stale (pos 1);
    policies = parts.invalidate s.policies q.tenant;
  }

  -- The id of the owner, when there is a ring.
  unfoldable pub owner_id : Text → Text
  owner_id tenant = elim parts.owner_of [
    | none ↦ []
    | some view ↦ elim (view tenant) [ none ↦ [] | some (n, is_self) ↦ n.id ]
  ]

  -- `decideHere` after the checker replied, when it does not ask again.
  unfoldable pub finish : Query → Policy → Reply → Service S K → Service S K × Answer
  unfolding publish owner_id
  finish q pol (decided res) s =
      let out : Outcome = record {
        result = res;
        policy = pol;
        degraded = none;
        owner = owner_id q.tenant;
        forwarded = false;
      } in
      let s' = record s { local = add64 s.local (pos 1) } in
      (if q.peek then s' else publish q out s', answered out)
  finish q pol cost_too_large s = (s, failed cost_exceeds none)
  finish q pol policy_stale s =
      (record s { policy_stale = add64 s.policy_stale (pos 1) }, failed fenced (some pol))
  finish q pol store_reset s = (
    record s {
      store_fenced = add64 s.store_fenced (pos 1);
      guard = elim s.guard [ none ↦ none | some g ↦ some (fence q.tenant g) ];
    },
    failed fenced (some pol),
  )
  finish q pol (no_answer text) s =
      let out : Outcome = record {
        result = record { allowed = true; decisions = []; limiting = [] };
        policy = pol;
        degraded = some (record { reason = text; mode = bytes "open" });
        owner = [];
        forwarded = false;
      } in
      if fails_closed pol
      then (s, failed store_unavailable (some pol))
      else (publish q out s, answered out)

  -- The policy that was found predates a generation this node has heard of.
  unfoldable pub is_outdated : Policy → Bool
  is_outdated pol = ltb 0 pol.gen && ltb pol.gen parts.newest_policy_gen

  -- `s.policies.Lookup`.
  unfoldable pub look : Query → Service S K → Service S K × Found
  look q s =
      let (policies', answer) = parts.lookup s.policies q.tenant in
      (record s { policies = policies' }, answer)

  -- `s.checker.Check`.
  unfoldable pub ask : Query → Policy → Service S K → Service S K × Reply
  unfolding request_for
  ask q pol s =
      let (checker', reply) = parts.check s.checker (request_for q pol) in
      (record s { checker = checker' }, reply)

  -- A first attempt once the checker replied; `retry` is the second attempt.
  unfoldable pub retry_or_finish :
      (Service S K → Service S K × Answer)
      → Query
      → Policy
      → Reply
      → Service S K
      → Service S K × Answer
  unfolding finish drop_stale
  retry_or_finish retry q pol policy_stale s = retry (drop_stale q s)
  retry_or_finish retry q pol (decided res) s = finish q pol (decided res) s
  retry_or_finish retry q pol cost_too_large s = finish q pol cost_too_large s
  retry_or_finish retry q pol store_reset s = finish q pol store_reset s
  retry_or_finish retry q pol (no_answer text) s = finish q pol (no_answer text) s

  -- A first attempt once the policy was found; the Boolean says that it is outdated.
  unfoldable pub refresh_or_ask :
      (Service S K → Service S K × Answer)
      → Query
      → Policy
      → Bool
      → Service S K
      → Service S K × Answer
  unfolding retry_or_finish ask drop_stale
  refresh_or_ask retry q pol true s = retry (drop_stale q s)
  refresh_or_ask retry q pol false s = retry_or_finish retry q pol (ask q pol s).1 (ask q pol s).0

  -- A first attempt once the source answered.
  unfoldable pub first_attempt :
      (Service S K → Service S K × Answer) → Query → Found → Service S K → Service S K × Answer
  unfolding refresh_or_ask is_outdated
  first_attempt retry q (found pol) s = refresh_or_ask retry q pol (is_outdated pol) s
  first_attempt retry q tenant_not_found s = (s, failed (about tenant_not_found) none)
  first_attempt retry q tenant_disabled s = (s, failed (about tenant_disabled) none)
  first_attempt retry q source_failed s = (s, failed (about source_failed) none)

  -- A second attempt, with `refreshed` true, once the source answered.
  unfoldable pub second_attempt : Query → Found → Service S K → Service S K × Answer
  unfolding finish ask
  second_attempt q (found pol) s = finish q pol (ask q pol s).1 (ask q pol s).0
  second_attempt q tenant_not_found s = (s, failed (about tenant_not_found) none)
  second_attempt q tenant_disabled s = (s, failed (about tenant_disabled) none)
  second_attempt q source_failed s = (s, failed (about source_failed) none)

  -- `decideHere(ctx, q, true)`.
  unfoldable pub decide_refreshed : Query → Service S K → Service S K × Answer
  unfolding second_attempt look
  decide_refreshed q s = second_attempt q (look q s).1 (look q s).0

  -- `decideHere(ctx, q, false)`.
  unfoldable pub decide_first : Query → Service S K → Service S K × Answer
  unfolding first_attempt decide_refreshed look
  decide_first q s = first_attempt (decide_refreshed q) q (look q s).1 (look q s).0

  -- `maybeForward`: the service, and the answer to return if it was handled.
  unfoldable pub maybe_forward : Query → Service S K → Service S K × Option Answer
  maybe_forward q s = elim parts.owner_of [
    | none ↦ (s, none)
    | some view ↦ elim parts.forward [
      | none ↦ (s, none)
      | some send ↦ elim q.forwarded [
        | true ↦ (s, none)
        | false ↦ elim (view q.tenant) [
          | none ↦ (s, none)
          | some (owner, true) ↦ (s, none)
          | some (owner, false) ↦ elim (send owner.addr (record q { forwarded = true })) [
            | peer_answered out ↦ (
              record s { forwarded = add64 s.forwarded (pos 1) },
              some (answered (record out { owner = owner.id; forwarded = true })),
            )
            | peer_unavailable ↦ (record s { fell_back = add64 s.fell_back (pos 1) }, none)
            | peer_failed e ↦ (s, some (failed e none))
          ]
        ]
      ]
    ]
  ]

  -- `Decide` past the guard.
  unfoldable pub decide_open : Query → Service S K → Service S K × Answer
  unfolding maybe_forward decide_first
  decide_open q s =
      let (s', handled) = maybe_forward q s in
      elim handled [ some a ↦ (s', a) | none ↦ decide_first q s' ]

  -- `Decide`.
  unfoldable pub decide : Query → Service S K → Service S K × Answer
  unfolding decide_open
  decide q s = if text_eq q.tenant [] then (s, failed no_tenant none) else elim s.guard [
    | none ↦ decide_open q s
    | some g ↦
        let (g', refusal) = check g in
        elim refusal [
          | none ↦ decide_open q s
          | some r ↦ (
            record s { guard = some g'; store_fenced = add64 s.store_fenced (pos 1) },
            failed fenced none,
          )
        ]
  ]
