-- ===== src/Forward/Relay.antt =====
-- What a node hears of another node's decision: the client of internal/forward/forward.go, the
-- service of internal/grpcapi/server.go and the decision between them.
use distributed_rate_limiter.Prelude.{
  ◌≡◌, refl, ap, ◌∙◌, true, false, Option, none, some, List, [], ◌∷◌, Text, bytes, text_eq,
  if◌then◌else◌, Bool-cases, inl, inr,
}
use distributed_rate_limiter.Prelude.Int.{ℤ, pos}
use distributed_rate_limiter.Limiter.Request.{Decision}
use distributed_rate_limiter.Decide.{
  Query, Outcome, PeerReply, peer_answered, peer_unavailable, peer_failed, Answer, answered, failed,
  Parts, Service, decide, missing, disabled, cost_exceeds, no_tenant, fenced, store_unavailable,
  no_policy,
}
use distributed_rate_limiter.Grpcapi.{
  GrpcServer, Metadata, RpcReply, status, caller_of, named_caller, caller, rejected,
  unauthenticated, limit_states, quota_of, reply_for, rpc_check, rpc_get_quota, serve,
  is_forwarded_hop, first_value, status_for,
}
use distributed_rate_limiter.Forward.{
  check_rpc, get_quota_rpc, rpc_for, hop_metadata, received, returned, outcome_of, decisions_of,
  translate,
}

-- What of an outcome a reply carries: of the policy its name alone.
abbrev pub carried : Outcome → Outcome
carried out = record {
  result = out.result;
  policy = record { name = out.policy.name; limits = []; matches = []; failure_mode = []; gen = 0 };
  degraded = out.degraded;
  owner = [];
  forwarded = false;
}

-- What is heard of an answer: the facts about the tenant and the cost go through, and where the peer
-- has no answer it counts as unavailable.
abbrev pub relayed : Answer → PeerReply
relayed (answered out) = peer_answered (carried out)
relayed (failed missing p) = peer_failed missing
relayed (failed disabled p) = peer_failed disabled
relayed (failed cost_exceeds p) = peer_failed cost_exceeds
relayed (failed no_tenant p) = peer_failed cost_exceeds
relayed (failed fenced p) = peer_unavailable
relayed (failed store_unavailable p) = peer_unavailable
relayed (failed no_policy p) = peer_unavailable

-- The query that the peer decides: one that is not forwarded again, and costs nothing when it peeks.
abbrev pub remote_query : Query → Query
remote_query q = record q { cost = if q.peek then pos 0 else q.cost; forwarded = true }

no_key : first_value hop_metadata (bytes "x-api-key" ∷ bytes "api-key" ∷ []) ≡ []
unfolding first_value hop_metadata text_eq
no_key = refl

is_hop : is_forwarded_hop hop_metadata ≡ true
unfolding is_forwarded_hop hop_metadata text_eq
is_hop = refl

hop_caller : (s : GrpcServer) (field : Text) → caller_of s hop_metadata field ≡ named_caller s field
unfolding caller_of text_eq
hop_caller s field = split s.keys
  where
    split :
        (o : Option (Text → Option Text))
        → (elim o [
          | none ↦ named_caller s field
          | some resolve ↦
              if text_eq (first_value hop_metadata (bytes "x-api-key" ∷ bytes "api-key" ∷ [])) []
              then named_caller s field
              else elim (resolve
                  (first_value hop_metadata (bytes "x-api-key" ∷ bytes "api-key" ∷ []))) [
                    | none ↦ rejected unauthenticated
                    | some t ↦ caller t
                  ]
        ])
          ≡ named_caller s field
    split none = refl
    split (some resolve) = rw no_key refl

module _ {D : Type 0} (duration_of : ℤ → D) (as_duration : D → ℤ) where
  abbrev heard : {S : Type 0} → S × RpcReply D → S × PeerReply
  heard r = (r.0, received as_duration (returned r.1))

  -- The exchange with a peer whose connection works.
  unfoldable pub exchange :
      {S K : Type 0} → Parts S K → GrpcServer → Query → Service S K → Service S K × PeerReply
  exchange parts s q d = elim (rpc_for q) [
    | check_rpc r ↦ heard (rpc_check duration_of parts s hop_metadata r d)
    | get_quota_rpc r ↦ heard (rpc_get_quota duration_of parts s hop_metadata r d)
  ]

  decisions_back :
      ((d : ℤ) → as_duration (duration_of d) ≡ d)
      → (ds : List Decision) → decisions_of as_duration (limit_states duration_of ds) ≡ ds
  unfolding decisions_of limit_states
  decisions_back back [] = refl
  decisions_back back (d ∷ ds) =
      rw (back d.retry_after, back d.reset_after, decisions_back back ds) refl

  received_reply :
      ((d : ℤ) → as_duration (duration_of d) ≡ d)
      → (t node : Text) (a : Answer)
      → received as_duration (returned (reply_for duration_of t node a)) ≡ relayed a
  unfolding received reply_for outcome_of quota_of status_for translate
  received_reply back t node (answered out) = rw (decisions_back back out.result.decisions) refl
  received_reply back t node (failed missing p) = refl
  received_reply back t node (failed disabled p) = refl
  received_reply back t node (failed cost_exceeds p) = refl
  received_reply back t node (failed no_tenant p) = refl
  received_reply back t node (failed fenced p) = refl
  received_reply back t node (failed store_unavailable p) = refl
  received_reply back t node (failed no_policy p) = refl

  trusted :
      (s : GrpcServer) (t : Text)
      → s.trust_tenant ≡ true
      → text_eq t [] ≡ false
      → named_caller s t ≡ caller t
  unfolding named_caller
  trusted s t h e = rw (h, e) refl

  untrusted :
      (s : GrpcServer) (t : Text)
      → s.trust_tenant ≡ false
      → text_eq t [] ≡ false
      → named_caller s t ≡ rejected unauthenticated
  unfolding named_caller
  untrusted s t h e = rw (h, e) refl

  module _ {S K : Type 0} (parts : Parts S K) where
    served :
        (s : GrpcServer) (md : Metadata) (field t : Text) (query : Text → Query) (d : Service S K)
        → caller_of s md field ≡ caller t
        → serve duration_of parts s md field query d ≡ (
          (decide parts (query t) d).0,
          reply_for duration_of t parts.node (decide parts (query t) d).1,
        )
    unfolding serve
    served s md field t query d h = rw (serve, h) refl

    turned_away :
        (s : GrpcServer) (md : Metadata) (field : Text) (query : Text → Query) (d : Service S K)
        → caller_of s md field ≡ rejected unauthenticated
        → serve duration_of parts s md field query d ≡ (d, status unauthenticated)
    unfolding serve
    turned_away s md field query d h = rw (serve, h) refl

    -- The query that a peer makes of a forwarded one.
    as_served :
        (s : GrpcServer) (q : Query) (d : Service S K)
        → exchange parts s q d
          ≡ heard (
              serve duration_of parts s hop_metadata q.tenant
                (λ t. record (remote_query q) { tenant = t })
                d)
    unfolding exchange rpc_for rpc_check rpc_get_quota
    as_served s q d = elim (Bool-cases q.peek) [
      | inl p ↦ rw (p, is_hop) refl
      | inr p ↦ rw (p, is_hop) refl
    ]

    -- A check that is forwarded to a peer that trusts the tenant field is the peer's own decision of
    -- the query, made there without forwarding it again: the asking node hears the same result and
    -- policy name, hears the same error for an unknown or disabled tenant and for an impossible cost,
    -- and takes every other error for no answer, so that it decides itself.
    pub exchange_relays :
        (s : GrpcServer) (q : Query) (d : Service S K)
        → ((z : ℤ) → as_duration (duration_of z) ≡ z)
        → s.trust_tenant ≡ true
        → text_eq q.tenant [] ≡ false
        → exchange parts s q d
          ≡ ((decide parts (remote_query q) d).0, relayed (decide parts (remote_query q) d).1)
    exchange_relays s q d back trust named =
        let known = hop_caller s q.tenant ∙ trusted s q.tenant trust named in
        as_served s q d
        ∙ ap heard (
            served s hop_metadata q.tenant q.tenant (λ t. record (remote_query q) { tenant = t }) d
              known)
        ∙ ap (λ r. ((decide parts (remote_query q) d).0, r))
            (received_reply back q.tenant parts.node (decide parts (remote_query q) d).1)

    -- A peer that does not trust the tenant field refuses every forwarded check, since it comes
    -- without a key: nothing changes there, and the asking node always decides itself.
    pub exchange_refused :
        (s : GrpcServer) (q : Query) (d : Service S K)
        → s.trust_tenant ≡ false
        → text_eq q.tenant [] ≡ false
        → exchange parts s q d ≡ (d, peer_unavailable)
    unfolding received translate
    exchange_refused s q d trust named =
        let out = hop_caller s q.tenant ∙ untrusted s q.tenant trust named in
        as_served s q d
        ∙ ap heard (
            turned_away s hop_metadata q.tenant (λ t. record (remote_query q) { tenant = t }) d out)
