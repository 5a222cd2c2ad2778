-- ===== src/Grpcapi.antt =====
-- internal/grpcapi/server.go: the decision API over gRPC. `durationpb`, which turns durations into
-- messages, is a parameter; the text of a status is left out.
use distributed_rate_limiter.Prelude.{
  Bool, true, false, not, ◌&&◌, Option, none, some, List, [], ◌∷◌, Text, bytes, text_eq,
  if◌then◌else◌,
}
use distributed_rate_limiter.Prelude.Int.{ℤ, pos}
use distributed_rate_limiter.Limiter.Request.{Decision, retry_after}
use distributed_rate_limiter.Decide.{
  Query, Outcome, Degraded, Answer, answered, failed, Parts, Service, decide, DecideError,
  no_tenant, fenced, store_unavailable, cost_exceeds, missing, disabled, no_policy,
}

-- The status codes that the service answers with, or any other.
pub data Code : Type 0 where
  not_found permission_denied invalid_argument unavailable internal unauthenticated : Code
  other_code : Text → Code

-- `metadata.MD.Get`.
abbrev pub Metadata : Type 0
Metadata = Text → List Text

-- A nil resolver of keys is `none`.
pub record GrpcServer : Type 0 where
  pub keys : Option (Text → Option Text)
  pub trust_tenant : Bool

pub data Caller : Type 0 where
  caller : Text → Caller
  rejected : Code → Caller

-- The fields of `CheckRequest`; a `GetQuotaRequest` has no cost.
pub record CheckRequest : Type 0 where
  pub tenant_id : Text
  pub cost : ℤ
  pub method : Text
  pub path : Text

abbrev head_of : List Text → Text
head_of [] = []
head_of (v ∷ vs) = v

-- `firstValue`.
unfoldable pub first_value : Metadata → List Text → Text
first_value md [] = []
first_value md (k ∷ ks) =
    let rest = first_value md ks in if text_eq (head_of (md k)) [] then rest else head_of (md k)

-- `tenant` without a key.
unfoldable pub named_caller : GrpcServer → Text → Caller
named_caller s field =
    if not (text_eq field []) && s.trust_tenant
    then caller field
    else if not (text_eq field [])
    then rejected unauthenticated
    else rejected invalid_argument

abbrev presented_key : Metadata → Text
presented_key md = first_value md (bytes "x-api-key" ∷ bytes "api-key" ∷ [])

-- `tenant`.
unfoldable pub caller_of : GrpcServer → Metadata → Text → Caller
unfolding named_caller first_value
caller_of s md field = elim s.keys [
  | none ↦ named_caller s field
  | some tenant_for_key ↦
      if text_eq (presented_key md) []
      then named_caller s field
      else elim (tenant_for_key (presented_key md)) [
        | none ↦ rejected unauthenticated
        | some t ↦ caller t
      ]
]

-- `isForwardedHop`.
unfoldable pub is_forwarded_hop : Metadata → Bool
unfolding first_value
is_forwarded_hop md = not (text_eq (first_value md (bytes "x-ratelimit-hop" ∷ [])) [])

-- `statusFor`.
unfoldable pub status_for : DecideError → Code
status_for missing = not_found
status_for disabled = permission_denied
status_for cost_exceeds = invalid_argument
status_for no_tenant = invalid_argument
status_for fenced = unavailable
status_for store_unavailable = unavailable
status_for no_policy = internal

pub record LimitState (D : Type 0) : Type 0 where
  pub name : Text
  pub limit : ℤ
  pub remaining : ℤ
  pub retry_after : D
  pub reset_after : D
  pub allowed : Bool

pub record Quota (D : Type 0) : Type 0 where
  pub allowed : Bool
  pub tenant_id : Text
  pub policy : Text
  pub node : Text
  pub limiting : Text
  pub retry_after : D
  pub limits : List (LimitState D)
  pub degraded : Option Degraded

pub data RpcReply (D : Type 0) : Type 0 where
  quota : Quota D → RpcReply D
  status : Code → RpcReply D

module _ {D : Type 0} (duration_of : ℤ → D) where
  -- The loop of `quotaOf`.
  unfoldable pub limit_states : List Decision → List (LimitState D)
  limit_states [] = []
  limit_states (d ∷ ds) =
      record {
        name = d.name;
        limit = d.limit;
        remaining = d.remaining;
        retry_after = duration_of d.retry_after;
        reset_after = duration_of d.reset_after;
        allowed = d.allowed;
      }
      ∷ limit_states ds

  -- `quotaOf`.
  unfoldable pub quota_of : Text → Text → Outcome → Quota D
  unfolding limit_states
  quota_of t node out = record {
    allowed = out.result.allowed;
    tenant_id = t;
    policy = out.policy.name;
    node = if out.forwarded && not (text_eq out.owner []) then out.owner else node;
    limiting = out.result.limiting;
    retry_after = duration_of (retry_after out.result);
    limits = limit_states out.result.decisions;
    degraded = out.degraded;
  }

  -- What both methods answer.
  unfoldable pub reply_for : Text → Text → Answer → RpcReply D
  unfolding quota_of status_for
  reply_for t node (answered out) = quota (quota_of t node out)
  reply_for t node (failed e p) = status (status_for e)

  module _ {S K : Type 0} (parts : Parts S K) where
    -- `Check` and `GetQuota`, which differ in the query.
    unfoldable pub serve :
        GrpcServer → Metadata → Text → (Text → Query) → Service S K → Service S K × RpcReply D
    unfolding caller_of reply_for
    serve s md field query d = elim (caller_of s md field) [
      | rejected c ↦ (d, status c)
      | caller t ↦ let (d', a) = decide parts (query t) d in (d', reply_for t parts.node a)
    ]

    -- `Check`.
    unfoldable pub rpc_check :
        GrpcServer → Metadata → CheckRequest → Service S K → Service S K × RpcReply D
    unfolding serve is_forwarded_hop
    rpc_check s md req d =
        serve s md req.tenant_id
          (λ t. record {
            tenant = t;
            method = req.method;
            path = req.path;
            cost = req.cost;
            peek = false;
            forwarded = is_forwarded_hop md;
          })
          d

    -- `GetQuota`.
    unfoldable pub rpc_get_quota :
        GrpcServer → Metadata → CheckRequest → Service S K → Service S K × RpcReply D
    unfolding serve is_forwarded_hop
    rpc_get_quota s md req d =
        serve s md req.tenant_id
          (λ t. record {
            tenant = t;
            method = req.method;
            path = req.path;
            cost = pos 0;
            peek = true;
            forwarded = is_forwarded_hop md;
          })
          d
