-- ===== src/Gateway.antt =====
-- internal/gateway/server.go: the decision API over HTTP. The text of an error message is left out:
-- an error is its status and its code. The authenticator is the one of Auth, and the decisions are
-- those of Decide.
pub mod Numbers
pub mod Surface
pub mod Proxy
pub mod Tenancy
pub mod Waiting
pub mod Routes
mod Tests
use distributed_rate_limiter.Prelude.{
  ℕ, Bool, true, false, not, ◌||◌, Option, none, some, List, [], ◌∷◌, ◌++◌, Text, bytes, text_eq,
  if◌then◌else◌,
}
use distributed_rate_limiter.Prelude.Int.{ℤ, pos, ltb_ℤ, leb_ℤ, ◌==ℤ◌, add64, quot64, rem64}
use distributed_rate_limiter.Prelude.Format.{format_int}
use distributed_rate_limiter.Limiter.Request.{Decision, Result, retry_after, tightest}
use distributed_rate_limiter.Decide.{
  Outcome, Degraded, DecideError, no_tenant, fenced, store_unavailable, cost_exceeds, missing,
  disabled, no_policy,
}
use distributed_rate_limiter.Auth.{
  Headers, Authenticator, AuthResult, Libraries, granted, no_credentials, bad_credentials,
  is_enabled, tenant,
}
use distributed_rate_limiter.Gateway.Numbers.{parse_int}

-- What the handlers read of a request; a query parameter that is missing is the empty string.
pub record HttpRequest : Type 0 where
  pub headers : Headers
  pub parameter : Text → Text
  pub method : Text
  pub path : Text

pub record LimitResponse : Type 0 where
  pub name : Text
  pub limit : ℤ
  pub remaining : ℤ
  pub reset_ms : ℤ
  pub retry_after_ms : ℤ
  pub allowed : Bool

pub record CheckResponse : Type 0 where
  pub allowed : Bool
  pub tenant : Text
  pub policy : Text
  pub node : Text
  pub owner : Text
  pub forwarded : Bool
  pub route : Text
  pub limits : List LimitResponse
  pub limiting : Text
  pub retry_after_ms : ℤ
  pub degraded : Option Degraded

pub data Body : Type 0 where
  error_body : Text → Body
  check_body : CheckResponse → Body

-- A response: the status, the headers that are set in order, and the body.
pub record Response : Type 0 where
  pub status : ℕ
  pub set : List (Text × Text)
  pub body : Body

-- The part of the server that the decision path reads: its id, the switch for the tenant header, and
-- the authenticator, which may be nil.
pub record Server : Type 0 where
  pub node : Text
  pub trust_tenant_header : Bool
  pub authn : Option Authenticator

abbrev pub write_error : ℕ → Text → Response
write_error status code = record { status = status; set = []; body = error_body code }

pub data TenantError : Type 0 where
  auth_error : AuthResult → TenantError
  header_required not_configured : TenantError

pub data Resolved : Type 0 where
  resolved : Text → Resolved
  unresolved : TenantError → Resolved

-- `resolveTenant` past the credentials.
unfoldable pub named_tenant : Server → HttpRequest → Resolved
unfolding is_enabled
named_tenant s r =
    if s.trust_tenant_header
    then (if text_eq (r.headers (bytes "X-Tenant-ID")) []
        then unresolved header_required
        else resolved (r.headers (bytes "X-Tenant-ID")))
    else elim s.authn [
      | none ↦ unresolved not_configured
      | some a ↦
          if is_enabled a then unresolved (auth_error no_credentials) else unresolved not_configured
    ]

-- `resolveTenant`.
unfoldable pub resolve_tenant : Libraries → Server → HttpRequest → Resolved
unfolding named_tenant
resolve_tenant lib s r = elim s.authn [
  | none ↦ named_tenant s r
  | some a ↦
      if is_enabled a
      then elim (tenant lib a r.headers) [
        | granted t ↦ resolved t
        | bad_credentials ↦ unresolved (auth_error bad_credentials)
        | no_credentials ↦ named_tenant s r
      ]
      else named_tenant s r
]

pub data Cost : Type 0 where
  cost_of : ℤ → Cost
  bad_cost : Cost

-- `requestCost` of the string that it found.
unfoldable pub cost_from : Text → Cost
unfolding parse_int
cost_from raw = if text_eq raw [] then cost_of (pos 1) else elim (parse_int raw) [
  | none ↦ bad_cost
  | some c ↦ if ltb_ℤ c (pos 1) then bad_cost else cost_of c
]

-- `requestCost`.
unfoldable pub request_cost : HttpRequest → Cost
unfolding cost_from
request_cost r = cost_from (
    if text_eq (r.headers (bytes "X-RateLimit-Cost")) []
    then r.parameter (bytes "cost")
    else r.headers (bytes "X-RateLimit-Cost"))

-- `writeAuthError`.
unfoldable pub write_auth_error : TenantError → Response
write_auth_error (auth_error bad_credentials) = write_error 401 (bytes "bad_credentials")
write_auth_error (auth_error no_credentials) = record {
  status = 401;
  set = (bytes "WWW-Authenticate", bytes "Bearer realm=\"gateway\"") ∷ [];
  body = error_body (bytes "no_credentials");
}
write_auth_error (auth_error (granted t)) = write_error 400 (bytes "tenant_missing")
write_auth_error header_required = write_error 400 (bytes "tenant_missing")
write_auth_error not_configured = write_error 400 (bytes "tenant_missing")

-- The body when the store cannot be reached; its reason, the error's text, is left out.
abbrev pub no_answer : Server → Text → CheckResponse
no_answer s t = record {
  allowed = false;
  tenant = t;
  policy = [];
  node = s.node;
  owner = [];
  forwarded = false;
  route = [];
  limits = [];
  limiting = [];
  retry_after_ms = pos 0;
  degraded = some (record { reason = []; mode = bytes "closed" });
}

-- `writeDecideError`.
unfoldable pub write_decide_error : Server → Text → DecideError → Response
write_decide_error s t missing = write_error 404 (bytes "tenant_unknown")
write_decide_error s t disabled = write_error 403 (bytes "tenant_disabled")
write_decide_error s t cost_exceeds = write_error 400 (bytes "cost_too_large")
write_decide_error s t fenced = write_error 503 (bytes "node_behind")
write_decide_error s t no_tenant = write_error 400 (bytes "tenant_missing")
write_decide_error s t store_unavailable = record {
  status = 503;
  set = [];
  body = check_body (no_answer s t);
}
write_decide_error s t no_policy = write_error 503 (bytes "policy_unavailable")

-- `secondsCeil`; the remainder is by a positive number.
unfoldable pub seconds_ceil : ℤ → ℤ
seconds_ceil d = if leb_ℤ d (pos 0) then pos 0 else elim (rem64 d (pos 1000000000)) [
  | none ↦ pos 0
  | some r ↦
      if r ==ℤ pos 0 then quot64 d (pos 1000000000) else add64 (quot64 d (pos 1000000000)) (pos 1)
]

abbrev limit_headers : Option Decision → List (Text × Text)
limit_headers none = []
limit_headers (some d) =
    (bytes "X-RateLimit-Limit", format_int d.limit)
    ∷ (bytes "X-RateLimit-Remaining", format_int d.remaining)
    ∷ (bytes "X-RateLimit-Reset", format_int (seconds_ceil d.reset_after))
    ∷ []

-- `SetRateLimitHeaders`.
unfoldable pub rate_limit_headers : Result → List (Text × Text)
unfolding seconds_ceil
rate_limit_headers r =
    limit_headers (tightest r)
    ++ (if r.allowed
        then []
        else (bytes "Retry-After", format_int (seconds_ceil (retry_after r))) ∷ [])

-- `Milliseconds` of a duration.
abbrev pub milliseconds : ℤ → ℤ
milliseconds d = quot64 d (pos 1000000)

unfoldable pub limit_responses : List Decision → List LimitResponse
limit_responses [] = []
limit_responses (d ∷ ds) =
    record {
      name = d.name;
      limit = d.limit;
      remaining = d.remaining;
      reset_ms = milliseconds d.reset_after;
      retry_after_ms = milliseconds d.retry_after;
      allowed = d.allowed;
    }
    ∷ limit_responses ds

-- `responseFor`.
unfoldable pub response_for : Server → Text → Outcome → CheckResponse
unfolding limit_responses
response_for s t out = record {
  allowed = out.result.allowed;
  tenant = t;
  policy = out.policy.name;
  node = s.node;
  owner = out.owner;
  forwarded = out.forwarded;
  route = [];
  limits = limit_responses out.result.decisions;
  limiting = out.result.limiting;
  retry_after_ms = if out.result.allowed then pos 0 else milliseconds (retry_after out.result);
  degraded = out.degraded;
}
