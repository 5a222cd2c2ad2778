-- ===== src/Gateway/Proxy.antt =====
-- internal/gateway/proxy.go: the data path. What `ReverseProxy` does with a request is not modelled:
-- a request that is passed on is the route it takes and the headers it has.
use distributed_rate_limiter.Prelude.{
  Bool, false, not, ◌&&◌, ◌||◌, ltb, Option, none, some, List, [], ◌∷◌, ◌++◌, Text, bytes, text_eq,
  length, if◌then◌else◌,
}
use distributed_rate_limiter.Prelude.Int.{ℤ}
use distributed_rate_limiter.Decide.{Query, Answer, answered, failed, Parts, Service, decide}
use distributed_rate_limiter.Policy.{has_prefix}
use distributed_rate_limiter.Auth.{Libraries, Headers, after}
use distributed_rate_limiter.Config.{Route}
use distributed_rate_limiter.Gateway.{
  HttpRequest, Response, Server, resolve_tenant, resolved, unresolved, request_cost, cost_of,
  bad_cost, write_error, write_auth_error, write_decide_error, rate_limit_headers, response_for,
  check_body,
}

-- The loop of `match`, with the best route so far; a route is the one of the configuration.
unfoldable pub match_from : Option Route → Text → List Route → Option Route
unfolding has_prefix
match_from best path [] = best
match_from best path (r ∷ rs) =
    let skip = match_from best path rs in
    let take = match_from (some r) path rs in
    if not (has_prefix path r.path_prefix) then skip else elim best [
      | none ↦ take
      | some b ↦ if ltb (length b.path_prefix) (length r.path_prefix) then take else skip
    ]

-- `match`.
unfoldable pub match : Text → List Route → Option Route
unfolding match_from
match path rs = match_from none path rs

-- `strings.HasSuffix(s, "/")`.
unfoldable pub ends_in_slash : Text → Bool
ends_in_slash [] = false
ends_in_slash (b ∷ []) = text_eq (b ∷ []) (bytes "/")
ends_in_slash (b ∷ c ∷ s) = ends_in_slash (c ∷ s)

-- `singleJoin`.
unfoldable pub single_join : Text → Text → Text
unfolding ends_in_slash after
single_join base rest =
    if text_eq base [] || text_eq base (bytes "/")
    then rest
    else if ends_in_slash base && has_prefix rest (bytes "/")
    then base ++ after 1 rest
    else if not (ends_in_slash base) && not (has_prefix rest (bytes "/"))
    then base ++ (bytes "/" ++ rest)
    else base ++ rest

-- `strings.TrimPrefix`.
unfoldable pub trim_prefix : Text → Text → Text
unfolding after
trim_prefix s prefix = if has_prefix s prefix then after (length prefix) s else s

-- The path that `Rewrite` gives to a request of a route with a strip prefix, from the path of the
-- target.
unfoldable pub stripped_path : Text → Text → Text → Text
unfolding single_join trim_prefix
stripped_path target strip path =
    single_join target
      (if text_eq (trim_prefix path strip) [] then bytes "/" else trim_prefix path strip)

-- What becomes of a request: a response of the gateway's own, or it goes to the route's upstream with
-- these headers, and the response to it has those headers already.
pub data Handled : Type 0 where
  responded : Response → Handled
  proxied : Route → Headers → List (Text × Text) → Handled

-- The headers that the upstream sees.
unfoldable pub upstream_headers : Text → Headers → Headers
upstream_headers t h name =
    if text_eq name (bytes "X-API-Key") || text_eq name (bytes "Authorization")
    then []
    else if text_eq name (bytes "X-Tenant-ID")
    then t
    else h name

abbrev pub proxy_query : HttpRequest → Text → ℤ → Query
proxy_query r t cost = record {
  tenant = t;
  method = r.method;
  path = r.path;
  cost = cost;
  peek = false;
  forwarded = false;
}

-- The end of `handleProxy`.
unfoldable pub answer_proxy : Server → HttpRequest → Route → Text → Answer → Handled
unfolding upstream_headers
answer_proxy s r m t (failed e p) = responded (write_decide_error s t e)
answer_proxy s r m t (answered out) =
    if out.result.allowed
    then proxied m (upstream_headers t r.headers) (rate_limit_headers out.result)
    else responded (record {
      status = 429;
      set = rate_limit_headers out.result;
      body = check_body (record (response_for s t out) { route = m.name });
    })

module _ {S K : Type 0} (parts : Parts S K) (lib : Libraries) where
  -- `handleProxy`, with the routes of the proxy, which may be nil.
  unfoldable pub handle_proxy :
      Server → Option (List Route) → HttpRequest → Service S K → Service S K × Handled
  unfolding match answer_proxy
  handle_proxy s proxy r d = elim proxy [
    | none ↦ (d, responded (write_error 404 (bytes "no_route")))
    | some routes ↦ elim (match r.path routes) [
      | none ↦ (d, responded (write_error 404 (bytes "no_route")))
      | some m ↦ elim (resolve_tenant lib s r) [
        | unresolved e ↦ (d, responded (write_auth_error e))
        | resolved t ↦ elim (request_cost r) [
          | bad_cost ↦ (d, responded (write_error 400 (bytes "bad_cost")))
          | cost_of c ↦
              let (d', a) = decide parts (proxy_query r t c) d in (d', answer_proxy s r m t a)
        ]
      ]
    ]
  ]
