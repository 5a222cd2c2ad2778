-- ===== src/Gateway/Surface.antt =====
-- internal/gateway/server.go: `handleCheck`.
use distributed_rate_limiter.Prelude.{false, ◌||◌, Text, bytes, text_eq, if◌then◌else◌}
use distributed_rate_limiter.Prelude.Int.{ℤ}
use distributed_rate_limiter.Decide.{Query, Answer, answered, failed, Parts, Service, decide}
use distributed_rate_limiter.Auth.{Libraries}
use distributed_rate_limiter.Gateway.{
  HttpRequest, Response, Server, resolve_tenant, resolved, unresolved, request_cost, cost_of,
  bad_cost, write_error, write_auth_error, write_decide_error, rate_limit_headers, response_for,
  check_body,
}

-- The query that `handleCheck` makes.
abbrev pub check_query : HttpRequest → Text → ℤ → Query
check_query r t cost = record {
  tenant = t;
  method = r.parameter (bytes "method");
  path = r.parameter (bytes "path");
  cost = cost;
  peek =
      text_eq (r.parameter (bytes "peek")) (bytes "1")
      || text_eq (r.parameter (bytes "peek")) (bytes "true");
  forwarded = false;
}

-- The end of `handleCheck`.
unfoldable pub answer_check : Server → Text → Answer → Response
answer_check s t (failed e p) = write_decide_error s t e
answer_check s t (answered out) = record {
  status = if out.result.allowed then 200 else 429;
  set = rate_limit_headers out.result;
  body = check_body (response_for s t out);
}

module _ {S K : Type 0} (parts : Parts S K) (lib : Libraries) where
  -- `handleCheck`.
  unfoldable pub handle_check : Server → HttpRequest → Service S K → Service S K × Response
  unfolding answer_check
  handle_check s r d = elim (resolve_tenant lib s r) [
    | unresolved e ↦ (d, write_auth_error e)
    | resolved t ↦ elim (request_cost r) [
      | bad_cost ↦ (d, write_error 400 (bytes "bad_cost"))
      | cost_of c ↦ let (d', a) = decide parts (check_query r t c) d in (d', answer_check s t a)
    ]
  ]
