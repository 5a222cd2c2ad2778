-- ===== src/Gateway/Tests.antt =====
-- Requests to a gateway with one route, with a key, a wrong key and a trusted header.
use distributed_rate_limiter.Policy.{has_prefix}
use distributed_rate_limiter.Prelude.{
  ◌≡◌, inl, refl, sym, ◌∙◌, true, Option, none, some, List, [], ◌∷◌, Text, bytes, text_eq,
  if◌then◌else◌,
}
use distributed_rate_limiter.Auth.{Headers, Authenticator, Libraries, tenant, api_key_from}
use distributed_rate_limiter.Config.{Route}
use distributed_rate_limiter.Config.Checks.{Url}
use distributed_rate_limiter.Config.RouteChecks.{validate_routes}
use distributed_rate_limiter.Decide.Examples.{example_parts, example_service}
use distributed_rate_limiter.Gateway.{HttpRequest, Server, resolve_tenant, resolved, write_error}
use distributed_rate_limiter.Gateway.Surface.{handle_check}
use distributed_rate_limiter.Gateway.Proxy.{match, handle_proxy, responded}
use distributed_rate_limiter.Gateway.Routes.{IsRoute, takes}
use distributed_rate_limiter.Gateway.Tenancy.{Transport, unknown_key, bad_credentials-refused}

abbrev plain : Libraries
plain = record { trim_space = λ t. t; equal_fold = text_eq; parse_jwt = λ o t. none }

abbrev one_key : Authenticator
one_key = record {
  keys = some (λ k. if text_eq k (bytes "secret") then some (bytes "acme") else none);
  jwt_secret = [];
  issuer = [];
  audience = [];
  tenant_claim = bytes "tid";
}

abbrev with_key : Text → Headers
with_key key name =
    if text_eq name (bytes "X-API-Key")
    then key
    else if text_eq name (bytes "X-Tenant-ID")
    then bytes "other"
    else []

abbrev request : Text → HttpRequest
request key = record {
  headers = with_key key;
  parameter = λ name. [];
  method = bytes "GET";
  path = bytes "/api/x";
}

abbrev server : Server
server = record { node = bytes "a"; trust_tenant_header = true; authn = some one_key }

abbrev wide : Route
wide = record {
  name = bytes "wide";
  path_prefix = bytes "/";
  upstream = bytes "http://a";
  strip_prefix = [];
}

abbrev api : Route
api = record {
  name = bytes "api";
  path_prefix = bytes "/api";
  upstream = bytes "http://a";
  strip_prefix = [];
}

abbrev routes : List Route
routes = wide ∷ api ∷ []

abbrev one_url : Text → Option Url
one_url t = some (record { scheme = bytes "http"; host = bytes "a" })

named : resolve_tenant plain server (request []) ≡ resolved (bytes "other")
unfolding resolve_tenant tenant text_eq
named = refl

-- A reverse proxy for which a `Connection` header names one header.
abbrev one_hop : Transport
one_hop = record {
  outgoing = λ h name. if text_eq (h (bytes "Connection")) name then [] else h name;
  names = text_eq;
}

guessed : api_key_from plain (with_key (bytes "guess")) ≡ bytes "guess"
unfolding api_key_from text_eq
guessed = refl

guess_unknown :
    (if text_eq (api_key_from plain (with_key (bytes "guess"))) (bytes "secret")
      then some (bytes "acme")
      else none)
    ≡ none
unfolding api_key_from text_eq
guess_unknown = refl

routed : match (bytes "/api/x") routes ≡ some api
unfolding match
routed = refl

bad_credentials-refused_example :
    (handle_check example_parts plain server (request (bytes "guess")) example_service
      ≡ (example_service, write_error 401 (bytes "bad_credentials")))
    × (handle_proxy example_parts plain server
          (some routes)
          (request (bytes "guess"))
          example_service
        ≡ (example_service, responded (write_error 401 (bytes "bad_credentials"))))
bad_credentials-refused_example =
    bad_credentials-refused example_parts plain server one_key routes api (request (bytes "guess"))
      example_service refl (unknown_key _ refl (λ e. cc (sym guessed ∙ e)) guess_unknown) routed

routes_pass : validate_routes one_url [] [] routes ≡ none
unfolding validate_routes text_eq
routes_pass = refl

listed : IsRoute wide routes
unfolding IsRoute
listed = inl refl

begins : takes (bytes "/api/x") wide ≡ true
unfolding has_prefix
begins = refl
