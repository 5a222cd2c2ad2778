-- ===== src/Gateway/Tenancy.antt =====
-- Whose quota a request is charged to.
use distributed_rate_limiter.Prelude.{
  ◌≡◌, ◌≢◌, ◌⊎◌, inl, inr, refl, ap, ◌∙◌, arith, true, Bool, false, Option, none, some, List, [],
  ◌∷◌, Text, bytes, text_eq, text_eq_iff, ltb, length, Bool-cases, Option-cases,
}
use distributed_rate_limiter.Prelude.Int.{ℤ}
use distributed_rate_limiter.Auth.{
  Headers, Authenticator, AuthResult, Libraries, granted, bad_credentials, no_credentials, tenant,
  is_enabled, tenant_by_token, tenant_from_jwt, api_key_from, bearer_from, jwt_options,
}
use distributed_rate_limiter.Auth.Credentials.{IsEntitled, tenant-IsEntitled}
use distributed_rate_limiter.Config.{Route}
use distributed_rate_limiter.Policy.{Policy}
use distributed_rate_limiter.Decide.{Outcome, answered, Parts, Service, decide}
use distributed_rate_limiter.Gateway.{
  HttpRequest, Server, auth_error, write_auth_error, resolve_tenant, named_tenant, resolved,
  unresolved, write_error,
}
use distributed_rate_limiter.Gateway.Surface.{handle_check}
use distributed_rate_limiter.Gateway.Proxy.{responded, match, handle_proxy, proxy_query}

-- Why a request is charged to a tenant: its credentials entitle it to the tenant, or it presents
-- none, and the header that names the tenant is trusted.
pub data IsChargedTo (lib : Libraries) (s : Server) (r : HttpRequest) (t : Text) : Type 0 where
  by_credentials :
      (a : Authenticator) → s.authn ≡ some a → IsEntitled lib a r.headers t → IsChargedTo lib s r t
  by_header :
      s.trust_tenant_header ≡ true
      → r.headers (bytes "X-Tenant-ID") ≡ t
      → t ≢ []
      → ((a : Authenticator)
          → s.authn ≡ some a
          → is_enabled a ≡ true
          → tenant lib a r.headers ≡ no_credentials)
      → IsChargedTo lib s r t

named :
    (s : Server) (r : HttpRequest) (t : Text)
    → named_tenant s r ≡ resolved t
    → (s.trust_tenant_header ≡ true) × (r.headers (bytes "X-Tenant-ID") ≡ t) × (t ≢ [])
unfolding named_tenant
named s r t h = elim (Bool-cases s.trust_tenant_header) [
  | inr e ↦ elim (Option-cases s.authn) [
    | inl x ↦ cc
    | inr (a, x) ↦ elim (Bool-cases (is_enabled a)) [ inl y ↦ cc | inr y ↦ cc ]
  ]
  | inl e ↦ elim (Bool-cases (text_eq (r.headers (bytes "X-Tenant-ID")) [])) [
    | inl x ↦ cc
    | inr x ↦
        let same : r.headers (bytes "X-Tenant-ID") ≡ t = cc in
        (e, same, λ y. cc ((text_eq_iff (r.headers (bytes "X-Tenant-ID")) []).1 (same ∙ y)))
  ]
]

AuthResult-cases :
    (o : AuthResult)
    → ((t : Text) × (o ≡ granted t)) ⊎ ((o ≡ bad_credentials) ⊎ (o ≡ no_credentials))
AuthResult-cases (granted t) = inl (t, refl)
AuthResult-cases bad_credentials = inr (inl refl)
AuthResult-cases no_credentials = inr (inr refl)

-- A request is charged to a tenant only by credentials that entitle it to that tenant, or by a
-- trusted header when it presents no credentials: a wrong key or token never falls back on the header.
pub resolve_tenant-IsChargedTo :
    (lib : Libraries) (s : Server) (r : HttpRequest) (t : Text)
    → resolve_tenant lib s r ≡ resolved t
    → IsChargedTo lib s r t
unfolding resolve_tenant
resolve_tenant-IsChargedTo lib s r t h = elim (Option-cases s.authn) [
  | inl x ↦ let (trust, same, some_) = named s r t (cc) in by_header trust same some_ (λ a e on. cc)
  | inr (a, x) ↦ elim (Bool-cases (is_enabled a)) [
    | inr off ↦
        let (trust, same, some_) = named s r t (cc) in
        by_header trust same some_ (λ b e on. let same_a : b ≡ a = cc in cc (ap is_enabled same_a))
    | inl on ↦ elim (AuthResult-cases (tenant lib a r.headers)) [
      | inl (u, y) ↦
          let same : u ≡ t = cc in
          by_credentials a x (tenant-IsEntitled lib a r.headers t (rw (← same) y))
      | inr (inl y) ↦ cc
      | inr (inr y) ↦
          let (trust, same, some_) = named s r t (cc) in
          by_header trust same some_ (λ b e on'. let same_a : b ≡ a = cc in rw same_a y)
    ]
  ]
]

-- The standard library's reverse proxy: the headers that it sends of those it is given, and whether
-- the value of a `Connection` header names a header. It leaves out a header that is named so.
pub record Transport : Type 0 where
  pub outgoing : Headers → Headers
  pub names : Text → Text → Bool

-- What it documents of the three headers: a tenant that `Connection` does not name is sent, and
-- no key or token is made up.
pub record IsReverseProxy (T : Transport) : Type 0 where
  pub tenant_sent :
      (h : Headers)
      → T.names (h (bytes "Connection")) (bytes "X-Tenant-ID") ≡ false
      → T.outgoing h (bytes "X-Tenant-ID") ≡ h (bytes "X-Tenant-ID")
  pub no_key_made :
      (h : Headers) → h (bytes "X-API-Key") ≡ [] → T.outgoing h (bytes "X-API-Key") ≡ []
  pub no_token_made :
      (h : Headers) → h (bytes "Authorization") ≡ [] → T.outgoing h (bytes "Authorization") ≡ []

-- What an upstream is sent, and why, when the reverse proxy is given the headers `h`.
pub record IsPassedOn {S K : Type 0} (parts : Parts S K) (lib : Libraries) (T : Transport)
    (s : Server) (r : HttpRequest) (d : Service S K) (h : Headers) : Type 0 where
  pub tenant : Text
  pub charged : IsChargedTo lib s r tenant
  pub told :
      T.names (r.headers (bytes "Connection")) (bytes "X-Tenant-ID") ≡ false
      → T.outgoing h (bytes "X-Tenant-ID") ≡ tenant
  pub no_key : T.outgoing h (bytes "X-API-Key") ≡ []
  pub no_token : T.outgoing h (bytes "Authorization") ≡ []
  pub cost : ℤ
  pub out : Outcome
  pub decided : (decide parts (proxy_query r tenant cost) d).1 ≡ answered out
  pub allowed : out.result.allowed ≡ true

-- A caller's credentials are wrong: it presents a key to a gateway with keys, and the key is unknown;
-- or it presents no key, or the gateway has none, and it presents a token to a gateway with a
-- secret, and the token is not valid or names no tenant.
pub data IsWrong (lib : Libraries) (a : Authenticator) (h : Headers) : Type 0 where
  unknown_key :
      (resolve : Text → Option Text)
      → a.keys ≡ some resolve
      → api_key_from lib h ≢ []
      → resolve (api_key_from lib h) ≡ none
      → IsWrong lib a h
  bad_token :
      (a.keys ≡ none) ⊎ (api_key_from lib h ≡ [])
      → a.jwt_secret ≢ []
      → bearer_from lib h ≢ []
      → ((claims : Text → Text)
          → lib.parse_jwt (jwt_options a) (bearer_from lib h) ≡ some claims
          → claims a.tenant_claim ≡ [])
      → IsWrong lib a h

non_empty : (t : Text) → t ≢ [] → ltb 0 (length t) ≡ true
non_empty [] h = elim (h refl) [ ]
non_empty (b ∷ t) h = ground arith

module _ (lib : Libraries) (a : Authenticator) (h : Headers) where
  bad_token-tenant :
      a.jwt_secret ≢ []
      → bearer_from lib h ≢ []
      → ((claims : Text → Text)
          → lib.parse_jwt (jwt_options a) (bearer_from lib h) ≡ some claims
          → claims a.tenant_claim ≡ [])
      → tenant_by_token lib a h ≡ bad_credentials
  unfolding tenant_by_token tenant_from_jwt
  bad_token-tenant secret presented bad =
      let on = non_empty a.jwt_secret secret in
      let shown : text_eq (bearer_from lib h) [] ≡ false =
        ground (arith, text_eq_iff (bearer_from lib h) [], presented) in
      elim (Option-cases (lib.parse_jwt (jwt_options a) (bearer_from lib h))) [
        | inl y ↦ rw (tenant_by_token, on, shown, tenant_from_jwt, y) refl
        | inr (claims, y) ↦
            let empty : text_eq (claims a.tenant_claim) [] ≡ true =
              (text_eq_iff (claims a.tenant_claim) []).1 (bad claims y) in
            rw (tenant_by_token, on, shown, tenant_from_jwt, y, empty) refl
      ]

  wrong-tenant : IsWrong lib a h → tenant lib a h ≡ bad_credentials
  unfolding tenant
  wrong-tenant (unknown_key resolve keys presented unknown) =
      let shown : text_eq (api_key_from lib h) [] ≡ false =
        ground (arith, text_eq_iff (api_key_from lib h) [], presented) in
      rw (tenant, keys, shown, unknown) refl
  wrong-tenant (bad_token (inl no_keys) secret presented bad) =
      rw (tenant, no_keys) (bad_token-tenant secret presented bad)
  wrong-tenant (bad_token (inr no_key) secret presented bad) =
      let none_shown : text_eq (api_key_from lib h) [] ≡ true =
        (text_eq_iff (api_key_from lib h) []).1 no_key in
      elim (Option-cases a.keys) [
        | inl off ↦ rw (tenant, off) (bad_token-tenant secret presented bad)
        | inr (resolve, on) ↦ rw (tenant, on, none_shown) (bad_token-tenant secret presented bad)
      ]

enabled :
    (lib : Libraries) (a : Authenticator) (h : Headers)
    → tenant lib a h ≡ bad_credentials
    → is_enabled a ≡ true
unfolding tenant is_enabled tenant_by_token
enabled lib a h e = elim (Option-cases a.keys) [
  | inr (k, x) ↦ ground arith
  | inl x ↦ elim (Bool-cases (ltb 0 (length a.jwt_secret))) [ inl y ↦ ground arith | inr y ↦ cc ]
]

refuses :
    (lib : Libraries) (s : Server) (a : Authenticator) (r : HttpRequest)
    → s.authn ≡ some a
    → tenant lib a r.headers ≡ bad_credentials
    → resolve_tenant lib s r ≡ unresolved (auth_error bad_credentials)
unfolding resolve_tenant
refuses lib s a r x bad = let on = enabled lib a r.headers bad in rw (x, on, bad) refl

-- Wrong credentials are refused with 401 before anything is decided, by both handlers, whatever
-- tenant the header names and whether it is trusted or not: an unknown key, also beside a valid
-- token, where the gateway has keys; and, without a key to check, a token that is not valid or
-- names no tenant, where the gateway has a secret.
pub bad_credentials-refused :
    {S K : Type 0} (parts : Parts S K) (lib : Libraries) (s : Server) (a : Authenticator)
    (routes : List Route) (m : Route) (r : HttpRequest) (d : Service S K)
    → s.authn ≡ some a
    → IsWrong lib a r.headers
    → match r.path routes ≡ some m
    → (handle_check parts lib s r d ≡ (d, write_error 401 (bytes "bad_credentials")))
      × (handle_proxy parts lib s (some routes) r d
          ≡ (d, responded (write_error 401 (bytes "bad_credentials"))))
unfolding handle_check handle_proxy write_auth_error
bad_credentials-refused parts lib s a routes m r d x wrong y =
    let refused : resolve_tenant lib s r ≡ unresolved (auth_error bad_credentials) =
      refuses lib s a r x (wrong-tenant lib a r.headers wrong) in
    (
      rw (handle_check, refused, write_auth_error) refl,
      rw (handle_proxy, y, refused, write_auth_error) refl,
    )
