-- ===== src/Auth.antt =====
-- internal/auth/auth.go: which tenant a request speaks for. The store of keys, the JWT library, and
-- `strings.TrimSpace` and `strings.EqualFold`, which go by Unicode, are parameters; so is SHA-256.
pub mod Credentials
use distributed_rate_limiter.Prelude.{
  ℕ, zero, suc, Bool, true, false, not, ◌&&◌, ◌||◌, ltb, Option, none, some, List, [], ◌∷◌, Text,
  bytes, text_eq, length, if◌then◌else◌,
}
use distributed_rate_limiter.Policy.{has_prefix}

-- What `http.Header.Get` answers for a name: the first value, or the empty string.
abbrev pub Headers : Type 0
Headers = Text → Text

-- The options that the JWT is parsed with; an issuer or audience that is not asked for is `none`.
pub record JwtOptions : Type 0 where
  pub methods : List Text
  pub expiration_required : Bool
  pub issuer : Option Text
  pub audience : Option Text
  pub secret : Text

-- A nil resolver of keys is `none`; it answers a tenant, or any error, which is `none`.
pub record Authenticator : Type 0 where
  pub keys : Option (Text → Option Text)
  pub jwt_secret : Text
  pub issuer : Text
  pub audience : Text
  pub tenant_claim : Text

pub data AuthResult : Type 0 where
  granted : Text → AuthResult
  no_credentials bad_credentials : AuthResult

-- `v[n:]` within the string.
unfoldable pub after : ℕ → Text → Text
after zero v = v
after (suc n) [] = []
after (suc n) (b ∷ v) = after n v

-- `v[:n]` within the string.
unfoldable pub upto : ℕ → Text → Text
upto zero v = []
upto (suc n) [] = []
upto (suc n) (b ∷ v) = b ∷ upto n v

-- `Enabled`.
unfoldable pub is_enabled : Authenticator → Bool
is_enabled a = elim a.keys [ none ↦ ltb 0 (length a.jwt_secret) | some k ↦ true ]

abbrev asked_for : Text → Option Text
asked_for t = if text_eq t [] then none else some t

-- The options of `tenantFromJWT`.
abbrev pub jwt_options : Authenticator → JwtOptions
jwt_options a = record {
  methods = bytes "HS256" ∷ [];
  expiration_required = true;
  issuer = asked_for a.issuer;
  audience = asked_for a.audience;
  secret = a.jwt_secret;
}

-- The standard library's functions by Unicode, and `jwt.Parse`: the string claims of a token that is
-- valid under the options, with the empty string for a claim that is missing or no string.
pub record Libraries : Type 0 where
  pub trim_space : Text → Text
  pub equal_fold : Text → Text → Bool
  pub parse_jwt : JwtOptions → Text → Option (Text → Text)

pub data AdminResult : Type 0 where
  admitted admin_disabled admin_no_credentials admin_bad_credentials : AdminResult

module _ (lib : Libraries) where
  -- `apiKeyFrom`.
  unfoldable pub api_key_from : Headers → Text
  unfolding has_prefix after
  api_key_from h =
      if not (text_eq (h (bytes "X-API-Key")) [])
      then h (bytes "X-API-Key")
      else if has_prefix (h (bytes "Authorization")) (bytes "ApiKey ")
      then lib.trim_space (after 7 (h (bytes "Authorization")))
      else []

  -- `bearerFrom`.
  unfoldable pub bearer_from : Headers → Text
  unfolding after upto
  bearer_from h =
      if ltb 7 (length (h (bytes "Authorization")))
        && lib.equal_fold (upto 7 (h (bytes "Authorization"))) (bytes "Bearer ")
      then lib.trim_space (after 7 (h (bytes "Authorization")))
      else []

  -- `tenantFromJWT`.
  unfoldable pub tenant_from_jwt : Authenticator → Text → AuthResult
  tenant_from_jwt a raw = elim (lib.parse_jwt (jwt_options a) raw) [
    | none ↦ bad_credentials
    | some claims ↦
        if text_eq (claims a.tenant_claim) []
        then bad_credentials
        else granted (claims a.tenant_claim)
  ]

  -- `Tenant` for a request without an API key.
  unfoldable pub tenant_by_token : Authenticator → Headers → AuthResult
  unfolding tenant_from_jwt bearer_from
  tenant_by_token a h =
      if ltb 0 (length a.jwt_secret) && not (text_eq (bearer_from h) [])
      then tenant_from_jwt a (bearer_from h)
      else no_credentials

  -- `Tenant`.
  unfoldable pub tenant : Authenticator → Headers → AuthResult
  unfolding tenant_by_token api_key_from
  tenant a h = elim a.keys [
    | none ↦ tenant_by_token a h
    | some tenant_for_key ↦
        if text_eq (api_key_from h) []
        then tenant_by_token a h
        else elim (tenant_for_key (api_key_from h)) [ none ↦ bad_credentials | some t ↦ granted t ]
  ]

  -- `AdminToken`, with the digest that is expected; an empty one is not configured.
  unfoldable pub new_admin_token : (Text → Text) → Text → Text
  new_admin_token sha256 token = if text_eq token [] then [] else sha256 token

  -- `AdminToken.Check`.
  unfoldable pub check_admin : (Text → Text) → Text → Headers → AdminResult
  unfolding bearer_from
  check_admin sha256 expected h =
      let presented =
        if text_eq (bearer_from h) [] then h (bytes "X-Admin-Token") else bearer_from h in
      if not (ltb 0 (length expected))
      then admin_disabled
      else if text_eq presented []
      then admin_no_credentials
      else if text_eq (sha256 presented) expected
      then admitted
      else admin_bad_credentials
