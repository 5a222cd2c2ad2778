-- ===== src/Auth/Credentials.antt =====
-- How a request's credentials are told from a tenant that it merely names.
use distributed_rate_limiter.Prelude.{
  ◌≡◌, ◌⊎◌, inl, inr, arith, true, not, ◌&&◌, ltb, Option, some, [], Text, text_eq, length,
  Bool-cases, Option-cases,
}
use distributed_rate_limiter.Auth.{
  Headers, Authenticator, Libraries, granted, api_key_from, bearer_from, tenant, tenant_by_token,
  tenant_from_jwt, jwt_options,
}

-- What entitles a caller to a tenant: a key that resolves to it, or a token, valid under HS256 with an
-- expiry, that names it.
pub record IsEntitled (lib : Libraries) (a : Authenticator) (h : Headers) (t : Text) : Type 0 where
  pub by :
      ((resolve : Text → Option Text) × (a.keys ≡ some resolve)
        × (resolve (api_key_from lib h) ≡ some t))
      ⊎ ((claims : Text → Text) × (lib.parse_jwt (jwt_options a) (bearer_from lib h) ≡ some claims)
          × (claims a.tenant_claim ≡ t)
          × (ltb 0 (length a.jwt_secret) ≡ true))

by_token :
    (lib : Libraries) (a : Authenticator) (h : Headers) (t : Text)
    → tenant_by_token lib a h ≡ granted t
    → IsEntitled lib a h t
unfolding tenant_by_token tenant_from_jwt
by_token lib a h t e =
    elim (Bool-cases (ltb 0 (length a.jwt_secret) && not (text_eq (bearer_from lib h) []))) [
      | inr x ↦ cc
      | inl x ↦ elim (Option-cases (lib.parse_jwt (jwt_options a) (bearer_from lib h))) [
        | inl y ↦ cc
        | inr (claims, y) ↦ elim (Bool-cases (text_eq (claims a.tenant_claim) [])) [
          | inl z ↦ cc
          | inr z ↦ record { by = inr (claims, y, cc, ground arith) }
        ]
      ]
    ]

-- A tenant is granted only to a caller that is entitled to it.
pub tenant-IsEntitled :
    (lib : Libraries) (a : Authenticator) (h : Headers) (t : Text)
    → tenant lib a h ≡ granted t
    → IsEntitled lib a h t
unfolding tenant
tenant-IsEntitled lib a h t e = elim (Option-cases a.keys) [
  | inl none_ ↦ by_token lib a h t (cc)
  | inr (resolve, some_) ↦ elim (Bool-cases (text_eq (api_key_from lib h) [])) [
    | inl x ↦ by_token lib a h t (cc)
    | inr x ↦ elim (Option-cases (resolve (api_key_from lib h))) [
      | inl y ↦ cc
      | inr (u, y) ↦ record { by = inl (resolve, some_, cc) }
    ]
  ]
]
