-- ===== src/Admin/Store.antt =====
-- The write side of the policy store (internal/gateway/admin.go's AdminStore), which the handlers
-- take as an interface, and the state of a gateway that they change.
use distributed_rate_limiter.Prelude.{ℕ, Bool, Option, List, Text}
use distributed_rate_limiter.Prelude.Int.{ℤ}
use distributed_rate_limiter.Cluster.Members.{Node}
use distributed_rate_limiter.Policy.Cache.{Cache}
use distributed_rate_limiter.Cluster.Fsm.{Fsm}
use distributed_rate_limiter.Cluster.Consensus.{Log}
use distributed_rate_limiter.Admin.{TenantRecord, PolicyRecord, PolicyDto}

-- `ErrTenantNotFound`, `ErrConflict`, and any other error.
pub data StoreError : Type 0 where
  tenant_missing conflict store_failed : StoreError

pub data Listed {ℓ} (A : Type ℓ) : Type ℓ where
  listed : A → Listed A
  unlisted : StoreError → Listed A

-- Each write returns the store and its error, if it has one.
pub record AdminStore : Type 1 where
  pub State : Type 0
  pub tenants : State → Listed (List TenantRecord)
  pub upsert_tenant : State → TenantRecord → State × Option StoreError
  pub delete_tenant : State → Text → State × Option StoreError
  pub policies : State → Listed (List PolicyRecord)
  pub upsert_policy : State → PolicyRecord → State × Option StoreError
  pub create_key : State → Text → Text → Text → Text → State × Option StoreError
  pub revoke_key : State → Text → Text → State × Option StoreError

-- What the handlers change: the store, this node's cache of policies if it has one, and the
-- replicated state.
pub record Managed (S : Type 0) : Type 0 where
  pub store : S
  pub cache : Option Cache
  pub machine : Fsm

-- How the server is set up: the digest of the admin token if there is one, whether it has a store
-- to write to, what the log says to a proposal if it has one, and whether policies are left
-- unfenced all the same.
pub record Setup : Type 0 where
  pub token : Option Text
  pub has_store : Bool
  pub control : Option Log
  pub no_policy_gen : Bool

pub data Body : Type 0 where
  error_body : Text → Body
  elsewhere_body : Text → Text → Body
  unfenced_body : Text → Text → Body
  unminted_body : Body
  tenants_body : List TenantRecord → Body
  tenant_body : TenantRecord → Body
  policies_body : List PolicyDto → Body
  policy_body : PolicyDto → Body
  key_body : Text → Text → Text → Body
  members_body : List Node → ℕ → ℤ → Body
  change_body : Bool → ℕ → ℕ → Body
  no_body : Body

-- A response, and whether it asks for credentials.
pub record Response : Type 0 where
  pub status : ℕ
  pub challenge : Bool
  pub body : Body
