-- ===== src/Admin/Guard.antt =====
-- `requireAdminToken` and `requireAdmin` of internal/gateway/admin.go, in front of every handler.
use distributed_rate_limiter.Prelude.{
  ◌≡◌, ◌≢◌, refl, ◌⊎◌, inl, inr, Bool, true, false, not, Option, none, some, [], Text, bytes,
  if◌then◌else◌,
}
use distributed_rate_limiter.Auth.{
  Headers, Libraries, AdminResult, admitted, admin_disabled, admin_no_credentials,
  admin_bad_credentials, check_admin,
}
use distributed_rate_limiter.Cluster.State.{Command}
use distributed_rate_limiter.Admin.Store.{
  AdminStore, Managed, Setup, Response, error_body, members_body,
}
use distributed_rate_limiter.Admin.Edits.{
  Ask, list_tenants, list_policies, list_members, upsert_tenant, delete_tenant, create_key,
  revoke_key, upsert_policy, add_member, remove_member, refuse, told, put_tenant, put_policy,
  drop_tenant, drop_key, make_key, show_tenants, show_policies, join_member, leave_member,
}

abbrev disabled : Response
disabled = refuse 501 (bytes "admin_disabled")

-- What a check of the token makes of a request: `none` to let it pass.
unfoldable pub gate : AdminResult → Option Response
gate admitted = none
gate admin_disabled = some disabled
gate admin_no_credentials =
    some (record { status = 401; challenge = true; body = error_body (bytes "unauthorised") })
gate admin_bad_credentials = some (refuse 401 (bytes "unauthorised"))

-- `requireAdminToken`.
unfoldable pub require_token : Libraries → (Text → Text) → Option Text → Headers → Option Response
unfolding gate
require_token lib sha256 none h = some disabled
require_token lib sha256 (some expected) h = gate (check_admin lib sha256 expected h)

-- What a check that does not admit says.
IsRefusal : Option Response → Type 0
IsRefusal o = (r : Response) × (o ≡ some r) × ((r.status ≡ 401) ⊎ (r.status ≡ 501))

gate-IsRefusal : (x : AdminResult) → x ≢ admitted → IsRefusal (gate x)
unfolding gate IsRefusal
gate-IsRefusal admitted h = absurd (h refl)
gate-IsRefusal admin_disabled h = (_, refl, inr refl)
gate-IsRefusal admin_no_credentials h = (_, refl, inl refl)
gate-IsRefusal admin_bad_credentials h = (_, refl, inl refl)

require_token-IsRefusal :
    (lib : Libraries) (sha256 : Text → Text) (token : Option Text) (h : Headers)
    → ((t : Text) → token ≡ some t → check_admin lib sha256 t h ≢ admitted)
    → IsRefusal (require_token lib sha256 token h)
unfolding require_token IsRefusal
require_token-IsRefusal lib sha256 none h closed = (_, refl, inr refl)
require_token-IsRefusal lib sha256 (some t) h closed =
    gate-IsRefusal (check_admin lib sha256 t h) (closed t refl)

-- The requests that change or list the membership.
unfoldable pub is_cluster : Ask → Bool
is_cluster list_members = true
is_cluster (add_member n) = true
is_cluster (remove_member id) = true
is_cluster list_tenants = false
is_cluster list_policies = false
is_cluster (upsert_tenant id t) = false
is_cluster (delete_tenant id) = false
is_cluster (create_key t b k) = false
is_cluster (revoke_key t p) = false
is_cluster (upsert_policy n d) = false

module _ (A : AdminStore) {B : Type 0} (encode : Command → Option B)
    (unmarshal : B → Option Command) (setup : Setup) where
  -- The handlers of the store.
  unfoldable pub handle_edit : Ask → Managed A.State → Managed A.State × Response
  unfolding put_tenant put_policy drop_tenant drop_key make_key show_tenants show_policies
  handle_edit list_tenants m = (m, show_tenants A encode unmarshal setup m)
  handle_edit list_policies m = (m, show_policies A encode unmarshal setup m)
  handle_edit (upsert_tenant id t) m = put_tenant A encode unmarshal setup id t m
  handle_edit (delete_tenant id) m = drop_tenant A encode unmarshal setup id m
  handle_edit (create_key t b k) m = make_key A encode unmarshal setup t b k m
  handle_edit (revoke_key t p) m = drop_key A encode unmarshal setup t p m
  handle_edit (upsert_policy n d) m = put_policy A encode unmarshal setup n d m
  handle_edit list_members m = (m, refuse 404 [])
  handle_edit (add_member n) m = (m, refuse 404 [])
  handle_edit (remove_member id) m = (m, refuse 404 [])

  -- The handlers of the membership, which no gateway without a log has.
  unfoldable pub handle_cluster : Ask → Managed A.State → Managed A.State × Response
  unfolding join_member leave_member
  handle_cluster ask m = elim setup.control [
    | none ↦ (m, refuse 404 [])
    | some log ↦ elim ask [
      | add_member n ↦ join_member A encode unmarshal setup log n m
      | remove_member id ↦ leave_member A encode unmarshal setup log id m
      | _ ↦ (
        m,
        told 200 (
            members_body m.machine.state.members m.machine.state.ring_epoch m.machine.state.vnodes),
      )
    ]
  ]

  -- `requireAdmin` and what it guards.
  unfoldable pub dispatch : Ask → Managed A.State → Managed A.State × Response
  unfolding handle_edit handle_cluster is_cluster
  dispatch ask m =
      if is_cluster ask
      then handle_cluster ask m
      else if not setup.has_store
      then (m, disabled)
      else handle_edit ask m

  unfoldable pub serve_admin :
      Libraries → (Text → Text) → Headers → Ask → Managed A.State → Managed A.State × Response
  unfolding require_token dispatch
  serve_admin lib sha256 h ask m = elim (require_token lib sha256 setup.token h) [
    | some r ↦ (m, r)
    | none ↦ dispatch ask m
  ]

  -- A request without the admin token, or to a gateway that has none, is answered 401 or 501 before
  -- anything is read: the answer is the same whatever is asked and whatever the gateway holds, and
  -- nothing is changed.
  pub serve_admin-IsClosed :
      (lib : Libraries) (sha256 : Text → Text) (h : Headers)
      → ((t : Text) → setup.token ≡ some t → check_admin lib sha256 t h ≢ admitted)
      → (r : Response) × ((r.status ≡ 401) ⊎ (r.status ≡ 501))
        × ((ask : Ask) (m : Managed A.State) → serve_admin lib sha256 h ask m ≡ (m, r))
  unfolding IsRefusal serve_admin
  serve_admin-IsClosed lib sha256 h closed =
      let (r, e, status) = require_token-IsRefusal lib sha256 setup.token h closed in
      (r, status, λ ask m. rw (serve_admin, e) refl)
