-- ===== src/Admin/Edits.antt =====
-- The handlers of internal/gateway/admin.go and cluster_admin.go, behind the checks that stand in
-- front of them.
use distributed_rate_limiter.Prelude.{
  ℕ, false, ◌||◌, Option, none, some, [], map, length, Text, text_eq, bytes, if◌then◌else◌,
}
use distributed_rate_limiter.Prelude.Int.{pos}
use distributed_rate_limiter.Policy.Cache.{Cache, invalidate, invalidate_all}
use distributed_rate_limiter.Cluster.Members.{Node}
use distributed_rate_limiter.Cluster.State.{
  Command, CommandKind, add_shard, remove_shard, bump_policy_gen,
}
use distributed_rate_limiter.Cluster.Consensus.{
  Log, Proposed, accepted, inapplicable_entry, not_leader, unencodable, commit_failed, propose,
}
use distributed_rate_limiter.Cluster.Fsm.{undecodable, inapplicable}
use distributed_rate_limiter.Admin.{
  TenantRecord, PolicyDto, to_record, policy_to_dto, validate_record,
}
use distributed_rate_limiter.Admin.Store.{
  StoreError, tenant_missing, conflict, store_failed, listed, unlisted, AdminStore, Managed, Setup,
  Body, error_body, elsewhere_body, unfenced_body, unminted_body, tenants_body, tenant_body,
  policies_body, policy_body, key_body, change_body, no_body, Response,
}

-- The body of a request for a key: absent, malformed, or with a label.
pub data KeyBody : Type 0 where
  absent malformed : KeyBody
  labelled : Text → KeyBody

-- What `auth.GenerateKey` made: the secret, its hash and its prefix.
pub record Key : Type 0 where
  pub secret : Text
  pub hash : Text
  pub prefix : Text

-- A request that a route of the API takes, its body decoded where that did not fail.
pub data Ask : Type 0 where
  list_tenants list_policies list_members : Ask
  upsert_tenant : Text → Option TenantRecord → Ask
  delete_tenant : Text → Ask
  create_key : Text → KeyBody → Option Key → Ask
  revoke_key : Text → Text → Ask
  upsert_policy : Text → Option PolicyDto → Ask
  add_member : Option Node → Ask
  remove_member : Text → Ask

abbrev pub told : ℕ → Body → Response
told status body = record { status = status; challenge = false; body = body }

abbrev pub refuse : ℕ → Text → Response
refuse status code = told status (error_body code)

-- `adminError`.
unfoldable pub admin_error : StoreError → Response
admin_error tenant_missing = refuse 404 (bytes "not_found")
admin_error conflict = refuse 409 (bytes "conflict")
admin_error store_failed = refuse 500 (bytes "store_error")

-- `invalidate`; no name drops every entry.
unfoldable pub drop_cached : Text → Option Cache → Option Cache
drop_cached tenant none = none
drop_cached tenant (some c) =
    if text_eq tenant [] then some (invalidate_all c) else some (invalidate tenant c)

abbrev pub command : CommandKind → Node → Text → Command
command kind member id = record {
  kind = kind;
  members = [];
  member = member;
  id = id;
  vnodes = pos 0;
  gen = 0;
}

abbrev pub no_node : Node
no_node = record { id = []; addr = [] }

-- What `bumpPolicyGen` makes of a proposal: `none` to go on.
unfoldable pub unfenced : Proposed → Option Response
unfenced (accepted s changed) = none
unfenced (not_leader id addr) = some (told 409 (unfenced_body id addr))
unfenced (inapplicable_entry e) = some (told 409 unminted_body)
unfenced unencodable = some (told 409 unminted_body)
unfenced commit_failed = some (told 409 unminted_body)

-- What `propose` makes of one.
unfoldable pub proposal_response : Proposed → Response
proposal_response (accepted s changed) =
    told 200 (change_body changed s.ring_epoch (length s.members))
proposal_response (not_leader id addr) = told 409 (elsewhere_body id addr)
proposal_response (inapplicable_entry (inapplicable e)) = refuse 400 (bytes "not_applicable")
proposal_response (inapplicable_entry undecodable) = refuse 503 (bytes "unavailable")
proposal_response unencodable = refuse 503 (bytes "unavailable")
proposal_response commit_failed = refuse 503 (bytes "unavailable")

-- The record that `adminUpsertTenant` writes: the id of the path, and the id for a missing name.
unfoldable pub completed : Text → TenantRecord → TenantRecord
completed id body =
    let named = if text_eq id [] then body else record body { id = id } in
    if text_eq named.name [] then record named { name = named.id } else named

unfoldable pub key_label : KeyBody → Option Text
key_label absent = some []
key_label malformed = none
key_label (labelled l) = some l

module _ (A : AdminStore) {B : Type 0} (encode : Command → Option B)
    (unmarshal : B → Option Command) (setup : Setup) where
  -- `bumpPolicyGen`.
  unfoldable pub bump : Managed A.State → Managed A.State × Option Response
  unfolding unfenced
  bump m = elim setup.control [
    | none ↦ (m, none)
    | some log ↦
        if setup.no_policy_gen
        then (m, none)
        else let (f, p) =
            propose encode unmarshal log m.machine (command bump_policy_gen no_node []) in
          (record m { machine = f }, unfenced p)
  ]

  -- What follows a write that the store took: the cache first, then the generation.
  unfoldable pub after_write : Text → Response → Managed A.State → Managed A.State × Response
  unfolding bump drop_cached
  after_write tenant done m =
      let (m', stop) = bump (record m { cache = drop_cached tenant m.cache }) in
      elim stop [ some r ↦ (m', r) | none ↦ (m', done) ]

  -- The part of an upsert from the write on.
  unfoldable pub finish :
      A.State × Option StoreError → Text → Response → Managed A.State → Managed A.State × Response
  unfolding after_write admin_error
  finish (s, some e) tenant done m = (record m { store = s }, admin_error e)
  finish (s, none) tenant done m = after_write tenant done (record m { store = s })

  -- `adminUpsertTenant`.
  unfoldable pub put_tenant :
      Text → Option TenantRecord → Managed A.State → Managed A.State × Response
  unfolding finish completed
  put_tenant id none m = (m, refuse 400 (bytes "invalid_body"))
  put_tenant id (some body) m =
      let t = completed id body in
      if text_eq t.id [] || text_eq t.policy []
      then (m, refuse 400 (bytes "invalid_tenant"))
      else finish (A.upsert_tenant m.store t) t.id (told 200 (tenant_body t)) m

  -- `adminUpsertPolicy`.
  unfoldable pub put_policy : Text → Option PolicyDto → Managed A.State → Managed A.State × Response
  unfolding finish to_record policy_to_dto validate_record
  put_policy name none m = (m, refuse 400 (bytes "invalid_body"))
  put_policy name (some body) m =
      let r = to_record body name in
      elim (validate_record r) [
        | some e ↦ (m, refuse 400 (bytes "invalid_policy"))
        | none ↦ finish (A.upsert_policy m.store r) [] (told 200 (policy_body (policy_to_dto r))) m
      ]

  -- `adminDeleteTenant`, `adminRevokeKey` and the end of `adminCreateKey`.
  unfoldable pub drop_tenant : Text → Managed A.State → Managed A.State × Response
  unfolding drop_cached admin_error
  drop_tenant id m =
      let (s, err) = A.delete_tenant m.store id in
      elim err [
        | some e ↦ (record m { store = s }, admin_error e)
        | none ↦ (record m { store = s; cache = drop_cached id m.cache }, told 204 no_body)
      ]

  unfoldable pub drop_key : Text → Text → Managed A.State → Managed A.State × Response
  unfolding admin_error
  drop_key tenant prefix m =
      let (s, err) = A.revoke_key m.store tenant prefix in
      elim err [
        | some e ↦ (record m { store = s }, admin_error e)
        | none ↦ (record m { store = s }, told 204 no_body)
      ]

  unfoldable pub store_key : Text → Text → Key → Managed A.State → Managed A.State × Response
  unfolding admin_error
  store_key tenant label k m =
      let (s, err) = A.create_key m.store tenant label k.hash k.prefix in
      elim err [
        | some e ↦ (record m { store = s }, admin_error e)
        | none ↦ (record m { store = s }, told 201 (key_body tenant k.secret k.prefix))
      ]

  -- `adminCreateKey`, given what generating a key returned.
  unfoldable pub make_key :
      Text → KeyBody → Option Key → Managed A.State → Managed A.State × Response
  unfolding store_key key_label admin_error
  make_key tenant body key m = elim (key_label body) [
    | none ↦ (m, refuse 400 (bytes "invalid_body"))
    | some label ↦ elim key [
      | none ↦ (m, admin_error store_failed)
      | some k ↦ store_key tenant label k m
    ]
  ]

  -- `adminListTenants` and `adminListPolicies`.
  unfoldable pub show_tenants : Managed A.State → Response
  unfolding admin_error
  show_tenants m = elim (A.tenants m.store) [
    | listed ts ↦ told 200 (tenants_body ts)
    | unlisted e ↦ admin_error e
  ]

  unfoldable pub show_policies : Managed A.State → Response
  unfolding admin_error policy_to_dto
  show_policies m = elim (A.policies m.store) [
    | listed rs ↦ told 200 (policies_body (map policy_to_dto rs))
    | unlisted e ↦ admin_error e
  ]

  -- `propose`.
  unfoldable pub change_members : Log → Command → Managed A.State → Managed A.State × Response
  unfolding proposal_response
  change_members log c m =
      let (f, p) = propose encode unmarshal log m.machine c in
      (record m { machine = f }, proposal_response p)

  -- `adminAddMember`.
  unfoldable pub join_member : Log → Option Node → Managed A.State → Managed A.State × Response
  unfolding change_members
  join_member log none m = (m, refuse 400 (bytes "invalid_body"))
  join_member log (some n) m =
      if text_eq n.id [] || text_eq n.addr []
      then (m, refuse 400 (bytes "invalid"))
      else change_members log (command add_shard n []) m

  -- `adminRemoveMember`.
  unfoldable pub leave_member : Log → Text → Managed A.State → Managed A.State × Response
  unfolding change_members
  leave_member log id m =
      if text_eq id []
      then (m, refuse 400 (bytes "invalid"))
      else change_members log (command remove_shard no_node id) m
