-- ===== src/Admin/Tests.antt =====
-- A small store of policies behind the management API, and the theorems at it.
use distributed_rate_limiter.Cluster.Fsm.{decode_command, fsm_apply}
use distributed_rate_limiter.Policy.{validate_match}
use distributed_rate_limiter.Limiter.Limit.{validate}
use distributed_rate_limiter.Prelude.{
  contains_byte, ◌≡◌, ◌≢◌, refl, ap, ◌∙◌, sym, ◌⊎◌, true, false, none, some, List, [], ◌∷◌, Text,
  bytes, text_eq, arith, if◌then◌else◌,
}
use distributed_rate_limiter.Prelude.Int.{quot64, mul64, pos}
use distributed_rate_limiter.Auth.{Headers, Libraries, admitted, admin_bad_credentials, check_admin}
use distributed_rate_limiter.Cluster.State.{apply, new_state}
use distributed_rate_limiter.Cluster.Consensus.{propose, Log, committed}
use distributed_rate_limiter.Admin.{
  PolicyRecord, PolicyDto, LimitDto, to_record, policy_to_dto, validate_record,
}
use distributed_rate_limiter.Admin.Store.{StoreError, listed, AdminStore, Managed, Setup, Response}
use distributed_rate_limiter.Admin.Edits.{Ask, put_policy}
use distributed_rate_limiter.Admin.Guard.{serve_admin, serve_admin-IsClosed}
use distributed_rate_limiter.Admin.Fenced.{Done, put_policy-IsFenced}
use distributed_rate_limiter.Admin.Printed.{printed_all, policy_to_dto-to_record}

-- The policies that were written, the last one first; it has no tenants.
abbrev small_store : AdminStore
small_store = record {
  State = List PolicyRecord;
  tenants = λ s. listed [];
  upsert_tenant = λ s t. (s, none);
  delete_tenant = λ s id. (s, some StoreError.tenant_missing);
  policies = λ s. listed s;
  upsert_policy = λ s r. (r ∷ s, none);
  create_key = λ s t l h p. (s, none);
  revoke_key = λ s t p. (s, none);
}

abbrev managed : Managed (List PolicyRecord)
managed = record { store = []; cache = none; machine = record { state = new_state; notified = [] } }

abbrev leading : Log
leading = record {
  leads = true;
  leader_id = bytes "a";
  leader_addr = bytes "a:7000";
  fate = committed;
  meanwhile = [];
}

abbrev set_up : Setup
set_up = record {
  token = some (bytes "digest");
  has_store = true;
  control = some leading;
  no_policy_gen = false;
}

abbrev ten_a_second : LimitDto
ten_a_second = record {
  name = bytes "rate";
  algorithm = bytes "token_bucket";
  count = pos 10;
  period_ms = pos 1000;
  burst = pos 0;
  method = bytes "*";
  path_prefix = [];
}

abbrev strict_policy : PolicyDto
strict_policy = record {
  name = [];
  failure_mode = bytes "closed";
  description = [];
  limits = ten_a_second ∷ [];
}

put_policy-IsFenced_example :
    (validate_record (to_record strict_policy (bytes "strict")) ≡ none)
    × Done small_store some some
        (λ b e. sym e)
        set_up
        (to_record strict_policy (bytes "strict") ∷ [], none)
        []
        managed
        (put_policy small_store some some set_up (bytes "strict") (some strict_policy) managed).0
unfolding put_policy text_eq validate contains_byte mul64 quot64 validate_match propose fsm_apply
    apply decode_command
put_policy-IsFenced_example =
    put_policy-IsFenced small_store some some (λ b e. sym e) set_up (bytes "strict") strict_policy
      managed refl

policy_to_dto-to_record_example :
    policy_to_dto (to_record strict_policy (bytes "strict"))
    ≡ record strict_policy { name = bytes "strict"; limits = printed_all (ten_a_second ∷ []) }
policy_to_dto-to_record_example =
    policy_to_dto-to_record strict_policy (bytes "strict") ((1000, refl, omega arith), tt)

abbrev plain : Libraries
plain = record { trim_space = λ t. t; equal_fold = text_eq; parse_jwt = λ o t. none }

-- A request with a token that is not the one the gateway has.
abbrev guessed : Headers
guessed name = if text_eq name (bytes "X-Admin-Token") then bytes "guess" else []

guess_refused : check_admin plain (λ t. t) (bytes "digest") guessed ≡ admin_bad_credentials
unfolding check_admin text_eq
guess_refused = refl

not_admitted : (t : Text) → set_up.token ≡ some t → check_admin plain (λ x. x) t guessed ≢ admitted
not_admitted t e k =
    let same : bytes "digest" ≡ t = ground arith in
    absurd
      (ground (arith, sym (ap (λ x. check_admin plain (λ y. y) x guessed) same) ∙ guess_refused))

serve_admin-IsClosed_example :
    (r : Response) × ((r.status ≡ 401) ⊎ (r.status ≡ 501))
    × ((ask : Ask) (m : Managed (List PolicyRecord))
        → serve_admin small_store some some set_up plain (λ t. t) guessed ask m ≡ (m, r))
serve_admin-IsClosed_example =
    serve_admin-IsClosed small_store some some set_up plain (λ t. t) guessed
      (λ t e k. not_admitted t e k)
