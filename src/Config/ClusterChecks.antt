-- ===== src/Config/ClusterChecks.antt =====
-- internal/config/config.go: `validateCluster` and `validateRaft`.
use distributed_rate_limiter.Prelude.{
  Bool, false, not, ◌||◌, Option, none, some, List, [], ◌∷◌, Text, text_eq, if◌then◌else◌,
}
use distributed_rate_limiter.Config.{Config, Member, RaftConfig}
use distributed_rate_limiter.Config.Checks.{
  ConfigError, has_text, is_negative, no_member_id, no_member_addr, duplicate_id, duplicate_addr,
  self_missing, negative_vnodes, negative_forward_timeout, raft_alone, negative_raft_timeout,
  no_raft_addr, raft_addr_taken,
}

-- The last loop of `validateRaft`, with the addresses that are taken.
unfoldable pub validate_raft_addrs : List Text → List Member → Option ConfigError
unfolding has_text
validate_raft_addrs seen [] = none
validate_raft_addrs seen (m ∷ ms) =
    if text_eq m.raft_addr []
    then some no_raft_addr
    else if has_text m.raft_addr seen
    then some raft_addr_taken
    else validate_raft_addrs (m.raft_addr ∷ seen) ms

-- The loop of `validateRaft` that takes the members' addresses.
unfoldable pub request_addrs : List Member → List Text
request_addrs [] = []
request_addrs (m ∷ ms) = m.addr ∷ request_addrs ms

abbrev has_negative_timeout : RaftConfig → Bool
has_negative_timeout r =
    is_negative r.heartbeat_timeout
    || is_negative r.election_timeout
    || is_negative r.leader_lease_timeout
    || is_negative r.commit_timeout

-- `validateRaft`.
unfoldable pub validate_raft : Config → Option ConfigError
unfolding validate_raft_addrs request_addrs
validate_raft c = if not c.cluster.raft.enabled then none else elim c.cluster.members [
  | [] ↦ some raft_alone
  | m ∷ ms ↦
      if has_negative_timeout c.cluster.raft
      then some negative_raft_timeout
      else validate_raft_addrs (request_addrs (m ∷ ms)) (m ∷ ms)
]

-- The loop of `validateCluster`, with the ids and addresses seen.
unfoldable pub validate_members : List Text → List Text → List Member → Option ConfigError
unfolding has_text
validate_members ids addrs [] = none
validate_members ids addrs (m ∷ ms) =
    if text_eq m.id []
    then some no_member_id
    else if text_eq m.addr []
    then some no_member_addr
    else if has_text m.id ids
    then some duplicate_id
    else if has_text m.addr addrs
    then some duplicate_addr
    else validate_members (m.id ∷ ids) (m.addr ∷ addrs) ms

-- The `self` of that loop.
unfoldable pub lists_self : Text → List Member → Bool
lists_self id [] = false
lists_self id (m ∷ ms) = text_eq m.id id || lists_self id ms

-- `validateCluster`.
unfoldable pub validate_cluster : Config → Option ConfigError
unfolding validate_members lists_self validate_raft
validate_cluster c = elim c.cluster.members [
  | [] ↦ validate_raft c
  | m ∷ ms ↦ elim (validate_members [] [] (m ∷ ms)) [
    | some e ↦ some e
    | none ↦
        if not (lists_self c.node.id (m ∷ ms))
        then some self_missing
        else if is_negative c.cluster.vnodes
        then some negative_vnodes
        else if is_negative c.cluster.forward_timeout
        then some negative_forward_timeout
        else validate_raft c
  ]
]
