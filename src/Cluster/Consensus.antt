-- ===== src/Cluster/Consensus.antt =====
-- internal/cluster/consensus.go: how a node joins the log and how an entry gets into it. The raft
-- library is what `Raft` and `Log` say; the deadline of a proposal is left to them.
pub mod Founding
pub mod Proposals
mod Tests
use distributed_rate_limiter.Prelude.{
  Bool, false, ◌&&◌, not, Option, none, some, List, [], ◌∷◌, map, Text, text_eq, text_lt,
  if◌then◌else◌,
}
use distributed_rate_limiter.Prelude.Int.{ℤ, pos, ltb_ℤ}
use distributed_rate_limiter.Prelude.Sorts.{sort_by}
use distributed_rate_limiter.Cluster.Members.{Node}
use distributed_rate_limiter.Cluster.State.{State, Command, seed_ring, apply}
use distributed_rate_limiter.Cluster.Fsm.{
  decode_command, accept, Fsm, ApplyFailure, Reply, applied, rejected, fsm_apply,
}

pub record Peer : Type 0 where
  pub id : Text
  pub addr : Text
  pub raft_addr : Text

pub record Timing : Type 0 where
  pub heartbeat : ℤ
  pub election : ℤ
  pub lease : ℤ
  pub commit : ℤ

-- `ConsensusOptions`.
pub record Options : Type 0 where
  pub node_id : Text
  pub peers : List Peer
  pub timing : Timing

-- What the raft library meets on this node: whether the stores open and the transport listens,
-- whether there is a log already (`none` for an error), and whether it bootstraps and starts; and
-- the timing it has by default.
pub record Raft : Type 0 where
  pub opens : Bool
  pub listens : Bool
  pub existing : Option Bool
  pub bootstraps : Bool
  pub starts : Bool
  pub defaults : Timing

pub data StartError : Type 0 where
  no_node_id no_peers not_listed no_stores no_transport unreadable_log : StartError
  bootstrap_failed raft_failed : StartError

pub record Voter : Type 0 where
  pub id : Text
  pub address : Text

-- A node that runs, with the voters of the cluster if it created it.
pub data Started : Type 0 where
  refused : StartError → Started
  running : Timing → Option (List Voter) → Started

-- `findPeer`.
unfoldable pub find_peer : List Peer → Text → Option Peer
find_peer [] id = none
find_peer (p ∷ ps) id = if text_eq p.id id then some p else find_peer ps id

-- The first of the ids once they are sorted; `none` is the panic of an index out of range.
unfoldable pub bootstrapper : List Peer → Option Text
bootstrapper ps = elim (sort_by text_lt (map (λ (p : Peer). p.id) ps)) [
  | [] ↦ none
  | id ∷ ids ↦ some id
]

unfoldable pub raft_address : Peer → Text
raft_address p = if text_eq p.raft_addr [] then p.addr else p.raft_addr

unfoldable pub voters_of : List Peer → List Voter
unfolding raft_address
voters_of [] = []
voters_of (p ∷ ps) = record { id = p.id; address = raft_address p } ∷ voters_of ps

abbrev pub or_default : ℤ → ℤ → ℤ
or_default mine default = if ltb_ℤ (pos 0) mine then mine else default

abbrev pub timing_of : Timing → Timing → Timing
timing_of mine default = record {
  heartbeat = or_default mine.heartbeat default.heartbeat;
  election = or_default mine.election default.election;
  lease = or_default mine.lease default.lease;
  commit = or_default mine.commit default.commit;
}

abbrev pub is_some_id : Option Text → Text → Bool
is_some_id none id = false
is_some_id (some k) id = text_eq k id

-- `StartConsensus` once it has its stores and its transport.
unfoldable pub start_raft : Options → Raft → Bool → Started
unfolding bootstrapper voters_of
start_raft o r existing =
    let t = timing_of o.timing r.defaults in
    let creates = not existing && is_some_id (bootstrapper o.peers) o.node_id in
    if creates && not r.bootstraps
    then refused bootstrap_failed
    else if not r.starts
    then refused raft_failed
    else running t (if creates then some (voters_of o.peers) else none)

-- `StartConsensus` with what `findPeer` and the stores tell it.
unfoldable pub start_listed : Options → Raft → Option Peer → Option Bool → Started
unfolding start_raft
start_listed o r none existing = refused not_listed
start_listed o r (some self) none =
    if not r.opens
    then refused no_stores
    else if not r.listens
    then refused no_transport
    else refused unreadable_log
start_listed o r (some self) (some existing) =
    if not r.opens
    then refused no_stores
    else if not r.listens
    then refused no_transport
    else start_raft o r existing

-- `StartConsensus`.
unfoldable pub start : Options → Raft → Started
unfolding start_listed find_peer
start o r = if text_eq o.node_id [] then refused no_node_id else elim o.peers [
  | [] ↦ refused no_peers
  | p ∷ ps ↦ start_listed o r (find_peer o.peers o.node_id) r.existing
]

-- How an entry fares that the leader hands to the raft library: committed; or given up, with the
-- leadership or for another reason, and applied all the same or not.
pub data Fate : Type 0 where
  committed : Fate
  leadership_lost : Bool → Fate
  gave_up : Bool → Fate

-- What the library says to a proposal: whether this node leads, who does, and the entry's fate.
pub record Log : Type 0 where
  pub leads : Bool
  pub leader_id : Text
  pub leader_addr : Text
  pub fate : Fate
  -- The commands of the entries that others had committed and that come before this one's.
  pub meanwhile : List Command

-- What `Propose` returns.
pub data Proposed : Type 0 where
  accepted : State → Bool → Proposed
  inapplicable_entry : ApplyFailure → Proposed
  not_leader : Text → Text → Proposed
  unencodable commit_failed : Proposed

unfoldable pub response_of : Reply → Proposed
response_of (applied s changed) = accepted s changed
response_of (rejected e) = inapplicable_entry e

-- The machine once the entries of others are applied.
unfoldable pub caught_up : List Command → Fsm → Fsm
caught_up [] f = f
caught_up (c ∷ cs) f = caught_up cs (accept f (apply f.state c)).0

-- `encode` and `unmarshal` are the json package's functions on a command.
module _ {B : Type 0} (encode : Command → Option B) (unmarshal : B → Option Command) where
  -- `raft.Apply` and the future it returns.
  unfoldable pub commit_entry : Log → Fate → Fsm → B → Fsm × Proposed
  unfolding response_of
  commit_entry log committed f b =
      let (f', reply) = fsm_apply (decode_command unmarshal) (caught_up log.meanwhile f) b in
      (f', response_of reply)
  commit_entry log (leadership_lost landed) f b =
      let g = caught_up log.meanwhile f in
      (
        if landed then (fsm_apply (decode_command unmarshal) g b).0 else g,
        not_leader log.leader_id log.leader_addr,
      )
  commit_entry log (gave_up landed) f b =
      let g = caught_up log.meanwhile f in
      (if landed then (fsm_apply (decode_command unmarshal) g b).0 else g, commit_failed)

  -- `Propose`.
  unfoldable pub propose : Log → Fsm → Command → Fsm × Proposed
  unfolding commit_entry
  propose log f c =
      if not log.leads
      then (f, not_leader log.leader_id log.leader_addr)
      else elim (encode c) [ none ↦ (f, unencodable) | some b ↦ commit_entry log log.fate f b ]

  abbrev pub member_of : Peer → Node
  member_of p = record { id = p.id; addr = p.addr }

  abbrev pub seed_command : List Peer → ℤ → Command
  seed_command peers vnodes = record {
    kind = seed_ring;
    members = map member_of peers;
    member = record { id = []; addr = [] };
    id = [];
    vnodes = vnodes;
    gen = 0;
  }

  -- `Seed`: `none` where the source returns at once.
  unfoldable pub seed : Log → List Peer → ℤ → Fsm → Fsm × Option Proposed
  unfolding propose
  seed log peers vnodes f = elim f.state.members [
    | m ∷ ms ↦ (f, none)
    | [] ↦ let (f', p) = propose log f (seed_command peers vnodes) in (f', some p)
  ]
