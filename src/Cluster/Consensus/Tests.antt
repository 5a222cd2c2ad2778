-- ===== src/Cluster/Consensus/Tests.antt =====
-- Concrete starts and proposals, and the theorems at them.
use distributed_rate_limiter.Prelude.Sorts.{sort_by}
use distributed_rate_limiter.Prelude.{
  ◌≡◌, refl, sym, true, false, some, List, [], ◌∷◌, Text, bytes, text_eq, text_lt,
}
use distributed_rate_limiter.Prelude.Int.{pos}
use distributed_rate_limiter.Cluster.State.{Command, bump_policy_gen, new_state}
use distributed_rate_limiter.Cluster.Fsm.{is_kindless, Fsm}
use distributed_rate_limiter.Cluster.Consensus.{
  Peer, Timing, Options, Raft, Log, committed, find_peer, start, propose, caught_up,
}
use distributed_rate_limiter.Cluster.Consensus.Founding.{start_creates_once}
use distributed_rate_limiter.Cluster.Consensus.Proposals.{Honest, propose-IsHonest}

abbrev peer : Text → Peer
peer id = record { id = id; addr = id; raft_addr = [] }

abbrev zero_timing : Timing
zero_timing = record { heartbeat = pos 0; election = pos 0; lease = pos 0; commit = pos 0 }

abbrev joining : List Peer → Options
joining ps = record { node_id = bytes "a"; peers = ps; timing = zero_timing }

abbrev healthy : Raft
healthy = record {
  opens = true;
  listens = true;
  existing = some false;
  bootstraps = true;
  starts = true;
  defaults = zero_timing;
}

-- One node started from two files that list its peers in different orders.
start_creates_once_example :
    (bytes "a" ≡ bytes "a") × (some false ≡ some false) × (some false ≡ some false)
unfolding find_peer text_eq start sort_by text_lt
start_creates_once_example =
    start_creates_once (joining (peer (bytes "b") ∷ peer (bytes "a") ∷ []))
      (joining (peer (bytes "a") ∷ peer (bytes "c") ∷ [])) healthy healthy zero_timing zero_timing _
      _ _ _ refl refl refl refl

abbrev bump_entry : Command
bump_entry = record {
  kind = bump_policy_gen;
  members = [];
  member = record { id = []; addr = [] };
  id = [];
  vnodes = pos 0;
  gen = 0;
}

abbrev leading : Log
leading = record {
  leads = true;
  leader_id = bytes "a";
  leader_addr = bytes "a:7000";
  fate = committed;
  meanwhile = bump_entry ∷ [];
}

abbrev empty_machine : Fsm
empty_machine = record { state = new_state; notified = [] }

kind_given : is_kindless bump_entry.kind ≡ false
unfolding is_kindless
kind_given = refl

propose-IsHonest_example :
    Honest empty_machine
      (caught_up (bump_entry ∷ []) empty_machine)
      bump_entry
      (propose some some leading empty_machine bump_entry).0
      (propose some some leading empty_machine bump_entry).1
propose-IsHonest_example =
    propose-IsHonest some some bump_entry (λ b e. sym e) kind_given leading empty_machine
