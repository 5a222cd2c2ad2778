-- ===== src/Cluster/Tests.antt =====
-- Concrete runs of the replicated state, and the theorems of its modules at them.
use distributed_rate_limiter.Cluster.Addresses.{has_addr}
use distributed_rate_limiter.Prelude.{
  text_lt, text_eq, Option, none, some, ◌≡◌, refl, arith, List, [], ◌∷◌, bytes,
}
use distributed_rate_limiter.Prelude.Int.{pos}
use distributed_rate_limiter.Cluster.Members.{has_id, Node, sort_members}
use distributed_rate_limiter.Cluster.State.{
  addr_of, is_taken, apply_add, seed_members, apply_seed, State, Command, apply, replay, new_state,
  seed_ring, remove_shard, set_store_gen,
}
use distributed_rate_limiter.Cluster.State.Invariant.{IsValid, replay-IsValid}
use distributed_rate_limiter.Cluster.Fsm.{Fsm, Event, committed, restored, run}
use distributed_rate_limiter.Cluster.Fsm.View.{run-replay, committed_all, decoded}
use distributed_rate_limiter.Cluster.State.Epoch.{FollowsEpochRule, apply-epoch}

abbrev node_b : Node
node_b = record { id = bytes "b"; addr = bytes "b:1" }

abbrev node_a : Node
node_a = record { id = bytes "a"; addr = bytes "a:1" }

abbrev seed : Command
seed = record {
  kind = seed_ring;
  members = node_b ∷ node_a ∷ [];
  member = node_a;
  id = [];
  vnodes = pos 8;
  gen = 0;
}

abbrev leave : Command
leave = record seed { kind = remove_shard; id = bytes "a" }

abbrev mint : Command
mint = record seed { kind = set_store_gen; gen = 3 }

abbrev log : List Command
log = seed ∷ mint ∷ leave ∷ leave ∷ []

-- The state after the seed.
abbrev seeded : State
seeded = record {
  members = node_a ∷ node_b ∷ [];
  vnodes = pos 8;
  ring_epoch = 1;
  policy_gen = 0;
  store_gen = 0;
}

seeds : (apply new_state seed).0 ≡ seeded
unfolding apply apply_seed new_state has_id text_eq seed_members apply_add is_taken addr_of
    sort_members text_lt
seeds = refl

seeded-IsValid : IsValid seeded
unfolding text_lt has_id text_eq has_addr
seeded-IsValid = record {
  sorted = (refl, tt);
  named = refl;
  addressed = (refl, refl, (refl, refl, tt));
  bounded = (omega arith, omega arith);
}

replay-IsValid_example : IsValid (replay new_state log)
replay-IsValid_example = replay-IsValid log

apply-epoch_example : FollowsEpochRule seeded (apply seeded leave).0
apply-epoch_example = apply-epoch seeded leave seeded-IsValid

-- Entries and snapshots as they are, in place of their bytes; `none` cannot be decoded.
abbrev raw : List (Option Command)
raw = some seed ∷ none ∷ some leave ∷ []

abbrev keep : Option Command → Option Command
keep c = c

abbrev keep_state : State → Option State
keep_state s = some s

abbrev idle : Fsm
idle = record { state = new_state; notified = [] }

-- Entries and snapshots in one type of bytes.
abbrev Bytes : Type 0
Bytes = Option Command × State

abbrev events : List (Event Bytes)
events = committed (some seed, seeded) ∷ restored (none, seeded) ∷ committed (none, seeded) ∷ []

run-replay_example :
    (run keep (λ (b : Option Command). none) idle (committed_all raw)).state
    ≡ replay new_state (decoded keep raw)
run-replay_example = run-replay keep (λ (b : Option Command). none) idle raw
