-- ===== src/Cluster/Fsm.antt =====
-- internal/cluster/fsm.go: the adapter between the raft library's log and `Apply`. The json
-- package's functions on a command and on a state are parameters, and so is the type of the bytes
-- that they read and write.
pub mod View
use distributed_rate_limiter.Prelude.{
  Bool, true, false, Option, none, some, List, [], ◌∷◌, Text, if◌then◌else◌, text_eq,
}
use distributed_rate_limiter.Cluster.Members.{sort_members}
use distributed_rate_limiter.Cluster.State.{
  State, Command, CommandKind, unknown, ApplyError, apply, new_state,
}

-- The state, and every state that `onApply` was called with, the last one first.
pub record Fsm : Type 0 where
  pub state : State
  pub notified : List State

pub data ApplyFailure : Type 0 where
  undecodable : ApplyFailure
  inapplicable : ApplyError → ApplyFailure

-- What `Apply` returns through the future: the state and whether it changed, or the error.
pub data Reply : Type 0 where
  applied : State → Bool → Reply
  rejected : ApplyFailure → Reply

unfoldable pub notify : State → Fsm → Fsm
notify s f = record f { notified = s ∷ f.notified }

-- `State.Encode` sorts the members before it hands the state to the json package.
unfoldable pub encode : {B : Type 0} → (State → B) → State → B
encode marshal s = marshal (record s { members = sort_members s.members })

-- `DecodeState`.
unfoldable pub decode_state : {B : Type 0} → (B → Option State) → B → Option State
decode_state unmarshal b = elim (unmarshal b) [
  | none ↦ none
  | some s ↦ some (record s { members = sort_members s.members })
]

-- What follows the call of `State.Apply`.
unfoldable pub accept : Fsm → State × Bool × Option ApplyError → Fsm × Reply
unfolding notify
accept f (next, changed, some e) = (f, rejected (inapplicable e))
accept f (next, true, none) = (notify next (record f { state = next }), applied next true)
accept f (next, false, none) = (f, applied next false)

-- `c.Kind == ""`.
unfoldable pub is_kindless : CommandKind → Bool
is_kindless (unknown t) = text_eq t []
is_kindless k = false

-- `DecodeCommand`, over the json package's reading of a command.
unfoldable pub decode_command : {B : Type 0} → (B → Option Command) → B → Option Command
unfolding is_kindless
decode_command unmarshal b = elim (unmarshal b) [
  | none ↦ none
  | some c ↦ if is_kindless c.kind then none else some c
]

module _ {B : Type 0} (decode : B → Option Command) where
  -- `FSM.Apply`.
  unfoldable pub fsm_apply : Fsm → B → Fsm × Reply
  unfolding accept
  fsm_apply f data_of = elim (decode data_of) [
    | none ↦ (f, rejected undecodable)
    | some c ↦ accept f (apply f.state c)
  ]

-- `FSM.Snapshot`.
unfoldable pub snapshot : {B : Type 0} → (State → B) → Fsm → B
unfolding encode
snapshot marshal f = encode marshal f.state

-- `FSM.Restore` of the bytes it read, and whether it failed.
unfoldable pub restore : {B : Type 0} → (B → Option State) → Fsm → B → Fsm × Bool
unfolding notify decode_state
restore unmarshal f b = elim (decode_state unmarshal b) [
  | none ↦ (f, true)
  | some s ↦ (notify s (record f { state = s }), false)
]

-- What the raft library does with the machine.
pub data Event (B : Type 0) : Type 0 where
  committed : B → Event B
  restored : B → Event B

module _ {B : Type 0} (decode : B → Option Command) (unmarshal : B → Option State) where
  unfoldable pub run : Fsm → List (Event B) → Fsm
  unfolding fsm_apply restore
  run f [] = f
  run f (committed b ∷ es) = run (fsm_apply decode f b).0 es
  run f (restored b ∷ es) = run (restore unmarshal f b).0 es
