-- ===== src/Cluster/Fsm/View.antt =====
-- What the request path is told, and what a snapshot keeps.
use distributed_rate_limiter.Prelude.{
  ◌≡◌, ◌∙◌, sym, refl, ap, arith, true, false, Option, none, some, List, [], ◌∷◌, Option-cases, inl,
  inr,
}
use distributed_rate_limiter.Cluster.State.{State, Command, Applied, apply, replay}
use distributed_rate_limiter.Cluster.State.Entries.{Reports, apply-Reports}
use distributed_rate_limiter.Cluster.Fsm.{
  Fsm, Event, committed, restored, accept, fsm_apply, notify, restore, run,
}

-- The state that the request path was last told, or the one it started with.
unfoldable pub view : State → Fsm → State
view start f = elim f.notified [ [] ↦ start | s ∷ older ↦ s ]

-- Through any committed entries and restored snapshots, also ones that cannot be decoded or do not
-- apply, what the request path was last told is the machine's state.
pub run-view :
    {B : Type 0} (decode : B → Option Command) (unmarshal : B → Option State) (start : State)
    (f : Fsm) (es : List (Event B))
    → view start f ≡ f.state
    → view start (run decode unmarshal f es) ≡ (run decode unmarshal f es).state
unfolding run fsm_apply restore notify accept view
run-view decode unmarshal start f [] h = h
run-view decode unmarshal start f (committed b ∷ es) h =
    run-view decode unmarshal start (fsm_apply decode f b).0 es (ground arith)
run-view decode unmarshal start f (restored b ∷ es) h =
    run-view decode unmarshal start (restore unmarshal f b).0 es (ground arith)

-- The entries that can be decoded.
pub decoded : {B : Type 0} → (B → Option Command) → List B → List Command
decoded decode [] = []
decoded decode (b ∷ bs) = elim (decode b) [
  | none ↦ decoded decode bs
  | some c ↦ c ∷ decoded decode bs
]

pub committed_all : {B : Type 0} → List B → List (Event B)
committed_all [] = []
committed_all (b ∷ bs) = committed b ∷ committed_all bs

accept-state : (f : Fsm) (r : Applied) → Reports f.state r → (accept f r).0.state ≡ r.0
unfolding accept notify
accept-state f (next, changed, some e) h = sym (h.0 e refl).1
accept-state f (next, true, none) h = refl
accept-state f (next, false, none) h = sym (h.1 refl)

-- Committed entries take the machine to the state that `Apply` reaches over the entries that can be
-- decoded: the ones that cannot be decoded or do not apply are skipped.
pub run-replay :
    {B : Type 0} (decode : B → Option Command) (unmarshal : B → Option State) (f : Fsm)
    (bs : List B)
    → (run decode unmarshal f (committed_all bs)).state ≡ replay f.state (decoded decode bs)
unfolding run fsm_apply replay decoded committed_all
run-replay decode unmarshal f [] = refl
run-replay decode unmarshal f (b ∷ bs) = elim (Option-cases (decode b)) [
  | inl bad ↦ rw (run, fsm_apply, decoded, bad) (run-replay decode unmarshal f bs)
  | inr (c, good) ↦
      rw (run, fsm_apply, decoded, good)
        (run-replay decode unmarshal (accept f (apply f.state c)).0 bs
          ∙ ap (λ s. replay s (decoded decode bs))
              (accept-state f (apply f.state c) (apply-Reports f.state c)))
]
