-- ===== src/Cluster/Consensus/Proposals.antt =====
-- What `Propose` in internal/cluster/consensus.go reports of an entry, against what became of it.
use distributed_rate_limiter.Prelude.{
  ◌≡◌, refl, ◌⊎◌, inl, inr, Bool, true, false, Bool-cases, Option-cases, Option, none, some, arith,
  if◌then◌else◌,
}
use distributed_rate_limiter.Cluster.State.{Command, Applied, apply}
use distributed_rate_limiter.Cluster.State.Entries.{apply-Reports}
use distributed_rate_limiter.Cluster.Fsm.{
  Fsm, is_kindless, decode_command, undecodable, inapplicable, accept, notify, fsm_apply,
}
use distributed_rate_limiter.Cluster.Consensus.{
  Log, Fate, committed, leadership_lost, gave_up, Proposed, accepted, inapplicable_entry,
  not_leader, unencodable, commit_failed, response_of, commit_entry, propose, caught_up,
}

-- What each answer says of the machine: of `f`, as it was when the proposal was made, of `g`, once
-- the entries of others that come first are applied, and of `f'`, at the answer.
unfoldable pub Honest : Fsm → Fsm → Command → Fsm → Proposed → Type 0
Honest f g c f' (accepted s changed) = (f'.state ≡ s) × (apply g.state c ≡ (s, changed, none))
Honest f g c f' (inapplicable_entry undecodable) = ⊥
Honest f g c f' (inapplicable_entry (inapplicable e)) = (f' ≡ g) × ((apply g.state c).2 ≡ some e)
Honest f g c f' (not_leader id addr) = (f' ≡ f) ⊎ ((f' ≡ g) ⊎ (f'.state ≡ (apply g.state c).0))
Honest f g c f' unencodable = f' ≡ f
Honest f g c f' commit_failed = (f' ≡ g) ⊎ (f'.state ≡ (apply g.state c).0)

module _ (f g : Fsm) (c : Command) where
  accept-Honest :
      (r : Applied) → apply g.state c ≡ r → Honest f g c (accept g r).0 (response_of (accept g r).1)
  unfolding Honest accept response_of notify
  accept-Honest (s, changed, some e) h = (refl, rw h refl)
  accept-Honest (s, true, none) h = (refl, h)
  accept-Honest (s, false, none) h =
      let same = (apply-Reports g.state c).1 (rw h refl) in (ground (arith, same, h), h)

  accept-moves : (r : Applied) → ((accept g r).0 ≡ g) ⊎ ((accept g r).0.state ≡ r.0)
  unfolding accept notify
  accept-moves (s, changed, some e) = inl refl
  accept-moves (s, true, none) = inr refl
  accept-moves (s, false, none) = inl refl

module _ {B : Type 0} (encode : Command → Option B) (unmarshal : B → Option Command) (c : Command)
    (back : (b : B) → encode c ≡ some b → unmarshal b ≡ some c)
    (kind : is_kindless c.kind ≡ false) where
  applied_as :
      (g : Fsm) (b : B)
      → encode c ≡ some b
      → fsm_apply (decode_command unmarshal) g b ≡ accept g (apply g.state c)
  unfolding fsm_apply decode_command
  applied_as g b e = rw (fsm_apply, decode_command, back b e, kind) refl

  -- An entry that the leader gave up, and that was applied all the same or not.
  given_up :
      (g : Fsm) (b : B) (landed : Bool)
      → encode c ≡ some b
      → let f' = if landed then (fsm_apply (decode_command unmarshal) g b).0 else g in
        (f' ≡ g) ⊎ (f'.state ≡ (apply g.state c).0)
  given_up g b false e = inl refl
  given_up g b true e = rw (applied_as g b e) (accept-moves g g c (apply g.state c))

  commit_entry-Honest :
      (log : Log) (fate : Fate) (f : Fsm) (b : B)
      → encode c ≡ some b
      → Honest f
          (caught_up log.meanwhile f)
          c
          (commit_entry encode unmarshal log fate f b).0
          (commit_entry encode unmarshal log fate f b).1
  unfolding commit_entry Honest
  commit_entry-Honest log committed f b e =
      let g = caught_up log.meanwhile f in
      rw (applied_as g b e) (accept-Honest f g c (apply g.state c) refl)
  commit_entry-Honest log (leadership_lost landed) f b e =
      inr (given_up (caught_up log.meanwhile f) b landed e)
  commit_entry-Honest log (gave_up landed) f b e = given_up (caught_up log.meanwhile f) b landed e

  -- What a proposal of a command with a kind reports is what became of its entry, whatever entries
  -- of others were committed first, where the json package reads the command back as it wrote it:
  -- success names the state that the machine now holds, which is the one that the command makes of
  -- the state when its entry's turn came; a refusal by the machine left that state as it was; and
  -- when this node does not lead, or lost the entry, the command was applied at its turn or not at
  -- all.
  pub propose-IsHonest :
      (log : Log) (f : Fsm)
      → Honest f
          (caught_up log.meanwhile f)
          c
          (propose encode unmarshal log f c).0
          (propose encode unmarshal log f c).1
  unfolding propose Honest
  propose-IsHonest log f = elim (Bool-cases log.leads) [
    | inr follows ↦ rw (propose, follows) (inl refl)
    | inl leads ↦ elim (Option-cases (encode c)) [
      | inl none_ ↦ rw (propose, leads, none_) refl
      | inr (b, e) ↦ rw (propose, leads, e) (commit_entry-Honest log log.fate f b e)
    ]
  ]
