-- ===== src/Decide/Routing.antt =====
-- Which node answers.
use distributed_rate_limiter.Prelude.{◌≡◌, arith, Bool, true, false, Option, none, some, Text}
use distributed_rate_limiter.Prelude.Int.{pos, add64}
use distributed_rate_limiter.Cluster.Members.{Node}
use distributed_rate_limiter.Decide.{
  Query, answered, failed, Parts, Service, PeerReply, decide_first, decide_open, maybe_forward,
  peer_answered, peer_unavailable, peer_failed,
}

module _ {S K : Type 0} (parts : Parts S K) where
  -- A question that a peer sent is never sent on: whatever the ring says and the peers would answer, the
  -- node decides it itself.
  pub decide-forwarded :
      (q : Query) (s : Service S K)
      → q.forwarded ≡ true
      → decide_open parts q s ≡ decide_first parts q s
  unfolding decide_open maybe_forward
  decide-forwarded q s sent = ground arith

  -- A node sends a question on exactly once, marked, to the owner that the ring names, and gives back
  -- what the owner answered, naming it, or the error it gave; if the owner does not answer, the node
  -- decides itself.
  pub decide-owned :
      (q : Query) (s : Service S K) (view : Text → Option (Node × Bool))
      (send : Text → Query → PeerReply) (owner : Node)
      → parts.owner_of ≡ some view
      → parts.forward ≡ some send
      → q.forwarded ≡ false
      → view q.tenant ≡ some (owner, false)
      → decide_open parts q s ≡ elim (send owner.addr (record q { forwarded = true })) [
        | peer_answered out ↦ (
          record s { forwarded = add64 s.forwarded (pos 1) },
          answered (record out { owner = owner.id; forwarded = true }),
        )
        | peer_unavailable ↦
            decide_first parts q (record s { fell_back = add64 s.fell_back (pos 1) })
        | peer_failed e ↦ (s, failed e none)
      ]
  unfolding decide_open maybe_forward
  decide-owned q s view send owner ring peers first named = ground arith
