-- ===== src/Forward.antt =====
-- internal/forward/forward.go: a check that another node is asked to decide. gRPC's connections and
-- calls, and `durationpb`, are parameters; the timeout of a call is a reply of the caller's library.
pub mod Relay
mod Tests
use distributed_rate_limiter.Prelude.{
  ℕ, zero, suc, ◌+◌, ◌%◌, Bool, true, false, Option, none, some, List, [], ◌∷◌, Text, bytes,
  text_eq, if◌then◌else◌,
}
use distributed_rate_limiter.Prelude.Int.{ℤ, pos, negsuc, ltb_ℤ, add64, wrap64, rem64, pos_part}
use distributed_rate_limiter.Prelude.Map.{lookup, insert}
use distributed_rate_limiter.Limiter.Request.{Decision, Result}
use distributed_rate_limiter.Policy.{Policy}
use distributed_rate_limiter.Decide.{
  Query, Outcome, Degraded, PeerReply, peer_answered, peer_unavailable, peer_failed, missing,
  disabled, cost_exceeds,
}
use distributed_rate_limiter.Grpcapi.{
  Code, not_found, permission_denied, invalid_argument, unavailable, internal, unauthenticated,
  other_code, Metadata, CheckRequest, LimitState, Quota, RpcReply, quota, status,
}

-- A pool of connections to a peer, with the counter of its calls.
pub record Peer : Type 0 where
  pub conns : ℕ
  pub next : ℕ

pub record Client : Type 0 where
  pub pool_size : ℕ
  pub timeout : ℤ
  pub peers : List (Text × Peer)
  pub forwarded : ℤ
  pub failed : ℤ

-- `New` with the options for the pool and the timeout.
unfoldable pub new_client : ℤ → ℤ → Client
new_client pool_size timeout = record {
  pool_size = if ltb_ℤ (pos 0) pool_size then pos_part pool_size else 4;
  timeout = if ltb_ℤ (pos 0) timeout then timeout else pos 250000000;
  peers = [];
  forwarded = pos 0;
  failed = pos 0;
}

-- `dial`: the peer with the pool that is open or opened; `none` is a failure to open.
unfoldable pub dial : (Text → Bool) → Text → Client → Client × Option Peer
dial opens addr c = elim (lookup addr c.peers) [
  | some p ↦ (c, some p)
  | none ↦
      let fresh : Peer = record { conns = c.pool_size; next = 0 } in
      if opens addr then (record c { peers = insert addr fresh c.peers }, some fresh) else (c, none)
]

-- The place `int(i) % len(p.conns)`; `none` is an index out of range or a division by 0.
unfoldable pub place_of : ℕ → ℕ → Option ℕ
place_of i n = elim (rem64 (wrap64 (pos i)) (pos n)) [
  | none ↦ none
  | some (pos k) ↦ some k
  | some (negsuc k) ↦ none
]

-- The connection that `conn` takes: the client after it, and the place in the pool, or no pool.
pub data Conn : Type 0 where
  conn_at : ℕ → Conn
  no_conn out_of_range : Conn

abbrev conn_of : Option ℕ → Conn
conn_of (some k) = conn_at k
conn_of none = out_of_range

-- `conn`.
unfoldable pub conn : (Text → Bool) → Text → Client → Client × Conn
unfolding dial place_of
conn opens addr c =
    let (c', found) = dial opens addr c in
    elim found [
      | none ↦ (c', no_conn)
      | some p ↦
          let i = (p.next + 1) % 18446744073709551616 in
          (
            record c' { peers = insert addr (record p { next = i }) c'.peers },
            conn_of (place_of i p.conns),
          )
    ]

-- `translate`: `none` is an error that is no status.
unfoldable pub translate : Option Code → PeerReply
translate none = peer_unavailable
translate (some not_found) = peer_failed missing
translate (some permission_denied) = peer_failed disabled
translate (some invalid_argument) = peer_failed cost_exceeds
translate (some unauthenticated) = peer_unavailable
translate (some unavailable) = peer_unavailable
translate (some internal) = peer_unavailable
translate (some (other_code c)) = peer_unavailable

-- What a call returns: the peer's reply, or an error that is no status.
pub data Called (D : Type 0) : Type 0 where
  returned : RpcReply D → Called D
  broken : Called D

-- The two requests that a query is sent as.
pub data Rpc : Type 0 where
  check_rpc get_quota_rpc : CheckRequest → Rpc

unfoldable pub rpc_for : Query → Rpc
rpc_for q =
    if q.peek
    then get_quota_rpc
        (record { tenant_id = q.tenant; cost = pos 0; method = q.method; path = q.path })
    else check_rpc
        (record { tenant_id = q.tenant; cost = q.cost; method = q.method; path = q.path })

-- The metadata of a forwarded call: that it is one, and nothing else.
unfoldable pub hop_metadata : Metadata
hop_metadata k = if text_eq k (bytes "x-ratelimit-hop") then bytes "1" ∷ [] else []

module _ {D : Type 0} (as_duration : D → ℤ) where
  -- The loop of `outcomeOf`.
  unfoldable pub decisions_of : List (LimitState D) → List Decision
  decisions_of [] = []
  decisions_of (l ∷ ls) =
      record {
        name = l.name;
        allowed = l.allowed;
        limit = l.limit;
        remaining = l.remaining;
        retry_after = as_duration l.retry_after;
        reset_after = as_duration l.reset_after;
      }
      ∷ decisions_of ls

  -- `outcomeOf`.
  unfoldable pub outcome_of : Quota D → Outcome
  unfolding decisions_of
  outcome_of q = record {
    result = record {
      allowed = q.allowed;
      decisions = decisions_of q.limits;
      limiting = q.limiting;
    };
    policy = record { name = q.policy; limits = []; matches = []; failure_mode = []; gen = 0 };
    degraded = q.degraded;
    owner = [];
    forwarded = false;
  }

  -- What `Check` makes of a call.
  unfoldable pub received : Called D → PeerReply
  unfolding outcome_of translate
  received broken = translate none
  received (returned (status c)) = translate (some c)
  received (returned (quota q)) = peer_answered (outcome_of q)

  abbrev counted : PeerReply → Client → Client
  counted (peer_answered o) c = record c { forwarded = add64 c.forwarded (pos 1) }
  counted peer_unavailable c = record c { failed = add64 c.failed (pos 1) }
  counted (peer_failed e) c = c

  -- `Check`, over the calls that the connections make; `none` is the panic of an index out of range.
  unfoldable pub client_check :
      (Text → Bool)
      → (Text → ℕ → Metadata → Rpc → Called D)
      → Text
      → Query
      → Client
      → Client × Option PeerReply
  unfolding conn received rpc_for hop_metadata
  client_check opens call addr q c =
      let (c', at) = conn opens addr c in
      elim at [
        | out_of_range ↦ (c', none)
        | no_conn ↦ (record c' { failed = add64 c'.failed (pos 1) }, some peer_unavailable)
        | conn_at k ↦
            let reply = received (call addr k hop_metadata (rpc_for q)) in
            (counted reply c', some reply)
      ]
