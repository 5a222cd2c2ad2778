-- ===== src/Lib.antt =====
-- The distributed rate limiter: the parts that decide whether a request is admitted, and the
-- replicated state that says which node decides. Paths are from the repository's root.
--
-- Limiter models internal/limiter. `Limit` is limit.go: `validate`, `capacity`, `emission` and
-- `tolerance` are the methods of `Limit`, `key` and `meta_key` are `Key` and `MetaKey`. `Request`
-- holds the types of a check. `Gcra` is gcra.go (`gcra_check` is `gcraCheck`), `Window` is window.go
-- (`window_check` is `windowCheck`), and `Memory` is memory.go: `Memory.Check.check` is `Check`,
-- which calls the two on the tenant's counters, and `sweep` is `Sweep`. Cluster models
-- internal/cluster: `State` is state.go, where `apply` is `Apply` and `replay` runs it over a log.
-- `Fsm` is fsm.go: `fsm_apply`, `snapshot` and `restore` are the methods of `FSM`. Storegen is
-- internal/storegen/guard.go: `check`, `fence` and `reconcile` are `Check`, `Fence` and `Reconcile`.
-- Policy is internal/policy/policy.go: `limits_for` is `LimitsFor`;
-- its child `Cache` is internal/policy/cache.go: `cache_lookup` is `Lookup`. Decide is
-- internal/decide/decide.go: `decide` is `Decide`, which asks the guard, then the owner of the tenant
-- (`maybe_forward`), and else decides with the policy source and a checker such as the store
-- (`decide_first`, with at most one second attempt, `decide_refreshed`).
-- Ring is internal/ring/ring.go: `new`, `owner` and `successors` are `New`, `Owner` and `Successors`;
-- `View` of Cluster is internal/cluster/cluster.go, where `new_view`, `adopt` and `replace` are `New`,
-- `Adopt` and `Replace`. Config is internal/config: `validate_config` is `Validate`, with
-- `validate_routes` of routes.go; `Policy.Load` is `NewStatic`. Auth is internal/auth/auth.go
-- (`tenant` is `Tenant`). Gateway is internal/gateway/server.go and proxy.go: `handle_check` and
-- `handle_proxy` resolve the tenant, read the cost and ask Decide. Grpcapi is
-- internal/grpcapi/server.go: `rpc_check` and `rpc_get_quota` are `Check` and `GetQuota`. Forward is
-- internal/forward/forward.go: `client_check` is `Check`, and `exchange` puts it before the service
-- of the other node. Events is internal/events/hub.go, whose goroutines take turns by `step`. Redis is
-- internal/limiter/redis: Redis.Script is check.lua, run to its end as Redis does, and
-- Redis.Client is redis.go, whose `check` is `Check`. Cluster.Consensus is internal/cluster/consensus.go,
-- whose `start`, `propose` and `seed` are `StartConsensus`, `Propose` and `Seed`. Admin is
-- internal/gateway/admin.go and cluster_admin.go: `serve_admin` takes a request through its guards
-- to its handler, and an edit reaches the log through `propose`. Redis.Identity
-- is storegen.go with storegen.lua, and eviction.go.
--
-- Numbers. An int64 or a time.Duration is an integer that wraps around at 64 bits where the code
-- computes with it; a uint64 wraps around likewise. A time.Time is an integer of nanoseconds, zero
-- at the source's zero time; a difference of two saturates as time.Time.Sub does. A division by
-- zero or an index out of range is `none`, or `panicked` in the store. A string is a list of bytes.
-- The decimal digits of a number are found on fuel of 20, which is enough below 2^64.
--
-- Parameters. SHA-256 is a function from bytes to bytes; the json package on entries and snapshots,
-- Unicode case folding, the counter store's identity and minting, the policy source, the checker,
-- xxhash, URL parsing, the JWT library, the store of keys, the trimming of spaces, the conversion of
-- durations into messages, the generation of keys, and the connections and calls of gRPC are
-- functions. The Redis server, the store behind the administration and what the raft library says of
-- an entry are records of operations and answers. Lua's numbers are whole, as they are exact below
-- 2^53, and the token bucket rounds each of them by a function. A Redis command answers: one that
-- raises an error is not modelled. The entries that others commit before a proposal's are a list.
-- sort.Slice and sort.Strings are an insertion sort, which orders members by id as it does, since
-- the ids are distinct, and points by
-- hash and id, so that two points that stay equal name one node.
--
-- Not modelled: the interleaving of goroutines, so that a check or a sweep is one step, the shards
-- of the store are one map and its `detached` mark is left out; the text of errors; the encodings
-- of the json package; the Redis, PostgreSQL, raft and gRPC libraries and the code that only calls
-- them; the YAML decoder; the reverse proxy; the making of keys and tokens, the reports on health,
-- the stream of decisions and the commands but for the members they configure.
pub mod Prelude
pub mod Limiter
pub mod Cluster
pub mod Ring
pub mod Config
pub mod Storegen
pub mod Policy
pub mod Decide
pub mod Auth
pub mod Gateway
pub mod Grpcapi
pub mod Forward
pub mod Events
pub mod Redis
pub mod Admin
