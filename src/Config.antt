-- ===== src/Config.antt =====
-- internal/config/config.go: the configuration file's sections and their defaults. A
-- `time.Duration` is an int64 of nanoseconds, and a Go map is an association list in some order.
pub mod Checks
pub mod RouteChecks
pub mod ClusterChecks
pub mod PolicyChecks
pub mod Validate
pub mod Limits
pub mod Accepted
pub mod Adding
pub mod Joining
mod Tests
use distributed_rate_limiter.Prelude.{ℕ, Bool, true, false, List, [], Text, bytes}
use distributed_rate_limiter.Prelude.Int.{ℤ, pos}
use distributed_rate_limiter.Limiter.Limit.{Limit}

pub record NodeConfig : Type 0 where
  pub id : Text
  pub http_addr : Text
  pub grpc_addr : Text
  pub shutdown_grace : ℤ
  pub read_timeout : ℤ
  pub write_timeout : ℤ

pub record LimiterConfig : Type 0 where
  pub backend : Text
  pub sweep_interval : ℤ
  pub max_keys : ℤ

pub record RedisConfig : Type 0 where
  pub addr : Text
  pub password : Text
  pub db : ℤ
  pub pool_size : ℤ
  pub timeout : ℤ

pub record PostgresConfig : Type 0 where
  pub dsn : Text

pub record PolicyConfig : Type 0 where
  pub limits : List Limit
  pub failure_mode : Text

pub record Policies : Type 0 where
  pub default_ : Text
  pub named : List (Text × PolicyConfig)
  pub tenants : List (Text × Text)

pub record PolicyStore : Type 0 where
  pub store : Text
  pub cache_ttl : ℤ
  pub negative_cache_ttl : ℤ
  pub stale_for : ℤ
  pub listen_for_changes : Bool

pub record AuthConfig : Type 0 where
  pub api_keys : Bool
  pub jwt_secret_env : Text
  pub jwt_issuer : Text
  pub jwt_audience : Text
  pub jwt_tenant_claim : Text
  pub admin_token_env : Text

pub record CheckApi : Type 0 where
  pub trust_tenant_header : Bool

pub record RaftConfig : Type 0 where
  pub enabled : Bool
  pub dir : Text
  pub advertise : Text
  pub heartbeat_timeout : ℤ
  pub election_timeout : ℤ
  pub leader_lease_timeout : ℤ
  pub commit_timeout : ℤ

pub record Member : Type 0 where
  pub id : Text
  pub addr : Text
  pub raft_addr : Text

pub record ClusterConfig : Type 0 where
  pub members : List Member
  pub vnodes : ℤ
  pub forward_timeout : ℤ
  pub forward_pool_size : ℤ
  pub raft : RaftConfig

pub record Route : Type 0 where
  pub name : Text
  pub path_prefix : Text
  pub upstream : Text
  pub strip_prefix : Text

pub record Config : Type 0 where
  pub node : NodeConfig
  pub limiter : LimiterConfig
  pub redis : RedisConfig
  pub postgres : PostgresConfig
  pub policies : Policies
  pub policy : PolicyStore
  pub auth : AuthConfig
  pub check_api : CheckApi
  pub cluster : ClusterConfig
  pub routes : List Route

abbrev no_raft : RaftConfig
no_raft = record {
  enabled = false;
  dir = [];
  advertise = [];
  heartbeat_timeout = pos 0;
  election_timeout = pos 0;
  leader_lease_timeout = pos 0;
  commit_timeout = pos 0;
}

-- `Defaults`.
abbrev pub defaults : Config
defaults = record {
  node = record {
    id = bytes "gateway-1";
    http_addr = bytes ":8080";
    grpc_addr = bytes ":9090";
    shutdown_grace = pos 10000000000;
    read_timeout = pos 5000000000;
    write_timeout = pos 10000000000;
  };
  limiter = record { backend = bytes "memory"; sweep_interval = pos 30000000000; max_keys = pos 0 };
  redis = record {
    addr = bytes "127.0.0.1:6379";
    password = [];
    db = pos 0;
    pool_size = pos 64;
    timeout = pos 250000000;
  };
  postgres = record { dsn = [] };
  policies = record { default_ = []; named = []; tenants = [] };
  policy = record {
    store = bytes "static";
    cache_ttl = pos 5000000000;
    negative_cache_ttl = pos 1000000000;
    stale_for = pos 300000000000;
    listen_for_changes = true;
  };
  auth = record {
    api_keys = true;
    jwt_secret_env = bytes "GATEWAY_JWT_SECRET";
    jwt_issuer = [];
    jwt_audience = [];
    jwt_tenant_claim = bytes "tid";
    admin_token_env = bytes "GATEWAY_ADMIN_TOKEN";
  };
  check_api = record { trust_tenant_header = true };
  cluster = record {
    members = [];
    vnodes = pos 0;
    forward_timeout = pos 0;
    forward_pool_size = pos 0;
    raft = no_raft;
  };
  routes = [];
}
