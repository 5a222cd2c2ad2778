-- ===== src/Policy/Tests.antt =====
-- Concrete lookups, and the theorems of `Freshness` and `Stamps` at them.
use distributed_rate_limiter.Prelude.{ℕ, [], ◌∷◌, bytes}
use distributed_rate_limiter.Prelude.Int.{pos}
use distributed_rate_limiter.Policy.{Policy, found, source_failed}
use distributed_rate_limiter.Policy.Cache.{Options, Cache, Flight}
use distributed_rate_limiter.Policy.Stamps.{Moment}

abbrev plan : Policy
plan = record {
  name = bytes "free";
  limits = [];
  matches = [];
  failure_mode = bytes "open";
  gen = 3;
}

abbrev options : Options
options = record { ttl = pos 5000000000; neg_ttl = pos 1000000000; stale_for = pos 300000000000 }

abbrev cache : Cache
cache = record {
  entries = (bytes "acme", record { answer = found plan; fetched_at = pos 0 }) ∷ [];
  hits = pos 0;
  misses = pos 0;
  stale = pos 0;
  invalidated = pos 0;
}

-- The source is down, six seconds later.
abbrev outage : Flight
outage = record {
  now = pos 6000000000;
  now_again = pos 6000000000;
  now_stored = pos 6000000000;
  gen = 4;
  later_gen = 5;
  source = source_failed;
}

abbrev query : Flight
query = record outage { source = found plan }

-- Every policy reflects four edits.
abbrev four : Policy → ℕ
four p = 4

abbrev before_edit : Moment
before_edit = record { edits = 4; gen = 4 }
