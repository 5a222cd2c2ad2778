-- ===== src/Events/Tests.antt =====
-- A hub with a buffer of one, a subscriber that does not read, and one that stops.
use distributed_rate_limiter.Prelude.{◌≡◌, List, [], ◌∷◌, All, bytes, true, false, some}
use distributed_rate_limiter.Prelude.Int.{pos}
use distributed_rate_limiter.Decide.{Published}
use distributed_rate_limiter.Events.{
  Hub, Filter, Event, subscribed, published, deleted_by_stop, closed_by_stop, new_hub, run_hub,
}
use distributed_rate_limiter.Events.Delivery.{IsSound, run_hub-AreSound}

abbrev all_tenants : Filter
all_tenants = record { tenants = []; denied_only = false }

abbrev admitted : Published
admitted = record {
  tenant = bytes "acme";
  policy = bytes "free";
  allowed = true;
  limiting = [];
  node = bytes "a";
  cost = pos 1;
  at = pos 0;
}

abbrev watching : List Event
watching =
    subscribed all_tenants
    ∷ subscribed all_tenants
    ∷ published admitted
    ∷ deleted_by_stop 1
    ∷ published admitted
    ∷ closed_by_stop 1
    ∷ published admitted
    ∷ []

run_hub-AreSound_example :
    (h : Hub) × (run_hub (new_hub (pos 1)) watching ≡ some h)
    × ((h.buffer ≡ (new_hub (pos 1)).buffer) × All (IsSound (new_hub (pos 1)).buffer) h.subs)
run_hub-AreSound_example = run_hub-AreSound (pos 1) watching
