-- ===== src/Events.antt =====
-- internal/events/hub.go: decisions for whoever is watching. A step is what one goroutine does at a
-- time; `none` is a panic, to send on a closed channel or to close one twice.
pub mod Delivery
mod Tests
use distributed_rate_limiter.Prelude.{
  ℕ, ◌+◌, ◌%◌, Bool, true, false, not, ◌&&◌, ◌||◌, ltb, ◌==◌, Option, none, some, List, [], ◌∷◌,
  ◌++◌, Text, text_eq, length, if◌then◌else◌,
}
use distributed_rate_limiter.Prelude.Int.{ℤ, pos, pos_part, leb_ℤ, add64}
use distributed_rate_limiter.Decide.{Published}

pub record Filter : Type 0 where
  pub tenants : List Text
  pub denied_only : Bool

-- A subscription and its channel. It is registered while the hub's map has it; `closing` is a stop
-- that has deleted it there and has not yet closed the channel, and `stopped` that the stop was
-- called, which `sync.Once` remembers.
pub record Subscription : Type 0 where
  pub id : ℕ
  pub filter : Filter
  pub queue : List Published
  pub registered : Bool
  pub stopped : Bool
  pub closing : Bool
  pub closed : Bool

pub record Hub : Type 0 where
  pub next : ℕ
  pub subs : List Subscription
  pub buffer : ℕ
  pub sent : ℤ
  pub dropped : ℤ

-- `NewHub`.
unfoldable pub new_hub : ℤ → Hub
new_hub buffer = record {
  next = 0;
  subs = [];
  buffer = if leb_ℤ buffer (pos 0) then 256 else pos_part buffer;
  sent = pos 0;
  dropped = pos 0;
}

unfoldable pub is_listed : Text → List Text → Bool
is_listed t [] = false
is_listed t (u ∷ us) = text_eq u t || is_listed t us

-- `Filter.matches`.
unfoldable pub matches : Filter → Published → Bool
unfolding is_listed
matches f d =
    if f.denied_only && d.allowed
    then false
    else elim f.tenants [ [] ↦ true | t ∷ ts ↦ is_listed d.tenant (t ∷ ts) ]

-- The `select` of `Publish` at a subscription that matches: the room in its channel.
unfoldable pub send : ℕ → Published → Subscription → Subscription
send buffer d s = if ltb (length s.queue) buffer then record s { queue = s.queue ++ d ∷ [] } else s

-- The loop of `Publish`, with the counts of what is sent and dropped.
unfoldable pub publish_all : Published → Hub → List Subscription → Option Hub
unfolding matches send
publish_all d h [] = some (record h { subs = [] })
publish_all d h (s ∷ ss) =
    if not s.registered || not (matches s.filter d)
    then keep s (publish_all d h ss)
    else if s.closed
    then none
    else if ltb (length s.queue) h.buffer
    then keep (send h.buffer d s) (count_sent (publish_all d h ss))
    else keep s (count_dropped (publish_all d h ss))
  where
    keep : Subscription → Option Hub → Option Hub
    keep s none = none
    keep s (some h) = some (record h { subs = s ∷ h.subs })

    count_sent : Option Hub → Option Hub
    count_sent none = none
    count_sent (some h) = some (record h { sent = add64 h.sent (pos 1) })

    count_dropped : Option Hub → Option Hub
    count_dropped none = none
    count_dropped (some h) = some (record h { dropped = add64 h.dropped (pos 1) })

-- `Publish`.
unfoldable pub publish_to : Published → Hub → Option Hub
unfolding publish_all
publish_to d h = publish_all d h h.subs

-- `Subscribe`.
unfoldable pub subscribe : Filter → Hub → Hub
subscribe f h = record h {
  next = (h.next + 1) % 18446744073709551616;
  subs =
      record {
        id = h.next;
        filter = f;
        queue = [];
        registered = true;
        stopped = false;
        closing = false;
        closed = false;
      }
      ∷ h.subs;
}

-- A receive from the channel.
unfoldable pub receive : Subscription → Subscription
receive s = elim s.queue [ [] ↦ s | d ∷ ds ↦ record s { queue = ds } ]

-- The delete of the first call of the stop function.
unfoldable pub begin_stop : Subscription → Subscription
begin_stop s =
    if s.stopped then s else record s { stopped = true; closing = true; registered = false }

-- Its close of the channel; `none` is a second close.
unfoldable pub end_stop : Subscription → Option Subscription
end_stop s =
    if not s.closing
    then some s
    else if s.closed
    then none
    else some (record s { closing = false; closed = true })

-- What happens to a hub: a call, or a half of a stop function, or a subscriber that receives.
pub data Event : Type 0 where
  subscribed : Filter → Event
  published : Published → Event
  received deleted_by_stop closed_by_stop : ℕ → Event

-- The subscription with the id, changed.
unfoldable pub change_at :
    (Subscription → Option Subscription) → ℕ → List Subscription → Option (List Subscription)
change_at f i [] = some []
change_at f i (s ∷ ss) = elim (change_at f i ss) [
  | none ↦ none
  | some rest ↦ elim (s.id == i) [
    | false ↦ some (s ∷ rest)
    | true ↦ elim (f s) [ none ↦ none | some s' ↦ some (s' ∷ rest) ]
  ]
]

abbrev with_subs : Hub → Option (List Subscription) → Option Hub
with_subs h none = none
with_subs h (some ss) = some (record h { subs = ss })

unfoldable pub step : Hub → Event → Option Hub
unfolding change_at subscribe publish_to receive begin_stop end_stop
step h (subscribed f) = some (subscribe f h)
step h (published d) = publish_to d h
step h (received i) = with_subs h (change_at (λ s. some (receive s)) i h.subs)
step h (deleted_by_stop i) = with_subs h (change_at (λ s. some (begin_stop s)) i h.subs)
step h (closed_by_stop i) = with_subs h (change_at end_stop i h.subs)

unfoldable pub run_hub : Hub → List Event → Option Hub
unfolding step
run_hub h [] = some h
run_hub h (e ∷ es) = elim (step h e) [ none ↦ none | some h' ↦ run_hub h' es ]
