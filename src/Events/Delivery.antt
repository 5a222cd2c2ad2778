-- ===== src/Events/Delivery.antt =====
-- However the goroutines take turns, no channel is misused and no subscriber falls further behind than
-- its buffer.
use distributed_rate_limiter.Prelude.{
  ℕ, ◌≤◌, ◌≡◌, inl, inr, refl, ap, ◌∙◌, arith, Bool, true, false, not, ◌||◌, ltb, ◌==◌, Option,
  some, List, [], ◌∷◌, length, length-append, All, if◌then◌else◌, Bool-cases,
}
use distributed_rate_limiter.Prelude.Int.{ℤ, pos, add64}
use distributed_rate_limiter.Decide.{Published}
use distributed_rate_limiter.Events.{
  Subscription, Hub, new_hub, matches, send, publish_all, publish_to, subscribe, receive,
  begin_stop, end_stop, Event, subscribed, published, received, deleted_by_stop, closed_by_stop,
  change_at, step, run_hub,
}

-- A channel that somebody may still send on or close is open, and holds no more than its room.
pub record IsSound (buffer : ℕ) (s : Subscription) : Type 0 where
  pub open_while_registered : s.registered ≡ true → s.closed ≡ false
  pub open_while_closing : s.closing ≡ true → s.closed ≡ false
  pub closing_after_stop : s.closing ≡ true → (s.registered ≡ false) × (s.stopped ≡ true)
  pub open_until_stopped : s.stopped ≡ false → s.closed ≡ false
  pub bounded : length s.queue ≤ buffer

send-IsSound :
    (buffer : ℕ) (d : Published) (s : Subscription)
    → IsSound buffer s
    → IsSound buffer (send buffer d s)
unfolding send
send-IsSound buffer d s k = elim (Bool-cases (ltb (length s.queue) buffer)) [
  | inr full ↦ rw full k
  | inl room ↦ rw room (record {
    open_while_registered = k.open_while_registered;
    open_while_closing = k.open_while_closing;
    closing_after_stop = k.closing_after_stop;
    open_until_stopped = k.open_until_stopped;
    bounded = let e = length-append s.queue (d ∷ []) in ground arith;
  })
]

receive-IsSound : (buffer : ℕ) (s : Subscription) → IsSound buffer s → IsSound buffer (receive s)
unfolding receive
receive-IsSound buffer s k = split s.queue refl
  where
    split :
        (q : List Published)
        → s.queue ≡ q
        → IsSound buffer (elim q [ [] ↦ s | d ∷ ds ↦ record s { queue = ds } ])
    split [] e = k
    split (d ∷ ds) e = record {
      open_while_registered = k.open_while_registered;
      open_while_closing = k.open_while_closing;
      closing_after_stop = k.closing_after_stop;
      open_until_stopped = k.open_until_stopped;
      bounded = let b = k.bounded in let l = ap length e in omega arith;
    }

begin_stop-IsSound :
    (buffer : ℕ) (s : Subscription) → IsSound buffer s → IsSound buffer (begin_stop s)
unfolding begin_stop
begin_stop-IsSound buffer s k = split s.stopped refl
  where
    split :
        (b : Bool)
        → s.stopped ≡ b
        → IsSound buffer
            (if b then s else record s { stopped = true; closing = true; registered = false })
    split true e = k
    split false e = record {
      open_while_registered = λ x. cc;
      open_while_closing = λ x. k.open_until_stopped e;
      closing_after_stop = λ x. (refl, refl);
      open_until_stopped = λ x. cc;
      bounded = k.bounded;
    }

end_stop-IsSound :
    (buffer : ℕ) (s : Subscription)
    → IsSound buffer s
    → (s' : Subscription) × (end_stop s ≡ some s') × IsSound buffer s'
unfolding end_stop
end_stop-IsSound buffer s k = elim (Bool-cases s.closing) [
  | inr e ↦ (s, rw e refl, k)
  | inl e ↦
      let open_ = k.open_while_closing e in
      (record s { closing = false; closed = true }, rw (e, open_) refl, ended e)
]
  where
    ended : s.closing ≡ true → IsSound buffer (record s { closing = false; closed = true })
    ended e = record {
      open_while_registered = λ x. cc ((k.closing_after_stop e).0, x);
      open_while_closing = λ x. cc;
      closing_after_stop = λ x. cc;
      open_until_stopped = λ x. cc ((k.closing_after_stop e).1, x);
      bounded = k.bounded;
    }

publish_all-AreSound :
    (d : Published) (h : Hub) (ss : List Subscription)
    → All (IsSound h.buffer) ss
    → (h' : Hub) × (publish_all d h ss ≡ some h')
      × ((h'.buffer ≡ h.buffer) × All (IsSound h.buffer) h'.subs)
unfolding publish_all
publish_all-AreSound d h [] k = (record h { subs = [] }, refl, (refl, tt))
publish_all-AreSound d h (s ∷ ss) (k, ks) =
    let (h1, e, (same, k1)) = publish_all-AreSound d h ss ks in
    elim (Bool-cases (not s.registered || not (matches s.filter d))) [
      | inl skipped ↦ (record h1 { subs = s ∷ h1.subs }, rw (skipped, e) refl, (same, (k, k1)))
      | inr wanted ↦
          let is_registered : s.registered ≡ true = ground (arith, wanted) in
          let is_open = k.open_while_registered is_registered in
          elim (Bool-cases (ltb (length s.queue) h.buffer)) [
            | inl room ↦ (
              record h1 { sent = add64 h1.sent (pos 1); subs = send h.buffer d s ∷ h1.subs },
              rw (wanted, is_open, room, e) refl,
              (same, (send-IsSound h.buffer d s k, k1)),
            )
            | inr full ↦ (
              record h1 { dropped = add64 h1.dropped (pos 1); subs = s ∷ h1.subs },
              rw (wanted, is_open, full, e) refl,
              (same, (k, k1)),
            )
          ]
    ]

change_at-AreSound :
    (buffer : ℕ) (f : Subscription → Option Subscription) (i : ℕ) (ss : List Subscription)
    → ((s : Subscription)
        → IsSound buffer s
        → (s' : Subscription) × (f s ≡ some s') × IsSound buffer s')
    → All (IsSound buffer) ss
    → (ss' : List Subscription) × (change_at f i ss ≡ some ss') × All (IsSound buffer) ss'
unfolding change_at
change_at-AreSound buffer f i [] g k = ([], refl, tt)
change_at-AreSound buffer f i (s ∷ ss) g (k, ks) =
    let (rest, e, rs) = change_at-AreSound buffer f i ss g ks in
    let (s', fs, k') = g s k in
    elim (Bool-cases (s.id == i)) [
      | inl same ↦ (s' ∷ rest, rw (change_at, e, same, fs) refl, (k', rs))
      | inr other ↦ (s ∷ rest, rw (change_at, e, other) refl, (k, rs))
    ]

step-AreSound :
    (h : Hub) (e : Event)
    → All (IsSound h.buffer) h.subs
    → (h' : Hub) × (step h e ≡ some h') × ((h'.buffer ≡ h.buffer) × All (IsSound h.buffer) h'.subs)
unfolding step subscribe publish_to
step-AreSound h (subscribed f) k = (
  subscribe f h,
  refl,
  (
    refl,
    (
      record {
        open_while_registered = λ x. refl;
        open_while_closing = λ x. refl;
        closing_after_stop = λ x. cc;
        open_until_stopped = λ x. refl;
        bounded = omega arith;
      },
      k,
    ),
  ),
)
step-AreSound h (published d) k = publish_all-AreSound d h h.subs k
step-AreSound h (received i) k =
    let (ss, e, ks) =
      change_at-AreSound h.buffer (λ s. some (receive s)) i h.subs
        (λ s j. (receive s, refl, receive-IsSound h.buffer s j)) k in
    (record h { subs = ss }, rw (step, e) refl, (refl, ks))
step-AreSound h (deleted_by_stop i) k =
    let (ss, e, ks) =
      change_at-AreSound h.buffer (λ s. some (begin_stop s)) i h.subs
        (λ s j. (begin_stop s, refl, begin_stop-IsSound h.buffer s j)) k in
    (record h { subs = ss }, rw (step, e) refl, (refl, ks))
step-AreSound h (closed_by_stop i) k =
    let (ss, e, ks) =
      change_at-AreSound h.buffer end_stop i h.subs (λ s j. end_stop-IsSound h.buffer s j) k in
    (record h { subs = ss }, rw (step, e) refl, (refl, ks))

run_from-AreSound :
    (es : List Event) (h : Hub)
    → All (IsSound h.buffer) h.subs
    → (h' : Hub) × (run_hub h es ≡ some h')
      × ((h'.buffer ≡ h.buffer) × All (IsSound h.buffer) h'.subs)
unfolding run_hub
run_from-AreSound [] h k = (h, refl, (refl, k))
run_from-AreSound (e ∷ es) h k =
    let (h1, s, (same, k1)) = step-AreSound h e k in
    let (h2, r, (same', k2)) = run_from-AreSound es h1 (rw same k1) in
    (h2, rw (run_hub, s) r, (same' ∙ same, rw (← same) k2))

-- Whatever calls, receives and halves of stop functions follow one another, none of them sends on a
-- closed channel or closes one twice, and no channel ever holds more than the hub's buffer.
pub run_hub-AreSound :
    (buffer : ℤ) (es : List Event)
    → (h : Hub) × (run_hub (new_hub buffer) es ≡ some h)
      × ((h.buffer ≡ (new_hub buffer).buffer) × All (IsSound (new_hub buffer).buffer) h.subs)
unfolding new_hub
run_hub-AreSound buffer es = run_from-AreSound es (new_hub buffer) tt
