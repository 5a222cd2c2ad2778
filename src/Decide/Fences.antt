-- ===== src/Decide/Fences.antt =====
-- What an answer rests on, and what a fence does.
use distributed_rate_limiter.Prelude.{
  ◌≡◌, ◌≢◌, ◌⊎◌, refl, arith, true, false, none, some, [], Text, text_eq_iff, bytes,
}
use distributed_rate_limiter.Prelude.Int.{pos, add64}
use distributed_rate_limiter.Storegen.{Guard, check, fence, latch}
use distributed_rate_limiter.Policy.{Policy, found, fails_closed}
use distributed_rate_limiter.Decide.{
  Query, Outcome, fenced, Answer, answered, failed, Reply, decided, store_reset, no_answer, Parts,
  Service, finish, retry_or_finish, refresh_or_ask, first_attempt, decide_first, decide, look, ask,
  is_outdated, drop_stale,
}

-- The outcome is the checker's, or the checker could not say and the policy fails open.
abbrev pub IsBacked : Outcome → Policy → Reply → Type 0
IsBacked out pol r =
    (out.policy ≡ pol)
    × (((r ≡ decided out.result) × (out.degraded ≡ none))
        ⊎ ((text : Text) × (r ≡ no_answer text)
            × (fails_closed pol ≡ false)
            × (out.degraded ≡ some (record { reason = text; mode = bytes "open" }))))

module _ {S K : Type 0} (parts : Parts S K) where
  -- Where an attempt at a question asked in state `s` begins: there, or, once the cached policy is
  -- dropped, from what the first attempt left: after its lookup, or after its call of the checker
  -- with the policy it found.
  pub data BeginsAt (q : Query) (s : Service S K) : Service S K → Type 0 where
    at_first : BeginsAt q s s
    after_lookup : BeginsAt q s (drop_stale parts q (look parts q s).0)
    after_check :
        (pol : Policy)
        → (look parts q s).1 ≡ found pol
        → BeginsAt q s (drop_stale parts q (ask parts q pol (look parts q s).0).0)

  -- An attempt looked the policy up, and the checker, asked at once with the policy that the lookup
  -- returned, backs the outcome.
  abbrev pub IsAuthorised : Query → Service S K → Outcome → Type 0
  IsAuthorised q s out =
      (u : Service S K) × BeginsAt q s u
      × (pol : Policy) × ((look parts q u).1 ≡ found pol)
      × IsBacked out pol (ask parts q pol (look parts q u).0).1

  -- What an attempt that begins at `u` answers is authorised.
  abbrev Second : (Service S K → Service S K × Answer) → Query → Service S K → Outcome → Type 0
  Second retry q s out =
      (u : Service S K) → BeginsAt q s u → (retry u).1 ≡ answered out → IsAuthorised q s out

  -- While the guard is closed, every question that names a tenant is refused as fenced, whatever the
  -- tenant's policy says, and nothing happens but the counting of it: no peer, policy source or
  -- checker is asked and nothing is published.
  pub decide-closed :
      (q : Query) (s : Service S K) (g : Guard)
      → q.tenant ≢ []
      → s.guard ≡ some g
      → g.blocked ≡ true
      → decide parts q s ≡ (
        record s {
          guard = some (record g { denials = add64 g.denials (pos 1) });
          store_fenced = add64 s.store_fenced (pos 1);
        },
        failed fenced none,
      )
  unfolding decide check
  decide-closed q s g named guarded closed = ground (arith, text_eq_iff q.tenant [])

  fence-closed : (text : Text) (g : Guard) → (fence text g).blocked ≡ true
  unfolding latch
  fence-closed text g = refl

  -- One reset closes the node: when the checker, asked with a policy that is not outdated, says that
  -- the store is another one, then every next question, of any tenant, is refused as fenced.
  pub reset_refuses_all :
      (q next : Query) (s : Service S K) (g : Guard) (pol : Policy)
      → s.guard ≡ some g
      → (look parts q s).1 ≡ found pol
      → is_outdated parts pol ≡ false
      → (ask parts q pol (look parts q s).0).1 ≡ store_reset
      → next.tenant ≢ []
      → ((decide_first parts q s).1 ≡ failed fenced (some pol))
        × ((decide parts next (decide_first parts q s).0).1 ≡ failed fenced none)
  unfolding decide_first first_attempt refresh_or_ask retry_or_finish finish decide check latch look
      ask
  reset_refuses_all q next s g pol guarded got fresh reset named =
      (ground arith, ground (arith, text_eq_iff next.tenant []))
