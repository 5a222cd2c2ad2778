-- ===== src/Policy/Cache.antt =====
-- internal/policy/cache.go: the policies kept in process. A lookup is one step: the single flight
-- makes the concurrent ones of a tenant share it.
use distributed_rate_limiter.Prelude.{
  ℕ, Bool, true, false, not, ◌&&◌, Option, none, some, List, [], Text, length, if◌then◌else◌,
}
use distributed_rate_limiter.Prelude.Int.{ℤ, pos, ltb_ℤ, leb_ℤ, add64, sub_time}
use distributed_rate_limiter.Prelude.Map.{lookup, insert, delete}
use distributed_rate_limiter.Policy.{Found, found, tenant_not_found, tenant_disabled, source_failed}

-- A cached answer, a policy or a fact about the tenant, and when it was stored.
pub record Entry : Type 0 where
  pub answer : Found
  pub fetched_at : ℤ

pub record Options : Type 0 where
  pub ttl : ℤ
  pub neg_ttl : ℤ
  pub stale_for : ℤ

pub record Cache : Type 0 where
  pub entries : List (Text × Entry)
  pub hits : ℤ
  pub misses : ℤ
  pub stale : ℤ
  pub invalidated : ℤ

-- What a lookup meets: the clock when it starts, in the flight and when it stores, the generation
-- that is committed when the query begins and the one when it has been answered, since an edit may
-- come between, and what the source answers.
pub record Flight : Type 0 where
  pub now : ℤ
  pub now_again : ℤ
  pub now_stored : ℤ
  pub gen : ℕ
  pub later_gen : ℕ
  pub source : Found

-- The time an answer lives: a policy's or a fact's.
unfoldable pub life : Options → Found → ℤ
life o (found p) = o.ttl
life o tenant_not_found = o.neg_ttl
life o tenant_disabled = o.neg_ttl
life o source_failed = o.neg_ttl

-- `expired`.
unfoldable pub is_expired : Options → Entry → ℤ → Bool
unfolding life
is_expired o e now = leb_ℤ (life o e.answer) (sub_time now e.fetched_at)

-- `p.Gen = gen`.
unfoldable pub stamped : ℕ → Found → Found
stamped gen (found p) = found (record p { gen = gen })
stamped gen tenant_not_found = tenant_not_found
stamped gen tenant_disabled = tenant_disabled
stamped gen source_failed = source_failed

unfoldable pub is_answer : Found → Bool
is_answer (found p) = true
is_answer tenant_not_found = true
is_answer tenant_disabled = true
is_answer source_failed = false

-- A fetched answer is stored, and counted as a miss.
unfoldable pub store_fetched : Text → Flight → Cache → Cache × Found
unfolding stamped
store_fetched tenant w c =
    let fresh : Entry = record { answer = stamped w.gen w.source; fetched_at = w.now_stored } in
    (
      record c { entries = insert tenant fresh c.entries; misses = add64 c.misses (pos 1) },
      stamped w.gen w.source,
    )

-- An entry not too old is served when the source cannot be reached.
unfoldable pub serves_stale : Options → Entry → ℤ → Bool
serves_stale o e now = ltb_ℤ (pos 0) o.stale_for && leb_ℤ (sub_time now e.fetched_at) o.stale_for

-- `Lookup` when it does not hit, with the entry that it found.
unfoldable pub fetch : Options → Text → Flight → Cache → Option Entry → Cache × Found
unfolding store_fetched is_expired is_answer serves_stale
fetch o tenant w c none =
    if is_answer w.source then store_fetched tenant w c else (c, source_failed)
fetch o tenant w c (some e) =
    if not (is_expired o e w.now_again)
    then (record c { misses = add64 c.misses (pos 1) }, e.answer)
    else if is_answer w.source
    then store_fetched tenant w c
    else if serves_stale o e w.now
    then (record c { stale = add64 c.stale (pos 1) }, e.answer)
    else (c, source_failed)

-- `Lookup` with the entry that it found.
unfoldable pub serve_entry : Options → Text → Flight → Cache → Option Entry → Cache × Found
unfolding fetch is_expired
serve_entry o tenant w c none = fetch o tenant w c none
serve_entry o tenant w c (some e) =
    if not (is_expired o e w.now)
    then (record c { hits = add64 c.hits (pos 1) }, e.answer)
    else fetch o tenant w c (some e)

-- `Lookup`.
unfoldable pub cache_lookup : Options → Text → Flight → Cache → Cache × Found
unfolding serve_entry
cache_lookup o tenant w c = serve_entry o tenant w c (lookup tenant c.entries)

-- `Invalidate`.
unfoldable pub invalidate : Text → Cache → Cache
invalidate tenant c = record c {
  entries = delete tenant c.entries;
  invalidated = add64 c.invalidated (pos 1);
}

-- `InvalidateAll`.
unfoldable pub invalidate_all : Cache → Cache
invalidate_all c = record c {
  entries = [];
  invalidated = add64 c.invalidated (pos (length c.entries));
}
