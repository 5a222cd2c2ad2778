-- ===== src/Policy/Freshness.antt =====
-- What the cache may answer with.
use distributed_rate_limiter.Prelude.{
  ◌≡◌, ◌⊎◌, inl, inr, refl, false, none, some, Text, text_eq_refl, Bool-cases,
}
use distributed_rate_limiter.Prelude.Int.{sub_time, ◌≤ℤ◌, ◌<ℤ◌}
use distributed_rate_limiter.Prelude.Map.{lookup, lookup-delete}
use distributed_rate_limiter.Policy.{Found, found, tenant_not_found, tenant_disabled, source_failed}
use distributed_rate_limiter.Policy.Cache.{
  Entry, Options, Cache, Flight, life, stamped, is_answer, store_fetched, fetch, serve_entry,
  cache_lookup, invalidate,
}

-- An entry young enough: younger than its life at one of the two readings of the clock, or, while
-- the source cannot be reached, no older than `StaleFor`.
abbrev pub IsServable : Options → Flight → Entry → Type 0
IsServable o w e =
    (sub_time w.now e.fetched_at <ℤ life o e.answer)
    ⊎ (sub_time w.now_again e.fetched_at <ℤ life o e.answer)
    ⊎ ((w.source ≡ source_failed) × (sub_time w.now e.fetched_at ≤ℤ o.stale_for))

-- An answer: the source's, under the generation read before the query; or a servable entry's.
abbrev pub IsCurrent : Options → Text → Flight → Cache → Found → Type 0
IsCurrent o tenant w c f =
    (f ≡ stamped w.gen w.source)
    ⊎ ((e : Entry) × (lookup tenant c.entries ≡ some e) × (f ≡ e.answer) × IsServable o w e)

not_an_answer : (f : Found) → is_answer f ≡ false → f ≡ source_failed
unfolding is_answer
not_an_answer (found p) h = cc
not_an_answer tenant_not_found h = cc
not_an_answer tenant_disabled h = cc
not_an_answer source_failed h = refl

stamped_failure : (w : Flight) → is_answer w.source ≡ false → source_failed ≡ stamped w.gen w.source
unfolding stamped
stamped_failure w h = rw (not_an_answer w.source h) refl

-- Such an answer, for the entry that was found.
abbrev IsCurrentOf : Options → Flight → Entry → Found → Type 0
IsCurrentOf o w e f = (f ≡ stamped w.gen w.source) ⊎ ((f ≡ e.answer) × IsServable o w e)

-- With no entry, only the source's answer will do.
serve_none :
    (o : Options) (tenant : Text) (w : Flight) (c : Cache)
    → (serve_entry o tenant w c none).1 ≡ stamped w.gen w.source
unfolding serve_entry fetch store_fetched
serve_none o tenant w c = elim (Bool-cases (is_answer w.source)) [
  | inl told ↦ rw told refl
  | inr mute ↦ rw mute (stamped_failure w mute)
]

-- After a tenant is invalidated, the next lookup of it answers what the source answers now, never an
-- older entry, also when the source cannot be reached.
pub lookup-invalidate :
    (o : Options) (tenant : Text) (w : Flight) (c : Cache)
    → (cache_lookup o tenant w (invalidate tenant c)).1 ≡ stamped w.gen w.source
unfolding cache_lookup invalidate
lookup-invalidate o tenant w c =
    rw (lookup-delete tenant tenant c.entries, text_eq_refl tenant)
      (serve_none o tenant w (invalidate tenant c))
