-- ===== src/Policy/Stamps.antt =====
-- What a cached policy's generation says of it, while edits go on beside the lookups. An edit of
-- internal/gateway/admin.go is two steps: the store is written, and then the generation is bumped.
use distributed_rate_limiter.Prelude.{ℕ, ◌+◌, ◌≤◌, ◌<◌, ◌≡◌, some, List, [], ◌∷◌, Text}
use distributed_rate_limiter.Prelude.Map.{lookup}
use distributed_rate_limiter.Policy.{
  Policy, Found, found, tenant_not_found, tenant_disabled, source_failed,
}
use distributed_rate_limiter.Policy.Cache.{Entry, Options, Cache, Flight, cache_lookup}

-- How many edits the store has taken, and the generation that is committed.
pub record Moment : Type 0 where
  pub edits : ℕ
  pub gen : ℕ

-- What edits do: each writes the store first and bumps the generation after that.
pub data Leads : Moment → Moment → Type 0 where
  stays : {w : Moment} → Leads w w
  writes : {w x : Moment} → Leads (record w { edits = w.edits + 1 }) x → Leads w x
  bumps : {w x : Moment} → w.gen < w.edits → Leads (record w { gen = w.gen + 1 }) x → Leads w x

-- Every bump so far comes from an edit that is written.
abbrev pub IsSettled : Moment → Type 0
IsSettled w = w.gen ≤ w.edits

-- The lookups of a sequence, each with its tenant and what it met.
pub lookups : Options → List (Text × Flight) → Cache → Cache
lookups opts [] c = c
lookups opts ((tenant, w) ∷ rest) c = lookups opts rest (cache_lookup opts tenant w c).0

-- `edits_in` is the number of edits that a policy reflects, whatever generation it is stamped with.
module _ (edits_in : Policy → ℕ) where
  -- A policy is stamped with no more edits than it reflects.
  abbrev pub IsUnder : Found → Type 0
  IsUnder (found p) = p.gen ≤ edits_in p
  IsUnder tenant_not_found = 0 ≤ 0
  IsUnder tenant_disabled = 0 ≤ 0
  IsUnder source_failed = 0 ≤ 0

  -- A policy is the one of the store at this moment.
  abbrev pub IsOf : Moment → Found → Type 0
  IsOf x (found p) = edits_in p ≡ x.edits
  IsOf x tenant_not_found = 0 ≤ 0
  IsOf x tenant_disabled = 0 ≤ 0
  IsOf x source_failed = 0 ≤ 0

  -- A flight beside edits: it reads the generation in one moment, the store answers in a later one,
  -- and it ends in one that is later still.
  pub record Overlaps (w : Flight) : Type 0 where
    pub begun : Moment
    pub settled : IsSettled begun
    pub asked : Moment
    pub ended : Moment
    pub to_asked : Leads begun asked
    pub to_ended : Leads asked ended
    pub read : w.gen ≡ begun.gen
    pub read_after : w.later_gen ≡ ended.gen
    pub answered : IsOf asked w.source

  abbrev pub AreUnder : Cache → Type 0
  AreUnder c = (tenant : Text) (e : Entry) → lookup tenant c.entries ≡ some e → IsUnder e.answer
