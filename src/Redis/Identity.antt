-- ===== src/Redis/Identity.antt =====
-- internal/limiter/redis/storegen.go with storegen.lua, and eviction.go: what a store says it is,
-- the generation that names it, and whether it may discard keys. `strings.TrimSpace` is a
-- parameter.
use distributed_rate_limiter.Prelude.{
  ℕ, zero, suc, Bool, true, false, ◌&&◌, not, ◌==◌, ltb, Option, none, some, List, [], ◌∷◌, Text,
  bytes, text_eq, ◌++◌, if◌then◌else◌,
}
use distributed_rate_limiter.Prelude.Int.{ℤ, pos, ltb_ℤ, ◌==ℤ◌}
use distributed_rate_limiter.Prelude.Format.{format_int}
use distributed_rate_limiter.Gateway.Numbers.{parse_digits, parse_int}

-- `strconv.ParseUint(s, 10, 64)`.
unfoldable pub parse_uint : Text → Option ℕ
unfolding parse_digits
parse_uint [] = none
parse_uint (b ∷ bs) = elim (parse_digits 0 (b ∷ bs)) [
  | none ↦ none
  | some n ↦ if ltb 18446744073709551615 n then none else some n
]

-- What `GET` answers: no key, an error, or the value.
pub data Got : Type 0 where
  missing unread : Got
  value : Text → Got

-- `strings.Split(s, "\n")`, with the line read so far in reverse.
unfoldable pub reversed_onto : Text → Text → Text
reversed_onto [] done = done
reversed_onto (b ∷ bs) done = reversed_onto bs (b ∷ done)

unfoldable pub split_lines : Text → Text → List Text
unfolding reversed_onto
split_lines line [] = reversed_onto line [] ∷ []
split_lines line (b ∷ bs) =
    let rest = split_lines [] bs in
    let more = split_lines (b ∷ line) bs in if b == 10 then reversed_onto line [] ∷ rest else more

-- `strings.CutPrefix`.
unfoldable pub cut_prefix : Text → Text → Option Text
cut_prefix [] t = some t
cut_prefix (p ∷ ps) [] = none
cut_prefix (p ∷ ps) (b ∷ bs) = if p == b then cut_prefix ps bs else none

-- storegen.lua, on the value of the one key: what it is afterwards, and the answer.
unfoldable pub name_store : Option Text → Text → Option Text × Text
name_store none candidate = (some candidate, candidate)
name_store (some current) candidate = (some current, current)

pub record Eviction : Type 0 where
  pub policy : Text
  pub max_memory : ℤ
  pub evicted : ℤ
  pub known : Bool

abbrev pub no_eviction : Text
no_eviction = bytes "noeviction"

-- `Fatal` and `Latent`.
unfoldable pub is_fatal : Eviction → Bool
is_fatal e = e.known && (not (text_eq e.policy no_eviction) && ltb_ℤ (pos 0) e.max_memory)

unfoldable pub is_latent : Eviction → Bool
is_latent e = e.known && (not (text_eq e.policy no_eviction) && (e.max_memory ==ℤ pos 0))

abbrev pub unknown_eviction : Eviction
unknown_eviction = record { policy = []; max_memory = pos 0; evicted = pos 0; known = false }

module _ (trim : Text → Text) where
  -- `runID`, on the lines.
  unfoldable pub run_id_in : List Text → Text
  unfolding cut_prefix
  run_id_in [] = []
  run_id_in (line ∷ lines) = elim (cut_prefix (bytes "run_id:") (trim line)) [
    | some rest ↦ trim rest
    | none ↦ run_id_in lines
  ]

  unfoldable pub run_id_of : Text → Text
  unfolding run_id_in split_lines
  run_id_of info = run_id_in (split_lines [] info)

  -- The generation that `Identity` reads: 0 for a key that is absent.
  unfoldable pub generation_of : Got → Option ℕ
  unfolding parse_uint
  generation_of missing = some 0
  generation_of unread = none
  generation_of (value raw) = parse_uint (trim raw)

  -- `Identity`: `none` is an error.
  unfoldable pub identity : Got → Option Text → Option (ℕ × Text)
  unfolding generation_of run_id_of
  identity got info = elim (generation_of got) [
    | none ↦ none
    | some gen ↦ elim info [ none ↦ none | some text ↦ some (gen, run_id_of text) ]
  ]

  -- `MintStoreGeneration` of a call that is answered.
  unfoldable pub mint : Option Text → ℕ → Option Text × Option ℕ
  unfolding name_store parse_uint
  mint stored zero = (stored, none)
  mint stored (suc n) =
      let (stored', s) = name_store stored (format_int (pos (suc n))) in
      (stored', parse_uint (trim s))

  -- Several gateways, one after the other.
  unfoldable pub mints : Option Text → List ℕ → Option Text × List (Option ℕ)
  unfolding mint
  mints stored [] = (stored, [])
  mints stored (c ∷ cs) =
      let (stored', r) = mint stored c in
      let (stored'', rs) = mints stored' cs in (stored'', r ∷ rs)

  -- `statField`, on the lines.
  unfoldable pub stat_in : Text → List Text → ℤ
  unfolding cut_prefix
  stat_in name [] = pos 0
  stat_in name (line ∷ lines) =
      let more = stat_in name lines in
      elim (cut_prefix (name ++ (b':' ∷ [])) (trim line)) [
        | none ↦ more
        | some rest ↦ elim (parse_int (trim rest)) [ none ↦ more | some n ↦ n ]
      ]

  -- `Eviction`, from what `CONFIG GET` and `INFO stats` answer.
  unfoldable pub eviction : (Text → Option Text) → Option Text → Eviction
  unfolding stat_in split_lines
  eviction config stats = elim (config (bytes "maxmemory-policy")) [
    | none ↦ unknown_eviction
    | some policy ↦ elim (config (bytes "maxmemory")) [
      | none ↦ unknown_eviction
      | some limit ↦ record {
        policy = policy;
        max_memory = elim (parse_int (trim limit)) [ none ↦ pos 0 | some n ↦ n ];
        evicted = elim stats [
          | none ↦ pos 0
          | some info ↦ stat_in (bytes "evicted_keys") (split_lines [] info)
        ];
        known = true;
      }
    ]
  ]
