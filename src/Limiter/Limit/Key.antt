-- ===== src/Limiter/Limit/Key.antt =====
-- internal/limiter/limit.go: where a limit's counter and a tenant's fences live. SHA-256 is a
-- parameter, a function from bytes to bytes.
use distributed_rate_limiter.Prelude.{◌∷◌, ◌++◌, Text, bytes}
use distributed_rate_limiter.Prelude.Format.{format_int, hex_encode, take}
use distributed_rate_limiter.Limiter.Limit.{
  Limit, Algorithm, token_bucket, sliding_window, other, capacity,
}

abbrev pub algorithm_name : Algorithm → Text
algorithm_name token_bucket = bytes "token_bucket"
algorithm_name sliding_window = bytes "sliding_window"
algorithm_name (other a) = a

-- The text that `fingerprint` hashes.
pub described : Limit → Text
described l =
    algorithm_name l.algorithm
    ++ (b'|'
        ∷ (format_int l.count
            ++ (b'|' ∷ (format_int l.period ++ (b'|' ∷ format_int (capacity l))))))

module _ (sha256 : Text → Text) where
  unfoldable pub fingerprint : Limit → Text
  unfolding described
  fingerprint l = hex_encode (take 4 (sha256 (described l)))

  -- `Key`.
  unfoldable pub key : Limit → Text → Text
  key l tenant = bytes "rl1:{" ++ (tenant ++ (bytes "}:" ++ (l.name ++ (b':' ∷ fingerprint l))))

-- `MetaKey`.
unfoldable pub meta_key : Text → Text
meta_key tenant = bytes "rl1meta:{" ++ (tenant ++ bytes "}")
