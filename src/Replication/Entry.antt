-- ===== src/Replication/Entry.antt =====
-- `ReplicationEntry` of cache/replication/interface.go.
use fyer_cache.Prelude.{ℕ, List}
use fyer_cache.Prelude.Int.{ℤ}
use fyer_cache.Prelude.Str.{Str}

-- Times and durations are nanoseconds; the zero `time.Time` is 0.
pub record Entry : Type 0 where
  pub index : ℕ  -- uint64
  pub term : ℕ  -- uint64
  pub command : Str
  pub key : Str
  pub value : List ℕ
  pub expiration : ℤ
  pub timestamp : ℤ
  pub value_type : Str
