-- ===== src/SkipMap.antt =====
-- cache/skipmap.go: `SkipShardedMap`, over the skip list. A shard's methods run under its lock, so
-- each is one step. An `int64` counter is kept as its 64 bits.
pub mod Shards
pub mod Reads
pub mod Taking
pub mod Counting
pub mod Fresh
pub mod Ranges
pub mod Visits
mod Examples
use fyer_cache.Prelude.{
  ℕ, zero, suc, ◌+◌, ◌-◌, ◌*◌, ◌/◌, ◌%◌, ◌^◌, ◌≤◌, ◌<◌, ◌≡◌, refl, sym, ap, ◌∙◌, ◌≢◌, ◌↔◌, ◌⊎◌, inl,
  inr, Bool, true, false, not, ◌&&◌, ◌||◌, Option, none, some, List, [], ◌∷◌, ◌++◌, map,
  append_assoc, append-nil, arith, ltb, leb, nat_beq, if◌then◌else◌, ltb→lt, lt→ltb, leb→le,
  nat_beq_iff, tests, Bool-cases, Option-cases, length, get_elem?, take, drop, replicate,
  length-append, take-append-drop, length-take, length-drop, take_of_length-le, get_elem?-some,
  get_elem?-none, Equality, ◌==◌, nat_equality, beq_refl, beq-eq, beq_ne,
}
use fyer_cache.Prelude.{set as replace}
use fyer_cache.Prelude.Int.{ℤ, pos, negsuc}
use fyer_cache.Prelude.Str.{Str}
use fyer_cache.Prelude.Result.{Result, ok, err, panic, ◌>>=◌}
use fyer_cache.SkipList.{SkipList, Fault, new_skip_list, get, set, delete}

pub record SkipShardedMap (V : Type 0) : Type 0 where
  pub shards : List (SkipList V)
  pub count : ℕ
  pub mask : ℕ
  pub item_count : ℕ

abbrev pub default_shard_count : ℕ
default_shard_count = 32

-- `a & b` on `w` bits.
unfoldable pub and_bits : ℕ → ℕ → ℕ → ℕ
and_bits zero a b = 0
and_bits (suc w) a b = (if nat_beq (a % 2) 1 then b % 2 else 0) + 2 * and_bits w (a / 2) (b / 2)

-- `a ^ b` on `w` bits.
unfoldable pub xor_bits : ℕ → ℕ → ℕ → ℕ
xor_bits zero a b = 0
xor_bits (suc w) a b = (a % 2 + b % 2) % 2 + 2 * xor_bits w (a / 2) (b / 2)

-- `fnv.New32`: FNV-1 on 32 bits.
unfoldable pub fnv32 : ℕ → Str → ℕ
unfolding xor_bits
fnv32 hash [] = hash
fnv32 hash (c ∷ key) = fnv32 (xor_bits 32 ((hash * 16777619) % 4294967296) c) key

unfoldable pub shard_index : Str → ℕ → ℕ
unfolding fnv32 and_bits
shard_index key mask = and_bits 32 (fnv32 2166136261 key) mask

-- The least power of two from `p` on that is `n` or more.
unfoldable pub round_up : ℕ → ℕ → ℕ → ℕ
round_up zero p n = p
round_up (suc fuel) p n = let rest = round_up fuel (2 * p) n in if leb n p then p else rest

-- For the counts whose slice of shards fits the memory; in Go the others panic or, in `float64`, are
-- rounded.
unfoldable pub shards_for : ℤ → ℕ
unfolding round_up
shards_for (pos zero) = default_shard_count
shards_for (negsuc n) = default_shard_count
shards_for (pos (suc n)) = round_up (suc n) 1 (suc n)

unfoldable pub shard_at {ℓ} : {A : Type ℓ} → ℕ → List A → Result Fault A
shard_at i shards = elim (get_elem? shards i) [ none ↦ panic | some s ↦ ok s ]

-- `atomic.AddInt64` of 1 and of -1
unfoldable pub one_more : ℕ → ℕ
one_more n = (n + 1) % 18446744073709551616

unfoldable pub one_less : ℕ → ℕ
one_less n = (n + 18446744073709551615) % 18446744073709551616

module _ {V : Type 0} where
  unfoldable pub new_skip_sharded_map : ℤ → SkipShardedMap V
  unfolding shards_for new_skip_list
  new_skip_sharded_map shard_count = record {
    shards = replicate (shards_for shard_count) new_skip_list;
    count = shards_for shard_count;
    mask = (shards_for shard_count - 1) % 4294967296;
    item_count = 0;
  }

  -- The map with another shard at `i`, and another count.
  unfoldable pub with_shard : ℕ → SkipList V → ℕ → SkipShardedMap V → SkipShardedMap V
  with_shard i s n sm = record sm { shards = replace sm.shards i s; item_count = n }

  unfoldable pub store : (ℕ → Bool) → Str → V → SkipShardedMap V → Result Fault (SkipShardedMap V)
  unfolding shard_at with_shard one_more
  store flips key value sm = do
    shard ← shard_at (shard_index key sm.mask) sm.shards
    (_, exists) ← get key shard
    shard' ← set flips key value shard
    ok (
        with_shard (shard_index key sm.mask) shard'
          (if exists then sm.item_count else one_more sm.item_count) sm)

  unfoldable pub load : Str → SkipShardedMap V → Result Fault (Option V × Bool)
  unfolding shard_at
  load key sm = do shard ← shard_at (shard_index key sm.mask) sm.shards; get key shard

  unfoldable pub delete_key : Str → SkipShardedMap V → Result Fault (SkipShardedMap V)
  unfolding shard_at with_shard one_less
  delete_key key sm = do
    shard ← shard_at (shard_index key sm.mask) sm.shards
    (shard', deleted) ← delete key shard
    ok (
        with_shard (shard_index key sm.mask) shard'
          (if deleted then one_less sm.item_count else sm.item_count) sm)

  unfoldable pub load_and_delete :
      Str → SkipShardedMap V → Result Fault (SkipShardedMap V × (Option V × Bool))
  unfolding shard_at with_shard one_less
  load_and_delete key sm = do
    shard ← shard_at (shard_index key sm.mask) sm.shards
    (value, exists) ← get key shard
    elim exists [
      | false ↦ ok (sm, (none, false))
      | true ↦ do
        (shard', _) ← delete key shard
        ok (with_shard (shard_index key sm.mask) shard' (one_less sm.item_count) sm, (value, true))
    ]
