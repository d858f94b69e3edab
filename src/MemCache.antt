-- ===== src/MemCache.antt =====
-- cache/memcache.go: `MemoryCache` (its `data` is `entries` here), over the sharded map, with the counters of cache/stats.go. A time
-- is a number of nanoseconds from Go's zero time, and `now` the clock's reading. `evicted` lists
-- the calls of `onEvict`, for a cache that has the callback.
pub mod Expiry
pub mod Cleaning
mod Examples
use fyer_cache.Prelude.{
  ℕ, zero, suc, ◌+◌, ◌-◌, ◌*◌, ◌/◌, ◌%◌, ◌^◌, ◌≤◌, ◌<◌, ◌≡◌, refl, sym, ap, ◌∙◌, ◌≢◌, ◌↔◌, ◌⊎◌, inl,
  inr, Bool, true, false, not, ◌&&◌, ◌||◌, Option, none, some, List, [], ◌∷◌, ◌++◌, map,
  append_assoc, append-nil, arith, ltb, leb, nat_beq, if◌then◌else◌, ltb→lt, lt→ltb, leb→le,
  nat_beq_iff, tests, Bool-cases, Option-cases, length, get_elem?, take, drop, replicate,
  length-append, take-append-drop, length-take, length-drop, take_of_length-le, get_elem?-some,
  get_elem?-none, Equality, ◌==◌, nat_equality, beq_refl, beq-eq, beq_ne,
}
use fyer_cache.Prelude.Int.{ℤ, pos, negsuc, ◌+ℤ◌, ltb_ℤ}
use fyer_cache.Prelude.Str.{Str}
use fyer_cache.Prelude.Result.{Result, ok, err, panic, ◌>>=◌}
use fyer_cache.SkipList.{Fault}
use fyer_cache.SkipMap.{SkipShardedMap, store, load, delete_key, load_and_delete, one_more}

pub record CacheItem (V : Type 0) : Type 0 where
  pub value : V
  pub expiration : ℤ

pub record StatsCollector : Type 0 where
  pub hits : ℕ
  pub misses : ℕ

pub record MemoryCache (V : Type 0) : Type 0 where
  pub entries : SkipShardedMap (CacheItem V)
  pub stats : StatsCollector
  pub calls_back : Bool
  pub evicted : List (Str × V)

unfoldable pub record_hit : StatsCollector → StatsCollector
unfolding one_more
record_hit s = record s { hits = one_more s.hits }

unfoldable pub record_miss : StatsCollector → StatsCollector
unfolding one_more
record_miss s = record s { misses = one_more s.misses }

unfoldable pub is_zero : ℤ → Bool
is_zero (pos n) = nat_beq n 0
is_zero (negsuc n) = false

-- `!expiration.IsZero() && now.After(expiration)`
unfoldable pub expired : ℤ → ℤ → Bool
unfolding is_zero
expired now expiration = not (is_zero expiration) && ltb_ℤ expiration now

module _ {V : Type 0} where
  unfoldable pub on_evict : Str → V → MemoryCache V → MemoryCache V
  on_evict key value c = record c {
    evicted = if c.calls_back then c.evicted ++ (key, value) ∷ [] else c.evicted;
  }

  unfoldable pub set : (ℕ → Bool) → ℤ → Str → V → ℤ → MemoryCache V → Result Fault (MemoryCache V)
  set flips now key value expiration c = do
    entries ← store flips key (record { value = value; expiration = now +ℤ expiration }) c.entries
    ok (record c { entries = entries })

  -- `Get` of an item that is there.
  unfoldable pub get_item :
      Bool → Str → CacheItem V → MemoryCache V → Result Fault (MemoryCache V × Option V)
  unfolding on_evict record_hit record_miss
  get_item true key item c = do
    entries ← delete_key key c.entries
    ok (
      record (on_evict key item.value (record c { entries = entries })) {
        stats = record_miss c.stats;
      },
      none,
    )
  get_item false key item c = ok (record c { stats = record_hit c.stats }, some item.value)

  -- `none` stands for `ErrKeyNotFound`.
  unfoldable pub get_loaded :
      ℤ
      → Str
      → Option (CacheItem V) × Bool
      → MemoryCache V
      → Result Fault (MemoryCache V × Option V)
  unfolding get_item expired record_miss
  get_loaded now key (value, false) c = ok (record c { stats = record_miss c.stats }, none)
  get_loaded now key (none, true) c = panic
  get_loaded now key (some item, true) c = get_item (expired now item.expiration) key item c

  unfoldable pub get : ℤ → Str → MemoryCache V → Result Fault (MemoryCache V × Option V)
  unfolding get_loaded
  get now key c = do loaded ← load key c.entries; get_loaded now key loaded c

  unfoldable pub del : Str → MemoryCache V → Result Fault (MemoryCache V)
  unfolding on_evict
  del key c = do
    (entries, (value, loaded)) ← load_and_delete key c.entries
    elim loaded [
      | false ↦ ok (record c { entries = entries })
      | true ↦ elim value [
        | none ↦ panic
        | some item ↦ ok (on_evict key item.value (record c { entries = entries }))
      ]
    ]
