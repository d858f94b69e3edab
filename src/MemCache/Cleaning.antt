-- ===== src/MemCache/Cleaning.antt =====
-- cache/memcache.go: `cleanUp`, `GetRange`, `Close` and `ItemCount`. The goroutine that `GetRange`
-- starts for an expired item is a step of its own.
use fyer_cache.SkipMap.{delete_key}
use fyer_cache.Prelude.Int.{ℤ}
use fyer_cache.SkipList.{Fault}
use fyer_cache.MemCache.{MemoryCache, CacheItem, expired, on_evict}
use fyer_cache.SkipMap.Ranges.{below_limit, range_all, range_keys, count}
use fyer_cache.Prelude.Str.{Str, str_equality}
use fyer_cache.Prelude.GoMap.{GoMap, insert}
use fyer_cache.Prelude.Result.{Result, ok, panic, ◌>>=◌}
use fyer_cache.Prelude.{
  ℕ, ◌+◌, Bool, true, false, Option, none, some, List, [], ◌∷◌, ◌++◌, if◌then◌else◌, nat_equality,
}

-- What a `GetRange` collects: the results, their number, and the items it will remove.
pub record Collecting (V : Type 0) : Type 0 where
  pub results : GoMap Str V
  pub found_count : ℕ
  pub doomed : List (Str × V)

module _ {V : Type 0} where
  -- Removes the item and tells the callback.
  unfoldable pub evict_item : Str → CacheItem V → MemoryCache V → Result Fault (MemoryCache V)
  unfolding on_evict
  evict_item key item c = do
    entries ← delete_key key c.entries
    ok (on_evict key item.value (record c { entries = entries }))

  -- The callback of `cleanUp`.
  unfoldable pub clean_item :
      ℤ → Str → Option (CacheItem V) → MemoryCache V → Result Fault (MemoryCache V × Bool)
  unfolding expired evict_item
  clean_item now key none c = panic
  clean_item now key (some item) c =
      if expired now item.expiration
      then (evict_item key item c >>= λ c'. ok (c', true))
      else ok (c, true)

  unfoldable pub clean_up : ℤ → MemoryCache V → Result Fault (MemoryCache V)
  unfolding clean_item
  clean_up now c = range_all (λ x. x.entries) (clean_item now) c

  -- The callback of `GetRange`; a nil item would panic, and no shard holds one.
  unfoldable pub collect_item :
      ℤ → ℤ → Str → Option (CacheItem V) → Collecting V → Collecting V × Bool
  unfolding expired below_limit insert
  collect_item now limit key none r = (r, false)
  collect_item now limit key (some item) r =
      if expired now item.expiration
      then (record r { doomed = r.doomed ++ (key, item.value) ∷ [] }, true)
      else (
        record r { results = insert key item.value r.results; found_count = r.found_count + 1 },
        below_limit limit (r.found_count + 1),
      )

  unfoldable pub get_range : ℤ → Str → Str → ℤ → MemoryCache V → Result Fault (Collecting V)
  unfolding collect_item
  get_range now start_key end_key limit c =
      range_keys (collect_item now limit) start_key end_key limit
        (record { results = []; found_count = 0; doomed = [] }) c.entries

  -- The goroutine for one of the items that had expired.
  unfoldable pub remove_doomed : Str → V → MemoryCache V → Result Fault (MemoryCache V)
  unfolding on_evict
  remove_doomed key value c = do
    entries ← delete_key key c.entries
    ok (on_evict key value (record c { entries = entries }))

  unfoldable pub item_count : MemoryCache V → ℕ
  item_count c = count c.entries
