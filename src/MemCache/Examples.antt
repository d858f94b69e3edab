-- ===== src/MemCache/Examples.antt =====
-- Runs of the memory cache of cache/memcache.go.
use fyer_cache.Prelude.{
  ◌∙◌, inr, sym, ◌⊎◌, ◌≢◌, ℕ, ◌⊎◌, inr, ◌≢◌, ◌∙◌, sym, ◌≡◌, refl, Bool, true, false, none, some, [],
  ◌∷◌, ◌++◌, ltb, if◌then◌else◌, nat_equality,
}
use fyer_cache.Prelude.Int.{ltb_ℤ, pos, ◌+ℤ◌}
use fyer_cache.Prelude.Str.{Str, bytes}
use fyer_cache.Prelude.GoMap.{GoMap}
use fyer_cache.Prelude.Result.{ok}
use fyer_cache.SkipMap.{new_skip_sharded_map, load}
use fyer_cache.SkipMap.Counting.{Counted}
use fyer_cache.SkipMap.Fresh.{new_skip_sharded_map-Counted}
use fyer_cache.MemCache.{MemoryCache, CacheItem, set as put, get as find}
use fyer_cache.MemCache.Expiry.{get-set_fresh, get-set-expired}

abbrev tall : ℕ → Bool
tall n = ltb n 2

abbrev a : Str
a = bytes "a"

abbrev cache : MemoryCache ℕ
cache = record {
  entries = new_skip_sharded_map (pos 4);
  stats = record { hits = 0; misses = 0 };
  calls_back = true;
  evicted = [];
}

abbrev no_entries : ℕ → GoMap Str (CacheItem ℕ)
no_entries i = []

cache-Counted : Counted cache.entries no_entries
cache-Counted = new_skip_sharded_map-Counted (pos 4)

its_end : pos 100 +ℤ pos 50 ≡ pos 150
unfolding ◌+ℤ◌
its_end = refl

at_its_end : (pos 100 +ℤ pos 50 ≡ pos 0) ⊎ (ltb_ℤ (pos 100 +ℤ pos 50) (pos 150) ≡ false)
at_its_end = inr (rw its_end refl)

past_its_end : ltb_ℤ (pos 100 +ℤ pos 50) (pos 151) ≡ true
past_its_end = rw its_end refl

its_end_is_set : pos 100 +ℤ pos 50 ≢ pos 0
its_end_is_set e = let f : pos 150 ≡ pos 0 = sym its_end ∙ e in cc

get-set_fresh_example :
    (c' c'' : MemoryCache ℕ) × (put tall (pos 100) a 7 (pos 50) cache ≡ ok c')
    × (find (pos 150) a c' ≡ ok (c'', some 7))
    × (c''.entries ≡ c'.entries)
    × (c''.evicted ≡ c'.evicted)
    × (c''.stats.hits ≡ 1)
    × (c''.stats.misses ≡ 0)
get-set_fresh_example =
    get-set_fresh tall (pos 100) (pos 150) (pos 50) a 7 cache no_entries cache-Counted.holding
      at_its_end

get-set-expired_example :
    (c' c'' : MemoryCache ℕ) × (put tall (pos 100) a 7 (pos 50) cache ≡ ok c')
    × (find (pos 151) a c' ≡ ok (c'', none))
    × (load a c''.entries ≡ ok (none, false))
    × (c''.stats.misses ≡ 1)
    × (c''.stats.hits ≡ 0)
    × (c''.evicted ≡ (if cache.calls_back then cache.evicted ++ (a, 7) ∷ [] else cache.evicted))
get-set-expired_example =
    get-set-expired tall (pos 100) (pos 151) (pos 50) a 7 cache no_entries cache-Counted.holding
      its_end_is_set past_its_end
