-- ===== src/MemCache/Expiry.antt =====
-- cache/memcache.go: what a `Get` returns after a `Set`, before and after the item expires.
use fyer_cache.Prelude.{zero}
use fyer_cache.Prelude.{
  arith, not, ◌&&◌, inr, ◌%◌, inl, suc, ◌+◌, ◌⊎◌, ◌≢◌, ℕ, ◌≡◌, refl, ◌∙◌, Bool, true, false, none,
  some, [], ◌∷◌, ◌++◌, if◌then◌else◌, nat_equality, beq_refl,
}
use fyer_cache.Prelude.Int.{negsuc, ltb_ℤ, pos, ℤ, ◌+ℤ◌}
use fyer_cache.Prelude.Str.{Str, str_equality}
use fyer_cache.Prelude.GoMap.{GoMap}
use fyer_cache.Prelude.Result.{ok, ◌>>=◌}
use fyer_cache.SkipMap.{one_more, load}
use fyer_cache.SkipMap.Shards.{Holding}
use fyer_cache.SkipMap.Reads.{load-store, load-delete_key}
use fyer_cache.MemCache.{
  is_zero, MemoryCache, CacheItem, set, get, get_loaded, get_item, expired, on_evict, record_hit,
  record_miss, is_zero,
}
use fyer_cache.SkipMap.{one_more}

module _ {V : Type 0} (flips : ℕ → Bool) (now later d : ℤ) (k : Str) (v : V) (c : MemoryCache V)
    (e : ℕ → GoMap Str (CacheItem V)) where
  and_false : (b : Bool) → b && false ≡ false
  and_false true = refl
  and_false false = refl

  unexpired : (t : ℤ) → (t ≡ pos 0) ⊎ (ltb_ℤ t later ≡ false) → expired later t ≡ false
  unfolding expired is_zero
  unexpired t (inl zero_time) = rw zero_time refl
  unexpired t (inr early) = rw early (and_false (not (is_zero t)))

  past_end : (t : ℤ) → t ≢ pos 0 → ltb_ℤ t later ≡ true → expired later t ≡ true
  unfolding expired is_zero
  past_end (pos zero) set_time past = absurd (set_time refl)
  past_end (pos (suc n)) set_time past = ground arith
  past_end (negsuc n) set_time past = rw past refl

  -- On a cache whose shards are well-formed, after `Set` of a key at a time, for a duration, a `Get`
  -- of the key that is not later than their sum, or whose sum is the zero time, returns the value,
  -- and leaves the entries and the calls of the callback as `Set` left them, one hit more, modulo
  -- 2^64, and the misses as they were.
  pub get-set_fresh :
      Holding c.entries e
      → (now +ℤ d ≡ pos 0) ⊎ (ltb_ℤ (now +ℤ d) later ≡ false)
      → (c' c'' : MemoryCache V) × (set flips now k v d c ≡ ok c')
        × (get later k c' ≡ ok (c'', some v))
        × (c''.entries ≡ c'.entries)
        × (c''.evicted ≡ c'.evicted)
        × (c''.stats.hits ≡ (c.stats.hits + 1) % 18446744073709551616)
        × (c''.stats.misses ≡ c.stats.misses)
  unfolding set get record_hit one_more
  get-set_fresh h early =
      let fresh = unexpired (now +ℤ d) early in
      let item : CacheItem V = record { value = v; expiration = now +ℤ d } in
      let (sm', run, _, seen) = load-store flips k k item c.entries e h in
      let found_it : load k sm' ≡ ok (some item, true) = seen ∙ rw (beq_refl k) refl in
      let c' : MemoryCache V = record c { entries = sm' } in
      (
        c',
        record c' { stats = record_hit c.stats },
        rw (run, ◌>>=◌) refl,
        rw (found_it, ◌>>=◌, get_loaded, fresh, get_item) refl,
        refl,
        refl,
        refl,
        refl,
      )

  -- On a cache whose shards are well-formed, after `Set` of a key at a time, for a duration, where
  -- their sum is not the zero time, a `Get` of the key that is later than the sum misses, leaves one
  -- miss more, modulo 2^64, and the hits as they were, tells the callback if there is one, and
  -- deletes the item.
  pub get-set-expired :
      Holding c.entries e
      → now +ℤ d ≢ pos 0
      → ltb_ℤ (now +ℤ d) later ≡ true
      → (c' c'' : MemoryCache V) × (set flips now k v d c ≡ ok c')
        × (get later k c' ≡ ok (c'', none))
        × (load k c''.entries ≡ ok (none, false))
        × (c''.stats.misses ≡ (c.stats.misses + 1) % 18446744073709551616)
        × (c''.stats.hits ≡ c.stats.hits)
        × (c''.evicted ≡ (if c.calls_back then c.evicted ++ (k, v) ∷ [] else c.evicted))
  unfolding set get on_evict record_miss one_more
  get-set-expired h set_time past =
      let old = past_end (now +ℤ d) set_time past in
      let item : CacheItem V = record { value = v; expiration = now +ℤ d } in
      let (sm', run, h', seen) = load-store flips k k item c.entries e h in
      let found_it : load k sm' ≡ ok (some item, true) = seen ∙ rw (beq_refl k) refl in
      let (sm'', run', _, gone) = load-delete_key k k sm' _ h' in
      let gone' : load k sm'' ≡ ok (none, false) = gone ∙ rw (beq_refl k) refl in
      let c' : MemoryCache V = record c { entries = sm' } in
      let c'' : MemoryCache V = record (on_evict k v (record c' { entries = sm'' })) {
        stats = record_miss c.stats;
      } in
      (
        c',
        c'',
        rw (run, ◌>>=◌) refl,
        rw (found_it, ◌>>=◌, get_loaded, old, get_item, run', ◌>>=◌) refl,
        gone',
        refl,
        refl,
        refl,
      )
