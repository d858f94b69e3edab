-- ===== src/SkipMap/Reads.antt =====
-- cache/skipmap.go: what `Load` returns after a `Store` or a `Delete`.
use fyer_cache.Prelude.{
  ℕ, ◌≡◌, refl, ap, inl, inr, Bool, true, false, Option, none, some, nat_beq, if◌then◌else◌,
  nat_beq_iff, Bool-cases, nat_equality,
}
use fyer_cache.Prelude.Str.{Str, str_equality}
use fyer_cache.Prelude.Str
use fyer_cache.Prelude.GoMap.{GoMap, lookup, delete as delete_entry, lookup-delete}
use fyer_cache.Prelude.Result.{Result, ok}
use fyer_cache.SkipList.{Fault}
use fyer_cache.SkipList.Lookup.{found}
use fyer_cache.SkipList.Ordered.{insert_ordered, lookup-insert_ordered}
use fyer_cache.SkipList.Rereads.{Models-Ascending}
use fyer_cache.SkipMap.{SkipShardedMap, shard_index, store, load, delete_key}
use fyer_cache.SkipMap.Shards.{
  Holding, own_shard, load_lem, store_lem, delete_lem, own_entries, at_shard,
}

module _ {V : Type 0} where
  lookup-own_entries :
      (k j : Str) (f : GoMap Str V → GoMap Str V) (r : Option V) (mask : ℕ) (c : ℕ → GoMap Str V)
      → lookup j (f (c (shard_index k mask)))
        ≡ (if Str.eq k j then r else lookup j (c (shard_index k mask)))
      → lookup j (own_entries k f mask c (shard_index j mask))
        ≡ (if Str.eq k j then r else lookup j (c (shard_index j mask)))
  unfolding own_entries at_shard
  lookup-own_entries k j f r mask c e =
      elim (Bool-cases (nat_beq (shard_index k mask) (shard_index j mask))) [
        | inl t ↦
            let same : shard_index k mask ≡ shard_index j mask = (nat_beq_iff _ _).0 t in
            rw (t, ← same) e
        | inr g ↦ elim (Bool-cases (Str.eq k j)) [
          | inl t ↦
              let same : k ≡ j = (Str.eq_iff k j).0 t in
              let back =
                (nat_beq_iff (shard_index k mask) (shard_index j mask)).1
                  (ap (λ x. shard_index x mask) same) in
              cc
          | inr u ↦ rw (g, u) refl
        ]
      ]

  found-if :
      (b : Bool) (r o : Option V)
      → ◌≡◌ {A = Result Fault (Option V × Bool)}
          (ok (found (if b then r else o)))
          (if b then ok (found r) else ok (found o))
  found-if true r o = refl
  found-if false r o = refl

  -- On a map whose shards are well-formed, `Store` succeeds and leaves such a map; a `Load` of its
  -- key then returns the value, and a `Load` of any other key what it returned before.
  pub load-store :
      (flips : ℕ → Bool) (k j : Str) (v : V) (sm : SkipShardedMap V) (c : ℕ → GoMap Str V)
      → Holding sm c
      → (sm' : SkipShardedMap V) × (store flips k v sm ≡ ok sm')
        × Holding sm' (own_entries k (insert_ordered k v) sm.mask c)
        × (load j sm' ≡ (if Str.eq k j then ok (some v, true) else load j sm))
  load-store flips k j v sm c h =
      let (sm', run, mask, h', _, _) = store_lem flips k v sm c h in
      let (s, _, _, m) = own_shard sm c k h in
      let after =
        lookup-own_entries k j (insert_ordered k v) (some v) sm.mask c
          (lookup-insert_ordered k j v (c (shard_index k sm.mask)) (Models-Ascending s _ m)) in
      (
        sm',
        run,
        h',
        rw (load_lem sm' _ j h', mask, after, load_lem sm c j h)
            (found-if (Str.eq k j) (some v) (lookup j (c (shard_index j sm.mask)))),
      )

  -- On a map whose shards are well-formed, `Delete` succeeds and leaves such a map; a `Load` of its
  -- key then misses, and a `Load` of any other key returns what it returned before.
  pub load-delete_key :
      (k j : Str) (sm : SkipShardedMap V) (c : ℕ → GoMap Str V)
      → Holding sm c
      → (sm' : SkipShardedMap V) × (delete_key k sm ≡ ok sm')
        × Holding sm' (own_entries k (delete_entry k) sm.mask c)
        × (load j sm' ≡ (if Str.eq k j then ok (none, false) else load j sm))
  load-delete_key k j sm c h =
      let (sm', run, mask, h', _, _) = delete_lem k sm c h in
      let after =
        lookup-own_entries k j (delete_entry k) none sm.mask c
          (lookup-delete k j (c (shard_index k sm.mask))) in
      (
        sm',
        run,
        h',
        rw (load_lem sm' _ j h', mask, after, load_lem sm c j h)
            (found-if (Str.eq k j) none (lookup j (c (shard_index j sm.mask)))),
      )
