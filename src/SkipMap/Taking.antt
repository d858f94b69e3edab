-- ===== src/SkipMap/Taking.antt =====
-- cache/skipmap.go: `LoadAndDelete` against `Load` and `Delete`.
use fyer_cache.Prelude.{
  ℕ, ap, ◌≡◌, refl, ◌∙◌, sym, inl, inr, Bool, true, false, Option, none, some, if◌then◌else◌,
  Bool-cases, Option-cases, nat_equality,
}
use fyer_cache.Prelude.Str.{Str, str_equality}
use fyer_cache.Prelude.Str
use fyer_cache.Prelude.GoMap.{GoMap, lookup, delete as delete_entry}
use fyer_cache.Prelude.Result.{ok, ◌>>=◌}
use fyer_cache.SkipList.{get, delete}
use fyer_cache.SkipList.Lookup.{get_lem}
use fyer_cache.SkipList.Deletion.{delete-Models}
use fyer_cache.SkipMap.{
  SkipShardedMap, shard_index, load, delete_key, load_and_delete, with_shard, one_less,
}
use fyer_cache.SkipMap.Shards.{Holding, own_shard, load_lem, delete_lem, own_entries}
use mathlib.Core.Path.{subst}
use fyer_cache.SkipMap.Reads.{load-delete_key}

module _ {V : Type 0} (k : Str) (sm : SkipShardedMap V) (c : ℕ → GoMap Str V)
    (h : Holding sm c) where
  -- A key that is there is taken as `Delete` does it.
  taken :
      (v : V)
      → lookup k (c (shard_index k sm.mask)) ≡ some v
      → (sm' : SkipShardedMap V) × (delete_key k sm ≡ ok sm')
        × (load_and_delete k sm ≡ ok (sm', (some v, true)))
  unfolding delete_key load_and_delete with_shard
  taken v e =
      let (s, _, at, m) = own_shard sm c k h in
      let i = shard_index k sm.mask in
      let (s', run, m') = delete-Models k s (c i) m in
      let run_there : delete k s ≡ ok (s', true) = run ∙ rw e refl in
      let seen : get k s ≡ ok (some v, true) = get_lem k s (c i) m ∙ rw e refl in
      (
        with_shard i s' (one_less sm.item_count) sm,
        rw (at, ◌>>=◌, run_there) refl,
        rw (at, ◌>>=◌, seen, run_there) refl,
      )

  -- A key that is not there leaves the map.
  not_there :
      lookup k (c (shard_index k sm.mask)) ≡ none → load_and_delete k sm ≡ ok (sm, (none, false))
  unfolding load_and_delete
  not_there e =
      let (s, _, at, m) = own_shard sm c k h in
      let seen : get k s ≡ ok (none, false) =
        get_lem k s (c (shard_index k sm.mask)) m ∙ rw e refl in
      rw (at, ◌>>=◌, seen) refl

  missed :
      (j : Str)
      → lookup k (c (shard_index k sm.mask)) ≡ none
      → load j sm ≡ (if Str.eq k j then ok (none, false) else load j sm)
  missed j e = elim (Bool-cases (Str.eq k j)) [
    | inr f ↦ rw f refl
    | inl t ↦
        let same : k ≡ j = (Str.eq_iff k j).0 t in rw (t, ← same) (load_lem sm c k h ∙ rw e refl)
  ]

  -- On a map whose shards are well-formed, `LoadAndDelete` returns what `Load` does, and leaves a
  -- map with well-formed shards and with the count that `Delete` leaves, in which a `Load` of the
  -- key misses and a `Load` of any other key returns what it returned before.
  pub load_and_delete_lem :
      (j : Str)
      → (r : Option V × Bool) × (sm' sm'' : SkipShardedMap V) × (c' : ℕ → GoMap Str V) × (load k sm
          ≡ ok r)
        × (delete_key k sm ≡ ok sm'')
        × (load_and_delete k sm ≡ ok (sm', r))
        × Holding sm' c'
        × (sm'.item_count ≡ sm''.item_count)
        × (load j sm' ≡ (if Str.eq k j then ok (none, false) else load j sm))
  load_and_delete_lem j =
      let i = shard_index k sm.mask in
      let (sm'', run, _, h'', _, count) = delete_lem k sm c h in
      elim (Option-cases (lookup k (c i))) [
        | inl e ↦ (
          (none, false),
          sm,
          sm'',
          c,
          load_lem sm c k h ∙ rw e refl,
          run,
          not_there e,
          h,
          sym (count ∙ rw e refl),
          missed j e,
        )
        | inr (v, e) ↦
            let (sm', ran, took) = taken v e in
            let (sm3, run3, h3, after) = load-delete_key k j sm c h in
            let same : sm3 ≡ sm' = cc in
            let same'' : sm'' ≡ sm' = cc in
            (
              (some v, true),
              sm',
              sm'',
              own_entries k (delete_entry k) sm.mask c,
              load_lem sm c k h ∙ rw e refl,
              run,
              took,
              subst (λ x. Holding x (own_entries k (delete_entry k) sm.mask c)) same h3,
              sym (ap (λ (x : SkipShardedMap V). x.item_count) same''),
              ap (λ x. load j x) (sym same) ∙ after,
            )
      ]
