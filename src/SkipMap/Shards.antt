-- ===== src/SkipMap/Shards.antt =====
-- cache/skipmap.go: each shard is a well-formed skip list, and a key is read and written in its own.
use fyer_cache.Prelude.{
  get_elem?-set_ne, get_elem?-set_self, length-set, ℕ, zero, suc, ◌/◌, ◌%◌, ◌≤◌, ◌<◌, ◌≡◌, refl,
  sym, ◌∙◌, ◌≢◌, inl, inr, Bool, some, arith, nat_beq, if◌then◌else◌, nat_beq_iff, Bool-cases,
  length, get_elem?, get_elem?-some, nat_equality,
}
use mathlib.Core.Bool.{true≢false}
use fyer_cache.Prelude.{set as replace}
use fyer_cache.Prelude.Str.{Str, str_equality}
use fyer_cache.Prelude.GoMap.{GoMap, lookup, delete as delete_entry}
use fyer_cache.Prelude.Result.{ok, ◌>>=◌}
use fyer_cache.SkipList.{SkipList}
use fyer_cache.SkipList.Lookup.{Models, found, get_lem}
use fyer_cache.SkipList.Ordered.{insert_ordered}
use fyer_cache.SkipList.Setting.{set-Models}
use fyer_cache.SkipList.Deletion.{delete-Models}
use fyer_cache.Prelude.{is_some}
use fyer_cache.SkipMap.{
  SkipShardedMap, and_bits, shard_index, shard_at, with_shard, fnv32, one_more, one_less, store,
  load, delete_key,
}

and_bits_le : (w a b : ℕ) → and_bits w a b ≤ b
unfolding and_bits
and_bits_le zero a b = omega arith
and_bits_le (suc w) a b =
    let rest = and_bits_le w (a / 2) (b / 2) in
    elim (Bool-cases (nat_beq (a % 2) 1)) [
      | inl t ↦ rw t (omega arith)
      | inr f ↦ rw f (omega arith)
    ]

module _ {V : Type 0} where
  -- Every shard stands for the entries that `c` has for it, and every index has a shard.
  pub record Holding (sm : SkipShardedMap V) (c : ℕ → GoMap Str V) : Type 0 where
    pub shard_models : (i : ℕ) (s : SkipList V) → get_elem? sm.shards i ≡ some s → Models s (c i)
    pub in_range : sm.mask < length sm.shards

  pub own_shard :
      (sm : SkipShardedMap V) (c : ℕ → GoMap Str V) (k : Str)
      → Holding sm c
      → (s : SkipList V) × (get_elem? sm.shards (shard_index k sm.mask) ≡ some s)
        × (shard_at (shard_index k sm.mask) sm.shards ≡ ok s)
        × Models s (c (shard_index k sm.mask))
  unfolding shard_at shard_index
  own_shard sm c k h =
      let low = and_bits_le 32 (fnv32 2166136261 k) sm.mask in
      let q = h.in_range in
      let (s, e) = get_elem?-some sm.shards (shard_index k sm.mask) (omega arith) in
      (s, e, rw (shard_at, e) refl, h.shard_models (shard_index k sm.mask) s e)

  pub load_lem :
      (sm : SkipShardedMap V) (c : ℕ → GoMap Str V) (k : Str)
      → Holding sm c
      → load k sm ≡ ok (found (lookup k (c (shard_index k sm.mask))))
  unfolding load
  load_lem sm c k h =
      let (s, _, e, m) = own_shard sm c k h in
      rw (e, ◌>>=◌) (get_lem k s (c (shard_index k sm.mask)) m)

  -- The entries with those of shard `i` replaced.
  unfoldable pub at_shard : ℕ → GoMap Str V → (ℕ → GoMap Str V) → ℕ → GoMap Str V
  at_shard i m c j = if nat_beq i j then m else c j

  with_shard-Holding :
      (sm : SkipShardedMap V) (c : ℕ → GoMap Str V) (i n : ℕ) (s : SkipList V) (m : GoMap Str V)
      → Holding sm c
      → i < length sm.shards
      → Models s m
      → Holding (with_shard i s n sm) (at_shard i m c)
  unfolding with_shard at_shard
  with_shard-Holding sm c i n s m h l r = record {
    shard_models = λ j s' e. elim (Bool-cases (nat_beq i j)) [
      | inl t ↦
          let same : i ≡ j = (nat_beq_iff i j).0 t in
          let own : get_elem? (replace sm.shards i s) j ≡ some s =
            rw (← same) (get_elem?-set_self sm.shards i s l) in
          let it : s ≡ s' = cc in rw (t, ← it) r
      | inr f ↦
          let differ : i ≢ j =
            λ same. let t = (nat_beq_iff i j).1 same in absurd (true≢false (sym t ∙ f)) in
          rw f (h.shard_models j s' (sym (get_elem?-set_ne sm.shards i j s differ) ∙ e))
    ];
    in_range = let q = h.in_range in let p = length-set sm.shards i s in omega arith;
  }

  -- The entries after a change of the shard that the key belongs to.
  unfoldable pub own_entries :
      Str → (GoMap Str V → GoMap Str V) → ℕ → (ℕ → GoMap Str V) → ℕ → GoMap Str V
  own_entries k f mask c = at_shard (shard_index k mask) (f (c (shard_index k mask))) c

  pub index-in_range :
      (sm : SkipShardedMap V) (c : ℕ → GoMap Str V) (k : Str)
      → Holding sm c
      → shard_index k sm.mask < length sm.shards
  unfolding shard_index
  index-in_range sm c k h =
      let low = and_bits_le 32 (fnv32 2166136261 k) sm.mask in let q = h.in_range in omega arith

  pub store_lem :
      (flips : ℕ → Bool) (k : Str) (v : V) (sm : SkipShardedMap V) (c : ℕ → GoMap Str V)
      → Holding sm c
      → (sm' : SkipShardedMap V) × (store flips k v sm ≡ ok sm')
        × (sm'.mask ≡ sm.mask)
        × Holding sm' (own_entries k (insert_ordered k v) sm.mask c)
        × (length sm'.shards ≡ length sm.shards)
        × (sm'.item_count ≡ (
            if (found (lookup k (c (shard_index k sm.mask)))).1
            then sm.item_count
            else one_more sm.item_count))
  unfolding store own_entries with_shard
  store_lem flips k v sm c h =
      let (s, _, e, m) = own_shard sm c k h in
      let i = shard_index k sm.mask in
      let (s', run, m') = set-Models flips k v s (c i) m in
      let n = if (found (lookup k (c i))).1 then sm.item_count else one_more sm.item_count in
      (
        with_shard i s' n sm,
        rw (e, ◌>>=◌, get_lem k s (c i) m, ◌>>=◌, run) refl,
        refl,
        with_shard-Holding sm c i n s' (insert_ordered k v (c i)) h (index-in_range sm c k h) m',
        length-set sm.shards i s',
        refl,
      )

  pub delete_lem :
      (k : Str) (sm : SkipShardedMap V) (c : ℕ → GoMap Str V)
      → Holding sm c
      → (sm' : SkipShardedMap V) × (delete_key k sm ≡ ok sm')
        × (sm'.mask ≡ sm.mask)
        × Holding sm' (own_entries k (delete_entry k) sm.mask c)
        × (length sm'.shards ≡ length sm.shards)
        × (sm'.item_count ≡ (
            if is_some (lookup k (c (shard_index k sm.mask)))
            then one_less sm.item_count
            else sm.item_count))
  unfolding delete_key own_entries with_shard
  delete_lem k sm c h =
      let (s, _, e, m) = own_shard sm c k h in
      let i = shard_index k sm.mask in
      let (s', run, m') = delete-Models k s (c i) m in
      let n = if is_some (lookup k (c i)) then one_less sm.item_count else sm.item_count in
      (
        with_shard i s' n sm,
        rw (e, ◌>>=◌, run) refl,
        refl,
        with_shard-Holding sm c i n s' (delete_entry k (c i)) h (index-in_range sm c k h) m',
        length-set sm.shards i s',
        refl,
      )
