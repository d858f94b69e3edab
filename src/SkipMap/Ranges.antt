-- ===== src/SkipMap/Ranges.antt =====
-- cache/skipmap.go: `Range`, `RangeShard`, `RangeKeys`, `Count` and `ShardCount`. A callback changes
-- a state of its own and says whether to go on; the one of `Range` runs between the locks and may
-- change the map, which is then part of that state.
use fyer_cache.SkipList.{Fault}
use fyer_cache.SkipMap.{shard_at, SkipShardedMap}
use fyer_cache.Prelude.Str.{Str}
use fyer_cache.Prelude.Int.{negsuc, ◌-ℤ◌, pos, ℤ}
use fyer_cache.Prelude.Str
use fyer_cache.SkipList.{SkipList, for_each, range}
use fyer_cache.Prelude.Result.{Result, ok, ◌>>=◌}
use fyer_cache.Prelude.{
  ℕ, zero, suc, ◌+◌, Bool, true, false, not, ◌&&◌, Option, List, [], ◌∷◌, ◌++◌, ltb, leb,
  if◌then◌else◌, nat_equality,
}

-- The two tests `limit <= 0 || count < limit`.
unfoldable pub below_limit : ℤ → ℕ → Bool
below_limit (pos zero) count = true
below_limit (pos (suc n)) count = ltb count (suc n)
below_limit (negsuc n) count = true

-- A callback that stops ends the whole walk.
unfoldable pub unless_stopped : {S : Type 0} → (S → Result Fault S) → S × Bool → Result Fault S
unless_stopped next (acc, true) = next acc
unless_stopped next (acc, false) = ok acc

module _ {V : Type 0} where
  abbrev pub append_entry : Str → Option V → List (Str × Option V) → List (Str × Option V) × Bool
  append_entry key value entries = (entries ++ (key, value) ∷ [], true)

  -- The copy of a shard's entries.
  unfoldable pub snapshot : SkipList V → Result Fault (List (Str × Option V))
  snapshot shard = for_each append_entry [] shard

  unfoldable pub count : SkipShardedMap V → ℕ
  count sm = sm.item_count

  unfoldable pub shard_count : SkipShardedMap V → ℕ
  shard_count sm = sm.count

  module _ {S : Type 0} (read : S → SkipShardedMap V)
      (f : Str → Option V → S → Result Fault (S × Bool)) where
    -- The callbacks of one snapshot, until one says to stop.
    unfoldable pub visit_entries : List (Str × Option V) → S → Result Fault (S × Bool)
    visit_entries [] acc = ok (acc, true)
    visit_entries ((key, value) ∷ entries) acc =
        f key value acc >>= λ o. if o.1 then visit_entries entries o.0 else ok (o.0, false)

    -- The shards from `i` on, so many of them.
    unfoldable pub visit_shards : ℕ → ℕ → S → Result Fault S
    unfolding shard_at snapshot visit_entries unless_stopped
    visit_shards zero i acc = ok acc
    visit_shards (suc n) i acc = shard_at i (read acc).shards >>= λ shard.
        snapshot shard >>= λ entries.
        visit_entries entries acc >>= unless_stopped (visit_shards n (suc i))

    unfoldable pub range_all : S → Result Fault S
    unfolding visit_shards
    range_all acc = visit_shards (read acc).count 0 acc

  module _ {S : Type 0} (f : Str → Option V → S → S × Bool) where
    unfoldable pub range_shard : ℤ → S → SkipShardedMap V → Result Fault S
    unfolding shard_at
    range_shard (negsuc n) acc sm = ok acc
    range_shard (pos i) acc sm =
        if leb sm.count i then ok acc else (shard_at i sm.shards >>= λ shard. for_each f acc shard)

    -- The callback of `RangeKeys`, with the count of the entries so far.
    unfoldable pub counted_visit : ℤ → Str → Option V → S × ℕ → (S × ℕ) × Bool
    unfolding below_limit
    counted_visit limit key value acc =
        let o = f key value acc.0 in ((o.0, acc.1 + 1), o.1 && below_limit limit (acc.1 + 1))

    unfoldable pub range_shards :
        Str → Str → ℤ → ℕ → ℕ → S × ℕ → SkipShardedMap V → Result Fault (S × ℕ)
    unfolding shard_at counted_visit below_limit
    range_shards start_key end_key limit zero i acc sm = ok acc
    range_shards start_key end_key limit (suc n) i acc sm =
        if below_limit limit acc.1
        then (shard_at i sm.shards >>= λ shard.
            range (counted_visit limit) start_key end_key (limit -ℤ pos acc.1) acc shard >>= λ acc'.
            range_shards start_key end_key limit n (suc i) acc' sm)
        else ok acc

    unfoldable pub range_keys : Str → Str → ℤ → S → SkipShardedMap V → Result Fault S
    unfolding range_shards
    range_keys start_key end_key limit acc sm =
        if Str.lt end_key start_key && not (Str.eq end_key [])
        then ok acc
        else (range_shards start_key end_key limit sm.count 0 (acc, 0) sm >>= λ o. ok o.0)
