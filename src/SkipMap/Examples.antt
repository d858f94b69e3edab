-- ===== src/SkipMap/Examples.antt =====
-- Runs of the sharded map of cache/skipmap.go.
use fyer_cache.SkipMap.Taking.{load_and_delete_lem}
use fyer_cache.SkipMap.{load_and_delete}
use fyer_cache.SkipMap.Visits.{range_all-visits, fold_shards}
use fyer_cache.SkipMap.Ranges.{range_all}
use fyer_cache.Prelude.{
  length, Option, ◌≤◌, ℕ, ◌+◌, ◌<◌, ◌≡◌, refl, sym, ap, Bool, true, false, none, some, [], arith,
  ltb, if◌then◌else◌, nat_equality,
}
use mathlib.Core.Path.{subst}
use fyer_cache.Prelude.Str.{Str, bytes, str_equality}
use fyer_cache.Prelude.Str
use fyer_cache.Prelude.GoMap.{GoMap, delete as delete_entry}
use fyer_cache.Prelude.Int.{pos}
use fyer_cache.Prelude.Result.{Result, ok}
use fyer_cache.SkipList.{Fault, get as find, matching, set as put}
use fyer_cache.SkipList.Ordered.{insert_ordered}
use fyer_cache.SkipMap.{
  SkipShardedMap, new_skip_sharded_map, store, load, delete_key, shard_index, shards_for, fnv32,
}
use fyer_cache.SkipMap.Shards.{Holding, own_entries}
use fyer_cache.SkipMap.Counting.{Counted, store-Counted, delete_key-Counted}
use fyer_cache.SkipMap.Fresh.{new_skip_sharded_map-Counted}
use fyer_cache.SkipMap.Reads.{load-store, load-delete_key}

abbrev tall : ℕ → Bool
tall n = ltb n 2

abbrev a : Str
a = bytes "a"

abbrev b : Str
b = bytes "b"

abbrev three : SkipShardedMap ℕ
three = new_skip_sharded_map (pos 3)

run_shards : shards_for (pos 3) ≡ 4
unfolding shards_for
run_shards = refl

-- The FNV-1 hash of "a" is 0x050c5d7e.
run_fnv32 : fnv32 2166136261 a ≡ 84696446
unfolding fnv32
run_fnv32 = refl

abbrev no_entries : ℕ → GoMap Str ℕ
no_entries i = []

three-Counted : Counted three no_entries
three-Counted = new_skip_sharded_map-Counted (pos 3)

no_items : three.item_count + 1 < 9223372036854775808
unfolding new_skip_sharded_map
no_items = omega arith

none_held : three.item_count < 9223372036854775808
unfolding new_skip_sharded_map
none_held = omega arith

load-store_example :
    (sm' : SkipShardedMap ℕ) × (store tall a 7 three ≡ ok sm')
    × Holding sm' (own_entries a (insert_ordered a 7) three.mask no_entries)
    × (load b sm' ≡ (if Str.eq a b then ok (some 7, true) else load b three))
load-store_example = load-store tall a b 7 three no_entries three-Counted.holding

load-delete_key_example :
    (sm' : SkipShardedMap ℕ) × (delete_key a three ≡ ok sm')
    × Holding sm' (own_entries a (delete_entry a) three.mask no_entries)
    × (load b sm' ≡ (if Str.eq a b then ok (none, false) else load b three))
load-delete_key_example = load-delete_key a b three no_entries three-Counted.holding

store-Counted_example :
    (sm' : SkipShardedMap ℕ) × (store tall a 7 three ≡ ok sm')
    × Counted sm' (own_entries a (insert_ordered a 7) three.mask no_entries)
store-Counted_example = store-Counted tall a 7 three no_entries three-Counted no_items

abbrev or_else : Result Fault (SkipShardedMap ℕ) → SkipShardedMap ℕ → SkipShardedMap ℕ
or_else (ok sm) d = sm
or_else _ d = d

abbrev one_item : SkipShardedMap ℕ
one_item = or_else (store tall a 7 three) three

abbrev one_entry : ℕ → GoMap Str ℕ
one_entry = own_entries a (insert_ordered a 7) three.mask no_entries

one_item-Counted : Counted one_item one_entry
one_item-Counted =
    let (sm', run, h) = store-Counted tall a 7 three no_entries three-Counted no_items in
    let same : sm' ≡ one_item = ap (λ r. or_else r three) (sym run) in
    subst (λ sm. Counted sm one_entry) same h

one_counted : one_item.item_count < 9223372036854775808
unfolding new_skip_sharded_map store shard_index find matching put
one_counted = omega arith

delete_key-Counted_example :
    (sm' : SkipShardedMap ℕ) × (delete_key a one_item ≡ ok sm')
    × Counted sm' (own_entries a (delete_entry a) one_item.mask one_entry)
delete_key-Counted_example = delete_key-Counted a one_item one_entry one_item-Counted one_counted

load_and_delete_lem_example :
    (r : Option ℕ × Bool) × (sm' sm'' : SkipShardedMap ℕ) × (c' : ℕ → GoMap Str ℕ) × (load a
        one_item
      ≡ ok r)
    × (delete_key a one_item ≡ ok sm'')
    × (load_and_delete a one_item ≡ ok (sm', r))
    × Holding sm' c'
    × (sm'.item_count ≡ sm''.item_count)
    × (load b sm' ≡ (if Str.eq a b then ok (none, false) else load b one_item))
load_and_delete_lem_example = load_and_delete_lem a one_item one_entry one_item-Counted.holding b

one_count : one_item.count ≤ length one_item.shards
unfolding new_skip_sharded_map store shard_index find matching put
one_count = omega arith

-- A callback that sums the values.
abbrev tally : Str → Option ℕ → ℕ → Result Fault (ℕ × Bool)
tally key none sum = ok (sum, true)
tally key (some value) sum = ok (sum + value, true)

range_all-visits_example :
    range_all (λ x. one_item) tally 0
    ≡ ok (fold_shards one_entry (λ k v sum. sum + v) one_item.count 0 0)
range_all-visits_example =
    range_all-visits one_item one_entry (λ k v sum. sum + v) tally 0 one_item-Counted.holding
      one_count (λ k v sum. refl)
