-- ===== src/NodeSharding/Examples.antt =====
-- Two nodes and a replica factor of 2.
use fyer_cache.NodeSharding.Reading.{get_value-set_value}
use fyer_cache.NodeSharding.{get_value, set_value, has_node, live, NodeCache, NodeSharded, node_ids}
use fyer_cache.Ring.{Ring}
use fyer_cache.Ring.Nodes.{listed}
use fyer_cache.Prelude.Str.{Str, str_equality, bytes}
use fyer_cache.Prelude.Int.{pos}
use fyer_cache.Prelude.GoMap.{GoMap, lookup, insert, delete}
use fyer_cache.Prelude.Result.{ok}
use fyer_cache.Prelude.{ℕ, ◌≡◌, refl, true, none, [], ◌∷◌, nat_equality}

abbrev map_cache : NodeCache
map_cache = record {
  State = GoMap Str ℕ;
  Value = ℕ;
  fetch = λ key st. (st, lookup key st);
  put = λ key value expiration st. (insert key value st, true);
  remove = λ key st. (delete key st, true);
}

abbrev two_ring : Ring
two_ring = record {
  replicas = 1;
  sorted_hashes = 10 ∷ 20 ∷ [];
  hash_map = (10, bytes "a") ∷ (20, bytes "b") ∷ [];
  weights = (bytes "a", 1) ∷ (bytes "b", 1) ∷ [];
  node_hashes = (bytes "a", 10 ∷ []) ∷ (bytes "b", 20 ∷ []) ∷ [];
}

abbrev two_nodes : NodeSharded map_cache
two_nodes = record {
  ring = two_ring;
  nodes = (bytes "a", []) ∷ (bytes "b", []) ∷ [];
  replica_factor = pos 2;
}

get_value-set_value_example :
    (after later : NodeSharded map_cache) × (set_value map_cache
        (λ key. 15)
        4
        (bytes "k")
        7
        (pos 0)
        two_nodes
      ≡ ok (after, none))
    × (get_value map_cache (λ key. 15) 4 (bytes "k") after ≡ ok (later, ok 7))
unfolding node_ids live has_node lookup insert listed
get_value-set_value_example =
    get_value-set_value map_cache (bytes "k") 7 (pos 0) (λ key. 15) 4 (bytes "b" ∷ bytes "a" ∷ [])
      (bytes "b") (bytes "a" ∷ []) [] two_nodes refl (refl, (refl, tt)) refl refl refl refl
