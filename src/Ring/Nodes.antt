-- ===== src/Ring/Nodes.antt =====
-- cache/consthash.go: `GetN` and `GetNodes`. The loop of `GetN` runs on fuel.
use fyer_cache.Prelude.GoMap.{GoMap}
use fyer_cache.Prelude.Int.{negsuc, pos, ℤ}
use fyer_cache.Ring.{out_of_fuel, Fault, node_at, Ring, index_at}
use fyer_cache.Prelude.Str.{Str}
use fyer_cache.Prelude.Str
use fyer_cache.Ring.{search}
use fyer_cache.Prelude.Result.{Result, ok, err, panic, ◌>>=◌}
use fyer_cache.Prelude.{
  ℕ, zero, suc, ◌+◌, ◌%◌, Bool, true, false, ◌&&◌, List, [], ◌∷◌, ◌++◌, map, ltb, leb,
  if◌then◌else◌, length, nat_equality,
}

-- `_, exists := uniqueNodes[node]`
unfoldable pub listed : Str → List Str → Bool
unfolding Str.eq
listed node [] = false
listed node (n ∷ ns) = if Str.eq n node then true else listed node ns

unfoldable pub add_new : Str → List Str → List Str
unfolding listed
add_new node nodes = if listed node nodes then nodes else nodes ++ node ∷ []

unfoldable pub in_range : ℕ → ℕ → ℕ
in_range n i = if leb n i then 0 else i

-- The loop: `total` is the number of weights, and the collected nodes stand for both the set and
-- the result.
unfoldable pub collect : ℕ → ℕ → ℕ → List ℕ → GoMap ℕ Str → ℕ → List Str → Result Fault (List Str)
unfolding index_at node_at add_new in_range
collect zero count total hashes m i nodes =
    if ltb (length nodes) count && ltb (length nodes) total then err out_of_fuel else ok nodes
collect (suc fuel) count total hashes m i nodes =
    if ltb (length nodes) count && ltb (length nodes) total
    then (index_at hashes (in_range (length hashes) i) >>= λ h.
        collect fuel count total hashes m ((in_range (length hashes) i + 1) % length hashes)
          (add_new (node_at h m) nodes))
    else ok nodes

-- A negative count is a `make` of negative capacity.
unfoldable pub nodes_from : ℕ → ℤ → ℕ → ℕ → List ℕ → GoMap ℕ Str → Result Fault (List Str)
unfolding search collect
nodes_from fuel (pos count) total hash [] m = ok []
nodes_from fuel (pos count) zero hash (x ∷ xs) m = ok []
nodes_from fuel (pos count) (suc total) hash (x ∷ xs) m = do
  i ← search hash (x ∷ xs)
  collect fuel count (suc total) (x ∷ xs) m i []
nodes_from fuel (negsuc n) total hash [] m = ok []
nodes_from fuel (negsuc n) zero hash (x ∷ xs) m = ok []
nodes_from fuel (negsuc n) (suc total) hash (x ∷ xs) m = panic

unfoldable pub get_n : (Str → ℕ) → ℕ → Str → ℤ → Ring → Result Fault (List Str)
unfolding nodes_from
get_n hash_func fuel key count r =
    nodes_from fuel count (length r.weights) (hash_func key) r.sorted_hashes r.hash_map

unfoldable pub get_nodes : Ring → List Str
get_nodes r = map (λ w. w.0) r.weights
