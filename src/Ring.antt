-- ===== src/Ring.antt =====
-- cache/consthash.go: `ConsistentHash`. The hash function is a parameter, as in the code; a hash is
-- a number below 2 ^ 32, and nothing here depends on the bound. `replicas` is as the constructor
-- leaves it. The laws are in the child modules.
pub mod Sorting
pub mod Searching
pub mod Valid
pub mod Added
pub mod Owners
pub mod Nodes
pub mod Distinct
pub mod Enough
pub mod Replicas
mod Examples
use fyer_cache.Prelude.{
  ℕ, zero, suc, ◌+◌, ◌-◌, ◌*◌, ◌/◌, ◌%◌, ◌^◌, ◌≤◌, ◌<◌, ◌≡◌, refl, sym, ap, ◌∙◌, ◌≢◌, ◌↔◌, ◌⊎◌, inl,
  inr, Bool, true, false, not, ◌&&◌, ◌||◌, Option, none, some, List, [], ◌∷◌, ◌++◌, map,
  append_assoc, append-nil, arith, ltb, leb, nat_beq, is_some, if◌then◌else◌, ltb→lt, lt→ltb,
  leb→le, nat_beq_iff, tests, Bool-cases, Option-cases, length, get_elem?, take, drop, replicate,
  length-append, take-append-drop, length-take, length-drop, take_of_length-le, get_elem?-some,
  get_elem?-none, Equality, ◌==◌, nat_equality, beq_refl, beq-eq, beq_ne,
}
use fyer_cache.Prelude.Int.{ℤ, pos, negsuc}
use fyer_cache.Prelude.Str.{Str, bytes, str_equality}
use fyer_cache.Prelude.GoMap.{GoMap, lookup, insert, delete}
use fyer_cache.Prelude.Result.{Result, ok, err, panic, ◌>>=◌}

pub data Fault : Type 0 where
  out_of_fuel : Fault

pub record Ring : Type 0 where
  pub replicas : ℕ
  pub sorted_hashes : List ℕ
  pub hash_map : GoMap ℕ Str
  pub weights : GoMap Str ℕ
  pub node_hashes : GoMap Str (List ℕ)

-- A count of 0 or less takes the default.
unfoldable pub at_least_one : ℕ → ℤ → ℕ
at_least_one default (pos zero) = default
at_least_one default (pos (suc n)) = suc n
at_least_one default (negsuc n) = default

abbrev pub default_replicas : ℕ
default_replicas = 100

unfoldable pub new_consistent_hash : ℤ → Ring
unfolding at_least_one
new_consistent_hash replicas = record {
  replicas = at_least_one default_replicas replicas;
  sorted_hashes = [];
  hash_map = [];
  weights = [];
  node_hashes = [];
}

-- `strconv.Itoa` of a number that is not negative: its decimal digits.
unfoldable pub digits : ℕ → ℕ → Str → Str
digits zero n acc = acc
digits (suc fuel) n acc =
    let rest = digits fuel (n / 10) ((48 + n % 10) ∷ acc) in
    if ltb n 10 then (48 + n % 10) ∷ acc else rest

unfoldable pub itoa : ℕ → Str
unfolding digits
itoa n = digits (n + 1) n []

-- `sort.Slice` by `<`: on numbers every correct sort gives this list.
unfoldable pub place : ℕ → List ℕ → List ℕ
place x [] = x ∷ []
place x (y ∷ ys) = if leb x y then x ∷ y ∷ ys else y ∷ place x ys

unfoldable pub sort : List ℕ → List ℕ
unfolding place
sort [] = []
sort (x ∷ xs) = place x (sort xs)

-- `hashes[i]`
unfoldable pub index_at : List ℕ → ℕ → Result Fault ℕ
index_at hashes i = elim (get_elem? hashes i) [ none ↦ panic | some x ↦ ok x ]

-- The bisection of `sort.Search` for the first position whose hash is `hash` or more.
unfoldable pub bisect : ℕ → List ℕ → ℕ → ℕ → ℕ → Result Fault ℕ
unfolding index_at
bisect zero hashes hash i j = err out_of_fuel
bisect (suc fuel) hashes hash i j = elim (ltb i j) [
  | false ↦ ok i
  | true ↦ do
    x ← index_at hashes ((i + j) / 2)
    elim (leb hash x) [
      | true ↦ bisect fuel hashes hash i ((i + j) / 2)
      | false ↦ bisect fuel hashes hash ((i + j) / 2 + 1) j
    ]
]

-- Past the last hash the ring starts again.
unfoldable pub wrap : ℕ → ℕ → ℕ
wrap n i = if nat_beq i n then 0 else i

unfoldable pub search : ℕ → List ℕ → Result Fault ℕ
unfolding bisect wrap
search hash [] = ok 0
search hash (x ∷ xs) = do
  i ← bisect (length (x ∷ xs) + 1) (x ∷ xs) hash 0 (length (x ∷ xs))
  ok (wrap (length (x ∷ xs)) i)

-- A missing key reads as the empty string.
unfoldable pub node_at : ℕ → GoMap ℕ Str → Str
unfolding lookup
node_at h m = elim (lookup h m) [ none ↦ [] | some n ↦ n ]

unfoldable pub owner_in : ℕ → List ℕ → GoMap ℕ Str → Result Fault Str
unfolding search index_at node_at
owner_in hash [] m = ok []
owner_in hash (x ∷ xs) m = do i ← search hash (x ∷ xs); h ← index_at (x ∷ xs) i; ok (node_at h m)

-- `hashSet`
unfoldable pub contains : ℕ → List ℕ → Bool
contains h [] = false
contains h (x ∷ xs) = if nat_beq x h then true else contains h xs

unfoldable pub without : List ℕ → List ℕ → List ℕ
unfolding contains
without hashes [] = []
without hashes (x ∷ xs) = if contains x hashes then without hashes xs else x ∷ without hashes xs

unfoldable pub delete_all : List ℕ → GoMap ℕ Str → GoMap ℕ Str
unfolding delete
delete_all [] m = m
delete_all (h ∷ hs) m = delete_all hs (delete h m)

unfoldable pub drop_hashes : Option (List ℕ) → Str → Ring → Ring
unfolding delete delete_all without
drop_hashes none node r = r
drop_hashes (some hashes) node r = record r {
  sorted_hashes = without hashes r.sorted_hashes;
  hash_map = delete_all hashes r.hash_map;
  weights = delete node r.weights;
  node_hashes = delete node r.node_hashes;
}

unfoldable pub remove_without_lock : Str → Ring → Ring
unfolding lookup drop_hashes
remove_without_lock node r = drop_hashes (lookup node r.node_hashes) node r

unfoldable pub remove : Str → Ring → Ring
unfolding remove_without_lock
remove node r = remove_without_lock node r

-- The node that is already registered is removed first.
unfoldable pub cleared : Str → Ring → Ring
unfolding lookup remove_without_lock
cleared node r = if is_some (lookup node r.weights) then remove_without_lock node r else r

-- `c.replicas*weight`, an `int` of 64 bits; `make` panics on a negative one. That it also panics
-- where the slice is larger than the memory is not modelled.
unfoldable pub virtual_count : ℕ → ℕ → Option ℕ
virtual_count replicas weight =
    let n = (replicas * weight) % 18446744073709551616 in
    if ltb n 9223372036854775808 then some n else none

module _ (hash_func : Str → ℕ) where
  unfoldable pub virtual_hash : Str → ℕ → ℕ
  unfolding itoa
  virtual_hash node i = hash_func (node ++ bytes ":" ++ itoa i)

  -- The loop of `Add`, `rounds` times from `i` on, with the node's hashes so far.
  unfoldable pub add_virtual : ℕ → ℕ → Str → List ℕ → Ring → Ring × List ℕ
  unfolding virtual_hash insert
  add_virtual zero i node hashes r = (r, hashes)
  add_virtual (suc rounds) i node hashes r =
      add_virtual rounds (i + 1) node (hashes ++ virtual_hash node i ∷ []) (record r {
        sorted_hashes = r.sorted_hashes ++ virtual_hash node i ∷ [];
        hash_map = insert (virtual_hash node i) node r.hash_map;
      })

  -- What follows the loop.
  unfoldable pub finish : Str → Ring × List ℕ → Ring
  unfolding insert sort
  finish node (r, hashes) = record r {
    node_hashes = insert node hashes r.node_hashes;
    sorted_hashes = sort r.sorted_hashes;
  }

  unfoldable pub add_count : Option ℕ → Str → ℕ → Ring → Result Fault Ring
  unfolding finish add_virtual insert
  add_count none node weight r = panic
  add_count (some n) node weight r =
      ok (
        finish node (add_virtual n 0 node [] (record r { weights = insert node weight r.weights })))

  unfoldable pub add : Str → ℤ → Ring → Result Fault Ring
  unfolding at_least_one cleared virtual_count add_count
  add node weight r =
      add_count (virtual_count r.replicas (at_least_one 1 weight)) node (at_least_one 1 weight)
        (cleared node r)

  unfoldable pub get : Str → Ring → Result Fault Str
  unfolding owner_in
  get key r = owner_in (hash_func key) r.sorted_hashes r.hash_map
