-- ===== src/Ring/Examples.antt =====
-- Runs of the consistent-hash ring of cache/consthash.go.
use Prim.Native.Nat.{min}
use fyer_cache.Ring.Nodes.{listed, get_n}
use fyer_cache.Ring.Replicas.{get_n_lem}
use fyer_cache.Ring.Distinct.{Different, StartsWith}
use fyer_cache.Prelude.{
  length, ◌≤◌, List, ℕ, ◌+◌, ◌*◌, ◌%◌, ◌<◌, ◌≡◌, refl, sym, ap, ◌∙◌, ◌≢◌, ◌⊎◌, none, some, [], ◌∷◌,
  arith, nat_equality,
}
use mathlib.Core.List.{cons≢nil}
use mathlib.Core.Path.{subst}
use fyer_cache.Prelude.Str.{Str, bytes, str_equality}
use fyer_cache.Prelude.Str
use fyer_cache.Prelude.GoMap.{lookup}
use fyer_cache.Prelude.Int.{pos}
use fyer_cache.Prelude.Result.{Result, ok, err, panic}
use fyer_cache.Ring.{
  node_at, contains, Fault, Ring, add, at_least_one, get as find, remove, itoa, new_consistent_hash,
}
use fyer_cache.Ring.Searching.{IsOwner}
use fyer_cache.Ring.Valid.{Valid, new_consistent_hash-Valid, remove-Valid}
use fyer_cache.Ring.Added.{add-Valid, virtual_hashes, Placed}
use fyer_cache.Ring.Owners.{get_registered, get-add}

-- A small hash: the bytes as digits, modulo 251.
abbrev weak_hash : Str → ℕ
weak_hash [] = 7
weak_hash (c ∷ s) = (31 * weak_hash s + c) % 251

abbrev a : Str
a = bytes "a"

abbrev b : Str
b = bytes "b"

abbrev user : Str
user = bytes "user:1"

abbrev none_yet : Ring
none_yet = new_consistent_hash (pos 2)

abbrev or_else : Result Fault Ring → Ring → Ring
or_else (ok r) d = r
or_else (err f) d = d
or_else panic d = d

abbrev with_a : Ring
with_a = or_else (add weak_hash a (pos 1) none_yet) none_yet

run_itoa : itoa 120 ≡ bytes "120"
unfolding itoa
run_itoa = refl

run_add : add weak_hash a (pos 1) none_yet ≡ ok with_a
unfolding add new_consistent_hash
run_add = refl

run_hashes : with_a.sorted_hashes ≡ 38 ∷ 246 ∷ []
unfolding add new_consistent_hash
run_hashes = refl

run_get : find weak_hash user with_a ≡ ok a
unfolding add new_consistent_hash find
run_get = refl

none_yet-Valid : Valid none_yet
none_yet-Valid = new_consistent_hash-Valid (pos 2)

few : none_yet.replicas * at_least_one 1 (pos 1) < 9223372036854775808
unfolding new_consistent_hash at_least_one
few = omega arith

with_a-Valid : Valid with_a
with_a-Valid =
    let (r', e, v, _, _, _) = add-Valid weak_hash none_yet none_yet-Valid a (pos 1) few in
    let same : r' ≡ with_a = ap (λ x. or_else x none_yet) (sym e) in subst Valid same v

with_a-not_empty : with_a.sorted_hashes ≢ []
with_a-not_empty e = cons≢nil (sym run_hashes ∙ e)

b_fresh : lookup b with_a.weights ≡ none
unfolding add new_consistent_hash lookup Str.eq
b_fresh = refl

few_more : with_a.replicas * at_least_one 1 (pos 3) < 9223372036854775808
unfolding add new_consistent_hash at_least_one
few_more = omega arith

add-Valid_example :
    (r' : Ring) × (add weak_hash a (pos 1) none_yet ≡ ok r')
    × Valid r'
    × (lookup a r'.weights ≡ some (at_least_one 1 (pos 1)))
    × (lookup a r'.node_hashes
        ≡ some (virtual_hashes weak_hash (none_yet.replicas * at_least_one 1 (pos 1)) 0 a))
    × Placed r' a (virtual_hashes weak_hash (none_yet.replicas * at_least_one 1 (pos 1)) 0 a)
add-Valid_example = add-Valid weak_hash none_yet none_yet-Valid a (pos 1) few

remove-Valid_example :
    Valid (remove a with_a)
    × (lookup a (remove a with_a).node_hashes ≡ none)
    × (lookup a (remove a with_a).weights ≡ none)
remove-Valid_example = remove-Valid with_a with_a-Valid a

get_registered_example :
    (h : ℕ) × (n : Str) × (w : ℕ) × IsOwner with_a.sorted_hashes (weak_hash user) h
    × (lookup h with_a.hash_map ≡ some n)
    × (lookup n with_a.weights ≡ some w)
    × (find weak_hash user with_a ≡ ok n)
get_registered_example = get_registered weak_hash with_a with_a-Valid with_a-not_empty user

get-add_example :
    (r' : Ring) × (n n' : Str) × (add weak_hash b (pos 3) with_a ≡ ok r')
    × (find weak_hash user with_a ≡ ok n)
    × (find weak_hash user r' ≡ ok n')
    × ((n' ≡ n) ⊎ (n' ≡ b))
get-add_example =
    get-add weak_hash with_a with_a-Valid with_a-not_empty b b_fresh (pos 3) few_more user

get_n_lem_example :
    (fuel : ℕ) × (out : List Str) × (n : Str) × (fuel ≤ 2 * length with_a.sorted_hashes)
    × (get_n weak_hash fuel user (pos 3) with_a ≡ ok out)
    × Different out
    × (length out ≡ min 3 (length with_a.weights))
    × (find weak_hash user with_a ≡ ok n)
    × StartsWith n out
unfolding add new_consistent_hash contains node_at lookup listed Str.eq
get_n_lem_example =
    get_n_lem weak_hash with_a user 3 (a ∷ []) with_a-Valid.ascending with_a-not_empty (omega arith)
      (omega arith) (refl, tt) refl ((38, refl, refl), tt)
