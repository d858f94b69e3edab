-- ===== src/SkipList/Examples.antt =====
-- Runs of the skip list.
use fyer_cache.SkipList.Setting.{set-Models}
use fyer_cache.SkipList.Rereads.{get-delete, get-set}
use fyer_cache.SkipList.Traversal.{new_skip_list-Models, visit_all}
use fyer_cache.SkipList.Ranging.{range-Models, at_least, at_most, until}
use fyer_cache.SkipList.Deletion.{delete-Models}
use fyer_cache.Prelude.{is_some}
use fyer_cache.SkipList.Ordered.{insert_ordered}
use fyer_cache.SkipList.Lookup.{get_lem, Models, found}
use fyer_cache.Prelude.{
  ℕ, ◌≡◌, refl, Bool, true, false, Option, none, some, List, [], ◌∷◌, ◌++◌, ltb, if◌then◌else◌,
  nat_equality,
}
use fyer_cache.Prelude.Int.{pos}
use fyer_cache.Prelude.Str.{Str, bytes, str_equality}
use fyer_cache.Prelude.Str
use fyer_cache.Prelude.GoMap.{GoMap, lookup, delete as delete_key}
use fyer_cache.Prelude.Result.{Result, ok, ◌>>=◌}
use fyer_cache.SkipList.{
  Fault, SkipList, set as put, delete as remove, get as find, for_each, range, in_range, matching,
  new_skip_list,
}

abbrev tall : ℕ → ℕ → Bool
tall n i = ltb i n

abbrev built : Result Fault (SkipList ℕ)
built = do
  a ← put (tall 2) (bytes "b") 20 new_skip_list
  b ← put (tall 0) (bytes "a") 10 a
  c ← put (tall 1) (bytes "c") 30 b
  (d, _) ← remove (bytes "b") c
  put (tall 0) (bytes "c") 31 d

abbrev note : Str → Option ℕ → List (Str × Option ℕ) → List (Str × Option ℕ) × Bool
note k v acc = (acc ++ (k, v) ∷ [], true)

run_built :
    (built >>= λ s. for_each note [] s) ≡ ok ((bytes "a", some 10) ∷ (bytes "c", some 31) ∷ [])
unfolding matching put remove new_skip_list for_each Str.lt Str.eq
run_built = refl

run_range : (built >>= λ s. range note (bytes "b") [] (pos 5) [] s) ≡ ok ((bytes "c", some 31) ∷ [])
unfolding matching put remove new_skip_list range in_range Str.lt Str.eq
run_range = refl

run_get : (built >>= λ s. find (bytes "c") s) ≡ ok (some 31, true)
unfolding matching put remove new_skip_list find Str.lt Str.eq
run_get = refl

-- A well-formed list with two keys.
abbrev one :
    (s : SkipList ℕ) × (put (tall 2) (bytes "b") 20 new_skip_list ≡ ok s)
    × Models s (insert_ordered (bytes "b") 20 [])
one = set-Models (tall 2) (bytes "b") 20 new_skip_list [] new_skip_list-Models

abbrev two :
    (s : SkipList ℕ) × (put (tall 0) (bytes "a") 10 one.0 ≡ ok s)
    × Models s (insert_ordered (bytes "a") 10 (insert_ordered (bytes "b") 20 []))
two = set-Models (tall 0) (bytes "a") 10 one.0 (insert_ordered (bytes "b") 20 []) one.2

abbrev two_entries : GoMap Str ℕ
two_entries = insert_ordered (bytes "a") 10 (insert_ordered (bytes "b") 20 [])

get_lem_example : find (bytes "b") two.0 ≡ ok (found (lookup (bytes "b") two_entries))
get_lem_example = get_lem (bytes "b") two.0 two_entries two.2

set-Models_example :
    (s : SkipList ℕ) × (put (tall 1) (bytes "a") 11 two.0 ≡ ok s)
    × Models s (insert_ordered (bytes "a") 11 two_entries)
set-Models_example = set-Models (tall 1) (bytes "a") 11 two.0 two_entries two.2

delete-Models_example :
    (s : SkipList ℕ) × (remove (bytes "b") two.0 ≡ ok (s, is_some (lookup (bytes "b") two_entries)))
    × Models s (delete_key (bytes "b") two_entries)
delete-Models_example = delete-Models (bytes "b") two.0 two_entries two.2

range-Models_example :
    range note (bytes "a") [] (pos 1) [] two.0
    ≡ ok (visit_all note (at_most (pos 1) 0 (until [] (at_least (bytes "a") two_entries))) [])
range-Models_example = range-Models note (bytes "a") [] (pos 1) two.0 two_entries [] two.2

get-set_example :
    find (bytes "a") two.0
    ≡ (if Str.eq (bytes "a") (bytes "a") then ok (some 10, true) else find (bytes "a") one.0)
get-set_example =
    get-set (tall 0) (bytes "a") (bytes "a") 10 one.0 two.0 (insert_ordered (bytes "b") 20 []) one.2
      two.1

abbrev cut_two :
    (s : SkipList ℕ) × (remove (bytes "a") two.0 ≡ ok (s, is_some (lookup (bytes "a") two_entries)))
    × Models s (delete_key (bytes "a") two_entries)
cut_two = delete-Models (bytes "a") two.0 two_entries two.2

get-delete_example :
    find (bytes "b") cut_two.0
    ≡ (if Str.eq (bytes "a") (bytes "b") then ok (none, false) else find (bytes "b") two.0)
get-delete_example =
    get-delete (bytes "a") (bytes "b") two.0 cut_two.0 _ two_entries two.2 cut_two.1
