-- ===== src/Replication/Log/Examples.antt =====
-- A log of three entries, and the theorems at it.
use fyer_cache.Replication.Log.Batches.{batch}
use fyer_cache.Prelude.Result.{err, ok}
use fyer_cache.Prelude.Int.{pos}
use fyer_cache.Prelude.{
  ℕ, ◌+◌, ◌-◌, ◌≡◌, refl, some, List, [], ◌∷◌, arith, length, take, drop, nat_equality,
}
use fyer_cache.Replication.Log.Indices.{Numbered, IsValid}
use fyer_cache.Replication.Log.{
  out_of_range, with_entries, index_of, term_of, get_from, last_entry, Log, append, count, get,
  get_last_index, truncate,
}
use fyer_cache.Replication.Entry.{Entry}
use fyer_cache.Prelude.Str.{bytes}
use fyer_cache.Replication.Log.Appending
use fyer_cache.Replication.Log.Reads
use fyer_cache.Replication.Log.Batches
use fyer_cache.Replication.Log.Truncation

abbrev entry : ℕ → ℕ → Entry
entry i t = record {
  index = i;
  term = t;
  command = bytes "Set";
  key = bytes "k";
  value = 7 ∷ [];
  expiration = pos 60;
  timestamp = pos 5;
  value_type = bytes "bytes";
}

abbrev three : Log
three = record { entries = entry 1 1 ∷ entry 2 1 ∷ entry 3 2 ∷ []; last_term = 2 }

three-IsValid : IsValid three
three-IsValid = omega arith

build :
    (append
      (pos 9)
      (some (entry 0 2))
      (record { entries = entry 1 1 ∷ entry 2 1 ∷ []; last_term = 1 }))
    ≡ ok three
unfolding append
build = refl

get_last_index-three : get_last_index three ≡ 3
unfolding get_last_index last_entry index_of
get_last_index-three = refl

count-three : count three ≡ 3
unfolding count
count-three = refl

get_above_example : get 7 three ≡ err out_of_range
get_above_example =
    Reads.get_above three 7 three-IsValid (λ e. cc) (omega (arith, get_last_index-three))

append_lem_example :
    (l' : Log) × (d : Entry) × (append (pos 9) (some (entry 0 4)) three ≡ ok l')
    × IsValid l'
    × (get_last_index l' ≡ get_last_index three + 1)
    × (get (get_last_index three + 1) l' ≡ ok d)
    × (d.index ≡ get_last_index three + 1)
    × (d.term ≡ 4)
    × (d.command ≡ bytes "Set")
    × (d.key ≡ bytes "k")
    × (d.value ≡ 7 ∷ [])
    × (d.expiration ≡ pos 60)
    × (d.value_type ≡ bytes "bytes")
    × (d.timestamp ≡ pos 5)
append_lem_example =
    Appending.append_lem (pos 9) (entry 0 4) three three-IsValid
      (omega (arith, get_last_index-three)) (omega (arith, count-three))

get_from_lem_example :
    (es : List Entry) × (get_from 2 (pos 5) three ≡ ok es)
    × Numbered 2 es
    × (length es ≡ batch (pos 5) (get_last_index three + 1 - 2))
    × (es ≡ take (length es) (drop (2 - 1) three.entries))
get_from_lem_example =
    Batches.get_from_lem three 2 (pos 5) three-IsValid (omega arith)
      (omega (arith, get_last_index-three)) (omega arith)

truncate_lem_example :
    (l' : Log) × (truncate 2 three ≡ ok l')
    × IsValid l'
    × (get_last_index l' ≡ 2)
    × (l'.last_term ≡ term_of (last_entry l'.entries))
truncate_lem_example =
    Truncation.truncate_lem three 2 three-IsValid (omega arith)
      (omega (arith, get_last_index-three))

get-truncate_example :
    get 1 (record { entries = entry 1 1 ∷ entry 2 1 ∷ []; last_term = 1 }) ≡ ok (entry 1 1)
unfolding truncate get last_entry term_of with_entries
get-truncate_example =
    Truncation.get-truncate three 2 1 (entry 1 1) _ three-IsValid (omega arith)
      (omega (arith, get_last_index-three)) refl (omega arith) refl
