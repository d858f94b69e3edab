-- ===== src/Replication/Log.antt =====
-- cache/replication/replication_log.go: `MemoryReplicationLog`. A method that mutates the log
-- returns the new one. The laws are in the child modules.
pub mod Indices
pub mod Reads
pub mod Appending
pub mod Batches
pub mod Positive
pub mod Truncation
mod Examples
use fyer_cache.Prelude.{
  nat_beq, ℕ, zero, suc, ◌+◌, ◌-◌, ◌%◌, Bool, true, false, List, [], ◌∷◌, ◌++◌, Option, none, some,
  ltb, leb, if◌then◌else◌, length, get_elem?, take, drop,
}
use fyer_cache.Prelude.Int.{ℤ, pos, negsuc}
use fyer_cache.Prelude.Result.{Result, ok, err, panic, ◌>>=◌}
use fyer_cache.Replication.Entry.{Entry}

pub data LogError : Type 0 where
  nil_entry log_is_empty compacted out_of_range bad_json : LogError

pub record Log : Type 0 where
  pub entries : List Entry
  pub last_term : ℕ

-- Go's `int` is taken as 64 bits.
abbrev pub u64_mod : ℕ
u64_mod = 18446744073709551616

abbrev pub int_limit : ℕ
int_limit = 9223372036854775808

unfoldable pub new : Log
new = record { entries = []; last_term = 0 }

-- `l.entries[len(l.entries)-1]`
unfoldable pub last_entry : List Entry → Option Entry
last_entry [] = none
last_entry (e ∷ []) = some e
last_entry (e ∷ f ∷ es) = last_entry (f ∷ es)

unfoldable pub next_index : Option Entry → ℕ
next_index none = 1
next_index (some e) = (e.index + 1) % u64_mod

unfoldable pub is_zero_time : ℤ → Bool
is_zero_time (pos n) = leb n 0
is_zero_time (negsuc n) = false

-- The entry as `Append` stores it; `now` is the clock's reading. `Append` writes the two fields into
-- the caller's entry and stores the pointer to it, so that an entry which is in the log already, as
-- one got by `Get` is, changes there too; an entry here is a value, and the model says what `Append`
-- does with an entry that nothing else refers to.
unfoldable pub stamped : ℤ → List Entry → Entry → Entry
unfolding last_entry next_index is_zero_time
stamped now es e = record e {
  index = next_index (last_entry es);
  timestamp = if is_zero_time e.timestamp then now else e.timestamp;
}

unfoldable pub append : ℤ → Option Entry → Log → Result LogError Log
unfolding stamped
append now none l = err nil_entry
append now (some e) l = ok (record {
  entries = l.entries ++ stamped now l.entries e ∷ [];
  last_term = if ltb l.last_term e.term then e.term else l.last_term;
})

-- `int(i) >= len` and then `entries[i]`: an `int` that wraps to a negative one passes the test.
unfoldable pub entry_at : ℕ → List Entry → Result LogError Entry
entry_at i es = elim (ltb i int_limit) [
  | true ↦ elim (get_elem? es i) [ none ↦ err out_of_range | some e ↦ ok e ]
  | false ↦ panic
]

unfoldable pub get_in : ℕ → List Entry → Result LogError Entry
unfolding entry_at
get_in index [] = err log_is_empty
get_in index (first ∷ rest) =
    if ltb index first.index then err compacted else entry_at (index - first.index) (first ∷ rest)

unfoldable pub get : ℕ → Log → Result LogError Entry
unfolding get_in
get index l = get_in index l.entries

-- `endPos`: the count is cut to what the log holds, and a count of 0 or less means all. The sum
-- that passes the `int` range is a slice of impossible length.
end_pos : ℕ → ℤ → ℕ → Option ℕ
end_pos start (pos zero) n = some n
end_pos start (negsuc m) n = some n
end_pos start (pos (suc m)) n =
    if leb int_limit (start + suc m)
    then none
    else if ltb n (start + suc m)
    then some n
    else some (start + suc m)

slice : ℕ → Option ℕ → List Entry → Result LogError (List Entry)
slice start none es = panic
slice start (some stop) es = ok (take (stop - start) (drop start es))

unfoldable pub entries_from : ℕ → ℤ → List Entry → Result LogError (List Entry)
unfolding end_pos slice
entries_from start max_count es =
    if leb int_limit start
    then panic
    else if leb (length es) start
    then ok []
    else slice start (end_pos start max_count (length es)) es

unfoldable pub get_from_in : ℕ → ℤ → List Entry → Result LogError (List Entry)
unfolding entries_from
get_from_in start_index max_count [] = err log_is_empty
get_from_in start_index max_count (first ∷ rest) =
    if ltb start_index first.index
    then err compacted
    else entries_from (start_index - first.index) max_count (first ∷ rest)

unfoldable pub get_from : ℕ → ℤ → Log → Result LogError (List Entry)
unfolding get_from_in
get_from start_index max_count l = get_from_in start_index max_count l.entries

unfoldable pub index_of : Option Entry → ℕ
index_of none = 0
index_of (some e) = e.index

unfoldable pub term_of : Option Entry → ℕ
term_of none = 0
term_of (some e) = e.term

unfoldable pub get_last_index : Log → ℕ
unfolding last_entry index_of
get_last_index l = index_of (last_entry l.entries)

unfoldable pub get_last_term : Log → ℕ
get_last_term l = l.last_term

-- A log of these entries, its term read off the last one.
unfoldable pub with_entries : List Entry → Log
unfolding last_entry term_of
with_entries es = record { entries = es; last_term = term_of (last_entry es) }

-- `int(adjustedIndex) >= len` keeps the log; an index that wraps is a slice out of bounds, but for
-- the last one, which is the `int` -1 and cuts all entries off.
unfoldable pub cut_at : ℕ → Log → Result LogError Log
unfolding with_entries
cut_at i l =
    if leb int_limit i
    then if nat_beq i 18446744073709551615 then ok (with_entries []) else panic
    else if leb (length l.entries) i
    then ok l
    else ok (with_entries (take (i + 1) l.entries))

unfoldable pub truncate_in : ℕ → List Entry → Log → Result LogError Log
unfolding cut_at
truncate_in index [] l = ok l
truncate_in index (first ∷ rest) l =
    if ltb index first.index then err compacted else cut_at (index - first.index) l

unfoldable pub truncate : ℕ → Log → Result LogError Log
unfolding truncate_in
truncate index l = truncate_in index l.entries l

-- `encoding/json`, which `Serialize` and `Deserialize` call.
pub record Json : Type 1 where
  pub Text : Type 0
  pub marshal : List Entry → Result LogError Text
  pub unmarshal : Text → Result LogError (List Entry)

module _ (j : Json) where
  open j use {Text, marshal, unmarshal}

  unfoldable pub serialize : Log → Result LogError Text
  serialize l = marshal l.entries

  unfoldable pub deserialize : Text → Log → Result LogError Log
  unfolding with_entries
  deserialize text l = do es ← unmarshal text; ok (with_entries es)

unfoldable pub count : Log → ℕ
count l = length l.entries

unfoldable pub clear : Log → Log
clear l = record { entries = []; last_term = 0 }
