-- ===== src/Replication/Log/Appending.antt =====
-- `Append`: the stored entry and the numbering.
use fyer_cache.Prelude.{
  ℕ, zero, suc, ◌+◌, ◌-◌, ◌≤◌, ◌<◌, ◌≡◌, refl, List, [], ◌∷◌, ◌++◌, some, arith, length,
  length-append, get_elem?, ltb, if◌then◌else◌,
}
use fyer_cache.Prelude.Int.{negsuc, pos, ℤ}
use fyer_cache.Prelude.Result.{ok}
use fyer_cache.Replication.Entry.{Entry}
use fyer_cache.Replication.Log.{
  is_zero_time, Log, u64_mod, int_limit, stamped, append, index_of, get_last_index, count, get,
  get_in,
}
use fyer_cache.Replication.Log.Reads.{get_in_of_elem}
use fyer_cache.Replication.Log.Indices.{
  next_index_lem, Consecutive-append, first_index-append, last_entry-append, IsValid, first_index,
  last_index_lem,
}

get_elem?-append :
    (es : List Entry) (e : Entry) (i : ℕ)
    → i < length es
    → get_elem? (es ++ e ∷ []) i ≡ get_elem? es i
get_elem?-append [] e i h = elim h [ ]
get_elem?-append (d ∷ es) e zero h = refl
get_elem?-append (d ∷ es) e (suc i) h = get_elem?-append es e i (omega arith)

get_elem?-append_end : (es : List Entry) (e : Entry) → get_elem? (es ++ e ∷ []) (length es) ≡ some e
get_elem?-append_end [] e = refl
get_elem?-append_end (d ∷ es) e = get_elem?-append_end es e

elem_lt : (es : List Entry) (i : ℕ) (d : Entry) → get_elem? es i ≡ some d → i < length es
elem_lt [] i d p = cc
elem_lt (e ∷ es) zero d p = omega arith
elem_lt (e ∷ es) (suc i) d p = omega (arith, elem_lt es i d p)

get_in-append :
    (es : List Entry) (s : Entry) (i : ℕ) (d : Entry)
    → length es + 1 < int_limit
    → s.index ≡ first_index es + length es
    → first_index es ≤ i
    → get_elem? (es ++ s ∷ []) (i - first_index es) ≡ some d
    → get_in i (es ++ s ∷ []) ≡ ok d
get_in-append es s i d r q lo p =
    get_in_of_elem (es ++ s ∷ []) i d (omega (arith, length-append es (s ∷ [])))
      (omega (arith, first_index-append es s q)) (rw (first_index-append es s q) p)

-- A time, or the clock's reading for the zero time.
abbrev pub time_or : ℤ → ℤ → ℤ
time_or now (pos zero) = now
time_or now (pos (suc n)) = pos (suc n)
time_or now (negsuc n) = negsuc n

time_or_lem : (now t : ℤ) → (if is_zero_time t then now else t) ≡ time_or now t
unfolding is_zero_time
time_or_lem now (pos zero) = refl
time_or_lem now (pos (suc n)) = ground arith
time_or_lem now (negsuc n) = refl

stamped_time :
    (now : ℤ) (es : List Entry) (e : Entry) → (stamped now es e).timestamp ≡ time_or now e.timestamp
unfolding stamped
stamped_time now es e = time_or_lem now e.timestamp

-- What `Append` leaves: the stamped entry at the end.
module _ (now : ℤ) (e : Entry) (l : Log) where
  unfoldable pub appended : Log
  appended = record {
    entries = l.entries ++ stamped now l.entries e ∷ [];
    last_term = if ltb l.last_term e.term then e.term else l.last_term;
  }

  stamped_index :
      IsValid l
      → get_last_index l + 1 < u64_mod
      → (stamped now l.entries e).index ≡ first_index l.entries + length l.entries
  unfolding stamped
  stamped_index v h = next_index_lem l.entries v.consecutive (omega (arith, last_index_lem l v))

  pub appended-IsValid :
      IsValid l → get_last_index l + 1 < u64_mod → count l + 1 < int_limit → IsValid appended
  unfolding appended count
  appended-IsValid v h r = record {
    consecutive =
        Consecutive-append l.entries (stamped now l.entries e) v.consecutive
          (omega (arith, last_index_lem l v)) (stamped_index v h);
    fits = omega (arith, length-append l.entries (stamped now l.entries e ∷ []));
  }

  last_index-appended :
      IsValid l → get_last_index l + 1 < u64_mod → get_last_index appended ≡ get_last_index l + 1
  unfolding get_last_index index_of appended
  last_index-appended v h =
      rw (last_entry-append l.entries (stamped now l.entries e))
        (omega (arith, stamped_index v h, last_index_lem l v))

  get_last-appended :
      IsValid l
      → get_last_index l + 1 < u64_mod
      → count l + 1 < int_limit
      → get (get_last_index l + 1) appended ≡ ok (stamped now l.entries e)
  unfolding get appended count
  get_last-appended v h r =
      let at : first_index l.entries + length l.entries - first_index l.entries ≡ length l.entries =
        omega arith in
      rw (last_index_lem l v) (
        get_in-append l.entries (stamped now l.entries e) _ _ r (stamped_index v h) (omega arith)
          (rw at (get_elem?-append_end l.entries _)))

  -- Below the limits of the index and of the slice, `Append` to a well-formed log succeeds, keeps
  -- it well-formed, and stores under the next index an entry with the given entry's term, command,
  -- key, value, expiration and value type, and with its timestamp, or the clock's reading where that
  -- is the zero time.
  pub append_lem :
      IsValid l
      → get_last_index l + 1 < u64_mod
      → count l + 1 < int_limit
      → (l' : Log) × (d : Entry) × (append now (some e) l ≡ ok l')
        × IsValid l'
        × (get_last_index l' ≡ get_last_index l + 1)
        × (get (get_last_index l + 1) l' ≡ ok d)
        × (d.index ≡ get_last_index l + 1)
        × (d.term ≡ e.term)
        × (d.command ≡ e.command)
        × (d.key ≡ e.key)
        × (d.value ≡ e.value)
        × (d.expiration ≡ e.expiration)
        × (d.value_type ≡ e.value_type)
        × (d.timestamp ≡ time_or now e.timestamp)
  unfolding append appended
  append_lem v h r =
      let d = stamped now l.entries e in
      (
        appended,
        d,
        refl,
        appended-IsValid v h r,
        last_index-appended v h,
        get_last-appended v h r,
        omega (arith, stamped_index v h, last_index_lem l v),
        unfold stamped in refl,
        unfold stamped in refl,
        unfold stamped in refl,
        unfold stamped in refl,
        unfold stamped in refl,
        unfold stamped in refl,
        stamped_time now l.entries e,
      )
