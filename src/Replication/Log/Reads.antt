-- ===== src/Replication/Log/Reads.antt =====
-- What `Get` and `GetFrom` return on a well-formed log, and what `Append` changes of that.
use fyer_cache.Prelude.{
  ℕ, ◌+◌, ◌-◌, ◌≤◌, ◌<◌, ◌≡◌, ◌≢◌, refl, List, [], ◌∷◌, some, arith, length, get_elem?,
  get_elem?-some, get_elem?-none, Bool-cases, inl, inr, leb, leb→le, if◌then◌else◌,
}
use fyer_cache.Prelude.Result.{ok, err, panic}
use fyer_cache.Replication.Entry.{Entry}
use fyer_cache.Replication.Log.{Log, out_of_range, int_limit, get_last_index, get, get_in, entry_at}
use fyer_cache.Replication.Log.Indices.{
  Consecutive, IsValid, first_index, Numbered-get_elem?, last_index_lem,
}

entry_at_hit :
    (i : ℕ) (es : List Entry)
    → i < length es
    → length es < int_limit
    → (e : Entry) × (get_elem? es i ≡ some e) × (entry_at i es ≡ ok e)
unfolding entry_at
entry_at_hit i es h r = let (e, p) = get_elem?-some es i h in (e, p, ground arith)

entry_at_miss :
    (i : ℕ) (es : List Entry) → length es ≤ i → i < int_limit → entry_at i es ≡ err out_of_range
unfolding entry_at
entry_at_miss i es h r = ground (arith, get_elem?-none es i h)

get_in_present :
    (es : List Entry) (i : ℕ)
    → Consecutive es
    → length es < int_limit
    → first_index es ≤ i
    → i < first_index es + length es
    → (e : Entry) × (get_in i es ≡ ok e)
      × (get_elem? es (i - first_index es) ≡ some e)
      × (e.index ≡ i)
unfolding get_in
get_in_present [] i c r lo hi = absurd (omega arith)
get_in_present (d ∷ es) i c r lo hi =
    let (e, found, p) = entry_at_hit (i - d.index) (d ∷ es) (omega arith) r in
    (
      e,
      ground (arith, p),
      found,
      omega (arith, Numbered-get_elem? d.index (i - d.index) (d ∷ es) e (refl, c.2) found),
    )

-- On a well-formed log, `Get` of every index from the first to the last one returns the entry
-- that carries this index.
pub get_present :
    (l : Log) (i : ℕ)
    → IsValid l
    → first_index l.entries ≤ i
    → i ≤ get_last_index l
    → (e : Entry) × (get i l ≡ ok e) × (e.index ≡ i)
unfolding get
get_present l i v lo hi =
    let (e, found, _, p) =
      get_in_present l.entries i v.consecutive v.fits lo (omega (arith, last_index_lem l v)) in
    (e, found, p)

get_in_above :
    (es : List Entry) (i : ℕ)
    → es ≢ []
    → length es < int_limit
    → first_index es + length es ≤ i
    → get_in i es ≡ (if leb (first_index es + int_limit) i then panic else err out_of_range)
unfolding get_in entry_at
get_in_above [] i ne r lt = absurd (ne refl)
get_in_above (d ∷ es) i ne r lt =
    ground (arith, get_elem?-none (d ∷ es) (i - d.index) (omega arith))

-- On a well-formed log with entries, `Get` of an index past the last one is out of range, but
-- it panics if the index is 2^63 or more above the first one.
pub get_above :
    (l : Log) (i : ℕ)
    → IsValid l
    → l.entries ≢ []
    → get_last_index l < i
    → get i l ≡ (if leb (first_index l.entries + int_limit) i then panic else err out_of_range)
unfolding get
get_above l i v ne lt = get_in_above l.entries i ne v.fits (omega (arith, last_index_lem l v))

pub get_in_of_elem :
    (es : List Entry) (i : ℕ) (e : Entry)
    → length es < int_limit
    → first_index es ≤ i
    → get_elem? es (i - first_index es) ≡ some e
    → get_in i es ≡ ok e
unfolding get_in entry_at
get_in_of_elem [] i e r lo p = cc
get_in_of_elem (d ∷ es) i e r lo p = elim (Bool-cases (leb (length (d ∷ es)) (i - d.index))) [
  | inl past ↦ cc (get_elem?-none (d ∷ es) (i - d.index) (leb→le _ _ past), p)
  | inr here ↦ ground (arith, p)
]

pub elem_of_get_in :
    (es : List Entry) (i : ℕ) (e : Entry)
    → get_in i es ≡ ok e
    → (first_index es ≤ i) × (get_elem? es (i - first_index es) ≡ some e)
unfolding get_in entry_at
elem_of_get_in [] i e p = cc
elem_of_get_in (d ∷ es) i e p = ground arith
