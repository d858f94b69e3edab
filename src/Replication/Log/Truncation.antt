-- ===== src/Replication/Log/Truncation.antt =====
-- `Truncate`: what is cut and what stays.
use fyer_cache.Prelude.{
  length-take, ℕ, zero, suc, ◌+◌, ◌-◌, ◌≤◌, ◌<◌, ◌≡◌, refl, ap, ◌∙◌, List, [], ◌∷◌, arith, length,
  get_elem?, take,
}
use fyer_cache.Prelude.Result.{ok}
use fyer_cache.Replication.Entry.{Entry}
use fyer_cache.Replication.Log.{
  term_of, cut_at, truncate_in, with_entries, truncate, Log, int_limit, last_entry, get_last_index,
  get,
}
use fyer_cache.Replication.Log.Reads.{get_in_of_elem, elem_of_get_in}
use fyer_cache.Replication.Log.Indices.{
  Numbered-take, Consecutive, IsValid, first_index, last_index_lem,
}

Consecutive-take : (n : ℕ) (es : List Entry) → Consecutive es → Consecutive (take (suc n) es)
Consecutive-take n [] c = tt
Consecutive-take n (e ∷ es) c =
    (c.0, omega (arith, length-take n es), Numbered-take (suc e.index) n es c.2)

first_index-take : (n : ℕ) (es : List Entry) → first_index (take (suc n) es) ≡ first_index es
first_index-take n [] = refl
first_index-take n (e ∷ es) = refl

get_elem?-take : (n i : ℕ) (es : List Entry) → i < n → get_elem? (take n es) i ≡ get_elem? es i
get_elem?-take zero i es h = elim h [ ]
get_elem?-take (suc n) i [] h = refl
get_elem?-take (suc n) zero (e ∷ es) h = refl
get_elem?-take (suc n) (suc i) (e ∷ es) h = get_elem?-take n i es (omega arith)

module _ (l : Log) (i : ℕ) where
  cut : Log
  cut = with_entries (take (i - first_index l.entries + 1) l.entries)

  truncate_in_lem :
      (es : List Entry)
      → length es < int_limit
      → first_index es ≤ i
      → i < first_index es + length es
      → es ≡ l.entries
      → truncate_in i es l ≡ ok cut
  unfolding truncate_in cut_at cut
  truncate_in_lem [] r lo hi e = absurd (omega arith)
  truncate_in_lem (d ∷ es) r lo hi e = rw (← e) (ground arith)

  cut-IsValid : IsValid l → IsValid cut
  unfolding cut with_entries
  cut-IsValid v =
      let p : i - first_index l.entries + 1 ≡ suc (i - first_index l.entries) = omega arith in
      rw p (record {
        consecutive = Consecutive-take _ l.entries v.consecutive;
        fits = omega (arith, v.fits, length-take (suc (i - first_index l.entries)) l.entries);
      })

  cut_entries : cut.entries ≡ take (suc (i - first_index l.entries)) l.entries
  unfolding cut with_entries
  cut_entries =
      let p : i - first_index l.entries + 1 ≡ suc (i - first_index l.entries) = omega arith in
      ap (λ n. take n l.entries) p

  last_index-cut :
      IsValid l → first_index l.entries ≤ i → i ≤ get_last_index l → get_last_index cut ≡ i
  last_index-cut v lo hi =
      let off = i - first_index l.entries in
      omega (
        arith,
        last_index_lem cut (cut-IsValid v),
        last_index_lem l v,
        ap first_index cut_entries,
        first_index-take off l.entries,
        ap length cut_entries,
        length-take (suc off) l.entries,
      )

  get-cut : (j : ℕ) (d : Entry) → IsValid l → j ≤ i → get j l ≡ ok d → get j cut ≡ ok d
  unfolding get
  get-cut j d v le q =
      let off = i - first_index l.entries in
      let (lo, found) = elem_of_get_in l.entries j d q in
      rw cut_entries (
        get_in_of_elem (take (suc off) l.entries) j d
          (omega (arith, v.fits, length-take (suc off) l.entries))
          (omega (arith, first_index-take off l.entries))
          (rw (first_index-take off l.entries)
            (get_elem?-take (suc off) (j - first_index l.entries) l.entries (omega arith) ∙ found)))

  pub truncate_cut :
      IsValid l
      → first_index l.entries ≤ i
      → i ≤ get_last_index l
      → truncate i l ≡ ok (with_entries (take (i - first_index l.entries + 1) l.entries))
  unfolding truncate cut
  truncate_cut v lo hi =
      truncate_in_lem l.entries v.fits lo (omega (arith, last_index_lem l v)) refl

  -- Cutting a well-formed log at an index between its first and its last one leaves a well-formed
  -- log that ends there, with the term of its last entry for its last term.
  pub truncate_lem :
      IsValid l
      → first_index l.entries ≤ i
      → i ≤ get_last_index l
      → (l' : Log) × (truncate i l ≡ ok l')
        × IsValid l'
        × (get_last_index l' ≡ i)
        × (l'.last_term ≡ term_of (last_entry l'.entries))
  unfolding truncate
  truncate_lem v lo hi = (
    cut,
    truncate_in_lem l.entries v.fits lo (omega (arith, last_index_lem l v)) refl,
    cut-IsValid v,
    last_index-cut v lo hi,
    unfold cut with_entries in refl,
  )

  -- After cutting a well-formed log at an index between its first and its last one, an entry that
  -- could be read at an index up to that one reads as before.
  pub get-truncate :
      (j : ℕ) (d : Entry) (l' : Log)
      → IsValid l
      → first_index l.entries ≤ i
      → i ≤ get_last_index l
      → truncate i l ≡ ok l'
      → j ≤ i
      → get j l ≡ ok d
      → get j l' ≡ ok d
  get-truncate j d l' v lo hi p le q =
      let c : truncate i l ≡ ok cut =
        unfold truncate in
        truncate_in_lem l.entries v.fits lo (omega (arith, last_index_lem l v)) refl in
      let same : l' ≡ cut = cc in rw same (get-cut j d v le q)
