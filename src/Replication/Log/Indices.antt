-- ===== src/Replication/Log/Indices.antt =====
-- The numbering of the entries: consecutive, and kept by `Append`.
use fyer_cache.Prelude.{
  ℕ, zero, suc, ◌+◌, ◌%◌, ◌≤◌, ◌<◌, ◌≡◌, refl, List, [], ◌∷◌, ◌++◌, Option, none, some, arith,
  length, length-append, get_elem?, take, drop,
}
use fyer_cache.Replication.Entry.{Entry}
use fyer_cache.Replication.Log.{
  Log, u64_mod, int_limit, last_entry, next_index, index_of, get_last_index,
}

-- The entries carry the indices `i`, `i + 1`, ….
abbrev pub Numbered : ℕ → List Entry → Type 0
Numbered i [] = Unit
Numbered i (e ∷ es) = (e.index ≡ i) × Numbered (suc i) es

abbrev pub Consecutive : List Entry → Type 0
Consecutive [] = Unit
Consecutive (e ∷ es) = (1 ≤ e.index) × (e.index + length es < u64_mod) × Numbered (suc e.index) es

pub record IsValid (l : Log) : Type 0 where
  pub consecutive : Consecutive l.entries
  pub fits : length l.entries < int_limit

abbrev pub first_index : List Entry → ℕ
first_index [] = 1
first_index (e ∷ es) = e.index

pub Numbered-append :
    (i : ℕ) (es : List Entry) (e : Entry)
    → Numbered i es
    → e.index ≡ i + length es
    → Numbered i (es ++ e ∷ [])
Numbered-append i [] e h p = (omega arith, tt)
Numbered-append i (d ∷ es) e h p = (h.0, Numbered-append (suc i) es e h.1 (omega arith))

pub Numbered-take : (i n : ℕ) (es : List Entry) → Numbered i es → Numbered i (take n es)
Numbered-take i zero es h = tt
Numbered-take i (suc n) [] h = tt
Numbered-take i (suc n) (e ∷ es) h = (h.0, Numbered-take (suc i) n es h.1)

pub Numbered-drop : (i n : ℕ) (es : List Entry) → Numbered i es → Numbered (i + n) (drop n es)
Numbered-drop i zero es h = let e : i + 0 ≡ i = omega arith in rw e h
Numbered-drop i (suc n) [] h = tt
Numbered-drop i (suc n) (e ∷ es) h =
    let p : i + suc n ≡ suc i + n = omega arith in rw p (Numbered-drop (suc i) n es h.1)

pub Numbered-get_elem? :
    (i n : ℕ) (es : List Entry) (e : Entry)
    → Numbered i es
    → get_elem? es n ≡ some e
    → e.index ≡ i + n
Numbered-get_elem? i n [] e h p = cc
Numbered-get_elem? i zero (d ∷ es) e h p = ground arith
Numbered-get_elem? i (suc n) (d ∷ es) e h p = omega (arith, Numbered-get_elem? (suc i) n es e h.1 p)

pub last_entry-append : (es : List Entry) (e : Entry) → last_entry (es ++ e ∷ []) ≡ some e
unfolding last_entry
last_entry-append [] e = refl
last_entry-append (d ∷ []) e = refl
last_entry-append (d ∷ d' ∷ es) e = last_entry-append (d' ∷ es) e

pub last_index-Numbered :
    (i : ℕ) (e : Entry) (es : List Entry)
    → Numbered i (e ∷ es)
    → index_of (last_entry (e ∷ es)) ≡ i + length es
unfolding last_entry index_of
last_index-Numbered i e [] h = omega arith
last_index-Numbered i e (d ∷ es) h = omega (arith, last_index-Numbered (suc i) d es h.1)

-- The last index of a valid log, read off its first one.
pub last_index_lem :
    (l : Log) → IsValid l → get_last_index l + 1 ≡ first_index l.entries + length l.entries
unfolding get_last_index last_entry index_of
last_index_lem l v = go l.entries v.consecutive
  where
    go :
        (es : List Entry)
        → Consecutive es
        → index_of (last_entry es) + 1 ≡ first_index es + length es
    go [] c = refl
    go (e ∷ es) c = omega (arith, last_index-Numbered e.index e es (refl, c.2))

last_entry-some : (e : Entry) (es : List Entry) → (d : Entry) × (last_entry (e ∷ es) ≡ some d)
unfolding last_entry
last_entry-some e [] = (e, refl)
last_entry-some e (d ∷ es) = last_entry-some d es

next_index-index_of :
    (o : Option Entry) (d : Entry) → o ≡ some d → next_index o ≡ (index_of o + 1) % u64_mod
unfolding next_index index_of
next_index-index_of none d p = cc
next_index-index_of (some e) d p = refl

pub next_index_lem :
    (es : List Entry)
    → Consecutive es
    → first_index es + length es < u64_mod
    → next_index (last_entry es) ≡ first_index es + length es
unfolding next_index last_entry
next_index_lem [] c h = omega arith
next_index_lem (e ∷ es) c h =
    let (d, p) = last_entry-some e es in
    omega (
      arith,
      next_index-index_of (last_entry (e ∷ es)) d p,
      last_index-Numbered e.index e es (refl, c.2),
    )

pub Consecutive-append :
    (es : List Entry) (e : Entry)
    → Consecutive es
    → first_index es + length es < u64_mod
    → e.index ≡ first_index es + length es
    → Consecutive (es ++ e ∷ [])
Consecutive-append [] e c h p = (omega arith, omega arith, tt)
Consecutive-append (d ∷ es) e c h p = (
  c.0,
  omega (arith, length-append es (e ∷ [])),
  Numbered-append (suc d.index) es e c.2 (omega arith),
)

pub first_index-append :
    (es : List Entry) (e : Entry)
    → e.index ≡ first_index es + length es
    → first_index (es ++ e ∷ []) ≡ first_index es
first_index-append [] e p = omega arith
first_index-append (d ∷ es) e p = refl
