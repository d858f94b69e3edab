-- ===== src/Replication/Log/Positive.antt =====
-- The indices of the entries that `GetFrom` returns.
use fyer_cache.Replication.Log.Indices.{Consecutive, Numbered}
use fyer_cache.Prelude.Int.{ℤ}
use fyer_cache.Replication.Log.{
  end_pos, int_limit, Log, index_of, slice, LogError, entries_from, get_from, get_from_in,
  last_entry,
}
use fyer_cache.Replication.Entry.{Entry}
use mathlib.Core.Path.{subst}
use fyer_cache.Prelude.Result.{Result, ok}
use fyer_cache.Prelude.{
  ℕ, zero, suc, ◌-◌, ◌≤◌, ◌≡◌, Bool, true, false, Option, none, some, List, [], ◌∷◌, arith, ltb,
  leb, if◌then◌else◌, length, take, drop, nat_equality,
}

abbrev pub Positive : List Entry → Type 0
Positive [] = Unit
Positive (e ∷ es) = (1 ≤ e.index) × Positive es

Positive-take : (n : ℕ) (es : List Entry) → Positive es → Positive (take n es)
Positive-take zero es h = tt
Positive-take (suc n) [] h = tt
Positive-take (suc n) (e ∷ es) h = (h.0, Positive-take n es h.1)

Positive-drop : (n : ℕ) (es : List Entry) → Positive es → Positive (drop n es)
Positive-drop zero es h = h
Positive-drop (suc n) [] h = tt
Positive-drop (suc n) (e ∷ es) h = Positive-drop n es h.1

Positive-ok :
    (es ds : List Entry)
    → Positive es
    → ◌≡◌ {A = Result LogError (List Entry)} (ok es) (ok ds)
    → Positive ds
Positive-ok es ds h p = let q : es ≡ ds = cc in subst Positive q h

slice-Positive :
    (start : ℕ) (stop : Option ℕ) (es ds : List Entry)
    → Positive es
    → slice start stop es ≡ ok ds
    → Positive ds
unfolding slice
slice-Positive start none es ds h p = cc
slice-Positive start (some stop) es ds h p =
    Positive-ok _ ds (Positive-take (stop - start) (drop start es) (Positive-drop start es h)) p

if-Positive :
    (b : Bool) (m n : Result LogError (List Entry)) (ds : List Entry)
    → (m ≡ ok ds → Positive ds)
    → (n ≡ ok ds → Positive ds)
    → (if b then m else n) ≡ ok ds
    → Positive ds
if-Positive true m n ds on_true on_false p = on_true p
if-Positive false m n ds on_true on_false p = on_false p

entries_from-Positive :
    (start : ℕ) (m : ℤ) (es ds : List Entry)
    → Positive es
    → entries_from start m es ≡ ok ds
    → Positive ds
unfolding entries_from
entries_from-Positive start m es ds h p =
    if-Positive (leb int_limit start) _ _ ds (λ q. cc)
      (if-Positive (leb (length es) start) _ _ ds (Positive-ok [] ds tt)
        (slice-Positive start (end_pos start m (length es)) es ds h))
      p

get_from_in-Positive :
    (start : ℕ) (m : ℤ) (es ds : List Entry)
    → Positive es
    → get_from_in start m es ≡ ok ds
    → Positive ds
unfolding get_from_in
get_from_in-Positive start m [] ds h p = cc
get_from_in-Positive start m (e ∷ es) ds h p =
    if-Positive (ltb start e.index) _ _ ds (λ q. cc)
      (entries_from-Positive (start - e.index) m (e ∷ es) ds h) p

pub get_from-Positive :
    (start : ℕ) (m : ℤ) (l : Log) (ds : List Entry)
    → Positive l.entries
    → get_from start m l ≡ ok ds
    → Positive ds
unfolding get_from
get_from-Positive start m l ds h p = get_from_in-Positive start m l.entries ds h p

Numbered-Positive : (i : ℕ) (es : List Entry) → 1 ≤ i → Numbered i es → Positive es
Numbered-Positive i [] le h = tt
Numbered-Positive i (e ∷ es) le h = (omega arith, Numbered-Positive (suc i) es (omega arith) h.1)

pub Consecutive-Positive : (es : List Entry) → Consecutive es → Positive es
Consecutive-Positive [] c = tt
Consecutive-Positive (e ∷ es) c = (c.0, Numbered-Positive (suc e.index) es (omega arith) c.2)

pub last_entry-Positive :
    (e : Entry) (es : List Entry) → Positive (e ∷ es) → 1 ≤ index_of (last_entry (e ∷ es))
unfolding last_entry index_of
last_entry-Positive e [] h = h.0
last_entry-Positive e (d ∷ es) h = last_entry-Positive d es h.1
