-- ===== src/SkipList/Ordered.antt =====
-- The abstract view of the skip list: an association list in the order of the keys.
use fyer_cache.Prelude.{
  ◌≡◌, refl, true, false, none, some, [], ◌∷◌, arith, if◌then◌else◌, nat_equality, beq_ne,
}
use fyer_cache.Prelude.Str.{Str, str_equality}
use fyer_cache.Prelude.Str
use fyer_cache.Prelude.GoMap.{GoMap, lookup}
use fyer_cache.SkipList.Chain.{All}

module _ {V : Type 0} where
  unfoldable pub insert_ordered : Str → V → GoMap Str V → GoMap Str V
  insert_ordered k v [] = (k, v) ∷ []
  insert_ordered k v ((j, w) ∷ m) =
      if Str.lt j k
      then (j, w) ∷ insert_ordered k v m
      else if Str.eq j k
      then (k, v) ∷ m
      else (k, v) ∷ (j, w) ∷ m

  -- The keys rise strictly.
  abbrev pub Ascending : GoMap Str V → Type 0
  Ascending [] = Unit
  Ascending (e ∷ m) = All (λ f. Str.lt e.0 f.0 ≡ true) m × Ascending m

  pub lookup-absent :
      (k : Str) (m : GoMap Str V) → All (λ f. Str.lt k f.0 ≡ true) m → lookup k m ≡ none
  unfolding lookup
  lookup-absent k [] p = refl
  lookup-absent k ((j, v) ∷ m) p =
      let differ : Str.eq j k ≡ false = beq_ne j k (λ e. cc (Str.lt_irrefl k, p.0, e)) in
      rw differ (lookup-absent k m p.1)

  -- Insertion is the insertion of a map, whatever the order.
  pub lookup-insert_ordered :
      (k j : Str) (v : V) (m : GoMap Str V)
      → Ascending m
      → lookup j (insert_ordered k v m) ≡ (if Str.eq k j then some v else lookup j m)
  unfolding lookup insert_ordered
  lookup-insert_ordered k j v [] a = refl
  lookup-insert_ordered k j v ((i, w) ∷ m) a = ground (
    arith,
    lookup-insert_ordered k j v m a.1,
    Str.eq_iff k j,
    Str.eq_iff i k,
    Str.eq_iff i j,
    Str.lt_irrefl k,
  )
