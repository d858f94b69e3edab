-- ===== src/SkipList/Rereads.antt =====
-- What a `Get` returns after a `Set` or a `Delete`.
use fyer_cache.SkipList.Shape.{Sorted}
use fyer_cache.Prelude.{
  ℕ, ◌≡◌, refl, Bool, true, false, Option, none, some, List, [], ◌∷◌, if◌then◌else◌, nat_equality,
}
use fyer_cache.Prelude.Str.{Str, str_equality}
use fyer_cache.Prelude.Str
use fyer_cache.Prelude.GoMap.{GoMap, lookup, lookup-delete, delete as delete_key}
use fyer_cache.Prelude.Result.{Result, ok}
use fyer_cache.SkipList.{Node, SkipList, Fault, get, delete, set}
use fyer_cache.SkipList.Chain.{All}
use fyer_cache.SkipList.Ordered.{insert_ordered, Ascending, lookup-insert_ordered}
use fyer_cache.SkipList.Lookup.{Models, Holds, found, get_lem}
use fyer_cache.SkipList.Setting.{set-Models}
use fyer_cache.SkipList.Deletion.{delete-Models}

module _ {V : Type 0} where
  Holds-All :
      (h : ℕ → Node V) (k : Str) (ns : List ℕ) (m : GoMap Str V)
      → All (λ b. Str.lt k (h b).key ≡ true) ns
      → Holds h ns m
      → All (λ (e : Str × V). Str.lt k e.0 ≡ true) m
  Holds-All h k [] [] p q = tt
  Holds-All h k [] (e ∷ m) p q = absurd q
  Holds-All h k (a ∷ ns) [] p q = absurd q
  Holds-All h k (a ∷ ns) ((j, v) ∷ m) p q = (rw (← q.0) p.0, Holds-All h k ns m p.1 q.2)

  Holds-Ascending :
      (h : ℕ → Node V) (ns : List ℕ) (m : GoMap Str V) → Sorted h ns → Holds h ns m → Ascending m
  Holds-Ascending h [] [] p q = tt
  Holds-Ascending h [] (e ∷ m) p q = absurd q
  Holds-Ascending h (a ∷ ns) [] p q = absurd q
  Holds-Ascending h (a ∷ ns) ((j, v) ∷ m) p q =
      (rw (← q.0) (Holds-All h (h a).key ns m p.0 q.2), Holds-Ascending h ns m p.1 q.2)

  -- The entries that a well-formed skip list stands for rise strictly.
  pub Models-Ascending : (s : SkipList V) (m : GoMap Str V) → Models s m → Ascending m
  Models-Ascending s m r = Holds-Ascending s.node r.nodes m r.shape.sorted r.holds

  -- On a well-formed skip list, after `Set` of a key a `Get` of this key finds the value, and a `Get` of
  -- any other key returns what it returned before.
  pub get-set :
      (flips : ℕ → Bool) (k j : Str) (v : V) (s s' : SkipList V) (m : GoMap Str V)
      → Models s m
      → set flips k v s ≡ ok s'
      → get j s' ≡ (if Str.eq k j then ok (some v, true) else get j s)
  get-set flips k j v s s' m r run =
      let (t, run', r') = set-Models flips k v s m r in
      let same : t ≡ s' = cc in
      rw
        (
          ← same,
          get_lem j t (insert_ordered k v m) r',
          get_lem j s m r,
          lookup-insert_ordered k j v m (Models-Ascending s m r),
        )
        (if_found (Str.eq k j))
    where
      if_found :
          (b : Bool)
          → ◌≡◌ {A = Result Fault (Option V × Bool)}
              (ok (found (if b then some v else lookup j m)))
              (if b then ok (some v, true) else ok (found (lookup j m)))
      if_found true = refl
      if_found false = refl

  -- On a well-formed skip list, after `Delete` of a key a `Get` of this key misses, and a `Get` of any other key returns what it
  -- returned before.
  pub get-delete :
      (k j : Str) (s s' : SkipList V) (deleted : Bool) (m : GoMap Str V)
      → Models s m
      → delete k s ≡ ok (s', deleted)
      → get j s' ≡ (if Str.eq k j then ok (none, false) else get j s)
  get-delete k j s s' deleted m r run =
      let (t, run', r') = delete-Models k s m r in
      let same : t ≡ s' = cc in
      rw (← same, get_lem j t (delete_key k m) r', get_lem j s m r, lookup-delete k j m)
        (if_missing (Str.eq k j))
    where
      if_missing :
          (b : Bool)
          → ◌≡◌ {A = Result Fault (Option V × Bool)}
              (ok (found (if b then none else lookup j m)))
              (if b then ok (none, false) else ok (found (lookup j m)))
      if_missing true = refl
      if_missing false = refl
