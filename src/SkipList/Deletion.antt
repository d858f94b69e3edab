-- ===== src/SkipList/Deletion.antt =====
-- `Delete` refines the deletion from the abstract map.
use fyer_cache.Prelude.{
  is_some, ℕ, ◌≡◌, refl, sym, ap, ◌∙◌, inl, inr, true, false, none, List, [], ◌∷◌, ◌++◌,
  Option-cases, nat_equality, beq_refl, beq_ne,
}
use fyer_cache.Prelude.Str.{Str, str_equality}
use fyer_cache.Prelude.Str
use fyer_cache.Prelude.GoMap.{GoMap, lookup, delete as delete_key}
use fyer_cache.Prelude.GoArray.{make}
use fyer_cache.Prelude.Result.{ok}
use fyer_cache.SkipList.{Node, SkipList, max_level, head, matching, delete, remove_at}
use fyer_cache.SkipList.Chain.{All}
use fyer_cache.SkipList.Shape.{Sorted-right, Below, Split-at}
use fyer_cache.SkipList.Search.{descend_lem, top_pred}
use fyer_cache.SkipList.Lookup.{lookup-above, Models, Holds, first, next_lem}
use fyer_cache.SkipList.Setting.{matching-some, over_of}
use fyer_cache.SkipList.Represent.{Holds-delete_above}
use fyer_cache.SkipList.Removal.{remove_at-Models}

module _ {V : Type 0} where
  Holds-without :
      (h : ℕ → Node V) (k : Str) (lo hi : List ℕ) (m : GoMap Str V)
      → All (Below h k) lo
      → All (λ a. Str.lt k (h a).key ≡ true) hi
      → Holds h (lo ++ hi) m
      → Holds h (lo ++ hi) (delete_key k m) × (lookup k m ≡ none)
  unfolding delete_key lookup
  Holds-without h k [] hi m p q r = (Holds-delete_above h k hi m q r, lookup-above h k hi m q r)
  Holds-without h k (a ∷ lo) hi [] p q r = absurd r
  Holds-without h k (a ∷ lo) hi ((j, u) ∷ m) p q r =
      let down : Str.lt j k ≡ true = rw (← r.0) p.0 in
      let differ : Str.eq j k ≡ false = beq_ne j k (λ j≡k. cc (Str.lt_irrefl k, down, j≡k)) in
      let (kept, missing) = Holds-without h k lo hi m p.1 q r.2 in
      (rw differ (r.0, r.1, kept), rw differ missing)

  lookup-present :
      (h : ℕ → Node V) (k : Str) (lo rest : List ℕ) (a : ℕ) (m : GoMap Str V)
      → All (Below h k) lo
      → (h a).key ≡ k
      → Holds h (lo ++ a ∷ rest) m
      → is_some (lookup k m) ≡ true
  unfolding lookup
  lookup-present h k [] rest a [] p e r = absurd r
  lookup-present h k [] rest a ((j, u) ∷ m) p e r =
      let same : Str.eq j k ≡ true = rw (sym r.0 ∙ e) (beq_refl k) in rw same
  lookup-present h k (b ∷ lo) rest a [] p e r = absurd r
  lookup-present h k (b ∷ lo) rest a ((j, u) ∷ m) p e r =
      let down : Str.lt j k ≡ true = rw (← r.0) p.0 in
      let differ : Str.eq j k ≡ false = beq_ne j k (λ j≡k. cc (Str.lt_irrefl k, down, j≡k)) in
      rw differ (lookup-present h k lo rest a m p.1 e r.2)

  -- On a well-formed skip list `Delete` ends without a panic in a well-formed list, which holds
  -- what it held but for the key, and answers whether the key was there.
  pub delete-Models :
      (k : Str) (s : SkipList V) (m : GoMap Str V)
      → Models s m
      → (s' : SkipList V) × (delete k s ≡ ok (s', is_some (lookup k m)))
        × Models s' (delete_key k m)
  unfolding delete make
  delete-Models k s m r =
      let sp = Split-at s.node k r.nodes r.shape.sorted in
      let sorted = Sorted-right s.node sp.lo sp.hi (rw sp.parts at r.shape.sorted) in
      let (preds, down, size, at) =
        descend_lem k s r.nodes r.shape sp s.level head (make max_level none) r.shape.high refl
          (top_pred k s r.nodes r.shape sp) in
      elim (Option-cases (matching (first sp.hi) k s)) [
        | inl e ↦
            let (kept, missing) =
              Holds-without s.node k sp.lo sp.hi m sp.below (over_of k s sp.hi sp.rest sorted e)
                (rw sp.parts at r.holds) in
            (
              s,
              rw (down, next_lem k s r.nodes r.shape sp, e, missing, remove_at),
              record { nodes = r.nodes; shape = r.shape; holds = rw sp.parts kept },
            )
        | inr (a, e) ↦
            let (rest, whole, key) = matching-some k s sp.hi a e in
            let over : All (λ b. Str.lt k (s.node b).key ≡ true) rest =
              rw key at (rw whole at sorted).0 in
            let present =
              lookup-present s.node k sp.lo rest a m sp.below key
                (rw (sp.parts ∙ ap (λ l. sp.lo ++ l) whole) at r.holds) in
            let (s', runs, r') =
              remove_at-Models k s r.nodes r.shape sp a rest whole key preds m size at over
                r.holds in
            (s', rw (down, next_lem k s r.nodes r.shape sp, e, present) runs, r')
      ]
