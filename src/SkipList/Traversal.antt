-- ===== src/SkipList/Traversal.antt =====
-- The new list and `ForEach`, against the abstract map.
use fyer_cache.Prelude.{zero, suc}
use fyer_cache.Prelude.{
  ℕ, zero, suc, ◌+◌, ◌≤◌, ◌≡◌, refl, sym, ap, ◌∙◌, inl, inr, Bool, true, false, Option, some, List,
  [], ◌∷◌, arith, Bool-cases, length, nat_equality,
}
use fyer_cache.Prelude.Str.{Str, str_equality}
use fyer_cache.Prelude.GoMap.{GoMap}
use fyer_cache.Prelude.Result.{ok}
use fyer_cache.SkipList.{SkipList, head, new_skip_list, make_node, visit_from, for_each}
use fyer_cache.SkipList.Chain.{Chain}
use fyer_cache.SkipList.Shape.{above-zero}
use fyer_cache.SkipList.Lookup.{Models, Holds, first, forward-first}

module _ {V : Type 0} where
  -- A new list is well-formed and empty.
  pub new_skip_list-Models : Models {V = V} new_skip_list []
  unfolding new_skip_list make_node
  new_skip_list-Models = record {
    nodes = [];
    shape = record {
      linked = λ i h. (h, refl);
      sorted = tt;
      reach = tt;
      placed = tt;
      head_size = refl;
      counted = refl;
      low = omega arith;
      high = omega arith;
      head_placed = omega arith;
    };
    holds = tt;
  }

  module _ {S : Type 0} (visit : Str → Option V → S → S × Bool) where
    -- The visits of the entries in order, until the visitor stops.
    unfoldable pub visit_all : GoMap Str V → S → S
    visit_all [] acc = acc
    visit_all ((k, v) ∷ m) acc =
        let (acc', more) = visit k (some v) acc in
        elim more [ false ↦ acc' | true ↦ visit_all m acc' ]

    pub visit_all_more :
        (k : Str) (v : V) (m : GoMap Str V) (acc : S)
        → (visit k (some v) acc).1 ≡ true
        → visit_all ((k, v) ∷ m) acc ≡ visit_all m (visit k (some v) acc).0
    unfolding visit_all
    visit_all_more k v m acc e = rw (e, visit_all)

    pub visit_all_stop :
        (k : Str) (v : V) (m : GoMap Str V) (acc : S)
        → (visit k (some v) acc).1 ≡ false
        → visit_all ((k, v) ∷ m) acc ≡ (visit k (some v) acc).0
    unfolding visit_all
    visit_all_stop k v m acc e = rw (e, visit_all)

    visit_from_lem :
        (fuel p : ℕ) (s : SkipList V) (ns : List ℕ) (m : GoMap Str V) (acc : S)
        → length ns ≤ fuel
        → Chain s.node 0 p ns
        → Holds s.node ns m
        → visit_from visit fuel (first ns) acc s ≡ ok (visit_all m acc)
    unfolding visit_from visit_all
    visit_from_lem fuel p s [] [] acc l c h = refl
    visit_from_lem fuel p s [] (e ∷ m) acc l c h = absurd h
    visit_from_lem fuel p s (a ∷ ns) [] acc l c h = absurd h
    visit_from_lem zero p s (a ∷ ns) ((k, v) ∷ m) acc l c h = absurd (omega arith)
    visit_from_lem (suc fuel) p s (a ∷ ns) ((k, v) ∷ m) acc l c h =
        let r = visit (s.node a).key (s.node a).value acc in
        let same : r ≡ visit k (some v) acc = rw (h.0, h.1) in
        elim (Bool-cases r.1) [
          | inl t ↦
              (rw (t, forward-first s a ns c.2)
                (visit_from_lem fuel a s ns m r.0 (omega arith) c.2 h.2))
              ∙ ap ok (
                  sym (
                    visit_all_more k v m acc (sym (ap (λ x. x.1) same) ∙ t)
                    ∙ ap (λ (x : S × Bool). visit_all m x.0) (sym same)))
          | inr f ↦
              (rw f)
              ∙ ap ok (
                  sym (
                    visit_all_stop k v m acc (sym (ap (λ x. x.1) same) ∙ f)
                    ∙ ap (λ (x : S × Bool). x.0) (sym same)))
        ]

    -- On a well-formed skip list `ForEach` ends without a panic, having visited the entries in the
    -- order of the keys until the visitor stopped it.
    pub for_each-Models :
        (s : SkipList V) (m : GoMap Str V) (acc : S)
        → Models s m
        → for_each visit acc s ≡ ok (visit_all m acc)
    unfolding for_each
    for_each-Models s m acc r =
        let chain : Chain s.node 0 head r.nodes =
          rw (above-zero s r.nodes r.shape.reach) at (r.shape.linked 0 (omega arith)) in
        rw (forward-first s head r.nodes chain) (
          visit_from_lem (s.length + 1) head s r.nodes m acc (omega (arith, r.shape.counted)) chain
            r.holds)
