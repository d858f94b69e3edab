-- ===== src/SkipList/Setting.antt =====
-- `Set` refines the insertion into the abstract map.
use fyer_cache.SkipList.Represent.{Holds-assign}
use fyer_cache.SkipList.Frame.{SameKey, Sorted-frame, SameSize, above-frame}
use fyer_cache.Prelude.{
  ℕ, zero, suc, ◌+◌, ◌≤◌, ◌≡◌, refl, ap, ◌∙◌, ◌≢◌, inl, inr, Bool, true, false, none, some, List,
  [], ◌∷◌, ◌++◌, arith, Bool-cases, Option-cases, nat_equality,
}
use fyer_cache.Prelude.Str.{Str}
use fyer_cache.Prelude.Str
use fyer_cache.Prelude.GoMap.{GoMap}
use fyer_cache.Prelude.GoArray.{make}
use fyer_cache.Prelude.Result.{ok}
use fyer_cache.SkipList.{SkipList, max_level, head, random_level, climb, assign, matching, set}
use fyer_cache.SkipList.Chain.{Chain-frame, All-everywhere, All, All-map, above}
use fyer_cache.SkipList.Shape.{
  Reaches, Sorted-Distinct, Sorted-right, Sorted, NotBelow, Shape, Split, Split-at,
}
use fyer_cache.SkipList.Search.{descend_lem, top_pred}
use fyer_cache.SkipList.Ordered.{insert_ordered}
use fyer_cache.SkipList.Lookup.{above_of, Models, first, next_lem}
use fyer_cache.SkipList.Grow.{insert_node-Models}

climb_bounds :
    (rounds level : ℕ) (flips : ℕ → Bool)
    → (level ≤ climb rounds flips level) × (climb rounds flips level ≤ level + rounds)
unfolding climb
climb_bounds zero level flips = omega arith
climb_bounds (suc rounds) level flips = ground (arith, climb_bounds rounds (level + 1) flips)

-- The drawn level is from 1 to 32, whatever the draws.
pub random_level_bounds :
    (flips : ℕ → Bool) → (1 ≤ random_level flips) × (random_level flips ≤ max_level)
unfolding random_level
random_level_bounds flips = climb_bounds 31 1 flips

module _ {V : Type 0} where
  -- Of the nodes that are not below the key all are above it, unless the first one has it.
  pub over_of :
      (k : Str) (s : SkipList V) (hi : List ℕ)
      → All (NotBelow s.node k) hi
      → Sorted s.node hi
      → matching (first hi) k s ≡ none
      → All (λ a. Str.lt k (s.node a).key ≡ true) hi
  unfolding matching
  over_of k s [] n o e = tt
  over_of k s (a ∷ hi) n o e =
      let other : Str.eq (s.node a).key k ≡ false = ground arith in
      let up : Str.lt k (s.node a).key ≡ true = above_of (s.node a).key k n.0 other in
      (up, All-map (λ b l. Str.lt_trans k (s.node a).key (s.node b).key up l) hi o.0)

  pub matching-some :
      (k : Str) (s : SkipList V) (hi : List ℕ) (a : ℕ)
      → matching (first hi) k s ≡ some a
      → (rest : List ℕ) × (hi ≡ a ∷ rest) × ((s.node a).key ≡ k)
  unfolding matching
  matching-some k s [] a e = cc
  matching-some k s (b ∷ hi) a e = elim (Bool-cases (Str.eq (s.node b).key k)) [
    | inl t ↦
        let same : b ≡ a = ground (arith, t) in
        (hi, ap (λ c. c ∷ hi) same, rw (← same) ((Str.eq_iff (s.node b).key k).0 t))
    | inr f ↦ cc (rw f at e)
  ]

  module _ (a : ℕ) (v : V) (s : SkipList V) where
    key-assign : (b : ℕ) → ((assign a v s).node b).key ≡ (s.node b).key
    unfolding assign
    key-assign b = ground arith

    forward-assign : (b : ℕ) → ((assign a v s).node b).forward ≡ (s.node b).forward
    unfolding assign
    forward-assign b = ground arith

    value-assign_self : ((assign a v s).node a).value ≡ some v
    unfolding assign
    value-assign_self = ground arith

    value-assign_ne : (b : ℕ) → b ≢ a → ((assign a v s).node b).value ≡ (s.node b).value
    unfolding assign
    value-assign_ne b h = ground arith

    Shape-assign : (ns : List ℕ) → Shape s ns → Shape (assign a v s) ns
    unfolding assign
    Shape-assign ns w =
        let h' = (assign a v s).node in
        let size : (b : ℕ) → (h' b).forward.size ≡ (s.node b).forward.size =
          λ b. ap (λ f. f.size) (forward-assign b) in
        record {
          linked = λ i l.
              rw (above-frame s.node h' i ns (All-everywhere {P = SameSize s.node h'} size ns)) (
                Chain-frame s.node h' i head (above s.node i ns) size
                  (λ b. ap (λ f. f.at i) (forward-assign b)) (w.linked i l));
          sorted =
              Sorted-frame s.node h' ns (All-everywhere {P = SameKey s.node h'} key-assign ns)
                w.sorted;
          reach =
              All-map {P = Reaches s} {Q = Reaches (assign a v s)} (λ b r. rw size r) ns w.reach;
          placed = w.placed;
          head_size = size head ∙ w.head_size;
          counted = w.counted;
          low = w.low;
          high = w.high;
          head_placed = w.head_placed;
        }

  assign-Models :
      (a : ℕ) (k : Str) (v : V) (s : SkipList V) (m : GoMap Str V) (r : Models s m)
      (sp : Split s.node k r.nodes)
      → matching (first sp.hi) k s ≡ some a
      → Models (assign a v s) (insert_ordered k v m)
  assign-Models a k v s m r sp e =
      let (rest, whole, key) = matching-some k s sp.hi a e in
      let parts : r.nodes ≡ sp.lo ++ a ∷ rest = sp.parts ∙ ap (λ l. sp.lo ++ l) whole in
      let sorted : Sorted s.node (a ∷ rest) =
        Sorted-right s.node sp.lo (a ∷ rest) (rw parts at r.shape.sorted) in
      record {
        nodes = sp.lo ++ a ∷ rest;
        shape = Shape-assign a v s (sp.lo ++ a ∷ rest) (rw parts at r.shape);
        holds =
            Holds-assign s.node (assign a v s).node (key-assign a v s) a k v sp.lo rest m key
              (value-assign_self a v s) (value-assign_ne a v s) sp.below
              (Sorted-Distinct s.node (a ∷ rest) sorted).0 (rw parts at r.holds);
      }

  -- On a well-formed skip list `Set`, whatever the draws of the level, ends without a panic in a
  -- well-formed list, which holds what it held, with the value under the key.
  pub set-Models :
      (flips : ℕ → Bool) (k : Str) (v : V) (s : SkipList V) (m : GoMap Str V)
      → Models s m
      → (s' : SkipList V) × (set flips k v s ≡ ok s') × Models s' (insert_ordered k v m)
  unfolding set make
  set-Models flips k v s m r =
      let sp = Split-at s.node k r.nodes r.shape.sorted in
      let (preds, down, size, at) =
        descend_lem k s r.nodes r.shape sp s.level head (make max_level none) r.shape.high refl
          (top_pred k s r.nodes r.shape sp) in
      elim (Option-cases (matching (first sp.hi) k s)) [
        | inr (a, e) ↦ (
          assign a v s,
          rw (down, next_lem k s r.nodes r.shape sp, e),
          assign-Models a k v s m r sp e,
        )
        | inl e ↦
            let over =
              over_of k s sp.hi sp.rest
                (Sorted-right s.node sp.lo sp.hi (rw sp.parts at r.shape.sorted)) e in
            let bounds = random_level_bounds flips in
            let (s', runs, r') =
              insert_node-Models k v (random_level flips) s r.nodes r.shape sp over bounds.0
                bounds.1 preds m size at r.holds in
            (s', rw (down, next_lem k s r.nodes r.shape sp, e) runs, r')
      ]
