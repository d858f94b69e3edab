-- ===== src/SkipList/Removal.antt =====
-- `Delete` refines the deletion from the abstract map.
use fyer_cache.SkipList.Frame.{Holds-frame, SameKey, Sorted-frame, SameSize, above-frame}
use fyer_cache.Prelude.{
  ℕ, ◌-◌, ◌≤◌, ◌<◌, ◌≡◌, refl, ap, ◌∙◌, ◌≢◌, inl, inr, true, false, Option, none, some, List, [],
  ◌∷◌, ◌++◌, arith, ltb, nat_beq, if◌then◌else◌, ltb→lt, Bool-cases, length, length-append,
  nat_equality, beq_refl, beq_ne,
}
use fyer_cache.Prelude.Str.{Str, str_equality}
use fyer_cache.Prelude.Str
use fyer_cache.Prelude.GoMap.{GoMap, delete as delete_key}
use fyer_cache.Prelude.GoArray.{GoArray}
use fyer_cache.Prelude.Result.{ok}
use fyer_cache.SkipList.{Node, SkipList, max_level, head, remove_at, unlink, lower, points_to}
use fyer_cache.SkipList.Chain.{
  All-map₂, All-left, All-append, All-everywhere, above-append, All-right, All, All-map, Chain,
  above, Chain-suffix, Chain-remove, Chain-frame, All-last_or,
}
use fyer_cache.SkipList.Shape.{
  Sorted, Sorted-right, Below, Reaches, All-above, Placed, Sorted-Distinct, Shape, Split,
}
use fyer_cache.SkipList.Search.{Distinct-levels, linked_parts, pred_at}
use fyer_cache.SkipList.Lookup.{Models, Holds}
use fyer_cache.SkipList.Insert.{above-size}
use fyer_cache.SkipList.Unlink.{unlink_lem, lower_lem}
use fyer_cache.SkipList.Splice.{Relinked}
use fyer_cache.SkipList.Represent.{Holds-delete}

module _ {V : Type 0} where
  Sorted-drop :
      (h : ℕ → Node V) (a : ℕ) (lo rest : List ℕ)
      → Sorted h (lo ++ a ∷ rest)
      → Sorted h (lo ++ rest)
  Sorted-drop h a [] rest o = o.1
  Sorted-drop h a (b ∷ lo) rest o =
      let P : ℕ → Type 0 = λ c. Str.lt (h b).key (h c).key ≡ true in
      (
        All-append P lo rest (All-left P lo (a ∷ rest) o.0) (All-right P lo (a ∷ rest) o.0).1,
        Sorted-drop h a lo rest o.1,
      )

  -- A level that starts with nil has no nodes.
  sizes_of_empty :
      (h : ℕ → Node V) (i p : ℕ) (xs : List ℕ)
      → Chain h i p (above h i xs)
      → (h p).forward.at i ≡ none
      → All (λ b. (h b).forward.size ≤ i) xs
  sizes_of_empty h i p [] c e = tt
  sizes_of_empty h i p (b ∷ xs) c e = elim (Bool-cases (ltb i (h b).forward.size)) [
    | inl t ↦ absurd (reached (rw t at c))
    | inr f ↦ (ground (arith, f), sizes_of_empty h i p xs (rw f at c) e)
  ]
    where
      reached : Chain h i p (b ∷ above h i xs) → ⊥
      reached d = cc (d.1, e)

  module _ (k : Str) (s : SkipList V) (ns : List ℕ) (w : Shape s ns) (sp : Split s.node k ns)
      (a : ℕ) (rest : List ℕ) (whole : sp.hi ≡ a ∷ rest) (key : (s.node a).key ≡ k) where
    pr : ℕ → ℕ
    pr = pred_at k s ns w sp

    nodes_parts : ns ≡ sp.lo ++ a ∷ rest
    nodes_parts = sp.parts ∙ ap (λ l. sp.lo ++ l) whole

    drop_a : (P : ℕ → Type 0) → All P ns → All P (sp.lo ++ rest)
    drop_a P p =
        let q : All P (sp.lo ++ a ∷ rest) = rw nodes_parts at p in
        All-append P sp.lo rest (All-left P sp.lo (a ∷ rest) q) (All-right P sp.lo (a ∷ rest) q).1

    reach_a : Reaches s a
    reach_a = (All-right (Reaches s) sp.lo (a ∷ rest) (rw nodes_parts at w.reach)).0

    Placed-a : Placed s a
    Placed-a = (All-right (Placed s) sp.lo (a ∷ rest) (rw nodes_parts at w.placed)).0

    lo_ne : All (λ b. b ≢ a) sp.lo
    lo_ne =
        All-map {P = Below s.node k} {Q = λ b. b ≢ a}
          (λ b l e. cc (Str.lt_irrefl k, l, key, ap (λ c. (s.node c).key) e)) sp.lo sp.below

    rest_ne : All (λ b. b ≢ a) rest
    rest_ne =
        (Sorted-Distinct s.node (a ∷ rest)
          (Sorted-right s.node sp.lo (a ∷ rest) (rw nodes_parts at w.sorted))).0

    pr_ne : (j : ℕ) → pr j ≢ a
    unfolding pr
    pr_ne j =
        All-last_or (λ b. b ≢ a) head (above s.node j sp.lo)
          (λ e. omega (arith, Placed-a), All-above (λ b. b ≢ a) s.node j sp.lo lo_ne)

    pr_size : (j : ℕ) → j < s.level → j < (s.node (pr j)).forward.size
    unfolding pr
    pr_size j l =
        All-last_or (λ b. j < (s.node b).forward.size) head (above s.node j sp.lo)
          (omega (arith, w.head_size, w.high), above-size s.node j sp.lo)

    linked_a :
        (j : ℕ)
        → j < max_level
        → Chain s.node j head (above s.node j sp.lo ++ above s.node j (a ∷ rest))
    linked_a j l = rw whole at (linked_parts k s ns w sp j l)

    points_lem :
        (j : ℕ)
        → j < max_level
        → points_to ((s.node (pr j)).forward.at j) a ≡ ltb j (s.node a).forward.size
    unfolding pr points_to
    points_lem j l =
        let after : Chain s.node j (pr j) (above s.node j (a ∷ rest)) =
          Chain-suffix s.node j head (above s.node j sp.lo) (above s.node j (a ∷ rest))
            (linked_a j l) in
        elim (Bool-cases (ltb j (s.node a).forward.size)) [
          | inl t ↦ rw t (points_here (pr j) (rw t at after))
          | inr f ↦ rw f (
              points_past (pr j) (above s.node j rest)
                (All-above (λ b. b ≢ a) s.node j rest rest_ne) (rw f at after))
        ]
      where
        points_here :
            (p : ℕ)
            → Chain s.node j p (a ∷ above s.node j rest)
            → points_to ((s.node p).forward.at j) a ≡ true
        points_here p c = rw c.1 (beq_refl a)

        points_past :
            (p : ℕ) (l : List ℕ)
            → All (λ b. b ≢ a) l
            → Chain s.node j p l
            → points_to ((s.node p).forward.at j) a ≡ false
        points_past p [] q c = rw c.1
        points_past p (b ∷ l) q c = rw c.1 (beq_ne b a q.0)

    record Cut (preds : GoArray (Option ℕ)) : Type 0 where
      mid : SkipList V
      unlinks : unlink s.level 0 a preds s ≡ ok mid
      same : Relinked s mid
      at :
          (b j : ℕ)
          → (mid.node b).forward.at j ≡ (
              if ltb j (s.node a).forward.size
              then (if nat_beq b (pr j) then (s.node a).forward.at j else (s.node b).forward.at j)
              else (s.node b).forward.at j)
      level : ℕ
      lowers : lower mid.level mid ≡ ok level
      one : 1 ≤ level
      less : level ≤ s.level
      empty : (j : ℕ) → level ≤ j → j < s.level → (mid.node head).forward.at j ≡ none

    cut :
        (preds : GoArray (Option ℕ))
        → preds.size ≡ max_level
        → ((j : ℕ) → preds.at j ≡ (if ltb j s.level then some (pr j) else none))
        → Cut preds
    cut preds z p =
        let (mid, e, same, at) =
          unlink_lem s.level 0 a preds pr s (omega (arith, w.high)) (λ j l. p j ∙ ground arith)
            (λ j l. pr_size j (omega arith)) pr_ne (omega (arith, reach_a))
            (λ j _ l. points_lem j (omega (arith, w.high))) in
        let (level, e', one, less, empty) =
          lower_lem mid.level mid (omega (arith, same.level, w.high, same.size head, w.head_size))
            (omega (arith, same.level, w.low)) in
        record {
          mid = mid;
          unlinks = e;
          same = same;
          at = λ b j. at b j ∙ ground arith;
          level = level;
          lowers = e';
          one = one;
          less = omega (arith, same.level);
          empty = λ j l h. empty j l (omega (arith, same.level));
        }

    module _ (preds : GoArray (Option ℕ)) (c : Cut preds) where
      above-mid : (i : ℕ) (l : List ℕ) → above c.mid.node i l ≡ above s.node i l
      above-mid i l =
          above-frame s.node c.mid.node i l
            (All-everywhere {P = SameSize s.node c.mid.node} c.same.size l)

      mid_linked :
          (i : ℕ)
          → i < max_level
          → Chain c.mid.node i head (above s.node i sp.lo ++ above s.node i rest)
      mid_linked i l = elim (Bool-cases (ltb i (s.node a).forward.size)) [
        | inl t ↦
            Chain-remove s.node c.mid.node i a (pr i) head (above s.node i sp.lo)
              (above s.node i rest) (unfold pr in refl)
              (unfold pr in rw t at (rw whole at (Distinct-levels k s ns w sp i))) c.same.size
              (λ b. c.at b i ∙ rw t) (rw t at (linked_a i l))
        | inr f ↦
            Chain-frame s.node c.mid.node i head (above s.node i sp.lo ++ above s.node i rest)
              c.same.size (λ b. c.at b i ∙ rw f) (rw f at (linked_a i l))
      ]

      mid-Chain :
          (i : ℕ) → i < max_level → Chain c.mid.node i head (above c.mid.node i (sp.lo ++ rest))
      mid-Chain i l =
          rw (above-mid i (sp.lo ++ rest) ∙ above-append s.node i sp.lo rest) (mid_linked i l)

      -- Nothing reaches above the level that is left.
      reach_left : All (λ b. (s.node b).forward.size ≤ c.level) (sp.lo ++ rest)
      reach_left = elim (Bool-cases (ltb c.level s.level)) [
        | inr top ↦
            All-map {P = Reaches s} {Q = λ b. (s.node b).forward.size ≤ c.level}
              (λ b r. ground (arith, top, r.1)) (sp.lo ++ rest) (drop_a (Reaches s) w.reach)
        | inl down ↦
            let lt = ltb→lt _ _ down in
            All-map {P = λ b. (c.mid.node b).forward.size ≤ c.level}
              {Q = λ b. (s.node b).forward.size ≤ c.level} (λ b r. omega (arith, c.same.size b))
              (sp.lo ++ rest)
              (sizes_of_empty c.mid.node c.level head (sp.lo ++ rest)
                (mid-Chain c.level (omega (arith, w.high))) (c.empty c.level (omega arith) lt))
      ]

      after : SkipList V
      after = record c.mid { level = c.level; length = c.mid.length - 1 }

      Shape-after : Shape after (sp.lo ++ rest)
      unfolding after
      Shape-after = record {
        linked = mid-Chain;
        sorted =
            Sorted-frame s.node c.mid.node (sp.lo ++ rest)
              (All-everywhere {P = SameKey s.node c.mid.node} c.same.key (sp.lo ++ rest))
              (Sorted-drop s.node a sp.lo rest (rw nodes_parts at w.sorted));
        reach =
            All-map₂ {P = Reaches s} {Q = λ b. (s.node b).forward.size ≤ c.level}
              {R = Reaches after} (λ b r q. omega (arith, c.same.size b)) (sp.lo ++ rest)
              (drop_a (Reaches s) w.reach) reach_left;
        placed =
            All-map {P = Placed s} {Q = Placed after} (λ b q. omega (arith, c.same.fresh))
              (sp.lo ++ rest) (drop_a (Placed s) w.placed);
        head_size = c.same.size head ∙ w.head_size;
        counted = omega (
          arith,
          c.same.length,
          w.counted,
          ap length nodes_parts,
          length-append sp.lo rest,
          length-append sp.lo (a ∷ rest),
        );
        low = c.one;
        high = omega (arith, c.less, w.high);
        head_placed = omega (arith, c.same.fresh, w.head_placed);
      }

    -- The run of `Delete` from the node on.
    pub remove_at-Models :
        (preds : GoArray (Option ℕ)) (m : GoMap Str V)
        → preds.size ≡ max_level
        → ((j : ℕ) → preds.at j ≡ (if ltb j s.level then some (pred_at k s ns w sp j) else none))
        → All (λ b. Str.lt k (s.node b).key ≡ true) rest
        → Holds s.node ns m
        → (s' : SkipList V) × (remove_at (some a) preds s ≡ ok (s', true))
          × Models s' (delete_key k m)
    unfolding remove_at pr
    remove_at-Models preds m z p over h =
        let c = cut preds z p in
        (
          after preds c,
          unfold after in rw (c.unlinks, c.lowers),
          record {
            nodes = sp.lo ++ rest;
            shape = Shape-after preds c;
            holds =
                unfold after in
                Holds-frame s.node c.mid.node (sp.lo ++ rest) (delete_key k m)
                  (All-everywhere {P = SameKey s.node c.mid.node} c.same.key (sp.lo ++ rest))
                  (All-everywhere {P = λ b. (c.mid.node b).value ≡ (s.node b).value} c.same.value
                    (sp.lo ++ rest))
                  (Holds-delete s.node a k sp.lo rest m key sp.below over (rw nodes_parts at h));
          },
        )
