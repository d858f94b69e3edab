-- ===== src/SkipList/Grow.antt =====
-- `Set` of a key that is new: the run succeeds, and the list that it leaves is well-formed.
use fyer_cache.SkipList.Represent.{Holds-insert}
use fyer_cache.SkipList.Ordered.{insert_ordered}
use fyer_cache.SkipList.Lookup.{Models, Holds}
use fyer_cache.Prelude.{
  ℕ, ◌+◌, ◌-◌, ◌≤◌, ◌<◌, ◌≡◌, refl, ap, ◌∙◌, ◌≢◌, true, Option, none, some, List, ◌∷◌, ◌++◌, arith,
  ltb, nat_beq, if◌then◌else◌, length, length-append, nat_equality, beq_refl, beq_ne,
}
use fyer_cache.Prelude.Str.{Str}
use fyer_cache.Prelude.Str
use fyer_cache.Prelude.GoMap.{GoMap}
use fyer_cache.Prelude.GoArray.{GoArray, make}
use fyer_cache.Prelude.Result.{ok}
use fyer_cache.SkipList.{SkipList, max_level, head, make_node, alloc, insert_node}
use fyer_cache.SkipList.Chain.{
  All, All-map, All-map₂, All-append, All-left, All-right, All-last_or, above, last_or,
}
use fyer_cache.SkipList.Shape.{above-below, Shape, Sorted, Reaches, Placed, Below, Split, All-above}
use fyer_cache.SkipList.Search.{Distinct-levels, pred_at, linked_parts, reach_lo}
use fyer_cache.SkipList.Frame.{SameKey, Sorted-frame, Holds-frame}
use fyer_cache.SkipList.Splice.{Relinked, splice_lem}
use fyer_cache.SkipList.Insert.{raise_preds_lem, linked_insert, above-size, Sorted-insert}

module _ {V : Type 0} where
  module _ (k : Str) (v : V) (levels : ℕ) (s : SkipList V) (ns : List ℕ) (w : Shape s ns)
      (sp : Split s.node k ns) (over : All (λ a. Str.lt k (s.node a).key ≡ true) sp.hi)
      (one : 1 ≤ levels) (most : levels ≤ max_level) where
    -- The list as it stands before the links are made.
    grown : SkipList V
    grown =
        alloc (make_node k (some v) levels)
          (record s { level = if ltb s.level levels then levels else s.level })

    pr : ℕ → ℕ
    pr = pred_at k s ns w sp

    grown_old : (b : ℕ) → b ≢ s.fresh → grown.node b ≡ s.node b
    unfolding grown alloc
    grown_old b q = rw (beq_ne b s.fresh q)

    grown_size : (grown.node s.fresh).forward.size ≡ levels
    unfolding grown alloc make_node make
    grown_size = rw (beq_refl s.fresh)

    placed_ne : All (λ b. b ≢ s.fresh) (head ∷ (sp.lo ++ sp.hi))
    placed_ne = (
      λ e. omega (arith, w.head_placed),
      rw sp.parts at
          (All-map {P = Placed s} {Q = λ b. b ≢ s.fresh} (λ b q e. omega arith) ns w.placed),
    )

    pr_old : (j : ℕ) → pr j ≢ s.fresh
    unfolding pr
    pr_old j =
        All-last_or (λ b. b ≢ s.fresh) head (above s.node j sp.lo)
          (
            placed_ne.0,
            All-above (λ b. b ≢ s.fresh) s.node j sp.lo
                (All-left (λ b. b ≢ s.fresh) sp.lo sp.hi placed_ne.1),
          )

    pr_size : (j : ℕ) → j < levels → j < (grown.node (pr j)).forward.size
    pr_size j l = rw (grown_old (pr j) (pr_old j)) (
        unfold pr in
        All-last_or (λ b. j < (s.node b).forward.size) head (above s.node j sp.lo)
          (omega (arith, w.head_size), above-size s.node j sp.lo))

    pr_high : (j : ℕ) → s.level ≤ j → pr j ≡ head
    unfolding pr
    pr_high j h = ap (last_or head) (above-below s j sp.lo h (reach_lo k s ns w sp))

    -- The links of the run, and what is left of the list.
    record Grown (preds : GoArray (Option ℕ)) : Type 0 where
      after : SkipList V
      runs : insert_node levels k v preds s ≡ ok (record after { length = after.length + 1 })
      same : Relinked grown after
      at :
          (b j : ℕ)
          → (after.node b).forward.at j ≡ (
              if ltb j levels
              then (if nat_beq b (pr j)
                  then some s.fresh
                  else if nat_beq b s.fresh
                  then (grown.node (pr j)).forward.at j
                  else (grown.node b).forward.at j)
              else (grown.node b).forward.at j)

    grow :
        (preds : GoArray (Option ℕ))
        → preds.size ≡ max_level
        → ((j : ℕ) → preds.at j ≡ (if ltb j s.level then some (pr j) else none))
        → Grown preds
    unfolding insert_node grown
    grow preds z p =
        let (preds', raised, z', p') =
          raise_preds_lem (levels - s.level) s.level preds (omega (arith, w.high)) in
        let (after, e, same, at) =
          splice_lem levels 0 s.fresh preds' pr grown (omega arith)
            (λ j l. p' j ∙ ground (arith, p j, pr_high j)) (λ j l. pr_size j (omega arith)) pr_old
            (omega (arith, grown_size)) in
        record {
          after = after;
          runs = rw (raised, e);
          same = same;
          at = λ b j. at b j ∙ ground arith;
        }

    module _ (preds : GoArray (Option ℕ)) (g : Grown preds) where
      result : SkipList V
      result = record g.after { length = g.after.length + 1 }

      same_key : (b : ℕ) → b ≢ s.fresh → (g.after.node b).key ≡ (s.node b).key
      same_key b q = g.same.key b ∙ ap (λ m. m.key) (grown_old b q)

      same_value : (b : ℕ) → b ≢ s.fresh → (g.after.node b).value ≡ (s.node b).value
      same_value b q = g.same.value b ∙ ap (λ m. m.value) (grown_old b q)

      same_size : (b : ℕ) → b ≢ s.fresh → (g.after.node b).forward.size ≡ (s.node b).forward.size
      same_size b q = g.same.size b ∙ ap (λ m. m.forward.size) (grown_old b q)

      new_key : (g.after.node s.fresh).key ≡ k
      unfolding grown alloc make_node
      new_key = g.same.key s.fresh ∙ rw (beq_refl s.fresh)

      new_value : (g.after.node s.fresh).value ≡ some v
      unfolding grown alloc make_node
      new_value = g.same.value s.fresh ∙ rw (beq_refl s.fresh)

      old_lo : All (λ b. b ≢ s.fresh) sp.lo
      old_lo = All-left (λ b. b ≢ s.fresh) sp.lo sp.hi placed_ne.1

      old_hi : All (λ b. b ≢ s.fresh) sp.hi
      old_hi = All-right (λ b. b ≢ s.fresh) sp.lo sp.hi placed_ne.1

      result-Sorted : Sorted g.after.node (sp.lo ++ s.fresh ∷ sp.hi)
      result-Sorted =
          Sorted-insert g.after.node s.fresh sp.lo sp.hi
            (All-map₂ {P = λ b. b ≢ s.fresh} {Q = Below s.node k}
              {R = λ a. Str.lt (g.after.node a).key (g.after.node s.fresh).key ≡ true}
              (λ b q l. rw (same_key b q, new_key) l) sp.lo old_lo sp.below)
            (All-map₂ {P = λ b. b ≢ s.fresh} {Q = λ a. Str.lt k (s.node a).key ≡ true}
              {R = λ a. Str.lt (g.after.node s.fresh).key (g.after.node a).key ≡ true}
              (λ b q l. rw (same_key b q, new_key) l) sp.hi old_hi over)
            (Sorted-frame s.node g.after.node (sp.lo ++ sp.hi)
              (All-map {P = λ b. b ≢ s.fresh} {Q = SameKey s.node g.after.node} same_key
                (sp.lo ++ sp.hi) placed_ne.1)
              (rw sp.parts at w.sorted))

      after_level : g.after.level ≡ (if ltb s.level levels then levels else s.level)
      unfolding grown alloc
      after_level = g.same.level

      after_fresh : g.after.fresh ≡ s.fresh + 1
      unfolding grown alloc
      after_fresh = g.same.fresh

      after_length : g.after.length ≡ s.length
      unfolding grown alloc
      after_length = g.same.length

      -- A property of the old nodes and of the new one holds of all.
      everywhere :
          (P Q : ℕ → Type 0)
          → ((b : ℕ) → b ≢ s.fresh → Q b → P b)
          → P s.fresh
          → All Q ns
          → All P (sp.lo ++ s.fresh ∷ sp.hi)
      everywhere P Q f p q =
          let old : All Q (sp.lo ++ sp.hi) = rw sp.parts at q in
          All-append P sp.lo (s.fresh ∷ sp.hi)
            (All-map₂ {P = λ b. b ≢ s.fresh} {Q = Q} f sp.lo old_lo (All-left Q sp.lo sp.hi old))
            (
              p,
              All-map₂ {P = λ b. b ≢ s.fresh} {Q = Q} f sp.hi old_hi (All-right Q sp.lo sp.hi old),
            )

      Shape-result : Shape result (sp.lo ++ s.fresh ∷ sp.hi)
      unfolding result
      Shape-result = record {
        linked = λ i h.
            linked_insert s.node grown.node g.after.node s.fresh levels pr grown_old g.same.size
              grown_size g.at i sp.lo sp.hi placed_ne (Distinct-levels k s ns w sp i)
              (unfold pr in refl) (linked_parts k s ns w sp i h);
        sorted = result-Sorted;
        reach =
            everywhere (Reaches result) (Reaches s)
              (λ b q r. ground (arith, same_size b q, after_level))
              (ground (arith, g.same.size s.fresh, grown_size, after_level)) w.reach;
        placed =
            everywhere (Placed result) (Placed s) (λ b q r. omega (arith, after_fresh))
              (omega (arith, after_fresh, w.head_placed)) w.placed;
        head_size = same_size head placed_ne.0 ∙ w.head_size;
        counted = omega (
          arith,
          after_length,
          w.counted,
          ap length sp.parts,
          length-append sp.lo sp.hi,
          length-append sp.lo (s.fresh ∷ sp.hi),
        );
        low = ground (arith, after_level, w.low);
        high = ground (arith, after_level, w.high);
        head_placed = omega (arith, after_fresh);
      }

      Holds-result :
          (m : GoMap Str V)
          → Holds s.node ns m
          → Holds g.after.node (sp.lo ++ s.fresh ∷ sp.hi) (insert_ordered k v m)
      Holds-result m h =
          Holds-insert g.after.node s.fresh k v sp.lo sp.hi m new_key new_value
            (All-map₂ {P = λ b. b ≢ s.fresh} {Q = Below s.node k} {R = Below g.after.node k}
              (λ b q l. rw (same_key b q) l) sp.lo old_lo sp.below)
            (All-map₂ {P = λ b. b ≢ s.fresh} {Q = λ a. Str.lt k (s.node a).key ≡ true}
              {R = λ a. Str.lt k (g.after.node a).key ≡ true} (λ b q l. rw (same_key b q) l) sp.hi
              old_hi over)
            (Holds-frame s.node g.after.node (sp.lo ++ sp.hi) m
              (All-map {P = λ b. b ≢ s.fresh} {Q = SameKey s.node g.after.node} same_key
                (sp.lo ++ sp.hi) placed_ne.1)
              (All-map {P = λ b. b ≢ s.fresh} {Q = λ b. (g.after.node b).value ≡ (s.node b).value}
                same_value (sp.lo ++ sp.hi) placed_ne.1)
              (rw sp.parts at h))

    -- The run of `Set` from the loop over the levels on.
    pub insert_node-Models :
        (preds : GoArray (Option ℕ)) (m : GoMap Str V)
        → preds.size ≡ max_level
        → ((j : ℕ) → preds.at j ≡ (if ltb j s.level then some (pred_at k s ns w sp j) else none))
        → Holds s.node ns m
        → (s' : SkipList V) × (insert_node levels k v preds s ≡ ok s')
          × Models s' (insert_ordered k v m)
    unfolding pr
    insert_node-Models preds m z p h =
        let g = grow preds z p in
        (
          result preds g,
          unfold result in g.runs,
          record {
            nodes = sp.lo ++ s.fresh ∷ sp.hi;
            shape = Shape-result preds g;
            holds = unfold result in Holds-result preds g m h;
          },
        )
