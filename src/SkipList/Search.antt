-- ===== src/SkipList/Search.antt =====
-- The search through the levels ends at the last node below the key, with no panic and with the
-- fuel that it has.
use fyer_cache.Prelude.{
  ℕ, zero, suc, ◌+◌, ◌≤◌, ◌<◌, ◌≡◌, refl, sym, ap, ◌∙◌, ◌≢◌, Option, some, List, [], ◌∷◌, ◌++◌,
  append_assoc, arith, ltb, if◌then◌else◌, length, length-append, nat_equality,
}
use fyer_cache.Prelude.Str.{Str}
use fyer_cache.Prelude.GoArray.{GoArray, update, read_lem, write_lem}
use fyer_cache.Prelude.Result.{ok}
use fyer_cache.SkipList.{Node, SkipList, max_level, head, forward, walk, seek, descend}
use fyer_cache.SkipList.Chain.{
  All-right, All, All-map, All-left, Chain, above, Distinct, last_or, rejoin, above-append,
  Chain-suffix,
}
use fyer_cache.SkipList.Shape.{
  Sorted-Distinct, Distinct-above, Placed, Reaches, Shape, Below, NotBelow, Split, above-below,
  length-above, All-above,
}

last_or-append : (a : ℕ) (ps qs : List ℕ) → last_or a (ps ++ qs) ≡ last_or (last_or a ps) qs
last_or-append a [] qs = refl
last_or-append a (p ∷ ps) qs = last_or-append p ps qs

module _ {ℓ} {V : Type ℓ} where
  abbrev pub HeadNotBelow : (ℕ → Node V) → Str → List ℕ → Type 0
  HeadNotBelow h k [] = Unit
  HeadNotBelow h k (a ∷ ns) = NotBelow h k a

  HeadNotBelow-All :
      (h : ℕ → Node V) (k : Str) (ns : List ℕ) → All (NotBelow h k) ns → HeadNotBelow h k ns
  HeadNotBelow-All h k [] p = tt
  HeadNotBelow-All h k (a ∷ ns) p = p.0

  pub forward_lem :
      (s : SkipList V) (a i : ℕ)
      → i < (s.node a).forward.size
      → forward s a i ≡ ok ((s.node a).forward.at i)
  unfolding forward
  forward_lem s a i h = read_lem i (s.node a).forward h

  pub walk_lem :
      (fuel : ℕ) (k : Str) (i a : ℕ) (s : SkipList V) (xs ys : List ℕ)
      → length xs < fuel
      → All (Below s.node k) xs
      → HeadNotBelow s.node k ys
      → Chain s.node i a (xs ++ ys)
      → walk fuel k i a s ≡ ok (last_or a xs)
  unfolding walk
  walk_lem zero k i a s xs ys f b n c = absurd (omega arith)
  walk_lem (suc fuel) k i a s [] [] f b n c = rw (forward_lem s a i c.0, c.1)
  walk_lem (suc fuel) k i a s [] (y ∷ ys) f b n c = rw (forward_lem s a i c.0, c.1, n)
  walk_lem (suc fuel) k i a s (x ∷ xs) ys f b n c =
      rw (forward_lem s a i c.0, c.1, b.0) (walk_lem fuel k i x s xs ys (omega arith) b.1 n c.2)

  module _ (k : Str) (s : SkipList V) (ns : List ℕ) (v : Shape s ns) (sp : Split s.node k ns) where
    -- The last node of level `i` below the key.
    abbrev pub pred_at : ℕ → ℕ
    pred_at i = last_or head (above s.node i sp.lo)

    pub linked_parts :
        (i : ℕ) → i < max_level → Chain s.node i head (above s.node i sp.lo ++ above s.node i sp.hi)
    linked_parts i h =
        let e : above s.node i ns ≡ above s.node i sp.lo ++ above s.node i sp.hi =
          ap (above s.node i) sp.parts ∙ above-append s.node i sp.lo sp.hi in
        rw e at (v.linked i h)

    pub Distinct-levels : (i : ℕ) → Distinct (head ∷ (above s.node i sp.lo ++ above s.node i sp.hi))
    Distinct-levels i =
        let e : above s.node i ns ≡ above s.node i sp.lo ++ above s.node i sp.hi =
          ap (above s.node i) sp.parts ∙ above-append s.node i sp.lo sp.hi in
        (
          rw e at (
              All-above (λ b. b ≢ head) s.node i ns
                (All-map {P = Placed s} {Q = λ b. b ≢ head} (λ b q e'. omega arith) ns v.placed)),
          rw e at (Distinct-above s.node i ns (Sorted-Distinct s.node ns v.sorted)),
        )

    fuel_enough :
        (i : ℕ) (ps qs : List ℕ) → above s.node i sp.lo ≡ ps ++ qs → length qs < s.length + 1
    fuel_enough i ps qs parts = omega (
      arith,
      v.counted,
      ap length parts,
      ap length sp.parts,
      length-append ps qs,
      length-append sp.lo sp.hi,
      length-above s.node i sp.lo,
    )

    level_step :
        (i a : ℕ)
        → i < max_level
        → a ≡ pred_at (suc i)
        → walk (s.length + 1) k i a s ≡ ok (pred_at i)
    level_step i a h e =
        let (ps, qs, parts, last) = rejoin s.node i head sp.lo in
        let hi = above s.node i sp.hi in
        let whole : above s.node i sp.lo ++ hi ≡ ps ++ (qs ++ hi) =
          ap (λ l. l ++ hi) parts ∙ append_assoc ps qs hi in
        let here : a ≡ last_or head ps = e ∙ last in
        let chain : Chain s.node i (last_or head ps) (qs ++ hi) =
          Chain-suffix s.node i head ps (qs ++ hi) (rw whole at (linked_parts i h)) in
        let low : All (Below s.node k) (ps ++ qs) =
          rw parts at (All-above (Below s.node k) s.node i sp.lo sp.below) in
        let end : last_or (last_or head ps) qs ≡ pred_at i =
          sym (last_or-append head ps qs) ∙ sym (ap (last_or head) parts) in
        rw here (
          walk_lem (s.length + 1) k i (last_or head ps) s qs hi (fuel_enough i ps qs parts)
            (All-right (Below s.node k) ps qs low)
            (HeadNotBelow-All s.node k hi (All-above (NotBelow s.node k) s.node i sp.hi sp.rest))
            chain
          ∙ ap ok end)

    pub reach_lo : All (Reaches s) sp.lo
    reach_lo = All-left (Reaches s) sp.lo sp.hi (rw sp.parts at v.reach)

    pub top_pred : head ≡ pred_at s.level
    top_pred = sym (ap (last_or head) (above-below s s.level sp.lo (omega arith) (reach_lo)))

    pub seek_lem : (i a : ℕ) → i ≤ max_level → a ≡ pred_at i → seek i k a s ≡ ok (pred_at 0)
    unfolding seek
    seek_lem zero a h e = ap ok e
    seek_lem (suc i) a h e = rw (level_step i a h e) (seek_lem i (pred_at i) (omega arith) refl)

    pub descend_lem :
        (i a : ℕ) (preds : GoArray (Option ℕ))
        → i ≤ max_level
        → preds.size ≡ max_level
        → a ≡ pred_at i
        → (preds' : GoArray (Option ℕ)) × (descend i k a preds s ≡ ok (pred_at 0, preds'))
          × (preds'.size ≡ max_level)
          × ((j : ℕ) → preds'.at j ≡ (if ltb j i then some (pred_at j) else preds.at j))
    unfolding descend
    descend_lem zero a preds h z e = (preds, ap (λ c. ok (c, preds)) e, z, λ j. ground arith)
    descend_lem (suc i) a preds h z e =
        let now = record preds { at = update preds.at i (some (pred_at i)) } in
        let (preds', eq, size, at) = descend_lem i (pred_at i) now (omega arith) z refl in
        (
          preds',
          rw (level_step i a h e, write_lem i (some (pred_at i)) preds (omega arith)) eq,
          size,
          λ j. ground (arith, at j),
        )
