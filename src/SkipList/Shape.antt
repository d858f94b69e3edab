-- ===== src/SkipList/Shape.antt =====
-- The invariant of the skip list: level 0 holds every node in the order of the keys, and level `i`
-- those that reach it.
use fyer_cache.Prelude.{
  ℕ, ◌≤◌, ◌<◌, ◌≡◌, refl, ap, ◌≢◌, inl, inr, true, false, List, [], ◌∷◌, ◌++◌, arith, ltb,
  Bool-cases, length, nat_equality,
}
use fyer_cache.Prelude.Str.{Str}
use fyer_cache.Prelude.Str
use fyer_cache.SkipList.{Node, SkipList, max_level, head}
use fyer_cache.SkipList.Chain.{All, All-map, Chain, above, Distinct}

module _ {ℓ} {V : Type ℓ} where
  abbrev pub Sorted : (ℕ → Node V) → List ℕ → Type 0
  Sorted h [] = Unit
  Sorted h (a ∷ xs) = All (λ b. Str.lt (h a).key (h b).key ≡ true) xs × Sorted h xs

  abbrev pub Reaches : SkipList V → ℕ → Type 0
  Reaches s a = (0 < (s.node a).forward.size) × ((s.node a).forward.size ≤ s.level)

  abbrev pub Placed : SkipList V → ℕ → Type 0
  Placed s a = (0 < a) × (a < s.fresh)

  -- The nodes of the list, in order.
  pub record Shape (s : SkipList V) (ns : List ℕ) : Type 0 where
    pub linked : (i : ℕ) → i < max_level → Chain s.node i head (above s.node i ns)
    pub sorted : Sorted s.node ns
    pub reach : All (Reaches s) ns
    pub placed : All (Placed s) ns
    pub head_size : (s.node head).forward.size ≡ max_level
    pub counted : s.length ≡ length ns
    pub low : 1 ≤ s.level
    pub high : s.level ≤ max_level
    pub head_placed : 0 < s.fresh

  pub Sorted-Distinct : (h : ℕ → Node V) (ns : List ℕ) → Sorted h ns → Distinct ns
  Sorted-Distinct h [] p = tt
  Sorted-Distinct h (a ∷ ns) p = (
    All-map (λ b lt e. cc (Str.lt_irrefl (h a).key, lt, ap (λ c. (h c).key) e)) ns p.0,
    Sorted-Distinct h ns p.1,
  )

  pub Sorted-right : (h : ℕ → Node V) (lo hi : List ℕ) → Sorted h (lo ++ hi) → Sorted h hi
  Sorted-right h [] hi p = p
  Sorted-right h (a ∷ lo) hi p = Sorted-right h lo hi p.1

  pub above-below :
      (s : SkipList V) (i : ℕ) (ns : List ℕ)
      → s.level ≤ i
      → All (Reaches s) ns
      → above s.node i ns ≡ []
  above-below s i [] h p = refl
  above-below s i (a ∷ ns) h p = ground (arith, above-below s i ns h p.1, p.0)

  pub above-zero : (s : SkipList V) (ns : List ℕ) → All (Reaches s) ns → above s.node 0 ns ≡ ns
  above-zero s [] p = refl
  above-zero s (a ∷ ns) p = ground (arith, above-zero s ns p.1, p.0)

  pub length-above : (h : ℕ → Node V) (i : ℕ) (ns : List ℕ) → length (above h i ns) ≤ length ns
  length-above h i [] = omega arith
  length-above h i (a ∷ ns) = ground (arith, length-above h i ns)

  -- The nodes whose key is below a bound, and the others.
  abbrev pub Below : (ℕ → Node V) → Str → ℕ → Type 0
  Below h k a = Str.lt (h a).key k ≡ true

  abbrev pub NotBelow : (ℕ → Node V) → Str → ℕ → Type 0
  NotBelow h k a = Str.lt (h a).key k ≡ false

  pub All-above :
      (P : ℕ → Type 0) (h : ℕ → Node V) (i : ℕ) (ns : List ℕ) → All P ns → All P (above h i ns)
  All-above P h i [] p = tt
  All-above P h i (a ∷ ns) p = elim (Bool-cases (ltb i (h a).forward.size)) [
    | inl t ↦ rw t (p.0, All-above P h i ns p.1)
    | inr f ↦ rw f (All-above P h i ns p.1)
  ]

  pub Distinct-above :
      (h : ℕ → Node V) (i : ℕ) (ns : List ℕ) → Distinct ns → Distinct (above h i ns)
  Distinct-above h i [] d = tt
  Distinct-above h i (a ∷ ns) d = elim (Bool-cases (ltb i (h a).forward.size)) [
    | inl t ↦ rw t (All-above (λ b. b ≢ a) h i ns d.0, Distinct-above h i ns d.1)
    | inr f ↦ rw f (Distinct-above h i ns d.1)
  ]

  pub record Split (h : ℕ → Node V) (k : Str) (ns : List ℕ) : Type 0 where
    pub lo : List ℕ
    pub hi : List ℕ
    pub parts : ns ≡ lo ++ hi
    pub below : All (Below h k) lo
    pub rest : All (NotBelow h k) hi

  NotBelow-of :
      (h : ℕ → Node V) (k : Str) (a b : ℕ)
      → NotBelow h k a
      → Str.lt (h a).key (h b).key ≡ true
      → NotBelow h k b
  NotBelow-of h k a b n l = elim (Bool-cases (Str.lt (h b).key k)) [
    | inl t ↦ absurd (cc (Str.lt_trans (h a).key (h b).key k l t, n))
    | inr f ↦ f
  ]

  pub Split-at : (h : ℕ → Node V) (k : Str) (ns : List ℕ) → Sorted h ns → Split h k ns
  Split-at h k [] p = record { lo = []; hi = []; parts = refl; below = tt; rest = tt }
  Split-at h k (a ∷ ns) p = elim (Bool-cases (Str.lt (h a).key k)) [
    | inl t ↦
        let r = Split-at h k ns p.1 in
        record {
          lo = a ∷ r.lo;
          hi = r.hi;
          parts = ap (◌∷◌ a) r.parts;
          below = (t, r.below);
          rest = r.rest;
        }
    | inr f ↦ record {
      lo = [];
      hi = a ∷ ns;
      parts = refl;
      below = tt;
      rest = (f, All-map (λ b l. NotBelow-of h k a b f l) ns p.0);
    }
  ]
