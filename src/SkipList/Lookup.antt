-- ===== src/SkipList/Lookup.antt =====
-- `Get` finds what the list holds: the skip list against the ordered association list that it
-- stands for.
use fyer_cache.Prelude.{
  ℕ, ◌≡◌, refl, sym, ap, inl, inr, Bool, true, false, Option, none, some, List, [], ◌∷◌, ◌++◌,
  arith, Bool-cases, nat_equality, beq_ne,
}
use fyer_cache.Prelude.Str.{Str, str_equality}
use fyer_cache.Prelude.Str
use fyer_cache.Prelude.GoMap.{GoMap, lookup}
use fyer_cache.Prelude.Result.{Result, ok}
use fyer_cache.SkipList.{Node, SkipList, Fault, head, forward, matching, get}
use fyer_cache.SkipList.Chain.{All, All-map, All-right, Chain, above, Chain-suffix}
use fyer_cache.SkipList.Shape.{
  Sorted-right, Shape, Sorted, Reaches, Below, NotBelow, Split, Split-at, above-zero,
}
use fyer_cache.SkipList.Search.{forward_lem, seek_lem, top_pred, linked_parts, pred_at}

abbrev pub first : List ℕ → Option ℕ
first [] = none
first (a ∷ ns) = some a

pub above_of : (a k : Str) → Str.lt a k ≡ false → Str.eq a k ≡ false → Str.lt k a ≡ true
above_of a k n d = elim (Bool-cases (Str.lt k a)) [
  | inl t ↦ t
  | inr f ↦ cc ((Str.eq_iff a k).1 (Str.lt_connex a k n f))
]

module _ {V : Type 0} where
  -- The nodes hold the entries, in order.
  abbrev pub Holds : (ℕ → Node V) → List ℕ → GoMap Str V → Type 0
  Holds h [] [] = Unit
  Holds h [] (e ∷ m) = ⊥
  Holds h (a ∷ ns) [] = ⊥
  Holds h (a ∷ ns) ((k, v) ∷ m) = ((h a).key ≡ k) × ((h a).value ≡ some v) × Holds h ns m

  -- A well-formed skip list that holds these entries.
  pub record Models (s : SkipList V) (m : GoMap Str V) : Type 0 where
    pub nodes : List ℕ
    pub shape : Shape s nodes
    pub holds : Holds s.node nodes m

  -- A value with the `ok` of a lookup.
  abbrev pub found : Option V → Option V × Bool
  found none = (none, false)
  found (some v) = (some v, true)

  pub record Parts (h : ℕ → Node V) (lo hi : List ℕ) (m : GoMap Str V) : Type 0 where
    pub lower : GoMap Str V
    pub upper : GoMap Str V
    pub parts : m ≡ lower ++ upper
    pub in_lower : Holds h lo lower
    pub in_upper : Holds h hi upper

  pub Holds-split :
      (h : ℕ → Node V) (lo hi : List ℕ) (m : GoMap Str V) → Holds h (lo ++ hi) m → Parts h lo hi m
  Holds-split h [] hi m p = record {
    lower = [];
    upper = m;
    parts = refl;
    in_lower = tt;
    in_upper = p;
  }
  Holds-split h (a ∷ lo) hi [] p = absurd p
  Holds-split h (a ∷ lo) hi ((k, v) ∷ m) p =
      let r = Holds-split h lo hi m p.2 in
      record {
        lower = (k, v) ∷ r.lower;
        upper = r.upper;
        parts = ap (◌∷◌ (k, v)) r.parts;
        in_lower = (p.0, p.1, r.in_lower);
        in_upper = r.in_upper;
      }

  pub lookup-above :
      (h : ℕ → Node V) (k : Str) (ns : List ℕ) (m : GoMap Str V)
      → All (λ b. Str.lt k (h b).key ≡ true) ns
      → Holds h ns m
      → lookup k m ≡ none
  unfolding lookup
  lookup-above h k [] [] p q = refl
  lookup-above h k [] (e ∷ m) p q = absurd q
  lookup-above h k (a ∷ ns) [] p q = absurd q
  lookup-above h k (a ∷ ns) ((j, v) ∷ m) p q =
      let differ : Str.eq j k ≡ false = beq_ne j k (λ e. cc (Str.lt_irrefl k, p.0, q.0, e)) in
      rw differ (lookup-above h k ns m p.1 q.2)

  value_of : (ℕ → Node V) → Option ℕ → Option V
  value_of h none = none
  value_of h (some a) = (h a).value

  lookup-matching :
      (s : SkipList V) (k : Str) (lo hi : List ℕ) (m : GoMap Str V)
      → All (Below s.node k) lo
      → All (NotBelow s.node k) hi
      → Sorted s.node hi
      → Holds s.node (lo ++ hi) m
      → lookup k m ≡ value_of s.node (matching (first hi) k s)
  unfolding lookup matching value_of
  lookup-matching s k (a ∷ lo) hi [] b n o q = absurd q
  lookup-matching s k (a ∷ lo) hi ((j, v) ∷ m) b n o q =
      let differ : Str.eq j k ≡ false = beq_ne j k (λ e. cc (Str.lt_irrefl k, b.0, q.0, e)) in
      rw differ (lookup-matching s k lo hi m b.1 n o q.2)
  lookup-matching s k [] [] [] b n o q = refl
  lookup-matching s k [] [] (e ∷ m) b n o q = absurd q
  lookup-matching s k [] (a ∷ hi) [] b n o q = absurd q
  lookup-matching s k [] (a ∷ hi) ((j, v) ∷ m) b n o q =
      elim (Bool-cases (Str.eq (s.node a).key k)) [
        | inl here ↦ let same : Str.eq j k ≡ true = rw (← q.0) here in rw (here, same) (sym q.1)
        | inr other ↦
            let differ : Str.eq j k ≡ false = rw (← q.0) other in
            let up : Str.lt k (s.node a).key ≡ true = above_of (s.node a).key k n.0 other in
            rw (other, differ)
              (lookup-above s.node k hi m
                (All-map (λ c l. Str.lt_trans k (s.node a).key (s.node c).key up l) hi o.0) q.2)
      ]

  pub forward-first :
      (s : SkipList V) (a : ℕ) (ns : List ℕ) → Chain s.node 0 a ns → forward s a 0 ≡ ok (first ns)
  forward-first s a [] c = rw (forward_lem s a 0 c.0, c.1)
  forward-first s a (b ∷ ns) c = rw (forward_lem s a 0 c.0, c.1)

  module _ (k : Str) (s : SkipList V) (ns : List ℕ) (v : Shape s ns) (sp : Split s.node k ns) where
    -- What follows the last node below the key.
    pub Chain-hi : Chain s.node 0 (pred_at k s ns v sp 0) sp.hi
    Chain-hi =
        let flat_hi : above s.node 0 sp.hi ≡ sp.hi =
          above-zero s sp.hi (All-right (Reaches s) sp.lo sp.hi (rw sp.parts at v.reach)) in
        rw flat_hi at (
          Chain-suffix s.node 0 head (above s.node 0 sp.lo) (above s.node 0 sp.hi)
            (linked_parts k s ns v sp 0 (omega arith)))

    pub next_lem : forward s (pred_at k s ns v sp 0) 0 ≡ ok (first sp.hi)
    next_lem = forward-first s (pred_at k s ns v sp 0) sp.hi Chain-hi

  get_found :
      (k : Str) (s : SkipList V) (hi : List ℕ) (m : GoMap Str V)
      → Holds s.node hi m
      → ◌≡◌ {A = Result Fault (Option V × Bool)}
          (elim (matching (first hi) k s) [
            | none ↦ ok (none, false)
            | some a ↦ ok ((s.node a).value, true)
          ])
          (ok (found (value_of s.node (matching (first hi) k s))))
  unfolding matching value_of
  get_found k s [] m h = refl
  get_found k s (a ∷ hi) [] h = absurd h
  get_found k s (a ∷ hi) ((j, v) ∷ m) h = elim (Bool-cases (Str.eq (s.node a).key k)) [
    | inl t ↦ rw (t, h.1)
    | inr f ↦ rw f
  ]

  -- On a well-formed skip list, `Get` of any key ends, without a panic, with the value that the
  -- list holds for it and `true`, or with nil and `false`.
  pub get_lem :
      (k : Str) (s : SkipList V) (m : GoMap Str V) → Models s m → get k s ≡ ok (found (lookup k m))
  unfolding get
  get_lem k s m r =
      let sp = Split-at s.node k r.nodes r.shape.sorted in
      let sorted = Sorted-right s.node sp.lo sp.hi (rw sp.parts at r.shape.sorted) in
      let holds : Holds s.node (sp.lo ++ sp.hi) m = rw sp.parts at r.holds in
      rw
        (
          seek_lem k s r.nodes r.shape sp s.level head r.shape.high
              (top_pred k s r.nodes r.shape sp),
          next_lem k s r.nodes r.shape sp,
          lookup-matching s k sp.lo sp.hi m sp.below sp.rest sorted holds,
        )
        (get_found k s sp.hi (Holds-split s.node sp.lo sp.hi m holds).upper
          (Holds-split s.node sp.lo sp.hi m holds).in_upper)
