-- ===== src/SkipList/Ranging.antt =====
-- `Range`, against the abstract map.
use fyer_cache.Prelude.{zero, suc, not, take, ◌-◌, ◌&&◌, ltb}
use fyer_cache.Prelude.Int.{pos, negsuc}
use fyer_cache.SkipList.{below_limit}
use fyer_cache.Prelude.{
  ℕ, zero, suc, ◌+◌, ◌≤◌, ◌≡◌, refl, sym, ap, ◌∙◌, inl, inr, Bool, true, false, Option, some, List,
  [], ◌∷◌, ◌++◌, arith, if◌then◌else◌, Bool-cases, length, length-append, nat_equality,
}
use fyer_cache.Prelude.Int.{ℤ}
use fyer_cache.Prelude.Str.{Str, str_equality}
use fyer_cache.Prelude.Str
use fyer_cache.Prelude.GoMap.{GoMap}
use fyer_cache.Prelude.Result.{ok}
use fyer_cache.SkipList.{Node, SkipList, head, range_from, range, in_range}
use fyer_cache.SkipList.Chain.{All, Chain}
use fyer_cache.SkipList.Shape.{NotBelow, Below, Split-at}
use fyer_cache.SkipList.Search.{top_pred, seek_lem}
use fyer_cache.SkipList.Lookup.{Models, Holds, first, next_lem, forward-first, Chain-hi}
use fyer_cache.SkipList.Traversal.{visit_all, visit_all_more, visit_all_stop}

-- Whether a key is above the end key; an empty one is no end.
abbrev pub past : Str → Str → Bool
past [] k = false
past (c ∷ end) k = Str.lt (c ∷ end) k

in_range_lem :
    (e k : Str) (lim : ℤ) (n : ℕ) → in_range e k lim n ≡ not (past e k) && below_limit lim n
unfolding in_range Str.eq
in_range_lem [] k lim n = refl
in_range_lem (c ∷ e) k lim n = refl

module _ {V : Type 0} where
  -- The entries from a key on.
  abbrev pub at_least : Str → GoMap Str V → GoMap Str V
  at_least k [] = []
  at_least k ((j, v) ∷ m) = if Str.lt j k then at_least k m else (j, v) ∷ m

  -- The entries up to the first one past the end key.
  abbrev pub until : Str → GoMap Str V → GoMap Str V
  until end [] = []
  until end ((k, v) ∷ m) = if past end k then [] else (k, v) ∷ until end m

  -- The first entries, as many as a positive limit leaves after a count.
  abbrev pub at_most : ℤ → ℕ → GoMap Str V → GoMap Str V
  at_most (pos zero) count m = m
  at_most (negsuc n) count m = m
  at_most (pos (suc n)) count m = take (suc n - count) m

  take_none : (n : ℕ) → ◌≡◌ {A = GoMap Str V} (take n []) []
  take_none zero = refl
  take_none (suc n) = refl

  at_most_none : (lim : ℤ) (n : ℕ) → at_most lim n [] ≡ []
  at_most_none (pos zero) n = refl
  at_most_none (negsuc k) n = refl
  at_most_none (pos (suc k)) n = take_none (suc k - n)

  at_most_cons :
      (lim : ℤ) (n : ℕ) (x : Str × V) (m : GoMap Str V)
      → at_most lim n (x ∷ m) ≡ (if below_limit lim n then x ∷ at_most lim (n + 1) m else [])
  unfolding below_limit
  at_most_cons (pos zero) n x m = refl
  at_most_cons (negsuc k) n x m = refl
  at_most_cons (pos (suc k)) n x m = elim (Bool-cases (ltb n (suc k))) [
    | inl t ↦ let left : suc k - n ≡ suc (suc k - (n + 1)) = ground arith in rw (left, t) refl
    | inr f ↦ let left : suc k - n ≡ 0 = ground arith in rw (left, f) refl
  ]

  module _ {S : Type 0} (visit : Str → Option V → S → S × Bool) where
    -- The visits of the loop of `Range`.
    unfoldable visit_range : Str → ℤ → ℕ → GoMap Str V → S → S
    visit_range end_key limit count [] acc = acc
    visit_range end_key limit count ((k, v) ∷ m) acc =
        let (acc', more) = visit k (some v) acc in
        elim (in_range end_key k limit count) [
          | false ↦ acc
          | true ↦ elim more [ false ↦ acc' | true ↦ visit_range end_key limit (count + 1) m acc' ]
        ]

    module _ (e : Str) (lim : ℤ) (n : ℕ) (k : Str) (v : V) (m : GoMap Str V) (acc : S) where
      visit_range_out : in_range e k lim n ≡ false → visit_range e lim n ((k, v) ∷ m) acc ≡ acc
      unfolding visit_range
      visit_range_out o = rw (o, visit_range)

      visit_range_more :
          in_range e k lim n ≡ true
          → (visit k (some v) acc).1 ≡ true
          → visit_range e lim n ((k, v) ∷ m) acc
            ≡ visit_range e lim (n + 1) m (visit k (some v) acc).0
      unfolding visit_range
      visit_range_more i t = rw (i, visit_range, t)

      visit_range_stop :
          in_range e k lim n ≡ true
          → (visit k (some v) acc).1 ≡ false
          → visit_range e lim n ((k, v) ∷ m) acc ≡ (visit k (some v) acc).0
      unfolding visit_range
      visit_range_stop i t = rw (i, visit_range, t)

    range_from_lem :
        (fuel : ℕ) (end_key : Str) (limit : ℤ) (count p : ℕ) (s : SkipList V) (ns : List ℕ)
        (m : GoMap Str V) (acc : S)
        → length ns ≤ fuel
        → Chain s.node 0 p ns
        → Holds s.node ns m
        → range_from visit fuel end_key limit count (first ns) acc s
          ≡ ok (visit_range end_key limit count m acc)
    unfolding range_from visit_range
    range_from_lem fuel e lim n p s [] [] acc l c h = refl
    range_from_lem fuel e lim n p s [] (x ∷ m) acc l c h = absurd h
    range_from_lem fuel e lim n p s (a ∷ ns) [] acc l c h = absurd h
    range_from_lem zero e lim n p s (a ∷ ns) ((k, v) ∷ m) acc l c h = absurd (omega arith)
    range_from_lem (suc fuel) e lim n p s (a ∷ ns) ((k, v) ∷ m) acc l c h =
        let r = visit (s.node a).key (s.node a).value acc in
        let same : r ≡ visit k (some v) acc = rw (h.0, h.1) in
        let inside : in_range e (s.node a).key lim n ≡ in_range e k lim n = rw h.0 in
        elim (Bool-cases (in_range e k lim n)) [
          | inr out ↦
              (rw (inside ∙ out, range_from)) ∙ ap ok (sym (visit_range_out e lim n k v m acc out))
          | inl here ↦ elim (Bool-cases r.1) [
            | inl t ↦
                (rw (inside ∙ here, range_from, t, forward-first s a ns c.2)
                  (range_from_lem fuel e lim (n + 1) a s ns m r.0 (omega arith) c.2 h.2))
                ∙ ap ok (
                    sym (
                      visit_range_more e lim n k v m acc here (sym (ap (λ x. x.1) same) ∙ t)
                      ∙ ap (λ (x : S × Bool). visit_range e lim (n + 1) m x.0) (sym same)))
            | inr f ↦
                (rw (inside ∙ here, range_from, f))
                ∙ ap ok (
                    sym (
                      visit_range_stop e lim n k v m acc here (sym (ap (λ x. x.1) same) ∙ f)
                      ∙ ap (λ (x : S × Bool). x.0) (sym same)))
          ]
        ]

    visit_range_all :
        (e : Str) (lim : ℤ) (n : ℕ) (m : GoMap Str V) (acc : S)
        → visit_range e lim n m acc ≡ visit_all visit (at_most lim n (until e m)) acc
    unfolding visit_range
    visit_range_all e lim n [] acc = rw (at_most_none lim n) (unfold visit_all in refl)
    visit_range_all e lim n ((k, v) ∷ m) acc = elim (Bool-cases (past e k)) [
      | inl over ↦
          let out : in_range e k lim n ≡ false = in_range_lem e k lim n ∙ rw over refl in
          visit_range_out e lim n k v m acc out
          ∙ rw (over, at_most_none lim n) (unfold visit_all in refl)
      | inr in_reach ↦
          let test : in_range e k lim n ≡ below_limit lim n =
            in_range_lem e k lim n ∙ rw in_reach refl in
          let rest = at_most_cons lim n (k, v) (until e m) in
          elim (Bool-cases (below_limit lim n)) [
            | inr none_left ↦
                visit_range_out e lim n k v m acc (test ∙ none_left)
                ∙ rw (in_reach, rest, none_left) (unfold visit_all in refl)
            | inl room ↦
                let seen : at_most lim n ((k, v) ∷ until e m)
                    ≡ (k, v) ∷ at_most lim (n + 1) (until e m) =
                  rest ∙ rw room refl in
                rw (in_reach, seen)
                  (elim (Bool-cases (visit k (some v) acc).1) [
                    | inl t ↦
                        visit_range_more e lim n k v m acc (test ∙ room) t
                        ∙ visit_range_all e lim (n + 1) m _
                        ∙ sym (visit_all_more visit k v (at_most lim (n + 1) (until e m)) acc t)
                    | inr f ↦
                        visit_range_stop e lim n k v m acc (test ∙ room) f
                        ∙ sym (visit_all_stop visit k v (at_most lim (n + 1) (until e m)) acc f)
                  ])
          ]
    ]

    at_least_split :
        (h : ℕ → Node V) (k : Str) (lo hi : List ℕ) (m : GoMap Str V)
        → All (Below h k) lo
        → All (NotBelow h k) hi
        → Holds h (lo ++ hi) m
        → Holds h hi (at_least k m)
    at_least_split h k [] [] [] p q r = tt
    at_least_split h k [] [] (x ∷ m) p q r = absurd r
    at_least_split h k [] (a ∷ hi) [] p q r = absurd r
    at_least_split h k [] (a ∷ hi) ((j, v) ∷ m) p q r =
        let stay : Str.lt j k ≡ false = rw (← r.0) q.0 in rw stay r
    at_least_split h k (a ∷ lo) hi [] p q r = absurd r
    at_least_split h k (a ∷ lo) hi ((j, v) ∷ m) p q r =
        let skip : Str.lt j k ≡ true = rw (← r.0) p.0 in
        rw skip (at_least_split h k lo hi m p.1 q r.2)

    -- On a well-formed skip list `Range` ends without a panic, having visited in order, until the
    -- visitor stopped it, the entries from the start key on up to the end key, which is included, or
    -- all of them if the end key is empty, and no more than the limit, if that is positive.
    pub range-Models :
        (start_key end_key : Str) (limit : ℤ) (s : SkipList V) (m : GoMap Str V) (acc : S)
        → Models s m
        → range visit start_key end_key limit acc s
          ≡ ok (visit_all visit (at_most limit 0 (until end_key (at_least start_key m))) acc)
    unfolding range
    range-Models start_key end_key limit s m acc r =
        let sp = Split-at s.node start_key r.nodes r.shape.sorted in
        rw (← visit_range_all end_key limit 0 (at_least start_key m) acc) (
          rw
            (
              seek_lem start_key s r.nodes r.shape sp s.level head r.shape.high
                  (top_pred start_key s r.nodes r.shape sp),
              next_lem start_key s r.nodes r.shape sp,
            )
            (range_from_lem (s.length + 1) end_key limit 0 _ s sp.hi (at_least start_key m) acc
              (omega (arith, r.shape.counted, ap length sp.parts, length-append sp.lo sp.hi))
              (Chain-hi start_key s r.nodes r.shape sp)
              (at_least_split s.node start_key sp.lo sp.hi m sp.below sp.rest
                (rw sp.parts at r.holds))))
