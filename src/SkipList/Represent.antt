-- ===== src/SkipList/Represent.antt =====
-- The nodes and the abstract map, under the changes that `Set` and `Delete` make.
use fyer_cache.Prelude.{
  ℕ, ◌≡◌, sym, ap, ◌∙◌, ◌≢◌, inl, inr, true, false, some, List, [], ◌∷◌, ◌++◌, Bool-cases,
  nat_equality, beq_refl, beq_ne,
}
use fyer_cache.Prelude.Str.{Str, str_equality}
use fyer_cache.Prelude.Str
use fyer_cache.Prelude.GoMap.{GoMap, delete}
use fyer_cache.SkipList.{Node}
use fyer_cache.SkipList.Chain.{All-map, All}
use fyer_cache.SkipList.Shape.{Below}
use fyer_cache.SkipList.Ordered.{insert_ordered}
use fyer_cache.SkipList.Lookup.{Holds}
use fyer_cache.SkipList.Frame.{SameKey, Holds-frame}

lt_asym : (a b : Str) → Str.lt a b ≡ true → Str.lt b a ≡ false
lt_asym a b h = elim (Bool-cases (Str.lt b a)) [
  | inl t ↦ cc (Str.lt_trans a b a h t, Str.lt_irrefl a)
  | inr f ↦ f
]

lt_ne : (a b : Str) → Str.lt a b ≡ true → Str.eq b a ≡ false
lt_ne a b h = beq_ne b a (λ e. cc (Str.lt_irrefl a, h, ap (Str.lt a) e))

module _ {V : Type 0} (h : ℕ → Node V) where
  pub Holds-insert :
      (n : ℕ) (k : Str) (v : V) (lo hi : List ℕ) (m : GoMap Str V)
      → (h n).key ≡ k
      → (h n).value ≡ some v
      → All (Below h k) lo
      → All (λ a. Str.lt k (h a).key ≡ true) hi
      → Holds h (lo ++ hi) m
      → Holds h (lo ++ n ∷ hi) (insert_ordered k v m)
  unfolding insert_ordered
  Holds-insert n k v [] [] [] e f p q r = (e, f, tt)
  Holds-insert n k v [] [] (x ∷ m) e f p q r = absurd r
  Holds-insert n k v [] (a ∷ hi) [] e f p q r = absurd r
  Holds-insert n k v [] (a ∷ hi) ((j, u) ∷ m) e f p q r =
      let up : Str.lt k j ≡ true = rw (← r.0) q.0 in rw (lt_asym k j up, lt_ne k j up) (e, f, r)
  Holds-insert n k v (a ∷ lo) hi [] e f p q r = absurd r
  Holds-insert n k v (a ∷ lo) hi ((j, u) ∷ m) e f p q r =
      let down : Str.lt j k ≡ true = rw (← r.0) p.0 in
      rw down (r.0, r.1, Holds-insert n k v lo hi m e f p.1 q r.2)

  module _ (h' : ℕ → Node V) (same : (b : ℕ) → (h' b).key ≡ (h b).key) where
    pub Holds-assign :
        (a : ℕ) (k : Str) (v : V) (lo hi : List ℕ) (m : GoMap Str V)
        → (h a).key ≡ k
        → (h' a).value ≡ some v
        → ((b : ℕ) → b ≢ a → (h' b).value ≡ (h b).value)
        → All (Below h k) lo
        → All (λ b. b ≢ a) hi
        → Holds h (lo ++ a ∷ hi) m
        → Holds h' (lo ++ a ∷ hi) (insert_ordered k v m)
    unfolding insert_ordered
    Holds-assign a k v [] hi [] e f g p q r = absurd r
    Holds-assign a k v [] hi ((j, u) ∷ m) e f g p q r =
        let here : j ≡ k = sym r.0 ∙ e in
        let level : Str.lt j k ≡ false = rw here (Str.lt_irrefl k) in
        let equal : Str.eq j k ≡ true = rw here (beq_refl k) in
        rw (level, equal)
          (
            same a ∙ e,
            f,
            Holds-frame h h' hi m (All-map {Q = SameKey h h'} (λ b _. same b) hi q)
                (All-map {P = λ b. b ≢ a} {Q = λ b. (h' b).value ≡ (h b).value} g hi q) r.2,
          )
    Holds-assign a k v (b ∷ lo) hi [] e f g p q r = absurd r
    Holds-assign a k v (b ∷ lo) hi ((j, u) ∷ m) e f g p q r =
        let down : Str.lt j k ≡ true = rw (← r.0) p.0 in
        let other : b ≢ a = λ b≡a. cc (Str.lt_irrefl k, p.0, e, ap (λ c. (h c).key) b≡a) in
        rw down (same b ∙ r.0, g b other ∙ r.1, Holds-assign a k v lo hi m e f g p.1 q r.2)

  pub Holds-delete_above :
      (k : Str) (hi : List ℕ) (m : GoMap Str V)
      → All (λ a. Str.lt k (h a).key ≡ true) hi
      → Holds h hi m
      → Holds h hi (delete k m)
  unfolding delete
  Holds-delete_above k [] [] q r = tt
  Holds-delete_above k [] (x ∷ m) q r = absurd r
  Holds-delete_above k (a ∷ hi) [] q r = absurd r
  Holds-delete_above k (a ∷ hi) ((j, u) ∷ m) q r =
      let up : Str.lt k j ≡ true = rw (← r.0) q.0 in
      rw (lt_ne k j up) (r.0, r.1, Holds-delete_above k hi m q.1 r.2)

  pub Holds-delete :
      (a : ℕ) (k : Str) (lo hi : List ℕ) (m : GoMap Str V)
      → (h a).key ≡ k
      → All (Below h k) lo
      → All (λ b. Str.lt k (h b).key ≡ true) hi
      → Holds h (lo ++ a ∷ hi) m
      → Holds h (lo ++ hi) (delete k m)
  unfolding delete
  Holds-delete a k [] hi [] e p q r = absurd r
  Holds-delete a k [] hi ((j, u) ∷ m) e p q r =
      let equal : Str.eq j k ≡ true = rw (sym r.0 ∙ e) (beq_refl k) in
      rw equal (Holds-delete_above k hi m q r.2)
  Holds-delete a k (b ∷ lo) hi [] e p q r = absurd r
  Holds-delete a k (b ∷ lo) hi ((j, u) ∷ m) e p q r =
      let down : Str.lt j k ≡ true = rw (← r.0) p.0 in
      let differ : Str.eq j k ≡ false = beq_ne j k (λ j≡k. cc (Str.lt_irrefl k, down, j≡k)) in
      rw differ (r.0, r.1, Holds-delete a k lo hi m e p.1 q r.2)
