-- ===== src/SkipList/Insert.antt =====
-- `Set` of a key that is new: the list with the node linked in is well-formed.
use fyer_cache.Prelude.{
  ℕ, zero, suc, ◌+◌, ◌≤◌, ◌<◌, ◌≡◌, refl, ap, ◌∙◌, ◌≢◌, inl, inr, true, false, ◌&&◌, Option, some,
  List, [], ◌∷◌, ◌++◌, arith, ltb, leb, nat_beq, if◌then◌else◌, ltb→lt, Bool-cases, nat_equality,
}
use fyer_cache.Prelude.Str.{Str}
use fyer_cache.Prelude.Str
use fyer_cache.Prelude.GoArray.{GoArray, update, write_lem}
use fyer_cache.Prelude.Result.{ok}
use fyer_cache.SkipList.{Node, head, raise_preds}
use fyer_cache.SkipList.Chain.{
  All, All-map, All-append, All-left, All-right, Chain, above, above-append, Distinct, last_or,
  Chain-agree, Chain-frame, Chain-insert,
}
use fyer_cache.SkipList.Shape.{Sorted, All-above}
use fyer_cache.SkipList.Frame.{above-frame}

pub raise_preds_lem :
    (rounds i : ℕ) (preds : GoArray (Option ℕ))
    → i + rounds ≤ preds.size
    → (preds' : GoArray (Option ℕ)) × (raise_preds rounds i preds ≡ ok preds')
      × (preds'.size ≡ preds.size)
      × ((j : ℕ) → preds'.at j ≡ (if leb i j && ltb j (i + rounds) then some head else preds.at j))
unfolding raise_preds
raise_preds_lem zero i preds z = (preds, refl, refl, λ j. ground arith)
raise_preds_lem (suc rounds) i preds z =
    let now = record preds { at = update preds.at i (some head) } in
    let (preds', e, size, at) = raise_preds_lem rounds (i + 1) now (omega arith) in
    (preds', rw (write_lem i (some head) preds (omega arith)) e, size, λ j. ground (arith, at j))

module _ {ℓ} {V : Type ℓ} where
  pub above-size :
      (h : ℕ → Node V) (i : ℕ) (ns : List ℕ) → All (λ b. i < (h b).forward.size) (above h i ns)
  above-size h i [] = tt
  above-size h i (a ∷ ns) = elim (Bool-cases (ltb i (h a).forward.size)) [
    | inl t ↦ rw t (ltb→lt _ _ t, above-size h i ns)
    | inr f ↦ rw f (above-size h i ns)
  ]

  pub Sorted-insert :
      (h : ℕ → Node V) (n : ℕ) (lo hi : List ℕ)
      → All (λ a. Str.lt (h a).key (h n).key ≡ true) lo
      → All (λ a. Str.lt (h n).key (h a).key ≡ true) hi
      → Sorted h (lo ++ hi)
      → Sorted h (lo ++ n ∷ hi)
  Sorted-insert h n [] hi p q s = (q, s)
  Sorted-insert h n (a ∷ lo) hi p q s = (
    All-append (λ b. Str.lt (h a).key (h b).key ≡ true) lo (n ∷ hi)
        (All-left (λ b. Str.lt (h a).key (h b).key ≡ true) lo hi s.0)
        (p.0, All-right (λ b. Str.lt (h a).key (h b).key ≡ true) lo hi s.0),
    Sorted-insert h n lo hi p.1 q s.1,
  )

  -- A heap `h₂` that keeps the old nodes, and has the node `n` linked in behind `pr i` on each
  -- level below `levels`.
  module _ (h h₀ h₂ : ℕ → Node V) (n levels : ℕ) (pr : ℕ → ℕ) (old : (b : ℕ) → b ≢ n → h₀ b ≡ h b)
      (size : (b : ℕ) → (h₂ b).forward.size ≡ (h₀ b).forward.size)
      (new_size : (h₀ n).forward.size ≡ levels)
      (at : (b j : ℕ)
        → (h₂ b).forward.at j ≡ (
            if ltb j levels
            then (if nat_beq b (pr j)
                then some n
                else if nat_beq b n
                then (h₀ (pr j)).forward.at j
                else (h₀ b).forward.at j)
            else (h₀ b).forward.at j)) where
    above-old : (i : ℕ) (ns : List ℕ) → All (λ b. b ≢ n) ns → above h₂ i ns ≡ above h i ns
    above-old i ns p =
        above-frame h h₂ i ns
          (All-map {P = λ b. b ≢ n} (λ b q. size b ∙ ap (λ m. m.forward.size) (old b q)) ns p)

    pub linked_insert :
        (i : ℕ) (lo hi : List ℕ)
        → All (λ b. b ≢ n) (head ∷ (lo ++ hi))
        → Distinct (head ∷ (above h i lo ++ above h i hi))
        → pr i ≡ last_or head (above h i lo)
        → Chain h i head (above h i lo ++ above h i hi)
        → Chain h₂ i head (above h₂ i (lo ++ n ∷ hi))
    linked_insert i lo hi p d e c =
        let fresh_lo = All-left (λ b. b ≢ n) lo hi p.1 in
        let fresh_hi = All-right (λ b. b ≢ n) lo hi p.1 in
        let whole : above h₂ i (lo ++ n ∷ hi) ≡ above h i lo ++ above h₂ i (n ∷ hi) =
          above-append h₂ i lo (n ∷ hi)
          ∙ ap (λ l. l ++ above h₂ i (n ∷ hi)) (above-old i lo fresh_lo) in
        let fresh : All (λ b. b ≢ n) (head ∷ (above h i lo ++ above h i hi)) = (
          p.0,
          All-append (λ b. b ≢ n) (above h i lo) (above h i hi)
              (All-above (λ b. b ≢ n) h i lo fresh_lo) (All-above (λ b. b ≢ n) h i hi fresh_hi),
        ) in
        let c₀ : Chain h₀ i head (above h i lo ++ above h i hi) =
          Chain-agree h h₀ i head (above h i lo ++ above h i hi)
            (All-map {P = λ b. b ≢ n}
              (λ b q. (ap (λ m. m.forward.size) (old b q), ap (λ m. m.forward.at i) (old b q)))
              (head ∷ (above h i lo ++ above h i hi)) fresh)
            c in
        elim (Bool-cases (ltb i levels)) [
          | inl t ↦
              let reached : ltb i (h₂ n).forward.size ≡ true = rw (size n, new_size) t in
              rw (whole, reached, above-old i hi fresh_hi)
                (Chain-insert h₀ h₂ i n (pr i) head (above h i lo) (above h i hi) e d fresh size
                  (rw new_size (ltb→lt _ _ t)) (λ b. at b i ∙ rw t) c₀)
          | inr f ↦
              let short : ltb i (h₂ n).forward.size ≡ false = rw (size n, new_size) f in
              rw (whole, short, above-old i hi fresh_hi)
                (Chain-frame h₀ h₂ i head (above h i lo ++ above h i hi) size (λ b. at b i ∙ rw f)
                  c₀)
        ]
