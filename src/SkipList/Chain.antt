-- ===== src/SkipList/Chain.antt =====
-- The linked list of each level, over the heap alone: what follows an address, and how a change
-- of one pointer changes it.
use fyer_cache.Prelude.{
  ℕ, suc, ◌<◌, ◌≡◌, refl, ◌∙◌, ◌≢◌, inl, inr, true, none, some, List, [], ◌∷◌, ◌++◌, arith, ltb,
  nat_beq, if◌then◌else◌, Bool-cases, nat_equality,
}
use fyer_cache.SkipList.{Node}

abbrev pub All {ℓ κ} : {A : Type ℓ} → (A → Type κ) → List A → Type κ
All P [] = Unit
All P (x ∷ xs) = P x × All P xs

-- The last address of a list, or `a`.
abbrev pub last_or : ℕ → List ℕ → ℕ
last_or a [] = a
last_or a (b ∷ bs) = last_or b bs

-- A node that only the lower level has stands in front of the rest, or of what was passed.
shift :
    (a b : ℕ) (ps qs : List ℕ)
    → (ps' : List ℕ) × (qs' : List ℕ) × (b ∷ (ps ++ qs) ≡ ps' ++ qs')
      × (last_or a ps ≡ last_or a ps')
shift a b [] qs = ([], b ∷ qs, refl, refl)
shift a b (p ∷ ps) qs = (b ∷ p ∷ ps, qs, refl, refl)

module _ {ℓ κ} {A : Type ℓ} (P : A → Type κ) where
  pub All-append : (xs ys : List A) → All P xs → All P ys → All P (xs ++ ys)
  All-append [] ys hx hy = hy
  All-append (x ∷ xs) ys hx hy = (hx.0, All-append xs ys hx.1 hy)

  pub All-left : (xs ys : List A) → All P (xs ++ ys) → All P xs
  All-left [] ys h = tt
  All-left (x ∷ xs) ys h = (h.0, All-left xs ys h.1)

  pub All-right : (xs ys : List A) → All P (xs ++ ys) → All P ys
  All-right [] ys h = h
  All-right (x ∷ xs) ys h = All-right xs ys h.1

pub All-everywhere {ℓ κ} :
    {A : Type ℓ} {P : A → Type κ} (f : (x : A) → P x) (xs : List A) → All P xs
All-everywhere f [] = tt
All-everywhere f (x ∷ xs) = (f x, All-everywhere f xs)

pub All-map {ℓ κ μ} :
    {A : Type ℓ} {P : A → Type κ} {Q : A → Type μ} (f : (x : A) → P x → Q x) (xs : List A)
    → All P xs
    → All Q xs
All-map f [] h = tt
All-map f (x ∷ xs) h = (f x h.0, All-map f xs h.1)

pub All-map₂ {ℓ κ μ ν} :
    {A : Type ℓ} {P : A → Type κ} {Q : A → Type μ} {R : A → Type ν} (f : (x : A) → P x → Q x → R x)
    (xs : List A)
    → All P xs
    → All Q xs
    → All R xs
All-map₂ f [] h k = tt
All-map₂ f (x ∷ xs) h k = (f x h.0 k.0, All-map₂ f xs h.1 k.1)

pub All-last_or {κ} : (P : ℕ → Type κ) (b : ℕ) (bs : List ℕ) → All P (b ∷ bs) → P (last_or b bs)
All-last_or P b [] h = h.0
All-last_or P b (c ∷ bs) h = All-last_or P c bs h.1

abbrev pub Distinct : List ℕ → Type 0
Distinct [] = Unit
Distinct (x ∷ xs) = All (λ y. y ≢ x) xs × Distinct xs

module _ {ℓ} {V : Type ℓ} where
  -- The pointers of level `i` lead from `a` through the addresses of the list to nil.
  abbrev pub Chain : (ℕ → Node V) → ℕ → ℕ → List ℕ → Type 0
  Chain h i a [] = (i < (h a).forward.size) × ((h a).forward.at i ≡ none)
  Chain h i a (b ∷ bs) = (i < (h a).forward.size) × ((h a).forward.at i ≡ some b) × Chain h i b bs

  -- The nodes that reach level `i`.
  abbrev pub above : (ℕ → Node V) → ℕ → List ℕ → List ℕ
  above h i [] = []
  above h i (a ∷ xs) = if ltb i (h a).forward.size then a ∷ above h i xs else above h i xs

  pub above-append :
      (h : ℕ → Node V) (i : ℕ) (xs bs : List ℕ)
      → above h i (xs ++ bs) ≡ above h i xs ++ above h i bs
  above-append h i [] bs = refl
  above-append h i (a ∷ xs) bs = ground (arith, above-append h i xs bs)

  pub Chain-suffix :
      (h : ℕ → Node V) (i a : ℕ) (ps qs : List ℕ)
      → Chain h i a (ps ++ qs)
      → Chain h i (last_or a ps) qs
  Chain-suffix h i a [] qs c = c
  Chain-suffix h i a (p ∷ ps) qs c = Chain-suffix h i p ps qs c.2

  -- Heaps that agree on the size and on the pointer of this level have the same chain.
  pub Chain-frame :
      (h h' : ℕ → Node V) (i a : ℕ) (xs : List ℕ)
      → ((b : ℕ) → (h' b).forward.size ≡ (h b).forward.size)
      → ((b : ℕ) → (h' b).forward.at i ≡ (h b).forward.at i)
      → Chain h i a xs
      → Chain h' i a xs
  Chain-frame h h' i a [] s t c = (rw (s a) c.0, t a ∙ c.1)
  Chain-frame h h' i a (b ∷ bs) s t c = (rw (s a) c.0, t a ∙ c.1, Chain-frame h h' i b bs s t c.2)

  -- Or that agree on the addresses of the chain.
  pub Chain-agree :
      (h h' : ℕ → Node V) (i a : ℕ) (xs : List ℕ)
      → All
          (λ b.
            ((h' b).forward.size ≡ (h b).forward.size) × ((h' b).forward.at i ≡ (h b).forward.at i))
          (a ∷ xs)
      → Chain h i a xs
      → Chain h' i a xs
  Chain-agree h h' i a [] t c = (rw t.0.0 c.0, t.0.1 ∙ c.1)
  Chain-agree h h' i a (b ∷ bs) t c = (rw t.0.0 c.0, t.0.1 ∙ c.1, Chain-agree h h' i b bs t.1 c.2)

  -- From the last node of a level above, the walk of the level below goes on where it is.
  pub rejoin :
      (h : ℕ → Node V) (i a : ℕ) (xs : List ℕ)
      → (ps : List ℕ) × (qs : List ℕ) × (above h i xs ≡ ps ++ qs)
        × (last_or a (above h (suc i) xs) ≡ last_or a ps)
  rejoin h i a [] = ([], [], refl, refl)
  rejoin h i a (b ∷ xs) = elim (Bool-cases (ltb (suc i) (h b).forward.size)) [
    | inl high ↦
        let (ps, qs, e, l) = rejoin h i b xs in
        let low : ltb i (h b).forward.size ≡ true = ground (arith, high) in
        (b ∷ ps, qs, rw (low, e), rw (high, l))
    | inr not_high ↦ elim (Bool-cases (ltb i (h b).forward.size)) [
      | inr not_low ↦
          let (ps, qs, e, l) = rejoin h i a xs in (ps, qs, rw (not_low, e), rw (not_high, l))
      | inl low ↦
          let (ps, qs, e, l) = rejoin h i a xs in
          let (ps', qs', e', l') = shift a b ps qs in
          (ps', qs', rw (low, e) e', rw (not_high, l) l')
    ]
  ]

  -- Linking the node `n` in behind the last node `p` of `ps`.
  pub Chain-insert :
      (h h' : ℕ → Node V) (i n p a : ℕ) (ps qs : List ℕ)
      → p ≡ last_or a ps
      → Distinct (a ∷ (ps ++ qs))
      → All (λ b. b ≢ n) (a ∷ (ps ++ qs))
      → ((b : ℕ) → (h' b).forward.size ≡ (h b).forward.size)
      → i < (h n).forward.size
      → ((b : ℕ)
          → (h' b).forward.at i ≡ (
              if nat_beq b p
              then some n
              else if nat_beq b n
              then (h p).forward.at i
              else (h b).forward.at i))
      → Chain h i a (ps ++ qs)
      → Chain h' i a (ps ++ n ∷ qs)
  Chain-insert h h' i n p a [] [] e d f s r t c =
      (rw (s a) c.0, ground (arith, t a), (rw (s n) r, ground (arith, t n, f.0)))
  Chain-insert h h' i n p a [] (q ∷ qs) e d f s r t c = (
    rw (s a) c.0,
    ground (arith, t a),
    (
      rw (s n) r,
      ground (arith, t n, f.0),
      Chain-agree h h' i q qs
          (All-map₂ {P = λ b. b ≢ a} {Q = λ b. b ≢ n} (λ b x y. (s b, ground (arith, t b))) (q ∷ qs)
            d.0 f.1)
          c.2,
    ),
  )
  Chain-insert h h' i n p a (b ∷ ps) qs e d f s r t c = (
    rw (s a) c.0,
    ground (arith, t a, f.0, All-last_or (λ y. y ≢ a) b ps (All-left (λ y. y ≢ a) (b ∷ ps) qs d.0)),
    Chain-insert h h' i n p b ps qs e d.1 f.1 s r t c.2,
  )

  -- Unlinking the node `c` behind the last node `p` of `ps`.
  pub Chain-remove :
      (h h' : ℕ → Node V) (i c p a : ℕ) (ps qs : List ℕ)
      → p ≡ last_or a ps
      → Distinct (a ∷ (ps ++ c ∷ qs))
      → ((b : ℕ) → (h' b).forward.size ≡ (h b).forward.size)
      → ((b : ℕ)
          → (h' b).forward.at i ≡ (if nat_beq b p then (h c).forward.at i else (h b).forward.at i))
      → Chain h i a (ps ++ c ∷ qs)
      → Chain h' i a (ps ++ qs)
  Chain-remove h h' i c p a [] [] e d s t l = (rw (s a) l.0, ground (arith, t a))
  Chain-remove h h' i c p a [] (q ∷ qs) e d s t l = (
    rw (s a) l.0,
    ground (arith, t a),
    Chain-agree h h' i q qs
        (All-map {P = λ b. b ≢ a} (λ b x. (s b, ground (arith, t b))) (q ∷ qs) d.0.1) l.2.2,
  )
  Chain-remove h h' i c p a (b ∷ ps) qs e d s t l = (
    rw (s a) l.0,
    ground
        (arith, t a, All-last_or (λ y. y ≢ a) b ps (All-left (λ y. y ≢ a) (b ∷ ps) (c ∷ qs) d.0)),
    Chain-remove h h' i c p b ps qs e d.1 s t l.2,
  )
