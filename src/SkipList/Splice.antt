-- ===== src/SkipList/Splice.antt =====
-- The loop of `Set` that links a new node into its levels, as a change of the pointers.
use fyer_cache.Prelude.{
  ℕ, zero, suc, ◌+◌, ◌≤◌, ◌<◌, ◌≡◌, refl, ap, ◌∙◌, ◌≢◌, inl, inr, ◌&&◌, Option, some, arith, ltb,
  leb, nat_beq, if◌then◌else◌, nat_beq_iff, Bool-cases, nat_equality,
}
use fyer_cache.Prelude.GoArray.{GoArray, read_lem}
use fyer_cache.Prelude.Result.{ok}
use fyer_cache.SkipList.{SkipList, splice, deref}
use fyer_cache.SkipList.Search.{forward_lem}
use fyer_cache.SkipList.Frame.{
  relink, set_forward-relink, key-relink, value-relink, size-relink, at-relink,
}

-- One round before the others, on the pointers alone.
splice_step :
    (i rounds n : ℕ) (pr : ℕ → ℕ) (g g₁ g₂ : ℕ → ℕ → Option ℕ) (after : Option ℕ) (b j : ℕ)
    → pr j ≢ n
    → ((x : ℕ) → g₁ x j ≡ (if nat_beq x n && nat_beq j i then g (pr i) i else g x j))
    → ((x : ℕ) → g₂ x j ≡ (if nat_beq x (pr i) && nat_beq j i then some n else g₁ x j))
    → after ≡ (
        if leb (i + 1) j && ltb j (i + 1 + rounds)
        then (if nat_beq b (pr j) then some n else if nat_beq b n then g₂ (pr j) j else g₂ b j)
        else g₂ b j)
    → after ≡ (
        if leb i j && ltb j (i + suc rounds)
        then (if nat_beq b (pr j) then some n else if nat_beq b n then g (pr j) j else g b j)
        else g b j)
splice_step i rounds n pr g g₁ g₂ after b j d e₁ e₂ e = elim (Bool-cases (nat_beq j i)) [
  | inl same ↦
      let here : j ≡ i = (nat_beq_iff j i).0 same in
      ground (arith, e₁ b, e₂ b, ap pr here, ap (g (pr i)) here)
  | inr other ↦ ground (arith, e₁ b, e₂ b, e₁ (pr j), e₂ (pr j))
]

module _ {ℓ} {V : Type ℓ} where
  -- What the two heaps have in common, whatever the pointers.
  pub record Relinked (s s' : SkipList V) : Type ℓ where
    pub fresh : s'.fresh ≡ s.fresh
    pub length : s'.length ≡ s.length
    pub level : s'.level ≡ s.level
    pub key : (b : ℕ) → (s'.node b).key ≡ (s.node b).key
    pub value : (b : ℕ) → (s'.node b).value ≡ (s.node b).value
    pub size : (b : ℕ) → (s'.node b).forward.size ≡ (s.node b).forward.size

  pub Relinked-refl : (s : SkipList V) → Relinked s s
  Relinked-refl s = record {
    fresh = refl;
    length = refl;
    level = refl;
    key = λ b. refl;
    value = λ b. refl;
    size = λ b. refl;
  }

  pub Relinked-trans : (s t u : SkipList V) → Relinked s t → Relinked t u → Relinked s u
  Relinked-trans s t u p q = record {
    fresh = q.fresh ∙ p.fresh;
    length = q.length ∙ p.length;
    level = q.level ∙ p.level;
    key = λ b. q.key b ∙ p.key b;
    value = λ b. q.value b ∙ p.value b;
    size = λ b. q.size b ∙ p.size b;
  }

  pub Relinked-relink : (a i : ℕ) (p : Option ℕ) (s : SkipList V) → Relinked s (relink a i p s)
  Relinked-relink a i p s = record {
    fresh = unfold relink in refl;
    length = unfold relink in refl;
    level = unfold relink in refl;
    key = key-relink a i p s;
    value = value-relink a i p s;
    size = size-relink a i p s;
  }

  -- The pointers of the levels from `i` up to `stop`, after `n` is linked in behind `pr j`.
  abbrev pub spliced_at : ℕ → ℕ → ℕ → (ℕ → ℕ) → SkipList V → ℕ → ℕ → Option ℕ
  spliced_at i stop n pr s b j =
      if leb i j && ltb j stop
      then (if nat_beq b (pr j)
          then some n
          else if nat_beq b n
          then (s.node (pr j)).forward.at j
          else (s.node b).forward.at j)
      else (s.node b).forward.at j

  pub splice_lem :
      (rounds i n : ℕ) (preds : GoArray (Option ℕ)) (pr : ℕ → ℕ) (s : SkipList V)
      → i + rounds ≤ preds.size
      → ((j : ℕ) → j < i + rounds → preds.at j ≡ some (pr j))
      → ((j : ℕ) → j < i + rounds → j < (s.node (pr j)).forward.size)
      → ((j : ℕ) → pr j ≢ n)
      → i + rounds ≤ (s.node n).forward.size
      → (s' : SkipList V) × (splice rounds i n preds s ≡ ok s')
        × Relinked s s'
        × ((b j : ℕ) → (s'.node b).forward.at j ≡ spliced_at i (i + rounds) n pr s b j)
  unfolding splice
  splice_lem zero i n preds pr s z p q d r = (s, refl, Relinked-refl s, λ b j. ground arith)
  splice_lem (suc rounds) i n preds pr s z p q d r =
      let s1 = relink n i ((s.node (pr i)).forward.at i) s in
      let s2 = relink (pr i) i (some n) s1 in
      let both = Relinked-trans s s1 s2 (Relinked-relink n i _ s) (Relinked-relink (pr i) i _ s1) in
      let (s', e, same, at) =
        splice_lem rounds (i + 1) n preds pr s2 (omega arith) (λ j l. p j (omega arith))
          (λ j l. rw both.size (q j (omega arith))) d (rw both.size (omega arith)) in
      (
        s',
        rw
            (
              read_lem i preds (omega arith),
              p i (omega arith),
              deref,
              forward_lem s (pr i) i (q i (omega arith)),
              set_forward-relink n i ((s.node (pr i)).forward.at i) s (omega arith),
              set_forward-relink (pr i) i (some n) s1 (rw size-relink (q i (omega arith))),
            )
            e,
        Relinked-trans s s2 s' both same,
        λ b j.
            splice_step i rounds n pr (λ x k. (s.node x).forward.at k)
              (λ x k. (s1.node x).forward.at k) (λ x k. (s2.node x).forward.at k) _ b j (d j)
              (λ x. at-relink n i _ s x j) (λ x. at-relink (pr i) i _ s1 x j) (at b j),
      )
