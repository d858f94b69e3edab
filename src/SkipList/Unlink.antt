-- ===== src/SkipList/Unlink.antt =====
-- The loops of `Delete`: the pointers that it changes, and the level that it leaves.
use fyer_cache.Prelude.{
  ℕ, zero, suc, ◌+◌, ◌≤◌, ◌<◌, ◌≡◌, refl, ap, ◌∙◌, ◌≢◌, inl, inr, ◌&&◌, Option, none, some, arith,
  ltb, leb, nat_beq, if◌then◌else◌, ltb→lt, nat_beq_iff, Bool-cases, Option-cases, nat_equality,
}
use fyer_cache.Prelude.GoArray.{GoArray, read_lem}
use fyer_cache.Prelude.Result.{ok, ◌>>=◌}
use fyer_cache.SkipList.{SkipList, head, unlink, lower, deref, points_to}
use fyer_cache.SkipList.Search.{forward_lem}
use fyer_cache.SkipList.Frame.{relink, set_forward-relink, at-relink}
use fyer_cache.SkipList.Splice.{Relinked, Relinked-refl, Relinked-trans, Relinked-relink}

-- One round before the others, on the pointers alone.
unlink_step :
    (i size size' c : ℕ) (pr : ℕ → ℕ) (g g₁ : ℕ → ℕ → Option ℕ) (after : Option ℕ) (b j : ℕ)
    → i < size
    → pr j ≢ c
    → size' ≡ size
    → ((x : ℕ) → g₁ x j ≡ (if nat_beq x (pr i) && nat_beq j i then g c i else g x j))
    → after ≡ (
        if leb (i + 1) j && ltb j size'
        then (if nat_beq b (pr j) then g₁ c j else g₁ b j)
        else g₁ b j)
    → after ≡ (if leb i j && ltb j size then (if nat_beq b (pr j) then g c j else g b j) else g b j)
unlink_step i size size' c pr g g₁ after b j l d z e₁ e = elim (Bool-cases (nat_beq j i)) [
  | inl same ↦
      let here : j ≡ i = (nat_beq_iff j i).0 same in ground (arith, e₁ b, ap pr here, ap (g c) here)
  | inr other ↦ ground (arith, e₁ b, e₁ c)
]

module _ {ℓ} {V : Type ℓ} where
  -- The pointers after `c` is taken out behind `pr j` on its levels from `i` on.
  abbrev pub unlinked_at : ℕ → ℕ → (ℕ → ℕ) → SkipList V → ℕ → ℕ → Option ℕ
  unlinked_at i c pr s b j =
      if leb i j && ltb j (s.node c).forward.size
      then (if nat_beq b (pr j) then (s.node c).forward.at j else (s.node b).forward.at j)
      else (s.node b).forward.at j

  pub unlink_lem :
      (rounds i c : ℕ) (preds : GoArray (Option ℕ)) (pr : ℕ → ℕ) (s : SkipList V)
      → i + rounds ≤ preds.size
      → ((j : ℕ) → j < i + rounds → preds.at j ≡ some (pr j))
      → ((j : ℕ) → j < i + rounds → j < (s.node (pr j)).forward.size)
      → ((j : ℕ) → pr j ≢ c)
      → (s.node c).forward.size ≤ i + rounds
      → ((j : ℕ)
          → i ≤ j
          → j < i + rounds
          → points_to ((s.node (pr j)).forward.at j) c ≡ ltb j (s.node c).forward.size)
      → (s' : SkipList V) × (unlink rounds i c preds s ≡ ok s')
        × Relinked s s'
        × ((b j : ℕ) → (s'.node b).forward.at j ≡ unlinked_at i c pr s b j)
  unfolding unlink
  unlink_lem zero i c preds pr s z p q d r t = (s, refl, Relinked-refl s, λ b j. ground arith)
  unlink_lem (suc rounds) i c preds pr s z p q d r t =
      elim (Bool-cases (ltb i (s.node c).forward.size)) [
        | inr stop ↦ (
          s,
          rw (
            read_lem i preds (omega arith),
            p i (omega arith),
            deref,
            forward_lem s (pr i) i (q i (omega arith)),
            t i (omega arith) (omega arith),
            ◌>>=◌,
            stop,
          ),
          Relinked-refl s,
          λ b j. ground (arith, stop),
        )
        | inl go ↦
            let s1 = relink (pr i) i ((s.node c).forward.at i) s in
            let one = Relinked-relink (pr i) i ((s.node c).forward.at i) s in
            let (s', e, same, at) =
              unlink_lem rounds (i + 1) c preds pr s1 (omega arith) (λ j l. p j (omega arith))
                (λ j l. rw one.size (q j (omega arith))) d (rw one.size (omega arith))
                (λ j l h.
                  let kept : (s1.node (pr j)).forward.at j ≡ (s.node (pr j)).forward.at j =
                    at-relink (pr i) i _ s (pr j) j ∙ ground arith in
                  rw (kept, one.size c) (t j (omega arith) (omega arith))) in
            (
              s',
              rw
                  (
                    read_lem i preds (omega arith),
                    p i (omega arith),
                    deref,
                    forward_lem s (pr i) i (q i (omega arith)),
                    t i (omega arith) (omega arith),
                    ◌>>=◌,
                    go,
                    forward_lem s c i (ltb→lt _ _ go),
                    set_forward-relink (pr i) i ((s.node c).forward.at i) s (q i (omega arith)),
                  )
                  e,
              Relinked-trans s s1 s' one same,
              λ b j.
                  unlink_step i (s.node c).forward.size (s1.node c).forward.size c pr
                    (λ x k. (s.node x).forward.at k) (λ x k. (s1.node x).forward.at k) _ b j
                    (ltb→lt _ _ go) (d j) (one.size c) (λ x. at-relink (pr i) i _ s x j) (at b j),
            )
      ]

  -- The level that is left has no empty level above it in the old one.
  pub lower_lem :
      (l : ℕ) (s : SkipList V)
      → l ≤ (s.node head).forward.size
      → 1 ≤ l
      → (l' : ℕ) × (lower l s ≡ ok l')
        × (1 ≤ l')
        × (l' ≤ l)
        × ((j : ℕ) → l' ≤ j → j < l → (s.node head).forward.at j ≡ none)
  unfolding lower
  lower_lem zero s h o = absurd (omega arith)
  lower_lem (suc zero) s h o = (1, refl, omega arith, omega arith, λ j p q. absurd (omega arith))
  lower_lem (suc (suc l)) s h o = elim (Option-cases ((s.node head).forward.at (suc l))) [
    | inr (a, e) ↦ (
      suc (suc l),
      rw (forward_lem s head (suc l) (omega arith), e),
      omega arith,
      omega arith,
      λ j p q. absurd (omega arith),
    )
    | inl e ↦
        let (l', r, one, le, empty) = lower_lem (suc l) s (omega arith) (omega arith) in
        (
          l',
          rw (forward_lem s head (suc l) (omega arith), e) r,
          one,
          omega arith,
          λ j p q. elim (Bool-cases (nat_beq j (suc l))) [
            | inl t ↦ ap (s.node head).forward.at ((nat_beq_iff j (suc l)).0 t) ∙ e
            | inr f ↦ empty j p (ground (arith, f))
          ],
        )
  ]
