-- ===== src/SkipList/Frame.antt =====
-- What a change of the heap keeps of the shape.
use fyer_cache.Prelude.{
  ℕ, ◌<◌, ◌≡◌, refl, ◌∙◌, true, ◌&&◌, Option, List, [], ◌∷◌, arith, nat_beq, if◌then◌else◌,
  nat_equality,
}
use fyer_cache.Prelude.Str.{Str}
use fyer_cache.Prelude.Str
use fyer_cache.Prelude.GoMap.{GoMap}
use fyer_cache.Prelude.GoArray.{update, write_lem}
use fyer_cache.Prelude.Result.{ok}
use fyer_cache.SkipList.{Node, SkipList, set_forward}
use fyer_cache.SkipList.Chain.{All, All-map₂, above}
use fyer_cache.SkipList.Shape.{Sorted}
use fyer_cache.SkipList.Lookup.{Holds}

module _ {ℓ} {V : Type ℓ} where
  abbrev pub SameKey : (ℕ → Node V) → (ℕ → Node V) → ℕ → Type 0
  SameKey h h' b = (h' b).key ≡ (h b).key

  abbrev pub SameSize : (ℕ → Node V) → (ℕ → Node V) → ℕ → Type 0
  SameSize h h' b = (h' b).forward.size ≡ (h b).forward.size

  pub above-frame :
      (h h' : ℕ → Node V) (i : ℕ) (ns : List ℕ)
      → All (SameSize h h') ns
      → above h' i ns ≡ above h i ns
  above-frame h h' i [] p = refl
  above-frame h h' i (a ∷ ns) p = rw (p.0, above-frame h h' i ns p.1)

  pub Sorted-frame :
      (h h' : ℕ → Node V) (ns : List ℕ) → All (SameKey h h') ns → Sorted h ns → Sorted h' ns
  Sorted-frame h h' [] p s = tt
  Sorted-frame h h' (a ∷ ns) p s = (
    All-map₂ {P = SameKey h h'} {Q = λ b. Str.lt (h a).key (h b).key ≡ true}
        (λ b e l. rw (p.0, e) l) ns p.1 s.0,
    Sorted-frame h h' ns p.1 s.1,
  )

  -- `set_forward`, where the index is in range.
  unfoldable pub relink : ℕ → ℕ → Option ℕ → SkipList V → SkipList V
  relink a i p s = record s {
    node = update s.node a (record (s.node a) {
      forward = record (s.node a).forward { at = update (s.node a).forward.at i p };
    });
  }

  module _ (a i : ℕ) (p : Option ℕ) (s : SkipList V) where
    pub set_forward-relink : i < (s.node a).forward.size → set_forward a i p s ≡ ok (relink a i p s)
    unfolding set_forward relink
    set_forward-relink h = rw (write_lem i p (s.node a).forward h)

    pub key-relink : (b : ℕ) → ((relink a i p s).node b).key ≡ (s.node b).key
    unfolding relink
    key-relink b = ground arith

    pub value-relink : (b : ℕ) → ((relink a i p s).node b).value ≡ (s.node b).value
    unfolding relink
    value-relink b = ground arith

    pub size-relink : (b : ℕ) → ((relink a i p s).node b).forward.size ≡ (s.node b).forward.size
    unfolding relink
    size-relink b = ground arith

    pub at-relink :
        (b j : ℕ)
        → ((relink a i p s).node b).forward.at j
          ≡ (if nat_beq b a && nat_beq j i then p else (s.node b).forward.at j)
    unfolding relink
    at-relink b j = ground arith

module _ {V : Type 0} where
  pub Holds-frame :
      (h h' : ℕ → Node V) (ns : List ℕ) (m : GoMap Str V)
      → All (SameKey h h') ns
      → All (λ b. (h' b).value ≡ (h b).value) ns
      → Holds h ns m
      → Holds h' ns m
  Holds-frame h h' [] [] p q r = tt
  Holds-frame h h' [] (e ∷ m) p q r = r
  Holds-frame h h' (a ∷ ns) [] p q r = r
  Holds-frame h h' (a ∷ ns) ((k, v) ∷ m) p q r =
      (p.0 ∙ r.0, q.0 ∙ r.1, Holds-frame h h' ns m p.1 q.1 r.2)
