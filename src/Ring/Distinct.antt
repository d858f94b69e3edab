-- ===== src/Ring/Distinct.antt =====
-- What `GetN` returns: different nodes, as many as asked for or as there are, the owner first.
use fyer_cache.Prelude.GoMap.{GoMap}
use fyer_cache.Ring.{node_at, index_at, out_of_fuel, Fault}
use fyer_cache.Ring.Nodes.{in_range, collect, add_new, listed}
use fyer_cache.Prelude.Str.{Str}
use fyer_cache.Prelude.Str
use mathlib.Core.Path.{subst}
use fyer_cache.Prelude.Result.{>>=-ok}
use fyer_cache.Prelude.Str.{str_equality}
use fyer_cache.Prelude.Result.{Result, ok, err}
use fyer_cache.Prelude.{
  ℕ, zero, suc, ◌+◌, ◌%◌, ◌≡◌, refl, ap, ◌∙◌, inl, inr, Bool, true, false, ◌&&◌, List, [], ◌∷◌,
  ◌++◌, arith, ltb, if◌then◌else◌, Bool-cases, length, nat_equality,
}

abbrev pub Different : List Str → Type 0
Different [] = Unit
Different (n ∷ ns) = (listed n ns ≡ false) × Different ns

pub listed-append :
    (a b : Str) (ns : List Str)
    → listed a (ns ++ b ∷ []) ≡ (if listed a ns then true else Str.eq b a)
unfolding listed
listed-append a b [] = ground arith
listed-append a b (n ∷ ns) = ground (arith, listed-append a b ns)

pub if_false : (t u : Bool) → (if t then true else u) ≡ false → (t ≡ false) × (u ≡ false)
if_false true u p = cc
if_false false u p = (refl, p)

pub different_sym : (a b : Str) → Str.eq a b ≡ false → Str.eq b a ≡ false
different_sym a b p = elim (Bool-cases (Str.eq b a)) [
  | inl q ↦ let e : b ≡ a = (str_equality.beq_iff b a).0 q in cc
  | inr q ↦ q
]

Different-append :
    (b : Str) (ns : List Str) → listed b ns ≡ false → Different ns → Different (ns ++ b ∷ [])
unfolding listed
Different-append b [] p d = (refl, tt)
Different-append b (n ∷ ns) p d =
    let split = if_false (Str.eq n b) (listed b ns) p in
    (
      listed-append n b ns
          ∙ ap (λ t. if t then true else Str.eq b n) d.0
          ∙ different_sym n b split.0,
      Different-append b ns split.1 d.1,
    )

pub Different-add_new : (b : Str) (ns : List Str) → Different ns → Different (add_new b ns)
unfolding add_new
Different-add_new b ns d = go (listed b ns) refl
  where
    go : (t : Bool) → listed b ns ≡ t → Different (if t then ns else ns ++ b ∷ [])
    go true p = d
    go false p = Different-append b ns p d

-- The list starts with the node.
abbrev pub StartsWith : Str → List Str → Type 0
StartsWith n [] = ⊥
StartsWith n (m ∷ ms) = m ≡ n

pub StartsWith-add_new : (n b : Str) (ns : List Str) → StartsWith n ns → StartsWith n (add_new b ns)
unfolding add_new
StartsWith-add_new n b [] s = absurd s
StartsWith-add_new n b (m ∷ ms) s = go (listed b (m ∷ ms))
  where
    go : (t : Bool) → StartsWith n (if t then m ∷ ms else (m ∷ ms) ++ b ∷ [])
    go true = s
    go false = s

module _ (P : List Str → Type 0) (keep : (b : Str) (ns : List Str) → P ns → P (add_new b ns)) where
  if-keeps :
      (t : Bool) (r : Result Fault (List Str)) (nodes out : List Str)
      → P nodes
      → (r ≡ ok out → P out)
      → (if t then r else ok nodes) ≡ ok out
      → P out
  if-keeps true r nodes out p next done = next done
  if-keeps false r nodes out p next done = let e : nodes ≡ out = cc in subst P e p

  if-keeps_last :
      (t : Bool) (nodes out : List Str)
      → P nodes
      → ◌≡◌ {A = Result Fault (List Str)} (if t then err out_of_fuel else ok nodes) (ok out)
      → P out
  if-keeps_last true nodes out p done = cc
  if-keeps_last false nodes out p done = let e : nodes ≡ out = cc in subst P e p

  -- What each step of the loop keeps holds of the result.
  pub collect-keeps :
      (fuel count total : ℕ) (hashes : List ℕ) (m : GoMap ℕ Str) (i : ℕ) (nodes out : List Str)
      → P nodes
      → collect fuel count total hashes m i nodes ≡ ok out
      → P out
  unfolding collect
  collect-keeps zero count total hashes m i nodes out p done =
      if-keeps_last (ltb (length nodes) count && ltb (length nodes) total) nodes out p done
  collect-keeps (suc fuel) count total hashes m i nodes out p done =
      if-keeps (ltb (length nodes) count && ltb (length nodes) total) _ nodes out p
        (λ q.
          let (h, _, rest) = >>=-ok (index_at hashes (in_range (length hashes) i)) _ out q in
          collect-keeps fuel count total hashes m ((in_range (length hashes) i + 1) % length hashes)
            (add_new (node_at h m) nodes) out (keep (node_at h m) nodes p) rest)
        done
