-- ===== src/Ring/Sorting.antt =====
-- cache/consthash.go: `sort` keeps the hashes and puts them in ascending order.
use fyer_cache.Prelude.{
  ℕ, zero, suc, ◌≤◌, ◌≡◌, refl, ◌⊎◌, inl, inr, true, false, List, [], ◌∷◌, arith, leb,
  if◌then◌else◌, leb→le, Bool-cases, nat_equality,
}
use mathlib.Core.List.{Memᴰ}
use mathlib.Core.List.Memᴰ
use fyer_cache.Ring.{place, sort}
use fyer_cache.Ring.Searching.{Ascending, index_of-Mem, Mem-get_elem?}

module _ (q : ℕ) where
  place-Mem : (x : ℕ) (ys : List ℕ) → (q ≡ x) ⊎ Memᴰ q ys → Memᴰ q (place x ys)
  unfolding place
  place-Mem x [] (inl e) = Memᴰ.head e
  place-Mem x [] (inr m) = elim m [ ]
  place-Mem x (y ∷ ys) h = elim (Bool-cases (leb x y)) [
    | inl t ↦ rw t (elim h [ inl e ↦ Memᴰ.head e | inr m ↦ Memᴰ.tail m ])
    | inr f ↦ rw f (elim h [
      | inl e ↦ Memᴰ.tail (place-Mem x ys (inl e))
      | inr (Memᴰ.head e) ↦ Memᴰ.head e
      | inr (Memᴰ.tail m) ↦ Memᴰ.tail (place-Mem x ys (inr m))
    ])
  ]

  pub Mem-place : (x : ℕ) (ys : List ℕ) → Memᴰ q (place x ys) → (q ≡ x) ⊎ Memᴰ q ys
  unfolding place
  Mem-place x [] (Memᴰ.head e) = inl e
  Mem-place x [] (Memᴰ.tail m) = inr m
  Mem-place x (y ∷ ys) m =
      elim (leb x y)
          as (λ b. Memᴰ q (if b then x ∷ y ∷ ys else y ∷ place x ys) → (q ≡ x) ⊎ Memᴰ q (y ∷ ys)) [
            | true ↦ λ m. Memᴰ.cases_cons m
            | false ↦ λ m. elim (Memᴰ.cases_cons m) [
              | inl e ↦ inr (Memᴰ.head e)
              | inr m' ↦ elim (Mem-place x ys m') [ inl e ↦ inl e | inr m'' ↦ inr (Memᴰ.tail m'') ]
            ]
          ]
        m

  pub sort-Mem : (xs : List ℕ) → Memᴰ q xs → Memᴰ q (sort xs)
  unfolding sort
  sort-Mem [] m = m
  sort-Mem (x ∷ xs) (Memᴰ.head e) = place-Mem x (sort xs) (inl e)
  sort-Mem (x ∷ xs) (Memᴰ.tail m) = place-Mem x (sort xs) (inr (sort-Mem xs m))

  pub Mem-sort : (xs : List ℕ) → Memᴰ q (sort xs) → Memᴰ q xs
  unfolding sort
  Mem-sort [] m = m
  Mem-sort (x ∷ xs) m = elim (Mem-place x (sort xs) m) [
    | inl e ↦ Memᴰ.head e
    | inr m' ↦ Memᴰ.tail (Mem-sort xs m')
  ]

pub Ascending-tail : (x : ℕ) (xs : List ℕ) → Ascending (x ∷ xs) → Ascending xs
Ascending-tail x xs a i j y z l = a (suc i) (suc j) y z (omega arith)

pub Ascending-cons :
    (x : ℕ) (xs : List ℕ) → ((y : ℕ) → Memᴰ y xs → x ≤ y) → Ascending xs → Ascending (x ∷ xs)
Ascending-cons x xs least a zero zero y z l ey ez = let same : y ≡ z = cc in omega arith
Ascending-cons x xs least a zero (suc j) y z l ey ez =
    let same : x ≡ y = cc in let le = least z (Mem-get_elem? xs j z ez) in omega arith
Ascending-cons x xs least a (suc i) zero y z l ey ez = absurd (omega arith)
Ascending-cons x xs least a (suc i) (suc j) y z l ey ez = a i j y z (omega arith) ey ez

pub Ascending-least : (x : ℕ) (xs : List ℕ) → Ascending (x ∷ xs) → (y : ℕ) → Memᴰ y xs → x ≤ y
Ascending-least x xs a y m =
    let (k, e) = index_of-Mem xs y m in a 0 (suc k) x y (omega arith) refl e

place-Ascending : (x : ℕ) (ys : List ℕ) → Ascending ys → Ascending (place x ys)
unfolding place
place-Ascending x [] a = Ascending-cons x [] (λ y m. elim m [ ]) a
place-Ascending x (y ∷ ys) a = elim (Bool-cases (leb x y)) [
  | inl t ↦
      let le : x ≤ y = leb→le x y t in
      rw t (
        Ascending-cons x (y ∷ ys)
          (λ z m. elim m [
            | Memᴰ.head e ↦ omega arith
            | Memᴰ.tail m' ↦ let l = Ascending-least y ys a z m' in omega arith
          ])
          a)
  | inr f ↦
      let le : y ≤ x = ground arith in
      rw f (
        Ascending-cons y (place x ys)
          (λ z m. elim (Mem-place z x ys m) [
            | inl e ↦ omega arith
            | inr m' ↦ Ascending-least y ys a z m'
          ])
          (place-Ascending x ys (Ascending-tail y ys a)))
]

pub sort-Ascending : (xs : List ℕ) → Ascending (sort xs)
unfolding sort
sort-Ascending [] i j x y l ex ey = cc
sort-Ascending (x ∷ xs) i j y z l ey ez =
    place-Ascending x (sort xs) (sort-Ascending xs) i j y z l ey ez
