-- ===== src/Ring/Searching.antt =====
-- cache/consthash.go: the search on the ring ends at the hash that owns the key.
use fyer_cache.Prelude.{
  ℕ, zero, suc, ◌+◌, ◌/◌, ◌≤◌, ◌<◌, ◌≡◌, refl, sym, ap, ◌∙◌, ◌⊎◌, inl, inr, true, false, none, some,
  List, [], ◌∷◌, arith, ltb, leb, nat_beq, ltb→lt, leb→le, nat_beq_iff, Bool-cases, length,
  get_elem?, get_elem?-some, get_elem?-none, nat_equality,
}
use mathlib.Core.List.{Memᴰ}
use fyer_cache.Prelude.Result.{ok, ◌>>=◌}
use fyer_cache.Ring.{index_at, bisect, wrap, search}

abbrev pub Ascending : List ℕ → Type 0
Ascending xs = (i j x y : ℕ) → i ≤ j → get_elem? xs i ≡ some x → get_elem? xs j ≡ some y → x ≤ y

-- Every hash before position `i` is below `hash`, and every one from `j` on is not.
pub record Bracketed (xs : List ℕ) (hash i j : ℕ) : Type 0 where
  pub ordered : i ≤ j
  pub inside : j ≤ length xs
  pub before : (k x : ℕ) → k < i → get_elem? xs k ≡ some x → x < hash
  pub after : (k x : ℕ) → j ≤ k → get_elem? xs k ≡ some x → hash ≤ x

index_at-some :
    (xs : List ℕ) (i : ℕ)
    → i < length xs
    → (x : ℕ) × (get_elem? xs i ≡ some x) × (index_at xs i ≡ ok x)
unfolding index_at
index_at-some xs i h = let (x, e) = get_elem?-some xs i h in (x, e, rw (index_at, e) refl)

module _ (fuel : ℕ) (xs : List ℕ) (hash i j x : ℕ) where
  bisect-lower :
      ltb i j ≡ true
      → index_at xs ((i + j) / 2) ≡ ok x
      → leb hash x ≡ true
      → bisect (suc fuel) xs hash i j ≡ bisect fuel xs hash i ((i + j) / 2)
  unfolding bisect
  bisect-lower t e u = rw (bisect, t, e, ◌>>=◌, u) refl

  bisect-upper :
      ltb i j ≡ true
      → index_at xs ((i + j) / 2) ≡ ok x
      → leb hash x ≡ false
      → bisect (suc fuel) xs hash i j ≡ bisect fuel xs hash ((i + j) / 2 + 1) j
  unfolding bisect
  bisect-upper t e u = rw (bisect, t, e, ◌>>=◌, u) refl

-- The bisection of an ascending list ends at the first position whose hash is large enough.
pub bisect_lem :
    (fuel : ℕ) (xs : List ℕ) (hash i j : ℕ)
    → Ascending xs
    → Bracketed xs hash i j
    → j < fuel + i
    → (p : ℕ) × (bisect fuel xs hash i j ≡ ok p) × Bracketed xs hash p p
unfolding bisect
bisect_lem zero xs hash i j asc b h = absurd (let o = b.ordered in omega arith)
bisect_lem (suc fuel) xs hash i j asc b h = elim (Bool-cases (ltb i j)) [
  | inr f ↦
      let o = b.ordered in
      let same : i ≡ j = ground arith in
      (
        i,
        rw (bisect, f) refl,
        record {
          ordered = omega arith;
          inside = let n = b.inside in omega arith;
          before = b.before;
          after = λ k y l ey. b.after k y (omega arith) ey;
        },
      )
  | inl t ↦
      let lt : i < j = ltb→lt i j t in
      let n = b.inside in
      let (x, ex, ei) = index_at-some xs ((i + j) / 2) (omega arith) in
      elim (Bool-cases (leb hash x)) [
        | inl u ↦
            let le : hash ≤ x = leb→le hash x u in
            let (p, e, b') =
              bisect_lem fuel xs hash i ((i + j) / 2) asc
                (record {
                  ordered = omega arith;
                  inside = omega arith;
                  before = b.before;
                  after = λ k y l ey. let m = asc ((i + j) / 2) k x y l ex ey in omega arith;
                })
                (omega arith) in
            (p, bisect-lower fuel xs hash i j x t ei u ∙ e, b')
        | inr u ↦
            let gt : x < hash = ground arith in
            let (p, e, b') =
              bisect_lem fuel xs hash ((i + j) / 2 + 1) j asc
                (record {
                  ordered = omega arith;
                  inside = b.inside;
                  before = λ k y l ey.
                      let m = asc k ((i + j) / 2) y x (omega arith) ey ex in omega arith;
                  after = b.after;
                })
                (omega arith) in
            (p, bisect-upper fuel xs hash i j x t ei u ∙ e, b')
      ]
]

pub index_of-Mem : (xs : List ℕ) (q : ℕ) → Memᴰ q xs → (k : ℕ) × (get_elem? xs k ≡ some q)
index_of-Mem [] q m = elim m [ ]
index_of-Mem (x ∷ xs) q (Memᴰ.head e) = (0, ap some (sym e))
index_of-Mem (x ∷ xs) q (Memᴰ.tail m) = let (k, e) = index_of-Mem xs q m in (suc k, e)

pub Mem-get_elem? : (xs : List ℕ) (k q : ℕ) → get_elem? xs k ≡ some q → Memᴰ q xs
Mem-get_elem? [] k q e = cc
Mem-get_elem? (x ∷ xs) zero q e = Memᴰ.head (cc)
Mem-get_elem? (x ∷ xs) (suc k) q e = Memᴰ.tail (Mem-get_elem? xs k q e)

-- The hash that owns `hash`: the least one from it on or, where there is none, the least of all.
unfoldable pub IsOwner : List ℕ → ℕ → ℕ → Type 0
IsOwner xs hash h =
    Memᴰ h xs
    × ((hash ≤ h × ((q : ℕ) → Memᴰ q xs → hash ≤ q → h ≤ q))
        ⊎ (((q : ℕ) → Memᴰ q xs → q < hash) × ((q : ℕ) → Memᴰ q xs → h ≤ q)))

Bracketed-IsOwner :
    (xs : List ℕ) (hash p h : ℕ)
    → Ascending xs
    → Bracketed xs hash p p
    → get_elem? xs p ≡ some h
    → IsOwner xs hash h
unfolding IsOwner
Bracketed-IsOwner xs hash p h asc b e = (
  Mem-get_elem? xs p h e,
  inl (
    b.after p h (omega arith) e,
    λ q m le.
        let (k, ek) = index_of-Mem xs q m in
        elim (Bool-cases (ltb k p)) [
          | inl t ↦ let lt = b.before k q (ltb→lt k p t) ek in omega arith
          | inr f ↦ asc p k h q (ground arith) e ek
        ],
  ),
)

Bracketed-first :
    (x : ℕ) (xs : List ℕ) (hash p : ℕ)
    → Ascending (x ∷ xs)
    → Bracketed (x ∷ xs) hash p p
    → p ≡ length (x ∷ xs)
    → IsOwner (x ∷ xs) hash x
unfolding IsOwner
Bracketed-first x xs hash p asc b e = (
  Memᴰ.head refl,
  inr (
    (λ q m.
        let (k, ek) = index_of-Mem (x ∷ xs) q m in
        elim (Bool-cases (ltb k p)) [
          | inl t ↦ b.before k q (ltb→lt k p t) ek
          | inr f ↦
              let n = get_elem?-none (x ∷ xs) k (ground arith) in
              let clash : none ≡ some q = sym n ∙ ek in cc
        ]),
    (λ q m. let (k, ek) = index_of-Mem (x ∷ xs) q m in asc 0 k x q (omega arith) refl ek),
  ),
)

-- On a ring that is sorted and not empty, `search` ends at the position of the first hash that is
-- the key's hash or more or, where there is none, of the first hash.
pub search_lem :
    (hash x : ℕ) (xs : List ℕ)
    → Ascending (x ∷ xs)
    → (i h : ℕ) × (search hash (x ∷ xs) ≡ ok i)
      × (index_at (x ∷ xs) i ≡ ok h)
      × IsOwner (x ∷ xs) hash h
unfolding search wrap index_at
search_lem hash x xs asc =
    let (p, e, b) =
      bisect_lem (length (x ∷ xs) + 1) (x ∷ xs) hash 0 (length (x ∷ xs)) asc
        (record {
          ordered = omega arith;
          inside = omega arith;
          before = λ k y l ey. absurd (omega arith);
          after = λ k y l ey.
              let n = get_elem?-none (x ∷ xs) k l in let clash : none ≡ some y = sym n ∙ ey in cc;
        })
        (omega arith) in
    elim (Bool-cases (nat_beq p (length (x ∷ xs)))) [
      | inl t ↦ (
        0,
        x,
        rw (e, ◌>>=◌, t) refl,
        refl,
        Bracketed-first x xs hash p asc b ((nat_beq_iff p (length (x ∷ xs))).0 t),
      )
      | inr f ↦
          let o = b.inside in
          let (h, eh, ei) = index_at-some (x ∷ xs) p (ground arith) in
          (p, h, rw (e, ◌>>=◌, f) refl, ei, Bracketed-IsOwner (x ∷ xs) hash p h asc b eh)
    ]
