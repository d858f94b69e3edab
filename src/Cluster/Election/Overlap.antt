-- ===== src/Cluster/Election/Overlap.antt =====
-- Two lists of distinct names with more than half of the names each: they have one in common. The
-- majorities of cache/cluster/election.go.
use fyer_cache.Prelude.{
  ◌+◌, ◌/◌, ◌≤◌, ◌≡◌, refl, sym, ◌∙◌, ◌⊎◌, inl, inr, Bool, true, false, List, [], ◌∷◌, ◌++◌, arith,
  if◌then◌else◌, Bool-cases, length, length-append, nat_equality,
}
use mathlib.Core.List.{Memᴰ}
use mathlib.Core.List.Memᴰ
use fyer_cache.Prelude.Str.{Str, str_equality}
use fyer_cache.Prelude.Str

-- No name twice.
abbrev pub Distinct : List Str → Type 0
Distinct [] = Unit
Distinct (x ∷ xs) = (Memᴰ x xs → ⊥) × Distinct xs

without : Str → List Str → List Str
without x [] = []
without x (y ∷ ys) = if Str.eq y x then ys else y ∷ without x ys

length-without : (x : Str) (ys : List Str) → Memᴰ x ys → length (without x ys) + 1 ≡ length ys
unfolding without
length-without x [] m = elim m [ ]
length-without x (y ∷ ys) m = elim (Bool-cases (Str.eq y x)) [
  | inl t ↦ rw t (omega arith)
  | inr f ↦ elim (Memᴰ.cases_cons m) [
    | inl e ↦ let same = (Str.eq_iff y x).1 (sym e) in cc
    | inr k ↦ let rest = length-without x ys k in rw f (omega arith)
  ]
]

Mem-without : (x z : Str) (ys : List Str) → Memᴰ z ys → (z ≡ x → ⊥) → Memᴰ z (without x ys)
unfolding without
Mem-without x z [] m n = elim m [ ]
Mem-without x z (y ∷ ys) m n = elim (Bool-cases (Str.eq y x)) [
  | inl t ↦ elim (Memᴰ.cases_cons m) [
    | inl e ↦ absurd (n (e ∙ (Str.eq_iff y x).0 t))
    | inr k ↦ rw t k
  ]
  | inr f ↦ elim (Memᴰ.cases_cons m) [
    | inl e ↦ rw f (Memᴰ.head e)
    | inr k ↦ rw f (Memᴰ.tail (Mem-without x z ys k n))
  ]
]

-- Distinct names among some others are no more than those.
Distinct-length :
    (zs ids : List Str)
    → Distinct zs
    → ((z : Str) → Memᴰ z zs → Memᴰ z ids)
    → length zs ≤ length ids
Distinct-length [] ids d all = omega arith
Distinct-length (z ∷ zs) ids d all =
    let fewer = length-without z ids (all z (Memᴰ.head refl)) in
    let rest =
      Distinct-length zs (without z ids) d.1
        (λ y m. Mem-without z y ids (all y (Memᴰ.tail m)) (λ e. d.0 (rw (← e) m))) in
    omega arith

member : Str → List Str → Bool
member x [] = false
member x (y ∷ ys) = if Str.eq y x then true else member x ys

member-Mem : (x : Str) (ys : List Str) → member x ys ≡ true → Memᴰ x ys
unfolding member
member-Mem x [] e = cc
member-Mem x (y ∷ ys) e = elim (Bool-cases (Str.eq y x)) [
  | inl t ↦ Memᴰ.head (sym ((Str.eq_iff y x).0 t))
  | inr f ↦ Memᴰ.tail (member-Mem x ys (rw f at e))
]

Mem-member : (x : Str) (ys : List Str) → member x ys ≡ false → Memᴰ x ys → ⊥
unfolding member
Mem-member x [] e m = elim m [ ]
Mem-member x (y ∷ ys) e m = elim (Bool-cases (Str.eq y x)) [
  | inl t ↦ let f : true ≡ false = rw t at e in cc
  | inr f ↦ elim (Memᴰ.cases_cons m) [
    | inl s ↦ let t = (Str.eq_iff y x).1 (sym s) in cc
    | inr k ↦ Mem-member x ys (rw f at e) k
  ]
]

-- Two lists have a common name, or together no name twice.
common-or-Distinct :
    (us vs : List Str)
    → Distinct us
    → Distinct vs
    → ((x : Str) × Memᴰ x us × Memᴰ x vs) ⊎ Distinct (us ++ vs)
common-or-Distinct [] vs d e = inr e
common-or-Distinct (u ∷ us) vs d e = elim (Bool-cases (member u vs)) [
  | inl t ↦ inl (u, Memᴰ.head refl, member-Mem u vs t)
  | inr f ↦ elim (common-or-Distinct us vs d.1 e) [
    | inl (x, m, n) ↦ inl (x, Memᴰ.tail m, n)
    | inr rest ↦
        inr (
          (λ m. elim (Memᴰ.append_cases us m) [ inl k ↦ d.0 k | inr k ↦ Mem-member u vs f k ]),
          rest,
        )
  ]
]

pub quorum_overlap :
    (us vs ids : List Str)
    → Distinct us
    → Distinct vs
    → ((x : Str) → Memᴰ x us → Memᴰ x ids)
    → ((x : Str) → Memᴰ x vs → Memᴰ x ids)
    → length ids / 2 + 1 ≤ length us
    → length ids / 2 + 1 ≤ length vs
    → (x : Str) × Memᴰ x us × Memᴰ x vs
quorum_overlap us vs ids d e inU inV nu nv = elim (common-or-Distinct us vs d e) [
  | inl common ↦ common
  | inr all ↦
      let few =
        Distinct-length (us ++ vs) ids all
          (λ z m. elim (Memᴰ.append_cases us m) [ inl k ↦ inU z k | inr k ↦ inV z k ]) in
      let sum = length-append us vs in absurd (omega arith)
]
