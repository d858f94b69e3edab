-- ===== src/Prelude/GoMap.antt =====
-- A Go map as an association list with each key once. Go's iteration order is unspecified; code
-- that ranges over a map takes the order of this list.
use fyer_cache.Prelude.{false, true}
use mathlib.Core.Path.{◌≡◌, refl}
use mathlib.Core.List.{List, [], ◌∷◌}
use mathlib.Core.Option.{Option, none, some}
use native.Mathlib.Omega.{arith}
use fyer_cache.Prelude.Tests.{if◌then◌else◌}
use fyer_cache.Prelude.Eq.{Equality, ◌==◌}

abbrev pub GoMap {ℓ κ} : Type ℓ → Type κ → Type (ℓ ⊔ κ)
GoMap K V = List (K × V)

module _ {ℓ κ} {K : Type ℓ} {V : Type κ} ⦃e : Equality K⦄ where
  -- `m[k]` with its `ok`
  unfoldable pub lookup : K → GoMap K V → Option V
  lookup key [] = none
  lookup key ((old, value) ∷ rest) = if old == key then some value else lookup key rest

  -- `m[k] = v`
  unfoldable pub insert : K → V → GoMap K V → GoMap K V
  insert key new [] = (key, new) ∷ []
  insert key new ((old, value) ∷ rest) =
      if old == key then (old, new) ∷ rest else (old, value) ∷ insert key new rest

  -- `delete(m, k)`
  unfoldable pub delete : K → GoMap K V → GoMap K V
  delete key [] = []
  delete key ((old, value) ∷ rest) =
      if old == key then delete key rest else (old, value) ∷ delete key rest

  pub lookup-insert :
      (k j : K) (new : V) (m : GoMap K V)
      → lookup j (insert k new m) ≡ (if k == j then some new else lookup j m)
  unfolding lookup insert
  lookup-insert k j new [] = refl
  lookup-insert k j new ((old, value) ∷ rest) =
      ground (arith, lookup-insert k j new rest, e.beq_iff old k, e.beq_iff old j, e.beq_iff k j)

  pub lookup-delete :
      (k j : K) (m : GoMap K V) → lookup j (delete k m) ≡ (if k == j then none else lookup j m)
  unfolding lookup delete
  lookup-delete k j [] = ground arith
  lookup-delete k j ((old, value) ∷ rest) =
      ground (arith, lookup-delete k j rest, e.beq_iff old k, e.beq_iff old j, e.beq_iff k j)

  pub lookup-delete_kept :
      (k j : K) (m : GoMap K V) (v : V)
      → lookup j (delete k m) ≡ some v
      → ((k == j) ≡ false) × (lookup j m ≡ some v)
  lookup-delete_kept k j m v h = ground (arith, lookup-delete k j m)

  pub lookup-delete_ne :
      (k j : K) (m : GoMap K V) → (k == j) ≡ false → lookup j (delete k m) ≡ lookup j m
  lookup-delete_ne k j m h = ground (arith, lookup-delete k j m)

  pub lookup-insert_ne :
      (k j : K) (v : V) (m : GoMap K V) → (k == j) ≡ false → lookup j (insert k v m) ≡ lookup j m
  lookup-insert_ne k j v m h = ground (arith, lookup-insert k j v m)

  pub lookup-insert_eq :
      (k j : K) (v : V) (m : GoMap K V) → (k == j) ≡ true → lookup j (insert k v m) ≡ some v
  lookup-insert_eq k j v m h = ground (arith, lookup-insert k j v m)
