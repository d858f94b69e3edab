-- ===== src/Prelude/GoArray.antt =====
-- A Go slice of fixed length, as its length and its contents. An access out of range panics.
use fyer_cache.Prelude.{ℕ, ◌<◌, ◌≡◌, ltb, nat_beq, if◌then◌else◌, lt→ltb, nat_equality}
use fyer_cache.Prelude.Result.{Result, ok, panic}

pub record GoArray {ℓ} (A : Type ℓ) : Type ℓ where
  pub size : ℕ
  pub at : ℕ → A

-- A map from addresses, changed at one of them.
abbrev pub update {ℓ} : {A : Type ℓ} → (ℕ → A) → ℕ → A → ℕ → A
update f a x b = if nat_beq b a then x else f b

module _ {ℓ} {A : Type ℓ} where
  -- `make([]A, n)`
  unfoldable pub make : ℕ → A → GoArray A
  make n x = record { size = n; at = λ _. x }

  module _ {κ} {E : Type κ} where
    unfoldable pub read : ℕ → GoArray A → Result E A
    read i arr = if ltb i arr.size then ok (arr.at i) else panic

    unfoldable pub write : ℕ → A → GoArray A → Result E (GoArray A)
    write i x arr = if ltb i arr.size then ok (record arr { at = update arr.at i x }) else panic

    pub read_lem : (i : ℕ) (arr : GoArray A) → i < arr.size → read i arr ≡ ok (arr.at i)
    unfolding read
    read_lem i arr h = rw (lt→ltb _ _ h)

    pub write_lem :
        (i : ℕ) (x : A) (arr : GoArray A)
        → i < arr.size
        → write i x arr ≡ ok (record arr { at = update arr.at i x })
    unfolding write
    write_lem i x arr h = rw (lt→ltb _ _ h)
