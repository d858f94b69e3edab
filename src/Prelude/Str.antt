-- ===== src/Prelude/Str.antt =====
-- Go strings as lists of bytes: the equality test, and the lexicographic order of `<`.
use Prim.Native.Nat.{ℕ}
use Prim.Native.Char.{code}
use Prim.Native.String.{String}
use mathlib.Core.Path.{◌≡◌, refl}
use mathlib.Core.Logic.{◌↔◌}
use mathlib.Core.Bool.{Bool, true, false, ◌&&◌}
use mathlib.Core.List.{List, [], ◌∷◌}
use native.Mathlib.Omega.{arith}
use fyer_cache.Prelude.Tests.{ltb, nat_beq, if◌then◌else◌}
use fyer_cache.Prelude.Eq.{Equality}

abbrev pub Str : Type 0
Str = List ℕ

-- The bytes of an ASCII literal.
abbrev pub bytes : String → Str
bytes String.[] = []
bytes (String.◌∷◌ c s) = code c ∷ bytes s

unfoldable pub eq : Str → Str → Bool
eq [] [] = true
eq [] (y ∷ ys) = false
eq (x ∷ xs) [] = false
eq (x ∷ xs) (y ∷ ys) = nat_beq x y && eq xs ys

unfoldable pub lt : Str → Str → Bool
lt [] [] = false
lt [] (y ∷ ys) = true
lt (x ∷ xs) [] = false
lt (x ∷ xs) (y ∷ ys) = if ltb x y then true else if ltb y x then false else lt xs ys

eq-true : (a b : Str) → eq a b ≡ true → a ≡ b
unfolding eq
eq-true [] [] h = refl
eq-true [] (y ∷ ys) h = cc
eq-true (x ∷ xs) [] h = cc
eq-true (x ∷ xs) (y ∷ ys) h = ground (arith, eq-true xs ys)

eq_self : (a : Str) → eq a a ≡ true
unfolding eq
eq_self [] = refl
eq_self (x ∷ xs) = ground (arith, eq_self xs)

pub eq_iff : (a b : Str) → (eq a b ≡ true) ↔ (a ≡ b)
eq_iff a b = (eq-true a b, λ e. rw e (eq_self b))

instance abbrev pub str_equality : Equality Str
str_equality = record { beq = eq; beq_iff = eq_iff }

-- `lt` is a strict total order.
pub lt_irrefl : (a : Str) → lt a a ≡ false
unfolding lt
lt_irrefl [] = refl
lt_irrefl (x ∷ xs) = ground (arith, lt_irrefl xs)

pub lt_trans : (a b c : Str) → lt a b ≡ true → lt b c ≡ true → lt a c ≡ true
unfolding lt
lt_trans [] [] [] h k = cc
lt_trans [] (y ∷ ys) [] h k = cc
lt_trans [] b (z ∷ zs) h k = refl
lt_trans (x ∷ xs) [] c h k = cc
lt_trans (x ∷ xs) (y ∷ ys) [] h k = cc
lt_trans (x ∷ xs) (y ∷ ys) (z ∷ zs) h k = ground (arith, lt_trans xs ys zs)

pub lt_connex : (a b : Str) → lt a b ≡ false → lt b a ≡ false → a ≡ b
unfolding lt
lt_connex [] [] h k = refl
lt_connex [] (y ∷ ys) h k = cc
lt_connex (x ∷ xs) [] h k = cc
lt_connex (x ∷ xs) (y ∷ ys) h k = ground (arith, lt_connex xs ys)
