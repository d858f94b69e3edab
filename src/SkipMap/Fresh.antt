-- ===== src/SkipMap/Fresh.antt =====
-- cache/skipmap.go: `NewSkipShardedMap`.
use fyer_cache.Prelude.{
  ℕ, zero, suc, ◌+◌, ◌*◌, ◌≤◌, ◌≡◌, refl, sym, ap, inl, inr, some, [], arith, leb, leb→le,
  Bool-cases, length, get_elem?, replicate, nat_equality,
}
use fyer_cache.Prelude.Str.{str_equality}
use fyer_cache.Prelude.Int.{ℤ, pos, negsuc}
use fyer_cache.SkipList.{SkipList, new_skip_list}
use fyer_cache.SkipList.Traversal.{new_skip_list-Models}
use fyer_cache.SkipMap.{new_skip_sharded_map, shards_for, round_up}
use fyer_cache.SkipMap.Counting.{Counted, total}

round_up_le : (fuel p n : ℕ) → p ≤ round_up fuel p n
unfolding round_up
round_up_le zero p n = omega arith
round_up_le (suc fuel) p n = let rest = round_up_le fuel (2 * p) n in ground arith

-- With rounds enough the result is no smaller than what was asked for.
round_up-enough : (fuel p n : ℕ) → n ≤ p + fuel → 1 ≤ p → n ≤ round_up fuel p n
unfolding round_up
round_up-enough zero p n h l = omega arith
round_up-enough (suc fuel) p n h l =
    let rest = round_up-enough fuel (2 * p) n (omega arith) (omega arith) in
    elim (Bool-cases (leb n p)) [ inl t ↦ rw t (leb→le n p t) | inr f ↦ rw f rest ]

shards_for_pos : (n : ℤ) → 1 ≤ shards_for n
unfolding shards_for
shards_for_pos (pos zero) = omega arith
shards_for_pos (negsuc n) = omega arith
shards_for_pos (pos (suc n)) = round_up_le (suc n) 1 (suc n)

length-replicate {ℓ} : {A : Type ℓ} (n : ℕ) (a : A) → length (replicate n a) ≡ n
length-replicate zero a = refl
length-replicate (suc n) a = ap suc (length-replicate n a)

get_elem?-replicate {ℓ} :
    {A : Type ℓ} (n i : ℕ) (a b : A) → get_elem? (replicate n a) i ≡ some b → a ≡ b
get_elem?-replicate zero i a b e = cc
get_elem?-replicate (suc n) zero a b e = cc
get_elem?-replicate (suc n) (suc i) a b e = get_elem?-replicate n i a b e

-- The number of shards, for a positive number asked for, is no smaller than this number.
pub shards_for-enough : (n : ℕ) → suc n ≤ shards_for (pos (suc n))
unfolding shards_for
shards_for-enough n = round_up-enough (suc n) 1 (suc n) (omega arith) (omega arith)

total-empty : (V : Type 0) (n : ℕ) → total {V = V} n (λ _. []) ≡ zero
total-empty V zero = refl
total-empty V (suc n) = let rest = total-empty V n in omega arith

module _ {V : Type 0} where
  -- A new map is well-formed, empty and counts nothing.
  pub new_skip_sharded_map-Counted : (n : ℤ) → Counted {V = V} (new_skip_sharded_map n) (λ _. [])
  unfolding new_skip_sharded_map
  new_skip_sharded_map-Counted n = record {
    holding = record {
      shard_models = λ i s e.
          let same = get_elem?-replicate (shards_for n) i new_skip_list s e in
          rw (← same) new_skip_list-Models;
      in_range =
          let size = length-replicate {A = SkipList V} (shards_for n) new_skip_list in
          let some_shard = shards_for_pos n in omega arith;
    };
    tally = sym (total-empty V (length (replicate (shards_for n) (new_skip_list {V = V}))));
  }
