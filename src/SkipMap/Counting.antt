-- ===== src/SkipMap/Counting.antt =====
-- cache/skipmap.go: the item count is the number of entries.
use fyer_cache.Prelude.{
  ℕ, zero, suc, ◌+◌, ◌≤◌, ◌<◌, ◌≡◌, refl, inl, inr, Bool, true, false, Option, none, some, [], ◌∷◌,
  arith, nat_beq, if◌then◌else◌, nat_beq_iff, Bool-cases, length, nat_equality, beq_ne,
}
use fyer_cache.Prelude.Str.{Str, str_equality}
use fyer_cache.Prelude.Str
use fyer_cache.Prelude.GoMap.{GoMap, lookup, delete as delete_entry}
use fyer_cache.Prelude.Result.{ok}
use fyer_cache.SkipList.Chain.{All-map}
use fyer_cache.SkipList.Lookup.{found}
use fyer_cache.SkipList.Ordered.{insert_ordered, Ascending, lookup-absent}
use fyer_cache.Prelude.{is_some}
use fyer_cache.SkipList.Rereads.{Models-Ascending}
use fyer_cache.SkipMap.{SkipShardedMap, shard_index, store, delete_key, one_more, one_less}
use fyer_cache.SkipMap.Shards.{
  Holding, own_shard, store_lem, delete_lem, own_entries, at_shard, index-in_range,
}

suc-if : (b : Bool) (n : ℕ) → suc (if b then n else suc n) ≡ (if b then suc n else suc (suc n))
suc-if true n = refl
suc-if false n = refl

suc-if_suc : (b : Bool) (n : ℕ) → suc (if b then suc n else n) ≡ (if b then suc (suc n) else suc n)
suc-if_suc true n = refl
suc-if_suc false n = refl

found-is_some : {V : Type 0} (o : Option V) → (found o).1 ≡ is_some o
found-is_some none = refl
found-is_some (some v) = refl

module _ {V : Type 0} where
  -- The number of entries of the first shards.
  abbrev pub total : ℕ → (ℕ → GoMap Str V) → ℕ
  total zero c = 0
  total (suc n) c = length (c n) + total n c

  total-outside :
      (n i : ℕ) (m : GoMap Str V) (c : ℕ → GoMap Str V)
      → n ≤ i
      → total n (at_shard i m c) ≡ total n c
  unfolding at_shard
  total-outside zero i m c l = refl
  total-outside (suc n) i m c l =
      let rest = total-outside n i m c (omega arith) in
      let differ : nat_beq i n ≡ false = ground arith in rw (differ, rest) refl

  total-at_shard :
      (n i : ℕ) (m : GoMap Str V) (c : ℕ → GoMap Str V)
      → i < n
      → total n (at_shard i m c) + length (c i) ≡ total n c + length m
  unfolding at_shard
  total-at_shard zero i m c l = absurd (omega arith)
  total-at_shard (suc n) i m c l = elim (Bool-cases (nat_beq i n)) [
    | inl t ↦
        let same : i ≡ n = (nat_beq_iff i n).0 t in
        let rest = total-outside n i m c (omega arith) in rw (t, rest, same) (omega arith)
    | inr f ↦ let rest = total-at_shard n i m c (ground arith) in rw f (omega arith)
  ]

  delete-absent : (k : Str) (m : GoMap Str V) → lookup k m ≡ none → delete_entry k m ≡ m
  unfolding lookup delete_entry
  delete-absent k [] e = refl
  delete-absent k ((j, w) ∷ m) e = elim (Bool-cases (Str.eq j k)) [
    | inl t ↦ let clash : some w ≡ none = (rw t at e) in cc
    | inr f ↦ rw (f, delete-absent k m (rw f at e)) refl
  ]

  length-insert_ordered :
      (k : Str) (v : V) (m : GoMap Str V)
      → Ascending m
      → length (insert_ordered k v m) ≡ (if is_some (lookup k m) then length m else suc (length m))
  unfolding lookup insert_ordered
  length-insert_ordered k v [] a = refl
  length-insert_ordered k v ((j, w) ∷ m) a = elim (Bool-cases (Str.lt j k)) [
    | inl t ↦
        let differ : Str.eq j k ≡ false = beq_ne j k (λ e. cc (Str.lt_irrefl k, t, e)) in
        let rest = length-insert_ordered k v m a.1 in
        rw (t, differ, rest) (suc-if (is_some (lookup k m)) (length m))
    | inr f ↦ elim (Bool-cases (Str.eq j k)) [
      | inl t ↦ rw (f, t) refl
      | inr g ↦
          let before : Str.lt k j ≡ true = elim (Bool-cases (Str.lt k j)) [
            | inl t ↦ t
            | inr h ↦ let same = (Str.eq_iff j k).1 (Str.lt_connex j k f h) in cc
          ] in
          let gone = lookup-absent k m (
            All-map {P = λ e. Str.lt j e.0 ≡ true} {Q = λ e. Str.lt k e.0 ≡ true}
              (λ e l. Str.lt_trans k j e.0 before l) m a.0) in
          rw (f, g, gone) refl
    ]
  ]

  length-delete :
      (k : Str) (m : GoMap Str V)
      → Ascending m
      → length m ≡ (
          if is_some (lookup k m)
          then suc (length (delete_entry k m))
          else length (delete_entry k m))
  unfolding lookup delete_entry
  length-delete k [] a = refl
  length-delete k ((j, w) ∷ m) a = elim (Bool-cases (Str.eq j k)) [
    | inl t ↦
        let same : j ≡ k = (Str.eq_iff j k).0 t in
        let gone = lookup-absent k m (rw same at a.0) in rw (t, delete-absent k m gone) refl
    | inr f ↦
        rw (f, length-delete k m a.1)
          (suc-if_suc (is_some (lookup k m)) (length (delete_entry k m)))
  ]

  -- The shards are well-formed, and the counter is the number of their entries.
  pub record Counted (sm : SkipShardedMap V) (c : ℕ → GoMap Str V) : Type 0 where
    pub holding : Holding sm c
    pub tally : sm.item_count ≡ total (length sm.shards) c

  own-Ascending :
      (sm : SkipShardedMap V) (c : ℕ → GoMap Str V) (k : Str)
      → Holding sm c
      → Ascending (c (shard_index k sm.mask))
  own-Ascending sm c k h = let (s, _, _, m) = own_shard sm c k h in Models-Ascending s _ m

  -- On a map that is well-formed and counts its entries, below 2^63 - 1 of them, `Store` leaves
  -- such a map.
  pub store-Counted :
      (flips : ℕ → Bool) (k : Str) (v : V) (sm : SkipShardedMap V) (c : ℕ → GoMap Str V)
      → Counted sm c
      → sm.item_count + 1 < 9223372036854775808
      → (sm' : SkipShardedMap V) × (store flips k v sm ≡ ok sm')
        × Counted sm' (own_entries k (insert_ordered k v) sm.mask c)
  unfolding own_entries one_more
  store-Counted flips k v sm c h small =
      let (sm', run, mask, h', size, n) = store_lem flips k v sm c h.holding in
      let i = shard_index k sm.mask in
      let sum =
        total-at_shard (length sm.shards) i (insert_ordered k v (c i)) c
          (index-in_range sm c k h.holding) in
      let longer = length-insert_ordered k v (c i) (own-Ascending sm c k h.holding) in
      let same = found-is_some (lookup k (c i)) in
      let was = h.tally in
      (
        sm',
        run,
        record {
          holding = h';
          tally =
              rw (n, size, same)
                (elim (Bool-cases (is_some (lookup k (c i)))) [
                  | inl t ↦ let longer' = rw t at longer in rw t (omega arith)
                  | inr f ↦ let longer' = rw f at longer in rw f (omega arith)
                ]);
        },
      )

  -- On a map that is well-formed and counts its entries, fewer than 2^63, `Delete` leaves such a
  -- map.
  pub delete_key-Counted :
      (k : Str) (sm : SkipShardedMap V) (c : ℕ → GoMap Str V)
      → Counted sm c
      → sm.item_count < 9223372036854775808
      → (sm' : SkipShardedMap V) × (delete_key k sm ≡ ok sm')
        × Counted sm' (own_entries k (delete_entry k) sm.mask c)
  unfolding own_entries one_less
  delete_key-Counted k sm c h small =
      let (sm', run, mask, h', size, n) = delete_lem k sm c h.holding in
      let i = shard_index k sm.mask in
      let sum =
        total-at_shard (length sm.shards) i (delete_entry k (c i)) c
          (index-in_range sm c k h.holding) in
      let shorter = length-delete k (c i) (own-Ascending sm c k h.holding) in
      let was = h.tally in
      (
        sm',
        run,
        record {
          holding = h';
          tally =
              rw (n, size)
                (elim (Bool-cases (is_some (lookup k (c i)))) [
                  | inl t ↦ let shorter' = rw t at shorter in rw t (omega arith)
                  | inr f ↦ let shorter' = rw f at shorter in rw f (omega arith)
                ]);
        },
      )
