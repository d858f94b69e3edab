-- ===== src/SkipMap/Visits.antt =====
-- What `Range` visits.
use fyer_cache.SkipList.{Fault}
use fyer_cache.SkipList.Lookup.{Models}
use fyer_cache.Prelude.Str.{Str}
use fyer_cache.SkipMap.{shard_at, SkipShardedMap}
use fyer_cache.SkipMap.Ranges.{
  unless_stopped, range_all, visit_entries, visit_shards, append_entry, snapshot,
}
use fyer_cache.Prelude.GoMap.{GoMap}
use fyer_cache.SkipList.{SkipList}
use fyer_cache.SkipList.Traversal.{visit_all, for_each-Models}
use fyer_cache.SkipMap.Shards.{Holding}
use fyer_cache.Prelude.Result.{Result, ok, ◌>>=◌}
use fyer_cache.Prelude.{
  ℕ, zero, suc, ◌+◌, ◌≤◌, ◌≡◌, refl, sym, ap, ◌∙◌, Bool, true, false, Option, some, List, [], ◌∷◌,
  ◌++◌, map, append_assoc, append-nil, arith, if◌then◌else◌, length, get_elem?, get_elem?-some,
  nat_equality,
}

shard_at-some {ℓ} :
    {A : Type ℓ} (i : ℕ) (xs : List A) (a : A) → get_elem? xs i ≡ some a → shard_at i xs ≡ ok a
unfolding shard_at
shard_at-some i xs a p = rw (shard_at, p) refl

module _ {V : Type 0} where
  abbrev entries_of : GoMap Str V → List (Str × Option V)
  entries_of m = map (λ e. (e.0, some e.1)) m

  visit_all-append_entry :
      (m : GoMap Str V) (acc : List (Str × Option V))
      → visit_all append_entry m acc ≡ acc ++ entries_of m
  unfolding visit_all
  visit_all-append_entry [] acc = sym (append-nil acc)
  visit_all-append_entry ((k, v) ∷ m) acc =
      visit_all-append_entry m (acc ++ (k, some v) ∷ [])
      ∙ append_assoc acc ((k, some v) ∷ []) (entries_of m)

  snapshot_lem : (s : SkipList V) (m : GoMap Str V) → Models s m → snapshot s ≡ ok (entries_of m)
  unfolding snapshot
  snapshot_lem s m r = for_each-Models append_entry s m [] r ∙ ap ok (visit_all-append_entry m [])

  module _ {S : Type 0} (c : ℕ → GoMap Str V) (g : Str → V → S → S) where
    abbrev pub fold_entries : GoMap Str V → S → S
    fold_entries [] acc = acc
    fold_entries ((k, v) ∷ m) acc = fold_entries m (g k v acc)

    -- The entries of `n` shards, from the one at `i` on.
    abbrev pub fold_shards : ℕ → ℕ → S → S
    fold_shards zero i acc = acc
    fold_shards (suc n) i acc = fold_shards n (suc i) (fold_entries (c i) acc)

  module _ {S : Type 0} (sm : SkipShardedMap V) (c : ℕ → GoMap Str V) (g : Str → V → S → S)
      (f : Str → Option V → S → Result Fault (S × Bool)) where
    -- A callback that has this effect on the entries that are there, and never stops.
    abbrev pub Steady : Type 0
    Steady = (k : Str) (v : V) (acc : S) → f k (some v) acc ≡ ok (g k v acc, true)

    visit_entries_lem :
        (m : GoMap Str V) (acc : S)
        → Steady
        → visit_entries (λ x. sm) f (entries_of m) acc ≡ ok (fold_entries c g m acc, true)
    unfolding visit_entries
    visit_entries_lem [] acc steady = refl
    visit_entries_lem ((k, v) ∷ m) acc steady =
        ap
          (λ r.
            ◌>>=◌ {B = S × Bool} r
              (λ o. if o.1 then visit_entries (λ x. sm) f (entries_of m) o.0 else ok (o.0, false)))
          (steady k v acc)
        ∙ visit_entries_lem m (g k v acc) steady

    visit_shards_lem :
        (n i : ℕ) (acc : S)
        → Holding sm c
        → i + n ≤ length sm.shards
        → Steady
        → visit_shards (λ x. sm) f n i acc ≡ ok (fold_shards c g n i acc)
    unfolding visit_shards unless_stopped
    visit_shards_lem zero i acc h le steady = refl
    visit_shards_lem (suc n) i acc h le steady =
        let (s, found) = get_elem?-some sm.shards i (omega arith) in
        let next = unless_stopped (visit_shards (λ x. sm) f n (suc i)) in
        ap
          (λ r. ◌>>=◌ {B = S} r (λ shard.
            ◌>>=◌ {B = S} (snapshot shard)
              (λ es. ◌>>=◌ {B = S} (visit_entries (λ x. sm) f es acc) next)))
          (shard_at-some i sm.shards s found)
        ∙ ap (λ r. ◌>>=◌ {B = S} r (λ es. ◌>>=◌ {B = S} (visit_entries (λ x. sm) f es acc) next))
            (snapshot_lem s (c i) (h.shard_models i s found))
        ∙ ap (λ r. ◌>>=◌ {B = S} r next) (visit_entries_lem (c i) acc steady)
        ∙ visit_shards_lem n (suc i) (fold_entries c g (c i) acc) h (omega arith) steady

    -- On a map whose shards are well-formed and as many as its count, `Range` with a callback that
    -- leaves the map and never stops ends without a panic, having visited every entry of every
    -- shard, the shards in order and the entries of a shard in the order of the keys.
    pub range_all-visits :
        (acc : S)
        → Holding sm c
        → sm.count ≤ length sm.shards
        → Steady
        → range_all (λ x. sm) f acc ≡ ok (fold_shards c g sm.count 0 acc)
    unfolding range_all
    range_all-visits acc h le steady = visit_shards_lem sm.count 0 acc h (omega arith) steady
