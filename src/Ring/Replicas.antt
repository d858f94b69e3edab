-- ===== src/Ring/Replicas.antt =====
-- `GetN` as a whole.
use fyer_cache.Ring.Searching.{search_lem, Ascending}
use fyer_cache.Ring.Distinct.{collect-keeps, Different, StartsWith}
use fyer_cache.Prelude.GoMap.{GoMap}
use fyer_cache.Ring.Nodes.{listed, in_range, nodes_from, get_n, collect, add_new}
use fyer_cache.Ring.{owner_in, get, out_of_fuel, node_at, Fault, Ring, index_at}
use mathlib.Core.Path.{subst}
use Prim.Native.Nat.{min}
use fyer_cache.Prelude.{if_then, if_else}
use fyer_cache.Prelude.Int.{pos}
use fyer_cache.Ring.Distinct.{StartsWith-add_new, Different-add_new}
use fyer_cache.Prelude.Str.{Str, str_equality}
use fyer_cache.Prelude.Result.{Result, ok, err, ◌>>=◌, >>=-ok}
use fyer_cache.Ring.Enough.{in_range-lt, Ends-from, AllOwn, rounds}
use fyer_cache.Prelude.{
  ℕ, zero, suc, ◌+◌, ◌*◌, ◌≤◌, ◌<◌, ◌≡◌, refl, sym, ap, ◌∙◌, ◌≢◌, inl, inr, true, false, ◌&&◌, List,
  [], ◌∷◌, arith, ltb, Bool-cases, length, take, drop, length-append, take-append-drop, length-take,
  length-drop, nat_equality,
}

length-add_new : (b : Str) (ns : List Str) → length (add_new b ns) ≤ suc (length ns)
unfolding add_new
length-add_new b ns = ground (arith, length-append ns (b ∷ []))

full_size :
    (count total n : ℕ)
    → n ≤ count
    → n ≤ total
    → (ltb n count && ltb n total) ≡ false
    → n ≡ min count total
full_size count total n p q g = ground arith

room : (count total n : ℕ) → (ltb n count && ltb n total) ≡ true → (n < count) × (n < total)
room count total n g = ground arith

module _ (count total : ℕ) (hashes : List ℕ) (m : GoMap ℕ Str) where
  collect-size :
      (fuel i : ℕ) (nodes out : List Str)
      → length nodes ≤ count
      → length nodes ≤ total
      → collect fuel count total hashes m i nodes ≡ ok out
      → length out ≡ min count total
  unfolding collect
  collect-size zero i nodes out p q done =
      elim (Bool-cases (ltb (length nodes) count && ltb (length nodes) total)) [
        | inl g ↦
            let e : ◌≡◌ {A = Result Fault (List Str)} (err out_of_fuel) (ok out) =
              sym (if_then _ _ (ok nodes) g) ∙ done in
            cc
        | inr g ↦
            let e : ◌≡◌ {A = Result Fault (List Str)} (ok nodes) (ok out) =
              sym (if_else _ _ (ok nodes) g) ∙ done in
            let same : nodes ≡ out = cc in
            ap length (sym same) ∙ full_size count total (length nodes) p q g
      ]
  collect-size (suc fuel) i nodes out p q done =
      elim (Bool-cases (ltb (length nodes) count && ltb (length nodes) total)) [
        | inl g ↦
            let e = sym (if_then _ _ (ok nodes) g) ∙ done in
            let (h, _, rest) = >>=-ok (index_at hashes (in_range (length hashes) i)) _ out e in
            let (below, below') = room count total (length nodes) g in
            let grown = length-add_new (node_at h m) nodes in
            collect-size fuel _ (add_new (node_at h m) nodes) out (omega arith) (omega arith) rest
        | inr g ↦
            let e : ◌≡◌ {A = Result Fault (List Str)} (ok nodes) (ok out) =
              sym (if_else _ _ (ok nodes) g) ∙ done in
            let same : nodes ≡ out = cc in
            ap length (sym same) ∙ full_size count total (length nodes) p q g
      ]

  collect-first :
      (fuel i h : ℕ) (out : List Str)
      → 1 ≤ count
      → 1 ≤ total
      → i < length hashes
      → index_at hashes i ≡ ok h
      → collect fuel count total hashes m i [] ≡ ok out
      → StartsWith (node_at h m) out
  unfolding collect
  collect-first zero i h out p q lt at done =
      let g : (ltb 0 count && ltb 0 total) ≡ true = ground arith in
      let e : ◌≡◌ {A = Result Fault (List Str)} (err out_of_fuel) (ok out) =
        sym (if_then _ _ (ok []) g) ∙ done in
      cc
  collect-first (suc fuel) i h out p q lt at done =
      let g : (ltb 0 count && ltb 0 total) ≡ true = ground arith in
      let e = sym (if_then _ _ (ok []) g) ∙ done in
      let (h2, at2, rest) = >>=-ok (index_at hashes (in_range (length hashes) i)) _ out e in
      let same : ◌≡◌ {A = Result Fault ℕ} (ok h2) (ok h) =
        sym at2 ∙ ap (index_at hashes) (in_range-lt (length hashes) i lt) ∙ at in
      let same_h : h2 ≡ h = cc in
      collect-keeps (StartsWith (node_at h m)) (StartsWith-add_new (node_at h m)) fuel count total
        hashes m _ (add_new (node_at h2 m) []) out
        (unfold add_new listed in ap (λ k. node_at k m) same_h) rest

index_at-lt : (hs : List ℕ) (i h : ℕ) → index_at hs i ≡ ok h → i < length hs
unfolding index_at
index_at-lt [] i h p = cc
index_at-lt (x ∷ xs) zero h p = omega arith
index_at-lt (x ∷ xs) (suc i) h p = omega (arith, index_at-lt xs i h p)

-- What `GetN` for a count of one or more gives on these hashes.
record Collected (hash count total : ℕ) (hashes : List ℕ) (m : GoMap ℕ Str) : Type 0 where
  fuel : ℕ
  out : List Str
  first : Str
  two_turns : fuel ≤ 2 * length hashes
  ends : nodes_from fuel (pos count) total hash hashes m ≡ ok out
  different : Different out
  size : length out ≡ min count total
  owner : owner_in hash hashes m ≡ ok first
  starts : StartsWith first out

rounds_length :
    (count total : ℕ) (hashes : List ℕ) (m : GoMap ℕ Str) (hs : List ℕ) (k : ℕ)
    → rounds count total hashes m hs k ≡ length hs + k
rounds_length count total hashes m [] k = omega arith
rounds_length count total hashes m (h ∷ hs) k =
    omega (arith, rounds_length count total hashes m hs k)

collected :
    (hash count total : ℕ) (hashes : List ℕ) (m : GoMap ℕ Str) (ds : List Str)
    → Ascending hashes
    → hashes ≢ []
    → 1 ≤ count
    → 1 ≤ total
    → Different ds
    → length ds ≡ total
    → AllOwn hashes m ds
    → Collected hash count total hashes m
unfolding nodes_from owner_in
collected hash count total [] m ds asc ne c w different size own = absurd (ne refl)
collected hash count zero (x ∷ xs) m ds asc ne c w different size own = absurd (omega arith)
collected hash count (suc t) (x ∷ xs) m ds asc ne c w different size own =
    let hs : List ℕ = x ∷ xs in
    let (i, h, searched, at, _) = search_lem hash x xs asc in
    let lt = index_at-lt hs i h at in
    let short : length (take i hs) ≡ i = omega (arith, length-take i hs) in
    let f = rounds count (suc t) hs m (drop i hs) (rounds count (suc t) hs m hs 0) in
    let (out, ends) =
      Ends-from count (suc t) hs m ds different own (omega arith) (take i hs) (drop i hs)
        (take-append-drop i hs) (omega (arith, length-drop i hs)) in
    let done : collect f count (suc t) hs m i [] ≡ ok out =
      subst (λ k. collect f count (suc t) hs m k [] ≡ ok out) short ends in
    record {
      fuel = f;
      out = out;
      first = node_at h m;
      two_turns = omega (
        arith,
        rounds_length count (suc t) hs m (drop i hs) (rounds count (suc t) hs m hs 0),
        rounds_length count (suc t) hs m hs 0,
        length-drop i hs,
      );
      ends =
          ap (λ r. ◌>>=◌ {B = List Str} r (λ j. collect f count (suc t) hs m j [])) searched ∙ done;
      different = collect-keeps Different Different-add_new f count (suc t) hs m i [] out tt done;
      size = collect-size count (suc t) hs m f i [] out (omega arith) (omega arith) done;
      owner =
          ap (λ r. ◌>>=◌ {B = Str} r (λ j. ◌>>=◌ {B = Str} (index_at hs j) (λ k. ok (node_at k m))))
            searched
          ∙ ap (λ r. ◌>>=◌ {B = Str} r (λ k. ok (node_at k m))) at;
      starts = collect-first count (suc t) hs m f i h out c (omega arith) lt at done;
    }

module _ (hash_func : Str → ℕ) (r : Ring) where
  -- On a ring whose hashes are sorted and not empty, and on which each of as many different nodes
  -- as there are weights owns a hash, `GetN` for a count of one or more ends within two turns. It
  -- returns different nodes, the least of the count and the number of weights in all, and the
  -- first of them is the node that `Get` returns.
  pub get_n_lem :
      (key : Str) (count : ℕ) (ds : List Str)
      → Ascending r.sorted_hashes
      → r.sorted_hashes ≢ []
      → 1 ≤ count
      → 1 ≤ length r.weights
      → Different ds
      → length ds ≡ length r.weights
      → AllOwn r.sorted_hashes r.hash_map ds
      → (fuel : ℕ) × (out : List Str) × (n : Str) × (fuel ≤ 2 * length r.sorted_hashes)
        × (get_n hash_func fuel key (pos count) r ≡ ok out)
        × Different out
        × (length out ≡ min count (length r.weights))
        × (get hash_func key r ≡ ok n)
        × StartsWith n out
  unfolding get_n get
  get_n_lem key count ds asc ne c w different size own =
      let all =
        collected (hash_func key) count (length r.weights) r.sorted_hashes r.hash_map ds asc ne c w
          different size own in
      (
        all.fuel, all.out, all.first, all.two_turns, all.ends, all.different, all.size, all.owner,
        all.starts,
      )
