-- ===== src/Ring/Enough.antt =====
-- The loop of `GetN` ends: after two turns of the ring it has met every owner.
use fyer_cache.Ring.Distinct.{different_sym, listed-append, if_false, Different}
use fyer_cache.Prelude.GoMap.{GoMap}
use fyer_cache.Ring.Nodes.{in_range, collect, add_new, listed}
use fyer_cache.Prelude.Str
use fyer_cache.Prelude.{if_then, if_else}
use fyer_cache.Ring.{contains, index_at, out_of_fuel, node_at}
use mathlib.Core.Path.{subst}
use native.Mathlib.Nat.{mod_self, mod-eq_of_lt}
use fyer_cache.Prelude.Str.{Str, str_equality}
use fyer_cache.Prelude.Result.{ok, err, ◌>>=◌}
use fyer_cache.Prelude.{
  ℕ, zero, suc, ◌+◌, ◌%◌, ◌≤◌, ◌<◌, ◌≡◌, refl, sym, ap, ◌∙◌, inl, inr, Bool, true, false, ◌&&◌,
  some, List, [], ◌∷◌, ◌++◌, append_assoc, append-nil, arith, ltb, nat_beq, if◌then◌else◌,
  Bool-cases, length, get_elem?, length-append, nat_equality,
}

-- Each of the first nodes is among the second.
abbrev pub AllListed : List Str → List Str → Type 0
AllListed [] ns = Unit
AllListed (d ∷ ds) ns = (listed d ns ≡ true) × AllListed ds ns

take_out : Str → List Str → List Str
take_out d [] = []
take_out d (n ∷ ns) = if Str.eq n d then ns else n ∷ take_out d ns

length-take_out :
    (d : Str) (ns : List Str) → listed d ns ≡ true → length ns ≡ suc (length (take_out d ns))
unfolding listed take_out
length-take_out d [] p = cc
length-take_out d (n ∷ ns) p = ground (arith, length-take_out d ns)

listed-take_out :
    (d e : Str) (ns : List Str)
    → Str.eq d e ≡ false
    → listed e ns ≡ true
    → listed e (take_out d ns) ≡ true
unfolding listed take_out
listed-take_out d e [] ne p = cc
listed-take_out d e (n ∷ ns) ne p = ground (
  arith,
  listed-take_out d e ns ne,
  str_equality.beq_iff n d,
  str_equality.beq_iff n e,
  str_equality.beq_iff d e,
)

AllListed-take_out :
    (d : Str) (ds ns : List Str)
    → listed d ds ≡ false
    → AllListed ds ns
    → AllListed ds (take_out d ns)
unfolding listed
AllListed-take_out d [] ns p a = tt
AllListed-take_out d (e ∷ ds) ns p a =
    let split = if_false (Str.eq e d) (listed d ds) p in
    (listed-take_out d e ns (different_sym e d split.0) a.0, AllListed-take_out d ds ns split.1 a.1)

-- Different nodes that are all in a list are no more than its length.
length_le : (ds ns : List Str) → Different ds → AllListed ds ns → length ds ≤ length ns
length_le [] ns d a = omega arith
length_le (d ∷ ds) ns dd a =
    let rest = length_le ds (take_out d ns) dd.1 (AllListed-take_out d ds ns dd.0 a.1) in
    omega (arith, length-take_out d ns a.0)

listed-add_new_self : (n : Str) (ns : List Str) → listed n (add_new n ns) ≡ true
unfolding add_new
listed-add_new_self n ns = ground (arith, listed-append n n ns, (str_equality.beq_iff n n).1 refl)

listed-add_new : (n b : Str) (ns : List Str) → listed n ns ≡ true → listed n (add_new b ns) ≡ true
unfolding add_new
listed-add_new n b ns p = ground (arith, listed-append n b ns)

pub in_range-lt : (n i : ℕ) → i < n → in_range n i ≡ i
unfolding in_range
in_range-lt n i h = ground arith

index_at-some : (hs : List ℕ) (i h : ℕ) → get_elem? hs i ≡ some h → index_at hs i ≡ ok h
unfolding index_at
index_at-some hs i h p = ground (arith, p)

get_elem?-middle : (pre suf : List ℕ) (h : ℕ) → get_elem? (pre ++ h ∷ suf) (length pre) ≡ some h
get_elem?-middle [] suf h = refl
get_elem?-middle (x ∷ pre) suf h = get_elem?-middle pre suf h

-- Each of the nodes owns one of the hashes.
abbrev pub AllOwn : List ℕ → GoMap ℕ Str → List Str → Type 0
AllOwn hashes m [] = Unit
AllOwn hashes m (d ∷ ds) =
    ((h : ℕ) × (contains h hashes ≡ true) × (node_at h m ≡ d)) × AllOwn hashes m ds

module _ (count total : ℕ) (hashes : List ℕ) (m : GoMap ℕ Str) where
  -- The owners of these hashes are all in the list.
  abbrev Covered : List ℕ → List Str → Type 0
  Covered [] ns = Unit
  Covered (h ∷ hs) ns = (listed (node_at h m) ns ≡ true) × Covered hs ns

  Covered-add_new :
      (hs : List ℕ) (b : Str) (ns : List Str) → Covered hs ns → Covered hs (add_new b ns)
  Covered-add_new [] b ns c = tt
  Covered-add_new (h ∷ hs) b ns c =
      (listed-add_new (node_at h m) b ns c.0, Covered-add_new hs b ns c.1)

  abbrev pub Ends : ℕ → ℕ → List Str → Type 0
  Ends fuel i ns = (out : List Str) × (collect fuel count total hashes m i ns ≡ ok out)

  guard : List Str → Bool
  guard ns = ltb (length ns) count && ltb (length ns) total

  Ends-full : (fuel i : ℕ) (ns : List Str) → guard ns ≡ false → Ends fuel i ns
  unfolding collect guard
  Ends-full zero i ns p = (ns, ap (λ t. if t then err out_of_fuel else ok ns) p)
  Ends-full (suc fuel) i ns p = (ns, if_else (guard ns) _ (ok ns) p)

  step_index : ℕ → ℕ
  step_index i = (in_range (length hashes) i + 1) % length hashes

  -- A round that finds its hash goes on with the owner added.
  Ends-step :
      (fuel i h : ℕ) (ns : List Str)
      → index_at hashes (in_range (length hashes) i) ≡ ok h
      → Ends fuel (step_index i) (add_new (node_at h m) ns)
      → Ends (suc fuel) i ns
  unfolding step_index collect guard
  Ends-step fuel i h ns found (out, done) = go (guard ns) refl
    where
      go : (t : Bool) → guard ns ≡ t → Ends (suc fuel) i ns
      go false p = Ends-full (suc fuel) i ns p
      go true p = (
        out,
        if_then (guard ns) _ (ok ns) p
            ∙ ap
                (λ r. ◌>>=◌ {B = List Str} r (λ x.
                  collect fuel count total hashes m (step_index i) (add_new (node_at x m) ns)))
                found
            ∙ done,
      )

  Covered-move :
      (hs done : List ℕ) (h : ℕ) (ns : List Str)
      → Covered (hs ++ h ∷ done) ns
      → Covered (h ∷ hs ++ done) ns
  Covered-move [] done h ns c = c
  Covered-move (x ∷ hs) done h ns c =
      let rest = Covered-move hs done h ns c.1 in (rest.0, (c.0, rest.1))

  found_at :
      (pre suf : List ℕ) (h : ℕ)
      → pre ++ h ∷ suf ≡ hashes
      → index_at hashes (in_range (length hashes) (length pre)) ≡ ok h
  found_at pre suf h split =
      let size = ap length (sym split) ∙ length-append pre (h ∷ suf) in
      ap (index_at hashes) (in_range-lt (length hashes) (length pre) (omega arith))
      ∙ ap (λ hs. index_at hs (length pre)) (sym split)
      ∙ index_at-some (pre ++ h ∷ suf) (length pre) h (get_elem?-middle pre suf h)

  step_index_last : (pre : List ℕ) (h : ℕ) → pre ++ h ∷ [] ≡ hashes → step_index (length pre) ≡ 0
  unfolding step_index
  step_index_last pre h split =
      let size = ap length (sym split) ∙ length-append pre (h ∷ []) in
      let wrapped : length pre + 1 ≡ length hashes = omega arith in
      ap (λ i. (i + 1) % length hashes) (in_range-lt (length hashes) (length pre) (omega arith))
      ∙ ap (λ n. n % length hashes) wrapped
      ∙ mod_self (length hashes)

  step_index_next :
      (pre suf : List ℕ) (h h2 : ℕ)
      → pre ++ h ∷ h2 ∷ suf ≡ hashes
      → step_index (length pre) ≡ length (pre ++ h ∷ [])
  unfolding step_index
  step_index_next pre suf h h2 split =
      let size = ap length (sym split) ∙ length-append pre (h ∷ h2 ∷ suf) in
      let inside : length pre + 1 < length hashes = omega arith in
      ap (λ i. (i + 1) % length hashes) (in_range-lt (length hashes) (length pre) (omega arith))
      ∙ mod-eq_of_lt inside
      ∙ sym (length-append pre (h ∷ []))

  -- As much fuel as these hashes, and `k`.
  abbrev pub rounds : List ℕ → ℕ → ℕ
  rounds [] k = k
  rounds (h ∷ hs) k = suc (rounds hs k)

  -- From the position after `pre` to the end of the hashes, and then from the start.
  walk :
      (k : ℕ) (pre suf done : List ℕ) (ns : List Str)
      → pre ++ suf ≡ hashes
      → 1 ≤ length suf
      → Covered done ns
      → ((ns' : List Str) → Covered (suf ++ done) ns' → Ends k 0 ns')
      → Ends (rounds suf k) (length pre) ns
  walk k pre [] done ns split ne cov last = absurd (omega arith)
  walk k pre (h ∷ []) done ns split ne cov last =
      let ns' = add_new (node_at h m) ns in
      Ends-step k (length pre) h ns (found_at pre [] h split) (
        subst (λ i. Ends k i ns') (sym (step_index_last pre h split))
          (last ns' (listed-add_new_self (node_at h m) ns, Covered-add_new done _ ns cov)))
  walk k pre (h ∷ h2 ∷ suf) done ns split ne cov last =
      let ns' = add_new (node_at h m) ns in
      Ends-step (rounds (h2 ∷ suf) k) (length pre) h ns (found_at pre (h2 ∷ suf) h split) (
        subst (λ i. Ends (rounds (h2 ∷ suf) k) i ns') (sym (step_index_next pre suf h h2 split))
          (walk k (pre ++ h ∷ []) (h2 ∷ suf) (h ∷ done) ns'
            (append_assoc pre (h ∷ []) (h2 ∷ suf) ∙ split) (omega arith)
            (listed-add_new_self (node_at h m) ns, Covered-add_new done _ ns cov)
            (λ ns2 cov2. last ns2 (Covered-move (h2 ∷ suf) done h ns2 cov2))))

  Covered-contains :
      (hs : List ℕ) (h : ℕ) (ns : List Str)
      → Covered hs ns
      → contains h hs ≡ true
      → listed (node_at h m) ns ≡ true
  unfolding contains
  Covered-contains [] h ns c p = cc
  Covered-contains (x ∷ hs) h ns c p = elim (Bool-cases (nat_beq x h)) [
    | inl same ↦ let e : x ≡ h = ground arith in subst (λ k. listed (node_at k m) ns ≡ true) e c.0
    | inr other ↦
        Covered-contains hs h ns c.1 (sym (if_else (nat_beq x h) true (contains h hs) other) ∙ p)
  ]

  Covered-AllListed : (ds ns : List Str) → Covered hashes ns → AllOwn hashes m ds → AllListed ds ns
  Covered-AllListed [] ns c o = tt
  Covered-AllListed (d ∷ ds) ns c ((h, inside, owner), rest) = (
    subst (λ n. listed n ns ≡ true) owner (Covered-contains hashes h ns c inside),
    Covered-AllListed ds ns c rest,
  )

  module _ (ds : List Str) (different : Different ds) (own : AllOwn hashes m ds)
      (all : total ≤ length ds) where
    guard-Covered : (ns : List Str) → Covered hashes ns → guard ns ≡ false
    unfolding guard
    guard-Covered ns c =
        let le = length_le ds ns different (Covered-AllListed ds ns c own) in ground arith

    Ends-turn : 1 ≤ length hashes → (ns : List Str) → Ends (rounds hashes 0) 0 ns
    Ends-turn ne ns = walk 0 [] hashes [] ns refl ne tt (λ ns' c.
        Ends-full 0 0 ns' (guard-Covered ns' (subst (λ hs. Covered hs ns') (append-nil hashes) c)))

    -- Two turns are enough, from any position.
    pub Ends-from :
        (pre suf : List ℕ)
        → pre ++ suf ≡ hashes
        → 1 ≤ length suf
        → Ends (rounds suf (rounds hashes 0)) (length pre) []
    Ends-from pre suf split ne =
        let size = ap length (sym split) ∙ length-append pre suf in
        let ne_hashes : 1 ≤ length hashes = omega arith in
        walk (rounds hashes 0) pre suf [] [] split ne tt (λ ns' c. Ends-turn ne_hashes ns')
