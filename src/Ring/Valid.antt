-- ===== src/Ring/Valid.antt =====
-- cache/consthash.go: the invariant of the ring, which `NewConsistentHash`, `Remove` and `Add` keep.
use fyer_cache.Prelude.{
  ℕ, ◌≤◌, ◌≡◌, refl, sym, ◌∙◌, ◌⊎◌, inl, inr, Bool, true, false, none, some, List, [], ◌∷◌, arith,
  nat_beq, if◌then◌else◌, nat_beq_iff, Bool-cases, Option-cases, ◌==◌, nat_equality, beq_refl,
  beq-eq,
}
use mathlib.Core.List.{Memᴰ}
use mathlib.Core.List.Memᴰ
use fyer_cache.Prelude.Str.{Str, str_equality}
use fyer_cache.Prelude.GoMap.{
  lookup-delete_kept, lookup-delete_ne, GoMap, lookup, delete, lookup-delete,
}
use fyer_cache.Prelude.Int.{ℤ}
use fyer_cache.Ring.{
  Ring, contains, without, delete_all, drop_hashes, remove_without_lock, remove,
  new_consistent_hash,
}
use fyer_cache.Ring.Searching.{Ascending}
use fyer_cache.Ring.Sorting.{Ascending-tail, Ascending-cons, Ascending-least}

-- The hashes are sorted, each stands for a node, and the nodes are the ones that have a weight.
pub record Valid (r : Ring) : Type 0 where
  pub ascending : Ascending r.sorted_hashes
  pub placed : (h : ℕ) → Memᴰ h r.sorted_hashes → (n : Str) × (lookup h r.hash_map ≡ some n)
  pub owned :
      (h : ℕ) (n : Str)
      → lookup h r.hash_map ≡ some n
      → (hs : List ℕ) × (lookup n r.node_hashes ≡ some hs) × Memᴰ h hs
  pub weighed :
      (n : Str) (hs : List ℕ)
      → lookup n r.node_hashes ≡ some hs
      → (w : ℕ) × (lookup n r.weights ≡ some w)
  pub hashed :
      (n : Str) (w : ℕ)
      → lookup n r.weights ≡ some w
      → (hs : List ℕ) × (lookup n r.node_hashes ≡ some hs)

pub contains-Mem : (h : ℕ) (hs : List ℕ) → Memᴰ h hs → contains h hs ≡ true
unfolding contains
contains-Mem h [] m = elim m [ ]
contains-Mem h (x ∷ xs) (Memᴰ.head e) = ground (arith, e)
contains-Mem h (x ∷ xs) (Memᴰ.tail m) = ground (arith, contains-Mem h xs m)

pub Mem-contains : (h : ℕ) (hs : List ℕ) → contains h hs ≡ true → Memᴰ h hs
unfolding contains
Mem-contains h [] e = cc
Mem-contains h (x ∷ xs) e = elim (Bool-cases (nat_beq x h)) [
  | inl t ↦ Memᴰ.head (sym ((nat_beq_iff x h).0 t))
  | inr f ↦ Memᴰ.tail (Mem-contains h xs (ground arith))
]

unless-cases :
    (b : Bool) (h x : ℕ) (xs : List ℕ)
    → Memᴰ h (if b then xs else x ∷ xs)
    → Memᴰ h xs ⊎ ((b ≡ false) × (h ≡ x))
unless-cases true h x xs m = inl m
unless-cases false h x xs m = elim (Memᴰ.cases_cons m) [ inl e ↦ inr (refl, e) | inr m' ↦ inl m' ]

without-Mem :
    (h : ℕ) (hs xs : List ℕ) → Memᴰ h (without hs xs) → Memᴰ h xs × (contains h hs ≡ false)
unfolding without
without-Mem h hs [] m = elim m [ ]
without-Mem h hs (x ∷ xs) m = elim (unless-cases (contains x hs) h x (without hs xs) m) [
  | inl m' ↦ let (m'', c) = without-Mem h hs xs m' in (Memᴰ.tail m'', c)
  | inr (f, e) ↦ (Memᴰ.head e, rw e f)
]

unless-Ascending :
    (b : Bool) (x : ℕ) (xs : List ℕ)
    → ((y : ℕ) → Memᴰ y xs → x ≤ y)
    → Ascending xs
    → Ascending (if b then xs else x ∷ xs)
unless-Ascending true x xs least a i j y z l ey ez = a i j y z l ey ez
unless-Ascending false x xs least a i j y z l ey ez = Ascending-cons x xs least a i j y z l ey ez

without-Ascending : (hs xs : List ℕ) → Ascending xs → Ascending (without hs xs)
unfolding without
without-Ascending hs [] a i j x y l ex ey = cc
without-Ascending hs (x ∷ xs) a i j y z l ey ez =
    unless-Ascending (contains x hs) x (without hs xs)
      (λ w m. Ascending-least x xs a w (without-Mem w hs xs m).0)
      (without-Ascending hs xs (Ascending-tail x xs a)) i j y z l ey ez

delete_all-lookup :
    (h : ℕ) (hs : List ℕ) (m : GoMap ℕ Str)
    → lookup h (delete_all hs m) ≡ (if contains h hs then none else lookup h m)
unfolding delete_all contains
delete_all-lookup h [] m = refl
delete_all-lookup h (x ∷ xs) m =
    ground (arith, delete_all-lookup h xs (delete x m), lookup-delete x h m)

delete_all-kept :
    (h : ℕ) (hs : List ℕ) (m : GoMap ℕ Str) (n : Str)
    → lookup h (delete_all hs m) ≡ some n
    → (contains h hs ≡ false) × (lookup h m ≡ some n)
delete_all-kept h hs m n e = ground (arith, delete_all-lookup h hs m)

delete_all-outside :
    (h : ℕ) (hs : List ℕ) (m : GoMap ℕ Str)
    → contains h hs ≡ false
    → lookup h (delete_all hs m) ≡ lookup h m
delete_all-outside h hs m e = ground (arith, delete_all-lookup h hs m)

drop_hashes-Valid :
    (r : Ring)
    → Valid r
    → (node : Str) (hs : List ℕ) → lookup node r.node_hashes ≡ some hs
    → Valid (drop_hashes (some hs) node r)
unfolding drop_hashes
drop_hashes-Valid r v node hs e = record {
  ascending = without-Ascending hs r.sorted_hashes v.ascending;
  placed = λ h m.
      let (m', c) = without-Mem h hs r.sorted_hashes m in
      let (n, en) = v.placed h m' in (n, delete_all-outside h hs r.hash_map c ∙ en);
  owned = λ h n en.
      let (c, en') = delete_all-kept h hs r.hash_map n en in
      let (hs', eh, m) = v.owned h n en' in
      elim (Bool-cases (node == n)) [
        | inl t ↦
            let same : node ≡ n = beq-eq node n t in
            let hashes : hs ≡ hs' = cc in
            let inside : contains h hs ≡ true = contains-Mem h hs (rw hashes m) in cc
        | inr g ↦ (hs', lookup-delete_ne node n r.node_hashes g ∙ eh, m)
      ];
  weighed = λ n hs' en.
      let (g, en') = lookup-delete_kept node n r.node_hashes hs' en in
      let (w, ew) = v.weighed n hs' en' in (w, lookup-delete_ne node n r.weights g ∙ ew);
  hashed = λ n w en.
      let (g, en') = lookup-delete_kept node n r.weights w en in
      let (hs', eh) = v.hashed n w en' in (hs', lookup-delete_ne node n r.node_hashes g ∙ eh);
}

lookup-delete_self : {V : Type 0} (n : Str) (m : GoMap Str V) → lookup n (delete n m) ≡ none
lookup-delete_self n m = lookup-delete n n m ∙ rw (beq_refl n) refl

-- On a valid ring, `Remove` leaves a valid ring where the node has neither a weight nor hashes.
pub remove-Valid :
    (r : Ring)
    → Valid r
    → (node : Str)
    → Valid (remove node r)
      × (lookup node (remove node r).node_hashes ≡ none)
      × (lookup node (remove node r).weights ≡ none)
unfolding remove remove_without_lock
remove-Valid r v node = elim (Option-cases (lookup node r.node_hashes)) [
  | inl e ↦
      let unweighed : lookup node r.weights ≡ none = elim (Option-cases (lookup node r.weights)) [
        | inl f ↦ f
        | inr (w, f) ↦ let (hs, g) = v.hashed node w f in cc
      ] in
      rw e (v, e, unweighed)
  | inr (hs, e) ↦ rw e (
    drop_hashes-Valid r v node hs e,
    lookup-delete_self node r.node_hashes,
    lookup-delete_self node r.weights,
  )
]

-- A new ring is valid.
pub new_consistent_hash-Valid : (replicas : ℤ) → Valid (new_consistent_hash replicas)
unfolding new_consistent_hash lookup
new_consistent_hash-Valid replicas = record {
  ascending = λ i j x y l ex ey. cc;
  placed = λ h m. elim m [ ];
  owned = λ h n e. cc;
  weighed = λ n hs e. cc;
  hashed = λ n w e. cc;
}
