-- ===== src/Ring/Added.antt =====
-- cache/consthash.go: what `Add` leaves.
use mathlib.Core.List.{Memᴰ}
use fyer_cache.Prelude.{
  ℕ, zero, suc, ◌+◌, ◌*◌, ◌%◌, ◌<◌, ◌≡◌, refl, sym, ◌∙◌, inl, inr, true, false, Option, none, some,
  List, [], ◌∷◌, ◌++◌, append_assoc, append-nil, arith, if◌then◌else◌, lt→ltb, Bool-cases,
  Option-cases, ◌==◌, nat_equality, beq_refl, beq_ne,
}
use mathlib.Core.List.Memᴰ
use fyer_cache.Prelude.Str.{Str, str_equality}
use fyer_cache.Prelude.GoMap.{
  GoMap, lookup, insert, lookup-insert, lookup-insert_eq, lookup-insert_ne,
}
use fyer_cache.Prelude.Int.{ℤ}
use fyer_cache.Prelude.Result.{ok}
use fyer_cache.Ring.{
  Ring, contains, drop_hashes, remove_without_lock, remove, virtual_hash, add_virtual, finish, add,
  add_count, at_least_one, virtual_count, cleared, sort,
}
use fyer_cache.Ring.Sorting.{Mem-sort, sort-Mem, sort-Ascending}
use fyer_cache.Ring.Valid.{Valid, contains-Mem, Mem-contains, remove-Valid}

pub insert_all : List ℕ → Str → GoMap ℕ Str → GoMap ℕ Str
insert_all [] node m = m
insert_all (h ∷ hs) node m = insert_all hs node (insert h node m)

insert_all-lookup :
    (h : ℕ) (hs : List ℕ) (node : Str) (m : GoMap ℕ Str)
    → lookup h (insert_all hs node m) ≡ (if contains h hs then some node else lookup h m)
unfolding insert_all contains
insert_all-lookup h [] node m = refl
insert_all-lookup h (x ∷ xs) node m =
    ground (arith, insert_all-lookup h xs node (insert x node m), lookup-insert x h node m)

pub insert_all-inside :
    (h : ℕ) (hs : List ℕ) (node : Str) (m : GoMap ℕ Str)
    → contains h hs ≡ true
    → lookup h (insert_all hs node m) ≡ some node
insert_all-inside h hs node m e = ground (arith, insert_all-lookup h hs node m)

pub insert_all-outside :
    (h : ℕ) (hs : List ℕ) (node : Str) (m : GoMap ℕ Str)
    → contains h hs ≡ false
    → lookup h (insert_all hs node m) ≡ lookup h m
insert_all-outside h hs node m e = ground (arith, insert_all-lookup h hs node m)

-- The ring with these hashes for the node.
unfoldable pub with_node : Str → ℕ → List ℕ → Ring → Ring
unfolding insert_all
with_node node weight hashes r = record r {
  sorted_hashes = sort (r.sorted_hashes ++ hashes);
  hash_map = insert_all hashes node r.hash_map;
  weights = insert node weight r.weights;
  node_hashes = insert node hashes r.node_hashes;
}

pub with_node-Valid :
    (node : Str) (weight : ℕ) (hashes : List ℕ) (r : Ring)
    → Valid r
    → lookup node r.node_hashes ≡ none
    → Valid (with_node node weight hashes r)
unfolding with_node
with_node-Valid node weight hashes r v fresh = record {
  ascending = sort-Ascending (r.sorted_hashes ++ hashes);
  placed = λ h m. elim (Bool-cases (contains h hashes)) [
    | inl t ↦ (node, insert_all-inside h hashes node r.hash_map t)
    | inr f ↦ elim (Memᴰ.append_cases r.sorted_hashes (Mem-sort h (r.sorted_hashes ++ hashes) m)) [
      | inl m' ↦
          let (n, e) = v.placed h m' in (n, insert_all-outside h hashes node r.hash_map f ∙ e)
      | inr m' ↦ let t = contains-Mem h hashes m' in cc
    ]
  ];
  owned = λ h n e. elim (Bool-cases (contains h hashes)) [
    | inl t ↦
        let i = insert_all-inside h hashes node r.hash_map t in
        let same : node ≡ n = cc in
        (
          hashes,
          lookup-insert_eq node n hashes r.node_hashes ((str_equality.beq_iff node n).1 same),
          Mem-contains h hashes t,
        )
    | inr f ↦
        let (hs, eh, m) = v.owned h n (sym (insert_all-outside h hashes node r.hash_map f) ∙ e) in
        (
          hs,
          lookup-insert_ne node n hashes r.node_hashes
                (beq_ne node n (λ same. let clash : none ≡ some hs = sym fresh ∙ rw same eh in cc))
              ∙ eh,
          m,
        )
  ];
  weighed = λ n hs e. elim (Bool-cases (node == n)) [
    | inl t ↦ (weight, lookup-insert_eq node n weight r.weights t)
    | inr f ↦
        let (w, ew) = v.weighed n hs (sym (lookup-insert_ne node n hashes r.node_hashes f) ∙ e) in
        (w, lookup-insert_ne node n weight r.weights f ∙ ew)
  ];
  hashed = λ n w e. elim (Bool-cases (node == n)) [
    | inl t ↦ (hashes, lookup-insert_eq node n hashes r.node_hashes t)
    | inr f ↦
        let (hs, eh) = v.hashed n w (sym (lookup-insert_ne node n weight r.weights f) ∙ e) in
        (hs, lookup-insert_ne node n hashes r.node_hashes f ∙ eh)
  ];
}

module _ (hash_func : Str → ℕ) where
  pub virtual_hashes : ℕ → ℕ → Str → List ℕ
  virtual_hashes zero i node = []
  virtual_hashes (suc n) i node = virtual_hash hash_func node i ∷ virtual_hashes n (i + 1) node

  add_virtual_lem :
      (n i : ℕ) (node : Str) (hs : List ℕ) (r : Ring)
      → add_virtual hash_func n i node hs r ≡ (
        record r {
          sorted_hashes = r.sorted_hashes ++ virtual_hashes n i node;
          hash_map = insert_all (virtual_hashes n i node) node r.hash_map;
        },
        hs ++ virtual_hashes n i node,
      )
  unfolding add_virtual virtual_hashes insert_all
  add_virtual_lem zero i node hs r = simp append-nil
  add_virtual_lem (suc n) i node hs r =
      let h = virtual_hash hash_func node i in
      rw
        (add_virtual_lem n (i + 1) node (hs ++ h ∷ []) (record r {
          sorted_hashes = r.sorted_hashes ++ h ∷ [];
          hash_map = insert h node r.hash_map;
        }))
        (simp append_assoc)

  add_count_lem :
      (n weight : ℕ) (node : Str) (r : Ring)
      → add_count hash_func (some n) node weight r
        ≡ ok (with_node node weight (virtual_hashes n 0 node) r)
  unfolding add_count finish with_node
  add_count_lem n weight node r =
      rw (add_virtual_lem n 0 node [] (record r { weights = insert node weight r.weights })) refl

  pub add_lem :
      (node : Str) (weight : ℤ) (r : Ring)
      → r.replicas * at_least_one 1 weight < 9223372036854775808
      → (cleared node r).replicas ≡ r.replicas
      → add hash_func node weight r
        ≡ ok (
            with_node node
              (at_least_one 1 weight)
              (virtual_hashes (r.replicas * at_least_one 1 weight) 0 node)
              (cleared node r))
  unfolding add virtual_count
  add_lem node weight r fits same =
      let n = r.replicas * at_least_one 1 weight in
      let whole : n % 18446744073709551616 ≡ n = omega arith in
      rw (whole, lt→ltb n 9223372036854775808 fits)
        (add_count_lem n (at_least_one 1 weight) node (cleared node r))

drop_hashes-replicas :
    (o : Option (List ℕ)) (node : Str) (r : Ring) → (drop_hashes o node r).replicas ≡ r.replicas
unfolding drop_hashes
drop_hashes-replicas none node r = refl
drop_hashes-replicas (some hs) node r = refl

pub cleared-Valid :
    (r : Ring)
    → Valid r
    → (node : Str)
    → Valid (cleared node r)
      × (lookup node (cleared node r).node_hashes ≡ none)
      × ((cleared node r).replicas ≡ r.replicas)
unfolding cleared remove remove_without_lock
cleared-Valid r v node = elim (Option-cases (lookup node r.weights)) [
  | inr (w, e) ↦
      let (v', gone, _) = remove-Valid r v node in
      rw e (v', gone, drop_hashes-replicas (lookup node r.node_hashes) node r)
  | inl e ↦ rw e (
    v,
    (elim (Option-cases (lookup node r.node_hashes)) [
      | inl f ↦ f
      | inr (hs, f) ↦ let (w, g) = v.weighed node hs f in cc
    ]),
    refl,
  )
]

-- The hashes are on the ring, and lead to the node.
abbrev pub Placed : Ring → Str → List ℕ → Type 0
Placed r node [] = Unit
Placed r node (h ∷ hs) =
    Memᴰ h r.sorted_hashes × (lookup h r.hash_map ≡ some node) × Placed r node hs

with_node-Placed :
    (node : Str) (weight : ℕ) (hashes hs : List ℕ) (r : Ring)
    → ((h : ℕ) → Memᴰ h hs → Memᴰ h hashes)
    → Placed (with_node node weight hashes r) node hs
with_node-Placed node weight hashes [] r within = tt
with_node-Placed node weight hashes (h ∷ hs) r within =
    let m = within h (Memᴰ.head refl) in
    (
      unfold with_node in
          sort-Mem h (r.sorted_hashes ++ hashes) (Memᴰ.append_right r.sorted_hashes m),
      unfold with_node in insert_all-inside h hashes node r.hash_map (contains-Mem h hashes m),
      with_node-Placed node weight hashes hs r (λ x k. within x (Memᴰ.tail k)),
    )

-- On a valid ring, where the node's virtual nodes are fewer than 2^63, `Add` succeeds, and it
-- leaves a valid ring in which the node has its weight and one hash for each virtual node, each of
-- which is on the ring and leads to the node.
pub add-Valid :
    (hash_func : Str → ℕ) (r : Ring)
    → Valid r
    → (node : Str) (weight : ℤ) → r.replicas * at_least_one 1 weight < 9223372036854775808
    → (r' : Ring) × (add hash_func node weight r ≡ ok r')
      × Valid r'
      × (lookup node r'.weights ≡ some (at_least_one 1 weight))
      × (lookup node r'.node_hashes
          ≡ some (virtual_hashes hash_func (r.replicas * at_least_one 1 weight) 0 node))
      × Placed r' node (virtual_hashes hash_func (r.replicas * at_least_one 1 weight) 0 node)
unfolding with_node
add-Valid hash_func r v node weight fits =
    let (v', gone, same) = cleared-Valid r v node in
    let w = at_least_one 1 weight in
    let hs = virtual_hashes hash_func (r.replicas * w) 0 node in
    (
      with_node node w hs (cleared node r),
      add_lem hash_func node weight r fits same,
      with_node-Valid node w hs (cleared node r) v' gone,
      lookup-insert_eq node node w (cleared node r).weights (beq_refl node),
      lookup-insert_eq node node hs (cleared node r).node_hashes (beq_refl node),
      with_node-Placed node w hs hs (cleared node r) (λ h m. m),
    )
