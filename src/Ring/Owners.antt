-- ===== src/Ring/Owners.antt =====
-- cache/consthash.go: the node that `Get` returns, and what a new node takes over.
use fyer_cache.Prelude.{
  ℕ, ◌*◌, ◌<◌, ◌≡◌, refl, ap, ◌∙◌, ◌≢◌, ◌⊎◌, inl, inr, none, some, List, [], ◌∷◌, ◌++◌, arith,
  Bool-cases, nat_equality,
}
use mathlib.Core.List.{Memᴰ}
use mathlib.Core.List.Memᴰ
use mathlib.Core.Path.{subst}
use fyer_cache.Prelude.Str.{Str, str_equality}
use fyer_cache.Prelude.GoMap.{GoMap, lookup}
use fyer_cache.Prelude.Int.{ℤ}
use fyer_cache.Prelude.Result.{ok, ◌>>=◌}
use fyer_cache.Ring.{Ring, contains, add, at_least_one, cleared, get, owner_in, node_at, sort}
use fyer_cache.Ring.Searching.{Ascending, IsOwner, search_lem}
use fyer_cache.Ring.Sorting.{sort-Mem, Mem-sort}
use fyer_cache.Ring.Valid.{Valid, contains-Mem}
use fyer_cache.Ring.Added.{
  virtual_hashes, with_node, add_lem, cleared-Valid, insert_all-inside, insert_all-outside,
  with_node-Valid,
}

owner_in_lem :
    (hash x : ℕ) (xs : List ℕ) (m : GoMap ℕ Str)
    → Ascending (x ∷ xs)
    → (h : ℕ) × IsOwner (x ∷ xs) hash h × (owner_in hash (x ∷ xs) m ≡ ok (node_at h m))
unfolding owner_in
owner_in_lem hash x xs m a =
    let (i, h, e, f, o) = search_lem hash x xs a in (h, o, rw (e, ◌>>=◌, f) refl)

owner_lem :
    (hash : ℕ) (xs : List ℕ) (m : GoMap ℕ Str)
    → xs ≢ []
    → Ascending xs
    → (h : ℕ) × IsOwner xs hash h × (owner_in hash xs m ≡ ok (node_at h m))
owner_lem hash [] m ne a = absurd (ne refl)
owner_lem hash (x ∷ xs) m ne a = owner_in_lem hash x xs m a

-- The owner among more hashes, where it is one of the fewer, owns among these.
IsOwner-restrict :
    (xs ys : List ℕ) (hash h : ℕ)
    → ((q : ℕ) → Memᴰ q xs → Memᴰ q ys)
    → Memᴰ h xs
    → IsOwner ys hash h
    → IsOwner xs hash h
unfolding IsOwner
IsOwner-restrict xs ys hash h sub m (_, inl (l, f)) = (m, inl (l, λ q n. f q (sub q n)))
IsOwner-restrict xs ys hash h sub m (_, inr (b, f)) =
    (m, inr ((λ q n. b q (sub q n)), (λ q n. f q (sub q n))))

-- A hash has one owner.
IsOwner-unique : (xs : List ℕ) (hash h k : ℕ) → IsOwner xs hash h → IsOwner xs hash k → h ≡ k
unfolding IsOwner
IsOwner-unique xs hash h k (m, inl (l, f)) (n, inl (l', g)) =
    let a = f k n l' in let b = g h m l in omega arith
IsOwner-unique xs hash h k (m, inl (l, f)) (n, inr (below, g)) =
    let c = below h m in absurd (omega arith)
IsOwner-unique xs hash h k (m, inr (below, f)) (n, inl (l, g)) =
    let c = below k n in absurd (omega arith)
IsOwner-unique xs hash h k (m, inr (b, f)) (n, inr (c, g)) =
    let d = f k n in let e = g h m in omega arith

-- On a valid ring with a hash on it, `Get` of any key ends without a panic. It returns the node,
-- which is a registered one, of the first hash that is the key's or more or, where there is none,
-- of the least hash.
pub get_registered :
    (hash_func : Str → ℕ) (r : Ring)
    → Valid r
    → r.sorted_hashes ≢ []
    → (key : Str)
    → (h : ℕ) × (n : Str) × (w : ℕ) × IsOwner r.sorted_hashes (hash_func key) h
      × (lookup h r.hash_map ≡ some n)
      × (lookup n r.weights ≡ some w)
      × (get hash_func key r ≡ ok n)
unfolding get node_at IsOwner
get_registered hash_func r v ne key =
    let (h, o, e) = owner_lem (hash_func key) r.sorted_hashes r.hash_map ne v.ascending in
    let (n, en) = v.placed h o.0 in
    let (hs, eh, _) = v.owned h n en in
    let (w, ew) = v.weighed n hs eh in (h, n, w, o, en, ew, e ∙ rw (node_at, en) refl)

cleared_fresh : (r : Ring) (node : Str) → lookup node r.weights ≡ none → cleared node r ≡ r
unfolding cleared
cleared_fresh r node e = rw e refl

module _ (hash_func : Str → ℕ) (node key : Str) (weight : ℕ) (hs : List ℕ) (r : Ring) where
  get-with_node :
      (v : Valid r)
      → r.sorted_hashes ≢ []
      → Valid (with_node node weight hs r)
      → (n n' : Str) × (get hash_func key r ≡ ok n)
        × (get hash_func key (with_node node weight hs r) ≡ ok n')
        × ((n' ≡ n) ⊎ (n' ≡ node))
  unfolding with_node IsOwner
  get-with_node v ne v' =
      let all = r.sorted_hashes ++ hs in
      let more : (q : ℕ) → Memᴰ q r.sorted_hashes → Memᴰ q (sort all) =
        λ q m. sort-Mem q all (Memᴰ.append_left hs m) in
      let (h, n, w, o, e, _, g) = get_registered hash_func r v ne key in
      let some_left : sort all ≢ [] = λ z. Memᴰ.not-nil (subst (λ l. Memᴰ h l) z (more h o.0)) in
      let (h', n', w', o', e', _, g') =
        get_registered hash_func (with_node node weight hs r) v' some_left key in
      (
        n,
        n',
        g,
        g',
        elim (Bool-cases (contains h' hs)) [
          | inl t ↦ let i = insert_all-inside h' hs node r.hash_map t in inr (cc)
          | inr f ↦ elim (Memᴰ.append_cases r.sorted_hashes (Mem-sort h' all o'.0)) [
            | inr m ↦ let t = contains-Mem h' hs m in cc
            | inl m ↦
                let same : h' ≡ h =
                  IsOwner-unique r.sorted_hashes (hash_func key) h' h
                    (IsOwner-restrict r.sorted_hashes (sort all) (hash_func key) h' more m o') o in
                let kept = insert_all-outside h' hs node r.hash_map f in inl (cc)
          ]
        ],
      )

-- On a valid ring with a hash on it, where a node is not registered and its virtual nodes are
-- fewer than 2^63, after an `Add` of this node `Get` of every key returns the new node or the node
-- that it returned before.
pub get-add :
    (hash_func : Str → ℕ) (r : Ring)
    → Valid r
    → r.sorted_hashes ≢ []
    → (node : Str) → lookup node r.weights ≡ none
    → (weight : ℤ) → r.replicas * at_least_one 1 weight < 9223372036854775808
    → (key : Str)
    → (r' : Ring) × (n n' : Str) × (add hash_func node weight r ≡ ok r')
      × (get hash_func key r ≡ ok n)
      × (get hash_func key r' ≡ ok n')
      × ((n' ≡ n) ⊎ (n' ≡ node))
get-add hash_func r v ne node fresh weight fits key =
    let w = at_least_one 1 weight in
    let hs = virtual_hashes hash_func (r.replicas * w) 0 node in
    let same = cleared_fresh r node fresh in
    let (_, gone, _) = cleared-Valid r v node in
    let gone' : lookup node r.node_hashes ≡ none =
      subst (λ s. lookup node s.node_hashes ≡ none) same gone in
    let (n, n', g, g', moved) =
      get-with_node hash_func node key w hs r v ne (with_node-Valid node w hs r v gone') in
    (
      with_node node w hs r,
      n,
      n',
      subst (λ s. add hash_func node weight r ≡ ok (with_node node w hs s)) same
          (add_lem hash_func node weight r fits (ap (λ s. s.replicas) same)),
      g,
      g',
      moved,
    )
