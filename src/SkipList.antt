-- ===== src/SkipList.antt =====
-- cache/skiplist.go. Nodes stand on a heap, `node`, under addresses: the head has address 0, and
-- `fresh` is the next address that `&skipNode{}` takes. A method that mutates the list returns
-- the new one. A loop over pointers takes fuel, one more than the list's length.
pub mod Chain
pub mod Shape
pub mod Search
pub mod Ordered
pub mod Lookup
pub mod Frame
pub mod Splice
pub mod Represent
pub mod Insert
pub mod Grow
pub mod Setting
pub mod Unlink
pub mod Removal
pub mod Deletion
pub mod Traversal
pub mod Ranging
pub mod Rereads
mod Examples
use fyer_cache.Prelude.{
  ℕ, zero, suc, ◌+◌, ◌-◌, ◌*◌, ◌/◌, ◌%◌, ◌^◌, ◌≤◌, ◌<◌, ◌≡◌, refl, sym, ap, ◌∙◌, ◌≢◌, ◌↔◌, ◌⊎◌, inl,
  inr, Bool, true, false, not, ◌&&◌, ◌||◌, Option, none, some, List, [], ◌∷◌, ◌++◌, map,
  append_assoc, append-nil, arith, ltb, leb, nat_beq, if◌then◌else◌, ltb→lt, lt→ltb, leb→le,
  nat_beq_iff, tests, Bool-cases, Option-cases, length, get_elem?, take, drop, replicate,
  length-append, length-set, get_elem?-set_self, get_elem?-set_ne, take-append-drop, length-take,
  length-drop, take_of_length-le, get_elem?-some, get_elem?-none, Equality, ◌==◌, nat_equality,
  beq_refl, beq-eq, beq_ne,
}
use fyer_cache.Prelude.Int.{ℤ, pos, negsuc}
use fyer_cache.Prelude.Str.{Str}
use fyer_cache.Prelude.Str
use fyer_cache.Prelude.GoArray.{GoArray, make, read, write, update}
use fyer_cache.Prelude.Result.{Result, ok, err, panic, ◌>>=◌}

pub data Fault : Type 0 where
  out_of_fuel : Fault

-- A nil pointer is `none`.
pub record Node {ℓ} (V : Type ℓ) : Type ℓ where
  pub key : Str
  pub value : Option V
  pub forward : GoArray (Option ℕ)

pub record SkipList {ℓ} (V : Type ℓ) : Type ℓ where
  pub node : ℕ → Node V
  pub fresh : ℕ
  pub length : ℕ
  pub level : ℕ

abbrev pub max_level : ℕ
max_level = 32

abbrev pub head : ℕ
head = 0

-- One draw of `random.Float64() < probability` for each level that could be passed.
unfoldable pub climb : ℕ → (ℕ → Bool) → ℕ → ℕ
climb zero flips level = level
climb (suc rounds) flips level =
    let higher = climb rounds flips (level + 1) in if flips level then higher else level

unfoldable pub random_level : (ℕ → Bool) → ℕ
unfolding climb
random_level flips = climb (max_level - 1) flips 1

-- A pointer that is nil panics where it is followed.
unfoldable pub deref : Option ℕ → Result Fault ℕ
deref none = panic
deref (some a) = ok a

-- `for i := sl.level; i < level; i++ { update[i] = sl.head }`
unfoldable pub raise_preds : ℕ → ℕ → GoArray (Option ℕ) → Result Fault (GoArray (Option ℕ))
unfolding write
raise_preds zero i preds = ok preds
raise_preds (suc rounds) i preds = do
  preds' ← write i (some head) preds
  raise_preds rounds (i + 1) preds'

unfoldable pub points_to : Option ℕ → ℕ → Bool
points_to none a = false
points_to (some b) a = nat_beq b a

-- `limit <= 0 || count < limit`
unfoldable pub below_limit : ℤ → ℕ → Bool
below_limit (pos zero) count = true
below_limit (negsuc n) count = true
below_limit (pos (suc n)) count = ltb count (suc n)

-- `(endKey == "" || current.key <= endKey) && (limit <= 0 || count < limit)`
unfoldable pub in_range : Str → Str → ℤ → ℕ → Bool
unfolding below_limit
in_range end_key key limit count =
    (Str.eq end_key [] || not (Str.lt end_key key)) && below_limit limit count

module _ {ℓ} {V : Type ℓ} where
  unfoldable pub make_node : Str → Option V → ℕ → Node V
  unfolding make
  make_node key value levels = record { key = key; value = value; forward = make levels none }

  unfoldable pub new_skip_list : SkipList V
  unfolding make_node
  new_skip_list = record {
    node = λ _. make_node [] none max_level;
    fresh = 1;
    length = 0;
    level = 1;
  }

  -- `a.forward[i]`
  unfoldable pub forward : SkipList V → ℕ → ℕ → Result Fault (Option ℕ)
  unfolding read
  forward s a i = read i (s.node a).forward

  -- `a.forward[i] = p`
  unfoldable pub set_forward : ℕ → ℕ → Option ℕ → SkipList V → Result Fault (SkipList V)
  unfolding write
  set_forward a i p s = do
    links ← write i p (s.node a).forward
    ok (record s { node = update s.node a (record (s.node a) { forward = links }) })

  -- `for current.forward[i] != nil && current.forward[i].key < key`
  unfoldable pub walk : ℕ → Str → ℕ → ℕ → SkipList V → Result Fault ℕ
  unfolding forward
  walk zero key i current s = err out_of_fuel
  walk (suc fuel) key i current s = do
    next ← forward s current i
    elim next [
      | none ↦ ok current
      | some a ↦ elim (Str.lt (s.node a).key key) [
        | true ↦ walk fuel key i a s
        | false ↦ ok current
      ]
    ]

  -- The loop over the levels of `Get` and `Range`, with `i` levels to go.
  unfoldable pub seek : ℕ → Str → ℕ → SkipList V → Result Fault ℕ
  unfolding walk
  seek zero key current s = ok current
  seek (suc i) key current s = do a ← walk (s.length + 1) key i current s; seek i key a s

  -- The same loop in `Set` and `Delete`, which keeps the last node of each level in `update`.
  unfoldable pub descend :
      ℕ → Str → ℕ → GoArray (Option ℕ) → SkipList V → Result Fault (ℕ × GoArray (Option ℕ))
  unfolding walk write
  descend zero key current preds s = ok (current, preds)
  descend (suc i) key current preds s = do
    a ← walk (s.length + 1) key i current s
    preds' ← write i (some a) preds
    descend i key a preds' s

  -- `current != nil && current.key == key`
  unfoldable pub matching : Option ℕ → Str → SkipList V → Option ℕ
  matching none key s = none
  matching (some a) key s = if Str.eq (s.node a).key key then some a else none

  unfoldable pub get : Str → SkipList V → Result Fault (Option V × Bool)
  unfolding seek
  get key s = do
    current ← seek s.level key head s
    next ← forward s current 0
    elim (matching next key s) [ none ↦ ok (none, false) | some a ↦ ok ((s.node a).value, true) ]

  -- The loop of `Set` that links the new node into each of its levels.
  unfoldable pub splice : ℕ → ℕ → ℕ → GoArray (Option ℕ) → SkipList V → Result Fault (SkipList V)
  unfolding read forward set_forward deref
  splice zero i new preds s = ok s
  splice (suc rounds) i new preds s = do
    slot ← read i preds
    p ← deref slot
    q ← forward s p i
    s' ← set_forward new i q s
    s'' ← set_forward p i (some new) s'
    splice rounds (i + 1) new preds s''

  unfoldable pub alloc : Node V → SkipList V → SkipList V
  alloc n s = record s { node = update s.node s.fresh n; fresh = s.fresh + 1 }

  -- What `Set` does for a key that is new.
  unfoldable pub insert_node :
      ℕ → Str → V → GoArray (Option ℕ) → SkipList V → Result Fault (SkipList V)
  unfolding raise_preds splice alloc make_node
  insert_node level key value preds s = do
    preds' ← raise_preds (level - s.level) s.level preds
    let raised = record s { level = if ltb s.level level then level else s.level }
    s' ← splice level 0 s.fresh preds' (alloc (make_node key (some value) level) raised)
    ok (record s' { length = s'.length + 1 })

  -- `current.value = value`
  unfoldable pub assign : ℕ → V → SkipList V → SkipList V
  assign a value s = record s { node = update s.node a (record (s.node a) { value = some value }) }

  -- `Set` on the node that has the key, or on none.
  unfoldable pub put_at :
      Option ℕ → ℕ → Str → V → GoArray (Option ℕ) → SkipList V → Result Fault (SkipList V)
  unfolding assign insert_node
  put_at (some a) level key value preds s = ok (assign a value s)
  put_at none level key value preds s = insert_node level key value preds s

  unfoldable pub set : (ℕ → Bool) → Str → V → SkipList V → Result Fault (SkipList V)
  unfolding descend forward put_at random_level make
  set flips key value s = do
    (current, preds) ← descend s.level key head (make max_level none) s
    next ← forward s current 0
    put_at (matching next key s) (random_level flips) key value preds s

  -- `for i := 0; i < sl.level && update[i].forward[i] == current; i++`
  unfoldable pub unlink : ℕ → ℕ → ℕ → GoArray (Option ℕ) → SkipList V → Result Fault (SkipList V)
  unfolding read forward set_forward deref points_to
  unlink zero i current preds s = ok s
  unlink (suc rounds) i current preds s = do
    slot ← read i preds
    p ← deref slot
    q ← forward s p i
    elim (points_to q current) [
      | true ↦ do
        r ← forward s current i
        s' ← set_forward p i r s
        unlink rounds (i + 1) current preds s'
      | false ↦ ok s
    ]

  -- `for sl.level > 1 && sl.head.forward[sl.level-1] == nil { sl.level-- }`
  unfoldable pub lower : ℕ → SkipList V → Result Fault ℕ
  unfolding forward
  lower zero s = ok zero
  lower (suc zero) s = ok (suc zero)
  lower (suc (suc l)) s = do
    top ← forward s head (suc l)
    elim top [ none ↦ lower (suc l) s | some _ ↦ ok (suc (suc l)) ]

  -- `Delete` of the node that has the key, or of none.
  unfoldable pub remove_at :
      Option ℕ → GoArray (Option ℕ) → SkipList V → Result Fault (SkipList V × Bool)
  unfolding unlink lower
  remove_at none preds s = ok (s, false)
  remove_at (some a) preds s = do
    s' ← unlink s.level 0 a preds s
    level ← lower s'.level s'
    ok (record s' { level = level; length = s'.length - 1 }, true)

  unfoldable pub delete : Str → SkipList V → Result Fault (SkipList V × Bool)
  unfolding descend forward remove_at make
  delete key s = do
    (current, preds) ← descend s.level key head (make max_level none) s
    next ← forward s current 0
    remove_at (matching next key s) preds s

  -- A visitor changes a state of its own, and says whether to go on.
  module _ {κ} {S : Type κ} (visit : Str → Option V → S → S × Bool) where
    unfoldable pub visit_from : ℕ → Option ℕ → S → SkipList V → Result Fault S
    unfolding forward
    visit_from fuel none acc s = ok acc
    visit_from zero (some a) acc s = err out_of_fuel
    visit_from (suc fuel) (some a) acc s =
        let (acc', more) = visit (s.node a).key (s.node a).value acc in
        elim more [ false ↦ ok acc' | true ↦ forward s a 0 >>= λ next. visit_from fuel next acc' s ]

    unfoldable pub for_each : S → SkipList V → Result Fault S
    unfolding visit_from
    for_each acc s = do first ← forward s head 0; visit_from (s.length + 1) first acc s

    unfoldable pub range_from : ℕ → Str → ℤ → ℕ → Option ℕ → S → SkipList V → Result Fault S
    unfolding forward
    range_from fuel end_key limit count none acc s = ok acc
    range_from zero end_key limit count (some a) acc s = err out_of_fuel
    range_from (suc fuel) end_key limit count (some a) acc s =
        let (acc', more) = visit (s.node a).key (s.node a).value acc in
        elim (in_range end_key (s.node a).key limit count) [
          | false ↦ ok acc
          | true ↦ elim more [
            | false ↦ ok acc'
            | true ↦ forward s a 0 >>= λ next. range_from fuel end_key limit (count + 1) next acc' s
          ]
        ]

    unfoldable pub range : Str → Str → ℤ → S → SkipList V → Result Fault S
    unfolding seek range_from
    range start_key end_key limit acc s = do
      current ← seek s.level start_key head s
      first ← forward s current 0
      range_from (s.length + 1) end_key limit 0 first acc s
