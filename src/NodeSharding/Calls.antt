-- ===== src/NodeSharding/Calls.antt =====
-- What a call of one node's cache leaves of the others.
use fyer_cache.Prelude.Int.{ℤ}
use fyer_cache.NodeSharding.{put_backups, live, put_at, has_node, put_to, NodeCache}
use fyer_cache.Ring.Nodes.{listed}
use fyer_cache.Ring.Distinct.{Different, if_false}
use fyer_cache.Prelude.Str.{Str, str_equality}
use fyer_cache.Prelude.GoMap.{GoMap, lookup, insert, lookup-insert, lookup-insert_ne}
use fyer_cache.Prelude.{
  ℕ, ◌≡◌, refl, ap, ◌∙◌, Bool, true, false, Option, none, some, List, [], ◌∷◌, arith, if◌then◌else◌,
  ◌==◌, nat_equality,
}

module _ (c : NodeCache) (key : Str) (value : c.Value) (expiration : ℤ) where
  has_node-put_at :
      (id j : Str) (nodes : GoMap Str c.State) (o : Option c.State)
      → lookup id nodes ≡ o
      → has_node j (put_at c key value expiration id nodes o).0 ≡ has_node j nodes
  unfolding has_node put_at
  has_node-put_at id j nodes none p = refl
  has_node-put_at id j nodes (some st) p =
      ground (
        arith,
        str_equality.beq_iff id j,
        lookup-insert id j (c.put key value expiration st).0 nodes,
      )

  lookup-put_at_ne :
      (id j : Str) (nodes : GoMap Str c.State) (o : Option c.State)
      → (id == j) ≡ false
      → lookup j (put_at c key value expiration id nodes o).0 ≡ lookup j nodes
  unfolding put_at
  lookup-put_at_ne id j nodes none ne = refl
  lookup-put_at_ne id j nodes (some st) ne =
      lookup-insert_ne id j (c.put key value expiration st).0 nodes ne

  pub put_to-some :
      (id : Str) (nodes : GoMap Str c.State) (st : c.State)
      → lookup id nodes ≡ some st
      → put_to c key value expiration id nodes
        ≡ (insert id (c.put key value expiration st).0 nodes, (c.put key value expiration st).1)
  unfolding put_to put_at
  put_to-some id nodes st p = ap (put_at c key value expiration id nodes) p

  pub has_node-put_to :
      (id j : Str) (nodes : GoMap Str c.State)
      → has_node j (put_to c key value expiration id nodes).0 ≡ has_node j nodes
  unfolding put_to
  has_node-put_to id j nodes = has_node-put_at id j nodes (lookup id nodes) refl

  pub has_node-put_backups :
      (j : Str) (ids : List Str) (failed : ℕ) (nodes : GoMap Str c.State)
      → has_node j (put_backups c key value expiration ids failed nodes).0 ≡ has_node j nodes
  unfolding put_backups
  has_node-put_backups j [] failed nodes = refl
  has_node-put_backups j (id ∷ ids) failed nodes =
      has_node-put_backups j ids _ _ ∙ has_node-put_to id j nodes

  pub lookup-put_backups :
      (j : Str) (ids : List Str) (failed : ℕ) (nodes : GoMap Str c.State)
      → listed j ids ≡ false
      → lookup j (put_backups c key value expiration ids failed nodes).0 ≡ lookup j nodes
  unfolding put_backups put_to listed
  lookup-put_backups j [] failed nodes out = refl
  lookup-put_backups j (id ∷ ids) failed nodes out =
      let split = if_false (id == j) (listed j ids) out in
      lookup-put_backups j ids _ _ split.1 ∙ lookup-put_at_ne id j nodes (lookup id nodes) split.0

-- Nodes that stay registered stay live.
pub live_same :
    {S : Type 0} (ids : List Str) (m n : GoMap Str S)
    → ((j : Str) → has_node j m ≡ has_node j n)
    → live ids m ≡ live ids n
unfolding live
live_same [] m n same = refl
live_same (id ∷ ids) m n same =
    ap (λ b. if b then id ∷ live ids m else live ids m) (same id)
    ∙ ap (λ ds. if has_node id n then id ∷ ds else ds) (live_same ids m n same)

listed-live :
    {S : Type 0} (j : Str) (ids : List Str) (m : GoMap Str S)
    → listed j ids ≡ false
    → listed j (live ids m) ≡ false
unfolding live listed
listed-live j [] m p = refl
listed-live j (id ∷ ids) m p = ground (arith, listed-live j ids m)

if-Different :
    (b : Bool) (id : Str) (ds : List Str)
    → listed id ds ≡ false
    → Different ds
    → Different (if b then id ∷ ds else ds)
if-Different true id ds new d = (new, d)
if-Different false id ds new d = d

pub live-Different :
    {S : Type 0} (ids : List Str) (m : GoMap Str S) → Different ids → Different (live ids m)
unfolding live
live-Different [] m d = tt
live-Different (id ∷ ids) m d =
    if-Different (has_node id m) id (live ids m) (listed-live id ids m d.0)
      (live-Different ids m d.1)
