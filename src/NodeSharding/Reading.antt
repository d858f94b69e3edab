-- ===== src/NodeSharding/Reading.antt =====
-- `Get` after `Set`.
use fyer_cache.NodeSharding.Calls.{
  live_same, live-Different, has_node-put_to, put_to-some, has_node-put_backups, lookup-put_backups,
}
use fyer_cache.Ring.Nodes.{listed}
use fyer_cache.NodeSharding.{
  ShardError, live, node_ids, get_value, set_value, NodeSharded, or_next, fetch_at, fetch_from,
  set_result, put_backups, put_all, has_node, first_hit, NodeCache,
}
use mathlib.Core.Path.{subst}
use fyer_cache.Prelude.{if_else}
use fyer_cache.Ring.Distinct.{Different}
use fyer_cache.Prelude.Str.{Str, str_equality}
use fyer_cache.Prelude.Int.{ℤ}
use fyer_cache.Prelude.GoMap.{GoMap, lookup, insert, lookup-insert_eq}
use fyer_cache.Prelude.Result.{Result, ok, ◌>>=◌}
use fyer_cache.Prelude.{
  ℕ, ◌≡◌, sym, ap, ◌∙◌, true, false, Option, none, some, List, [], ◌∷◌, arith, nat_beq, length,
  nat_equality, beq_refl,
}

not_empty :
    {S : Type 0} (id : Str) (nodes : GoMap Str S) (st : S)
    → lookup id nodes ≡ some st
    → nat_beq (length nodes) 0 ≡ false
unfolding lookup
not_empty id [] st p = cc
not_empty id (n ∷ nodes) st p = ground arith

module _ (c : NodeCache) (key : Str) (value : c.Value) (expiration : ℤ) where
  -- The nodes after a `Set` on these, the primary first.
  after_set : Str → List Str → c.State → GoMap Str c.State → GoMap Str c.State
  after_set id ids st nodes =
      (put_backups c key value expiration ids 0
        (insert id (c.put key value expiration st).0 nodes)).0

  put_all-primary :
      (id : Str) (ids : List Str) (st : c.State) (nodes : GoMap Str c.State)
      → lookup id nodes ≡ some st
      → (c.put key value expiration st).1 ≡ true
      → put_all c key value expiration (id ∷ ids) nodes ≡ (after_set id ids st nodes, none)
  unfolding put_all set_result after_set
  put_all-primary id ids st nodes p q =
      ap
        (λ o. (
          (put_backups c key value expiration ids 0 o.0).0,
          set_result o.1 (put_backups c key value expiration ids 0 o.0).1 (length ids),
        ))
        (put_to-some c key value expiration id nodes st p)
      ∙ ap
          (λ b. (
            after_set id ids st nodes,
            set_result b
                (put_backups c key value expiration ids 0
                  (insert id (c.put key value expiration st).0 nodes)).1
                (length ids),
          ))
          q

  module _ (id : Str) (ids : List Str) (st : c.State) (nodes : GoMap Str c.State) where
    lookup-after_set :
        listed id ids ≡ false
        → lookup id (after_set id ids st nodes) ≡ some (c.put key value expiration st).0
    unfolding after_set
    lookup-after_set new =
        lookup-put_backups c key value expiration id ids 0 _ new
        ∙ lookup-insert_eq id id _ nodes (beq_refl id)

    has_node-after_set :
        lookup id nodes ≡ some st
        → (j : Str) → has_node j (after_set id ids st nodes) ≡ has_node j nodes
    unfolding after_set
    has_node-after_set p j =
        has_node-put_backups c key value expiration j ids 0 _
        ∙ ap (λ o. has_node j o.0) (sym (put_to-some c key value expiration id nodes st p))
        ∙ has_node-put_to c key value expiration id j nodes

    first_hit-after_set :
        listed id ids ≡ false
        → (c.fetch key (c.put key value expiration st).0).1 ≡ some value
        → (first_hit c key (id ∷ ids) (after_set id ids st nodes)).1 ≡ ok value
    unfolding first_hit fetch_from fetch_at
    first_hit-after_set new kept =
        ap
          (λ o.
            (or_next c (fetch_at c key id (after_set id ids st nodes) o) (first_hit c key ids)).1)
          (lookup-after_set new)
        ∙ ap
            (λ v.
              (or_next c
                (
                  insert id (c.fetch key (c.put key value expiration st).0).0
                      (after_set id ids st nodes),
                  v,
                )
                (first_hit c key ids)).1)
            kept

  module _ (hash_func : Str → ℕ) (fuel : ℕ) (ids : List Str) (id : Str) (rest : List Str)
      (st : c.State) where
    -- The cache after the `Set`.
    set_shards : NodeSharded c → NodeSharded c
    set_shards nsc = record nsc { nodes = after_set id rest st nsc.nodes }

    set_value_lem :
        (nsc : NodeSharded c)
        → node_ids hash_func fuel key nsc.replica_factor nsc.ring ≡ ok ids
        → live ids nsc.nodes ≡ id ∷ rest
        → lookup id nsc.nodes ≡ some st
        → (c.put key value expiration st).1 ≡ true
        → set_value c hash_func fuel key value expiration nsc ≡ ok (set_shards nsc, none)
    unfolding set_value set_shards
    set_value_lem nsc ring targets p q =
        if_else (nat_beq (length nsc.nodes) 0) _ _ (not_empty id nsc.nodes st p)
        ∙ ap
            (λ r. ◌>>=◌ {B = NodeSharded c × Option ShardError} r (λ ns.
              let o = put_all c key value expiration (live ns nsc.nodes) nsc.nodes in
              ok (record nsc { nodes = o.0 }, o.1)))
            ring
        ∙ ap
            (λ ns.
              let o = put_all c key value expiration ns nsc.nodes in
              ok (record nsc { nodes = o.0 }, o.1))
            targets
        ∙ ap (λ o. ok (record nsc { nodes = o.0 }, o.1)) (put_all-primary id rest st nsc.nodes p q)

    get_value_lem :
        (nsc : NodeSharded c)
        → node_ids hash_func fuel key nsc.replica_factor nsc.ring ≡ ok ids
        → live ids nsc.nodes ≡ id ∷ rest
        → lookup id nsc.nodes ≡ some st
        → listed id rest ≡ false
        → (c.fetch key (c.put key value expiration st).0).1 ≡ some value
        → get_value c hash_func fuel key (set_shards nsc)
          ≡ ok (
            record nsc { nodes = (first_hit c key (id ∷ rest) (after_set id rest st nsc.nodes)).0 },
            ok value,
          )
    unfolding get_value set_shards
    get_value_lem nsc ring targets p new kept =
        let nodes = after_set id rest st nsc.nodes in
        if_else (nat_beq (length nodes) 0) _ _
          (not_empty id nodes _ (lookup-after_set id rest st nsc.nodes new))
        ∙ ap
            (λ r. ◌>>=◌ {B = NodeSharded c × Result ShardError c.Value} r (λ ns.
              let o = first_hit c key (live ns nodes) nodes in
              ok (record nsc { nodes = o.0 }, o.1)))
            ring
        ∙ ap (λ ns. let o = first_hit c key ns nodes in ok (record nsc { nodes = o.0 }, o.1))
            (live_same ids nodes nsc.nodes (has_node-after_set id rest st nsc.nodes p) ∙ targets)
        ∙ ap (λ v. ok (record nsc { nodes = (first_hit c key (id ∷ rest) nodes).0 }, v))
            (first_hit-after_set id rest st nsc.nodes new kept)

    -- Suppose that the ring gives different nodes for a key, that the cache of the first registered
    -- one of them takes the value without an error, and that this cache then has it. Then `Set`
    -- returns no error, whatever the backups answer, and a `Get` of the key after it returns the
    -- value.
    pub get_value-set_value :
        (nsc : NodeSharded c)
        → node_ids hash_func fuel key nsc.replica_factor nsc.ring ≡ ok ids
        → Different ids
        → live ids nsc.nodes ≡ id ∷ rest
        → lookup id nsc.nodes ≡ some st
        → (c.put key value expiration st).1 ≡ true
        → (c.fetch key (c.put key value expiration st).0).1 ≡ some value
        → (after later : NodeSharded c) × (set_value c hash_func fuel key value expiration nsc
            ≡ ok (after, none))
          × (get_value c hash_func fuel key after ≡ ok (later, ok value))
    get_value-set_value nsc ring different targets p stored kept =
        let apart : Different (id ∷ rest) =
          subst Different targets (live-Different ids nsc.nodes different) in
        (
          set_shards nsc,
          record nsc { nodes = (first_hit c key (id ∷ rest) (after_set id rest st nsc.nodes)).0 },
          set_value_lem nsc ring targets p stored,
          get_value_lem nsc ring targets p apart.0 kept,
        )
