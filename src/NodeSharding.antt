-- ===== src/NodeSharding.antt =====
-- cache/nodesharding.go: `NodeShardedCache`. A node's cache is a parameter, whose calls change its
use fyer_cache.Prelude.{◌%◌, ◌-◌}
use fyer_cache.Prelude.Int.{negsuc}
-- state and may fail; different nodes have different caches. The nodes that hold a key are those
-- of the ring, `Get` for one replica and `GetN` for more.
pub mod Calls
pub mod Reading
mod Examples
use fyer_cache.Prelude.Int.{ltb_ℤ, pos, ℤ}
use fyer_cache.Prelude.Str
use fyer_cache.Ring.{Ring, Fault, get, add, remove, new_consistent_hash}
use fyer_cache.Ring.Nodes.{get_n, get_nodes}
use fyer_cache.Prelude.Str.{Str, str_equality}
use fyer_cache.Prelude.GoMap.{GoMap, lookup, insert, delete}
use fyer_cache.Prelude.Result.{Result, ok, err, panic, ◌>>=◌}
use fyer_cache.Prelude.{
  is_some, ℕ, zero, suc, ◌+◌, ◌-◌, ◌*◌, ◌/◌, ◌%◌, ◌^◌, ◌≤◌, ◌<◌, ◌≡◌, refl, sym, ap, ◌∙◌, ◌≢◌, ◌↔◌,
  ◌⊎◌, inl, inr, Bool, true, false, not, ◌&&◌, ◌||◌, Option, none, some, List, [], ◌∷◌, ◌++◌, map,
  append_assoc, append-nil, arith, ltb, leb, nat_beq, if◌then◌else◌, ltb→lt, lt→ltb, leb→le,
  nat_beq_iff, tests, Bool-cases, Option-cases, length, get_elem?, take, drop, replicate,
  length-append, take-append-drop, length-take, length-drop, take_of_length-le, get_elem?-some,
  get_elem?-none, Equality, ◌==◌, nat_equality, beq_refl, beq-eq, beq_ne,
}

-- The `Cache` of a node.
pub record NodeCache : Type 1 where
  pub State : Type 0
  pub Value : Type 0
  pub fetch : Str → State → State × Option Value
  pub put : Str → Value → ℤ → State → State × Bool
  pub remove : Str → State → State × Bool

pub data ShardError : Type 0 where
  nil_cache node_exists no_node no_nodes key_not_found primary_failed all_failed ring_failed :
      ShardError

pub record NodeSharded (c : NodeCache) : Type 0 where
  pub ring : Ring
  pub nodes : GoMap Str c.State
  pub replica_factor : ℤ

unfoldable pub with_replica_factor : {c : NodeCache} → ℤ → NodeSharded c → NodeSharded c
with_replica_factor factor nsc =
    if ltb_ℤ (pos 0) factor then record nsc { replica_factor = factor } else nsc

-- An `int` of 64 bits as the ring keeps it: in two's complement.
unfoldable pub int_bits : ℤ → ℕ
int_bits (pos n) = n % 18446744073709551616
int_bits (negsuc n) = 18446744073709551615 - n % 18446744073709551616

-- A negative number is taken as it is, and makes `Add` panic.
unfoldable pub with_hash_replicas : {c : NodeCache} → ℤ → NodeSharded c → NodeSharded c
unfolding int_bits
with_hash_replicas replicas nsc = record nsc {
  ring = record nsc.ring { replicas = int_bits replicas };
}

-- What the ring's calls give, as the outcome of the shard's.
unfoldable pub on_ring {ℓ} : {A : Type ℓ} → Result Fault A → Result ShardError A
on_ring (ok a) = ok a
on_ring (err e) = err ring_failed
on_ring panic = panic

-- The nodes that should hold the key.
unfoldable pub node_ids : (Str → ℕ) → ℕ → Str → ℤ → Ring → Result ShardError (List Str)
unfolding on_ring get_n get
node_ids hash_func fuel key factor ring =
    if ltb_ℤ (pos 1) factor
    then on_ring (get_n hash_func fuel key factor ring)
    else (on_ring (get hash_func key ring) >>= λ id. ok (id ∷ []))

-- The primary's success, and how many backups failed, decide what `Set` returns.
unfoldable pub set_result : Bool → ℕ → ℕ → Option ShardError
set_result primary_ok failed backups =
    if not primary_ok && ltb failed backups
    then none
    else if not primary_ok
    then some primary_failed
    else none

unfoldable pub has_node : {S : Type 0} → Str → GoMap Str S → Bool
unfolding lookup
has_node id nodes = is_some (lookup id nodes)

-- `nodeCaches`: the nodes of the list that are registered.
unfoldable pub live : {S : Type 0} → List Str → GoMap Str S → List Str
unfolding has_node
live [] nodes = []
live (id ∷ ids) nodes = if has_node id nodes then id ∷ live ids nodes else live ids nodes

module _ (c : NodeCache) where
  unfoldable pub new_node_sharded_cache : NodeSharded c
  unfolding new_consistent_hash
  new_node_sharded_cache = record {
    ring = new_consistent_hash (pos 100);
    nodes = [];
    replica_factor = pos 1;
  }

  unfoldable pub add_node :
      (Str → ℕ) → Str → Option c.State → ℤ → NodeSharded c → Result ShardError (NodeSharded c)
  unfolding has_node on_ring add insert
  add_node hash_func id none weight nsc = err nil_cache
  add_node hash_func id (some cache) weight nsc =
      if has_node id nsc.nodes
      then err node_exists
      else (on_ring (add hash_func id weight nsc.ring) >>= λ ring.
          ok (record nsc { ring = ring; nodes = insert id cache nsc.nodes }))

  unfoldable pub remove_node : Str → NodeSharded c → Result ShardError (NodeSharded c)
  unfolding has_node remove delete
  remove_node id nsc =
      if not (has_node id nsc.nodes)
      then err no_node
      else ok (record nsc { ring = remove id nsc.ring; nodes = delete id nsc.nodes })

  -- A call of one node's cache.
  unfoldable pub fetch_at :
      Str → Str → GoMap Str c.State → Option c.State → GoMap Str c.State × Option c.Value
  unfolding insert
  fetch_at key id nodes none = (nodes, none)
  fetch_at key id nodes (some cache) = let o = c.fetch key cache in (insert id o.0 nodes, o.1)

  unfoldable pub fetch_from : Str → Str → GoMap Str c.State → GoMap Str c.State × Option c.Value
  unfolding lookup fetch_at
  fetch_from key id nodes = fetch_at key id nodes (lookup id nodes)

  unfoldable pub put_at :
      Str → c.Value → ℤ → Str → GoMap Str c.State → Option c.State → GoMap Str c.State × Bool
  unfolding insert
  put_at key value expiration id nodes none = (nodes, false)
  put_at key value expiration id nodes (some cache) =
      let o = c.put key value expiration cache in (insert id o.0 nodes, o.1)

  unfoldable pub put_to : Str → c.Value → ℤ → Str → GoMap Str c.State → GoMap Str c.State × Bool
  unfolding lookup put_at
  put_to key value expiration id nodes = put_at key value expiration id nodes (lookup id nodes)

  unfoldable pub remove_at :
      Str → Str → GoMap Str c.State → Option c.State → GoMap Str c.State × Bool
  unfolding insert
  remove_at key id nodes none = (nodes, false)
  remove_at key id nodes (some cache) = let o = c.remove key cache in (insert id o.0 nodes, o.1)

  unfoldable pub remove_from : Str → Str → GoMap Str c.State → GoMap Str c.State × Bool
  unfolding lookup remove_at
  remove_from key id nodes = remove_at key id nodes (lookup id nodes)

  unfoldable pub or_next :
      GoMap Str c.State × Option c.Value
      → (GoMap Str c.State → GoMap Str c.State × Result ShardError c.Value)
      → GoMap Str c.State × Result ShardError c.Value
  or_next (nodes, some value) next = (nodes, ok value)
  or_next (nodes, none) next = next nodes

  -- The first node that has the key: the primary, and then the backups.
  unfoldable pub first_hit :
      Str → List Str → GoMap Str c.State → GoMap Str c.State × Result ShardError c.Value
  unfolding fetch_from or_next
  first_hit key [] nodes = (nodes, err key_not_found)
  first_hit key (id ∷ ids) nodes = or_next (fetch_from key id nodes) (first_hit key ids)

  unfoldable pub put_backups :
      Str → c.Value → ℤ → List Str → ℕ → GoMap Str c.State → GoMap Str c.State × ℕ
  unfolding put_to
  put_backups key value expiration [] failed nodes = (nodes, failed)
  put_backups key value expiration (id ∷ ids) failed nodes =
      let o = put_to key value expiration id nodes in
      put_backups key value expiration ids (if o.1 then failed else failed + 1) o.0

  unfoldable pub put_all :
      Str → c.Value → ℤ → List Str → GoMap Str c.State → GoMap Str c.State × Option ShardError
  unfolding put_to put_backups set_result
  put_all key value expiration [] nodes = (nodes, some no_nodes)
  put_all key value expiration (id ∷ ids) nodes =
      let primary = put_to key value expiration id nodes in
      let backups = put_backups key value expiration ids 0 primary.0 in
      (backups.0, set_result primary.1 backups.1 (length ids))

  unfoldable pub remove_all : Str → List Str → ℕ → GoMap Str c.State → GoMap Str c.State × ℕ
  unfolding remove_from
  remove_all key [] failed nodes = (nodes, failed)
  remove_all key (id ∷ ids) failed nodes =
      let o = remove_from key id nodes in
      remove_all key ids (if o.1 then failed else failed + 1) o.0

  module _ (hash_func : Str → ℕ) (fuel : ℕ) where
    unfoldable pub get_value :
        Str → NodeSharded c → Result ShardError (NodeSharded c × Result ShardError c.Value)
    unfolding node_ids live first_hit
    get_value key nsc =
        if nat_beq (length nsc.nodes) 0
        then ok (nsc, err no_nodes)
        else (node_ids hash_func fuel key nsc.replica_factor nsc.ring >>= λ ids.
            let o = first_hit key (live ids nsc.nodes) nsc.nodes in
            ok (record nsc { nodes = o.0 }, o.1))

    unfoldable pub set_value :
        Str → c.Value → ℤ → NodeSharded c → Result ShardError (NodeSharded c × Option ShardError)
    unfolding node_ids live put_all
    set_value key value expiration nsc =
        if nat_beq (length nsc.nodes) 0
        then ok (nsc, some no_nodes)
        else (node_ids hash_func fuel key nsc.replica_factor nsc.ring >>= λ ids.
            let o = put_all key value expiration (live ids nsc.nodes) nsc.nodes in
            ok (record nsc { nodes = o.0 }, o.1))

    unfoldable pub del_value :
        Str → NodeSharded c → Result ShardError (NodeSharded c × Option ShardError)
    unfolding node_ids live remove_all
    del_value key nsc =
        if nat_beq (length nsc.nodes) 0
        then ok (nsc, none)
        else (node_ids hash_func fuel key nsc.replica_factor nsc.ring >>= λ ids.
            let targets = live ids nsc.nodes in
            let o = remove_all key targets 0 nsc.nodes in
            ok (
              record nsc { nodes = o.0 },
              if nat_beq o.1 (length targets) && ltb 0 (length targets)
                  then some all_failed
                  else none,
            ))

  unfoldable pub get_node_ids : NodeSharded c → List Str
  unfolding get_nodes
  get_node_ids nsc = get_nodes nsc.ring

  unfoldable pub get_node_count : NodeSharded c → ℕ
  get_node_count nsc = length nsc.nodes
