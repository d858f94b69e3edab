-- ===== src/Cluster/Gossip.antt =====
-- cache/cluster/gossip.go: `Gossiper`. The random choice of the targets is a permutation that is
-- given, and the transport sends what `spread_gossip` returns. encoding/json is left out: a message
-- is the payload that it carries.
pub mod Local
mod Examples
use fyer_cache.Prelude.{
  ℕ, zero, suc, ◌+◌, ◌-◌, ◌*◌, ◌/◌, ◌%◌, ◌^◌, ◌≤◌, ◌<◌, ◌≡◌, refl, sym, ap, ◌∙◌, ◌≢◌, ◌↔◌, ◌⊎◌, inl,
  inr, Bool, true, false, not, ◌&&◌, ◌||◌, Option, none, some, List, [], ◌∷◌, ◌++◌, map,
  append_assoc, append-nil, arith, ltb, leb, nat_beq, if◌then◌else◌, ltb→lt, lt→ltb, leb→le,
  nat_beq_iff, tests, Bool-cases, Option-cases, length, get_elem?, take, drop, replicate,
  length-append, take-append-drop, length-take, length-drop, take_of_length-le, get_elem?-some,
  get_elem?-none, Equality, ◌==◌, nat_equality, beq_refl, beq-eq, beq_ne,
}
use mathlib.Core.Option
use fyer_cache.Prelude.Int.{ℤ, pos, negsuc}
use fyer_cache.Prelude.Str.{Str, bytes, str_equality}
use fyer_cache.Prelude.Str
use fyer_cache.Prelude.GoMap.{GoMap}
use fyer_cache.Prelude.Result.{Result, ok, err, panic, ◌>>=◌}
use fyer_cache.Cluster.NodeInfo.{NodeInfo, NodeStatus, up, suspect, down, left}
use fyer_cache.Cluster.Membership.{
  Membership, members_of, add_member, mark_alive, mark_suspect, mark_failed, remove_member, merge,
}

pub record GossipNodeInfo : Type 0 where
  pub id : Str
  pub address : Str
  pub status : ℤ
  pub last_seen : ℤ
  pub metadata : Option (GoMap Str Str)

unfoldable pub status_code : NodeStatus → ℤ
status_code up = pos 0
status_code suspect = pos 1
status_code down = pos 2
status_code left = pos 3

-- `cache.NodeStatus(node.Status)`, where it is one of the four.
unfoldable pub status_of : ℤ → Option NodeStatus
status_of (pos zero) = some up
status_of (pos (suc zero)) = some suspect
status_of (pos (suc (suc zero))) = some down
status_of (pos (suc (suc (suc zero)))) = some left
status_of _ = none

abbrev pub fanout : ℕ
fanout = 3

unfoldable pub gossip_interval : ℤ → ℤ
gossip_interval (pos zero) = pos 1000000000
gossip_interval (pos (suc n)) = pos (suc n)
gossip_interval (negsuc n) = pos 1000000000

unfoldable pub others : Str → List NodeInfo → List NodeInfo
others local_id [] = []
others local_id (n ∷ ns) =
    if Str.eq n.id local_id then others local_id ns else n ∷ others local_id ns

unfoldable pub metadata_copy : Option (GoMap Str Str) → GoMap Str Str
unfolding merge
metadata_copy none = []
metadata_copy (some md) = merge md []

unfoldable pub to_gossip : NodeInfo → GossipNodeInfo
unfolding status_code metadata_copy
to_gossip n = record {
  id = n.id;
  address = n.addr;
  status = status_code n.status;
  last_seen = n.last_seen;
  metadata = some (metadata_copy n.metadata);
}

-- What `UnmarshalGossipPayload` returns where the payload is no JSON.
pub data GossipError : Type 0 where
  bad_payload : GossipError

-- `members[perm[i]]`
unfoldable pub node_at {ℓ} : {A : Type ℓ} → List A → ℕ → Result GossipError A
node_at nodes i = elim (get_elem? nodes i) [ none ↦ panic | some n ↦ ok n ]

unfoldable pub pick_nodes {ℓ} : {A : Type ℓ} → ℕ → List ℕ → List A → Result GossipError (List A)
unfolding node_at
pick_nodes zero perm nodes = ok []
pick_nodes (suc n) [] nodes = panic
pick_nodes (suc n) (i ∷ perm) nodes = do
  node ← node_at nodes i
  rest ← pick_nodes n perm nodes
  ok (node ∷ rest)

unfoldable pub select_random_nodes {ℓ} :
    {A : Type ℓ} → ℕ → List ℕ → List A → Result GossipError (List A)
unfolding pick_nodes
select_random_nodes n perm nodes =
    if leb (length nodes) n then ok nodes else pick_nodes n perm nodes

-- The addresses that are sent to, and the payload.
unfoldable pub spread_gossip :
    Str → List ℕ → Membership → Result GossipError (List Str × List GossipNodeInfo)
unfolding members_of others to_gossip select_random_nodes
spread_gossip local_id perm m = do
  let nodes = others local_id (members_of m)
  targets ←
      select_random_nodes (if ltb (length nodes) fanout then length nodes else fanout) perm nodes
  ok (map (λ (n : NodeInfo). n.addr) targets, map to_gossip (members_of m))

unfoldable pub handle_status :
    Option NodeStatus → ℤ → Str → GossipNodeInfo → Membership → Membership
handle_status none now sender node m = m
handle_status (some up) now sender node m =
    mark_alive now node.id (add_member now node.id node.address node.metadata m)
handle_status (some suspect) now sender node m =
    mark_suspect now node.id (add_member now node.id node.address node.metadata m)
handle_status (some down) now sender node m =
    mark_failed node.id (bytes "reported down by " ++ sender) m
handle_status (some left) now sender node m = remove_member node.id true m

-- The loop of `HandleGossip`, with the clock's reading; it passes over the local node.
unfoldable pub handle_nodes : Str → ℤ → Str → List GossipNodeInfo → Membership → Membership
unfolding handle_status status_of
handle_nodes local_id now sender [] m = m
handle_nodes local_id now sender (node ∷ rest) m =
    let m' = handle_status (status_of node.status) now sender node m in
    handle_nodes local_id now sender rest (if Str.eq node.id local_id then m else m')

-- A message of another type is passed over; a payload that is no JSON is `none`.
unfoldable pub handle_gossip :
    Bool → Str → ℤ → Str → Option (List GossipNodeInfo) → Membership → Result GossipError Membership
unfolding handle_nodes
handle_gossip false local_id now sender payload m = ok m
handle_gossip true local_id now sender none m = err bad_payload
handle_gossip true local_id now sender (some nodes) m =
    ok (handle_nodes local_id now sender nodes m)
