-- ===== src/Cluster/Gossip/Local.antt =====
-- cache/cluster/gossip.go: what a gossip message changes.
use fyer_cache.Prelude.{
  ◌≡◌, refl, ◌∙◌, inl, inr, Bool, true, false, Option, none, some, List, [], ◌∷◌, ◌++◌, Bool-cases,
  nat_equality,
}
use fyer_cache.Prelude.Int.{ℤ}
use fyer_cache.Prelude.Str.{Str, str_equality, bytes}
use fyer_cache.Prelude.Str
use fyer_cache.Prelude.GoMap.{GoMap, lookup, lookup-insert_ne, lookup-delete}
use fyer_cache.Prelude.Result.{ok}
use fyer_cache.Cluster.NodeInfo.{NodeInfo, NodeStatus, up, suspect, down, left, same_status}
use fyer_cache.Cluster.Membership.{
  Membership, notify, put_member, add_found, add_member, remove_found, remove_member, suspect_found,
  mark_suspect, alive_found, mark_alive, failed_found, mark_failed,
}
use fyer_cache.Cluster.Membership.Tracked.{
  Tracked, Op, added, removed, suspected, revived, failed, run, run-Tracked, apply,
}
use fyer_cache.Cluster.Gossip.{
  GossipNodeInfo, handle_status, handle_nodes, handle_gossip, status_of,
}

-- The calls that a message makes.
status_ops : Option NodeStatus → ℤ → Str → GossipNodeInfo → List Op
status_ops none now sender node = []
status_ops (some up) now sender node =
    added now node.id node.address node.metadata ∷ revived now node.id ∷ []
status_ops (some suspect) now sender node =
    added now node.id node.address node.metadata ∷ suspected now node.id ∷ []
status_ops (some down) now sender node = failed node.id (bytes "reported down by " ++ sender) ∷ []
status_ops (some left) now sender node = removed node.id true ∷ []

handle_status-run :
    (o : Option NodeStatus) (now : ℤ) (sender : Str) (node : GossipNodeInfo) (m : Membership)
    → handle_status o now sender node m ≡ run (status_ops o now sender node) m
unfolding handle_status status_ops run apply
handle_status-run none now sender node m = refl
handle_status-run (some up) now sender node m = refl
handle_status-run (some suspect) now sender node m = refl
handle_status-run (some down) now sender node m = refl
handle_status-run (some left) now sender node m = refl

handle_nodes-Tracked :
    (local_id : Str) (now : ℤ) (sender : Str) (nodes : List GossipNodeInfo) (m : Membership)
    → Tracked m
    → Tracked (handle_nodes local_id now sender nodes m)
unfolding handle_nodes
handle_nodes-Tracked local_id now sender [] m k = k
handle_nodes-Tracked local_id now sender (node ∷ rest) m k =
    let m' = handle_status (status_of node.status) now sender node m in
    let k' : Tracked m' =
      rw (handle_status-run (status_of node.status) now sender node m)
        (run-Tracked (status_ops (status_of node.status) now sender node) m k) in
    handle_nodes-Tracked local_id now sender rest _
      (elim (Bool-cases (Str.eq node.id local_id)) [ inl t ↦ rw t k | inr t ↦ rw t k' ])

module _ (id j : Str) (m : Membership) (other : Str.eq id j ≡ false) where
  add_found-other :
      (o : Option NodeInfo) (now : ℤ) (addr : Str) (md : Option (GoMap Str Str))
      → lookup j (add_found o now id addr md m).members ≡ lookup j m.members
  unfolding add_found notify put_member
  add_found-other none now addr md = lookup-insert_ne id j _ m.members other
  add_found-other (some n) now addr md = lookup-insert_ne id j _ m.members other

  alive_found-other :
      (o : Option NodeInfo) (now : ℤ)
      → lookup j (alive_found o now id m).members ≡ lookup j m.members
  unfolding alive_found notify put_member
  alive_found-other none now = refl
  alive_found-other (some n) now = elim (Bool-cases (same_status n.status suspect)) [
    | inl t ↦ rw t (lookup-insert_ne id j _ m.members other)
    | inr t ↦ rw t (lookup-insert_ne id j _ m.members other)
  ]

  suspect_found-other :
      (o : Option NodeInfo) (now : ℤ)
      → lookup j (suspect_found o now id m).members ≡ lookup j m.members
  unfolding suspect_found put_member
  suspect_found-other none now = refl
  suspect_found-other (some n) now = elim (Bool-cases (same_status n.status up)) [
    | inl t ↦ rw t (lookup-insert_ne id j _ m.members other)
    | inr t ↦ rw t refl
  ]

  failed_found-other :
      (o : Option NodeInfo) (reason : Str)
      → lookup j (failed_found o id reason m).members ≡ lookup j m.members
  unfolding failed_found notify put_member
  failed_found-other none reason = refl
  failed_found-other (some n) reason = lookup-insert_ne id j _ m.members other

  remove_found-other :
      (o : Option NodeInfo) (graceful : Bool)
      → lookup j (remove_found o id graceful m).members ≡ lookup j m.members
  unfolding remove_found notify
  remove_found-other none graceful = refl
  remove_found-other (some n) graceful = lookup-delete id j m.members ∙ rw other refl

handle_status-other :
    (o : Option NodeStatus) (now : ℤ) (sender : Str) (node : GossipNodeInfo) (j : Str)
    (m : Membership)
    → Str.eq node.id j ≡ false
    → lookup j (handle_status o now sender node m).members ≡ lookup j m.members
unfolding handle_status add_member mark_alive mark_suspect mark_failed remove_member
handle_status-other none now sender node j m other = refl
handle_status-other (some up) now sender node j m other =
    alive_found-other node.id j (add_member now node.id node.address node.metadata m) other _ now
    ∙ add_found-other node.id j m other _ now node.address node.metadata
handle_status-other (some suspect) now sender node j m other =
    suspect_found-other node.id j (add_member now node.id node.address node.metadata m) other _ now
    ∙ add_found-other node.id j m other _ now node.address node.metadata
handle_status-other (some down) now sender node j m other = failed_found-other node.id j m other _ _
handle_status-other (some left) now sender node j m other =
    remove_found-other node.id j m other _ true

handle_nodes-local :
    (local_id : Str) (now : ℤ) (sender : Str) (nodes : List GossipNodeInfo) (m : Membership)
    → lookup local_id (handle_nodes local_id now sender nodes m).members ≡ lookup local_id m.members
unfolding handle_nodes
handle_nodes-local local_id now sender [] m = refl
handle_nodes-local local_id now sender (node ∷ rest) m =
    handle_nodes-local local_id now sender rest _ ∙ elim (Bool-cases (Str.eq node.id local_id)) [
      | inl t ↦ rw t refl
      | inr t ↦ rw t (handle_status-other (status_of node.status) now sender node local_id m t)
    ]

-- A gossip message, whatever it says, leaves the entry of the local node as it is, and keeps a
-- time for each suspect member where each has one before.
pub handle_gossip_lem :
    (local_id : Str) (now : ℤ) (sender : Str) (nodes : List GossipNodeInfo) (m : Membership)
    → Tracked m
    → (m' : Membership) × (handle_gossip true local_id now sender (some nodes) m ≡ ok m')
      × (lookup local_id m'.members ≡ lookup local_id m.members)
      × Tracked m'
unfolding handle_gossip
handle_gossip_lem local_id now sender nodes m k = (
  handle_nodes local_id now sender nodes m,
  refl,
  handle_nodes-local local_id now sender nodes m,
  handle_nodes-Tracked local_id now sender nodes m k,
)
