-- ===== src/Cluster/Gossip/Examples.antt =====
-- Runs of the gossip of cache/cluster/gossip.go.
use fyer_cache.Prelude.{◌≡◌, true, none, some, List, [], ◌∷◌, nat_equality}
use fyer_cache.Prelude.Int.{pos}
use fyer_cache.Prelude.Str.{Str, bytes, str_equality}
use fyer_cache.Prelude.GoMap.{lookup}
use fyer_cache.Prelude.Result.{ok}
use fyer_cache.Cluster.Membership.{Membership, new_membership}
use fyer_cache.Cluster.Membership.Tracked.{Tracked}
use fyer_cache.Cluster.Gossip.{GossipNodeInfo, handle_gossip}
use fyer_cache.Cluster.Gossip.Local.{handle_gossip_lem}

abbrev a : Str
a = bytes "a"

abbrev b : Str
b = bytes "b"

abbrev fresh : Membership
fresh = new_membership a (bytes "h1:1") (pos 3) (pos 10) none

-- Another node says that this one is down, and that `b` is under suspicion.
abbrev rumours : List GossipNodeInfo
rumours =
    record { id = a; address = bytes "h1:1"; status = pos 2; last_seen = pos 0; metadata = none }
    ∷ record { id = b; address = bytes "h2:1"; status = pos 1; last_seen = pos 0; metadata = none }
    ∷ []

fresh-Tracked : Tracked fresh
unfolding new_membership lookup
fresh-Tracked = record { suspected = λ id node e s. cc }

handle_gossip_lem_example :
    (m' : Membership) × (handle_gossip true a (pos 9) b (some rumours) fresh ≡ ok m')
    × (lookup a m'.members ≡ lookup a fresh.members)
    × Tracked m'
handle_gossip_lem_example = handle_gossip_lem a (pos 9) b rumours fresh fresh-Tracked
