-- ===== src/Cluster/NodeInfo.antt =====
-- `NodeInfo`, `NodeStatus` and `ClusterEvent` of cache/interface.go, with the events that
-- cache/cluster/events.go builds. A time is a number of nanoseconds.
use fyer_cache.Prelude.{ℕ, Bool, true, false, Option, nat_equality}
use fyer_cache.Prelude.Int.{ℤ}
use fyer_cache.Prelude.Str.{Str}
use fyer_cache.Prelude.GoMap.{GoMap}

pub data NodeStatus : Type 0 where
  up suspect down left : NodeStatus

unfoldable pub same_status : NodeStatus → NodeStatus → Bool
same_status up up = true
same_status suspect suspect = true
same_status down down = true
same_status left left = true
same_status _ _ = false

-- A nil map is `none`.
pub record NodeInfo : Type 0 where
  pub id : Str
  pub addr : Str
  pub status : NodeStatus
  pub last_seen : ℤ
  pub metadata : Option (GoMap Str Str)

pub data ClusterEvent : Type 0 where
  node_join : Str → Str → ClusterEvent
  node_leave : Str → Bool → ClusterEvent
  node_failed : Str → Str → ClusterEvent
  node_recovered : Str → ClusterEvent
  sync_completed : Str → ℕ → ClusterEvent
