-- ===== src/Replication/Role.antt =====
-- `ReplicationRole` of cache/replication/interface.go.
use fyer_cache.Prelude.{Bool, true, false, nat_equality}

pub data ReplicationRole : Type 0 where
  leader follower candidate : ReplicationRole

unfoldable pub same_role : ReplicationRole → ReplicationRole → Bool
same_role leader leader = true
same_role follower follower = true
same_role candidate candidate = true
same_role _ _ = false
