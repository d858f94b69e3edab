-- ===== src/Cluster.antt =====
-- cache/cluster: the members, their events, the gossip and the election.
pub mod NodeInfo
pub mod Events
pub mod Membership
pub mod Gossip
pub mod Election
