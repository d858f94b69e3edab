-- ===== src/Replication.antt =====
-- cache/replication: the log, and the nodes that keep it.
pub mod Entry
pub mod Role
pub mod Log
pub mod Store
pub mod Syncer
pub mod Leader
pub mod Follower
mod Examples
