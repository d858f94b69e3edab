-- ===== src/Replication/Leader/Repeated.antt =====
-- `ReplicateEntries` and the follower's `/replication/receive`: what a second call sends.
use fyer_cache.Replication.Store.{Outcome}
use fyer_cache.Prelude.Str.{Str, str_equality}
use fyer_cache.Prelude.GoMap.{GoMap}
use fyer_cache.Replication.Entry.{Entry}
use fyer_cache.Replication.Role.{leader as role_leader}
use fyer_cache.Replication.Log.{u64_mod, get_last_index}
use fyer_cache.Replication.Syncer.{SyncResponse, Syncer}
use fyer_cache.Replication.Leader.{Leader}
use fyer_cache.Replication.Store.{Store}
use fyer_cache.Prelude.{ℕ, ◌+◌, ◌%◌, ◌≡◌, true, none, some, map, nat_equality}

module _ {c d : Store} (leader : Leader d) (follower : Syncer c) (m : ℕ) where
  -- The whole log as one response.
  abbrev pub response : SyncResponse
  response = record {
    success = true;
    entries = map some leader.log.entries;
    next_index = (get_last_index leader.log + 1) % u64_mod;
  }

  -- No error, and of the leader the statuses alone may differ.
  abbrev Quiet : Leader d → Outcome d.Error (Leader d) → Type 0
  Quiet l o =
      (o.1 ≡ none)
      × (o.0.log ≡ l.log)
      × (o.0.max_log_entries ≡ l.max_log_entries)
      × (o.0.role ≡ l.role)
