-- ===== src/Replication/Follower.antt =====
-- cache/replication/follower.go: `FollowerNodeImpl`. A method that locks runs as one step; the
-- outcome of a sync and the clock's reading are arguments.
use fyer_cache.Replication.Entry.{Entry}
use fyer_cache.Replication.Log.{u64_mod}
use fyer_cache.Replication.Role.{leader, follower, ReplicationRole}
use fyer_cache.Replication.Leader.{
  syncing, out_of_sync, unset, normal, ReplicationState, Timer, apply_entry_raw, armed, stop_timer,
}
use fyer_cache.Prelude.Int.{ltb_ℤ, ℤ, ◌-ℤ◌}
use fyer_cache.Prelude.Str.{Str}
use fyer_cache.Replication.Store.{no_leader, Outcome, ReplicationError, Store}
use fyer_cache.Prelude.Str
use fyer_cache.Prelude.{
  ℕ, ◌+◌, ◌%◌, Bool, true, false, not, ◌&&◌, Option, none, some, [], ltb, if◌then◌else◌,
  nat_equality,
}

pub record Follower (c : Store) : Type 0 where
  pub node_id : Str
  pub role : ReplicationRole
  pub cache : c.State
  pub leader_id : Str
  pub leader_addr : Str
  pub heartbeat_timer : Timer
  pub heartbeat_timeout : ℤ
  pub last_heartbeat : ℤ
  pub stop_closed : Bool
  pub running : Bool
  pub sync_state : ReplicationState
  pub current_term : ℕ
  pub has_callback : Bool

module _ {c : Store} where
  unfoldable pub new_follower_node : ℤ → Str → c.State → ℤ → Follower c
  new_follower_node now id cache election_timeout = record {
    node_id = id;
    role = follower;
    cache = cache;
    leader_id = [];
    leader_addr = [];
    heartbeat_timer = unset;
    heartbeat_timeout = election_timeout;
    last_heartbeat = now;
    stop_closed = false;
    running = false;
    sync_state = out_of_sync;
    current_term = 0;
    has_callback = false;
  }

  unfoldable pub start_heartbeat_monitor : Follower c → Follower c
  start_heartbeat_monitor f = record f { heartbeat_timer = armed }

  unfoldable pub start : Follower c → Follower c
  unfolding start_heartbeat_monitor
  start f = if f.running then f else start_heartbeat_monitor (record f { running = true })

  -- A second close of the channel panics: `none`.
  unfoldable pub stop : Follower c → Option (Follower c)
  unfolding stop_timer
  stop f =
      if not f.running
      then some f
      else if f.stop_closed
      then none
      else some (record f {
        heartbeat_timer = stop_timer f.heartbeat_timer;
        stop_closed = true;
        running = false;
      })

  unfoldable pub set_role : ReplicationRole → Follower c → Follower c
  set_role role f = record f { role = role }

  unfoldable pub set_leader : ℤ → Str → Str → Follower c → Follower c
  set_leader now id address f = record f {
    leader_id = id;
    leader_addr = address;
    last_heartbeat = now;
  }

  -- The state after a sync that ended with this error, or with none.
  unfoldable pub synced_with :
      Option (ReplicationError c.Error) → Follower c → Outcome c.Error (Follower c)
  synced_with none f = (record f { sync_state = normal }, none)
  synced_with (some e) f = (record f { sync_state = out_of_sync }, some e)

  -- `SyncFromLeader` and `RequestFullSync`, which differ in the call of the syncer only: `result`
  -- is its error.
  unfoldable pub sync_from_leader :
      Option (ReplicationError c.Error) → Follower c → Outcome c.Error (Follower c)
  unfolding synced_with Str.eq
  sync_from_leader result f =
      if Str.eq f.leader_addr []
      then (f, some no_leader)
      else synced_with result (record f { sync_state = syncing })

  unfoldable pub request_full_sync :
      Option (ReplicationError c.Error) → Follower c → Outcome c.Error (Follower c)
  unfolding synced_with Str.eq
  request_full_sync result f =
      if Str.eq f.leader_addr []
      then (f, some no_leader)
      else synced_with result (record f { sync_state = syncing })

  unfoldable pub handle_heartbeat : ℤ → Str → ℕ → Follower c → Follower c
  unfolding Str.eq
  handle_heartbeat now id term f = record f {
    current_term = if ltb f.current_term term then term else f.current_term;
    last_heartbeat = now;
    leader_id = if Str.eq f.leader_id [] then id else f.leader_id;
  }

  unfoldable pub promote_to_leader : Follower c → Follower c
  unfolding stop_timer
  promote_to_leader f = record f {
    current_term = (f.current_term + 1) % u64_mod;
    role = leader;
    leader_id = f.node_id;
    heartbeat_timer = stop_timer f.heartbeat_timer;
  }

  unfoldable pub apply_entry : Option Entry → Follower c → Outcome c.Error (Follower c)
  unfolding apply_entry_raw
  apply_entry e f = let o = apply_entry_raw c e f.cache in (record f { cache = o.0 }, o.1)

  -- A tick of the monitor: whether the election callback is called.
  unfoldable pub on_monitor_timer : ℤ → Follower c → Follower c × Bool
  unfolding ◌-ℤ◌
  on_monitor_timer now f = (
    record f { heartbeat_timer = armed },
    ltb_ℤ f.heartbeat_timeout (now -ℤ f.last_heartbeat) && f.has_callback,
  )

  unfoldable pub set_election_callback : Bool → Follower c → Follower c
  set_election_callback callback f = record f { has_callback = callback }

  unfoldable pub update_last_heartbeat : ℤ → Follower c → Follower c
  update_last_heartbeat now f = record f { last_heartbeat = now }
