-- ===== src/Replication/Leader.antt =====
-- cache/replication/leader.go: `LeaderNodeImpl`. What the syncer and the network answer are
-- arguments; a method that locks runs as one step, and each part of `AddFollower` and
-- `ReplicateEntries` between two locks is a definition of its own. The laws are in the child modules.
pub mod Repeated
pub mod Listed
use fyer_cache.Prelude.{is_some}
use fyer_cache.Prelude.Int.{ℤ}
use fyer_cache.Replication.Entry.{Entry}
use fyer_cache.Replication.Syncer.{SyncRequest, SyncResponse}
use fyer_cache.Replication.Role.{leader, ReplicationRole, same_role}
use fyer_cache.Prelude.Str.{Str}
use fyer_cache.Replication.Log.{u64_mod, LogError, Log, get_last_index, get_from}
use fyer_cache.Prelude.Str
use fyer_cache.Prelude.Str.{str_equality}
use fyer_cache.Prelude.GoMap.{GoMap, lookup, insert, delete}
use fyer_cache.Replication.Store.{
  unknown_command, log_panicked, not_leader, unknown, no_entry, raw, log_failed, follower_exists,
  send_failed, no_follower, Outcome, Command, ReplicationError, command_of, Store, store_error,
  set_command, del_command,
}
use fyer_cache.Prelude.Result.{Result, ok, err, panic, ◌>>=◌}
use fyer_cache.Prelude.{
  ℕ, zero, suc, ◌+◌, ◌-◌, ◌*◌, ◌/◌, ◌%◌, ◌^◌, ◌≤◌, ◌<◌, ◌≡◌, refl, sym, ap, ◌∙◌, ◌≢◌, ◌↔◌, ◌⊎◌, inl,
  inr, Bool, true, false, not, ◌&&◌, ◌||◌, Option, none, some, List, [], ◌∷◌, ◌++◌, map,
  append_assoc, append-nil, arith, ltb, leb, nat_beq, if◌then◌else◌, ltb→lt, lt→ltb, leb→le,
  nat_beq_iff, tests, Bool-cases, Option-cases, length, get_elem?, take, drop, replicate,
  length-append, take-append-drop, length-take, length-drop, take_of_length-le, get_elem?-some,
  get_elem?-none, Equality, ◌==◌, nat_equality, beq_refl, beq-eq, beq_ne,
}

pub data ReplicationState : Type 0 where
  normal syncing out_of_sync : ReplicationState

-- A `*time.Timer`: nil, armed, or stopped or fired.
pub data Timer : Type 0 where
  unset armed idle : Timer

unfoldable pub stop_timer : Timer → Timer
stop_timer unset = unset
stop_timer armed = idle
stop_timer idle = idle

pub record Leader (c : Store) : Type 0 where
  pub node_id : Str
  pub role : ReplicationRole
  pub cache : c.State
  pub log : Log
  pub leader_id : Str
  pub max_log_entries : ℤ
  pub followers : GoMap Str Str
  pub follower_status : GoMap Str ReplicationState
  pub heartbeat_timer : Timer
  pub stop_closed : Bool
  pub running : Bool
  pub current_term : ℕ

-- The response that `ReplicateEntries` sends: the log from index 1 on.
unfoldable pub replication_response : ℤ → Log → Result LogError SyncResponse
unfolding get_from get_last_index
replication_response max_count l = do
  es ← get_from 1 max_count l
  ok (record {
    success = true;
    entries = map some es;
    next_index = (get_last_index l + 1) % u64_mod;
  })

-- The response that `RequestSync` makes up, without a request to the target.
unfoldable pub request_sync : Str → SyncRequest → SyncResponse
request_sync target req = record { success = true; entries = []; next_index = 0 }

-- The command of an entry on the cache, its value as the bytes.
unfoldable pub apply_raw : (c : Store) → Command → Entry → c.State → Outcome c.Error c.State
unfolding store_error
apply_raw c set_command e st =
    let o = c.put e.key (raw e.value) e.expiration st in (o.0, store_error o.1)
apply_raw c del_command e st = let o = c.remove e.key st in (o.0, store_error o.1)
apply_raw c (unknown name) e st = (st, some (unknown_command name))

unfoldable pub apply_entry_raw : (c : Store) → Option Entry → c.State → Outcome c.Error c.State
unfolding apply_raw command_of
apply_entry_raw c none st = (st, some no_entry)
apply_entry_raw c (some e) st = apply_raw c (command_of e.command) e st

-- The first error is kept.
unfoldable pub keep_error {ℓ} : {E : Type ℓ} → Option E → Option E → Option E
keep_error none new = new
keep_error (some old) new = some old

module _ {c : Store} where
  unfoldable pub new_leader_node : Str → c.State → Log → ℤ → Leader c
  new_leader_node id cache l max_entries = record {
    node_id = id;
    role = leader;
    cache = cache;
    log = l;
    leader_id = id;
    max_log_entries = max_entries;
    followers = [];
    follower_status = [];
    heartbeat_timer = unset;
    stop_closed = false;
    running = false;
    current_term = 1;
  }

  -- The old timer is stopped and a new one is armed.
  unfoldable pub start_heartbeat : Leader c → Leader c
  start_heartbeat l = record l { heartbeat_timer = armed }

  -- `start_syncer` is the error of the syncer's `Start`.
  unfoldable pub start : Option (ReplicationError c.Error) → Leader c → Outcome c.Error (Leader c)
  unfolding start_heartbeat
  start start_syncer l = if l.running then (l, none) else elim start_syncer [
    | none ↦ (start_heartbeat (record l { running = true }), none)
    | some e ↦ (record l { running = false }, some e)
  ]

  -- After the stop channel is closed; `stop_syncer` is the error of the syncer's `Stop`.
  unfoldable pub stopped : Option (ReplicationError c.Error) → Leader c → Outcome c.Error (Leader c)
  stopped none l = (record l { running = false }, none)
  stopped (some e) l = (l, some e)

  -- A second close of the channel panics: `none`.
  unfoldable pub stop :
      Option (ReplicationError c.Error) → Leader c → Option (Outcome c.Error (Leader c))
  unfolding stopped stop_timer
  stop stop_syncer l =
      if not l.running
      then some (l, none)
      else if l.stop_closed
      then none
      else some (
          stopped stop_syncer
            (record l { heartbeat_timer = stop_timer l.heartbeat_timer; stop_closed = true }))

  unfoldable pub role_changed : ReplicationRole → Leader c → Leader c
  unfolding start_heartbeat same_role stop_timer
  role_changed role l =
      if same_role role leader
      then start_heartbeat (record l { leader_id = l.node_id })
      else record l { heartbeat_timer = stop_timer l.heartbeat_timer }

  unfoldable pub set_role : ReplicationRole → Leader c → Leader c
  unfolding role_changed same_role
  set_role role l =
      if same_role l.role role
      then record l { role = role }
      else role_changed role (record l { role = role })

  -- `_, exists := l.followers[nodeID]`
  unfoldable pub follows : Str → Leader c → Bool
  unfolding lookup
  follows id l = is_some (lookup id l.followers)

  unfoldable pub set_status : Str → ReplicationState → Leader c → Leader c
  unfolding insert
  set_status id state l = record l { follower_status = insert id state l.follower_status }

  -- What `AddFollower` does before it starts the full sync.
  unfoldable pub add_follower : Str → Str → Leader c → Outcome c.Error (Leader c)
  unfolding follows insert
  add_follower id address l = if follows id l then (l, some follower_exists) else (
    record l {
      followers = insert id address l.followers;
      follower_status = insert id out_of_sync l.follower_status;
    },
    none,
  )

  -- The end of that sync, in its own goroutine.
  unfoldable pub full_sync_done : Str → Option (ReplicationError c.Error) → Leader c → Leader c
  unfolding set_status
  full_sync_done id none l = set_status id normal l
  full_sync_done id (some e) l = l

  unfoldable pub remove_follower : Str → Leader c → Outcome c.Error (Leader c)
  unfolding follows delete
  remove_follower id l = if not (follows id l) then (l, some no_follower) else (
    record l { followers = delete id l.followers; follower_status = delete id l.follower_status },
    none,
  )

  -- The goroutine of one follower: whether its server answered with status 200.
  unfoldable pub replicated : Str → Bool → Leader c → Outcome c.Error (Leader c)
  unfolding set_status
  replicated id true l = (set_status id normal l, none)
  replicated id false l = (set_status id out_of_sync l, some send_failed)

  unfoldable pub send_response :
      (Str → Str → SyncResponse → Bool)
      → Str
      → Str
      → Leader c
      → Result LogError SyncResponse
      → Outcome c.Error (Leader c)
  unfolding replicated
  send_response deliver id address l (ok resp) = replicated id (deliver id address resp) l
  send_response deliver id address l (err e) = (l, some (log_failed e))
  send_response deliver id address l panic = (l, some log_panicked)

  unfoldable pub replicate_to :
      (Str → Str → SyncResponse → Bool) → Str → Str → Leader c → Outcome c.Error (Leader c)
  unfolding replication_response send_response
  replicate_to deliver id address l =
      send_response deliver id address l (replication_response l.max_log_entries l.log)

  -- The goroutines in the order in which they end.
  unfoldable pub replicate_all :
      (Str → Str → SyncResponse → Bool)
      → GoMap Str Str
      → Option (ReplicationError c.Error)
      → Leader c
      → Outcome c.Error (Leader c)
  unfolding replicate_to keep_error
  replicate_all deliver [] e l = (l, e)
  replicate_all deliver ((id, address) ∷ rest) e l =
      let o = replicate_to deliver id address l in replicate_all deliver rest (keep_error e o.1) o.0

  unfoldable pub replicate_entries :
      (Str → Str → SyncResponse → Bool) → Leader c → Outcome c.Error (Leader c)
  unfolding replicate_all same_role
  replicate_entries deliver l =
      if not (same_role l.role leader)
      then (l, some not_leader)
      else replicate_all deliver l.followers none l

  unfoldable pub heartbeat_request : Leader c → SyncRequest
  heartbeat_request l = record {
    leader_id = l.node_id;
    last_log_index = 0;
    last_log_term = l.current_term;
    full_sync = false;
  }

  -- `RequestSync` gives no error, so no follower's status changes.
  unfoldable pub send_heartbeat : Leader c → List SyncResponse
  unfolding request_sync heartbeat_request
  send_heartbeat l = map (λ follower. request_sync follower.1 (heartbeat_request l)) l.followers

  -- A tick of the heartbeat timer, after the heartbeats.
  unfoldable pub on_heartbeat_timer : Leader c → Leader c
  unfolding same_role
  on_heartbeat_timer l =
      if l.running && same_role l.role leader
      then record l { heartbeat_timer = armed }
      else record l { heartbeat_timer = idle }

  unfoldable pub apply_entry : Option Entry → Leader c → Outcome c.Error (Leader c)
  unfolding apply_entry_raw
  apply_entry e l = let o = apply_entry_raw c e l.cache in (record l { cache = o.0 }, o.1)

  unfoldable pub update_follower_status : Str → ReplicationState → Leader c → Leader c
  unfolding follows set_status
  update_follower_status id state l = if follows id l then set_status id state l else l
