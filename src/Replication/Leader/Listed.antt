-- ===== src/Replication/Leader/Listed.antt =====
-- The leader's two tables: the followers and their states.
use fyer_cache.Prelude.Int.{ℤ}
use fyer_cache.Replication.Log.{Log}
use fyer_cache.Replication.Entry.{Entry}
use fyer_cache.Replication.Leader.{apply_entry, new_leader_node}
use fyer_cache.Replication.Log.{LogError}
use fyer_cache.Replication.Syncer.{SyncResponse}
use fyer_cache.Replication.Leader.{
  follows, update_follower_status, out_of_sync, on_heartbeat_timer, replicate_entries, role_changed,
  replicate_all, set_status, normal, replicate_to, send_response, stopped, replicated,
  remove_follower, full_sync_done, add_follower, set_role, stop, Leader, ReplicationState, start,
}
use fyer_cache.Replication.Role.{leader, same_role, ReplicationRole}
use fyer_cache.Prelude.{is_some}
use fyer_cache.Replication.Store.{Outcome, ReplicationError, Store}
use fyer_cache.Prelude.Result.{Result, ok, err, panic}
use fyer_cache.Prelude.Str.{Str, str_equality}
use fyer_cache.Prelude.GoMap.{GoMap, lookup, insert, delete, lookup-insert, lookup-delete}
use fyer_cache.Prelude.{
  ◌≡◌, Bool, true, false, not, ◌&&◌, Option, none, some, List, [], ◌∷◌, arith, if◌then◌else◌,
  nat_equality,
}

-- What can happen to a leader, in any order; the goroutine of a sync may end after its follower
-- was removed.
pub data LeaderOp (E : Type 0) : Type 0 where
  start_it stop_it : Option (ReplicationError E) → LeaderOp E
  change_role : ReplicationRole → LeaderOp E
  add_it : Str → Str → LeaderOp E
  end_sync : Str → Option (ReplicationError E) → LeaderOp E
  remove_it : Str → LeaderOp E
  end_replication : Str → Bool → LeaderOp E
  replicate_now : (Str → Str → SyncResponse → Bool) → LeaderOp E
  tick : LeaderOp E
  update_status : Str → ReplicationState → LeaderOp E
  apply_it : Option Entry → LeaderOp E

module _ {c : Store} where
  -- A `Stop` that panics leaves what it had.
  unfoldable pub after_stop : Leader c → Option (Outcome c.Error (Leader c)) → Leader c
  after_stop l none = l
  after_stop l (some o) = o.0

  unfoldable pub apply_op : LeaderOp c.Error → Leader c → Leader c
  unfolding start stop set_role add_follower full_sync_done remove_follower replicated
      replicate_entries on_heartbeat_timer update_follower_status apply_entry after_stop
  apply_op (start_it e) l = (start e l).0
  apply_op (stop_it e) l = after_stop l (stop e l)
  apply_op (change_role role) l = set_role role l
  apply_op (add_it id address) l = (add_follower id address l).0
  apply_op (end_sync id e) l = full_sync_done id e l
  apply_op (remove_it id) l = (remove_follower id l).0
  apply_op (end_replication id answered) l = (replicated id answered l).0
  apply_op (replicate_now deliver) l = (replicate_entries deliver l).0
  apply_op tick l = on_heartbeat_timer l
  apply_op (update_status id state) l = update_follower_status id state l
  apply_op (apply_it e) l = (apply_entry e l).0

  unfoldable pub run : List (LeaderOp c.Error) → Leader c → Leader c
  unfolding apply_op
  run [] l = l
  run (op ∷ ops) l = run ops (apply_op op l)

-- Each follower has a state.
abbrev pub ListedIn : GoMap Str Str → GoMap Str ReplicationState → Type 0
ListedIn followers status =
    (id : Str) → is_some (lookup id followers) ≡ true → is_some (lookup id status) ≡ true

ListedIn-insert :
    (f : GoMap Str Str) (s : GoMap Str ReplicationState) (k : Str) (st : ReplicationState)
    → ListedIn f s
    → ListedIn f (insert k st s)
ListedIn-insert f s k st h id p = ground (arith, h id p, lookup-insert k id st s)

ListedIn-added :
    (f : GoMap Str Str) (s : GoMap Str ReplicationState) (k a : Str) (st : ReplicationState)
    → ListedIn f s
    → ListedIn (insert k a f) (insert k st s)
ListedIn-added f s k a st h id p =
    ground (arith, h id, lookup-insert k id st s, lookup-insert k id a f)

ListedIn-delete :
    (f : GoMap Str Str) (s : GoMap Str ReplicationState) (k : Str)
    → ListedIn f s
    → ListedIn (delete k f) (delete k s)
ListedIn-delete f s k h id p = ground (arith, h id, lookup-delete k id s, lookup-delete k id f)

module _ {c : Store} where
  abbrev pub Listed : Leader c → Type 0
  Listed l = ListedIn l.followers l.follower_status

  if-Listed : (b : Bool) (l k : Leader c) → Listed l → Listed k → Listed (if b then l else k)
  if-Listed true l k p q = p
  if-Listed false l k p q = q

  if-Listed_first :
      (b : Bool) (o p : Outcome c.Error (Leader c))
      → Listed o.0
      → Listed p.0
      → Listed (if b then o else p).0
  if-Listed_first true o p h k = h
  if-Listed_first false o p h k = k

  start-Listed :
      (e : Option (ReplicationError c.Error)) (l : Leader c) → Listed l → Listed (start e l).0
  unfolding start
  start-Listed none l h = if-Listed_first l.running _ _ h h
  start-Listed (some e) l h = if-Listed_first l.running _ _ h h

  if-Listed_after :
      (b : Bool) (l : Leader c) (o p : Option (Outcome c.Error (Leader c)))
      → Listed (after_stop l o)
      → Listed (after_stop l p)
      → Listed (after_stop l (if b then o else p))
  if-Listed_after true l o p h k = h
  if-Listed_after false l o p h k = k

  stop-Listed :
      (e : Option (ReplicationError c.Error)) (l : Leader c)
      → Listed l
      → Listed (after_stop l (stop e l))
  unfolding stop stopped after_stop
  stop-Listed none l h =
      if-Listed_after (not l.running) l _ _ h (if-Listed_after l.stop_closed l _ _ h h)
  stop-Listed (some e) l h =
      if-Listed_after (not l.running) l _ _ h (if-Listed_after l.stop_closed l _ _ h h)

  set_role-Listed : (role : ReplicationRole) (l : Leader c) → Listed l → Listed (set_role role l)
  unfolding set_role role_changed
  set_role-Listed role l h =
      if-Listed (same_role l.role role) _ _ h (if-Listed (same_role role leader) _ _ h h)

  set_status-Listed :
      (id : Str) (state : ReplicationState) (l : Leader c)
      → Listed l
      → Listed (set_status id state l)
  unfolding set_status
  set_status-Listed id state l h = ListedIn-insert l.followers l.follower_status id state h

  replicated-Listed :
      (id : Str) (answered : Bool) (l : Leader c) → Listed l → Listed (replicated id answered l).0
  unfolding replicated
  replicated-Listed id true l h = set_status-Listed id normal l h
  replicated-Listed id false l h = set_status-Listed id out_of_sync l h

  send_response-Listed :
      (deliver : Str → Str → SyncResponse → Bool) (id address : Str) (l : Leader c)
      (r : Result LogError SyncResponse)
      → Listed l
      → Listed (send_response deliver id address l r).0
  unfolding send_response
  send_response-Listed deliver id address l (ok resp) h =
      replicated-Listed id (deliver id address resp) l h
  send_response-Listed deliver id address l (err e) h = h
  send_response-Listed deliver id address l panic h = h

  replicate_to-Listed :
      (deliver : Str → Str → SyncResponse → Bool) (id address : Str) (l : Leader c)
      → Listed l
      → Listed (replicate_to deliver id address l).0
  unfolding replicate_to
  replicate_to-Listed deliver id address l h = send_response-Listed deliver id address l _ h

  replicate_all-Listed :
      (deliver : Str → Str → SyncResponse → Bool) (m : GoMap Str Str)
      (e : Option (ReplicationError c.Error)) (l : Leader c)
      → Listed l
      → Listed (replicate_all deliver m e l).0
  unfolding replicate_all
  replicate_all-Listed deliver [] e l h = h
  replicate_all-Listed deliver ((id, address) ∷ rest) e l h =
      replicate_all-Listed deliver rest _ _ (replicate_to-Listed deliver id address l h)

  full_sync_done-Listed :
      (id : Str) (e : Option (ReplicationError c.Error)) (l : Leader c)
      → Listed l
      → Listed (full_sync_done id e l)
  unfolding full_sync_done
  full_sync_done-Listed id none l h = set_status-Listed id normal l h
  full_sync_done-Listed id (some e) l h = h

  apply_op-Listed : (op : LeaderOp c.Error) (l : Leader c) → Listed l → Listed (apply_op op l)
  unfolding apply_op add_follower remove_follower replicate_entries on_heartbeat_timer
      update_follower_status apply_entry
  apply_op-Listed (start_it e) l h = start-Listed e l h
  apply_op-Listed (stop_it e) l h = stop-Listed e l h
  apply_op-Listed (change_role role) l h = set_role-Listed role l h
  apply_op-Listed (add_it id address) l h =
      if-Listed_first (follows id l) _ _ h
        (ListedIn-added l.followers l.follower_status id address out_of_sync h)
  apply_op-Listed (end_sync id e) l h = full_sync_done-Listed id e l h
  apply_op-Listed (remove_it id) l h =
      if-Listed_first (not (follows id l)) _ _ h
        (ListedIn-delete l.followers l.follower_status id h)
  apply_op-Listed (end_replication id answered) l h = replicated-Listed id answered l h
  apply_op-Listed (replicate_now deliver) l h =
      if-Listed_first (not (same_role l.role leader)) _ _ h
        (replicate_all-Listed deliver l.followers none l h)
  apply_op-Listed tick l h = if-Listed (l.running && same_role l.role leader) _ _ h h
  apply_op-Listed (update_status id state) l h =
      if-Listed (follows id l) _ _ (set_status-Listed id state l h) h
  apply_op-Listed (apply_it e) l h = h

  run-Listed_from : (ops : List (LeaderOp c.Error)) (l : Leader c) → Listed l → Listed (run ops l)
  unfolding run
  run-Listed_from [] l h = h
  run-Listed_from (op ∷ ops) l h = run-Listed_from ops (apply_op op l) (apply_op-Listed op l h)

-- From a new leader on, after any sequence of calls of Start, Stop, SetRole, AddFollower,
-- RemoveFollower, ReplicateEntries, UpdateFollowerStatus and ApplyEntry, of ticks of the heartbeat
-- timer, and of ends of the goroutines of a sync or of a replication, each follower has an entry
-- in the table of follower states.
pub run-Listed :
    (c : Store) (ops : List (LeaderOp c.Error)) (id : Str) (cache : c.State) (l : Log)
    (max_entries : ℤ)
    → Listed (run {c = c} ops (new_leader_node id cache l max_entries))
unfolding new_leader_node lookup
run-Listed c ops id cache l max_entries =
    run-Listed_from {c = c} ops (new_leader_node id cache l max_entries) (λ id p. p)
