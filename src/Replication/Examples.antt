-- ===== src/Replication/Examples.antt =====
-- Runs of the syncer and of the leader on a small log.
use fyer_cache.Replication.Leader.{new_leader_node}
use fyer_cache.Replication.Leader.Listed.{apply_it}
use fyer_cache.Replication.Syncer.Requests.{full_request, full_sync, incremental_sync}
use fyer_cache.Prelude.Str
use fyer_cache.Replication.Syncer.Cleanup.{cleanup_expired_entries-keeps}
use fyer_cache.Replication.Leader.Repeated.{response}
use fyer_cache.Replication.Syncer.Copying.{copy_log}
use fyer_cache.Replication.Role.{leader}
use fyer_cache.Replication.Leader.Listed.{
  replicate_now, end_sync, remove_it, run-Listed, add_it, run, LeaderOp, Listed,
}
use fyer_cache.Prelude.Int.{pos, ◌-ℤ◌}
use fyer_cache.Replication.Syncer.Endless.{sync_never_succeeds, IsFilled}
use fyer_cache.Replication.Leader.{armed, out_of_sync, Leader}
use fyer_cache.Replication.Log.Indices.{IsValid}
use fyer_cache.Replication.Log.{term_of, last_entry, with_entries, Log, is_zero_time}
use fyer_cache.Replication.Entry.{Entry}
use fyer_cache.Replication.Syncer.Applying.{AllKnown, replay, Reliable}
use fyer_cache.Replication.Store.{Value, Store, command_of}
use fyer_cache.Prelude.Result.{ok}
use fyer_cache.Prelude.Str.{bytes, Str, str_equality}
use fyer_cache.Prelude.GoMap.{GoMap, insert, delete}
use fyer_cache.Replication.Syncer.{
  cleanup_expired_entries, apply_sync, listening, handle_sync_request, SyncResponse, Syncer,
  Attempt, serve_sync,
}
use fyer_cache.Prelude.{
  ◌≡◌, refl, ◌≢◌, Bool, true, false, none, some, List, [], ◌∷◌, arith, nat_equality,
}

-- A cache that never fails: a map.
abbrev map_store : Store
map_store = record {
  State = GoMap Str Value;
  Error = Bool;
  put = λ key v expiration st. (insert key v st, none);
  remove = λ key st. (delete key st, none);
}

map_store-Reliable : Reliable map_store
map_store-Reliable = record { put_ok = λ key v expiration st. refl; remove_ok = λ key st. refl }

abbrev entry_set : Entry
entry_set = record {
  index = 1;
  term = 1;
  command = bytes "Set";
  key = bytes "a";
  value = bytes "x";
  expiration = pos 0;
  timestamp = pos 10;
  value_type = bytes "string";
}

abbrev entry_del : Entry
entry_del = record {
  index = 2;
  term = 1;
  command = bytes "Del";
  key = bytes "a";
  value = [];
  expiration = pos 0;
  timestamp = pos 50;
  value_type = [];
}

abbrev two_log : Log
two_log = record { entries = entry_set ∷ entry_del ∷ []; last_term = 1 }

two_log-IsValid : IsValid two_log
two_log-IsValid = record {
  consecutive = (omega arith, omega arith, (refl, tt));
  fits = omega arith;
}

abbrev filled : Syncer map_store
filled = record {
  local = [];
  node_id = bytes "n1";
  log = two_log;
  max_log_entries = pos 1000;
  max_retries = 3;
  log_ch = [];
  running = true;
  stop_closed = false;
  server = listening;
}

abbrev fresh_node : Syncer map_store
fresh_node = record filled { node_id = bytes "n2"; log = record { entries = []; last_term = 0 } }

abbrev leader_node : Leader map_store
leader_node = record {
  node_id = bytes "n1";
  role = leader;
  cache = [];
  log = two_log;
  leader_id = bytes "n1";
  max_log_entries = pos 1000;
  followers = (bytes "n2", bytes "n2:80") ∷ [];
  follower_status = (bytes "n2", out_of_sync) ∷ [];
  heartbeat_timer = armed;
  stop_closed = false;
  running = true;
  current_term = 1;
}

two_log-AllKnown : AllKnown two_log.entries
unfolding command_of Str.eq
two_log-AllKnown = (tt, (tt, tt))

-- The response to the first request, and none to the later ones.
abbrev once : Attempt
once = record {
  done_before = false;
  done_waiting = false;
  respond = λ k req. serve_sync req filled;
}

filled-IsFilled : IsFilled filled
filled-IsFilled = record { valid = two_log-IsValid; filled = omega arith }

cleanup_expired_entries-keeps_example :
    cleanup_expired_entries (pos 100) (pos 60) filled
    ≡ ok (record filled { log = record { entries = entry_set ∷ []; last_term = 1 } })
unfolding ◌-ℤ◌ with_entries last_entry term_of
cleanup_expired_entries-keeps_example =
    cleanup_expired_entries-keeps filled (pos 100) (pos 60) (entry_set ∷ []) (entry_del ∷ [])
      two_log-IsValid refl refl (omega arith) (refl, tt) refl

sync_never_succeeds_example :
    (full_sync 5 (pos 100) (λ k. once) fresh_node ≢ some (filled, none))
    × (incremental_sync 5 (pos 100) (λ k. once) 0 fresh_node ≢ some (filled, none))
sync_never_succeeds_example =
    sync_never_succeeds 5 (pos 100) (λ k. once) 0 fresh_node filled map_store
      (λ k j req resp served. (filled, filled-IsFilled, served))

copy_log_example :
    (resp : SyncResponse) × (s : Syncer map_store) × (handle_sync_request
        (full_request fresh_node)
        filled
      ≡ ok resp)
    × (apply_sync (pos 100) resp.entries fresh_node ≡ (s, none))
    × (s.log.entries ≡ two_log.entries)
    × (s.local ≡ replay map_store two_log.entries [])
unfolding is_zero_time
copy_log_example =
    copy_log filled fresh_node 1000 (pos 100) map_store-Reliable two_log-IsValid refl (omega arith)
      refl (omega arith) (omega arith) (refl, (refl, tt)) two_log-AllKnown refl

abbrev two_response : SyncResponse
two_response = response leader_node fresh_node 1000

-- Every follower answers with status 200.
abbrev accept : Str → Str → SyncResponse → Bool
accept id address resp = true

abbrev some_ops : List (LeaderOp Bool)
some_ops =
    add_it (bytes "n2") (bytes "n2:80")
    ∷ add_it (bytes "n3") (bytes "n3:80")
    ∷ remove_it (bytes "n2")
    ∷ end_sync (bytes "n2") none
    ∷ replicate_now (λ id address resp. true)
    ∷ apply_it (some entry_set)
    ∷ []

run-Listed_example :
    Listed (run {c = map_store} some_ops (new_leader_node (bytes "n1") [] two_log (pos 1000)))
run-Listed_example = run-Listed map_store some_ops (bytes "n1") [] two_log (pos 1000)
