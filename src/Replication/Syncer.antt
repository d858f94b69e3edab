-- ===== src/Replication/Syncer.antt =====
-- cache/replication/syncer.go: `MemorySyncer`. The cache is a parameter, and so are the responses
-- of the other nodes: a request that gets none was not answered with status 200 and a readable
-- body. Encoding/json and the log printed are left out. The laws are in the child modules.
pub mod Requests
pub mod Cleanup
pub mod Endless
pub mod Applying
pub mod Copying
use fyer_cache.Prelude.Str
use fyer_cache.Prelude.Result.{Result, ok, err, panic, ◌>>=◌}
use fyer_cache.Replication.Log.{
  u64_mod, index_of, LogError, int_limit, append, get_from, get_last_term, last_entry, Log,
  get_last_index, truncate,
}
use fyer_cache.Prelude.Int.{◌-ℤ◌, negsuc, pos, ltb_ℤ, ℤ, ◌-ℤ◌}
use fyer_cache.Replication.Store.{
  handler_panicked, raw, text, Value, cancelled, unknown_command, remote_failed, set_command,
  del_command, text, raw, store_failed, log_failed, no_entry, after_retries, channel_full,
  send_failed, unknown, log_error, no_attempt, Outcome, if_ok, command_of, ReplicationError,
  Command, store_error, Store,
}
use fyer_cache.Replication.Entry.{Entry}
use fyer_cache.Prelude.Str.{bytes, Str}
use fyer_cache.Prelude.{
  ℕ, zero, suc, ◌+◌, ◌-◌, ◌*◌, ◌/◌, ◌%◌, ◌^◌, ◌≤◌, ◌<◌, ◌≡◌, refl, sym, ap, ◌∙◌, ◌≢◌, ◌↔◌, ◌⊎◌, inl,
  inr, Bool, true, false, not, ◌&&◌, ◌||◌, Option, none, some, List, [], ◌∷◌, ◌++◌, map,
  append_assoc, append-nil, arith, ltb, leb, nat_beq, if◌then◌else◌, ltb→lt, lt→ltb, leb→le,
  nat_beq_iff, tests, Bool-cases, Option-cases, length, get_elem?, take, drop, replicate,
  length-append, take-append-drop, length-take, length-drop, take_of_length-le, get_elem?-some,
  get_elem?-none, Equality, ◌==◌, nat_equality, beq_refl, beq-eq, beq_ne,
}

pub record SyncRequest : Type 0 where
  pub leader_id : Str
  pub last_log_index : ℕ
  pub last_log_term : ℕ
  pub full_sync : Bool

-- An entry of a response may be a nil pointer.
pub record SyncResponse : Type 0 where
  pub success : Bool
  pub entries : List (Option Entry)
  pub next_index : ℕ

-- The HTTP server: never started, listening, or shut down and still in its field.
pub data Server : Type 0 where
  absent listening shut_down : Server

pub record Syncer (c : Store) : Type 0 where
  pub local : c.State
  pub node_id : Str
  pub log : Log
  pub max_log_entries : ℤ
  pub max_retries : ℕ
  pub log_ch : List Entry
  pub running : Bool
  pub stop_closed : Bool
  pub server : Server

abbrev pub channel_size : ℕ
channel_size = 1000

-- The conversion of a `uint64` to an `int` of 64 bits.
unfoldable pub to_int : ℕ → ℤ
to_int n = if ltb n int_limit then pos n else negsuc (u64_mod - n - 1)

-- The value as the type that the entry names.
unfoldable pub typed_value : Entry → Value
unfolding Str.eq
typed_value e = if Str.eq e.value_type (bytes "string") then text e.value else raw e.value

unfoldable pub response_to : SyncRequest → List Entry → Log → SyncResponse
unfolding get_last_index last_entry index_of
response_to req [] l = record { success = true; entries = []; next_index = get_last_index l }
response_to req (e ∷ es) l = record {
  success = true;
  entries = map some (e ∷ es);
  next_index = index_of (last_entry (e ∷ es));
}

-- A full sync starts at 0.
unfoldable pub start_index : SyncRequest → ℕ
start_index req = if req.full_sync then 0 else req.last_log_index

-- An error is passed on but for a request that starts at 0.
unfoldable pub answered :
    ℕ → SyncRequest → Log → Result LogError (List Entry) → Result LogError SyncResponse
unfolding response_to
answered start req l (ok es) = ok (response_to req es l)
answered start req l (err e) = if ltb 0 start then err e else ok (response_to req [] l)
answered start req l panic = panic

-- An error is status 500, and a panic ends the connection.
unfoldable pub answer_of : Result LogError SyncResponse → Option SyncResponse
answer_of (ok resp) = some resp
answer_of (err e) = none
answer_of panic = none

-- The last index of the entries that are not after the cutoff, up to the first that is.
unfoldable pub truncate_index : ℤ → ℕ → List Entry → ℕ
truncate_index cutoff index [] = index
truncate_index cutoff index (e ∷ es) =
    if ltb_ℤ cutoff e.timestamp then index else truncate_index cutoff e.index es

unfoldable pub truncate_expired : ℕ → Log → Result LogError Log
unfolding truncate
truncate_expired index l = if ltb 0 index then truncate index l else ok l

-- What one round of the retry loop meets: whether the context is done before it and while it
-- waits, and the response to each request of the round, if any.
pub record Attempt : Type 0 where
  pub done_before : Bool
  pub done_waiting : Bool
  pub respond : ℕ → SyncRequest → Option SyncResponse

unfoldable pub shut : Server → Server
shut absent = absent
shut listening = shut_down
shut shut_down = shut_down

-- `none` is a nil pointer.
unfoldable pub all_given : List (Option Entry) → Bool
all_given [] = true
all_given (none ∷ es) = false
all_given (some e ∷ es) = all_given es

module _ {c : Store} where
  unfoldable pub new_memory_syncer : Str → c.State → Log → ℤ → ℕ → Syncer c
  new_memory_syncer id cache l max_entries retries = record {
    local = cache;
    node_id = id;
    log = l;
    max_log_entries = max_entries;
    max_retries = retries;
    log_ch = [];
    running = false;
    stop_closed = false;
    server = absent;
  }

  unfoldable pub start_http_server : Syncer c → Syncer c
  start_http_server s = elim s.server [
    | absent ↦ record s { server = listening }
    | listening ↦ s
    | shut_down ↦ s
  ]

  unfoldable pub start : Syncer c → Syncer c
  unfolding start_http_server
  start s = if s.running then s else start_http_server (record s { running = true })

  unfoldable pub stop : Syncer c → Syncer c
  unfolding shut
  stop s =
      if s.running
      then record s { server = shut s.server; stop_closed = true; running = false }
      else s

  unfoldable pub with_local : Syncer c → c.State × Option c.Error → Outcome c.Error (Syncer c)
  unfolding store_error
  with_local s (local, e) = (record s { local = local }, store_error e)

  unfoldable pub run_command : Command → Entry → Syncer c → Outcome c.Error (Syncer c)
  unfolding typed_value with_local
  run_command set_command e s = with_local s (c.put e.key (typed_value e) e.expiration s.local)
  run_command del_command e s = with_local s (c.remove e.key s.local)
  run_command (unknown name) e s = (s, some (unknown_command name))

  unfoldable pub apply_entry_to_local : Option Entry → Syncer c → Outcome c.Error (Syncer c)
  unfolding command_of run_command
  apply_entry_to_local none s = (s, some no_entry)
  apply_entry_to_local (some e) s = run_command (command_of e.command) e s

  unfoldable pub append_entry : ℤ → Option Entry → Syncer c → Outcome c.Error (Syncer c)
  unfolding append log_error
  append_entry now e s = log_error s (λ l. record s { log = l }) (append now e s.log)

  -- Each entry without a timestamp is given the clock's reading at its `Append`; `now` stands for all
  -- of these readings.
  unfoldable pub apply_sync : ℤ → List (Option Entry) → Syncer c → Outcome c.Error (Syncer c)
  unfolding if_ok apply_entry_to_local append_entry
  apply_sync now [] s = (s, none)
  apply_sync now (e ∷ es) s =
      if_ok (apply_entry_to_local e s) (λ s'. if_ok (append_entry now e s') (apply_sync now es))

  -- One receive of the loop `processLogEntries`, whose error is dropped.
  unfoldable pub process_log_entry : List Entry → Syncer c → Syncer c
  unfolding apply_entry_to_local
  process_log_entry [] s = s
  process_log_entry (e ∷ es) s = (apply_entry_to_local (some e) (record s { log_ch = es })).0

  -- The entry in the log is the one that is sent on.
  unfoldable pub send_entry : Option Entry → Syncer c → Outcome c.Error (Syncer c)
  send_entry none s = (s, none)
  send_entry (some e) s =
      if not s.running
      then (s, none)
      else if ltb (length s.log_ch) channel_size
      then (record s { log_ch = s.log_ch ++ e ∷ [] }, none)
      else (s, some channel_full)

  unfoldable pub record_entry : ℤ → Entry → Syncer c → Outcome c.Error (Syncer c)
  unfolding append_entry if_ok send_entry last_entry
  record_entry now e s =
      if_ok (append_entry now (some e) s) (λ s'. send_entry (last_entry s'.log.entries) s')

  unfoldable pub record_set_operation :
      ℤ → Str → List ℕ → ℤ → ℕ → Syncer c → Outcome c.Error (Syncer c)
  unfolding record_entry
  record_set_operation now key value expiration term s =
      record_entry now
        (record {
          index = 0;
          term = term;
          command = bytes "Set";
          key = key;
          value = value;
          expiration = expiration;
          timestamp = now;
          value_type = bytes "string";
        })
        s

  unfoldable pub record_del_operation : ℤ → Str → ℕ → Syncer c → Outcome c.Error (Syncer c)
  unfolding record_entry
  record_del_operation now key term s =
      record_entry now
        (record {
          index = 0;
          term = term;
          command = bytes "Del";
          key = key;
          value = [];
          expiration = pos 0;
          timestamp = now;
          value_type = [];
        })
        s

  unfoldable pub cleanup_expired_entries : ℤ → ℤ → Syncer c → Result LogError (Syncer c)
  unfolding get_from get_last_index truncate_index truncate_expired to_int
  cleanup_expired_entries now max_age s = do
    es ← get_from 1 (to_int (get_last_index s.log)) s.log
    l ← truncate_expired (truncate_index (now -ℤ max_age) 0 es) s.log
    ok (record s { log = l })

  unfoldable pub handle_sync_request : SyncRequest → Syncer c → Result LogError SyncResponse
  unfolding start_index answered get_from
  handle_sync_request req s =
      answered (start_index req) req s.log
        (get_from ((start_index req + 1) % u64_mod) s.max_log_entries s.log)

  -- The handler of `/replication/sync`, once the request is read.
  unfoldable pub serve_sync : SyncRequest → Syncer c → Option SyncResponse
  unfolding handle_sync_request answer_of
  serve_sync req s = answer_of (handle_sync_request req s)

  -- The handler of `/replication/receive`: whether it answers with status 200. It prints the fields
  -- of each entry before it applies any, and panics at a nil one; `net/http` recovers.
  unfoldable pub receive : ℤ → SyncResponse → Syncer c → Outcome c.Error (Syncer c)
  unfolding apply_sync all_given
  receive now resp s =
      if all_given resp.entries then apply_sync now resp.entries s else (s, some handler_panicked)
