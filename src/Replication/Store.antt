-- ===== src/Replication/Store.antt =====
-- The `cache.Cache` that a replication component is given: its implementation is a parameter. A
-- call may fail, and leaves a state either way. The command of an entry decides which call is made.
use fyer_cache.Prelude.Str
use fyer_cache.Prelude.Result.{Result, ok, err, panic}
use fyer_cache.Prelude.Int.{ℤ}
use fyer_cache.Replication.Log.{LogError, Log}
use fyer_cache.Prelude.Str.{bytes, Str}
use fyer_cache.Prelude.{ℕ, Option, none, some, List, if◌then◌else◌, nat_equality}

-- The dynamic type of a value that replication stores: a string or a byte slice.
pub data Value : Type 0 where
  text : Str → Value
  raw : List ℕ → Value

pub record Store : Type 1 where
  pub State : Type 0
  pub Error : Type 0
  pub put : Str → Value → ℤ → State → State × Option Error
  pub remove : Str → State → State × Option Error

pub data Command : Type 0 where
  set_command del_command : Command
  unknown : Str → Command

-- The `switch` on `entry.Command`.
unfoldable pub command_of : Str → Command
unfolding Str.eq
command_of name =
    if Str.eq name (bytes "Set")
    then set_command
    else if Str.eq name (bytes "Del")
    then del_command
    else unknown name

pub data ReplicationError (E : Type 0) : Type 0 where
  no_entry channel_full cancelled send_failed remote_failed no_leader not_leader follower_exists
        no_follower log_panicked handler_panicked :
      ReplicationError E
  unknown_command : Str → ReplicationError E
  log_failed : LogError → ReplicationError E
  store_failed : E → ReplicationError E
  after_retries : ReplicationError E → ReplicationError E
  no_attempt : ReplicationError E

-- A state, with the error of a call that failed.
abbrev pub Outcome : Type 0 → Type 0 → Type 0
Outcome E S = S × Option (ReplicationError E)

-- The next call is made when the last one did not fail.
unfoldable pub if_ok : {S E : Type 0} → Outcome E S → (S → Outcome E S) → Outcome E S
if_ok (s, none) next = next s
if_ok (s, some e) next = (s, some e)

unfoldable pub store_error : {E : Type 0} → Option E → Option (ReplicationError E)
store_error none = none
store_error (some e) = some (store_failed e)

-- `Append` does not panic.
unfoldable pub log_error : {E S : Type 0} → S → (Log → S) → Result LogError Log → Outcome E S
log_error s next (ok l) = (next l, none)
log_error s next (err e) = (s, some (log_failed e))
log_error s next panic = (s, some log_panicked)
