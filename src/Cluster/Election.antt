-- ===== src/Cluster/Election.antt =====
-- cache/cluster/election.go: `ElectionManager`. The mutex is part of the state, since `becomeLeader`
-- takes it again: a `Lock` by the goroutine that holds it never returns. What is published is
-- listed in `published`; a timer is nil, stopped, or armed with its duration. Terms are uint64.
pub mod Candidacy
pub mod Handlers
pub mod Calls
pub mod Voting
pub mod Overlap
pub mod Quorum
pub mod Terms
pub mod Winning
mod Examples
use fyer_cache.Prelude.{
  ℕ, zero, suc, ◌+◌, ◌-◌, ◌*◌, ◌/◌, ◌%◌, ◌^◌, ◌≤◌, ◌<◌, ◌≡◌, refl, sym, ap, ◌∙◌, ◌≢◌, ◌↔◌, ◌⊎◌, inl,
  inr, Bool, true, false, not, ◌&&◌, ◌||◌, Option, none, some, List, [], ◌∷◌, ◌++◌, map,
  append_assoc, append-nil, arith, ltb, leb, nat_beq, if◌then◌else◌, ltb→lt, lt→ltb, leb→le,
  nat_beq_iff, tests, Bool-cases, Option-cases, length, get_elem?, take, drop, replicate,
  length-append, take-append-drop, length-take, length-drop, take_of_length-le, get_elem?-some,
  get_elem?-none, Equality, ◌==◌, nat_equality, beq_refl, beq-eq, beq_ne,
}
use fyer_cache.Prelude.Int.{ℤ, pos, negsuc, ltb_ℤ}
use fyer_cache.Prelude.Str.{Str, str_equality}
use fyer_cache.Prelude.Str
use fyer_cache.Prelude.GoMap.{GoMap, lookup, insert}
use fyer_cache.Prelude.Result.{Result, ok, err, panic, ◌>>=◌}
use fyer_cache.Replication.Role.{ReplicationRole, leader, follower, candidate, same_role}
use fyer_cache.Cluster.NodeInfo.{NodeInfo, NodeStatus, up, suspect, down, left}

pub record ElectionConfig : Type 0 where
  pub election_timeout : ℤ
  pub heartbeat_interval : ℤ
  pub min_election_timeout : ℤ
  pub max_election_timeout : ℤ
  pub priority : ℤ
  pub node_id : Str

abbrev pub millisecond : ℕ
millisecond = 1000000

unfoldable pub default_election_config : ElectionConfig
default_election_config = record {
  election_timeout = pos (500 * millisecond);
  heartbeat_interval = pos (250 * millisecond);
  min_election_timeout = pos (400 * millisecond);
  max_election_timeout = pos (600 * millisecond);
  priority = pos 1;
  node_id = [];
}

unfoldable pub with_election_timeout : ℤ → ElectionConfig → ElectionConfig
with_election_timeout timeout c =
    if ltb_ℤ (pos 0) timeout then record c { election_timeout = timeout } else c

unfoldable pub with_heartbeat_interval : ℤ → ElectionConfig → ElectionConfig
with_heartbeat_interval interval c =
    if ltb_ℤ (pos 0) interval then record c { heartbeat_interval = interval } else c

unfoldable pub with_priority : ℤ → ElectionConfig → ElectionConfig
with_priority priority c = if ltb_ℤ (pos 0) priority then record c { priority = priority } else c

pub data Timer : Type 0 where
  unset stopped : Timer
  armed : ℤ → Timer

-- `if t != nil { t.Stop() }`
unfoldable pub stop_timer : Timer → Timer
stop_timer unset = unset
stop_timer stopped = stopped
stop_timer (armed d) = stopped

pub data ElectionEvent : Type 0 where
  role_change : ReplicationRole → ℕ → ElectionEvent
  leader_elected : ℕ → ElectionEvent

pub record ElectionManager : Type 0 where
  pub node_id : Str
  pub current_term : ℕ
  pub current_leader : Str
  pub config : ElectionConfig
  pub role : ReplicationRole
  pub published : List ElectionEvent
  pub votes_received : GoMap Str Bool
  pub voted_for : Str
  pub last_heartbeat : ℤ
  pub last_log_index : ℕ
  pub last_log_term : ℕ
  pub running : Bool
  pub stop_closed : Bool
  pub locked : Bool
  pub election_timer : Timer
  pub heartbeat_timer : Timer

pub record Heartbeat : Type 0 where
  pub term : ℕ
  pub leader_id : Str

pub record VoteRequest : Type 0 where
  pub term : ℕ
  pub candidate_id : Str
  pub last_log_index : ℕ
  pub last_log_term : ℕ
  pub priority : ℤ

pub record VoteResponse : Type 0 where
  pub term : ℕ
  pub vote_granted : Bool
  pub voted_for : Str

-- `deadlock` holds the state in which the goroutine waits for ever.
pub data ElectionError : Type 0 where
  deadlock : ElectionManager → ElectionError
  stale_heartbeat : ℕ → ℕ → ElectionError

abbrev pub u64_mod : ℕ
u64_mod = 18446744073709551616

-- `options` are applied in their order to the default configuration.
unfoldable pub configured : List (ElectionConfig → ElectionConfig) → ElectionConfig → ElectionConfig
configured [] c = c
configured (o ∷ os) c = configured os (o c)

unfoldable pub new_election_manager :
    Str → ℤ → List (ElectionConfig → ElectionConfig) → ElectionManager
unfolding configured default_election_config
new_election_manager node_id now options = record {
  node_id = node_id;
  current_term = 0;
  current_leader = [];
  config = configured options (record default_election_config { node_id = node_id });
  role = follower;
  published = [];
  votes_received = [];
  voted_for = [];
  last_heartbeat = now;
  last_log_index = 0;
  last_log_term = 0;
  running = false;
  stop_closed = false;
  locked = false;
  election_timer = unset;
  heartbeat_timer = unset;
}

unfoldable pub lock : ElectionManager → Result ElectionError ElectionManager
lock em = if em.locked then err (deadlock em) else ok (record em { locked = true })

unfoldable pub unlock : ElectionManager → ElectionManager
unlock em = record em { locked = false }

-- `em.mu.Lock()`, `defer em.mu.Unlock()`, and the body.
unfoldable pub critical {ℓ} :
    {A : Type ℓ}
    → (ElectionManager → Result ElectionError (ElectionManager × A))
    → ElectionManager
    → Result ElectionError (ElectionManager × A)
unfolding lock unlock
critical body em = do held ← lock em; (em', a) ← body held; ok (unlock em', a)

unfoldable pub reset_election_timer : ElectionManager → ElectionManager
reset_election_timer em = record em { election_timer = armed em.config.election_timeout }

unfoldable pub publish_role_change_event : ReplicationRole → ElectionManager → ElectionManager
publish_role_change_event role em = record em {
  published = em.published ++ role_change role em.current_term ∷ [];
}

unfoldable pub publish_leader_elected_event : ElectionManager → ElectionManager
publish_leader_elected_event em = record em {
  published = em.published ++ leader_elected em.current_term ∷ [];
}

-- The body of each method that locks carries the suffix `_locked`.
unfoldable pub start_locked : ElectionManager → Result ElectionError (ElectionManager × Unit {0})
unfolding reset_election_timer
start_locked em =
    ok (if em.running then em else reset_election_timer (record em { running = true }), tt)

unfoldable pub start : ElectionManager → Result ElectionError (ElectionManager × Unit {0})
unfolding critical start_locked
start em = critical start_locked em

-- `close(em.stopCh)` panics on a channel that is closed.
unfoldable pub stop_locked : ElectionManager → Result ElectionError (ElectionManager × Unit {0})
unfolding stop_timer
stop_locked em =
    if not em.running
    then ok (em, tt)
    else if em.stop_closed
    then panic
    else ok (
      record em {
        stop_closed = true;
        running = false;
        election_timer = stop_timer em.election_timer;
        heartbeat_timer = stop_timer em.heartbeat_timer;
      },
      tt,
    )

unfoldable pub stop : ElectionManager → Result ElectionError (ElectionManager × Unit {0})
unfolding critical stop_locked
stop em = critical stop_locked em

-- `becomeFollower` past its first test.
unfoldable pub step_down : Str → ElectionManager → ElectionManager
unfolding reset_election_timer stop_timer publish_role_change_event same_role
step_down leader_id em =
    let em' = reset_election_timer (record em {
      role = follower;
      current_leader = leader_id;
      heartbeat_timer = stop_timer em.heartbeat_timer;
    }) in
    if same_role em.role follower then em' else publish_role_change_event follower em'

unfoldable pub become_follower : Str → ElectionManager → ElectionManager
unfolding step_down same_role
become_follower leader_id em =
    if same_role em.role follower && Str.eq em.current_leader leader_id
    then em
    else step_down leader_id em

unfoldable pub start_heartbeat : ElectionManager → Result ElectionError ElectionManager
unfolding lock unlock
start_heartbeat em = do
  held ← lock em
  ok (unlock (record held { heartbeat_timer = armed held.config.heartbeat_interval }))

-- What `becomeLeader` does before it starts the heartbeat.
unfoldable pub crowned : ElectionManager → ElectionManager
unfolding publish_role_change_event publish_leader_elected_event stop_timer
crowned em =
    let em' = publish_leader_elected_event (
      publish_role_change_event leader
        (record em { role = leader; current_leader = em.node_id })) in
    record em' { election_timer = stop_timer em'.election_timer }

unfoldable pub become_leader : ElectionManager → Result ElectionError ElectionManager
unfolding crowned start_heartbeat same_role
become_leader em = if same_role em.role leader then ok em else start_heartbeat (crowned em)
