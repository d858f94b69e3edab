-- ===== src/Cluster/Election/Handlers.antt =====
-- `HandleVoteRequest`, `HandleHeartbeat`, the heartbeats and `SetLogInfo` of cache/cluster/election.go.
use fyer_cache.Cluster.Election.Candidacy.{recipients}
use fyer_cache.Cluster.Election.{
  stale_heartbeat, armed, ElectionError, VoteResponse, ElectionManager, Heartbeat, VoteRequest,
  become_follower, critical, reset_election_timer,
}
use fyer_cache.Prelude.{
  ℕ, Bool, true, false, not, ◌&&◌, ◌||◌, Option, none, some, List, [], ltb, leb, nat_beq,
  if◌then◌else◌, nat_equality,
}
use fyer_cache.Prelude.Int.{ℤ}
use fyer_cache.Prelude.Str.{Str, str_equality}
use fyer_cache.Prelude.Str
use fyer_cache.Prelude.Result.{Result, ok, err}
use fyer_cache.Replication.Role.{leader, follower, same_role}
use fyer_cache.Cluster.NodeInfo.{NodeInfo}

-- The candidate's log is no older than this node's.
unfoldable pub log_ok : VoteRequest → ElectionManager → Bool
log_ok req em =
    ltb em.last_log_term req.last_log_term
    || (nat_beq req.last_log_term em.last_log_term && leb em.last_log_index req.last_log_index)

unfoldable pub refusal : ElectionManager → VoteResponse
refusal em = record { term = em.current_term; vote_granted = false; voted_for = em.voted_for }

-- A request of a newer term moves the node to that term.
unfoldable pub advanced : VoteRequest → ElectionManager → ElectionManager
unfolding become_follower same_role
advanced req em =
    if ltb em.current_term req.term
    then (let em' = record em { current_term = req.term; voted_for = [] } in
        if same_role em.role follower then em' else become_follower [] em')
    else em

unfoldable pub grant : VoteRequest → ElectionManager → ElectionManager × VoteResponse
unfolding reset_election_timer
grant req em = (
  reset_election_timer (record em { voted_for = req.candidate_id }),
  record { term = em.current_term; vote_granted = true; voted_for = req.candidate_id },
)

-- The vote in the current term. A higher priority of this node is only reported.
unfoldable pub vote_in_term : VoteRequest → ElectionManager → ElectionManager × VoteResponse
unfolding refusal log_ok grant
vote_in_term req em =
    if not (Str.eq em.voted_for []) && not (Str.eq em.voted_for req.candidate_id)
    then (em, refusal em)
    else if log_ok req em
    then grant req em
    else (em, refusal em)

unfoldable pub decide : VoteRequest → ElectionManager → ElectionManager × VoteResponse
unfolding refusal advanced vote_in_term
decide req em =
    if ltb req.term em.current_term then (em, refusal em) else vote_in_term req (advanced req em)

unfoldable pub handle_vote_request_locked :
    VoteRequest → ElectionManager → Result ElectionError (ElectionManager × VoteResponse)
unfolding decide
handle_vote_request_locked req em = ok (decide req em)

unfoldable pub handle_vote_request :
    VoteRequest → ElectionManager → Result ElectionError (ElectionManager × VoteResponse)
unfolding critical handle_vote_request_locked
handle_vote_request req em = critical (handle_vote_request_locked req) em

-- A heartbeat of the current term or a newer one.
unfoldable pub heard : ℤ → Heartbeat → ElectionManager → ElectionManager
unfolding become_follower reset_election_timer same_role
heard now hb em =
    let em' = record em { last_heartbeat = now } in
    if ltb em.current_term hb.term
    then become_follower hb.leader_id (record em' { current_term = hb.term })
    else if not (Str.eq em.current_leader hb.leader_id)
    then become_follower hb.leader_id em'
    else if not (same_role em.role follower)
    then become_follower hb.leader_id em'
    else reset_election_timer em'

unfoldable pub handle_heartbeat_locked :
    ℤ → Heartbeat → ElectionManager → Result ElectionError (ElectionManager × Unit {0})
unfolding heard
handle_heartbeat_locked now hb em =
    if ltb hb.term em.current_term
    then err (stale_heartbeat hb.term em.current_term)
    else ok (heard now hb em, tt)

unfoldable pub handle_heartbeat :
    ℤ → Heartbeat → ElectionManager → Result ElectionError (ElectionManager × Unit {0})
unfolding critical handle_heartbeat_locked
handle_heartbeat now hb em = critical (handle_heartbeat_locked now hb) em

-- The heartbeat's goroutine, when its timer fires: the heartbeat and the addresses that it goes to.
unfoldable pub beat_locked :
    List NodeInfo
    → (Str → Option Str)
    → ElectionManager
    → Result ElectionError (ElectionManager × Option (Heartbeat × List Str))
unfolding recipients same_role
beat_locked members addr_of em =
    if same_role em.role leader
    then ok (
      record em { heartbeat_timer = armed em.config.heartbeat_interval },
      some (
        record { term = em.current_term; leader_id = em.node_id },
        recipients em.node_id addr_of members,
      ),
    )
    else ok (em, none)

unfoldable pub on_heartbeat_timer :
    List NodeInfo
    → (Str → Option Str)
    → ElectionManager
    → Result ElectionError (ElectionManager × Option (Heartbeat × List Str))
unfolding critical beat_locked
on_heartbeat_timer members addr_of em = critical (beat_locked members addr_of) em

unfoldable pub set_log_info_locked :
    ℕ → ℕ → ElectionManager → Result ElectionError (ElectionManager × Unit {0})
set_log_info_locked last_index last_term em =
    ok (record em { last_log_index = last_index; last_log_term = last_term }, tt)

unfoldable pub set_log_info :
    ℕ → ℕ → ElectionManager → Result ElectionError (ElectionManager × Unit {0})
unfolding critical set_log_info_locked
set_log_info last_index last_term em = critical (set_log_info_locked last_index last_term) em
