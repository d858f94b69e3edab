-- ===== src/Cluster/Election/Candidacy.antt =====
-- The election loop, `startElection` and `handleVoteResponse` of cache/cluster/election.go.
use fyer_cache.Cluster.Election.{
  u64_mod, VoteRequest, reset_election_timer, ElectionError, ElectionManager, VoteResponse,
  become_follower, become_leader, critical, publish_role_change_event,
}
use fyer_cache.Prelude.{
  ℕ, ◌+◌, ◌/◌, ◌%◌, Bool, true, false, not, ◌||◌, Option, none, some, List, [], ◌∷◌, ltb, leb,
  nat_beq, if◌then◌else◌, length, nat_equality,
}
use fyer_cache.Prelude.Str
use fyer_cache.Prelude.Str.{Str, str_equality}
use fyer_cache.Prelude.GoMap.{insert}
use fyer_cache.Prelude.Result.{Result, ok, ◌>>=◌}
use fyer_cache.Replication.Role.{ReplicationRole, leader, follower, candidate, same_role}
use fyer_cache.Cluster.NodeInfo.{NodeInfo, NodeStatus, up, suspect, down, left}

-- Up or suspect: the nodes that are sent votes and heartbeats.
unfoldable pub reachable : NodeStatus → Bool
reachable up = true
reachable suspect = true
reachable down = false
reachable left = false

-- The members that a message goes to, each with the address that `GetNodeAddr` finds.
unfoldable pub recipients : Str → (Str → Option Str) → List NodeInfo → List Str
unfolding reachable
recipients node_id addr_of [] = []
recipients node_id addr_of (n ∷ ns) =
    let rest = recipients node_id addr_of ns in
    if Str.eq n.id node_id || not (reachable n.status)
    then rest
    else elim (addr_of n.id) [ none ↦ rest | some addr ↦ addr ∷ rest ]

-- The state of a new candidate.
unfoldable pub candidacy : ElectionManager → ElectionManager
unfolding publish_role_change_event reset_election_timer insert
candidacy em = reset_election_timer (
    publish_role_change_event candidate (record em {
      current_term = (em.current_term + 1) % u64_mod;
      role = candidate;
      voted_for = em.node_id;
      votes_received = insert em.node_id true [];
    }))

unfoldable pub vote_request : ElectionManager → VoteRequest
vote_request em = record {
  term = em.current_term;
  candidate_id = em.node_id;
  last_log_index = em.last_log_index;
  last_log_term = em.last_log_term;
  priority = em.config.priority;
}

-- The request, and the addresses that it goes to.
unfoldable pub start_election_locked :
    List NodeInfo
    → (Str → Option Str)
    → ElectionManager
    → Result ElectionError (ElectionManager × (VoteRequest × List Str))
unfolding candidacy vote_request recipients
start_election_locked members addr_of em =
    ok (candidacy em, (vote_request (candidacy em), recipients em.node_id addr_of members))

unfoldable pub start_election :
    List NodeInfo
    → (Str → Option Str)
    → ElectionManager
    → Result ElectionError (ElectionManager × (VoteRequest × List Str))
unfolding critical start_election_locked
start_election members addr_of em = critical (start_election_locked members addr_of) em

-- The election loop, when its timer fires: it reads the role under the lock.
unfoldable pub role_locked :
    ElectionManager → Result ElectionError (ElectionManager × ReplicationRole)
role_locked em = ok (em, em.role)

unfoldable pub unless_leader :
    List NodeInfo
    → (Str → Option Str)
    → ElectionManager × ReplicationRole
    → Result ElectionError (ElectionManager × Option (VoteRequest × List Str))
unfolding start_election
unless_leader members addr_of (em, leader) = ok (em, none)
unless_leader members addr_of (em, follower) =
    start_election members addr_of em >>= λ (em', request). ok (em', some request)
unless_leader members addr_of (em, candidate) =
    start_election members addr_of em >>= λ (em', request). ok (em', some request)

unfoldable pub on_election_timer :
    List NodeInfo
    → (Str → Option Str)
    → ElectionManager
    → Result ElectionError (ElectionManager × Option (VoteRequest × List Str))
unfolding critical role_locked unless_leader
on_election_timer members addr_of em = critical role_locked em >>= unless_leader members addr_of

unfoldable pub votes_needed : List NodeInfo → ℕ
votes_needed members = length members / 2 + 1

unfoldable pub counted : Str → VoteResponse → ElectionManager → ElectionManager
unfolding insert
counted voter resp em =
    if resp.vote_granted
    then record em { votes_received = insert voter true em.votes_received }
    else em

-- The response of a candidate's own term: the vote is counted.
unfoldable pub tally :
    Str → VoteResponse → List NodeInfo → ElectionManager → Result ElectionError ElectionManager
unfolding counted votes_needed become_leader
tally voter resp members em =
    if leb (votes_needed members) (length (counted voter resp em).votes_received)
    then become_leader (counted voter resp em)
    else ok (counted voter resp em)

-- `handleVoteResponse` past its first test.
unfoldable pub accept_response :
    Str → VoteResponse → List NodeInfo → ElectionManager → Result ElectionError ElectionManager
unfolding become_follower tally
accept_response voter resp members em =
    if ltb em.current_term resp.term
    then ok (become_follower resp.voted_for (record em { current_term = resp.term }))
    else tally voter resp members em

unfoldable pub handle_vote_response_locked :
    Str
    → VoteResponse
    → List NodeInfo
    → ElectionManager
    → Result ElectionError (ElectionManager × Unit {0})
unfolding accept_response same_role
handle_vote_response_locked voter resp members em =
    if not (same_role em.role candidate) || not (nat_beq resp.term em.current_term)
    then ok (em, tt)
    else (accept_response voter resp members em >>= λ em'. ok (em', tt))

unfoldable pub handle_vote_response :
    Str
    → VoteResponse
    → List NodeInfo
    → ElectionManager
    → Result ElectionError (ElectionManager × Unit {0})
unfolding critical handle_vote_response_locked
handle_vote_response voter resp members em =
    critical (handle_vote_response_locked voter resp members) em
