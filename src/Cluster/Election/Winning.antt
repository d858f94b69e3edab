-- ===== src/Cluster/Election/Winning.antt =====
-- cache/cluster/election.go: what happens to a candidate that has the votes.
use fyer_cache.Cluster.Election.Candidacy.{
  counted, tally, accept_response, handle_vote_response, handle_vote_response_locked, votes_needed,
}
use fyer_cache.Prelude.{
  ◌≤◌, ◌≡◌, refl, ap, ◌∙◌, inl, inr, true, false, not, ◌||◌, List, arith, ltb, leb, nat_beq,
  if◌then◌else◌, Bool-cases, length, nat_equality,
}
use mathlib.Core.Path.{ap₂}
use fyer_cache.Prelude.Str.{Str, str_equality}
use fyer_cache.Prelude.Result.{ok, err, panic, ◌>>=◌}
use fyer_cache.Replication.Role.{leader, candidate, same_role}
use fyer_cache.Cluster.NodeInfo.{NodeInfo}
use fyer_cache.Cluster.Election.{
  ElectionManager, deadlock, VoteResponse, become_leader, start_heartbeat, crowned,
  publish_role_change_event, publish_leader_elected_event, stop, start, stop_locked, start_locked,
  unlock, reset_election_timer, stop_timer, armed,
}
use fyer_cache.Cluster.Election.Terms.{critical_free, lock_held, counted-locked, counted-role}

become_leader_deadlock :
    (em : ElectionManager)
    → em.locked ≡ true
    → em.role ≡ candidate
    → become_leader em ≡ err (deadlock (crowned em))
unfolding become_leader start_heartbeat same_role crowned publish_role_change_event
    publish_leader_elected_event
become_leader_deadlock em held role = rw role (rw (lock_held (crowned em) held, ◌>>=◌) refl)

counted-votes :
    (voter : Str) (resp : VoteResponse) (em : ElectionManager)
    → (counted voter resp (record em { locked = true })).votes_received
      ≡ (counted voter resp em).votes_received
unfolding counted
counted-votes voter resp em = elim (Bool-cases resp.vote_granted) [
  | inl t ↦ rw t refl
  | inr t ↦ rw t refl
]

counted-term :
    (voter : Str) (resp : VoteResponse) (em : ElectionManager)
    → (counted voter resp em).current_term ≡ em.current_term
unfolding counted
counted-term voter resp em = elim (Bool-cases resp.vote_granted) [
  | inl t ↦ rw t refl
  | inr t ↦ rw t refl
]

tally_deadlock :
    (voter : Str) (resp : VoteResponse) (members : List NodeInfo) (em : ElectionManager)
    → em.locked ≡ true
    → em.role ≡ candidate
    → votes_needed members ≤ length (counted voter resp em).votes_received
    → tally voter resp members em ≡ err (deadlock (crowned (counted voter resp em)))
unfolding tally
tally_deadlock voter resp members em held role enough =
    let t : leb (votes_needed members) (length (counted voter resp em).votes_received) ≡ true =
      ground arith in
    rw t (
      become_leader_deadlock (counted voter resp em) (counted-locked voter resp em ∙ held)
        (counted-role voter resp em ∙ role))

accept_deadlock :
    (voter : Str) (resp : VoteResponse) (members : List NodeInfo) (em : ElectionManager)
    → em.locked ≡ true
    → em.role ≡ candidate
    → resp.term ≡ em.current_term
    → votes_needed members ≤ length (counted voter resp em).votes_received
    → accept_response voter resp members em ≡ err (deadlock (crowned (counted voter resp em)))
unfolding accept_response
accept_deadlock voter resp members em held role same enough =
    let no_later : ltb em.current_term resp.term ≡ false = ground arith in
    rw no_later (tally_deadlock voter resp members em held role enough)

respond_deadlock :
    (voter : Str) (resp : VoteResponse) (members : List NodeInfo) (em : ElectionManager)
    → em.locked ≡ true
    → em.role ≡ candidate
    → resp.term ≡ em.current_term
    → votes_needed members ≤ length (counted voter resp em).votes_received
    → handle_vote_response_locked voter resp members em
      ≡ err (deadlock (crowned (counted voter resp em)))
unfolding handle_vote_response_locked same_role
respond_deadlock voter resp members em held role same enough =
    let same_term : nat_beq resp.term em.current_term ≡ true = ground arith in
    let stuck = accept_deadlock voter resp members em held role same enough in
    let asked : not (same_role em.role candidate) || not (nat_beq resp.term em.current_term)
        ≡ false =
      ap₂ (λ r b. not (same_role r candidate) || not b) role same_term in
    ap
      (λ b.
        if b
        then ok (em, tt)
        else ◌>>=◌ {B = ElectionManager × Unit {0}} (accept_response voter resp members em)
            (λ em'. ok (em', tt)))
      asked
    ∙ ap (λ r. ◌>>=◌ {B = ElectionManager × Unit {0}} r (λ em'. ok (em', tt))) stuck

-- A candidate that is not locked, whose votes with the one of a response of its own term are
-- enough to win, becomes the leader of the term, and then waits for ever for the lock that it
-- holds: `handleVoteResponse` does not return.
pub win_deadlock :
    (voter : Str) (resp : VoteResponse) (members : List NodeInfo) (em : ElectionManager)
    → em.locked ≡ false
    → em.role ≡ candidate
    → resp.term ≡ em.current_term
    → votes_needed members ≤ length (counted voter resp em).votes_received
    → (em' : ElectionManager) × (handle_vote_response voter resp members em ≡ err (deadlock em'))
      × (em'.role ≡ leader)
      × (em'.locked ≡ true)
      × (em'.current_term ≡ em.current_term)
unfolding handle_vote_response crowned publish_role_change_event publish_leader_elected_event
win_deadlock voter resp members em free role same enough =
    let held : ElectionManager = record em { locked = true } in
    let stuck =
      respond_deadlock voter resp members held refl role same
        (rw (counted-votes voter resp em) enough) in
    (
      crowned (counted voter resp held),
      critical_free (handle_vote_response_locked voter resp members) em free
          ∙ ap (λ r. ◌>>=◌ {B = ElectionManager × Unit {0}} r (λ x. ok (unlock x.0, x.1))) stuck,
      refl,
      counted-locked voter resp held,
      counted-term voter resp held,
    )

stop_once :
    (em : ElectionManager)
    → em.locked ≡ false
    → em.running ≡ true
    → em.stop_closed ≡ false
    → (em' : ElectionManager) × (stop em ≡ ok (em', tt))
      × (em'.locked ≡ false)
      × (em'.running ≡ false)
      × (em'.stop_closed ≡ true)
unfolding stop stop_locked unlock
stop_once em free running closed = (
  record em {
    locked = false;
    stop_closed = true;
    running = false;
    election_timer = stop_timer em.election_timer;
    heartbeat_timer = stop_timer em.heartbeat_timer;
  },
  critical_free stop_locked em free ∙ rw (running, closed) refl,
  refl,
  refl,
  refl,
)

start_again :
    (em : ElectionManager)
    → em.locked ≡ false
    → em.running ≡ false
    → em.stop_closed ≡ true
    → (em' : ElectionManager) × (start em ≡ ok (em', tt))
      × (em'.locked ≡ false)
      × (em'.running ≡ true)
      × (em'.stop_closed ≡ true)
unfolding start start_locked unlock reset_election_timer
start_again em free running closed = (
  record em { locked = false; running = true; election_timer = armed em.config.election_timeout },
  critical_free start_locked em free ∙ rw (running) refl,
  refl,
  refl,
  closed,
)

stop_panics :
    (em : ElectionManager)
    → em.locked ≡ false
    → em.running ≡ true
    → em.stop_closed ≡ true
    → stop em ≡ panic
unfolding stop stop_locked
stop_panics em free running closed = critical_free stop_locked em free ∙ rw (running, closed) refl

-- A node that runs, with no lock held and its channel open, stops; started again it runs; and the
-- next `Stop` panics, since it closes the closed channel.
pub stop_twice :
    (em : ElectionManager)
    → em.locked ≡ false
    → em.running ≡ true
    → em.stop_closed ≡ false
    → (em₁ em₂ : ElectionManager) × (stop em ≡ ok (em₁, tt))
      × (em₁.running ≡ false)
      × (start em₁ ≡ ok (em₂, tt))
      × (em₂.running ≡ true)
      × (stop em₂ ≡ panic)
stop_twice em free running closed =
    let (em₁, e₁, f₁, r₁, c₁) = stop_once em free running closed in
    let (em₂, e₂, f₂, r₂, c₂) = start_again em₁ f₁ r₁ c₁ in
    (em₁, em₂, e₁, r₁, e₂, r₂, stop_panics em₂ f₂ r₂ c₂)
