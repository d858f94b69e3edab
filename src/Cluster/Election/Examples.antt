-- ===== src/Cluster/Election/Examples.antt =====
-- Runs of the election of cache/cluster/election.go.
use mathlib.Core.List.Memᴰ
use fyer_cache.Prelude.{
  inr, sym, ◌∙◌, inl, ℕ, ◌≢◌, nat_beq, nat_beq_iff, ◌+◌, ◌<◌, if◌then◌else◌, Bool-cases,
}
use mathlib.Core.Path.{subst}
use fyer_cache.Cluster.Election.{u64_mod}
use fyer_cache.Cluster.Election.Calls.{asked}
use fyer_cache.Cluster.Election.Candidacy.{start_election, vote_request}
use fyer_cache.Cluster.Election.Overlap.{Distinct}
use fyer_cache.Cluster.Election.Quorum.{voters, ids_of, one_winner, Steps, Vote, answered, stood}
use fyer_cache.Cluster.Election.Calls.{here, next, after, call, logged}
use fyer_cache.Cluster.Election.Candidacy.{candidacy, counted, votes_needed, handle_vote_response}
use fyer_cache.Cluster.Election.Handlers.{handle_vote_request, decide, set_log_info}
use fyer_cache.Prelude.{
  ◌≤◌, ◌≡◌, refl, true, false, none, List, [], ◌∷◌, arith, length, nat_equality,
}
use mathlib.Core.List.{Memᴰ, cons≢nil}
use fyer_cache.Prelude.Int.{pos}
use fyer_cache.Prelude.Str.{Str, bytes, str_equality}
use fyer_cache.Prelude.Str
use fyer_cache.Prelude.GoMap.{insert}
use fyer_cache.Prelude.Result.{ok, err, panic}
use fyer_cache.Replication.Role.{leader, candidate}
use fyer_cache.Cluster.NodeInfo.{NodeInfo, up}
use fyer_cache.Cluster.Election.{
  ElectionManager, deadlock, VoteRequest, VoteResponse, new_election_manager, start, stop,
  publish_role_change_event, reset_election_timer, armed,
}
use fyer_cache.Cluster.Election.Voting.{one_vote_per_term}
use fyer_cache.Cluster.Election.Winning.{win_deadlock, stop_twice}

abbrev a : Str
a = bytes "a"

abbrev b : Str
b = bytes "b"

abbrev c : Str
c = bytes "c"

abbrev member_named : Str → NodeInfo
member_named id = record { id = id; addr = id; status = up; last_seen = pos 0; metadata = none }

abbrev three : List NodeInfo
three = member_named a ∷ member_named b ∷ member_named c ∷ []

abbrev node : Str → ElectionManager
node id = new_election_manager id (pos 0) []

abbrev running_for_office : ElectionManager
running_for_office = candidacy (node a)

abbrev yes : VoteResponse
yes = record { term = 1; vote_granted = true; voted_for = a }

enough : votes_needed three ≤ length (counted b yes running_for_office).votes_received
unfolding votes_needed counted candidacy reset_election_timer publish_role_change_event insert
    Str.eq new_election_manager
enough = omega arith

first_term : yes.term ≡ running_for_office.current_term
unfolding candidacy reset_election_timer publish_role_change_event new_election_manager
first_term = refl

no_lock : running_for_office.locked ≡ false
unfolding candidacy reset_election_timer publish_role_change_event new_election_manager
no_lock = refl

runs : running_for_office.role ≡ candidate
unfolding candidacy reset_election_timer publish_role_change_event new_election_manager
runs = refl

win_deadlock_example :
    (em' : ElectionManager) × (handle_vote_response b yes three running_for_office
      ≡ err (deadlock em'))
    × (em'.role ≡ leader)
    × (em'.locked ≡ true)
    × (em'.current_term ≡ running_for_office.current_term)
win_deadlock_example = win_deadlock b yes three running_for_office no_lock runs first_term enough

abbrev started : ElectionManager
started = record (node a) { running = true }

is_free : started.locked ≡ false
unfolding new_election_manager
is_free = refl

is_open : started.stop_closed ≡ false
unfolding new_election_manager
is_open = refl

stop_twice_example :
    (em₁ em₂ : ElectionManager) × (stop started ≡ ok (em₁, tt))
    × (em₁.running ≡ false)
    × (start em₁ ≡ ok (em₂, tt))
    × (em₂.running ≡ true)
    × (stop em₂ ≡ panic)
stop_twice_example = stop_twice started is_free refl is_open

abbrev request_of : Str → VoteRequest
request_of id = record {
  term = 1;
  candidate_id = id;
  last_log_index = 0;
  last_log_term = 0;
  priority = pos 1;
}

abbrev granted_to_a : VoteResponse
granted_to_a = record { term = 1; vote_granted = true; voted_for = a }

abbrev after_vote : ElectionManager
after_vote = record (node c) {
  current_term = 1;
  voted_for = a;
  election_timer = armed (pos 500000000);
}

abbrev after_log : ElectionManager
after_log = record after_vote { last_log_index = 0; last_log_term = 0; current_term = 1 }

first_vote : handle_vote_request (request_of a) (node c) ≡ ok (after_vote, granted_to_a)
unfolding handle_vote_request new_election_manager Str.eq
first_vote = refl

log_step : call (logged 0 0) after_vote ≡ ok after_log
unfolding call after set_log_info new_election_manager
log_step = refl

second_vote : handle_vote_request (request_of a) after_log ≡ ok (after_log, granted_to_a)
unfolding handle_vote_request new_election_manager Str.eq
second_vote = refl

one_vote_per_term_example : a ≡ a
one_vote_per_term_example =
    one_vote_per_term (request_of a) (request_of a) (node c) after_vote after_log after_log
      granted_to_a granted_to_a first_vote refl (next (logged 0 0) (omega arith) log_step here)
      (omega arith) second_vote refl refl (λ e. cons≢nil e)

-- Another node refuses in the same term.
refused :
    decide (request_of b) after_vote
    ≡ (after_vote, record { term = 1; vote_granted = false; voted_for = a })
unfolding decide new_election_manager Str.eq
refused = refl

-- The nodes b and c, and any other one, vote for a, which stands.
abbrev voted : Str → ElectionManager
voted id = record (node id) {
  current_term = 1;
  voted_for = a;
  election_timer = armed (pos 500000000);
}

voted_first :
    (id : Str) → handle_vote_request (request_of a) (node id) ≡ ok (voted id, granted_to_a)
unfolding handle_vote_request new_election_manager Str.eq
voted_first id = refl

vote_step : (id : Str) → call (asked (request_of a)) (node id) ≡ ok (voted id)
unfolding call after
vote_step id = rw (voted_first id) refl

abbrev history : Str → List ElectionManager
history id = if Str.eq id a then running_for_office ∷ [] else node id ∷ voted id ∷ []

low_term : (id : Str) → (node id).current_term + 1 < u64_mod
unfolding new_election_manager
low_term id = omega arith

history-Steps : (id : Str) → Steps (history id)
history-Steps id = elim (Bool-cases (Str.eq id a)) [
  | inl t ↦ rw t tt
  | inr f ↦ rw f (next (asked (request_of a)) (low_term id) (vote_step id) here, tt)
]

standing :
    start_election three (λ id. none) (node a)
    ≡ ok (running_for_office, (vote_request running_for_office, []))
unfolding start_election candidacy vote_request reset_election_timer publish_role_change_event
    new_election_manager Str.eq insert
standing = refl

own_vote : Vote (history a) 1 a
unfolding Str.eq candidacy reset_election_timer publish_role_change_event new_election_manager
own_vote =
    stood three (λ id. none) (node a) running_for_office _ (Memᴰ.head refl) standing refl refl

vote_of : (id : Str) → Str.eq id a ≡ false → Vote (history id) 1 a
vote_of id f = rw f (
    answered (request_of a) (node id) (voted id) granted_to_a (Memᴰ.tail (Memᴰ.head refl))
      (voted_first id) refl refl refl)

-- The candidate with its own vote and the one of another node.
abbrev elected_by : Str → ElectionManager
elected_by id = counted id yes running_for_office

apart : (x y : ℕ) → nat_beq x y ≡ false → x ∷ [] ≡ y ∷ [] → ⊥
apart x y h e = let same : x ≡ y = cc in let t = (nat_beq_iff x y).1 same in cc

two-Distinct : (x y : Str) → (x ≡ y → ⊥) → Distinct (x ∷ y ∷ [])
two-Distinct x y n =
    ((λ m. elim (Memᴰ.cases_cons m) [ inl e ↦ n e | inr k ↦ elim k [ ] ]), ((λ m. elim m [ ]), tt))

b_counted : voters (elected_by b) ≡ a ∷ b ∷ []
unfolding counted candidacy reset_election_timer publish_role_change_event insert Str.eq
    new_election_manager
b_counted = refl

c_counted : voters (elected_by c) ≡ a ∷ c ∷ []
unfolding counted candidacy reset_election_timer publish_role_change_event insert Str.eq
    new_election_manager
c_counted = refl

elected_term : (id : Str) → (elected_by id).current_term ≡ 1
unfolding counted candidacy reset_election_timer publish_role_change_event new_election_manager
elected_term id = refl

elected_id : (id : Str) → (elected_by id).node_id ≡ a
unfolding counted candidacy reset_election_timer publish_role_change_event new_election_manager
elected_id id = refl

has_id : (id : Str) → (elected_by id).node_id ≢ []
has_id id e = cons≢nil (sym (elected_id id) ∙ e)

given :
    (id : Str)
    → Memᴰ id (ids_of three)
    → Str.eq id a ≡ false
    → (x : Str) → Memᴰ x (a ∷ id ∷ [])
    → Memᴰ x (ids_of three) × Vote (history x) 1 a
given id m f x k = elim (Memᴰ.cases_cons k) [
  | inl e ↦ (Memᴰ.head e, subst (λ y. Vote (history y) 1 a) (sym e) own_vote)
  | inr l ↦ elim (Memᴰ.cases_cons l) [
    | inl e ↦ (
      subst (λ y. Memᴰ y (ids_of three)) (sym e) m,
      subst (λ y. Vote (history y) 1 a) (sym e) (vote_of id f),
    )
    | inr n ↦ elim n [ ]
  ]
]

given_to :
    (id : Str)
    → Memᴰ id (ids_of three)
    → Str.eq id a ≡ false
    → voters (elected_by id) ≡ a ∷ id ∷ []
    → (x : Str) → Memᴰ x (voters (elected_by id))
    → Memᴰ x (ids_of three) × Vote (history x) (elected_by id).current_term (elected_by id).node_id
given_to id m f e x k = rw (elected_term id, elected_id id) (given id m f x (subst (Memᴰ x) e k))

other_b : Str.eq b a ≡ false
unfolding Str.eq
other_b = refl

other_c : Str.eq c a ≡ false
unfolding Str.eq
other_c = refl

enough_c : votes_needed three ≤ length (elected_by c).votes_received
unfolding votes_needed counted candidacy reset_election_timer publish_role_change_event insert
    Str.eq new_election_manager
enough_c = omega arith

one_winner_example : (elected_by b).node_id ≡ (elected_by c).node_id
one_winner_example =
    one_winner history three (elected_by b) (elected_by c) history-Steps (has_id b) (has_id c)
      (elected_term b ∙ sym (elected_term c)) (rw b_counted (two-Distinct a b (apart 97 98 refl)))
      (rw c_counted (two-Distinct a c (apart 97 99 refl)))
      (given_to b (Memᴰ.tail (Memᴰ.head refl)) other_b b_counted)
      (given_to c (Memᴰ.tail (Memᴰ.tail (Memᴰ.head refl))) other_c c_counted) enough enough_c
