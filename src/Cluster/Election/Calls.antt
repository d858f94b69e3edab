-- ===== src/Cluster/Election/Calls.antt =====
-- cache/cluster/election.go: the calls of a node, in any sequence, and what they keep of its term and vote.
use fyer_cache.Cluster.Election.Candidacy.{
  candidacy, start_election, on_election_timer, accept_response, handle_vote_response,
  handle_vote_response_locked, start_election_locked, role_locked, unless_leader,
}
use fyer_cache.Cluster.Election.Handlers.{
  decide, handle_vote_request, heard, handle_heartbeat, on_heartbeat_timer, set_log_info,
  handle_vote_request_locked, handle_heartbeat_locked, beat_locked, set_log_info_locked,
}
use fyer_cache.Prelude.{
  ℕ, ◌+◌, ◌<◌, ◌≡◌, refl, sym, ap, ◌∙◌, ◌⊎◌, inl, inr, true, false, not, ◌||◌, Option, List, arith,
  ltb, nat_beq, nat_beq_iff, Bool-cases, nat_equality,
}
use mathlib.Core.Path.{subst}
use fyer_cache.Prelude.Int.{ℤ}
use fyer_cache.Prelude.Str.{Str, str_equality}
use fyer_cache.Prelude.Result.{Result, ok, err, panic, ◌>>=◌, >>=-ok}
use fyer_cache.Replication.Role.{ReplicationRole, leader, follower, candidate, same_role}
use fyer_cache.Cluster.NodeInfo.{NodeInfo}
use fyer_cache.Cluster.Election.{
  ElectionManager, ElectionError, deadlock, stale_heartbeat, VoteRequest, VoteResponse, Heartbeat,
  u64_mod, unlock, critical, start, stop, start_locked, stop_locked, reset_election_timer,
}
use fyer_cache.Cluster.Election.Terms.{
  Later, Later-refl, Later-trans, unchanged, critical_ok, decide-Later, heard-Later,
  candidacy-Later, counted-Later, accept_response_held,
}

pub data Call : Type 0 where
  started stopped : Call
  timed_out : List NodeInfo → (Str → Option Str) → Call
  answered : Str → VoteResponse → List NodeInfo → Call
  asked : VoteRequest → Call
  heard_from : ℤ → Heartbeat → Call
  beat : List NodeInfo → (Str → Option Str) → Call
  logged : ℕ → ℕ → Call

-- The state after a call; the error of `HandleHeartbeat` goes to the sender and leaves the state.
unfoldable pub after {ℓ} :
    {A : Type ℓ}
    → ElectionManager
    → Result ElectionError (ElectionManager × A)
    → Result ElectionError ElectionManager
after em (ok (em', a)) = ok em'
after em (err (stale_heartbeat t u)) = ok em
after em (err (deadlock s)) = err (deadlock s)
after em panic = panic

unfoldable pub call : Call → ElectionManager → Result ElectionError ElectionManager
call started em = after em (start em)
call stopped em = after em (stop em)
call (timed_out members addr_of) em = after em (on_election_timer members addr_of em)
call (answered voter resp members) em = after em (handle_vote_response voter resp members em)
call (asked req) em = after em (handle_vote_request req em)
call (heard_from now hb) em = after em (handle_heartbeat now hb em)
call (beat members addr_of) em = after em (on_heartbeat_timer members addr_of em)
call (logged index term) em = after em (set_log_info index term em)

-- The states that calls reach, each of which returns, with terms that do not wrap.
pub data Reaches : ElectionManager → ElectionManager → Type 0 where
  here : {em : ElectionManager} → Reaches em em
  next :
      {em em' em'' : ElectionManager} (c : Call)
      → em.current_term + 1 < u64_mod
      → call c em ≡ ok em'
      → Reaches em' em''
      → Reaches em em''

-- A call that returns a state either left it or returned it.
after_ok {ℓ} :
    {A : Type ℓ} (em em' : ElectionManager) (r : Result ElectionError (ElectionManager × A))
    → after em r ≡ ok em'
    → (em' ≡ em) ⊎ ((a : A) × (r ≡ ok (em', a)))
unfolding after
after_ok em em' (ok (x, a)) e = let same : x ≡ em' = cc in inr (a, rw same refl)
after_ok em em' (err (stale_heartbeat t u)) e = inl (cc)
after_ok em em' (err (deadlock s)) e = cc
after_ok em em' panic e = cc

start_locked-Later :
    (em done : ElectionManager) (a : Unit {0}) → start_locked em ≡ ok (done, a) → Later em done
unfolding start_locked reset_election_timer
start_locked-Later em done a e = elim (Bool-cases em.running) [
  | inl t ↦ unchanged em done (ground arith) (ground arith)
  | inr t ↦ unchanged em done (ground arith) (ground arith)
]

stop_locked-Later :
    (em done : ElectionManager) (a : Unit {0}) → stop_locked em ≡ ok (done, a) → Later em done
unfolding stop_locked
stop_locked-Later em done a e = unchanged em done (ground arith) (ground arith)

pub candidate_no_leader :
    (r : ReplicationRole) → same_role r candidate ≡ true → same_role r leader ≡ false
unfolding same_role
candidate_no_leader leader e = cc
candidate_no_leader follower e = cc
candidate_no_leader candidate e = refl

answer_locked-Later :
    (voter : Str) (resp : VoteResponse) (members : List NodeInfo) (em done : ElectionManager)
    (a : Unit {0})
    → em.locked ≡ true
    → handle_vote_response_locked voter resp members em ≡ ok (done, a)
    → Later em done
unfolding handle_vote_response_locked
answer_locked-Later voter resp members em done a held e =
    elim (Bool-cases
      (not (same_role em.role candidate) || not (nat_beq resp.term em.current_term))) [
        | inl t ↦
            let f : ◌≡◌ {A = Result ElectionError (ElectionManager × Unit {0})} (ok (em, tt))
                (ok (done, a)) =
              rw t at e in
            let same : em ≡ done = cc in rw same (Later-refl done)
        | inr t ↦
            let running : same_role em.role candidate ≡ true = ground arith in
            let same_term : nat_beq resp.term em.current_term ≡ true = ground arith in
            let f : ◌>>=◌ {B = ElectionManager × Unit {0}} (accept_response voter resp members em)
                  (λ x. ok (x, tt))
                ≡ ok (done, a) =
              rw t at e in
            let (x, g, h) = >>=-ok (accept_response voter resp members em) _ (done, a) f in
            let same : x ≡ done = cc in
            elim (accept_response_held voter resp members em x held
              (candidate_no_leader em.role running) g) [
                | inl (late, _) ↦
                    absurd
                      (let q = (nat_beq_iff resp.term em.current_term).0 same_term in omega arith)
                | inr k ↦ rw (← same, k) (counted-Later voter resp em)
              ]
      ]

pub vote_locked-Later :
    (req : VoteRequest) (em done : ElectionManager) (a : VoteResponse)
    → handle_vote_request_locked req em ≡ ok (done, a)
    → Later em done
unfolding handle_vote_request_locked
vote_locked-Later req em done a e =
    let f : ok (decide req em) ≡ ok (done, a) = e in
    let same : decide req em ≡ (done, a) = cc in
    subst (λ (x : ElectionManager × VoteResponse). Later em x.0) same (decide-Later req em)

heartbeat_locked-Later :
    (now : ℤ) (hb : Heartbeat) (em done : ElectionManager) (a : Unit {0})
    → handle_heartbeat_locked now hb em ≡ ok (done, a)
    → Later em done
unfolding handle_heartbeat_locked
heartbeat_locked-Later now hb em done a e = elim (Bool-cases (ltb hb.term em.current_term)) [
  | inl t ↦
      let clash : ◌≡◌ {A = Result ElectionError (ElectionManager × Unit {0})}
          (err (stale_heartbeat hb.term em.current_term)) (ok (done, a)) =
        rw t at e in
      cc
  | inr t ↦
      let f : ◌≡◌ {A = Result ElectionError (ElectionManager × Unit {0})} (ok (heard now hb em, tt))
          (ok (done, a)) =
        rw t at e in
      let same : heard now hb em ≡ done = cc in subst (Later em) same (heard-Later now hb em)
]

beat_locked-Later :
    (members : List NodeInfo) (addr_of : Str → Option Str) (em done : ElectionManager)
    (a : Option (Heartbeat × List Str))
    → beat_locked members addr_of em ≡ ok (done, a)
    → Later em done
unfolding beat_locked
beat_locked-Later members addr_of em done a e = unchanged em done (ground arith) (ground arith)

log_locked-Later :
    (index term : ℕ) (em done : ElectionManager) (a : Unit {0})
    → set_log_info_locked index term em ≡ ok (done, a)
    → Later em done
unfolding set_log_info_locked
log_locked-Later index term em done a e = unchanged em done (ground arith) (ground arith)

election_locked-Later :
    (members : List NodeInfo) (addr_of : Str → Option Str) (em done : ElectionManager)
    (a : VoteRequest × List Str)
    → em.current_term + 1 < u64_mod
    → start_election_locked members addr_of em ≡ ok (done, a)
    → Later em done
unfolding start_election_locked
election_locked-Later members addr_of em done a small e =
    let same : candidacy em ≡ done = cc in subst (Later em) same (candidacy-Later em small)

-- From the body of a critical section to the call.
pub critical-Later {ℓ} :
    {A : Type ℓ} (body : ElectionManager → Result ElectionError (ElectionManager × A))
    (em em' : ElectionManager) (a : A)
    → ((done : ElectionManager) (b : A)
        → body (record em { locked = true }) ≡ ok (done, b)
        → Later (record em { locked = true }) done)
    → critical body em ≡ ok (em', a)
    → Later em em'
unfolding unlock
critical-Later body em em' a inner r =
    let (_, done, b, s) = critical_ok body em em' a r in
    let step = inner done a b in
    Later-trans em (record em { locked = true }) em' (unchanged em _ refl refl)
      (Later-trans (record em { locked = true }) done em' step
        (unchanged done em' (ap (λ (x : ElectionManager). x.current_term) s)
          (ap (λ (x : ElectionManager). x.voted_for) s)))

unless_leader-Later :
    (members : List NodeInfo) (addr_of : Str → Option Str) (em em' : ElectionManager)
    (role : ReplicationRole) (r : Option (VoteRequest × List Str))
    → em.current_term + 1 < u64_mod
    → unless_leader members addr_of (em, role) ≡ ok (em', r)
    → Later em em'
unfolding unless_leader start_election
unless_leader-Later members addr_of em em' leader r small e =
    let same : em ≡ em' = cc in subst (Later em) same (Later-refl em)
unless_leader-Later members addr_of em em' follower r small e =
    let ((x, q), f, g) =
      >>=-ok (critical (start_election_locked members addr_of) em) _ (em', r) e in
    let same : x ≡ em' = cc in
    subst (Later em) same (
      critical-Later (start_election_locked members addr_of) em x q
        (λ done b h. election_locked-Later members addr_of _ done b small h) f)
unless_leader-Later members addr_of em em' candidate r small e =
    let ((x, q), f, g) =
      >>=-ok (critical (start_election_locked members addr_of) em) _ (em', r) e in
    let same : x ≡ em' = cc in
    subst (Later em) same (
      critical-Later (start_election_locked members addr_of) em x q
        (λ done b h. election_locked-Later members addr_of _ done b small h) f)

on_timer-Later :
    (members : List NodeInfo) (addr_of : Str → Option Str) (em em' : ElectionManager)
    (r : Option (VoteRequest × List Str))
    → em.current_term + 1 < u64_mod
    → on_election_timer members addr_of em ≡ ok (em', r)
    → Later em em'
unfolding on_election_timer role_locked unlock
on_timer-Later members addr_of em em' r small e =
    let ((x, role), f, g) = >>=-ok (critical role_locked em) _ (em', r) e in
    let (_, done, b, s) = critical_ok role_locked em x role f in
    let read : record em { locked = true } ≡ done = cc in
    let term : x.current_term ≡ em.current_term =
      ap (λ (y : ElectionManager). y.current_term) s
      ∙ sym (ap (λ (y : ElectionManager). y.current_term) read) in
    let vote : x.voted_for ≡ em.voted_for =
      ap (λ (y : ElectionManager). y.voted_for) s
      ∙ sym (ap (λ (y : ElectionManager). y.voted_for) read) in
    Later-trans em x em' (unchanged em x term vote)
      (unless_leader-Later members addr_of x em' role r (omega arith) g)

-- The state that a call leaves is the one that it began in, or the one that it returned.
after-Later {ℓ} :
    {A : Type ℓ} (em em' : ElectionManager) (r : Result ElectionError (ElectionManager × A))
    → ((a : A) → r ≡ ok (em', a) → Later em em')
    → after em r ≡ ok em'
    → Later em em'
after-Later em em' r step e = elim (after_ok em em' r e) [
  | inl same ↦
      unchanged em em' (ap (λ (x : ElectionManager). x.current_term) same)
        (ap (λ (x : ElectionManager). x.voted_for) same)
  | inr (a, f) ↦ step a f
]

-- A call that returns keeps the vote of the term, or moves to a later term.
pub call-Later :
    (c : Call) (em em' : ElectionManager)
    → em.current_term + 1 < u64_mod
    → call c em ≡ ok em'
    → Later em em'
unfolding call start stop handle_vote_request handle_vote_response handle_heartbeat
    on_heartbeat_timer set_log_info
call-Later started em em' small e =
    after-Later em em' (critical start_locked em)
      (λ a. critical-Later start_locked em em' a (start_locked-Later _)) e
call-Later stopped em em' small e =
    after-Later em em' (critical stop_locked em)
      (λ a. critical-Later stop_locked em em' a (stop_locked-Later _)) e
call-Later (timed_out members addr_of) em em' small e =
    after-Later em em' (on_election_timer members addr_of em)
      (λ a. on_timer-Later members addr_of em em' a small) e
call-Later (answered voter resp members) em em' small e =
    after-Later em em' (critical (handle_vote_response_locked voter resp members) em)
      (λ a.
        critical-Later (handle_vote_response_locked voter resp members) em em' a
          (λ done b. answer_locked-Later voter resp members _ done b refl))
      e
call-Later (asked req) em em' small e =
    after-Later em em' (critical (handle_vote_request_locked req) em)
      (λ a. critical-Later (handle_vote_request_locked req) em em' a (vote_locked-Later req _)) e
call-Later (heard_from now hb) em em' small e =
    after-Later em em' (critical (handle_heartbeat_locked now hb) em)
      (λ a.
        critical-Later (handle_heartbeat_locked now hb) em em' a (heartbeat_locked-Later now hb _))
      e
call-Later (beat members addr_of) em em' small e =
    after-Later em em' (critical (beat_locked members addr_of) em)
      (λ a.
        critical-Later (beat_locked members addr_of) em em' a (beat_locked-Later members addr_of _))
      e
call-Later (logged index term) em em' small e =
    after-Later em em' (critical (set_log_info_locked index term) em)
      (λ a.
        critical-Later (set_log_info_locked index term) em em' a (log_locked-Later index term _))
      e

pub Reaches-Later : (em em' : ElectionManager) → Reaches em em' → Later em em'
Reaches-Later em em' here = Later-refl em
Reaches-Later em em' (next {em' = x} c small e rest) =
    Later-trans em x em' (call-Later c em x small e) (Reaches-Later x em' rest)
