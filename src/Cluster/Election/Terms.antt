-- ===== src/Cluster/Election/Terms.antt =====
-- cache/cluster/election.go: the term never falls, and within a term a vote stays.
use fyer_cache.Cluster.Election.Candidacy.{candidacy, counted, tally, accept_response, votes_needed}
use fyer_cache.Cluster.Election.Handlers.{advanced, grant, vote_in_term, decide, heard, log_ok}
use fyer_cache.Prelude.{
  ◌+◌, ◌≤◌, ◌<◌, ◌≡◌, refl, sym, ap, ◌∙◌, ◌≢◌, ◌⊎◌, inl, inr, Bool, true, false, not, ◌&&◌, List,
  [], arith, ltb, leb, if◌then◌else◌, ltb→lt, Bool-cases, length, nat_equality, beq_ne,
}
use fyer_cache.Prelude.Int.{ℤ}
use fyer_cache.Prelude.Str.{Str, str_equality}
use fyer_cache.Prelude.Str
use fyer_cache.Prelude.Result.{>>=-ok, Result, ok, err, panic, ◌>>=◌}
use fyer_cache.Replication.Role.{leader, follower, same_role}
use fyer_cache.Cluster.NodeInfo.{NodeInfo}
use fyer_cache.Cluster.Election.{
  ElectionManager, ElectionError, deadlock, VoteRequest, VoteResponse, Heartbeat, u64_mod, lock,
  unlock, critical, step_down, become_follower, become_leader, start_heartbeat, crowned,
  reset_election_timer, publish_role_change_event,
}

pub record Later (a b : ElectionManager) : Type 0 where
  pub grows : a.current_term ≤ b.current_term
  pub keeps : a.current_term ≡ b.current_term → a.voted_for ≢ [] → b.voted_for ≡ a.voted_for

pub Later-refl : (a : ElectionManager) → Later a a
Later-refl a = record { grows = omega arith; keeps = λ e n. refl }

pub Later-trans : (a b c : ElectionManager) → Later a b → Later b c → Later a c
Later-trans a b c p q = record {
  grows = let x = p.grows in let y = q.grows in omega arith;
  keeps = λ e n.
      let x = p.grows in
      let y = q.grows in
      let f : a.current_term ≡ b.current_term = omega arith in
      let g = p.keeps f n in let h = q.keeps (omega arith) (λ z. n (sym g ∙ z)) in h ∙ g;
}

-- The same term and the same vote.
pub record SameVote (a b : ElectionManager) : Type 0 where
  pub term : b.current_term ≡ a.current_term
  pub vote : b.voted_for ≡ a.voted_for

pub SameVote-Later : (a b : ElectionManager) → SameVote a b → Later a b
SameVote-Later a b s = record { grows = let t = s.term in omega arith; keeps = λ e n. s.vote }

pub unchanged :
    (a b : ElectionManager)
    → b.current_term ≡ a.current_term
    → b.voted_for ≡ a.voted_for
    → Later a b
unchanged a b t v = SameVote-Later a b (record { term = t; vote = v })

-- Of two states, whichever a test picks.
Later-if :
    (b : Bool) (em x y : ElectionManager) → Later em x → Later em y → Later em (if b then x else y)
Later-if true em x y p q = p
Later-if false em x y p q = q

pub newer-Later : (a b : ElectionManager) → a.current_term < b.current_term → Later a b
newer-Later a b h = record { grows = omega arith; keeps = λ e n. absurd (omega arith) }

pub lock_held : (em : ElectionManager) → em.locked ≡ true → lock em ≡ err (deadlock em)
unfolding lock
lock_held em t = ap (λ b. if b then err (deadlock em) else ok (record em { locked = true })) t

pub lock_free :
    (em : ElectionManager) → em.locked ≡ false → lock em ≡ ok (record em { locked = true })
unfolding lock
lock_free em t = ap (λ b. if b then err (deadlock em) else ok (record em { locked = true })) t

module _ {ℓ} {A : Type ℓ}
    (body : ElectionManager → Result ElectionError (ElectionManager × A)) where
  pub critical_held :
      (em : ElectionManager) → em.locked ≡ true → critical body em ≡ err (deadlock em)
  unfolding critical
  critical_held em t = rw (lock_held em t, ◌>>=◌) refl

  pub critical_free :
      (em : ElectionManager)
      → em.locked ≡ false
      → critical body em
        ≡ ◌>>=◌ {B = ElectionManager × A}
            (body (record em { locked = true }))
            (λ x. ok (unlock x.0, x.1))
  unfolding critical
  critical_free em t = rw (lock_free em t, ◌>>=◌) refl

  released :
      (result : Result ElectionError (ElectionManager × A)) (em' : ElectionManager) (a : A)
      → ◌>>=◌ {B = ElectionManager × A} result (λ x. ok (unlock x.0, x.1)) ≡ ok (em', a)
      → (done : ElectionManager) × (result ≡ ok (done, a)) × (em' ≡ unlock done)
  released (ok (done, b)) em' a e = (done, cc, cc)
  released (err x) em' a e = cc
  released panic em' a e = cc

  -- What a critical section that returns has done.
  pub critical_ok :
      (em em' : ElectionManager) (a : A)
      → critical body em ≡ ok (em', a)
      → (em.locked ≡ false)
        × (done : ElectionManager) × (body (record em { locked = true }) ≡ ok (done, a))
        × (em' ≡ unlock done)
  critical_ok em em' a e = elim (Bool-cases em.locked) [
    | inl t ↦ let shut = critical_held em t in cc
    | inr f ↦
        let (done, r, s) =
          released (body (record em { locked = true })) em' a (sym (critical_free em f) ∙ e) in
        (f, done, r, s)
  ]

step_down-SameVote : (l : Str) (em : ElectionManager) → SameVote em (step_down l em)
unfolding step_down reset_election_timer publish_role_change_event
step_down-SameVote l em = elim (Bool-cases (same_role em.role follower)) [
  | inl t ↦ rw t (record { term = refl; vote = refl })
  | inr t ↦ rw t (record { term = refl; vote = refl })
]

pub become_follower-SameVote : (l : Str) (em : ElectionManager) → SameVote em (become_follower l em)
unfolding become_follower
become_follower-SameVote l em =
    elim (Bool-cases (same_role em.role follower && Str.eq em.current_leader l)) [
      | inl t ↦ rw t (record { term = refl; vote = refl })
      | inr t ↦ rw t (step_down-SameVote l em)
    ]

pub become_follower-Later : (l : Str) (em : ElectionManager) → Later em (become_follower l em)
become_follower-Later l em =
    SameVote-Later em (become_follower l em) (become_follower-SameVote l em)

moved_term : (req : VoteRequest) (em : ElectionManager) → ElectionManager
moved_term req em = record em { current_term = req.term; voted_for = [] }

advanced_newer :
    (req : VoteRequest) (em : ElectionManager)
    → ltb em.current_term req.term ≡ true
    → (advanced req em).current_term ≡ req.term
unfolding advanced moved_term
advanced_newer req em t = elim (Bool-cases (same_role em.role follower)) [
  | inl u ↦ rw (t, u) refl
  | inr u ↦ rw (t, u) refl
]

advanced-Later : (req : VoteRequest) (em : ElectionManager) → Later em (advanced req em)
unfolding advanced
advanced-Later req em = elim (Bool-cases (ltb em.current_term req.term)) [
  | inl t ↦ let e = advanced_newer req em t in newer-Later em (advanced req em) (ground arith)
  | inr t ↦ let same : advanced req em ≡ em = rw t refl in rw same (Later-refl em)
]

vote_in_term-Later : (req : VoteRequest) (em : ElectionManager) → Later em (vote_in_term req em).0
unfolding vote_in_term grant reset_election_timer
vote_in_term-Later req em =
    elim (Bool-cases (not (Str.eq em.voted_for []) && not (Str.eq em.voted_for req.candidate_id))) [
      | inl t ↦ rw t (Later-refl em)
      | inr t ↦ elim (Bool-cases (log_ok req em)) [
        | inr u ↦ rw (t, u) (Later-refl em)
        | inl u ↦
            rw (t, u)
              (record {
                grows = omega arith;
                keeps = λ e n.
                    let none_yet : Str.eq em.voted_for [] ≡ false = beq_ne em.voted_for [] n in
                    let again : Str.eq em.voted_for req.candidate_id ≡ true = ground arith in
                    sym ((Str.eq_iff em.voted_for req.candidate_id).0 again);
              })
      ]
    ]

pub decide-Later : (req : VoteRequest) (em : ElectionManager) → Later em (decide req em).0
unfolding decide
decide-Later req em = elim (Bool-cases (ltb req.term em.current_term)) [
  | inl t ↦ rw t (Later-refl em)
  | inr t ↦ rw t (
      Later-trans em (advanced req em) _ (advanced-Later req em)
        (vote_in_term-Later req (advanced req em)))
]

pub heard-Later : (now : ℤ) (hb : Heartbeat) (em : ElectionManager) → Later em (heard now hb em)
unfolding heard reset_election_timer publish_role_change_event
heard-Later now hb em = elim (Bool-cases (ltb em.current_term hb.term)) [
  | inl t ↦
      let em' = record em { last_heartbeat = now; current_term = hb.term } in
      let same = (become_follower-SameVote hb.leader_id em').term in
      rw t (newer-Later em (become_follower hb.leader_id em') (ground arith))
  | inr t ↦
      let em' : ElectionManager = record em { last_heartbeat = now } in
      let stay : Later em (become_follower hb.leader_id em') =
        Later-trans em em' (become_follower hb.leader_id em') (unchanged em em' refl refl)
          (become_follower-Later hb.leader_id em') in
      rw t (
        Later-if (not (Str.eq em.current_leader hb.leader_id)) em _ _ stay
          (Later-if (not (same_role em.role follower)) em _ _ stay (unchanged em _ refl refl)))
]

pub candidacy-Later :
    (em : ElectionManager) → em.current_term + 1 < u64_mod → Later em (candidacy em)
unfolding candidacy reset_election_timer publish_role_change_event
candidacy-Later em h = newer-Later em _ (omega arith)

crowned-Later : (em : ElectionManager) → Later em (crowned em)
unfolding crowned publish_role_change_event
crowned-Later em = unchanged em _ refl refl

-- Inside a critical section `becomeLeader` returns only for a node that leads already.
pub become_leader_held :
    (em em' : ElectionManager)
    → em.locked ≡ true
    → become_leader em ≡ ok em'
    → (same_role em.role leader ≡ true) × (em' ≡ em)
unfolding become_leader start_heartbeat crowned publish_role_change_event
become_leader_held em em' held e = elim (Bool-cases (same_role em.role leader)) [
  | inl t ↦ let f : ok em ≡ ok em' = rw t at e in (t, cc)
  | inr t ↦
      let f : start_heartbeat (crowned em) ≡ ok em' = rw t at e in
      let (h, g, _) = >>=-ok (lock (crowned em)) _ em' f in
      let shut = lock_held (crowned em) held in cc
]

pub counted-Later :
    (voter : Str) (resp : VoteResponse) (em : ElectionManager) → Later em (counted voter resp em)
unfolding counted
counted-Later voter resp em = elim (Bool-cases resp.vote_granted) [
  | inl t ↦ rw t (unchanged em _ refl refl)
  | inr t ↦ rw t (Later-refl em)
]

pub counted-locked :
    (voter : Str) (resp : VoteResponse) (em : ElectionManager)
    → (counted voter resp em).locked ≡ em.locked
unfolding counted
counted-locked voter resp em = elim (Bool-cases resp.vote_granted) [
  | inl t ↦ rw t refl
  | inr t ↦ rw t refl
]

pub counted-role :
    (voter : Str) (resp : VoteResponse) (em : ElectionManager)
    → (counted voter resp em).role ≡ em.role
unfolding counted
counted-role voter resp em = elim (Bool-cases resp.vote_granted) [
  | inl t ↦ rw t refl
  | inr t ↦ rw t refl
]

-- A response that is handled to the end leaves the votes counted and nothing else, or the node a
-- follower.
pub accept_response_held :
    (voter : Str) (resp : VoteResponse) (members : List NodeInfo) (em em' : ElectionManager)
    → em.locked ≡ true
    → same_role em.role leader ≡ false
    → accept_response voter resp members em ≡ ok em'
    → ((em.current_term < resp.term)
        × (em' ≡ become_follower resp.voted_for (record em { current_term = resp.term })))
      ⊎ (em' ≡ counted voter resp em)
unfolding accept_response tally
accept_response_held voter resp members em em' held not_leader e =
    elim (Bool-cases (ltb em.current_term resp.term)) [
      | inl t ↦
          let f : ok (become_follower resp.voted_for (record em { current_term = resp.term }))
              ≡ ok em' =
            rw t at e in
          inl (ltb→lt em.current_term resp.term t, cc)
      | inr t ↦
          let f : tally voter resp members em ≡ ok em' = rw t at e in
          inr
            (elim (Bool-cases
              (leb (votes_needed members) (length (counted voter resp em).votes_received))) [
                | inl u ↦
                    let g : become_leader (counted voter resp em) ≡ ok em' = rw u at f in
                    let (leads, same) =
                      become_leader_held (counted voter resp em) em'
                        (counted-locked voter resp em ∙ held) g in
                    let clash : same_role em.role leader ≡ true =
                      rw (counted-role voter resp em) at leads in
                    cc
                | inr u ↦ let g : ok (counted voter resp em) ≡ ok em' = rw u at f in cc
              ])
    ]
