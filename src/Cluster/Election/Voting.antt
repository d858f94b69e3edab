-- ===== src/Cluster/Election/Voting.antt =====
-- cache/cluster/election.go: the votes that a node grants over any sequence of its calls.
use fyer_cache.Cluster.Election.Calls.{Reaches-Later, vote_locked-Later, critical-Later, Reaches}
use fyer_cache.Cluster.Election.Handlers.{
  log_ok, refusal, grant, vote_in_term, decide, handle_vote_request, handle_vote_request_locked,
  advanced,
}
use fyer_cache.Prelude.{
  ◌+◌, ◌<◌, ◌≡◌, refl, sym, ap, ◌∙◌, ◌≢◌, inl, inr, true, false, not, ◌&&◌, [], ltb, Bool-cases,
  nat_equality,
}
use mathlib.Core.Path.{subst}
use fyer_cache.Prelude.Str.{Str, str_equality}
use fyer_cache.Prelude.Str
use fyer_cache.Prelude.Result.{ok}
use fyer_cache.Cluster.Election.{
  ElectionManager, VoteRequest, VoteResponse, u64_mod, unlock, reset_election_timer,
}
use fyer_cache.Cluster.Election.Terms.{Later-trans, critical_ok}

abbrev Granted : VoteRequest → ElectionManager × VoteResponse → Type 0
Granted req x = (x.0.current_term ≡ x.1.term) × (x.0.voted_for ≡ req.candidate_id)

vote_in_term-Granted :
    (req : VoteRequest) (em : ElectionManager)
    → (vote_in_term req em).1.vote_granted ≡ true
    → Granted req (vote_in_term req em)
unfolding vote_in_term refusal grant reset_election_timer
vote_in_term-Granted req em g =
    elim (Bool-cases (not (Str.eq em.voted_for []) && not (Str.eq em.voted_for req.candidate_id))) [
      | inl t ↦ let clash : false ≡ true = rw t at g in cc
      | inr t ↦ elim (Bool-cases (log_ok req em)) [
        | inl u ↦ rw (t, u) (refl, refl)
        | inr u ↦ let clash : false ≡ true = rw (t, u) at g in cc
      ]
    ]

decide-Granted :
    (req : VoteRequest) (em : ElectionManager)
    → (decide req em).1.vote_granted ≡ true
    → Granted req (decide req em)
unfolding decide refusal
decide-Granted req em g = elim (Bool-cases (ltb req.term em.current_term)) [
  | inl t ↦ let clash : false ≡ true = rw t at g in cc
  | inr t ↦
      let h : (vote_in_term req (advanced req em)).1.vote_granted ≡ true = rw t at g in
      rw t (vote_in_term-Granted req (advanced req em) h)
]

-- What a granted vote says of the state that it leaves.
pub granted :
    (req : VoteRequest) (em em' : ElectionManager) (r : VoteResponse)
    → handle_vote_request req em ≡ ok (em', r)
    → r.vote_granted ≡ true
    → (em'.current_term ≡ r.term) × (em'.voted_for ≡ req.candidate_id)
unfolding handle_vote_request handle_vote_request_locked unlock
granted req em em' r e g =
    let (_, done, b, s) = critical_ok (handle_vote_request_locked req) em em' r e in
    let same : decide req (record em { locked = true }) ≡ (done, r) = cc in
    let yes : (decide req (record em { locked = true })).1.vote_granted ≡ true =
      ap (λ (x : ElectionManager × VoteResponse). x.1.vote_granted) same ∙ g in
    let (t, v) = subst (Granted req) same (decide-Granted req (record em { locked = true }) yes) in
    (
      ap (λ (x : ElectionManager). x.current_term) s ∙ t,
      ap (λ (x : ElectionManager). x.voted_for) s ∙ v,
    )

-- Over any sequence of calls that return, with terms that do not wrap, a node grants its vote in
-- one term to one candidate only, for candidates with an id that is not empty.
pub one_vote_per_term :
    (req₁ req₂ : VoteRequest) (em₀ em₁ em₂ em₃ : ElectionManager) (r₁ r₂ : VoteResponse)
    → handle_vote_request req₁ em₀ ≡ ok (em₁, r₁)
    → r₁.vote_granted ≡ true
    → Reaches em₁ em₂
    → em₂.current_term + 1 < u64_mod
    → handle_vote_request req₂ em₂ ≡ ok (em₃, r₂)
    → r₂.vote_granted ≡ true
    → r₁.term ≡ r₂.term
    → req₁.candidate_id ≢ []
    → req₂.candidate_id ≡ req₁.candidate_id
unfolding handle_vote_request
one_vote_per_term req₁ req₂ em₀ em₁ em₂ em₃ r₁ r₂ e g steps small e' g' same ne =
    let (t, v) = granted req₁ em₀ em₁ r₁ e g in
    let (t', v') = granted req₂ em₂ em₃ r₂ e' g' in
    let vote =
      critical-Later (handle_vote_request_locked req₂) em₂ em₃ r₂ (vote_locked-Later req₂ _) e' in
    let all = Later-trans em₁ em₂ em₃ (Reaches-Later em₁ em₂ steps) vote in
    sym v' ∙ all.keeps (t ∙ same ∙ sym t') (λ z. ne (sym v ∙ z)) ∙ v
