-- ===== src/Cluster/Election/Quorum.antt =====
-- cache/cluster/election.go: two candidates with enough votes have a voter in common.
use fyer_cache.Cluster.Election.Candidacy.{votes_needed}
use fyer_cache.Prelude.{Option, ◌≢◌}
use fyer_cache.Prelude.Result.{ok}
use fyer_cache.Cluster.Election.{
  VoteRequest, VoteResponse, unlock, reset_election_timer, publish_role_change_event,
}
use fyer_cache.Cluster.Election.Candidacy.{start_election, start_election_locked, candidacy}
use fyer_cache.Cluster.Election.Handlers.{handle_vote_request}
use fyer_cache.Cluster.Election.Calls.{Reaches, here, next, Reaches-Later}
use fyer_cache.Cluster.Election.Terms.{critical_ok}
use fyer_cache.Cluster.Election.Voting.{granted}
use fyer_cache.Prelude.{
  ℕ, suc, ◌≤◌, ◌≡◌, refl, sym, ap, ◌∙◌, ◌⊎◌, inl, inr, Bool, true, List, [], ◌∷◌, map, arith,
  length, nat_equality,
}
use mathlib.Core.List.{Memᴰ}
use mathlib.Core.Path.{subst}
use fyer_cache.Prelude.Str.{Str, str_equality}
use fyer_cache.Cluster.NodeInfo.{NodeInfo}
use fyer_cache.Cluster.Election.{ElectionManager}
use fyer_cache.Cluster.Election.Overlap.{Distinct, quorum_overlap}

abbrev pub voters : ElectionManager → List Str
voters em = map (λ e. e.0) em.votes_received

abbrev pub ids_of : List NodeInfo → List Str
ids_of members = map (λ (n : NodeInfo). n.id) members

length-map {ℓ κ} :
    {A : Type ℓ} {B : Type κ} (f : A → B) (xs : List A) → length (map f xs) ≡ length xs
length-map f [] = refl
length-map f (x ∷ xs) = ap suc (length-map f xs)

-- The states of a node in the order of time, each reached from the one before by calls.
abbrev pub Steps : List ElectionManager → Type 0
Steps [] = Unit
Steps (em ∷ []) = Unit
Steps (em ∷ em' ∷ rest) = Reaches em em' × Steps (em' ∷ rest)

-- Among the states of a node is one in which it has just voted for a candidate in a term: it has
-- granted the candidate's request, or it is the candidate and has started an election.
pub data Vote (history : List ElectionManager) (term : ℕ) (candidate_id : Str) : Type 0 where
  answered :
      (req : VoteRequest) (em em' : ElectionManager) (r : VoteResponse)
      → Memᴰ em' history
      → handle_vote_request req em ≡ ok (em', r)
      → r.vote_granted ≡ true
      → r.term ≡ term
      → req.candidate_id ≡ candidate_id
      → Vote history term candidate_id
  stood :
      (members : List NodeInfo) (addr_of : Str → Option Str) (em em' : ElectionManager)
      (sent : VoteRequest × List Str)
      → Memᴰ em' history
      → start_election members addr_of em ≡ ok (em', sent)
      → em'.current_term ≡ term
      → em.node_id ≡ candidate_id
      → Vote history term candidate_id

Reaches-trans : (a b c : ElectionManager) → Reaches a b → Reaches b c → Reaches a c
Reaches-trans a b c here r = r
Reaches-trans a b c (next {em' = x} k small e rest) r = next k small e (Reaches-trans x b c rest r)

first-Reaches :
    (a b : ElectionManager) (rest : List ElectionManager)
    → Steps (a ∷ rest)
    → Memᴰ b rest
    → Reaches a b
first-Reaches a b [] s m = elim m [ ]
first-Reaches a b (x ∷ rest) s (Memᴰ.head e) = subst (Reaches a) (sym e) s.0
first-Reaches a b (x ∷ rest) s (Memᴰ.tail m) =
    Reaches-trans a x b s.0 (first-Reaches x b rest s.1 m)

Steps-tail : (a : ElectionManager) (rest : List ElectionManager) → Steps (a ∷ rest) → Steps rest
Steps-tail a [] s = tt
Steps-tail a (x ∷ rest) s = s.1

-- Of two states of a node, one is reached from the other.
in_order :
    (h : List ElectionManager) (a b : ElectionManager)
    → Steps h
    → Memᴰ a h
    → Memᴰ b h
    → Reaches a b ⊎ Reaches b a
in_order [] a b s m n = elim m [ ]
in_order (x ∷ rest) a b s (Memᴰ.head e) (Memᴰ.head f) = inl (subst (Reaches a) (e ∙ sym f) here)
in_order (x ∷ rest) a b s (Memᴰ.head e) (Memᴰ.tail n) =
    inl (subst (λ y. Reaches y b) (sym e) (first-Reaches x b rest s n))
in_order (x ∷ rest) a b s (Memᴰ.tail m) (Memᴰ.head f) =
    inr (subst (λ y. Reaches y a) (sym f) (first-Reaches x a rest s m))
in_order (x ∷ rest) a b s (Memᴰ.tail m) (Memᴰ.tail n) = in_order rest a b (Steps-tail x rest s) m n

start_election-vote :
    (members : List NodeInfo) (addr_of : Str → Option Str) (em em' : ElectionManager)
    (sent : VoteRequest × List Str)
    → start_election members addr_of em ≡ ok (em', sent)
    → em'.voted_for ≡ em.node_id
unfolding start_election start_election_locked unlock candidacy reset_election_timer
    publish_role_change_event
start_election-vote members addr_of em em' sent e =
    let (_, done, b, s) = critical_ok (start_election_locked members addr_of) em em' sent e in
    let same : candidacy (record em { locked = true }) ≡ done = cc in
    ap (λ (x : ElectionManager). x.voted_for) s
    ∙ sym (ap (λ (x : ElectionManager). x.voted_for) same)

vote_state :
    (h : List ElectionManager) (t : ℕ) (c : Str)
    → Vote h t c
    → (em : ElectionManager) × Memᴰ em h × (em.current_term ≡ t) × (em.voted_for ≡ c)
vote_state h t c (answered req em em' r m e g in_term for) =
    let (term, vote) = granted req em em' r e g in (em', m, term ∙ in_term, vote ∙ for)
vote_state h t c (stood members addr_of em em' sent m e in_term for) =
    (em', m, in_term, start_election-vote members addr_of em em' sent e ∙ for)

-- A node votes for one candidate in a term.
single_vote :
    (h : List ElectionManager) (t : ℕ) (c d : Str)
    → Steps h
    → c ≢ []
    → d ≢ []
    → Vote h t c
    → Vote h t d
    → c ≡ d
single_vote h t c d s nc nd v w =
    let (em, m, term, vote) = vote_state h t c v in
    let (em', m', term', vote') = vote_state h t d w in
    elim (in_order h em em' s m m') [
      | inl r ↦
          sym vote
          ∙ sym ((Reaches-Later em em' r).keeps (term ∙ sym term') (λ z. nc (sym vote ∙ z)))
          ∙ vote'
      | inr r ↦
          sym vote
          ∙ (Reaches-Later em' em r).keeps (term' ∙ sym term) (λ z. nd (sym vote' ∙ z))
          ∙ vote'
    ]

-- In a run of a cluster, that is, with the states of each node reached one from another by its
-- calls, where no call deadlocks or panics and no term wraps, two election managers that count, in
-- one term, the votes of members of the cluster, each counted once and each really given, by
-- granting a request or by starting an election, and that both have as many as are needed to win,
-- are those of one node, if their ids are not empty.
pub one_winner :
    (history : Str → List ElectionManager) (members : List NodeInfo) (p q : ElectionManager)
    → ((x : Str) → Steps (history x))
    → p.node_id ≢ []
    → q.node_id ≢ []
    → p.current_term ≡ q.current_term
    → Distinct (voters p)
    → Distinct (voters q)
    → ((x : Str)
        → Memᴰ x (voters p)
        → Memᴰ x (ids_of members) × Vote (history x) p.current_term p.node_id)
    → ((x : Str)
        → Memᴰ x (voters q)
        → Memᴰ x (ids_of members) × Vote (history x) q.current_term q.node_id)
    → votes_needed members ≤ length p.votes_received
    → votes_needed members ≤ length q.votes_received
    → p.node_id ≡ q.node_id
unfolding votes_needed
one_winner history members p q steps np nq same dp dq vp vq enough_p enough_q =
    let n = length-map (λ (n : NodeInfo). n.id) members in
    let lp = length-map (λ (e : Str × Bool). e.0) p.votes_received in
    let lq = length-map (λ (e : Str × Bool). e.0) q.votes_received in
    let (x, mp, mq) =
      quorum_overlap (voters p) (voters q) (ids_of members) dp dq (λ x m. (vp x m).0)
        (λ x m. (vq x m).0) (omega arith) (omega arith) in
    single_vote (history x) q.current_term p.node_id q.node_id (steps x) np nq
      (subst (λ t. Vote (history x) t p.node_id) same (vp x mp).1) (vq x mq).1
