-- ===== src/Replication/Syncer/Endless.antt =====
-- `sendSyncRequest` against a leader with entries: it asks again after every response, so that no
-- sync ends with success.
use fyer_cache.Replication.Syncer.Requests.{
  sync_with_retries, incremental_sync, retry_loop, full_sync, after_round, after_apply,
  send_sync_request, on_response,
}
use fyer_cache.Replication.Log.Positive.{
  Consecutive-Positive, get_from-Positive, last_entry-Positive, Positive,
}
use fyer_cache.Replication.Entry.{Entry}
use fyer_cache.Prelude.Int.{ℤ}
use fyer_cache.Replication.Log.{u64_mod, LogError, get_last_index}
use fyer_cache.Replication.Log.Indices.{first_index, Consecutive, last_index_lem, IsValid}
use fyer_cache.Replication.Syncer.{
  Attempt, answer_of, start_index, handle_sync_request, serve_sync, answered, response_to, Syncer,
  SyncRequest, SyncResponse,
}
use fyer_cache.Replication.Store.{ReplicationError, Outcome, Store}
use mathlib.Core.Path.{subst}
use fyer_cache.Prelude.Result.{Result, ok, err, panic}
use fyer_cache.Prelude.{
  ℕ, zero, suc, ◌+◌, ◌%◌, ◌≤◌, ◌≡◌, refl, ◌≢◌, Bool, true, false, not, Option, none, some, List, [],
  ◌∷◌, arith, ltb, nat_beq, if◌then◌else◌, length, nat_equality,
}

-- A leader with something to send.
pub record IsFilled {d : Store} (leader : Syncer d) : Type 0 where
  pub valid : IsValid leader.log
  pub filled : 1 ≤ length leader.log.entries

abbrev pub Continues : SyncResponse → Type 0
Continues resp = ltb 0 resp.next_index ≡ true

first_index_positive : (es : List Entry) → Consecutive es → 1 ≤ first_index es
first_index_positive [] c = omega arith
first_index_positive (e ∷ es) c = c.0

get_last_index_positive :
    {d : Store} (leader : Syncer d) → IsFilled leader → 1 ≤ get_last_index leader.log
get_last_index_positive leader f =
    let first = first_index_positive leader.log.entries f.valid.consecutive in
    let ne = f.filled in omega (arith, last_index_lem leader.log f.valid)

ok_unless :
    (b : Bool) (e : LogError) (resp resp' : SyncResponse)
    → (if b then err e else ok resp) ≡ ok resp'
    → resp ≡ resp'
ok_unless true e resp resp' p = cc
ok_unless false e resp resp' p = cc

answer_of-some :
    (r : Result LogError SyncResponse) (resp : SyncResponse) → answer_of r ≡ some resp → r ≡ ok resp
unfolding answer_of
answer_of-some (ok resp) resp' p = cc
answer_of-some (err e) resp' p = cc
answer_of-some panic resp' p = cc

module _ {d : Store} (leader : Syncer d) (req : SyncRequest) where
  response_to-Continues :
      (es : List Entry) → IsFilled leader → Positive es → Continues (response_to req es leader.log)
  unfolding response_to
  response_to-Continues [] f p = let q = get_last_index_positive leader f in ground arith
  response_to-Continues (e ∷ es) f p = let q = last_entry-Positive e es p in ground arith

  answered-Continues :
      (start : ℕ) (r : Result LogError (List Entry)) (resp : SyncResponse)
      → IsFilled leader
      → ((es : List Entry) → r ≡ ok es → Positive es)
      → answered start req leader.log r ≡ ok resp
      → Continues resp
  unfolding answered
  answered-Continues start (ok es) resp f p q =
      let e : response_to req es leader.log ≡ resp = cc in
      subst Continues e (response_to-Continues es f (p es refl))
  answered-Continues start (err e) resp f p q =
      subst Continues (ok_unless (ltb 0 start) e _ resp q) (response_to-Continues [] f tt)
  answered-Continues start panic resp f p q = cc

  serve_sync-Continues :
      (resp : SyncResponse) → IsFilled leader → serve_sync req leader ≡ some resp → Continues resp
  unfolding serve_sync handle_sync_request
  serve_sync-Continues resp f q =
      answered-Continues (start_index req) _ resp f
        (λ es.
          get_from-Positive ((start_index req + 1) % u64_mod) leader.max_log_entries leader.log es
            (Consecutive-Positive leader.log.entries f.valid.consecutive))
        (answer_of-some (handle_sync_request req leader) resp q)

-- Every response that comes is that of some leader with entries.
abbrev pub FromLeaders : Store → (ℕ → SyncRequest → Option SyncResponse) → Type 0
FromLeaders d respond =
    (k : ℕ) (req : SyncRequest) (resp : SyncResponse)
    → respond k req ≡ some resp
    → (leader : Syncer d) × IsFilled leader × (serve_sync req leader ≡ some resp)

module _ {c : Store} where
  -- A run that did not end with success: it goes on, or it ended with an error.
  abbrev Unsuccessful : Option (Outcome c.Error (Syncer c)) → Type 0
  Unsuccessful none = Unit
  Unsuccessful (some (s, none)) = ⊥
  Unsuccessful (some (s, some e)) = Unit

  if-Unsuccessful :
      (b : Bool) (m n : Option (Outcome c.Error (Syncer c)))
      → Unsuccessful m
      → Unsuccessful n
      → Unsuccessful (if b then m else n)
  if-Unsuccessful true m n p q = p
  if-Unsuccessful false m n p q = q

  after_apply-Unsuccessful :
      (next : ℕ) (o : Outcome c.Error (Syncer c))
      (more : Syncer c → Option (Outcome c.Error (Syncer c)))
      → ltb 0 next ≡ true
      → ((s : Syncer c) → Unsuccessful (more s))
      → Unsuccessful (after_apply next o more)
  unfolding after_apply
  after_apply-Unsuccessful next (s, some e) more p h = tt
  after_apply-Unsuccessful next (s, none) more p h = rw p (h s)

  on_response-Unsuccessful :
      (now : ℤ) (o : Option SyncResponse) (s : Syncer c)
      (more : ℕ → Syncer c → Option (Outcome c.Error (Syncer c)))
      → ((resp : SyncResponse) → o ≡ some resp → Continues resp)
      → ((next : ℕ) (s' : Syncer c) → Unsuccessful (more next s'))
      → Unsuccessful (on_response now o s more)
  unfolding on_response
  on_response-Unsuccessful now none s more p h = tt
  on_response-Unsuccessful now (some resp) s more p h =
      if-Unsuccessful (not resp.success) _ _ tt
        (after_apply-Unsuccessful resp.next_index _ _ (p resp refl) (h resp.next_index))

  send_sync_request-Unsuccessful :
      (fuel : ℕ) (now : ℤ) (respond : ℕ → SyncRequest → Option SyncResponse) (req : SyncRequest)
      (s : Syncer c) (d : Store)
      → FromLeaders d respond
      → Unsuccessful (send_sync_request fuel now respond req s)
  unfolding send_sync_request
  send_sync_request-Unsuccessful zero now respond req s d from = tt
  send_sync_request-Unsuccessful (suc fuel) now respond req s d from =
      on_response-Unsuccessful now (respond 0 req) s _
        (λ resp q.
          let (leader, f, served) = from 0 req resp q in
          serve_sync-Continues leader req resp f served)
        (λ next s'.
          send_sync_request-Unsuccessful fuel now (λ k. respond (suc k)) _ s' d (λ k. from (suc k)))

  after_round-Unsuccessful :
      (o : Option (Outcome c.Error (Syncer c))) (retries : ℕ) (waiting : Bool)
      (more : ReplicationError c.Error → Syncer c → Option (Outcome c.Error (Syncer c)))
      → Unsuccessful o
      → ((e : ReplicationError c.Error) (s : Syncer c) → Unsuccessful (more e s))
      → Unsuccessful (after_round o retries waiting more)
  unfolding after_round
  after_round-Unsuccessful none retries waiting more p h = tt
  after_round-Unsuccessful (some (s, none)) retries waiting more p h = p
  after_round-Unsuccessful (some (s, some e)) retries waiting more p h =
      if-Unsuccessful (nat_beq retries 0) _ _ tt (if-Unsuccessful waiting _ _ tt (h e s))

  retry_loop-Unsuccessful :
      (fuel : ℕ) (now : ℤ) (attempts : ℕ → Attempt) (req : SyncRequest) (retries : ℕ)
      (last : ReplicationError c.Error) (s : Syncer c) (d : Store)
      → ((k : ℕ) → FromLeaders d (attempts k).respond)
      → Unsuccessful (retry_loop fuel now attempts req retries last s)
  unfolding retry_loop
  retry_loop-Unsuccessful fuel now attempts req zero last s d from = tt
  retry_loop-Unsuccessful fuel now attempts req (suc retries) last s d from =
      if-Unsuccessful (attempts 0).done_before _ _ tt (
        after_round-Unsuccessful _ retries (attempts 0).done_waiting _
          (send_sync_request-Unsuccessful fuel now (attempts 0).respond req s d (from 0))
          (λ e s'.
            retry_loop-Unsuccessful fuel now (λ k. attempts (suc k)) req retries e s' d
              (λ k. from (suc k))))

  Unsuccessful-not :
      (o : Option (Outcome c.Error (Syncer c))) (s : Syncer c) → Unsuccessful o → o ≢ some (s, none)
  Unsuccessful-not o s h p = subst Unsuccessful p h

  -- However many requests and rounds a sync takes and whatever the context and the network do, if
  -- each response that comes is that of a leader with a well-formed log that is not empty, then
  -- neither `FullSync` nor `IncrementalSync` returns without an error.
  pub sync_never_succeeds :
      (fuel : ℕ) (now : ℤ) (attempts : ℕ → Attempt) (index : ℕ) (s s' : Syncer c) (d : Store)
      → ((k : ℕ) → FromLeaders d (attempts k).respond)
      → (full_sync fuel now attempts s ≢ some (s', none))
        × (incremental_sync fuel now attempts index s ≢ some (s', none))
  unfolding full_sync incremental_sync sync_with_retries
  sync_never_succeeds fuel now attempts index s s' d from = (
    Unsuccessful-not _ s' (retry_loop-Unsuccessful fuel now attempts _ s.max_retries _ s d from),
    Unsuccessful-not _ s' (retry_loop-Unsuccessful fuel now attempts _ s.max_retries _ s d from),
  )
