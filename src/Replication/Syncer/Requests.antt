-- ===== src/Replication/Syncer/Requests.antt =====
-- `sendSyncRequest`, `syncWithRetries`, `FullSync` and `IncrementalSync` of cache/replication/syncer.go.
use fyer_cache.Replication.Log.{get_last_term}
use fyer_cache.Replication.Syncer.{SyncResponse, Attempt, SyncRequest, Syncer, apply_sync}
use fyer_cache.Replication.Store.{
  remote_failed, cancelled, send_failed, after_retries, ReplicationError, no_attempt, Outcome,
  Store,
}
use fyer_cache.Prelude.Int.{ℤ}
use fyer_cache.Prelude.{
  ℕ, zero, suc, Bool, true, false, not, Option, none, some, ltb, nat_beq, if◌then◌else◌,
  nat_equality,
}

module _ {c : Store} where
  unfoldable pub next_request : ℕ → SyncRequest → Syncer c → SyncRequest
  next_request next req s = record {
    leader_id = s.node_id;
    last_log_index = next;
    last_log_term = req.last_log_term;
    full_sync = false;
  }

  -- What follows the application of a response's entries: with a next index, another request.
  unfoldable pub after_apply :
      ℕ
      → Outcome c.Error (Syncer c)
      → (Syncer c → Option (Outcome c.Error (Syncer c)))
      → Option (Outcome c.Error (Syncer c))
  after_apply next (s, some e) more = some (s, some e)
  after_apply next (s, none) more = if ltb 0 next then more s else some (s, none)

  unfoldable pub on_response :
      ℤ
      → Option SyncResponse
      → Syncer c
      → (ℕ → Syncer c → Option (Outcome c.Error (Syncer c)))
      → Option (Outcome c.Error (Syncer c))
  unfolding apply_sync after_apply
  on_response now none s more = some (s, some send_failed)
  on_response now (some resp) s more =
      if not resp.success
      then some (s, some remote_failed)
      else after_apply resp.next_index (apply_sync now resp.entries s) (more resp.next_index)

  -- `sendSyncRequest` calls itself as long as the response has a next index. With no fuel left it
  -- is still running.
  unfoldable pub send_sync_request :
      ℕ
      → ℤ
      → (ℕ → SyncRequest → Option SyncResponse)
      → SyncRequest
      → Syncer c
      → Option (Outcome c.Error (Syncer c))
  unfolding on_response next_request
  send_sync_request zero now respond req s = none
  send_sync_request (suc fuel) now respond req s =
      on_response now (respond 0 req) s
        (λ next s'. send_sync_request fuel now (λ k. respond (suc k)) (next_request next req s') s')

  -- What follows a round of the retry loop with so many rounds left.
  unfoldable pub after_round :
      Option (Outcome c.Error (Syncer c))
      → ℕ
      → Bool
      → (ReplicationError c.Error → Syncer c → Option (Outcome c.Error (Syncer c)))
      → Option (Outcome c.Error (Syncer c))
  after_round none retries waiting more = none
  after_round (some (s, none)) retries waiting more = some (s, none)
  after_round (some (s, some e)) retries waiting more =
      if nat_beq retries 0
      then some (s, some (after_retries e))
      else if waiting
      then some (s, some cancelled)
      else more e s

  -- The retry loop, with so many rounds left and the error of the last one.
  unfoldable pub retry_loop :
      ℕ
      → ℤ
      → (ℕ → Attempt)
      → SyncRequest
      → ℕ
      → ReplicationError c.Error
      → Syncer c
      → Option (Outcome c.Error (Syncer c))
  unfolding send_sync_request after_round
  retry_loop fuel now attempts req zero last s = some (s, some (after_retries last))
  retry_loop fuel now attempts req (suc retries) last s =
      if (attempts 0).done_before
      then some (s, some cancelled)
      else after_round (send_sync_request fuel now (attempts 0).respond req s) retries
          (attempts 0).done_waiting
          (λ e s'. retry_loop fuel now (λ k. attempts (suc k)) req retries e s')

  unfoldable pub sync_with_retries :
      ℕ → ℤ → (ℕ → Attempt) → SyncRequest → Syncer c → Option (Outcome c.Error (Syncer c))
  unfolding retry_loop
  sync_with_retries fuel now attempts req s =
      retry_loop fuel now attempts req s.max_retries no_attempt s

  unfoldable pub full_request : Syncer c → SyncRequest
  full_request s = record {
    leader_id = s.node_id;
    last_log_index = 0;
    last_log_term = 0;
    full_sync = true;
  }

  unfoldable pub full_sync : ℕ → ℤ → (ℕ → Attempt) → Syncer c → Option (Outcome c.Error (Syncer c))
  unfolding sync_with_retries full_request
  full_sync fuel now attempts s = sync_with_retries fuel now attempts (full_request s) s

  unfoldable pub incremental_request : ℕ → Syncer c → SyncRequest
  unfolding get_last_term
  incremental_request index s = record {
    leader_id = s.node_id;
    last_log_index = index;
    last_log_term = get_last_term s.log;
    full_sync = false;
  }

  unfoldable pub incremental_sync :
      ℕ → ℤ → (ℕ → Attempt) → ℕ → Syncer c → Option (Outcome c.Error (Syncer c))
  unfolding sync_with_retries incremental_request
  incremental_sync fuel now attempts index s =
      sync_with_retries fuel now attempts (incremental_request index s) s
