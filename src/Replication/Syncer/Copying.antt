-- ===== src/Replication/Syncer/Copying.antt =====
-- A full sync of an empty node: the response of the leader and its application.
use fyer_cache.Replication.Syncer.Requests.{full_request}
use fyer_cache.Replication.Syncer.Cleanup.{Numbered-from_one}
use fyer_cache.Replication.Log.Batches.{get_from_whole}
use fyer_cache.Replication.Store.{Store}
use fyer_cache.Replication.Syncer.{
  apply_sync, SyncResponse, start_index, answered, handle_sync_request, Syncer, SyncRequest,
  response_to,
}
use fyer_cache.Replication.Syncer.Applying.{
  apply_sync-synced, synced, replay, AllKnown, Reliable, append_all,
}
use fyer_cache.Replication.Log.Indices.{
  IsValid, first_index-append, Consecutive-append, next_index_lem, Numbered, first_index,
  Consecutive,
}
use fyer_cache.Prelude.Int.{pos, ℤ}
use fyer_cache.Replication.Log.{
  get_from, int_limit, u64_mod, last_entry, Log, is_zero_time, next_index, stamped,
}
use fyer_cache.Replication.Entry.{Entry}
use mathlib.Core.Path.{subst}
use fyer_cache.Replication.Log.Appending.{appended}
use fyer_cache.Prelude.Result.{ok}
use fyer_cache.Prelude.{
  ℕ, suc, ◌+◌, ◌≤◌, ◌<◌, ◌≡◌, refl, sym, ap, ◌∙◌, false, none, some, List, [], ◌∷◌, ◌++◌, map,
  append_assoc, append-nil, arith, if◌then◌else◌, length, length-append, nat_equality,
}

-- The timestamps are set.
abbrev pub AllStamped : List Entry → Type 0
AllStamped [] = Unit
AllStamped (e ∷ es) = (is_zero_time e.timestamp ≡ false) × AllStamped es

-- An entry that has its index and its timestamp is stored as it is.
stamped_same :
    (now : ℤ) (es : List Entry) (e : Entry)
    → next_index (last_entry es) ≡ e.index
    → is_zero_time e.timestamp ≡ false
    → stamped now es e ≡ e
unfolding stamped
stamped_same now es e p q =
    ap
      (λ i. record e {
        index = i;
        timestamp = if is_zero_time e.timestamp then now else e.timestamp;
      })
      p
    ∙ ap (λ b. record e { timestamp = if b then now else e.timestamp }) q

append_all-Consecutive :
    (now : ℤ) (es : List Entry) (l : Log)
    → Consecutive l.entries
    → first_index l.entries ≡ 1
    → Numbered (suc (length l.entries)) es
    → length l.entries + length es + 1 < u64_mod
    → AllStamped es
    → (append_all now es l).entries ≡ l.entries ++ es
append_all-Consecutive now [] l c first n small st = sym (append-nil l.entries)
append_all-Consecutive now (e ∷ es) l c first n small st =
    let next = next_index_lem l.entries c (omega arith) in
    let same : stamped now l.entries e ≡ e =
      stamped_same now l.entries e (omega (arith, n.0)) st.0 in
    let extended : (appended now e l).entries ≡ l.entries ++ e ∷ [] =
      unfold appended in ap (λ d. l.entries ++ d ∷ []) same in
    let at : e.index ≡ first_index l.entries + length l.entries = omega (arith, n.0) in
    let size : suc (length l.entries) ≡ length (l.entries ++ e ∷ []) =
      omega (arith, length-append l.entries (e ∷ [])) in
    append_all-Consecutive now es (appended now e l)
      (rw extended (Consecutive-append l.entries e c (omega arith) at))
      (rw extended (first_index-append l.entries e at ∙ first))
      (rw extended (subst (λ k. Numbered (suc k) es) size n.1)) (rw extended (omega arith)) st.1
    ∙ ap (λ ds. ds ++ es) extended
    ∙ append_assoc l.entries (e ∷ []) es

entries-response_to :
    (req : SyncRequest) (es : List Entry) (l : Log) → (response_to req es l).entries ≡ map some es
unfolding response_to
entries-response_to req [] l = refl
entries-response_to req (e ∷ es) l = refl

module _ {c d : Store} (leader : Syncer d) (follower : Syncer c) (m : ℕ) where
  serve_whole :
      IsValid leader.log
      → first_index leader.log.entries ≡ 1
      → 1 ≤ length leader.log.entries
      → leader.max_log_entries ≡ pos m
      → length leader.log.entries ≤ m
      → m < int_limit
      → handle_sync_request (full_request follower) leader
        ≡ ok (response_to (full_request follower) leader.log.entries leader.log)
  unfolding handle_sync_request answered start_index full_request
  serve_whole v first ne limit enough small = ap (answered 0 (full_request follower) leader.log) (
      ap (λ k. get_from 1 k leader.log) limit ∙ get_from_whole leader.log m v first ne enough small)

  -- The request of a full sync to a leader whose log is well-formed, starts at index 1, is not
  -- empty and fits one response, with timestamps set and known commands, is answered with a
  -- response that `ApplySync` applies without an error on a node with an empty log and a cache
  -- whose calls do not fail. The node then has the entries of the leader's log, indices and
  -- timestamps included, and its cache has run their commands in order.
  pub copy_log :
      (now : ℤ)
      → Reliable c
      → IsValid leader.log
      → first_index leader.log.entries ≡ 1
      → 1 ≤ length leader.log.entries
      → leader.max_log_entries ≡ pos m
      → length leader.log.entries ≤ m
      → m < int_limit
      → AllStamped leader.log.entries
      → AllKnown leader.log.entries
      → follower.log.entries ≡ []
      → (resp : SyncResponse) × (s : Syncer c) × (handle_sync_request (full_request follower) leader
          ≡ ok resp)
        × (apply_sync now resp.entries follower ≡ (s, none))
        × (s.log.entries ≡ leader.log.entries)
        × (s.local ≡ replay c leader.log.entries follower.local)
  copy_log now r v first ne limit enough small st known empty =
      let es = leader.log.entries in
      (
        response_to (full_request follower) es leader.log,
        synced r now es follower,
        serve_whole v first ne limit enough small,
        ap (λ ds. apply_sync now ds follower) (entries-response_to _ es leader.log)
            ∙ apply_sync-synced r now es follower known,
        append_all-Consecutive now es follower.log (rw empty tt) (rw empty refl)
              (rw empty (Numbered-from_one es v.consecutive first))
              (rw empty (omega (arith, v.fits))) st
            ∙ ap (λ ds. ds ++ es) empty,
        refl,
      )
