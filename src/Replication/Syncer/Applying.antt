-- ===== src/Replication/Syncer/Applying.antt =====
-- `ApplySync` on a cache whose calls do not fail: the entries' commands in order, and the entries at
use fyer_cache.Prelude.{sym, append-nil, append_assoc, ◌++◌}
use fyer_cache.Prelude.Int.{pos}
use mathlib.Core.List.{map-append}
-- the end of the log.
use fyer_cache.Replication.Log.Appending.{appended}
use fyer_cache.Replication.Syncer.{
  append_entry, with_local, apply_entry_to_local, Syncer, apply_sync, run_command, typed_value,
}
use fyer_cache.Replication.Log.{stamped, append, Log}
use fyer_cache.Prelude.Str.{Str}
use fyer_cache.Prelude.Int.{ℤ}
use fyer_cache.Replication.Entry.{Entry}
use fyer_cache.Replication.Store.{
  if_ok, log_error, store_error, Value, unknown, command_of, Command, Store,
}
use fyer_cache.Replication.Store.{set_command, del_command}
use fyer_cache.Prelude.{
  ◌+◌, ◌≡◌, refl, ap, ◌∙◌, Option, none, some, List, [], ◌∷◌, map, arith, length, length-append,
  nat_equality,
}

-- The cache's calls return no error.
pub record Reliable (c : Store) : Type 0 where
  pub put_ok :
      (key : Str) (v : Value) (expiration : ℤ) (st : c.State) → (c.put key v expiration st).1 ≡ none
  pub remove_ok : (key : Str) (st : c.State) → (c.remove key st).1 ≡ none

abbrev pub IsKnown : Command → Type 0
IsKnown set_command = Unit
IsKnown del_command = Unit
IsKnown (unknown name) = ⊥

abbrev pub AllKnown : List Entry → Type 0
AllKnown [] = Unit
AllKnown (e ∷ es) = IsKnown (command_of e.command) × AllKnown es

-- The log after an `Append` of each entry.
abbrev pub append_all : ℤ → List Entry → Log → Log
append_all now [] l = l
append_all now (e ∷ es) l = append_all now es (appended now e l)

module _ (c : Store) where
  abbrev pub effect : Command → Entry → c.State → c.State
  effect set_command e st = (c.put e.key (typed_value e) e.expiration st).0
  effect del_command e st = (c.remove e.key st).0
  effect (unknown name) e st = st

  -- The entries' commands run in order on the cache.
  abbrev pub replay : List Entry → c.State → c.State
  replay [] st = st
  replay (e ∷ es) st = replay es (effect (command_of e.command) e st)

module _ {c : Store} (r : Reliable c) where
  run_command_lem :
      (k : Command) (e : Entry) (s : Syncer c)
      → IsKnown k
      → run_command k e s ≡ (record s { local = effect c k e s.local }, none)
  unfolding run_command with_local store_error
  run_command_lem set_command e s known =
      ap (λ o. (record s { local = effect c set_command e s.local }, store_error o))
        (r.put_ok e.key (typed_value e) e.expiration s.local)
  run_command_lem del_command e s known =
      ap (λ o. (record s { local = effect c del_command e s.local }, store_error o))
        (r.remove_ok e.key s.local)
  run_command_lem (unknown name) e s known = absurd known

  -- What `ApplySync` leaves.
  abbrev pub synced : ℤ → List Entry → Syncer c → Syncer c
  synced now es s = record s { local = replay c es s.local; log = append_all now es s.log }

  apply_sync_step :
      (now : ℤ) (e : Entry) (es : List (Option Entry)) (s : Syncer c)
      → IsKnown (command_of e.command)
      → apply_sync now (some e ∷ es) s
        ≡ apply_sync now es (record s {
          local = effect c (command_of e.command) e s.local;
          log = appended now e s.log;
        })
  unfolding apply_sync apply_entry_to_local append_entry append log_error if_ok appended
  apply_sync_step now e es s known =
      ap (λ o. if_ok o (λ s'. if_ok (append_entry now (some e) s') (apply_sync now es)))
        (run_command_lem (command_of e.command) e s known)

  pub apply_sync-synced :
      (now : ℤ) (es : List Entry) (s : Syncer c)
      → AllKnown es
      → apply_sync now (map some es) s ≡ (synced now es s, none)
  unfolding apply_sync
  apply_sync-synced now [] s known = refl
  apply_sync-synced now (e ∷ es) s known =
      apply_sync_step now e (map some es) s known.0 ∙ apply_sync-synced now es _ known.1

-- An entry but for what `Append` may write: its index and its timestamp.
abbrev pub content : Entry → Entry
content e = record e { index = 0; timestamp = pos 0 }

content-stamped : (now : ℤ) (es : List Entry) (e : Entry) → content (stamped now es e) ≡ content e
unfolding stamped
content-stamped now es e = refl

pub content-append_all :
    (now : ℤ) (es : List Entry) (l : Log)
    → map content (append_all now es l).entries ≡ map content l.entries ++ map content es
unfolding appended
content-append_all now [] l = sym (append-nil (map content l.entries))
content-append_all now (e ∷ es) l =
    content-append_all now es (appended now e l)
    ∙ rw
        (
          map-append content l.entries (stamped now l.entries e ∷ []),
          append_assoc,
          content-stamped now l.entries e,
        )
        refl

pub length-append_all :
    (now : ℤ) (es : List Entry) (l : Log)
    → length (append_all now es l).entries ≡ length l.entries + length es
unfolding appended
length-append_all now [] l = omega arith
length-append_all now (e ∷ es) l = omega (
  arith,
  length-append_all now es (appended now e l),
  length-append l.entries (stamped now l.entries e ∷ []),
)
