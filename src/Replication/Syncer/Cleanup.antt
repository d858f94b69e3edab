-- ===== src/Replication/Syncer/Cleanup.antt =====
-- `CleanupExpiredEntries`: which entries it keeps.
use fyer_cache.Replication.Log.Batches.{get_from_whole}
use fyer_cache.Replication.Log.Truncation.{truncate_cut}
use fyer_cache.Replication.Log.Indices.{last_index_lem, first_index, Consecutive, IsValid, Numbered}
use fyer_cache.Replication.Store.{Store}
use fyer_cache.Replication.Entry.{Entry}
use fyer_cache.Replication.Log.{truncate, get_last_index, with_entries, get_from, int_limit}
use fyer_cache.Replication.Syncer.{
  cleanup_expired_entries, truncate_expired, Syncer, to_int, truncate_index,
}
use fyer_cache.Prelude.Int.{◌-ℤ◌, pos, ltb_ℤ, ℤ}
use mathlib.Core.Path.{subst}
use fyer_cache.Prelude.Result.{ok}
use fyer_cache.Prelude.{
  take-append, ℕ, suc, ◌+◌, ◌-◌, ◌≤◌, ◌<◌, ◌≡◌, refl, ap, ◌∙◌, true, false, List, [], ◌∷◌, ◌++◌,
  arith, ltb, if◌then◌else◌, length, take, length-append, nat_equality,
}

-- None of the entries is after the cutoff.
abbrev pub AllExpired : ℤ → List Entry → Type 0
AllExpired cutoff [] = Unit
AllExpired cutoff (e ∷ es) = (ltb_ℤ cutoff e.timestamp ≡ false) × AllExpired cutoff es

-- The first entry, if there is one, is after the cutoff.
abbrev pub StartsFresh : ℤ → List Entry → Type 0
StartsFresh cutoff [] = Unit
StartsFresh cutoff (e ∷ es) = ltb_ℤ cutoff e.timestamp ≡ true

truncate_index_fresh :
    (cutoff : ℤ) (i : ℕ) (es : List Entry) → StartsFresh cutoff es → truncate_index cutoff i es ≡ i
unfolding truncate_index
truncate_index_fresh cutoff i [] h = refl
truncate_index_fresh cutoff i (e ∷ es) h =
    ap (λ b. if b then i else truncate_index cutoff e.index es) h

truncate_index_lem :
    (cutoff : ℤ) (i : ℕ) (expired fresh : List Entry)
    → AllExpired cutoff expired
    → StartsFresh cutoff fresh
    → Numbered (suc i) (expired ++ fresh)
    → truncate_index cutoff i (expired ++ fresh) ≡ i + length expired
unfolding truncate_index
truncate_index_lem cutoff i [] fresh a f n =
    let at : i ≡ i + 0 = omega arith in truncate_index_fresh cutoff i fresh f ∙ at
truncate_index_lem cutoff i (e ∷ es) fresh a f n =
    let at : suc i + length es ≡ i + suc (length es) = omega arith in
    ap (λ b. if b then i else truncate_index cutoff e.index (es ++ fresh)) a.0
    ∙ ap (λ j. truncate_index cutoff j (es ++ fresh)) n.0
    ∙ truncate_index_lem cutoff (suc i) es fresh a.1 f n.1
    ∙ at

to_int_lem : (n : ℕ) → n < int_limit → to_int n ≡ pos n
unfolding to_int
to_int_lem n h = ground arith

pub Numbered-from_one : (es : List Entry) → Consecutive es → first_index es ≡ 1 → Numbered 1 es
Numbered-from_one [] c first = tt
Numbered-from_one (e ∷ es) c first = (first, subst (λ k. Numbered (suc k) es) first c.2)

module _ {c : Store} (s : Syncer c) (now max_age : ℤ) (expired fresh : List Entry) where
  truncated :
      IsValid s.log
      → first_index s.log.entries ≡ 1
      → s.log.entries ≡ expired ++ fresh
      → 1 ≤ length expired
      → truncate_expired (length expired) s.log ≡ ok (with_entries expired)
  unfolding truncate_expired
  truncated v first split ne =
      let size : length s.log.entries ≡ length expired + length fresh =
        rw split (length-append expired fresh) in
      let at : length expired - first_index s.log.entries + 1 ≡ length expired = omega arith in
      let positive : ltb 0 (length expired) ≡ true = ground arith in
      let cut =
        truncate_cut s.log (length expired) v (omega arith)
          (omega (arith, last_index_lem s.log v)) in
      ap (λ b. if b then truncate (length expired) s.log else ok s.log) positive
      ∙ cut
      ∙ ap (λ es. ok (with_entries es))
          (ap (λ k. take k s.log.entries) at
            ∙ ap (take (length expired)) split
            ∙ take-append expired fresh)

  -- On a well-formed log that starts at index 1 with some entries that are past the age limit,
  -- and whose next entry is not, `CleanupExpiredEntries` keeps the expired entries and removes
  -- all that follow them.
  pub cleanup_expired_entries-keeps :
      IsValid s.log
      → first_index s.log.entries ≡ 1
      → s.log.entries ≡ expired ++ fresh
      → 1 ≤ length expired
      → AllExpired (now -ℤ max_age) expired
      → StartsFresh (now -ℤ max_age) fresh
      → cleanup_expired_entries now max_age s ≡ ok (record s { log = with_entries expired })
  unfolding cleanup_expired_entries truncate_expired
  cleanup_expired_entries-keeps v first split ne a f =
      let ne' : 1 ≤ length s.log.entries = rw split (omega (arith, length-append expired fresh)) in
      let last : get_last_index s.log ≡ length s.log.entries =
        omega (arith, last_index_lem s.log v) in
      let got =
        ap (λ n. get_from 1 n s.log)
          (to_int_lem (get_last_index s.log) (omega (arith, v.fits)) ∙ ap pos last)
        ∙ get_from_whole s.log (length s.log.entries) v first ne' (omega arith) v.fits in
      let sum : 0 + length expired ≡ length expired = omega arith in
      let at : truncate_index (now -ℤ max_age) 0 s.log.entries ≡ length expired =
        ap (truncate_index (now -ℤ max_age) 0) split
        ∙ truncate_index_lem (now -ℤ max_age) 0 expired fresh a f
            (rw (← split) (Numbered-from_one s.log.entries v.consecutive first))
        ∙ sum in
      rw (got, at, truncated v first split ne) refl
