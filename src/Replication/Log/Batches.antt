-- ===== src/Replication/Log/Batches.antt =====
-- `GetFrom`: the window of entries that a follower is sent.
use Prim.Native.Nat.{min}
use fyer_cache.Prelude.{
  length-drop, length-take, sym, take_of_length-le, ℕ, zero, suc, ◌+◌, ◌-◌, ◌≤◌, ◌<◌, ◌≡◌, ◌≢◌,
  refl, ap, ◌∙◌, List, [], ◌∷◌, arith, length, take, drop, ltb, if◌then◌else◌,
}
use fyer_cache.Prelude.Int.{negsuc, pos, ℤ}
use fyer_cache.Prelude.Result.{ok}
use fyer_cache.Replication.Entry.{Entry}
use fyer_cache.Replication.Log.{
  get_from_in, slice, end_pos, entries_from, Log, int_limit, get_last_index, get_from,
}
use fyer_cache.Replication.Log.Indices.{
  Numbered-take, Numbered-drop, Numbered, Consecutive, IsValid, first_index, last_index_lem,
}

-- How many of `n` entries a request for `max_count` gets: all, if that is not positive.
abbrev pub batch : ℤ → ℕ → ℕ
batch (pos zero) n = n
batch (negsuc m) n = n
batch (pos (suc m)) n = min (suc m) n

-- The sum that `GetFrom` computes stays below 2^63.
abbrev pub CountFits : ℕ → ℤ → Type 0
CountFits start (pos n) = start + n < int_limit
CountFits start (negsuc m) = Unit

take_end-take : (m n : ℕ) (es : List Entry) → length es ≤ n → length es ≤ m → take m es ≡ take n es
take_end-take m n es p q = take_of_length-le m es q ∙ sym (take_of_length-le n es p)

min_window :
    (start m n : ℕ)
    → start < n
    → (if ltb n (start + m) then n else start + m) - start ≡ min m (n - start)
min_window start m n lt = ground arith

entries_from_lem :
    (start : ℕ) (max_count : ℤ) (es : List Entry)
    → length es < int_limit
    → start < length es
    → CountFits start max_count
    → entries_from start max_count es
      ≡ ok (take (batch max_count (length es - start)) (drop start es))
unfolding entries_from end_pos slice
entries_from_lem start (pos zero) es r lt c = ground arith
entries_from_lem start (negsuc m) es r lt c = ground arith
entries_from_lem start (pos (suc m)) es r lt c =
    ground (arith, min_window start (suc m) (length es) lt)

batch-le : (m : ℤ) (n : ℕ) → batch m n ≤ n
batch-le (pos zero) n = omega arith
batch-le (negsuc m) n = omega arith
batch-le (pos (suc m)) n = omega arith

get_from_in_lem :
    (start : ℕ) (max_count : ℤ) (es : List Entry)
    → length es < int_limit
    → first_index es ≤ start
    → start < first_index es + length es
    → CountFits (start - first_index es) max_count
    → get_from_in start max_count es
      ≡ ok (
          take
            (batch max_count (length es - (start - first_index es)))
            (drop (start - first_index es) es))
unfolding get_from_in
get_from_in_lem start max_count [] r lo hi c = absurd (omega arith)
get_from_in_lem start max_count (d ∷ es) r lo hi c =
    ground (arith, entries_from_lem (start - d.index) max_count (d ∷ es) r (omega arith) c)

get_from_in_past_end :
    (start : ℕ) (max_count : ℤ) (es : List Entry)
    → es ≢ []
    → first_index es + length es ≤ start
    → start < first_index es + int_limit
    → get_from_in start max_count es ≡ ok []
unfolding get_from_in entries_from
get_from_in_past_end start max_count [] ne lo hi = absurd (ne refl)
get_from_in_past_end start max_count (d ∷ es) ne lo hi = ground arith

Numbered-drop_from :
    (start : ℕ) (es : List Entry)
    → Consecutive es
    → first_index es ≤ start
    → start < first_index es + length es
    → Numbered start (drop (start - first_index es) es)
Numbered-drop_from start [] c lo hi = absurd (omega arith)
Numbered-drop_from start (d ∷ es) c lo hi =
    let p : d.index + (start - d.index) ≡ start = omega arith in
    rw p at (Numbered-drop d.index (start - d.index) (d ∷ es) (refl, c.2))

-- On a well-formed log, `GetFrom` of an index between the first and the last one returns the
-- entries from this index on, as many as asked for or as there are, and they carry
-- consecutive indices from the requested one, where a positive count asked for and the distance of
-- the index from the first one add up to less than 2^63.
pub get_from_lem :
    (l : Log) (start : ℕ) (max_count : ℤ)
    → IsValid l
    → first_index l.entries ≤ start
    → start ≤ get_last_index l
    → CountFits (start - first_index l.entries) max_count
    → (es : List Entry) × (get_from start max_count l ≡ ok es)
      × Numbered start es
      × (length es ≡ batch max_count (get_last_index l + 1 - start))
      × (es ≡ take (length es) (drop (start - first_index l.entries) l.entries))
unfolding get_from
get_from_lem l start max_count v lo hi c =
    let off = start - first_index l.entries in
    let n = length l.entries - off in
    let rest : get_last_index l + 1 - start ≡ n = omega (arith, last_index_lem l v) in
    let size : length (take (batch max_count n) (drop off l.entries)) ≡ batch max_count n = omega (
      arith,
      length-take (batch max_count n) (drop off l.entries),
      length-drop off l.entries,
      batch-le max_count n,
    ) in
    (
      take (batch max_count n) (drop off l.entries),
      get_from_in_lem start max_count l.entries v.fits lo (omega (arith, last_index_lem l v)) c,
      Numbered-take start (batch max_count n) (drop off l.entries)
          (Numbered-drop_from start l.entries v.consecutive lo (omega (arith, last_index_lem l v))),
      rw rest size,
      ap (λ k. take k (drop off l.entries)) (sym size),
    )

-- Past the last index there is nothing to send, and that is no error.
pub get_from_past_end :
    (l : Log) (start : ℕ) (max_count : ℤ)
    → IsValid l
    → l.entries ≢ []
    → get_last_index l < start
    → start < first_index l.entries + int_limit
    → get_from start max_count l ≡ ok []
unfolding get_from
get_from_past_end l start max_count v ne lo hi =
    get_from_in_past_end start max_count l.entries ne (omega (arith, last_index_lem l v)) hi

batch_all : (m n : ℕ) → n ≤ m → batch (pos m) n ≡ n
batch_all zero n h = refl
batch_all (suc m) n h = omega arith

-- A request for as many entries as the log holds, or more, gets them all.
pub get_from_whole :
    (l : Log) (m : ℕ)
    → IsValid l
    → first_index l.entries ≡ 1
    → 1 ≤ length l.entries
    → length l.entries ≤ m
    → m < int_limit
    → get_from 1 (pos m) l ≡ ok l.entries
get_from_whole l m v first ne enough small =
    let last : get_last_index l ≡ length l.entries = omega (arith, last_index_lem l v) in
    let (es, got, _, size, window) =
      get_from_lem l 1 (pos m) v (omega arith) (omega arith) (omega arith) in
    let all : get_last_index l + 1 - 1 ≡ length l.entries = omega arith in
    let offset : 1 - first_index l.entries ≡ 0 = omega arith in
    let n : length es ≡ length l.entries =
      size ∙ ap (batch (pos m)) all ∙ batch_all m (length l.entries) enough in
    got
    ∙ ap ok (
        window
        ∙ ap (λ k. take k (drop (1 - first_index l.entries) l.entries)) n
        ∙ ap (λ d. take (length l.entries) (drop d l.entries)) offset
        ∙ take_of_length-le (length l.entries) l.entries (omega arith))
