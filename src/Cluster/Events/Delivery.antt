-- ===== src/Cluster/Events/Delivery.antt =====
-- cache/cluster/events.go: what the channels hold after a number of events.
use fyer_cache.Prelude.{Option, none, some}
use fyer_cache.Prelude.{
  some, Option, ℕ, zero, suc, ◌-◌, ◌≤◌, ◌≡◌, refl, ap, ◌∙◌, inl, inr, List, [], ◌∷◌, ◌++◌, map,
  append_assoc, append-nil, arith, ltb, Bool-cases, length, take, length-append, take_of_length-le,
  nat_equality,
}
use mathlib.Core.List.{Memᴰ}
use mathlib.Core.Option
use mathlib.Core.Path.{ap₂}
use fyer_cache.Cluster.Events.{EventPublisher, offer, publish, publish_all}

module _ {E : Type 0} where
  take-append_short :
      (n : ℕ) (xs ys : List E) → length xs ≤ n → take n (xs ++ ys) ≡ xs ++ take (n - length xs) ys
  take-append_short n [] ys h = let all : n - 0 ≡ n = omega arith in rw all refl
  take-append_short zero (x ∷ xs) ys h = absurd (omega arith)
  take-append_short (suc n) (x ∷ xs) ys h =
      let left : suc n - suc (length xs) ≡ n - length xs = omega arith in
      rw left (ap (◌∷◌ x) (take-append_short n xs ys (omega arith)))

  -- An offer keeps the first events, as many as there is room for.
  pub take-offer :
      (n : ℕ) (e : E) (es ch : List E)
      → length ch ≤ n
      → take n (offer n e ch ++ es) ≡ take n (ch ++ e ∷ es)
  unfolding offer
  take-offer n e es ch h = elim (Bool-cases (ltb (length ch) n)) [
    | inl t ↦ rw (t, append_assoc) refl
    | inr f ↦
        let full : n - length ch ≡ 0 = ground arith in
        rw (f, take-append_short n ch es h, take-append_short n ch (e ∷ es) h, full) refl
  ]

  pub length-offer : (n : ℕ) (e : E) (ch : List E) → length ch ≤ n → length (offer n e ch) ≤ n
  unfolding offer
  length-offer n e ch h = elim (Bool-cases (ltb (length ch) n)) [
    | inl t ↦ let l = length-append ch (e ∷ []) in rw t (ground arith)
    | inr f ↦ rw f h
  ]

  -- The channels that hold no more than the buffer has room for.
  pub record Buffered (p : EventPublisher E) : Type 0 where
    pub within : (ch : List E) → Memᴰ ch p.subscribers → length ch ≤ p.buffer_size
    pub main_within : (ch : List E) → p.event_ch ≡ some ch → length ch ≤ p.buffer_size

  kept-subscribers :
      (n : ℕ) (e : E) (es : List E) (chs : List (List E))
      → ((ch : List E) → Memᴰ ch chs → length ch ≤ n)
      → map (λ ch. take n (ch ++ es)) (map (offer n e) chs) ≡ map (λ ch. take n (ch ++ e ∷ es)) chs
  kept-subscribers n e es [] h = refl
  kept-subscribers n e es (ch ∷ chs) h =
      ap₂ ◌∷◌ (take-offer n e es ch (h ch (Memᴰ.head refl)))
        (kept-subscribers n e es chs (λ x m. h x (Memᴰ.tail m)))

  offered-within :
      (n : ℕ) (e : E) (chs : List (List E))
      → ((ch : List E) → Memᴰ ch chs → length ch ≤ n)
      → (ch : List E) → Memᴰ ch (map (offer n e) chs)
      → length ch ≤ n
  offered-within n e [] h ch m = elim m [ ]
  offered-within n e (c ∷ chs) h ch (Memᴰ.head s) = rw s (length-offer n e c (h c (Memᴰ.head refl)))
  offered-within n e (c ∷ chs) h ch (Memᴰ.tail m) =
      offered-within n e chs (λ x k. h x (Memᴰ.tail k)) ch m

  take-full :
      (n : ℕ) (chs : List (List E))
      → ((ch : List E) → Memᴰ ch chs → length ch ≤ n)
      → chs ≡ map (λ ch. take n (ch ++ [])) chs
  take-full n [] h = refl
  take-full n (ch ∷ chs) h =
      ap₂ ◌∷◌ (rw (append-nil, take_of_length-le n ch (h ch (Memᴰ.head refl))) refl)
        (take-full n chs (λ x m. h x (Memᴰ.tail m)))

  kept-main :
      (n : ℕ) (e : E) (es : List E) (o : Option (List E))
      → ((ch : List E) → o ≡ some ch → length ch ≤ n)
      → Option.map (λ ch. take n (ch ++ es)) (Option.map (offer n e) o)
        ≡ Option.map (λ ch. take n (ch ++ e ∷ es)) o
  kept-main n e es none h = refl
  kept-main n e es (some ch) h = ap some (take-offer n e es ch (h ch refl))

  offered_main :
      (n : ℕ) (e : E) (o : Option (List E))
      → ((ch : List E) → o ≡ some ch → length ch ≤ n)
      → (ch : List E) → Option.map (offer n e) o ≡ some ch
      → length ch ≤ n
  offered_main n e none h ch s = cc
  offered_main n e (some c) h ch s =
      let same : offer n e c ≡ ch = cc in rw (← same) (length-offer n e c (h c refl))

  full_main :
      (n : ℕ) (o : Option (List E))
      → ((ch : List E) → o ≡ some ch → length ch ≤ n)
      → o ≡ Option.map (λ ch. take n (ch ++ [])) o
  full_main n none h = refl
  full_main n (some ch) h = ap some (rw (append-nil, take_of_length-le n ch (h ch refl)) refl)

  -- Where no channel holds more than the buffer, events that are published while nobody receives
  -- add to the channel of each subscriber, and to the publisher's own channel if it is not nil, in
  -- their order, as many of the first of them as there is room for; the rest is dropped.
  pub publish_all_lem :
      (es : List E) (p : EventPublisher E)
      → Buffered p
      → ((publish_all es p).subscribers ≡ map (λ ch. take p.buffer_size (ch ++ es)) p.subscribers)
        × ((publish_all es p).event_ch
            ≡ Option.map (λ ch. take p.buffer_size (ch ++ es)) p.event_ch)
  unfolding publish_all publish
  publish_all_lem [] p b = (
    take-full p.buffer_size p.subscribers b.within,
    full_main p.buffer_size p.event_ch b.main_within,
  )
  publish_all_lem (e ∷ es) p b =
      let n = p.buffer_size in
      let (subs, main) = publish_all_lem es (publish e p) (record {
        within = offered-within n e p.subscribers b.within;
        main_within = offered_main n e p.event_ch b.main_within;
      }) in
      (
        subs ∙ kept-subscribers n e es p.subscribers b.within,
        main ∙ kept-main n e es p.event_ch b.main_within,
      )
