-- ===== src/Cluster/Events.antt =====
-- cache/cluster/events.go: `EventPublisher`. A channel is the list of what it buffers; one that is
-- nil is `none`. Both sends of `Publish` have a `default`, so that a full channel drops the event.
pub mod Delivery
mod Examples
use fyer_cache.Prelude.{
  ℕ, zero, suc, ◌+◌, ◌-◌, ◌*◌, ◌/◌, ◌%◌, ◌^◌, ◌≤◌, ◌<◌, ◌≡◌, refl, sym, ap, ◌∙◌, ◌≢◌, ◌↔◌, ◌⊎◌, inl,
  inr, Bool, true, false, not, ◌&&◌, ◌||◌, Option, none, some, List, [], ◌∷◌, ◌++◌, map,
  append_assoc, append-nil, arith, ltb, leb, nat_beq, if◌then◌else◌, ltb→lt, lt→ltb, leb→le,
  nat_beq_iff, tests, Bool-cases, Option-cases, length, get_elem?, take, drop, replicate,
  length-append, take-append-drop, length-take, length-drop, take_of_length-le, get_elem?-some,
  get_elem?-none, Equality, ◌==◌, nat_equality, beq_refl, beq-eq, beq_ne,
}
use mathlib.Core.Option
use fyer_cache.Prelude.Int.{ℤ, pos, negsuc}

pub record EventPublisher (E : Type 0) : Type 0 where
  pub event_ch : Option (List E)
  pub subscribers : List (List E)
  pub buffer_size : ℕ

unfoldable pub buffer_for : ℤ → ℕ
buffer_for (pos zero) = 100
buffer_for (pos (suc n)) = suc n
buffer_for (negsuc n) = 100

module _ {E : Type 0} where
  unfoldable pub new_event_publisher : ℤ → EventPublisher E
  unfolding buffer_for
  new_event_publisher size = record {
    event_ch = some [];
    subscribers = [];
    buffer_size = buffer_for size;
  }

  unfoldable pub subscribe : EventPublisher E → EventPublisher E
  subscribe p = record p { subscribers = p.subscribers ++ [] ∷ [] }

  -- A send that does not block, to a channel with room for `n`.
  unfoldable pub offer : ℕ → E → List E → List E
  offer n event ch = if ltb (length ch) n then ch ++ event ∷ [] else ch

  unfoldable pub publish : E → EventPublisher E → EventPublisher E
  unfolding offer
  publish event p = record p {
    subscribers = map (offer p.buffer_size event) p.subscribers;
    event_ch = Option.map (offer p.buffer_size event) p.event_ch;
  }

  unfoldable pub publish_all : List E → EventPublisher E → EventPublisher E
  unfolding publish
  publish_all [] p = p
  publish_all (e ∷ es) p = publish_all es (publish e p)

  unfoldable pub close : EventPublisher E → EventPublisher E
  close p = record p { subscribers = []; event_ch = none }
