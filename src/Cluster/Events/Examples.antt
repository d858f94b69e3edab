-- ===== src/Cluster/Events/Examples.antt =====
-- Runs of the event publisher of cache/cluster/events.go.
use fyer_cache.Prelude.{ℕ, ◌≡◌, refl, inl, inr, some, [], ◌∷◌, ◌++◌, map, arith, take, nat_equality}
use mathlib.Core.List.Memᴰ
use fyer_cache.Prelude.Int.{pos}
use fyer_cache.Cluster.Events.{EventPublisher, new_event_publisher, subscribe, publish, publish_all}
use fyer_cache.Cluster.Events.Delivery.{Buffered, publish_all_lem}

abbrev two_places : EventPublisher ℕ
two_places = record { event_ch = some []; subscribers = [] ∷ []; buffer_size = 2 }

run_subscribe : subscribe (new_event_publisher (pos 2)) ≡ two_places
unfolding subscribe new_event_publisher
run_subscribe = refl

run_publish : (publish_all (7 ∷ 8 ∷ 9 ∷ []) two_places).subscribers ≡ (7 ∷ 8 ∷ []) ∷ []
unfolding publish_all publish
run_publish = refl

two_places-Buffered : Buffered two_places
two_places-Buffered = record {
  within = λ ch m. elim (Memᴰ.cases_cons m) [ inl e ↦ rw e (omega arith) | inr k ↦ elim k [ ] ];
  main_within = λ ch e. let same : [] ≡ ch = cc in rw (← same) (omega arith);
}

publish_all_lem_example :
    ((publish_all (7 ∷ 8 ∷ 9 ∷ []) two_places).subscribers
      ≡ map (λ ch. take 2 (ch ++ 7 ∷ 8 ∷ 9 ∷ [])) ([] ∷ []))
    × ((publish_all (7 ∷ 8 ∷ 9 ∷ []) two_places).event_ch ≡ some (7 ∷ 8 ∷ []))
publish_all_lem_example = publish_all_lem (7 ∷ 8 ∷ 9 ∷ []) two_places two_places-Buffered
