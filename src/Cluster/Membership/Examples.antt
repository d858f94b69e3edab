-- ===== src/Cluster/Membership/Examples.antt =====
-- Runs of the member table of cache/cluster/membership.go.
use fyer_cache.Prelude.{◌*◌, inl, inr, ap, arith, if◌then◌else◌}
use mathlib.Core.List.{Memᴰ}
use mathlib.Core.List.Memᴰ
use fyer_cache.Prelude.Int.{ℤ}
use fyer_cache.Prelude.{◌≡◌, refl, none, some, List, [], ◌∷◌, nat_equality}
use fyer_cache.Prelude.Int.{pos, ltb_ℤ, ◌-ℤ◌, ◌*ℤ◌}
use fyer_cache.Prelude.Str.{Str, bytes, str_equality}
use fyer_cache.Prelude.Str
use fyer_cache.Prelude.GoMap.{lookup}
use fyer_cache.Cluster.NodeInfo.{NodeInfo, up, suspect}
use fyer_cache.Cluster.Membership.{
  Membership, new_membership, check_suspected_nodes, add_local_node, start, add_member,
  mark_suspect,
}
use fyer_cache.Cluster.Membership.Tracked.{
  Tracked, Op, started, added, suspected, checked, apply, run, run-Tracked,
}
use fyer_cache.Cluster.Membership.Failing.{fallen, check_suspected_nodes-fails}

abbrev a : Str
a = bytes "a"

abbrev b : Str
b = bytes "b"

-- A suspicion lasts for 3 probe intervals of 10.
abbrev fresh : Membership
fresh = new_membership a (bytes "h1:1") (pos 3) (pos 10) none

abbrev ops : List Op
ops =
    started (pos 0)
    ∷ added (pos 1) b (bytes "h2:1") none
    ∷ suspected (pos 5) b
    ∷ checked (pos 20)
    ∷ []

fresh-Tracked : Tracked fresh
unfolding new_membership lookup
fresh-Tracked = record { suspected = λ id node e s. cc }

run-Tracked_example : Tracked (run ops fresh)
run-Tracked_example = run-Tracked ops fresh fresh-Tracked

abbrev doubted : NodeInfo
doubted = record {
  id = b;
  addr = bytes "h2:1";
  status = suspect;
  last_seen = pos 1;
  metadata = none;
}

abbrev doubting : Membership
doubting = record fresh {
  members =
      (a, record { id = a; addr = bytes "h1:1"; status = up; last_seen = pos 0; metadata = none })
      ∷ (b, doubted)
      ∷ [];
  suspect_time = (b, pos 5) ∷ [];
}

ops_outcome : (run ops fresh).suspect_time ≡ (b, pos 5) ∷ []
unfolding run new_membership start add_local_node add_member mark_suspect check_suspected_nodes
    Str.eq ◌-ℤ◌ ◌*ℤ◌ apply
ops_outcome = refl

known : lookup b doubting.members ≡ some doubted
unfolding lookup Str.eq
known = refl

timed : lookup b doubting.suspect_time ≡ some (pos 5)
unfolding lookup Str.eq
timed = refl

only_time : (t : ℤ) → Memᴰ (b, t) doubting.suspect_time → t ≡ pos 5
only_time t m = elim (Memᴰ.cases_cons m) [ inl e ↦ ap (λ x. x.1) e | inr k ↦ elim k [ ] ]

late : (if ltb_ℤ (pos 30) (pos 36 -ℤ pos 5) then fallen doubted else doubted) ≡ fallen doubted
unfolding ◌-ℤ◌
late = refl

check_suspected_nodes-fails_example :
    lookup b (check_suspected_nodes (pos 36) doubting).members
    ≡ some (if ltb_ℤ (pos (3 * 10)) (pos 36 -ℤ pos 5) then fallen doubted else doubted)
unfolding new_membership
check_suspected_nodes-fails_example =
    check_suspected_nodes-fails (pos 36) b (pos 5) doubted doubting 3 10 known refl timed only_time
      refl refl (omega arith)
