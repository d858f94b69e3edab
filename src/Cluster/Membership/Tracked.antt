-- ===== src/Cluster/Membership/Tracked.antt =====
-- cache/cluster/membership.go: a suspect member has a time at which the suspicion began.
use fyer_cache.Prelude.{
  ◌≡◌, refl, sym, ap, ◌∙◌, ◌≢◌, inl, inr, Bool, true, false, Option, none, some, List, [], ◌∷◌,
  Bool-cases, ◌==◌, nat_equality, beq_refl, beq-eq,
}
use fyer_cache.Prelude.Int.{ℤ, ltb_ℤ, ◌-ℤ◌}
use fyer_cache.Prelude.Str.{Str, str_equality}
use fyer_cache.Prelude.GoMap.{
  GoMap, lookup, insert, delete, lookup-insert_eq, lookup-insert_ne, lookup-delete_kept,
  lookup-delete_ne,
}
use fyer_cache.Cluster.NodeInfo.{NodeInfo, NodeStatus, up, suspect, down, left, same_status}
use fyer_cache.Cluster.Membership.{
  Membership, notify, put_member, add_local_node, start, stop, add_found, add_member, remove_found,
  remove_member, suspect_found, mark_suspect, alive_found, mark_alive, failed_found, mark_failed,
  fail_suspect, check_entry, check_entries, check_suspected_nodes, pick, probe_next_node, to_probe,
  probed, set_local_found, set_local_metadata, refreshed, merge, suspicion_limit,
}

pub record Tracks (ms : GoMap Str NodeInfo) (st : GoMap Str ℤ) : Type 0 where
  pub suspected :
      (id : Str) (node : NodeInfo)
      → lookup id ms ≡ some node
      → node.status ≡ suspect
      → (since : ℤ) × (lookup id st ≡ some since)

abbrev pub Tracked : Membership → Type 0
Tracked m = Tracks m.members m.suspect_time

same_status_refl : (s : NodeStatus) → same_status s s ≡ true
unfolding same_status
same_status_refl up = refl
same_status_refl suspect = refl
same_status_refl down = refl
same_status_refl left = refl

pub not_same : (s t : NodeStatus) → same_status s t ≡ false → s ≢ t
not_same s t e h =
    let clash : same_status t t ≡ false = rw h at e in let r = same_status_refl t in cc

pub same : (s t : NodeStatus) → same_status s t ≡ true → s ≡ t
unfolding same_status
same up up e = refl
same suspect suspect e = refl
same down down e = refl
same left left e = refl
same up suspect e = cc
same up down e = cc
same up left e = cc
same suspect up e = cc
same suspect down e = cc
same suspect left e = cc
same down up e = cc
same down suspect e = cc
same down left e = cc
same left up e = cc
same left suspect e = cc
same left down e = cc

module _ (ms : GoMap Str NodeInfo) (st : GoMap Str ℤ) (k : Tracks ms st) (id : Str) where
  kept-Tracks : (node : NodeInfo) → node.status ≢ suspect → Tracks (insert id node ms) st
  kept-Tracks node calm = record {
    suspected = λ j n e s. elim (Bool-cases (id == j)) [
      | inl t ↦
          let f = lookup-insert_eq id j node ms t in let g : node ≡ n = cc in absurd (calm (rw g s))
      | inr t ↦ k.suspected j n (sym (lookup-insert_ne id j node ms t) ∙ e) s
    ];
  }

  timed-Tracks : (node : NodeInfo) (now : ℤ) → Tracks (insert id node ms) (insert id now st)
  timed-Tracks node now = record {
    suspected = λ j n e s. elim (Bool-cases (id == j)) [
      | inl t ↦ (now, lookup-insert_eq id j now st t)
      | inr t ↦
          let (since, f) = k.suspected j n (sym (lookup-insert_ne id j node ms t) ∙ e) s in
          (since, lookup-insert_ne id j now st t ∙ f)
    ];
  }

  -- The time of a member that is not under suspicion may go.
  cleared-Tracks :
      ((n : NodeInfo) → lookup id ms ≡ some n → n.status ≢ suspect) → Tracks ms (delete id st)
  cleared-Tracks calm = record {
    suspected = λ j n e s. elim (Bool-cases (id == j)) [
      | inl t ↦ absurd (calm n (rw (beq-eq id j t) e) s)
      | inr t ↦ let (since, f) = k.suspected j n e s in (since, lookup-delete_ne id j st t ∙ f)
    ];
  }

  removed-Tracks : Tracks (delete id ms) (delete id st)
  removed-Tracks = record {
    suspected = λ j n e s.
        let (t, f) = lookup-delete_kept id j ms n e in
        let (since, g) = k.suspected j n f s in (since, lookup-delete_ne id j st t ∙ g);
  }

calm_up : up ≢ suspect
calm_up e = cc

calm_down : down ≢ suspect
calm_down e = cc

found-calm :
    (ms : GoMap Str NodeInfo) (st : GoMap Str ℤ) (id : Str) (node : NodeInfo)
    → Tracks ms st
    → node.status ≢ suspect
    → Tracks (insert id node ms) (delete id st)
found-calm ms st id node k calm =
    cleared-Tracks (insert id node ms) st (kept-Tracks ms st k id node calm) id (λ n e.
      let f = lookup-insert_eq id id node ms (beq_refl id) in
      let g : node ≡ n = cc in rw (← g) calm)

add_found-Tracked :
    (o : Option NodeInfo) (now : ℤ) (id addr : Str) (md : Option (GoMap Str Str)) (m : Membership)
    → Tracked m
    → Tracked (add_found o now id addr md m)
unfolding add_found notify put_member refreshed
add_found-Tracked (some node) now id addr md m k =
    kept-Tracks m.members m.suspect_time k id _ calm_up
add_found-Tracked none now id addr md m k = kept-Tracks m.members m.suspect_time k id _ calm_up

remove_found-Tracked :
    (o : Option NodeInfo) (id : Str) (graceful : Bool) (m : Membership)
    → Tracked m
    → Tracked (remove_found o id graceful m)
unfolding remove_found notify
remove_found-Tracked none id graceful m k = k
remove_found-Tracked (some node) id graceful m k = removed-Tracks m.members m.suspect_time k id

suspect_found-Tracked :
    (o : Option NodeInfo) (now : ℤ) (id : Str) (m : Membership)
    → Tracked m
    → Tracked (suspect_found o now id m)
unfolding suspect_found put_member
suspect_found-Tracked none now id m k = k
suspect_found-Tracked (some node) now id m k = elim (Bool-cases (same_status node.status up)) [
  | inl t ↦ rw t (timed-Tracks m.members m.suspect_time k id _ now)
  | inr t ↦ rw t k
]

alive_found-Tracked :
    (o : Option NodeInfo) (now : ℤ) (id : Str) (m : Membership)
    → Tracked m
    → Tracked (alive_found o now id m)
unfolding alive_found put_member notify
alive_found-Tracked none now id m k = k
alive_found-Tracked (some node) now id m k = elim (Bool-cases (same_status node.status suspect)) [
  | inl t ↦ rw t (found-calm m.members m.suspect_time id _ k calm_up)
  | inr t ↦ rw t (found-calm m.members m.suspect_time id _ k calm_up)
]

failed_found-Tracked :
    (o : Option NodeInfo) (id reason : Str) (m : Membership)
    → Tracked m
    → Tracked (failed_found o id reason m)
unfolding failed_found put_member notify
failed_found-Tracked none id reason m k = k
failed_found-Tracked (some node) id reason m k =
    kept-Tracks m.members m.suspect_time k id _ calm_down

fail_suspect-Tracked :
    (o : Option NodeInfo) (id : Str) (m : Membership)
    → lookup id m.members ≡ o
    → Tracked m
    → Tracked (fail_suspect o id m)
unfolding fail_suspect put_member notify
fail_suspect-Tracked none id m e k =
    cleared-Tracks m.members m.suspect_time k id
      (λ n f. let clash : none ≡ some n = sym e ∙ f in cc)
fail_suspect-Tracked (some node) id m e k = elim (Bool-cases (same_status node.status suspect)) [
  | inl t ↦ rw t (kept-Tracks m.members m.suspect_time k id _ calm_down)
  | inr t ↦ rw t (
      cleared-Tracks m.members m.suspect_time k id
        (λ n f. let g : node ≡ n = cc in rw (← g) (not_same node.status suspect t)))
]

check_entry-Tracked :
    (now : ℤ) (id : Str) (since : ℤ) (m : Membership)
    → Tracked m
    → Tracked (check_entry now id since m)
unfolding check_entry
check_entry-Tracked now id since m k =
    elim (Bool-cases (ltb_ℤ (suspicion_limit m) (now -ℤ since))) [
      | inl t ↦ rw t (fail_suspect-Tracked (lookup id m.members) id m refl k)
      | inr t ↦ rw t k
    ]

check_entries-Tracked :
    (now : ℤ) (es : GoMap Str ℤ) (m : Membership) → Tracked m → Tracked (check_entries now es m)
unfolding check_entries
check_entries-Tracked now [] m k = k
check_entries-Tracked now ((id, since) ∷ es) m k =
    check_entries-Tracked now es (check_entry now id since m) (check_entry-Tracked now id since m k)

set_local_found-Tracked :
    (o : Option NodeInfo) (md : GoMap Str Str) (m : Membership)
    → lookup m.local_id m.members ≡ o
    → Tracked m
    → Tracked (set_local_found o md m)
unfolding set_local_found put_member
set_local_found-Tracked none md m e k = k
set_local_found-Tracked (some node) md m e k = record {
  suspected = λ j n f s. elim (Bool-cases (m.local_id == j)) [
    | inl t ↦
        let g =
          lookup-insert_eq m.local_id j (record node { metadata = some (merge md []) }) m.members
            t in
        let h : record node { metadata = some (merge md []) } ≡ n = cc in
        let still : node.status ≡ suspect = ap (λ (x : NodeInfo). x.status) h ∙ s in
        k.suspected j node (rw (beq-eq m.local_id j t) at e) still
    | inr t ↦ k.suspected j n (sym (lookup-insert_ne m.local_id j _ m.members t) ∙ f) s
  ];
}

pick-Tracked : (ns : List (Str × Str)) (m : Membership) → Tracked m → Tracked (pick ns m).0
unfolding pick
pick-Tracked [] m k = k
pick-Tracked (n ∷ ns) m k = k

-- The calls of the other components, and of the probe loop.
pub data Op : Type 0 where
  started : ℤ → Op
  stopped : Op
  added : ℤ → Str → Str → Option (GoMap Str Str) → Op
  removed : Str → Bool → Op
  suspected : ℤ → Str → Op
  revived : ℤ → Str → Op
  failed : Str → Str → Op
  checked : ℤ → Op
  picked : Op
  answered : ℤ → Str → Bool → Op
  described : GoMap Str Str → Op

unfoldable pub apply : Op → Membership → Membership
unfolding probed
apply (started now) m = start now m
apply stopped m = stop m
apply (added now id addr md) m = add_member now id addr md m
apply (removed id graceful) m = remove_member id graceful m
apply (suspected now id) m = mark_suspect now id m
apply (revived now id) m = mark_alive now id m
apply (failed id reason) m = mark_failed id reason m
apply (checked now) m = check_suspected_nodes now m
apply picked m = (probe_next_node m).0
apply (answered now id true) m = probed now id true m
apply (answered now id false) m = probed now id false m
apply (described md) m = set_local_metadata md m

unfoldable pub run : List Op → Membership → Membership
run [] m = m
run (o ∷ os) m = run os (apply o m)

pub apply-Tracked : (o : Op) (m : Membership) → Tracked m → Tracked (apply o m)
unfolding apply start add_local_node put_member stop add_member remove_member mark_suspect
    mark_alive mark_failed check_suspected_nodes probe_next_node set_local_metadata
apply-Tracked (started now) m k = elim (Bool-cases m.running) [
  | inl t ↦ rw t k
  | inr t ↦ rw t (kept-Tracks m.members m.suspect_time k m.local_id _ calm_up)
]
apply-Tracked stopped m k = elim (Bool-cases m.running) [ inl t ↦ rw t k | inr t ↦ rw t k ]
apply-Tracked (added now id addr md) m k =
    add_found-Tracked (lookup id m.members) now id addr md m k
apply-Tracked (removed id graceful) m k = remove_found-Tracked (lookup id m.members) id graceful m k
apply-Tracked (suspected now id) m k = suspect_found-Tracked (lookup id m.members) now id m k
apply-Tracked (revived now id) m k = alive_found-Tracked (lookup id m.members) now id m k
apply-Tracked (failed id reason) m k = failed_found-Tracked (lookup id m.members) id reason m k
apply-Tracked (checked now) m k = check_entries-Tracked now m.suspect_time m k
apply-Tracked picked m k = pick-Tracked (to_probe m.local_id m.members) m k
apply-Tracked (answered now id true) m k = alive_found-Tracked (lookup id m.members) now id m k
apply-Tracked (answered now id false) m k = suspect_found-Tracked (lookup id m.members) now id m k
apply-Tracked (described md) m k = set_local_found-Tracked (lookup m.local_id m.members) md m refl k

-- In every state that the calls of the component, in any order, reach from one where each suspect
-- member has a time at which the suspicion began, each suspect member has one.
pub run-Tracked : (ops : List Op) (m : Membership) → Tracked m → Tracked (run ops m)
unfolding run
run-Tracked [] m k = k
run-Tracked (o ∷ os) m k = run-Tracked os (apply o m) (apply-Tracked o m k)
