-- ===== src/Cluster/Membership/Failing.antt =====
-- cache/cluster/membership.go: what `checkSuspectedNodes` does to a member.
use fyer_cache.Prelude.{ℕ, ◌*◌, ◌<◌, if◌then◌else◌}
use fyer_cache.Prelude.Int.{pos, pos-*ℤ, wrap_i64_small}
use fyer_cache.Prelude.{
  ◌≡◌, refl, ap, ◌∙◌, ◌⊎◌, inl, inr, true, false, Option, none, some, [], ◌∷◌, Bool-cases, ◌==◌,
  nat_equality, beq_refl, beq-eq,
}
use mathlib.Core.List.{Memᴰ}
use fyer_cache.Prelude.Int.{ℤ, ltb_ℤ, ◌-ℤ◌}
use fyer_cache.Prelude.Str.{Str, str_equality}
use fyer_cache.Prelude.GoMap.{GoMap, lookup, lookup-insert_eq, lookup-insert_ne}
use fyer_cache.Cluster.NodeInfo.{NodeInfo, suspect, down, same_status}
use fyer_cache.Cluster.Membership.{
  Membership, notify, put_member, fail_suspect, check_entry, check_entries, check_suspected_nodes,
  suspicion_limit,
}

lookup-Mem : (id : Str) (st : GoMap Str ℤ) (t : ℤ) → lookup id st ≡ some t → Memᴰ (id, t) st
unfolding lookup
lookup-Mem id [] t e = cc
lookup-Mem id ((j, u) ∷ st) t e = elim (Bool-cases (j == id)) [
  | inl h ↦
      let same : j ≡ id = beq-eq j id h in
      let f : some u ≡ some t = rw h at e in
      let same_time : u ≡ t = cc in Memᴰ.head (rw (same, same_time) refl)
  | inr h ↦ Memᴰ.tail (lookup-Mem id st t (rw h at e))
]

fail_suspect-limit :
    (o : Option NodeInfo) (id : Str) (m : Membership)
    → suspicion_limit (fail_suspect o id m) ≡ suspicion_limit m
unfolding fail_suspect suspicion_limit notify put_member
fail_suspect-limit none id m = refl
fail_suspect-limit (some node) id m = elim (Bool-cases (same_status node.status suspect)) [
  | inl t ↦ rw t refl
  | inr t ↦ rw t refl
]

check_entry-limit :
    (now : ℤ) (id : Str) (since : ℤ) (m : Membership)
    → suspicion_limit (check_entry now id since m) ≡ suspicion_limit m
unfolding check_entry
check_entry-limit now id since m = elim (Bool-cases (ltb_ℤ (suspicion_limit m) (now -ℤ since))) [
  | inl t ↦ rw t (fail_suspect-limit (lookup id m.members) id m)
  | inr t ↦ rw t refl
]

-- A member that is not under suspicion, or not the one in question, is left as it is.
fail_suspect-other :
    (o : Option NodeInfo) (id j : Str) (m : Membership) (node : NodeInfo)
    → lookup id m.members ≡ o
    → lookup j m.members ≡ some node
    → same_status node.status suspect ≡ false
    → lookup j (fail_suspect o id m).members ≡ some node
unfolding fail_suspect notify put_member
fail_suspect-other none id j m node e f calm = f
fail_suspect-other (some n) id j m node e f calm =
    elim (Bool-cases (same_status n.status suspect)) [
      | inr t ↦ rw t f
      | inl t ↦ rw t (elim (Bool-cases (id == j)) [
        | inr u ↦ lookup-insert_ne id j _ m.members u ∙ f
        | inl u ↦
            let e' : lookup j m.members ≡ some n = rw (beq-eq id j u) at e in
            let same : n ≡ node = cc in let clash = rw same at t in cc
      ])
    ]

fail_suspect-not_id :
    (o : Option NodeInfo) (id j : Str) (m : Membership)
    → (id == j) ≡ false
    → lookup j (fail_suspect o id m).members ≡ lookup j m.members
unfolding fail_suspect notify put_member
fail_suspect-not_id none id j m u = refl
fail_suspect-not_id (some n) id j m u = elim (Bool-cases (same_status n.status suspect)) [
  | inr t ↦ rw t refl
  | inl t ↦ rw t (lookup-insert_ne id j _ m.members u)
]

check_entries-stays :
    (now : ℤ) (es : GoMap Str ℤ) (j : Str) (m : Membership) (node : NodeInfo)
    → lookup j m.members ≡ some node
    → same_status node.status suspect ≡ false
    → lookup j (check_entries now es m).members ≡ some node
unfolding check_entries check_entry
check_entries-stays now [] j m node f calm = f
check_entries-stays now ((id, since) ∷ es) j m node f calm =
    check_entries-stays now es j (check_entry now id since m) node
      (elim (Bool-cases (ltb_ℤ (suspicion_limit m) (now -ℤ since))) [
        | inl t ↦ rw t (fail_suspect-other (lookup id m.members) id j m node refl f calm)
        | inr t ↦ rw t f
      ])
      calm

abbrev pub fallen : NodeInfo → NodeInfo
fallen node = record node { status = down }

fail_suspect-falls :
    (id : Str) (m : Membership) (node : NodeInfo)
    → same_status node.status suspect ≡ true
    → lookup id (fail_suspect (some node) id m).members ≡ some (fallen node)
unfolding fail_suspect notify put_member
fail_suspect-falls id m node t = rw t (lookup-insert_eq id id (fallen node) m.members (beq_refl id))

module _ (now : ℤ) (id : Str) (since : ℤ) (node : NodeInfo) where
  -- A round leaves the suspect as it is, or marks it.
  check_entry-either :
      (j : Str) (t : ℤ) (m : Membership)
      → lookup id m.members ≡ some node
      → same_status node.status suspect ≡ true
      → (lookup id (check_entry now j t m).members ≡ some node)
        ⊎ (lookup id (check_entry now j t m).members ≡ some (fallen node))
  unfolding check_entry
  check_entry-either j t m f s = elim (Bool-cases (ltb_ℤ (suspicion_limit m) (now -ℤ t))) [
    | inr h ↦ rw h (inl f)
    | inl h ↦ elim (Bool-cases (j == id)) [
      | inr u ↦ rw h (inl (fail_suspect-not_id (lookup j m.members) j id m u ∙ f))
      | inl u ↦ rw (h, beq-eq j id u, f) (inr (fail_suspect-falls id m node s))
    ]
  ]

  check_entries-falls :
      (es : GoMap Str ℤ) (m : Membership)
      → Memᴰ (id, since) es
      → lookup id m.members ≡ some node
      → same_status node.status suspect ≡ true
      → ltb_ℤ (suspicion_limit m) (now -ℤ since) ≡ true
      → lookup id (check_entries now es m).members ≡ some (fallen node)
  unfolding check_entries check_entry
  check_entries-falls [] m k f s late = elim k [ ]
  check_entries-falls ((j, t) ∷ es) m (Memᴰ.head e) f s late =
      let same_id : id ≡ j = ap (λ x. x.0) e in
      let same_time : since ≡ t = ap (λ x. x.1) e in
      check_entries-stays now es id (check_entry now j t m) (fallen node)
        (rw (← same_id, ← same_time, late, f) (fail_suspect-falls id m node s)) refl
  check_entries-falls ((j, t) ∷ es) m (Memᴰ.tail k) f s late = elim (check_entry-either j t m f s) [
    | inl g ↦
        check_entries-falls es (check_entry now j t m) k g s (rw (check_entry-limit now j t m) late)
    | inr g ↦ check_entries-stays now es id (check_entry now j t m) (fallen node) g refl
  ]

  check_entries-waits :
      (es : GoMap Str ℤ) (m : Membership)
      → ((t : ℤ) → Memᴰ (id, t) es → t ≡ since)
      → lookup id m.members ≡ some node
      → ltb_ℤ (suspicion_limit m) (now -ℤ since) ≡ false
      → lookup id (check_entries now es m).members ≡ some node
  unfolding check_entries check_entry
  check_entries-waits [] m only f early = f
  check_entries-waits ((j, t) ∷ es) m only f early =
      check_entries-waits es (check_entry now j t m) (λ u k. only u (Memᴰ.tail k))
        (elim (Bool-cases (ltb_ℤ (suspicion_limit m) (now -ℤ t))) [
          | inr h ↦ rw h f
          | inl h ↦ rw h (elim (Bool-cases (j == id)) [
            | inr u ↦ fail_suspect-not_id (lookup j m.members) j id m u ∙ f
            | inl u ↦
                let same_time = only t (Memᴰ.head (rw (beq-eq j id u) refl)) in
                let clash : ltb_ℤ (suspicion_limit m) (now -ℤ since) ≡ true = rw same_time at h in
                cc
          ])
        ])
        (rw (check_entry-limit now j t m) early)

same_suspect : same_status suspect suspect ≡ true
unfolding same_status
same_suspect = refl

suspicion_limit_lem :
    (m : Membership) (k p : ℕ)
    → m.suspicion_mult ≡ pos k
    → m.probe_interval ≡ pos p
    → k * p < 9223372036854775808
    → suspicion_limit m ≡ pos (k * p)
unfolding suspicion_limit
suspicion_limit_lem m k p mult interval small =
    rw (mult, interval, pos-*ℤ k p) (wrap_i64_small (k * p) small)

-- Where a member is under suspicion, with the multiplier and the probe interval not negative and
-- their product below 2^63, and the table of suspicions has one time for it, `checkSuspectedNodes`
-- marks it as down if the time since then is more than the product, and leaves it as it is if not.
pub check_suspected_nodes-fails :
    (now : ℤ) (id : Str) (since : ℤ) (node : NodeInfo) (m : Membership) (k p : ℕ)
    → lookup id m.members ≡ some node
    → node.status ≡ suspect
    → lookup id m.suspect_time ≡ some since
    → ((t : ℤ) → Memᴰ (id, t) m.suspect_time → t ≡ since)
    → m.suspicion_mult ≡ pos k
    → m.probe_interval ≡ pos p
    → k * p < 9223372036854775808
    → lookup id (check_suspected_nodes now m).members
      ≡ some (if ltb_ℤ (pos (k * p)) (now -ℤ since) then fallen node else node)
unfolding check_suspected_nodes
check_suspected_nodes-fails now id since node m k p f s e only mult interval small =
    let limit = suspicion_limit_lem m k p mult interval small in
    elim (Bool-cases (ltb_ℤ (pos (k * p)) (now -ℤ since))) [
      | inl late ↦
          check_entries-falls now id since node m.suspect_time m
            (lookup-Mem id m.suspect_time since e) f (rw s same_suspect) (rw limit late)
          ∙ rw late refl
      | inr early ↦
          check_entries-waits now id since node m.suspect_time m only f (rw limit early)
          ∙ rw early refl
    ]
