-- ===== src/Cluster/Membership.antt =====
-- cache/cluster/membership.go: `Membership`. A method is one critical section and returns the new
use fyer_cache.Prelude.Int.{wrap_i64}
-- state; `now` is the clock's reading. A loop over a map takes the order of the association list.
-- The transport is a parameter: the probe's message is sent by `probe_next_node`'s caller, which
-- hands the outcome to `probed`.
pub mod Tracked
pub mod Failing
mod Examples
use fyer_cache.Prelude.{
  ℕ, zero, suc, ◌+◌, ◌-◌, ◌*◌, ◌/◌, ◌%◌, ◌^◌, ◌≤◌, ◌<◌, ◌≡◌, refl, sym, ap, ◌∙◌, ◌≢◌, ◌↔◌, ◌⊎◌, inl,
  inr, Bool, true, false, not, ◌&&◌, ◌||◌, Option, none, some, List, [], ◌∷◌, ◌++◌, map,
  append_assoc, append-nil, arith, ltb, leb, nat_beq, if◌then◌else◌, ltb→lt, lt→ltb, leb→le,
  nat_beq_iff, tests, Bool-cases, Option-cases, length, get_elem?, take, drop, replicate,
  length-append, take-append-drop, length-take, length-drop, take_of_length-le, get_elem?-some,
  get_elem?-none, Equality, ◌==◌, nat_equality, beq_refl, beq-eq, beq_ne,
}
use mathlib.Core.Option
use fyer_cache.Prelude.Int.{ℤ, pos, ◌*ℤ◌, ◌-ℤ◌, ltb_ℤ}
use fyer_cache.Prelude.Str.{Str, bytes, str_equality}
use fyer_cache.Prelude.Str
use fyer_cache.Prelude.GoMap.{GoMap, lookup, insert, delete}
use fyer_cache.Cluster.NodeInfo.{
  NodeInfo, NodeStatus, up, suspect, down, left, same_status, ClusterEvent, node_join, node_leave,
  node_failed, node_recovered,
}
use fyer_cache.Cluster.Events.{EventPublisher, publish}

pub record Membership : Type 0 where
  pub local_id : Str
  pub local_addr : Str
  pub members : GoMap Str NodeInfo
  pub suspect_time : GoMap Str ℤ
  pub suspicion_mult : ℤ
  pub probe_interval : ℤ
  pub probe_index : ℕ
  pub events : Option (EventPublisher ClusterEvent)
  pub running : Bool

unfoldable pub new_membership :
    Str → Str → ℤ → ℤ → Option (EventPublisher ClusterEvent) → Membership
new_membership local_id local_addr suspicion_mult probe_interval events = record {
  local_id = local_id;
  local_addr = local_addr;
  members = [];
  suspect_time = [];
  suspicion_mult = suspicion_mult;
  probe_interval = probe_interval;
  probe_index = 0;
  events = events;
  running = false;
}

-- `if m.events != nil { m.events.Publish(...) }`
unfoldable pub notify : ClusterEvent → Membership → Membership
unfolding publish
notify event m = record m { events = Option.map (publish event) m.events }

unfoldable pub put_member : Str → NodeInfo → Membership → Membership
unfolding insert
put_member id node m = record m { members = insert id node m.members }

unfoldable pub add_local_node : ℤ → Membership → Membership
unfolding put_member
add_local_node now m =
    put_member m.local_id
      (record {
        id = m.local_id;
        addr = m.local_addr;
        status = up;
        last_seen = now;
        metadata = some ((bytes "self", bytes "true") ∷ []);
      })
      m

-- The probe loop that `Start` launches is the sequence of calls that follows.
unfoldable pub start : ℤ → Membership → Membership
unfolding add_local_node
start now m = if m.running then m else add_local_node now (record m { running = true })

unfoldable pub stop : Membership → Membership
stop m = if m.running then record m { running = false } else m

unfoldable pub members_of : Membership → List NodeInfo
members_of m = map (λ e. e.1) m.members

-- `for k, v := range metadata { existing[k] = v }`
unfoldable pub merge : GoMap Str Str → GoMap Str Str → GoMap Str Str
unfolding insert
merge [] old = old
merge ((k, v) ∷ rest) old = merge rest (insert k v old)

unfoldable pub merge_metadata :
    Option (GoMap Str Str) → Option (GoMap Str Str) → Option (GoMap Str Str)
unfolding merge
merge_metadata none old = old
merge_metadata (some new) none = some (merge new [])
merge_metadata (some new) (some old) = some (merge new old)

unfoldable pub refreshed : ℤ → Str → Option (GoMap Str Str) → NodeInfo → NodeInfo
unfolding merge_metadata
refreshed now addr metadata node = record node {
  addr = addr;
  metadata = merge_metadata metadata node.metadata;
  status = up;
  last_seen = now;
}

-- `AddMember`, where the member is there already or not.
unfoldable pub add_found :
    Option NodeInfo → ℤ → Str → Str → Option (GoMap Str Str) → Membership → Membership
unfolding refreshed put_member notify
add_found (some node) now id addr metadata m = put_member id (refreshed now addr metadata node) m
add_found none now id addr metadata m = notify (node_join id addr) (
    put_member id
      (record { id = id; addr = addr; status = up; last_seen = now; metadata = metadata }) m)

unfoldable pub add_member : ℤ → Str → Str → Option (GoMap Str Str) → Membership → Membership
unfolding lookup add_found
add_member now id addr metadata m = add_found (lookup id m.members) now id addr metadata m

unfoldable pub remove_found : Option NodeInfo → Str → Bool → Membership → Membership
unfolding notify delete
remove_found none id graceful m = m
remove_found (some node) id graceful m =
    let m' = notify (node_leave id graceful) m in
    record m' { suspect_time = delete id m'.suspect_time; members = delete id m'.members }

unfoldable pub remove_member : Str → Bool → Membership → Membership
unfolding lookup remove_found
remove_member id graceful m = remove_found (lookup id m.members) id graceful m

unfoldable pub suspect_found : Option NodeInfo → ℤ → Str → Membership → Membership
unfolding same_status put_member insert
suspect_found none now id m = m
suspect_found (some node) now id m =
    if same_status node.status up
    then record (put_member id (record node { status = suspect }) m) {
      suspect_time = insert id now m.suspect_time;
    }
    else m

unfoldable pub mark_suspect : ℤ → Str → Membership → Membership
unfolding lookup suspect_found
mark_suspect now id m = suspect_found (lookup id m.members) now id m

unfoldable pub alive_found : Option NodeInfo → ℤ → Str → Membership → Membership
unfolding same_status notify put_member delete
alive_found none now id m = m
alive_found (some node) now id m =
    let m' = if same_status node.status suspect then notify (node_recovered id) m else m in
    record (put_member id (record node { status = up; last_seen = now }) m') {
      suspect_time = delete id m'.suspect_time;
    }

unfoldable pub mark_alive : ℤ → Str → Membership → Membership
unfolding lookup alive_found
mark_alive now id m = alive_found (lookup id m.members) now id m

unfoldable pub failed_found : Option NodeInfo → Str → Str → Membership → Membership
unfolding notify put_member
failed_found none id reason m = m
failed_found (some node) id reason m =
    notify (node_failed id reason) (put_member id (record node { status = down }) m)

unfoldable pub mark_failed : Str → Str → Membership → Membership
unfolding lookup failed_found
mark_failed id reason m = failed_found (lookup id m.members) id reason m

unfoldable pub get_node_addr : Str → Membership → Option Str
unfolding lookup
get_node_addr id m = Option.map (λ (n : NodeInfo). n.addr) (lookup id m.members)

-- The first member of the list with the address.
unfoldable pub node_by_addr : Str → GoMap Str NodeInfo → Option Str
node_by_addr addr [] = none
node_by_addr addr ((id, node) ∷ rest) =
    if Str.eq node.addr addr then some id else node_by_addr addr rest

unfoldable pub get_node_by_addr : Str → Membership → Option Str
unfolding node_by_addr
get_node_by_addr addr m = node_by_addr addr m.members

unfoldable pub none_before : Str → GoMap Str NodeInfo → Bool
unfolding same_status
none_before local_id [] = true
none_before local_id ((id, node) ∷ rest) =
    if Str.lt id local_id && same_status node.status up then false else none_before local_id rest

unfoldable pub is_coordinator : Membership → Bool
unfolding none_before
is_coordinator m = none_before m.local_id m.members

-- One round of the loop of `checkSuspectedNodes`: the node is under suspicion for too long.
unfoldable pub fail_suspect : Option NodeInfo → Str → Membership → Membership
unfolding same_status notify put_member delete
fail_suspect none id m = record m { suspect_time = delete id m.suspect_time }
fail_suspect (some node) id m =
    if same_status node.status suspect
    then notify (node_failed id (bytes "probe timeout exceeded"))
        (put_member id (record node { status = down }) m)
    else record m { suspect_time = delete id m.suspect_time }

-- The product of two durations wraps at 64 bits.
unfoldable pub suspicion_limit : Membership → ℤ
unfolding wrap_i64
suspicion_limit m = wrap_i64 (m.suspicion_mult *ℤ m.probe_interval)

unfoldable pub check_entry : ℤ → Str → ℤ → Membership → Membership
unfolding suspicion_limit lookup fail_suspect
check_entry now id since m =
    if ltb_ℤ (suspicion_limit m) (now -ℤ since) then fail_suspect (lookup id m.members) id m else m

unfoldable pub check_entries : ℤ → GoMap Str ℤ → Membership → Membership
unfolding check_entry
check_entries now [] m = m
check_entries now ((id, since) ∷ rest) m = check_entries now rest (check_entry now id since m)

unfoldable pub check_suspected_nodes : ℤ → Membership → Membership
unfolding check_entries
check_suspected_nodes now m = check_entries now m.suspect_time m

unfoldable pub to_probe : Str → GoMap Str NodeInfo → List (Str × Str)
unfolding same_status
to_probe local_id [] = []
to_probe local_id ((id, node) ∷ rest) =
    if not (Str.eq id local_id) && same_status node.status up
    then (id, node.addr) ∷ to_probe local_id rest
    else to_probe local_id rest

-- The next node to probe, with its address, and the state with the index moved on.
unfoldable pub pick : List (Str × Str) → Membership → Membership × Option (Str × Str)
pick [] m = (m, none)
pick (n ∷ ns) m =
    let i = if leb (length (n ∷ ns)) m.probe_index then 0 else m.probe_index in
    (record m { probe_index = (i + 1) % length (n ∷ ns) }, get_elem? (n ∷ ns) i)

unfoldable pub probe_next_node : Membership → Membership × Option (Str × Str)
unfolding to_probe pick
probe_next_node m = pick (to_probe m.local_id m.members) m

-- What follows a probe: a reply, or an error or a timeout.
unfoldable pub probed : ℤ → Str → Bool → Membership → Membership
unfolding mark_alive mark_suspect
probed now id true m = mark_alive now id m
probed now id false m = mark_suspect now id m

unfoldable pub set_local_found : Option NodeInfo → GoMap Str Str → Membership → Membership
unfolding put_member merge
set_local_found none metadata m = m
set_local_found (some node) metadata m =
    put_member m.local_id (record node { metadata = some (merge metadata []) }) m

unfoldable pub set_local_metadata : GoMap Str Str → Membership → Membership
unfolding lookup set_local_found
set_local_metadata metadata m = set_local_found (lookup m.local_id m.members) metadata m
