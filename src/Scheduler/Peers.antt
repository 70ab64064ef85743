-- ===== src/Scheduler/Peers.antt =====
-- internal/scheduler/states/externs.go: the peer schedulers.
use not_ahivemind.Base.{
  ℕ, Bool, true, false, ◌&&◌, ◌||◌, Option, none, some, List, [], ◌∷◌, ◌++◌, map, if◌then◌else◌,
  take, Text, text_eq, Map, values,
}
use not_ahivemind.Base.Int.{ℤ, negsuc, leb_ℤ, ltb_ℤ, eq_ℤ}
use not_ahivemind.Scheduler.State.{ClusterState, SchedulerState, State}
use not_ahivemind.Scheduler.Externs.{cpu_diff, mem_diff, least_used, is_stale}

unfoldable pub add_peer_scheduler : Text → ℕ → State → State
add_peer_scheduler id now s = record s {
  peers = s.peers ++ (record { id = id; cluster_states = []; last_updated = now } ∷ []);
}

unfoldable pub find_peer : Text → List SchedulerState → Option SchedulerState
find_peer id [] = none
find_peer id (p ∷ ps) = if text_eq p.id id then some p else find_peer id ps

unfoldable pub peer_scheduler_state : Text → State → Option SchedulerState
unfolding find_peer
peer_scheduler_state id s = find_peer id s.peers

-- The first peer of the ID is written, and whether there is one.
unfoldable pub update_peer :
    Text → Map ClusterState → ℕ → List SchedulerState → List SchedulerState × Bool
update_peer id cluster_states now [] = ([], false)
update_peer id cluster_states now (p ∷ ps) =
    let rest = update_peer id cluster_states now ps in
    if text_eq p.id id
    then (record p { cluster_states = cluster_states; last_updated = now } ∷ ps, true)
    else (p ∷ rest.0, rest.1)

unfoldable pub update_scheduler_state : Text → Map ClusterState → ℕ → State → State × Bool
unfolding update_peer
update_scheduler_state id cluster_states now s =
    let (peers, found) = update_peer id cluster_states now s.peers in
    (record s { peers = peers }, found)

stale_peers : ℕ → ℕ → List SchedulerState → List Text
unfolding is_stale
stale_peers now timeout [] = []
stale_peers now timeout (p ∷ ps) =
    let rest = stale_peers now timeout ps in
    if is_stale now timeout p.last_updated then p.id ∷ rest else rest

unfoldable pub stale_schedulers : ℕ → ℕ → State → List Text
unfolding stale_peers
stale_schedulers now timeout s = stale_peers now timeout s.peers

-- The test of LeastUtilizedPeer and TopFreePeers on room: what is asked is enough.
unfoldable pub has_enough : ℤ → ℤ → ClusterState → Bool
has_enough cpu_req mem_req c = leb_ℤ cpu_req (cpu_diff c) && leb_ℤ mem_req (mem_diff c)

unfoldable pub least_of_peers : ℕ → ℕ → ℤ → ℤ → List SchedulerState → Text × ℤ → Text × ℤ
unfolding has_enough least_used
least_of_peers now timeout cpu_req mem_req [] best = best
least_of_peers now timeout cpu_req mem_req (p ∷ ps) best =
    least_of_peers now timeout cpu_req mem_req ps (
      if is_stale now timeout p.last_updated
      then best
      else least_used has_enough cpu_req mem_req p.cluster_states best)

unfoldable pub least_utilized_peer : ℕ → ℕ → ℤ → ℤ → State → Text
unfolding least_of_peers
least_utilized_peer now timeout cpu_req mem_req s =
    (least_of_peers now timeout cpu_req mem_req s.peers ([], negsuc 0)).0

pub record PeerScore : Type 0 where
  pub peer_id : Text
  pub avail_cpu : ℤ

unfoldable pub best_avail_cpu : ℤ → ℤ → List ClusterState → ℤ → ℤ
unfolding has_enough
best_avail_cpu cpu_req mem_req [] best = best
best_avail_cpu cpu_req mem_req (c ∷ cs) best =
    best_avail_cpu cpu_req mem_req cs
      (if has_enough cpu_req mem_req c && ltb_ℤ best (cpu_diff c) then cpu_diff c else best)

unfoldable pub score : ℤ → ℤ → SchedulerState → PeerScore
unfolding best_avail_cpu
score cpu_req mem_req p = record {
  peer_id = p.id;
  avail_cpu = best_avail_cpu cpu_req mem_req (values p.cluster_states) (negsuc 0);
}

unfoldable pub candidates : ℕ → ℕ → ℤ → ℤ → List SchedulerState → List PeerScore
unfolding is_stale score
candidates now timeout cpu_req mem_req [] = []
candidates now timeout cpu_req mem_req (p ∷ ps) =
    let rest = candidates now timeout cpu_req mem_req ps in
    if is_stale now timeout p.last_updated || eq_ℤ (score cpu_req mem_req p).avail_cpu (negsuc 0)
    then rest
    else score cpu_req mem_req p ∷ rest

-- `sort.Slice` may leave equal elements in any order, and is an argument.
unfoldable pub top_free_peers :
    (List PeerScore → List PeerScore) → ℕ → ℕ → ℕ → ℤ → ℤ → State → List Text
unfolding candidates
top_free_peers sort_slice limit now timeout cpu_req mem_req s =
    map (λ c. c.peer_id) (take limit (sort_slice (candidates now timeout cpu_req mem_req s.peers)))
