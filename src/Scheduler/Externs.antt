-- ===== src/Scheduler/Externs.antt =====
-- internal/scheduler/states/externs.go: the local clusters and the peers. Go ranges over a map in an
-- open order; here it is the order of the association list, and what is proved holds for each.
use not_ahivemind.Base.{
  ℕ, ◌+◌, ◌-◌, ◌%◌, ◌^◌, Bool, false, not, ◌&&◌, ◌||◌, Option, none, some, List, [], ◌∷◌, map, ltb,
  if◌then◌else◌, Text, Map, lookup, insert, values,
}
use not_ahivemind.Base.Int.{ℤ, pos, negsuc, ◌+ℤ◌, ◌-ℤ◌, leb_ℤ, ltb_ℤ}
use not_ahivemind.Arbiter.Queue.{queue_items}
use not_ahivemind.Scheduler.State.{JobRef, ClusterState, State, write}

abbrev pub cluster_state : Text → ℤ → ℤ → ℤ → ℤ → ℕ → ClusterState
cluster_state id used_cpu used_mem max_cpu max_mem now = record {
  id = id;
  used_cpu = used_cpu;
  used_mem = used_mem;
  max_cpu = max_cpu;
  max_mem = max_mem;
  optimistic_updates = 0;
  last_updated = now;
}

-- A new object takes the place of the one that the ID had.
unfoldable pub put_cluster : ClusterState → State → State
put_cluster c s = record s {
  clusters = insert c.id s.next_cluster s.clusters;
  cluster_cells = write s.next_cluster c s.cluster_cells;
  next_cluster = s.next_cluster + 1;
}

unfoldable pub add_local_cluster : Text → ℕ → State → State
unfolding put_cluster
add_local_cluster id now s = put_cluster (cluster_state id (pos 0) (pos 0) (pos 0) (pos 0) now) s

unfoldable pub update_cluster : Text → ℤ → ℤ → ℤ → ℤ → ℕ → State → State
unfolding put_cluster
update_cluster cluster_id used_cpu used_mem max_cpu max_mem now s =
    put_cluster (cluster_state cluster_id used_cpu used_mem max_cpu max_mem now) s

-- The pointers.
unfoldable pub local_clusters : State → List ℕ
local_clusters s = values s.clusters

unfoldable pub local_cluster : Text → State → Option ℕ
local_cluster id s = lookup id s.clusters

-- `cluster.UsedCpu += addCpu; cluster.UsedMem += addMem`, through a pointer.
unfoldable pub use_cluster : ℕ → ℤ → ℤ → State → State
use_cluster address add_cpu add_mem s = record s {
  cluster_cells =
      write address
        (record (s.cluster_cells address) {
          used_cpu = (s.cluster_cells address).used_cpu +ℤ add_cpu;
          used_mem = (s.cluster_cells address).used_mem +ℤ add_mem;
        })
        s.cluster_cells;
}

unfoldable pub count_update : ℕ → State → State
count_update address s = record s {
  cluster_cells =
      write address
        (record (s.cluster_cells address) {
          optimistic_updates = ((s.cluster_cells address).optimistic_updates + 1) % 2 ^ 16;
        })
        s.cluster_cells;
}

soft_found : Option ℕ → ℤ → ℤ → State → State
unfolding use_cluster count_update
soft_found none add_cpu add_mem s = s
soft_found (some address) add_cpu add_mem s =
    count_update address (use_cluster address add_cpu add_mem s)

unfoldable pub soft_update_cluster : Text → ℤ → ℤ → State → State
unfolding soft_found
soft_update_cluster cluster_id add_cpu add_mem s =
    soft_found (lookup cluster_id s.clusters) add_cpu add_mem s

abbrev pub cpu_diff : ClusterState → ℤ
cpu_diff c = c.max_cpu -ℤ c.used_cpu

abbrev pub mem_diff : ClusterState → ℤ
mem_diff c = c.max_mem -ℤ c.used_mem

-- The test of LeastUtilizedCluster on room: strictly more than is asked.
unfoldable pub has_more : ℤ → ℤ → ClusterState → Bool
has_more cpu_req mem_req c = ltb_ℤ cpu_req (cpu_diff c) && ltb_ℤ mem_req (mem_diff c)

unfoldable pub least_used :
    (ℤ → ℤ → ClusterState → Bool) → ℤ → ℤ → List (Text × ClusterState) → Text × ℤ → Text × ℤ
least_used suits cpu_req mem_req [] best = best
least_used suits cpu_req mem_req ((id, c) ∷ cs) best =
    least_used suits cpu_req mem_req cs
      (if suits cpu_req mem_req c && ltb_ℤ best.1 (cpu_diff c) then (id, cpu_diff c) else best)

-- What the range over `s.clusters` sees.
unfoldable pub seen_clusters : State → Map ClusterState
seen_clusters s = map (λ e. (e.0, s.cluster_cells e.1)) s.clusters

unfoldable pub least_utilized_cluster : ℤ → ℤ → State → Text
unfolding has_more least_used seen_clusters
least_utilized_cluster cpu_req mem_req s =
    (least_used has_more cpu_req mem_req (seen_clusters s) ([], negsuc 0)).0

-- The totals of the clusters, and whether one of them could hold the job when empty.
unfoldable pub total_clusters : ℤ → ℤ → List ClusterState → ℤ × ℤ × Bool → ℤ × ℤ × Bool
total_clusters cpu_req mem_req [] t = t
total_clusters cpu_req mem_req (c ∷ cs) (cpu, mem, can_fit) = total_clusters cpu_req mem_req cs (
  cpu +ℤ c.max_cpu,
  mem +ℤ c.max_mem,
  can_fit || (leb_ℤ cpu_req c.max_cpu && leb_ℤ mem_req c.max_mem),
)

unfoldable pub total_pending : List JobRef → ℤ × ℤ → ℤ × ℤ
total_pending [] t = t
total_pending (job ∷ jobs) (cpu, mem) =
    total_pending jobs (cpu +ℤ job.cpu_requirement, mem +ℤ job.memory_requirement)

unfoldable pub at_maximum_capacity : ℤ → ℤ → State → Bool
unfolding total_clusters total_pending seen_clusters
at_maximum_capacity cpu_req mem_req s =
    let (cpu, mem, can_fit) =
      total_clusters cpu_req mem_req (values (seen_clusters s)) (pos 0, pos 0, false) in
    let (pending_cpu, pending_mem) = total_pending (queue_items s.unassigned_jobs) (pos 0, pos 0) in
    ltb_ℤ cpu pending_cpu || ltb_ℤ mem pending_mem || not can_fit

-- `time.Since(t) > heartbeatTimeout`.
unfoldable pub is_stale : ℕ → ℕ → ℕ → Bool
is_stale now timeout t = ltb timeout (now - t)

unfoldable pub stale_in : ℕ → ℕ → Map ClusterState → List Text
stale_in now timeout [] = []
stale_in now timeout ((id, c) ∷ cs) =
    let rest = stale_in now timeout cs in
    if is_stale now timeout c.last_updated then id ∷ rest else rest

unfoldable pub stale_clusters : ℕ → ℕ → State → List Text
unfolding stale_in seen_clusters
stale_clusters now timeout s = stale_in now timeout (seen_clusters s)
