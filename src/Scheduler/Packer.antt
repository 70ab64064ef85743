-- ===== src/Scheduler/Packer.antt =====
-- internal/scheduler/packer/operations.go: the turns of processPendingJobs, which choose a cluster for
-- each job, and what becomes of each job then. The turns read a counter that the routines they start
-- write: what the i-th turn reads is the argument `seen`.
use not_ahivemind.Base.{
  ℕ, zero, suc, ◌+◌, ◌/◌, ◌%◌, ◌^◌, Bool, true, false, ◌&&◌, Option, none, some, List, [], ◌∷◌, ltb,
  if◌then◌else◌, length, Text,
}
use not_ahivemind.Base.Int.{ℤ, pos, leb_ℤ, ltb_ℤ}
use not_ahivemind.Scheduler.State.{
  JobRef, ClusterState, State, next_pending_job, assign_job, unassign_job, purge_job, pending_jobs,
  seconds,
}
use not_ahivemind.Scheduler.Externs.{
  local_clusters, use_cluster, soft_update_cluster, cpu_diff, mem_diff,
}
use not_ahivemind.Scheduler.Peers.{PeerScore, top_free_peers}

-- calculateRedistributionQuota: `int(float64(jobCount) * 0.25)`, exact for the sizes of a batch.
unfoldable pub calculate_redistribution_quota : ℕ → ℕ
calculate_redistribution_quota job_count =
    let quota = job_count / 4 in if ltb quota 5 then 5 else quota

abbrev pub max_ℤ : ℤ → ℤ → ℤ
max_ℤ a b = if ltb_ℤ a b then b else a

-- The ceilings of the free processors and memory.
unfoldable pub ceilings_from : List ℕ → State → ℤ × ℤ → ℤ × ℤ
ceilings_from [] s m = m
ceilings_from (c ∷ cs) s (max_cpu, max_mem) =
    ceilings_from cs s
      (max_ℤ max_cpu (cpu_diff (s.cluster_cells c)), max_ℤ max_mem (mem_diff (s.cluster_cells c)))

abbrev pub ceilings : List ℕ → State → ℤ × ℤ
ceilings clusters s = ceilings_from clusters s (pos 0, pos 0)

unfoldable pub has_room : JobRef → ClusterState → Bool
has_room job c = leb_ℤ job.cpu_requirement (cpu_diff c) && leb_ℤ job.memory_requirement (mem_diff c)

unfoldable pub get_elem? : List ℕ → ℕ → Option ℕ
get_elem? [] i = none
get_elem? (c ∷ cs) zero = some c
get_elem? (c ∷ cs) (suc i) = get_elem? cs i

-- `tries` clusters are left to try, from the place `idx % numClusters` on.
unfoldable pub choose_cluster : ℕ → ℕ → JobRef → List ℕ → State → Option ℕ
unfolding get_elem? has_room
choose_cluster zero idx job clusters s = none
choose_cluster (suc tries) idx job clusters s =
    let rest = choose_cluster tries (idx + 1) job clusters s in
    elim (get_elem? clusters (idx % length clusters)) [
      | none ↦ rest
      | some c ↦ if has_room job (s.cluster_cells c) then some c else rest
    ]

-- Both updates: the one through the table and the one through the pointer.
unfoldable pub reserve_cluster : JobRef → ℕ → State → State
unfolding use_cluster
reserve_cluster job c s =
    use_cluster c job.cpu_requirement job.memory_requirement
      (soft_update_cluster (s.cluster_cells c).id job.cpu_requirement job.memory_requirement s)

place_chosen : JobRef → Option ℕ → List ℕ → ℤ × ℤ → State → Text × (ℤ × ℤ) × State
unfolding reserve_cluster ceilings_from
place_chosen job none clusters limits s = ([], limits, s)
place_chosen job (some c) clusters limits s =
    let s' = reserve_cluster job c s in ((s.cluster_cells c).id, ceilings clusters s', s')

-- The target of the i-th turn's job, the ceilings and the state.
unfoldable pub place_job : JobRef → ℕ → List ℕ → ℤ × ℤ → State → Text × (ℤ × ℤ) × State
unfolding place_chosen choose_cluster
place_job job i clusters limits s =
    place_chosen job (choose_cluster (length clusters) i job clusters s) clusters limits s

-- `1 << 62`.
abbrev pub no_limit : ℤ
no_limit = pos (2 ^ 62)

abbrev pub search_limits : ℕ → ℕ → ℤ × ℤ → ℤ × ℤ
search_limits redistributed quota limits =
    if ltb redistributed quota then (no_limit, no_limit) else limits

-- The turns that are left, from the i-th on: the jobs with their targets, in order.
unfoldable pub pack_turns :
    ℕ → ℕ → (ℕ → ℕ) → ℕ → List ℕ → ℤ × ℤ → State → List (JobRef × Text) × State
unfolding place_job
pack_turns zero i seen quota clusters limits s = ([], s)
pack_turns (suc turns) i seen quota clusters limits s =
    let search = search_limits (seen i) quota limits in
    let popped = next_pending_job search.0 search.1 s in
    elim popped.0 [
      | none ↦ ([], popped.1)
      | some job ↦
          let placed = place_job job i clusters limits popped.1 in
          let rest = pack_turns turns (suc i) seen quota clusters placed.1 placed.2 in
          ((job, placed.0) ∷ rest.0, rest.1)
    ]

abbrev pub is_nil : List Text → Bool
is_nil [] = true
is_nil (x ∷ xs) = false

-- processPendingJobs, up to the start of the routines.
unfoldable pub process_pending_jobs : ℕ → (ℕ → ℕ) → State → List (JobRef × Text) × State
unfolding pack_turns ceilings_from
process_pending_jobs limit seen s =
    let clusters = local_clusters s in
    if is_nil (pending_jobs s)
    then ([], s)
    else pack_turns limit 0 seen (calculate_redistribution_quota limit) clusters
        (ceilings clusters s) s

-- What CommitJob gives, and what DispatchJob gives: an error, or whether the cluster took the job.
pub data CommitResult : Type 0 where
  committed concurrent_conflict commit_failed : CommitResult

pub data DispatchResult : Type 0 where
  dispatch_failed refused taken : DispatchResult

after_dispatch : DispatchResult → JobRef → Text → State → State × Bool
after_dispatch dispatch_failed job cluster_id s = (unassign_job job.id s, false)
after_dispatch refused job cluster_id s = (unassign_job job.id s, false)
after_dispatch taken job cluster_id s = ((assign_job job.id cluster_id s).0, true)

after_commit : CommitResult → DispatchResult → JobRef → Text → State → State × Bool
unfolding after_dispatch
after_commit committed d job cluster_id s = after_dispatch d job cluster_id s
after_commit concurrent_conflict d job cluster_id s = (unassign_job job.id s, false)
after_commit commit_failed d job cluster_id s = (unassign_job job.id s, false)

-- attemptJobAssignment. The second commit of a failed one is sent for its effect on the log only.
unfoldable pub attempt_job_assignment :
    CommitResult → DispatchResult → Text → JobRef → State → State × Bool
unfolding after_commit
attempt_job_assignment commit dispatch cluster_id job s =
    let assigned = assign_job job.id cluster_id s in
    if assigned.1
    then (assigned.0, false)
    else after_commit commit dispatch job cluster_id assigned.0

-- What comes of the call of a peer: OpConn finds no connection of that ID, the call fails or the peer
-- rejects, or the peer accepts.
pub data Offer : Type 0 where
  unconnected rejected accepted : Offer

-- The peers in turn. OpConn gives no error where it finds no connection.
unfoldable pub offer_job : (Text → Offer) → List Text → JobRef → State → State × Bool
offer_job offers [] job s = (s, false)
offer_job offers (peer ∷ peers) job s =
    let rest = offer_job offers peers job s in
    elim (offers peer) [
      | unconnected ↦ (s, true)
      | rejected ↦ rest
      | accepted ↦ (purge_job job.id s, true)
    ]

-- Redistribute; `true` where it returns no error.
unfoldable pub redistribute :
    (List PeerScore → List PeerScore) → (Text → Offer) → ℕ → JobRef → State → State × Bool
unfolding offer_job
redistribute sort_slice offers now job s =
    offer_job offers
      (top_free_peers sort_slice 5 now (seconds 5) job.cpu_requirement job.memory_requirement s) job
      s

unfoldable pub after_redistribute : JobRef → State × Bool → State
after_redistribute job (s, true) = s
after_redistribute job (s, false) = unassign_job job.id s

-- The environment of one job's routine.
pub record RoutineIo : Type 0 where
  pub commit : CommitResult
  pub dispatch : DispatchResult
  pub offers : Text → Offer
  pub now : ℕ

-- executeJobAssignment, with the counter of redistributed jobs.
unfoldable pub execute_job_assignment :
    (List PeerScore → List PeerScore) → RoutineIo → JobRef → Text → ℕ → ℕ → State → State × ℕ
unfolding attempt_job_assignment redistribute after_redistribute
execute_job_assignment sort_slice io job [] redistributed quota s =
    if ltb redistributed quota
    then (
      after_redistribute job (redistribute sort_slice io.offers io.now job s),
      redistributed + 1,
    )
    else (unassign_job job.id s, redistributed)
execute_job_assignment sort_slice io job (c ∷ cs) redistributed quota s =
    ((attempt_job_assignment io.commit io.dispatch (c ∷ cs) job s).0, redistributed)
