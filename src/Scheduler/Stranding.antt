-- ===== src/Scheduler/Stranding.antt =====
-- Which jobs reallocateDeadClusterJobs of internal/scheduler/packer/monitor.go puts back.
use not_ahivemind.Base.{
  ℕ, ◌≡◌, ◌≢◌, refl, sym, ap, ◌∙◌, Bool, true, false, ◌&&◌, ◌||◌, Option, none, some, List, [], ◌∷◌,
  arith, if◌then◌else◌, inl, inr, Bool-cases, Option-cases, Text, text_eq, text_eq_refl, has,
  lookup,
}
use not_ahivemind.Scheduler.State.{JobRef, JobCell, State, unassign_job, is_placed, jobs_in_cluster}
use not_ahivemind.Scheduler.Lifecycle.{waiting, phase, IsConsistent}
use not_ahivemind.Scheduler.Schedule.{unassign_all, reallocate_from}
use not_ahivemind.Scheduler.Clearing.{listed}
use not_ahivemind.Scheduler.Rolling.{placed_at, listed-jobs_in_cluster, rolled, cluster-AreRolled}

-- A job, if there is one, bears the cluster's ID.
abbrev bears : Text → Option JobRef → State → Bool
bears cluster none s = false
bears cluster (some job) s = text_eq (s.job_cells job.address).assigned_cluster_id cluster

-- The job is known and bears the cluster's ID.
abbrev pub stands_at : Text → Text → State → Bool
stands_at cluster k s = bears cluster (lookup k s.jobs) s

-- The job bears the ID of one of the clusters.
unfoldable pub stands_in : List Text → Text → State → Bool
stands_in [] k s = false
stands_in (cluster ∷ clusters) k s = stands_at cluster k s || stands_in clusters k s

placed_at-stands_at : (cluster k : Text) (s : State) → placed_at cluster k s ≡ stands_at cluster k s
unfolding is_placed
placed_at-stands_at cluster k s = elim (Option-cases (lookup k s.jobs)) [
  | inl o ↦ ground (arith, o)
  | inr (job, o) ↦ ground (arith, o)
]

module _ (id : Text) (s : State) where
  unassign-jobs : (unassign_job id s).jobs ≡ s.jobs
  unfolding unassign_job
  unassign-jobs = elim (Option-cases (lookup id s.jobs)) [
    | inl o ↦ ground (arith, o)
    | inr (job, o) ↦ ground (arith, o)
  ]

  unassign-cells :
      (a : ℕ)
      → ((job : JobRef) → lookup id s.jobs ≡ some job → job.address ≢ a)
      → (unassign_job id s).job_cells a ≡ s.job_cells a
  unfolding unassign_job
  unassign-cells a apart = elim (Option-cases (lookup id s.jobs)) [
    | inl o ↦ ground (arith, o)
    | inr (job, o) ↦ ground (arith, o, apart job o)
  ]

unassign_all-jobs : (ids : List Text) (s : State) → (unassign_all ids s).jobs ≡ s.jobs
unfolding unassign_all
unassign_all-jobs [] s = refl
unassign_all-jobs (id ∷ ids) s = unassign_all-jobs ids (unassign_job id s) ∙ unassign-jobs id s

unassign_all-cells :
    (a : ℕ) (ids : List Text) (s : State)
    → ((id : Text) (job : JobRef)
        → listed id ids ≡ true
        → lookup id s.jobs ≡ some job
        → job.address ≢ a)
    → (unassign_all ids s).job_cells a ≡ s.job_cells a
unfolding unassign_all
unassign_all-cells a [] s apart = refl
unassign_all-cells a (id ∷ ids) s apart =
    unassign_all-cells a ids (unassign_job id s) (λ other job l o.
      apart other job (ground (arith, l)) (ap (lookup other) (sym (unassign-jobs id s)) ∙ o))
    ∙ unassign-cells id s a (λ job o. apart id job (ground (arith, text_eq_refl id)) o)

bears_same :
    (cluster : Text) (o : Option JobRef) (s t : State)
    → ((job : JobRef) → o ≡ some job → t.job_cells job.address ≡ s.job_cells job.address)
    → bears cluster o t ≡ bears cluster o s
bears_same cluster none s t h = refl
bears_same cluster (some job) s t h =
    ap (λ (cell : JobCell). text_eq cell.assigned_cluster_id cluster) (h job refl)

placed_together :
    (cluster id k : Text) (job other : JobRef) (s : State)
    → lookup id s.jobs ≡ some job
    → lookup k s.jobs ≡ some other
    → job.address ≡ other.address
    → placed_at cluster id s ≡ true
    → placed_at cluster k s ≡ true
unfolding is_placed
placed_together cluster id k job other s e e' same p = rw e' (
    rw (sym same)
      (rw⁻¹ (ap (λ o. bears cluster o s) e) (sym (placed_at-stands_at cluster id s) ∙ p)))

module _ (cluster : Text) (s : State) where
  -- The address of a job that stays is none of those that are put back.
  address_apart :
      (k : Text) (other : JobRef)
      → lookup k s.jobs ≡ some other
      → has k s.assigned_jobs ≡ true
      → listed k (jobs_in_cluster cluster s) ≡ false
      → (id : Text) (job : JobRef) → listed id (jobs_in_cluster cluster s) ≡ true
      → lookup id s.jobs ≡ some job
      → job.address ≢ other.address
  address_apart k other e a l id job l' e' same = ground (
    arith,
    a,
    l,
    l',
    listed-jobs_in_cluster cluster s k,
    listed-jobs_in_cluster cluster s id,
    placed_together cluster id k job other s e' e same,
  )

  -- A job that stays active keeps its cluster.
  rolled-stands_at :
      (k other : Text)
      → has k s.assigned_jobs ≡ true
      → listed k (jobs_in_cluster cluster s) ≡ false
      → stands_at other k (rolled cluster s) ≡ stands_at other k s
  rolled-stands_at k other a l =
      ap (λ jobs. bears other (lookup k jobs) (rolled cluster s))
        (unassign_all-jobs (jobs_in_cluster cluster s) s)
      ∙ bears_same other (lookup k s.jobs) s (rolled cluster s) (λ job o.
        unassign_all-cells job.address (jobs_in_cluster cluster s) s (address_apart k job o a l))

  rolled-stands_in :
      (k : Text) (clusters : List Text)
      → has k s.assigned_jobs ≡ true
      → listed k (jobs_in_cluster cluster s) ≡ false
      → stands_in clusters k (rolled cluster s) ≡ stands_in clusters k s
  unfolding stands_in
  rolled-stands_in k [] a l = refl
  rolled-stands_in k (other ∷ others) a l =
      rw (rolled-stands_at k other a l, rolled-stands_in k others a l) refl

-- A job that is active, and only such a one, is among the assigned.
active-assigned :
    (k : Text) (s t : State)
    → IsConsistent s
    → IsConsistent t
    → phase t k ≡ phase s k
    → has k t.assigned_jobs ≡ has k s.assigned_jobs
active-assigned k s t v w p = ground (arith, p, v.assigned k, w.assigned k)

waiting-not_assigned :
    (k : Text) (t : State) → IsConsistent t → phase t k ≡ waiting → has k t.assigned_jobs ≡ false
waiting-not_assigned k t w p = ground (arith, p, w.assigned k)

-- The phase of each job once the jobs of the clusters are put back.
pub reallocate_from-phase :
    (clusters : List Text) (s : State)
    → IsConsistent s
    → (k : Text)
    → phase (reallocate_from clusters s) k
      ≡ (if has k s.assigned_jobs && stands_in clusters k s then waiting else phase s k)
unfolding reallocate_from stands_in
reallocate_from-phase [] s v k = ground arith
reallocate_from-phase (cluster ∷ clusters) s v k =
    let a = cluster-AreRolled cluster s v in
    let t = rolled cluster s in
    let rest = reallocate_from-phase clusters t a.consistent k in
    let placed = listed-jobs_in_cluster cluster s k in
    elim (Bool-cases (listed k (jobs_in_cluster cluster s))) [
      | inl l ↦ ground (
        arith,
        rest,
        l,
        placed,
        placed_at-stands_at cluster k s,
        a.phases k,
        waiting-not_assigned k t a.consistent,
      )
      | inr l ↦ ground (
        arith,
        rest,
        l,
        placed,
        placed_at-stands_at cluster k s,
        a.phases k,
        active-assigned k s t v a.consistent,
        rolled-stands_in cluster s k clusters,
      )
    ]
