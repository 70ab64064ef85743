-- ===== src/Scheduler/Removing.antt =====
-- AssignJob, CompleteJob and PurgeJob, which take a job out of the queue, keep the tables consistent.
use not_ahivemind.Base.{
  ◌≡◌, ◌≢◌, ◌⊎◌, inl, inr, Bool, true, false, none, some, arith, if◌then◌else◌, Text, text_eq,
  text_eq_iff, text_eq_refl, ℕ, List, has, lookup, lookup-insert, lookup-remove, refl,
}
use not_ahivemind.Arbiter.Queue.{remove_by_id}
use not_ahivemind.Arbiter.Packing.{orders, remove_by_id-IsQueue}
use not_ahivemind.Arbiter.Tidy.{remove_by_id-IsTidy}
use not_ahivemind.Scheduler.State.{
  JobRef, State, job_accessors, assign_job, complete_job, purge_job,
}
use not_ahivemind.Scheduler.Queues.{lookup-remove_by_id, order-remove_by_id}
use not_ahivemind.Scheduler.Lifecycle.{
  Phase, absent, waiting, active, finished, phase, IsConsistent,
}

-- A state whose queue has lost the ID `id`, and whose other tables agree on where that ID is now.
record Removed (id : Text) (p : Phase) (s t : State) : Type 0 where
  queue : t.unassigned_jobs ≡ remove_by_id id s.unassigned_jobs
  jobs : (k : Text) → text_eq id k ≡ false → lookup k t.jobs ≡ lookup k s.jobs
  keyed : (j : JobRef) → lookup id t.jobs ≡ some j → j.id ≡ id
  phases : (k : Text) → phase t k ≡ (if text_eq id k then p else phase s k)
  left : p ≢ waiting
  off : orders job_accessors id s.unassigned_jobs.order ≡ true → (p ≡ finished) ⊎ (p ≡ absent)
  assigned :
      (k : Text) → has k t.assigned_jobs ≡ true → (if text_eq id k then p else phase s k) ≡ active
  completed :
      (k : Text)
      → has k t.completed_jobs ≡ true
      → (if text_eq id k then p else phase s k) ≡ finished

module _ (id : Text) (p : Phase) (s t : State) (v : IsConsistent s) (r : Removed id p s t) where
  Removed-IsConsistent : IsConsistent t
  Removed-IsConsistent = record {
    queue = rw r.queue (remove_by_id-IsQueue job_accessors id s.unassigned_jobs v.queue);
    tidy = rw r.queue (remove_by_id-IsTidy job_accessors id s.unassigned_jobs v.tidy);
    keyed = λ k j h. ground (arith, r.jobs k, r.keyed j, text_eq_iff id k, v.keyed k j);
    shared = λ k j h.
        ground (arith, r.queue, lookup-remove_by_id id s.unassigned_jobs k, r.jobs k, v.shared k j);
    queued = λ k h.
        ground (arith, r.queue, lookup-remove_by_id id s.unassigned_jobs k, r.phases k, v.queued k);
    waiting_queued = λ k h. ground (
      arith,
      r.queue,
      lookup-remove_by_id id s.unassigned_jobs k,
      r.phases k,
      r.left,
      v.waiting_queued k,
    );
    assigned = λ k h. ground (arith, r.phases k, r.assigned k h);
    completed = λ k h. ground (arith, r.phases k, r.completed k h);
    stale = λ k h. ground (
      arith,
      r.queue,
      order-remove_by_id id s.unassigned_jobs,
      r.phases k,
      r.off,
      text_eq_iff id k,
      v.stale k,
    );
  }

-- AssignJob of an active job.
module _ (id cluster : Text) (job : JobRef) (s : State) (v : IsConsistent s)
    (known : lookup id s.jobs ≡ some job) (active_job : phase s id ≡ active) where
  assign_job-Removed : Removed id active s (assign_job id cluster s).0
  unfolding assign_job
  assign_job-Removed = record {
    queue = ground (arith, known);
    jobs = λ k ne. ground (arith, known);
    keyed = λ j h. ground (arith, known, v.keyed id j);
    phases = λ k. ground (arith, known, lookup-insert id k tt s.assigned_jobs, text_eq_iff id k);
    left = λ e. cc;
    off = λ o. ground (arith, v.stale id);
    assigned = λ k h. ground (arith, known, lookup-insert id k tt s.assigned_jobs, v.assigned k);
    completed = λ k h. ground (arith, known, text_eq_iff id k, v.completed k);
  }

  pub assign_job-IsConsistent : IsConsistent (assign_job id cluster s).0
  assign_job-IsConsistent = Removed-IsConsistent id active s _ v assign_job-Removed

  pub assign_job-phase :
      (k : Text)
      → phase (assign_job id cluster s).0 k ≡ (if text_eq id k then active else phase s k)
  assign_job-phase = assign_job-Removed.phases

-- CompleteJob of a known job.
module _ (id : Text) (result : List ℕ) (success : Bool) (job : JobRef) (s : State)
    (v : IsConsistent s) (known : lookup id s.jobs ≡ some job) where
  complete_job-Removed : Removed id finished s (complete_job id result success s).0
  unfolding complete_job
  complete_job-Removed = record {
    queue = ground (arith, known);
    jobs = λ k ne. ground (arith, known);
    keyed = λ j h. ground (arith, known, v.keyed id j);
    phases = λ k. ground (
      arith,
      known,
      lookup-insert id k tt s.completed_jobs,
      lookup-remove id k s.assigned_jobs,
      text_eq_iff id k,
    );
    left = λ e. cc;
    off = λ o. inl refl;
    assigned = λ k h. ground (arith, known, lookup-remove id k s.assigned_jobs, v.assigned k);
    completed = λ k h. ground (arith, known, lookup-insert id k tt s.completed_jobs, v.completed k);
  }

  pub complete_job-IsConsistent : IsConsistent (complete_job id result success s).0
  complete_job-IsConsistent = Removed-IsConsistent id finished s _ v complete_job-Removed

  pub complete_job-phase :
      (k : Text)
      → phase (complete_job id result success s).0 k
        ≡ (if text_eq id k then finished else phase s k)
  complete_job-phase = complete_job-Removed.phases

-- PurgeJob of a known job.
module _ (id : Text) (job : JobRef) (s : State) (v : IsConsistent s)
    (known : lookup id s.jobs ≡ some job) where
  purge_job-Removed : Removed id absent s (purge_job id s)
  unfolding purge_job
  purge_job-Removed = record {
    queue = ground (arith, known);
    jobs = λ k ne. ground (arith, known, lookup-remove id k s.jobs);
    keyed = λ j h. ground (arith, known, lookup-remove id id s.jobs, text_eq_refl id, v.keyed id j);
    phases = λ k. ground (
      arith,
      known,
      lookup-remove id k s.jobs,
      lookup-remove id k s.completed_jobs,
      lookup-remove id k s.assigned_jobs,
    );
    left = λ e. cc;
    off = λ o. inr refl;
    assigned = λ k h. ground (arith, known, lookup-remove id k s.assigned_jobs, v.assigned k);
    completed = λ k h. ground (arith, known, lookup-remove id k s.completed_jobs, v.completed k);
  }

  pub purge_job-IsConsistent : IsConsistent (purge_job id s)
  purge_job-IsConsistent = Removed-IsConsistent id absent s _ v purge_job-Removed

  pub purge_job-phase :
      (k : Text) → phase (purge_job id s) k ≡ (if text_eq id k then absent else phase s k)
  purge_job-phase = purge_job-Removed.phases

module _ (id : Text) (s : State) (unknown : lookup id s.jobs ≡ none) where
  pub assign_job_unknown : (cluster : Text) → assign_job id cluster s ≡ (s, true)
  unfolding assign_job
  assign_job_unknown cluster = ground (arith, unknown)

  pub complete_job_unknown :
      (result : List ℕ) (success : Bool) → complete_job id result success s ≡ (s, true)
  unfolding complete_job
  complete_job_unknown result success = ground (arith, unknown)

  pub purge_job_unknown : purge_job id s ≡ s
  unfolding purge_job
  purge_job_unknown = ground (arith, unknown)
