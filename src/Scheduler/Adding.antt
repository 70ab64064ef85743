-- ===== src/Scheduler/Adding.antt =====
-- AppendJob and UnassignJob, which push a job, keep the tables consistent.
use not_ahivemind.Base.{
  ◌≡◌, ◌⊎◌, inl, inr, true, false, none, some, arith, if◌then◌else◌, Option-cases, Text, text_eq,
  text_eq_iff, has, lookup, lookup-insert, lookup-remove,
}
use not_ahivemind.Arbiter.Queue.{push}
use not_ahivemind.Arbiter.Packing.{orders, push-IsQueue}
use not_ahivemind.Arbiter.Tidy.{push-IsTidy}
use not_ahivemind.Scheduler.State.{JobRef, State, job_accessors, append_job, unassign_job}
use not_ahivemind.Scheduler.Queues.{lookup-push, orders-push}
use not_ahivemind.Scheduler.Lifecycle.{absent, waiting, phase, IsConsistent}

module _ (job : JobRef) (s : State) (v : IsConsistent s) (new : phase s job.id ≡ absent)
    (fresh : orders job_accessors job.id s.unassigned_jobs.order ≡ false) where
  pub append_job-phase :
      (k : Text) → phase (append_job job s) k ≡ (if text_eq job.id k then waiting else phase s k)
  unfolding append_job
  append_job-phase k = ground (
    arith,
    lookup-insert job.id k job s.jobs,
    text_eq_iff job.id k,
    v.assigned job.id,
    v.completed job.id,
    new,
  )

  pub append_job-IsConsistent : IsConsistent (append_job job s)
  append_job-IsConsistent = record {
    queue = unfold append_job in push-IsQueue job_accessors job s.unassigned_jobs v.queue;
    tidy = unfold append_job in push-IsTidy job_accessors job s.unassigned_jobs (inr fresh) v.tidy;
    keyed = λ k j h.
        unfold append_job in
        ground (arith, lookup-insert job.id k job s.jobs, text_eq_iff job.id k, v.keyed k j);
    shared = λ k j h.
        unfold append_job in
        ground (
          arith,
          lookup-insert job.id k job s.jobs,
          lookup-push job_accessors job s.unassigned_jobs k,
          v.shared k j,
        );
    queued = λ k h.
        unfold append_job in
        ground (
          arith,
          append_job-phase k,
          lookup-push job_accessors job s.unassigned_jobs k,
          v.queued k,
        );
    waiting_queued = λ k h.
        unfold append_job in
        ground (
          arith,
          append_job-phase k,
          lookup-push job_accessors job s.unassigned_jobs k,
          v.waiting_queued k,
        );
    assigned = λ k h.
        unfold append_job in ground (arith, append_job-phase k, text_eq_iff job.id k, v.assigned k);
    completed = λ k h.
        unfold append_job in
        ground (arith, append_job-phase k, text_eq_iff job.id k, v.completed k);
    stale = λ k h.
        unfold append_job in
        ground
          (arith, append_job-phase k, orders-push job_accessors job s.unassigned_jobs k, v.stale k);
  }

-- UnassignJob of a job that is known and not completed.
module _ (id : Text) (job : JobRef) (s : State) (v : IsConsistent s)
    (known : lookup id s.jobs ≡ some job) (open_job : has id s.completed_jobs ≡ false) where
  pub unassign_job-phase :
      (k : Text) → phase (unassign_job id s) k ≡ (if text_eq id k then waiting else phase s k)
  unfolding unassign_job
  unassign_job-phase k = ground (
    arith,
    known,
    open_job,
    lookup-remove id k s.assigned_jobs,
    lookup-remove id k s.completed_jobs,
    text_eq_iff id k,
  )

  unassign_job-queue :
      (unassign_job id s).unassigned_jobs ≡ push job_accessors job s.unassigned_jobs
  unfolding unassign_job
  unassign_job-queue = ground (arith, known, open_job)

  unassign_job-jobs : (unassign_job id s).jobs ≡ s.jobs
  unfolding unassign_job
  unassign_job-jobs = ground (arith, known, open_job)

  -- The queue has the job itself, or its ID is not in the order.
  pushed_again :
      (lookup job.id s.unassigned_jobs.items ≡ some job)
      ⊎ (orders job_accessors job.id s.unassigned_jobs.order ≡ false)
  pushed_again = elim (Option-cases (lookup job.id s.unassigned_jobs.items)) [
    | inl o ↦
        inr (ground (arith, o, known, open_job, v.keyed id job, v.stale id, v.waiting_queued id))
    | inr (j, o) ↦ inl (ground (arith, o, known, v.keyed id job, v.shared id j))
  ]

  pub unassign_job-IsConsistent : IsConsistent (unassign_job id s)
  unassign_job-IsConsistent = record {
    queue = rw unassign_job-queue (push-IsQueue job_accessors job s.unassigned_jobs v.queue);
    tidy =
        rw unassign_job-queue (push-IsTidy job_accessors job s.unassigned_jobs pushed_again v.tidy);
    keyed = λ k j h. ground (arith, unassign_job-jobs, v.keyed k j);
    shared = λ k j h. ground (
      arith,
      unassign_job-jobs,
      unassign_job-queue,
      lookup-push job_accessors job s.unassigned_jobs k,
      text_eq_iff job.id k,
      known,
      v.keyed id job,
      v.shared k j,
    );
    queued = λ k h. ground (
      arith,
      unassign_job-phase k,
      unassign_job-queue,
      lookup-push job_accessors job s.unassigned_jobs k,
      known,
      v.keyed id job,
      v.queued k,
    );
    waiting_queued = λ k h. ground (
      arith,
      unassign_job-phase k,
      unassign_job-queue,
      lookup-push job_accessors job s.unassigned_jobs k,
      known,
      v.keyed id job,
      v.waiting_queued k,
    );
    assigned = λ k h.
        unfold unassign_job in
        ground (
          arith,
          unassign_job-phase k,
          known,
          open_job,
          lookup-remove id k s.assigned_jobs,
          v.assigned k,
        );
    completed = λ k h.
        unfold unassign_job in
        ground (
          arith,
          unassign_job-phase k,
          known,
          open_job,
          lookup-remove id k s.completed_jobs,
          v.completed k,
        );
    stale = λ k h. ground (
      arith,
      unassign_job-phase k,
      unassign_job-queue,
      orders-push job_accessors job s.unassigned_jobs k,
      known,
      v.keyed id job,
      v.stale k,
    );
  }

module _ (id : Text) (s : State) where
  pub unassign_job_unknown : lookup id s.jobs ≡ none → unassign_job id s ≡ s
  unfolding unassign_job
  unassign_job_unknown o = ground (arith, o)

  pub unassign_job_completed : has id s.completed_jobs ≡ true → unassign_job id s ≡ s
  unfolding unassign_job
  unassign_job_completed c = ground (arith, c)
