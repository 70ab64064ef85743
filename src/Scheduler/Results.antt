-- ===== src/Scheduler/Results.antt =====
-- The end of a job, from the cluster node that ran it to the scheduler.
use not_ahivemind.Base.{
  ◌≡◌, ◌⊎◌, inl, inr, ap, ◌∙◌, Bool, Bool-cases, Option-cases, none, some, arith, if◌then◌else◌,
  Text, text_eq, lookup,
}
use not_ahivemind.Base.Int.{ℤ}
use not_ahivemind.Models.{Status}
use not_ahivemind.Cluster.Jobs.{Job}
use not_ahivemind.Cluster.Service.{JobStatus, status_of}
use not_ahivemind.Scheduler.State.{JobRef, State, complete_job}
use not_ahivemind.Scheduler.Lifecycle.{finished, phase, IsConsistent}
use not_ahivemind.Scheduler.Removing.{
  complete_job-phase, complete_job-IsConsistent, complete_job_unknown,
}
use not_ahivemind.Scheduler.Messages.{
  JobStatusResponse, status_completed, status_failed, parse_status, parse_job_event,
}
use not_ahivemind.Scheduler.Streams.{complete_event, receive_status}

-- A message of ListJobs, as the scheduler's side of the protocol has it.
abbrev pub on_wire : JobStatus → JobStatusResponse
on_wire m = record {
  job_id = m.job_id;
  status = if m.completed then status_completed else status_failed;
  priority = m.priority;
  image_alias = m.image_alias;
  payload = m.payload;
}

module _ (wrap_int32 : ℤ → ℤ) (j : Job) (s : State) where
  abbrev pub delivered : State
  delivered = receive_status (some (on_wire (status_of wrap_int32 j))) s

  delivered_complete : delivered ≡ (complete_job j.id j.payload j.succeeded s).0
  unfolding receive_status complete_event parse_job_event parse_status status_of
  delivered_complete = elim (Bool-cases j.succeeded) [
    | inl h ↦ ground (arith, h)
    | inr h ↦ ground (arith, h)
  ]

  -- What a cluster node sends of a job that has ended finishes the job of that ID at the scheduler, as
  -- completed or as failed and with the payload sent, and moves no other job; if the scheduler knows no
  -- such job, nothing changes.
  pub delivered_cases :
      IsConsistent s
      → ((job : JobRef) × (lookup j.id s.jobs ≡ some job)
          × IsConsistent delivered
          × ((k : Text) → phase delivered k ≡ (if text_eq j.id k then finished else phase s k))
          × ((delivered.job_cells job.address).status
              ≡ (if j.succeeded then Status.completed else Status.failed))
          × ((delivered.job_cells job.address).response ≡ j.payload))
        ⊎ ((lookup j.id s.jobs ≡ none) × (delivered ≡ s))
  delivered_cases v = elim (Option-cases (lookup j.id s.jobs)) [
    | inl o ↦ inr (
      o,
      delivered_complete
          ∙ ap (λ (r : State × Bool). r.0) (complete_job_unknown j.id s o j.payload j.succeeded),
    )
    | inr (job, o) ↦ inl (
      job,
      o,
      rw delivered_complete (complete_job-IsConsistent j.id j.payload j.succeeded job s v o),
      (λ k. rw delivered_complete (complete_job-phase j.id j.payload j.succeeded job s v o k)),
      rw delivered_complete (unfold complete_job in ground (arith, o)),
      rw delivered_complete (unfold complete_job in ground (arith, o)),
    )
  ]
