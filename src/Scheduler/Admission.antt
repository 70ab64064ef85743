-- ===== src/Scheduler/Admission.antt =====
-- What a scheduler does with a job that a client or a peer hands to it.
use not_ahivemind.Base.{
  ℕ, ◌≡◌, ◌⊎◌, inl, inr, refl, ap, Bool, true, false, some, [], arith, if◌then◌else◌, Bool-cases,
  Text, text_eq, text_eq_refl, text_eq_iff, lookup, lookup-insert,
}
use not_ahivemind.Arbiter.Packing.{orders}
use not_ahivemind.Scheduler.State.{JobRef, State, job_accessors, append_job}
use not_ahivemind.Scheduler.Lifecycle.{absent, waiting, phase, IsConsistent}
use not_ahivemind.Scheduler.SameTables.{SameTables, SameTables-phase, SameTables-IsConsistent}
use not_ahivemind.Scheduler.Adding.{append_job-phase, append_job-IsConsistent}
use not_ahivemind.Scheduler.Externs.{least_utilized_cluster, at_maximum_capacity}
use not_ahivemind.Scheduler.Handler.{
  new_job, put_job, RedistributeRequest, RedistributeResponse, can_take, take_redistributed,
}

-- The job with the ID waits in the new state; no other job has moved.
pub record IsAdmitted (job : JobRef) (s t : State) : Type 0 where
  pub consistent : IsConsistent t
  pub known : lookup job.id t.jobs ≡ some job
  pub phases : (k : Text) → phase t k ≡ (if text_eq job.id k then waiting else phase s k)

put_job-SameTables : (job : JobRef) (s : State) → SameTables s (put_job job s)
unfolding put_job
put_job-SameTables job s = record { jobs = refl; queue = refl; assigned = refl; completed = refl }

module _ (job : JobRef) (s : State) (v : IsConsistent s) (new : phase s job.id ≡ absent)
    (fresh : orders job_accessors job.id s.unassigned_jobs.order ≡ false) where
  put : State
  put = put_job job s

  put-IsConsistent : IsConsistent put
  unfolding put
  put-IsConsistent = SameTables-IsConsistent s put (put_job-SameTables job s) v

  put-phase : (k : Text) → phase put k ≡ phase s k
  unfolding put
  put-phase = SameTables-phase s put (put_job-SameTables job s)

  put-fresh : orders job_accessors job.id put.unassigned_jobs.order ≡ false
  unfolding put put_job
  put-fresh = fresh

  put-new : phase put job.id ≡ absent
  put-new = ground (arith, put-phase job.id, new)

  append-IsAdmitted : IsAdmitted job s (append_job job (put_job job s))
  unfolding put
  append-IsAdmitted = record {
    consistent = append_job-IsConsistent job put put-IsConsistent put-new put-fresh;
    known =
        unfold append_job in
        ground (arith, lookup-insert job.id job.id job put.jobs, text_eq_refl job.id);
    phases = λ k.
        ground (arith, append_job-phase job put put-IsConsistent put-new put-fresh k, put-phase k);
  }

module _ (address : ℕ) (req : RedistributeRequest) (s : State) where
  abbrev pub response : Bool → RedistributeResponse
  response accept = record { job_id = req.job_id; assigned_scheduler_id = s.id; accept = accept }

  take_cannot : can_take req s ≡ false → take_redistributed address req s ≡ (s, response false)
  unfolding take_redistributed
  take_cannot c = rw (take_redistributed, c) refl

  take_gossip :
      can_take req s ≡ true
      → req.gossip ≡ true
      → take_redistributed address req s ≡ (s, response true)
  unfolding take_redistributed
  take_gossip c g = rw (take_redistributed, c, g) refl

  take_appends :
      can_take req s ≡ true
      → req.gossip ≡ false
      → take_redistributed address req s ≡ (
        append_job
            (new_job address req.job_id req.job)
            (put_job (new_job address req.job_id req.job) s),
        response true,
      )
  unfolding take_redistributed new_job put_job
  take_appends c g = rw (take_redistributed, c, g) refl

  refused_why :
      can_take req s ≡ false
      → (least_utilized_cluster req.job.required_nano_cpu req.job.required_memory_bytes s ≡ [])
        × (at_maximum_capacity req.job.required_nano_cpu req.job.required_memory_bytes s ≡ true)
  refused_why c = ground (
    arith,
    text_eq_iff (least_utilized_cluster req.job.required_nano_cpu req.job.required_memory_bytes s)
        [],
  )

  -- A job that a peer offers, under an ID that is new here, is refused and nothing changes, where no
  -- cluster has more free than it asks and the scheduler is at its capacity; else it is accepted, and
  -- unless the request is gossip the job waits here, and the tables stay consistent.
  pub take_redistributed_cases :
      IsConsistent s
      → phase s req.job_id ≡ absent
      → orders job_accessors req.job_id s.unassigned_jobs.order ≡ false
      → ((least_utilized_cluster req.job.required_nano_cpu req.job.required_memory_bytes s ≡ [])
          × (at_maximum_capacity req.job.required_nano_cpu req.job.required_memory_bytes s ≡ true)
          × (take_redistributed address req s ≡ (s, response false)))
        ⊎ ((can_take req s ≡ true)
            × ((take_redistributed address req s).1 ≡ response true)
            × (((req.gossip ≡ true) × ((take_redistributed address req s).0 ≡ s))
                ⊎ ((req.gossip ≡ false)
                    × IsAdmitted
                        (new_job address req.job_id req.job)
                        s
                        (take_redistributed address req s).0)))
  unfolding new_job
  take_redistributed_cases v new fresh = elim (Bool-cases (can_take req s)) [
    | inr c ↦ inl ((refused_why c).0, (refused_why c).1, take_cannot c)
    | inl c ↦ elim (Bool-cases req.gossip) [
      | inl g ↦ inr (
        c,
        ap (λ (x : State × RedistributeResponse). x.1) (take_gossip c g),
        inl (g, ap (λ (x : State × RedistributeResponse). x.0) (take_gossip c g)),
      )
      | inr g ↦ inr (
        c,
        ap (λ (x : State × RedistributeResponse). x.1) (take_appends c g),
        inr (
          g,
          rw (take_appends c g)
              (append-IsAdmitted (new_job address req.job_id req.job) s v new fresh),
        ),
      )
    ]
  ]
