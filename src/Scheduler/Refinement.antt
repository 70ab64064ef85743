-- ===== src/Scheduler/Refinement.antt =====
-- The tables of jobs refine a table from IDs to phases.
use not_ahivemind.Base.{
  ℕ, ◌≡◌, ◌⊎◌, inl, inr, Bool, false, some, List, arith, Option-cases, Bool-cases, Text,
  text_eq_iff, has, lookup, insert,
}
use not_ahivemind.Base.Int.{ℤ}
use not_ahivemind.Scheduler.State.{JobRef, State, queue_free_completed_job}
use not_ahivemind.Scheduler.Lifecycle.{
  waiting, active, phase, IsConsistent, Event, append, issue, assign, complete, unassign, purge,
  read, step, issued, IsAllowed, promised,
}
use not_ahivemind.Scheduler.Adding.{
  append_job-phase, append_job-IsConsistent, unassign_job_unknown, unassign_job_completed,
  unassign_job-phase, unassign_job-IsConsistent,
}
use not_ahivemind.Scheduler.Removing.{
  assign_job-phase, assign_job-IsConsistent, complete_job-phase, complete_job-IsConsistent,
  assign_job_unknown, complete_job_unknown, purge_job_unknown, purge_job-phase,
  purge_job-IsConsistent,
}
use not_ahivemind.Scheduler.Issuing.{
  popped, job_waiting, issue-phase, issue-IsConsistent, miss-state, miss-none, issue-some,
  miss-IsConsistent,
}

-- What one call does: the tables stay consistent, the phases are those promised, and a job that is
-- issued was waiting.
pub record Keeps (e : Event) (s : State) : Type 0 where
  pub consistent : IsConsistent (step e s)
  pub phases : (k : Text) → phase (step e s) k ≡ promised e (issued e s) (phase s) k
  pub waited : (id : Text) → issued e s ≡ some id → phase s id ≡ waiting

module _ (s : State) (v : IsConsistent s) where
  append-Keeps : (job : JobRef) → IsAllowed (append job) s → Keeps (append job) s
  unfolding step issued promised
  append-Keeps job (new, fresh) = record {
    consistent = append_job-IsConsistent job s v new fresh;
    phases = append_job-phase job s v new fresh;
    waited = λ id h. cc;
  }

  assign-Keeps : (id cluster : Text) → IsAllowed (assign id cluster) s → Keeps (assign id cluster) s
  unfolding step issued promised
  assign-Keeps id cluster (w, f) = elim (Option-cases (lookup id s.jobs)) [
    | inl o ↦ record {
      consistent = rw (step, assign_job_unknown id s o cluster) v;
      phases = λ k. ground (arith, o, assign_job_unknown id s o cluster);
      waited = λ i h. cc;
    }
    | inr (job, o) ↦
        let now : phase s id ≡ active = ground (arith, o) in
        record {
          consistent = assign_job-IsConsistent id cluster job s v o now;
          phases = λ k. ground (arith, now, assign_job-phase id cluster job s v o now k);
          waited = λ i h. cc;
        }
  ]

  complete-Keeps :
      (id : Text) (result : List ℕ) (success : Bool) → Keeps (complete id result success) s
  unfolding step issued promised
  complete-Keeps id result success = elim (Option-cases (lookup id s.jobs)) [
    | inl o ↦ record {
      consistent = rw (step, complete_job_unknown id s o result success) v;
      phases = λ k. ground (arith, o, complete_job_unknown id s o result success);
      waited = λ i h. cc;
    }
    | inr (job, o) ↦ record {
      consistent = complete_job-IsConsistent id result success job s v o;
      phases = λ k. ground (arith, o, complete_job-phase id result success job s v o k);
      waited = λ i h. cc;
    }
  ]

  purge-Keeps : (id : Text) → Keeps (purge id) s
  unfolding step issued promised
  purge-Keeps id = elim (Option-cases (lookup id s.jobs)) [
    | inl o ↦ record {
      consistent = rw (step, purge_job_unknown id s o) v;
      phases = λ k. ground (arith, o, purge_job_unknown id s o, text_eq_iff id k);
      waited = λ i h. cc;
    }
    | inr (job, o) ↦ record {
      consistent = purge_job-IsConsistent id job s v o;
      phases = purge_job-phase id job s v o;
      waited = λ i h. cc;
    }
  ]

  unassign_open-Keeps :
      (id : Text) (job : JobRef)
      → lookup id s.jobs ≡ some job
      → has id s.completed_jobs ≡ false
      → Keeps (unassign id) s
  unfolding step issued promised
  unassign_open-Keeps id job o open_job = record {
    consistent = unassign_job-IsConsistent id job s v o open_job;
    phases = λ k. ground (arith, o, open_job, unassign_job-phase id job s v o open_job k);
    waited = λ i h. cc;
  }

  unassign-Keeps : (id : Text) → Keeps (unassign id) s
  unfolding step issued promised
  unassign-Keeps id = elim (Option-cases (lookup id s.jobs)) [
    | inl o ↦ record {
      consistent = rw (step, unassign_job_unknown id s o) v;
      phases = λ k. ground (arith, o, unassign_job_unknown id s o);
      waited = λ i h. cc;
    }
    | inr (job, o) ↦ elim (Bool-cases (has id s.completed_jobs)) [
      | inl c ↦ record {
        consistent = rw (step, unassign_job_completed id s c) v;
        phases = λ k. ground (arith, v.completed id c, unassign_job_completed id s c);
        waited = λ i h. cc;
      }
      | inr c ↦ unassign_open-Keeps id job o c
    ]
  ]

  mark_read : Text → ℕ → State
  mark_read id now = record s { read_jobs = insert id now s.read_jobs }

  mark_read-IsConsistent : (id : Text) (now : ℕ) → IsConsistent (mark_read id now)
  unfolding mark_read
  mark_read-IsConsistent id now = record {
    queue = v.queue;
    tidy = v.tidy;
    keyed = v.keyed;
    shared = v.shared;
    queued = v.queued;
    waiting_queued = v.waiting_queued;
    assigned = v.assigned;
    completed = v.completed;
    stale = v.stale;
  }

  read_cases :
      (id : Text) (now : ℕ)
      → ((queue_free_completed_job id now s).0 ≡ s)
        ⊎ ((queue_free_completed_job id now s).0 ≡ mark_read id now)
  unfolding queue_free_completed_job mark_read
  read_cases id now = ground arith

  read-IsConsistent : (id : Text) (now : ℕ) → IsConsistent (queue_free_completed_job id now s).0
  read-IsConsistent id now = elim (read_cases id now) [
    | inl e ↦ rw e v
    | inr e ↦ rw e (mark_read-IsConsistent id now)
  ]

  read-Keeps : (id : Text) (now : ℕ) → Keeps (read id now) s
  unfolding step issued promised queue_free_completed_job
  read-Keeps id now = record {
    consistent = read-IsConsistent id now;
    phases = λ k. ground arith;
    waited = λ i h. cc;
  }

  issue-Keeps : (cpu mem : ℤ) → Keeps (issue cpu mem) s
  unfolding step issued promised
  issue-Keeps cpu mem = elim (Option-cases (popped cpu mem s v).0) [
    | inl o ↦ record {
      consistent = miss-IsConsistent cpu mem s v o;
      phases = λ k. ground (arith, miss-none cpu mem s v o, miss-state cpu mem s v o);
      waited = λ i h. ground (arith, miss-none cpu mem s v o);
    }
    | inr (job, o) ↦ record {
      consistent = issue-IsConsistent cpu mem s v job o;
      phases = λ k. ground (arith, issue-some cpu mem s v job o, issue-phase cpu mem s v job o k);
      waited = λ i h. ground (arith, issue-some cpu mem s v job o, job_waiting cpu mem s v job o);
    }
  ]

-- Every call, as Keeps says.
pub step-Keeps : (e : Event) (s : State) → IsConsistent s → IsAllowed e s → Keeps e s
step-Keeps (append job) s v h = append-Keeps s v job h
step-Keeps (issue cpu mem) s v h = issue-Keeps s v cpu mem
step-Keeps (assign id cluster) s v h = assign-Keeps s v id cluster h
step-Keeps (complete id result success) s v h = complete-Keeps s v id result success
step-Keeps (unassign id) s v h = unassign-Keeps s v id
step-Keeps (purge id) s v h = purge-Keeps s v id
step-Keeps (read id now) s v h = read-Keeps s v id now
