-- ===== src/Scheduler/SameTables.antt =====
-- States that differ in nothing that the tables of jobs hold.
use not_ahivemind.Base.{◌≡◌, sym, ap, ◌∙◌, arith, Text, lookup}
use not_ahivemind.Scheduler.State.{State}
use not_ahivemind.Scheduler.Lifecycle.{phase, IsConsistent}

-- The two states have the same tables of jobs.
pub record SameTables (s t : State) : Type 0 where
  pub jobs : t.jobs ≡ s.jobs
  pub queue : t.unassigned_jobs ≡ s.unassigned_jobs
  pub assigned : t.assigned_jobs ≡ s.assigned_jobs
  pub completed : t.completed_jobs ≡ s.completed_jobs

module _ (s t : State) (e : SameTables s t) where
  pub SameTables-phase : (k : Text) → phase t k ≡ phase s k
  SameTables-phase k = ground (arith, e.jobs, e.completed, e.assigned)

  pub SameTables-IsConsistent : IsConsistent s → IsConsistent t
  SameTables-IsConsistent v = record {
    queue = rw e.queue v.queue;
    tidy = rw e.queue v.tidy;
    keyed = λ k j h. v.keyed k j (ap (lookup k) (sym e.jobs) ∙ h);
    shared = λ k j h. ground (arith, e.jobs, e.queue, v.shared k j);
    queued = λ k h. ground (arith, SameTables-phase k, e.queue, v.queued k);
    waiting_queued = λ k h. ground (arith, SameTables-phase k, e.queue, v.waiting_queued k);
    assigned = λ k h. ground (arith, SameTables-phase k, e.assigned, v.assigned k);
    completed = λ k h. ground (arith, SameTables-phase k, e.completed, v.completed k);
    stale = λ k h. ground (arith, SameTables-phase k, e.queue, v.stale k);
  }
