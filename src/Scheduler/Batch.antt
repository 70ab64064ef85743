-- ===== src/Scheduler/Batch.antt =====
-- A whole batch of processPendingJobs: the turns, and then what becomes of each job.
use not_ahivemind.Base.{
  ℕ, ◌≤◌, ◌≡◌, inl, inr, refl, ap, ◌∙◌, true, false, List, [], ◌∷◌, arith, length, All, Bool-cases,
  Text, text_eq, text_eq_iff, text_eq_refl, lookup,
}
use not_ahivemind.Scheduler.State.{JobRef, State, pending_jobs}
use not_ahivemind.Scheduler.Externs.{local_clusters}
use not_ahivemind.Scheduler.Lifecycle.{absent, waiting, active, phase, IsConsistent}
use not_ahivemind.Scheduler.Peers.{PeerScore}
use not_ahivemind.Scheduler.Packer.{
  RoutineIo, committed, taken, unconnected, accepted, execute_job_assignment, process_pending_jobs,
  is_nil, ceilings, calculate_redistribution_quota,
}
use not_ahivemind.Scheduler.Schedule.{execute_each, process_batch}
use not_ahivemind.Scheduler.Settling.{
  IsIssued, Frames, IsSettled, released, dispatched, handed_over, in_limbo,
}
use not_ahivemind.Scheduler.Execution.{execute_job_assignment-Settles}
use not_ahivemind.Scheduler.Rounds.{named, Once, HasWaited, AreHandedOut, pack_turns-AreHandedOut}

-- How a job of the batch stands after it.
pub data Ends (io : RoutineIo) (k : Text) (t : State) : Type 0 where
  ends_waiting : phase t k ≡ waiting → Ends io k t
  ends_active : io.commit ≡ committed → io.dispatch ≡ taken → phase t k ≡ active → Ends io k t
  ends_elsewhere : (peer : Text) → io.offers peer ≡ accepted → phase t k ≡ absent → Ends io k t
  ends_in_limbo : (peer : Text) → io.offers peer ≡ unconnected → phase t k ≡ active → Ends io k t

abbrev pub Issued : State → JobRef × Text → Type 0
Issued s (job, target) = IsIssued job s

abbrev pub EndsIn : (JobRef → RoutineIo) → State → JobRef × Text → Type 0
EndsIn outcomes t (job, target) = Ends (outcomes job) job.id t

module _ (job : JobRef) (s t : State) (f : Frames job s t) where
  IsIssued-kept :
      (other : JobRef) → text_eq job.id other.id ≡ false → IsIssued other s → IsIssued other t
  IsIssued-kept other ne i = record {
    known = f.kept other.id ne ∙ i.known;
    running = f.others other.id ne ∙ i.running;
  }

  All-Issued-kept :
      (jobs : List (JobRef × Text))
      → named job.id jobs ≡ false
      → All (Issued s) jobs
      → All (Issued t) jobs
  All-Issued-kept [] ne h = tt
  All-Issued-kept ((other, target) ∷ jobs) ne (i, h) = (
    IsIssued-kept other (ground (arith, text_eq_iff job.id other.id, text_eq_iff other.id job.id))
        i,
    All-Issued-kept jobs (ground arith) h,
  )

Ends-settled :
    (io : RoutineIo) (asked : List Text) (job : JobRef) (target : Text) (s t : State)
    → IsIssued job s
    → IsSettled io asked job target s t
    → Ends io job.id t
Ends-settled io asked job target s t i (released why w p) = ends_waiting w
Ends-settled io asked job target s t i (dispatched given c d a p) = ends_active c d a
Ends-settled io asked job target s t i (handed_over peer none_given r o a) = ends_elsewhere peer o a
Ends-settled io asked job target s t i (in_limbo peer none_given r o e) =
    ends_in_limbo peer o (ap (λ (x : State). phase x job.id) e ∙ i.running)

Ends-later :
    (io : RoutineIo) (k : Text) (t u : State) → phase u k ≡ phase t k → Ends io k t → Ends io k u
Ends-later io k t u e (ends_waiting w) = ends_waiting (e ∙ w)
Ends-later io k t u e (ends_active c d a) = ends_active c d (e ∙ a)
Ends-later io k t u e (ends_elsewhere peer o a) = ends_elsewhere peer o (e ∙ a)
Ends-later io k t u e (ends_in_limbo peer o a) = ends_in_limbo peer o (e ∙ a)

pub record IsRound (outcomes : JobRef → RoutineIo) (jobs : List (JobRef × Text)) (s t : State)
    : Type 0 where
  pub consistent : IsConsistent t
  pub others : (k : Text) → named k jobs ≡ false → phase t k ≡ phase s k
  pub ends : All (EndsIn outcomes t) jobs

module _ (sort_slice : List PeerScore → List PeerScore) (outcomes : JobRef → RoutineIo)
    (quota : ℕ) where
  execute_each-IsRound :
      (jobs : List (JobRef × Text)) (redistributed : ℕ) (s : State)
      → IsConsistent s
      → All (Issued s) jobs
      → Once jobs
      → IsRound outcomes jobs s (execute_each sort_slice outcomes jobs redistributed quota s)
  unfolding execute_each
  execute_each-IsRound [] redistributed s v h o = record {
    consistent = v;
    others = λ k n. refl;
    ends = tt;
  }
  execute_each-IsRound ((job, target) ∷ jobs) redistributed s v (i, h) (new, o) =
      let r = execute_job_assignment sort_slice (outcomes job) job target redistributed quota s in
      let (f, e) =
        execute_job_assignment-Settles (outcomes job) job s v i sort_slice target redistributed
          quota in
      let rest =
        execute_each-IsRound jobs r.1 r.0 f.consistent (All-Issued-kept job s r.0 f jobs new h) o in
      record {
        consistent = rest.consistent;
        others = λ k n. rest.others k (ground (arith, n)) ∙ f.others k (ground (arith, n));
        ends = (
          Ends-later (outcomes job) job.id r.0 _ (rest.others job.id new)
              (Ends-settled (outcomes job) _ job target s r.0 i e),
          rest.ends,
        );
      }

-- The jobs that the turns have handed out are issued.
All-Issued :
    (s t : State) (jobs : List (JobRef × Text))
    → t.jobs ≡ s.jobs
    → ((k : Text) → named k jobs ≡ true → phase t k ≡ active)
    → All (HasWaited s) jobs
    → All (Issued t) jobs
All-Issued s t [] e p h = tt
All-Issued s t ((job, target) ∷ jobs) e p ((known, w), h) = (
  record {
    known = ap (lookup job.id) e ∙ known;
    running = p job.id (ground (arith, text_eq_refl job.id));
  },
  All-Issued s t jobs e (λ k n. p k (ground (arith, n))) h,
)

AreHandedOut-Issued :
    (s t : State) (jobs : List (JobRef × Text)) → AreHandedOut s jobs t → All (Issued t) jobs
AreHandedOut-Issued s t jobs a =
    All-Issued s t jobs a.same_jobs (λ k n. ground (arith, a.phases k, n)) a.waited

process_pending_jobs_cases :
    (limit : ℕ) (seen : ℕ → ℕ) (s : State)
    → IsConsistent s
    → AreHandedOut s (process_pending_jobs limit seen s).0 (process_pending_jobs limit seen s).1
      × (length (process_pending_jobs limit seen s).0 ≤ limit)
unfolding process_pending_jobs
process_pending_jobs_cases limit seen s v = elim (Bool-cases (is_nil (pending_jobs s))) [
  | inl e ↦
      rw (process_pending_jobs, e)
        (
          record { consistent = v; same_jobs = refl; phases = λ k. refl; waited = tt; once = tt },
          omega arith,
        )
  | inr e ↦
      rw (process_pending_jobs, e)
        (pack_turns-AreHandedOut limit 0 seen (calculate_redistribution_quota limit)
          (local_clusters s) (ceilings (local_clusters s) s) s v)
]

-- A batch of processPendingJobs, with the routines run in the order of the turns, hands out no more jobs
-- than its limit, all of which waited. Each of them waits again, or is active after the commit and its
-- cluster's consent, or is gone after a peer's consent, or is active for want of a peer's connection. No
-- other job changes its phase, and the tables stay consistent.
pub process_batch-IsRound :
    (sort_slice : List PeerScore → List PeerScore) (outcomes : JobRef → RoutineIo) (limit : ℕ)
    (seen : ℕ → ℕ) (s : State)
    → IsConsistent s
    → let r = process_batch sort_slice outcomes limit seen s in
      IsRound outcomes r.0 s r.1 × All (HasWaited s) r.0 × (length r.0 ≤ limit)
unfolding process_batch
process_batch-IsRound sort_slice outcomes limit seen s v =
    let (a, le) = process_pending_jobs_cases limit seen s v in
    let r = process_pending_jobs limit seen s in
    let e =
      execute_each-IsRound sort_slice outcomes (calculate_redistribution_quota limit) r.0 0 r.1
        a.consistent (AreHandedOut-Issued s r.1 r.0 a) a.once in
    (
      record {
        consistent = e.consistent;
        others = λ k n. e.others k n ∙ ground (arith, a.phases k, n);
        ends = e.ends;
      },
      a.waited,
      le,
    )
