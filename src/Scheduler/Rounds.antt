-- ===== src/Scheduler/Rounds.antt =====
-- The turns of processPendingJobs: which jobs they hand out.
use not_ahivemind.Base.{
  ℕ, zero, suc, ◌≤◌, ◌≡◌, inl, inr, refl, sym, ap, ◌∙◌, Bool, false, ◌||◌, Option, none, some, List,
  [], ◌∷◌, arith, if◌then◌else◌, length, All, Text, text_eq, text_eq_iff, lookup,
}
use not_ahivemind.Base.Int.{ℤ}
use not_ahivemind.Scheduler.State.{JobRef, State, next_pending_job}
use not_ahivemind.Scheduler.Externs.{use_cluster, soft_update_cluster}
use not_ahivemind.Scheduler.Lifecycle.{waiting, active, phase, IsConsistent}
use not_ahivemind.Scheduler.SameTables.{SameTables, SameTables-phase, SameTables-IsConsistent}
use not_ahivemind.Scheduler.Issuing.{IsGiven, next_pending_job_cases}
use not_ahivemind.Scheduler.Packer.{place_job, reserve_cluster, search_limits, pack_turns}

place_job-SameTables :
    (job : JobRef) (i : ℕ) (clusters : List ℕ) (limits : ℤ × ℤ) (s : State)
    → SameTables s (place_job job i clusters limits s).2
unfolding place_job reserve_cluster use_cluster soft_update_cluster
place_job-SameTables job i clusters limits s = record {
  jobs = ground arith;
  queue = ground arith;
  assigned = ground arith;
  completed = ground arith;
}

abbrev pub named : Text → List (JobRef × Text) → Bool
named k [] = false
named k ((job, target) ∷ jobs) = text_eq job.id k || named k jobs

-- No ID is handed out twice.
abbrev pub Once : List (JobRef × Text) → Type 0
Once [] = Unit {0}
Once ((job, target) ∷ jobs) = (named job.id jobs ≡ false) × Once jobs

-- The job was in the table and waited.
abbrev pub HasWaited : State → JobRef × Text → Type 0
HasWaited s (job, target) = (lookup job.id s.jobs ≡ some job) × (phase s job.id ≡ waiting)

pub record AreHandedOut (s : State) (jobs : List (JobRef × Text)) (t : State) : Type 0 where
  pub consistent : IsConsistent t
  pub same_jobs : t.jobs ≡ s.jobs
  pub phases : (k : Text) → phase t k ≡ (if named k jobs then active else phase s k)
  pub waited : All (HasWaited s) jobs
  pub once : Once jobs

-- Jobs that waited after a job was given are other jobs, and waited before.
All-waited :
    (job : JobRef) (s t : State) (jobs : List (JobRef × Text))
    → IsGiven job s t
    → All (HasWaited t) jobs
    → All (HasWaited s) jobs × (named job.id jobs ≡ false)
All-waited job s t [] g h = (tt, refl)
All-waited job s t ((j, target) ∷ jobs) g ((known, w), h) =
    let (all, other) = All-waited job s t jobs g h in
    let ne : text_eq job.id j.id ≡ false = ground (arith, g.phases j.id, w) in
    (
      ((ap (lookup j.id) (sym g.jobs) ∙ known, ground (arith, g.phases j.id, ne, w)), all),
      ground (arith, other, ne, text_eq_iff j.id job.id, text_eq_iff job.id j.id),
    )

All-SameTables :
    (s t : State) (jobs : List (JobRef × Text))
    → SameTables s t
    → All (HasWaited t) jobs
    → All (HasWaited s) jobs
All-SameTables s t [] e h = tt
All-SameTables s t ((j, target) ∷ jobs) e ((known, w), h) = (
  (ap (lookup j.id) (sym e.jobs) ∙ known, sym (SameTables-phase s t e j.id) ∙ w),
  All-SameTables s t jobs e h,
)

module _ (job : JobRef) (target : Text) (s t u w : State) (jobs : List (JobRef × Text)) where
  cons-AreHandedOut :
      IsGiven job s t
      → SameTables t u
      → AreHandedOut u jobs w
      → AreHandedOut s ((job, target) ∷ jobs) w
  cons-AreHandedOut g e a =
      let (all, other) = All-waited job s t jobs g (All-SameTables t u jobs e a.waited) in
      record {
        consistent = a.consistent;
        same_jobs = a.same_jobs ∙ e.jobs ∙ g.jobs;
        phases = λ k. ground (arith, a.phases k, SameTables-phase t u e k, g.phases k);
        waited = ((g.known, g.waited), all);
        once = (other, a.once);
      }

module _ (i : ℕ) (seen : ℕ → ℕ) (quota : ℕ) (clusters : List ℕ) (limits : ℤ × ℤ) (turns : ℕ)
    (s : State) where
  abbrev given : Option JobRef × State
  given =
      next_pending_job (search_limits (seen i) quota limits).0
        (search_limits (seen i) quota limits).1 s

  pack_turns_stop :
      given.0 ≡ none → pack_turns (suc turns) i seen quota clusters limits s ≡ ([], given.1)
  unfolding pack_turns
  pack_turns_stop o = rw (pack_turns, o)

  pack_turns_go :
      (job : JobRef)
      → given.0 ≡ some job
      → let placed = place_job job i clusters limits given.1 in
        let rest = pack_turns turns (suc i) seen quota clusters placed.1 placed.2 in
        pack_turns (suc turns) i seen quota clusters limits s ≡ ((job, placed.0) ∷ rest.0, rest.1)
  unfolding pack_turns
  pack_turns_go job o = rw (pack_turns, o)

-- The turns hand out jobs of the table that waited, none of them twice and no more than there are
-- turns; these and no others change their phase, to active, and the tables stay consistent.
pub pack_turns-AreHandedOut :
    (turns i : ℕ) (seen : ℕ → ℕ) (quota : ℕ) (clusters : List ℕ) (limits : ℤ × ℤ) (s : State)
    → IsConsistent s
    → AreHandedOut s
        (pack_turns turns i seen quota clusters limits s).0
        (pack_turns turns i seen quota clusters limits s).1
      × (length (pack_turns turns i seen quota clusters limits s).0 ≤ turns)
unfolding pack_turns
pack_turns-AreHandedOut zero i seen quota clusters limits s v = (
  record { consistent = v; same_jobs = refl; phases = λ k. refl; waited = tt; once = tt },
  omega arith,
)
pack_turns-AreHandedOut (suc turns) i seen quota clusters limits s v =
    elim (next_pending_job_cases (search_limits (seen i) quota limits).0
      (search_limits (seen i) quota limits).1 s v) [
        | inr (o, idle) ↦ rw (pack_turns_stop i seen quota clusters limits turns s o) (
          record {
            consistent = idle.consistent;
            same_jobs = idle.jobs;
            phases = idle.phases;
            waited = tt;
            once = tt;
          },
          omega arith,
        )
        | inl (job, o, g) ↦
            let t = (given i seen quota clusters limits turns s).1 in
            let placed = place_job job i clusters limits t in
            let e = place_job-SameTables job i clusters limits t in
            let (a, le) =
              pack_turns-AreHandedOut turns (suc i) seen quota clusters placed.1 placed.2
                (SameTables-IsConsistent t placed.2 e g.consistent) in
            rw (pack_turns_go i seen quota clusters limits turns s job o)
              (cons-AreHandedOut job placed.0 s t placed.2 _ _ g e a, omega (arith, le))
      ]
