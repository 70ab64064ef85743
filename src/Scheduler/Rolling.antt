-- ===== src/Scheduler/Rolling.antt =====
-- The jobs of one cluster, which reallocateDeadClusterJobs unassigns one after another.
use not_ahivemind.Base.{
  ◌≡◌, inl, inr, refl, Bool, true, false, ◌&&◌, some, List, [], ◌∷◌, arith, if◌then◌else◌, All,
  Bool-cases, Option-cases, Text, text_eq, text_eq_iff, text_eq_refl, has, lookup, has-remove,
}
use not_ahivemind.Scheduler.State.{
  JobRef, Names, State, unassign_job, is_placed, jobs_placed, jobs_in_cluster,
}
use not_ahivemind.Scheduler.Lifecycle.{waiting, phase, IsConsistent}
use not_ahivemind.Scheduler.Adding.{unassign_job-phase, unassign_job-IsConsistent}
use not_ahivemind.Scheduler.Schedule.{unassign_all}
use not_ahivemind.Scheduler.Clearing.{listed}

abbrev pub placed_at : Text → Text → State → Bool
placed_at cluster k s = is_placed cluster (lookup k s.jobs) s

-- The job is known, and not completed.
pub record IsOpen (s : State) (id : Text) : Type 0 where
  pub known : (job : JobRef) × (lookup id s.jobs ≡ some job)
  pub open_job : has id s.completed_jobs ≡ false

-- The jobs that are listed wait, the others stand as before, and none is placed where it was not.
pub record AreRolled (ids : List Text) (s t : State) : Type 0 where
  pub consistent : IsConsistent t
  pub phases : (k : Text) → phase t k ≡ (if listed k ids then waiting else phase s k)
  pub places :
      (cluster k : Text)
      → text_eq cluster [] ≡ false
      → placed_at cluster k t ≡ true
      → placed_at cluster k s ≡ true

module _ (id : Text) (job : JobRef) (s : State) (v : IsConsistent s)
    (known : lookup id s.jobs ≡ some job) (open_job : has id s.completed_jobs ≡ false) where
  unassign-places :
      (cluster k : Text)
      → text_eq cluster [] ≡ false
      → placed_at cluster k (unassign_job id s) ≡ true
      → placed_at cluster k s ≡ true
  unfolding unassign_job is_placed
  unassign-places cluster k ne h = elim (Option-cases (lookup k s.jobs)) [
    | inl o ↦ absurd (ground (arith, known, open_job, o))
    | inr (j, o) ↦
        ground (arith, known, open_job, o, text_eq_iff cluster [], text_eq_iff [] cluster)
  ]

  unassign-IsOpen : (k : Text) → IsOpen s k → IsOpen (unassign_job id s) k
  unfolding unassign_job
  unassign-IsOpen k o = record {
    known = (o.known.0, ground (arith, known, open_job, o.known.1));
    open_job = ground (arith, known, open_job, o.open_job, has-remove id k s.completed_jobs);
  }

  All-unassign-IsOpen :
      (ids : List Text) → All (IsOpen s) ids → All (IsOpen (unassign_job id s)) ids
  All-unassign-IsOpen [] h = tt
  All-unassign-IsOpen (k ∷ ids) (o, h) = (unassign-IsOpen k o, All-unassign-IsOpen ids h)

unassign_all-AreRolled :
    (ids : List Text) (s : State)
    → IsConsistent s
    → All (IsOpen s) ids
    → AreRolled ids s (unassign_all ids s)
unfolding unassign_all
unassign_all-AreRolled [] s v h = record {
  consistent = v;
  phases = λ k. refl;
  places = λ c k ne p. p;
}
unassign_all-AreRolled (id ∷ ids) s v (o, h) =
    let (job, known) = o.known in
    let t = unassign_job id s in
    let rest =
      unassign_all-AreRolled ids t (unassign_job-IsConsistent id job s v known o.open_job)
        (All-unassign-IsOpen id job s v known o.open_job ids h) in
    record {
      consistent = rest.consistent;
      phases = λ k. ground (arith, rest.phases k, unassign_job-phase id job s v known o.open_job k);
      places =
          λ c k ne p. unassign-places id job s v known o.open_job c k ne (rest.places c k ne p);
    }

module _ (cluster : Text) (s : State) where
  listed-jobs_placed :
      (names : Names) (k : Text)
      → listed k (jobs_placed cluster names s) ≡ (has k names && placed_at cluster k s)
  unfolding jobs_placed lookup
  listed-jobs_placed [] k = refl
  listed-jobs_placed ((id, u) ∷ names) k =
      ground (arith, listed-jobs_placed names k, text_eq_iff id k)

  All-jobs_placed :
      (names : Names)
      → ((k : Text) → has k names ≡ true → IsOpen s k)
      → All (IsOpen s) (jobs_placed cluster names s)
  unfolding jobs_placed lookup
  All-jobs_placed [] h = tt
  All-jobs_placed ((id, u) ∷ names) h =
      let rest = All-jobs_placed names (λ k m. h k (ground (arith, m))) in
      elim (Bool-cases (placed_at cluster id s)) [
        | inl p ↦ rw p (h id (ground (arith, text_eq_refl id)), rest)
        | inr p ↦ rw p rest
      ]

  pub listed-jobs_in_cluster :
      (k : Text)
      → listed k (jobs_in_cluster cluster s) ≡ (has k s.assigned_jobs && placed_at cluster k s)
  unfolding jobs_in_cluster
  listed-jobs_in_cluster k = listed-jobs_placed s.assigned_jobs k

  assigned-IsOpen : IsConsistent s → (k : Text) → has k s.assigned_jobs ≡ true → IsOpen s k
  assigned-IsOpen v k a = elim (Option-cases (lookup k s.jobs)) [
    | inl o ↦ absurd (ground (arith, v.assigned k a, o))
    | inr (job, o) ↦ record { known = (job, o); open_job = ground (arith, v.assigned k a, o) }
  ]

  abbrev pub rolled : State
  rolled = unassign_all (jobs_in_cluster cluster s) s

  pub cluster-AreRolled : IsConsistent s → AreRolled (jobs_in_cluster cluster s) s rolled
  unfolding jobs_in_cluster
  cluster-AreRolled v =
      unassign_all-AreRolled (jobs_in_cluster cluster s) s v
        (All-jobs_placed s.assigned_jobs (assigned-IsOpen v))
