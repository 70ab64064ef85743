-- ===== src/Cluster/Dispatch.antt =====
-- What the job queue promises: the job that NextBestJob starts, and how an active job ends.
use not_ahivemind.Base.{
  ℕ, ◌≡◌, ◌⊎◌, refl, sym, ap, ◌∙◌, inl, inr, Bool, true, false, Option, none, some, List, [], ◌∷◌,
  ◌++◌, arith, Text, text_eq_refl, Option-cases, Bool-cases, lookup, insert, remove, lookup-insert,
  lookup-remove,
}
use not_ahivemind.Base.Int.{ℤ, ltb_ℤ}
use not_ahivemind.Arbiter.Queue.{Queue, fits, push, pop_best_fit, pop_best_fit_heuristic}
use not_ahivemind.Arbiter.Packing.{IsQueue, push-IsQueue}
use not_ahivemind.Arbiter.BestFit.{suits, pop_best_fit_heuristic-some}
use not_ahivemind.Arbiter.Reachable.{pop-IsQueue, pop_best_fit-heuristic}
use not_ahivemind.Cluster.Jobs.{
  Job, job_accessors, Jobs, mark_completed, packing_in_progress, start_job, choose_job, is_free,
  next_best_job,
}

module _ (a b : Job) (j : Jobs) where
  choose_highest :
      ltb_ℤ a.priority b.priority ≡ true
      → choose_job (some a) (some b) j
        ≡ start_job b (record j { pending = push job_accessors a j.pending })
  unfolding choose_job
  choose_highest h = ground arith

  choose_homogenous :
      ltb_ℤ a.priority b.priority ≡ false
      → choose_job (some a) (some b) j
        ≡ start_job a (record j { pending = push job_accessors b j.pending })
  unfolding choose_job
  choose_homogenous h = ground arith

abbrev started_of : Option Job × Jobs → Option Job
started_of r = r.0

-- Which job is given, of one that has a free container of its image and one that need not have it, each
-- if there is any: the second exactly where its priority is higher. The other is pending again.
abbrev pub IsChosen : Option Job → Option Job → Queue Job → Job → Queue Job → Type 0
IsChosen none none q given after = ⊥
IsChosen (some homogenous) none q given after = (given ≡ homogenous) × (after ≡ q)
IsChosen none (some highest) q given after = (given ≡ highest) × (after ≡ q)
IsChosen (some homogenous) (some highest) q given after =
    ((ltb_ℤ homogenous.priority highest.priority ≡ true)
      × (given ≡ highest)
      × (after ≡ push job_accessors homogenous q)
      × (lookup homogenous.id after.items ≡ some homogenous))
    ⊎ ((ltb_ℤ homogenous.priority highest.priority ≡ false)
        × (given ≡ homogenous)
        × (after ≡ push job_accessors highest q)
        × (lookup highest.id after.items ≡ some highest))

-- The job given is the one chosen, with the mark of packing; it is the one job more that is active, and
-- no job is completed.
abbrev pub Gives : Option Job → Option Job → Queue Job → Jobs → Job → Jobs → Type 0
Gives homogenous highest q j started after =
    (after.active ≡ insert started.id started j.active)
    × (after.completed ≡ j.completed)
    × ((job : Job) × (started ≡ record job { assigned_container_id = packing_in_progress })
        × IsChosen homogenous highest q job after.pending)

pushed : (job : Job) (q : Queue Job) → lookup job.id (push job_accessors job q).items ≡ some job
unfolding push
pushed job q = ground (arith, lookup-insert job.id job.id job q.items, text_eq_refl job.id)

started_job :
    (job started : Job) (j : Jobs)
    → (start_job job j).0 ≡ some started
    → ((start_job job j).1.active ≡ insert started.id started j.active)
      × ((start_job job j).1.completed ≡ j.completed)
      × ((start_job job j).1.pending ≡ j.pending)
      × (started ≡ record job { assigned_container_id = packing_in_progress })
unfolding start_job
started_job job started j e = ground (arith, e)

choose_job-Gives :
    (homogenous highest : Option Job) (j : Jobs) (started : Job)
    → (choose_job homogenous highest j).0 ≡ some started
    → Gives homogenous highest j.pending j started (choose_job homogenous highest j).1
unfolding choose_job
choose_job-Gives none none j started e = absurd (ground arith)
choose_job-Gives (some a) none j started e =
    let (active, completed, pending, marked) = started_job a started j e in
    (active, completed, (a, marked, (refl, pending)))
choose_job-Gives none (some b) j started e =
    let (active, completed, pending, marked) = started_job b started j e in
    (active, completed, (b, marked, (refl, pending)))
choose_job-Gives (some a) (some b) j started e = elim (Bool-cases (ltb_ℤ a.priority b.priority)) [
  | inl h ↦ rw (choose_highest a b j h) (
      let (active, completed, pending, marked) =
        started_job b started (record j { pending = push job_accessors a j.pending })
          (ap started_of (sym (choose_highest a b j h)) ∙ e) in
      (active, completed, (b, marked, inl (h, refl, pending, rw pending (pushed a j.pending)))))
  | inr h ↦ rw (choose_homogenous a b j h) (
      let (active, completed, pending, marked) =
        started_job a started (record j { pending = push job_accessors b j.pending })
          (ap started_of (sym (choose_homogenous a b j h)) ∙ e) in
      (active, completed, (a, marked, inr (h, refl, pending, rw pending (pushed b j.pending)))))
]

module _ (free_cpus free_mem : ℤ) where
  -- A job that was popped, if any, fits.
  abbrev DoesFit : Option Job → Type 0
  DoesFit none = Unit
  DoesFit (some job) = fits job_accessors free_cpus free_mem job ≡ true

  -- The job fits, is active under its ID and marked, and the pending queue is well-formed.
  pub record IsStarted (job : Job) (after : Jobs) : Type 0 where
    pub fitting : fits job_accessors free_cpus free_mem job ≡ true
    pub active : lookup job.id after.active ≡ some job
    pub marked : job.assigned_container_id ≡ packing_in_progress
    pub pending : IsQueue job_accessors after.pending

  start_job-IsStarted :
      (job started : Job) (j : Jobs)
      → IsQueue job_accessors j.pending
      → DoesFit (some job)
      → (start_job job j).0 ≡ some started
      → IsStarted started (start_job job j).1
  unfolding start_job fits
  start_job-IsStarted job started j v fit e = record {
    fitting = ground (arith, fit, e);
    active = ground (
      arith,
      e,
      text_eq_refl job.id,
      lookup-insert job.id job.id (record job { assigned_container_id = packing_in_progress })
          j.active,
    );
    marked = ground (arith, e);
    pending = v;
  }

  choose_job-IsStarted :
      (homogenous highest : Option Job) (j : Jobs) (started : Job)
      → IsQueue job_accessors j.pending
      → DoesFit homogenous
      → DoesFit highest
      → (choose_job homogenous highest j).0 ≡ some started
      → IsStarted started (choose_job homogenous highest j).1
  unfolding choose_job
  choose_job-IsStarted none none j started v fit fit' e = absurd (ground arith)
  choose_job-IsStarted (some a) none j started v fit fit' e =
      start_job-IsStarted a started j v fit e
  choose_job-IsStarted none (some b) j started v fit fit' e =
      start_job-IsStarted b started j v fit' e
  choose_job-IsStarted (some a) (some b) j started v fit fit' e =
      elim (Bool-cases (ltb_ℤ a.priority b.priority)) [
        | inl h ↦ rw (choose_highest a b j h) (
            start_job-IsStarted b started (record j { pending = push job_accessors a j.pending })
              (push-IsQueue job_accessors a j.pending v) fit'
              (ap started_of (sym (choose_highest a b j h)) ∙ e))
        | inr h ↦ rw (choose_homogenous a b j h) (
            start_job-IsStarted a started (record j { pending = push job_accessors b j.pending })
              (push-IsQueue job_accessors b j.pending v) fit
              (ap started_of (sym (choose_homogenous a b j h)) ∙ e))
      ]

  popped-DoesFit :
      (heuristic : Job → Bool) (q : Queue Job)
      → IsQueue job_accessors q
      → DoesFit (pop_best_fit_heuristic job_accessors free_cpus free_mem heuristic q).0
  popped-DoesFit heuristic q v =
      elim (Option-cases (pop_best_fit_heuristic job_accessors free_cpus free_mem heuristic q).0) [
        | inl o ↦ rw o tt
        | inr (item, o) ↦ rw o (
            passes item
              (pop_best_fit_heuristic-some job_accessors free_cpus free_mem heuristic q _ item v (
                ap
                  (λ x.
                    (x, (pop_best_fit_heuristic job_accessors free_cpus free_mem heuristic q).1))
                  o)).0.passes)
      ]
    where
      passes :
          (item : Job)
          → suits job_accessors free_cpus free_mem heuristic item ≡ true
          → fits job_accessors free_cpus free_mem item ≡ true
      passes item h = ground arith

  -- A job that NextBestJob gives from a well-formed queue fits the free processors and memory, bears the
  -- mark of a job being packed, is the one job more that is active, and leaves the pending queue
  -- well-formed. It is the best fit that has a free container of its image, or the best fit of those then
  -- left where there is no such job or where its priority is higher; where both were popped the other is
  -- pending again, and else the queue is what the pops left.
  pub next_best_job-IsStarted :
      (free_names : List Text) (j : Jobs) (started : Job)
      → IsQueue job_accessors j.pending
      → (next_best_job free_names free_cpus free_mem j).0 ≡ some started
      → let (homogenous, q) =
          pop_best_fit_heuristic job_accessors free_cpus free_mem
            (λ job. is_free free_names job.image.alias)
            j.pending in
        let (highest, q') = pop_best_fit job_accessors free_cpus free_mem q in
        let after = (next_best_job free_names free_cpus free_mem j).1 in
        IsStarted started after × Gives homogenous highest q' j started after
  unfolding next_best_job
  next_best_job-IsStarted free_names j started v e = (
    choose_job-IsStarted _ _ _ started
        (rw (pop_best_fit-heuristic job_accessors free_cpus free_mem q)
          (pop-IsQueue job_accessors free_cpus free_mem (λ x. true) q w))
        (popped-DoesFit (λ job. is_free free_names job.image.alias) j.pending v)
        (rw (pop_best_fit-heuristic job_accessors free_cpus free_mem q)
          (popped-DoesFit (λ x. true) q w))
        e,
    choose_job-Gives _ _
        (record j { pending = (pop_best_fit job_accessors free_cpus free_mem q).1 }) started e,
  )
    where
      q : Queue Job
      q =
          (pop_best_fit_heuristic job_accessors free_cpus free_mem
            (λ job. is_free free_names job.image.alias) j.pending).1

      w : IsQueue job_accessors q
      w =
          pop-IsQueue job_accessors free_cpus free_mem (λ job. is_free free_names job.image.alias)
            j.pending v

module _ (id : Text) (payload : List ℕ) (success : Bool) (j : Jobs) where
  -- MarkCompleted of an active job sends it once, with its result, takes it and no other from the active
  -- jobs, and leaves the pending ones; of any other job it is an error that changes nothing. A second
  -- call for the job is such an error.
  mark_completed_cases :
      ((job : Job) × (lookup id j.active ≡ some job)
        × ((mark_completed id payload success j).0.completed
            ≡ j.completed ++ record job { payload = payload; succeeded = success } ∷ [])
        × ((mark_completed id payload success j).0.pending ≡ j.pending)
        × ((mark_completed id payload success j).0.active ≡ remove id j.active)
        × ((mark_completed id payload success j).1 ≡ false)
        × ((mark_completed id payload success (mark_completed id payload success j).0).1 ≡ true))
      ⊎ ((lookup id j.active ≡ none) × (mark_completed id payload success j ≡ (j, true)))
  unfolding mark_completed
  mark_completed_cases = elim (Option-cases (lookup id j.active)) [
    | inl o ↦ inr (o, ground (arith, o))
    | inr (job, o) ↦ inl (
      job,
      o,
      ground (arith, o),
      ground (arith, o),
      ground (arith, o),
      ground (arith, o),
      ground (arith, o, lookup-remove id id j.active, text_eq_refl id),
    )
  ]
