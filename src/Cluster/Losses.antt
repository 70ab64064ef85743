-- ===== src/Cluster/Losses.antt =====
-- RunHealthRule: what becomes of the jobs of the containers that are judged.
use mathlib.Core.List.{append-nil, append_assoc}
use not_ahivemind.Base.{
  ℕ, ◌≡◌, ◌⊎◌, refl, ◌∙◌, ap, Bool, true, false, not, ◌||◌, ◌&&◌, Option, none, some, List, [], ◌∷◌,
  ◌++◌, arith, if◌then◌else◌, Text, text_eq, text_eq_iff, All, All-append, Map, lookup,
  lookup-remove, Bool-cases, inl, inr,
}
use not_ahivemind.Cluster.Jobs.{Job, Jobs, mark_completed, pending_jobs}
use not_ahivemind.Cluster.Container.{Container, Removal, is_running_state}
use not_ahivemind.Cluster.Pool.{Pool}
use not_ahivemind.Cluster.Health.{condemn}

-- A job as it is sent when it has failed.
abbrev pub failure : Job → Job
failure job = record job { payload = []; succeeded = false }

abbrev pub Among : Job → List Job → Type 0
Among job [] = ⊥
Among job (other ∷ jobs) = (job ≡ other) ⊎ Among job jobs

Among-right : (job : Job) (xs ys : List Job) → Among job ys → Among job (xs ++ ys)
Among-right job [] ys h = h
Among-right job (x ∷ xs) ys h = inr (Among-right job xs ys h)

abbrev failures : Option Job → List Job
failures none = []
failures (some job) = failure job ∷ []

abbrev pub IsFailed : Job → Type 0
IsFailed job = (job.succeeded ≡ false) × (job.payload ≡ [])

failures-IsFailed : (b : Bool) (o : Option Job) → All IsFailed (if b then failures o else [])
failures-IsFailed false o = tt
failures-IsFailed true none = tt
failures-IsFailed true (some job) = ((refl, refl), tt)

module _ (io : Removal) (now : ℕ) (c : Container) (j : Jobs) where
  pub condemn-pending : pending_jobs (condemn io now c j).1 ≡ pending_jobs j
  unfolding condemn mark_completed pending_jobs
  condemn-pending = ground arith

  condemn-active :
      (id : Text)
      → lookup id (condemn io now c j).1.active ≡ (
          if is_running_state c.state && text_eq c.assigned_job_id id
          then none
          else lookup id j.active)
  unfolding condemn mark_completed
  condemn-active id =
      ground (arith, lookup-remove c.assigned_job_id id j.active, text_eq_iff c.assigned_job_id id)

  condemn-queue : (condemn io now c j).1.pending ≡ j.pending
  unfolding condemn mark_completed
  condemn-queue = ground arith

-- A container that is judged runs the job.
unfoldable pub lost : (Container → Bool) → Text → Pool → Bool
lost d id [] = false
lost d id (c ∷ cs) =
    d c && (is_running_state c.state && text_eq c.assigned_job_id id) || lost d id cs

module _ (d : Container → Bool) (io : Container → Removal) (now : ℕ) where
  unfoldable pub losses : Pool → Jobs → Jobs
  losses [] j = j
  losses (c ∷ cs) j = losses cs (if d c then (condemn (io c) now c j).1 else j)

  pub losses-active :
      (id : Text) (cs : Pool) (j : Jobs)
      → lookup id (losses cs j).active ≡ (if lost d id cs then none else lookup id j.active)
  unfolding losses lost
  losses-active id [] j = refl
  losses-active id (c ∷ cs) j = ground (
    arith,
    losses-active id cs (if d c then (condemn (io c) now c j).1 else j),
    condemn-active (io c) now c j id,
  )

  pub losses-pending : (cs : Pool) (j : Jobs) → (losses cs j).pending ≡ j.pending
  unfolding losses
  losses-pending [] j = refl
  losses-pending (c ∷ cs) j = ground (
    arith,
    losses-pending cs (if d c then (condemn (io c) now c j).1 else j),
    condemn-queue (io c) now c j,
  )

  sent_one : Container → Jobs → List Job
  sent_one c j =
      if d c && is_running_state c.state then failures (lookup c.assigned_job_id j.active) else []

  pub sent : Pool → Jobs → List Job
  sent [] j = []
  sent (c ∷ cs) j = sent_one c j ++ sent cs (if d c then (condemn (io c) now c j).1 else j)

  sent_one-completed :
      (c : Container) (j : Jobs)
      → (if d c then (condemn (io c) now c j).1 else j).completed ≡ j.completed ++ sent_one c j
  unfolding sent_one condemn mark_completed
  sent_one-completed c j = ground (arith, append-nil j.completed)

  pub losses-completed : (cs : Pool) (j : Jobs) → (losses cs j).completed ≡ j.completed ++ sent cs j
  unfolding losses sent
  losses-completed [] j = simp append-nil
  losses-completed (c ∷ cs) j =
      let j' = if d c then (condemn (io c) now c j).1 else j in
      losses-completed cs j'
      ∙ ap (λ done. done ++ sent cs j') (sent_one-completed c j)
      ∙ append_assoc j.completed (sent_one c j) (sent cs j')

  pub sent-IsFailed : (cs : Pool) (j : Jobs) → All IsFailed (sent cs j)
  unfolding sent sent_one
  sent-IsFailed [] j = tt
  sent-IsFailed (c ∷ cs) j =
      All-append IsFailed (sent_one c j) _
        (failures-IsFailed (d c && is_running_state c.state) (lookup c.assigned_job_id j.active))
        (sent-IsFailed cs (if d c then (condemn (io c) now c j).1 else j))

  sent_one-lost :
      (id : Text) (job : Job) (c : Container) (j : Jobs)
      → (d c && (is_running_state c.state && text_eq c.assigned_job_id id)) ≡ true
      → lookup id j.active ≡ some job
      → sent_one c j ≡ failure job ∷ []
  unfolding sent_one
  sent_one-lost id job c j own e =
      let same : c.assigned_job_id ≡ id = ground (arith, text_eq_iff c.assigned_job_id id) in
      let held : lookup c.assigned_job_id j.active ≡ some job = rw same e in ground arith

  pub sent-Among :
      (id : Text) (job : Job) (cs : Pool) (j : Jobs)
      → lost d id cs ≡ true
      → lookup id j.active ≡ some job
      → Among (failure job) (sent cs j)
  unfolding sent lost
  sent-Among id job [] j l e = cc
  sent-Among id job (c ∷ cs) j l e =
      elim (Bool-cases (d c && (is_running_state c.state && text_eq c.assigned_job_id id))) [
        | inl own ↦ rw (sent_one-lost id job c j own e) (inl refl)
        | inr other ↦
            let j' = if d c then (condemn (io c) now c j).1 else j in
            Among-right (failure job) (sent_one c j) (sent cs j') (
              sent-Among id job cs j' (ground arith)
                (ground (arith, condemn-active (io c) now c j id)))
      ]

-- The jobs of the judged containers that run one, as they were in `active`, failed and in the order of
-- the pool: each at the first of its containers, where `before` holds those already passed.
unfoldable pub lost_jobs : (Container → Bool) → Map Job → Pool → Pool → List Job
lost_jobs d active before [] = []
lost_jobs d active before (c ∷ cs) =
    (if d c && (is_running_state c.state && not (lost d c.assigned_job_id before))
      then failures (lookup c.assigned_job_id active)
      else [])
    ++ lost_jobs d active (c ∷ before) cs

pub none_passed :
    (d : Container → Bool) (id : Text) (j : Jobs)
    → lookup id j.active ≡ (if lost d id [] then none else lookup id j.active)
unfolding lost
none_passed d id j = refl

module _ (d : Container → Bool) (io : Container → Removal) (now : ℕ) (active : Map Job) where
  -- What is left active once the containers of `before` are done.
  abbrev Leaves : Pool → Jobs → Type 0
  Leaves before j =
      (id : Text) → lookup id j.active ≡ (if lost d id before then none else lookup id active)

  Leaves-next :
      (c : Container) (before : Pool) (j : Jobs)
      → Leaves before j
      → Leaves (c ∷ before) (if d c then (condemn (io c) now c j).1 else j)
  unfolding lost
  Leaves-next c before j v id = ground (arith, v id, condemn-active (io c) now c j id)

  sent_one-lost_jobs :
      (c : Container) (before : Pool) (j : Jobs)
      → Leaves before j
      → sent_one d io now c j ≡ (
          if d c && (is_running_state c.state && not (lost d c.assigned_job_id before))
          then failures (lookup c.assigned_job_id active)
          else [])
  unfolding sent_one
  sent_one-lost_jobs c before j v = ground (arith, v c.assigned_job_id)

  pub sent-lost_jobs :
      (before cs : Pool) (j : Jobs)
      → Leaves before j
      → sent d io now cs j ≡ lost_jobs d active before cs
  unfolding sent lost_jobs
  sent-lost_jobs before [] j v = refl
  sent-lost_jobs before (c ∷ cs) j v =
      rw
        (
          sent_one-lost_jobs c before j v,
          sent-lost_jobs (c ∷ before) cs (if d c then (condemn (io c) now c j).1 else j)
              (Leaves-next c before j v),
        )
        refl
