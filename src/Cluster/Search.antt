-- ===== src/Cluster/Search.antt =====
-- FindFreeContainer, and a job that PackNextJob leaves behind.
use not_ahivemind.Base.{
  ◌≡◌, refl, ap, ◌∙◌, Bool, true, false, not, ◌&&◌, ◌||◌, Option, some, [], ◌∷◌, arith,
  if◌then◌else◌, Text, text_eq, lookup,
}
use not_ahivemind.Base.Int.{ℤ, ◌-ℤ◌}
use not_ahivemind.Arbiter.Packing.{IsQueue}
use not_ahivemind.Cluster.Jobs.{
  Job, job_accessors, Jobs, next_best_job, active_utilization, packing_in_progress,
}
use not_ahivemind.Cluster.Dispatch.{IsStarted, next_best_job-IsStarted}
use not_ahivemind.Cluster.Container.{Container, Inspection, is_up, is_free_state}
use not_ahivemind.Cluster.Pool.{
  Pool, Found, image_not_found, all_occupied, other_error, fits_image, find_free_loop,
  find_free_container, available_image_names,
}
use not_ahivemind.Cluster.Packing.{Node, PackIo, pack_error, pack_found, pack_chosen, pack_next_job}

-- Whether one of the containers passes.
abbrev pub any : (Container → Bool) → Pool → Bool
any p [] = false
any p (c ∷ cs) = p c || any p cs

module _ (inspect : Container → Option Inspection) (name : Text) where
  -- A running container of the image, and a running container that is free.
  abbrev pub has_image : Container → Bool
  has_image c = is_up (inspect c) c && text_eq c.image.alias name

  abbrev pub is_idle : Container → Bool
  is_idle c = is_up (inspect c) c && is_free_state c.state

  abbrev pub verdict : Bool → Bool → Found
  verdict matching occupied =
      if not matching then image_not_found else if occupied then all_occupied else other_error

  verdict-step :
      (m h t o i u : Bool)
      → verdict ((m || h) || t) ((o && not i) && not u)
        ≡ verdict (m || (h || t)) (o && not (i || u))
  verdict-step true h t true true u = refl
  verdict-step true h t true false u = refl
  verdict-step true h t false i u = refl
  verdict-step false true t true true u = refl
  verdict-step false true t true false u = refl
  verdict-step false true t false i u = refl
  verdict-step false false t true true u = refl
  verdict-step false false t true false u = refl
  verdict-step false false t false i u = refl

  or_false : (a b : Bool) → (a || b) ≡ false → (a ≡ false) × (b ≡ false)
  or_false false b h = (refl, h)
  or_false true b h = absurd (ground arith)

  loop_nil :
      (matching occupied : Bool)
      → find_free_loop inspect name [] matching occupied
        ≡ ([], verdict (matching || false) (occupied && true))
  unfolding find_free_loop
  loop_nil true true = refl
  loop_nil true false = refl
  loop_nil false true = refl
  loop_nil false false = refl

  loop_skip :
      (c : Container) (cs : Pool) (matching occupied : Bool)
      → fits_image inspect name c ≡ false
      → let rest =
          find_free_loop inspect name cs (matching || has_image c) (occupied && not (is_idle c)) in
        find_free_loop inspect name (c ∷ cs) matching occupied ≡ (c ∷ rest.0, rest.1)
  unfolding find_free_loop
  loop_skip c cs matching occupied h = rw h refl

  loop_none :
      (cs : Pool) (matching occupied : Bool)
      → any (fits_image inspect name) cs ≡ false
      → find_free_loop inspect name cs matching occupied
        ≡ (cs, verdict (matching || any has_image cs) (occupied && not (any is_idle cs)))
  loop_none [] matching occupied h = loop_nil matching occupied
  loop_none (c ∷ cs) matching occupied h =
      let (miss, rest) = or_false _ _ h in
      loop_skip c cs matching occupied miss
      ∙ ap (λ r. (c ∷ r.0, r.1))
          (loop_none cs (matching || has_image c) (occupied && not (is_idle c)) rest)
      ∙ ap (λ v. (c ∷ cs, v))
          (verdict-step matching (has_image c) (any has_image cs) occupied (is_idle c)
            (any is_idle cs))

  -- The search of a pool in which no container is running, free and of the image leaves the pool as it
  -- was. It reports that the image is not there when no running container has it; else that all are
  -- occupied when no running container is free, and another error when one of another image is.
  find_free_container-none :
      (cs : Pool)
      → any (fits_image inspect name) cs ≡ false
      → find_free_container inspect name cs
        ≡ (cs, verdict (any has_image cs) (not (any is_idle cs)))
  unfolding find_free_container
  find_free_container-none cs h = loop_none cs false true h

-- The job that PackNextJob takes from the queue, and the jobs after that.
abbrev pub taken : PackIo → Node → Option Job × Jobs
taken io n =
    next_best_job (available_image_names io.inspect n.pool)
      (io.max_cpu -ℤ (active_utilization n.jobs).0) (io.max_mem -ℤ (active_utilization n.jobs).1)
      n.jobs

pack_next_job-chosen :
    (io : PackIo) (n : Node)
    → pack_next_job io n
      ≡ pack_chosen io
          (io.max_cpu -ℤ (active_utilization n.jobs).0)
          (io.max_mem -ℤ (active_utilization n.jobs).1)
          (taken io n).0
          (record n { jobs = (taken io n).1 })
unfolding pack_next_job
pack_next_job-chosen io n = refl

pack_chosen-other :
    (io : PackIo) (free_cpu free_mem : ℤ) (job : Job) (n : Node)
    → find_free_container io.inspect job.image.alias n.pool ≡ (n.pool, other_error)
    → pack_chosen io free_cpu free_mem (some job) n ≡ (n, pack_error)
unfolding pack_chosen pack_found
pack_chosen-other io free_cpu free_mem job n h = rw h refl

-- PackNextJob takes a job from a well-formed queue whose image has a running container but no free one,
-- while a running container of another image is free: it ends with an error, the pool is as it was, and
-- the job stays among the active ones, marked as a job being packed. Nothing puts it back.
pub pack_next_job_stuck :
    (io : PackIo) (n : Node) (job : Job)
    → IsQueue job_accessors n.jobs.pending
    → (taken io n).0 ≡ some job
    → any (fits_image io.inspect job.image.alias) n.pool ≡ false
    → any (has_image io.inspect job.image.alias) n.pool ≡ true
    → any (is_idle io.inspect job.image.alias) n.pool ≡ true
    → ((pack_next_job io n).1 ≡ pack_error)
      × ((pack_next_job io n).0.pool ≡ n.pool)
      × (lookup job.id (pack_next_job io n).0.jobs.active ≡ some job)
      × (job.assigned_container_id ≡ packing_in_progress)
pack_next_job_stuck io n job q e none_fits has idle = (
  ap (λ r. r.1) whole,
  ap (λ r. r.0.pool) whole,
  ap (λ r. lookup job.id r.0.jobs.active) whole ∙ s.active,
  s.marked,
)
  where
    s :
        IsStarted
          (io.max_cpu -ℤ (active_utilization n.jobs).0)
          (io.max_mem -ℤ (active_utilization n.jobs).1)
          job
          (taken io n).1
    s =
        (next_best_job-IsStarted (io.max_cpu -ℤ (active_utilization n.jobs).0)
          (io.max_mem -ℤ (active_utilization n.jobs).1) (available_image_names io.inspect n.pool)
          n.jobs job q e).0

    search_lem : find_free_container io.inspect job.image.alias n.pool ≡ (n.pool, other_error)
    search_lem =
        find_free_container-none io.inspect job.image.alias n.pool none_fits
        ∙ ap
            (λ b. (
              n.pool,
              verdict io.inspect job.image.alias b
                  (not (any (is_idle io.inspect job.image.alias) n.pool)),
            ))
            has
        ∙ ap (λ b. (n.pool, verdict io.inspect job.image.alias true (not b))) idle

    whole : pack_next_job io n ≡ (record n { jobs = (taken io n).1 }, pack_error)
    whole =
        pack_next_job-chosen io n
        ∙ ap
            (λ o.
              pack_chosen io (io.max_cpu -ℤ (active_utilization n.jobs).0)
                (io.max_mem -ℤ (active_utilization n.jobs).1) o
                (record n { jobs = (taken io n).1 }))
            e
        ∙ pack_chosen-other io _ _ job (record n { jobs = (taken io n).1 }) search_lem
