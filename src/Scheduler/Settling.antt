-- ===== src/Scheduler/Settling.antt =====
-- What becomes of a job that was issued: executeJobAssignment.
use not_ahivemind.Base.{
  ◌≡◌, ◌≢◌, ◌⊎◌, refl, ap, ◌∙◌, inl, inr, false, some, List, [], ◌∷◌, ◌++◌, arith, All, Text,
  text_eq, text_eq_refl, has, lookup, lookup-remove,
}
use not_ahivemind.Scheduler.State.{JobRef, State, assign_job, unassign_job, purge_job}
use not_ahivemind.Scheduler.Lifecycle.{absent, waiting, active, phase, IsConsistent}
use not_ahivemind.Scheduler.Adding.{unassign_job-phase, unassign_job-IsConsistent}
use not_ahivemind.Scheduler.Removing.{
  assign_job-phase, assign_job-IsConsistent, purge_job-phase, purge_job-IsConsistent,
}
use not_ahivemind.Scheduler.Packer.{committed, taken, unconnected, rejected, accepted, RoutineIo}

-- An issued job is in the table under its ID, and is active.
pub record IsIssued (job : JobRef) (s : State) : Type 0 where
  pub known : lookup job.id s.jobs ≡ some job
  pub running : phase s job.id ≡ active

-- The call changes the phase of no other job, nor its place in the table, and the tables stay
-- consistent.
pub record Frames (job : JobRef) (s t : State) : Type 0 where
  pub consistent : IsConsistent t
  pub others : (k : Text) → text_eq job.id k ≡ false → phase t k ≡ phase s k
  pub kept : (k : Text) → text_eq job.id k ≡ false → lookup k t.jobs ≡ lookup k s.jobs

abbrev pub placed_on : JobRef → State → Text
placed_on job s = (s.job_cells job.address).assigned_cluster_id

-- Why a job is put back: it had a target, and the commit failed or the cluster did not take it; or it
-- had none, and every peer that was asked rejected it.
abbrev pub IsRefused : RoutineIo → List Text → Text → Type 0
IsRefused io asked target =
    ((target ≢ []) × ((io.commit ≢ committed) ⊎ (io.dispatch ≢ taken)))
    ⊎ ((target ≡ []) × All (λ peer. io.offers peer ≡ rejected) asked)

-- The peer is one of those asked, and all that were asked before it have rejected the job.
pub record IsReached (io : RoutineIo) (asked : List Text) (peer : Text) : Type 0 where
  pub before : List Text
  pub after : List Text
  pub split : asked ≡ before ++ peer ∷ after
  pub rejections : All (λ other. io.offers other ≡ rejected) before

-- The job is in the queue again and bears no cluster, since it was refused; or it runs on the target,
-- which took it after the commit; or it had no target and a peer that was reached has accepted it, and it
-- is gone; or it had no target and stays as it was since a peer that was reached has no connection.
pub data IsSettled (io : RoutineIo) (asked : List Text) (job : JobRef) (target : Text) (s t : State)
    : Type 0 where
  released :
      IsRefused io asked target
      → phase t job.id ≡ waiting
      → placed_on job t ≡ []
      → IsSettled io asked job target s t
  dispatched :
      target ≢ []
      → io.commit ≡ committed
      → io.dispatch ≡ taken
      → phase t job.id ≡ active
      → placed_on job t ≡ target
      → IsSettled io asked job target s t
  handed_over :
      (peer : Text)
      → target ≡ []
      → IsReached io asked peer
      → io.offers peer ≡ accepted
      → phase t job.id ≡ absent
      → IsSettled io asked job target s t
  in_limbo :
      (peer : Text)
      → target ≡ []
      → IsReached io asked peer
      → io.offers peer ≡ unconnected
      → t ≡ s
      → IsSettled io asked job target s t

IsReached-later :
    (io : RoutineIo) (asked : List Text) (peer first : Text)
    → io.offers first ≡ rejected
    → IsReached io asked peer
    → IsReached io (first ∷ asked) peer
IsReached-later io asked peer first o r = record {
  before = first ∷ r.before;
  after = r.after;
  split = ap (◌∷◌ first) r.split;
  rejections = (o, r.rejections);
}

-- One peer more, asked before the others, has rejected the job.
pub IsSettled-later :
    (io : RoutineIo) (asked : List Text) (job : JobRef) (target : Text) (s t : State) (peer : Text)
    → target ≡ []
    → io.offers peer ≡ rejected
    → IsSettled io asked job target s t
    → IsSettled io (peer ∷ asked) job target s t
IsSettled-later io asked job target s t peer none_given o (released (inl r) w p) =
    released (inl r) w p
IsSettled-later io asked job target s t peer none_given o (released (inr (e, r)) w p) =
    released (inr (e, (o, r))) w p
IsSettled-later io asked job target s t peer none_given o (dispatched given c d a p) =
    dispatched given c d a p
IsSettled-later io asked job target s t peer none_given o (handed_over other e r acc gone) =
    handed_over other e (IsReached-later io asked other peer o r) acc gone
IsSettled-later io asked job target s t peer none_given o (in_limbo other e r un same) =
    in_limbo other e (IsReached-later io asked other peer o r) un same

module _ (job : JobRef) (s : State) (v : IsConsistent s) (i : IsIssued job s) where
  not_completed : has job.id s.completed_jobs ≡ false
  not_completed = ground (arith, i.running, v.completed job.id)

  pub unassign-Frames : Frames job s (unassign_job job.id s)
  unassign-Frames = record {
    consistent = unassign_job-IsConsistent job.id job s v i.known not_completed;
    others = λ k ne. ground (arith, unassign_job-phase job.id job s v i.known not_completed k);
    kept = λ k ne. unfold unassign_job in ground (arith, i.known, not_completed);
  }

  unassign-waiting : phase (unassign_job job.id s) job.id ≡ waiting
  unassign-waiting =
      ground
        (arith, unassign_job-phase job.id job s v i.known not_completed job.id, text_eq_refl job.id)

  unassign-placed : placed_on job (unassign_job job.id s) ≡ []
  unfolding unassign_job
  unassign-placed = ground (arith, i.known, not_completed)

  pub unassign-IsSettled :
      (io : RoutineIo) (asked : List Text) (target : Text) (r : State)
      → IsRefused io asked target
      → IsSettled io asked job target r (unassign_job job.id s)
  unassign-IsSettled io asked target r why = released why unassign-waiting unassign-placed

  pub purge-Frames : Frames job s (purge_job job.id s)
  purge-Frames = record {
    consistent = purge_job-IsConsistent job.id job s v i.known;
    others = λ k ne. ground (arith, purge_job-phase job.id job s v i.known k);
    kept = λ k ne. unfold purge_job in ground (arith, i.known, lookup-remove job.id k s.jobs);
  }

  pub purge-absent : phase (purge_job job.id s) job.id ≡ absent
  purge-absent = ground (arith, purge_job-phase job.id job s v i.known job.id, text_eq_refl job.id)

  module _ (cluster : Text) where
    pub assign-Frames : Frames job s (assign_job job.id cluster s).0
    assign-Frames = record {
      consistent = assign_job-IsConsistent job.id cluster job s v i.known i.running;
      others = λ k ne. ground (arith, assign_job-phase job.id cluster job s v i.known i.running k);
      kept = λ k ne. unfold assign_job in ground (arith, i.known);
    }

    pub assign-IsIssued : IsIssued job (assign_job job.id cluster s).0
    assign-IsIssued = record {
      known = unfold assign_job in ground (arith, i.known);
      running = ground (
        arith,
        assign_job-phase job.id cluster job s v i.known i.running job.id,
        text_eq_refl job.id,
      );
    }

    pub assign-placed : placed_on job (assign_job job.id cluster s).0 ≡ cluster
    unfolding assign_job
    assign-placed = ground (arith, i.known)

    pub assign-ok : (assign_job job.id cluster s).1 ≡ false
    unfolding assign_job
    assign-ok = ground (arith, i.known)

pub Frames-trans : (job : JobRef) (s t u : State) → Frames job s t → Frames job t u → Frames job s u
Frames-trans job s t u f g = record {
  consistent = g.consistent;
  others = λ k ne. g.others k ne ∙ f.others k ne;
  kept = λ k ne. g.kept k ne ∙ f.kept k ne;
}

pub Frames-refl : (job : JobRef) (s : State) → IsConsistent s → Frames job s s
Frames-refl job s v = record { consistent = v; others = λ k ne. refl; kept = λ k ne. refl }

-- What a call for an issued job does.
abbrev pub Settles : RoutineIo → List Text → JobRef → Text → State → State → Type 0
Settles io asked job target s t = Frames job s t × IsSettled io asked job target s t
