-- ===== src/Cluster/Samples.antt =====
-- Runs of the job queue: the theorems about it, applied.
use not_ahivemind.Base.{◌≡◌, refl, true, false, [], ◌∷◌, text_eq, lookup, insert, remove}
use not_ahivemind.Base.Int.{pos}
use not_ahivemind.Arbiter.Queue.{
  Queue, new_queue, filter, push, less, fits, slice_stable, place_item, take_first, compacted,
  sort_and_compact, pop_best_fit, pop_best_fit_heuristic,
}
use not_ahivemind.Arbiter.Packing.{IsQueue}
use not_ahivemind.Arbiter.Reachable.{push_op, apply, run, run-IsQueue}
use not_ahivemind.Cluster.Jobs.{
  Image, Job, job_accessors, Jobs, packing_in_progress, start_job, choose_job, is_free,
  next_best_job,
}
use not_ahivemind.Cluster.Dispatch.{IsStarted, Gives, next_best_job-IsStarted}

abbrev pub small_image : Image
small_image = record {
  alias = 97 ∷ [];
  nano_cpu_limit = pos 2;
  memory_bytes_limit = pos 2;
  persistent = false;
  max_jobs = pos 10;
  timeout = pos 60;
}

abbrev pub small_job : Job
small_job = record {
  id = 1 ∷ [];
  priority = pos 3;
  image = small_image;
  payload = [];
  assigned_container_id = [];
  succeeded = false;
}

abbrev pub started_job : Job
started_job = record small_job { assigned_container_id = packing_in_progress }

abbrev queued : Queue Job
queued = record { items = (1 ∷ [], small_job) ∷ []; order = small_job ∷ []; dirty = true }

queued-run : run job_accessors (push_op small_job ∷ []) new_queue ≡ queued
unfolding run apply push lookup insert
queued-run = refl

pub queued-IsQueue : IsQueue job_accessors queued
queued-IsQueue = rw⁻¹ queued-run (run-IsQueue job_accessors (push_op small_job ∷ []))

abbrev pub one_pending : Jobs
one_pending = record { pending = queued; active = []; completed = [] }

next_best_job-IsStarted_example :
    let (homogenous, q) =
      pop_best_fit_heuristic job_accessors
        (pos 5)
        (pos 5)
        (λ job. is_free [] job.image.alias)
        one_pending.pending in
    let (highest, q') = pop_best_fit job_accessors (pos 5) (pos 5) q in
    let after = (next_best_job [] (pos 5) (pos 5) one_pending).1 in
    IsStarted (pos 5) (pos 5) started_job after
    × Gives homogenous highest q' one_pending started_job after
unfolding next_best_job choose_job start_job is_free pop_best_fit pop_best_fit_heuristic compacted
    sort_and_compact filter slice_stable place_item less take_first fits lookup remove text_eq
next_best_job-IsStarted_example =
    next_best_job-IsStarted (pos 5) (pos 5) [] one_pending started_job queued-IsQueue refl
