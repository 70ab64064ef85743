-- ===== src/Cluster/Finishing.antt =====
-- The end of a packed job: the result has come to the routine that PackNextJob started.
use not_ahivemind.Base.{
  ℕ, ◌≡◌, refl, true, false, none, some, List, [], ◌∷◌, ◌++◌, arith, Text, text_eq_refl, lookup,
  lookup-remove,
}
use not_ahivemind.Cluster.Jobs.{Job, mark_completed}
use not_ahivemind.Cluster.Container.{free, is_empty_id, free_job}
use not_ahivemind.Cluster.Pool.{find}
use not_ahivemind.Cluster.Packing.{Node, freed, finish_job}
use not_ahivemind.Cluster.Assigning.{IsRunning, find_id, find-replace}

module _ (now : ℕ) (j : Job) (container_id : Text) (payload : List ℕ) (n : Node)
    (r : IsRunning j container_id n) where
  freed_container :
      is_empty_id r.container.docker_id ≡ false
      → find container_id (freed now container_id (some r.container) n.pool)
        ≡ some (record r.container { state = free; assigned_job_id = []; last_state_change = now })
  unfolding freed free_job
  freed_container e = rw e (
      find-replace container_id n.pool r.container
        (record r.container { state = free; assigned_job_id = []; last_state_change = now }) r.held
        (find_id container_id n.pool r.container r.held))

  finished_active : lookup j.id (mark_completed j.id payload true n.jobs).0.active ≡ none
  unfolding mark_completed
  finished_active =
      ground (arith, r.active, text_eq_refl j.id, lookup-remove j.id j.id n.jobs.active)

  finished_completed :
      (mark_completed j.id payload true n.jobs).0.completed
      ≡ n.jobs.completed
        ++ record j { assigned_container_id = container_id; payload = payload; succeeded = true }
          ∷ []
  unfolding mark_completed
  finished_completed = ground (arith, r.active)

  finish_job_once :
      j.image.persistent ≡ false
      → finish_job now j container_id payload n ≡ record n {
        pool = freed now container_id (some r.container) n.pool;
        jobs = (mark_completed j.id payload true n.jobs).0;
      }
  unfolding finish_job
  finish_job_once once = rw (finish_job, once, r.held) refl

  -- When the result of a job comes that runs in its container and is not of a persistent image, the job
  -- is no longer active, is sent once as completed with that result, and its container is free.
  pub finish_job_lem :
      j.image.persistent ≡ false
      → is_empty_id r.container.docker_id ≡ false
      → let after = finish_job now j container_id payload n in
        (lookup j.id after.jobs.active ≡ none)
        × (after.jobs.completed
            ≡ n.jobs.completed
              ++ record j {
                assigned_container_id = container_id;
                payload = payload;
                succeeded = true;
              }
                ∷ [])
        × (find container_id after.pool
            ≡ some (record r.container {
              state = free;
              assigned_job_id = [];
              last_state_change = now;
            }))
  finish_job_lem once e =
      rw (finish_job_once once) (finished_active, finished_completed, freed_container e)
