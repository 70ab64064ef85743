-- ===== src/Cluster/Packing.antt =====
-- internal/cluster/scheduler/packer.go: PackNextJob and the routine that it starts.
use not_ahivemind.Base.{
  ℕ, Bool, true, false, not, ◌||◌, Option, none, some, List, if◌then◌else◌, Text,
}
use not_ahivemind.Base.Int.{ℤ, ltb_ℤ, ◌-ℤ◌}
use not_ahivemind.Cluster.Jobs.{
  Job, Jobs, mark_running, mark_completed, rollback_job, next_best_job, active_utilization,
}
use not_ahivemind.Cluster.Container.{
  Container, Creation, Inspection, release, assign_payload, free_job,
}
use not_ahivemind.Cluster.Pool.{
  Pool, find, replace, Found, found, image_not_found, all_occupied, other_error,
  available_image_names, find_free_container, add_from_image,
}

pub record Node : Type 0 where
  pub jobs : Jobs
  pub pool : Pool

-- What the environment gives to one call of PackNextJob.
pub record PackIo : Type 0 where
  pub max_cpu : ℤ
  pub max_mem : ℤ
  pub inspect : Container → Option Inspection
  pub port : Option Text
  pub new_id : Text
  pub payload_dir : Text
  pub creation : Creation
  pub now : ℕ

-- The call ends with an error, with nothing to do, or with a job and its container handed to a routine.
pub data Packed : Type 0 where
  pack_error nothing_packed : Packed
  packed : Job → Container → Packed

mark_packed : Job → Container → Node → Node × Packed
mark_packed job c n =
    let r = mark_running job.id c.id n.jobs in
    if r.1 then (n, pack_error) else (record n { jobs = r.0 }, packed job c)

pack_added : Job → Pool × Option Container → Node → Node × Packed
unfolding mark_packed
pack_added job (cs, none) n = (record n { pool = cs }, pack_error)
pack_added job (cs, some c) n = mark_packed job c (record n { pool = cs })

pack_new : PackIo → ℤ → ℤ → Job → Node → Node × Packed
unfolding pack_added
pack_new io free_cpu free_mem job n =
    if ltb_ℤ free_mem job.image.memory_bytes_limit || ltb_ℤ free_cpu job.image.nano_cpu_limit
    then (n, nothing_packed)
    else pack_added job
        (add_from_image io.port io.new_id io.payload_dir io.creation io.now job.image n.pool) n

unfoldable pub pack_found : PackIo → ℤ → ℤ → Job → Found → Node → Node × Packed
unfolding mark_packed pack_new
pack_found io free_cpu free_mem job (found c) n = mark_packed job c n
pack_found io free_cpu free_mem job image_not_found n = pack_new io free_cpu free_mem job n
pack_found io free_cpu free_mem job all_occupied n = pack_new io free_cpu free_mem job n
pack_found io free_cpu free_mem job other_error n = (n, pack_error)

unfoldable pub pack_chosen : PackIo → ℤ → ℤ → Option Job → Node → Node × Packed
unfolding pack_found
pack_chosen io free_cpu free_mem none n = (n, nothing_packed)
pack_chosen io free_cpu free_mem (some job) n =
    let r = find_free_container io.inspect job.image.alias n.pool in
    pack_found io free_cpu free_mem job r.1 (record n { pool = r.0 })

-- PackNextJob.
unfoldable pub pack_next_job : PackIo → Node → Node × Packed
unfolding pack_chosen
pack_next_job io n =
    let (used_cpu, used_mem) = active_utilization n.jobs in
    let free_cpu = io.max_cpu -ℤ used_cpu in
    let free_mem = io.max_mem -ℤ used_mem in
    let r = next_best_job (available_image_names io.inspect n.pool) free_cpu free_mem n.jobs in
    pack_chosen io free_cpu free_mem r.0 (record n { jobs = r.1 })

-- Release, through the pointer that the routine holds.
unfoldable pub release_container : Text → Node → Node
release_container id n = elim (find id n.pool) [
  | none ↦ n
  | some c ↦ record n { pool = replace id (release c) n.pool }
]

-- assignJob, up to the wait for a result. Whether the container gets ready, and whether the payload is
-- written.
unfoldable pub roll_back : Text → Node → Node
roll_back job_id n = record n { jobs = (rollback_job job_id n.jobs).0 }

unfoldable pub assign_ready : Bool → ℕ → Job → Option Container → Node → Node × Bool
unfolding roll_back
assign_ready writes now job none n = (n, false)
assign_ready writes now job (some c) n =
    let r = assign_payload writes job.id now c in
    if r.1 then (roll_back job.id n, false) else (record n { pool = replace c.id r.0 n.pool }, true)

unfoldable pub assign_job : Bool → Bool → ℕ → Job → Text → Node → Node × Bool
unfolding assign_ready roll_back release_container
assign_job ready writes now job container_id n =
    if not ready
    then (release_container container_id (roll_back job.id n), false)
    else (let r = mark_running job.id container_id n.jobs in
        if r.1
        then (release_container container_id (roll_back job.id n), false)
        else assign_ready writes now job (find container_id n.pool) (record n { jobs = r.0 }))

unfoldable pub freed : ℕ → Text → Option Container → Pool → Pool
freed now id none cs = cs
freed now id (some c) cs = replace id (free_job now c).0 cs

-- The end of the routine, once the result has come, of a job that is not persistent.
unfoldable pub finish_job : ℕ → Job → Text → List ℕ → Node → Node
unfolding freed
finish_job now job container_id payload n = if job.image.persistent then n else record n {
  pool = freed now container_id (find container_id n.pool) n.pool;
  jobs = (mark_completed job.id payload true n.jobs).0;
}
