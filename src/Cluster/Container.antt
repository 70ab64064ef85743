-- ===== src/Cluster/Container.antt =====
-- internal/cluster/container: container.go and container_state.go. What Docker and the file system do
-- is an argument of each operation. Times are nanoseconds. The arguments, the volumes and the log of a
-- container are handed on to Docker only, and are left out.
use not_ahivemind.Base.{
  ℕ, ◌+◌, Bool, true, false, not, ◌&&◌, ◌||◌, Option, none, some, List, [], ◌∷◌, ◌++◌, ◌==◌, ltb,
  if◌then◌else◌, Text,
}
use not_ahivemind.Base.Int.{ℤ, pos, ltb_ℤ}
use not_ahivemind.Cluster.Jobs.{Image}

pub data ContainerState : Type 0 where
  reserved running free : ContainerState

-- `results_closed` says whether the channel of results was closed.
pub record Container : Type 0 where
  pub id : Text
  pub image : Image
  pub docker_id : Text
  pub local_port : Text
  pub payload_location : Text
  pub results_closed : Bool
  pub total_jobs : ℕ
  pub state : ContainerState
  pub last_state_change : ℕ
  pub assigned_job_id : Text

-- An operation returns, with or without an error, or it panics.
pub data Ended : Type 0 where
  fine failed panicked : Ended

abbrev pub is_empty_id : Text → Bool
is_empty_id [] = true
is_empty_id (c ∷ cs) = false

-- "localhost:".
abbrev pub localhost : Text
localhost = 108 ∷ 111 ∷ 99 ∷ 97 ∷ 108 ∷ 104 ∷ 111 ∷ 115 ∷ 116 ∷ 58 ∷ []

unfoldable pub has_colon : Text → Bool
has_colon [] = false
has_colon (c ∷ cs) = c == 58 || has_colon cs

unfoldable pub normalize_http_port : Text → Text
unfolding has_colon
normalize_http_port [] = []
normalize_http_port (c ∷ cs) = if has_colon (c ∷ cs) then c ∷ cs else localhost ++ c ∷ cs

unfoldable pub new_container : Text → Image → Text → Text → ℕ → Container
unfolding normalize_http_port
new_container id image payload_location port now = record {
  id = id;
  image = image;
  docker_id = [];
  local_port = normalize_http_port port;
  payload_location = payload_location;
  results_closed = false;
  total_jobs = 0;
  state = reserved;
  last_state_change = now;
  assigned_job_id = [];
}

-- How Init ends: a directory is not made, Docker makes no container, or the container's ID.
pub data Creation : Type 0 where
  no_directory no_container : Creation
  created : Text → Creation

unfoldable pub init_new : Creation → ℕ → Container → Container × Ended
init_new no_directory now c = (c, failed)
init_new no_container now c = (c, failed)
init_new (created docker_id) now c =
    (record c { docker_id = docker_id; state = reserved; last_state_change = now }, fine)

unfoldable pub init : Creation → ℕ → Container → Container × Ended
unfolding init_new
init creation now c = if is_empty_id c.docker_id then init_new creation now c else (c, failed)

-- Whether Docker removes the container, and whether its directory is removed.
pub record Removal : Type 0 where
  pub removes_container : Bool
  pub removes_directory : Bool

unfoldable pub close_results : Bool → Container → Container × Ended
close_results removes_directory c =
    if c.results_closed
    then (record c { docker_id = [] }, panicked)
    else if removes_directory
    then (record c { docker_id = []; results_closed = true; payload_location = [] }, fine)
    else (record c { docker_id = []; results_closed = true }, failed)

unfoldable pub delete : Removal → Container → Container × Ended
unfolding close_results
delete io c =
    if is_empty_id c.docker_id
    then (c, failed)
    else if io.removes_container
    then close_results io.removes_directory c
    else (c, failed)

-- What the container is set to before Cleanup waits and deletes it.
unfoldable pub mark_cleanup : ℕ → Container → Container
mark_cleanup now c = record c { state = reserved; last_state_change = now }

unfoldable pub cleanup : Removal → ℕ → Container → Container × Ended
unfolding mark_cleanup delete
cleanup io now c = delete io (mark_cleanup now c)

unfoldable pub rebuild_deleted : Creation → ℕ → Container × Ended → Container × Ended
unfolding init
rebuild_deleted creation now (c, fine) = init creation now c
rebuild_deleted creation now (c, failed) = (c, failed)
rebuild_deleted creation now (c, panicked) = (c, panicked)

-- Rebuild, under a new ID.
unfoldable pub rebuild : Removal → Creation → Text → Text → ℕ → Container → Container × Ended
unfolding rebuild_deleted delete normalize_http_port
rebuild io creation new_id new_port now c =
    if is_empty_id c.docker_id
    then (c, failed)
    else rebuild_deleted creation now
        (delete io (record c { id = new_id; local_port = normalize_http_port new_port }))

unfoldable pub stop : Bool → ℤ → Container → Ended
stop stops timeout c =
    if is_empty_id c.docker_id || (ltb_ℤ timeout (pos 0) || not stops) then failed else fine

abbrev pub is_free_state : ContainerState → Bool
is_free_state free = true
is_free_state _ = false

abbrev pub is_running_state : ContainerState → Bool
is_running_state running = true
is_running_state _ = false

unfoldable pub reserve : Container → Container × Bool
reserve c = if is_free_state c.state then (record c { state = reserved }, true) else (c, false)

unfoldable pub release : Container → Container
release c = record c { state = free }

-- AssignJob; `writes` says whether the payload's file is written. `true` is an error.
unfoldable pub assign_payload : Bool → Text → ℕ → Container → Container × Bool
assign_payload writes job_id now c =
    if is_empty_id c.docker_id || (is_running_state c.state || not writes) then (c, true) else (
      record c {
        state = running;
        assigned_job_id = job_id;
        total_jobs = c.total_jobs + 1;
        last_state_change = now;
      },
      false,
    )

unfoldable pub free_job : ℕ → Container → Container × Bool
free_job now c =
    if is_empty_id c.docker_id
    then (c, true)
    else (record c { state = free; assigned_job_id = []; last_state_change = now }, false)

-- What ContainerInspect says of a container.
pub data HealthStatus : Type 0 where
  healthy starting unhealthy no_health other_health : HealthStatus

pub record Inspection : Type 0 where
  pub is_running : Bool
  pub health : Option HealthStatus

health_code : HealthStatus → Option ℕ
health_code healthy = some 0
health_code starting = some 1
health_code unhealthy = some 2
health_code no_health = some 3
health_code other_health = none

health_of : Inspection → Option ℕ
unfolding health_code
health_of i =
    if not i.is_running then some 3 else elim i.health [ none ↦ none | some h ↦ health_code h ]

-- Health; `none` is an error.
unfoldable pub health : Option Inspection → Container → Option ℕ
unfolding health_of
health inspection c =
    if is_empty_id c.docker_id then none else elim inspection [ none ↦ none | some i ↦ health_of i ]

-- Running: whether it gives `true` and no error.
unfoldable pub is_up : Option Inspection → Container → Bool
is_up inspection c =
    if is_empty_id c.docker_id
    then false
    else elim inspection [ none ↦ false | some i ↦ i.is_running ]

abbrev pub is_healthy : Option HealthStatus → Bool
is_healthy none = true
is_healthy (some healthy) = true
is_healthy (some starting) = false
is_healthy (some unhealthy) = false
is_healthy (some no_health) = false
is_healthy (some other_health) = false

-- One poll of WaitUntilReady, at a time: the result, or another poll.
unfoldable pub poll_ready : ℕ → ℕ × Option Inspection → Option Ended
poll_ready deadline (now, none) = some failed
poll_ready deadline (now, some i) =
    if i.is_running && is_healthy i.health
    then some fine
    else if ltb deadline now
    then some failed
    else none

-- WaitUntilReady over the polls; `none` where it still waits.
unfoldable pub wait_until_ready : ℕ → List (ℕ × Option Inspection) → Option Ended
unfolding poll_ready
wait_until_ready deadline [] = none
wait_until_ready deadline (p ∷ ps) =
    let rest = wait_until_ready deadline ps in
    elim (poll_ready deadline p) [ none ↦ rest | some r ↦ some r ]
