-- ===== src/Settings/Machine.antt =====
-- The packages config of internal/cluster, internal/consensus and internal/scheduler.
use not_ahivemind.Base.{Option, none, some, List, [], ◌∷◌, Text}
use not_ahivemind.Base.Int.{ℤ}
use not_ahivemind.Cluster.Jobs.{Image}
use not_ahivemind.Settings.Loader.{Visit, Source, import_file, import_directory}

-- Limits.
pub record Limits : Type 0 where
  pub max_nano_cpu_limit : ℤ
  pub max_memory_bytes_limit : ℤ

-- Machine, as its own file gives it and with what is imported beside it.
pub record Machine : Type 0 where
  pub machine_name : Text
  pub machine_description : Text
  pub scheduler_port : Text
  pub log_directory : Text
  pub log_verbosity : ℤ
  pub job_payload_dir : Text
  pub limits : Option Limits
  pub images : List Image

-- "example".
abbrev pub example : Text
example = 101 ∷ 120 ∷ 97 ∷ 109 ∷ 112 ∷ 108 ∷ 101 ∷ []

with_images : Machine → Option (List Image) → Option Machine
with_images m none = none
with_images m (some images) = some (record m { images = images })

with_limits : Source Image → List Visit → Machine → Option Limits → Option Machine
unfolding with_images
with_limits images visits m none = none
with_limits images visits m (some limits) =
    with_images (record m { limits = some limits }) (import_directory images (example ∷ []) visits)

with_machine : Source Limits → Text → Source Image → List Visit → Option Machine → Option Machine
unfolding with_limits
with_machine limits limits_file images visits none = none
with_machine limits limits_file images visits (some m) =
    with_limits images visits m (import_file limits limits_file)

-- ImportEnvironment of a cluster node.
unfoldable pub import_environment :
    Source Machine → Source Limits → Source Image → Text → Text → List Visit → Option Machine
unfolding with_machine
import_environment machine limits images config limits_file visits =
    with_machine limits limits_file images visits (import_file machine config)

-- PeerNodeConfig and NodeConfig of a consensus node.
pub record PeerNodeConfig : Type 0 where
  pub node_id : Text
  pub node_address : Text

pub record NodeConfig : Type 0 where
  pub node_id : Text
  pub node_port : Text
  pub node_address : Text
  pub consensus_log_directory : Text
  pub log_directory : Text
  pub log_verbosity : ℤ
  pub log_output_to_std_err : Text
  pub peers : List PeerNodeConfig

-- PeerConfig and SchedulerConfig of a scheduler.
pub record PeerConfig : Type 0 where
  pub peer_id : Text
  pub peer_port : Text

pub record SchedulerConfig : Type 0 where
  pub scheduler_id : Text
  pub scheduler_port : Text
  pub log_directory : Text
  pub peer_schedulers : List PeerConfig
  pub clusters : List PeerConfig
  pub raft_ports : List Text

-- ImportEnvironment of a consensus node.
unfoldable pub import_node : Source NodeConfig → Text → Option NodeConfig
import_node src config = import_file src config

-- ImportEnvironment of a scheduler.
unfoldable pub import_scheduler : Source SchedulerConfig → Text → Option SchedulerConfig
import_scheduler src config = import_file src config
