-- ===== src/Models.antt =====
-- internal/models/models.go: what a payload in the log stands for.
use not_ahivemind.Base.{ℕ, Bool, ◌||◌, List, [], ◌∷◌, Text}
use not_ahivemind.Base.Int.{ℤ, pos, eq_ℤ}

pub data Status : Type 0 where
  pending running completed failed : Status

-- The numbers that `iota` gives.
unfoldable pub status_code : Status → ℕ
status_code pending = 0
status_code running = 1
status_code completed = 2
status_code failed = 3

-- `Completed` or `Failed`, of a number as JSON has it.
unfoldable pub is_terminal : ℤ → Bool
unfolding status_code
is_terminal state =
    eq_ℤ state (pos (status_code completed)) || eq_ℤ state (pos (status_code failed))

pub record JobPayload : Type 0 where
  pub id : Text
  pub state : Status
  pub image : Text
  pub priority : ℤ
  pub cpu_requirement : ℤ
  pub memory_requirement : ℤ
  pub payload : List ℕ

pub data SchedulerEvent : Type 0 where
  online offline heartbeat_failed redistributed_jobs : SchedulerEvent

-- Its entry is the name of an event.
pub record SchedulerPayload : Type 0 where
  pub id : Text
  pub origin_scheduler_id : Text
  pub entry : Text
  pub timestamp : ℤ

-- The names that String gives: "Online", "Offline", "HeartbeatFailed" and "RedistributedJobs".
unfoldable pub event_name : SchedulerEvent → Text
event_name online = 79 ∷ 110 ∷ 108 ∷ 105 ∷ 110 ∷ 101 ∷ []
event_name offline = 79 ∷ 102 ∷ 102 ∷ 108 ∷ 105 ∷ 110 ∷ 101 ∷ []
event_name heartbeat_failed =
    72 ∷ 101 ∷ 97 ∷ 114 ∷ 116 ∷ 98 ∷ 101 ∷ 97 ∷ 116 ∷ 70 ∷ 97 ∷ 105 ∷ 108 ∷ 101 ∷ 100 ∷ []
event_name redistributed_jobs =
    82 ∷ 101 ∷ 100 ∷ 105 ∷ 115 ∷ 116 ∷ 114 ∷ 105 ∷ 98 ∷ 117 ∷ 116 ∷ 101 ∷ 100 ∷ 74 ∷ 111 ∷ 98 ∷ 115
    ∷ []

-- "Pending", "Running", "Completed" and "Failed".
unfoldable pub status_name : Status → Text
status_name pending = 80 ∷ 101 ∷ 110 ∷ 100 ∷ 105 ∷ 110 ∷ 103 ∷ []
status_name running = 82 ∷ 117 ∷ 110 ∷ 110 ∷ 105 ∷ 110 ∷ 103 ∷ []
status_name completed = 67 ∷ 111 ∷ 109 ∷ 112 ∷ 108 ∷ 101 ∷ 116 ∷ 101 ∷ 100 ∷ []
status_name failed = 70 ∷ 97 ∷ 105 ∷ 108 ∷ 101 ∷ 100 ∷ []
