-- ===== src/Scheduler.antt =====
-- A scheduler: internal/scheduler.
pub mod State
pub mod Retention
pub mod Externs
pub mod Peers
pub mod Queues
pub mod Lifecycle
pub mod SameTables
pub mod Adding
pub mod Removing
pub mod Issuing
pub mod Refinement
pub mod Runs
pub mod Packer
pub mod Schedule
pub mod Settling
pub mod Execution
pub mod Rounds
pub mod Batch
pub mod Choice
pub mod Messages
pub mod RaftClient
pub mod Handler
pub mod Clearing
pub mod Rolling
pub mod Stranding
pub mod Reallocation
pub mod Ticks
pub mod Capacity
pub mod Wire
pub mod Faults
pub mod Admission
pub mod Coordinate
pub mod Handover
pub mod Streams
pub mod Results
pub mod Samples
mod Trials
mod Rehearsals
