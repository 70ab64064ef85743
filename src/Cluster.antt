-- ===== src/Cluster.antt =====
-- A cluster node: internal/cluster.
pub mod Jobs
pub mod Dispatch
pub mod Container
pub mod Pool
pub mod Health
pub mod Upkeep
pub mod Losses
pub mod Sweeping
pub mod Leaks
pub mod Watching
pub mod Collecting
pub mod Streaming
pub mod Packing
pub mod Service
pub mod Search
pub mod Readiness
pub mod Rebuilding
pub mod Assigning
pub mod Finishing
pub mod Samples
mod Trials
mod Checkups
