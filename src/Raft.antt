-- ===== src/Raft.antt =====
-- The consensus engine: internal/consensus/state and internal/consensus/service.
pub mod State
pub mod Node
pub mod Vote
pub mod Election
pub mod Campaign
pub mod Append
pub mod Leader
pub mod Catchup
pub mod Heartbeat
pub mod Registry
pub mod Serve
pub mod Voting
pub mod SingleVote
pub mod Following
pub mod Place
pub mod Replication
pub mod Delivery
pub mod Proposal
pub mod Transfer
pub mod Lagging
pub mod Commit
pub mod Leadership
pub mod Serving
pub mod Steps
pub mod Terms
mod Ballots
mod Samples
mod Deliveries
mod Exchanges
