-- ===== src/Arbiter.antt =====
-- internal/arbiter/packer.go: the packing queue.
pub mod Queue
pub mod Sorting
pub mod Packing
pub mod First
pub mod BestFit
pub mod Reachable
pub mod Tidy
pub mod Once
mod Samples
