-- ===== src/Storage.antt =====
-- The consensus log on disk: internal/consensus/filesystem.
pub mod Codec
pub mod Handler
pub mod Writer
pub mod Reader
pub mod Compact
pub mod Snapshot
pub mod Load
pub mod Valid
pub mod Recovery
pub mod Truncation
pub mod Rotation
pub mod Install
pub mod Queries
pub mod Samples
mod Answers
