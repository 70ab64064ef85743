-- ===== src/Files.antt =====
-- internal/filehandler: files of lines, groups of files, and the writer of the containers' logs.
pub mod File
pub mod Group
pub mod Logger
pub mod Logging
pub mod Draining
pub mod Losing
pub mod Lines
mod Samples
