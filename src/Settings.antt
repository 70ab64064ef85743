-- ===== src/Settings.antt =====
-- The configuration: internal/environment/env_loader.go and the packages config of the three programs.
-- The file system and the JSON decoder are arguments.
pub mod Loader
pub mod Machine
pub mod Importing
