-- ===== src/Agent.antt =====
-- The deployment shell of the agent (satdeploy-agent/src).
pub mod Disk
pub mod Backups
pub mod Dtp
pub mod Deploy
pub mod Upload
pub mod Rollback
pub mod Query
pub mod Handler
pub mod Runs
mod Tests
pub mod Metadata
