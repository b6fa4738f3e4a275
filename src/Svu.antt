-- ===== src/Svu.antt =====
-- The Self-Verifying Uploader (satdeploy-agent/svu, of which satdeploy-apm/svu holds a copy).
pub mod Wire
pub mod Tracker
pub mod Serve
pub mod Session
pub mod Exchange
pub mod Recovery
pub mod Sidecar
pub mod Transfer
mod Tests
pub mod Runs
