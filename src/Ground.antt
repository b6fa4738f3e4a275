-- ===== src/Ground.antt =====
-- The commands of the ground station (satdeploy-apm/src/satdeploy_apm.c).
pub mod Args
pub mod AppName
pub mod Push
pub mod Pass
pub mod Commands
mod Tests
