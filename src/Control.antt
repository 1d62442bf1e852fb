-- ===== src/Control.antt =====
-- control/: the simulated arms and the controller that plans and moves them.
pub mod Codes
pub mod Ring
pub mod Config
pub mod Manifest
pub mod Motor
pub mod Arm
pub mod Plan
pub mod Controller
pub mod Run
mod Tests
mod ArmTests
mod ManifestTests
