-- ===== src/Control/Manifest.antt =====
-- Manifest of control/src/control_core.cpp: the configuration that a controller is made with.
pub mod Motor
pub mod Load
mod Distinct
pub mod Safe
mod Passed
pub mod Accepted
mod Enough
pub mod Constructor
