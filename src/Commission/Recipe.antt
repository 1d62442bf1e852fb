-- ===== src/Commission/Recipe.antt =====
-- RecipeCalibrationSession of commission/src/calibration_session.cpp, the calibration of a joint
-- against a stop: its records, its checks, its phases and its methods.
pub mod Records
pub mod Guards
pub mod Phases
pub mod Session
pub mod Motion
pub mod Interlocks
pub mod Steps
pub mod FailSafe
pub mod History
pub mod Candidate
pub mod Patches
pub mod Ended
