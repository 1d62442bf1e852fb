-- ===== src/Commission.antt =====
-- commission/: the calibration sessions that find the sign and the offset of a joint.
pub mod Text
pub mod Records
pub mod Sampling
pub mod Manual
pub mod Recipe
mod Whole
mod Tests
mod RecipeTests
