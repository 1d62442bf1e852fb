-- ===== src/Transport.antt =====
-- transport/: the guarded sending of frames to the motors. Frames are classified by what they
-- would do; those that change a motor's state need a single-use authority.
pub mod Status
pub mod Classify
pub mod Backend
pub mod Grants
pub mod Core
pub mod Random
pub mod Issue
pub mod Run
pub mod Api
mod Tests
