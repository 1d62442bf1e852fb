-- ===== src/Can.antt =====
-- can/src/openarm_can.c: the frames of the motor protocol that the transport recognises.
pub mod Frame
pub mod Binary32
pub mod Registers
pub mod Builders
