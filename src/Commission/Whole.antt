-- ===== src/Commission/Whole.antt =====
-- A sample, for the tests of the sessions.
use open_arm_ik.Shared.{ℕ, ℤ, pos}
use open_arm_ik.Commission.Records.{Sample}

abbrev pub sample_at : ℕ → ℕ → Sample ℤ
sample_at seq time = record {
  struct_size = 72;
  abi_version = 1;
  feedback_seq = seq;
  sample_time_ns = time;
  q_output_rad = pos 3;
  dq_output_rad_s = pos 0;
  torque_output_nm = pos 0;
  mos_temperature_c = pos 30;
  coil_temperature_c = pos 30;
  drive_enabled = 0;
  drive_fault = 0;
}
