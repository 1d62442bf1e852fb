-- ===== src/Control/Plan.antt =====
-- MotionPlan of control/src/control_core.hpp, and the records of requests and reports of
-- control/include/openarm_control.h.
use open_arm_ik.Shared.{ℕ, Bool, List}
use open_arm_ik.Control.Codes.{Status, EventKind, StopCause}
use open_arm_ik.Control.Config.{Both}

pub record MotionPlan (D : Type 0) : Type 0 where
  pub kind : ℕ
  pub active_arm_mask : ℕ
  pub manifest_revision : ℕ
  pub model_revision : ℕ
  pub collision_scene_revision : ℕ
  pub controller_instance : ℕ
  pub verify_epoch : ℕ
  pub seed_seq : Both ℕ
  pub expiry_ns : ℕ
  pub duration_ns : ℕ
  pub start_q : Both (List D)
  pub target_q : Both (List D)
  pub joint_position_tolerance : Both D
  pub joint_velocity_tolerance : Both D
  pub tcp_tolerance : Both D
  pub target_tcp : Both (List D)
  pub achieved_tcp : Both (List D)
  pub tcp_residual : Both D
  pub collision_checked : Bool
  pub contact_monitored : Bool
  pub contact_geometry_policy : ℕ
  pub contact_persistence_cycles : ℕ
  pub contact_threshold_nm : Both (List D)
  pub waypoint_count : ℕ
  pub waypoint_q : Both (List (List D))
  pub waypoint_time_ns : List ℕ

-- oa_joint_move.
pub record JointMove (D : Type 0) : Type 0 where
  pub expiry_ns : ℕ
  pub required_feedback_seq : ℕ
  pub side : ℕ
  pub joint : ℕ
  pub target_rad : D
  pub velocity_scale : D
  pub acceleration_scale : D
  pub jerk_scale : D
  pub position_tol_rad : D
  pub velocity_tol_rad_s : D

-- oa_execute_request.
pub record ExecuteRequest : Type 0 where
  pub start_ns : ℕ
  pub expiry_ns : ℕ
  pub producer_deadline_ns : ℕ
  pub stop_kind : ℕ

-- oa_event.
pub record Event : Type 0 where
  pub kind : EventKind
  pub lifecycle : ℕ
  pub t_ns : ℕ
  pub command_id : ℕ
  pub feedback_seq : ℕ
  pub cause : Status

-- oa_verify_report.
pub record VerifyReport : Type 0 where
  pub verify_epoch : ℕ
  pub verified_mask : ℕ
  pub failure_mask : ℕ

-- oa_arm_challenge.
pub record Challenge : Type 0 where
  pub verify_epoch : ℕ
  pub nonce : ℕ
  pub expiry_ns : ℕ

-- oa_reset_request.
pub record ResetRequest : Type 0 where
  pub verify_epoch : ℕ
  pub nonce : ℕ

-- oa_sim_fault.
pub record SimFault : Type 0 where
  pub side : ℕ
  pub freeze_mask : ℕ
  pub drop_mask : ℕ
  pub fault_mask : ℕ
  pub fault_status : ℕ
  pub command_fail_mask : ℕ
  pub feedback_delay_ns : ℕ

-- oa_sim_contact.
pub record SimContact (D : Type 0) : Type 0 where
  pub side : ℕ
  pub enabled : ℕ
  pub center_m : D × D × D
  pub radius_m : D
  pub reaction_gain_nm_per_rad : D

-- oa_sim_state.
pub record SimState (D : Type 0) : Type 0 where
  pub side : ℕ
  pub q : List D
  pub dq : List D

-- oa_contact_report.
pub record ContactReport (D : Type 0) : Type 0 where
  pub struct_size : ℕ
  pub abi_version : ℕ
  pub cause : StopCause
  pub contact_detected : ℕ
  pub contact_side_mask : ℕ
  pub contact_joint_mask : Both ℕ
  pub keepout_violation : ℕ
  pub keepout_side : ℕ
  pub keepout_segment_a : ℕ
  pub keepout_segment_b : ℕ
  pub stop_feedback_seq : Both ℕ
  pub stop_monotonic_ns : ℕ
  pub contact_torque_nm : Both (List D)
  pub threshold_torque_nm : Both (List D)
  pub stopped_q_rad : Both (List D)
  pub stopped_tcp_m : Both (List D)
  pub minimum_clearance_m : D
