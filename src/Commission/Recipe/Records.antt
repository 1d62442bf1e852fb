-- ===== src/Commission/Recipe/Records.antt =====
-- The records of a recipe session: commission/include/openarm_commission.h and the members of
-- RecipeCalibrationSession in commission/src/calibration_session.hpp.
use open_arm_ik.Shared.{ℕ, ℤ, Bool, List}
use open_arm_ik.Commission.Records.{Status, Sample}

-- OA_RECIPE_PRECHECK to OA_RECIPE_ABORT.
pub data RecipeState : Type 0 where
  precheck wait approach contact_dwell retreat reapproach repeatability : RecipeState
  candidate review committed aborted : RecipeState

-- OA_RECIPE_ACTION_NONE to OA_RECIPE_ACTION_ABORT_DISABLE.
pub data ActionKind : Type 0 where
  no_action hold_disabled to_approach to_contact_dwell to_retreat to_reapproach : ActionKind
  ask_review commit_ready abort_disable : ActionKind

-- OA_ABORT_NONE to OA_ABORT_UNQUALIFIED.
pub data AbortReason : Type 0 where
  no_reason by_caller bad_sample stale interlock over_limit timeout lost_contact : AbortReason
  not_repeatable review_rejected unqualified : AbortReason

pub record Recipe (D : Type 0) : Type 0 where
  pub recipe_kind : ℕ
  pub side : ℕ
  pub joint : ℕ
  pub known_sign : ℤ
  pub hardware_qualified : ℕ
  pub simulation_only : ℕ
  pub minimum_contact_samples : ℕ
  pub expected_revision : ℕ
  pub qualification_revision : ℕ
  pub simulation_evidence_revision : ℕ
  pub fixture_revision : ℕ
  pub maximum_sample_age_ns : ℕ
  pub maximum_approach_time_ns : ℕ
  pub contact_dwell_ns : ℕ
  pub maximum_retreat_time_ns : ℕ
  pub stop_model_rad : D
  pub approach_direction : D
  pub start_min_output_rad : D
  pub start_max_output_rad : D
  pub maximum_speed_rad_s : D
  pub minimum_contact_travel_rad : D
  pub maximum_approach_travel_rad : D
  pub contact_velocity_rad_s : D
  pub minimum_contact_torque_nm : D
  pub maximum_torque_nm : D
  pub maximum_contact_energy_j : D
  pub maximum_temperature_c : D
  pub retreat_distance_rad : D
  pub repeatability_tolerance_rad : D
  pub required_posture_mask : ℕ
  pub required_posture_output_rad : List D
  pub posture_tolerance_rad : D
  pub motor_serial : List ℕ
  pub qualification_record : List ℕ
  pub simulation_evidence_record : List ℕ
  pub fixture_record : List ℕ

pub record Input (D : Type 0) : Type 0 where
  pub struct_size : ℕ
  pub abi_version : ℕ
  pub now_ns : ℕ
  pub encoder : Sample D
  pub estop_clear : ℕ
  pub deadman_held : ℕ
  pub operator_ready : ℕ
  pub action_complete : ℕ
  pub review_decision : ℕ
  pub posture_mask : ℕ
  pub evidence_revision : ℕ
  pub fixture_revision : ℕ
  pub posture_output_rad : List D

pub record NextAction (D : Type 0) : Type 0 where
  pub kind : ActionKind
  pub state : RecipeState
  pub valid_until_ns : ℕ
  pub direction : D
  pub target_output_rad : D
  pub maximum_speed_rad_s : D
  pub maximum_travel_rad : D
  pub maximum_torque_nm : D
  pub maximum_temperature_c : D

pub record RecipeReport (D : Type 0) : Type 0 where
  pub state : RecipeState
  pub abort_reason : AbortReason
  pub last_feedback_seq : ℕ
  pub first_stop_output_rad : D
  pub second_stop_output_rad : D
  pub candidate_a : D
  pub candidate_b_rad : D
  pub accumulated_contact_energy_j : D

pub record RecipeSession (D : Type 0) : Type 0 where
  pub recipe : Recipe D
  pub state : RecipeState
  pub abort_reason : AbortReason
  pub last_feedback_seq : ℕ
  pub last_sample_time_ns : ℕ
  pub phase_start_ns : ℕ
  pub phase_deadline_ns : ℕ
  pub dwell_start_ns : ℕ
  pub last_energy_time_ns : ℕ
  pub contact_samples : ℕ
  pub phase_start_q : D
  pub envelope_start_q : D
  pub envelope_end_q : D
  pub contact_sum_q : D
  pub first_stop_q : D
  pub second_stop_q : D
  pub candidate_a : D
  pub candidate_b : D
  pub contact_energy_j : D
  pub second_contact_active : Bool

-- What a call of step leaves: its status, the action it writes and the session.
pub record Step (D : Type 0) : Type 0 where
  pub status : Status
  pub action : NextAction D
  pub next : RecipeSession D
