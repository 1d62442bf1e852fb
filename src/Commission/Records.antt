-- ===== src/Commission/Records.antt =====
-- The records and enumerations of commission/include/openarm_commission.h.
use open_arm_ik.Shared.{ℕ, ℤ, Bool, true, false, ◌&&◌, List, leb, ◌==◌, if◌then◌else◌}

pub data Status : Type 0 where
  ok einval eabi estate estale einterlock elimit eunstable erepeatability : Status
  eunsupported enomem efault : Status

abbrev pub is_ok : Status → Bool
is_ok ok = true
is_ok _ = false

-- An array of two.
pub record Two (A : Type 0) : Type 0 where
  pub at_0 : A
  pub at_1 : A

abbrev pub get : {A : Type 0} → Two A → ℕ → A
get t i = if i == 0 then t.at_0 else t.at_1

abbrev pub set : {A : Type 0} → Two A → ℕ → A → Two A
set t i a = if i == 0 then record t { at_0 = a } else record t { at_1 = a }

pub record Sample (D : Type 0) : Type 0 where
  pub struct_size : ℕ
  pub abi_version : ℕ
  pub feedback_seq : ℕ
  pub sample_time_ns : ℕ
  pub q_output_rad : D
  pub dq_output_rad_s : D
  pub torque_output_nm : D
  pub mos_temperature_c : D
  pub coil_temperature_c : D
  pub drive_enabled : ℕ
  pub drive_fault : ℕ

pub record ManualOptions (D : Type 0) : Type 0 where
  pub struct_size : ℕ
  pub abi_version : ℕ
  pub side : ℕ
  pub joint : ℕ
  pub expected_revision : ℕ
  pub reference_count : ℕ
  pub known_sign : ℤ
  pub minimum_samples : ℕ
  pub maximum_sample_age_ns : ℕ
  pub stability_dwell_ns : ℕ
  pub reference_model_rad : Two D
  pub maximum_position_spread_rad : D
  pub maximum_abs_velocity_rad_s : D
  pub minimum_reference_separation_rad : D
  pub maximum_scale_error : D
  pub motor_serial : List ℕ

pub record ManualReport (D : Type 0) : Type 0 where
  pub state : ℕ
  pub active_reference : ℕ
  pub accepted_samples : Two ℕ
  pub mean_output_rad : Two D
  pub spread_output_rad : Two D
  pub candidate_a : D
  pub candidate_b_rad : D

pub record MappingPatch (D : Type 0) : Type 0 where
  pub expected_revision : ℕ
  pub replacement_revision : ℕ
  pub side : ℕ
  pub joint : ℕ
  pub evidence_kind : ℕ
  pub recipe_kind : ℕ
  pub qualification_revision : ℕ
  pub fixture_revision : ℕ
  pub a : D
  pub b_rad : D
  pub motor_serial : List ℕ
  pub evidence_record : List ℕ

abbrev pub abi_v1 : ℕ
abi_v1 = 1

-- valid_header of commission/src/calibration_session.cpp.
abbrev pub valid_header : ℕ → ℕ → ℕ → Bool
valid_header struct_size abi_version required_size =
    abi_version == abi_v1 && leb required_size struct_size

-- sizeof the records.
abbrev pub sample_size : ℕ
sample_size = 72

abbrev pub recipe_input_size : ℕ
recipe_input_size = 184
