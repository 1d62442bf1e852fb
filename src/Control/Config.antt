-- ===== src/Control/Config.antt =====
-- The configuration records of control/include/openarm_control.h. The size and the version that
-- head a record are kept where control_core.cpp reads them; a text is its bytes.
use open_arm_ik.Shared.{ℕ, zero, ℤ, List}

-- oa_motor_config.
pub record MotorConfig (D : Type 0) : Type 0 where
  pub struct_size : ℕ
  pub abi_version : ℕ
  pub motor_type : ℕ
  pub joint_index : ℕ
  pub send_id : ℕ
  pub receive_id : ℕ
  pub embedded_motor_id : ℕ
  pub control_mode : ℕ
  pub bitrate : ℕ
  pub timeout_ticks : ℕ
  pub hardware_version : ℕ
  pub software_version : ℕ
  pub firmware_subversion : ℕ
  pub q_scale : D
  pub q_offset_rad : D
  pub lower_rad : D
  pub upper_rad : D
  pub max_velocity_rad_s : D
  pub max_acceleration_rad_s2 : D
  pub max_jerk_rad_s3 : D
  pub pmax_rad : D
  pub vmax_rad_s : D
  pub tmax_nm : D
  pub gear_ratio : D
  pub direction : ℤ
  pub serial : List ℕ
  pub joint_name : List ℕ

-- oa_arm_config.
pub record ArmConfig (D : Type 0) : Type 0 where
  pub struct_size : ℕ
  pub abi_version : ℕ
  pub bus_name : List ℕ
  pub motor : List (MotorConfig D)

-- An array of two elements, one for each side.
pub record Both {ℓ} (A : Type ℓ) : Type ℓ where
  pub of_left : A
  pub of_right : A

-- a[side] for a side that is 0 or 1.
abbrev pub side_of {ℓ} : {A : Type ℓ} → Both A → ℕ → A
side_of b zero = b.of_left
side_of b _ = b.of_right

-- a[side] = x
abbrev pub set_side {ℓ} : {A : Type ℓ} → Both A → ℕ → A → Both A
set_side b zero x = record b { of_left = x }
set_side b _ x = record b { of_right = x }

-- A loop over the two sides.
abbrev pub each_side {ℓ ℓ'} : {A : Type ℓ} {B : Type ℓ'} → (A → B) → Both A → Both B
each_side f b = record { of_left = f b.of_left; of_right = f b.of_right }

-- oa_manifest_config.
pub record ManifestConfig (D : Type 0) : Type 0 where
  pub struct_size : ℕ
  pub abi_version : ℕ
  pub manifest_revision : ℕ
  pub model_revision : ℕ
  pub arm : Both (ArmConfig D)

-- oa_controller_options.
pub record Options : Type 0 where
  pub backend : ℕ
  pub collision_policy : ℕ
  pub cycle_ns : ℕ
  pub feedback_timeout_ns : ℕ
  pub max_cross_bus_skew_ns : ℕ
  pub collision_scene_revision : ℕ
