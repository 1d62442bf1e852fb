-- ===== src/Control/Manifest/Motor.antt =====
-- What Manifest's constructor of control/src/control_core.cpp checks of one motor by itself. The
-- sizes of the records are those of LP64.
use open_arm_ik.Shared.{
  ℕ, ◌+◌, Bool, true, false, not, ◌&&◌, ◌||◌, Option, none, some, List, [], ◌∷◌, ◌++◌, ltb, ◌==◌,
  if◌then◌else◌, pos, negsuc, same_int,
}
use open_arm_ik.Shared.Double.{Double}
use open_arm_ik.Commission.Text.{terminated, c_string}
use open_arm_ik.Control.Config.{MotorConfig}

-- The messages of std::invalid_argument.
pub data Refusal : Type 0 where
  unsupported_profile bad_record bad_arm bad_motor profile_mismatch unsafe_motor : Refusal
  shared_bus : Refusal

abbrev pub motor_dm8009 : ℕ
motor_dm8009 = 1

abbrev pub motor_dm4340 : ℕ
motor_dm4340 = 2

abbrev pub motor_dm4310 : ℕ
motor_dm4310 = 3

-- Equality of two strings.
unfoldable pub same_text : List ℕ → List ℕ → Bool
same_text [] [] = true
same_text (a ∷ s) (b ∷ t) = a == b && same_text s t
same_text _ _ = false

-- A text's first byte is 0.
abbrev pub is_blank : List ℕ → Bool
is_blank [] = true
is_blank (c ∷ t) = c == 0

abbrev pub expected_type : ℕ → ℕ
expected_type joint =
    if ltb joint 2 then motor_dm8009 else if ltb joint 4 then motor_dm4340 else motor_dm4310

-- "openarm_left_joint1" and so on.
abbrev pub expected_name : ℕ → ℕ → List ℕ
expected_name side joint =
    (111 ∷ 112 ∷ 101 ∷ 110 ∷ 97 ∷ 114 ∷ 109 ∷ 95 ∷ [])
    ++ (if side == 0 then 108 ∷ 101 ∷ 102 ∷ 116 ∷ [] else 114 ∷ 105 ∷ 103 ∷ 104 ∷ 116 ∷ [])
    ++ (95 ∷ 106 ∷ 111 ∷ 105 ∷ 110 ∷ 116 ∷ (49 + joint) ∷ [])

-- The three spans of a motor's codec.
pub record Spans (D : Type 0) : Type 0 where
  pub position : D
  pub speed : D
  pub torque : D

module _ {D : Type 0} ⦃d : Double D⦄ where
  abbrev pub codec_spans : ℕ → Option (Spans D)
  codec_spans t =
      if t == motor_dm8009
      then some
          (record { position = d.literal 125 1; speed = d.literal 45 0; torque = d.literal 54 0 })
      else if t == motor_dm4340
      then some
          (record { position = d.literal 125 1; speed = d.literal 10 0; torque = d.literal 28 0 })
      else if t == motor_dm4310
      then some
          (record { position = d.literal 125 1; speed = d.literal 30 0; torque = d.literal 10 0 })
      else none

  abbrev pub expected_gear : ℕ → Option D
  expected_gear t =
      if t == motor_dm8009
      then some (d.literal 9 0)
      else if t == motor_dm4340
      then some (d.literal 40 0)
      else if t == motor_dm4310
      then some (d.literal 10 0)
      else none

  abbrev is_far : D → D → Bool
  is_far a b = d.lt d.pico (d.abs (d.sub a b))

  -- std::abs(motor.pmax_rad - spans[0]) > 1.0e-12 and so on.
  abbrev pub profile_fault : MotorConfig D → Option Refusal
  profile_fault m = elim (codec_spans m.motor_type) [
    | none ↦ some unsupported_profile
    | some s ↦
        if is_far m.pmax_rad s.position || is_far m.vmax_rad_s s.speed || is_far m.tmax_nm s.torque
        then some profile_mismatch
        else elim (expected_gear m.motor_type) [
          | none ↦ some unsupported_profile
          | some g ↦ if is_far m.gear_ratio g then some profile_mismatch else none
        ]
  ]

  unfoldable pub bad_codes : ℕ → MotorConfig D → Bool
  bad_codes joint m =
      ltb m.struct_size 232
      || not (m.abi_version == 1)
      || not (m.joint_index == joint)
      || not (m.motor_type == expected_type joint)
      || m.send_id == 0
      || ltb 2047 m.send_id
      || m.receive_id == 0
      || ltb 2047 m.receive_id
      || ltb 15 m.embedded_motor_id
      || not (m.control_mode == 1)
      || m.bitrate == 0
      || m.timeout_ticks == 0
      || m.hardware_version == 0
      || m.software_version == 0
      || m.firmware_subversion == 0

  unfoldable pub bad_texts : ℕ → ℕ → MotorConfig D → Bool
  bad_texts side joint m =
      not (terminated 32 m.serial)
      || is_blank m.serial
      || not (terminated 48 m.joint_name)
      || not (same_text (expected_name side joint) (c_string m.joint_name))

  abbrev is_rate : D → Bool
  is_rate a = d.is_finite a && not (d.le a d.nought)

  unfoldable pub bad_numbers : MotorConfig D → Bool
  bad_numbers m =
      d.le m.upper_rad m.lower_rad
      || not (d.is_finite m.q_scale)
      || is_far (d.abs m.q_scale) d.one
      || not (d.is_finite m.q_offset_rad)
      || not (d.is_finite m.lower_rad)
      || not (d.is_finite m.upper_rad)
      || not (is_rate m.max_velocity_rad_s)
      || not (is_rate m.max_acceleration_rad_s2)
      || not (is_rate m.max_jerk_rad_s3)
      || not (same_int m.direction (negsuc 0) || same_int m.direction (pos 1))

  -- The raw position of an output angle leaves the codec's span.
  abbrev beyond_span : D → MotorConfig D → Bool
  beyond_span q m =
      d.lt (d.add m.pmax_rad d.pico) (d.abs (d.div (d.sub q m.q_offset_rad) m.q_scale))

  -- `limits` is what model_limit gives: nothing, or the lower and the upper limit.
  unfoldable pub outside_model : Option (D × D) → MotorConfig D → Bool
  outside_model none m = true
  outside_model (some (low, high)) m =
      d.lt m.lower_rad (d.sub low d.pico)
      || d.lt (d.add high d.pico) m.upper_rad
      || d.lt m.q_offset_rad (d.neg m.pmax_rad)
      || d.lt m.pmax_rad m.q_offset_rad
      || beyond_span m.lower_rad m
      || beyond_span m.upper_rad m
