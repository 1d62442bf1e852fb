-- ===== src/Control/ManifestTests.antt =====
-- A configuration that Manifest accepts, over whole numbers, and others that it refuses.
use open_arm_ik.Shared.{
  ℕ, ℤ, pos, ◌↔◌, ◌+◌, ◌*◌, ◌≡◌, refl, Option, none, some, [], ◌∷◌, ◌++◌, ltb, if◌then◌else◌,
}
use open_arm_ik.Shared.Whole.{whole_numbers}
use open_arm_ik.Commission.Text.{terminated, c_string}
use open_arm_ik.Control.Config.{MotorConfig, ArmConfig, ManifestConfig}
use open_arm_ik.Control.Manifest.Motor.{
  shared_bus, unsafe_motor, expected_type, expected_name, same_text, bad_codes, bad_texts,
  bad_numbers, outside_model,
}
use open_arm_ik.Control.Manifest.Load.{
  has_id, has_text, is_seen, check_motor, check_motors, check_arm, bad_arm_record,
  bad_manifest_record, refusal,
}
use open_arm_ik.Control.Manifest.Accepted.{IsAccepted}
use open_arm_ik.Control.Manifest.Constructor.{refusal_iff}

abbrev motor : ℕ → ℕ → MotorConfig ℤ
motor side joint = record {
  struct_size = 232;
  abi_version = 1;
  motor_type = expected_type joint;
  joint_index = joint;
  send_id = joint + 1;
  receive_id = joint + 17;
  embedded_motor_id = joint + 1;
  control_mode = 1;
  bitrate = 1000000;
  timeout_ticks = 1;
  hardware_version = 1;
  software_version = 1;
  firmware_subversion = 1;
  q_scale = pos 1;
  q_offset_rad = pos 0;
  lower_rad = pos 0;
  upper_rad = pos 3;
  max_velocity_rad_s = pos 5;
  max_acceleration_rad_s2 = pos 5;
  max_jerk_rad_s3 = pos 5;
  pmax_rad = pos 12;
  vmax_rad_s = pos (if ltb joint 2 then 45 else if ltb joint 4 then 10 else 30);
  tmax_nm = pos (if ltb joint 2 then 54 else if ltb joint 4 then 28 else 10);
  gear_ratio = pos (if ltb joint 2 then 9 else if ltb joint 4 then 40 else 10);
  direction = pos 1;
  serial = (65 + 7 * side + joint) ∷ 0 ∷ [];
  joint_name = expected_name side joint ++ (0 ∷ []);
}

abbrev arm_config : ℕ → ℕ → ArmConfig ℤ
arm_config side bus = record {
  struct_size = 1648;
  abi_version = 1;
  bus_name = 99 ∷ (48 + bus) ∷ 0 ∷ [];
  motor =
      motor side 0
      ∷ motor side 1
      ∷ motor side 2
      ∷ motor side 3
      ∷ motor side 4
      ∷ motor side 5
      ∷ motor side 6
      ∷ [];
}

-- The numbers of the two buses are parameters.
abbrev manifest : ℕ → ℕ → ManifestConfig ℤ
manifest bus_left bus_right = record {
  struct_size = 3320;
  abi_version = 1;
  manifest_revision = 1;
  model_revision = 1;
  arm = record { of_left = arm_config 0 bus_left; of_right = arm_config 1 bus_right };
}

abbrev limits : ℕ → ℕ → Option (ℤ × ℤ)
limits side joint = some (pos 0, pos 3)

accepted : refusal limits (manifest 0 1) ≡ none
unfolding refusal check_arm check_motors check_motor is_seen has_id has_text same_text bad_codes
    bad_texts bad_numbers outside_model bad_arm_record bad_manifest_record terminated c_string
accepted = refl

one_bus : refusal limits (manifest 1 1) ≡ some shared_bus
unfolding refusal check_arm check_motors check_motor is_seen has_id has_text same_text bad_codes
    bad_texts bad_numbers outside_model bad_arm_record bad_manifest_record terminated c_string
one_bus = refl

no_limits : refusal (λ side joint. none) (manifest 0 1) ≡ some unsafe_motor
unfolding refusal check_arm check_motors check_motor is_seen has_id has_text same_text bad_codes
    bad_texts bad_numbers outside_model bad_arm_record bad_manifest_record terminated c_string
no_limits = refl

refusal_iff_example : (refusal limits (manifest 0 1) ≡ none) ↔ IsAccepted limits (manifest 0 1)
refusal_iff_example = refusal_iff limits (manifest 0 1)

-- The configuration over the two buses is accepted, and that over one is not.
two_buses : IsAccepted limits (manifest 0 1)
two_buses = (refusal_iff limits (manifest 0 1)).0 accepted

not_one_bus : ¬ IsAccepted limits (manifest 1 1)
not_one_bus h = let e = (refusal_iff limits (manifest 1 1)).1 h in cc (one_bus, e)
