-- ===== src/Control/Manifest/Load.antt =====
-- The loops of Manifest's constructor of control/src/control_core.cpp. The limits of the kinematic
-- model, which model_limit gives, are a parameter; the sizes of the records are those of LP64.
use open_arm_ik.Shared.{
  ℕ, ◌+◌, Bool, false, not, ◌||◌, Option, none, some, List, [], ◌∷◌, ltb, ◌==◌, Result, done,
  failed, if◌then◌else◌,
}
use open_arm_ik.Shared.Double.{Double}
use open_arm_ik.Commission.Text.{terminated, c_string}
use open_arm_ik.Control.Config.{MotorConfig, ArmConfig, ManifestConfig}
use open_arm_ik.Control.Manifest.Motor.{
  Refusal, bad_record, bad_arm, bad_motor, unsafe_motor, shared_bus, same_text, is_blank, bad_codes,
  bad_texts, bad_numbers, profile_fault, outside_model,
}

-- What the sets hold: the identifiers of one arm, and the serials of both.
pub record Seen : Type 0 where
  pub send_ids : List ℕ
  pub receive_ids : List ℕ
  pub serials : List (List ℕ)

unfoldable pub has_id : ℕ → List ℕ → Bool
has_id a [] = false
has_id a (b ∷ bs) = a == b || has_id a bs

unfoldable pub has_text : List ℕ → List (List ℕ) → Bool
has_text s [] = false
has_text s (t ∷ ts) = same_text s t || has_text s ts

module _ {D : Type 0} ⦃d : Double D⦄ where
  unfoldable pub is_seen : MotorConfig D → Seen → Bool
  is_seen m s =
      has_id m.send_id s.send_ids
      || has_id m.receive_id s.receive_ids
      || has_text (c_string m.serial) s.serials

  abbrev pub insert : MotorConfig D → Seen → Seen
  insert m s = record {
    send_ids = m.send_id ∷ s.send_ids;
    receive_ids = m.receive_id ∷ s.receive_ids;
    serials = c_string m.serial ∷ s.serials;
  }

  -- The body of the loop over the joints.
  unfoldable pub check_motor : Option (D × D) → ℕ → ℕ → MotorConfig D → Seen → Result Refusal Seen
  check_motor limits side joint m s =
      if bad_codes joint m || bad_texts side joint m || bad_numbers m
      then failed bad_motor
      else elim (profile_fault m) [
        | none ↦
            if outside_model limits m || is_seen m s then failed unsafe_motor else done (insert m s)
        | some r ↦ failed r
      ]

  -- The loop over the joints, from a joint on.
  unfoldable pub check_motors :
      (ℕ → ℕ → Option (D × D)) → ℕ → ℕ → List (MotorConfig D) → Seen → Result Refusal Seen
  check_motors limit side joint [] s = done s
  check_motors limit side joint (m ∷ ms) s = elim (check_motor (limit side joint) side joint m s) [
    | failed r ↦ failed r
    | done n ↦ check_motors limit side (joint + 1) ms n
  ]

  unfoldable pub bad_arm_record : ArmConfig D → Bool
  bad_arm_record a =
      ltb a.struct_size 1648
      || not (a.abi_version == 1)
      || not (terminated 16 a.bus_name)
      || is_blank a.bus_name

  -- The body of the loop over the sides; the serials seen so far go in and out.
  unfoldable pub check_arm :
      (ℕ → ℕ → Option (D × D)) → ℕ → ArmConfig D → List (List ℕ) → Result Refusal Seen
  check_arm limit side a serials =
      if bad_arm_record a
      then failed bad_arm
      else check_motors limit side 0 a.motor
          (record { send_ids = []; receive_ids = []; serials = serials })

  unfoldable pub bad_manifest_record : ManifestConfig D → Bool
  bad_manifest_record m =
      ltb m.struct_size 3320
      || not (m.abi_version == 1)
      || m.manifest_revision == 0
      || m.model_revision == 0

  -- The constructor, up to the copy of the configuration: what it throws, if anything.
  unfoldable pub refusal : (ℕ → ℕ → Option (D × D)) → ManifestConfig D → Option Refusal
  refusal limit m =
      if bad_manifest_record m then some bad_record else elim (check_arm limit 0 m.arm.of_left []) [
        | failed r ↦ some r
        | done s ↦ elim (check_arm limit 1 m.arm.of_right s.serials) [
          | failed r ↦ some r
          | done t ↦
              if same_text (c_string m.arm.of_left.bus_name) (c_string m.arm.of_right.bus_name)
              then some shared_bus
              else none
        ]
      ]
