-- ===== src/Control/Manifest/Safe.antt =====
-- What the checks of one motor in Manifest's constructor of control/src/control_core.cpp leave. A
-- comparison of doubles is given as the code makes it, since a NaN fails every one of them.
use open_arm_ik.Shared.{
  ℕ, ℤ, pos, negsuc, ◌≤◌, ◌<◌, ◌≡◌, ◌≢◌, ◌⊎◌, inl, inr, refl, ap, true, false, ◌||◌, Option, none,
  some, List, [], ◌∷◌, ==_iff, arith, if-both, option-both, same_int, if◌then◌else◌,
}
use open_arm_ik.Shared.Double.{Double}
use open_arm_ik.Commission.Text.{terminated, c_string}
use open_arm_ik.Control.Config.{MotorConfig}
use open_arm_ik.Control.Manifest.Motor.{
  Refusal, profile_mismatch, unsupported_profile, Spans, codec_spans, expected_gear, bad_codes,
  bad_numbers, bad_texts, outside_model, profile_fault, expected_type, expected_name, same_text,
  is_blank,
}

pub same_text_sound : (s t : List ℕ) → same_text s t ≡ true → s ≡ t
unfolding same_text
same_text_sound [] [] h = refl
same_text_sound [] (b ∷ t) h = cc
same_text_sound (a ∷ s) [] h = cc
same_text_sound (a ∷ s) (b ∷ t) h =
    let e = same_text_sound s t (ground arith) in let f : a ≡ b = ground arith in cc

same_int_sound : (a b : ℤ) → same_int a b ≡ true → a ≡ b
same_int_sound (pos a) (pos b) h = ap pos ((==_iff a b).0 h)
same_int_sound (negsuc a) (negsuc b) h = ap negsuc ((==_iff a b).0 h)
same_int_sound (pos a) (negsuc b) h = cc
same_int_sound (negsuc a) (pos b) h = cc

direction_lem :
    (a : ℤ) → (same_int a (negsuc 0) || same_int a (pos 1)) ≡ true → (a ≡ negsuc 0) ⊎ (a ≡ pos 1)
direction_lem (pos n) h = inr (same_int_sound _ _ h)
direction_lem (negsuc n) h = inl (same_int_sound _ _ (ground arith))

module _ {D : Type 0} ⦃d : Double D⦄ where
  -- The numbers that name the motor and its versions.
  pub record HasCodes (joint : ℕ) (m : MotorConfig D) : Type 0 where
    pub versioned : (232 ≤ m.struct_size) × (m.abi_version ≡ 1)
    pub indexed : m.joint_index ≡ joint
    pub typed : m.motor_type ≡ expected_type joint
    pub sends : (0 < m.send_id) × (m.send_id ≤ 2047)
    pub receives : (0 < m.receive_id) × (m.receive_id ≤ 2047)
    pub embedded : m.embedded_motor_id ≤ 15
    pub controlled : m.control_mode ≡ 1
    pub timed : (m.bitrate ≢ 0) × (m.timeout_ticks ≢ 0)
    pub released : (m.hardware_version ≢ 0) × (m.software_version ≢ 0) × (m.firmware_subversion ≢ 0)

  -- The serial is a text that is not empty, and the name is that of the joint.
  pub record HasTexts (side joint : ℕ) (m : MotorConfig D) : Type 0 where
    pub serial_ends : terminated 32 m.serial ≡ true
    pub serial_given : is_blank m.serial ≡ false
    pub name_ends : terminated 48 m.joint_name ≡ true
    pub named : expected_name side joint ≡ c_string m.joint_name

  abbrev pub IsRate : D → Type 0
  IsRate a = (d.is_finite a ≡ true) × (d.le a d.nought ≡ false)

  pub record HasNumbers (m : MotorConfig D) : Type 0 where
    pub scaled :
        (d.is_finite m.q_scale ≡ true)
        × (d.lt d.pico (d.abs (d.sub (d.abs m.q_scale) d.one)) ≡ false)
    pub offset_finite : d.is_finite m.q_offset_rad ≡ true
    pub lower_finite : d.is_finite m.lower_rad ≡ true
    pub upper_finite : d.is_finite m.upper_rad ≡ true
    pub ordered : d.le m.upper_rad m.lower_rad ≡ false
    pub velocity : IsRate m.max_velocity_rad_s
    pub acceleration : IsRate m.max_acceleration_rad_s2
    pub jerk : IsRate m.max_jerk_rad_s3
    pub directed : (m.direction ≡ negsuc 0) ⊎ (m.direction ≡ pos 1)

  -- The spans and the gear are not found far from those of the motor's type.
  pub record HasProfile (m : MotorConfig D) : Type 0 where
    pub spans : Spans D
    pub gear : D
    pub of_spans : codec_spans m.motor_type ≡ some spans
    pub of_gear : expected_gear m.motor_type ≡ some gear
    pub position_near : d.lt d.pico (d.abs (d.sub m.pmax_rad spans.position)) ≡ false
    pub speed_near : d.lt d.pico (d.abs (d.sub m.vmax_rad_s spans.speed)) ≡ false
    pub torque_near : d.lt d.pico (d.abs (d.sub m.tmax_nm spans.torque)) ≡ false
    pub gear_near : d.lt d.pico (d.abs (d.sub m.gear_ratio gear)) ≡ false

  -- The raw position of an output angle is not found beyond the span.
  abbrev pub NotBeyond : D → MotorConfig D → Type 0
  NotBeyond q m =
      d.lt (d.add m.pmax_rad d.pico) (d.abs (d.div (d.sub q m.q_offset_rad) m.q_scale)) ≡ false

  -- The limits and the offset are not found outside the model's limits and the span.
  pub record IsWithin (limits : Option (D × D)) (m : MotorConfig D) : Type 0 where
    pub low : D
    pub high : D
    pub of_limits : limits ≡ some (low, high)
    pub lower_within : d.lt m.lower_rad (d.sub low d.pico) ≡ false
    pub upper_within : d.lt (d.add high d.pico) m.upper_rad ≡ false
    pub offset_within :
        (d.lt m.q_offset_rad (d.neg m.pmax_rad) ≡ false) × (d.lt m.pmax_rad m.q_offset_rad ≡ false)
    pub lower_raw : NotBeyond m.lower_rad m
    pub upper_raw : NotBeyond m.upper_rad m

  -- What is known of one accepted motor.
  pub record IsSafe (limits : Option (D × D)) (side joint : ℕ) (m : MotorConfig D) : Type 0 where
    pub codes : HasCodes joint m
    pub texts : HasTexts side joint m
    pub numbers : HasNumbers m
    pub profile : HasProfile m
    pub within : IsWithin limits m

  pub codes_lem : (joint : ℕ) (m : MotorConfig D) → bad_codes joint m ≡ false → HasCodes joint m
  unfolding bad_codes
  codes_lem joint m h = record {
    versioned = (grind arith, grind arith);
    indexed = grind arith;
    typed = grind arith;
    sends = (grind arith, grind arith);
    receives = (grind arith, grind arith);
    embedded = grind arith;
    controlled = grind arith;
    timed = (grind arith, grind arith);
    released = (grind arith, grind arith, grind arith);
  }

  pub texts_lem :
      (side joint : ℕ) (m : MotorConfig D) → bad_texts side joint m ≡ false → HasTexts side joint m
  unfolding bad_texts
  texts_lem side joint m h = record {
    serial_ends = ground arith;
    serial_given = ground arith;
    name_ends = ground arith;
    named = same_text_sound _ _ (ground arith);
  }

  pub numbers_lem : (m : MotorConfig D) → bad_numbers m ≡ false → HasNumbers m
  unfolding bad_numbers
  numbers_lem m h = record {
    scaled = (ground arith, ground arith);
    offset_finite = ground arith;
    lower_finite = ground arith;
    upper_finite = ground arith;
    ordered = ground arith;
    velocity = (ground arith, ground arith);
    acceleration = (ground arith, ground arith);
    jerk = (ground arith, ground arith);
    directed = direction_lem m.direction (ground arith);
  }

  pub profile_lem : (m : MotorConfig D) → profile_fault m ≡ none → HasProfile m
  profile_lem m =
      option-both P (codec_spans m.motor_type) (λ e h. absurd (cc))
        (λ s e.
          if-both P
            (d.lt d.pico (d.abs (d.sub m.pmax_rad s.position))
              || d.lt d.pico (d.abs (d.sub m.vmax_rad_s s.speed))
              || d.lt d.pico (d.abs (d.sub m.tmax_nm s.torque)))
            {s = some profile_mismatch} {t = geared} (λ e2 h. absurd (cc))
            (λ e2.
              option-both P (expected_gear m.motor_type) (λ e3 h. absurd (cc))
                (λ g e3.
                  if-both P (d.lt d.pico (d.abs (d.sub m.gear_ratio g))) {s = some profile_mismatch}
                    {t = none} (λ e4 h. absurd (cc))
                    (λ e4 h. record {
                      spans = s;
                      gear = g;
                      of_spans = e;
                      of_gear = e3;
                      position_near = ground arith;
                      speed_near = ground arith;
                      torque_near = ground arith;
                      gear_near = e4;
                    }))))
    where
      P : Option Refusal → Type 0
      P r = r ≡ none → HasProfile m

      geared : Option Refusal
      geared = elim (expected_gear m.motor_type) [
        | none ↦ some unsupported_profile
        | some g ↦
            if d.lt d.pico (d.abs (d.sub m.gear_ratio g)) then some profile_mismatch else none
      ]

  pub within_lem :
      (limits : Option (D × D)) (m : MotorConfig D)
      → outside_model limits m ≡ false
      → IsWithin limits m
  unfolding outside_model
  within_lem none m h = absurd (cc)
  within_lem (some (a, b)) m h = record {
    low = a;
    high = b;
    of_limits = refl;
    lower_within = ground arith;
    upper_within = ground arith;
    offset_within = (ground arith, ground arith);
    lower_raw = ground arith;
    upper_raw = ground arith;
  }
