-- ===== src/Control/Manifest/Accepted.antt =====
-- What holds of a configuration that Manifest's constructor of control/src/control_core.cpp
-- accepts.
use open_arm_ik.Shared.{
  ℕ, ◌+◌, ◌≤◌, true, false, arith, ◌≡◌, ◌≢◌, Option, none, List, [], ◌∷◌, ◌++◌, map, Result, done,
  if-both, result-both,
}
use mathlib.Core.Path.{subst}
use open_arm_ik.Shared.Double.{Double}
use open_arm_ik.Commission.Text.{terminated, c_string}
use open_arm_ik.Control.Config.{MotorConfig, ArmConfig, ManifestConfig}
use open_arm_ik.Control.Manifest.Motor.{Refusal, same_text, is_blank}
use open_arm_ik.Control.Manifest.Load.{
  Seen, check_motor, check_motors, check_arm, refusal, bad_arm_record, bad_manifest_record,
}
use open_arm_ik.Control.Manifest.Distinct.{AreNew, earlier, AreNew-++, same_text-differs}
use open_arm_ik.Control.Manifest.Safe.{IsSafe}
use open_arm_ik.Control.Manifest.Passed.{Passed, check_motor-Passed}

module _ {D : Type 0} ⦃d : Double D⦄ where
  -- Every motor of a list is safe, the first being that of a joint.
  abbrev pub AreSafe : (ℕ → Option (D × D)) → ℕ → ℕ → List (MotorConfig D) → Type 0
  AreSafe limit side joint [] = Unit
  AreSafe limit side joint (m ∷ ms) =
      IsSafe (limit joint) side joint m × AreSafe limit side (joint + 1) ms

  abbrev pub send_ids : List (MotorConfig D) → List ℕ
  send_ids ms = map (λ m. m.send_id) ms

  abbrev pub receive_ids : List (MotorConfig D) → List ℕ
  receive_ids ms = map (λ m. m.receive_id) ms

  abbrev pub serials : List (MotorConfig D) → List (List ℕ)
  serials ms = map (λ m. c_string m.serial) ms

  -- What a list of motors that passes shows.
  record AllPassed (limit : ℕ → Option (D × D)) (side joint : ℕ) (ms : List (MotorConfig D))
      (s n : Seen) : Type 0 where
    all_safe : AreSafe limit side joint ms
    new_sends : AreNew s.send_ids (send_ids ms)
    new_receives : AreNew s.receive_ids (receive_ids ms)
    new_serials : AreNew s.serials (serials ms)
    kept : n.serials ≡ earlier s.serials (serials ms)

  motor_and_rest :
      (limit : ℕ → Option (D × D)) (side joint : ℕ) (m : MotorConfig D) (ms : List (MotorConfig D))
      (s i n : Seen)
      → Passed (limit joint) side joint m s i
      → AllPassed limit side (joint + 1) ms i n
      → AllPassed limit side joint (m ∷ ms) s n
  motor_and_rest limit side joint m ms s i n p q =
      let r = subst (λ j. AllPassed limit side (joint + 1) ms j n) p.inserted q in
      record {
        all_safe = (p.safe, r.all_safe);
        new_sends = (p.new_send, r.new_sends);
        new_receives = (p.new_receive, r.new_receives);
        new_serials = (p.new_serial, r.new_serials);
        kept = r.kept;
      }

  check_motors-AllPassed :
      (limit : ℕ → ℕ → Option (D × D)) (side joint : ℕ) (ms : List (MotorConfig D)) (s n : Seen)
      → check_motors limit side joint ms s ≡ done n
      → AllPassed (limit side) side joint ms s n
  unfolding check_motors
  check_motors-AllPassed limit side joint [] s n =
      λ h. record { all_safe = tt; new_sends = tt; new_receives = tt; new_serials = tt; kept = cc }
  check_motors-AllPassed limit side joint (m ∷ ms) s n =
      result-both (λ r. r ≡ done n → AllPassed (limit side) side joint (m ∷ ms) s n)
        (check_motor (limit side joint) side joint m s) (λ r e h. absurd (cc))
        (λ i e h.
          motor_and_rest (limit side) side joint m ms s i n
            (check_motor-Passed (limit side joint) side joint m s i e)
            (check_motors-AllPassed limit side (joint + 1) ms i n h))

  -- What holds of one arm.
  pub record IsSafeArm (limit : ℕ → Option (D × D)) (side : ℕ) (a : ArmConfig D) : Type 0 where
    pub versioned : (1648 ≤ a.struct_size) × (a.abi_version ≡ 1)
    pub bus_ends : terminated 16 a.bus_name ≡ true
    pub bus_given : is_blank a.bus_name ≡ false
    pub motors : AreSafe limit side 0 a.motor
    pub sends_differ : AreNew [] (send_ids a.motor)
    pub receives_differ : AreNew [] (receive_ids a.motor)

  -- What an arm that passes shows, for the serials before it.
  record ArmPassed (limit : ℕ → Option (D × D)) (side : ℕ) (a : ArmConfig D) (ts : List (List ℕ))
      (n : Seen) : Type 0 where
    safe_arm : IsSafeArm limit side a
    serials_new : AreNew ts (serials a.motor)
    serials_kept : n.serials ≡ earlier ts (serials a.motor)

  arm_of_motors :
      (limit : ℕ → Option (D × D)) (side : ℕ) (a : ArmConfig D) (ts : List (List ℕ)) (n : Seen)
      → bad_arm_record a ≡ false
      → AllPassed limit side 0 a.motor (record { send_ids = []; receive_ids = []; serials = ts }) n
      → ArmPassed limit side a ts n
  unfolding bad_arm_record
  arm_of_motors limit side a ts n e p = record {
    safe_arm = record {
      versioned = (grind arith, grind arith);
      bus_ends = ground arith;
      bus_given = ground arith;
      motors = p.all_safe;
      sends_differ = p.new_sends;
      receives_differ = p.new_receives;
    };
    serials_new = p.new_serials;
    serials_kept = p.kept;
  }

  check_arm-ArmPassed :
      (limit : ℕ → ℕ → Option (D × D)) (side : ℕ) (a : ArmConfig D) (ts : List (List ℕ)) (n : Seen)
      → check_arm limit side a ts ≡ done n
      → ArmPassed (limit side) side a ts n
  unfolding check_arm
  check_arm-ArmPassed limit side a ts n =
      if-both (λ (r : Result Refusal Seen). r ≡ done n → ArmPassed (limit side) side a ts n)
        (bad_arm_record a) (λ e h. absurd (cc))
        (λ e h.
          arm_of_motors (limit side) side a ts n e
            (check_motors-AllPassed limit side 0 a.motor _ n h))

  -- What holds of an accepted configuration.
  pub record IsAccepted (limit : ℕ → ℕ → Option (D × D)) (m : ManifestConfig D) : Type 0 where
    pub versioned : (3320 ≤ m.struct_size) × (m.abi_version ≡ 1)
    pub revised : (m.manifest_revision ≢ 0) × (m.model_revision ≢ 0)
    pub left_arm : IsSafeArm (limit 0) 0 m.arm.of_left
    pub right_arm : IsSafeArm (limit 1) 1 m.arm.of_right
    pub serials_differ : AreNew [] (serials m.arm.of_left.motor ++ serials m.arm.of_right.motor)
    pub buses_differ : c_string m.arm.of_left.bus_name ≢ c_string m.arm.of_right.bus_name

  both-IsAccepted :
      (limit : ℕ → ℕ → Option (D × D)) (m : ManifestConfig D) (s t : Seen)
      → bad_manifest_record m ≡ false
      → ArmPassed (limit 0) 0 m.arm.of_left [] s
      → ArmPassed (limit 1) 1 m.arm.of_right s.serials t
      → c_string m.arm.of_left.bus_name ≢ c_string m.arm.of_right.bus_name
      → IsAccepted limit m
  unfolding bad_manifest_record
  both-IsAccepted limit m s t e p q b = record {
    versioned = (grind arith, grind arith);
    revised = (grind arith, grind arith);
    left_arm = p.safe_arm;
    right_arm = q.safe_arm;
    serials_differ =
        AreNew-++ [] (serials m.arm.of_left.motor) (serials m.arm.of_right.motor) p.serials_new
          (subst (λ ts. AreNew ts (serials m.arm.of_right.motor)) p.serials_kept q.serials_new);
    buses_differ = b;
  }

  -- What is not refused is accepted in this sense.
  pub refusal-IsAccepted :
      (limit : ℕ → ℕ → Option (D × D)) (m : ManifestConfig D)
      → refusal limit m ≡ none
      → IsAccepted limit m
  unfolding refusal
  refusal-IsAccepted limit m =
      if-both P (bad_manifest_record m) (λ e h. absurd (cc))
        (λ e.
          result-both P (check_arm limit 0 m.arm.of_left []) (λ r e1 h. absurd (cc))
            (λ s e1.
              result-both P (check_arm limit 1 m.arm.of_right s.serials) (λ r e2 h. absurd (cc))
                (λ t e2.
                  if-both P
                    (same_text (c_string m.arm.of_left.bus_name) (c_string m.arm.of_right.bus_name))
                    (λ e3 h. absurd (cc))
                    (λ e3 h.
                      both-IsAccepted limit m s t e (check_arm-ArmPassed limit 0 _ _ s e1)
                        (check_arm-ArmPassed limit 1 _ _ t e2) (same_text-differs _ _ e3)))))
    where
      P : Option Refusal → Type 0
      P r = r ≡ none → IsAccepted limit m
