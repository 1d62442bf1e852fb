-- ===== src/Control/Arm/Snapshot.antt =====
-- ArmRuntime::snapshot and the tests on it.
use open_arm_ik.Shared.{
  ℕ, suc, ◌+◌, ◌-◌, ◌^◌, Bool, true, false, not, ◌&&◌, ◌||◌, List, [], ◌∷◌, map, ltb, leb, ◌==◌,
  if◌then◌else◌,
}
use open_arm_ik.Shared.Double.{Double}
use open_arm_ik.Control.Codes.{all_joints}
use open_arm_ik.Control.Motor.{Motor, MeasuredMotor, mapped_q, mapped_dq, mapped_tau}
use open_arm_ik.Control.Arm.{Arm, bit}

-- oa_arm_snapshot.
pub record ArmSnapshot (D : Type 0) : Type 0 where
  pub feedback_seq : ℕ
  pub t_ns : ℕ
  pub expected_mask : ℕ
  pub fresh_mask : ℕ
  pub fault_mask : ℕ
  pub q : List D
  pub dq : List D
  pub tau : List D
  pub raw_q : List D
  pub raw_dq : List D
  pub raw_tau : List D
  pub status : List ℕ
  pub mos_c : List ℕ
  pub coil_c : List ℕ

-- The masks and the time that the loop over the joints gathers, as a sum of bits and a maximum.
pub record Gathered : Type 0 where
  pub fresh_mask : ℕ
  pub fault_mask : ℕ
  pub t_ns : ℕ

abbrev pub later : ℕ → ℕ → ℕ
later a b = if ltb a b then b else a

-- std::all_of over the status of the joints.
unfoldable pub all_zero : List ℕ → Bool
all_zero [] = true
all_zero (s ∷ ss) = s == 0 && all_zero ss

module _ {D : Type 0} ⦃d : Double D⦄ where
  -- `fresh` in the loop.
  unfoldable pub joint_fresh : ℕ → ℕ → ℕ → ℕ → MeasuredMotor D → Bool
  joint_fresh generation_mask now_ns timeout_ns joint m =
      bit generation_mask joint && m.valid && leb m.t_ns now_ns && leb (now_ns - m.t_ns) timeout_ns

  unfoldable pub gather : ℕ → ℕ → ℕ → ℕ → List (Motor D) → Gathered
  gather generation_mask now_ns timeout_ns joint [] = record {
    fresh_mask = 0;
    fault_mask = 0;
    t_ns = 0;
  }
  gather generation_mask now_ns timeout_ns joint (m ∷ ms) =
      let rest = gather generation_mask now_ns timeout_ns (suc joint) ms in
      let is_fresh = joint_fresh generation_mask now_ns timeout_ns joint m.measured in
      record {
        fresh_mask = (if is_fresh then 2 ^ joint else 0) + rest.fresh_mask;
        fault_mask = (if leb 8 m.measured.status then 2 ^ joint else 0) + rest.fault_mask;
        t_ns = if is_fresh then later m.measured.t_ns rest.t_ns else rest.t_ns;
      }

  unfoldable pub snapshot : ℕ → ℕ → Arm D → ArmSnapshot D
  snapshot now_ns timeout_ns a =
      let g = gather a.generation_mask now_ns timeout_ns 0 a.motor in
      record {
        feedback_seq = a.feedback_seq;
        t_ns = g.t_ns;
        expected_mask = all_joints;
        fresh_mask = g.fresh_mask;
        fault_mask = g.fault_mask;
        q = map mapped_q a.motor;
        dq = map mapped_dq a.motor;
        tau = map mapped_tau a.motor;
        raw_q = map (λ m. m.measured.raw_q) a.motor;
        raw_dq = map (λ m. m.measured.raw_dq) a.motor;
        raw_tau = map (λ m. m.measured.raw_tau) a.motor;
        status = map (λ m. m.measured.status) a.motor;
        mos_c = map (λ m. m.measured.mos_c) a.motor;
        coil_c = map (λ m. m.measured.coil_c) a.motor;
      }

  unfoldable pub complete_fresh : ℕ → ℕ → Arm D → Bool
  complete_fresh now_ns timeout_ns a =
      let s = snapshot now_ns timeout_ns a in s.fresh_mask == s.expected_mask

  unfoldable pub fault_free : ℕ → ℕ → Arm D → Bool
  fault_free now_ns timeout_ns a = (snapshot now_ns timeout_ns a).fault_mask == 0

  unfoldable pub all_disabled : ℕ → ℕ → Arm D → Bool
  all_disabled now_ns timeout_ns a =
      let s = snapshot now_ns timeout_ns a in
      if not (s.fresh_mask == all_joints) || not (s.fault_mask == 0)
      then false
      else all_zero s.status
