-- ===== src/Control/Controller/Planning.antt =====
-- The methods of Controller that plan the move of a joint and check it.
use open_arm_ik.Shared.{
  ℕ, zero, suc, ◌^◌, Bool, true, false, not, ◌&&◌, ◌||◌, Option, none, some, List, [], ◌∷◌, ltb,
  leb, ◌==◌, if◌then◌else◌,
}
use open_arm_ik.Shared.Double.{Double, max}
use open_arm_ik.Control.Codes.{
  Status, ok, einval, estate, estale, efault, eestop, elimit, ecollision, right, backend_virtual,
  collision_virtual_unchecked, plan_of_joint, lifecycle_armed_idle,
}
use open_arm_ik.Control.Config.{MotorConfig, Both, side_of, set_side, each_side}
use open_arm_ik.Control.Plan.{MotionPlan, JointMove}
use open_arm_ik.Control.Arm.{bit, max64, measured_q, zeros}
use open_arm_ik.Control.Controller.{Controller, latch_fault, fresh, healthy}
use open_arm_ik.Control.Controller.Arming.{Answer}

-- list[i], where `other` stands for what is past the end.
abbrev pub at {ℓ} : {A : Type ℓ} → List A → ℕ → A → A
at [] _ other = other
at (x ∷ _) zero other = x
at (_ ∷ xs) (suc i) other = at xs i other

abbrev pub get_elem? {ℓ} : {A : Type ℓ} → List A → ℕ → Option A
get_elem? [] _ = none
get_elem? (x ∷ _) zero = some x
get_elem? (_ ∷ xs) (suc i) = get_elem? xs i

-- list[i] = x
abbrev pub put {ℓ} : {A : Type ℓ} → List A → ℕ → A → List A
put [] _ x = []
put (_ ∷ xs) zero x = x ∷ xs
put (y ∷ xs) (suc i) x = y ∷ put xs i x

module _ {D : Type 0} ⦃d : Double D⦄ where
  unfoldable pub valid_scale : D → Bool
  valid_scale value = d.is_finite value && d.lt d.nought value && d.le value d.one

  unfoldable pub collision_allowed : Controller D → Bool
  collision_allowed c =
      c.options.backend == backend_virtual
      && c.options.collision_policy == collision_virtual_unchecked

  -- The loop over the joints of an arm.
  unfoldable pub longest : D → D → D → D → List D → List D → List (MotorConfig D) → D
  longest duration_s velocity acceleration jerk (s ∷ ss) (t ∷ ts) (limit ∷ ls) =
      let distance = d.abs (d.sub t s) in
      let by_velocity =
        max duration_s
          (d.div (d.mul distance (d.literal 22 1)) (d.mul limit.max_velocity_rad_s velocity)) in
      let by_acceleration = max by_velocity (
        d.sqrt (
          d.div (d.mul distance (d.of_nat 8))
            (d.mul limit.max_acceleration_rad_s2 acceleration))) in
      let by_jerk =
        max by_acceleration
          (d.cbrt (d.div (d.mul distance (d.of_nat 60)) (d.mul limit.max_jerk_rad_s3 jerk))) in
      longest by_jerk velocity acceleration jerk ss ts ls
  longest duration_s velocity acceleration jerk _ _ _ = duration_s

  -- The duration of one side, if the mask has it.
  unfoldable pub longest_side :
      Both (List D) → Both (List D) → D → D → D → ℕ → ℕ → D → Controller D → D
  longest_side start target velocity acceleration jerk arm_mask side duration_s c =
      if not (bit arm_mask side)
      then duration_s
      else longest duration_s velocity acceleration jerk (side_of start side) (side_of target side)
          (side_of c.manifest.arm side).motor

  unfoldable pub trajectory_duration :
      Both (List D) → Both (List D) → D → D → D → ℕ → Controller D → ℕ
  trajectory_duration start target velocity acceleration jerk arm_mask c =
      let first = d.mul (d.of_nat c.options.cycle_ns) (d.literal 10 9) in
      let by_left = longest_side start target velocity acceleration jerk arm_mask 0 first c in
      let by_right = longest_side start target velocity acceleration jerk arm_mask 1 by_left c in
      let ns = d.ceil_giga by_right in if leb max64 ns then max64 else ns

  unfoldable pub valid_move : JointMove D → Controller D → Bool
  valid_move r c =
      leb r.side right
      && ltb r.joint 7
      && r.required_feedback_seq == (side_of c.arms r.side).feedback_seq
      && ltb c.now_ns r.expiry_ns
      && d.is_finite r.target_rad
      && valid_scale r.velocity_scale
      && valid_scale r.acceleration_scale
      && valid_scale r.jerk_scale
      && d.is_finite r.position_tol_rad
      && not (d.le r.position_tol_rad d.nought)
      && d.is_finite r.velocity_tol_rad_s
      && not (d.le r.velocity_tol_rad_s d.nought)

  -- The joint is in range here, so that its motor is there.
  unfoldable pub out_of_limits : D → Option (MotorConfig D) → Bool
  out_of_limits target none = true
  out_of_limits target (some motor) =
      d.lt target motor.lower_rad
      || d.lt motor.upper_rad target
      || d.lt motor.pmax_rad (d.abs (d.div (d.sub target motor.q_offset_rad) motor.q_scale))

  -- The plan that plan_joint builds. The way points that no field sets are left out of the lists.
  unfoldable pub joint_plan : JointMove D → Controller D → MotionPlan D
  joint_plan r c =
      let start = each_side measured_q c.arms in
      let target = set_side start r.side (put (side_of start r.side) r.joint r.target_rad) in
      let mask = 2 ^ r.side in
      let duration =
        trajectory_duration start target r.velocity_scale r.acceleration_scale r.jerk_scale mask
          c in
      let point = d.nought ∷ d.nought ∷ d.nought ∷ [] in
      record {
        kind = plan_of_joint;
        active_arm_mask = mask;
        manifest_revision = c.manifest.manifest_revision;
        model_revision = c.manifest.model_revision;
        collision_scene_revision = c.options.collision_scene_revision;
        controller_instance = c.instance_id;
        verify_epoch = c.verify_epoch;
        seed_seq = each_side (λ a. a.feedback_seq) c.arms;
        expiry_ns = r.expiry_ns;
        duration_ns = duration;
        start_q = start;
        target_q = target;
        joint_position_tolerance =
            set_side (record { of_left = d.literal 1 4; of_right = d.literal 1 4 }) r.side
              r.position_tol_rad;
        joint_velocity_tolerance =
            set_side (record { of_left = d.literal 1 3; of_right = d.literal 1 3 }) r.side
              r.velocity_tol_rad_s;
        tcp_tolerance = record { of_left = d.nought; of_right = d.nought };
        target_tcp = record { of_left = point; of_right = point };
        achieved_tcp = record { of_left = point; of_right = point };
        tcp_residual = record { of_left = d.nought; of_right = d.nought };
        collision_checked = false;
        contact_monitored = false;
        contact_geometry_policy = 0;
        contact_persistence_cycles = 0;
        contact_threshold_nm = record { of_left = zeros; of_right = zeros };
        waypoint_count = 2;
        waypoint_q = record {
          of_left = start.of_left ∷ target.of_left ∷ [];
          of_right = start.of_right ∷ target.of_right ∷ [];
        };
        waypoint_time_ns = 0 ∷ duration ∷ [];
      }

  unfoldable pub no_plan : Status × Controller D → Answer (MotionPlan D) D
  no_plan r = record { status = r.0; out = none; next = r.1 }

  unfoldable pub planned : JointMove D → Controller D → Answer (MotionPlan D) D
  planned r c =
      if not (valid_move r c)
      then no_plan (einval, c)
      else if out_of_limits r.target_rad (get_elem? (side_of c.manifest.arm r.side).motor r.joint)
      then no_plan (elimit, c)
      else record { status = ok; out = some (joint_plan r c); next = c }

  unfoldable pub plan_joint : JointMove D → Controller D → Answer (MotionPlan D) D
  plan_joint r c =
      if not (c.lifecycle == lifecycle_armed_idle)
      then no_plan (estate, c)
      else if not (fresh c)
      then no_plan (estale, c)
      else if not (healthy c)
      then no_plan (latch_fault efault false c)
      else if not (collision_allowed c)
      then no_plan (ecollision, c)
      else planned r c

  -- `estop` is what oa_estop_asserted returns.
  unfoldable pub plan_preconditions : Bool → Controller D → Status × Controller D
  plan_preconditions estop c =
      if estop
      then (eestop, record c { estop_latched = true })
      else if not (c.lifecycle == lifecycle_armed_idle)
      then (estate, c)
      else if not (fresh c)
      then (estale, c)
      else if not (healthy c)
      then latch_fault efault false c
      else if not (collision_allowed c)
      then (ecollision, c)
      else (ok, c)
