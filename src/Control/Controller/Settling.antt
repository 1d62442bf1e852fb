-- ===== src/Control/Controller/Settling.antt =====
-- How a plan settles at its goal, and the end of it.
use open_arm_ik.Shared.{
  ℕ, ◌+◌, ◌-◌, ◌*◌, ◌^◌, ◌%◌, Bool, true, false, not, ◌&&◌, ◌||◌, none, some, List, ◌∷◌, leb, ◌==◌,
  if◌then◌else◌,
}
use open_arm_ik.Shared.Double.{Double}
use open_arm_ik.Control.Codes.{
  Status, ok, ebusy, completed, settling, cause_plan_complete, plan_of_paired_tcp,
  lifecycle_armed_idle, left, right,
}
use open_arm_ik.Control.Config.{side_of, each_side}
use open_arm_ik.Control.Plan.{MotionPlan}
use open_arm_ik.Control.Arm.{Arm, bit, measured_q, measured_dq}
use open_arm_ik.Control.Controller.{Controller, publish, published}
use open_arm_ik.Control.Controller.Planning.{at}
use open_arm_ik.Control.Controller.Geometry.{Geometry}

module _ {D : Type 0} ⦃d : Double D⦄ where
  -- Settling is announced once.
  unfoldable pub announce : Controller D → Bool × Controller D
  announce c =
      if c.settling_published
      then (true, c)
      else let (kept, n) = publish settling ok c.command_id c in
        (kept, if kept then record n { settling_published = true } else n)

  unfoldable pub count_settling : Controller D → Controller D
  count_settling c =
      let current_seq = each_side (λ a. a.feedback_seq) c.arms in
      if c.settle_start_ns == 0
      then record c {
        settle_start_ns = c.now_ns;
        settle_feedback_seq = current_seq;
        settle_feedback_intervals = 0;
      }
      else if not (current_seq.of_left == c.settle_feedback_seq.of_left)
          && not (current_seq.of_right == c.settle_feedback_seq.of_right)
      then record c {
        settle_feedback_seq = current_seq;
        settle_feedback_intervals = (c.settle_feedback_intervals + 1) % 2 ^ 32;
      }
      else c

  unfoldable pub complete : Controller D → Status × Controller D
  complete c = published completed ok c.command_id ok (record c {
    contact_report = record c.contact_report { cause = cause_plan_complete };
    executing = none;
    command_id = 0;
    lifecycle = lifecycle_armed_idle;
  })

  unfoldable pub finish_settling : Controller D → Status × Controller D
  finish_settling c =
      if leb 3 c.settle_feedback_intervals
        && leb ((c.options.cycle_ns * 3) % 2 ^ 64) (c.now_ns - c.settle_start_ns)
      then complete c
      else (ok, c)

  unfoldable pub settle : Bool → Controller D → Status × Controller D
  settle at_goal c =
      let (kept, n) = announce c in
      if not kept then (ebusy, n) else if at_goal then finish_settling (count_settling n) else (
        ok,
        record n {
          settle_start_ns = 0;
          settle_feedback_seq = record { of_left = 0; of_right = 0 };
          settle_feedback_intervals = 0;
        },
      )

  -- The joints of one arm are at the goal.
  unfoldable pub joints_at_goal : D → D → List D → List D → List D → Bool
  joints_at_goal position_tol velocity_tol (q ∷ qs) (dq ∷ dqs) (t ∷ ts) =
      let rest = joints_at_goal position_tol velocity_tol qs dqs ts in
      not (d.lt position_tol (d.abs (d.sub q t)) || d.lt velocity_tol (d.abs dq)) && rest
  joints_at_goal position_tol velocity_tol _ _ _ = true

  module _ (g : Geometry D) where
    -- The claw is within the plan's tolerance.
    unfoldable pub claw_at_goal : ℕ → MotionPlan D → List D → Bool
    claw_at_goal side p q = elim (g.forward side q) [
      | none ↦ false
      | some k ↦
          let t = side_of p.target_tcp side in
          let x = d.sub k.tcp_xyz.0 (at t 0 d.nought) in
          let y = d.sub k.tcp_xyz.1 (at t 1 d.nought) in
          let z = d.sub k.tcp_xyz.2 (at t 2 d.nought) in
          let squared = d.add (d.add (d.add d.nought (d.mul x x)) (d.mul y y)) (d.mul z z) in
          not (d.lt (side_of p.tcp_tolerance side) (d.sqrt squared))
    ]

    unfoldable pub side_at_goal : ℕ → MotionPlan D → Arm D → Bool
    side_at_goal side p a =
        not (bit p.active_arm_mask side)
        || joints_at_goal (side_of p.joint_position_tolerance side)
            (side_of p.joint_velocity_tolerance side) (measured_q a) (measured_dq a)
            (side_of p.target_q side)
          && (not (p.kind == plan_of_paired_tcp) || claw_at_goal side p (measured_q a))

    unfoldable pub plan_at_goal : MotionPlan D → Controller D → Bool
    plan_at_goal p c = side_at_goal left p c.arms.of_left && side_at_goal right p c.arms.of_right
