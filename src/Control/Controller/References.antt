-- ===== src/Control/Controller/References.antt =====
-- The references that a cycle of the controller gives to the arms.
use open_arm_ik.Shared.{
  sub64, ℕ, zero, suc, ◌+◌, ◌-◌, ◌&&◌, List, [], ◌∷◌, ltb, leb, ◌==◌, if◌then◌else◌,
}
use open_arm_ik.Shared.Double.{Double, clamp}
use open_arm_ik.Control.Config.{Both, each_side}
use open_arm_ik.Control.Plan.{MotionPlan}
use open_arm_ik.Control.Arm.{measured_q, zeros}
use open_arm_ik.Control.Controller.{Controller}
use open_arm_ik.Control.Controller.Planning.{at}

-- `while (segment + 1 < count && elapsed > time[segment]) ++segment;`, with as many passes as there
-- are way points.
unfoldable pub segment_from : ℕ → ℕ → ℕ → List ℕ → ℕ → ℕ
segment_from zero count elapsed time segment = segment
segment_from (suc fuel) count elapsed time segment =
    let next = segment_from fuel count elapsed time (segment + 1) in
    if ltb (segment + 1) count && ltb (at time segment 0) elapsed then next else segment

-- What the references of a cycle are computed from: position and velocity of each joint.
pub record References (D : Type 0) : Type 0 where
  pub q : Both (List D)
  pub dq : Both (List D)

module _ {D : Type 0} ⦃d : Double D⦄ where
  unfoldable pub smoothstep7 : D → D
  smoothstep7 u =
      let x = clamp u d.nought d.one in
      d.mul (d.mul (d.mul (d.mul x x) x) x) (
        d.add (d.of_nat 35) (
          d.mul x
            (d.add (d.neg (d.of_nat 84)) (d.mul x (d.sub (d.of_nat 70) (d.mul (d.of_nat 20) x))))))

  unfoldable pub smoothstep7_derivative : D → D
  smoothstep7_derivative u =
      let x = clamp u d.nought d.one in
      let y = d.sub d.one x in
      d.mul (d.mul (d.mul (d.mul (d.mul (d.mul (d.of_nat 140) x) x) x) y) y) y

  -- One arm between two way points.
  unfoldable pub between : D → D → List D → List D → List D × List D
  between position_scale velocity_scale (a ∷ froms) (b ∷ tos) =
      let (qs, dqs) = between position_scale velocity_scale froms tos in
      let delta = d.sub b a in
      (d.add a (d.mul delta position_scale) ∷ qs, d.mul delta velocity_scale ∷ dqs)
  between position_scale velocity_scale _ _ = ([], [])

  -- One arm on the way to the way point `segment`.
  unfoldable pub side_between : D → D → ℕ → List (List D) → List D × List D
  side_between position_scale velocity_scale segment points =
      between position_scale velocity_scale (at points (segment - 1) zeros)
        (at points segment zeros)

  -- The references of a running plan.
  unfoldable pub references : MotionPlan D → Controller D → References D
  references p c =
      let elapsed = if leb c.now_ns c.command_start_ns then 0 else c.now_ns - c.command_start_ns in
      let segment = segment_from p.waypoint_count p.waypoint_count elapsed p.waypoint_time_ns 1 in
      let segment_start = at p.waypoint_time_ns (segment - 1) 0 in
      let segment_duration = sub64 (at p.waypoint_time_ns segment 0) segment_start in
      let since = elapsed - segment_start in
      let segment_elapsed = if ltb segment_duration since then segment_duration else since in
      let u =
        if segment_duration == 0
        then d.one
        else d.div (d.of_nat segment_elapsed) (d.of_nat segment_duration) in
      let position_scale = smoothstep7 u in
      let velocity_scale =
        if leb segment_duration segment_elapsed
        then d.nought
        else d.div (d.mul (smoothstep7_derivative u) (d.of_nat 1000000000))
            (d.of_nat segment_duration) in
      let (ql, dql) = side_between position_scale velocity_scale segment p.waypoint_q.of_left in
      let (qr, dqr) = side_between position_scale velocity_scale segment p.waypoint_q.of_right in
      record {
        q = record { of_left = ql; of_right = qr };
        dq = record { of_left = dql; of_right = dqr };
      }

  -- The references that hold the arms where they are.
  unfoldable pub held : Controller D → References D
  held c = record {
    q = each_side measured_q c.arms;
    dq = record { of_left = zeros; of_right = zeros };
  }
