-- ===== src/Control/Controller/Simulation.antt =====
-- Controller::set_sim_fault and set_sim_state, with which a test injects faults and poses.
use open_arm_ik.Shared.{
  ℕ, ◌%◌, ◌^◌, Bool, true, not, ◌&&◌, ◌||◌, List, ◌∷◌, ltb, leb, ◌==◌, nonzero, if◌then◌else◌,
}
use open_arm_ik.Shared.Double.{Double}
use open_arm_ik.Control.Codes.{
  Status, ok, einval, elimit, eunsupported, right, backend_virtual, all_joints,
}
use open_arm_ik.Control.Config.{MotorConfig, side_of, set_side}
use open_arm_ik.Control.Plan.{SimFault, SimState}
use open_arm_ik.Control.Arm.{Arm, set_injection, force_state, measured_q, measured_dq}
use open_arm_ik.Control.Controller.{Controller}

-- Only bits of the seven joints are set.
unfoldable pub within_joints : ℕ → Bool
within_joints mask = leb mask all_joints

unfoldable pub valid_fault : SimFault → Bool
valid_fault f =
    leb f.side right
    && within_joints f.freeze_mask
    && within_joints f.drop_mask
    && within_joints f.fault_mask
    && within_joints f.command_fail_mask
    && not (
        nonzero f.fault_mask
        && nonzero f.fault_status
        && (ltb f.fault_status 8 || ltb 14 f.fault_status))

module _ {D : Type 0} ⦃d : Double D⦄ where
  unfoldable pub inject : SimFault → ℕ → Arm D → Arm D
  inject f now_ns a =
      let status = if f.fault_status == 0 then 8 else f.fault_status % 2 ^ 8 in
      let injected =
        set_injection f.freeze_mask f.drop_mask f.fault_mask status f.command_fail_mask
          f.feedback_delay_ns a in
      if nonzero f.fault_mask
      then force_state (measured_q injected) (measured_dq injected) now_ns injected
      else injected

  unfoldable pub set_sim_fault : SimFault → Controller D → Status × Controller D
  set_sim_fault f c =
      if not (c.options.backend == backend_virtual)
      then (eunsupported, c)
      else if not (valid_fault f)
      then (einval, c)
      else (
        ok,
        record c { arms = set_side c.arms f.side (inject f c.now_ns (side_of c.arms f.side)) },
      )

  unfoldable pub valid_joint_state : D → D → MotorConfig D → Bool
  valid_joint_state q dq motor =
      d.is_finite q
      && d.is_finite dq
      && not (d.lt q motor.lower_rad)
      && not (d.lt motor.upper_rad q)
      && not (d.lt motor.pmax_rad (d.abs (d.div (d.sub q motor.q_offset_rad) motor.q_scale)))
      && not (d.lt motor.max_velocity_rad_s (d.abs dq))

  unfoldable pub valid_state : List D → List D → List (MotorConfig D) → Bool
  valid_state (q ∷ qs) (dq ∷ dqs) (m ∷ ms) =
      let rest = valid_state qs dqs ms in valid_joint_state q dq m && rest
  valid_state _ _ _ = true

  unfoldable pub set_sim_state : SimState D → Controller D → Status × Controller D
  set_sim_state s c =
      if not (c.options.backend == backend_virtual)
      then (eunsupported, c)
      else if ltb right s.side
      then (einval, c)
      else if not (valid_state s.q s.dq (side_of c.manifest.arm s.side).motor)
      then (elimit, c)
      else (
        ok,
        record c {
          arms = set_side c.arms s.side (force_state s.q s.dq c.now_ns (side_of c.arms s.side));
        },
      )
