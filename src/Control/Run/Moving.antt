-- ===== src/Control/Run/Moving.antt =====
-- The calls that plan, that start a plan and that inject faults keep the invariant.
use open_arm_ik.Shared.{
  ℕ, zero, suc, ◌≡◌, refl, ◌∙◌, Bool, true, false, not, ◌&&◌, ◌||◌, ltb, ◌==◌, nonzero, arith,
  if-both,
}
use open_arm_ik.Shared.Double.{Double}
use open_arm_ik.Control.Codes.{ok, efault, right, left, lifecycle_armed_idle, backend_virtual}
use open_arm_ik.Control.Config.{Both, side_of, set_side}
use open_arm_ik.Control.Plan.{MotionPlan, JointMove, ExecuteRequest, SimFault, SimState, SimContact}
use open_arm_ik.Control.Arm.{Arm}
use open_arm_ik.Control.Arm.Power.{
  powered, powered-force_state, powered-set_injection, powered-clear_contact,
}
use open_arm_ik.Control.Controller.{Controller, fresh, healthy}
use open_arm_ik.Control.Controller.Planning.{
  plan_joint, planned, no_plan, plan_preconditions, collision_allowed, valid_move, out_of_limits,
  get_elem?,
}
use open_arm_ik.Control.Controller.Geometry.{Geometry}
use open_arm_ik.Control.Controller.Monitors.{reset_contact_report}
use open_arm_ik.Control.Controller.Obstacle.{set_sim_contact, finite_point}
use open_arm_ik.Control.Controller.Execute.{
  execute, accept, launch, no_command, own_plan, current_plan, valid_times, start_of,
}
use open_arm_ik.Control.Controller.Simulation.{
  set_sim_fault, set_sim_state, inject, valid_fault, valid_state,
}
use open_arm_ik.Control.Run.Safe.{armed-virtual, executing-Safe, same_power-Safe}
use open_arm_ik.Control.Controller.Advance.{is_armed}
use open_arm_ik.Control.Run.Sound.{
  SoundTurn, SoundAnswer, Sound, live, live-same, published-Sound, latch_fault-Sound,
}

idle_armed : (l : ℕ) → not (l == lifecycle_armed_idle) ≡ false → is_armed l ≡ true
unfolding is_armed
idle_armed l e = ground arith

module _ {D : Type 0} ⦃d : Double D⦄ where
  planned-Sound : (r : JointMove D) (c : Controller D) → Sound c → Sound (planned r c).next
  unfolding planned no_plan
  planned-Sound r c s =
      if-both SoundAnswer (not (valid_move r c)) (λ e. s)
        (λ e.
          if-both SoundAnswer
            (out_of_limits r.target_rad (get_elem? (side_of c.manifest.arm r.side).motor r.joint))
            (λ e. s) (λ e. s))

  pub plan-Sound : (r : JointMove D) (c : Controller D) → Sound c → Sound (plan_joint r c).next
  unfolding plan_joint no_plan
  plan-Sound r c s =
      if-both SoundAnswer (not (c.lifecycle == lifecycle_armed_idle)) (λ e. s)
        (λ e.
          if-both SoundAnswer (not (fresh c)) (λ e. s)
            (λ e.
              if-both SoundAnswer (not (healthy c)) (λ e. latch_fault-Sound efault false c s)
                (λ e.
                  if-both SoundAnswer (not (collision_allowed c)) (λ e. s)
                    (λ e. planned-Sound r c s))))

  pub prepare-Sound :
      (estop : Bool) (c : Controller D) → Sound c → Sound (plan_preconditions estop c).1
  unfolding plan_preconditions
  prepare-Sound estop c s =
      if-both SoundTurn estop (λ e. s)
        (λ e.
          if-both SoundTurn (not (c.lifecycle == lifecycle_armed_idle)) (λ e. s)
            (λ e.
              if-both SoundTurn (not (fresh c)) (λ e. s)
                (λ e.
                  if-both SoundTurn (not (healthy c)) (λ e. latch_fault-Sound efault false c s)
                    (λ e. if-both SoundTurn (not (collision_allowed c)) (λ e. s) (λ e. s)))))

  module _ (g : Geometry D) where
    launch-Sound :
        (p : MotionPlan D) (r : ExecuteRequest) (start : ℕ) (c : Controller D)
        → Sound c
        → is_armed c.lifecycle ≡ true
        → Sound (launch g p r start c).next
    unfolding launch reset_contact_report
    launch-Sound p r start c s a =
        let v = armed-virtual s a in
        published-Sound _ ok c.next_command_id ok _ (
          executing-Safe c.options.backend c.deadman_active _ c.events s.known s.queue
            c.next_command_id v.0 v.1)

    accept-Sound :
        (p : MotionPlan D) (r : ExecuteRequest) (c : Controller D)
        → Sound c
        → is_armed c.lifecycle ≡ true
        → Sound (accept g p r c).next
    unfolding accept no_command
    accept-Sound p r c s a =
        if-both SoundAnswer (not (own_plan p c)) (λ e. s)
          (λ e.
            if-both SoundAnswer (not (current_plan p c)) (λ e. s)
              (λ e.
                if-both SoundAnswer (not (valid_times p r (start_of r c) c)) (λ e. s)
                  (λ e. launch-Sound p r (start_of r c) c s a)))

    pub execute-Sound :
        (p : MotionPlan D) (r : ExecuteRequest) (c : Controller D)
        → Sound c
        → Sound (execute g p r c).next
    unfolding execute no_command
    execute-Sound p r c s =
        if-both SoundAnswer (not (c.lifecycle == lifecycle_armed_idle)) (λ e. s)
          (λ l.
            if-both SoundAnswer (not (fresh c)) (λ e. s)
              (λ e.
                if-both SoundAnswer (not (healthy c)) (λ e. latch_fault-Sound efault false c s)
                  (λ e. accept-Sound p r c s (idle_armed c.lifecycle l))))

  live-set_side :
      (arms : Both (Arm D)) (side : ℕ) (a : Arm D)
      → powered a ≡ powered (side_of arms side)
      → live (set_side arms side a) ≡ live arms
  live-set_side arms zero a e = live-same arms _ e refl
  live-set_side arms (suc n) a e = live-same arms _ refl e

  inject-powered : (f : SimFault) (now : ℕ) (a : Arm D) → powered (inject f now a) ≡ powered a
  unfolding inject
  inject-powered f now a =
      if-both (λ (x : Arm D). powered x ≡ powered a) (nonzero f.fault_mask)
        (λ e. powered-force_state _ _ now _ ∙ powered-set_injection _ _ _ _ _ _ a)
        (λ e. powered-set_injection _ _ _ _ _ _ a)

  pub fault-Sound : (f : SimFault) (c : Controller D) → Sound c → Sound (set_sim_fault f c).1
  unfolding set_sim_fault
  fault-Sound f c s =
      if-both SoundTurn (not (c.options.backend == backend_virtual)) (λ e. s)
        (λ e.
          if-both SoundTurn (not (valid_fault f)) (λ e. s)
            (λ e.
              same_power-Safe
                (live-set_side c.arms f.side _ (inject-powered f c.now_ns (side_of c.arms f.side)))
                s))

  pub place-Sound : (x : SimState D) (c : Controller D) → Sound c → Sound (set_sim_state x c).1
  unfolding set_sim_state
  place-Sound x c s =
      if-both SoundTurn (not (c.options.backend == backend_virtual)) (λ e. s)
        (λ e.
          if-both SoundTurn (ltb right x.side) (λ e. s)
            (λ e.
              if-both SoundTurn (not (valid_state x.q x.dq (side_of c.manifest.arm x.side).motor))
                (λ e. s)
                (λ e.
                  same_power-Safe
                    (live-set_side c.arms x.side _
                      (powered-force_state x.q x.dq c.now_ns (side_of c.arms x.side)))
                    s)))

  pub obstruct-Sound :
      (x : SimContact D) (c : Controller D) → Sound c → Sound (set_sim_contact x c).1
  unfolding set_sim_contact
  obstruct-Sound x c s =
      if-both SoundTurn (not (c.options.backend == backend_virtual)) (λ e. s)
        (λ e.
          if-both SoundTurn (not (x.side == left) && not (x.side == right)) (λ e. s)
            (λ e.
              if-both SoundTurn
                (nonzero x.enabled
                  && (not (finite_point x.center_m)
                      || not (d.is_finite x.radius_m)
                      || d.le x.radius_m d.nought
                      || not (d.is_finite x.reaction_gain_nm_per_rad)
                      || d.lt x.reaction_gain_nm_per_rad d.nought))
                (λ e. s)
                (λ e.
                  if-both (λ (n : Controller D). Sound n) (x.enabled == 0)
                    (λ e.
                      same_power-Safe
                        (live-set_side c.arms x.side _
                          (powered-clear_contact (side_of c.arms x.side)))
                        s)
                    (λ e. s))))
