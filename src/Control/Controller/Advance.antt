-- ===== src/Control/Controller/Advance.antt =====
-- Controller::advance: the cycle of the controller.
use open_arm_ik.Shared.{
  add64, ℕ, ◌-◌, Bool, true, false, not, ◌&&◌, ◌||◌, Option, none, some, ltb, leb, ◌==◌,
  if◌then◌else◌,
}
use open_arm_ik.Shared.Double.{Double}
use open_arm_ik.Control.Codes.{
  Status, ok, einval, estate, estale, etimeout, ecan, efault, eestop, ebusy, is_ok, started,
  cause_estop, lifecycle_armed_idle, lifecycle_executing, lifecycle_disarmed, lifecycle_fault,
}
use open_arm_ik.Control.Plan.{MotionPlan}
use open_arm_ik.Control.Arm.{command_and_step}
use open_arm_ik.Control.Arm.Snapshot.{complete_fresh, fault_free}
use open_arm_ik.Control.Controller.{
  Controller, distance, publish, latch_fault, feedback_integrity, fresh, healthy,
  start_pose_matches,
}
use open_arm_ik.Control.Controller.Arming.{set_interlock}
use open_arm_ik.Control.Controller.Geometry.{Geometry}
use open_arm_ik.Control.Controller.Monitors.{monitor_contact, monitor_keepout, complete_on_contact}
use open_arm_ik.Control.Controller.Obstacle.{apply_sim_contact}
use open_arm_ik.Control.Controller.References.{References, references, held}
use open_arm_ik.Control.Controller.Settling.{settle, plan_at_goal}

-- The lifecycles in which advance runs the arms.
unfoldable pub runs : ℕ → Bool
runs lifecycle =
    lifecycle == lifecycle_armed_idle
    || lifecycle == lifecycle_executing
    || lifecycle == lifecycle_disarmed

-- The lifecycles in which the motors are enabled on purpose.
unfoldable pub is_armed : ℕ → Bool
is_armed lifecycle = lifecycle == lifecycle_armed_idle || lifecycle == lifecycle_executing

-- What advance returns where it does not run the arms.
unfoldable pub idle_status : ℕ → Status
idle_status lifecycle = if lifecycle == lifecycle_fault then efault else estate

module _ {D : Type 0} ⦃d : Double D⦄ where
  -- A fault that a cycle finds before it moves anything: its status, and whether a controlled
  -- stop may follow.
  unfoldable pub cycle_fault : ℕ → Controller D → Option (Status × Bool)
  cycle_fault previous_ns c =
      if not (is_armed c.lifecycle)
      then none
      else if not (healthy c)
      then some (efault, false)
      else if not (is_ok (feedback_integrity c))
      then some (feedback_integrity c, false)
      else if ltb c.options.cycle_ns (c.now_ns - previous_ns)
      then some (etimeout, true)
      else none

  -- The plan is to start in this cycle.
  unfoldable pub starts_now : Controller D → Bool
  starts_now c = not c.command_started && leb c.command_start_ns c.now_ns

  -- The same of a running plan: its deadlines, and the pose at its start.
  unfoldable pub plan_fault : MotionPlan D → Controller D → Option (Status × Bool)
  plan_fault p c =
      if ltb c.producer_deadline_ns c.now_ns
      then some (estale, true)
      else if ltb c.command_expiry_ns c.now_ns
      then some (etimeout, true)
      else if not (healthy c)
      then some (efault, false)
      else if starts_now c && (not (fresh c) || not (start_pose_matches p c))
      then some (estale, false)
      else none

  unfoldable pub begin_plan : Controller D → Bool × Controller D
  begin_plan c =
      if starts_now c
      then publish started ok c.command_id (record c { command_started = true })
      else (true, c)

  -- The emergency stop, which is sampled first.
  unfoldable pub stop_at_once : ℕ → Controller D → Status × Controller D
  stop_at_once monotonic_ns c =
      let now = if leb c.now_ns monotonic_ns then monotonic_ns else c.now_ns in
      if not c.estop_latched
      then set_interlock true c.deadman_active (record c {
        estop_latched = true;
        contact_report = record c.contact_report { cause = cause_estop; stop_monotonic_ns = now };
        now_ns = now;
      })
      else (eestop, record c { now_ns = now })

  module _ (g : Geometry D) where
    -- The part of advance that follows the monitors.
    unfoldable pub settle_plan : Controller D → Status × Controller D
    settle_plan c = elim c.executing [
      | none ↦ (ok, c)
      | some p ↦
          if c.lifecycle == lifecycle_executing
            && leb (add64 c.command_start_ns p.duration_ns) c.now_ns
          then settle (plan_at_goal g p c) c
          else (ok, c)
    ]

    unfoldable pub monitored : Controller D → Status × Controller D
    monitored c =
        if not (c.lifecycle == lifecycle_executing && c.command_started)
        then settle_plan c
        else let (free, n) = monitor_contact g c in
          if not free
          then complete_on_contact n
          else let (clear, m) = monitor_keepout g n in
            if not clear then complete_on_contact m else settle_plan m

    -- The checks of the feedback that was published in this cycle.
    unfoldable pub feedback_fault : Controller D → Option Status
    feedback_fault c =
        let fresh_arm = complete_fresh c.now_ns c.options.feedback_timeout_ns in
        let faultless = fault_free c.now_ns c.options.feedback_timeout_ns in
        if not (fresh_arm c.arms.of_left) || not (fresh_arm c.arms.of_right)
        then some estale
        else if ltb c.options.max_cross_bus_skew_ns
            (distance c.arms.of_left.generation_timestamp c.arms.of_right.generation_timestamp)
        then some ecan
        else if not (faultless c.arms.of_left) || not (faultless c.arms.of_right)
        then some efault
        else none

    unfoldable pub checked : Controller D → Status × Controller D
    checked c = elim (feedback_fault c) [
      | none ↦ monitored c
      | some cause ↦ latch_fault cause false c
    ]

    -- The arms are commanded in turn; the second is not when the first fails.
    unfoldable pub actuate : ℕ → References D → Controller D → Status × Controller D
    actuate previous_ns r c =
        let b = apply_sim_contact g c in
        let dt_s = d.mul (d.of_nat (c.now_ns - previous_ns)) d.nano in
        let (left_ok, l) = command_and_step r.q.of_left r.dq.of_left c.now_ns dt_s b.arms.of_left in
        let (right_ok, k) =
          command_and_step r.q.of_right r.dq.of_right c.now_ns dt_s b.arms.of_right in
        if not left_ok
        then latch_fault ecan false (record b { arms = record b.arms { of_left = l } })
        else let stepped : Controller D = record b {
          arms = record { of_left = l; of_right = k };
        } in
          if not right_ok then latch_fault ecan false stepped else checked stepped

    -- A running plan; executing_ holds one whenever the lifecycle is EXECUTING.
    unfoldable pub follow : ℕ → MotionPlan D → Controller D → Status × Controller D
    follow previous_ns p c = elim (plan_fault p c) [
      | some f ↦ latch_fault f.0 f.1 c
      | none ↦
          let (kept, n) = begin_plan c in
          if not kept then (ebusy, n) else actuate previous_ns (references p n) n
    ]

    unfoldable pub drive : ℕ → Controller D → Status × Controller D
    drive previous_ns c =
        if not (c.lifecycle == lifecycle_executing)
        then actuate previous_ns (held c) c
        else elim c.executing [
          | none ↦ actuate previous_ns (held c) c
          | some p ↦ follow previous_ns p c
        ]

    unfoldable pub cycle : ℕ → Controller D → Status × Controller D
    cycle previous_ns c =
        if not (runs c.lifecycle)
        then (idle_status c.lifecycle, c)
        else elim (cycle_fault previous_ns c) [
          | some f ↦ latch_fault f.0 f.1 c
          | none ↦ drive previous_ns c
        ]

    unfoldable pub advance_clear : ℕ → Controller D → Status × Controller D
    advance_clear monotonic_ns c =
        if ltb monotonic_ns c.now_ns
        then (einval, c)
        else if monotonic_ns == c.now_ns
        then (if runs c.lifecycle then ok else idle_status c.lifecycle, c)
        else cycle c.now_ns (record c { now_ns = monotonic_ns })

    -- `estop` is what oa_estop_asserted returns.
    unfoldable pub advance : Bool → ℕ → Controller D → Status × Controller D
    advance estop monotonic_ns c =
        if estop
        then stop_at_once monotonic_ns c
        else advance_clear monotonic_ns (record c { estop_latched = false })
