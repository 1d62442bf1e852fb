-- ===== src/Control/Run/Cycle.antt =====
-- The cycle of the controller keeps the invariant.
use open_arm_ik.Shared.{
  add64, ℕ, ◌+◌, ◌-◌, ◌%◌, ◌^◌, ◌≡◌, refl, ◌∙◌, Bool, true, false, not, ◌&&◌, Option, none, some,
  ltb, leb, ◌==◌, arith, if-both, option-both,
}
use open_arm_ik.Shared.Double.{Double}
use open_arm_ik.Control.Codes.{ecan, left, right, lifecycle_executing}
use open_arm_ik.Control.Config.{side_of}
use open_arm_ik.Control.Plan.{MotionPlan}
use open_arm_ik.Control.Arm.{command_and_step}
use open_arm_ik.Control.Arm.Power.{powered, powered-command_and_step}
use open_arm_ik.Control.Controller.{Controller}
use open_arm_ik.Control.Controller.Geometry.{Geometry}
use open_arm_ik.Control.Controller.Monitors.{
  monitor_contact, monitor_plan, judge_contact, monitor_keepout, judge_keepout, KeepoutStatus,
  joints_loaded, sides_loaded, ends_on_claws,
}
use open_arm_ik.Control.Controller.Obstacle.{obstruct_side, apply_sim_contact}
use open_arm_ik.Control.Controller.Advance.{
  runs, cycle_fault, plan_fault, begin_plan, settle_plan, monitored, feedback_fault, checked,
  actuate, follow, drive, cycle, advance_clear, advance,
}
use open_arm_ik.Control.Controller.Settling.{plan_at_goal}
use open_arm_ik.Control.Controller.References.{References, references, held}
use open_arm_ik.Control.Run.Safe.{armed-virtual, same_power-Safe}
use open_arm_ik.Control.Controller.Advance.{is_armed}
use open_arm_ik.Control.Run.Sound.{SoundTurn, Sound, live-same, latch_fault-Sound}
use open_arm_ik.Control.Run.Settling.{
  obstruct-powered, complete_on_contact-Sound, begin-Sound, settle-Sound, stop_at_once-Sound,
}

runs_armed : (l : ℕ) (b : Bool) → (l == lifecycle_executing && b) ≡ true → is_armed l ≡ true
unfolding is_armed
runs_armed l b e = ground arith

module _ {D : Type 0} ⦃d : Double D⦄ where
  -- What the monitors leave: the outcome is in the Boolean and in the report.
  abbrev Watched : Controller D → Bool × Controller D → Type 0
  Watched c r = Sound r.1 × (r.1.lifecycle ≡ c.lifecycle)

  armed_ready :
      (c n : Controller D)
      → (Sound n × (n.lifecycle ≡ c.lifecycle))
      → is_armed c.lifecycle ≡ true
      → is_armed n.lifecycle ≡ true
  armed_ready c n w a = rw (w.1) a

  module _ (g : Geometry D) where
    settle_plan-Sound : (c : Controller D) → Sound c → Sound (settle_plan g c).1
    unfolding settle_plan
    settle_plan-Sound c s =
        option-both SoundTurn c.executing (λ e. s)
          (λ p e.
            if-both SoundTurn
              (c.lifecycle == lifecycle_executing
                && leb (add64 c.command_start_ns p.duration_ns) c.now_ns)
              (λ f.
                let v = armed-virtual s (runs_armed c.lifecycle _ f) in
                settle-Sound (plan_at_goal g p c) c (s, v.0, v.1))
              (λ f. s))

    judge_contact-Watched :
        (p : MotionPlan D) (c : Controller D) → Sound c → Watched c (judge_contact g p c)
    unfolding judge_contact
    judge_contact-Watched p c s =
        let joints = joints_loaded g p c in
        if-both (Watched c) (sides_loaded g joints == 0) (λ e. (s, refl))
          (λ e.
            if-both (Watched c) (ltb ((c.contact_streak + 1) % 2 ^ 32) p.contact_persistence_cycles)
              (λ e. (s, refl)) (λ e. (s, refl)))

    monitor_contact-Watched : (c : Controller D) → Sound c → Watched c (monitor_contact g c)
    unfolding monitor_contact monitor_plan
    monitor_contact-Watched c s = watch_plan c.executing c s
      where
        watch_plan :
            (o : Option (MotionPlan D)) (c : Controller D)
            → Sound c
            → Watched c (monitor_plan g o c)
        watch_plan none c s = (s, refl)
        watch_plan (some p) c s =
            if-both (Watched c) (not p.contact_monitored) (λ e. (s, refl))
              (λ e. judge_contact-Watched p c s)

    judge_keepout-Watched :
        (previous : D) (k : KeepoutStatus D) (c : Controller D)
        → Sound c
        → Watched c (judge_keepout g previous k c)
    unfolding judge_keepout
    judge_keepout-Watched previous k c s =
        if-both (Watched c) k.clear
          (λ e.
            if-both (Watched c) (ends_on_claws g c.executing k) (λ e. (s, refl)) (λ e. (s, refl)))
          (λ e.
            if-both (Watched c)
              (d.is_finite previous
                && d.is_finite k.minimum_clearance_m
                && d.le (d.sub previous d.micro) k.minimum_clearance_m)
              (λ e. (s, refl)) (λ e. (s, refl)))

    monitor_keepout-Watched : (c : Controller D) → Sound c → Watched c (monitor_keepout g c)
    unfolding monitor_keepout
    monitor_keepout-Watched c s = judge_keepout-Watched _ _ c s

    monitored-Sound : (c : Controller D) → Sound c → Sound (monitored g c).1
    unfolding monitored
    monitored-Sound c s =
        let r = monitor_contact g c in
        let w = monitor_contact-Watched c s in
        let q = monitor_keepout g r.1 in
        let v = monitor_keepout-Watched r.1 w.0 in
        if-both SoundTurn (not (c.lifecycle == lifecycle_executing && c.command_started))
          (λ e. settle_plan-Sound c s)
          (λ e.
            let a = runs_armed c.lifecycle c.command_started (ground arith) in
            let b = armed_ready c r.1 w a in
            if-both SoundTurn (not r.0) (λ f. complete_on_contact-Sound r.1 w.0 b)
              (λ f.
                if-both SoundTurn (not q.0)
                  (λ f. complete_on_contact-Sound q.1 v.0 (armed_ready r.1 q.1 v b))
                  (λ f. settle_plan-Sound q.1 v.0)))

    checked-Sound : (c : Controller D) → Sound c → Sound (checked g c).1
    unfolding checked
    checked-Sound c s =
        option-both SoundTurn (feedback_fault g c) (λ e. monitored-Sound c s)
          (λ cause e. latch_fault-Sound cause false c s)

    obstruct_side-powered :
        (c : Controller D) (side : ℕ)
        → powered (obstruct_side g c side) ≡ powered (side_of c.arms side)
    unfolding obstruct_side
    obstruct_side-powered c side = obstruct-powered _ _ _

    actuate-Sound :
        (previous : ℕ) (r : References D) (c : Controller D)
        → Sound c
        → Sound (actuate g previous r c).1
    unfolding actuate apply_sim_contact
    actuate-Sound previous r c s =
        let a = obstruct_side-powered c left in
        let b = obstruct_side-powered c right in
        let dt = d.mul (d.of_nat (c.now_ns - previous)) d.nano in
        let l = command_and_step r.q.of_left r.dq.of_left c.now_ns dt (obstruct_side g c left) in
        let k = command_and_step r.q.of_right r.dq.of_right c.now_ns dt (obstruct_side g c right) in
        let e =
          powered-command_and_step r.q.of_left r.dq.of_left c.now_ns dt (obstruct_side g c left)
          ∙ a in
        let f =
          powered-command_and_step r.q.of_right r.dq.of_right c.now_ns dt (obstruct_side g c right)
          ∙ b in
        if-both SoundTurn (not l.0)
          (λ h. latch_fault-Sound ecan false _ (same_power-Safe (live-same c.arms _ e b) s))
          (λ h.
            if-both SoundTurn (not k.0)
              (λ h. latch_fault-Sound ecan false _ (same_power-Safe (live-same c.arms _ e f) s))
              (λ h. checked-Sound _ (same_power-Safe (live-same c.arms _ e f) s)))

    follow-Sound :
        (previous : ℕ) (p : MotionPlan D) (c : Controller D)
        → Sound c
        → Sound (follow g previous p c).1
    unfolding follow
    follow-Sound previous p c s =
        let r = begin_plan c in
        let t = begin-Sound c s in
        option-both SoundTurn (plan_fault p c)
          (λ e.
            if-both SoundTurn (not r.0) (λ e. t)
              (λ e. actuate-Sound previous (references p r.1) r.1 t))
          (λ f e. latch_fault-Sound f.0 f.1 c s)

    drive-Sound : (previous : ℕ) (c : Controller D) → Sound c → Sound (drive g previous c).1
    unfolding drive
    drive-Sound previous c s =
        if-both SoundTurn (not (c.lifecycle == lifecycle_executing))
          (λ e. actuate-Sound previous (held c) c s)
          (λ e.
            option-both SoundTurn c.executing (λ e. actuate-Sound previous (held c) c s)
              (λ p e. follow-Sound previous p c s))

    cycle-Sound : (previous : ℕ) (c : Controller D) → Sound c → Sound (cycle g previous c).1
    unfolding cycle
    cycle-Sound previous c s =
        if-both SoundTurn (not (runs c.lifecycle)) (λ e. s)
          (λ e.
            option-both SoundTurn (cycle_fault previous c) (λ e. drive-Sound previous c s)
              (λ f e. latch_fault-Sound f.0 f.1 c s))

    advance_clear-Sound : (t : ℕ) (c : Controller D) → Sound c → Sound (advance_clear g t c).1
    unfolding advance_clear
    advance_clear-Sound t c s =
        if-both SoundTurn (ltb t c.now_ns) (λ e. s)
          (λ e.
            if-both SoundTurn (t == c.now_ns) (λ e. s)
              (λ e. cycle-Sound c.now_ns (record c { now_ns = t }) s))

    pub advance-Sound :
        (estop : Bool) (t : ℕ) (c : Controller D) → Sound c → Sound (advance g estop t c).1
    unfolding advance
    advance-Sound estop t c s =
        if-both SoundTurn estop (λ e. stop_at_once-Sound t c s)
          (λ e. advance_clear-Sound t (record c { estop_latched = false }) s)
