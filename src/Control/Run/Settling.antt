-- ===== src/Control/Run/Settling.antt =====
-- The ends of a cycle of the controller keep the invariant.
use open_arm_ik.Shared.{
  ℕ, ◌-◌, ◌*◌, ◌%◌, ◌^◌, ◌≡◌, ap, ◌∙◌, Bool, true, not, ◌&&◌, ◌||◌, Option, none, some, leb, ◌==◌,
  if-both,
}
use open_arm_ik.Shared.Double.{Double}
use open_arm_ik.Control.Codes.{ok, started, settling}
use open_arm_ik.Control.Plan.{SimContact}
use open_arm_ik.Control.Arm.{Arm}
use open_arm_ik.Control.Arm.Power.{powered, powered-set_blocked, powered-clear_contact}
use open_arm_ik.Control.Controller.{Controller, publish, materialize_stop}
use open_arm_ik.Control.Controller.Geometry.{KinematicResult}
use open_arm_ik.Control.Controller.Monitors.{complete_on_contact}
use open_arm_ik.Control.Controller.Obstacle.{obstruct, magnitude}
use open_arm_ik.Control.Controller.Advance.{starts_now, begin_plan, stop_at_once}
use open_arm_ik.Control.Controller.Settling.{
  announce, count_settling, complete, finish_settling, settle,
}
use open_arm_ik.Control.Run.Safe.{armed-virtual, idle-Safe}
use open_arm_ik.Control.Controller.Advance.{is_armed}
use open_arm_ik.Control.Run.Sound.{
  SoundTurn, Sound, publish-Sound, published-Sound, publish-Published,
}
use open_arm_ik.Control.Run.Arming.{set_interlock-Sound}

module _ {D : Type 0} ⦃d : Double D⦄ where
  abbrev SoundState : Controller D → Type 0
  SoundState c = Sound c

  pub obstruct-powered :
      (s : SimContact D) (k : Option (KinematicResult D)) (a : Arm D)
      → powered (obstruct s k a) ≡ powered a
  unfolding obstruct
  obstruct-powered s none a = powered-clear_contact a
  obstruct-powered s (some k) a =
      let p = k.tcp_xyz in
      let o = s.center_m in
      let depth = magnitude (d.sub p.0 o.0, d.sub p.1 o.1, d.sub p.2 o.2) in
      if-both Same (s.enabled == 0) (λ e. powered-clear_contact a)
        (λ e.
          if-both Same (not (d.is_finite depth) || not (d.lt depth s.radius_m))
            (λ e. powered-clear_contact a) (λ e. powered-set_blocked true _ a))
    where
      Same : Arm D → Type 0
      Same x = powered x ≡ powered a

  pub complete_on_contact-Sound :
      (c : Controller D) → Sound c → is_armed c.lifecycle ≡ true → Sound (complete_on_contact c).1
  unfolding complete_on_contact materialize_stop
  complete_on_contact-Sound c s a =
      let v = armed-virtual s a in
      published-Sound _ ok c.command_id ok _
        (idle-Safe c.options.backend c.deadman_active _ c.events s.known s.queue v.0 v.1)

  pub begin-Sound : (c : Controller D) → Sound c → Sound (begin_plan c).1
  unfolding begin_plan
  begin-Sound c s =
      if-both (λ (r : Bool × Controller D). Sound r.1) (starts_now c)
        (λ e. publish-Sound started ok c.command_id (record c { command_started = true }) s)
        (λ e. s)

  -- A sound state whose motors may be enabled.
  abbrev pub Ready : Controller D → Type 0
  Ready c = Sound c × (c.options.backend ≡ 1) × (c.deadman_active ≡ true)

  announce-Ready : (c : Controller D) → Ready c → Ready (announce c).1
  unfolding announce
  announce-Ready c s =
      let r = publish settling ok c.command_id c in
      let p = publish-Published settling ok c.command_id c s.0.known s.0.queue in
      let t : Ready r.1 = (
        publish-Sound settling ok c.command_id c s.0,
        ap (λ o. o.backend) p.same_options ∙ s.1,
        p.same_deadman ∙ s.2,
      ) in
      if-both (λ (r : Bool × Controller D). Ready r.1) c.settling_published (λ e. s)
        (λ e. if-both Ready r.0 (λ e. t) (λ e. t))

  count-Ready : (c : Controller D) → Ready c → Ready (count_settling c)
  unfolding count_settling
  count-Ready c s =
      if-both Ready (c.settle_start_ns == 0) (λ e. s)
        (λ e.
          if-both Ready
            (not (c.arms.of_left.feedback_seq == c.settle_feedback_seq.of_left)
              && not (c.arms.of_right.feedback_seq == c.settle_feedback_seq.of_right))
            (λ e. s) (λ e. s))

  finish-Sound : (c : Controller D) → Ready c → Sound (finish_settling c).1
  unfolding finish_settling complete
  finish-Sound c s =
      if-both SoundTurn
        (leb 3 c.settle_feedback_intervals
          && leb ((c.options.cycle_ns * 3) % 2 ^ 64) (c.now_ns - c.settle_start_ns))
        (λ e.
          published-Sound _ ok c.command_id ok _
            (idle-Safe c.options.backend c.deadman_active _ c.events s.0.known s.0.queue s.1 s.2))
        (λ e. s.0)

  pub settle-Sound : (at_goal : Bool) (c : Controller D) → Ready c → Sound (settle at_goal c).1
  unfolding settle
  settle-Sound at_goal c s =
      let t = announce-Ready c s in
      let r = announce c in
      if-both SoundTurn (not r.0) (λ e. t.0)
        (λ e. if-both SoundTurn at_goal (λ e. finish-Sound _ (count-Ready r.1 t)) (λ e. t.0))

  pub stop_at_once-Sound : (t : ℕ) (c : Controller D) → Sound c → Sound (stop_at_once t c).1
  unfolding stop_at_once
  stop_at_once-Sound t c s =
      if-both SoundTurn (not c.estop_latched) (λ e. set_interlock-Sound true c.deadman_active _ s)
        (λ e. s)
