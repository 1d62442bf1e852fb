-- ===== src/Control/Run/Arming.antt =====
-- The calls that verify, arm, stop, disarm and reset keep the invariant.
use open_arm_ik.Shared.{
  add64, ℕ, ◌≡◌, ◌⊎◌, inl, inr, refl, ap, ◌∙◌, Bool, true, false, not, ◌&&◌, ◌||◌, none, ltb, leb,
  ◌==◌, arith, if-both, if◌then◌else◌,
}
use open_arm_ik.Shared.Double.{Double}
use open_arm_ik.Control.Codes.{
  estale, ebusy, efault, eestop, ok, stop_disable, lifecycle_closed, lifecycle_disarmed,
  lifecycle_armed_idle, lifecycle_executing, lifecycle_fault, lifecycle_estop, lifecycle_verifying,
  lifecycle_stopping, backend_virtual, backend_physical, aborted,
}
use open_arm_ik.Control.Plan.{Challenge, ResetRequest}
use open_arm_ik.Control.Ring.Contents.{IsValid}
use open_arm_ik.Control.Ring.Refine.{polls, ring_step-IsValid}
use open_arm_ik.Control.Arm.{Arm, zeros}
use open_arm_ik.Control.Arm.Power.{powered, powered-off, powered-force_state, powered-retire}
use open_arm_ik.Control.Controller.{
  Controller, publish, materialize_stop, has, fresh, healthy, disabled,
}
use open_arm_ik.Control.Controller.Arming.{
  open_and_verify, verify_arm, challenge, issue_challenge, refuses, arm, live_challenge, enable,
  set_interlock, latch_estop, interlock_arms, retire, stop, settle_stop, valid_stop_kind, disarm,
  reset, reset_arm, heartbeat, set_collision_scene_revision, poll_event,
}
use open_arm_ik.Control.Run.Safe.{
  disarmed-Safe, idle-Safe, estop-Safe, requeue, relabel, verify-Safe, enable-Safe, reset-Safe,
  armed-virtual, serves-virtual, held-Safe,
}
use open_arm_ik.Control.Controller.Advance.{is_armed}
use open_arm_ik.Control.Run.Sound.{
  SoundTurn, SoundAnswer, Sound, live-off, stop-off, published-Sound, latch_fault-Sound, Published,
  publish-Published,
}

virtual_of : (b : ℕ) → (b ≡ 1) ⊎ (b ≡ 2) → (b == backend_physical) ≡ false → b ≡ 1
virtual_of b k e = grind arith

stops_armed :
    (l : ℕ)
    → (not (l == lifecycle_executing) && not (l == lifecycle_armed_idle)) ≡ false
    → is_armed l ≡ true
unfolding is_armed
stops_armed l e = ground arith

module _ {D : Type 0} ⦃d : Double D⦄ where
  abbrev SoundState : Controller D → Type 0
  SoundState c = Sound c

  -- What latch_estop sets after the motors are disabled.
  abbrev estopped : Controller D → Controller D → Controller D
  estopped c n = record n {
    lifecycle = lifecycle_estop;
    nonce_counter = add64 c.nonce_counter 1;
    outstanding_nonce = add64 c.nonce_counter 1;
  }

  verify_arm-off : (e now : ℕ) (a : Arm D) → powered (verify_arm e now a) ≡ false
  unfolding verify_arm
  verify_arm-off e now a = powered-force_state _ zeros now _ ∙ powered-off a

  pub open-Sound : (c : Controller D) → Sound c → Sound (open_and_verify c).next
  unfolding open_and_verify
  open-Sound c s =
      if-both SoundAnswer (not (c.lifecycle == lifecycle_closed)) (λ e. s)
        (λ e.
          if-both SoundAnswer (c.options.backend == backend_physical)
            (λ p. relabel (ground arith) s)
            (λ p. published-Sound _ ok 0 ok _ (
              verify-Safe s (ground arith) (virtual_of c.options.backend s.known p) (
                live-off _ (verify_arm-off c.verify_epoch c.now_ns c.arms.of_left)
                  (verify_arm-off c.verify_epoch c.now_ns c.arms.of_right)))))

  pub challenge-Sound : (c : Controller D) → Sound c → Sound (challenge c).next
  unfolding challenge refuses issue_challenge
  challenge-Sound c s =
      let reset_challenge = c.lifecycle == lifecycle_fault || c.lifecycle == lifecycle_estop in
      if-both SoundAnswer (not (c.lifecycle == lifecycle_disarmed) && not reset_challenge) (λ e. s)
        (λ e.
          if-both SoundAnswer
            (not reset_challenge && (not (fresh c) || not (healthy c) || not (disabled c)))
            (λ f.
              if-both SoundAnswer (not (healthy c)) (λ h. latch_fault-Sound efault false c s)
                (λ h. s))
            (λ f. s))

  pub enable-Sound :
      (c : Controller D)
      → Sound c
      → c.lifecycle ≡ lifecycle_disarmed
      → c.deadman_active ≡ true
      → Sound (enable c).1
  unfolding enable
  enable-Sound c s l dm = published-Sound _ ok 0 ok _ (enable-Safe s l dm)

  pub arm-Sound : (r : Challenge) (c : Controller D) → Sound c → Sound (arm r c).1
  unfolding arm
  arm-Sound r c s =
      if-both SoundTurn (not (c.lifecycle == lifecycle_disarmed)) (λ e. s)
        (λ l.
          if-both SoundTurn (not (live_challenge r c)) (λ e. s)
            (λ e.
              if-both SoundTurn (not (fresh c)) (λ e. s)
                (λ e.
                  if-both SoundTurn (not (healthy c) || not (disabled c) || not c.deadman_active)
                    (λ f. latch_fault-Sound _ false c s)
                    (λ f. enable-Sound c s (ground arith) (ground arith)))))

  latch_estop-Sound :
      (c : Controller D)
      → (c.options.backend ≡ 1) ⊎ (c.options.backend ≡ 2)
      → IsValid c.events
      → Sound (latch_estop c).1
  unfolding latch_estop interlock_arms retire materialize_stop
  latch_estop-Sound c k v =
      let dropped : Controller D = record c { executing = none; command_id = 0 } in
      published-Sound _ eestop c.command_id eestop _ (
        if-both (λ (n : Controller D). Sound (estopped c n))
          (c.lifecycle == lifecycle_closed || c.lifecycle == lifecycle_verifying)
          (λ e. estop-Safe c.options.backend c.deadman_active _ c.events k v (
            live-off _ (powered-retire _ ∙ powered-off c.arms.of_left)
              (powered-retire _ ∙ powered-off c.arms.of_right)))
          (λ e. estop-Safe c.options.backend c.deadman_active _ c.events k v (stop-off dropped)))

  pub set_interlock-Sound :
      (estop deadman : Bool) (c : Controller D) → Sound c → Sound (set_interlock estop deadman c).1
  unfolding set_interlock
  set_interlock-Sound estop deadman c s =
      if-both SoundTurn (estop || not deadman)
        (λ e. latch_estop-Sound (record c { deadman_active = deadman }) s.known s.queue)
        (λ e. held-Safe (ground arith) s)

  settle_stop-Sound :
      (kind id : ℕ) (c : Controller D)
      → c.options.backend ≡ 1
      → c.deadman_active ≡ true
      → IsValid c.events
      → Sound (settle_stop kind id c).1
  unfolding settle_stop materialize_stop
  settle_stop-Sound kind id c b dm v = published-Sound _ ok id ok _ (
      if-both (λ (n : Controller D). Sound (record n { active_stop_kind = stop_disable }))
        (kind == stop_disable)
        (λ e.
          disarmed-Safe c.options.backend c.deadman_active _ c.events (inl b) v b
            (stop-off (record c { executing = none; command_id = 0 })))
        (λ e. idle-Safe c.options.backend c.deadman_active _ c.events (inl b) v b dm))

  stopping-Sound :
      (kind : ℕ) (c : Controller D)
      → Sound c
      → (c.options.backend ≡ 1) × (c.deadman_active ≡ true)
      → let stopping : Controller D = record c { lifecycle = lifecycle_stopping } in
        let r =
          if has c.executing then publish aborted ok c.command_id stopping else (true, stopping) in
        Sound (if not r.0 then (ebusy, r.1) else settle_stop kind c.command_id r.1).1
  stopping-Sound kind c s v =
      let stopping : Controller D = record c { lifecycle = lifecycle_stopping } in
      let r : Bool × Controller D =
        if has c.executing then publish aborted ok c.command_id stopping else (true, stopping) in
      let p : Published stopping r =
        if-both (Published stopping) (has c.executing)
          (λ e. publish-Published aborted ok c.command_id stopping s.known s.queue)
          (λ e. record {
            lost = inl refl;
            same_options = refl;
            same_deadman = refl;
            queue = s.queue;
          }) in
      if-both SoundTurn (not r.0)
        (λ e. elim p.lost [ inl kept ↦ absurd (grind arith) | inr safe ↦ safe ])
        (λ e.
          settle_stop-Sound kind c.command_id r.1 (ap (λ o. o.backend) p.same_options ∙ v.0)
            (p.same_deadman ∙ v.1) p.queue)

  pub stop-Sound : (kind : ℕ) (c : Controller D) → Sound c → Sound (stop kind c).1
  unfolding stop
  stop-Sound kind c s =
      if-both SoundTurn (not (valid_stop_kind kind)) (λ e. s)
        (λ e.
          if-both SoundTurn
            (not (c.lifecycle == lifecycle_executing) && not (c.lifecycle == lifecycle_armed_idle))
            (λ e. s) (λ e. stopping-Sound kind c s (armed-virtual s (stops_armed c.lifecycle e))))

  pub disarm-Sound : (deadline : ℕ) (c : Controller D) → Sound c → Sound (disarm deadline c).1
  unfolding disarm materialize_stop
  disarm-Sound deadline c s =
      if-both SoundTurn (ltb deadline c.now_ns) (λ e. s)
        (λ e.
          if-both SoundTurn
            (not (c.lifecycle == lifecycle_armed_idle)
              && not (c.lifecycle == lifecycle_executing)
              && not (c.lifecycle == lifecycle_disarmed))
            (λ e. s)
            (λ e. published-Sound _ ok 0 ok _ (
              disarmed-Safe c.options.backend c.deadman_active _ c.events s.known s.queue
                (serves-virtual s e) (stop-off (record c { executing = none; command_id = 0 })))))

  reset_arm-off : (a : Arm D) → powered (reset_arm a) ≡ false
  unfolding reset_arm
  reset_arm-off a = powered-retire _ ∙ powered-off _

  pub reset-Sound : (r : ResetRequest) (c : Controller D) → Sound c → Sound (reset r c).1
  unfolding reset
  reset-Sound r c s =
      if-both SoundTurn
        (not (c.lifecycle == lifecycle_fault) && not (c.lifecycle == lifecycle_estop)) (λ e. s)
        (λ e.
          if-both SoundTurn
            (not (r.verify_epoch == c.verify_epoch)
              || not (r.nonce == c.outstanding_nonce)
              || r.nonce == 0
              || ltb c.outstanding_challenge_expiry c.now_ns)
            (λ e. s)
            (λ f.
              reset-Safe s (ground arith)
                (live-off _ (reset_arm-off c.arms.of_left) (reset_arm-off c.arms.of_right))))

  pub heartbeat-Sound :
      (id deadline : ℕ) (c : Controller D) → Sound c → Sound (heartbeat id deadline c).1
  unfolding heartbeat
  heartbeat-Sound id deadline c s =
      if-both SoundTurn
        (not (c.lifecycle == lifecycle_executing) || id == 0 || not (id == c.command_id)) (λ e. s)
        (λ e.
          if-both SoundTurn (leb deadline c.now_ns) (λ e. latch_fault-Sound estale true c s)
            (λ e. s))

  pub revise-Sound :
      (n : ℕ) (c : Controller D) → Sound c → Sound (set_collision_scene_revision n c).1
  unfolding set_collision_scene_revision
  revise-Sound n c s =
      if-both SoundTurn (not (c.options.backend == backend_virtual) || n == 0) (λ e. s)
        (λ e. if-both SoundTurn (c.lifecycle == lifecycle_executing) (λ e. s) (λ e. s))

  pub poll-Sound : (c : Controller D) → Sound c → Sound (poll_event c).next
  unfolding poll_event
  poll-Sound c s = requeue s (ring_step-IsValid c.events polls s.queue)
