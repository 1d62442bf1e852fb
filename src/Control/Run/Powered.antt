-- ===== src/Control/Run/Powered.antt =====
-- When a motor can be enabled, a plan can run, and events can be waiting, whatever was called.
use open_arm_ik.Shared.{
  ℕ, ◌≤◌, ◌<◌, ◌≡◌, ◌⊎◌, inl, inr, refl, ap, Bool, true, false, Option, some, none, List, [], ◌∷◌,
  ◌==◌, arith, if-both, map,
}
use open_arm_ik.Shared.Double.{Double}
use open_arm_ik.Control.Codes.{
  lifecycle_armed_idle, lifecycle_executing, lifecycle_fault, backend_virtual,
}
use open_arm_ik.Control.Config.{ManifestConfig, ArmConfig, MotorConfig, Options}
use open_arm_ik.Control.Ring.Contents.{empty-IsValid}
use open_arm_ik.Control.Motor
use open_arm_ik.Control.Arm
use open_arm_ik.Control.Arm.Power.{any_enabled, powered}
use open_arm_ik.Control.Controller.{Controller, create, initial, valid_options, has, no_event}
use open_arm_ik.Control.Controller.Geometry.{Geometry}
use open_arm_ik.Control.Run.{
  Call, opens, challenges, arms, plans, prepares, executes, advances, faults, obstructs, places,
  beats, interlocks, revises, stops, disarms, resets, polls, step, run,
}
use open_arm_ik.Control.Run.Safe.{may_hold, is_resting, is_grounded, closed-Safe}
use open_arm_ik.Control.Controller.Advance.{is_armed}
use open_arm_ik.Control.Run.Sound.{Sound, live, live-off}
use open_arm_ik.Control.Run.Arming.{
  open-Sound, challenge-Sound, arm-Sound, set_interlock-Sound, stop-Sound, disarm-Sound,
  reset-Sound, heartbeat-Sound, revise-Sound, poll-Sound,
}
use open_arm_ik.Control.Run.Moving.{
  plan-Sound, prepare-Sound, execute-Sound, fault-Sound, place-Sound, obstruct-Sound,
}
use open_arm_ik.Control.Run.Cycle.{advance-Sound}

some-injective : {A : Type 0} {a b : A} → some a ≡ some b → a ≡ b
some-injective {a = a} e = ap (λ o. elim o [ none ↦ a | some x ↦ x ]) e

known_backend : (o : Options) → valid_options o ≡ true → (o.backend ≡ 1) ⊎ (o.backend ≡ 2)
unfolding valid_options
known_backend o e = grind arith

held_where :
    {b : ℕ} {on dm : Bool} (l : ℕ)
    → (on ≡ false) ⊎ ((b ≡ 1) × (dm ≡ true) × (may_hold l ≡ true))
    → (on ≡ false)
      ⊎ ((b ≡ 1)
          × (dm ≡ true)
          × ((l ≡ lifecycle_armed_idle) ⊎ ((l ≡ lifecycle_executing) ⊎ (l ≡ lifecycle_fault))))
unfolding may_hold is_armed
held_where l (inl e) = inl e
held_where l (inr (v, dm, h)) = inr (v, dm, grind arith)

module _ {D : Type 0} ⦃d : Double D⦄ where
  fresh_motors-off : (ms : List (MotorConfig D)) → any_enabled (map Motor.create ms) ≡ false
  unfolding any_enabled Motor.create
  fresh_motors-off [] = refl
  fresh_motors-off (m ∷ ms) = fresh_motors-off ms

  fresh_arm-off : (a : ArmConfig D) → powered (Arm.create a) ≡ false
  unfolding powered Arm.create
  fresh_arm-off a = fresh_motors-off a.motor

  initial-Sound :
      (m : ManifestConfig D) (o : Options) (i : ℕ) → valid_options o ≡ true → Sound (initial m o i)
  unfolding initial Arm.create
  initial-Sound m o i e =
      closed-Safe o.backend true _ _ (known_backend o e) (empty-IsValid no_event)
        (live-off _ (fresh_arm-off m.arm.of_left) (fresh_arm-off m.arm.of_right))

  create-Sound :
      (m : ManifestConfig D) (o : Options) (i : ℕ) (c : Controller D)
      → create m o i ≡ some c
      → Sound c
  unfolding create
  create-Sound m o i c =
      if-both (λ (r : Option (Controller D)). r ≡ some c → Sound c) (valid_options o)
        (λ v e. rw (← some-injective {a = initial m o i} {b = c} e) (initial-Sound m o i v))
        (λ v e. absurd (cc))

  module _ (g : Geometry D) where
    step-Sound : (c : Controller D) (k : Call D) → Sound c → Sound (step g c k)
    unfolding step
    step-Sound c opens s = open-Sound c s
    step-Sound c challenges s = challenge-Sound c s
    step-Sound c (arms r) s = arm-Sound r c s
    step-Sound c (plans r) s = plan-Sound r c s
    step-Sound c (prepares estop) s = prepare-Sound estop c s
    step-Sound c (executes p r) s = execute-Sound g p r c s
    step-Sound c (advances estop t) s = advance-Sound g estop t c s
    step-Sound c (faults f) s = fault-Sound f c s
    step-Sound c (obstructs x) s = obstruct-Sound x c s
    step-Sound c (places x) s = place-Sound x c s
    step-Sound c (beats id deadline) s = heartbeat-Sound id deadline c s
    step-Sound c (interlocks estop deadman) s = set_interlock-Sound estop deadman c s
    step-Sound c (revises n) s = revise-Sound n c s
    step-Sound c (stops kind) s = stop-Sound kind c s
    step-Sound c (disarms deadline) s = disarm-Sound deadline c s
    step-Sound c (resets r) s = reset-Sound r c s
    step-Sound c polls s = poll-Sound c s

    pub run-Sound : (c : Controller D) (ks : List (Call D)) → Sound c → Sound (run g c ks)
    unfolding run
    run-Sound c [] s = s
    run-Sound c (k ∷ ks) s = run-Sound (step g c k) ks (step-Sound c k s)

-- A controller that a constructor made, after any calls, has an enabled motor only if its backend
-- is the virtual one, the deadman is held, and its lifecycle is ARMED_IDLE, EXECUTING or FAULT.
pub run_powered :
    {D : Type 0} ⦃d : Double D⦄ (g : Geometry D) (m : ManifestConfig D) (o : Options) (i : ℕ)
    (c : Controller D) (ks : List (Call D))
    → create m o i ≡ some c
    → let n = run g c ks in
      (live n.arms ≡ false)
      ⊎ ((n.options.backend ≡ backend_virtual)
          × (n.deadman_active ≡ true)
          × ((n.lifecycle ≡ lifecycle_armed_idle)
              ⊎ ((n.lifecycle ≡ lifecycle_executing) ⊎ (n.lifecycle ≡ lifecycle_fault))))
run_powered g m o i c ks e = held_where _ (run-Sound g c ks (create-Sound m o i c e)).power

-- A controller that a constructor made, after any calls, holds a plan exactly if its lifecycle is
-- EXECUTING, and without a plan its command is 0; its lifecycle is CLOSED, DISARMED, ARMED_IDLE,
-- EXECUTING, FAULT or ESTOP; and a physical backend leaves it in CLOSED, FAULT or ESTOP.
pub run_lifecycle :
    {D : Type 0} ⦃d : Double D⦄ (g : Geometry D) (m : ManifestConfig D) (o : Options) (i : ℕ)
    (c : Controller D) (ks : List (Call D))
    → create m o i ≡ some c
    → let n = run g c ks in
      (has n.executing ≡ (n.lifecycle == lifecycle_executing))
      × ((has n.executing ≡ true) ⊎ (n.command_id ≡ 0))
      × (is_resting n.lifecycle ≡ true)
      × ((n.options.backend ≡ backend_virtual) ⊎ (is_grounded n.lifecycle ≡ true))
run_lifecycle g m o i c ks e =
    let s = run-Sound g c ks (create-Sound m o i c e) in (s.plan, s.command, s.rests, s.by_backend)

-- A controller that a constructor made, after any calls, has at most 64 events waiting, the oldest
-- at an index below 64.
pub run_events_bounded :
    {D : Type 0} ⦃d : Double D⦄ (g : Geometry D) (m : ManifestConfig D) (o : Options) (i : ℕ)
    (c : Controller D) (ks : List (Call D))
    → create m o i ≡ some c
    → let n = run g c ks in (n.events.count ≤ 64) × (n.events.head < 64)
run_events_bounded g m o i c ks e =
    let s = run-Sound g c ks (create-Sound m o i c e) in (s.queue.count_in, s.queue.head_in)
