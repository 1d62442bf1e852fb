-- ===== src/Control/Run/Watchdog.antt =====
-- A plan does not run beyond its deadlines.
use open_arm_ik.Shared.{
  ℕ, ◌<◌, ◌≡◌, ◌≢◌, ◌⊎◌, refl, Bool, true, false, not, Option, none, ltb, ◌==◌, arith, if-both,
  option-both,
}
use open_arm_ik.Shared.Double.{Double}
use open_arm_ik.Control.Codes.{Status, EventKind, lifecycle_fault, lifecycle_executing}
use open_arm_ik.Control.Ring.{capacity}
use open_arm_ik.Control.Plan.{MotionPlan}
use open_arm_ik.Control.Controller.{
  Controller, has, publish, published, append, overflowed, materialize_stop, latch_fault,
}
use open_arm_ik.Control.Controller.Geometry.{Geometry}
use open_arm_ik.Control.Controller.Advance.{
  advance, advance_clear, cycle, cycle_fault, drive, follow, plan_fault, runs,
}

executing-runs : (l : ℕ) → l ≡ lifecycle_executing → runs l ≡ true
unfolding runs
executing-runs l e = ground arith

module _ {D : Type 0} ⦃d : Double D⦄ where
  -- The lifecycle is FAULT and there is no plan.
  record Faulted (n : Controller D) : Type 0 where
    lifecycle : n.lifecycle ≡ lifecycle_fault
    no_plan : has n.executing ≡ false
    no_command : n.command_id ≡ 0

  published-Faulted :
      (k : EventKind) (cause : Status) (id : ℕ) (status : Status) (c : Controller D)
      → Faulted c
      → Faulted (published k cause id status c).1
  unfolding published publish append overflowed materialize_stop
  published-Faulted k cause id status c f =
      if-both (λ (r : Bool × Controller D). Faulted r.1) (c.events.count == capacity)
        (λ e. record { lifecycle = refl; no_plan = refl; no_command = refl })
        (λ e. record { lifecycle = f.lifecycle; no_plan = f.no_plan; no_command = f.no_command })

  latch_fault-Faulted :
      (cause : Status) (available : Bool) (c : Controller D)
      → Faulted (latch_fault cause available c).1
  unfolding latch_fault materialize_stop
  latch_fault-Faulted cause available c =
      published-Faulted _ cause c.command_id cause _
        (record { lifecycle = refl; no_plan = refl; no_command = refl })

  abbrev FaultedTurn : Status × Controller D → Type 0
  FaultedTurn r = Faulted r.1

  -- One of the two deadlines of the running plan has passed.
  abbrev pub Late : Controller D → Type 0
  Late c = (c.producer_deadline_ns < c.now_ns) ⊎ (c.command_expiry_ns < c.now_ns)

  Late-faults : (p : MotionPlan D) (c : Controller D) → Late c → plan_fault p c ≢ none
  unfolding plan_fault
  Late-faults p c l =
      if-both Fails (ltb c.producer_deadline_ns c.now_ns) (λ e h. absurd (cc))
        (λ e.
          if-both Fails (ltb c.command_expiry_ns c.now_ns) (λ e h. absurd (cc))
            (λ f. absurd (grind arith)))
    where
      Fails : Option (Status × Bool) → Type 0
      Fails r = r ≢ none

  follow-Faulted :
      (g : Geometry D) (previous : ℕ) (p : MotionPlan D) (c : Controller D)
      → Late c
      → Faulted (follow g previous p c).1
  unfolding follow
  follow-Faulted g previous p c l =
      option-both FaultedTurn (plan_fault p c) (λ e. absurd (Late-faults p c l e))
        (λ f e. latch_fault-Faulted f.0 f.1 c)

  drive-Faulted :
      (g : Geometry D) (previous : ℕ) (c : Controller D)
      → c.lifecycle ≡ lifecycle_executing
      → has c.executing ≡ true
      → Late c
      → Faulted (drive g previous c).1
  unfolding drive
  drive-Faulted g previous c x h l =
      if-both FaultedTurn (not (c.lifecycle == lifecycle_executing)) (λ e. absurd (ground arith))
        (λ e.
          option-both FaultedTurn c.executing (λ e. absurd (ground arith))
            (λ p e. follow-Faulted g previous p c l))

  cycle-Faulted :
      (g : Geometry D) (previous : ℕ) (c : Controller D)
      → c.lifecycle ≡ lifecycle_executing
      → has c.executing ≡ true
      → Late c
      → Faulted (cycle g previous c).1
  unfolding cycle
  cycle-Faulted g previous c x h l =
      let r = executing-runs c.lifecycle x in
      if-both FaultedTurn (not (runs c.lifecycle)) (λ e. absurd (ground arith))
        (λ e.
          option-both FaultedTurn (cycle_fault previous c) (λ e. drive-Faulted g previous c x h l)
            (λ f e. latch_fault-Faulted f.0 f.1 c))

  clear-Faulted :
      (g : Geometry D) (t : ℕ) (c : Controller D)
      → c.lifecycle ≡ lifecycle_executing
      → has c.executing ≡ true
      → c.now_ns < t
      → (c.producer_deadline_ns < t) ⊎ (c.command_expiry_ns < t)
      → Faulted (advance_clear g t c).1
  unfolding advance_clear
  clear-Faulted g t c x h later late =
      if-both FaultedTurn (ltb t c.now_ns) (λ e. absurd (grind arith))
        (λ e.
          if-both FaultedTurn (t == c.now_ns) (λ e. absurd (grind arith))
            (λ e. cycle-Faulted g c.now_ns (record c { now_ns = t }) x h late))

-- An advance to a later time at which the producer's deadline or the expiry of the running plan
-- has passed, with no emergency stop, leaves the lifecycle FAULT, no plan and no command.
pub advance_late :
    {D : Type 0} ⦃d : Double D⦄ (g : Geometry D) (t : ℕ) (c : Controller D)
    → c.lifecycle ≡ lifecycle_executing
    → has c.executing ≡ true
    → c.now_ns < t
    → (c.producer_deadline_ns < t) ⊎ (c.command_expiry_ns < t)
    → let n = (advance g false t c).1 in
      (n.lifecycle ≡ lifecycle_fault) × (has n.executing ≡ false) × (n.command_id ≡ 0)
unfolding advance
advance_late g t c x h later late =
    let f = clear-Faulted g t (record c { estop_latched = false }) x h later late in
    (f.lifecycle, f.no_plan, f.no_command)
