-- ===== src/Control/Run/Emergency.antt =====
-- What the emergency stop does to a controller.
use open_arm_ik.Shared.{ℕ, ◌≡◌, ◌⊎◌, refl, true, false}
use open_arm_ik.Shared.Double.{Double}
use open_arm_ik.Control.Codes.{Status, eestop, ebusy, lifecycle_fault, lifecycle_estop}
use open_arm_ik.Control.Controller.{Controller, has}
use open_arm_ik.Control.Controller.Planning.{plan_preconditions}
use open_arm_ik.Control.Controller.Geometry.{Geometry}
use open_arm_ik.Control.Controller.Advance.{advance, stop_at_once}
use open_arm_ik.Control.Run.Sound.{live}

module _ {D : Type 0} ⦃d : Double D⦄ where
  -- No motor is enabled and there is no plan.
  record Halted (n : Controller D) : Type 0 where
    unpowered : live n.arms ≡ false
    no_plan : has n.executing ≡ false
    no_command : n.command_id ≡ 0

  record Stopped (r : Status × Controller D) : Type 0 where
    halted : Halted r.1
    told :
        ((r.0 ≡ eestop) × (r.1.lifecycle ≡ lifecycle_estop))
        ⊎ ((r.0 ≡ ebusy) × (r.1.lifecycle ≡ lifecycle_fault))

-- When plan_preconditions is called while the emergency stop is asserted, it returns EESTOP; the
-- next advance, with the stop still asserted, returns EESTOP too and leaves the arms, the
-- lifecycle, the plan and the command as they were before both calls; and an advance after that,
-- with the stop released, does what it would have done had neither call been made, on the clock
-- that the first advance left.
pub preconditions_mask_estop :
    {D : Type 0} ⦃d : Double D⦄ (g : Geometry D) (t : ℕ) (c : Controller D)
    → let p = plan_preconditions true c in
      let r = advance g true t p.1 in
      (p.0 ≡ eestop)
      × (r.0 ≡ eestop)
      × (r.1.arms ≡ c.arms)
      × (r.1.lifecycle ≡ c.lifecycle)
      × (r.1.executing ≡ c.executing)
      × (r.1.command_id ≡ c.command_id)
      × ((u : ℕ) → advance g false u r.1 ≡ advance g false u (record c { now_ns = r.1.now_ns }))
unfolding advance stop_at_once plan_preconditions
preconditions_mask_estop g t c = (refl, refl, refl, refl, refl, refl, λ u. refl)
