-- ===== src/Control/Controller/Obstacle.antt =====
-- The obstacle of the simulation, which holds an arm where it touches it.
use open_arm_ik.Shared.{
  ℕ, Bool, true, not, ◌&&◌, ◌||◌, Option, none, some, ◌==◌, nonzero, if◌then◌else◌,
}
use open_arm_ik.Shared.Double.{Double}
use open_arm_ik.Control.Codes.{Status, ok, einval, eunsupported, left, right, backend_virtual}
use open_arm_ik.Control.Config.{side_of, set_side}
use open_arm_ik.Control.Plan.{SimContact}
use open_arm_ik.Control.Arm.{Arm, measured_q, clear_contact, set_blocked}
use open_arm_ik.Control.Controller.{Controller}
use open_arm_ik.Control.Controller.Geometry.{KinematicResult, Geometry}

module _ {D : Type 0} ⦃d : Double D⦄ where
  unfoldable pub magnitude : D × D × D → D
  magnitude p = d.sqrt (d.add (d.add (d.mul p.0 p.0) (d.mul p.1 p.1)) (d.mul p.2 p.2))

  unfoldable pub finite_point : D × D × D → Bool
  finite_point p = d.is_finite p.0 && d.is_finite p.1 && d.is_finite p.2

  -- sim_contact_[side] holds the arm where it is, or nothing does.
  unfoldable pub obstruct : SimContact D → Option (KinematicResult D) → Arm D → Arm D
  obstruct contact none a = clear_contact a
  obstruct contact (some k) a =
      let p = k.tcp_xyz in
      let o = contact.center_m in
      let depth = magnitude (d.sub p.0 o.0, d.sub p.1 o.1, d.sub p.2 o.2) in
      if contact.enabled == 0
      then clear_contact a
      else if not (d.is_finite depth) || not (d.lt depth contact.radius_m)
      then clear_contact a
      else set_blocked true contact.reaction_gain_nm_per_rad a

  unfoldable pub set_sim_contact : SimContact D → Controller D → Status × Controller D
  set_sim_contact contact c =
      if not (c.options.backend == backend_virtual)
      then (eunsupported, c)
      else if not (contact.side == left) && not (contact.side == right)
      then (einval, c)
      else if nonzero contact.enabled
          && (not (finite_point contact.center_m)
              || not (d.is_finite contact.radius_m)
              || d.le contact.radius_m d.nought
              || not (d.is_finite contact.reaction_gain_nm_per_rad)
              || d.lt contact.reaction_gain_nm_per_rad d.nought)
      then (einval, c)
      else let placed : Controller D = record c {
        sim_contact = set_side c.sim_contact contact.side contact;
      } in
        (
          ok,
          if contact.enabled == 0
              then record placed {
                arms = set_side c.arms contact.side (clear_contact (side_of c.arms contact.side));
              }
              else placed,
        )

  module _ (g : Geometry D) where
    unfoldable pub obstruct_side : Controller D → ℕ → Arm D
    obstruct_side c side =
        obstruct (side_of c.sim_contact side) (g.forward side (measured_q (side_of c.arms side)))
          (side_of c.arms side)

    unfoldable pub apply_sim_contact : Controller D → Controller D
    apply_sim_contact c = record c {
      arms = record { of_left = obstruct_side c left; of_right = obstruct_side c right };
    }
