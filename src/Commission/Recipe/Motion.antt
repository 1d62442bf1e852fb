-- ===== src/Commission/Recipe/Motion.antt =====
-- When a recipe session lets the joint move.
use open_arm_ik.Shared.{
  ℕ, ◌≤◌, ◌<◌, ◌^◌, ◌≡◌, ◌≢◌, ◌⊎◌, inl, inr, refl, Bool, true, false, not, arith, if-both, nonzero,
  ◌||◌, ◌==◌,
}
use open_arm_ik.Shared.Double.{Double}
use open_arm_ik.Commission.Records.{Status, ok, is_ok}
use open_arm_ik.Commission.Recipe.Records.{
  ActionKind, no_action, hold_disabled, to_approach, to_contact_dwell, to_retreat, to_reapproach,
  ask_review, commit_ready, abort_disable, AbortReason, Recipe, Input, RecipeSession, Step,
}
use open_arm_ik.Commission.Recipe.Guards.{
  saturating_add, too_strong, update_energy, enforce_motion_limits, fail, action, stopped, refused,
  granted,
}
use open_arm_ik.Commission.Recipe.Phases.{
  approach_moving, contact_dwell_moving, retreat_moving, reapproach_moving, second_contact, is_late,
  approach_outside, approach_contact, contact_lost, retreat_outside, retreat_done,
  reapproach_outside, reapproach_contact, dwelling, start_retreat, start_reapproach, first_contact,
  more_contact,
}

-- The actions that let the joint move.
abbrev pub moves : ActionKind → Bool
moves to_approach = true
moves to_contact_dwell = true
moves to_retreat = true
moves to_reapproach = true
moves _ = false

pub saturating_add_above : (a b : ℕ) → a < 2 ^ 64 → a ≤ saturating_add a b
unfolding saturating_add
saturating_add_above a b h = ground arith

module _ {D : Type 0} ⦃d : Double D⦄ where
  -- An order to move keeps within the recipe and is valid for now.
  pub record Ordered (r : Recipe D) (x : Input D) (s : Step D) : Type 0 where
    pub ordered :
        moves s.action.kind ≡ true
        → (s.status ≡ ok)
          × (x.now_ns ≤ s.action.valid_until_ns)
          × (s.action.maximum_speed_rad_s ≡ r.maximum_speed_rad_s)
          × (s.action.maximum_torque_nm ≡ r.maximum_torque_nm)
          × ((s.action.direction ≡ r.approach_direction)
              ⊎ (s.action.direction ≡ d.neg r.approach_direction))

  pub stopped-Ordered :
      (r : Recipe D) (e : Status) (m : RecipeSession D) (x : Input D) → Ordered r x (stopped e m x)
  unfolding stopped action
  stopped-Ordered r e m x = record { ordered = λ h. absurd (ground arith) }

  pub refused-Ordered :
      (r : Recipe D) (e : Status) (a : AbortReason) (m : RecipeSession D) (x : Input D)
      → Ordered r x (refused e a m x)
  unfolding refused
  refused-Ordered r e a m x = stopped-Ordered r e (fail m a) x

  pub granted-Ordered :
      (kind : ActionKind) (m : RecipeSession D) (x : Input D)
      → x.now_ns ≤ m.phase_deadline_ns
      → Ordered m.recipe x (granted kind m x)
  unfolding granted action
  granted-Ordered to_approach m x h = record { ordered = λ k. (refl, h, refl, refl, inl refl) }
  granted-Ordered to_contact_dwell m x h = record { ordered = λ k. (refl, h, refl, refl, inl refl) }
  granted-Ordered to_retreat m x h = record { ordered = λ k. (refl, h, refl, refl, inr refl) }
  granted-Ordered to_reapproach m x h = record { ordered = λ k. (refl, h, refl, refl, inl refl) }
  granted-Ordered no_action m x h = record { ordered = λ k. absurd (cc) }
  granted-Ordered hold_disabled m x h = record { ordered = λ k. absurd (cc) }
  granted-Ordered ask_review m x h = record { ordered = λ k. absurd (cc) }
  granted-Ordered commit_ready m x h = record { ordered = λ k. absurd (cc) }
  granted-Ordered abort_disable m x h = record { ordered = λ k. absurd (cc) }

  -- A test of the deadline comes before the last two outcomes of a phase.
  abbrev pub OrderedAfter : (RecipeSession D → Input D → Step D) → Type 0
  OrderedAfter moving =
      (m : RecipeSession D) (x : Input D) → x.now_ns < 2 ^ 64 → Ordered m.recipe x (moving m x)

  in_time :
      (m : RecipeSession D) (x : Input D) → is_late m x ≡ false → x.now_ns ≤ m.phase_deadline_ns
  unfolding is_late
  in_time m x h = ground arith

  pub approach_moving-Ordered : OrderedAfter approach_moving
  unfolding approach_moving first_contact
  approach_moving-Ordered m x w =
      let P : Step D → Type 0 = Ordered m.recipe x in
      if-both P (approach_outside m x) (λ e. refused-Ordered m.recipe _ _ m x)
        (λ e.
          if-both P (is_late m x) (λ e. refused-Ordered m.recipe _ _ m x)
            (λ e.
              if-both P (approach_contact m x)
                (λ e'. granted-Ordered to_contact_dwell _ x (in_time m x e))
                (λ e'. granted-Ordered to_approach m x (in_time m x e))))

  pub contact_dwell_moving-Ordered : OrderedAfter contact_dwell_moving
  unfolding contact_dwell_moving more_contact start_retreat
  contact_dwell_moving-Ordered m x w =
      let P : Step D → Type 0 = Ordered m.recipe x in
      if-both P (is_late m x) (λ e. refused-Ordered m.recipe _ _ m x)
        (λ e.
          if-both P (contact_lost m x) (λ e'. refused-Ordered m.recipe _ _ m x)
            (λ e'.
              if-both P (dwelling (more_contact m x) x)
                (λ e''. granted-Ordered to_contact_dwell _ x (in_time m x e))
                (λ e''. granted-Ordered to_retreat _ x (saturating_add_above x.now_ns _ w))))

  pub retreat_moving-Ordered : OrderedAfter retreat_moving
  unfolding retreat_moving start_reapproach
  retreat_moving-Ordered m x w =
      let P : Step D → Type 0 = Ordered m.recipe x in
      if-both P (retreat_outside m x) (λ e. refused-Ordered m.recipe _ _ m x)
        (λ e.
          if-both P (is_late m x) (λ e. refused-Ordered m.recipe _ _ m x)
            (λ e.
              if-both P (retreat_done m x)
                (λ e'. granted-Ordered to_reapproach _ x (saturating_add_above x.now_ns _ w))
                (λ e'. granted-Ordered to_retreat m x (in_time m x e))))

  second_contact-Ordered :
      (m : RecipeSession D) (x : Input D)
      → x.now_ns ≤ m.phase_deadline_ns
      → Ordered m.recipe x (second_contact m x)
  unfolding second_contact more_contact
  second_contact-Ordered m x h =
      let P : Step D → Type 0 = Ordered m.recipe x in
      if-both P (not (reapproach_contact m x)) (λ e. refused-Ordered m.recipe _ _ m x)
        (λ e.
          if-both P (dwelling (more_contact m x) x) (λ e'. granted-Ordered to_contact_dwell _ x h)
            (λ e'. granted-Ordered hold_disabled _ x h))

  pub reapproach_moving-Ordered : OrderedAfter reapproach_moving
  unfolding reapproach_moving first_contact
  reapproach_moving-Ordered m x w =
      let P : Step D → Type 0 = Ordered m.recipe x in
      if-both P (reapproach_outside m x) (λ e. refused-Ordered m.recipe _ _ m x)
        (λ e.
          if-both P (is_late m x) (λ e. refused-Ordered m.recipe _ _ m x)
            (λ e.
              if-both P m.second_contact_active (λ e'. second_contact-Ordered m x (in_time m x e))
                (λ e'.
                  if-both P (reapproach_contact m x)
                    (λ e''. granted-Ordered to_contact_dwell _ x (in_time m x e))
                    (λ e''. granted-Ordered to_reapproach m x (in_time m x e)))))

  -- The limits are kept: what the input shows, and the energy of the session that goes on.
  abbrev pub WithinLimits : RecipeSession D → Input D → RecipeSession D → Type 0
  WithinLimits m x n =
      (x.estop_clear ≢ 0)
      × (x.deadman_held ≢ 0)
      × (x.encoder.drive_enabled ≢ 0)
      × (too_strong m x ≡ false)
      × (n.recipe ≡ m.recipe)

  update_energy_recipe :
      (m : RecipeSession D) (x : Input D) → (update_energy m x).1.recipe ≡ m.recipe
  unfolding update_energy fail
  update_energy_recipe m x =
      let P : Status × RecipeSession D → Type 0 = λ r. r.1.recipe ≡ m.recipe in
      if-both P (m.last_energy_time_ns == 0) (λ e. refl)
        (λ e. if-both P _ (λ e'. refl) (λ e'. refl))

  pub enforce_motion_limits_lem :
      (m : RecipeSession D) (x : Input D)
      → is_ok (enforce_motion_limits m x).0 ≡ true
      → WithinLimits m x (enforce_motion_limits m x).1
  unfolding enforce_motion_limits
  enforce_motion_limits_lem m x =
      let P : Status × RecipeSession D → Type 0 = λ r. is_ok r.0 ≡ true → WithinLimits m x r.1 in
      if-both P (not (nonzero x.estop_clear) || not (nonzero x.deadman_held)) (λ e h. absurd (cc))
        (λ e.
          if-both P (not (nonzero x.encoder.drive_enabled)) (λ e' h. absurd (cc))
            (λ e'.
              if-both P (too_strong m x) (λ f h. absurd (cc))
                (λ f h. (ground arith, ground arith, ground arith, f, update_energy_recipe m x))))
