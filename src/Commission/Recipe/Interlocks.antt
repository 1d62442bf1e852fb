-- ===== src/Commission/Recipe/Interlocks.antt =====
-- What the input of a recipe step shows when the step lets the joint move.
use open_arm_ik.Shared.{◌<◌, ◌^◌, ◌≡◌, ◌≢◌, refl, true, false, not, arith, if-both, nonzero, ◌||◌}
use open_arm_ik.Shared.Double.{Double}
use open_arm_ik.Commission.Records.{Status, estate, is_ok}
use open_arm_ik.Commission.Recipe.Records.{
  hold_disabled, to_approach, RecipeState, precheck, wait, approach, contact_dwell, retreat,
  reapproach, repeatability, candidate, review, committed, aborted, Recipe, Input, RecipeSession,
  Step,
}
use open_arm_ik.Commission.Recipe.Guards.{
  too_strong, enforce_motion_limits, action, stopped, refused, granted,
}
use open_arm_ik.Commission.Recipe.Phases.{
  precheck_phase, wait_phase, approach_moving, contact_dwell_moving, retreat_moving,
  reapproach_moving, limited, repeatability_phase, candidate_phase, review_phase, start_approach,
}
use open_arm_ik.Commission.Recipe.Session.{phase}
use open_arm_ik.Commission.Recipe.Motion.{
  moves, Ordered, OrderedAfter, saturating_add_above, granted-Ordered, stopped-Ordered,
  refused-Ordered, approach_moving-Ordered, contact_dwell_moving-Ordered, retreat_moving-Ordered,
  reapproach_moving-Ordered, enforce_motion_limits_lem,
}

module _ {D : Type 0} ⦃d : Double D⦄ where
  -- A step that does not let the joint move.
  abbrev pub Still : Step D → Type 0
  Still s = moves s.action.kind ≡ false

  precheck_phase-Still : (m : RecipeSession D) (x : Input D) → Still (precheck_phase m x)
  unfolding precheck_phase refused stopped granted action
  precheck_phase-Still m x = ground arith

  repeatability_phase-Still : (m : RecipeSession D) (x : Input D) → Still (repeatability_phase m x)
  unfolding repeatability_phase refused stopped granted action
  repeatability_phase-Still m x = ground arith

  candidate_phase-Still : (m : RecipeSession D) (x : Input D) → Still (candidate_phase m x)
  unfolding candidate_phase refused stopped granted action
  candidate_phase-Still m x = ground arith

  review_phase-Still : (m : RecipeSession D) (x : Input D) → Still (review_phase m x)
  unfolding review_phase refused stopped granted action
  review_phase-Still m x = ground arith

  pub stopped-Still : (e : Status) (m : RecipeSession D) (x : Input D) → Still (stopped e m x)
  unfolding stopped action
  stopped-Still e m x = refl

  hold-Still : (m : RecipeSession D) (x : Input D) → Still (granted hold_disabled m x)
  unfolding granted action
  hold-Still m x = refl

  -- Both contacts of the operator are held, and an enabled drive keeps within the limits.
  pub record Cleared (m : RecipeSession D) (x : Input D) (s : Step D) : Type 0 where
    pub cleared :
        moves s.action.kind ≡ true
        → (x.estop_clear ≢ 0)
          × (x.deadman_held ≢ 0)
          × (x.encoder.drive_enabled ≢ 0 → too_strong m x ≡ false)

  pub Still-Cleared : (m : RecipeSession D) (x : Input D) (s : Step D) → Still s → Cleared m x s
  Still-Cleared m x s h = record { cleared = λ k. absurd (ground arith) }

  pub Still-Ordered :
      (m : RecipeSession D) (x : Input D) (s : Step D) → Still s → Ordered m.recipe x s
  Still-Ordered m x s h = record { ordered = λ k. absurd (ground arith) }

  wait_phase-Cleared : (m : RecipeSession D) (x : Input D) → Cleared m x (wait_phase m x)
  unfolding wait_phase refused stopped granted action
  wait_phase-Cleared m x = record { cleared = λ k. ground arith }

  wait_phase-Ordered : OrderedAfter {D = D} wait_phase
  unfolding wait_phase start_approach
  wait_phase-Ordered m x w =
      let P : Step D → Type 0 = Ordered m.recipe x in
      if-both P (not (nonzero x.estop_clear) || nonzero x.encoder.drive_enabled)
        (λ e. refused-Ordered m.recipe _ _ m x)
        (λ e.
          if-both P (not (nonzero x.deadman_held) || not (nonzero x.operator_ready))
            (λ e'. Still-Ordered m x (granted hold_disabled m x) (hold-Still m x))
            (λ e'. granted-Ordered to_approach _ x (saturating_add_above x.now_ns _ w)))

  limited-Cleared :
      (moving : RecipeSession D → Input D → Step D) (m : RecipeSession D) (x : Input D)
      → Cleared m x (limited moving m x)
  unfolding limited
  limited-Cleared moving m x =
      let v = enforce_motion_limits m x in
      if-both (Cleared m x) (not (is_ok v.0))
        (λ e. Still-Cleared m x (stopped v.0 v.1 x) (stopped-Still v.0 v.1 x))
        (λ e.
          let h = enforce_motion_limits_lem m x (ground arith) in
          record { cleared = λ k. (h.0, h.1, λ n. h.3) })

  Ordered-along :
      (r q : Recipe D) (x : Input D) (s : Step D) → r ≡ q → Ordered r x s → Ordered q x s
  Ordered-along r q x s e o = rw⁻¹ e o

  limited-Ordered :
      (moving : RecipeSession D → Input D → Step D)
      → OrderedAfter moving
      → OrderedAfter (limited moving)
  unfolding limited
  limited-Ordered moving rest m x w =
      let v = enforce_motion_limits m x in
      if-both (Ordered m.recipe x) (not (is_ok v.0)) (λ e. stopped-Ordered m.recipe v.0 v.1 x)
        (λ e.
          let h = enforce_motion_limits_lem m x (ground arith) in
          Ordered-along v.1.recipe m.recipe x (moving v.1 x) h.4 (rest v.1 x w))

  pub phase-Cleared :
      (t : RecipeState) (m : RecipeSession D) (x : Input D) → Cleared m x (phase t m x)
  unfolding phase
  phase-Cleared precheck m x = Still-Cleared m x (precheck_phase m x) (precheck_phase-Still m x)
  phase-Cleared wait m x = wait_phase-Cleared m x
  phase-Cleared approach m x = limited-Cleared approach_moving m x
  phase-Cleared contact_dwell m x = limited-Cleared contact_dwell_moving m x
  phase-Cleared retreat m x = limited-Cleared retreat_moving m x
  phase-Cleared reapproach m x = limited-Cleared reapproach_moving m x
  phase-Cleared repeatability m x =
      Still-Cleared m x (repeatability_phase m x) (repeatability_phase-Still m x)
  phase-Cleared candidate m x = Still-Cleared m x (candidate_phase m x) (candidate_phase-Still m x)
  phase-Cleared review m x = Still-Cleared m x (review_phase m x) (review_phase-Still m x)
  phase-Cleared committed m x = Still-Cleared m x (stopped estate m x) (stopped-Still estate m x)
  phase-Cleared aborted m x = Still-Cleared m x (stopped estate m x) (stopped-Still estate m x)

  pub phase-Ordered :
      (t : RecipeState) (m : RecipeSession D) (x : Input D)
      → x.now_ns < 2 ^ 64
      → Ordered m.recipe x (phase t m x)
  unfolding phase
  phase-Ordered precheck m x w = Still-Ordered m x (precheck_phase m x) (precheck_phase-Still m x)
  phase-Ordered wait m x w = wait_phase-Ordered m x w
  phase-Ordered approach m x w = limited-Ordered approach_moving approach_moving-Ordered m x w
  phase-Ordered contact_dwell m x w =
      limited-Ordered contact_dwell_moving contact_dwell_moving-Ordered m x w
  phase-Ordered retreat m x w = limited-Ordered retreat_moving retreat_moving-Ordered m x w
  phase-Ordered reapproach m x w = limited-Ordered reapproach_moving reapproach_moving-Ordered m x w
  phase-Ordered repeatability m x w =
      Still-Ordered m x (repeatability_phase m x) (repeatability_phase-Still m x)
  phase-Ordered candidate m x w =
      Still-Ordered m x (candidate_phase m x) (candidate_phase-Still m x)
  phase-Ordered review m x w = Still-Ordered m x (review_phase m x) (review_phase-Still m x)
  phase-Ordered committed m x w = stopped-Ordered m.recipe estate m x
  phase-Ordered aborted m x w = stopped-Ordered m.recipe estate m x
