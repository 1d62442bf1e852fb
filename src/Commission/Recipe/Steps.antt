-- ===== src/Commission/Recipe/Steps.antt =====
-- The whole RecipeCalibrationSession::step: its input is checked first.
use open_arm_ik.Shared.{
  ◌⊎◌, inl, inr, Bool-cases, ◌==◌, ◌≢◌, ◌+◌, ◌≤◌, ◌<◌, ◌^◌, ◌≡◌, true, false, not, arith, if-both,
  nonzero, if◌then◌else◌,
}
use open_arm_ik.Shared.Double.{Double}
use open_arm_ik.Commission.Records.{Status, ok, is_ok}
use open_arm_ik.Commission.Recipe.Records.{
  RecipeState, precheck, wait, approach, contact_dwell, retreat, reapproach, repeatability,
  candidate, review, committed, aborted, Input, RecipeSession, Step,
}
use open_arm_ik.Commission.Recipe.Guards.{
  too_hot, too_strong, is_stale, well_formed_input, validate_input, validate_binding, action,
}
use open_arm_ik.Commission.Recipe.Session.{live_step, step_in, step}
use open_arm_ik.Commission.Recipe.Motion.{moves, Ordered}
use open_arm_ik.Commission.Recipe.Interlocks.{Cleared, stopped-Still, phase-Cleared, phase-Ordered}

module _ {D : Type 0} ⦃d : Double D⦄ where
  -- The session after a sample is taken in.
  abbrev pub noted : RecipeSession D → Input D → RecipeSession D
  noted m x = record m {
    last_feedback_seq = x.encoder.feedback_seq;
    last_sample_time_ns = x.encoder.sample_time_ns;
  }

  -- The evidence and the fixture are the ones that the recipe is bound to.
  abbrev pub Bound : RecipeSession D → Input D → Type 0
  Bound m x =
      (x.evidence_revision ≡ (
        if nonzero m.recipe.simulation_only
        then m.recipe.simulation_evidence_revision
        else m.recipe.qualification_revision))
      × (x.fixture_revision ≡ m.recipe.fixture_revision)

  validate_binding_lem :
      (m : RecipeSession D) (x : Input D)
      → is_ok (validate_binding m x).0 ≡ true
      → ((validate_binding m x).1 ≡ m) × Bound m x
  unfolding validate_binding
  validate_binding_lem m x h = ground arith

  -- What an accepted input shows.
  abbrev pub Accepted : RecipeSession D → Input D → Type 0
  Accepted m x =
      (well_formed_input x ≡ true)
      × (m.last_feedback_seq < x.encoder.feedback_seq)
      × (m.last_sample_time_ns < x.encoder.sample_time_ns)
      × (x.encoder.sample_time_ns ≤ x.now_ns)
      × (x.now_ns ≤ x.encoder.sample_time_ns + m.recipe.maximum_sample_age_ns)
      × (x.encoder.drive_fault ≡ 0)
      × (too_hot m x ≡ false)
      × Bound m x

  fresh_lem :
      (m : RecipeSession D) (x : Input D)
      → is_stale m x ≡ false
      → (m.last_feedback_seq < x.encoder.feedback_seq)
        × (m.last_sample_time_ns < x.encoder.sample_time_ns)
        × (x.encoder.sample_time_ns ≤ x.now_ns)
        × (x.now_ns ≤ x.encoder.sample_time_ns + m.recipe.maximum_sample_age_ns)
  unfolding is_stale
  fresh_lem m x h = ground arith

  pub validate_input_lem :
      (m : RecipeSession D) (x : Input D)
      → is_ok (validate_input m x).0 ≡ true
      → ((validate_input m x).1 ≡ noted m x) × Accepted m x
  unfolding validate_input
  validate_input_lem m x h =
      let P : Status × RecipeSession D → Type 0 =
        λ v. is_ok v.0 ≡ true → (v.1 ≡ noted m x) × Accepted m x in
      if-both P (not (well_formed_input x)) (λ e k. absurd (cc))
        (λ formed.
          if-both P (is_stale m x) (λ e k. absurd (cc))
            (λ fresh.
              if-both P (nonzero x.encoder.drive_fault) (λ e k. absurd (cc))
                (λ sound.
                  if-both P (too_hot m x) (λ e k. absurd (cc))
                    (λ cool k.
                      let b = validate_binding_lem (noted m x) x k in
                      let f = fresh_lem m x fresh in
                      (b.0, (ground arith, f.0, f.1, f.2, f.3, ground arith, cool, b.1))))))
        h

  live_step-moves :
      (m : RecipeSession D) (x : Input D)
      → x.now_ns < 2 ^ 64
      → moves (live_step m x).action.kind ≡ true
      → Accepted m x × Cleared m x (live_step m x) × Ordered m.recipe x (live_step m x)
  unfolding live_step too_strong too_hot
  live_step-moves m x w =
      let v = validate_input m x in
      let P : Step D → Type 0 =
        λ s. moves s.action.kind ≡ true → Accepted m x × Cleared m x s × Ordered m.recipe x s in
      if-both P (not (is_ok v.0)) (λ e k. absurd (ground (arith, stopped-Still v.0 v.1 x)))
        (λ e k.
          let h = validate_input_lem m x (ground arith) in
          (
            h.1,
            rw (h.0)
                (let c = phase-Cleared m.state (noted m x) x in record { cleared = c.cleared }),
            rw (h.0) (phase-Ordered m.state (noted m x) x w),
          ))

  step_in-Guarded :
      (t : RecipeState) (m : RecipeSession D) (x : Input D)
      → x.now_ns < 2 ^ 64
      → moves (step_in t m x).action.kind ≡ true
      → Accepted m x × Cleared m x (step_in t m x) × Ordered m.recipe x (step_in t m x)
  unfolding step_in action
  step_in-Guarded precheck m x w k = live_step-moves m x w k
  step_in-Guarded wait m x w k = live_step-moves m x w k
  step_in-Guarded approach m x w k = live_step-moves m x w k
  step_in-Guarded contact_dwell m x w k = live_step-moves m x w k
  step_in-Guarded retreat m x w k = live_step-moves m x w k
  step_in-Guarded reapproach m x w k = live_step-moves m x w k
  step_in-Guarded repeatability m x w k = live_step-moves m x w k
  step_in-Guarded candidate m x w k = live_step-moves m x w k
  step_in-Guarded review m x w k = live_step-moves m x w k
  step_in-Guarded committed m x w k = absurd (cc)
  step_in-Guarded aborted m x w k = absurd (cc)

  -- The operator's contacts and the limits of the recipe, for an order to move.
  abbrev pub Guarded : RecipeSession D → Input D → Step D → Type 0
  Guarded m x s =
      (x.estop_clear ≢ 0)
      × (x.deadman_held ≢ 0)
      × ((x.encoder.drive_enabled ≡ 0) ⊎ (too_strong m x ≡ false))
      × (s.status ≡ ok)
      × (x.now_ns ≤ s.action.valid_until_ns)
      × (s.action.maximum_speed_rad_s ≡ m.recipe.maximum_speed_rad_s)
      × (s.action.maximum_torque_nm ≡ m.recipe.maximum_torque_nm)
      × ((s.action.direction ≡ m.recipe.approach_direction)
          ⊎ (s.action.direction ≡ d.neg m.recipe.approach_direction))

  enabled_or_not :
      (m : RecipeSession D) (x : Input D)
      → (x.encoder.drive_enabled ≢ 0 → too_strong m x ≡ false)
      → (x.encoder.drive_enabled ≡ 0) ⊎ (too_strong m x ≡ false)
  enabled_or_not m x h = elim (Bool-cases (x.encoder.drive_enabled == 0)) [
    | inl e ↦ inl (ground arith)
    | inr e ↦ inr (h (λ z. ground arith))
  ]

  -- Whenever a step lets the joint move (approach, contact dwell, retreat or reapproach), the call
  -- returns OK, the emergency stop is clear and the deadman is held, the sample is well formed,
  -- newer than the last one taken by number and time, not in the future and not too old, shows no
  -- fault and no temperature over the limit, and is of the evidence and fixture that the recipe is
  -- bound to; the drive is disabled or within the limits of the recipe, and the action carries the
  -- recipe's limits of speed and torque, goes along the axis of approach and is valid at this time.
  -- The time is a uint64_t.
  pub step-Guarded :
      (m : RecipeSession D) (x : Input D)
      → x.now_ns < 2 ^ 64
      → moves (step m x).action.kind ≡ true
      → Accepted m x × Guarded m x (step m x)
  unfolding step
  step-Guarded m x w k =
      let (seen, c, o) = step_in-Guarded m.state m x w k in
      let (e, h, l) = c.cleared k in
      let (s, v, f, t, a) = o.ordered k in (seen, (e, h, enabled_or_not m x l, s, v, f, t, a))
