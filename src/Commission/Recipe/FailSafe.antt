-- ===== src/Commission/Recipe/FailSafe.antt =====
-- What a recipe step that is refused leaves behind.
use open_arm_ik.Shared.{◌≡◌, refl, Bool, true, false, not, arith, if-both}
use open_arm_ik.Shared.Double.{Double}
use open_arm_ik.Commission.Records.{Status, is_ok}
use open_arm_ik.Commission.Recipe.Records.{
  abort_disable, RecipeState, precheck, wait, approach, contact_dwell, retreat, reapproach,
  repeatability, candidate, review, committed, aborted, Input, RecipeSession, Step,
}
use open_arm_ik.Commission.Recipe.Guards.{
  validate_input, validate_binding, update_energy, enforce_motion_limits, fail, action, stopped,
  refused, granted,
}
use open_arm_ik.Commission.Recipe.Phases.{
  precheck_phase, wait_phase, approach_moving, contact_dwell_moving, retreat_moving, second_contact,
  reapproach_moving, limited, repeatability_phase, candidate_phase, review_phase,
}
use open_arm_ik.Commission.Recipe.Session.{phase, live_step, step_in, step}

-- The state of a session that still takes steps.
abbrev pub is_live : RecipeState → Bool
is_live committed = false
is_live aborted = false
is_live _ = true

module _ {D : Type 0} ⦃d : Double D⦄ where
  -- The session is aborted and holds no candidate.
  abbrev pub Disarmed : RecipeSession D → Type 0
  Disarmed n = (n.state ≡ aborted) × (n.candidate_a ≡ d.nought) × (n.candidate_b ≡ d.nought)

  abbrev pub FailSafe : Step D → Type 0
  FailSafe s = is_ok s.status ≡ false → (s.action.kind ≡ abort_disable) × Disarmed s.next

  validate_binding-Disarmed :
      (m : RecipeSession D) (x : Input D)
      → is_ok (validate_binding m x).0 ≡ false
      → Disarmed (validate_binding m x).1
  unfolding validate_binding fail
  validate_binding-Disarmed m x h = ground arith

  pub validate_input-Disarmed :
      (m : RecipeSession D) (x : Input D)
      → is_ok (validate_input m x).0 ≡ false
      → Disarmed (validate_input m x).1
  unfolding validate_input fail
  validate_input-Disarmed m x h =
      let n : RecipeSession D = record m {
        last_feedback_seq = x.encoder.feedback_seq;
        last_sample_time_ns = x.encoder.sample_time_ns;
      } in
      ground (arith, validate_binding-Disarmed n x)

  update_energy-Disarmed :
      (m : RecipeSession D) (x : Input D)
      → is_ok (update_energy m x).0 ≡ false
      → Disarmed (update_energy m x).1
  unfolding update_energy fail
  update_energy-Disarmed m x h = ground arith

  enforce_motion_limits-Disarmed :
      (m : RecipeSession D) (x : Input D)
      → is_ok (enforce_motion_limits m x).0 ≡ false
      → Disarmed (enforce_motion_limits m x).1
  unfolding enforce_motion_limits fail
  enforce_motion_limits-Disarmed m x h = ground (arith, update_energy-Disarmed m x)

  precheck_phase-FailSafe : (m : RecipeSession D) (x : Input D) → FailSafe (precheck_phase m x)
  unfolding precheck_phase refused stopped granted action fail
  precheck_phase-FailSafe m x h = ground arith

  wait_phase-FailSafe : (m : RecipeSession D) (x : Input D) → FailSafe (wait_phase m x)
  unfolding wait_phase refused stopped granted action fail
  wait_phase-FailSafe m x h = ground arith

  approach_moving-FailSafe : (m : RecipeSession D) (x : Input D) → FailSafe (approach_moving m x)
  unfolding approach_moving refused stopped granted action fail
  approach_moving-FailSafe m x h = ground arith

  contact_dwell_moving-FailSafe :
      (m : RecipeSession D) (x : Input D) → FailSafe (contact_dwell_moving m x)
  unfolding contact_dwell_moving refused stopped granted action fail
  contact_dwell_moving-FailSafe m x h = ground arith

  retreat_moving-FailSafe : (m : RecipeSession D) (x : Input D) → FailSafe (retreat_moving m x)
  unfolding retreat_moving refused stopped granted action fail
  retreat_moving-FailSafe m x h = ground arith

  reapproach_moving-FailSafe :
      (m : RecipeSession D) (x : Input D) → FailSafe (reapproach_moving m x)
  unfolding reapproach_moving second_contact refused stopped granted action fail
  reapproach_moving-FailSafe m x h = ground arith

  repeatability_phase-FailSafe :
      (m : RecipeSession D) (x : Input D) → FailSafe (repeatability_phase m x)
  unfolding repeatability_phase refused stopped granted action fail
  repeatability_phase-FailSafe m x h = ground arith

  candidate_phase-FailSafe : (m : RecipeSession D) (x : Input D) → FailSafe (candidate_phase m x)
  unfolding candidate_phase refused stopped granted action fail
  candidate_phase-FailSafe m x h = ground arith

  review_phase-FailSafe : (m : RecipeSession D) (x : Input D) → FailSafe (review_phase m x)
  unfolding review_phase refused stopped granted action fail
  review_phase-FailSafe m x h = ground arith

  stopped-FailSafe :
      (e : Status) (m : RecipeSession D) (x : Input D)
      → (is_ok e ≡ false → Disarmed m)
      → FailSafe (stopped e m x)
  unfolding stopped action
  stopped-FailSafe e m x h k = (refl, h k)

  limited-FailSafe :
      (moving : RecipeSession D → Input D → Step D)
      → ((m : RecipeSession D) (x : Input D) → FailSafe (moving m x))
      → (m : RecipeSession D) (x : Input D) → FailSafe (limited moving m x)
  unfolding limited
  limited-FailSafe moving rest m x =
      let v = enforce_motion_limits m x in
      if-both FailSafe (not (is_ok v.0))
        (λ e. stopped-FailSafe v.0 v.1 x (enforce_motion_limits-Disarmed m x)) (λ e. rest v.1 x)

  phase-FailSafe :
      (t : RecipeState) (m : RecipeSession D) (x : Input D)
      → is_live t ≡ true
      → FailSafe (phase t m x)
  unfolding phase
  phase-FailSafe precheck m x l = precheck_phase-FailSafe m x
  phase-FailSafe wait m x l = wait_phase-FailSafe m x
  phase-FailSafe approach m x l = limited-FailSafe approach_moving approach_moving-FailSafe m x
  phase-FailSafe contact_dwell m x l =
      limited-FailSafe contact_dwell_moving contact_dwell_moving-FailSafe m x
  phase-FailSafe retreat m x l = limited-FailSafe retreat_moving retreat_moving-FailSafe m x
  phase-FailSafe reapproach m x l =
      limited-FailSafe reapproach_moving reapproach_moving-FailSafe m x
  phase-FailSafe repeatability m x l = repeatability_phase-FailSafe m x
  phase-FailSafe candidate m x l = candidate_phase-FailSafe m x
  phase-FailSafe review m x l = review_phase-FailSafe m x
  phase-FailSafe committed m x l = absurd (cc)
  phase-FailSafe aborted m x l = absurd (cc)

  live_step-FailSafe :
      (m : RecipeSession D) (x : Input D) → is_live m.state ≡ true → FailSafe (live_step m x)
  unfolding live_step
  live_step-FailSafe m x l =
      let v = validate_input m x in
      if-both FailSafe (not (is_ok v.0))
        (λ e. stopped-FailSafe v.0 v.1 x (validate_input-Disarmed m x))
        (λ e. phase-FailSafe m.state v.1 x l)

  live_lem :
      (t : RecipeState) (m : RecipeSession D) (x : Input D)
      → is_live t ≡ true
      → step_in t m x ≡ live_step m x
  unfolding step_in
  live_lem t m x l = ground arith

  -- A step of a session that is neither committed nor aborted, and that does not return OK, orders
  -- the drive to be disabled, aborts the session and clears its candidate.
  pub step-FailSafe :
      (m : RecipeSession D) (x : Input D)
      → is_live m.state ≡ true
      → is_ok (step m x).status ≡ false
      → ((step m x).action.kind ≡ abort_disable) × Disarmed (step m x).next
  unfolding step
  step-FailSafe m x l = rw (live_lem m.state m x l) (live_step-FailSafe m x l)
