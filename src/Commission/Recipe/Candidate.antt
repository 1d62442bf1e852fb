-- ===== src/Commission/Recipe/Candidate.antt =====
-- The candidate of a recipe session and the patch that it commits
-- (commission/src/calibration_session.cpp).
use open_arm_ik.Shared.{◌≡◌, ◌∙◌, refl, Bool, true, false, not, arith, if-both}
use open_arm_ik.Shared.Double.{Double}
use open_arm_ik.Commission.Records.{Status, is_ok}
use open_arm_ik.Commission.Recipe.Records.{
  RecipeState, candidate, review, committed, Recipe, Input, RecipeSession, Step,
}
use open_arm_ik.Commission.Recipe.Guards.{
  update_energy, enforce_motion_limits, fail, stopped, refused, granted,
}
use open_arm_ik.Commission.Recipe.Phases.{
  precheck_phase, wait_phase, start_approach, approach_moving, first_contact, contact_dwell_moving,
  more_contact, start_retreat, retreat_moving, start_reapproach, second_contact, reapproach_moving,
  limited, repeatability_phase, candidate_phase, review_phase,
}

abbrev pub has_candidate : RecipeState → Bool
has_candidate candidate = true
has_candidate review = true
has_candidate committed = true
has_candidate _ = false

module _ {D : Type 0} ⦃d : Double D⦄ where
  -- The candidate is that of the two stops, which repeat within the tolerance.
  abbrev pub FromStops : Recipe D → RecipeSession D → Type 0
  FromStops r m =
      let a = d.of_int r.known_sign in
      (m.candidate_a ≡ a)
      × (m.candidate_b
          ≡ d.sub r.stop_model_rad (d.mul (d.mul a d.half) (d.add m.first_stop_q m.second_stop_q)))
      × (d.lt r.repeatability_tolerance_rad (d.abs (d.sub m.second_stop_q m.first_stop_q)) ≡ false)

  abbrev pub Inv : Recipe D → RecipeSession D → Type 0
  Inv r m = (m.recipe ≡ r) × (has_candidate m.state ≡ true → FromStops r m)

  -- No candidate yet, or none any more.
  abbrev pub Early : RecipeSession D → RecipeSession D → Type 0
  Early m n = (n.recipe ≡ m.recipe) × (has_candidate n.state ≡ false)

  abbrev pub EarlyStep : (RecipeSession D → Input D → Step D) → Type 0
  EarlyStep f =
      (m : RecipeSession D) (x : Input D) → has_candidate m.state ≡ false → Early m (f m x).next

  pub precheck_phase-Early : EarlyStep precheck_phase
  unfolding precheck_phase refused stopped granted fail
  precheck_phase-Early m x h = ground arith

  pub wait_phase-Early : EarlyStep wait_phase
  unfolding wait_phase start_approach refused stopped granted fail
  wait_phase-Early m x h = ground arith

  pub approach_moving-Early : EarlyStep approach_moving
  unfolding approach_moving first_contact refused stopped granted fail
  approach_moving-Early m x h = ground arith

  pub contact_dwell_moving-Early : EarlyStep contact_dwell_moving
  unfolding contact_dwell_moving more_contact start_retreat refused stopped granted fail
  contact_dwell_moving-Early m x h = ground arith

  pub retreat_moving-Early : EarlyStep retreat_moving
  unfolding retreat_moving start_reapproach refused stopped granted fail
  retreat_moving-Early m x h = ground arith

  pub reapproach_moving-Early : EarlyStep reapproach_moving
  unfolding reapproach_moving second_contact first_contact more_contact refused stopped granted fail
  reapproach_moving-Early m x h = ground arith

  pub update_energy-Early :
      (m : RecipeSession D) (x : Input D)
      → has_candidate m.state ≡ false
      → Early m (update_energy m x).1
  unfolding update_energy fail
  update_energy-Early m x h = ground arith

  pub enforce_motion_limits-Early :
      (m : RecipeSession D) (x : Input D)
      → has_candidate m.state ≡ false
      → Early m (enforce_motion_limits m x).1
  unfolding enforce_motion_limits fail
  enforce_motion_limits-Early m x h = ground (arith, update_energy-Early m x)

  pub Early-Inv : (r : Recipe D) (m n : RecipeSession D) → m.recipe ≡ r → Early m n → Inv r n
  Early-Inv r m n e h = (cc, λ k. absurd (ground arith))

  pub stopped_next : (e : Status) (m : RecipeSession D) (x : Input D) → (stopped e m x).next ≡ m
  unfolding stopped
  stopped_next e m x = refl

  pub limited-Early :
      (moving : RecipeSession D → Input D → Step D) → EarlyStep moving → EarlyStep (limited moving)
  unfolding limited
  limited-Early moving rest m x h =
      let v = enforce_motion_limits m x in
      let g = enforce_motion_limits-Early m x h in
      if-both (λ (s : Step D). Early m s.next) (not (is_ok v.0))
        (λ e. rw (stopped_next v.0 v.1 x) g) (λ e. let k = rest v.1 x g.1 in (k.0 ∙ g.0, k.1))

  pub repeatability_phase-Inv :
      (r : Recipe D) (m : RecipeSession D) (x : Input D)
      → m.recipe ≡ r
      → Inv r (repeatability_phase m x).next
  unfolding repeatability_phase refused stopped granted fail
  repeatability_phase-Inv r m x e = (ground arith, λ k. rw⁻¹ e (stops m x k))
    where
      stops :
          (m : RecipeSession D) (x : Input D)
          → has_candidate (repeatability_phase m x).next.state ≡ true
          → FromStops m.recipe (repeatability_phase m x).next
      stops m x k = ground arith

  pub candidate_phase-Inv :
      (r : Recipe D) (m : RecipeSession D) (x : Input D)
      → has_candidate m.state ≡ true
      → Inv r m
      → Inv r (candidate_phase m x).next
  unfolding candidate_phase refused stopped granted fail
  candidate_phase-Inv r m x h v = ground (arith, v.1 h)

  pub review_phase-Inv :
      (r : Recipe D) (m : RecipeSession D) (x : Input D)
      → has_candidate m.state ≡ true
      → Inv r m
      → Inv r (review_phase m x).next
  unfolding review_phase refused stopped granted fail
  review_phase-Inv r m x h v = ground (arith, v.1 h)
