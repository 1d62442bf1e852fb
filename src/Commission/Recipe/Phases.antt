-- ===== src/Commission/Recipe/Phases.antt =====
-- The phases of RecipeCalibrationSession::step, one function for each case of its switch
-- (commission/src/calibration_session.cpp). A `_moving` function is the rest of a case once the
-- motion limits are kept.
use open_arm_ik.Shared.{
  sub64, ◌+◌, ◌%◌, ◌^◌, Bool, true, false, ◌&&◌, ◌||◌, not, ltb, ◌==◌, if◌then◌else◌, nonzero,
}
use open_arm_ik.Shared.Double.{Double}
use open_arm_ik.Commission.Records.{estate, einterlock, elimit, erepeatability, efault, is_ok}
use open_arm_ik.Commission.Recipe.Records.{
  wait, approach, contact_dwell, retreat, reapproach, repeatability, candidate, review,
  hold_disabled, to_approach, to_contact_dwell, to_retreat, to_reapproach, ask_review, commit_ready,
  interlock, over_limit, timeout, lost_contact, not_repeatable, review_rejected, Input,
  RecipeSession, Step,
}
use open_arm_ik.Commission.Recipe.Guards.{
  saturating_add, too_hot, enforce_motion_limits, directional_travel, contact_evidence, stopped,
  refused, granted,
}

module _ {D : Type 0} ⦃d : Double D⦄ where
  unfoldable pub precheck_phase : RecipeSession D → Input D → Step D
  precheck_phase m x =
      if not (nonzero x.estop_clear)
        || nonzero x.encoder.drive_enabled
        || d.lt x.encoder.q_output_rad m.recipe.start_min_output_rad
        || d.lt m.recipe.start_max_output_rad x.encoder.q_output_rad
        || too_hot m x
      then refused einterlock interlock m x
      else granted hold_disabled (record m { state = wait }) x

  unfoldable pub start_approach : RecipeSession D → Input D → RecipeSession D
  start_approach m x = record m {
    state = approach;
    phase_start_ns = x.now_ns;
    phase_start_q = x.encoder.q_output_rad;
    envelope_start_q = x.encoder.q_output_rad;
    envelope_end_q =
        d.add x.encoder.q_output_rad
          (d.mul m.recipe.approach_direction m.recipe.maximum_approach_travel_rad);
    phase_deadline_ns = saturating_add x.now_ns m.recipe.maximum_approach_time_ns;
    last_energy_time_ns = x.encoder.sample_time_ns;
  }

  unfoldable pub wait_phase : RecipeSession D → Input D → Step D
  wait_phase m x =
      if not (nonzero x.estop_clear) || nonzero x.encoder.drive_enabled
      then refused einterlock interlock m x
      else if not (nonzero x.deadman_held) || not (nonzero x.operator_ready)
      then granted hold_disabled m x
      else granted to_approach (start_approach m x) x

  -- The first sample of a contact.
  unfoldable pub first_contact : RecipeSession D → Input D → RecipeSession D
  first_contact m x = record m {
    dwell_start_ns = x.encoder.sample_time_ns;
    contact_samples = 1;
    contact_sum_q = x.encoder.q_output_rad;
  }

  -- One more; the count is a uint32_t.
  unfoldable pub more_contact : RecipeSession D → Input D → RecipeSession D
  more_contact m x = record m {
    contact_samples = (m.contact_samples + 1) % 2 ^ 32;
    contact_sum_q = d.add m.contact_sum_q x.encoder.q_output_rad;
  }

  unfoldable pub dwelling : RecipeSession D → Input D → Bool
  dwelling m x =
      ltb (sub64 x.encoder.sample_time_ns m.dwell_start_ns) m.recipe.contact_dwell_ns
      || ltb m.contact_samples m.recipe.minimum_contact_samples

  unfoldable pub mean_stop : RecipeSession D → D
  mean_stop m = d.div m.contact_sum_q (d.of_nat m.contact_samples)

  -- The travel from the start of the envelope.
  abbrev envelope_travel : RecipeSession D → Input D → D
  envelope_travel m x =
      directional_travel m.envelope_start_q x.encoder.q_output_rad m.recipe.approach_direction

  unfoldable pub is_late : RecipeSession D → Input D → Bool
  is_late m x = ltb m.phase_deadline_ns x.now_ns

  unfoldable pub approach_outside : RecipeSession D → Input D → Bool
  approach_outside m x =
      let travel = envelope_travel m x in
      d.lt travel (d.neg d.micro) || d.lt m.recipe.maximum_approach_travel_rad travel

  unfoldable pub approach_contact : RecipeSession D → Input D → Bool
  approach_contact m x = contact_evidence m x (envelope_travel m x)

  unfoldable pub approach_moving : RecipeSession D → Input D → Step D
  approach_moving m x =
      if approach_outside m x
      then refused elimit over_limit m x
      else if is_late m x
      then refused elimit timeout m x
      else if approach_contact m x
      then granted to_contact_dwell (record (first_contact m x) { state = contact_dwell }) x
      else granted to_approach m x

  unfoldable pub start_retreat : RecipeSession D → Input D → RecipeSession D
  start_retreat m x = record m {
    first_stop_q = mean_stop m;
    state = retreat;
    phase_start_ns = x.now_ns;
    phase_start_q = x.encoder.q_output_rad;
    phase_deadline_ns = saturating_add x.now_ns m.recipe.maximum_retreat_time_ns;
  }

  unfoldable pub contact_lost : RecipeSession D → Input D → Bool
  contact_lost m x =
      let travel = envelope_travel m x in
      d.lt m.recipe.maximum_approach_travel_rad travel || not (contact_evidence m x travel)

  unfoldable pub contact_dwell_moving : RecipeSession D → Input D → Step D
  contact_dwell_moving m x =
      let n = more_contact m x in
      if is_late m x
      then refused elimit timeout m x
      else if contact_lost m x
      then refused efault lost_contact m x
      else if dwelling n x
      then granted to_contact_dwell n x
      else granted to_retreat (start_retreat n x) x

  unfoldable pub start_reapproach : RecipeSession D → Input D → RecipeSession D
  start_reapproach m x = record m {
    state = reapproach;
    phase_start_ns = x.now_ns;
    phase_start_q = x.encoder.q_output_rad;
    phase_deadline_ns = saturating_add x.now_ns m.recipe.maximum_approach_time_ns;
    last_energy_time_ns = x.encoder.sample_time_ns;
    second_contact_active = false;
    contact_samples = 0;
    contact_sum_q = d.nought;
  }

  abbrev retreat_travel : RecipeSession D → Input D → D
  retreat_travel m x =
      directional_travel m.phase_start_q x.encoder.q_output_rad (d.neg m.recipe.approach_direction)

  unfoldable pub retreat_outside : RecipeSession D → Input D → Bool
  retreat_outside m x =
      let r = m.recipe in
      let travel = retreat_travel m x in
      let global_travel = envelope_travel m x in
      d.lt travel (d.neg d.micro)
      || d.lt (d.add r.retreat_distance_rad r.repeatability_tolerance_rad) travel
      || d.lt global_travel (d.neg d.micro)
      || d.lt r.maximum_approach_travel_rad global_travel

  unfoldable pub retreat_done : RecipeSession D → Input D → Bool
  retreat_done m x =
      d.le m.recipe.retreat_distance_rad (retreat_travel m x)
      && d.le (d.abs x.encoder.dq_output_rad_s) m.recipe.contact_velocity_rad_s

  unfoldable pub retreat_moving : RecipeSession D → Input D → Step D
  retreat_moving m x =
      if retreat_outside m x
      then refused elimit over_limit m x
      else if is_late m x
      then refused elimit timeout m x
      else if retreat_done m x
      then granted to_reapproach (start_reapproach m x) x
      else granted to_retreat m x

  abbrev reapproach_travel : RecipeSession D → Input D → D
  reapproach_travel m x =
      directional_travel m.phase_start_q x.encoder.q_output_rad m.recipe.approach_direction

  unfoldable pub reapproach_outside : RecipeSession D → Input D → Bool
  reapproach_outside m x =
      let global_travel = envelope_travel m x in
      d.lt (reapproach_travel m x) (d.neg d.micro)
      || d.lt global_travel (d.neg d.micro)
      || d.lt m.recipe.maximum_approach_travel_rad global_travel

  unfoldable pub reapproach_contact : RecipeSession D → Input D → Bool
  reapproach_contact m x = contact_evidence m x (reapproach_travel m x)

  -- The second contact is active.
  unfoldable pub second_contact : RecipeSession D → Input D → Step D
  second_contact m x =
      let n = more_contact m x in
      if not (reapproach_contact m x)
      then refused efault lost_contact m x
      else if dwelling n x
      then granted to_contact_dwell n x
      else granted hold_disabled (record n { second_stop_q = mean_stop n; state = repeatability }) x

  unfoldable pub reapproach_moving : RecipeSession D → Input D → Step D
  reapproach_moving m x =
      if reapproach_outside m x
      then refused elimit over_limit m x
      else if is_late m x
      then refused elimit timeout m x
      else if m.second_contact_active
      then second_contact m x
      else if reapproach_contact m x
      then granted to_contact_dwell (record (first_contact m x) { second_contact_active = true }) x
      else granted to_reapproach m x

  -- The motion limits come first in every phase that moves.
  unfoldable pub limited : (RecipeSession D → Input D → Step D) → RecipeSession D → Input D → Step D
  limited moving m x =
      let limits = enforce_motion_limits m x in
      if not (is_ok limits.0) then stopped limits.0 limits.1 x else moving limits.1 x

  unfoldable pub repeatability_phase : RecipeSession D → Input D → Step D
  repeatability_phase m x =
      let a = d.of_int m.recipe.known_sign in
      if not (nonzero x.estop_clear)
        || not (nonzero x.deadman_held)
        || nonzero x.encoder.drive_enabled
      then refused einterlock interlock m x
      else if d.lt m.recipe.repeatability_tolerance_rad
          (d.abs (d.sub m.second_stop_q m.first_stop_q))
      then refused erepeatability not_repeatable m x
      else granted ask_review
          (record m {
            candidate_a = a;
            candidate_b =
                d.sub m.recipe.stop_model_rad
                  (d.mul (d.mul a d.half) (d.add m.first_stop_q m.second_stop_q));
            state = candidate;
          })
          x

  unfoldable pub candidate_phase : RecipeSession D → Input D → Step D
  candidate_phase m x =
      if not (nonzero x.estop_clear) || nonzero x.encoder.drive_enabled
      then refused einterlock interlock m x
      else if x.review_decision == 2
      then refused estate review_rejected m x
      else if x.review_decision == 1
      then granted commit_ready (record m { state = review }) x
      else granted ask_review m x

  unfoldable pub review_phase : RecipeSession D → Input D → Step D
  review_phase m x =
      if not (nonzero x.estop_clear) || nonzero x.encoder.drive_enabled || x.review_decision == 2
      then refused estate review_rejected m x
      else granted commit_ready m x
