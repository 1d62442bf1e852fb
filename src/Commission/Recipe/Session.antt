-- ===== src/Commission/Recipe/Session.antt =====
-- The methods of RecipeCalibrationSession (commission/src/calibration_session.cpp). Its switch has
-- a case for each state that is left to it, so its default is never taken.
use open_arm_ik.Shared.{ℕ, Bool, true, false, not, Option, none, some, leb, if◌then◌else◌, nonzero}
use open_arm_ik.Shared.Double.{Double}
use open_arm_ik.Commission.Text.{copy_text}
use open_arm_ik.Commission.Records.{Status, ok, einval, estate, is_ok, MappingPatch}
use open_arm_ik.Commission.Recipe.Records.{
  RecipeState, precheck, wait, approach, contact_dwell, retreat, reapproach, repeatability,
  candidate, review, committed, aborted, no_action, abort_disable, no_reason, by_caller, Recipe,
  Input, RecipeReport, RecipeSession, Step,
}
use open_arm_ik.Commission.Recipe.Guards.{fail, validate_input, action, stopped}
use open_arm_ik.Commission.Recipe.Phases.{
  precheck_phase, wait_phase, approach_moving, contact_dwell_moving, retreat_moving,
  reapproach_moving, limited, repeatability_phase, candidate_phase, review_phase,
}

-- The patch is written on success alone.
pub record RecipeCommit (D : Type 0) : Type 0 where
  pub status : Status
  pub patch : Option (MappingPatch D)
  pub next : RecipeSession D

abbrev pub is_review : RecipeState → Bool
is_review review = true
is_review _ = false

module _ {D : Type 0} ⦃d : Double D⦄ where
  unfoldable pub create : Recipe D → RecipeSession D
  create r = record {
    recipe = r;
    state = precheck;
    abort_reason = no_reason;
    last_feedback_seq = 0;
    last_sample_time_ns = 0;
    phase_start_ns = 0;
    phase_deadline_ns = 0;
    dwell_start_ns = 0;
    last_energy_time_ns = 0;
    contact_samples = 0;
    phase_start_q = d.nought;
    envelope_start_q = d.nought;
    envelope_end_q = d.nought;
    contact_sum_q = d.nought;
    first_stop_q = d.nought;
    second_stop_q = d.nought;
    candidate_a = d.nought;
    candidate_b = d.nought;
    contact_energy_j = d.nought;
    second_contact_active = false;
  }

  -- The switch, for the state that the session is in.
  unfoldable pub phase : RecipeState → RecipeSession D → Input D → Step D
  phase precheck m x = precheck_phase m x
  phase wait m x = wait_phase m x
  phase approach m x = limited approach_moving m x
  phase contact_dwell m x = limited contact_dwell_moving m x
  phase retreat m x = limited retreat_moving m x
  phase reapproach m x = limited reapproach_moving m x
  phase repeatability m x = repeatability_phase m x
  phase candidate m x = candidate_phase m x
  phase review m x = review_phase m x
  phase committed m x = stopped estate m x
  phase aborted m x = stopped estate m x

  unfoldable pub live_step : RecipeSession D → Input D → Step D
  live_step m x =
      let v = validate_input m x in
      if not (is_ok v.0) then stopped v.0 v.1 x else phase m.state v.1 x

  unfoldable pub step_in : RecipeState → RecipeSession D → Input D → Step D
  step_in aborted m x = record { status = estate; action = action m abort_disable x; next = m }
  step_in committed m x = record { status = estate; action = action m no_action x; next = m }
  step_in _ m x = live_step m x

  unfoldable pub step : RecipeSession D → Input D → Step D
  step m x = step_in m.state m x

  unfoldable pub patch_of : RecipeSession D → ℕ → MappingPatch D
  patch_of m revision =
      let r = m.recipe in
      let simulated = nonzero r.simulation_only in
      record {
        expected_revision = r.expected_revision;
        replacement_revision = revision;
        side = r.side;
        joint = r.joint;
        evidence_kind = if simulated then 3 else 2;
        recipe_kind = r.recipe_kind;
        qualification_revision =
            if simulated then r.simulation_evidence_revision else r.qualification_revision;
        fixture_revision = r.fixture_revision;
        a = m.candidate_a;
        b_rad = m.candidate_b;
        motor_serial = copy_text r.motor_serial;
        evidence_record =
            copy_text (if simulated then r.simulation_evidence_record else r.qualification_record);
      }

  unfoldable pub commit : RecipeSession D → ℕ → RecipeCommit D
  unfolding patch_of
  commit m revision =
      if not (is_review m.state)
      then record { status = estate; patch = none; next = m }
      else if leb revision m.recipe.expected_revision
      then record { status = einval; patch = none; next = m }
      else record {
        status = ok;
        patch = some (patch_of m revision);
        next = record m { state = committed };
      }

  unfoldable pub abort_in : RecipeState → RecipeSession D → Status × RecipeSession D
  abort_in aborted m = (estate, m)
  abort_in committed m = (estate, m)
  abort_in _ m = (ok, fail m by_caller)

  unfoldable pub abort : RecipeSession D → Status × RecipeSession D
  unfolding abort_in
  abort m = abort_in m.state m

  unfoldable pub report : RecipeSession D → RecipeReport D
  report m = record {
    state = m.state;
    abort_reason = m.abort_reason;
    last_feedback_seq = m.last_feedback_seq;
    first_stop_output_rad = m.first_stop_q;
    second_stop_output_rad = m.second_stop_q;
    candidate_a = m.candidate_a;
    candidate_b_rad = m.candidate_b;
    accumulated_contact_energy_j = m.contact_energy_j;
  }
