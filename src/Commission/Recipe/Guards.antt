-- ===== src/Commission/Recipe/Guards.antt =====
-- The checks of a recipe session and the action that it hands out
-- (commission/src/calibration_session.cpp).
use open_arm_ik.Shared.{
  sub64, ℕ, ◌+◌, ◌-◌, ◌/◌, ◌%◌, ◌^◌, Bool, true, false, ◌&&◌, ◌||◌, not, List, ◌∷◌, ltb, leb, ◌==◌,
  if◌then◌else◌, nonzero,
}
use open_arm_ik.Shared.Double.{Double, max}
use open_arm_ik.Commission.Records.{
  Status, ok, einval, estale, einterlock, elimit, efault, valid_header, sample_size,
  recipe_input_size,
}
use open_arm_ik.Commission.Sampling.{finite_sample}
use open_arm_ik.Commission.Recipe.Records.{
  aborted, ActionKind, to_approach, to_contact_dwell, to_retreat, to_reapproach, AbortReason,
  bad_sample, stale, interlock, over_limit, unqualified, abort_disable, Input, NextAction,
  RecipeSession, Step,
}

-- On uint64_t arguments.
unfoldable pub saturating_add : ℕ → ℕ → ℕ
saturating_add left right = if ltb (2 ^ 64 - 1 - left) right then 2 ^ 64 - 1 else left + right

module _ {D : Type 0} ⦃d : Double D⦄ where
  unfoldable pub fail : RecipeSession D → AbortReason → RecipeSession D
  fail m reason = record m {
    state = aborted;
    abort_reason = reason;
    candidate_a = d.nought;
    candidate_b = d.nought;
  }

  -- The loop over the joints of the mask; the arrays have seven elements.
  unfoldable pub posture_matches : D → ℕ → List D → List D → Bool
  posture_matches tolerance mask (q ∷ qs) (r ∷ rs) =
      let rest = posture_matches tolerance (mask / 2) qs rs in
      if mask % 2 == 0
      then rest
      else if not (d.is_finite q) || d.lt tolerance (d.abs (d.sub q r))
      then false
      else rest
  posture_matches tolerance mask _ _ = true

  unfoldable pub validate_binding : RecipeSession D → Input D → Status × RecipeSession D
  validate_binding m x =
      let r = m.recipe in
      let expected =
        if nonzero r.simulation_only
        then r.simulation_evidence_revision
        else r.qualification_revision in
      if not (x.evidence_revision == expected) || not (x.fixture_revision == r.fixture_revision)
      then (efault, fail m unqualified)
      else if not (r.recipe_kind == 1)
      then (ok, m)
      else if not (x.posture_mask == r.required_posture_mask)
      then (efault, fail m unqualified)
      else if not (
          posture_matches r.posture_tolerance_rad r.required_posture_mask x.posture_output_rad
            r.required_posture_output_rad)
      then (efault, fail m unqualified)
      else (ok, m)

  unfoldable pub too_hot : RecipeSession D → Input D → Bool
  too_hot m x =
      d.lt m.recipe.maximum_temperature_c x.encoder.mos_temperature_c
      || d.lt m.recipe.maximum_temperature_c x.encoder.coil_temperature_c

  unfoldable pub well_formed_input : Input D → Bool
  well_formed_input x =
      valid_header x.struct_size x.abi_version recipe_input_size
      && valid_header x.encoder.struct_size x.encoder.abi_version sample_size
      && finite_sample x.encoder

  unfoldable pub is_stale : RecipeSession D → Input D → Bool
  is_stale m x =
      let s = x.encoder in
      s.feedback_seq == 0
      || leb s.feedback_seq m.last_feedback_seq
      || leb s.sample_time_ns m.last_sample_time_ns
      || ltb x.now_ns s.sample_time_ns
      || ltb m.recipe.maximum_sample_age_ns (x.now_ns - s.sample_time_ns)

  unfoldable pub validate_input : RecipeSession D → Input D → Status × RecipeSession D
  validate_input m x =
      let n : RecipeSession D = record m {
        last_feedback_seq = x.encoder.feedback_seq;
        last_sample_time_ns = x.encoder.sample_time_ns;
      } in
      if not (well_formed_input x)
      then (einval, fail m bad_sample)
      else if is_stale m x
      then (estale, fail m stale)
      else if nonzero x.encoder.drive_fault
      then (efault, fail n interlock)
      else if too_hot m x
      then (elimit, fail n over_limit)
      else validate_binding n x

  unfoldable pub update_energy : RecipeSession D → Input D → Status × RecipeSession D
  update_energy m x =
      let s = x.encoder in
      let seconds = d.mul (d.of_nat (sub64 s.sample_time_ns m.last_energy_time_ns)) d.nano in
      let energy =
        d.add m.contact_energy_j
          (d.mul (d.abs (d.mul s.torque_output_nm s.dq_output_rad_s)) seconds) in
      let timed : RecipeSession D = record m { last_energy_time_ns = s.sample_time_ns } in
      let spent : RecipeSession D = record timed { contact_energy_j = energy } in
      if m.last_energy_time_ns == 0
      then (ok, timed)
      else if not (d.is_finite energy) || d.lt m.recipe.maximum_contact_energy_j energy
      then (elimit, fail spent over_limit)
      else (ok, spent)

  unfoldable pub too_strong : RecipeSession D → Input D → Bool
  too_strong m x =
      d.lt m.recipe.maximum_speed_rad_s (d.abs x.encoder.dq_output_rad_s)
      || d.lt m.recipe.maximum_torque_nm (d.abs x.encoder.torque_output_nm)
      || too_hot m x

  unfoldable pub enforce_motion_limits : RecipeSession D → Input D → Status × RecipeSession D
  enforce_motion_limits m x =
      if not (nonzero x.estop_clear) || not (nonzero x.deadman_held)
      then (einterlock, fail m interlock)
      else if not (nonzero x.encoder.drive_enabled)
      then (einterlock, fail m interlock)
      else if too_strong m x
      then (elimit, fail m over_limit)
      else update_energy m x

  abbrev pub directional_travel : D → D → D → D
  directional_travel from to direction = d.mul direction (d.sub to from)

  unfoldable pub contact_evidence : RecipeSession D → Input D → D → Bool
  contact_evidence m x travel =
      nonzero x.encoder.drive_enabled
      && d.le m.recipe.minimum_contact_travel_rad travel
      && d.le (d.abs x.encoder.dq_output_rad_s) m.recipe.contact_velocity_rad_s
      && d.le m.recipe.minimum_contact_torque_nm (d.abs x.encoder.torque_output_nm)

  -- The action with the values that every kind has.
  plain_action : RecipeSession D → ActionKind → ℕ → NextAction D
  plain_action m kind until = record {
    kind = kind;
    state = m.state;
    valid_until_ns = until;
    direction = d.nought;
    target_output_rad = d.nought;
    maximum_speed_rad_s = m.recipe.maximum_speed_rad_s;
    maximum_travel_rad = d.nought;
    maximum_torque_nm = m.recipe.maximum_torque_nm;
    maximum_temperature_c = m.recipe.maximum_temperature_c;
  }

  forward_action : RecipeSession D → ActionKind → NextAction D
  unfolding plain_action
  forward_action m kind =
      let direction = m.recipe.approach_direction in
      record (plain_action m kind m.phase_deadline_ns) {
        direction = direction;
        maximum_travel_rad =
            max d.nought (directional_travel m.phase_start_q m.envelope_end_q direction);
        target_output_rad = m.envelope_end_q;
      }

  unfoldable pub action : RecipeSession D → ActionKind → Input D → NextAction D
  unfolding plain_action forward_action
  action m to_approach x = forward_action m to_approach
  action m to_contact_dwell x = forward_action m to_contact_dwell
  action m to_reapproach x = forward_action m to_reapproach
  action m to_retreat x = record (plain_action m to_retreat m.phase_deadline_ns) {
    direction = d.neg m.recipe.approach_direction;
    maximum_travel_rad = m.recipe.retreat_distance_rad;
    target_output_rad =
        d.sub m.first_stop_q (d.mul m.recipe.approach_direction m.recipe.retreat_distance_rad);
  }
  action m kind x = plain_action m kind x.now_ns

  -- A failed check: the session is as the check left it.
  unfoldable pub stopped : Status → RecipeSession D → Input D → Step D
  stopped status m x = record { status = status; action = action m abort_disable x; next = m }

  unfoldable pub refused : Status → AbortReason → RecipeSession D → Input D → Step D
  unfolding stopped
  refused status reason m x = stopped status (fail m reason) x

  unfoldable pub granted : ActionKind → RecipeSession D → Input D → Step D
  granted kind m x = record { status = ok; action = action m kind x; next = m }
