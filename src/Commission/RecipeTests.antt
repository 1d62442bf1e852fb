-- ===== src/Commission/RecipeTests.antt =====
-- Recipe sessions on concrete inputs, with whole numbers in place of doubles.
use open_arm_ik.Shared.{
  inr, ℕ, ℤ, pos, ◌-◌, ◌*◌, ◌≡◌, refl, true, false, some, List, [], ◌∷◌, arith,
}
use open_arm_ik.Commission.Text.{copy_text}
use open_arm_ik.Commission.Records.{estate, is_ok, MappingPatch}
use open_arm_ik.Commission.Sampling.{finite_sample}
use open_arm_ik.Commission.Recipe.Records.{
  aborted, committed, abort_disable, Recipe, Input, RecipeSession,
}
use open_arm_ik.Commission.Recipe.Guards.{
  enforce_motion_limits, too_strong, update_energy, contact_evidence, validate_input,
  validate_binding, well_formed_input, is_stale, too_hot, fail, action, stopped, refused, granted,
  saturating_add,
}
use open_arm_ik.Commission.Recipe.Phases.{
  precheck_phase, wait_phase, start_approach, is_late, approach_outside, approach_contact,
  approach_moving, contact_lost, dwelling, contact_dwell_moving, retreat_outside, retreat_done,
  retreat_moving, reapproach_outside, reapproach_contact, reapproach_moving, second_contact,
  limited, first_contact, more_contact, mean_stop, start_retreat, start_reapproach,
  repeatability_phase, candidate_phase, review_phase,
}
use open_arm_ik.Commission.Recipe.Session
use open_arm_ik.Commission.Recipe.Motion.{moves}
use open_arm_ik.Commission.Recipe.Steps.{Accepted, Guarded, step-Guarded}
use open_arm_ik.Commission.Recipe.FailSafe.{Disarmed, is_live, step-FailSafe}
use open_arm_ik.Shared.Whole.{whole_numbers}
use open_arm_ik.Commission.Whole.{sample_at}
use open_arm_ik.Commission.Recipe.History
use open_arm_ik.Commission.Recipe.Ended.{terminal_recipe_absorbs}
use open_arm_ik.Commission.Recipe.Patches.{IsMeasured, recipe_patch-IsMeasured}

abbrev recipe : Recipe ℤ
recipe = record {
  recipe_kind = 2;
  side = 0;
  joint = 7;
  known_sign = pos 1;
  hardware_qualified = 0;
  simulation_only = 1;
  minimum_contact_samples = 3;
  expected_revision = 7;
  qualification_revision = 0;
  simulation_evidence_revision = 4;
  fixture_revision = 2;
  maximum_sample_age_ns = 50;
  maximum_approach_time_ns = 1000;
  contact_dwell_ns = 20;
  maximum_retreat_time_ns = 1000;
  stop_model_rad = pos 0;
  approach_direction = pos 1;
  start_min_output_rad = pos 0;
  start_max_output_rad = pos 5;
  maximum_speed_rad_s = pos 2;
  minimum_contact_travel_rad = pos 1;
  maximum_approach_travel_rad = pos 10;
  contact_velocity_rad_s = pos 0;
  minimum_contact_torque_nm = pos 1;
  maximum_torque_nm = pos 2;
  maximum_contact_energy_j = pos 5;
  maximum_temperature_c = pos 60;
  retreat_distance_rad = pos 2;
  repeatability_tolerance_rad = pos 1;
  required_posture_mask = 0;
  required_posture_output_rad = [];
  posture_tolerance_rad = pos 0;
  motor_serial = 77 ∷ 0 ∷ [];
  qualification_record = 0 ∷ [];
  simulation_evidence_record = 65 ∷ 0 ∷ [];
  fixture_record = 66 ∷ 0 ∷ [];
}

-- The emergency stop is clear, or not.
abbrev input : ℕ → ℕ → ℕ → Input ℤ
input estop seq now = record {
  struct_size = 184;
  abi_version = 1;
  now_ns = now;
  encoder = sample_at seq (now - 10);
  estop_clear = estop;
  deadman_held = 1;
  operator_ready = 1;
  action_complete = 0;
  review_decision = 0;
  posture_mask = 0;
  evidence_revision = 4;
  fixture_revision = 2;
  posture_output_rad = [];
}

abbrev waiting : RecipeSession ℤ
waiting = (Session.step (Session.create recipe) (input 1 1 100)).next

-- Opens the first two steps of a recipe.
recipe_opened : ℕ
unfolding Session.create Session.step Session.step_in Session.live_step Session.phase validate_input
    validate_binding well_formed_input finite_sample is_stale too_hot fail action stopped refused
    granted precheck_phase wait_phase start_approach saturating_add
recipe_opened = 0

wait_is_left : moves (Session.step waiting (input 1 2 200)).action.kind ≡ true
unfolding recipe_opened
wait_is_left = refl

step-Guarded_example :
    let x = input 1 2 200 in Accepted waiting x × Guarded waiting x (Session.step waiting x)
step-Guarded_example = step-Guarded waiting (input 1 2 200) (omega arith) wait_is_left

-- The emergency stop is pressed while the session waits.
waiting_stops :
    (is_live waiting.state ≡ true) × (is_ok (Session.step waiting (input 0 2 200)).status ≡ false)
unfolding recipe_opened
waiting_stops = (refl, refl)

step-FailSafe_example :
    ((Session.step waiting (input 0 2 200)).action.kind ≡ abort_disable)
    × Disarmed (Session.step waiting (input 0 2 200)).next
step-FailSafe_example = step-FailSafe waiting (input 0 2 200) waiting_stops.0 waiting_stops.1

-- An input with an enabled drive or not, at a position, with a torque and a decision.
abbrev input_at : ℕ → ℕ → ℕ → ℕ → ℕ → Input ℤ
input_at k drive q torque decision = record (input 1 k (100 * k)) {
  encoder = record (sample_at k (100 * k - 10)) {
    drive_enabled = drive;
    q_output_rad = pos q;
    torque_output_nm = pos torque;
  };
  review_decision = decision;
}

-- Precheck, wait, approach, two contacts of three samples, review.
abbrev whole_recipe : List (History.Call ℤ)
whole_recipe =
    History.steps (input_at 1 0 3 0 0)
    ∷ History.steps (input_at 2 0 3 0 0)
    ∷ History.steps (input_at 3 1 5 1 0)
    ∷ History.steps (input_at 4 1 5 1 0)
    ∷ History.steps (input_at 5 1 5 1 0)
    ∷ History.steps (input_at 6 1 3 0 0)
    ∷ History.steps (input_at 7 1 5 1 0)
    ∷ History.steps (input_at 8 1 5 1 0)
    ∷ History.steps (input_at 9 1 5 1 0)
    ∷ History.steps (input_at 10 0 5 0 0)
    ∷ History.steps (input_at 11 0 5 0 1)
    ∷ []

abbrev recipe_patch : MappingPatch ℤ
recipe_patch = record {
  expected_revision = 7;
  replacement_revision = 8;
  side = 0;
  joint = 7;
  evidence_kind = 3;
  recipe_kind = 2;
  qualification_revision = 4;
  fixture_revision = 2;
  a = pos 1;
  b_rad = pos 0;
  motor_serial = copy_text (77 ∷ 0 ∷ []);
  evidence_record = copy_text (65 ∷ 0 ∷ []);
}

whole_recipe_commits :
    (Session.commit (History.run (Session.create recipe) whole_recipe) 8).patch ≡ some recipe_patch
unfolding recipe_opened History.run History.after Session.commit Session.patch_of is_late
    approach_outside approach_contact approach_moving contact_lost dwelling contact_dwell_moving
    retreat_outside retreat_done retreat_moving reapproach_outside reapproach_contact
    reapproach_moving second_contact limited first_contact more_contact mean_stop start_retreat
    start_reapproach repeatability_phase candidate_phase review_phase enforce_motion_limits
    too_strong update_energy contact_evidence
whole_recipe_commits = refl

recipe_patch-IsMeasured_example :
    let m = History.run (Session.create recipe) whole_recipe in
    IsMeasured recipe m 8 recipe_patch × ((Session.commit m 8).next.state ≡ committed)
recipe_patch-IsMeasured_example =
    recipe_patch-IsMeasured recipe whole_recipe 8 recipe_patch whole_recipe_commits

-- The operator aborts at once.
abbrev ended : RecipeSession ℤ
ended = History.run (Session.create recipe) (History.aborts ∷ [])

ended_state : ended.state ≡ aborted
unfolding recipe_opened History.run History.after Session.abort Session.abort_in
ended_state = refl

terminal_recipe_absorbs_example :
    (History.run ended whole_recipe ≡ ended)
    × ((x : Input ℤ) → (Session.step ended x).status ≡ estate)
    × ((x : Input ℤ) → moves (Session.step ended x).action.kind ≡ false)
    × ((n : ℕ) → (Session.commit ended n).status ≡ estate)
    × ((Session.abort ended).0 ≡ estate)
terminal_recipe_absorbs_example = terminal_recipe_absorbs ended whole_recipe (inr ended_state)
