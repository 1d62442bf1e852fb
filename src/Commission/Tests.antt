-- ===== src/Commission/Tests.antt =====
-- A manual session on concrete samples, with whole numbers in place of doubles.
use open_arm_ik.Shared.{
  ◌⊎◌, ℕ, ℤ, pos, negsuc, ap, ◌+◌, ◌≤◌, ◌<◌, ◌≡◌, ◌≢◌, inl, refl, true, Option, some, List, [], ◌∷◌,
}
use open_arm_ik.Commission.Text.{valid_text, copy_text, c_string, terminated, length, copy_text_lem}
use open_arm_ik.Commission.Records.{estate, Sample, ManualOptions, MappingPatch}
use open_arm_ik.Commission.Sampling.{finite_sample, empty, reset, add, mean, spread}
use open_arm_ik.Commission.Manual
use open_arm_ik.Commission.Manual.History
use open_arm_ik.Commission.Manual.Patches.{IsSound, committed_patch-IsSound}
use open_arm_ik.Commission.Manual.Transitions.{Edge, step-Edge, terminal_absorbs, accepted_sample}
use open_arm_ik.Shared.Whole.{whole_numbers}
use open_arm_ik.Commission.Whole.{sample_at}

-- One reference, of which one sample is enough.
abbrev options : ManualOptions ℤ
options = record {
  struct_size = 200;
  abi_version = 1;
  side = 0;
  joint = 4;
  expected_revision = 7;
  reference_count = 1;
  known_sign = negsuc 0;
  minimum_samples = 1;
  maximum_sample_age_ns = 50;
  stability_dwell_ns = 0;
  reference_model_rad = record { at_0 = pos 10; at_1 = pos 0 };
  maximum_position_spread_rad = pos 1;
  maximum_abs_velocity_rad_s = pos 1;
  minimum_reference_separation_rad = pos 1;
  maximum_scale_error = pos 1;
  motor_serial = 77 ∷ 0 ∷ [];
}

abbrev calls : List (Manual.History.Call ℤ)
calls = Manual.History.samples 0 100 (sample_at 1 90) ∷ Manual.History.reviews ∷ []

abbrev evidence : List ℕ
evidence = 65 ∷ 66 ∷ 0 ∷ []

-- Opens a manual session.
opened : ℕ
unfolding Manual.create Manual.validate_sample Manual.latch_abort Manual.calculate_candidate
    Manual.finish_reference Manual.settled Manual.accumulate Manual.sample Manual.begin_review
    Manual.commit Manual.abort Manual.History.step Manual.History.run finite_sample empty reset add
    mean spread valid_text terminated
opened = 0

abbrev reviewed : Manual.Session ℤ
reviewed = Manual.History.run (Manual.create options) calls

abbrev committed_patch : MappingPatch ℤ
committed_patch = record {
  expected_revision = 7;
  replacement_revision = 8;
  side = 0;
  joint = 4;
  evidence_kind = 1;
  recipe_kind = 0;
  qualification_revision = 0;
  fixture_revision = 0;
  a = negsuc 0;
  b_rad = pos 13;
  motor_serial = copy_text (77 ∷ 0 ∷ []);
  evidence_record = copy_text evidence;
}

reviewed_commits : (Manual.commit reviewed 8 (some evidence)).patch ≡ some committed_patch
unfolding opened
reviewed_commits = refl

committed_patch-IsSound_example :
    IsSound options reviewed 8 evidence committed_patch
    × ((Manual.commit reviewed 8 (some evidence)).next.state ≡ Manual.committed)
committed_patch-IsSound_example =
    committed_patch-IsSound options calls 8 evidence committed_patch reviewed_commits

step-Edge_example :
    Edge reviewed.state
      (Manual.History.step reviewed (Manual.History.commits 8 (some evidence))).state
step-Edge_example = step-Edge reviewed (Manual.History.commits 8 (some evidence))

abbrev done_session : Manual.Session ℤ
done_session = (Manual.commit reviewed 8 (some evidence)).next

done_session_state : done_session.state ≡ Manual.committed
unfolding opened
done_session_state = refl

terminal_absorbs_example :
    (Manual.History.run done_session calls ≡ done_session)
    × ((i now : ℕ) (s : Sample ℤ) → (Manual.sample done_session i now s).0 ≡ estate)
    × ((Manual.begin_review done_session).0 ≡ estate)
    × ((r : ℕ) (e : Option (List ℕ)) → (Manual.commit done_session r e).status ≡ estate)
    × ((Manual.abort done_session).0 ≡ estate)
terminal_absorbs_example = terminal_absorbs done_session calls (inl done_session_state)

-- The first sample of a session.
first_sample_moves :
    ((Manual.sample (Manual.create options) 0 100 (sample_at 1 90)).1 ≢ Manual.create options)
    × ((Manual.sample (Manual.create options) 0 100 (sample_at 1 90)).1.state ≢ Manual.aborted)
unfolding opened
first_sample_moves = ((λ e. differ (ap_state e)), λ e. cc)
  where
    ap_state :
        (Manual.sample (Manual.create options) 0 100 (sample_at 1 90)).1 ≡ Manual.create options
        → Manual.candidate ≡ Manual.collect_reference_1
    ap_state e = ap (λ m. m.state) e

    differ : Manual.candidate ≢ Manual.collect_reference_1
    differ e = cc

accepted_sample_example :
    let i : ℕ = 0 in
    let m = Manual.create options in
    let s = sample_at 1 90 in
    let n = (Manual.sample m 0 100 s).1 in
    (((m.state ≡ Manual.collect_reference_1) × (i ≡ 0))
      ⊎ ((m.state ≡ Manual.collect_reference_2) × (i ≡ 1)))
    × (finite_sample s ≡ true)
    × (m.last_feedback_seq < s.feedback_seq)
    × (m.last_sample_time_ns < s.sample_time_ns)
    × (s.sample_time_ns ≤ 100)
    × (100 ≤ s.sample_time_ns + m.options.maximum_sample_age_ns)
    × (s.drive_enabled ≡ 0)
    × (s.drive_fault ≡ 0)
    × (n.last_feedback_seq ≡ s.feedback_seq)
    × (n.last_sample_time_ns ≡ s.sample_time_ns)
accepted_sample_example =
    accepted_sample (Manual.create options) 0 100 (sample_at 1 90) first_sample_moves.0
      first_sample_moves.1

evidence_valid : valid_text (some evidence) true ≡ true
unfolding opened
evidence_valid = refl

copy_text_lem_example :
    (length (copy_text evidence) ≡ 64)
    × (valid_text (some (copy_text evidence)) true ≡ true)
    × (c_string (copy_text evidence) ≡ c_string evidence)
copy_text_lem_example = copy_text_lem evidence evidence_valid
