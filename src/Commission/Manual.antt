-- ===== src/Commission/Manual.antt =====
-- ManualCalibrationSession of commission/src/calibration_session.cpp. A method returns its status
-- and the session that it leaves.
pub mod History
pub mod Candidate
pub mod Invariant
pub mod Patches
pub mod Transitions
use open_arm_ik.Shared.{
  sub64, ℕ, ℤ, pos, ◌+◌, ◌-◌, Bool, true, false, ◌&&◌, ◌||◌, not, Option, none, some, List, ltb,
  leb, ◌==◌, if◌then◌else◌, nonzero, same_int,
}
use open_arm_ik.Shared.Double.{Double}
use open_arm_ik.Commission.Text.{valid_text, copy_text}
use open_arm_ik.Commission.Records.{
  Status, ok, einval, estate, estale, einterlock, elimit, eunstable, is_ok, Two, get, set, Sample,
  ManualOptions, ManualReport, MappingPatch, valid_header, sample_size,
}
use open_arm_ik.Commission.Sampling.{Accumulator, finite_sample, empty, reset, add, mean, spread}

pub data State : Type 0 where
  collect_reference_1 collect_reference_2 candidate review committed aborted : State

-- The numbers of the header.
abbrev pub code : State → ℕ
code collect_reference_1 = 1
code collect_reference_2 = 2
code candidate = 3
code review = 4
code committed = 5
code aborted = 6

pub record Session (D : Type 0) : Type 0 where
  pub options : ManualOptions D
  pub accumulators : Two (Accumulator D)
  pub means : Two D
  pub spreads : Two D
  pub last_feedback_seq : ℕ
  pub last_sample_time_ns : ℕ
  pub state : State
  pub candidate_a : D
  pub candidate_b : D

abbrev pub both : {A : Type 0} → A → Two A
both a = record { at_0 = a; at_1 = a }

abbrev pub expected_reference : State → ℕ
expected_reference collect_reference_1 = 0
expected_reference _ = 1

abbrev pub is_collecting : State → Bool
is_collecting collect_reference_1 = true
is_collecting collect_reference_2 = true
is_collecting _ = false

-- The patch is written on success alone.
pub record Commit (D : Type 0) : Type 0 where
  pub status : Status
  pub patch : Option (MappingPatch D)
  pub next : Session D

module _ {D : Type 0} ⦃d : Double D⦄ where
  unfoldable pub create : ManualOptions D → Session D
  create o = record {
    options = o;
    accumulators = both empty;
    means = both d.nought;
    spreads = both d.nought;
    last_feedback_seq = 0;
    last_sample_time_ns = 0;
    state = collect_reference_1;
    candidate_a = d.nought;
    candidate_b = d.nought;
  }

  unfoldable pub validate_sample : Session D → ℕ → Sample D → Status
  validate_sample m now s =
      if not (valid_header s.struct_size s.abi_version sample_size) || not (finite_sample s)
      then einval
      else if s.feedback_seq == 0
          || leb s.feedback_seq m.last_feedback_seq
          || leb s.sample_time_ns m.last_sample_time_ns
          || ltb now s.sample_time_ns
          || ltb m.options.maximum_sample_age_ns (now - s.sample_time_ns)
      then estale
      else if nonzero s.drive_enabled || nonzero s.drive_fault
      then einterlock
      else ok

  -- latch_abort; the status is returned as it was given.
  unfoldable pub latch_abort : Session D → Session D
  latch_abort m = record m {
    state = aborted;
    accumulators = both empty;
    means = both d.nought;
    spreads = both d.nought;
    candidate_a = d.nought;
    candidate_b = d.nought;
  }

  one_reference : Session D → Session D
  one_reference m =
      let a = d.of_int m.options.known_sign in
      record m {
        candidate_a = a;
        candidate_b = d.sub m.options.reference_model_rad.at_0 (d.mul a m.means.at_0);
        state = candidate;
      }

  two_references : Session D → Status × Session D
  two_references m =
      let model = m.options.reference_model_rad in
      let output_delta = d.sub m.means.at_1 m.means.at_0 in
      let model_delta = d.sub model.at_1 model.at_0 in
      let separation = m.options.minimum_reference_separation_rad in
      let scale = d.div model_delta output_delta in
      let sign = if d.le d.nought scale then d.one else d.neg d.one in
      let first_offset = d.sub model.at_0 (d.mul sign m.means.at_0) in
      let second_offset = d.sub model.at_1 (d.mul sign m.means.at_1) in
      if d.lt (d.abs output_delta) separation || d.lt (d.abs model_delta) separation
      then (elimit, m)
      else if d.lt m.options.maximum_scale_error (d.abs (d.sub (d.abs scale) d.one))
          || (not (same_int m.options.known_sign (pos 0))
              && not (d.eq sign (d.of_int m.options.known_sign)))
      then (elimit, m)
      else (
        ok,
        record m {
          candidate_a = sign;
          candidate_b = d.mul d.half (d.add first_offset second_offset);
          state = candidate;
        },
      )

  unfoldable pub calculate_candidate : Session D → Status × Session D
  unfolding one_reference two_references
  calculate_candidate m =
      if m.options.reference_count == 1 then (ok, one_reference m) else two_references m

  unfoldable pub finish_reference : Session D → ℕ → Status × Session D
  finish_reference m i =
      let acc = get m.accumulators i in
      let n : Session D = record m {
        means = set m.means i (mean acc);
        spreads = set m.spreads i (spread acc);
      } in
      if i == 0 && n.options.reference_count == 2
      then (ok, record n { state = collect_reference_2 })
      else calculate_candidate n

  -- The tests of enough samples and of the dwell.
  unfoldable pub settled : Session D → ℕ → Sample D → Status × Session D
  settled m i s =
      let acc = get m.accumulators i in
      if not (leb m.options.minimum_samples acc.count)
        || not (leb m.options.stability_dwell_ns (sub64 s.sample_time_ns acc.first_time_ns))
      then (ok, m)
      else finish_reference m i

  -- A valid sample goes into the accumulator of the reference.
  unfoldable pub accumulate : Session D → ℕ → Sample D → Status × Session D
  accumulate m i s =
      let acc = get m.accumulators i in
      let grown = add acc s in
      let with_acc : Accumulator D → Session D =
        λ a. record m { accumulators = set m.accumulators i a } in
      if d.lt m.options.maximum_abs_velocity_rad_s (d.abs s.dq_output_rad_s)
      then (eunstable, with_acc empty)
      else if acc.count == 0
      then settled (with_acc (reset s)) i s
      else if d.lt m.options.maximum_position_spread_rad (spread grown)
      then (eunstable, with_acc (reset s))
      else settled (with_acc grown) i s

  unfoldable pub sample : Session D → ℕ → ℕ → Sample D → Status × Session D
  sample m i now s =
      let v = validate_sample m now s in
      let fresh : Session D = record m {
        last_feedback_seq = s.feedback_seq;
        last_sample_time_ns = s.sample_time_ns;
      } in
      if not (is_collecting m.state) || not (i == expected_reference m.state)
      then (estate, m)
      else if not (is_ok v)
      then (v, latch_abort m)
      else accumulate fresh i s

  unfoldable pub begin_review : Session D → Status × Session D
  begin_review m =
      if not (code m.state == code candidate)
      then (estate, m)
      else (ok, record m { state = review })

  patch_of : Session D → ℕ → List ℕ → MappingPatch D
  patch_of m revision evidence = record {
    expected_revision = m.options.expected_revision;
    replacement_revision = revision;
    side = m.options.side;
    joint = m.options.joint;
    evidence_kind = 1;
    recipe_kind = 0;
    qualification_revision = 0;
    fixture_revision = 0;
    a = m.candidate_a;
    b_rad = m.candidate_b;
    motor_serial = copy_text m.options.motor_serial;
    evidence_record = copy_text evidence;
  }

  commit_text : Session D → ℕ → Option (List ℕ) → Commit D
  unfolding patch_of
  commit_text m revision none = record { status = einval; patch = none; next = m }
  commit_text m revision (some evidence) =
      if leb revision m.options.expected_revision || not (valid_text (some evidence) false)
      then record { status = einval; patch = none; next = m }
      else record {
        status = ok;
        patch = some (patch_of m revision evidence);
        next = record m { state = committed };
      }

  unfoldable pub commit : Session D → ℕ → Option (List ℕ) → Commit D
  unfolding commit_text
  commit m revision evidence =
      if not (code m.state == code review)
      then record { status = estate; patch = none; next = m }
      else commit_text m revision evidence

  unfoldable pub abort : Session D → Status × Session D
  abort m =
      if code m.state == code committed || code m.state == code aborted
      then (estate, m)
      else (ok, record m { state = aborted; candidate_a = d.nought; candidate_b = d.nought })

  unfoldable pub report : Session D → ManualReport D
  report m = record {
    state = code m.state;
    active_reference = if code m.state == code collect_reference_2 then 1 else 0;
    accepted_samples = record {
      at_0 = m.accumulators.at_0.count;
      at_1 = m.accumulators.at_1.count;
    };
    mean_output_rad = m.means;
    spread_output_rad = m.spreads;
    candidate_a = m.candidate_a;
    candidate_b_rad = m.candidate_b;
  }
