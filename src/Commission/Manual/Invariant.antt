-- ===== src/Commission/Manual/Invariant.antt =====
-- What holds of a manual session (commission/src/calibration_session.cpp) between two calls.
use open_arm_ik.Shared.{
  sub64, ℕ, ◌≡◌, ◌⊎◌, inl, inr, refl, true, false, ◌||◌, not, Option, none, some, List, [], ◌∷◌,
  arith, leb, ◌==◌, Bool-cases,
}
use open_arm_ik.Shared.Double.{Double}
use open_arm_ik.Commission.Text.{valid_text}
use open_arm_ik.Commission.Records.{is_ok, get, set, Sample, ManualOptions}
use open_arm_ik.Commission.Sampling.{Accumulator, empty, reset, add, spread}
use open_arm_ik.Commission.Manual.{
  State, code, collect_reference_1, collect_reference_2, candidate, review, committed, aborted,
  Session, create, validate_sample, latch_abort, settled, accumulate, sample, begin_review,
  is_collecting, expected_reference, commit, commit_text, abort,
}
use open_arm_ik.Commission.Manual.History.{Call, samples, reviews, commits, aborts, step, run}
use open_arm_ik.Commission.Manual.Candidate.{has_candidate, Inv, finish_reference-Inv}

module _ {D : Type 0} ⦃d : Double D⦄ where
  -- The reference that the state collects.
  abbrev pub Collects : Session D → ℕ → Type 0
  Collects m i =
      ((i ≡ 0) × (m.state ≡ collect_reference_1)) ⊎ ((i ≡ 1) × (m.state ≡ collect_reference_2))

  abbrev with_accumulator : Session D → ℕ → Accumulator D → Session D
  with_accumulator m i a = record m { accumulators = set m.accumulators i a }

  with_accumulator-Inv :
      (o : ManualOptions D) (m : Session D) (i : ℕ) (a : Accumulator D)
      → Collects m i
      → Inv o m
      → Inv o (with_accumulator m i a)
  with_accumulator-Inv o m i a h v = record {
    same_options = v.same_options;
    second_only = v.second_only;
    first_enough = λ e. ground arith;
    second_enough = λ e. absurd (ground arith);
    sign_allowed = λ e. absurd (ground arith);
  }

  settled-Inv :
      (o : ManualOptions D) (m : Session D) (i : ℕ) (s : Sample D)
      → Collects m i
      → Inv o m
      → Inv o (settled m i s).1
  unfolding settled
  settled-Inv o m i s h v =
      elim (Bool-cases (leb m.options.minimum_samples (get m.accumulators i).count)) [
        | inr few ↦ rw few v
        | inl many ↦
            elim (Bool-cases (
              leb m.options.stability_dwell_ns
                (sub64 s.sample_time_ns (get m.accumulators i).first_time_ns))) [
                  | inr short ↦ rw (many, short) v
                  | inl long ↦ rw (many, long) (finish_reference-Inv o m i (h, ground arith) v)
                ]
      ]

  accumulate-Inv :
      (o : ManualOptions D) (m : Session D) (i : ℕ) (s : Sample D)
      → Collects m i
      → Inv o m
      → Inv o (accumulate m i s).1
  unfolding accumulate
  accumulate-Inv o m i s h v =
      let acc = get m.accumulators i in
      let touched = λ (a : Accumulator D). with_accumulator-Inv o m i a h v in
      let counted =
        λ (a : Accumulator D). settled-Inv o (with_accumulator m i a) i s h (touched a) in
      elim (Bool-cases (d.lt m.options.maximum_abs_velocity_rad_s (d.abs s.dq_output_rad_s))) [
        | inl fast ↦ rw fast (touched empty)
        | inr slow ↦ elim (Bool-cases (acc.count == 0)) [
          | inl first ↦ rw (slow, first) (counted (reset s))
          | inr more ↦
              elim (Bool-cases (d.lt m.options.maximum_position_spread_rad (spread (add acc s)))) [
                | inl wide ↦ rw (slow, more, wide) (touched (reset s))
                | inr tight ↦ rw (slow, more, tight) (counted (add acc s))
              ]
        ]
      ]

  latch_abort-Inv : (o : ManualOptions D) (m : Session D) → Inv o m → Inv o (latch_abort m)
  unfolding latch_abort
  latch_abort-Inv o m v = record {
    same_options = v.same_options;
    second_only = λ e. absurd (cc);
    first_enough = λ e. absurd (cc);
    second_enough = λ e. absurd (cc);
    sign_allowed = λ e. absurd (cc);
  }

  collects :
      (m : Session D) (i : ℕ)
      → (not (is_collecting m.state) || not (i == expected_reference m.state)) ≡ false
      → Collects m i
  collects m i h = ground arith

  sample-Inv :
      (o : ManualOptions D) (m : Session D) (i now : ℕ) (s : Sample D)
      → Inv o m
      → Inv o (sample m i now s).1
  unfolding sample
  sample-Inv o m i now s v =
      elim (Bool-cases (not (is_collecting m.state) || not (i == expected_reference m.state))) [
        | inl wrong ↦ rw wrong v
        | inr right ↦ elim (Bool-cases (is_ok (validate_sample m now s))) [
          | inr bad ↦ rw (right, bad) (latch_abort-Inv o m v)
          | inl good ↦
              rw (right, good)
                (accumulate-Inv o
                  (record m {
                    last_feedback_seq = s.feedback_seq;
                    last_sample_time_ns = s.sample_time_ns;
                  })
                  i s (collects m i right)
                  (record {
                    same_options = v.same_options;
                    second_only = v.second_only;
                    first_enough = v.first_enough;
                    second_enough = v.second_enough;
                    sign_allowed = v.sign_allowed;
                  }))
        ]
      ]

  moved-Inv :
      (o : ManualOptions D) (m : Session D) (t : State)
      → has_candidate m.state ≡ true
      → has_candidate t ≡ true
      → Inv o m
      → Inv o (record m { state = t })
  moved-Inv o m t h k v = record {
    same_options = v.same_options;
    second_only = λ e. absurd (ground arith);
    first_enough = λ e. v.first_enough (ground arith);
    second_enough = λ e. v.second_enough h;
    sign_allowed = λ e. v.sign_allowed h;
  }

  aborted-Inv :
      (o : ManualOptions D) (m : Session D) (a b : D)
      → Inv o m
      → Inv o (record m { state = aborted; candidate_a = a; candidate_b = b })
  aborted-Inv o m a b v = record {
    same_options = v.same_options;
    second_only = λ e. absurd (cc);
    first_enough = λ e. absurd (cc);
    second_enough = λ e. absurd (cc);
    sign_allowed = λ e. absurd (cc);
  }

  commit-Inv :
      (o : ManualOptions D) (m : Session D) (r : ℕ) (e : Option (List ℕ))
      → Inv o m
      → Inv o (commit m r e).next
  unfolding commit commit_text
  commit-Inv o m r none v = elim (Bool-cases (code m.state == code review)) [
    | inl h ↦ rw h v
    | inr h ↦ rw h v
  ]
  commit-Inv o m r (some e) v = elim (Bool-cases (code m.state == code review)) [
    | inr h ↦ rw h v
    | inl h ↦
        elim (Bool-cases (leb r m.options.expected_revision || not (valid_text (some e) false))) [
          | inl bad ↦ rw (h, bad) v
          | inr good ↦ rw (h, good) (moved-Inv o m committed (ground arith) refl v)
        ]
  ]

  begin_review-Inv : (o : ManualOptions D) (m : Session D) → Inv o m → Inv o (begin_review m).1
  unfolding begin_review
  begin_review-Inv o m v = elim (Bool-cases (code m.state == code candidate)) [
    | inl h ↦ rw h (moved-Inv o m review (ground arith) refl v)
    | inr h ↦ rw h v
  ]

  abort-Inv : (o : ManualOptions D) (m : Session D) → Inv o m → Inv o (abort m).1
  unfolding abort
  abort-Inv o m v =
      elim (Bool-cases (code m.state == code committed || code m.state == code aborted)) [
        | inl h ↦ rw h v
        | inr h ↦ rw h (aborted-Inv o m d.nought d.nought v)
      ]

  step-Inv : (o : ManualOptions D) (m : Session D) (c : Call D) → Inv o m → Inv o (step m c)
  unfolding step
  step-Inv o m (samples i now s) v = sample-Inv o m i now s v
  step-Inv o m reviews v = begin_review-Inv o m v
  step-Inv o m (commits r e) v = commit-Inv o m r e v
  step-Inv o m aborts v = abort-Inv o m v

  create-Inv : (o : ManualOptions D) → Inv o (create o)
  unfolding create
  create-Inv o = record {
    same_options = refl;
    second_only = λ e. absurd (cc);
    first_enough = λ e. absurd (cc);
    second_enough = λ e. absurd (cc);
    sign_allowed = λ e. absurd (cc);
  }

  run_from-Inv :
      (o : ManualOptions D) (m : Session D) (cs : List (Call D)) → Inv o m → Inv o (run m cs)
  unfolding run
  run_from-Inv o m [] v = v
  run_from-Inv o m (c ∷ cs) v = run_from-Inv o (step m c) cs (step-Inv o m c v)

  pub run-Inv : (o : ManualOptions D) (cs : List (Call D)) → Inv o (run (create o) cs)
  run-Inv o cs = run_from-Inv o (create o) cs (create-Inv o)
