-- ===== src/Commission/Manual/Transitions.antt =====
-- The states of a manual session, and the order of its samples.
use open_arm_ik.Shared.{
  ℕ, ◌+◌, ◌≤◌, ◌<◌, ◌≡◌, ◌≢◌, ◌⊎◌, inl, inr, refl, true, false, ◌||◌, not, Option, none, some, List,
  [], ◌∷◌, arith, leb, ◌==◌, Bool-cases,
}
use open_arm_ik.Shared.Double.{Double}
use open_arm_ik.Commission.Records.{estate, is_ok, get, set, Sample}
use open_arm_ik.Commission.Text.{valid_text}
use open_arm_ik.Commission.Sampling.{Accumulator, finite_sample, reset, add, mean, spread}
use open_arm_ik.Commission.Manual.{
  State, code, collect_reference_1, collect_reference_2, candidate, review, committed, aborted,
  Session, validate_sample, latch_abort, one_reference, two_references, calculate_candidate,
  finish_reference, settled, accumulate, sample, begin_review, commit, commit_text, abort,
  is_collecting, expected_reference,
}
use open_arm_ik.Commission.Manual.History.{Call, samples, reviews, commits, aborts, step, run}

-- One call.
pub data Edge : State → State → Type 0 where
  stay : (s : State) → Edge s s
  next_reference : Edge collect_reference_1 collect_reference_2
  first_candidate : Edge collect_reference_1 candidate
  second_candidate : Edge collect_reference_2 candidate
  to_review : Edge candidate review
  to_committed : Edge review committed
  give_up : {s : State} → s ≢ committed → s ≢ aborted → Edge s aborted

sampled-Edge :
    (s t : State) (i : ℕ)
    → (not (is_collecting s) || not (i == expected_reference s)) ≡ false
    → (t ≡ s) ⊎ ((t ≡ candidate) ⊎ ((i ≡ 0) × (t ≡ collect_reference_2)))
    → Edge s t
sampled-Edge collect_reference_1 t i h (inl e) = rw e (stay _)
sampled-Edge collect_reference_1 t i h (inr (inl e)) = rw e first_candidate
sampled-Edge collect_reference_1 t i h (inr (inr e)) = rw (e.1) next_reference
sampled-Edge collect_reference_2 t i h (inl e) = rw e (stay _)
sampled-Edge collect_reference_2 t i h (inr (inl e)) = rw e second_candidate
sampled-Edge collect_reference_2 t i h (inr (inr e)) = absurd (ground arith)
sampled-Edge _ t i h e = cc

module _ {D : Type 0} ⦃d : Double D⦄ where
  calculated :
      (m : Session D)
      → ((calculate_candidate m).1.state ≡ m.state) ⊎ ((calculate_candidate m).1.state ≡ candidate)
  unfolding calculate_candidate one_reference two_references
  calculated m = ground arith

  finished :
      (m : Session D) (i : ℕ)
      → let t = (finish_reference m i).1.state in
        (t ≡ m.state) ⊎ ((t ≡ candidate) ⊎ ((i ≡ 0) × (t ≡ collect_reference_2)))
  unfolding finish_reference
  finished m i =
      let acc = get m.accumulators i in
      let n : Session D = record m {
        means = set m.means i (mean acc);
        spreads = set m.spreads i (spread acc);
      } in
      ground (arith, calculated n)

  settled_state :
      (m : Session D) (i : ℕ) (s : Sample D)
      → let t = (settled m i s).1.state in
        (t ≡ m.state) ⊎ ((t ≡ candidate) ⊎ ((i ≡ 0) × (t ≡ collect_reference_2)))
  unfolding settled
  settled_state m i s = ground (arith, finished m i)

  accumulated :
      (m : Session D) (i : ℕ) (s : Sample D)
      → let t = (accumulate m i s).1.state in
        (t ≡ m.state) ⊎ ((t ≡ candidate) ⊎ ((i ≡ 0) × (t ≡ collect_reference_2)))
  unfolding accumulate
  accumulated m i s =
      let with_acc = λ (a : Accumulator D).
        settled_state (record m { accumulators = set m.accumulators i a }) i s in
      ground (arith, with_acc (reset s), with_acc (add (get m.accumulators i) s))

  sample-Edge : (m : Session D) (i now : ℕ) (s : Sample D) → Edge m.state (sample m i now s).1.state
  unfolding sample latch_abort
  sample-Edge m i now s =
      elim (Bool-cases (not (is_collecting m.state) || not (i == expected_reference m.state))) [
        | inl wrong ↦ rw wrong (stay m.state)
        | inr right ↦ elim (Bool-cases (is_ok (validate_sample m now s))) [
          | inr bad ↦ rw (right, bad) (give_up (λ e. ground arith) (λ e. ground arith))
          | inl good ↦
              rw (right, good)
                (sampled-Edge m.state _ i right (
                  accumulated
                    (record m {
                      last_feedback_seq = s.feedback_seq;
                      last_sample_time_ns = s.sample_time_ns;
                    })
                    i s))
        ]
      ]

  review-Edge : (m : Session D) → Edge m.state (begin_review m).1.state
  unfolding begin_review
  review-Edge m = elim (Bool-cases (code m.state == code candidate)) [
    | inl h ↦ let e : m.state ≡ candidate = ground arith in rw (h, e) to_review
    | inr h ↦ rw h (stay m.state)
  ]

  commit-Edge :
      (m : Session D) (r : ℕ) (e : Option (List ℕ)) → Edge m.state (commit m r e).next.state
  unfolding commit commit_text
  commit-Edge m r none =
      let e : (commit m r none).next.state ≡ m.state = ground arith in rw e (stay m.state)
  commit-Edge m r (some t) = elim (Bool-cases (code m.state == code review)) [
    | inr h ↦ rw h (stay m.state)
    | inl h ↦
        elim (Bool-cases (leb r m.options.expected_revision || not (valid_text (some t) false))) [
          | inl bad ↦ rw (h, bad) (stay m.state)
          | inr good ↦ let e : m.state ≡ review = ground arith in rw (good, e) to_committed
        ]
  ]

  abort-Edge : (m : Session D) → Edge m.state (abort m).1.state
  unfolding abort
  abort-Edge m =
      elim (Bool-cases (code m.state == code committed || code m.state == code aborted)) [
        | inl h ↦ rw h (stay m.state)
        | inr h ↦ rw h (give_up (λ e. ground arith) (λ e. ground arith))
      ]

  -- Every call follows an edge of the diagram: a session reaches `committed` only through
  -- `candidate` and then `review`, and leaves neither `committed` nor `aborted`.
  pub step-Edge : (m : Session D) (c : Call D) → Edge m.state (step m c).state
  unfolding step
  step-Edge m (samples i now s) = sample-Edge m i now s
  step-Edge m reviews = review-Edge m
  step-Edge m (commits r e) = commit-Edge m r e
  step-Edge m aborts = abort-Edge m

  abbrev pub IsTerminal : Session D → Type 0
  IsTerminal m = (m.state ≡ committed) ⊎ (m.state ≡ aborted)

  step_of_IsTerminal : (m : Session D) (c : Call D) → IsTerminal m → step m c ≡ m
  unfolding step sample begin_review commit abort
  step_of_IsTerminal m (samples i now s) h = ground arith
  step_of_IsTerminal m reviews h = ground arith
  step_of_IsTerminal m (commits r e) h = ground arith
  step_of_IsTerminal m aborts h = ground arith

  run_of_IsTerminal : (m : Session D) (cs : List (Call D)) → IsTerminal m → run m cs ≡ m
  unfolding run
  run_of_IsTerminal m [] h = refl
  run_of_IsTerminal m (c ∷ cs) h = rw (step_of_IsTerminal m c h) (run_of_IsTerminal m cs h)

  -- A committed or aborted session is never changed again by any calls, and refuses each of them
  -- with ESTATE.
  pub terminal_absorbs :
      (m : Session D) (cs : List (Call D))
      → IsTerminal m
      → (run m cs ≡ m)
        × ((i now : ℕ) (s : Sample D) → (sample m i now s).0 ≡ estate)
        × ((begin_review m).0 ≡ estate)
        × ((r : ℕ) (e : Option (List ℕ)) → (commit m r e).status ≡ estate)
        × ((abort m).0 ≡ estate)
  unfolding sample begin_review commit abort
  terminal_absorbs m cs h = (
    run_of_IsTerminal m cs h,
    λ i now s. ground arith,
    ground arith,
    λ r e. ground arith,
    ground arith,
  )

  abbrev SameLast : Session D → Session D → Type 0
  SameLast m n =
      (n.last_feedback_seq ≡ m.last_feedback_seq) × (n.last_sample_time_ns ≡ m.last_sample_time_ns)

  calculated_last : (m : Session D) → SameLast m (calculate_candidate m).1
  unfolding calculate_candidate one_reference two_references
  calculated_last m = ground arith

  finished_last : (m : Session D) (i : ℕ) → SameLast m (finish_reference m i).1
  unfolding finish_reference
  finished_last m i =
      let acc = get m.accumulators i in
      let n : Session D = record m {
        means = set m.means i (mean acc);
        spreads = set m.spreads i (spread acc);
      } in
      ground (arith, calculated_last n)

  settled_last : (m : Session D) (i : ℕ) (s : Sample D) → SameLast m (settled m i s).1
  unfolding settled
  settled_last m i s = ground (arith, finished_last m i)

  accumulated_last : (m : Session D) (i : ℕ) (s : Sample D) → SameLast m (accumulate m i s).1
  unfolding accumulate
  accumulated_last m i s =
      let with_acc = λ (a : Accumulator D).
        settled_last (record m { accumulators = set m.accumulators i a }) i s in
      ground (arith, with_acc (reset s), with_acc (add (get m.accumulators i) s))

  -- A sample that changes the session without aborting it is for the reference that the session
  -- collects, 0 in the state COLLECT_REFERENCE_1 and 1 in COLLECT_REFERENCE_2, and is finite, newer than the last one accepted by its number and by its time, neither in
  -- the future nor older than the options allow, and of a drive that is disabled and shows no
  -- fault; its number and time are the ones that the next must exceed.
  pub accepted_sample :
      (m : Session D) (i now : ℕ) (s : Sample D)
      → let n = (sample m i now s).1 in
        n ≢ m
        → n.state ≢ aborted
        → (((m.state ≡ collect_reference_1) × (i ≡ 0))
            ⊎ ((m.state ≡ collect_reference_2) × (i ≡ 1)))
          × (finite_sample s ≡ true)
          × (m.last_feedback_seq < s.feedback_seq)
          × (m.last_sample_time_ns < s.sample_time_ns)
          × (s.sample_time_ns ≤ now)
          × (now ≤ s.sample_time_ns + m.options.maximum_sample_age_ns)
          × (s.drive_enabled ≡ 0)
          × (s.drive_fault ≡ 0)
          × (n.last_feedback_seq ≡ s.feedback_seq)
          × (n.last_sample_time_ns ≡ s.sample_time_ns)
  unfolding sample validate_sample latch_abort
  accepted_sample m i now s changed alive = ground (
    arith,
    accumulated_last
        (record m { last_feedback_seq = s.feedback_seq; last_sample_time_ns = s.sample_time_ns }) i
        s,
  )
