-- ===== src/Commission/Manual/Candidate.antt =====
-- The invariant of a manual session and the calculation of its candidate
-- (commission/src/calibration_session.cpp).
use open_arm_ik.Shared.{
  ℕ, pos, ◌≤◌, ◌≡◌, ◌≢◌, ◌⊎◌, inl, inr, refl, ap, Bool, true, false, ◌&&◌, ◌||◌, not, arith, ◌==◌,
  if◌then◌else◌, same_int, Bool-cases,
}
use open_arm_ik.Shared.Double.{Double}
use open_arm_ik.Commission.Records.{get, set, ManualOptions}
use open_arm_ik.Commission.Sampling.{mean, spread}
use open_arm_ik.Commission.Manual.{
  State, collect_reference_1, collect_reference_2, candidate, review, committed, aborted, Session,
  one_reference, two_references, calculate_candidate, finish_reference,
}

-- The first reference is done; the candidate stands.
abbrev pub past_first : State → Bool
past_first collect_reference_1 = false
past_first aborted = false
past_first _ = true

abbrev pub has_candidate : State → Bool
has_candidate candidate = true
has_candidate review = true
has_candidate committed = true
has_candidate _ = false

module _ {D : Type 0} ⦃d : Double D⦄ where
  -- A sign that the options allow: the known one, or with two references one that the data show
  -- and that a known sign agrees with.
  abbrev pub SignAllowed : ManualOptions D → D → Type 0
  SignAllowed o a =
      (o.reference_count ≡ 1 → a ≡ d.of_int o.known_sign)
      × (o.reference_count ≡ 2 → (a ≡ d.one) ⊎ (a ≡ d.neg d.one))
      × (o.reference_count ≡ 2
          → same_int o.known_sign (pos 0) ≡ false
          → d.eq a (d.of_int o.known_sign) ≡ true)

  pub record Inv (o : ManualOptions D) (m : Session D) : Type 0 where
    pub same_options : m.options ≡ o
    pub second_only : m.state ≡ collect_reference_2 → o.reference_count ≡ 2
    pub first_enough : past_first m.state ≡ true → o.minimum_samples ≤ m.accumulators.at_0.count
    pub second_enough :
        has_candidate m.state ≡ true
        → o.reference_count ≡ 2
        → o.minimum_samples ≤ m.accumulators.at_1.count
    pub sign_allowed : has_candidate m.state ≡ true → SignAllowed o m.candidate_a

  abbrev with_candidate : Session D → D → D → Session D
  with_candidate m a b = record m { candidate_a = a; candidate_b = b; state = candidate }

  -- The calculation keeps the session, or gives it an allowed candidate.
  abbrev Calculated : Session D → Session D → Type 0
  Calculated m n =
      (n ≡ m) ⊎ ((a : D) × (b : D) × (n ≡ with_candidate m a b) × SignAllowed m.options a)

  sign_cases :
      (s : D)
      → let a = if d.le d.nought s then d.one else d.neg d.one in (a ≡ d.one) ⊎ (a ≡ d.neg d.one)
  sign_cases s = ground arith

  two_references_lem :
      (m : Session D) → m.options.reference_count ≢ 1 → Calculated m (two_references m).1
  unfolding two_references
  two_references_lem m n =
      let model = m.options.reference_model_rad in
      let output_delta = d.sub m.means.at_1 m.means.at_0 in
      let model_delta = d.sub model.at_1 model.at_0 in
      let separation = m.options.minimum_reference_separation_rad in
      let scale = d.div model_delta output_delta in
      let sign = if d.le d.nought scale then d.one else d.neg d.one in
      let known = m.options.known_sign in
      elim (Bool-cases
        (d.lt (d.abs output_delta) separation || d.lt (d.abs model_delta) separation)) [
          | inl far ↦ rw far (inl refl)
          | inr near ↦
              elim (Bool-cases (
                d.lt m.options.maximum_scale_error (d.abs (d.sub (d.abs scale) d.one))
                || (not (same_int known (pos 0)) && not (d.eq sign (d.of_int known))))) [
                  | inl bad ↦ rw (near, bad) (inl refl)
                  | inr good ↦
                      rw (near, good)
                        (inr (
                          sign,
                          _,
                          refl,
                          (
                            (λ one. absurd (n one)),
                            (λ two. sign_cases scale),
                            (λ two some. ground arith),
                          ),
                        ))
                ]
        ]

  pub calculate_candidate_lem : (m : Session D) → Calculated m (calculate_candidate m).1
  unfolding calculate_candidate one_reference
  calculate_candidate_lem m = elim (Bool-cases (m.options.reference_count == 1)) [
    | inl one ↦ rw one (
        inr (
          d.of_int m.options.known_sign,
          _,
          refl,
          ((λ e. refl), (λ e. absurd (ground arith)), (λ e. absurd (ground arith))),
        ))
    | inr two ↦ rw two (two_references_lem m (ground arith))
  ]

  -- A reference that may be finished: it is the one that is collected, and has its samples.
  abbrev pub Finishable : Session D → ℕ → Type 0
  Finishable m i =
      (((i ≡ 0) × (m.state ≡ collect_reference_1)) ⊎ ((i ≡ 1) × (m.state ≡ collect_reference_2)))
      × (m.options.minimum_samples ≤ (get m.accumulators i).count)

  -- Means and spreads play no part in the invariant.
  with_means : Session D → ℕ → Session D
  with_means m i =
      let acc = get m.accumulators i in
      record m { means = set m.means i (mean acc); spreads = set m.spreads i (spread acc) }

  with_means-Inv : (o : ManualOptions D) (m : Session D) (i : ℕ) → Inv o m → Inv o (with_means m i)
  unfolding with_means
  with_means-Inv o m i v = record {
    same_options = v.same_options;
    second_only = v.second_only;
    first_enough = v.first_enough;
    second_enough = v.second_enough;
    sign_allowed = v.sign_allowed;
  }

  pub candidate-Inv :
      (o : ManualOptions D) (m : Session D) (i : ℕ) (a b : D)
      → (i == 0 && m.options.reference_count == 2) ≡ false
      → Finishable m i
      → Inv o m
      → SignAllowed m.options a
      → Inv o (with_candidate m a b)
  candidate-Inv o m i a b n h v s = record {
    same_options = v.same_options;
    second_only = λ e. cc;
    first_enough = λ e. enough_first e;
    second_enough = λ e two. ground (arith, least, refs);
    sign_allowed = λ e. rw (← v.same_options) s;
  }
    where
      least : m.options.minimum_samples ≡ o.minimum_samples
      least = ap (λ r. r.minimum_samples) v.same_options

      refs : m.options.reference_count ≡ o.reference_count
      refs = ap (λ r. r.reference_count) v.same_options

      enough_first : true ≡ true → o.minimum_samples ≤ m.accumulators.at_0.count
      enough_first e = ground (arith, least, refs)

  pub finish_reference-Inv :
      (o : ManualOptions D) (m : Session D) (i : ℕ)
      → Finishable m i
      → Inv o m
      → Inv o (finish_reference m i).1
  unfolding finish_reference with_means
  finish_reference-Inv o m i h v = elim (Bool-cases (i == 0 && m.options.reference_count == 2)) [
    | inl both ↦ rw both (record {
      same_options = v.same_options;
      second_only = λ e. ground (arith, refs);
      first_enough = λ e. ground (arith, least);
      second_enough = λ e. absurd (cc);
      sign_allowed = λ e. absurd (cc);
    })
    | inr one ↦ rw one (elim (calculate_candidate_lem (with_means m i)) [
      | inl e ↦ rw e (with_means-Inv o m i v)
      | inr (a, b, e, s) ↦
          rw e (candidate-Inv o (with_means m i) i a b one h (with_means-Inv o m i v) s)
    ])
  ]
    where
      least : m.options.minimum_samples ≡ o.minimum_samples
      least = ap (λ r. r.minimum_samples) v.same_options

      refs : m.options.reference_count ≡ o.reference_count
      refs = ap (λ r. r.reference_count) v.same_options
