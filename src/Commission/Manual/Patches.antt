-- ===== src/Commission/Manual/Patches.antt =====
-- The patch that a manual session commits (commission/src/calibration_session.cpp).
use open_arm_ik.Shared.{
  ◌≢◌, ◌⊎◌, inl, inr, pos, same_int, Bool-cases, ◌==◌, ℕ, ◌≤◌, ◌<◌, ◌≡◌, refl, ap, true, false,
  some, List, arith,
}
use open_arm_ik.Shared.Double.{Double}
use open_arm_ik.Commission.Text.{valid_text, copy_text}
use open_arm_ik.Commission.Records.{ManualOptions, MappingPatch}
use open_arm_ik.Commission.Manual.{
  review, committed, Session, create, commit, commit_text, patch_of,
}
use open_arm_ik.Commission.Manual.History.{Call, run}
use open_arm_ik.Commission.Manual.Candidate.{Inv, SignAllowed, has_candidate}
use open_arm_ik.Commission.Manual.Invariant.{run-Inv}

module _ {D : Type 0} ⦃d : Double D⦄ where
  -- The sign is the known one, or with two references plus or minus one, and equal to a known sign
  -- that is not 0.
  abbrev pub SignTold : ManualOptions D → D → Type 0
  SignTold o a =
      ((o.reference_count ≡ 1) × (a ≡ d.of_int o.known_sign))
      ⊎ (((o.reference_count ≡ 2)
            × ((a ≡ d.one) ⊎ (a ≡ d.neg d.one))
            × ((same_int o.known_sign (pos 0) ≡ true) ⊎ (d.eq a (d.of_int o.known_sign) ≡ true)))
          ⊎ ((o.reference_count ≢ 1) × (o.reference_count ≢ 2)))

  sign_told : (o : ManualOptions D) (a : D) → SignAllowed o a → SignTold o a
  sign_told o a (one, two, known) = elim (Bool-cases (o.reference_count == 1)) [
    | inl e ↦ inl (ground arith, one (ground arith))
    | inr e ↦ elim (Bool-cases (o.reference_count == 2)) [
      | inr f ↦ inr (inr (λ z. ground arith, λ z. ground arith))
      | inl f ↦
          let n : o.reference_count ≡ 2 = ground arith in
          elim (Bool-cases (same_int o.known_sign (pos 0))) [
            | inl z ↦ inr (inl (n, two n, inl z))
            | inr z ↦ inr (inl (n, two n, inr (known n z)))
          ]
    ]
  ]

  second_told :
      (o : ManualOptions D) (k : ℕ)
      → (o.reference_count ≡ 2 → o.minimum_samples ≤ k)
      → (o.reference_count ≢ 2) ⊎ (o.minimum_samples ≤ k)
  second_told o k h = elim (Bool-cases (o.reference_count == 2)) [
    | inl e ↦ inr (h (ground arith))
    | inr e ↦ inl (λ z. ground arith)
  ]

  -- What a patch rests on.
  pub record IsSound (o : ManualOptions D) (m : Session D) (revision : ℕ) (evidence : List ℕ)
      (p : MappingPatch D) : Type 0 where
    pub was_reviewed : m.state ≡ review
    pub revision_grows : o.expected_revision < p.replacement_revision
    pub asked_revision : p.replacement_revision ≡ revision
    pub based_on : p.expected_revision ≡ o.expected_revision
    pub evidence_valid : valid_text (some evidence) false ≡ true
    pub evidence_copied : p.evidence_record ≡ copy_text evidence
    pub joint_of_options :
        (p.side ≡ o.side) × (p.joint ≡ o.joint) × (p.motor_serial ≡ copy_text o.motor_serial)
    pub sign_allowed : SignTold o p.a
    pub first_enough : o.minimum_samples ≤ m.accumulators.at_0.count
    pub second_enough : (o.reference_count ≢ 2) ⊎ (o.minimum_samples ≤ m.accumulators.at_1.count)

  commit_inv :
      (m : Session D) (r : ℕ) (e : List ℕ) (p : MappingPatch D)
      → (commit m r (some e)).patch ≡ some p
      → (m.state ≡ review)
        × (m.options.expected_revision < r)
        × (valid_text (some e) false ≡ true)
        × (p ≡ patch_of m r e)
        × ((commit m r (some e)).next.state ≡ committed)
  unfolding commit commit_text
  commit_inv m r e p h = (ground arith, ground arith, ground arith, ground arith, ground arith)

  patch-IsSound :
      (o : ManualOptions D) (m : Session D) (r : ℕ) (e : List ℕ)
      → Inv o m
      → m.state ≡ review
      → m.options.expected_revision < r
      → valid_text (some e) false ≡ true
      → IsSound o m r e (patch_of m r e)
  unfolding patch_of
  patch-IsSound o m r e v s g t =
      let same = v.same_options in
      let ready : has_candidate m.state ≡ true = ground arith in
      record {
        was_reviewed = s;
        revision_grows = ground (arith, ap (λ q. q.expected_revision) same);
        asked_revision = refl;
        based_on = ap (λ q. q.expected_revision) same;
        evidence_valid = t;
        evidence_copied = refl;
        joint_of_options = (
          ap (λ q. q.side) same,
          ap (λ q. q.joint) same,
          ap (λ q. copy_text q.motor_serial) same,
        );
        sign_allowed = sign_told o m.candidate_a (v.sign_allowed ready);
        first_enough = v.first_enough (ground arith);
        second_enough = second_told o m.accumulators.at_1.count (v.second_enough ready);
      }

  -- Whatever a client did with the session before, a patch is committed only from the review state,
  -- for a larger revision and a valid evidence text; it names the joint of the options, its sign is
  -- one that the options allow, and each reference had at least the minimum of samples.
  pub committed_patch-IsSound :
      (o : ManualOptions D) (cs : List (Call D)) (r : ℕ) (e : List ℕ) (p : MappingPatch D)
      → (commit (run (create o) cs) r (some e)).patch ≡ some p
      → IsSound o (run (create o) cs) r e p
        × ((commit (run (create o) cs) r (some e)).next.state ≡ committed)
  committed_patch-IsSound o cs r e p h =
      let m = run (create o) cs in
      let (s, g, t, q, n) = commit_inv m r e p h in
      (rw q (patch-IsSound o m r e (run-Inv o cs) s g t), n)
