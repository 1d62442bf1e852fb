-- ===== src/Commission/Recipe/Patches.antt =====
-- The patch that a recipe session commits, after any calls
-- (commission/src/calibration_session.cpp).
use open_arm_ik.Shared.{
  ℕ, ◌≡◌, ◌<◌, ◌∙◌, refl, false, not, some, List, [], ◌∷◌, arith, if-both, nonzero, if◌then◌else◌,
}
use open_arm_ik.Shared.Double.{Double}
use open_arm_ik.Commission.Text.{copy_text}
use open_arm_ik.Commission.Records.{is_ok, MappingPatch}
use open_arm_ik.Commission.Recipe.Records.{
  RecipeState, precheck, wait, approach, contact_dwell, retreat, reapproach, repeatability,
  candidate, review, committed, aborted, Recipe, Input, RecipeSession, Step,
}
use open_arm_ik.Commission.Recipe.Guards.{validate_input, validate_binding, fail, stopped}
use open_arm_ik.Commission.Recipe.Phases.{
  precheck_phase, wait_phase, approach_moving, contact_dwell_moving, retreat_moving,
  reapproach_moving, limited,
}
use open_arm_ik.Commission.Recipe.Session.{
  create, phase, live_step, step_in, step, commit, patch_of, abort, abort_in,
}
use open_arm_ik.Commission.Recipe.Steps.{noted, validate_input_lem}
use open_arm_ik.Commission.Recipe.FailSafe.{validate_input-Disarmed}
use open_arm_ik.Commission.Recipe.History.{Call, steps, commits, aborts, after, run}
use open_arm_ik.Commission.Recipe.Candidate.{
  has_candidate, FromStops, Inv, EarlyStep, Early-Inv, stopped_next, limited-Early,
  precheck_phase-Early, wait_phase-Early, approach_moving-Early, contact_dwell_moving-Early,
  retreat_moving-Early, reapproach_moving-Early, repeatability_phase-Inv, candidate_phase-Inv,
  review_phase-Inv,
}

module _ {D : Type 0} ⦃d : Double D⦄ where
  early :
      (f : RecipeSession D → Input D → Step D)
      → EarlyStep f
      → (r : Recipe D) (m : RecipeSession D) (x : Input D) → m.recipe ≡ r
      → has_candidate m.state ≡ false
      → Inv r (f m x).next
  early f h r m x e k = Early-Inv r m (f m x).next e (h m x k)

  phase-Inv :
      (t : RecipeState) (r : Recipe D) (m : RecipeSession D) (x : Input D)
      → m.state ≡ t
      → Inv r m
      → Inv r (phase t m x).next
  unfolding phase stopped
  phase-Inv precheck r m x e v = early precheck_phase precheck_phase-Early r m x v.0 (ground arith)
  phase-Inv wait r m x e v = early wait_phase wait_phase-Early r m x v.0 (ground arith)
  phase-Inv approach r m x e v =
      early (limited approach_moving) (limited-Early approach_moving approach_moving-Early) r m x
        v.0 (ground arith)
  phase-Inv contact_dwell r m x e v =
      early (limited contact_dwell_moving)
        (limited-Early contact_dwell_moving contact_dwell_moving-Early) r m x v.0 (ground arith)
  phase-Inv retreat r m x e v =
      early (limited retreat_moving) (limited-Early retreat_moving retreat_moving-Early) r m x v.0
        (ground arith)
  phase-Inv reapproach r m x e v =
      early (limited reapproach_moving) (limited-Early reapproach_moving reapproach_moving-Early) r
        m x v.0 (ground arith)
  phase-Inv repeatability r m x e v = repeatability_phase-Inv r m x v.0
  phase-Inv candidate r m x e v = candidate_phase-Inv r m x (ground arith) v
  phase-Inv review r m x e v = review_phase-Inv r m x (ground arith) v
  phase-Inv committed r m x e v = v
  phase-Inv aborted r m x e v = v

  validate_binding_recipe :
      (m : RecipeSession D) (x : Input D) → (validate_binding m x).1.recipe ≡ m.recipe
  unfolding validate_binding fail
  validate_binding_recipe m x = ground arith

  validate_input_recipe :
      (m : RecipeSession D) (x : Input D) → (validate_input m x).1.recipe ≡ m.recipe
  unfolding validate_input fail
  validate_input_recipe m x = ground (arith, validate_binding_recipe (noted m x) x)

  live_step-Inv :
      (r : Recipe D) (m : RecipeSession D) (x : Input D) → Inv r m → Inv r (live_step m x).next
  unfolding live_step
  live_step-Inv r m x h =
      let v = validate_input m x in
      if-both (λ (s : Step D). Inv r s.next) (not (is_ok v.0))
        (λ e. rw (stopped_next v.0 v.1 x) (
          let out = validate_input-Disarmed m x (ground arith) in
          (validate_input_recipe m x ∙ h.0, λ k. absurd (ground arith))))
        (λ e.
          rw ((validate_input_lem m x (ground arith)).0) (phase-Inv m.state r (noted m x) x refl h))

  step_in-Inv :
      (t : RecipeState) (r : Recipe D) (m : RecipeSession D) (x : Input D)
      → Inv r m
      → Inv r (step_in t m x).next
  unfolding step_in
  step_in-Inv committed r m x v = v
  step_in-Inv aborted r m x v = v
  step_in-Inv _ r m x v = live_step-Inv r m x v

  after-Inv : (r : Recipe D) (m : RecipeSession D) (c : Call D) → Inv r m → Inv r (after m c)
  unfolding after step commit abort abort_in fail
  after-Inv r m (steps x) v = step_in-Inv m.state r m x v
  after-Inv r m (commits n) v = ground (arith, v.1)
  after-Inv r m aborts v = ground (arith, v.1)

  run-Inv : (r : Recipe D) (m : RecipeSession D) (cs : List (Call D)) → Inv r m → Inv r (run m cs)
  unfolding run
  run-Inv r m [] v = v
  run-Inv r m (c ∷ cs) v = run-Inv r (after m c) cs (after-Inv r m c v)

  create-Inv : (r : Recipe D) → Inv r (create r)
  unfolding create
  create-Inv r = (refl, λ k. absurd (cc))

  commit_inv :
      (m : RecipeSession D) (n : ℕ) (p : MappingPatch D)
      → (commit m n).patch ≡ some p
      → (m.state ≡ review)
        × (m.recipe.expected_revision < n)
        × (p ≡ patch_of m n)
        × ((commit m n).next.state ≡ committed)
  unfolding commit
  commit_inv m n p h = (ground arith, ground arith, ground arith, ground arith)

  -- What a patch of a recipe rests on.
  pub record IsMeasured (r : Recipe D) (m : RecipeSession D) (revision : ℕ) (p : MappingPatch D)
      : Type 0 where
    pub was_reviewed : m.state ≡ review
    pub revision_grows : r.expected_revision < p.replacement_revision
    pub asked_revision : p.replacement_revision ≡ revision
    pub based_on : p.expected_revision ≡ r.expected_revision
    pub joint_of_recipe :
        (p.side ≡ r.side) × (p.joint ≡ r.joint) × (p.motor_serial ≡ copy_text r.motor_serial)
    pub evidence_named :
        p.evidence_record
        ≡ copy_text (
            if nonzero r.simulation_only
            then r.simulation_evidence_record
            else r.qualification_record)
    pub simulation_told : p.evidence_kind ≡ (if nonzero r.simulation_only then 3 else 2)
    pub sign_known : p.a ≡ d.of_int r.known_sign
    pub from_stops :
        p.b_rad
        ≡ d.sub r.stop_model_rad (d.mul (d.mul p.a d.half) (d.add m.first_stop_q m.second_stop_q))
    pub repeatable :
        d.lt r.repeatability_tolerance_rad (d.abs (d.sub m.second_stop_q m.first_stop_q)) ≡ false

  patch-IsMeasured :
      (m : RecipeSession D) (n : ℕ)
      → m.state ≡ review
      → m.recipe.expected_revision < n
      → FromStops m.recipe m
      → IsMeasured m.recipe m n (patch_of m n)
  unfolding patch_of
  patch-IsMeasured m n s g f = record {
    was_reviewed = s;
    revision_grows = g;
    asked_revision = refl;
    based_on = refl;
    joint_of_recipe = (refl, refl, refl);
    evidence_named = refl;
    simulation_told = refl;
    sign_known = f.0;
    from_stops = rw (f.0) (f.1);
    repeatable = f.2;
  }

  IsMeasured-along :
      (r q : Recipe D) (m : RecipeSession D) (n : ℕ) (p : MappingPatch D)
      → r ≡ q
      → IsMeasured r m n p
      → IsMeasured q m n p
  IsMeasured-along r q m n p e h = rw⁻¹ e h

  -- Whatever calls came before, a patch is committed only from the review state and for a larger
  -- revision; it names the joint of the recipe, carries its known sign and the offset of the two
  -- stops, which repeat within the tolerance, and says whether its evidence is a simulation's.
  pub recipe_patch-IsMeasured :
      (r : Recipe D) (cs : List (Call D)) (n : ℕ) (p : MappingPatch D)
      → (commit (run (create r) cs) n).patch ≡ some p
      → IsMeasured r (run (create r) cs) n p
        × ((commit (run (create r) cs) n).next.state ≡ committed)
  recipe_patch-IsMeasured r cs n p h =
      let m = run (create r) cs in
      let v : Inv r m = run-Inv r (create r) cs (create-Inv r) in
      let (s, g, q, e) = commit_inv m n p h in
      let f : FromStops m.recipe m = rw v.0 (v.1 (ground arith)) in
      (IsMeasured-along m.recipe r m n p v.0 (rw q (patch-IsMeasured m n s g f)), e)
