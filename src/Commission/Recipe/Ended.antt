-- ===== src/Commission/Recipe/Ended.antt =====
-- A recipe session that is committed or aborted (commission/src/calibration_session.cpp).
use open_arm_ik.Shared.{ℕ, ◌≡◌, ◌⊎◌, inl, inr, refl, false, List, [], ◌∷◌}
use open_arm_ik.Shared.Double.{Double}
use open_arm_ik.Commission.Records.{estate}
use open_arm_ik.Commission.Recipe.Records.{RecipeState, committed, aborted, Input, RecipeSession}
use open_arm_ik.Commission.Recipe.Guards.{action}
use open_arm_ik.Commission.Recipe.Session.{step_in, step, commit, abort_in, abort}
use open_arm_ik.Commission.Recipe.History.{Call, steps, commits, aborts, after, run}
use open_arm_ik.Commission.Recipe.Motion.{moves}

abbrev pub Ended : RecipeState → Type 0
Ended t = (t ≡ committed) ⊎ (t ≡ aborted)

module _ {D : Type 0} ⦃d : Double D⦄ where
  step_terminal :
      (m : RecipeSession D) (x : Input D)
      → Ended m.state
      → ((step m x).next ≡ m)
        × ((step m x).status ≡ estate)
        × (moves (step m x).action.kind ≡ false)
  unfolding step step_in action
  step_terminal m x (inl e) = rw e (refl, refl, refl)
  step_terminal m x (inr e) = rw e (refl, refl, refl)

  commit_terminal :
      (m : RecipeSession D) (n : ℕ)
      → Ended m.state
      → ((commit m n).next ≡ m) × ((commit m n).status ≡ estate)
  unfolding commit
  commit_terminal m n (inl e) = rw e (refl, refl)
  commit_terminal m n (inr e) = rw e (refl, refl)

  abort_terminal :
      (m : RecipeSession D) → Ended m.state → ((abort m).1 ≡ m) × ((abort m).0 ≡ estate)
  unfolding abort abort_in
  abort_terminal m (inl e) = rw e (refl, refl)
  abort_terminal m (inr e) = rw e (refl, refl)

  after_terminal : (m : RecipeSession D) (c : Call D) → Ended m.state → after m c ≡ m
  unfolding after
  after_terminal m (steps x) h = (step_terminal m x h).0
  after_terminal m (commits n) h = (commit_terminal m n h).0
  after_terminal m aborts h = (abort_terminal m h).0

  run_terminal : (m : RecipeSession D) (cs : List (Call D)) → Ended m.state → run m cs ≡ m
  unfolding run
  run_terminal m [] h = refl
  run_terminal m (c ∷ cs) h = rw (after_terminal m c h) (run_terminal m cs h)

  -- A recipe session that is committed or aborted is never changed again by any calls; every call
  -- reports ESTATE, and no step lets the joint move.
  pub terminal_recipe_absorbs :
      (m : RecipeSession D) (cs : List (Call D))
      → Ended m.state
      → (run m cs ≡ m)
        × ((x : Input D) → (step m x).status ≡ estate)
        × ((x : Input D) → moves (step m x).action.kind ≡ false)
        × ((n : ℕ) → (commit m n).status ≡ estate)
        × ((abort m).0 ≡ estate)
  terminal_recipe_absorbs m cs h = (
    run_terminal m cs h,
    λ x. (step_terminal m x h).1,
    λ x. (step_terminal m x h).2,
    λ n. (commit_terminal m n h).1,
    (abort_terminal m h).1,
  )
