-- ===== src/Commission/Recipe/History.antt =====
-- Histories of a recipe session: any sequence of its calls.
use open_arm_ik.Shared.{ℕ, List, [], ◌∷◌}
use open_arm_ik.Shared.Double.{Double}
use open_arm_ik.Commission.Recipe.Records.{Input, RecipeSession}
use open_arm_ik.Commission.Recipe.Session.{step, commit, abort}

pub data Call (D : Type 0) : Type 0 where
  steps : Input D → Call D
  commits : ℕ → Call D
  aborts : Call D

module _ {D : Type 0} ⦃d : Double D⦄ where
  unfoldable pub after : RecipeSession D → Call D → RecipeSession D
  after m (steps x) = (step m x).next
  after m (commits revision) = (commit m revision).next
  after m aborts = (abort m).1

  unfoldable pub run : RecipeSession D → List (Call D) → RecipeSession D
  run m [] = m
  run m (c ∷ cs) = run (after m c) cs
