-- ===== src/Commission/Manual/History.antt =====
-- Histories of a manual session: any sequence of its calls.
use open_arm_ik.Shared.{ℕ, Option, List, [], ◌∷◌}
use open_arm_ik.Shared.Double.{Double}
use open_arm_ik.Commission.Records.{Sample}
use open_arm_ik.Commission.Manual.{Session, sample, begin_review, commit, abort}

pub data Call (D : Type 0) : Type 0 where
  samples : ℕ → ℕ → Sample D → Call D
  reviews : Call D
  commits : ℕ → Option (List ℕ) → Call D
  aborts : Call D

module _ {D : Type 0} ⦃d : Double D⦄ where
  unfoldable pub step : Session D → Call D → Session D
  step m (samples i now s) = (sample m i now s).1
  step m reviews = (begin_review m).1
  step m (commits revision evidence) = (commit m revision evidence).next
  step m aborts = (abort m).1

  unfoldable pub run : Session D → List (Call D) → Session D
  run m [] = m
  run m (c ∷ cs) = run (step m c) cs
