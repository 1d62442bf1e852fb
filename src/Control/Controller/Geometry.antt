-- ===== src/Control/Controller/Geometry.antt =====
-- The geometry that the controller asks for: `forward` of control/src/kinematics.cpp and the
-- functions of the C library in model/, as parameters.
use open_arm_ik.Shared.{ℕ, Bool, Option, List}
use open_arm_ik.Control.Config.{Both}

-- KinematicResult.
pub record KinematicResult (D : Type 0) : Type 0 where
  pub joint_xyz : List (List D)
  pub joint_axis : List (List D)
  pub tcp_transform : List D
  pub tcp_xyz : D × D × D

-- What oa_collision_evaluate_scoped_fk_with_threshold reports; `evaluated` says that it returned
-- OA_MODEL_OK.
pub record Evaluation (D : Type 0) : Type 0 where
  pub evaluated : Bool
  pub is_clear : ℕ
  pub violation : ℕ
  pub side : ℕ
  pub segment_a : ℕ
  pub segment_b : ℕ
  pub minimum_clearance_m : D
  pub terminal_pair_active : ℕ
  pub terminal_pair_clearance_m : D
  pub tcp_separation_m : D
  pub claw_contact_active : ℕ
  pub claw_hand_gap_m : D
  pub minimum_other_claw_gap_m : D

-- `fk` is oa_fk with the model of the side, its result as the numbers in it; `none` says that a
-- function failed. `evaluate` takes the results of both sides and the contact policy, at the
-- clearance that oa_collision_intervention_clearance_m returns.
pub record Geometry (D : Type 0) : Type 0 where
  pub forward : ℕ → List D → Option (KinematicResult D)
  pub fk : ℕ → List D → Option (List D)
  pub evaluate : Both (List D) → ℕ → Evaluation D
