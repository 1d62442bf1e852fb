-- ===== src/Control/Run.antt =====
-- Any sequence of the calls of a Controller.
pub mod Safe
pub mod Sound
pub mod Settling
pub mod Arming
pub mod Moving
pub mod Cycle
pub mod Powered
pub mod Emergency
pub mod Watchdog
pub mod Starts
pub mod Events
use open_arm_ik.Shared.{ℕ, Bool, List, [], ◌∷◌}
use open_arm_ik.Shared.Double.{Double}
use open_arm_ik.Control.Plan.{
  MotionPlan, JointMove, ExecuteRequest, Challenge, ResetRequest, SimFault, SimContact, SimState,
}
use open_arm_ik.Control.Controller.{Controller}
use open_arm_ik.Control.Controller.Arming.{
  open_and_verify, challenge, arm, set_interlock, stop, disarm, reset, heartbeat,
  set_collision_scene_revision, poll_event,
}
use open_arm_ik.Control.Controller.Planning.{plan_joint, plan_preconditions}
use open_arm_ik.Control.Controller.Geometry.{Geometry}
use open_arm_ik.Control.Controller.Obstacle.{set_sim_contact}
use open_arm_ik.Control.Controller.Execute.{execute}
use open_arm_ik.Control.Controller.Simulation.{set_sim_fault, set_sim_state}
use open_arm_ik.Control.Controller.Advance.{advance}

-- The methods that are not const. A call of plan_paired, plan_centroid, plan_mirrored or
-- plan_converge changes the controller in plan_preconditions alone.
pub data Call (D : Type 0) : Type 0 where
  opens : Call D
  challenges : Call D
  arms : Challenge → Call D
  plans : JointMove D → Call D
  prepares : Bool → Call D
  executes : MotionPlan D → ExecuteRequest → Call D
  advances : Bool → ℕ → Call D
  faults : SimFault → Call D
  obstructs : SimContact D → Call D
  places : SimState D → Call D
  beats : ℕ → ℕ → Call D
  interlocks : Bool → Bool → Call D
  revises : ℕ → Call D
  stops : ℕ → Call D
  disarms : ℕ → Call D
  resets : ResetRequest → Call D
  polls : Call D

module _ {D : Type 0} ⦃d : Double D⦄ (g : Geometry D) where
  unfoldable pub step : Controller D → Call D → Controller D
  step c opens = (open_and_verify c).next
  step c challenges = (challenge c).next
  step c (arms r) = (arm r c).1
  step c (plans r) = (plan_joint r c).next
  step c (prepares estop) = (plan_preconditions estop c).1
  step c (executes p r) = (execute g p r c).next
  step c (advances estop t) = (advance g estop t c).1
  step c (faults f) = (set_sim_fault f c).1
  step c (obstructs s) = (set_sim_contact s c).1
  step c (places s) = (set_sim_state s c).1
  step c (beats id deadline) = (heartbeat id deadline c).1
  step c (interlocks estop deadman) = (set_interlock estop deadman c).1
  step c (revises n) = (set_collision_scene_revision n c).1
  step c (stops kind) = (stop kind c).1
  step c (disarms deadline) = (disarm deadline c).1
  step c (resets r) = (reset r c).1
  step c polls = (poll_event c).next

  unfoldable pub run : Controller D → List (Call D) → Controller D
  run c [] = c
  run c (k ∷ ks) = run (step c k) ks
