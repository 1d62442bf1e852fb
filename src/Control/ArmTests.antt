-- ===== src/Control/ArmTests.antt =====
-- The theorems on arming, executing and stopping, at concrete states.
use open_arm_ik.Shared.{ℕ, ℤ, pos, ◌≤◌, ◌≡◌, ◌≢◌, inl, refl, true, false, some, [], ◌∷◌, arith}
use open_arm_ik.Shared.Whole.{whole_numbers}
use open_arm_ik.Control.Codes.{
  ok, eestop, lifecycle_disarmed, lifecycle_armed_idle, lifecycle_executing, lifecycle_fault,
}
use open_arm_ik.Control.Plan.{MotionPlan, JointMove, ExecuteRequest}
use open_arm_ik.Control.Ring
use open_arm_ik.Control.Motor
use open_arm_ik.Control.Arm
use open_arm_ik.Control.Arm.Snapshot
use open_arm_ik.Control.Controller
use open_arm_ik.Control.Controller.{Controller, has, fresh, healthy, disabled, initial}
use open_arm_ik.Control.Controller.Arming
use open_arm_ik.Control.Controller.Arming.{arm}
use open_arm_ik.Control.Controller.Planning.{plan_preconditions, joint_plan}
use open_arm_ik.Control.Controller.Planning
use open_arm_ik.Control.Controller.Execute
use open_arm_ik.Control.Controller.Monitors
use open_arm_ik.Control.Controller.Advance.{advance}
use open_arm_ik.Control.Run
use open_arm_ik.Control.Run.{opens, challenges, arms, run}
use open_arm_ik.Control.Run.Emergency.{preconditions_mask_estop}
use open_arm_ik.Control.Run.Watchdog.{advance_late}
use open_arm_ik.Control.Run.Starts.{arm_ok}
use open_arm_ik.Control.Tests.{start, geometry, challenge_1}

-- Verified, with a challenge.
abbrev ready : Controller ℤ
ready = run geometry start (opens ∷ challenges ∷ [])

armed_now : (arm challenge_1 ready).0 ≡ ok
unfolding run Run.step Arming.open_and_verify Arming.verify_arm Arming.challenge
    Arming.issue_challenge Arming.refuses arm Arming.live_challenge Arming.enable Arming.arm_one
    initial Controller.published Controller.publish Controller.append Controller.event_of fresh
    healthy disabled Controller.feedback_integrity Snapshot.complete_fresh Snapshot.fault_free
    Snapshot.all_disabled Snapshot.all_zero Snapshot.snapshot Snapshot.gather Snapshot.joint_fresh
    Arm.bit Arm.create Arm.set_enabled Arm.force_state Arm.clear_queue Arm.force_from Arm.zeros
    Arm.measured_q Motor.create Motor.set_enabled Motor.force_state Motor.capture Motor.publish
    Motor.frame_of Motor.status_of Motor.status_field Motor.decoded_q Motor.decoded_dq
    Motor.decoded_tau Motor.encode_field Motor.decode_field Motor.q_field Motor.dq_field
    Motor.tau_field Motor.contact_tau Motor.mapped_q Ring.empty Ring.clear Ring.push
armed_now = refl

arm_ok_example :
    (ready.lifecycle ≡ lifecycle_disarmed)
    × ((challenge_1.verify_epoch ≡ ready.verify_epoch)
        × (challenge_1.nonce ≡ ready.outstanding_nonce)
        × (ready.outstanding_nonce ≢ 0)
        × (ready.now_ns ≤ ready.outstanding_challenge_expiry))
    × ((fresh ready ≡ true) × (healthy ready ≡ true) × (disabled ready ≡ true))
    × (ready.deadman_active ≡ true)
    × ((arm challenge_1 ready).1.lifecycle ≡ lifecycle_armed_idle)
    × ((arm challenge_1 ready).1.outstanding_nonce ≡ 0)
arm_ok_example = arm_ok challenge_1 ready armed_now

abbrev armed : Controller ℤ
armed = run geometry start (opens ∷ challenges ∷ arms challenge_1 ∷ [])

abbrev request : JointMove ℤ
request = record {
  expiry_ns = 1000000000000;
  required_feedback_seq = 2;
  side = 0;
  joint = 2;
  target_rad = pos 1;
  velocity_scale = pos 1;
  acceleration_scale = pos 1;
  jerk_scale = pos 1;
  position_tol_rad = pos 1;
  velocity_tol_rad_s = pos 1;
}

abbrev plan : MotionPlan ℤ
plan = joint_plan request armed

abbrev order : ExecuteRequest
order = record {
  start_ns = 0;
  expiry_ns = 1000000000000;
  producer_deadline_ns = 500000000000;
  stop_kind = 1;
}

-- A plan runs, and its producer is to be heard again by the time 3.
abbrev running : Controller ℤ
running = record start {
  lifecycle = lifecycle_executing;
  executing = some plan;
  command_id = 1;
  producer_deadline_ns = 3;
  command_expiry_ns = 100;
}

advance_late_example :
    let n = (advance geometry false 5 running).1 in
    (n.lifecycle ≡ lifecycle_fault) × (has n.executing ≡ false) × (n.command_id ≡ 0)
unfolding initial
advance_late_example = advance_late geometry 5 running refl refl (omega arith) (inl (omega arith))

preconditions_mask_estop_example :
    let p = plan_preconditions true running in
    let r = advance geometry true 5 p.1 in
    (p.0 ≡ eestop)
    × (r.0 ≡ eestop)
    × (r.1.arms ≡ running.arms)
    × (r.1.lifecycle ≡ running.lifecycle)
    × (r.1.executing ≡ running.executing)
    × (r.1.command_id ≡ running.command_id)
    × ((u : ℕ)
        → advance geometry false u r.1
          ≡ advance geometry false u (record running { now_ns = r.1.now_ns }))
preconditions_mask_estop_example = preconditions_mask_estop geometry 5 running
