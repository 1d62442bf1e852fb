-- ===== src/Control/Arm.antt =====
-- ArmRuntime of control/src/control_core.cpp: seven motors, the feedback that is on its way, and
-- what was last published.
pub mod Snapshot
pub mod Power
pub mod Queue
use open_arm_ik.Shared.{
  add64, ℕ, zero, suc, ◌+◌, ◌-◌, ◌/◌, ◌%◌, ◌^◌, Bool, true, false, not, ◌&&◌, ◌||◌, List, [], ◌∷◌,
  map, ltb, leb, ◌==◌, nonzero, if◌then◌else◌,
}
use open_arm_ik.Shared.Double.{Double}
use open_arm_ik.Control.Codes.{all_joints}
use open_arm_ik.Control.Config.{ArmConfig}
use open_arm_ik.Control.Ring
use open_arm_ik.Control.Ring.{Ring}
use open_arm_ik.Control.Motor
use open_arm_ik.Control.Motor.{FeedbackFrame, Motor, mapped_q, mapped_dq, mapped_tau}

pub record FeedbackGeneration : Type 0 where
  pub frame : List FeedbackFrame
  pub capture_ns : ℕ
  pub ready_ns : ℕ
  pub member_mask : ℕ

-- `complete_cycles` is the counter of transport_, a FakeTransport.
pub record Arm (D : Type 0) : Type 0 where
  pub motor : List (Motor D)
  pub feedback_queue : Ring FeedbackGeneration
  pub complete_cycles : ℕ
  pub feedback_seq : ℕ
  pub freeze_mask : ℕ
  pub drop_mask : ℕ
  pub fault_mask : ℕ
  pub command_fail_mask : ℕ
  pub feedback_delay_ns : ℕ
  pub generation_mask : ℕ
  pub generation_timestamp : ℕ

-- (mask & (1U << joint)) != 0U
unfoldable pub bit : ℕ → ℕ → Bool
bit mask joint = nonzero ((mask / 2 ^ joint) % 2)

-- The largest std::uint64_t.
abbrev pub max64 : ℕ
max64 = 2 ^ 64 - 1

-- What a pass of the loop of publish_due does: return a value or break, or go on.
pub data Pass (D : Type 0) : Type 0 where
  leaves : Bool → Arm D → Pass D
  repeats : Arm D → Pass D

module _ {D : Type 0} ⦃d : Double D⦄ where
  unfoldable pub create : ArmConfig D → Arm D
  create config = record {
    motor = map Motor.create config.motor;
    feedback_queue =
        Ring.empty (record { frame = []; capture_ns = 0; ready_ns = 0; member_mask = 0 });
    complete_cycles = 0;
    feedback_seq = 0;
    freeze_mask = 0;
    drop_mask = 0;
    fault_mask = 0;
    command_fail_mask = 0;
    feedback_delay_ns = 0;
    generation_mask = 0;
    generation_timestamp = 0;
  }

  unfoldable pub set_enabled : Bool → Arm D → Arm D
  set_enabled on a = record a { motor = map (Motor.set_enabled on) a.motor }

  unfoldable pub fault_from : ℕ → ℕ → ℕ → List (Motor D) → List (Motor D)
  fault_from joint mask status [] = []
  fault_from joint mask status (m ∷ ms) =
      Motor.set_fault (if bit mask joint then status else 0) m
      ∷ fault_from (suc joint) mask status ms

  unfoldable pub set_fault_mask : ℕ → ℕ → Arm D → Arm D
  set_fault_mask mask status a = record a { motor = fault_from 0 mask status a.motor }

  -- `mask & kAllJoints` is the remainder by 128.
  unfoldable pub set_injection : ℕ → ℕ → ℕ → ℕ → ℕ → ℕ → Arm D → Arm D
  set_injection freeze drop fault fault_status command_fail delay a =
      let injected : Arm D = record a {
        freeze_mask = freeze % 128;
        drop_mask = drop % 128;
        fault_mask = fault % 128;
        command_fail_mask = command_fail % 128;
        feedback_delay_ns = delay;
      } in
      set_fault_mask (fault % 128) (if fault % 128 == 0 then 0 else fault_status) injected

  unfoldable pub enqueue : FeedbackGeneration → Arm D → Bool × Arm D
  enqueue g a =
      let (kept, q) = Ring.push_or_refuse a.feedback_queue g in
      (kept, record a { feedback_queue = q })

  unfoldable pub publish_frames : List FeedbackFrame → List (Motor D) → List (Motor D)
  publish_frames (f ∷ fs) (m ∷ ms) = Motor.publish f m ∷ publish_frames fs ms
  publish_frames _ ms = ms

  -- feedback_queue_head_ and feedback_queue_count_ move on.
  unfoldable pub dequeue : Arm D → Arm D
  dequeue a = record a { feedback_queue = Ring.drop a.feedback_queue }

  -- A generation that every joint is a member of.
  unfoldable pub publish_complete : FeedbackGeneration → Arm D → Arm D
  publish_complete g a = record a {
    motor = publish_frames g.frame a.motor;
    generation_mask = all_joints;
    generation_timestamp = g.capture_ns;
    feedback_seq = a.feedback_seq + 1;
  }

  unfoldable pub publish_pass : ℕ → Arm D → Pass D
  publish_pass now_ns a =
      let g = a.feedback_queue.slot a.feedback_queue.head in
      if a.feedback_queue.count == 0
      then leaves true a
      else if ltb now_ns g.ready_ns
      then leaves true a
      else if g.member_mask == all_joints
      then (if a.feedback_seq == max64
          then leaves false a
          else repeats (dequeue (publish_complete g a)))
      else leaves true (dequeue (record a { generation_mask = g.member_mask }))

  -- The loop; a pass that goes on takes a generation off the queue.
  unfoldable pub publish_loop : ℕ → ℕ → Arm D → Bool × Arm D
  publish_loop zero now_ns a = (true, a)
  publish_loop (suc fuel) now_ns a = elim (publish_pass now_ns a) [
    | leaves result b ↦ (result, b)
    | repeats b ↦ publish_loop fuel now_ns b
  ]

  unfoldable pub publish_due : ℕ → Arm D → Bool × Arm D
  publish_due now_ns a = publish_loop (suc a.feedback_queue.count) now_ns a

  unfoldable pub clear_queue : Arm D → Arm D
  clear_queue a = record a { feedback_queue = Ring.clear a.feedback_queue }

  unfoldable pub retire_pending_feedback : Arm D → Arm D
  retire_pending_feedback a = clear_queue a

  -- The loop of command_and_step: each motor is commanded and then captured.
  unfoldable pub command_from :
      ℕ → ℕ → List D → List D → ℕ → D → List (Motor D) → List FeedbackFrame × List (Motor D)
  command_from joint freeze (q ∷ qs) (dq ∷ dqs) now_ns dt_s (m ∷ ms) =
      let (f, n) = Motor.capture dt_s now_ns (bit freeze joint) (Motor.command q dq m) in
      let (fs, ns) = command_from (suc joint) freeze qs dqs now_ns dt_s ms in (f ∷ fs, n ∷ ns)
  command_from joint freeze _ _ now_ns dt_s ms = ([], ms)

  unfoldable pub record_complete_cycle : Arm D → Arm D
  record_complete_cycle a = record a { complete_cycles = add64 a.complete_cycles 1 }

  -- `kAllJoints & ~drop_mask_`, where drop_mask_ is masked already.
  unfoldable pub stepped : List D → List D → ℕ → D → Arm D → FeedbackGeneration × Arm D
  stepped q_reference dq_reference now_ns dt_s a =
      let (fs, ms) = command_from 0 a.freeze_mask q_reference dq_reference now_ns dt_s a.motor in
      (
        record {
          frame = fs;
          capture_ns = now_ns;
          ready_ns = now_ns + a.feedback_delay_ns;
          member_mask = all_joints - a.drop_mask;
        },
        record a { motor = ms },
      )

  unfoldable pub command_and_step : List D → List D → ℕ → D → Arm D → Bool × Arm D
  command_and_step q_reference dq_reference now_ns dt_s a =
      if nonzero a.command_fail_mask
      then (false, record a { generation_mask = 0 })
      else if ltb (max64 - now_ns) a.feedback_delay_ns
      then (false, a)
      else let (g, b) = stepped q_reference dq_reference now_ns dt_s a in
        let (kept, e) = enqueue g b in
        let (published, p) = publish_due now_ns e in
        if not kept
        then (false, e)
        else if not published
        then (false, p)
        else (true, record_complete_cycle p)

  unfoldable pub force_from : List D → List D → ℕ → List (Motor D) → List (Motor D)
  force_from (q ∷ qs) (dq ∷ dqs) now_ns (m ∷ ms) =
      Motor.force_state q dq now_ns m ∷ force_from qs dqs now_ns ms
  force_from _ _ now_ns ms = ms

  unfoldable pub force_state : List D → List D → ℕ → Arm D → Arm D
  force_state q dq now_ns a =
      let cleared = clear_queue a in
      record cleared {
        generation_mask = all_joints;
        generation_timestamp = now_ns;
        motor = force_from q dq now_ns a.motor;
        feedback_seq = add64 a.feedback_seq 1;
      }

  unfoldable pub measured_q : Arm D → List D
  measured_q a = map mapped_q a.motor

  unfoldable pub measured_dq : Arm D → List D
  measured_dq a = map mapped_dq a.motor

  unfoldable pub measured_tau : Arm D → List D
  measured_tau a = map mapped_tau a.motor

  -- JointVector{}
  unfoldable pub zeros : List D
  zeros = d.nought ∷ d.nought ∷ d.nought ∷ d.nought ∷ d.nought ∷ d.nought ∷ d.nought ∷ []

  unfoldable pub materialize_stop : Bool → ℕ → Arm D → Arm D
  materialize_stop enabled_hold now_ns a =
      force_state (measured_q a) zeros now_ns (set_enabled enabled_hold a)

  unfoldable pub set_blocked : Bool → D → Arm D → Arm D
  set_blocked on gain a = record a { motor = map (Motor.set_blocked on gain) a.motor }

  unfoldable pub clear_contact : Arm D → Arm D
  clear_contact a = record a { motor = map (Motor.set_blocked false d.nought) a.motor }
