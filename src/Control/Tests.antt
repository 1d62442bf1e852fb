-- ===== src/Control/Tests.antt =====
-- Runs of the controller's model, and the theorems at concrete states.
use open_arm_ik.Shared.{
  ℕ, ℤ, pos, ◌+◌, ◌<◌, ◌≤◌, ◌%◌, ◌≡◌, ◌≢◌, ◌⊎◌, refl, true, false, none, some, List, [], ◌∷◌, ◌++◌,
  ◌==◌, arith, if◌then◌else◌,
}
use open_arm_ik.Shared.Whole.{whole_numbers}
use open_arm_ik.Control.Codes.{
  ok, ebusy, etimeout, faulted, verified, lifecycle_armed_idle, lifecycle_executing,
  lifecycle_fault, backend_virtual,
}
use open_arm_ik.Control.Config.{MotorConfig, ArmConfig, ManifestConfig, Options}
use open_arm_ik.Control.Plan.{Challenge, Event}
use open_arm_ik.Control.Ring.{Ring}
use open_arm_ik.Control.Ring.Contents.{contents, length, first, tail, empty-IsValid}
use open_arm_ik.Control.Ring.Refine.{
  Op, offers, publishes, polls, ring_run, queue_run, ring_run_refines,
}
use open_arm_ik.Control.Motor
use open_arm_ik.Control.Motor.{Motor, decode_field, q_field, dq_field, tau_field, capture}
use open_arm_ik.Control.Motor.Feedback.{publish-capture}
use open_arm_ik.Control.Arm
use open_arm_ik.Control.Arm.{Arm}
use open_arm_ik.Control.Controller.{
  Controller, create, initial, valid_options, has, publish, no_event,
}
use open_arm_ik.Control.Controller.Arming.{poll_event}
use open_arm_ik.Control.Controller.Geometry.{Geometry}
use open_arm_ik.Control.Run.{Call, opens, challenges, arms, advances, run}
use open_arm_ik.Control.Run.Safe.{is_resting, is_grounded}
use open_arm_ik.Control.Run.Sound.{live}
use open_arm_ik.Control.Run.Powered.{run_powered, run_lifecycle, run_events_bounded}
use open_arm_ik.Control.Run.Events.{events_in_order}

abbrev motor : ℕ → MotorConfig ℤ
motor joint = record {
  struct_size = 264;
  abi_version = 1;
  motor_type = 1;
  joint_index = joint;
  send_id = joint + 1;
  receive_id = joint + 17;
  embedded_motor_id = joint + 1;
  control_mode = 1;
  bitrate = 1000000;
  timeout_ticks = 1;
  hardware_version = 1;
  software_version = 1;
  firmware_subversion = 1;
  q_scale = pos 1;
  q_offset_rad = pos 0;
  lower_rad = pos 0;
  upper_rad = pos 3;
  max_velocity_rad_s = pos 5;
  max_acceleration_rad_s2 = pos 5;
  max_jerk_rad_s3 = pos 5;
  pmax_rad = pos 12;
  vmax_rad_s = pos 45;
  tmax_nm = pos 54;
  gear_ratio = pos 9;
  direction = pos 1;
  serial = 65 ∷ 0 ∷ [];
  joint_name = 65 ∷ 0 ∷ [];
}

abbrev arm_config : ArmConfig ℤ
arm_config = record {
  struct_size = 1872;
  abi_version = 1;
  bus_name = 99 ∷ 0 ∷ [];
  motor = motor 0 ∷ motor 1 ∷ motor 2 ∷ motor 3 ∷ motor 4 ∷ motor 5 ∷ motor 6 ∷ [];
}

abbrev manifest : ManifestConfig ℤ
manifest = record {
  struct_size = 3768;
  abi_version = 1;
  manifest_revision = 1;
  model_revision = 1;
  arm = record { of_left = arm_config; of_right = arm_config };
}

abbrev options : Options
options = record {
  backend = 1;
  collision_policy = 1;
  cycle_ns = 10000000;
  feedback_timeout_ns = 50000000;
  max_cross_bus_skew_ns = 1000000;
  collision_scene_revision = 1;
}

abbrev pub start : Controller ℤ
start = initial manifest options 1

abbrev pub geometry : Geometry ℤ
geometry = record {
  forward = λ side q. none;
  fk = λ side q. none;
  evaluate = λ fk policy. record {
    evaluated = false;
    is_clear = 0;
    violation = 0;
    side = 0;
    segment_a = 0;
    segment_b = 0;
    minimum_clearance_m = pos 0;
    terminal_pair_active = 0;
    terminal_pair_clearance_m = pos 0;
    tcp_separation_m = pos 0;
    claw_contact_active = 0;
    claw_hand_gap_m = pos 0;
    minimum_other_claw_gap_m = pos 0;
  };
}

abbrev pub challenge_1 : Challenge
challenge_1 = record { verify_epoch = 1; nonce = 22324781756011086; expiry_ns = 1000000000 }

abbrev calls : List (Call ℤ)
calls = opens ∷ challenges ∷ arms challenge_1 ∷ advances false 5000000 ∷ []

made : create manifest options 1 ≡ some start
unfolding create valid_options
made = refl

run_powered_example :
    let n = run geometry start calls in
    (live n.arms ≡ false)
    ⊎ ((n.options.backend ≡ backend_virtual)
        × (n.deadman_active ≡ true)
        × ((n.lifecycle ≡ lifecycle_armed_idle)
            ⊎ ((n.lifecycle ≡ lifecycle_executing) ⊎ (n.lifecycle ≡ lifecycle_fault))))
run_powered_example = run_powered geometry manifest options 1 start calls made

run_lifecycle_example :
    let n = run geometry start calls in
    (has n.executing ≡ (n.lifecycle == lifecycle_executing))
    × ((has n.executing ≡ true) ⊎ (n.command_id ≡ 0))
    × (is_resting n.lifecycle ≡ true)
    × ((n.options.backend ≡ backend_virtual) ⊎ (is_grounded n.lifecycle ≡ true))
run_lifecycle_example = run_lifecycle geometry manifest options 1 start calls made

run_events_bounded_example :
    let n = run geometry start calls in (n.events.count ≤ 64) × (n.events.head < 64)
run_events_bounded_example = run_events_bounded geometry manifest options 1 start calls made

-- Two entries, the oldest in the last slot.
abbrev ring : Ring ℕ
ring = record { slot = λ i. i; head = 63; count = 2 }

abbrev script : List (Op ℕ)
script = offers 7 ∷ polls ∷ publishes 8 ∷ polls ∷ polls ∷ polls ∷ polls ∷ []

ring_run_refines_example : ring_run ring script ≡ queue_run (63 ∷ 0 ∷ []) script
ring_run_refines_example = ring_run_refines ring script (omega arith)

replies :
    queue_run (63 ∷ 0 ∷ []) script
    ≡ (true, none)
      ∷ (true, some 63)
      ∷ (true, none)
      ∷ (true, some 0)
      ∷ (true, some 7)
      ∷ (true, some 8)
      ∷ (true, none)
      ∷ []
replies = refl

abbrev enabled_motor : Motor ℤ
enabled_motor = record (Motor.create (motor 0)) { enabled = true; plant_raw_q = pos 2 }

publish-capture_example :
    let m = enabled_motor in
    let c = capture (pos 0) 9 true m in
    let x = (Motor.publish c.0 c.1).measured in
    (((m.fault_status ≢ 0) × (x.status ≡ m.fault_status))
      ⊎ ((m.fault_status ≡ 0) × (x.status ≡ (if m.enabled then 1 else 0))))
    × (x.raw_q ≡ decode_field (q_field c.1 % 65536) m.config.pmax_rad 65535)
    × (x.raw_dq ≡ decode_field (dq_field c.1 % 4096) m.config.vmax_rad_s 4095)
    × (x.raw_tau ≡ decode_field (tau_field c.1 % 4096) m.config.tmax_nm 4095)
    × (x.t_ns ≡ 9)
unfolding Motor.create
publish-capture_example = publish-capture enabled_motor (pos 0) 9 true (omega arith)

-- The measured status of the enabled motor is 1.
enabled_status :
    (Motor.publish (capture (pos 0) 9 true enabled_motor).0 enabled_motor).measured.status ≡ 1
unfolding Motor.publish capture Motor.frame_of Motor.status_of Motor.create Motor.status_field
enabled_status = refl

-- An arm with one generation on its way, due at 5, without joint 0.
abbrev waiting : Arm ℤ
waiting = record (Arm.create arm_config) {
  feedback_queue = record {
    slot = λ i. record { frame = []; capture_ns = 1; ready_ns = 5; member_mask = 126 };
    head = 0;
    count = 1;
  };
}

events_in_order_example :
    let c = start in
    let r = publish verified ok 0 c in
    let x = poll_event c in
    ((e : Event) × (e.command_id ≡ 0)
      × (((length (contents c.events) < 64)
            × (r.0 ≡ true)
            × (e.kind ≡ verified)
            × (e.cause ≡ ok)
            × (contents r.1.events ≡ contents c.events ++ (e ∷ [])))
          ⊎ ((length (contents c.events) ≡ 64)
              × (r.0 ≡ false)
              × (e.kind ≡ faulted)
              × (e.cause ≡ ebusy)
              × (e.lifecycle ≡ lifecycle_fault)
              × (contents r.1.events ≡ tail (contents c.events) ++ (e ∷ [])))))
    × ((x.out ≡ first (contents c.events))
        × (contents x.next.events ≡ tail (contents c.events))
        × (x.status ≡ (if has (first (contents c.events)) then ok else etimeout)))
unfolding initial
events_in_order_example = events_in_order verified ok 0 start (empty-IsValid no_event)
