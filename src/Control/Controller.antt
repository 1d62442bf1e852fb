-- ===== src/Control/Controller.antt =====
-- class Controller of control/src/control_core.hpp: its state, and what all of its methods use.
pub mod Arming
pub mod Planning
pub mod Geometry
pub mod Monitors
pub mod Obstacle
pub mod References
pub mod Settling
pub mod Execute
pub mod Advance
pub mod Simulation
use open_arm_ik.Shared.{
  add64, ℕ, ◌+◌, ◌-◌, ◌/◌, ◌%◌, ◌^◌, Bool, true, false, not, ◌&&◌, ◌||◌, Option, none, some, List,
  [], ◌∷◌, ltb, leb, ◌==◌, nonzero, if◌then◌else◌,
}
use open_arm_ik.Shared.Double.{Double}
use open_arm_ik.Control.Codes.{
  Status, ok, estale, ecan, ebusy, is_ok, EventKind, verified, faulted, cause_none, stop_disable,
  stop_controlled, backend_virtual, backend_physical, collision_reject_all,
  collision_virtual_unchecked, lifecycle_closed, lifecycle_fault,
}
use open_arm_ik.Control.Config.{ManifestConfig, Options, Both, side_of, each_side}
use open_arm_ik.Control.Plan.{MotionPlan, Event, SimContact, ContactReport}
use open_arm_ik.Control.Ring
use open_arm_ik.Control.Ring.{Ring, capacity}
use open_arm_ik.Control.Arm
use open_arm_ik.Control.Arm.{Arm, max64, measured_q, zeros}
use open_arm_ik.Control.Arm.Snapshot.{complete_fresh, fault_free, all_disabled}

pub record Controller (D : Type 0) : Type 0 where
  pub manifest : ManifestConfig D
  pub options : Options
  pub arms : Both (Arm D)
  pub lifecycle : ℕ
  pub now_ns : ℕ
  pub verify_epoch : ℕ
  pub nonce_counter : ℕ
  pub outstanding_nonce : ℕ
  pub outstanding_challenge_expiry : ℕ
  pub next_command_id : ℕ
  pub command_id : ℕ
  pub command_start_ns : ℕ
  pub command_expiry_ns : ℕ
  pub producer_deadline_ns : ℕ
  pub settle_start_ns : ℕ
  pub settle_feedback_seq : Both ℕ
  pub settle_feedback_intervals : ℕ
  pub active_stop_kind : ℕ
  pub command_started : Bool
  pub settling_published : Bool
  pub deadman_active : Bool
  pub instance_id : ℕ
  pub contact_report : ContactReport D
  pub contact_streak : ℕ
  pub last_clearance_m : D
  pub sim_contact : Both (SimContact D)
  pub estop_latched : Bool
  pub executing : Option (MotionPlan D)
  pub events : Ring Event

-- The checks of the constructor.
unfoldable pub valid_options : Options → Bool
valid_options o =
    (o.backend == backend_virtual || o.backend == backend_physical)
    && (o.collision_policy == collision_reject_all
        || o.collision_policy == collision_virtual_unchecked)
    && not (
        o.cycle_ns == 0
        || ltb o.feedback_timeout_ns o.cycle_ns
        || o.max_cross_bus_skew_ns == 0
        || ltb (max64 / 3) o.cycle_ns)
    && not (o.backend == backend_physical && o.collision_policy == collision_virtual_unchecked)
    && not (o.collision_policy == collision_virtual_unchecked && o.collision_scene_revision == 0)

-- `a > b ? a - b : b - a`
abbrev pub distance : ℕ → ℕ → ℕ
distance a b = if ltb b a then a - b else b - a

abbrev pub has {ℓ} : {A : Type ℓ} → Option A → Bool
has none = false
has (some _) = true

-- An event whose fields are zero.
abbrev pub no_event : Event
no_event = record {
  kind = verified;
  lifecycle = 0;
  t_ns = 0;
  command_id = 0;
  feedback_seq = 0;
  cause = ok;
}

module _ {D : Type 0} ⦃d : Double D⦄ where
  abbrev pub no_contact : SimContact D
  no_contact = record {
    side = 0;
    enabled = 0;
    center_m = (d.nought, d.nought, d.nought);
    radius_m = d.nought;
    reaction_gain_nm_per_rad = d.nought;
  }

  -- oa_contact_report{}
  abbrev pub empty_report : ContactReport D
  empty_report = record {
    struct_size = 0;
    abi_version = 0;
    cause = cause_none;
    contact_detected = 0;
    contact_side_mask = 0;
    contact_joint_mask = record { of_left = 0; of_right = 0 };
    keepout_violation = 0;
    keepout_side = 0;
    keepout_segment_a = 0;
    keepout_segment_b = 0;
    stop_feedback_seq = record { of_left = 0; of_right = 0 };
    stop_monotonic_ns = 0;
    contact_torque_nm = record { of_left = zeros; of_right = zeros };
    threshold_torque_nm = record { of_left = zeros; of_right = zeros };
    stopped_q_rad = record { of_left = zeros; of_right = zeros };
    stopped_tcp_m = record {
      of_left = d.nought ∷ d.nought ∷ d.nought ∷ [];
      of_right = d.nought ∷ d.nought ∷ d.nought ∷ [];
    };
    minimum_clearance_m = d.nought;
  }

  -- The members as the constructor leaves them. `instance` is the next of the process-wide count.
  unfoldable pub initial : ManifestConfig D → Options → ℕ → Controller D
  initial manifest options instance_number = record {
    manifest = manifest;
    options = options;
    arms = each_side Arm.create manifest.arm;
    lifecycle = lifecycle_closed;
    now_ns = 0;
    verify_epoch = 0;
    nonce_counter = 22324781756011085;
    outstanding_nonce = 0;
    outstanding_challenge_expiry = 0;
    next_command_id = 1;
    command_id = 0;
    command_start_ns = 0;
    command_expiry_ns = 0;
    producer_deadline_ns = 0;
    settle_start_ns = 0;
    settle_feedback_seq = record { of_left = 0; of_right = 0 };
    settle_feedback_intervals = 0;
    active_stop_kind = stop_disable;
    command_started = false;
    settling_published = false;
    deadman_active = true;
    instance_id = instance_number;
    contact_report = empty_report;
    contact_streak = 0;
    last_clearance_m = d.nought;
    sim_contact = record { of_left = no_contact; of_right = no_contact };
    estop_latched = false;
    executing = none;
    events = Ring.empty no_event;
  }

  -- The constructor throws where this is `none`.
  unfoldable pub create : ManifestConfig D → Options → ℕ → Option (Controller D)
  create manifest options instance_number =
      if valid_options options then some (initial manifest options instance_number) else none

  -- materialize_stop of one arm.
  unfoldable pub arm_stop : ℕ → Bool → ℕ → Arm D → Arm D
  arm_stop backend enabled_hold now_ns a =
      if backend == backend_virtual
      then (if not (a.feedback_seq == 0)
          then Arm.materialize_stop enabled_hold now_ns a
          else Arm.retire_pending_feedback (Arm.set_enabled false a))
      else Arm.set_enabled false a

  unfoldable pub materialize_stop : Bool → Controller D → Controller D
  materialize_stop enabled_hold c = record c {
    arms = each_side (arm_stop c.options.backend enabled_hold c.now_ns) c.arms;
  }

  -- What publish does first when the queue is full.
  unfoldable pub overflowed : Controller D → Controller D
  overflowed c =
      let stopped = materialize_stop false (record c { executing = none; command_id = 0 }) in
      record stopped {
        events = Ring.drop c.events;
        active_stop_kind = stop_disable;
        lifecycle = lifecycle_fault;
      }

  unfoldable pub event_of : Bool → EventKind → Status → ℕ → Controller D → Event
  event_of overflow kind cause command_id c = record {
    kind = if overflow then faulted else kind;
    lifecycle = c.lifecycle;
    t_ns = c.now_ns;
    command_id = command_id;
    feedback_seq =
        if ltb c.arms.of_right.feedback_seq c.arms.of_left.feedback_seq
        then c.arms.of_right.feedback_seq
        else c.arms.of_left.feedback_seq;
    cause = if overflow then ebusy else cause;
  }

  -- The event goes to the tail of the queue.
  unfoldable pub append : Event → Controller D → Controller D
  append e c = record c { events = Ring.push c.events e }

  unfoldable pub publish : EventKind → Status → ℕ → Controller D → Bool × Controller D
  publish kind cause command_id c =
      if c.events.count == capacity
      then (false, append (event_of true kind cause command_id (overflowed c)) (overflowed c))
      else (true, append (event_of false kind cause command_id c) c)

  -- `return publish(...) ? status : OA_CONTROL_EBUSY;`
  unfoldable pub published : EventKind → Status → ℕ → Status → Controller D → Status × Controller D
  published kind cause command_id status c =
      let (kept, n) = publish kind cause command_id c in (if kept then status else ebusy, n)

  unfoldable pub feedback_integrity : Controller D → Status
  feedback_integrity c =
      let fresh_arm = complete_fresh c.now_ns c.options.feedback_timeout_ns in
      if not (fresh_arm c.arms.of_left) || not (fresh_arm c.arms.of_right)
      then estale
      else if leb
          (distance c.arms.of_left.generation_timestamp c.arms.of_right.generation_timestamp)
          c.options.max_cross_bus_skew_ns
      then ok
      else ecan

  unfoldable pub fresh : Controller D → Bool
  fresh c = is_ok (feedback_integrity c)

  unfoldable pub healthy : Controller D → Bool
  healthy c =
      fault_free c.now_ns c.options.feedback_timeout_ns c.arms.of_left
      && fault_free c.now_ns c.options.feedback_timeout_ns c.arms.of_right

  unfoldable pub disabled : Controller D → Bool
  disabled c =
      all_disabled c.now_ns c.options.feedback_timeout_ns c.arms.of_left
      && all_disabled c.now_ns c.options.feedback_timeout_ns c.arms.of_right

  -- Whether a stop of this cause keeps the motors enabled.
  unfoldable pub keeps_hold : Bool → Controller D → Bool
  keeps_hold controlled_stop_available c =
      controlled_stop_available
      && c.options.backend == backend_virtual
      && has c.executing
      && fresh c
      && healthy c
      && c.active_stop_kind == stop_controlled

  unfoldable pub latch_fault : Status → Bool → Controller D → Status × Controller D
  latch_fault cause controlled_stop_available c =
      let stopped =
        materialize_stop (keeps_hold controlled_stop_available c)
          (record c { executing = none; command_id = 0 }) in
      let faulty : Controller D = record stopped {
        active_stop_kind = stop_disable;
        lifecycle = lifecycle_fault;
        nonce_counter = add64 c.nonce_counter 1;
        outstanding_nonce = add64 c.nonce_counter 1;
      } in
      published faulted cause c.command_id cause faulty

  -- Two vectors, joint by joint, no further apart than 1.0e-3.
  unfoldable pub near_start : List D → List D → Bool
  near_start (q ∷ qs) (s ∷ ss) = not (d.lt (d.literal 1 3) (d.abs (d.sub q s))) && near_start qs ss
  near_start _ _ = true

  unfoldable pub start_pose_matches : MotionPlan D → Controller D → Bool
  start_pose_matches p c =
      near_start (measured_q c.arms.of_left) p.start_q.of_left
      && near_start (measured_q c.arms.of_right) p.start_q.of_right
