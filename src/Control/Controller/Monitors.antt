-- ===== src/Control/Controller/Monitors.antt =====
-- The monitors of Controller: the keepout, and the contact of a converge command.
use open_arm_ik.Shared.{
  ℕ, suc, ◌+◌, ◌%◌, ◌^◌, Bool, true, false, not, ◌&&◌, ◌||◌, Option, none, some, List, [], ◌∷◌, ltb,
  ◌==◌, nonzero, if◌then◌else◌,
}
use open_arm_ik.Shared.Double.{Double}
use open_arm_ik.Control.Codes.{
  Status, ok, eabi, left, right, stopped, cause_none, cause_contact, cause_keepout,
  lifecycle_armed_idle,
}
use open_arm_ik.Control.Config.{Both, each_side}
use open_arm_ik.Control.Plan.{MotionPlan, ContactReport}
use open_arm_ik.Control.Arm.{measured_q, measured_tau}
use open_arm_ik.Control.Controller.{Controller, empty_report, published, materialize_stop}
use open_arm_ik.Control.Controller.Geometry.{KinematicResult, Evaluation, Geometry}

-- Controller::KeepoutStatus.
pub record KeepoutStatus (D : Type 0) : Type 0 where
  pub clear : Bool
  pub violation : ℕ
  pub side : ℕ
  pub segment_a : ℕ
  pub segment_b : ℕ
  pub minimum_clearance_m : D
  pub terminal_pair_active : Bool
  pub terminal_pair_clearance_m : D
  pub tcp_separation_m : D
  pub claw_contact_active : Bool
  pub claw_hand_gap_m : D
  pub minimum_other_claw_gap_m : D

-- OA_COLLISION_CONTACT_TERMINAL_CAPS.
abbrev pub terminal_caps : ℕ
terminal_caps = 1

-- sizeof(oa_contact_report).
abbrev pub contact_report_size : ℕ
contact_report_size = 464

module _ {D : Type 0} ⦃d : Double D⦄ where
  abbrev pub three : D × D × D → List D
  three p = p.0 ∷ p.1 ∷ p.2 ∷ []

  -- The status that keepout_clear starts from.
  abbrev pub unknown_keepout : KeepoutStatus D
  unknown_keepout = record {
    clear = false;
    violation = 0;
    side = 0;
    segment_a = 0;
    segment_b = 0;
    minimum_clearance_m = d.minus_infinity;
    terminal_pair_active = false;
    terminal_pair_clearance_m = d.nought;
    tcp_separation_m = d.nought;
    claw_contact_active = false;
    claw_hand_gap_m = d.nought;
    minimum_other_claw_gap_m = d.nought;
  }

  unfoldable pub keepout_of : Evaluation D → KeepoutStatus D
  keepout_of e = record {
    clear = e.evaluated && nonzero e.is_clear;
    violation = e.violation;
    side = e.side;
    segment_a = e.segment_a;
    segment_b = e.segment_b;
    minimum_clearance_m = e.minimum_clearance_m;
    terminal_pair_active = nonzero e.terminal_pair_active;
    terminal_pair_clearance_m = e.terminal_pair_clearance_m;
    tcp_separation_m = e.tcp_separation_m;
    claw_contact_active = nonzero e.claw_contact_active;
    claw_hand_gap_m = e.claw_hand_gap_m;
    minimum_other_claw_gap_m = e.minimum_other_claw_gap_m;
  }

  -- The limits of a torque and the bits of the joints that reach theirs, from the joint `joint` on.
  unfoldable pub loaded_joints : ℕ → List D → List D → ℕ
  loaded_joints joint (threshold ∷ ts) (tau ∷ us) =
      (if d.lt d.nought threshold && d.le threshold (d.abs tau) then 2 ^ joint else 0)
      + loaded_joints (suc joint) ts us
  loaded_joints joint _ _ = 0

  -- The claw's position, or the old one where `forward` failed.
  unfoldable pub claw_of : Option (KinematicResult D) → List D → List D
  claw_of none old = old
  claw_of (some k) old = three k.tcp_xyz

  -- The report with the pose in which the arms stopped.
  unfoldable pub stopped_report : Geometry D → Controller D → ContactReport D → ContactReport D
  stopped_report g c r = record r {
    stop_monotonic_ns = c.now_ns;
    stop_feedback_seq = each_side (λ a. a.feedback_seq) c.arms;
    stopped_q_rad = each_side measured_q c.arms;
    stopped_tcp_m = record {
      of_left = claw_of (g.forward left (measured_q c.arms.of_left)) r.stopped_tcp_m.of_left;
      of_right = claw_of (g.forward right (measured_q c.arms.of_right)) r.stopped_tcp_m.of_right;
    };
  }

  -- `out` is the caller's record, of which the size and the version are read.
  unfoldable pub read_contact_report : ℕ → ℕ → Controller D → Status × Option (ContactReport D)
  read_contact_report size version c =
      if ltb size contact_report_size || not (version == 1) then (eabi, none) else (
        ok,
        some (record c.contact_report { struct_size = contact_report_size; abi_version = 1 }),
      )

  module _ (g : Geometry D) where
    unfoldable pub keepout_clear : Both (List D) → ℕ → KeepoutStatus D
    keepout_clear q policy = elim (g.fk left q.of_left) [
      | none ↦ unknown_keepout
      | some l ↦ elim (g.fk right q.of_right) [
        | none ↦ unknown_keepout
        | some r ↦ keepout_of (g.evaluate (record { of_left = l; of_right = r }) policy)
      ]
    ]

    abbrev pub policy_of : Option (MotionPlan D) → ℕ
    policy_of none = 0
    policy_of (some p) = p.contact_geometry_policy

    -- The command is to end where the claws touch.
    unfoldable pub ends_on_claws : Option (MotionPlan D) → KeepoutStatus D → Bool
    ends_on_claws none s = false
    ends_on_claws (some p) s =
        p.contact_monitored
        && p.contact_geometry_policy == terminal_caps
        && s.terminal_pair_active
        && s.claw_contact_active

    -- monitor_keepout after the evaluation; the Boolean says that the command may go on.
    unfoldable pub judge_keepout : D → KeepoutStatus D → Controller D → Bool × Controller D
    judge_keepout previous s c =
        let seen : Controller D = record c { last_clearance_m = s.minimum_clearance_m } in
        let noted : ContactReport D = record c.contact_report {
          minimum_clearance_m = s.minimum_clearance_m;
        } in
        if s.clear
        then (if ends_on_claws c.executing s
            then (
              false,
              record seen {
                contact_report = record (stopped_report g c noted) {
                  cause = cause_contact;
                  contact_detected = 1;
                };
              },
            )
            else (true, record seen { contact_report = noted }))
        else if d.is_finite previous
            && d.is_finite s.minimum_clearance_m
            && d.le (d.sub previous d.micro) s.minimum_clearance_m
        then (true, record seen { contact_report = noted })
        else (
          false,
          record seen {
            contact_report = record (stopped_report g c noted) {
              cause = cause_keepout;
              keepout_violation = s.violation;
              keepout_side = s.side;
              keepout_segment_a = s.segment_a;
              keepout_segment_b = s.segment_b;
            };
          },
        )

    unfoldable pub monitor_keepout : Controller D → Bool × Controller D
    monitor_keepout c =
        judge_keepout c.last_clearance_m
          (keepout_clear (each_side measured_q c.arms) (policy_of c.executing)) c

    unfoldable pub joints_loaded : MotionPlan D → Controller D → Both ℕ
    joints_loaded p c = record {
      of_left = loaded_joints 0 p.contact_threshold_nm.of_left (measured_tau c.arms.of_left);
      of_right = loaded_joints 0 p.contact_threshold_nm.of_right (measured_tau c.arms.of_right);
    }

    -- The sides that have a loaded joint.
    unfoldable pub sides_loaded : Both ℕ → ℕ
    sides_loaded joints =
        (if nonzero joints.of_left then 1 else 0) + (if nonzero joints.of_right then 2 else 0)

    unfoldable pub judge_contact : MotionPlan D → Controller D → Bool × Controller D
    judge_contact p c =
        let joints = joints_loaded p c in
        let streak = (c.contact_streak + 1) % 2 ^ 32 in
        if sides_loaded joints == 0
        then (true, record c { contact_streak = 0 })
        else if ltb streak p.contact_persistence_cycles
        then (true, record c { contact_streak = streak })
        else (
          false,
          record c {
            contact_streak = streak;
            contact_report = record (stopped_report g c c.contact_report) {
              cause = cause_contact;
              contact_detected = 1;
              contact_side_mask = sides_loaded joints;
              contact_joint_mask = joints;
              contact_torque_nm = each_side measured_tau c.arms;
              threshold_torque_nm = p.contact_threshold_nm;
            };
          },
        )

    unfoldable pub monitor_plan : Option (MotionPlan D) → Controller D → Bool × Controller D
    monitor_plan none c = (true, c)
    monitor_plan (some p) c = if not p.contact_monitored then (true, c) else judge_contact p c

    unfoldable pub monitor_contact : Controller D → Bool × Controller D
    monitor_contact c = monitor_plan c.executing c

    unfoldable pub reset_contact_report : MotionPlan D → Controller D → Controller D
    reset_contact_report p c = record c {
      contact_report = record empty_report {
        struct_size = contact_report_size;
        abi_version = 1;
        cause = cause_none;
        minimum_clearance_m = d.quiet_nan;
      };
      contact_streak = 0;
      last_clearance_m =
          (keepout_clear (each_side measured_q c.arms)
            p.contact_geometry_policy).minimum_clearance_m;
    }

  unfoldable pub complete_on_contact : Controller D → Status × Controller D
  complete_on_contact c = published stopped ok c.command_id ok (record (materialize_stop true c) {
    executing = none;
    command_id = 0;
    settle_start_ns = 0;
    settle_feedback_seq = record { of_left = 0; of_right = 0 };
    settle_feedback_intervals = 0;
    settling_published = false;
    lifecycle = lifecycle_armed_idle;
  })
