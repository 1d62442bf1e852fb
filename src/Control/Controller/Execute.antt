-- ===== src/Control/Controller/Execute.antt =====
-- Controller::execute, and Controller::snapshot and kinematics, which read the arms.
use open_arm_ik.Shared.{
  add64, ℕ, ◌-◌, Bool, false, not, ◌&&◌, ◌||◌, Option, none, some, List, ltb, leb, ◌==◌,
  if◌then◌else◌,
}
use open_arm_ik.Shared.Double.{Double}
use open_arm_ik.Control.Codes.{
  Status, ok, einval, estate, estale, efault, eidentity, right, started, queued, lifecycle_closed,
  lifecycle_verifying, lifecycle_armed_idle, lifecycle_executing,
}
use open_arm_ik.Control.Config.{Both, side_of, each_side}
use open_arm_ik.Control.Plan.{MotionPlan, ExecuteRequest}
use open_arm_ik.Control.Arm.{measured_q}
use open_arm_ik.Control.Arm.Snapshot.{ArmSnapshot}
use open_arm_ik.Control.Arm.Snapshot
use open_arm_ik.Control.Controller.{
  Controller, distance, published, latch_fault, fresh, healthy, start_pose_matches,
}
use open_arm_ik.Control.Controller.Arming.{Answer, valid_stop_kind}
use open_arm_ik.Control.Controller.Geometry.{KinematicResult, Geometry}
use open_arm_ik.Control.Controller.Monitors.{reset_contact_report}

-- oa_snapshot.
pub record WholeSnapshot (D : Type 0) : Type 0 where
  pub arms : Both (ArmSnapshot D)
  pub manifest_revision : ℕ
  pub model_revision : ℕ
  pub max_cross_bus_skew_ns : ℕ
  pub lifecycle : ℕ

-- oa_arm_kinematics.
pub record ArmKinematics (D : Type 0) : Type 0 where
  pub feedback_seq : ℕ
  pub q : List D
  pub result : KinematicResult D

module _ {D : Type 0} ⦃d : Double D⦄ where
  unfoldable pub snapshot : Controller D → Status × Option (WholeSnapshot D)
  snapshot c =
      let s = each_side (Snapshot.snapshot c.now_ns c.options.feedback_timeout_ns) c.arms in
      if c.lifecycle == lifecycle_closed || c.lifecycle == lifecycle_verifying
      then (estate, none)
      else (
        ok,
        some (record {
          arms = s;
          manifest_revision = c.manifest.manifest_revision;
          model_revision = c.manifest.model_revision;
          max_cross_bus_skew_ns = distance s.of_left.t_ns s.of_right.t_ns;
          lifecycle = c.lifecycle;
        }),
      )

  unfoldable pub kinematics : Geometry D → ℕ → ℕ → Controller D → Status × Option (ArmKinematics D)
  kinematics g side required_seq c =
      if ltb right side || not (fresh c)
      then (if ltb right side then einval else estale, none)
      else let a = side_of c.arms side in
        if not (a.feedback_seq == required_seq)
        then (estale, none)
        else elim (g.forward side (measured_q a)) [
          | none ↦ (efault, none)
          | some k ↦
              (ok, some (record { feedback_seq = required_seq; q = measured_q a; result = k }))
        ]

  -- The plan is of this controller and of its present verification.
  unfoldable pub own_plan : MotionPlan D → Controller D → Bool
  own_plan p c = p.controller_instance == c.instance_id && p.verify_epoch == c.verify_epoch

  -- Nothing that the plan was made for has changed.
  unfoldable pub current_plan : MotionPlan D → Controller D → Bool
  current_plan p c =
      p.manifest_revision == c.manifest.manifest_revision
      && p.model_revision == c.manifest.model_revision
      && p.collision_scene_revision == c.options.collision_scene_revision
      && p.seed_seq.of_left == c.arms.of_left.feedback_seq
      && p.seed_seq.of_right == c.arms.of_right.feedback_seq
      && start_pose_matches p c

  unfoldable pub start_of : ExecuteRequest → Controller D → ℕ
  start_of r c = if r.start_ns == 0 then c.now_ns else r.start_ns

  unfoldable pub valid_times : MotionPlan D → ExecuteRequest → ℕ → Controller D → Bool
  valid_times p r start_ns c =
      leb c.now_ns start_ns
      && ltb start_ns r.expiry_ns
      && leb r.expiry_ns p.expiry_ns
      && ltb c.now_ns r.producer_deadline_ns
      && valid_stop_kind r.stop_kind
      && leb p.duration_ns (r.expiry_ns - start_ns)

  unfoldable pub no_command : Status × Controller D → Answer ℕ D
  no_command r = record { status = r.0; out = none; next = r.1 }

  module _ (g : Geometry D) where
    -- execute, once the request is accepted.
    unfoldable pub launch : MotionPlan D → ExecuteRequest → ℕ → Controller D → Answer ℕ D
    launch p r start_ns c =
        let reported = reset_contact_report g p (record c { executing = some p }) in
        let at_once = start_ns == c.now_ns in
        let s =
          published (if at_once then started else queued) ok c.next_command_id ok (record reported {
            command_id = c.next_command_id;
            next_command_id = add64 c.next_command_id 1;
            command_start_ns = start_ns;
            command_expiry_ns = r.expiry_ns;
            producer_deadline_ns = r.producer_deadline_ns;
            settle_start_ns = 0;
            settle_feedback_seq = record { of_left = 0; of_right = 0 };
            settle_feedback_intervals = 0;
            active_stop_kind = r.stop_kind;
            command_started = at_once;
            settling_published = false;
            lifecycle = lifecycle_executing;
          }) in
        record { status = s.0; out = some c.next_command_id; next = s.1 }

    -- execute, once the feedback is found good.
    unfoldable pub accept : MotionPlan D → ExecuteRequest → Controller D → Answer ℕ D
    accept p r c =
        if not (own_plan p c)
        then no_command (eidentity, c)
        else if not (current_plan p c)
        then no_command (estale, c)
        else if not (valid_times p r (start_of r c) c)
        then no_command (einval, c)
        else launch p r (start_of r c) c

    unfoldable pub execute : MotionPlan D → ExecuteRequest → Controller D → Answer ℕ D
    execute p r c =
        if not (c.lifecycle == lifecycle_armed_idle)
        then no_command (estate, c)
        else if not (fresh c)
        then no_command (estale, c)
        else if not (healthy c)
        then no_command (latch_fault efault false c)
        else accept p r c
