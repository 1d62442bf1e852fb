-- ===== src/Control/Controller/Arming.antt =====
-- The methods of Controller that verify, arm, stop, disarm and reset, and the interlock.
use open_arm_ik.Shared.{
  add64, ℕ, Bool, true, false, not, ◌&&◌, ◌||◌, Option, none, some, ltb, leb, ◌==◌, if◌then◌else◌,
}
use open_arm_ik.Shared.Double.{Double}
use open_arm_ik.Control.Codes.{
  Status, ok, einval, estate, estale, etimeout, efault, eestop, eidentity, ebusy, eunsupported,
  verified, armed, stopped, disarmed, aborted, estop, stop_disable, stop_controlled,
  backend_virtual, backend_physical, lifecycle_closed, lifecycle_verifying, lifecycle_disarmed,
  lifecycle_armed_idle, lifecycle_executing, lifecycle_stopping, lifecycle_fault, lifecycle_estop,
}
use open_arm_ik.Control.Config.{each_side}
use open_arm_ik.Control.Plan.{VerifyReport, Challenge, ResetRequest, Event}
use open_arm_ik.Control.Ring
use open_arm_ik.Control.Arm
use open_arm_ik.Control.Arm.{Arm, measured_q, zeros}
use open_arm_ik.Control.Controller.{
  Controller, publish, published, materialize_stop, latch_fault, fresh, healthy, disabled, has,
}

-- A call's status, what it writes through its out argument, and the next state.
pub record Answer (O D : Type 0) : Type 0 where
  pub status : Status
  pub out : Option O
  pub next : Controller D

unfoldable pub valid_stop_kind : ℕ → Bool
valid_stop_kind kind = kind == stop_disable || kind == stop_controlled

module _ {D : Type 0} ⦃d : Double D⦄ where
  -- One arm in open_and_verify.
  unfoldable pub verify_arm : ℕ → ℕ → Arm D → Arm D
  verify_arm verify_epoch now_ns a =
      let verified_q = if verify_epoch == 0 then zeros else measured_q a in
      Arm.force_state verified_q zeros now_ns (Arm.set_enabled false a)

  unfoldable pub open_and_verify : Controller D → Answer VerifyReport D
  open_and_verify c =
      if not (c.lifecycle == lifecycle_closed)
      then record { status = estate; out = none; next = c }
      else if c.options.backend == backend_physical
      then record {
        status = eunsupported;
        out = some (record { verify_epoch = 0; verified_mask = 0; failure_mask = 3 });
        next = record c { lifecycle = lifecycle_closed };
      }
      else let epoch = add64 c.verify_epoch 1 in
        let (status, n) = published verified ok 0 ok (record c {
          arms = each_side (verify_arm c.verify_epoch c.now_ns) c.arms;
          verify_epoch = epoch;
          lifecycle = lifecycle_disarmed;
        }) in
        record {
          status = status;
          out = some (record { verify_epoch = epoch; verified_mask = 3; failure_mask = 0 });
          next = n;
        }

  unfoldable pub refuses : Status × Controller D → Answer Challenge D
  refuses r = record { status = r.0; out = none; next = r.1 }

  unfoldable pub issue_challenge : Controller D → Answer Challenge D
  issue_challenge c =
      let nonce = add64 c.nonce_counter 1 in
      let expiry = add64 c.now_ns 1000000000 in
      record {
        status = ok;
        out = some (record { verify_epoch = c.verify_epoch; nonce = nonce; expiry_ns = expiry });
        next = record c {
          nonce_counter = nonce;
          outstanding_nonce = nonce;
          outstanding_challenge_expiry = expiry;
        };
      }

  unfoldable pub challenge : Controller D → Answer Challenge D
  challenge c =
      let reset_challenge = c.lifecycle == lifecycle_fault || c.lifecycle == lifecycle_estop in
      if not (c.lifecycle == lifecycle_disarmed) && not reset_challenge
      then refuses (estate, c)
      else if not reset_challenge && (not (fresh c) || not (healthy c) || not (disabled c))
      then (if not (healthy c) then refuses (latch_fault efault false c) else refuses (estale, c))
      else issue_challenge c

  -- The challenge of an arming request is the one that is outstanding.
  unfoldable pub live_challenge : Challenge → Controller D → Bool
  live_challenge r c =
      r.verify_epoch == c.verify_epoch
      && r.nonce == c.outstanding_nonce
      && not (c.outstanding_nonce == 0)
      && r.expiry_ns == c.outstanding_challenge_expiry
      && leb c.now_ns c.outstanding_challenge_expiry

  -- One arm in arm.
  unfoldable pub arm_one : ℕ → Arm D → Arm D
  arm_one now_ns a =
      let on = Arm.set_enabled true a in Arm.force_state (measured_q on) zeros now_ns on

  unfoldable pub enable : Controller D → Status × Controller D
  enable c = published armed ok 0 ok (record c {
    arms = each_side (arm_one c.now_ns) c.arms;
    outstanding_nonce = 0;
    lifecycle = lifecycle_armed_idle;
  })

  unfoldable pub arm : Challenge → Controller D → Status × Controller D
  arm r c =
      if not (c.lifecycle == lifecycle_disarmed)
      then (estate, c)
      else if not (live_challenge r c)
      then (eidentity, c)
      else if not (fresh c)
      then (estale, c)
      else if not (healthy c) || not (disabled c) || not c.deadman_active
      then latch_fault (if not c.deadman_active then eestop else efault) false c
      else enable c

  unfoldable pub retire : Arm D → Arm D
  retire a = Arm.retire_pending_feedback (Arm.set_enabled false a)

  -- The arms in set_interlock.
  unfoldable pub interlock_arms : Controller D → Controller D
  interlock_arms c =
      if c.lifecycle == lifecycle_closed || c.lifecycle == lifecycle_verifying
      then record c { arms = each_side retire c.arms }
      else materialize_stop false c

  unfoldable pub latch_estop : Controller D → Status × Controller D
  latch_estop c =
      let off = interlock_arms (record c { executing = none; command_id = 0 }) in
      published estop eestop c.command_id eestop (record off {
        lifecycle = lifecycle_estop;
        nonce_counter = add64 c.nonce_counter 1;
        outstanding_nonce = add64 c.nonce_counter 1;
      })

  unfoldable pub set_interlock : Bool → Bool → Controller D → Status × Controller D
  set_interlock estop_active deadman c =
      let held : Controller D = record c { deadman_active = deadman } in
      if estop_active || not deadman then latch_estop held else (ok, held)

  -- stop, after the abortion of a running plan was published.
  unfoldable pub settle_stop : ℕ → ℕ → Controller D → Status × Controller D
  settle_stop stop_kind stopped_id c =
      let ended : Controller D = record c { executing = none; command_id = 0 } in
      let resting : Controller D =
        if stop_kind == stop_disable
        then record (materialize_stop false ended) { lifecycle = lifecycle_disarmed }
        else record (materialize_stop true ended) { lifecycle = lifecycle_armed_idle } in
      published stopped ok stopped_id ok (record resting { active_stop_kind = stop_disable })

  unfoldable pub stop : ℕ → Controller D → Status × Controller D
  stop stop_kind c =
      if not (valid_stop_kind stop_kind)
      then (einval, c)
      else if not (c.lifecycle == lifecycle_executing) && not (c.lifecycle == lifecycle_armed_idle)
      then (estate, c)
      else let stopping : Controller D = record c { lifecycle = lifecycle_stopping } in
        let (kept, n) =
          if has c.executing then publish aborted ok c.command_id stopping else (true, stopping) in
        if not kept then (ebusy, n) else settle_stop stop_kind c.command_id n

  unfoldable pub disarm : ℕ → Controller D → Status × Controller D
  disarm deadline_ns c =
      if ltb deadline_ns c.now_ns
      then (etimeout, c)
      else if not (c.lifecycle == lifecycle_armed_idle)
          && not (c.lifecycle == lifecycle_executing)
          && not (c.lifecycle == lifecycle_disarmed)
      then (estate, c)
      else published disarmed ok 0 ok
          (record (materialize_stop false (record c { executing = none; command_id = 0 })) {
            lifecycle = lifecycle_disarmed;
          })

  -- One arm in reset.
  unfoldable pub reset_arm : Arm D → Arm D
  reset_arm a =
      Arm.retire_pending_feedback (Arm.set_enabled false (Arm.set_injection 0 0 0 0 0 0 a))

  unfoldable pub reset : ResetRequest → Controller D → Status × Controller D
  reset r c =
      if not (c.lifecycle == lifecycle_fault) && not (c.lifecycle == lifecycle_estop)
      then (estate, c)
      else if not (r.verify_epoch == c.verify_epoch)
          || not (r.nonce == c.outstanding_nonce)
          || r.nonce == 0
          || ltb c.outstanding_challenge_expiry c.now_ns
      then (eidentity, c)
      else (
        ok,
        record c {
          arms = each_side reset_arm c.arms;
          verify_epoch = add64 c.verify_epoch 1;
          outstanding_nonce = 0;
          lifecycle = lifecycle_closed;
        },
      )

  unfoldable pub heartbeat : ℕ → ℕ → Controller D → Status × Controller D
  heartbeat command_id deadline_ns c =
      if not (c.lifecycle == lifecycle_executing)
        || command_id == 0
        || not (command_id == c.command_id)
      then (estate, c)
      else if leb deadline_ns c.now_ns
      then latch_fault estale true c
      else (ok, record c { producer_deadline_ns = deadline_ns })

  unfoldable pub set_collision_scene_revision : ℕ → Controller D → Status × Controller D
  set_collision_scene_revision revision c =
      if not (c.options.backend == backend_virtual) || revision == 0
      then (if revision == 0 then einval else eunsupported, c)
      else if c.lifecycle == lifecycle_executing
      then (ebusy, c)
      else (ok, record c { options = record c.options { collision_scene_revision = revision } })

  unfoldable pub poll_event : Controller D → Answer Event D
  poll_event c =
      let (out, q) = Ring.pop c.events in
      record {
        status = if has out then ok else etimeout;
        out = out;
        next = record c { events = q };
      }
