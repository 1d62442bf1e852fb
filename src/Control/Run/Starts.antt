-- ===== src/Control/Run/Starts.antt =====
-- What arms the motors, and what starts a plan.
use open_arm_ik.Shared.{
  ℕ, ◌≤◌, ◌≡◌, ◌≢◌, refl, Bool, true, false, not, ◌||◌, none, ◌==◌, arith, if-both, if◌then◌else◌,
}
use open_arm_ik.Shared.Double.{Double}
use open_arm_ik.Control.Codes.{
  Status, EventKind, ok, ebusy, efault, eestop, lifecycle_disarmed, lifecycle_armed_idle,
}
use open_arm_ik.Control.Ring.{capacity}
use open_arm_ik.Control.Plan.{MotionPlan, Challenge, ExecuteRequest}
use open_arm_ik.Control.Controller.{
  Controller, publish, published, append, latch_fault, fresh, healthy, disabled,
}
use open_arm_ik.Control.Controller.Arming.{Answer, arm, enable, live_challenge}
use open_arm_ik.Control.Controller.Geometry.{Geometry}
use open_arm_ik.Control.Controller.Execute.{launch, own_plan, current_plan, valid_times, start_of}

refused : (held : Bool) → (if not held then eestop else efault) ≢ ok
refused true e = absurd (cc)
refused false e = absurd (cc)

live_lem :
    {D : Type 0} ⦃d : Double D⦄ (r : Challenge) (c : Controller D)
    → live_challenge r c ≡ true
    → (r.verify_epoch ≡ c.verify_epoch)
      × (r.nonce ≡ c.outstanding_nonce)
      × (c.outstanding_nonce ≢ 0)
      × (c.now_ns ≤ c.outstanding_challenge_expiry)
unfolding live_challenge
live_lem r c e = (ground arith, ground arith, grind arith, grind arith)

module _ {D : Type 0} ⦃d : Double D⦄ where
  published-is_ok :
      (k : EventKind) (cause status : Status) (id : ℕ) (c : Controller D)
      → (published k cause id status c).0 ≡ ok
      → status ≡ ok
  unfolding published
  published-is_ok k cause status id c =
      if-both (λ (s : Status). s ≡ ok → status ≡ ok) (publish k cause id c).0 (λ e h. h)
        (λ e h. absurd (cc))

  latch_fault-is_ok :
      (cause : Status) (b : Bool) (c : Controller D) → (latch_fault cause b c).0 ≡ ok → cause ≡ ok
  unfolding latch_fault
  latch_fault-is_ok cause b c e = published-is_ok _ cause cause c.command_id _ e

  -- What the caller of a successful arm has shown.
  record Armed (r : Challenge) (c n : Controller D) : Type 0 where
    was_disarmed : c.lifecycle ≡ lifecycle_disarmed
    challenged : live_challenge r c ≡ true
    was_fresh : fresh c ≡ true
    was_healthy : healthy c ≡ true
    was_disabled : disabled c ≡ true
    deadman : c.deadman_active ≡ true
    spent : n.outstanding_nonce ≡ 0
    now_idle : n.lifecycle ≡ lifecycle_armed_idle

  enable-Armed_lem :
      (c : Controller D)
      → (enable c).0 ≡ ok
      → ((enable c).1.outstanding_nonce ≡ 0) × ((enable c).1.lifecycle ≡ lifecycle_armed_idle)
  unfolding enable published publish append
  enable-Armed_lem c =
      if-both
        (λ (r : Bool × Controller D).
          (if r.0 then ok else ebusy) ≡ ok
          → (r.1.outstanding_nonce ≡ 0) × (r.1.lifecycle ≡ lifecycle_armed_idle))
        (c.events.count == capacity) (λ e h. absurd (cc)) (λ e h. (refl, refl))

  arm-Armed : (r : Challenge) (c : Controller D) → (arm r c).0 ≡ ok → Armed r c (arm r c).1
  unfolding arm
  arm-Armed r c =
      if-both Result (not (c.lifecycle == lifecycle_disarmed)) (λ e h. absurd (cc))
        (λ l.
          if-both Result (not (live_challenge r c)) (λ e h. absurd (cc))
            (λ k.
              if-both Result (not (fresh c)) (λ e h. absurd (cc))
                (λ f.
                  if-both Result (not (healthy c) || not (disabled c) || not c.deadman_active)
                    (λ e h. absurd (refused c.deadman_active (latch_fault-is_ok _ false c h)))
                    (λ e h.
                      let n = enable-Armed_lem c h in
                      record {
                        was_disarmed = ground arith;
                        challenged = ground arith;
                        was_fresh = ground arith;
                        was_healthy = ground arith;
                        was_disabled = ground arith;
                        deadman = ground arith;
                        spent = n.0;
                        now_idle = n.1;
                      }))))
    where
      Result : Status × Controller D → Type 0
      Result x = x.0 ≡ ok → Armed r c x.1

-- An arm that returns OK was called in DISARMED, with the challenge of the present verification
-- that was outstanding and had not expired, with fresh feedback that shows no fault and every
-- motor disabled, and with the deadman held; it leaves the lifecycle ARMED_IDLE, and no challenge
-- outstanding.
pub arm_ok :
    {D : Type 0} ⦃d : Double D⦄ (r : Challenge) (c : Controller D)
    → (arm r c).0 ≡ ok
    → (c.lifecycle ≡ lifecycle_disarmed)
      × ((r.verify_epoch ≡ c.verify_epoch)
          × (r.nonce ≡ c.outstanding_nonce)
          × (c.outstanding_nonce ≢ 0)
          × (c.now_ns ≤ c.outstanding_challenge_expiry))
      × ((fresh c ≡ true) × (healthy c ≡ true) × (disabled c ≡ true))
      × (c.deadman_active ≡ true)
      × ((arm r c).1.lifecycle ≡ lifecycle_armed_idle)
      × ((arm r c).1.outstanding_nonce ≡ 0)
arm_ok r c e =
    let a = arm-Armed r c e in
    (
      a.was_disarmed,
      live_lem r c a.challenged,
      (a.was_fresh, a.was_healthy, a.was_disabled),
      a.deadman,
      a.now_idle,
      a.spent,
    )

module _ {D : Type 0} ⦃d : Double D⦄ (g : Geometry D) where
  -- What a plan was checked for when execute gave it a command, and what execute left.
  record Launched (p : MotionPlan D) (r : ExecuteRequest) (c : Controller D) (x : Answer ℕ D)
      : Type 0 where
    was_idle : c.lifecycle ≡ lifecycle_armed_idle
    was_fresh : fresh c ≡ true
    was_healthy : healthy c ≡ true
    own : own_plan p c ≡ true
    current : current_plan p c ≡ true
    times : valid_times p r (start_of r c) c ≡ true
    same : x ≡ launch g p r (start_of r c) c

  Result : MotionPlan D → ExecuteRequest → Controller D → Answer ℕ D → Type 0
  Result p r c x = x.out ≢ none → Launched p r c x
