-- ===== src/Control/Arm/Power.antt =====
-- Which operations of an arm change whether a motor is enabled.
use open_arm_ik.Shared.{
  ℕ, zero, suc, ◌-◌, ◌≡◌, refl, Bool, false, ◌||◌, not, ◌&&◌, List, [], ◌∷◌, map, arith, if-both,
  nonzero, ltb, ◌==◌, ap, ◌∙◌,
}
use open_arm_ik.Shared.Double.{Double}
use open_arm_ik.Control.Motor
use open_arm_ik.Control.Motor.{FeedbackFrame, Motor}
use open_arm_ik.Control.Arm
use open_arm_ik.Control.Codes.{all_joints}
use open_arm_ik.Control.Arm.{
  max64, Arm, FeedbackGeneration, Pass, leaves, repeats, fault_from, publish_frames, command_from,
  force_from, bit,
}

module _ {D : Type 0} ⦃d : Double D⦄ where
  -- Some motor is enabled.
  unfoldable pub any_enabled : List (Motor D) → Bool
  any_enabled [] = false
  any_enabled (m ∷ ms) = m.enabled || any_enabled ms

  -- Some motor of the arm is enabled.
  unfoldable pub powered : Arm D → Bool
  powered a = any_enabled a.motor

  -- A change of each motor that leaves `enabled` as it is.
  map-enabled :
      (f : Motor D → Motor D)
      → ((m : Motor D) → (f m).enabled ≡ m.enabled)
      → (ms : List (Motor D)) → any_enabled (map f ms) ≡ any_enabled ms
  unfolding any_enabled
  map-enabled f same [] = refl
  map-enabled f same (m ∷ ms) = rw (same m, map-enabled f same ms) refl

  map-off : (ms : List (Motor D)) → any_enabled (map (Motor.set_enabled false) ms) ≡ false
  unfolding any_enabled Motor.set_enabled
  map-off [] = refl
  map-off (m ∷ ms) = map-off ms

  snapped-enabled : (b : Bool) (m : Motor D) → (Motor.snapped b m).enabled ≡ m.enabled
  unfolding Motor.snapped
  snapped-enabled b m = ground arith

  moved-enabled : (dt : D) (m : Motor D) → (Motor.moved dt m).enabled ≡ m.enabled
  unfolding Motor.moved
  moved-enabled dt m = snapped-enabled _ _ ∙ snapped-enabled _ _

  capture-enabled :
      (dt : D) (ns : ℕ) (frozen : Bool) (m : Motor D)
      → (Motor.capture dt ns frozen m).1.enabled ≡ m.enabled
  unfolding Motor.capture
  capture-enabled dt ns frozen m =
      if-both (λ (n : Motor D). n.enabled ≡ m.enabled) (not frozen && not m.blocked)
        (λ e. moved-enabled dt m) (λ e. refl)

  publish-enabled : (f : FeedbackFrame) (m : Motor D) → (Motor.publish f m).enabled ≡ m.enabled
  unfolding Motor.publish
  publish-enabled f m = refl

  force_state-enabled :
      (q dq : D) (ns : ℕ) (m : Motor D) → (Motor.force_state q dq ns m).enabled ≡ m.enabled
  unfolding Motor.force_state
  force_state-enabled q dq ns m = publish-enabled _ _ ∙ capture-enabled _ _ _ _

  fault_from-enabled :
      (j mask s : ℕ) (ms : List (Motor D)) → any_enabled (fault_from j mask s ms) ≡ any_enabled ms
  unfolding fault_from any_enabled Motor.set_fault
  fault_from-enabled j mask s [] = refl
  fault_from-enabled j mask s (m ∷ ms) = ap (m.enabled ||◌) (fault_from-enabled (suc j) mask s ms)

  publish_frames-enabled :
      (fs : List FeedbackFrame) (ms : List (Motor D))
      → any_enabled (publish_frames fs ms) ≡ any_enabled ms
  unfolding publish_frames any_enabled
  publish_frames-enabled [] ms = refl
  publish_frames-enabled (f ∷ fs) [] = refl
  publish_frames-enabled (f ∷ fs) (m ∷ ms) =
      rw (publish-enabled f m, publish_frames-enabled fs ms) refl

  command_from-enabled :
      (j freeze : ℕ) (qs dqs : List D) (now : ℕ) (dt : D) (ms : List (Motor D))
      → any_enabled (command_from j freeze qs dqs now dt ms).1 ≡ any_enabled ms
  unfolding command_from any_enabled Motor.command
  command_from-enabled j freeze [] dqs now dt ms = refl
  command_from-enabled j freeze (q ∷ qs) [] now dt ms = refl
  command_from-enabled j freeze (q ∷ qs) (dq ∷ dqs) now dt [] = refl
  command_from-enabled j freeze (q ∷ qs) (dq ∷ dqs) now dt (m ∷ ms) =
      rw
        (
          capture-enabled dt now (bit freeze j) (Motor.command q dq m),
          command_from-enabled (suc j) freeze qs dqs now dt ms,
        )
        refl

  force_from-enabled :
      (qs dqs : List D) (now : ℕ) (ms : List (Motor D))
      → any_enabled (force_from qs dqs now ms) ≡ any_enabled ms
  unfolding force_from any_enabled
  force_from-enabled [] dqs now ms = refl
  force_from-enabled (q ∷ qs) [] now ms = refl
  force_from-enabled (q ∷ qs) (dq ∷ dqs) now [] = refl
  force_from-enabled (q ∷ qs) (dq ∷ dqs) now (m ∷ ms) =
      rw (force_state-enabled q dq now m, force_from-enabled qs dqs now ms) refl

  pub powered-off : (a : Arm D) → powered (Arm.set_enabled false a) ≡ false
  unfolding powered Arm.set_enabled
  powered-off a = map-off a.motor

  pub powered-force_state :
      (q dq : List D) (now : ℕ) (a : Arm D) → powered (Arm.force_state q dq now a) ≡ powered a
  unfolding powered Arm.force_state Arm.clear_queue
  powered-force_state q dq now a = force_from-enabled q dq now a.motor

  pub powered-retire : (a : Arm D) → powered (Arm.retire_pending_feedback a) ≡ powered a
  unfolding powered Arm.retire_pending_feedback Arm.clear_queue
  powered-retire a = refl

  pub powered-set_injection :
      (f p u s k t : ℕ) (a : Arm D) → powered (Arm.set_injection f p u s k t a) ≡ powered a
  unfolding powered Arm.set_injection Arm.set_fault_mask
  powered-set_injection f p u s k t a = fault_from-enabled 0 _ _ a.motor

  pub powered-set_blocked :
      (b : Bool) (gain : D) (a : Arm D) → powered (Arm.set_blocked b gain a) ≡ powered a
  unfolding powered Arm.set_blocked Motor.set_blocked
  powered-set_blocked b gain a = map-enabled (Motor.set_blocked b gain) (λ m. refl) a.motor

  pub powered-clear_contact : (a : Arm D) → powered (Arm.clear_contact a) ≡ powered a
  unfolding powered Arm.clear_contact Motor.set_blocked
  powered-clear_contact a = map-enabled (Motor.set_blocked false d.nought) (λ m. refl) a.motor

  pub powered-stop : (now : ℕ) (a : Arm D) → powered (Arm.materialize_stop false now a) ≡ false
  unfolding Arm.materialize_stop
  powered-stop now a = powered-force_state _ _ now _ ∙ powered-off a

  powered-publish_complete :
      (g : FeedbackGeneration) (a : Arm D)
      → powered (Arm.dequeue (Arm.publish_complete g a)) ≡ powered a
  unfolding powered Arm.publish_complete Arm.dequeue
  powered-publish_complete g a = publish_frames-enabled g.frame a.motor

  powered-partial :
      (g : FeedbackGeneration) (a : Arm D)
      → powered (Arm.dequeue (record a { generation_mask = g.member_mask })) ≡ powered a
  unfolding powered Arm.dequeue
  powered-partial g a = refl

  powered_pass : Pass D → Bool
  powered_pass (leaves r a) = powered a
  powered_pass (repeats a) = powered a

  publish_pass-powered : (now : ℕ) (a : Arm D) → powered_pass (Arm.publish_pass now a) ≡ powered a
  unfolding powered_pass Arm.publish_pass
  publish_pass-powered now a =
      let g = a.feedback_queue.slot a.feedback_queue.head in
      if-both Kept (a.feedback_queue.count == 0) (λ e. refl)
        (λ e.
          if-both Kept (ltb now g.ready_ns) (λ e. refl)
            (λ e.
              if-both Kept (g.member_mask == all_joints)
                (λ e.
                  if-both Kept (a.feedback_seq == max64) (λ e. refl)
                    (λ e. powered-publish_complete g a))
                (λ e. powered-partial g a)))
    where
      Kept : Pass D → Type 0
      Kept p = powered_pass p ≡ powered a

  publish_loop-powered : (n now : ℕ) (a : Arm D) → powered (Arm.publish_loop n now a).1 ≡ powered a
  unfolding Arm.publish_loop powered_pass
  publish_loop-powered zero now a = refl
  publish_loop-powered (suc n) now a =
      passed (publish_loop-powered n now) (Arm.publish_pass now a) (publish_pass-powered now a)
    where
      passed :
          ((b : Arm D) → powered (Arm.publish_loop n now b).1 ≡ powered b)
          → (p : Pass D) → powered_pass p ≡ powered a
          → powered
              (elim p as (λ (x : Pass D). Bool × Arm D) [
                | leaves result b ↦ (result, b)
                | repeats b ↦ Arm.publish_loop n now b
              ]).1
            ≡ powered a
      passed rest (leaves r b) e = e
      passed rest (repeats b) e = rest b ∙ e

  stepped-powered :
      (q dq : List D) (now : ℕ) (dt : D) (a : Arm D)
      → powered (Arm.stepped q dq now dt a).1 ≡ powered a
  unfolding powered Arm.stepped
  stepped-powered q dq now dt a = command_from-enabled 0 a.freeze_mask q dq now dt a.motor

  enqueue-powered : (g : FeedbackGeneration) (a : Arm D) → powered (Arm.enqueue g a).1 ≡ powered a
  unfolding powered Arm.enqueue
  enqueue-powered g a = refl

  record_cycle-powered : (a : Arm D) → powered (Arm.record_complete_cycle a) ≡ powered a
  unfolding powered Arm.record_complete_cycle
  record_cycle-powered a = refl

  powered-failed : (a : Arm D) → powered (record a { generation_mask = 0 }) ≡ powered a
  unfolding powered
  powered-failed a = refl

  pub powered-command_and_step :
      (q dq : List D) (now : ℕ) (dt : D) (a : Arm D)
      → powered (Arm.command_and_step q dq now dt a).1 ≡ powered a
  unfolding Arm.command_and_step Arm.publish_due
  powered-command_and_step q dq now dt a =
      let g = (Arm.stepped q dq now dt a).0 in
      let b = (Arm.stepped q dq now dt a).1 in
      let e = Arm.enqueue g b in
      let p = Arm.publish_due now e.1 in
      let enqueued = enqueue-powered g b ∙ stepped-powered q dq now dt a in
      let published = publish_loop-powered _ now e.1 ∙ enqueued in
      if-both Kept (nonzero a.command_fail_mask) (λ e. powered-failed a)
        (λ h.
          if-both Kept (ltb (max64 - now) a.feedback_delay_ns) (λ h. refl)
            (λ h.
              if-both Kept (not e.0) (λ h. enqueued)
                (λ h.
                  if-both Kept (not p.0) (λ h. published)
                    (λ h. record_cycle-powered p.1 ∙ published))))
    where
      Kept : Bool × Arm D → Type 0
      Kept r = powered r.1 ≡ powered a
