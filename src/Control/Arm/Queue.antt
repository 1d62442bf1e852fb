-- ===== src/Control/Arm/Queue.antt =====
-- The feedback that is on its way: what publish_due takes off the queue.
use open_arm_ik.Shared.{ℕ, ◌+◌, ◌<◌, ◌≡◌, ◌≢◌, ◌⊎◌, Bool, false}
use open_arm_ik.Shared.Double.{Double}
use open_arm_ik.Control.Codes.{all_joints}
use open_arm_ik.Control.Ring
use open_arm_ik.Control.Arm
use open_arm_ik.Control.Arm.{Arm, FeedbackGeneration, Pass, leaves, repeats, max64}

module _ {D : Type 0} ⦃d : Double D⦄ where
  -- The next generation to be published.
  abbrev pub front : Arm D → FeedbackGeneration
  front a = a.feedback_queue.slot a.feedback_queue.head

  -- Why publish_due may stop: nothing is queued, or the next is not due, or the last one taken
  -- lacked a joint, or the sequence is exhausted.
  abbrev pub IsDrained : ℕ → Bool × Arm D → Type 0
  IsDrained now r =
      (r.1.feedback_queue.count ≡ 0)
      ⊎ ((now < (front r.1).ready_ns)
          ⊎ ((r.1.generation_mask ≢ all_joints) ⊎ ((r.0 ≡ false) × (r.1.feedback_seq ≡ max64))))

  record Leaves (now : ℕ) (a : Arm D) (r : Bool) (b : Arm D) : Type 0 where
    drained : IsDrained now (r, b)

  record Repeats (a b : Arm D) : Type 0 where
    fewer : b.feedback_queue.count + 1 ≡ a.feedback_queue.count

  Passes : ℕ → Arm D → Pass D → Type 0
  Passes now a (leaves r b) = Leaves now a r b
  Passes now a (repeats b) = Repeats a b
