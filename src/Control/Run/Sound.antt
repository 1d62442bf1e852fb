-- ===== src/Control/Run/Sound.antt =====
-- How the parts that the methods of the controller share keep its invariant.
use open_arm_ik.Shared.{
  ℕ, ◌<◌, ◌≡◌, ◌⊎◌, inl, inr, refl, ◌∙◌, Bool, true, false, not, ◌||◌, none, ◌==◌, arith, if-both,
}
use open_arm_ik.Shared.Double.{Double}
use open_arm_ik.Control.Codes.{Status, EventKind, backend_virtual}
use open_arm_ik.Control.Config.{Both}
use open_arm_ik.Control.Plan.{Event}
use open_arm_ik.Control.Ring
use open_arm_ik.Control.Ring.{Ring, capacity}
use open_arm_ik.Control.Ring.Contents.{IsValid, push-IsValid, drop-IsValid}
use open_arm_ik.Control.Arm
use open_arm_ik.Control.Arm.{Arm}
use open_arm_ik.Control.Arm.Power.{powered, powered-off, powered-stop, powered-retire}
use open_arm_ik.Control.Controller.{
  Controller, has, arm_stop, materialize_stop, overflowed, append, event_of, publish, published,
  keeps_hold, latch_fault,
}
use open_arm_ik.Control.Controller.Arming.{Answer}
use open_arm_ik.Control.Run.Safe.{Safe, fault-Safe, requeue, armed_deadman}

drop_room : (q : Ring Event) → q.count ≡ capacity → (Ring.drop q).count < capacity
unfolding Ring.drop
drop_room q e = omega arith

room : (q : Ring Event) → IsValid q → (q.count == capacity) ≡ false → q.count < capacity
room q v e = grind arith

module _ {D : Type 0} ⦃d : Double D⦄ where
  -- Some motor of the arms is enabled.
  unfoldable pub live : Both (Arm D) → Bool
  live arms = powered arms.of_left || powered arms.of_right

  abbrev pub Sound : Controller D → Type 0
  Sound c =
      Safe c.options.backend c.deadman_active c.lifecycle (live c.arms) (has c.executing)
        c.command_id c.events

  -- For the results of the calls.
  abbrev pub SoundTurn : Status × Controller D → Type 0
  SoundTurn r = Sound r.1

  abbrev pub SoundAnswer : {O : Type 0} → Answer O D → Type 0
  SoundAnswer r = Sound r.next

  pub live-off :
      (arms : Both (Arm D))
      → powered arms.of_left ≡ false
      → powered arms.of_right ≡ false
      → live arms ≡ false
  unfolding live
  live-off arms l r = rw (l, r) refl

  pub live-same :
      (old new : Both (Arm D))
      → powered new.of_left ≡ powered old.of_left
      → powered new.of_right ≡ powered old.of_right
      → live new ≡ live old
  unfolding live
  live-same old new l r = rw (l, r) refl

  arm_stop-off : (b now : ℕ) (a : Arm D) → powered (arm_stop b false now a) ≡ false
  unfolding arm_stop
  arm_stop-off b now a =
      if-both Off (b == backend_virtual)
        (λ e.
          if-both Off (not (a.feedback_seq == 0)) (λ e. powered-stop now a)
            (λ e. powered-retire (Arm.set_enabled false a) ∙ powered-off a))
        (λ e. powered-off a)
    where
      Off : Arm D → Type 0
      Off x = powered x ≡ false

  pub stop-off : (c : Controller D) → live (materialize_stop false c).arms ≡ false
  unfolding materialize_stop
  stop-off c =
      live-off _ (arm_stop-off c.options.backend c.now_ns c.arms.of_left)
        (arm_stop-off c.options.backend c.now_ns c.arms.of_right)

  -- What an overflow of the events leaves is sound, whatever the state was.
  overflowed-Sound :
      (e : Event) (c : Controller D)
      → (c.options.backend ≡ 1) ⊎ (c.options.backend ≡ 2)
      → IsValid c.events
      → c.events.count ≡ capacity
      → Sound (append e (overflowed c))
  unfolding append overflowed materialize_stop
  overflowed-Sound e c k v full =
      let off = stop-off (record c { executing = none; command_id = 0 }) in
      let dropped = drop-IsValid c.events v in
      fault-Safe c.options.backend c.deadman_active _ _ k
        (push-IsValid _ e dropped (drop_room c.events full)) (inl off)

  append-Sound :
      (e : Event) (c : Controller D) → c.events.count < capacity → Sound c → Sound (append e c)
  unfolding append
  append-Sound e c room s = requeue s (push-IsValid c.events e s.queue room)

  is_full : (c : Controller D) → (c.events.count == capacity) ≡ true → c.events.count ≡ capacity
  is_full c e = grind arith

  -- publish keeps a sound state sound, and makes any state sound in which the queue is full.
  pub publish-Sound :
      (k : EventKind) (cause : Status) (id : ℕ) (c : Controller D)
      → Sound c
      → Sound (publish k cause id c).1
  unfolding publish
  publish-Sound k cause id c s =
      if-both (λ (r : Bool × Controller D). Sound r.1) (c.events.count == capacity)
        (λ e. overflowed-Sound _ c s.known s.queue (is_full c e))
        (λ e. append-Sound _ c (room c.events s.queue e) s)

  -- What publish leaves of a state that need not be sound.
  pub record Published (c : Controller D) (r : Bool × Controller D) : Type 0 where
    pub lost : (r.0 ≡ true) ⊎ Sound r.1
    pub same_options : r.1.options ≡ c.options
    pub same_deadman : r.1.deadman_active ≡ c.deadman_active
    pub queue : IsValid r.1.events

  pub publish-Published :
      (k : EventKind) (cause : Status) (id : ℕ) (c : Controller D)
      → (c.options.backend ≡ 1) ⊎ (c.options.backend ≡ 2)
      → IsValid c.events
      → Published c (publish k cause id c)
  unfolding publish append overflowed materialize_stop
  publish-Published k cause id c b v =
      if-both (Published c) (c.events.count == capacity)
        (λ e.
          let safe =
            overflowed-Sound (event_of true k cause id (overflowed c)) c b v (is_full c e) in
          record { lost = inr safe; same_options = refl; same_deadman = refl; queue = safe.queue })
        (λ e. record {
          lost = inl refl;
          same_options = refl;
          same_deadman = refl;
          queue = push-IsValid c.events _ v (room c.events v e);
        })

  pub published-Sound :
      (k : EventKind) (cause : Status) (id : ℕ) (status : Status) (c : Controller D)
      → Sound c
      → Sound (published k cause id status c).1
  unfolding published
  published-Sound k cause id status c s = publish-Sound k cause id c s

  -- A hold is kept only by a virtual backend with a running plan.
  keeps_hold-cases :
      (available : Bool) (c : Controller D)
      → (keeps_hold available c ≡ false) ⊎ ((c.options.backend ≡ 1) × (has c.executing ≡ true))
  unfolding keeps_hold
  keeps_hold-cases available c = ground arith

  latch-power :
      (hold : Bool) (c : Controller D)
      → Sound c
      → (hold ≡ false) ⊎ ((c.options.backend ≡ 1) × (has c.executing ≡ true))
      → (live (materialize_stop hold (record c { executing = none; command_id = 0 })).arms ≡ false)
        ⊎ ((c.options.backend ≡ 1) × (c.deadman_active ≡ true))
  latch-power hold c s (inl e) =
      inl (rw e (stop-off (record c { executing = none; command_id = 0 })))
  latch-power hold c s (inr (v, p)) = inr (v, armed_deadman s p)

  pub latch_fault-Sound :
      (cause : Status) (available : Bool) (c : Controller D)
      → Sound c
      → Sound (latch_fault cause available c).1
  unfolding latch_fault materialize_stop
  latch_fault-Sound cause available c s = published-Sound _ cause c.command_id cause _ (
      fault-Safe c.options.backend c.deadman_active _ c.events s.known s.queue
        (latch-power (keeps_hold available c) c s (keeps_hold-cases available c)))
