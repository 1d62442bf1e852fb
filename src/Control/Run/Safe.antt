-- ===== src/Control/Run/Safe.antt =====
-- The invariant of a controller between two calls, of the members that it is about.
use open_arm_ik.Shared.{ℕ, ◌≡◌, ◌⊎◌, Bool, true, false, not, ◌&&◌, ◌||◌, ◌==◌, arith}
use open_arm_ik.Control.Codes.{
  lifecycle_closed, lifecycle_disarmed, lifecycle_armed_idle, lifecycle_executing, lifecycle_fault,
  lifecycle_estop,
}
use open_arm_ik.Control.Plan.{Event}
use open_arm_ik.Control.Ring.{Ring}
use open_arm_ik.Control.Ring.Contents.{IsValid}
use open_arm_ik.Control.Controller.Advance.{is_armed}

-- The lifecycles in which a motor may be enabled.
unfoldable pub may_hold : ℕ → Bool
may_hold l = is_armed l || l == lifecycle_fault

-- The lifecycles of a controller that never verified its motors.
unfoldable pub is_grounded : ℕ → Bool
is_grounded l = l == lifecycle_closed || l == lifecycle_fault || l == lifecycle_estop

-- The lifecycles between calls: not VERIFYING, ARMING or STOPPING.
unfoldable pub is_resting : ℕ → Bool
is_resting l = may_hold l || is_grounded l || l == lifecycle_disarmed

pub record Safe (backend : ℕ) (deadman : Bool) (l : ℕ) (on planned : Bool) (id : ℕ) (q : Ring Event)
    : Type 0 where
  pub power : (on ≡ false) ⊎ ((backend ≡ 1) × (deadman ≡ true) × (may_hold l ≡ true))
  pub in_arms : (is_armed l ≡ false) ⊎ ((backend ≡ 1) × (deadman ≡ true))
  pub by_backend : (backend ≡ 1) ⊎ (is_grounded l ≡ true)
  pub plan : planned ≡ (l == 5)
  pub command : (planned ≡ true) ⊎ (id ≡ 0)
  pub rests : is_resting l ≡ true
  pub known : (backend ≡ 1) ⊎ (backend ≡ 2)
  pub queue : IsValid q

module _ (b : ℕ) (dm on : Bool) (q : Ring Event) (k : (b ≡ 1) ⊎ (b ≡ 2)) (v : IsValid q) where
  pub fault-Safe : (on ≡ false) ⊎ ((b ≡ 1) × (dm ≡ true)) → Safe b dm 7 on false 0 q
  unfolding may_hold is_armed is_grounded is_resting
  fault-Safe p = grind arith

  pub estop-Safe : on ≡ false → Safe b dm 8 on false 0 q
  unfolding may_hold is_armed is_grounded is_resting
  estop-Safe p = grind arith

  pub closed-Safe : on ≡ false → Safe b dm 0 on false 0 q
  unfolding may_hold is_armed is_grounded is_resting
  closed-Safe p = grind arith

  pub disarmed-Safe : b ≡ 1 → on ≡ false → Safe b dm 2 on false 0 q
  unfolding may_hold is_armed is_grounded is_resting
  disarmed-Safe e p = grind arith

  pub idle-Safe : b ≡ 1 → dm ≡ true → Safe b dm 4 on false 0 q
  unfolding may_hold is_armed is_grounded is_resting
  idle-Safe e p = grind arith

  pub executing-Safe : (id : ℕ) → b ≡ 1 → dm ≡ true → Safe b dm 5 on true id q
  unfolding may_hold is_armed is_grounded is_resting
  executing-Safe id e p = grind arith

pub requeue :
    {b l id : ℕ} {dm on planned : Bool} {q r : Ring Event}
    → Safe b dm l on planned id q
    → IsValid r
    → Safe b dm l on planned id r
requeue s v = record {
  power = s.power;
  in_arms = s.in_arms;
  by_backend = s.by_backend;
  plan = s.plan;
  command = s.command;
  rests = s.rests;
  known = s.known;
  queue = v;
}

pub relabel :
    {b l k id : ℕ} {dm on planned : Bool} {q : Ring Event}
    → l ≡ k
    → Safe b dm l on planned id q
    → Safe b dm k on planned id q
relabel e s = rw (← e) s

-- The motors are verified.
pub verify-Safe :
    {b l id : ℕ} {dm on off planned : Bool} {q : Ring Event}
    → Safe b dm l on planned id q
    → l ≡ lifecycle_closed
    → b ≡ 1
    → off ≡ false
    → Safe b dm lifecycle_disarmed off planned id q
unfolding may_hold is_armed is_grounded is_resting
verify-Safe s l v off = grind arith

-- The motors are enabled, with the deadman held.
pub enable-Safe :
    {b l id : ℕ} {dm on now_on planned : Bool} {q : Ring Event}
    → Safe b dm l on planned id q
    → l ≡ lifecycle_disarmed
    → dm ≡ true
    → Safe b dm lifecycle_armed_idle now_on planned id q
unfolding may_hold is_armed is_grounded is_resting
enable-Safe s l held = grind arith

-- A reset, after a fault or an emergency stop.
pub reset-Safe :
    {b l id : ℕ} {dm on off planned : Bool} {q : Ring Event}
    → Safe b dm l on planned id q
    → (l ≡ lifecycle_fault) ⊎ (l ≡ lifecycle_estop)
    → off ≡ false
    → Safe b dm lifecycle_closed off planned id q
unfolding may_hold is_armed is_grounded is_resting
reset-Safe s l off = grind arith

-- What is known where the arms are or may be armed.
pub armed-virtual :
    {b l id : ℕ} {dm on planned : Bool} {q : Ring Event}
    → Safe b dm l on planned id q
    → is_armed l ≡ true
    → (b ≡ 1) × (dm ≡ true)
unfolding is_armed
armed-virtual s a = grind arith

-- The deadman is held.
pub held-Safe :
    {b l id : ℕ} {dm held on planned : Bool} {q : Ring Event}
    → held ≡ true
    → Safe b dm l on planned id q
    → Safe b held l on planned id q
held-Safe e s = grind arith

pub same_power-Safe :
    {b l id : ℕ} {dm on other planned : Bool} {q : Ring Event}
    → other ≡ on
    → Safe b dm l on planned id q
    → Safe b dm l other planned id q
same_power-Safe e s = rw e s

pub serves-virtual :
    {b l id : ℕ} {dm on planned : Bool} {q : Ring Event}
    → Safe b dm l on planned id q
    → (not (l == lifecycle_armed_idle)
        && not (l == lifecycle_executing)
        && not (l == lifecycle_disarmed))
      ≡ false
    → b ≡ 1
unfolding is_grounded
serves-virtual s a = grind arith

-- A plan runs only while the deadman is held.
pub armed_deadman :
    {b l id : ℕ} {dm on planned : Bool} {q : Ring Event}
    → Safe b dm l on planned id q
    → planned ≡ true
    → dm ≡ true
unfolding is_armed
armed_deadman s p = grind arith
