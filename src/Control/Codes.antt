-- ===== src/Control/Codes.antt =====
-- The codes of control/include/openarm_control.h.
use open_arm_ik.Shared.{ℕ, Bool, true, false}

-- OA_CONTROL_*.
pub data Status : Type 0 where
  ok einval eabi estate estale etimeout ecan efault eestop elimit eidentity eunreachable : Status
  ecollision ebusy eio enomem eunsupported : Status

abbrev pub is_ok : Status → Bool
is_ok ok = true
is_ok _ = false

abbrev pub left : ℕ
left = 0

abbrev pub right : ℕ
right = 1

-- OA_BACKEND_*.
abbrev pub backend_virtual : ℕ
backend_virtual = 1

abbrev pub backend_physical : ℕ
backend_physical = 2

-- OA_COLLISION_*.
abbrev pub collision_reject_all : ℕ
collision_reject_all = 0

abbrev pub collision_virtual_unchecked : ℕ
collision_virtual_unchecked = 1

-- OA_LIFECYCLE_*.
abbrev pub lifecycle_closed : ℕ
lifecycle_closed = 0

abbrev pub lifecycle_verifying : ℕ
lifecycle_verifying = 1

abbrev pub lifecycle_disarmed : ℕ
lifecycle_disarmed = 2

abbrev pub lifecycle_arming : ℕ
lifecycle_arming = 3

abbrev pub lifecycle_armed_idle : ℕ
lifecycle_armed_idle = 4

abbrev pub lifecycle_executing : ℕ
lifecycle_executing = 5

abbrev pub lifecycle_stopping : ℕ
lifecycle_stopping = 6

abbrev pub lifecycle_fault : ℕ
lifecycle_fault = 7

abbrev pub lifecycle_estop : ℕ
lifecycle_estop = 8

-- OA_EVENT_*.
pub data EventKind : Type 0 where
  verified armed started completed stopped faulted disarmed queued settling aborted : EventKind
  estop : EventKind

-- OA_PLAN_*.
abbrev pub plan_of_joint : ℕ
plan_of_joint = 1

abbrev pub plan_of_paired_tcp : ℕ
plan_of_paired_tcp = 2

-- OA_STOP_*.
abbrev pub stop_disable : ℕ
stop_disable = 1

abbrev pub stop_controlled : ℕ
stop_controlled = 2

-- OA_STOP_CAUSE_*.
pub data StopCause : Type 0 where
  cause_none cause_contact cause_keepout cause_plan_complete cause_estop : StopCause

-- kAllJoints.
abbrev pub all_joints : ℕ
all_joints = 127
