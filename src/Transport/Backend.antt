-- ===== src/Transport/Backend.antt =====
-- struct Event, class Backend (transport/src/transport_internal.hpp) and the calls that the
-- transport makes of it. A backend is any state with five operations.
use open_arm_ik.Shared.{ℕ, Bool, List, ◌∷◌}
use open_arm_ik.Can.Frame.{Frame}
use open_arm_ik.Transport.Status.{Status}

pub record Event : Type 0 where
  pub kind : ℕ
  pub flags : ℕ
  pub dequeue_monotonic_ns : ℕ
  pub kernel_timestamp_ns : ℕ
  pub kernel_timestamp_clock : ℕ
  pub can_error_mask : ℕ
  pub rx_overflow_count : ℕ
  pub rx_overflow_delta : ℕ
  pub link_up : Bool
  pub frame : Frame

-- A status, what the call writes through its reference, and the backend's next state.
pub record Reply (S A : Type 0) : Type 0 where
  pub status : Status
  pub out : A
  pub next : S

pub record Backend (S : Type 0) : Type 0 where
  pub now : S → Reply S ℕ
  pub send : S → Frame → ℕ → Reply S ℕ
  pub receive : S → ℕ → Reply S Event
  pub close : S → S
  pub permits_authority_issuance : S → Bool

-- A backend that also keeps each frame that was handed to it, the newest first.
pub record Recorded (S : Type 0) : Type 0 where
  pub inner : S
  pub frames : List Frame

abbrev keeping : {S A : Type 0} → List Frame → Reply S A → Reply (Recorded S) A
keeping fs r = record {
  status = r.status;
  out = r.out;
  next = record { inner = r.next; frames = fs };
}

abbrev pub recording : {S : Type 0} → Backend S → Backend (Recorded S)
recording b = record {
  now = λ s. keeping s.frames (b.now s.inner);
  send = λ s f d. keeping (f ∷ s.frames) (b.send s.inner f d);
  receive = λ s d. keeping s.frames (b.receive s.inner d);
  close = λ s. record { inner = b.close s.inner; frames = s.frames };
  permits_authority_issuance = λ s. b.permits_authority_issuance s.inner;
}
