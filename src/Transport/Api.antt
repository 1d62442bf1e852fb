-- ===== src/Transport/Api.antt =====
-- transport/src/c_api.cpp: the public C functions. A pointer argument is an Option; `none` is a
-- null pointer. A handle is the transport that it owns.
pub mod QueryOnly
use open_arm_ik.Shared.{
  ℕ, ◌<◌, Bool, true, false, ◌&&◌, ◌||◌, not, Option, none, some, List, [], ◌∷◌, ltb, leb, ◌==◌,
  if◌then◌else◌, nonzero,
}
use open_arm_ik.Can.Frame.{Frame}
use open_arm_ik.Transport.Status.{
  Status, ok, einval, eabi, erange, eframe, is_ok, FrameClass, unknown,
}
use open_arm_ik.Transport.Classify.{Classified, classify, sff_mask}
use open_arm_ik.Transport.Backend.{Event, Backend}
use open_arm_ik.Transport.Core.{Transport, Sent, Received, send, receive, close}

-- The first two fields of every public record.
pub record Header : Type 0 where
  pub struct_size : ℕ
  pub abi_version : ℕ

abbrev pub abi_version : ℕ
abi_version = 1

-- sizeof the public records.
abbrev pub frame_size : ℕ
frame_size = 24

abbrev pub send_result_size : ℕ
send_result_size = 24

abbrev pub event_size : ℕ
event_size = 80

unfoldable pub valid_record : Option Header → ℕ → Bool
valid_record none size = false
valid_record (some h) size = leb size h.struct_size && h.abi_version == abi_version

-- oa_transport_frame: its header and what toInternal copies.
pub record PublicFrame : Type 0 where
  pub header : Header
  pub payload : Frame

unfoldable pub validate_frame : Option PublicFrame → Status
unfolding valid_record
validate_frame none = einval
validate_frame (some f) =
    if not (valid_record (some f.header) frame_size)
    then eabi
    else if not (f.payload.dlc == 8) || ltb sff_mask f.payload.can_id
    then eframe
    else ok

pub record ClassifyReply : Type 0 where
  pub status : Status
  pub out_class : Option FrameClass

-- oa_transport_classify_send_frame; the first argument says whether out_class is given.
unfoldable pub classify_send_frame : Bool → Option PublicFrame → ClassifyReply
unfolding validate_frame
classify_send_frame false frame = record { status = einval; out_class = none }
classify_send_frame true none = record { status = einval; out_class = none }
classify_send_frame true (some f) =
    let v = validate_frame (some f) in
    let c = classify f.payload in
    if not (is_ok v)
    then record { status = v; out_class = none }
    else record { status = c.status; out_class = if is_ok c.status then c.out_class else none }

pub record SendResult : Type 0 where
  pub frame_class : FrameClass
  pub sent_monotonic_ns : ℕ

-- The result record is written on success alone.
pub record SendReply (S : Type 0) : Type 0 where
  pub status : Status
  pub out_result : Option SendResult
  pub next : Option (Transport S)

pub record ReceiveReply (S : Type 0) : Type 0 where
  pub status : Status
  pub out_event : Option Event
  pub next : Option (Transport S)

module _ {S : Type 0} (b : Backend S) where
  unfoldable pub send_valid : Transport S → Option PublicFrame → ℕ → SendReply S
  send_valid t none deadline = record { status = einval; out_result = none; next = some t }
  send_valid t (some f) deadline =
      let v = validate_frame (some f) in
      let r = send b t f.payload deadline none in
      if not (is_ok v) then record { status = v; out_result = none; next = some t } else record {
        status = r.status;
        out_result =
            if is_ok r.status
            then some (record {
              frame_class = elim r.out_class [ none ↦ unknown | some c ↦ c ];
              sent_monotonic_ns = elim r.out_sent_ns [ none ↦ 0 | some ns ↦ ns ];
            })
            else none;
        next = some r.next;
      }

  -- oa_transport_send: the authority is always a null pointer.
  unfoldable pub api_send :
      Option (Transport S) → Option PublicFrame → ℕ → Option Header → SendReply S
  api_send none frame deadline out = record { status = einval; out_result = none; next = none }
  api_send (some t) frame deadline none = record {
    status = einval;
    out_result = none;
    next = some t;
  }
  api_send (some t) frame deadline (some h) =
      if not (valid_record (some h) send_result_size)
      then record { status = eabi; out_result = none; next = some t }
      else send_valid t frame deadline

  -- oa_transport_receive.
  unfoldable pub api_receive : Option (Transport S) → ℕ → Option Header → ReceiveReply S
  api_receive none deadline out = record { status = einval; out_event = none; next = none }
  api_receive (some t) deadline none = record { status = einval; out_event = none; next = some t }
  api_receive (some t) deadline (some h) =
      let r = receive b t deadline in
      if not (valid_record (some h) event_size)
      then record { status = eabi; out_event = none; next = some t }
      else record {
        status = r.status;
        out_event = if is_ok r.status then r.out_event else none;
        next = some r.next;
      }

  -- oa_transport_close.
  unfoldable pub api_close : Option (Transport S) → Status × Option (Transport S)
  api_close none = (einval, none)
  api_close (some t) = (ok, some (close b t))
