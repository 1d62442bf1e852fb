-- ===== src/Transport/Classify.antt =====
-- classify, and the helpers above it, of transport/src/transport.cpp.
pub mod Meaning
pub mod Built
use open_arm_ik.Shared.{
  ℕ, zero, suc, ◌+◌, ◌*◌, ◌^◌, Bool, true, false, ◌&&◌, ◌||◌, not, Option, none, some, ltb, ◌==◌,
  if◌then◌else◌, Result, done, failed,
}
use open_arm_ik.Can.Frame.{Frame, byte_at, frames_equal}
use open_arm_ik.Can.Registers.{CanError, ValueType, u32, f32, Metadata, register_metadata}
use open_arm_ik.Can.Builders.{
  Header, RegisterWrite, make_register_write, can_abi_version, frame_size, register_write_size,
}
use open_arm_ik.Transport.Status.{
  Status, ok, eframe, FrameClass, register_query, status_query, disable, enable, register_write,
  set_zero, clear_error, save_parameters, unknown, code, same_class,
}

abbrev pub sff_mask : ℕ
sff_mask = 0x7ff

-- The bytes from `first`, as many as `count`.
all_bytes_from : Frame → ℕ → ℕ → ℕ → Bool
all_bytes_from f first zero value = true
all_bytes_from f first (suc count) value =
    byte_at f first == value && all_bytes_from f (first + 1) count value

-- allBytes(frame, first, last, value), with `count` for last - first.
unfoldable pub all_bytes : Frame → ℕ → ℕ → ℕ → Bool
unfolding all_bytes_from
all_bytes f first count value = all_bytes_from f first count value

-- data[0] | data[1] << 8: the two bytes do not overlap, so `|` is a sum.
abbrev pub target_id : Frame → ℕ
target_id f = f.b0 + f.b1 * 2 ^ 8

abbrev pub valid_motor_target : ℕ → Bool
valid_motor_target t = ltb 0 t && ltb t sff_mask

-- readU32(&data[4]).
abbrev pub read_u32 : Frame → ℕ
read_u32 f = f.b4 + f.b5 * 2 ^ 8 + f.b6 * 2 ^ 16 + f.b7 * 2 ^ 24

unfoldable pub known_register : ℕ → Bool
known_register r = elim (register_metadata r) [ none ↦ false | some m ↦ true ]

-- The record that validRegisterWrite fills from the frame.
unfoldable pub read_write : Frame → ValueType → RegisterWrite
read_write f t = record {
  struct_size = register_write_size;
  abi_version = can_abi_version;
  send_id = target_id f;
  reserved = 0;
  register_id = f.b3;
  value_type = t;
  value_u32 = elim t [ u32 ↦ read_u32 f | f32 ↦ 0 ];
  value_f32 = elim t [ u32 ↦ 0 | f32 ↦ read_u32 f ];
}

abbrev frame_header : Header
frame_header = record { struct_size = frame_size; abi_version = can_abi_version }

matches : Frame → Result CanError Frame → Bool
matches f (failed e) = false
matches f (done expected) = frames_equal expected f

writes : Frame → Option Metadata → Bool
unfolding matches read_write
writes f none = false
writes f (some m) =
    m.writable
    && matches f (make_register_write (some (read_write f m.value_type)) (some frame_header))

unfoldable pub valid_register_write : Frame → Bool
unfolding writes
valid_register_write f =
    if not (valid_motor_target (target_id f)) then false else writes f (register_metadata f.b3)

unfoldable pub dangerous_class : FrameClass → Bool
unfolding same_class
dangerous_class c =
    same_class c disable
    || same_class c enable
    || same_class c register_write
    || same_class c set_zero
    || same_class c clear_error
    || same_class c save_parameters

-- The broadcast identifier: the command stands in the third byte.
unfoldable pub broadcast_class : Frame → FrameClass
broadcast_class f =
    if f.b2 == 0x33 && valid_motor_target (target_id f) && known_register f.b3 && all_bytes f 4 4 0
    then register_query
    else if f.b2 == 0xcc && valid_motor_target (target_id f) && all_bytes f 3 5 0
    then status_query
    else if f.b2 == 0x55 && valid_register_write f
    then register_write
    else if f.b2 == 0xaa && valid_motor_target (target_id f) && all_bytes f 3 5 0
    then save_parameters
    else unknown

unfoldable pub special_class : ℕ → FrameClass
special_class last =
    if last == 0xfc
    then enable
    else if last == 0xfd
    then disable
    else if last == 0xfe
    then set_zero
    else if last == 0xfb
    then clear_error
    else unknown

-- The class that is written where the frame is well formed.
unfoldable pub frame_class : Frame → FrameClass
frame_class f =
    if f.can_id == 0
    then unknown
    else if f.can_id == sff_mask
    then broadcast_class f
    else if all_bytes f 0 7 0xff
    then special_class f.b7
    else unknown

-- `none` leaves the caller's variable as it was.
pub record Classified : Type 0 where
  pub status : Status
  pub out_class : Option FrameClass

unfoldable pub classify : Frame → Classified
classify f =
    if not (f.dlc == 8) || ltb sff_mask f.can_id
    then record { status = eframe; out_class = none }
    else record { status = ok; out_class = some (frame_class f) }
