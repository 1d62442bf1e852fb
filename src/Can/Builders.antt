-- ===== src/Can/Builders.antt =====
-- The frame builders of can/src/openarm_can.c. A builder is given the header of the caller's
-- output record (`none` is a null pointer) and delivers the frame that it writes there; the header
-- of the written frame is always the size and version of oa_can_frame, and is left out.
pub mod Writes
use open_arm_ik.Shared.{
  ℕ, ◌+◌, ◌*◌, ◌/◌, ◌%◌, ◌^◌, Bool, true, false, ◌&&◌, ◌||◌, not, Option, none, some, ltb, leb,
  ◌==◌, if◌then◌else◌, nonzero, Result, done, failed,
}
use open_arm_ik.Can.Frame.{Frame, Bytes}
use open_arm_ik.Can.Binary32.{key, zero_f}
use open_arm_ik.Can.Registers.{
  CanError, einval, erange, ValueType, u32, f32, Metadata, register_metadata, validate_u32,
  validate_f32,
}

pub record Header : Type 0 where
  pub struct_size : ℕ
  pub abi_version : ℕ

abbrev pub can_abi_version : ℕ
can_abi_version = 2

abbrev pub frame_size : ℕ
frame_size = 24

abbrev pub register_write_size : ℕ
register_write_size = 28

abbrev pub valid_version : ℕ → ℕ → ℕ → Bool
valid_version struct_size required version = leb required struct_size && version == can_abi_version

unfoldable pub valid_output : Option Header → ℕ → Bool
valid_output none required = false
valid_output (some h) required = valid_version h.struct_size required h.abi_version

abbrev pub valid_standard_id : ℕ → Bool
valid_standard_id id = ltb 0 id && leb id 0x7ff

abbrev addressed : ℕ → ℕ → ℕ → Frame
addressed send_id command register_id = record {
  can_id = 0x7ff;
  dlc = 8;
  bytes = record {
    b0 = send_id % 256;
    b1 = send_id / 256 % 256;
    b2 = command;
    b3 = register_id;
    b4 = 0;
    b5 = 0;
    b6 = 0;
    b7 = 0;
  };
}

unfoldable pub make_special : ℕ → ℕ → Option Header → Result CanError Frame
make_special send_id last_byte out =
    if not (valid_standard_id send_id) || not (valid_output out frame_size)
    then failed einval
    else done (record {
      can_id = send_id;
      dlc = 8;
      bytes = record {
        b0 = 0xff;
        b1 = 0xff;
        b2 = 0xff;
        b3 = 0xff;
        b4 = 0xff;
        b5 = 0xff;
        b6 = 0xff;
        b7 = last_byte;
      };
    })

unfoldable pub make_enable : ℕ → Option Header → Result CanError Frame
unfolding make_special
make_enable send_id out = make_special send_id 0xfc out

unfoldable pub make_disable : ℕ → Option Header → Result CanError Frame
unfolding make_special
make_disable send_id out = make_special send_id 0xfd out

unfoldable pub make_set_zero : ℕ → Option Header → Result CanError Frame
unfolding make_special
make_set_zero send_id out = make_special send_id 0xfe out

unfoldable pub make_clear_error : ℕ → Option Header → Result CanError Frame
unfolding make_special
make_clear_error send_id out = make_special send_id 0xfb out

unfoldable pub make_save_parameters : ℕ → Option Header → Result CanError Frame
make_save_parameters send_id out =
    if not (valid_standard_id send_id) || not (valid_output out frame_size)
    then failed einval
    else done (addressed send_id 0xaa 0)

unfoldable pub make_refresh_status : ℕ → Option Header → Result CanError Frame
make_refresh_status send_id out =
    if not (valid_standard_id send_id) || not (valid_output out frame_size)
    then failed einval
    else done (addressed send_id 0xcc 0)

-- `register_id` is a uint8_t.
unfoldable pub make_register_query : ℕ → ℕ → Option Header → Result CanError Frame
make_register_query send_id register_id out =
    if not (valid_standard_id send_id) || not (valid_output out frame_size)
    then failed einval
    else done (addressed send_id 0x33 register_id)

-- `value_f32` is the bit pattern of the float; `value_f32 != 0.0f` is false for both zeros.
pub record RegisterWrite : Type 0 where
  pub struct_size : ℕ
  pub abi_version : ℕ
  pub send_id : ℕ
  pub reserved : ℕ
  pub register_id : ℕ
  pub value_type : ValueType
  pub value_u32 : ℕ
  pub value_f32 : ℕ

abbrev same_type : ValueType → ValueType → Bool
same_type u32 u32 = true
same_type f32 f32 = true
same_type _ _ = false

unfoldable pub write_frame : RegisterWrite → ℕ → Frame
write_frame w raw = record {
  can_id = 0x7ff;
  dlc = 8;
  bytes = record {
    b0 = w.send_id % 256;
    b1 = w.send_id / 256 % 256;
    b2 = 0x55;
    b3 = w.register_id % 256;
    b4 = raw % 256;
    b5 = raw / 2 ^ 8 % 256;
    b6 = raw / 2 ^ 16 % 256;
    b7 = raw / 2 ^ 24 % 256;
  };
}

unfoldable pub finish_write : RegisterWrite → ℕ → Option CanError → Result CanError Frame
finish_write w raw none = done (write_frame w raw)
finish_write w raw (some e) = failed e

unfoldable pub write_value : ValueType → RegisterWrite → Result CanError Frame
write_value u32 w =
    if not (key w.value_f32 == key zero_f)
    then failed einval
    else finish_write w w.value_u32 (validate_u32 w.register_id w.value_u32)
write_value f32 w =
    if nonzero w.value_u32
    then failed einval
    else finish_write w w.value_f32 (validate_f32 w.register_id w.value_f32)

unfoldable pub write_known : RegisterWrite → Option Metadata → Result CanError Frame
write_known w none = failed einval
write_known w (some m) =
    if not m.writable || not (same_type w.value_type m.value_type)
    then failed einval
    else write_value m.value_type w

-- The platform test oa_binary32_available is taken as passed.
unfoldable pub make_register_write : Option RegisterWrite → Option Header → Result CanError Frame
make_register_write none out = failed einval
make_register_write (some w) out =
    if not (valid_version w.struct_size register_write_size w.abi_version)
      || not (valid_standard_id w.send_id)
      || nonzero w.reserved
      || not (valid_output out frame_size)
    then failed einval
    else write_known w (register_metadata w.register_id)
