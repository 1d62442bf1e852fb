-- ===== src/Can/Builders/Writes.antt =====
-- oa_can_make_register_write (can/src/openarm_can.c) run backwards.
use open_arm_ik.Shared.{
  ℕ, ◌+◌, ◌*◌, ◌^◌, ◌≤◌, ◌<◌, ◌≡◌, refl, true, Option, none, some, arith, done,
}
use open_arm_ik.Can.Frame.{Frame}
use open_arm_ik.Can.Registers.{ValueType, u32, f32, Metadata, register_metadata}
use open_arm_ik.Can.Builders.{
  Header, RegisterWrite, make_register_write, write_known, write_value, finish_write, write_frame,
  valid_output, register_write_size, can_abi_version, frame_size,
}

-- The record with the same meaning and nothing in the fields that are not read.
abbrev pub canonical : ValueType → RegisterWrite → RegisterWrite
canonical t w = record {
  struct_size = register_write_size;
  abi_version = can_abi_version;
  send_id = w.send_id;
  reserved = 0;
  register_id = w.register_id;
  value_type = t;
  value_u32 = elim t [ u32 ↦ w.value_u32 | f32 ↦ 0 ];
  value_f32 = elim t [ u32 ↦ 0 | f32 ↦ w.value_f32 ];
}

abbrev pub raw_value : ValueType → RegisterWrite → ℕ
raw_value u32 w = w.value_u32
raw_value f32 w = w.value_f32

abbrev pub header : Header
header = record { struct_size = frame_size; abi_version = can_abi_version }

write_value_inv :
    (t : ValueType) (w : RegisterWrite) (f : Frame)
    → write_value t w ≡ done f
    → (write_frame w (raw_value t w) ≡ f) × (write_value t (canonical t w) ≡ done f)
unfolding write_value finish_write write_frame
write_value_inv u32 w f h = (ground arith, ground arith)
write_value_inv f32 w f h = (ground arith, ground arith)

known_small : (r : ℕ) (m : Metadata) → register_metadata r ≡ some m → r < 256
unfolding register_metadata
known_small r m h = ground arith

-- The fields of the frame that a write is read back from.
abbrev pub Carries : RegisterWrite → ℕ → Frame → Type 0
Carries w raw f =
    (f.can_id ≡ 0x7ff)
    × (f.dlc ≡ 8)
    × (f.b2 ≡ 0x55)
    × (f.b0 + f.b1 * 2 ^ 8 ≡ w.send_id)
    × (f.b3 ≡ w.register_id)
    × (f.b4 + f.b5 * 2 ^ 8 + f.b6 * 2 ^ 16 + f.b7 * 2 ^ 24 ≡ raw)

frame_Carries :
    (w : RegisterWrite) (raw : ℕ)
    → w.send_id < 2 ^ 16
    → w.register_id < 256
    → raw < 2 ^ 32
    → Carries w raw (write_frame w raw)
unfolding write_frame
frame_Carries w raw a b c = omega arith

known_of_make :
    (w : RegisterWrite) (h : Option Header) (f : Frame)
    → make_register_write (some w) h ≡ done f
    → (0 < w.send_id)
      × (w.send_id ≤ 0x7ff)
      × (write_known w (register_metadata w.register_id) ≡ done f)
unfolding make_register_write
known_of_make w h f e = (ground arith, ground arith, ground arith)

write_known_inv :
    (w : RegisterWrite) (f : Frame) (o : Option Metadata)
    → write_known w o ≡ done f
    → (m : Metadata) × (o ≡ some m) × (m.writable ≡ true) × (write_value m.value_type w ≡ done f)
unfolding write_known
write_known_inv w f none h = cc
write_known_inv w f (some m) h = (m, refl, ground arith, ground arith)

canonical_make :
    (w : RegisterWrite) (f : Frame) (m : Metadata)
    → 0 < w.send_id
    → w.send_id ≤ 0x7ff
    → register_metadata w.register_id ≡ some m
    → m.writable ≡ true
    → (t : ValueType) → m.value_type ≡ t
    → write_value t (canonical t w) ≡ done f
    → make_register_write (some (canonical t w)) (some header) ≡ done f
unfolding make_register_write write_known valid_output
canonical_make w f m p q k wr u32 t e = ground arith
canonical_make w f m p q k wr f32 t e = ground arith

-- A register write that is built, from a request whose fields have their widths, is of a register
-- that the table knows and that is writable; the frame carries the motor, the register and the
-- value as Carries says, and the request that states just these builds the same frame.
pub make_register_write_inv :
    (w : RegisterWrite) (h : Option Header) (f : Frame)
    → w.send_id < 2 ^ 16
    → w.value_u32 < 2 ^ 32
    → w.value_f32 < 2 ^ 32
    → make_register_write (some w) h ≡ done f
    → (m : Metadata) × (register_metadata w.register_id ≡ some m)
      × (m.writable ≡ true)
      × Carries w (raw_value m.value_type w) f
      × (make_register_write (some (canonical m.value_type w)) (some header) ≡ done f)
make_register_write_inv w h f a b c e =
    let (p, q, k) = known_of_make w h f e in
    let (m, r, wr, v) = write_known_inv w f _ k in
    let (g, v') = write_value_inv m.value_type w f v in
    (
      m,
      r,
      wr,
      rw (← g) (frame_Carries w _ a (known_small _ m r) (fits m.value_type)),
      canonical_make w f m p q r wr m.value_type refl v',
    )
  where
    fits : (t : ValueType) → raw_value t w < 2 ^ 32
    fits u32 = b
    fits f32 = c
