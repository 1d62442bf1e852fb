-- ===== src/Can/Frame.antt =====
-- struct Frame of transport/src/transport_internal.hpp, which is the payload of oa_can_frame
-- (can/include/openarm_can.h). The eight bytes of `data` are the fields of `Bytes`.
use open_arm_ik.Shared.{ℕ, zero, suc, ◌^◌, ◌<◌, ◌≡◌, Bool, true, ◌&&◌, ◌==◌, arith}

pub record Bytes : Type 0 where
  pub b0 : ℕ
  pub b1 : ℕ
  pub b2 : ℕ
  pub b3 : ℕ
  pub b4 : ℕ
  pub b5 : ℕ
  pub b6 : ℕ
  pub b7 : ℕ

pub record Frame : Type 0 where
  pub can_id : ℕ
  pub dlc : ℕ
  pub bytes : Bytes
  pub open bytes use *

-- The widths of the fields: uint32_t, uint8_t and eight uint8_t.
pub record IsFrame (f : Frame) : Type 0 where
  pub id_fits : f.can_id < 2 ^ 32
  pub dlc_fits : f.dlc < 256
  pub b0_fits : f.b0 < 256
  pub b1_fits : f.b1 < 256
  pub b2_fits : f.b2 < 256
  pub b3_fits : f.b3 < 256
  pub b4_fits : f.b4 < 256
  pub b5_fits : f.b5 < 256
  pub b6_fits : f.b6 < 256
  pub b7_fits : f.b7 < 256

-- `frame.data[index]`; every index that the code uses is below 8.
abbrev pub byte_at : Frame → ℕ → ℕ
byte_at f zero = f.b0
byte_at f (suc zero) = f.b1
byte_at f (suc (suc zero)) = f.b2
byte_at f (suc (suc (suc zero))) = f.b3
byte_at f (suc (suc (suc (suc zero)))) = f.b4
byte_at f (suc (suc (suc (suc (suc zero))))) = f.b5
byte_at f (suc (suc (suc (suc (suc (suc zero)))))) = f.b6
byte_at f (suc (suc (suc (suc (suc (suc (suc i))))))) = f.b7

-- can_id, dlc and memcmp of the eight bytes.
unfoldable pub frames_equal : Frame → Frame → Bool
frames_equal l r =
    l.can_id == r.can_id
    && l.dlc == r.dlc
    && (l.b0 == r.b0
        && l.b1 == r.b1
        && l.b2 == r.b2
        && l.b3 == r.b3
        && l.b4 == r.b4
        && l.b5 == r.b5
        && l.b6 == r.b6
        && l.b7 == r.b7)

pub frames_equal_sound : (l r : Frame) → frames_equal l r ≡ true → l ≡ r
unfolding frames_equal
frames_equal_sound l r h = ground arith

pub frames_equal_refl : (f : Frame) → frames_equal f f ≡ true
unfolding frames_equal
frames_equal_refl f = ground arith
