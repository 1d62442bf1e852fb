-- ===== src/Can/Registers.antt =====
-- The motor's registers: can/src/openarm_can.c, oa_register_metadata and the value checks.
use open_arm_ik.Shared.{ℕ, Bool, ◌&&◌, ◌||◌, not, Option, none, some, ltb, leb, ◌==◌, if◌then◌else◌}
use open_arm_ik.Can.Binary32.{
  is_finite, lt, le, zero_f, one_f, ten_f, thirty_f, eighty_f, hundred_f, two_hundred_f,
  five_hundred_f, ten_thousand_f,
}

-- oa_can_status, as far as the builders return it.
pub data CanError : Type 0 where
  einval erange : CanError

pub data ValueType : Type 0 where
  u32 f32 : ValueType

pub record Metadata : Type 0 where
  pub value_type : ValueType
  pub writable : Bool

-- `none` is a register that is not known. The bounds are the numbers of the OA_CAN_RID names.
unfoldable pub register_metadata : ℕ → Option Metadata
register_metadata r =
    let known = leb r 36 || (leb 50 r && leb r 55) || (leb 80 r && leb r 81) in
    let integral = (leb 7 r && leb r 10) || (leb 13 r && leb r 16) || r == 35 || r == 36 in
    if not known
    then none
    else some (record {
      value_type = if integral then u32 else f32;
      writable = leb r 10 || (leb 21 r && leb r 35);
    })

-- `none` is OA_CAN_OK.
unfoldable pub validate_u32 : ℕ → ℕ → Option CanError
validate_u32 r v =
    if (r == 7 || r == 8) && ltb 0x7ff v
    then some erange
    else if r == 10 && (ltb v 1 || ltb 4 v)
    then some erange
    else if r == 35 && ltb 9 v
    then some erange
    else none

out_of_range : ℕ → ℕ → Bool
out_of_range r v =
    (r == 0 && le v ten_f)
    || (r == 1 && lt v zero_f)
    || (r == 2 && (lt v eighty_f || le two_hundred_f v))
    || (r == 3 && (le v zero_f || le one_f v))
    || (r == 4 && le v zero_f)
    || (r == 5 && le zero_f v)
    || (r == 6 && le v zero_f)
    || ((r == 21 || r == 22 || r == 23) && le v zero_f)
    || (r == 24 && (lt v hundred_f || lt ten_thousand_f v))
    || (leb 25 r && leb r 28 && lt v zero_f)
    || (r == 30 && (le v zero_f || lt one_f v))
    || (r == 31 && (lt v one_f || lt thirty_f v))
    || (r == 32 && (le v zero_f || le five_hundred_f v))
    || (r == 33 && (lt v hundred_f || lt ten_thousand_f v))
    || (r == 34 && (le v zero_f || lt ten_thousand_f v))

-- The value is the bit pattern of the float.
unfoldable pub validate_f32 : ℕ → ℕ → Option CanError
unfolding out_of_range
validate_f32 r v =
    if not (is_finite v) then some einval else if out_of_range r v then some erange else none
