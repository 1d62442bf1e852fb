-- ===== src/Can/Binary32.antt =====
-- The binary32 values of a register write, as the bit patterns that the frame carries. The order
-- of finite values is the order of sign and magnitude, so the comparisons of
-- oa_validate_register_f32 (can/src/openarm_can.c) are exact.
use open_arm_ik.Shared.{ℕ, ◌+◌, ◌-◌, ◌%◌, ◌^◌, Bool, ltb, leb, if◌then◌else◌}

-- Sign and magnitude on one line; both zeros are 2^31.
abbrev pub key : ℕ → ℕ
key raw = if ltb raw (2 ^ 31) then 2 ^ 31 + raw else 2 ^ 31 - (raw - 2 ^ 31)

-- isfinite: the exponent is not all ones.
abbrev pub is_finite : ℕ → Bool
is_finite raw = ltb (raw % 2 ^ 31) 0x7f80_0000

-- `<` and `<=` between finite values.
abbrev pub lt : ℕ → ℕ → Bool
lt a b = ltb (key a) (key b)

abbrev pub le : ℕ → ℕ → Bool
le a b = leb (key a) (key b)

-- The constants that the bounds are stated with.
abbrev pub zero_f : ℕ
zero_f = 0

abbrev pub one_f : ℕ
one_f = 0x3f80_0000

abbrev pub ten_f : ℕ
ten_f = 0x4120_0000

abbrev pub thirty_f : ℕ
thirty_f = 0x41f0_0000

abbrev pub eighty_f : ℕ
eighty_f = 0x42a0_0000

abbrev pub hundred_f : ℕ
hundred_f = 0x42c8_0000

abbrev pub two_hundred_f : ℕ
two_hundred_f = 0x4348_0000

abbrev pub five_hundred_f : ℕ
five_hundred_f = 0x43fa_0000

abbrev pub ten_thousand_f : ℕ
ten_thousand_f = 0x461c_4000
