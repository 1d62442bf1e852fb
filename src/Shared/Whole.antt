-- ===== src/Shared/Whole.antt =====
-- Whole numbers in place of doubles, for the tests.
use open_arm_ik.Shared.{
  ℕ, ℤ, pos, negsuc, ◌+◌, ◌-◌, ◌*◌, ◌/◌, ◌^◌, Bool, true, false, not, ltb, if◌then◌else◌, same_int,
}
use open_arm_ik.Shared.Double.{Double}

abbrev minus : ℕ → ℕ → ℤ
minus a b = if ltb a b then negsuc (b - a - 1) else pos (a - b)

abbrev neg_int : ℤ → ℤ
neg_int (pos a) = minus 0 a
neg_int (negsuc a) = pos (a + 1)

abbrev add_int : ℤ → ℤ → ℤ
add_int (pos a) (pos b) = pos (a + b)
add_int (pos a) (negsuc b) = minus a (b + 1)
add_int (negsuc a) (pos b) = minus b (a + 1)
add_int (negsuc a) (negsuc b) = negsuc (a + b + 1)

abbrev mul_int : ℤ → ℤ → ℤ
mul_int (pos a) (pos b) = pos (a * b)
mul_int (pos a) (negsuc b) = minus 0 (a * (b + 1))
mul_int (negsuc a) (pos b) = minus 0 ((a + 1) * b)
mul_int (negsuc a) (negsuc b) = pos ((a + 1) * (b + 1))

abbrev size_int : ℤ → ℕ
size_int (pos a) = a
size_int (negsuc a) = a + 1

abbrev lt_int : ℤ → ℤ → Bool
lt_int (pos a) (pos b) = ltb a b
lt_int (pos a) (negsuc b) = false
lt_int (negsuc a) (pos b) = true
lt_int (negsuc a) (negsuc b) = ltb b a

-- A quotient is that of the sizes; it is used of positive numbers.
instance abbrev pub whole_numbers : Double ℤ
whole_numbers = record {
  is_finite = λ a. true;
  lt = lt_int;
  le = λ a b. not (lt_int b a);
  eq = same_int;
  add = add_int;
  sub = λ a b. add_int a (neg_int b);
  mul = mul_int;
  div = λ a b. pos (size_int a / size_int b);
  neg = neg_int;
  abs = λ a. pos (size_int a);
  of_nat = pos;
  of_int = λ a. a;
  nought = pos 0;
  one = pos 1;
  half = pos 0;
  nano = pos 0;
  micro = pos 0;
  pico = pos 0;
  literal = λ a b. pos (a / 10 ^ b);
  sqrt = λ a. a;
  cbrt = λ a. a;
  llround = λ a. a;
  ceil_giga = λ a. 1000000000 * size_int a;
  minus_infinity = negsuc 999999999;
  quiet_nan = pos 0;
}
