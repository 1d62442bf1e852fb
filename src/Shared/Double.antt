-- ===== src/Shared/Double.antt =====
-- What the sessions and the controller do with `double`. The type and its operations are a
-- parameter; which laws a theorem needs, it says.
use open_arm_ik.Shared.{ℕ, ℤ, Bool, if◌then◌else◌}

-- `lt` and `le` are `<` and `<=`; `a > b` is `b < a` and `a >= b` is `b <= a`.
pub record Double (D : Type 0) : Type 0 where
  pub is_finite : D → Bool
  pub lt : D → D → Bool
  pub le : D → D → Bool
  pub eq : D → D → Bool
  pub add : D → D → D
  pub sub : D → D → D
  pub mul : D → D → D
  pub div : D → D → D
  pub neg : D → D
  pub abs : D → D
  pub of_nat : ℕ → D
  pub of_int : ℤ → D
  pub nought : D
  pub one : D
  pub half : D
  -- 1.0e-9, 1.0e-6 and 1.0e-12
  pub nano : D
  pub micro : D
  pub pico : D
  -- `literal a b` is the constant a / 10^b of the source.
  pub literal : ℕ → ℕ → D
  pub sqrt : D → D
  pub cbrt : D → D
  -- std::llround, and std::ceil of 1.0e9L times the argument as a long double.
  pub llround : D → ℤ
  pub ceil_giga : D → ℕ
  pub minus_infinity : D
  pub quiet_nan : D

module _ {D : Type 0} ⦃d : Double D⦄ where
  -- std::min(a, b) and std::max(a, b).
  abbrev pub min : D → D → D
  min a b = if d.lt b a then b else a

  abbrev pub max : D → D → D
  max a b = if d.lt a b then b else a

  -- std::clamp(a, low, high).
  abbrev pub clamp : D → D → D → D
  clamp a low high = if d.lt a low then low else if d.lt high a then high else a
