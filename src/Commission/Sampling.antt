-- ===== src/Commission/Sampling.antt =====
-- SampleAccumulator and finite_sample of commission/src/calibration_session.cpp.
use open_arm_ik.Shared.{ℕ, ◌+◌, ◌%◌, ◌^◌, Bool, ◌&&◌, ◌==◌, if◌then◌else◌}
use open_arm_ik.Shared.Double.{Double, min, max}
use open_arm_ik.Commission.Records.{Sample}

pub record Accumulator (D : Type 0) : Type 0 where
  pub count : ℕ
  pub first_time_ns : ℕ
  pub sum : D
  pub minimum : D
  pub maximum : D

module _ {D : Type 0} ⦃d : Double D⦄ where
  unfoldable pub finite_sample : Sample D → Bool
  finite_sample s =
      d.is_finite s.q_output_rad
      && d.is_finite s.dq_output_rad_s
      && d.is_finite s.torque_output_nm
      && d.is_finite s.mos_temperature_c
      && d.is_finite s.coil_temperature_c

  -- `{}`
  unfoldable pub empty : Accumulator D
  empty = record {
    count = 0;
    first_time_ns = 0;
    sum = d.nought;
    minimum = d.nought;
    maximum = d.nought;
  }

  unfoldable pub reset : Sample D → Accumulator D
  reset s = record {
    count = 1;
    first_time_ns = s.sample_time_ns;
    sum = s.q_output_rad;
    minimum = s.q_output_rad;
    maximum = s.q_output_rad;
  }

  -- The count is a uint32_t.
  unfoldable pub add : Accumulator D → Sample D → Accumulator D
  add a s = if a.count == 0 then reset s else record a {
    count = (a.count + 1) % 2 ^ 32;
    sum = d.add a.sum s.q_output_rad;
    minimum = min a.minimum s.q_output_rad;
    maximum = max a.maximum s.q_output_rad;
  }

  unfoldable pub mean : Accumulator D → D
  mean a = if a.count == 0 then d.nought else d.div a.sum (d.of_nat a.count)

  unfoldable pub spread : Accumulator D → D
  spread a = if a.count == 0 then d.nought else d.sub a.maximum a.minimum
