-- ===== src/Control/Motor.antt =====
-- DamiaoMotorSimulator of control/src/control_core.cpp: the plant, and the feedback frame that
-- carries its state.
pub mod Feedback
use open_arm_ik.Shared.{
  ℕ, zero, suc, ℤ, pos, negsuc, ◌+◌, ◌-◌, ◌*◌, ◌/◌, ◌%◌, ◌^◌, Bool, true, false, not, ◌&&◌, List,
  [], ◌∷◌, nonzero, if◌then◌else◌,
}
use open_arm_ik.Shared.Double.{Double, clamp}
use open_arm_ik.Control.Config.{MotorConfig}

pub record MeasuredMotor (D : Type 0) : Type 0 where
  pub raw_q : D
  pub raw_dq : D
  pub raw_tau : D
  pub status : ℕ
  pub mos_c : ℕ
  pub coil_c : ℕ
  pub t_ns : ℕ
  pub valid : Bool

-- `data` holds eight bytes.
pub record FeedbackFrame : Type 0 where
  pub data_bytes : List ℕ
  pub t_ns : ℕ

pub record Motor (D : Type 0) : Type 0 where
  pub config : MotorConfig D
  pub measured : MeasuredMotor D
  pub plant_raw_q : D
  pub plant_raw_dq : D
  pub command_raw_q : D
  pub command_raw_dq : D
  pub enabled : Bool
  pub blocked : Bool
  pub reaction_gain_nm_per_rad : D
  pub fault_status : ℕ

-- data[i]
abbrev pub byte : List ℕ → ℕ → ℕ
byte [] _ = 0
byte (x ∷ _) zero = x
byte (_ ∷ xs) (suc i) = byte xs i

-- static_cast<std::uint32_t>
abbrev pub to_u32 : ℤ → ℕ
to_u32 (pos n) = n % 2 ^ 32
to_u32 (negsuc n) = 2 ^ 32 - 1 - n % 2 ^ 32

-- The frame of these fields.
unfoldable pub frame_of : ℕ → ℕ → ℕ → ℕ → ℕ → ℕ → FeedbackFrame
frame_of status id q_field dq_field tau_field t_ns = record {
  data_bytes =
      ((status * 16 + id % 16) % 256)
      ∷ ((q_field / 256) % 256)
      ∷ (q_field % 256)
      ∷ ((dq_field / 16) % 256)
      ∷ ((dq_field % 16) * 16 + (tau_field / 256) % 16)
      ∷ (tau_field % 256)
      ∷ 25
      ∷ 25
      ∷ [];
  t_ns = t_ns;
}

-- The fields that publish reads from a frame.
unfoldable pub status_field : FeedbackFrame → ℕ
status_field f = byte f.data_bytes 0 / 16

unfoldable pub decoded_q : FeedbackFrame → ℕ
decoded_q f = byte f.data_bytes 1 * 256 + byte f.data_bytes 2

unfoldable pub decoded_dq : FeedbackFrame → ℕ
decoded_dq f = byte f.data_bytes 3 * 16 + byte f.data_bytes 4 / 16

unfoldable pub decoded_tau : FeedbackFrame → ℕ
decoded_tau f = (byte f.data_bytes 4 % 16) * 256 + byte f.data_bytes 5

-- The status nibble: the injected fault, or whether the motor is enabled.
unfoldable pub status_of : ℕ → Bool → ℕ
status_of fault_status enabled =
    if nonzero fault_status then fault_status else if enabled then 1 else 0

module _ {D : Type 0} ⦃d : Double D⦄ where
  unfoldable pub encode_field : D → D → ℕ → ℕ
  encode_field value span maximum =
      let unit = d.div (d.add (clamp value (d.neg span) span) span) (d.mul (d.of_nat 2) span) in
      to_u32 (d.llround (d.mul unit (d.of_nat maximum)))

  unfoldable pub decode_field : ℕ → D → ℕ → D
  decode_field value span maximum =
      d.sub (d.mul (d.div (d.of_nat value) (d.of_nat maximum)) (d.mul (d.of_nat 2) span)) span

  -- The constructor.
  unfoldable pub create : MotorConfig D → Motor D
  create config =
      let start = d.div (d.neg config.q_offset_rad) config.q_scale in
      record {
        config = config;
        measured = record {
          raw_q = d.nought;
          raw_dq = d.nought;
          raw_tau = d.nought;
          status = 0;
          mos_c = 25;
          coil_c = 25;
          t_ns = 0;
          valid = false;
        };
        plant_raw_q = start;
        plant_raw_dq = d.nought;
        command_raw_q = start;
        command_raw_dq = d.nought;
        enabled = false;
        blocked = false;
        reaction_gain_nm_per_rad = d.nought;
        fault_status = 0;
      }

  unfoldable pub set_enabled : Bool → Motor D → Motor D
  set_enabled on m = record m { enabled = on }

  unfoldable pub set_fault : ℕ → Motor D → Motor D
  set_fault status m = record m { fault_status = status }

  unfoldable pub command : D → D → Motor D → Motor D
  command q_model dq_model m = record m {
    command_raw_q = d.div (d.sub q_model m.config.q_offset_rad) m.config.q_scale;
    command_raw_dq = d.div dq_model m.config.q_scale;
  }

  unfoldable pub set_blocked : Bool → D → Motor D → Motor D
  set_blocked on gain m = record m {
    blocked = on;
    reaction_gain_nm_per_rad =
        if d.is_finite gain && d.lt d.nought gain
        then gain
        else d.div m.config.tmax_nm (d.literal 15 2);
  }

  -- plant_raw_q_ and plant_raw_dq_ become the command.
  unfoldable pub snapped : Bool → Motor D → Motor D
  snapped settled m =
      if settled then record m { plant_raw_q = m.command_raw_q; plant_raw_dq = d.nought } else m

  -- A step of the plant that is neither frozen nor blocked.
  unfoldable pub moved : D → Motor D → Motor D
  moved dt_s m =
      let max_velocity = m.config.max_velocity_rad_s in
      let max_acceleration = m.config.max_acceleration_rad_s2 in
      let position_error = d.sub m.command_raw_q m.plant_raw_q in
      let desired_velocity =
        clamp (d.add m.command_raw_dq (d.mul (d.of_nat 8) position_error)) (d.neg max_velocity)
          max_velocity in
      let acceleration =
        clamp (d.div (d.sub desired_velocity m.plant_raw_dq) (d.literal 8 2))
          (d.neg max_acceleration) max_acceleration in
      let dq =
        clamp (d.add m.plant_raw_dq (d.mul acceleration dt_s)) (d.neg max_velocity) max_velocity in
      let q = d.add m.plant_raw_q (d.mul dq dt_s) in
      let stepped : Motor D = record m { plant_raw_q = q; plant_raw_dq = dq } in
      let remaining_error = d.sub m.command_raw_q q in
      let at_rest = d.lt (d.abs m.command_raw_dq) d.nano in
      let crossed =
        snapped (d.lt (d.mul position_error remaining_error) d.nought && at_rest) stepped in
      snapped
        (d.lt (d.abs remaining_error) (d.literal 5 5)
          && at_rest
          && d.lt (d.abs crossed.plant_raw_dq) (d.literal 1 3))
        crossed

  unfoldable pub finite_or_nought : D → D
  finite_or_nought a = if not (d.is_finite a) then d.nought else a

  -- contact_tau_model_nm
  unfoldable pub contact_tau : Motor D → D
  contact_tau m =
      if m.blocked
      then finite_or_nought (
          d.mul m.reaction_gain_nm_per_rad
            (d.mul (d.sub m.command_raw_q m.plant_raw_q) m.config.q_scale))
      else d.nought

  unfoldable pub q_field : Motor D → ℕ
  q_field m = encode_field m.plant_raw_q m.config.pmax_rad 65535

  unfoldable pub dq_field : Motor D → ℕ
  dq_field m = encode_field m.plant_raw_dq m.config.vmax_rad_s 4095

  unfoldable pub tau_field : Motor D → ℕ
  tau_field m = encode_field (d.mul (contact_tau m) m.config.q_scale) m.config.tmax_nm 4095

  unfoldable pub capture : D → ℕ → Bool → Motor D → FeedbackFrame × Motor D
  capture dt_s capture_ns frozen m =
      let n = if not frozen && not m.blocked then moved dt_s m else m in
      (
        frame_of (status_of n.fault_status n.enabled) n.config.embedded_motor_id (q_field n)
            (dq_field n) (tau_field n) capture_ns,
        n,
      )

  unfoldable pub publish : FeedbackFrame → Motor D → Motor D
  publish frame m = record m {
    measured = record {
      raw_q = decode_field (decoded_q frame) m.config.pmax_rad 65535;
      raw_dq = decode_field (decoded_dq frame) m.config.vmax_rad_s 4095;
      raw_tau = decode_field (decoded_tau frame) m.config.tmax_nm 4095;
      status = status_field frame;
      mos_c = byte frame.data_bytes 6;
      coil_c = byte frame.data_bytes 7;
      t_ns = frame.t_ns;
      valid = true;
    };
  }

  unfoldable pub force_state : D → D → ℕ → Motor D → Motor D
  force_state q_model dq_model feedback_ns m =
      let q = d.div (d.sub q_model m.config.q_offset_rad) m.config.q_scale in
      let dq = d.div dq_model m.config.q_scale in
      let forced : Motor D = record m {
        plant_raw_q = q;
        plant_raw_dq = dq;
        command_raw_q = q;
        command_raw_dq = dq;
      } in
      let c = capture d.nought feedback_ns true forced in publish c.0 c.1

  unfoldable pub mapped_q : Motor D → D
  mapped_q m = d.add (d.mul m.config.q_scale m.measured.raw_q) m.config.q_offset_rad

  unfoldable pub mapped_dq : Motor D → D
  mapped_dq m = d.mul m.config.q_scale m.measured.raw_dq

  unfoldable pub mapped_tau : Motor D → D
  mapped_tau m = d.div m.measured.raw_tau m.config.q_scale
