-- ===== src/Control/Motor/Feedback.antt =====
-- What a feedback frame says of the motor that sent it.
use open_arm_ik.Shared.{
  ℕ, ◌%◌, ◌<◌, ◌≡◌, ◌≢◌, ◌⊎◌, refl, Bool, arith, if-both, if◌then◌else◌, not, ◌&&◌,
}
use open_arm_ik.Shared.Double.{Double}
use open_arm_ik.Control.Motor.{
  Motor, frame_of, status_field, decoded_q, decoded_dq, decoded_tau, status_of, decode_field,
  q_field, dq_field, tau_field, capture, publish, snapped, moved,
}

frame_fields :
    (s i q w t ns : ℕ)
    → let f = frame_of s i q w t ns in
      (status_field f ≡ s % 16)
      × (decoded_q f ≡ q % 65536)
      × (decoded_dq f ≡ w % 4096)
      × (decoded_tau f ≡ t % 4096)
unfolding frame_of status_field decoded_q decoded_dq decoded_tau
frame_fields s i q w t ns = (omega arith, omega arith, omega arith, omega arith)

frame-time : (s i q w t ns : ℕ) → (frame_of s i q w t ns).t_ns ≡ ns
unfolding frame_of
frame-time s i q w t ns = refl

module _ {D : Type 0} ⦃d : Double D⦄ where
  -- The members that no step of the plant changes.
  record Still (m n : Motor D) : Type 0 where
    same_fault : n.fault_status ≡ m.fault_status
    same_enabled : n.enabled ≡ m.enabled
    same_config : n.config ≡ m.config

  snapped-Still : (b : Bool) (m n : Motor D) → Still m n → Still m (snapped b n)
  unfolding snapped
  snapped-Still b m n k =
      if-both (Still m) b
        (λ e. record {
          same_fault = k.same_fault;
          same_enabled = k.same_enabled;
          same_config = k.same_config;
        })
        (λ e. k)

  moved-Still : (dt : D) (m : Motor D) → Still m (moved dt m)
  unfolding moved
  moved-Still dt m =
      snapped-Still _ m _ (
        snapped-Still _ m _ (record { same_fault = refl; same_enabled = refl; same_config = refl }))

  capture-Still :
      (dt : D) (ns : ℕ) (frozen : Bool) (m : Motor D) → Still m (capture dt ns frozen m).1
  unfolding capture
  capture-Still dt ns frozen m =
      if-both (Still m) (not frozen && not m.blocked) (λ e. moved-Still dt m)
        (λ e. record { same_fault = refl; same_enabled = refl; same_config = refl })

  capture-frame :
      (dt : D) (ns : ℕ) (frozen : Bool) (m : Motor D)
      → let n = (capture dt ns frozen m).1 in
        (capture dt ns frozen m).0
        ≡ frame_of
            (status_of n.fault_status n.enabled)
            n.config.embedded_motor_id
            (q_field n)
            (dq_field n)
            (tau_field n)
            ns
  unfolding capture
  capture-frame dt ns frozen m = refl

status_lem :
    {D : Type 0} (m : Motor D) (fault : ℕ) (enabled : Bool)
    → fault ≡ m.fault_status
    → enabled ≡ m.enabled
    → m.fault_status < 16
    → (x : ℕ) → x ≡ status_of fault enabled % 16
    → ((m.fault_status ≢ 0) × (x ≡ m.fault_status))
      ⊎ ((m.fault_status ≡ 0) × (x ≡ (if m.enabled then 1 else 0)))
unfolding status_of
status_lem m fault enabled f e h x s = ground arith

-- What a motor measures after it publishes the frame that it captured: the fault that was injected,
-- which is below 16, or else 1 if it is enabled and 0 if not; the position in the 16 bits and the
-- velocity and torque in the 12 bits that they were encoded in; the time of the capture.
pub publish-capture :
    {D : Type 0} ⦃d : Double D⦄ (m : Motor D) (dt : D) (ns : ℕ) (frozen : Bool)
    → m.fault_status < 16
    → let c = capture dt ns frozen m in
      let x = (publish c.0 c.1).measured in
      (((m.fault_status ≢ 0) × (x.status ≡ m.fault_status))
        ⊎ ((m.fault_status ≡ 0) × (x.status ≡ (if m.enabled then 1 else 0))))
      × (x.raw_q ≡ decode_field (q_field c.1 % 65536) m.config.pmax_rad 65535)
      × (x.raw_dq ≡ decode_field (dq_field c.1 % 4096) m.config.vmax_rad_s 4095)
      × (x.raw_tau ≡ decode_field (tau_field c.1 % 4096) m.config.tmax_nm 4095)
      × (x.t_ns ≡ ns)
unfolding publish
publish-capture m dt ns frozen h =
    let n = (capture dt ns frozen m).1 in
    let k = capture-Still dt ns frozen m in
    let f =
      frame_fields (status_of n.fault_status n.enabled) n.config.embedded_motor_id (q_field n)
        (dq_field n) (tau_field n) ns in
    let e = capture-frame dt ns frozen m in
    (
      status_lem m n.fault_status n.enabled k.same_fault k.same_enabled h _ (rw e f.0),
      rw (e, f.1, k.same_config) refl,
      rw (e, f.2, k.same_config) refl,
      rw (e, f.3, k.same_config) refl,
      rw e (frame-time _ _ _ _ _ ns),
    )
