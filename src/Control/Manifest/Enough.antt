-- ===== src/Control/Manifest/Enough.antt =====
-- What is known of an accepted motor is enough for the checks of Manifest's constructor in
-- control/src/control_core.cpp.
use open_arm_ik.Shared.{
  ℕ, ℤ, pos, negsuc, ◌+◌, ◌≡◌, ◌≢◌, ◌⊎◌, inl, inr, refl, true, false, ◌||◌, Option, none, List, [],
  ◌∷◌, arith, done, same_int, Bool-cases,
}
use open_arm_ik.Shared.Double.{Double}
use open_arm_ik.Commission.Text.{c_string}
use open_arm_ik.Control.Config.{MotorConfig}
use open_arm_ik.Control.Manifest.Motor.{
  bad_codes, bad_numbers, bad_texts, outside_model, profile_fault, same_text,
}
use open_arm_ik.Control.Manifest.Load.{
  Seen, has_id, has_text, is_seen, insert, check_motor, check_motors,
}
use open_arm_ik.Control.Manifest.Distinct.{Avoids, AreNew, earlier, same_text_refl}
use open_arm_ik.Control.Manifest.Safe.{
  HasCodes, HasTexts, HasNumbers, HasProfile, IsWithin, IsSafe, same_text_sound,
}
use open_arm_ik.Control.Manifest.Accepted.{AreSafe, send_ids, receive_ids, serials}

id_of_Avoids : (a : ℕ) (bs : List ℕ) → Avoids a bs → has_id a bs ≡ false
unfolding has_id
id_of_Avoids a [] h = refl
id_of_Avoids a (b ∷ bs) (h, hs) = let e = id_of_Avoids a bs hs in ground arith

pub text_of_differs : (s t : List ℕ) → s ≢ t → same_text s t ≡ false
text_of_differs s t h = elim (Bool-cases (same_text s t)) [
  | inl e ↦ absurd (h (same_text_sound s t e))
  | inr e ↦ e
]

text_of_Avoids : (s : List ℕ) (ts : List (List ℕ)) → Avoids s ts → has_text s ts ≡ false
unfolding has_text
text_of_Avoids s [] h = refl
text_of_Avoids s (t ∷ ts) (h, hs) = rw (text_of_differs s t h, text_of_Avoids s ts hs) refl

direction_back :
    (a : ℤ) → (a ≡ negsuc 0) ⊎ (a ≡ pos 1) → (same_int a (negsuc 0) || same_int a (pos 1)) ≡ true
direction_back a (inl e) = rw e refl
direction_back a (inr e) = rw e refl

module _ {D : Type 0} ⦃d : Double D⦄ where
  codes_back : (joint : ℕ) (m : MotorConfig D) → HasCodes joint m → bad_codes joint m ≡ false
  unfolding bad_codes
  codes_back joint m h =
      let (a, b) = h.versioned in
      let (e, f) = h.sends in
      let (g, i) = h.receives in
      let (j, k) = h.timed in
      let (l, n, o) = h.released in rw (b, h.indexed, h.typed, h.controlled) (ground arith)

  texts_back :
      (side joint : ℕ) (m : MotorConfig D) → HasTexts side joint m → bad_texts side joint m ≡ false
  unfolding bad_texts
  texts_back side joint m h =
      rw
        (
          h.serial_ends,
          h.serial_given,
          h.name_ends,
          h.named,
          same_text_refl (c_string m.joint_name),
        )
        refl

  numbers_back : (m : MotorConfig D) → HasNumbers m → bad_numbers m ≡ false
  unfolding bad_numbers
  numbers_back m h =
      rw
        (
          h.ordered,
          h.scaled.0,
          h.scaled.1,
          h.offset_finite,
          h.lower_finite,
          h.upper_finite,
          h.velocity.0,
          h.velocity.1,
          h.acceleration.0,
          h.acceleration.1,
          h.jerk.0,
          h.jerk.1,
          direction_back m.direction h.directed,
        )
        refl

  profile_back : (m : MotorConfig D) → HasProfile m → profile_fault m ≡ none
  profile_back m h =
      rw
        (
          profile_fault, h.of_spans, h.position_near, h.speed_near, h.torque_near, h.of_gear,
          h.gear_near,
        )
        refl

  within_back :
      (limits : Option (D × D)) (m : MotorConfig D)
      → IsWithin limits m
      → outside_model limits m ≡ false
  unfolding outside_model
  within_back limits m h =
      rw
        (
          h.of_limits, h.lower_within, h.upper_within, h.offset_within.0, h.offset_within.1,
          h.lower_raw, h.upper_raw,
        )
        refl

  unseen :
      (m : MotorConfig D) (s : Seen)
      → Avoids m.send_id s.send_ids
      → Avoids m.receive_id s.receive_ids
      → Avoids (c_string m.serial) s.serials
      → is_seen m s ≡ false
  unfolding is_seen
  unseen m s a b c = rw (id_of_Avoids _ _ a, id_of_Avoids _ _ b, text_of_Avoids _ _ c) refl

  check_motor_done :
      (limits : Option (D × D)) (side joint : ℕ) (m : MotorConfig D) (s : Seen)
      → IsSafe limits side joint m
      → is_seen m s ≡ false
      → check_motor limits side joint m s ≡ done (insert m s)
  unfolding check_motor
  check_motor_done limits side joint m s h e =
      rw
        (
          codes_back joint m h.codes,
          texts_back side joint m h.texts,
          numbers_back m h.numbers,
          profile_back m h.profile,
          within_back limits m h.within,
          e,
        )
        refl

  pub check_motors_done :
      (limit : ℕ → ℕ → Option (D × D)) (side joint : ℕ) (ms : List (MotorConfig D)) (s : Seen)
      → AreSafe (limit side) side joint ms
      → AreNew s.send_ids (send_ids ms)
      → AreNew s.receive_ids (receive_ids ms)
      → AreNew s.serials (serials ms)
      → (n : Seen) × (check_motors limit side joint ms s ≡ done n)
        × (n.serials ≡ earlier s.serials (serials ms))
  unfolding check_motors
  check_motors_done limit side joint [] s h a b c = (s, refl, refl)
  check_motors_done limit side joint (m ∷ ms) s (h, hs) (a, as1) (b, bs) (c, cs) =
      let (n, e, k) = check_motors_done limit side (joint + 1) ms (insert m s) hs as1 bs cs in
      (
        n,
        rw (check_motors, check_motor_done (limit side joint) side joint m s h (unseen m s a b c))
            e,
        k,
      )
