-- ===== src/Control/Manifest/Passed.antt =====
-- What one motor shows that passes the checks of Manifest's constructor in
-- control/src/control_core.cpp.
use open_arm_ik.Shared.{ℕ, ◌≡◌, ◌||◌, Option, Result, done, if-both, option-both, arith}
use open_arm_ik.Shared.Double.{Double}
use open_arm_ik.Commission.Text.{c_string}
use open_arm_ik.Control.Config.{MotorConfig}
use open_arm_ik.Control.Manifest.Motor.{
  Refusal, bad_codes, bad_numbers, bad_texts, outside_model, profile_fault,
}
use open_arm_ik.Control.Manifest.Safe.{
  IsSafe, codes_lem, texts_lem, numbers_lem, profile_lem, within_lem,
}
use open_arm_ik.Control.Manifest.Load.{Seen, has_id, has_text, is_seen, insert, check_motor}
use open_arm_ik.Control.Manifest.Distinct.{Avoids, has_id-Avoids, has_text-Avoids}

module _ {D : Type 0} ⦃d : Double D⦄ where
  -- What a motor that passes shows, for the sets before it.
  pub record Passed (limits : Option (D × D)) (side joint : ℕ) (m : MotorConfig D) (s n : Seen)
      : Type 0 where
    pub safe : IsSafe limits side joint m
    pub new_send : Avoids m.send_id s.send_ids
    pub new_receive : Avoids m.receive_id s.receive_ids
    pub new_serial : Avoids (c_string m.serial) s.serials
    pub inserted : n ≡ insert m s

  pub check_motor-Passed :
      (limits : Option (D × D)) (side joint : ℕ) (m : MotorConfig D) (s n : Seen)
      → check_motor limits side joint m s ≡ done n
      → Passed limits side joint m s n
  unfolding check_motor is_seen
  check_motor-Passed limits side joint m s n =
      if-both P (bad_codes joint m || bad_texts side joint m || bad_numbers m) (λ e h. absurd (cc))
        (λ e.
          option-both P (profile_fault m)
            (λ e2.
              if-both P
                (outside_model limits m
                  || (has_id m.send_id s.send_ids
                      || has_id m.receive_id s.receive_ids
                      || has_text (c_string m.serial) s.serials))
                (λ e3 h. absurd (cc))
                (λ e3 h. record {
                  safe = record {
                    codes = codes_lem joint m (ground arith);
                    texts = texts_lem side joint m (ground arith);
                    numbers = numbers_lem m (ground arith);
                    profile = profile_lem m e2;
                    within = within_lem limits m (ground arith);
                  };
                  new_send = has_id-Avoids _ _ (ground arith);
                  new_receive = has_id-Avoids _ _ (ground arith);
                  new_serial = has_text-Avoids _ _ (ground arith);
                  inserted = cc;
                }))
            (λ r e2 h. absurd (cc)))
    where
      P : Result Refusal Seen → Type 0
      P r = r ≡ done n → Passed limits side joint m s n
