-- ===== src/Control/Manifest/Constructor.antt =====
-- Which configurations Manifest's constructor of control/src/control_core.cpp refuses.
use open_arm_ik.Shared.{
  ℕ, ◌≡◌, ◌↔◌, refl, sym, false, Option, none, List, [], ◌∷◌, ◌++◌, done, arith,
}
use mathlib.Core.Path.{subst}
use open_arm_ik.Shared.Double.{Double}
use open_arm_ik.Control.Config.{ArmConfig, ManifestConfig}
use open_arm_ik.Control.Manifest.Load.{
  Seen, check_arm, refusal, bad_arm_record, bad_manifest_record,
}
use open_arm_ik.Control.Manifest.Distinct.{AreNew, earlier}
use open_arm_ik.Control.Manifest.Accepted.{IsSafeArm, IsAccepted, serials, refusal-IsAccepted}
use open_arm_ik.Control.Manifest.Enough.{check_motors_done, text_of_differs}

new_of_append {ℓ} :
    {A : Type ℓ} (seen xs bs : List A)
    → AreNew seen (xs ++ bs)
    → AreNew seen xs × AreNew (earlier seen xs) bs
new_of_append seen [] bs h = (tt, h)
new_of_append seen (a ∷ xs) bs (h, hs) =
    let (k, l) = new_of_append (a ∷ seen) xs bs hs in ((h, k), l)

module _ {D : Type 0} ⦃d : Double D⦄ where
  arm_record_back :
      (limit : ℕ → Option (D × D)) (side : ℕ) (a : ArmConfig D)
      → IsSafeArm limit side a
      → bad_arm_record a ≡ false
  unfolding bad_arm_record
  arm_record_back limit side a h =
      let (v, w) = h.versioned in rw (w, h.bus_ends, h.bus_given) (ground arith)

  check_arm_done :
      (limit : ℕ → ℕ → Option (D × D)) (side : ℕ) (a : ArmConfig D) (ts : List (List ℕ))
      → IsSafeArm (limit side) side a
      → AreNew ts (serials a.motor)
      → (n : Seen) × (check_arm limit side a ts ≡ done n)
        × (n.serials ≡ earlier ts (serials a.motor))
  unfolding check_arm
  check_arm_done limit side a ts h k =
      let (n, e, l) =
        check_motors_done limit side 0 a.motor
          (record { send_ids = []; receive_ids = []; serials = ts }) h.motors h.sends_differ
          h.receives_differ k in
      (n, rw (arm_record_back (limit side) side a h) e, l)

  manifest_record_back :
      (limit : ℕ → ℕ → Option (D × D)) (m : ManifestConfig D)
      → IsAccepted limit m
      → bad_manifest_record m ≡ false
  unfolding bad_manifest_record
  manifest_record_back limit m h =
      let (v, w) = h.versioned in let (r, q) = h.revised in rw w (ground arith)

  IsAccepted-refusal :
      (limit : ℕ → ℕ → Option (D × D)) (m : ManifestConfig D)
      → IsAccepted limit m
      → refusal limit m ≡ none
  unfolding refusal
  IsAccepted-refusal limit m h =
      let (a, b) =
        new_of_append [] (serials m.arm.of_left.motor) (serials m.arm.of_right.motor)
          h.serials_differ in
      let (s, e, k) = check_arm_done limit 0 m.arm.of_left [] h.left_arm a in
      let (t, f, l) =
        check_arm_done limit 1 m.arm.of_right s.serials h.right_arm
          (subst (λ ts. AreNew ts (serials m.arm.of_right.motor)) (sym k) b) in
      rw (refusal, manifest_record_back limit m h, e, f, text_of_differs _ _ h.buses_differ) refl

  -- The constructor lets a configuration pass exactly when it is accepted in this sense: its
  -- records have at least the sizes and exactly the version of the code, its revisions are not 0,
  -- and its texts end within their arrays. The buses of the two arms have names that are not empty
  -- and differ. In each arm no two motors share a send or a receive identifier, and in both no two
  -- share a serial. Every motor has the index, the type and the name of its joint, send and receive
  -- identifiers from 1 to 2047, an embedded identifier of at most 15, the control mode 1, a bitrate,
  -- a timeout and versions that are not 0, a serial that is not empty, the direction 1 or -1, a
  -- finite scale, offset, lower and upper limit, and finite maxima of velocity, acceleration and
  -- jerk; no comparison finds the size of its scale more than 1.0e-12 away from 1, its upper limit
  -- at or below the lower one or a maximum at or below 0. The model has limits for it, and no
  -- comparison finds its own limits more than 1.0e-12 outside these, its spans or its gear more than
  -- 1.0e-12 away from those of its type, its offset beyond its position span or a raw limit more
  -- than 1.0e-12 beyond it. That no comparison finds a value outside does not say that it is inside:
  -- the spans, the gear and the model's limits are not said to be finite.
  pub refusal_iff :
      (limit : ℕ → ℕ → Option (D × D)) (m : ManifestConfig D)
      → (refusal limit m ≡ none) ↔ IsAccepted limit m
  refusal_iff limit m = (refusal-IsAccepted limit m, IsAccepted-refusal limit m)
