-- ===== src/Transport/Classify/Built.antt =====
-- Every frame of a builder of can/src/openarm_can.c has its class.
use open_arm_ik.Shared.{ℕ, ◌^◌, ◌<◌, ◌≡◌, refl, true, some, arith, done, ◌≢◌, ◌↔◌}
use open_arm_ik.Can.Frame.{Frame, IsFrame, frames_equal_refl}
use open_arm_ik.Can.Registers.{ValueType, u32, f32, Metadata, register_metadata}
use open_arm_ik.Can.Builders.{
  RegisterWrite, make_special, make_enable, make_disable, make_set_zero, make_clear_error,
  make_save_parameters, make_refresh_status, make_register_query, make_register_write, valid_output,
}
use open_arm_ik.Can.Builders.Writes.{Carries, raw_value, canonical, make_register_write_inv}
use open_arm_ik.Transport.Status.{
  ok, FrameClass, register_query, status_query, disable, enable, motion, register_write, set_zero,
  clear_error, save_parameters, unknown,
}
use open_arm_ik.Transport.Classify.{
  classify, frame_class, broadcast_class, special_class, known_register, all_bytes,
  valid_register_write, writes, matches, read_write, frame_header,
}
use open_arm_ik.Transport.Classify.Meaning.{Meaning, IsTarget, classify-Meaning}

abbrev Has : FrameClass → Frame → Type 0
Has c f = classify f ≡ record { status = ok; out_class = some c }

special_inv :
    (id v : ℕ) (f : Frame)
    → make_special id v (some frame_header) ≡ done f
    → (f.can_id ≡ id) × (f.dlc ≡ 8) × (all_bytes f 0 7 0xff ≡ true) × (f.b7 ≡ v)
unfolding make_special valid_output all_bytes
special_inv id v f h = ground arith

special_Has :
    (id v : ℕ) (f : Frame)
    → IsTarget id
    → make_special id v (some frame_header) ≡ done f
    → Has (special_class v) f
unfolding classify frame_class
special_Has id v f t h = let (i, d, a, e) = special_inv id v f h in rw (← e) (ground arith)

query_Has :
    (id r : ℕ) (f : Frame)
    → IsTarget id
    → known_register r ≡ true
    → make_register_query id r (some frame_header) ≡ done f
    → Has register_query f
unfolding classify frame_class broadcast_class make_register_query valid_output all_bytes
query_Has id r f t k h = ground arith

refresh_Has :
    (id : ℕ) (f : Frame)
    → IsTarget id
    → make_refresh_status id (some frame_header) ≡ done f
    → Has status_query f
unfolding classify frame_class broadcast_class make_refresh_status valid_output all_bytes
refresh_Has id f t h = ground arith

save_Has :
    (id : ℕ) (f : Frame)
    → IsTarget id
    → make_save_parameters id (some frame_header) ≡ done f
    → Has save_parameters f
unfolding classify frame_class broadcast_class make_save_parameters valid_output all_bytes
save_Has id f t h = ground arith

read_write_lem :
    (f : Frame) (w : RegisterWrite) (t : ValueType)
    → Carries w (raw_value t w) f
    → read_write f t ≡ canonical t w
unfolding read_write
read_write_lem f w u32 c = ground arith
read_write_lem f w f32 c = ground arith

writes_of_make :
    (f : Frame) (m : Metadata)
    → m.writable ≡ true
    → make_register_write (some (read_write f m.value_type)) (some frame_header) ≡ done f
    → writes f (some m) ≡ true
unfolding writes matches
writes_of_make f m wr e = rw (wr, e) (frames_equal_refl f)

write_Has :
    (w : RegisterWrite) (f : Frame)
    → IsTarget w.send_id
    → w.value_u32 < 2 ^ 32
    → w.value_f32 < 2 ^ 32
    → make_register_write (some w) (some frame_header) ≡ done f
    → Has register_write f
unfolding classify frame_class broadcast_class valid_register_write
write_Has w f t a b e =
    let (m, k, wr, c, e') = make_register_write_inv w _ f (omega arith) a b e in
    let same : read_write f m.value_type ≡ canonical m.value_type w = read_write_lem f w _ c in
    let good : writes f (some m) ≡ true = writes_of_make f m wr (rw same e') in
    let known : register_metadata f.b3 ≡ some m = rw (c.4) k in
    let good' : writes f (register_metadata f.b3) ≡ true = rw known good in ground arith

-- Apart from `unknown`, a frame is classified as `c` exactly when the builder of `c` makes it for
-- some unicast motor: from a register that the codec knows in the case of a register query, which
-- its builder does not ask for, and from a write with values of 32 bits in the case of a register
-- write. No frame is classified as `motion`.
pub classify_iff :
    (f : Frame) (c : FrameClass)
    → IsFrame f
    → c ≢ unknown
    → (classify f ≡ record { status = ok; out_class = some c }) ↔ Meaning c f
unfolding special_class
classify_iff f c w u = (classify-Meaning f c w, built c u)
  where
    built : (c : FrameClass) → c ≢ unknown → Meaning c f → Has c f
    built enable u (id, t, e) = special_Has id 0xfc f t (unfold make_enable in e)
    built disable u (id, t, e) = special_Has id 0xfd f t (unfold make_disable in e)
    built set_zero u (id, t, e) = special_Has id 0xfe f t (unfold make_set_zero in e)
    built clear_error u (id, t, e) = special_Has id 0xfb f t (unfold make_clear_error in e)
    built save_parameters u (id, t, e) = save_Has id f t e
    built status_query u (id, t, e) = refresh_Has id f t e
    built register_query u (id, r, t, k, e) = query_Has id r f t k e
    built register_write u (w, t, a, b, e) = write_Has w f t a b e
    built motion u m = absurd m
    built unknown u m = absurd (u refl)
