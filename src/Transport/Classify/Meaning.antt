-- ===== src/Transport/Classify/Meaning.antt =====
-- What a frame class stands for, in terms of the frame builders of can/src/openarm_can.c.
use open_arm_ik.Shared.{
  ℕ, ◌^◌, ◌≤◌, ◌<◌, ◌≡◌, true, ◌&&◌, ap, Option, none, some, arith, ◌==◌, ==_iff, Bool-cases, inl,
  inr, Result, done, failed,
}
use open_arm_ik.Can.Frame.{Frame, IsFrame, frames_equal_sound}
use open_arm_ik.Can.Registers.{CanError, ValueType, u32, f32, Metadata, register_metadata}
use open_arm_ik.Can.Builders.{
  Header, RegisterWrite, make_special, make_enable, make_disable, make_set_zero, make_clear_error,
  make_save_parameters, make_refresh_status, make_register_query, make_register_write, valid_output,
}
use open_arm_ik.Transport.Status.{
  ok, FrameClass, register_query, status_query, disable, enable, motion, register_write, set_zero,
  clear_error, save_parameters, unknown,
}
use open_arm_ik.Transport.Classify.{
  classify, frame_class, broadcast_class, special_class, known_register, all_bytes,
  valid_register_write, writes, matches, read_write, frame_header, target_id, valid_motor_target,
}

-- A unicast identifier; 0x7ff is the broadcast.
abbrev pub IsTarget : ℕ → Type 0
IsTarget id = (0 < id) × (id < 0x7ff)

abbrev BuiltBy : (ℕ → Option Header → Result CanError Frame) → Frame → Type 0
BuiltBy make f = (id : ℕ) × IsTarget id × (make id (some frame_header) ≡ done f)

-- The builder that makes exactly this frame, for a motor; `unknown` says nothing.
abbrev pub Meaning : FrameClass → Frame → Type 0
Meaning enable f = BuiltBy make_enable f
Meaning disable f = BuiltBy make_disable f
Meaning set_zero f = BuiltBy make_set_zero f
Meaning clear_error f = BuiltBy make_clear_error f
Meaning save_parameters f = BuiltBy make_save_parameters f
Meaning status_query f = BuiltBy make_refresh_status f
Meaning register_query f =
    (id : ℕ) × (r : ℕ) × IsTarget id
    × (known_register r ≡ true)
    × (make_register_query id r (some frame_header) ≡ done f)
Meaning register_write f =
    (w : RegisterWrite) × IsTarget w.send_id
    × (w.value_u32 < 2 ^ 32)
    × (w.value_f32 < 2 ^ 32)
    × (make_register_write (some w) (some frame_header) ≡ done f)
Meaning motion f = ⊥
Meaning unknown f = Unit {0}

special_lem :
    (f : Frame)
    → f.dlc ≡ 8
    → f.can_id ≤ 0x7ff
    → 0 < f.can_id
    → all_bytes f 0 7 0xff ≡ true
    → make_special f.can_id f.b7 (some frame_header) ≡ done f
unfolding make_special all_bytes valid_output
special_lem f d i p a = ground arith

special_class-Meaning :
    (f : Frame)
    → f.dlc ≡ 8
    → IsTarget f.can_id
    → all_bytes f 0 7 0xff ≡ true
    → Meaning (special_class f.b7) f
unfolding special_class make_enable make_disable make_set_zero make_clear_error
special_class-Meaning f d t a = elim (Bool-cases (f.b7 == 0xfc)) [
  | inl e ↦ rw (e, special_class) (f.can_id, t, byte_lem 0xfc e)
  | inr n1 ↦ elim (Bool-cases (f.b7 == 0xfd)) [
    | inl e ↦ rw (n1, e, special_class) (f.can_id, t, byte_lem 0xfd e)
    | inr n2 ↦ elim (Bool-cases (f.b7 == 0xfe)) [
      | inl e ↦ rw (n1, n2, e, special_class) (f.can_id, t, byte_lem 0xfe e)
      | inr n3 ↦ elim (Bool-cases (f.b7 == 0xfb)) [
        | inl e ↦ rw (n1, n2, n3, e, special_class) (f.can_id, t, byte_lem 0xfb e)
        | inr n4 ↦ rw (n1, n2, n3, n4, special_class) tt
      ]
    ]
  ]
]
  where
    byte_lem : (v : ℕ) → (f.b7 == v) ≡ true → make_special f.can_id v (some frame_header) ≡ done f
    byte_lem v e = rw (← ((==_iff f.b7 v).0 e)) (special_lem f d (omega arith) t.0 a)

addressed_lem :
    (f : Frame)
    → IsFrame f
    → f.dlc ≡ 8
    → f.can_id ≡ 0x7ff
    → IsTarget (target_id f)
    → (all_bytes f 4 4 0 ≡ true
        → f.b2 ≡ 0x33
        → make_register_query (target_id f) f.b3 (some frame_header) ≡ done f)
      × (all_bytes f 3 5 0 ≡ true
          → f.b2 ≡ 0xcc
          → make_refresh_status (target_id f) (some frame_header) ≡ done f)
      × (all_bytes f 3 5 0 ≡ true
          → f.b2 ≡ 0xaa
          → make_save_parameters (target_id f) (some frame_header) ≡ done f)
unfolding all_bytes make_register_query make_refresh_status make_save_parameters valid_output
addressed_lem f w d i t = (λ a c. ground arith, λ a c. ground arith, λ a c. ground arith)

matches_lem : (f : Frame) (r : Result CanError Frame) → matches f r ≡ true → r ≡ done f
unfolding matches
matches_lem f (failed e) h = cc
matches_lem f (done g) h = ap done (frames_equal_sound g f h)

writes_lem :
    (f : Frame) (o : Option Metadata)
    → writes f o ≡ true
    → (v : ValueType) × (make_register_write (some (read_write f v)) (some frame_header) ≡ done f)
unfolding writes
writes_lem f none h = cc
writes_lem f (some m) h = (m.value_type, matches_lem f _ (ground arith))

read_write_fits :
    (f : Frame) (v : ValueType)
    → IsFrame f
    → ((read_write f v).value_u32 < 2 ^ 32) × ((read_write f v).value_f32 < 2 ^ 32)
unfolding read_write
read_write_fits f u32 w = omega arith
read_write_fits f f32 w = omega arith

register_write_lem :
    (f : Frame) → IsFrame f → valid_register_write f ≡ true → Meaning register_write f
unfolding valid_register_write read_write
register_write_lem f w h =
    let (v, e) = writes_lem f (register_metadata f.b3) (ground arith) in
    let (a, b) = read_write_fits f v w in (read_write f v, (ground arith, ground arith), a, b, e)

broadcast_class-Meaning :
    (f : Frame) → IsFrame f → f.dlc ≡ 8 → f.can_id ≡ 0x7ff → Meaning (broadcast_class f) f
unfolding broadcast_class
broadcast_class-Meaning f w d i =
    elim (Bool-cases (
      f.b2 == 0x33
      && valid_motor_target (target_id f)
      && known_register f.b3
      && all_bytes f 4 4 0)) [
        | inl e ↦
            rw (e, broadcast_class)
              (
                target_id f,
                f.b3,
                (ground arith, ground arith),
                ground arith,
                (addressed_lem f w d i (ground arith, ground arith)).0 (ground arith)
                    (ground arith),
              )
        | inr n1 ↦
            elim (Bool-cases
              (f.b2 == 0xcc && valid_motor_target (target_id f) && all_bytes f 3 5 0)) [
                | inl e ↦
                    rw (n1, e, broadcast_class)
                      (
                        target_id f,
                        (ground arith, ground arith),
                        (addressed_lem f w d i (ground arith, ground arith)).1 (ground arith)
                            (ground arith),
                      )
                | inr n2 ↦ elim (Bool-cases (f.b2 == 0x55 && valid_register_write f)) [
                  | inl e ↦ rw (n1, n2, e, broadcast_class) (register_write_lem f w (ground arith))
                  | inr n3 ↦
                      elim (Bool-cases
                        (f.b2 == 0xaa && valid_motor_target (target_id f) && all_bytes f 3 5 0)) [
                          | inl e ↦
                              rw (n1, n2, n3, e, broadcast_class)
                                (
                                  target_id f,
                                  (ground arith, ground arith),
                                  (addressed_lem f w d i (ground arith, ground arith)).2
                                      (ground arith) (ground arith),
                                )
                          | inr n4 ↦ rw (n1, n2, n3, n4, broadcast_class) tt
                        ]
                ]
              ]
      ]

frame_class-Meaning :
    (f : Frame) → IsFrame f → f.dlc ≡ 8 → f.can_id ≤ 0x7ff → Meaning (frame_class f) f
unfolding frame_class
frame_class-Meaning f w d i = elim (Bool-cases (f.can_id == 0)) [
  | inl e ↦ rw (e, frame_class) tt
  | inr n1 ↦ elim (Bool-cases (f.can_id == 0x7ff)) [
    | inl e ↦ rw (n1, e, frame_class) (broadcast_class-Meaning f w d (ground arith))
    | inr n2 ↦ elim (Bool-cases (all_bytes f 0 7 0xff)) [
      | inl a ↦
          rw (n1, n2, a, frame_class) (special_class-Meaning f d (ground arith, ground arith) a)
      | inr n3 ↦ rw (n1, n2, n3, frame_class) tt
    ]
  ]
]

classify_ok :
    (f : Frame) (c : FrameClass)
    → classify f ≡ record { status = ok; out_class = some c }
    → (f.dlc ≡ 8) × (f.can_id ≤ 0x7ff) × (frame_class f ≡ c)
unfolding classify
classify_ok f c h = (ground arith, ground arith, ground arith)

-- A frame that is given a class is exactly the frame that the builder of that class makes for some
-- motor (for a register write from some write that the builder accepts); no frame is `motion`.
pub classify-Meaning :
    (f : Frame) (c : FrameClass)
    → IsFrame f
    → classify f ≡ record { status = ok; out_class = some c }
    → Meaning c f
classify-Meaning f c w h =
    let (d, i, e) = classify_ok f c h in rw e at (frame_class-Meaning f w d i)
