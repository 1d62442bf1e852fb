-- ===== src/Transport/Core/Deadline.antt =====
-- What has passed when a frame is handed to the backend: send of transport/src/transport.cpp.
use open_arm_ik.Shared.{
  ℕ, ◌+◌, ◌≤◌, ◌<◌, ◌≡◌, ◌≢◌, ◌⊎◌, inl, inr, refl, true, false, ◌||◌, Option, none, some, ◌∷◌,
  arith, Bool-cases,
}
use open_arm_ik.Can.Frame.{Frame}
use open_arm_ik.Transport.Status.{
  Status, ok, is_ok, FrameClass, register_query, status_query, motion, unknown, same_class, code,
}
use open_arm_ik.Transport.Classify.{classify}
use open_arm_ik.Transport.Backend.{Backend, Recorded, recording}
use open_arm_ik.Transport.Core.Consume.{Covers, consume_authority_iff}
use open_arm_ik.Transport.Core.{
  Authority, Transport, validate_deadline, consume_authority, send, classed, timed, authorised,
  hand_over,
}

deadline_of_ok :
    (horizon deadline now : ℕ)
    → is_ok (validate_deadline horizon deadline now) ≡ true
    → (now < deadline) × (deadline ≤ now + horizon)
unfolding validate_deadline
deadline_of_ok horizon deadline now h = ground arith

-- The conditions of a send, the clock's reading included.
pub record IsAllowed {S : Type 0} (b : Backend S) (t : Transport S) (f : Frame) (deadline : ℕ)
    (a : Option Authority) (c : FrameClass) : Type 0 where
  pub still_open : t.closed ≡ false
  pub class_of_frame : (classify f).out_class ≡ some c
  pub not_unknown : c ≢ unknown
  pub not_motion : c ≢ motion
  pub clock_ok : is_ok (b.now t.backend).status ≡ true
  pub ahead : (b.now t.backend).out < deadline
  pub within : deadline ≤ (b.now t.backend).out + t.max_deadline_horizon_ns
  pub authority :
      (((c ≡ register_query) ⊎ (c ≡ status_query)) × (a ≡ none))
      ⊎ Covers t.instance_nonce t.grants f c (b.now t.backend).out deadline a

query_of_test :
    (c : FrameClass)
    → (same_class c register_query || same_class c status_query) ≡ true
    → (c ≡ register_query) ⊎ (c ≡ status_query)
unfolding same_class code
query_of_test register_query h = inl refl
query_of_test status_query h = inr refl
query_of_test _ h = cc

ok_of_test : (s : Status) → is_ok s ≡ true → s ≡ ok
ok_of_test ok h = refl
ok_of_test _ h = cc

sendable :
    (c : FrameClass)
    → (same_class c unknown || same_class c motion) ≡ false
    → (c ≢ unknown) × (c ≢ motion)
unfolding same_class code
sendable c h = (λ e. ground arith, λ e. ground arith)

module _ {S : Type 0} (b : Backend S) (t : Transport (Recorded S)) (f : Frame) (d : ℕ)
    (a : Option Authority) where
  abbrev AuthorityOk : FrameClass → ℕ → Type 0
  AuthorityOk c now =
      (((c ≡ register_query) ⊎ (c ≡ status_query)) × (a ≡ none))
      ⊎ Covers t.instance_nonce t.grants f c now d a

  authorised_log :
      (c : FrameClass) (now : ℕ) (s : Recorded S)
      → s.frames ≡ t.backend.frames
      → let u = (authorised (recording b) (record t { backend = s }) f d a c now).next in
        (u.backend.frames ≡ t.backend.frames)
        ⊎ ((u.backend.frames ≡ f ∷ t.backend.frames) × AuthorityOk c now)
  unfolding authorised hand_over
  authorised_log c now s e =
      let consumed = consume_authority t.instance_nonce t.grants a f c now d in
      let covered : is_ok consumed.status ≡ true → Covers t.instance_nonce t.grants f c now d a =
        λ h. (consume_authority_iff t.instance_nonce t.grants a f c now d).0 (ok_of_test _ h) in
      ground (arith, query_of_test c, covered)

  classed_log :
      (st : Status) (o : Option FrameClass)
      → t.closed ≡ false
      → (classify f).out_class ≡ o
      → let u = (classed (recording b) t f d a st o).next in
        (u.backend.frames ≡ t.backend.frames)
        ⊎ ((u.backend.frames ≡ f ∷ t.backend.frames)
            × ((c : FrameClass) × IsAllowed (recording b) t f d a c))
  unfolding classed timed
  classed_log st none n k = inl refl
  classed_log st (some c) n k =
      let r = (recording b).now t.backend in
      elim (Bool-cases (same_class c unknown || same_class c motion)) [
        | inl bad ↦ rw bad (inl refl)
        | inr good ↦ elim (Bool-cases (is_ok (b.now t.backend.inner).status)) [
          | inr bad ↦ rw (good, bad) (inl refl)
          | inl clock ↦
              elim (Bool-cases (is_ok (validate_deadline t.max_deadline_horizon_ns d r.out))) [
                | inr bad ↦ rw (good, clock, bad) (inl refl)
                | inl fits ↦
                    let reach = deadline_of_ok t.max_deadline_horizon_ns d r.out fits in
                    rw (good, clock, fits)
                      (elim (authorised_log c r.out r.next refl) [
                        | inl same ↦ inl same
                        | inr sent ↦ inr (
                          sent.0,
                          (
                            c,
                            record {
                              still_open = n;
                              class_of_frame = k;
                              not_unknown = (sendable c good).0;
                              not_motion = (sendable c good).1;
                              clock_ok = clock;
                              ahead = reach.0;
                              within = reach.1;
                              authority = sent.1;
                            },
                          ),
                        )
                      ])
              ]
        ]
      ]

  send_open :
      t.closed ≡ false
      → send (recording b) t f d a
        ≡ classed (recording b) t f d a (classify f).status (classify f).out_class
  unfolding send
  send_open h = ground arith

  send_shut : t.closed ≡ true → (send (recording b) t f d a).next.backend.frames ≡ t.backend.frames
  unfolding send
  send_shut h = ground arith

  -- A send hands no frame to the backend, or just the given one; the latter only on an open
  -- transport, for a frame of a known class that is not motion, with a deadline ahead of the clock
  -- and within the horizon, and with no authority for a query or one that covers any other frame.
  pub send_log :
      let u = (send (recording b) t f d a).next in
      (u.backend.frames ≡ t.backend.frames)
      ⊎ ((u.backend.frames ≡ f ∷ t.backend.frames)
          × ((c : FrameClass) × IsAllowed (recording b) t f d a c))
  send_log = elim (Bool-cases t.closed) [
    | inl shut ↦ inl (send_shut shut)
    | inr free ↦
        rw (send_open free) (classed_log (classify f).status (classify f).out_class free refl)
  ]
