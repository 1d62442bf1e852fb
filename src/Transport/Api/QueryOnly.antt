-- ===== src/Transport/Api/QueryOnly.antt =====
-- "Public handles are permanently query-only" (transport/include/openarm_transport.h).
use open_arm_ik.Shared.{
  ℕ, ◌≡◌, ◌⊎◌, refl, true, ◌||◌, Option, none, some, List, [], ◌∷◌, inl, inr, arith, ap, ◌∙◌,
  Bool-cases,
}
use open_arm_ik.Can.Frame.{Frame}
use open_arm_ik.Transport.Status.{
  Status, FrameClass, register_query, status_query, same_class, code,
}
use open_arm_ik.Transport.Classify.{classify}
use open_arm_ik.Transport.Backend.{Backend, Recorded, recording}
use open_arm_ik.Transport.Core.{
  Transport, create, send, classed, timed, authorised, hand_over, consume_authority, receive,
  listen, close,
}
use open_arm_ik.Transport.Api.{Header, PublicFrame, api_send, api_receive, api_close, send_valid}

-- What a client of the public functions can do with an open handle.
pub data Call : Type 0 where
  sends : Option PublicFrame → ℕ → Option Header → Call
  receives : ℕ → Option Header → Call
  closes : Call

-- The handle that a call leaves; it is lost in none.
abbrev or_same : {S : Type 0} → Transport S → Option (Transport S) → Transport S
or_same t none = t
or_same t (some u) = u

module _ {S : Type 0} (b : Backend S) where
  unfoldable pub step : Transport S → Call → Transport S
  step t (sends f d h) = or_same t (api_send b (some t) f d h).next
  step t (receives d h) = or_same t (api_receive b (some t) d h).next
  step t closes = or_same t (api_close b (some t)).1

  unfoldable pub run : Transport S → List Call → Transport S
  run t [] = t
  run t (c ∷ cs) = run (step t c) cs

abbrev pub IsQuery : Frame → Type 0
IsQuery f =
    ((classify f).out_class ≡ some register_query) ⊎ ((classify f).out_class ≡ some status_query)

abbrev pub AllQueries : List Frame → Type 0
AllQueries [] = Unit {0}
AllQueries (f ∷ fs) = IsQuery f × AllQueries fs

query_of_test :
    (c : FrameClass)
    → (same_class c register_query || same_class c status_query) ≡ true
    → (c ≡ register_query) ⊎ (c ≡ status_query)
unfolding same_class code
query_of_test register_query h = inl refl
query_of_test status_query h = inr refl
query_of_test _ h = cc

module _ {S : Type 0} (b : Backend S) where
  abbrev Quiet : Transport (Recorded S) → Type 0
  Quiet t = AllQueries t.backend.frames

  authorised-Quiet :
      (t : Transport (Recorded S)) (f : Frame) (d : ℕ) (c : FrameClass) (now : ℕ)
      → (classify f).out_class ≡ some c
      → Quiet t
      → Quiet (authorised (recording b) t f d none c now).next
  unfolding authorised hand_over consume_authority
  authorised-Quiet t f d c now e q =
      elim (Bool-cases (same_class c register_query || same_class c status_query)) [
        | inl h ↦
            rw (h, authorised)
              (elim (query_of_test c h) [
                | inl p ↦ (inl (e ∙ ap some p), q)
                | inr p ↦ (inr (e ∙ ap some p), q)
              ])
        | inr h ↦ rw (h, authorised) q
      ]

  classed-Quiet :
      (t : Transport (Recorded S)) (f : Frame) (d : ℕ) (st : Status) (o : Option FrameClass)
      → (classify f).out_class ≡ o
      → Quiet t
      → Quiet (classed (recording b) t f d none st o).next
  unfolding classed timed
  classed-Quiet t f d st none e q = q
  classed-Quiet t f d st (some c) e q =
      let r = b.now t.backend.inner in
      let u : Transport (Recorded S) = record t {
        backend = record { inner = r.next; frames = t.backend.frames };
      } in
      ground (arith, authorised-Quiet u f d c r.out e q, q)

  send-Quiet :
      (t : Transport (Recorded S)) (f : Frame) (d : ℕ)
      → Quiet t
      → Quiet (send (recording b) t f d none).next
  unfolding send
  send-Quiet t f d q =
      ground (arith, classed-Quiet t f d (classify f).status (classify f).out_class refl q, q)

  step-Quiet : (t : Transport (Recorded S)) (c : Call) → Quiet t → Quiet (step (recording b) t c)
  unfolding step api_send send_valid api_receive api_close receive listen close
  step-Quiet t (sends f d none) q = q
  step-Quiet t (sends none d (some h)) q = ground (arith, q)
  step-Quiet t (sends (some f) d (some h)) q = ground (arith, q, send-Quiet t f.payload d q)
  step-Quiet t (receives d none) q = q
  step-Quiet t (receives d (some h)) q = ground (arith, q)
  step-Quiet t closes q = q

  run-Quiet :
      (t : Transport (Recorded S)) (cs : List Call) → Quiet t → Quiet (run (recording b) t cs)
  unfolding run
  run-Quiet t [] q = q
  run-Quiet t (c ∷ cs) q = run-Quiet (step (recording b) t c) cs (step-Quiet t c q)

-- Whatever a client does with a new public handle, only register queries and status queries reach
-- the backend.
pub public_query_only :
    {S : Type 0} (b : Backend S) (s : S) (nonce : ℕ × ℕ) (horizon : ℕ) (cs : List Call)
    → let start = create {S = Recorded S} (record { inner = s; frames = [] }) nonce horizon in
      AllQueries (run (recording b) start cs).backend.frames
unfolding create
public_query_only {S} b s nonce horizon cs =
    run-Quiet b (create {S = Recorded S} (record { inner = s; frames = [] }) nonce horizon) cs tt
