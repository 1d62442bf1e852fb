-- ===== src/Transport/Run/Conservation.antt =====
-- Each dangerous frame that reaches the backend spends one authority for exactly that frame.
use open_arm_ik.Shared.{
  ℕ, ◌+◌, ◌≤◌, ◌≡◌, refl, sym, ap, ◌∙◌, true, false, Option, none, some, List, [], ◌∷◌, arith,
  if◌then◌else◌, Bool-cases, inl, inr, ◌||◌,
}
use open_arm_ik.Can.Frame.{Frame, frames_equal, frames_equal_sound}
use open_arm_ik.Transport.Status.{
  Status, ok, is_ok, FrameClass, register_query, status_query, same_class, code,
}
use open_arm_ik.Transport.Classify.{classify, dangerous_class}
use open_arm_ik.Transport.Backend.{Backend, Recorded, recording}
use open_arm_ik.Transport.Grants.{
  Grant, Grants, find, allowing, allowing-erase, allowing-erase-le, allowing-emplace, erase-emplace,
}
use open_arm_ik.Transport.Core.{
  Authority, Transport, send, receive, close, create, consume_authority, spend, classed, timed,
  authorised, hand_over, listen,
}
use open_arm_ik.Transport.Issue.{
  Memory, Token, fresh, refused, store, settle, grant_at, classed_issue, issue_authority,
  draw_token,
}
use open_arm_ik.Transport.Issue.Draws.{draw_token-fresh}
use open_arm_ik.Transport.Random.{Draw}
use open_arm_ik.Transport.Run.{
  hands_out, after_issue, Call, sends, receives, issues, closes, occurrences, step, issued_by, run,
  issued,
}

-- The frame would change a motor's state.
abbrev pub IsDangerous : Frame → Type 0
IsDangerous f =
    (c : FrameClass) × (classify f ≡ record { status = ok; out_class = some c })
    × (dangerous_class c ≡ true)

spend_lem :
    (gs : Grants) (t : ℕ) (f g : Frame) (c : FrameClass) (now d : ℕ) (o : Option Grant)
    → find t gs ≡ o
    → let r = spend gs t g c now d o in
      (allowing f r.grants ≤ allowing f gs)
      × (is_ok r.status ≡ true
          → (if frames_equal g f then 1 else 0) + allowing f r.grants ≤ allowing f gs)
unfolding spend
spend_lem gs t f g c now d none h = ground arith
spend_lem gs t f g c now d (some j) h =
    ground (
      arith,
      allowing-erase f t gs j h,
      allowing-erase-le f t gs,
      frames_equal_sound j.exact_frame g,
    )

consume_lem :
    (n : ℕ × ℕ) (gs : Grants) (a : Option Authority) (f g : Frame) (c : FrameClass) (now d : ℕ)
    → let r = consume_authority n gs a g c now d in
      (allowing f r.grants ≤ allowing f gs)
      × (is_ok r.status ≡ true
          → (if frames_equal g f then 1 else 0) + allowing f r.grants ≤ allowing f gs)
unfolding consume_authority
consume_lem n gs none f g c now d = ground arith
consume_lem n gs (some a) f g c now d =
    ground (arith, spend_lem gs a.token_id f g c now d (find a.token_id gs) refl)

query_not_dangerous :
    (c : FrameClass)
    → (same_class c register_query || same_class c status_query) ≡ true
    → dangerous_class c ≡ false
unfolding same_class code dangerous_class
query_not_dangerous register_query h = refl
query_not_dangerous status_query h = refl
query_not_dangerous _ h = cc

module _ {S : Type 0} (b : Backend S) (f : Frame) (dangerous : IsDangerous f) where
  -- Frames that reached the backend, and grants that still stand.
  spent : Transport (Recorded S) → ℕ
  spent t = occurrences f t.backend.frames + allowing f t.grants

  -- A frame of another class is another frame.
  other_frame :
      (g : Frame) (c : FrameClass)
      → (classify g).out_class ≡ some c
      → dangerous_class c ≡ false
      → frames_equal g f ≡ false
  other_frame g c e n = elim (Bool-cases (frames_equal g f)) [
    | inl same ↦
        let e' : (classify f).out_class ≡ some c = rw (← frames_equal_sound g f same) e in
        let same_c : some c ≡ some dangerous.0 = sym e' ∙ ap (λ r. r.out_class) dangerous.1 in
        ground arith
    | inr d ↦ d
  ]

  authorised-spent :
      (t : Transport (Recorded S)) (g : Frame) (d : ℕ) (a : Option Authority) (c : FrameClass)
      (now : ℕ)
      → (classify g).out_class ≡ some c
      → spent (authorised (recording b) t g d a c now).next ≤ spent t
  unfolding authorised hand_over spent occurrences
  authorised-spent t g d a c now e = ground (
    arith,
    query_not_dangerous c,
    other_frame g c e,
    consume_lem t.instance_nonce t.grants a f g c now d,
  )

  classed-spent :
      (t : Transport (Recorded S)) (g : Frame) (d : ℕ) (a : Option Authority) (st : Status)
      (o : Option FrameClass)
      → (classify g).out_class ≡ o
      → spent (classed (recording b) t g d a st o).next ≤ spent t
  unfolding classed timed spent
  classed-spent t g d a st none e = ground arith
  classed-spent t g d a st (some c) e =
      let r = b.now t.backend.inner in
      let u : Transport (Recorded S) = record t {
        backend = record { inner = r.next; frames = t.backend.frames };
      } in
      ground (arith, authorised-spent u g d a c r.out e)

  send-spent :
      (t : Transport (Recorded S)) (g : Frame) (d : ℕ) (a : Option Authority)
      → spent (send (recording b) t g d a).next ≤ spent t
  unfolding send
  send-spent t g d a =
      ground (arith, classed-spent t g d a (classify g).status (classify g).out_class refl)

  receive-spent :
      (t : Transport (Recorded S)) (d : ℕ) → spent (receive (recording b) t d).next ≤ spent t
  unfolding receive listen spent
  receive-spent t d = ground arith

  close-spent : (t : Transport (Recorded S)) → spent (close (recording b) t) ≤ spent t
  unfolding close spent allowing
  close-spent t = ground arith

  -- What an issue hands out, it grants.
  store-spent :
      (t : Transport (Recorded S)) (m : Memory) (g : Grant) (token : ℕ)
      → find token t.grants ≡ none
      → spent (store t m g token).next
        ≤ spent t + hands_out f g.exact_frame (some (store t m g token))
  unfolding store spent hands_out
  store-spent t m g token h = ground (
    arith,
    allowing-emplace f token g t.grants h,
    ap (allowing f) (erase-emplace token g t.grants h),
  )

  settle-spent :
      (t : Transport (Recorded S)) (m : Memory) (g : Grant) (o : Option Token)
      → ((token : ℕ) → o ≡ some (fresh token) → find token t.grants ≡ none)
      → spent (after_issue t (settle t m g o))
        ≤ spent t + hands_out f g.exact_frame (settle t m g o)
  unfolding settle after_issue
  settle-spent t m g none h = omega arith
  settle-spent t m g (some (refused s)) h = omega arith
  settle-spent t m g (some (fresh token)) h = store-spent t m g token (h token refl)

  grant_at-spent :
      (t : Transport (Recorded S)) (m : Memory) (ds : List Draw) (g : Frame) (c : FrameClass)
      (e : ℕ)
      → let o = grant_at t m ds g c e ((recording b).now t.backend) in
        spent (after_issue t o) ≤ spent t + hands_out f g o
  unfolding grant_at spent after_issue hands_out
  grant_at-spent t m ds g c e =
      let r = b.now t.backend.inner in
      let u : Transport (Recorded S) = record t {
        backend = record { inner = r.next; frames = t.backend.frames };
      } in
      let k : Grant = record { exact_frame = g; frame_class = c; expiry_ns = e } in
      let rest =
        settle-spent u m k (draw_token t.grants ds) (λ v p. (draw_token-fresh t.grants ds v p).0) in
      ground (arith, rest)

  classed_issue-spent :
      (t : Transport (Recorded S)) (m : Memory) (ds : List Draw) (g : Frame) (e : ℕ) (st : Status)
      (c : Option FrameClass)
      → let o = classed_issue (recording b) t m ds g e st c in
        spent (after_issue t o) ≤ spent t + hands_out f g o
  unfolding classed_issue after_issue hands_out
  classed_issue-spent t m ds g e st none = omega arith
  classed_issue-spent t m ds g e st (some c) =
      let rest = grant_at-spent t m ds g c e in ground (arith, rest)

  issue-spent :
      (t : Transport (Recorded S)) (m : Memory) (ds : List Draw) (g : Frame) (e : ℕ)
      → let o = issue_authority (recording b) t m ds g e in
        spent (after_issue t o) ≤ spent t + hands_out f g o
  unfolding issue_authority after_issue hands_out
  issue-spent t m ds g e =
      let rest = classed_issue-spent t m ds g e (classify g).status (classify g).out_class in
      ground (arith, rest)

  step-spent :
      (t : Transport (Recorded S)) (c : Call)
      → spent (step (recording b) t c) ≤ spent t + issued_by (recording b) f t c
  unfolding step issued_by
  step-spent t (sends g d a) = omega (arith, send-spent t g d a)
  step-spent t (receives d) = omega (arith, receive-spent t d)
  step-spent t (issues m ds g e) = issue-spent t m ds g e
  step-spent t closes = omega (arith, close-spent t)

  run-spent :
      (t : Transport (Recorded S)) (cs : List Call)
      → spent (run (recording b) t cs) ≤ spent t + issued (recording b) f t cs
  unfolding run issued
  run-spent t [] = omega arith
  run-spent t (c ∷ cs) = omega (arith, step-spent t c, run-spent (step (recording b) t c) cs)

-- In any history of a new transport, a frame that would change a motor's state reaches the backend
-- at most as often as an authority for exactly that frame was handed out. A grant that still
-- stands counts as not yet spent.
pub dangerous_sends_bounded :
    {S : Type 0} (b : Backend S) (f : Frame)
    → IsDangerous f
    → (s : S) (nonce : ℕ × ℕ) (horizon : ℕ) (cs : List Call)
    → let start = create {S = Recorded S} (record { inner = s; frames = [] }) nonce horizon in
      let t = run (recording b) start cs in
      occurrences f t.backend.frames + allowing f t.grants ≤ issued (recording b) f start cs
unfolding spent create occurrences allowing
dangerous_sends_bounded {S} b f d s nonce horizon cs =
    let start : Transport (Recorded S) = create (record { inner = s; frames = [] }) nonce horizon in
    omega (arith, run-spent b f d start cs)
