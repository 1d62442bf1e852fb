-- ===== src/Transport/Run/Closed.antt =====
-- After close.
use open_arm_ik.Shared.{ℕ, ◌≡◌, true, Option, none, some, List, [], ◌∷◌, arith}
use open_arm_ik.Can.Frame.{Frame}
use open_arm_ik.Transport.Status.{eclosed}
use open_arm_ik.Transport.Backend.{Backend, Recorded, recording}
use open_arm_ik.Transport.Core.{Authority, Transport, send, receive, close}
use open_arm_ik.Transport.Random.{Draw}
use open_arm_ik.Transport.Issue.{Memory, issue_authority}
use open_arm_ik.Transport.Run.{Call, sends, receives, issues, closes, step, run}

-- Closed, with no grant left and the backend's log as given.
record IsClosed {S : Type 0} (log : List Frame) (t : Transport (Recorded S)) : Type 0 where
  pub flag : t.closed ≡ true
  pub no_grants : t.grants ≡ []
  pub same_log : t.backend.frames ≡ log

module _ {S : Type 0} (b : Backend S) (log : List Frame) where
  step-IsClosed :
      (t : Transport (Recorded S)) (c : Call)
      → IsClosed log t
      → IsClosed log (step (recording b) t c)
  unfolding step send receive issue_authority close
  step-IsClosed t (sends f d a) h = ground arith
  step-IsClosed t (receives d) h = ground arith
  step-IsClosed t (issues m ds f e) h = ground arith
  step-IsClosed t closes h = ground arith

  run-IsClosed :
      (t : Transport (Recorded S)) (cs : List Call)
      → IsClosed log t
      → IsClosed log (run (recording b) t cs)
  unfolding run
  run-IsClosed t [] h = h
  run-IsClosed t (c ∷ cs) h = run-IsClosed (step (recording b) t c) cs (step-IsClosed t c h)

-- Once a transport is closed it stays closed whatever is called: no frame reaches the backend any
-- more, every send and every receive reports ECLOSED, and no authority is issued.
pub closed_for_good :
    {S : Type 0} (b : Backend S) (t : Transport (Recorded S)) (cs : List Call)
    → let u = run (recording b) (close (recording b) t) cs in
      (u.backend.frames ≡ t.backend.frames)
      × (u.grants ≡ [])
      × ((f : Frame) (d : ℕ) (a : Option Authority) → (send (recording b) u f d a).status ≡ eclosed)
      × ((d : ℕ) → (receive (recording b) u d).status ≡ eclosed)
      × ((m : Memory) (ds : List Draw) (f : Frame) (e : ℕ)
          → issue_authority (recording b) u m ds f e
            ≡ some (record { status = eclosed; out_authority = none; next = u }))
unfolding close send receive issue_authority
closed_for_good b t cs =
    let start : IsClosed t.backend.frames (close (recording b) t) = ground arith in
    let h = run-IsClosed b t.backend.frames (close (recording b) t) cs start in
    let shut = h.flag in
    (
      h.same_log,
      h.no_grants,
      λ f d a. ground (arith, shut),
      λ d. ground (arith, shut),
      λ m ds f e. ground (arith, shut),
    )
