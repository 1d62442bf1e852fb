-- ===== src/Transport/Run.antt =====
-- Histories of a transport: any sequence of its calls, over any backend.
pub mod Conservation
pub mod Closed
use open_arm_ik.Shared.{ℕ, ◌+◌, Bool, Option, none, some, List, [], ◌∷◌, ◌&&◌, if◌then◌else◌}
use open_arm_ik.Can.Frame.{Frame, frames_equal}
use open_arm_ik.Transport.Status.{Status, is_ok}
use open_arm_ik.Transport.Backend.{Backend}
use open_arm_ik.Transport.Core.{Authority, Transport, send, receive, close}
use open_arm_ik.Transport.Random.{Draw}
use open_arm_ik.Transport.Issue.{Memory, Issued, issue_authority}

-- The arguments of a call.
pub data Call : Type 0 where
  sends : Frame → ℕ → Option Authority → Call
  receives : ℕ → Call
  issues : Memory → List Draw → Frame → ℕ → Call
  closes : Call

-- How often a frame stands in a list.
unfoldable pub occurrences : Frame → List Frame → ℕ
occurrences f [] = 0
occurrences f (g ∷ gs) = (if frames_equal g f then 1 else 0) + occurrences f gs

-- An authority for the frame that was handed out.
unfoldable pub hands_out : {S : Type 0} → Frame → Frame → Option (Issued S) → ℕ
hands_out f g none = 0
hands_out f g (some i) = if is_ok i.status && frames_equal g f then 1 else 0

unfoldable pub after_issue : {S : Type 0} → Transport S → Option (Issued S) → Transport S
after_issue t none = t
after_issue t (some i) = i.next

module _ {S : Type 0} (b : Backend S) where
  unfoldable pub step : Transport S → Call → Transport S
  unfolding after_issue
  step t (sends f d a) = (send b t f d a).next
  step t (receives d) = (receive b t d).next
  step t (issues m ds f e) = after_issue t (issue_authority b t m ds f e)
  step t closes = close b t

  unfoldable pub issued_by : Frame → Transport S → Call → ℕ
  unfolding hands_out
  issued_by f t (issues m ds g e) = hands_out f g (issue_authority b t m ds g e)
  issued_by f t _ = 0

  unfoldable pub run : Transport S → List Call → Transport S
  run t [] = t
  run t (c ∷ cs) = run (step t c) cs

  -- How many authorities for the frame a history hands out.
  unfoldable pub issued : Frame → Transport S → List Call → ℕ
  issued f t [] = 0
  issued f t (c ∷ cs) = issued_by f t c + issued f (step t c) cs
