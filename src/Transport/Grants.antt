-- ===== src/Transport/Grants.antt =====
-- The grants of a transport (transport/src/transport_internal.hpp): an unordered map from a token
-- to the exact frame that it allows, as an association list.
use open_arm_ik.Shared.{
  ℕ, ◌+◌, ◌≤◌, ◌≡◌, refl, Option, none, some, List, [], ◌∷◌, arith, ◌==◌, if◌then◌else◌,
}
use open_arm_ik.Can.Frame.{Frame, frames_equal}
use open_arm_ik.Transport.Status.{FrameClass}

pub record Grant : Type 0 where
  pub exact_frame : Frame
  pub frame_class : FrameClass
  pub expiry_ns : ℕ

abbrev pub Grants : Type 0
Grants = List (ℕ × Grant)

unfoldable pub find : ℕ → Grants → Option Grant
find t [] = none
find t ((k, g) ∷ gs) = if k == t then some g else find t gs

unfoldable pub erase : ℕ → Grants → Grants
erase t [] = []
erase t ((k, g) ∷ gs) = let rest = erase t gs in if k == t then rest else (k, g) ∷ rest

-- `emplace` keeps what is there under the key.
unfoldable pub emplace : ℕ → Grant → Grants → Grants
unfolding find
emplace t g gs = elim (find t gs) [ none ↦ (t, g) ∷ gs | some _ ↦ gs ]

-- How many grants allow a frame.
unfoldable pub allowing : Frame → Grants → ℕ
allowing f [] = 0
allowing f ((k, g) ∷ gs) = (if frames_equal g.exact_frame f then 1 else 0) + allowing f gs

pub find-erase :
    (t u : ℕ) (gs : Grants) → find u (erase t gs) ≡ (if t == u then none else find u gs)
unfolding find erase
find-erase t u [] = ground arith
find-erase t u ((k, g) ∷ gs) = ground (arith, find-erase t u gs)

pub erase_of_absent : (t : ℕ) (gs : Grants) → find t gs ≡ none → erase t gs ≡ gs
unfolding find erase
erase_of_absent t [] h = refl
erase_of_absent t ((k, g) ∷ gs) h = ground (arith, erase_of_absent t gs)

pub allowing-erase-le : (f : Frame) (t : ℕ) (gs : Grants) → allowing f (erase t gs) ≤ allowing f gs
unfolding allowing erase
allowing-erase-le f t [] = omega arith
allowing-erase-le f t ((k, g) ∷ gs) = ground (arith, allowing-erase-le f t gs)

-- To erase a grant that is found takes away at least what it allowed.
pub allowing-erase :
    (f : Frame) (t : ℕ) (gs : Grants) (g : Grant)
    → find t gs ≡ some g
    → (if frames_equal g.exact_frame f then 1 else 0) + allowing f (erase t gs) ≤ allowing f gs
unfolding allowing erase find
allowing-erase f t [] g h = cc
allowing-erase f t ((k, j) ∷ gs) g h =
    ground (arith, allowing-erase f t gs g, allowing-erase-le f t gs)

pub allowing-emplace :
    (f : Frame) (t : ℕ) (g : Grant) (gs : Grants)
    → find t gs ≡ none
    → allowing f (emplace t g gs) ≡ (if frames_equal g.exact_frame f then 1 else 0) + allowing f gs
unfolding allowing emplace
allowing-emplace f t g gs h = rw (h, emplace)

pub emplace_of_absent :
    (t : ℕ) (g : Grant) (gs : Grants) → find t gs ≡ none → emplace t g gs ≡ (t, g) ∷ gs
unfolding emplace
emplace_of_absent t g gs h = rw (h, emplace)

pub erase-emplace :
    (t : ℕ) (g : Grant) (gs : Grants) → find t gs ≡ none → erase t (emplace t g gs) ≡ gs
unfolding erase
erase-emplace t g gs h = rw (emplace_of_absent t g gs h) (ground (arith, erase_of_absent t gs h))
