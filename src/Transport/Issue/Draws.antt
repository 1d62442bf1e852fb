-- ===== src/Transport/Issue/Draws.antt =====
-- The drawing of a token in issueAuthority (transport/src/transport.cpp).
use open_arm_ik.Shared.{
  ℕ, ◌≡◌, ◌≢◌, ◌⊎◌, refl, Option, none, some, List, [], ◌∷◌, inl, inr, arith, ◌==◌, if◌then◌else◌,
  Bool-cases, Option-cases,
}
use open_arm_ik.Transport.Status.{eio, is_ok}
use open_arm_ik.Transport.Grants.{Grants, find}
use open_arm_ik.Transport.Random.{Draw, full, interrupted, broken, Drawn, secure_random64}
use open_arm_ik.Transport.Issue.{Token, fresh, refused, draw_token}

-- A token that is drawn is not in use, and is not 0.
pub draw_token-fresh :
    (gs : Grants) (ds : List Draw) (v : ℕ)
    → draw_token gs ds ≡ some (fresh v)
    → (find v gs ≡ none) × (v ≢ 0)
unfolding draw_token
draw_token-fresh gs [] v h = cc
draw_token-fresh gs (full w ∷ ds) v h =
    (ground (arith, draw_token-fresh gs ds v), ground (arith, draw_token-fresh gs ds v))
draw_token-fresh gs (interrupted ∷ ds) v h = draw_token-fresh gs ds v h
draw_token-fresh gs (broken ∷ ds) v h = cc

-- One run of secureRandom64, and then another round where the value is in use.
abbrev round : Grants → Option Drawn → Option Token
round gs none = none
round gs (some d) =
    if is_ok d.status
    then elim (find d.value gs) [ none ↦ some (fresh d.value) | some _ ↦ draw_token gs d.rest ]
    else some (refused d.status)

pub draw_token_lem :
    (gs : Grants) (ds : List Draw) → draw_token gs ds ≡ round gs (secure_random64 ds)
unfolding draw_token secure_random64
draw_token_lem gs [] = refl
draw_token_lem gs (full w ∷ ds) = ground arith
draw_token_lem gs (interrupted ∷ ds) = draw_token_lem gs ds
draw_token_lem gs (broken ∷ ds) = refl

-- Some answer of the source ends the loop: it fails, or has a value that is 0 or not in use.
abbrev pub Ends : Grants → List Draw → Type 0
Ends gs [] = ⊥
Ends gs (full v ∷ ds) = ((v ≡ 0) ⊎ (find v gs ≡ none)) ⊎ Ends gs ds
Ends gs (interrupted ∷ ds) = Ends gs ds
Ends gs (broken ∷ ds) = Unit {0}

pub draw_token_total :
    (gs : Grants) (ds : List Draw) → Ends gs ds → (o : Token) × (draw_token gs ds ≡ some o)
unfolding draw_token
draw_token_total gs [] e = absurd e
draw_token_total gs (full v ∷ ds) e = elim (Bool-cases (v == 0)) [
  | inl z ↦ (refused eio, rw z)
  | inr n ↦ elim (Option-cases (find v gs)) [
    | inl a ↦ (fresh v, rw (n, a))
    | inr (g, p) ↦ rw (n, p) (draw_token_total gs ds (ground arith))
  ]
]
draw_token_total gs (interrupted ∷ ds) e = draw_token_total gs ds e
draw_token_total gs (broken ∷ ds) e = (refused eio, refl)
