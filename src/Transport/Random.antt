-- ===== src/Transport/Random.antt =====
-- secureRandom64 of transport/src/transport.cpp. What getrandom answers is given as a list.
use open_arm_ik.Shared.{ℕ, List, [], ◌∷◌, Option, none, some, ◌==◌, if◌then◌else◌}
use open_arm_ik.Transport.Status.{Status, ok, eio}

-- Eight bytes, EINTR, or anything else.
pub data Draw : Type 0 where
  full : ℕ → Draw
  interrupted : Draw
  broken : Draw

pub record Drawn : Type 0 where
  pub status : Status
  pub value : ℕ
  pub rest : List Draw

-- `none`: the answers given are used up and the loop still waits for one.
unfoldable pub secure_random64 : List Draw → Option Drawn
secure_random64 [] = none
secure_random64 (full v ∷ ds) =
    some (record { status = if v == 0 then eio else ok; value = v; rest = ds })
secure_random64 (interrupted ∷ ds) = secure_random64 ds
secure_random64 (broken ∷ ds) = some (record { status = eio; value = 0; rest = ds })
