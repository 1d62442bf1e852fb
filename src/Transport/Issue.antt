-- ===== src/Transport/Issue.antt =====
-- issueAuthority of transport/src/transport.cpp.
pub mod Draws
pub mod Outcome
use open_arm_ik.Shared.{
  ℕ, ◌-◌, Bool, true, false, ◌||◌, not, Option, none, some, List, [], ◌∷◌, ltb, leb, ◌==◌,
  if◌then◌else◌,
}
use open_arm_ik.Can.Frame.{Frame}
use open_arm_ik.Transport.Status.{
  Status, ok, epermission, eclosed, erange, eframe, eio, enomem, is_ok, FrameClass,
}
use open_arm_ik.Transport.Classify.{Classified, classify, dangerous_class}
use open_arm_ik.Transport.Backend.{Backend, Reply}
use open_arm_ik.Transport.Grants.{Grant, Grants, find, erase, emplace}
use open_arm_ik.Transport.Core.{Authority, Transport}
use open_arm_ik.Transport.Random.{Draw, full, interrupted, broken, secure_random64}

abbrev pub maximum_authority_lifetime_ns : ℕ
maximum_authority_lifetime_ns = 5_000_000_000

-- Whether the two allocations succeed: that of the map's node and that of the authority.
pub record Memory : Type 0 where
  pub node : Bool
  pub authority : Bool

-- The token, or the status that secureRandom64 failed with.
pub data Token : Type 0 where
  fresh : ℕ → Token
  refused : Status → Token

-- The `do ... while` that draws until the token is unused; each draw is one run of
-- secureRandom64, whose own loop over EINTR is taken in step. `none` waits for more answers.
unfoldable pub draw_token : Grants → List Draw → Option Token
draw_token gs [] = none
draw_token gs (full v ∷ ds) =
    let again = draw_token gs ds in
    if v == 0
    then some (refused eio)
    else elim (find v gs) [ none ↦ some (fresh v) | some _ ↦ again ]
draw_token gs (interrupted ∷ ds) = draw_token gs ds
draw_token gs (broken ∷ ds) = some (refused eio)

pub record Issued (S : Type 0) : Type 0 where
  pub status : Status
  pub out_authority : Option Authority
  pub next : Transport S

module _ {S : Type 0} where
  abbrev pub without : Transport S → Status → Issued S
  without t s = record { status = s; out_authority = none; next = t }

  -- emplace, and then the authority; if that fails the grant is erased again.
  unfoldable pub store : Transport S → Memory → Grant → ℕ → Issued S
  store t m g token =
      if not m.node
      then without t enomem
      else let added = emplace token g t.grants in
        if not m.authority
        then without (record t { grants = erase token added }) enomem
        else record {
          status = ok;
          out_authority = some (record { instance_nonce = t.instance_nonce; token_id = token });
          next = record t { grants = added };
        }

  unfoldable pub settle : Transport S → Memory → Grant → Option Token → Option (Issued S)
  settle t m g none = none
  settle t m g (some (refused s)) = some (without t s)
  settle t m g (some (fresh token)) = some (store t m g token)

  -- After the clock was read.
  unfoldable pub grant_at :
      Transport S → Memory → List Draw → Frame → FrameClass → ℕ → Reply S ℕ → Option (Issued S)
  grant_at t m ds f c expiry r =
      let u : Transport S = record t { backend = r.next } in
      if not (is_ok r.status)
      then some (without u r.status)
      else if leb expiry r.out || ltb maximum_authority_lifetime_ns (expiry - r.out)
      then some (without u erange)
      else settle u m (record { exact_frame = f; frame_class = c; expiry_ns = expiry })
          (draw_token t.grants ds)

module _ {S : Type 0} (b : Backend S) where
  unfoldable pub classed_issue :
      Transport S → Memory → List Draw → Frame → ℕ → Status → Option FrameClass → Option (Issued S)
  classed_issue t m ds f expiry status none = some (without t status)
  classed_issue t m ds f expiry status (some c) =
      if not (dangerous_class c)
      then some (without t eframe)
      else grant_at t m ds f c expiry (b.now t.backend)

  -- `none`: getrandom has not answered yet.
  unfoldable pub issue_authority : Transport S → Memory → List Draw → Frame → ℕ → Option (Issued S)
  issue_authority t m ds f expiry =
      if t.closed
      then some (without t eclosed)
      else if not (b.permits_authority_issuance t.backend)
      then some (without t epermission)
      else classed_issue t m ds f expiry (classify f).status (classify f).out_class
