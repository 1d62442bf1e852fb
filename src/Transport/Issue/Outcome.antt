-- ===== src/Transport/Issue/Outcome.antt =====
-- The results of issueAuthority (transport/src/transport.cpp).
use open_arm_ik.Shared.{
  ℕ, ◌+◌, ◌≤◌, ◌<◌, ◌≡◌, ◌≢◌, refl, true, false, Option, none, some, List, ◌∷◌, inl, inr, arith,
  Option-cases,
}
use open_arm_ik.Can.Frame.{Frame}
use open_arm_ik.Transport.Status.{Status, ok, FrameClass}
use open_arm_ik.Transport.Classify.{classify, dangerous_class}
use open_arm_ik.Transport.Backend.{Backend}
use open_arm_ik.Transport.Grants.{Grant, Grants, find, erase-emplace}
use open_arm_ik.Transport.Core.{Transport}
use open_arm_ik.Transport.Random.{Draw}
use open_arm_ik.Transport.Issue.{
  Memory, Token, fresh, refused, Issued, store, settle, grant_at, classed_issue, issue_authority,
  draw_token, maximum_authority_lifetime_ns,
}
use open_arm_ik.Transport.Issue.Draws.{draw_token-fresh, draw_token_total, Ends}

-- A grant for the frame under a token that was free, for a time that the code allows.
pub record IsGranted {S : Type 0} (b : Backend S) (t : Transport S) (f : Frame) (expiry : ℕ)
    (i : Issued S) : Type 0 where
  pub token : ℕ
  pub grant_class : FrameClass
  pub open_transport : t.closed ≡ false
  pub permitted : b.permits_authority_issuance t.backend ≡ true
  pub class_of_frame : (classify f).out_class ≡ some grant_class
  pub is_dangerous : dangerous_class grant_class ≡ true
  pub lives : (b.now t.backend).out < expiry
  pub not_too_long : expiry ≤ (b.now t.backend).out + maximum_authority_lifetime_ns
  pub was_free : find token t.grants ≡ none
  pub not_zero : token ≢ 0
  pub handed :
      i.out_authority ≡ some (record { instance_nonce = t.instance_nonce; token_id = token })
  pub stored :
      i.next.grants
      ≡ (token, record { exact_frame = f; frame_class = grant_class; expiry_ns = expiry })
        ∷ t.grants

store_failed :
    {S : Type 0} (t : Transport S) (m : Memory) (g : Grant) (token : ℕ)
    → find token t.grants ≡ none
    → (store t m g token).status ≢ ok
    → ((store t m g token).out_authority ≡ none) × ((store t m g token).next.grants ≡ t.grants)
unfolding store
store_failed t m g token free h = ground (arith, erase-emplace token g t.grants free)

settle_failed :
    {S : Type 0} (t : Transport S) (m : Memory) (g : Grant) (o : Option Token) (i : Issued S)
    → ((v : ℕ) → o ≡ some (fresh v) → find v t.grants ≡ none)
    → settle t m g o ≡ some i
    → i.status ≢ ok
    → (i.out_authority ≡ none) × (i.next.grants ≡ t.grants)
unfolding settle
settle_failed t m g none i free e h = cc
settle_failed t m g (some (refused s)) i free e h = ground arith
settle_failed t m g (some (fresh v)) i free e h =
    let rest = store_failed t m g v (free v refl) in ground (arith, rest)

module _ {S : Type 0} (b : Backend S) (t : Transport S) (m : Memory) (ds : List Draw) (f : Frame)
    (expiry : ℕ) where
  abbrev clocked : Transport S
  clocked = record t { backend = (b.now t.backend).next }

  abbrev grant_of : FrameClass → Grant
  grant_of c = record { exact_frame = f; frame_class = c; expiry_ns = expiry }

  abbrev drawn : FrameClass → Option (Issued S)
  drawn c = settle clocked m (grant_of c) (draw_token t.grants ds)

  drawn_failed :
      (c : FrameClass) (i : Issued S)
      → drawn c ≡ some i
      → i.status ≢ ok
      → (i.out_authority ≡ none) × (i.next.grants ≡ t.grants)
  drawn_failed c i =
      settle_failed clocked m (grant_of c) _ i λ v p. (draw_token-fresh t.grants ds v p).0

  classed_failed :
      (o : Option FrameClass) (i : Issued S)
      → classed_issue b t m ds f expiry (classify f).status o ≡ some i
      → i.status ≢ ok
      → (i.out_authority ≡ none) × (i.next.grants ≡ t.grants)
  unfolding classed_issue grant_at
  classed_failed none i e h = ground arith
  classed_failed (some c) i e h = let rest = drawn_failed c i in ground (arith, rest)

  -- An issue that fails, for whatever reason, a failed allocation included, hands out nothing and
  -- leaves the grants as they were.
  pub issue_failed_unchanged :
      (i : Issued S)
      → issue_authority b t m ds f expiry ≡ some i
      → i.status ≢ ok
      → (i.out_authority ≡ none) × (i.next.grants ≡ t.grants)
  unfolding issue_authority
  issue_failed_unchanged i e h =
      let rest = classed_failed (classify f).out_class i in ground (arith, rest)

  drawn-ne-none : (c : FrameClass) → Ends t.grants ds → drawn c ≢ none
  unfolding settle
  drawn-ne-none c e h = let (o, p) = draw_token_total t.grants ds e in ground (arith, p)

  classed-ne-none :
      (o : Option FrameClass)
      → Ends t.grants ds
      → classed_issue b t m ds f expiry (classify f).status o ≢ none
  unfolding classed_issue grant_at
  classed-ne-none none e h = cc
  classed-ne-none (some c) e h = let rest = drawn-ne-none c e in ground (arith, rest)

  -- Once the random source has failed, or has answered with a value that is 0 or not in use, the
  -- issue has ended with a result, whatever else it met.
  pub issue_total : Ends t.grants ds → (i : Issued S) × (issue_authority b t m ds f expiry ≡ some i)
  unfolding issue_authority
  issue_total e = elim (Option-cases (issue_authority b t m ds f expiry)) [
    | inl h ↦ absurd (let rest = classed-ne-none (classify f).out_class e in ground arith)
    | inr r ↦ r
  ]
