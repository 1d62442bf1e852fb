-- ===== src/Transport/Core/Consume.antt =====
-- What consumeAuthority (transport/src/transport.cpp) accepts, and what it does to the grants.
use open_arm_ik.Shared.{ℕ, ◌≤◌, ◌<◌, ◌≡◌, ◌↔◌, refl, true, Option, none, some, arith}
use open_arm_ik.Can.Frame.{Frame, frames_equal, frames_equal_sound, frames_equal_refl}
use open_arm_ik.Transport.Status.{ok, epermission, FrameClass, same_class, code}
use open_arm_ik.Transport.Grants.{Grant, Grants, find, erase, find-erase}
use open_arm_ik.Transport.Core.{Authority, consume_authority, spend, same_nonce}

-- The authority belongs to this transport and its grant covers the frame until the deadline.
pub data Covers (nonce : ℕ × ℕ) (gs : Grants) (f : Frame) (c : FrameClass) (now deadline : ℕ)
    : Option Authority → Type 0 where
  covers :
      (a : Authority) (g : Grant)
      → a.instance_nonce ≡ nonce
      → find a.token_id gs ≡ some g
      → now < g.expiry_ns
      → deadline ≤ g.expiry_ns
      → g.frame_class ≡ c
      → g.exact_frame ≡ f
      → Covers nonce gs f c now deadline (some a)

code_injective : (a b : FrameClass) → same_class a b ≡ true → a ≡ b
unfolding same_class code
code_injective a b h = ground arith

same_class_refl : (a : FrameClass) → same_class a a ≡ true
unfolding same_class code
same_class_refl a = ground arith

same_nonce_sound : (a b : ℕ × ℕ) → same_nonce a b ≡ true → a ≡ b
unfolding same_nonce
same_nonce_sound (a, b) (c, d) h = ground arith

same_nonce_refl : (a : ℕ × ℕ) → same_nonce a a ≡ true
unfolding same_nonce
same_nonce_refl (a, b) = ground arith

spend_ok :
    (gs : Grants) (t : ℕ) (f : Frame) (c : FrameClass) (now d : ℕ) (o : Option Grant)
    → (spend gs t f c now d o).status ≡ ok
    → (g : Grant) × (o ≡ some g)
      × (now < g.expiry_ns)
      × (d ≤ g.expiry_ns)
      × (g.frame_class ≡ c)
      × (g.exact_frame ≡ f)
unfolding spend
spend_ok gs t f c now d none h = cc
spend_ok gs t f c now d (some g) h =
    let class_lem = code_injective g.frame_class c in
    let frame_lem = frames_equal_sound g.exact_frame f in
    (g, refl, ground arith, ground arith, ground (arith, class_lem), ground (arith, frame_lem))

-- An authority is consumed exactly when it covers the send.
pub consume_authority_iff :
    (nonce : ℕ × ℕ) (gs : Grants) (a : Option Authority) (f : Frame) (c : FrameClass)
    (now deadline : ℕ)
    → ((consume_authority nonce gs a f c now deadline).status ≡ ok)
      ↔ Covers nonce gs f c now deadline a
unfolding consume_authority spend
consume_authority_iff nonce gs a f c now deadline = (only a, covered a)
  where
    only :
        (a : Option Authority)
        → (consume_authority nonce gs a f c now deadline).status ≡ ok
        → Covers nonce gs f c now deadline a
    only none h = cc
    only (some a) h =
        let own : same_nonce a.instance_nonce nonce ≡ true = ground arith in
        let paid : (spend gs a.token_id f c now deadline (find a.token_id gs)).status ≡ ok =
          ground arith in
        let (g, p, e, d, k, x) = spend_ok gs a.token_id f c now deadline _ paid in
        covers a g (same_nonce_sound _ _ own) p e d k x

    covered :
        (a : Option Authority)
        → Covers nonce gs f c now deadline a
        → (consume_authority nonce gs a f c now deadline).status ≡ ok
    covered _ (covers a g n p e d k x) =
        let own : same_nonce a.instance_nonce nonce ≡ true = rw n (same_nonce_refl nonce) in
        let class : same_class g.frame_class c ≡ true = rw k (same_class_refl c) in
        let frame : frames_equal g.exact_frame f ≡ true = rw x (frames_equal_refl f) in ground arith

spend_erases :
    (gs : Grants) (t : ℕ) (f : Frame) (c : FrameClass) (now d : ℕ) (o : Option Grant)
    → (spend gs t f c now d o).status ≡ ok
    → (spend gs t f c now d o).grants ≡ erase t gs
unfolding spend
spend_erases gs t f c now d none h = cc
spend_erases gs t f c now d (some g) h = ground arith

refused_of_absent :
    (nonce : ℕ × ℕ) (gs : Grants) (a : Authority) (f : Frame) (c : FrameClass) (now deadline : ℕ)
    → find a.token_id gs ≡ none
    → consume_authority nonce gs (some a) f c now deadline
      ≡ record { status = epermission; grants = gs }
unfolding consume_authority spend
refused_of_absent nonce gs a f c now deadline h = ground arith

gone_of_consumed :
    (nonce : ℕ × ℕ) (gs : Grants) (a : Authority) (f : Frame) (c : FrameClass) (now deadline : ℕ)
    → (consume_authority nonce gs (some a) f c now deadline).status ≡ ok
    → find a.token_id (consume_authority nonce gs (some a) f c now deadline).grants ≡ none
unfolding consume_authority
gone_of_consumed nonce gs a f c now deadline h =
    let paid : (spend gs a.token_id f c now deadline (find a.token_id gs)).status ≡ ok =
      ground arith in
    let left = spend_erases gs a.token_id f c now deadline _ paid in
    ground (arith, find-erase a.token_id a.token_id gs, left)

-- After an authority was consumed, no grant stands under its token; with the grants so left it is
-- refused, for any frame at any time, and the refusal leaves these grants as they are.
pub consume_once :
    (nonce : ℕ × ℕ) (gs : Grants) (a : Authority) (f : Frame) (c : FrameClass) (now deadline : ℕ)
    → (consume_authority nonce gs (some a) f c now deadline).status ≡ ok
    → (g : Frame) (k : FrameClass) (later until : ℕ)
    → let left = (consume_authority nonce gs (some a) f c now deadline).grants in
      (find a.token_id left ≡ none)
      × (consume_authority nonce left (some a) g k later until
          ≡ record { status = epermission; grants = left })
consume_once nonce gs a f c now deadline h g k later until =
    let gone = gone_of_consumed nonce gs a f c now deadline h in
    (gone, refused_of_absent nonce _ a g k later until gone)
