-- ===== src/Transport/Core.antt =====
-- class Transport of transport/src/transport.cpp: deadlines, the consumption of an authority,
-- send, receive and close. A call holds its mutex from the first to the last line, so that it is
-- one step; close sets the flag first and then waits for the calls under way.
pub mod Consume
pub mod Deadline
use open_arm_ik.Shared.{
  ℕ, ◌-◌, Bool, true, false, ◌&&◌, ◌||◌, not, Option, none, some, List, [], ltb, leb, ◌==◌,
  if◌then◌else◌,
}
use open_arm_ik.Can.Frame.{Frame, frames_equal}
use open_arm_ik.Transport.Status.{
  Status, ok, epermission, etimeout, eclosed, erange, eframe, is_ok, FrameClass, register_query,
  status_query, motion, unknown, same_class,
}
use open_arm_ik.Transport.Classify.{Classified, classify}
use open_arm_ik.Transport.Backend.{Event, Backend, Reply}
use open_arm_ik.Transport.Grants.{Grant, Grants, find, erase}

pub record Authority : Type 0 where
  pub instance_nonce : ℕ × ℕ
  pub token_id : ℕ

pub record Transport (S : Type 0) : Type 0 where
  pub backend : S
  pub instance_nonce : ℕ × ℕ
  pub max_deadline_horizon_ns : ℕ
  pub closed : Bool
  pub grants : Grants

-- The constructor.
unfoldable pub create : {S : Type 0} → S → ℕ × ℕ → ℕ → Transport S
create backend nonce horizon = record {
  backend = backend;
  instance_nonce = nonce;
  max_deadline_horizon_ns = horizon;
  closed = false;
  grants = [];
}

-- `horizon` is max_deadline_horizon_ns_.
unfoldable pub validate_deadline : ℕ → ℕ → ℕ → Status
validate_deadline horizon deadline now =
    if leb deadline now then etimeout else if ltb horizon (deadline - now) then erange else ok

unfoldable pub same_nonce : ℕ × ℕ → ℕ × ℕ → Bool
same_nonce (a, b) (c, d) = a == c && b == d

pub record Consumed : Type 0 where
  pub status : Status
  pub grants : Grants

unfoldable pub spend : Grants → ℕ → Frame → FrameClass → ℕ → ℕ → Option Grant → Consumed
spend gs token f c now deadline none = record { status = epermission; grants = gs }
spend gs token f c now deadline (some g) =
    if leb g.expiry_ns now
    then record { status = epermission; grants = erase token gs }
    else if ltb g.expiry_ns deadline
        || not (same_class g.frame_class c)
        || not (frames_equal g.exact_frame f)
    then record { status = epermission; grants = gs }
    else record { status = ok; grants = erase token gs }

unfoldable pub consume_authority :
    ℕ × ℕ → Grants → Option Authority → Frame → FrameClass → ℕ → ℕ → Consumed
consume_authority nonce gs none f c now deadline = record { status = epermission; grants = gs }
consume_authority nonce gs (some a) f c now deadline =
    if not (same_nonce a.instance_nonce nonce)
    then record { status = epermission; grants = gs }
    else spend gs a.token_id f c now deadline (find a.token_id gs)

-- What send returns: `none` leaves the caller's variable as it was.
pub record Sent (S : Type 0) : Type 0 where
  pub status : Status
  pub out_class : Option FrameClass
  pub out_sent_ns : Option ℕ
  pub next : Transport S

pub record Received (S : Type 0) : Type 0 where
  pub status : Status
  pub out_event : Option Event
  pub next : Transport S

module _ {S : Type 0} (b : Backend S) where
  abbrev pub refused : Transport S → Status → Option FrameClass → Sent S
  refused t s c = record { status = s; out_class = c; out_sent_ns = none; next = t }

  -- `return backend_->send(...)`.
  unfoldable pub hand_over : Transport S → Frame → ℕ → FrameClass → Sent S
  hand_over t f deadline c =
      let r = b.send t.backend f deadline in
      record {
        status = r.status;
        out_class = some c;
        out_sent_ns = some r.out;
        next = record t { backend = r.next };
      }

  -- The authority check, once the deadline is valid.
  unfoldable pub authorised : Transport S → Frame → ℕ → Option Authority → FrameClass → ℕ → Sent S
  authorised t f deadline authority c now =
      if same_class c register_query || same_class c status_query
      then elim authority [
        | none ↦ hand_over t f deadline c
        | some _ ↦ refused t epermission (some c)
      ]
      else let r = consume_authority t.instance_nonce t.grants authority f c now deadline in
        let u : Transport S = record t { grants = r.grants } in
        if is_ok r.status then hand_over u f deadline c else refused u r.status (some c)

  -- After the clock was read.
  unfoldable pub timed :
      Transport S → Frame → ℕ → Option Authority → FrameClass → Reply S ℕ → Sent S
  timed t f deadline authority c r =
      let u : Transport S = record t { backend = r.next } in
      if not (is_ok r.status)
      then refused u r.status (some c)
      else let d = validate_deadline t.max_deadline_horizon_ns deadline r.out in
        if not (is_ok d) then refused u d (some c) else authorised u f deadline authority c r.out

  -- After the frame was classified.
  unfoldable pub classed :
      Transport S → Frame → ℕ → Option Authority → Status → Option FrameClass → Sent S
  classed t f deadline authority status none = refused t status none
  classed t f deadline authority status (some c) =
      if same_class c unknown || same_class c motion
      then refused t eframe (some c)
      else timed t f deadline authority c (b.now t.backend)

  -- A null authority is `none`.
  unfoldable pub send : Transport S → Frame → ℕ → Option Authority → Sent S
  send t f deadline authority =
      if t.closed
      then refused t eclosed none
      else classed t f deadline authority (classify f).status (classify f).out_class

  unfoldable pub listen : Transport S → ℕ → Received S
  listen t deadline =
      let r = b.receive t.backend deadline in
      record { status = r.status; out_event = some r.out; next = record t { backend = r.next } }

  unfoldable pub receive : Transport S → ℕ → Received S
  receive t deadline =
      if t.closed
      then record { status = eclosed; out_event = none; next = t }
      else let r = b.now t.backend in
        let u : Transport S = record t { backend = r.next } in
        if not (is_ok r.status)
        then record { status = r.status; out_event = none; next = u }
        else let d = validate_deadline t.max_deadline_horizon_ns deadline r.out in
          if not (is_ok d)
          then record { status = d; out_event = none; next = u }
          else listen u deadline

  -- The destructor calls close too.
  unfoldable pub close : Transport S → Transport S
  close t = record t { closed = true; backend = b.close t.backend; grants = [] }
