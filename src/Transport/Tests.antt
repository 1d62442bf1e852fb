-- ===== src/Transport/Tests.antt =====
-- Runs of the transport on concrete frames, over a backend whose clock stands still.
use open_arm_ik.Shared.{
  ℕ, ◌+◌, ◌≤◌, ◌≡◌, ◌↔◌, ◌⊎◌, refl, true, false, Option, none, some, List, [], ◌∷◌, inl, inr, arith,
  done,
}
use open_arm_ik.Can.Frame.{Frame, IsFrame, frames_equal}
use open_arm_ik.Can.Registers.{u32, register_metadata, Metadata, validate_u32}
use open_arm_ik.Can.Builders.{
  RegisterWrite, make_register_write, write_known, write_value, finish_write, write_frame,
  valid_output,
}
use open_arm_ik.Can.Builders.Writes.{make_register_write_inv, Carries, raw_value, canonical, header}
use open_arm_ik.Transport.Status.{
  Status, ok, eclosed, enomem, FrameClass, enable, register_write, unknown, same_class, code,
}
use open_arm_ik.Transport.Classify.{
  classify, frame_class, broadcast_class, special_class, all_bytes, dangerous_class,
  valid_register_write,
}
use open_arm_ik.Transport.Classify.Meaning.{Meaning}
use open_arm_ik.Transport.Classify.Built.{classify_iff}
use open_arm_ik.Transport.Backend.{Event, Backend, Recorded, recording}
use open_arm_ik.Transport.Grants.{Grants, find, erase, allowing, emplace}
use open_arm_ik.Transport.Core.{
  Authority, Transport, create, send, receive, close, consume_authority, validate_deadline, spend,
  same_nonce, classed, timed, authorised, hand_over, listen,
}
use open_arm_ik.Transport.Core.Consume.{Covers, consume_authority_iff, consume_once}
use open_arm_ik.Transport.Core.Deadline.{IsAllowed, send_log}
use open_arm_ik.Transport.Random.{Draw, full, interrupted}
use open_arm_ik.Transport.Issue.{
  Memory, Issued, issue_authority, classed_issue, grant_at, settle, store, draw_token,
}
use open_arm_ik.Transport.Issue.Outcome.{issue_failed_unchanged, issue_total}
use open_arm_ik.Transport.Run.{
  Call, sends, issues, step, run, issued, issued_by, after_issue, hands_out, occurrences,
}
use open_arm_ik.Transport.Run.Conservation.{dangerous_sends_bounded}
use open_arm_ik.Transport.Run.Closed.{closed_for_good}
use open_arm_ik.Transport.Api.{PublicFrame}
use open_arm_ik.Transport.Api.QueryOnly
use open_arm_ik.Transport.Api.QueryOnly.{AllQueries, public_query_only}

-- CTRL_MODE (10) of motor 5 is set to 1, and to the refused value 9.
abbrev mode_frame : ℕ → Frame
mode_frame v = record {
  can_id = 0x7ff;
  dlc = 8;
  bytes = record { b0 = 5; b1 = 0; b2 = 0x55; b3 = 10; b4 = v; b5 = 0; b6 = 0; b7 = 0 };
}

mode_runs :
    (classify (mode_frame 1) ≡ record { status = ok; out_class = some register_write })
    × (classify (mode_frame 9) ≡ record { status = ok; out_class = some unknown })
unfolding classify frame_class broadcast_class valid_register_write make_register_write write_known
    write_value finish_write write_frame valid_output register_metadata validate_u32 frames_equal
mode_runs = (refl, refl)

abbrev enable_frame : Frame
enable_frame = record {
  can_id = 1;
  dlc = 8;
  bytes = record {
    b0 = 0xff;
    b1 = 0xff;
    b2 = 0xff;
    b3 = 0xff;
    b4 = 0xff;
    b5 = 0xff;
    b6 = 0xff;
    b7 = 0xfc;
  };
}

enable_class : classify enable_frame ≡ record { status = ok; out_class = some enable }
unfolding classify frame_class special_class all_bytes
enable_class = refl

abbrev no_event : Event
no_event = record {
  kind = 1;
  flags = 0;
  dequeue_monotonic_ns = 0;
  kernel_timestamp_ns = 0;
  kernel_timestamp_clock = 0;
  can_error_mask = 0;
  rx_overflow_count = 0;
  rx_overflow_delta = 0;
  link_up = true;
  frame = enable_frame;
}

-- The state is the time.
abbrev still : Backend ℕ
still = record {
  now = λ s. record { status = ok; out = s; next = s };
  send = λ s f d. record { status = ok; out = s; next = s };
  receive = λ s d. record { status = ok; out = no_event; next = s };
  close = λ s. s;
  permits_authority_issuance = λ s. true;
}

abbrev plenty : Memory
plenty = record { node = true; authority = true }

abbrev token_5 : Authority
token_5 = record { instance_nonce = (7, 9); token_id = 5 }

-- An authority is issued and spent, and then used once more.
abbrev history : List Call
history =
    issues plenty (interrupted ∷ full 5 ∷ []) enable_frame 200
    ∷ sends enable_frame 150 (some token_5)
    ∷ sends enable_frame 150 (some token_5)
    ∷ []

abbrev fresh : Transport (Recorded ℕ)
fresh = record {
  backend = record { inner = 100; frames = [] };
  instance_nonce = (7, 9);
  max_deadline_horizon_ns = 1000;
  closed = false;
  grants = [];
}

-- Opens every step of a run.
opened : ℕ
unfolding run step after_issue issued issued_by hands_out occurrences allowing send classed timed
    authorised hand_over receive listen close issue_authority classed_issue grant_at settle store
    draw_token classify frame_class special_class broadcast_class valid_register_write all_bytes
    make_register_write write_known write_value finish_write write_frame valid_output
    register_metadata validate_u32 frames_equal dangerous_class same_class consume_authority spend
    same_nonce find erase emplace validate_deadline
opened = 0

history_runs :
    (occurrences enable_frame (run (recording still) fresh history).backend.frames ≡ 1)
    × (issued (recording still) enable_frame fresh history ≡ 1)
unfolding opened
history_runs = (refl, refl)

dangerous_sends_bounded_example :
    let t = run (recording still) fresh history in
    occurrences enable_frame t.backend.frames + allowing enable_frame t.grants
    ≤ issued (recording still) enable_frame fresh history
unfolding create
dangerous_sends_bounded_example =
    dangerous_sends_bounded still enable_frame (enable, enable_class, enable_danger) 100 (7, 9) 1000
      history
  where
    enable_danger : dangerous_class enable ≡ true
    enable_danger = unfold dangerous_class same_class code in refl

abbrev public_enable : PublicFrame
public_enable = record {
  header = record { struct_size = 24; abi_version = 1 };
  payload = enable_frame;
}

abbrev public_calls : List QueryOnly.Call
public_calls =
    QueryOnly.Call.sends (some public_enable) 150
      (some (record { struct_size = 24; abi_version = 1 }))
    ∷ QueryOnly.Call.closes
    ∷ []

public_query_only_example :
    AllQueries (QueryOnly.run (recording still) fresh public_calls).backend.frames
unfolding create
public_query_only_example = public_query_only still 100 (7, 9) 1000 public_calls

send_log_example :
    let u = (send (recording still) fresh enable_frame 150 none).next in
    (u.backend.frames ≡ [])
    ⊎ ((u.backend.frames ≡ enable_frame ∷ [])
        × ((c : FrameClass) × IsAllowed (recording still) fresh enable_frame 150 none c))
send_log_example = send_log still fresh enable_frame 150 none

abbrev enable_grants : Grants
enable_grants =
    (5, record { exact_frame = enable_frame; frame_class = enable; expiry_ns = 200 }) ∷ []

consume_authority_iff_example :
    ((consume_authority (7, 9) enable_grants (some token_5) enable_frame enable 100 150).status
      ≡ ok)
    ↔ Covers (7, 9) enable_grants enable_frame enable 100 150 (some token_5)
consume_authority_iff_example =
    consume_authority_iff (7, 9) enable_grants (some token_5) enable_frame enable 100 150

consume_once_example :
    let left =
      (consume_authority (7, 9) enable_grants (some token_5) enable_frame enable 100 150).grants in
    (find 5 left ≡ none)
    × (consume_authority (7, 9) left (some token_5) enable_frame enable 110 150
        ≡ record { status = Status.epermission; grants = left })
unfolding opened
consume_once_example =
    consume_once (7, 9) enable_grants token_5 enable_frame enable 100 150 refl enable_frame enable
      110 150

closed_for_good_example :
    let u = run (recording still) (close (recording still) fresh) history in
    (u.backend.frames ≡ [])
    × (u.grants ≡ [])
    × ((f : Frame) (d : ℕ) (a : Option Authority)
        → (send (recording still) u f d a).status ≡ eclosed)
    × ((d : ℕ) → (receive (recording still) u d).status ≡ eclosed)
    × ((m : Memory) (ds : List Draw) (f : Frame) (e : ℕ)
        → issue_authority (recording still) u m ds f e
          ≡ some (record { status = eclosed; out_authority = none; next = u }))
closed_for_good_example = closed_for_good still fresh history

enable_fits : IsFrame enable_frame
enable_fits = omega arith

classify_iff_example :
    (classify enable_frame ≡ record { status = ok; out_class = some enable })
    ↔ Meaning enable enable_frame
classify_iff_example = classify_iff enable_frame enable enable_fits (λ e. cc)

abbrev issued_5 : Issued ℕ
issued_5 = record {
  status = ok;
  out_authority = some token_5;
  next = record {
    backend = 100;
    instance_nonce = (7, 9);
    max_deadline_horizon_ns = 1000;
    closed = false;
    grants = enable_grants;
  };
}

abbrev plain : Transport ℕ
plain = record {
  backend = 100;
  instance_nonce = (7, 9);
  max_deadline_horizon_ns = 1000;
  closed = false;
  grants = [];
}

abbrev out_of_memory : Issued ℕ
out_of_memory = record { status = enomem; out_authority = none; next = plain }

issue_failed_unchanged_example :
    (out_of_memory.out_authority ≡ none) × (out_of_memory.next.grants ≡ plain.grants)
unfolding opened
issue_failed_unchanged_example =
    issue_failed_unchanged still plain (record { node = true; authority = false }) (full 5 ∷ [])
      enable_frame 200 out_of_memory refl (λ e. cc)

issue_total_example :
    (i : Issued ℕ) × (issue_authority still plain plenty (full 5 ∷ []) enable_frame 200 ≡ some i)
unfolding opened
issue_total_example = issue_total still plain plenty (full 5 ∷ []) enable_frame 200 (inl (inr refl))

abbrev mode_write : RegisterWrite
mode_write = record {
  struct_size = 28;
  abi_version = 2;
  send_id = 5;
  reserved = 0;
  register_id = 10;
  value_type = u32;
  value_u32 = 1;
  value_f32 = 0;
}

make_register_write_inv_example :
    (m : Metadata) × (register_metadata 10 ≡ some m)
    × (m.writable ≡ true)
    × Carries mode_write (raw_value m.value_type mode_write) (mode_frame 1)
    × (make_register_write (some (canonical m.value_type mode_write)) (some header)
        ≡ done (mode_frame 1))
unfolding opened
make_register_write_inv_example =
    make_register_write_inv mode_write (some header) (mode_frame 1) (omega arith) (omega arith)
      (omega arith) refl
