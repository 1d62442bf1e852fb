-- ===== src/Transport/Status.antt =====
-- transport/include/openarm_transport.h: oa_transport_status and oa_transport_frame_class.
use open_arm_ik.Shared.{ℕ, Bool, true, false, ◌==◌}

pub data Status : Type 0 where
  ok einval eabi erange epermission etimeout eclosed eio elink eframe enomem eunsupported : Status

abbrev pub is_ok : Status → Bool
is_ok ok = true
is_ok _ = false

pub data FrameClass : Type 0 where
  register_query status_query disable enable motion register_write set_zero : FrameClass
  clear_error save_parameters unknown : FrameClass

-- The numbers of the header, by which the code compares classes.
unfoldable pub code : FrameClass → ℕ
code register_query = 1
code status_query = 2
code disable = 3
code enable = 4
code motion = 5
code register_write = 6
code set_zero = 7
code clear_error = 8
code save_parameters = 9
code unknown = 10

unfoldable pub same_class : FrameClass → FrameClass → Bool
unfolding code
same_class a b = code a == code b
