-- ===== src/Protocol/Commands.antt =====
-- protocol/commands.c: what its pack and unpack functions share. A pointer argument is a value, so
-- its NULL check has no counterpart.
pub mod Records
pub mod Wire
pub mod Simple
pub mod Requests
pub mod DeviceInfo
pub mod IpConfig
pub mod Message
use wlan_opc.Base.{ℕ, Option, some, ◌>>=◌, ◌>>◌, guard, leb, ◌==◌, length, Bytes}
use wlan_opc.Protocol.Ids.{cmd_request, fixed_header_size}
use wlan_opc.Protocol.Frame.{frame_parse, empty_frame_build}

-- The checks that every unpack function of a frame with a body begins with: it parses, it has the
-- expected type and identifier, and its body is long enough.
unfoldable pub parse_as : (cmd_type expected_id body_min : ℕ) → Bytes → Option Bytes
parse_as cmd_type expected_id body_min frame = do
  (hdr, body) ← frame_parse frame
  guard (hdr.command_type == cmd_type)
  guard (hdr.req_indication_id == expected_id)
  guard (leb body_min (length body))
  some body

unfoldable pub empty_req_pack : (frame_room req_id seq_no : ℕ) → Option Bytes
empty_req_pack frame_room req_id seq_no = empty_frame_build frame_room cmd_request req_id seq_no

unfoldable pub empty_req_unpack : Bytes → ℕ → Option (Unit {0})
empty_req_unpack frame expected_req_id = do
  guard (length frame == fixed_header_size)
  (hdr, body) ← frame_parse frame
  guard (hdr.command_type == cmd_request)
  guard (hdr.req_indication_id == expected_req_id)
  some tt
