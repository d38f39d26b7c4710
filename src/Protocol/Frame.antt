-- ===== src/Protocol/Frame.antt =====
-- protocol/frame.c: building and parsing whole frames. A frame that is built is the list of the
-- bytes written at `frame`, and `none` is the result -1, where nothing is sent.
pub mod Laws
use wlan_opc.Base.{
  ℕ, ◌+◌, ◌-◌, Bool, true, false, ◌&&◌, Option, none, some, List, [], ◌++◌, ◌>>=◌, ◌>>◌, guard, ltb,
  leb, ◌==◌, ◌/=◌, if◌then◌else◌, length, drop, Bytes,
}
use wlan_opc.Protocol.Ids.{protocol_version, fixed_header_size, header_size, payload_max, frame_max}
use wlan_opc.Protocol.Codec.{Header, fixed_header_pack, fixed_header_unpack, header_pack}

-- `frame_room` is the capacity of the caller's buffer.
unfoldable pub frame_build :
    (frame_room cmd_type req_id seq_no length_field : ℕ) → Bytes → Option Bytes
frame_build frame_room cmd_type req_id seq_no length_field body =
    let hdr : Header = record {
      protocol_version = protocol_version;
      command_type = cmd_type;
      req_indication_id = req_id;
      sequence_number = seq_no;
      length_field = length_field;
    } in
    if ltb payload_max (length body)
    then none
    else if ltb frame_room (header_size + length body)
    then none
    else some (header_pack hdr ++ body)

unfoldable pub empty_frame_build : (frame_room cmd_type req_id seq_no : ℕ) → Option Bytes
empty_frame_build frame_room cmd_type req_id seq_no =
    let hdr : Header = record {
      protocol_version = protocol_version;
      command_type = cmd_type;
      req_indication_id = req_id;
      sequence_number = seq_no;
      length_field = 0;
    } in
    if ltb frame_room fixed_header_size then none else some (fixed_header_pack hdr)

-- The three size checks: exactly the fixed header, or the common header up to the largest frame.
unfoldable pub frame_len_valid : ℕ → Bool
frame_len_valid frame_len =
    if ltb frame_len fixed_header_size
    then false
    else if ltb frame_max frame_len
    then false
    else if (frame_len /= fixed_header_size) && ltb frame_len header_size
    then false
    else true

-- The header and the body; the body of an 8-byte frame is empty.
unfoldable pub frame_parse : Bytes → Option (Header × Bytes)
frame_parse frame = do
  guard (frame_len_valid (length frame))
  hdr ← fixed_header_unpack frame
  guard (hdr.length_field == (length frame - fixed_header_size))
  if leb header_size (length frame) then some (hdr, drop header_size frame) else some (hdr, [])
