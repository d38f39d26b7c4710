-- ===== src/Protocol/Commands/Requests/RoundTrip.antt =====
-- Each request that is packed is what the matching unpack function returns.
use wlan_opc.Base.{
  ℕ, ◌≤◌, ◌≡◌, refl, ap, ap₂, ◌∙◌, Bool, some, ◌>>=◌, Bytes, [], length, true, arith, IsAscending,
  length-fill, take-drop-fill_len,
}
use mathlib.Core.List.{append-nil}
use wlan_opc.Protocol.Ids.{
  cmd_request, cmd_ack, req_login, req_get_basic_info, req_set_password, req_change_ip_address,
  req_set_radio_config, req_set_indication_config,
}
use wlan_opc.Protocol.Codec.{IsU16, IsU32}
use wlan_opc.Protocol.Codec.RoundTrip.{
  field8, field16, field32, length-be16_write, length-be32_write,
}
use wlan_opc.Protocol.CString.{
  copy_with_null_pad, length-copy_with_null_pad, copy_string_field-pad, string_field,
}
use wlan_opc.Protocol.Commands.Wire.{parse_as-frame_build}
use wlan_opc.Protocol.Commands.Records.{
  LoginReq, GetBasicInfoAck, SetPasswordReq, ChangeIpAddressReq, SetRadioConfigReq, WlanRadioCfg,
  SetIndicationConfigReq,
}
use wlan_opc.Protocol.Commands.Requests.{
  login_req_pack, login_req_read, login_req_unpack, get_basic_info_ack_pack,
  get_basic_info_ack_body, get_basic_info_ack_writes, get_basic_info_ack_read,
  get_basic_info_ack_unpack, set_password_req_pack, set_password_req_body, set_password_req_writes,
  set_password_req_read, set_password_req_unpack, change_ip_address_req_pack,
  change_ip_address_req_body, change_ip_address_req_writes, change_ip_address_req_read,
  change_ip_address_req_unpack, set_radio_config_req_body, set_radio_config_req_writes,
  set_radio_config_req_pack, set_radio_config_req_read, set_radio_config_req_unpack,
  set_indication_config_req_pack, set_indication_config_req_body, set_indication_config_req_writes,
  set_indication_config_req_read, set_indication_config_req_unpack,
}

pub record IsWireBasicInfo (a : GetBasicInfoAck) : Type 0 where
  pub vendor : IsU32 a.vendor_code
  pub product : IsU16 a.product_code
  pub subcode : IsU16 a.product_subcode
  pub status : IsU32 a.device_status
  pub station : IsU16 a.station_type

get_basic_info_ack-IsAscending :
    (a : GetBasicInfoAck) → IsAscending 16 0 (get_basic_info_ack_writes a)
get_basic_info_ack-IsAscending a = omega (arith, length-be16_write, length-be32_write)

get_basic_info_ack_read-body :
    (a : GetBasicInfoAck)
    → IsWireBasicInfo a
    → get_basic_info_ack_read (get_basic_info_ack_body a) ≡ a
unfolding get_basic_info_ack_read get_basic_info_ack_body
get_basic_info_ack_read-body a w =
    let ws = get_basic_info_ack_writes a in
    let asc = get_basic_info_ack-IsAscending a in
    λ i. record {
      vendor_code = field32 16 0 0 a.vendor_code ws asc refl w.vendor i;
      product_code = field16 16 1 4 a.product_code ws asc refl w.product i;
      product_subcode = field16 16 2 6 a.product_subcode ws asc refl w.subcode i;
      device_status = field32 16 3 8 a.device_status ws asc refl w.status i;
      station_type = field16 16 4 14 a.station_type ws asc refl w.station i;
    }

-- A packed GetBasicInfo acknowledgment is returned unchanged by its unpack function, when its fields
-- fit their widths, the sequence number fits 16 bits and the buffer holds 80 bytes.
pub get_basic_info_ack_round_trip :
    (frame_room seq : ℕ) (a : GetBasicInfoAck)
    → IsU16 seq
    → 80 ≤ frame_room
    → IsWireBasicInfo a
    → (get_basic_info_ack_pack frame_room seq a >>= get_basic_info_ack_unpack) ≡ some a
unfolding get_basic_info_ack_pack get_basic_info_ack_unpack get_basic_info_ack_body
get_basic_info_ack_round_trip frame_room seq a s room w =
    parse_as-frame_build frame_room cmd_ack req_get_basic_info seq 16 16 72
      (get_basic_info_ack_body a) get_basic_info_ack_read
      (length-fill 16 (get_basic_info_ack_writes a) (get_basic_info_ack-IsAscending a))
      (omega arith) s room
    ∙ ap some (get_basic_info_ack_read-body a w)

-- A packed Login request is returned by its unpack function with the password padded to 128 bytes,
-- cut to 127 or to its first NUL before the padding, and marked as terminated, when the sequence
-- number fits 16 bits and the buffer holds 192 bytes.
pub login_req_round_trip :
    (frame_room seq : ℕ) (req : LoginReq)
    → IsU16 seq
    → 192 ≤ frame_room
    → (login_req_pack frame_room seq req >>= login_req_unpack)
      ≡ some (record { password = copy_with_null_pad 128 req.password; password_terminated = true })
unfolding login_req_pack login_req_unpack login_req_read
login_req_round_trip frame_room seq req s room =
    let field = copy_with_null_pad 128 req.password in
    parse_as-frame_build frame_room cmd_request req_login seq 128 128 184 field login_req_read
      (length-copy_with_null_pad 128 req.password) (omega arith) s room
    ∙ ap (λ (r : Bytes × Bool). some (record { password = r.0; password_terminated = r.1 }))
        (rw (append-nil) at (copy_string_field-pad 127 req.password []))

set_password_req-IsAscending : (r : SetPasswordReq) → IsAscending 256 0 (set_password_req_writes r)
set_password_req-IsAscending r = omega (
  arith,
  length-copy_with_null_pad 128 r.old_password,
  length-copy_with_null_pad 128 r.new_password,
)

-- A packed SetPassword request is returned by its unpack function with both passwords padded to 128
-- bytes and marked as terminated, when the sequence number fits 16 bits and the buffer holds 320
-- bytes.
pub set_password_req_round_trip :
    (frame_room seq : ℕ) (req : SetPasswordReq)
    → IsU16 seq
    → 320 ≤ frame_room
    → (set_password_req_pack frame_room seq req >>= set_password_req_unpack)
      ≡ some (record {
        old_password = copy_with_null_pad 128 req.old_password;
        new_password = copy_with_null_pad 128 req.new_password;
        old_password_terminated = true;
        new_password_terminated = true;
      })
unfolding set_password_req_pack set_password_req_unpack set_password_req_read set_password_req_body
set_password_req_round_trip frame_room seq req s room =
    let ws = set_password_req_writes req in
    let asc = set_password_req-IsAscending req in
    parse_as-frame_build frame_room cmd_request req_set_password seq 256 256 312
      (set_password_req_body req) set_password_req_read (length-fill 256 ws asc) (omega arith) s
      room
    ∙ ap₂
        (λ (o n : Bytes × Bool). some (record {
          old_password = o.0;
          new_password = n.0;
          old_password_terminated = o.1;
          new_password_terminated = n.1;
        }))
        (string_field 256 0 0 127 req.old_password ws asc refl)
        (string_field 256 1 128 127 req.new_password ws asc refl)

-- A packed ChangeIpAddress request is returned unchanged by its unpack function, when its list number
-- and the sequence number fit 16 bits and the buffer holds 68 bytes.
pub change_ip_address_req_round_trip :
    (frame_room seq : ℕ) (req : ChangeIpAddressReq)
    → IsU16 seq
    → 68 ≤ frame_room
    → IsU16 req.list_number
    → (change_ip_address_req_pack frame_room seq req >>= change_ip_address_req_unpack) ≡ some req
unfolding change_ip_address_req_pack change_ip_address_req_unpack change_ip_address_req_read
    change_ip_address_req_body
change_ip_address_req_round_trip frame_room seq req s room w =
    let ws = change_ip_address_req_writes req in
    let asc : IsAscending 4 0 ws = omega (arith, length-be16_write) in
    parse_as-frame_build frame_room cmd_request req_change_ip_address seq 4 4 60
      (change_ip_address_req_body req) change_ip_address_req_read (length-fill 4 ws asc)
      (omega arith) s room
    ∙ ap (λ (n : ℕ). some (record { list_number = n }))
        (field16 4 0 2 req.list_number ws asc refl w)

pub record IsWireRadioCfg (c : WlanRadioCfg) : Type 0 where
  pub band : IsU16 c.scan_band
  pub chlist : length c.scan_chlist ≡ 8

pub record IsWireRadioConfig (r : SetRadioConfigReq) : Type 0 where
  pub station : IsU16 r.station_type
  pub priority : IsU16 r.priority_ch
  pub first : IsWireRadioCfg r.wlan1
  pub second : IsWireRadioCfg r.wlan2

set_radio_config_req-IsAscending :
    (r : SetRadioConfigReq) → IsWireRadioConfig r → IsAscending 28 0 (set_radio_config_req_writes r)
set_radio_config_req-IsAscending r w = omega (arith, length-be16_write)

set_radio_config_req_read-body :
    (r : SetRadioConfigReq)
    → IsWireRadioConfig r
    → set_radio_config_req_read (set_radio_config_req_body r) ≡ r
unfolding set_radio_config_req_read set_radio_config_req_body
set_radio_config_req_read-body r w =
    let ws = set_radio_config_req_writes r in
    let asc = set_radio_config_req-IsAscending r w in
    λ i. record {
      station_type = field16 28 0 0 r.station_type ws asc refl w.station i;
      priority_ch = field16 28 1 2 r.priority_ch ws asc refl w.priority i;
      wlan1 = record {
        mode = field8 28 2 4 r.wlan1.mode ws asc refl i;
        bandwidth = field8 28 3 5 r.wlan1.bandwidth ws asc refl i;
        scan_band = field16 28 4 6 r.wlan1.scan_band ws asc refl w.first.band i;
        scan_chlist = take-drop-fill_len 28 5 8 8 r.wlan1.scan_chlist ws asc refl w.first.chlist i;
      };
      wlan2 = record {
        mode = field8 28 6 16 r.wlan2.mode ws asc refl i;
        bandwidth = field8 28 7 17 r.wlan2.bandwidth ws asc refl i;
        scan_band = field16 28 8 18 r.wlan2.scan_band ws asc refl w.second.band i;
        scan_chlist =
            take-drop-fill_len 28 9 20 8 r.wlan2.scan_chlist ws asc refl w.second.chlist i;
      };
    }

-- A packed SetRadioConfig request is returned unchanged by its unpack function, both radios with
-- their channel bitmaps, when its fields fit their widths, the sequence number fits 16 bits and the
-- buffer holds 92 bytes.
pub set_radio_config_req_round_trip :
    (frame_room seq : ℕ) (req : SetRadioConfigReq)
    → IsU16 seq
    → 92 ≤ frame_room
    → IsWireRadioConfig req
    → (set_radio_config_req_pack frame_room seq req >>= set_radio_config_req_unpack) ≡ some req
unfolding set_radio_config_req_pack set_radio_config_req_unpack set_radio_config_req_body
set_radio_config_req_round_trip frame_room seq req s room w =
    parse_as-frame_build frame_room cmd_request req_set_radio_config seq 28 28 84
      (set_radio_config_req_body req) set_radio_config_req_read
      (length-fill 28 (set_radio_config_req_writes req) (set_radio_config_req-IsAscending req w))
      (omega arith) s room
    ∙ ap some (set_radio_config_req_read-body req w)

pub record IsWireIndicationConfig (r : SetIndicationConfigReq) : Type 0 where
  pub port : IsU16 r.recipient_port
  pub ip : IsU32 r.recipient_ip

-- A packed SetIndicationConfig request is returned unchanged by its unpack function, when its port,
-- its address and the sequence number fit their widths and the buffer holds 72 bytes.
pub set_indication_config_req_round_trip :
    (frame_room seq : ℕ) (req : SetIndicationConfigReq)
    → IsU16 seq
    → 72 ≤ frame_room
    → IsWireIndicationConfig req
    → (set_indication_config_req_pack frame_room seq req >>= set_indication_config_req_unpack)
      ≡ some req
unfolding set_indication_config_req_pack set_indication_config_req_unpack
    set_indication_config_req_body set_indication_config_req_read
set_indication_config_req_round_trip frame_room seq req s room w =
    let ws = set_indication_config_req_writes req in
    let asc : IsAscending 8 0 ws = omega (arith, length-be16_write, length-be32_write) in
    parse_as-frame_build frame_room cmd_request req_set_indication_config seq 8 8 64
      (set_indication_config_req_body req) set_indication_config_req_read (length-fill 8 ws asc)
      (omega arith) s room
    ∙ λ i. some (record {
      recipient_port = field16 8 0 0 req.recipient_port ws asc refl w.port i;
      info_bits = field8 8 1 2 req.info_bits ws asc refl i;
      period_seconds = field8 8 2 3 req.period_seconds ws asc refl i;
      recipient_ip = field32 8 3 4 req.recipient_ip ws asc refl w.ip i;
    })
