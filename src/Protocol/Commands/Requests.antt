-- ===== src/Protocol/Commands/Requests.antt =====
-- protocol/commands.c: the requests with a body of one fixed size, and GetBasicInformation's answer.
pub mod RoundTrip
use wlan_opc.Base.{ℕ, Option, some, ◌>>=◌, Bytes, Writes, List, [], ◌∷◌, drop, take, fill}
use wlan_opc.Protocol.Ids.{
  cmd_request, cmd_ack, req_login, req_get_basic_info, req_set_password, req_change_ip_address,
  req_set_radio_config, req_set_indication_config,
}
use wlan_opc.Protocol.Codec.{byte_at, be16_read, be32_read, be16_write, be32_write}
use wlan_opc.Protocol.CString.{copy_with_null_pad, copy_string_field}
use wlan_opc.Protocol.Frame.{frame_build}
use wlan_opc.Protocol.Commands.{parse_as}
use wlan_opc.Protocol.Commands.Records.{
  LoginReq, GetBasicInfoAck, SetPasswordReq, ChangeIpAddressReq, SetRadioConfigReq,
  SetIndicationConfigReq,
}

abbrev pub scan_chlist_len : ℕ
scan_chlist_len = 8

unfoldable pub login_req_pack : (frame_room seq_no : ℕ) → LoginReq → Option Bytes
login_req_pack frame_room seq_no req =
    frame_build frame_room cmd_request req_login seq_no 184 (copy_with_null_pad 128 req.password)

unfoldable pub login_req_read : Bytes → LoginReq
login_req_read body =
    let (password, terminated) = copy_string_field 128 body in
    record { password = password; password_terminated = terminated }

unfoldable pub login_req_unpack : Bytes → Option LoginReq
login_req_unpack frame = do
  body ← parse_as cmd_request req_login 128 frame
  some (login_req_read body)

abbrev pub get_basic_info_ack_writes : GetBasicInfoAck → Writes
get_basic_info_ack_writes ack =
    (0, be32_write ack.vendor_code)
    ∷ (4, be16_write ack.product_code)
    ∷ (6, be16_write ack.product_subcode)
    ∷ (8, be32_write ack.device_status)
    ∷ (14, be16_write ack.station_type)
    ∷ []

unfoldable pub get_basic_info_ack_body : GetBasicInfoAck → Bytes
get_basic_info_ack_body ack = fill 16 (get_basic_info_ack_writes ack)

unfoldable pub get_basic_info_ack_pack : (frame_room seq_no : ℕ) → GetBasicInfoAck → Option Bytes
get_basic_info_ack_pack frame_room seq_no ack =
    frame_build frame_room cmd_ack req_get_basic_info seq_no 72 (get_basic_info_ack_body ack)

unfoldable pub get_basic_info_ack_read : Bytes → GetBasicInfoAck
get_basic_info_ack_read body = record {
  vendor_code = be32_read (drop 0 body);
  product_code = be16_read (drop 4 body);
  product_subcode = be16_read (drop 6 body);
  device_status = be32_read (drop 8 body);
  station_type = be16_read (drop 14 body);
}

unfoldable pub get_basic_info_ack_unpack : Bytes → Option GetBasicInfoAck
get_basic_info_ack_unpack frame = do
  body ← parse_as cmd_ack req_get_basic_info 16 frame
  some (get_basic_info_ack_read body)

abbrev pub set_password_req_writes : SetPasswordReq → Writes
set_password_req_writes req =
    (0, copy_with_null_pad 128 req.old_password)
    ∷ (128, copy_with_null_pad 128 req.new_password)
    ∷ []

unfoldable pub set_password_req_body : SetPasswordReq → Bytes
set_password_req_body req = fill 256 (set_password_req_writes req)

unfoldable pub set_password_req_pack : (frame_room seq_no : ℕ) → SetPasswordReq → Option Bytes
set_password_req_pack frame_room seq_no req =
    frame_build frame_room cmd_request req_set_password seq_no 312 (set_password_req_body req)

unfoldable pub set_password_req_read : Bytes → SetPasswordReq
set_password_req_read body =
    let (old, old_terminated) = copy_string_field 128 (drop 0 body) in
    let (new, new_terminated) = copy_string_field 128 (drop 128 body) in
    record {
      old_password = old;
      new_password = new;
      old_password_terminated = old_terminated;
      new_password_terminated = new_terminated;
    }

unfoldable pub set_password_req_unpack : Bytes → Option SetPasswordReq
set_password_req_unpack frame = do
  body ← parse_as cmd_request req_set_password 256 frame
  some (set_password_req_read body)

abbrev pub change_ip_address_req_writes : ChangeIpAddressReq → Writes
change_ip_address_req_writes req = (2, be16_write req.list_number) ∷ []

unfoldable pub change_ip_address_req_body : ChangeIpAddressReq → Bytes
change_ip_address_req_body req = fill 4 (change_ip_address_req_writes req)

unfoldable pub change_ip_address_req_pack :
    (frame_room seq_no : ℕ) → ChangeIpAddressReq → Option Bytes
change_ip_address_req_pack frame_room seq_no req =
    frame_build frame_room cmd_request req_change_ip_address seq_no 60
      (change_ip_address_req_body req)

unfoldable pub change_ip_address_req_read : Bytes → ChangeIpAddressReq
change_ip_address_req_read body = record { list_number = be16_read (drop 2 body) }

unfoldable pub change_ip_address_req_unpack : Bytes → Option ChangeIpAddressReq
change_ip_address_req_unpack frame = do
  body ← parse_as cmd_request req_change_ip_address 4 frame
  some (change_ip_address_req_read body)

abbrev pub set_radio_config_req_writes : SetRadioConfigReq → Writes
set_radio_config_req_writes req =
    (0, be16_write req.station_type)
    ∷ (2, be16_write req.priority_ch)
    ∷ (4, req.wlan1.mode ∷ [])
    ∷ (5, req.wlan1.bandwidth ∷ [])
    ∷ (6, be16_write req.wlan1.scan_band)
    ∷ (8, req.wlan1.scan_chlist)
    ∷ (16, req.wlan2.mode ∷ [])
    ∷ (17, req.wlan2.bandwidth ∷ [])
    ∷ (18, be16_write req.wlan2.scan_band)
    ∷ (20, req.wlan2.scan_chlist)
    ∷ []

unfoldable pub set_radio_config_req_body : SetRadioConfigReq → Bytes
set_radio_config_req_body req = fill 28 (set_radio_config_req_writes req)

unfoldable pub set_radio_config_req_pack :
    (frame_room seq_no : ℕ) → SetRadioConfigReq → Option Bytes
set_radio_config_req_pack frame_room seq_no req =
    frame_build frame_room cmd_request req_set_radio_config seq_no 84
      (set_radio_config_req_body req)

unfoldable pub set_radio_config_req_read : Bytes → SetRadioConfigReq
set_radio_config_req_read body = record {
  station_type = be16_read (drop 0 body);
  priority_ch = be16_read (drop 2 body);
  wlan1 = record {
    mode = byte_at (drop 4 body) 0;
    bandwidth = byte_at (drop 5 body) 0;
    scan_band = be16_read (drop 6 body);
    scan_chlist = take scan_chlist_len (drop 8 body);
  };
  wlan2 = record {
    mode = byte_at (drop 16 body) 0;
    bandwidth = byte_at (drop 17 body) 0;
    scan_band = be16_read (drop 18 body);
    scan_chlist = take scan_chlist_len (drop 20 body);
  };
}

unfoldable pub set_radio_config_req_unpack : Bytes → Option SetRadioConfigReq
set_radio_config_req_unpack frame = do
  body ← parse_as cmd_request req_set_radio_config 28 frame
  some (set_radio_config_req_read body)

abbrev pub set_indication_config_req_writes : SetIndicationConfigReq → Writes
set_indication_config_req_writes req =
    (0, be16_write req.recipient_port)
    ∷ (2, req.info_bits ∷ [])
    ∷ (3, req.period_seconds ∷ [])
    ∷ (4, be32_write req.recipient_ip)
    ∷ []

unfoldable pub set_indication_config_req_body : SetIndicationConfigReq → Bytes
set_indication_config_req_body req = fill 8 (set_indication_config_req_writes req)

unfoldable pub set_indication_config_req_pack :
    (frame_room seq_no : ℕ) → SetIndicationConfigReq → Option Bytes
set_indication_config_req_pack frame_room seq_no req =
    frame_build frame_room cmd_request req_set_indication_config seq_no 64
      (set_indication_config_req_body req)

unfoldable pub set_indication_config_req_read : Bytes → SetIndicationConfigReq
set_indication_config_req_read body = record {
  recipient_port = be16_read (drop 0 body);
  info_bits = byte_at (drop 2 body) 0;
  period_seconds = byte_at (drop 3 body) 0;
  recipient_ip = be32_read (drop 4 body);
}

unfoldable pub set_indication_config_req_unpack : Bytes → Option SetIndicationConfigReq
set_indication_config_req_unpack frame = do
  body ← parse_as cmd_request req_set_indication_config 8 frame
  some (set_indication_config_req_read body)
