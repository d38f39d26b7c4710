-- ===== src/Tests/Protocol.antt =====
-- Frames and messages of protocol/ at concrete values.
use wlan_opc.Base.{
  ℕ, ◌+◌, ◌≡◌, true, false, some, ◌>>=◌, Bytes, List, [], ◌∷◌, ◌++◌, length, zeros, arith,
}
use wlan_opc.Base.Int.{pos, negsuc}
use wlan_opc.Protocol.Codec.{header_pack, fixed_header_pack, be16_write}
use wlan_opc.Protocol.CString.{copy_with_null_pad}
use wlan_opc.Protocol.Frame.{frame_parse}
use wlan_opc.Protocol.Frame.Laws.{
  header, frame_build-eq_some, frame_parse-frame_build, frame_parse-empty_frame_build,
  frame_parse_sound, empty_frame_build-eq_some,
}
use wlan_opc.Protocol.Commands.Records.{
  WlanRadioState, WlanRadioCfg, GetDeviceInfoAck, SetPasswordReq, IpcfgEntry, SetRadioConfigReq,
  SetIndicationConfigReq,
}
use wlan_opc.Protocol.Commands.Message.{Request, request_pack, unpack_as, request_round_trip}
use wlan_opc.Protocol.Commands.DeviceInfo.{get_device_info_ack_pack, get_device_info_ack_unpack}
use wlan_opc.Protocol.Commands.DeviceInfo.RoundTrip.{
  IsWireRadioState, padded, get_device_info_ack_round_trip,
}
use wlan_opc.Protocol.Commands.IpConfig.{
  set_ip_config_list_req_pack, set_ip_config_list_req_unpack, ok,
}
use wlan_opc.Protocol.Commands.IpConfig.RoundTrip.{arrived, set_ip_config_list_req_round_trip}

abbrev my_password : Bytes
my_password = 77 ∷ 121 ∷ 80 ∷ 119 ∷ []

abbrev a_mac : Bytes
a_mac = 0 ∷ 17 ∷ 34 ∷ 51 ∷ 68 ∷ 85 ∷ []

abbrev channels : Bytes
channels = 0 ∷ 0 ∷ 0 ∷ 33 ∷ 0 ∷ 0 ∷ 0 ∷ 0 ∷ []

frame_parse-frame_build_example :
    frame_parse (header_pack (header 2 0xF001 7 60) ++ (0 ∷ 0 ∷ 0 ∷ 0 ∷ []))
    ≡ some (header 2 0xF001 7 60, 0 ∷ 0 ∷ 0 ∷ 0 ∷ [])
frame_parse-frame_build_example =
    frame_parse-frame_build 1424 2 0xF001 7 60 (0 ∷ 0 ∷ 0 ∷ 0 ∷ []) (omega arith) (omega arith)
      (omega arith) (omega arith)
      (frame_build-eq_some 1424 2 0xF001 7 60 (0 ∷ 0 ∷ 0 ∷ 0 ∷ []) (omega arith) (omega arith))

frame_parse_sound_example : 56 + 8 ≡ length (header_pack (header 2 1 7 56))
unfolding header_pack be16_write
frame_parse_sound_example =
    (frame_parse_sound (header_pack (header 2 1 7 56) ++ []) {hdr = header 2 1 7 56} {body = []} (
      frame_parse-frame_build 1424 2 1 7 56 [] (omega arith) (omega arith) (omega arith)
        (omega arith) (frame_build-eq_some 1424 2 1 7 56 [] (omega arith) (omega arith)))).1

abbrev two_passwords : SetPasswordReq
two_passwords = record {
  old_password = my_password;
  new_password = 65 ∷ 0 ∷ 66 ∷ [];
  old_password_terminated = false;
  new_password_terminated = false;
}

abbrev radio : WlanRadioCfg
radio = record { mode = 11; bandwidth = 2; scan_band = 2; scan_chlist = channels }

abbrev radio_config : SetRadioConfigReq
radio_config = record { station_type = 1; priority_ch = 0xFFFF; wlan1 = radio; wlan2 = radio }

abbrev indication_config : SetIndicationConfigReq
indication_config = record {
  recipient_port = 50607;
  info_bits = 0xBF;
  period_seconds = 10;
  recipient_ip = 0xC0A80001;
}

abbrev radio_state : WlanRadioState
radio_state = record {
  mac = a_mac;
  mode = 11;
  bandwidth = 2;
  freq_mhz = 5180;
  channel = 0x0224;
  status = 1;
  snr = pos 30;
  rssi = negsuc 61;
  connect_ap_mac = a_mac;
  scan_band = 2;
  scan_chlist = channels;
}

abbrev device_info : GetDeviceInfoAck
device_info = record {
  result = 0;
  error_cause = 0;
  vendor_code = 0x12345678;
  product_code = 1;
  product_subcode = 2;
  manufacture = record { year = 2026; month = 5; day = 25 };
  shipment = record { year = 2026; month = 6; day = 1 };
  firmware_version = 49 ∷ [];
  hardware_version = 50 ∷ [];
  serial_number = 51 ∷ [];
  ethernet_mac = a_mac;
  ip_address = 0xC0A80001;
  subnet_mask = 0xFFFFFF00;
  default_gateway = 0;
  ntp_server = 0;
  essid = my_password;
  device_status = 2;
  station_type = 1;
  priority_ch = 0xFFFF;
  ieee_11r = 1;
  ieee_11ai = 0;
  ieee_11k = 1;
  ieee_11v = 1;
  wlan1 = radio_state;
  wlan2 = radio_state;
}

radio_state-IsWireRadioState : IsWireRadioState radio_state
radio_state-IsWireRadioState = omega arith

get_device_info_ack_round_trip_example :
    (get_device_info_ack_pack 1424 3 device_info >>= get_device_info_ack_unpack)
    ≡ some (padded device_info)
get_device_info_ack_round_trip_example =
    get_device_info_ack_round_trip 1424 3 device_info (omega arith) (omega arith) (omega arith)

abbrev entry : ℕ → ℕ → IpcfgEntry
entry flag number = record {
  boundary_flag = flag;
  list_number = number;
  ip_address = 0xC0A80105;
  subnet_mask = 0xFFFFFF00;
  default_gateway = 0xC0A80101;
  ntp_server = 0;
  essid = my_password;
}

abbrev two_entries : List IpcfgEntry
two_entries = entry 1 1 ∷ entry 2 128 ∷ []

set_ip_config_list_req_round_trip_example :
    (set_ip_config_list_req_pack 1424 8 two_entries >>= λ frame.
    some (set_ip_config_list_req_unpack frame))
    ≡ some (ok (arrived two_entries))
set_ip_config_list_req_round_trip_example =
    set_ip_config_list_req_round_trip 1424 8 two_entries (omega arith) (omega arith) (omega arith)
      (omega arith) (omega arith)

frame_parse-empty_frame_build_example :
    (length (fixed_header_pack (header 1 0xF002 9 0)) ≡ 8)
    × (frame_parse (fixed_header_pack (header 1 0xF002 9 0)) ≡ some (header 1 0xF002 9 0, []))
unfolding fixed_header_pack be16_write
frame_parse-empty_frame_build_example =
    frame_parse-empty_frame_build 8 1 0xF002 9 {frame = fixed_header_pack (header 1 0xF002 9 0)}
      (omega arith) (omega arith) (omega arith)
      (empty_frame_build-eq_some 8 1 0xF002 9 (omega arith))

-- One entry, of list 5.
abbrev one_entry_frame : Bytes
one_entry_frame = 1 ∷ 1 ∷ 0x10 ∷ 0x02 ∷ 0 ∷ 8 ∷ 0 ∷ 120 ∷ (zeros 56 ++ (0 ∷ 0 ∷ 0 ∷ 5 ∷ zeros 60))

abbrev fifth_entry : IpcfgEntry
fifth_entry = record {
  boundary_flag = 0;
  list_number = 5;
  ip_address = 0;
  subnet_mask = 0;
  default_gateway = 0;
  ntp_server = 0;
  essid = zeros 32;
}

request_round_trip_example :
    (request_pack 1424 7 (Request.set_password two_passwords)
      >>= unpack_as (Request.set_password two_passwords))
    ≡ some (
        Request.set_password (record {
          old_password = copy_with_null_pad 128 my_password;
          new_password = copy_with_null_pad 128 (65 ∷ 0 ∷ 66 ∷ []);
          old_password_terminated = true;
          new_password_terminated = true;
        }))
request_round_trip_example =
    request_round_trip 1424 7 (Request.set_password two_passwords) (omega arith) (omega arith) tt
