-- ===== src/Protocol/Commands/DeviceInfo.antt =====
-- protocol/commands.c: GetDeviceInformation's answer, the largest message, with its dates and
-- radio blocks.
pub mod RoundTrip
use wlan_opc.Base.{ℕ, Option, some, ◌>>=◌, Bytes, Writes, [], ◌∷◌, drop, take, fill}
use wlan_opc.Base.Int.{to_u8, to_i8}
use wlan_opc.Protocol.Ids.{cmd_ack, req_get_device_info}
use wlan_opc.Protocol.Codec.{byte_at, be16_read, be32_read, be16_write, be32_write}
use wlan_opc.Protocol.CString.{copy_with_null_pad, copy_string_field}
use wlan_opc.Protocol.Frame.{frame_build}
use wlan_opc.Protocol.Commands.{parse_as}
use wlan_opc.Protocol.Commands.Records.{Date, WlanRadioState, GetDeviceInfoAck}

abbrev pub date_writes : Date → Writes
date_writes d = (0, be16_write d.year) ∷ (2, d.month ∷ []) ∷ (3, d.day ∷ []) ∷ []

-- The four bytes of a date.
unfoldable pub pack_date : Date → Bytes
pack_date d = fill 4 (date_writes d)

unfoldable pub unpack_date : Bytes → Date
unpack_date p = record {
  year = be16_read (drop 0 p);
  month = byte_at (drop 2 p) 0;
  day = byte_at (drop 3 p) 0;
}

abbrev pub radio_state_writes : WlanRadioState → Writes
radio_state_writes r =
    (0, r.mac)
    ∷ (6, r.mode ∷ [])
    ∷ (7, r.bandwidth ∷ [])
    ∷ (8, be16_write r.freq_mhz)
    ∷ (10, be16_write r.channel)
    ∷ (12, be16_write r.status)
    ∷ (14, to_u8 r.snr ∷ [])
    ∷ (15, to_u8 r.rssi ∷ [])
    ∷ (16, r.connect_ap_mac)
    ∷ (22, be16_write r.scan_band)
    ∷ (24, r.scan_chlist)
    ∷ []

-- The 32 bytes of a radio block, all of them written.
unfoldable pub pack_radio_state : WlanRadioState → Bytes
pack_radio_state r = fill 32 (radio_state_writes r)

unfoldable pub unpack_radio_state : Bytes → WlanRadioState
unpack_radio_state p = record {
  mac = take 6 (drop 0 p);
  mode = byte_at (drop 6 p) 0;
  bandwidth = byte_at (drop 7 p) 0;
  freq_mhz = be16_read (drop 8 p);
  channel = be16_read (drop 10 p);
  status = be16_read (drop 12 p);
  snr = to_i8 (byte_at (drop 14 p) 0);
  rssi = to_i8 (byte_at (drop 15 p) 0);
  connect_ap_mac = take 6 (drop 16 p);
  scan_band = be16_read (drop 22 p);
  scan_chlist = take 8 (drop 24 p);
}

abbrev pub get_device_info_ack_writes : GetDeviceInfoAck → Writes
get_device_info_ack_writes ack =
    (0, be16_write ack.result)
    ∷ (2, be16_write ack.error_cause)
    ∷ (4, be32_write ack.vendor_code)
    ∷ (8, be16_write ack.product_code)
    ∷ (10, be16_write ack.product_subcode)
    ∷ (12, pack_date ack.manufacture)
    ∷ (16, pack_date ack.shipment)
    ∷ (20, copy_with_null_pad 32 ack.firmware_version)
    ∷ (52, copy_with_null_pad 32 ack.hardware_version)
    ∷ (84, copy_with_null_pad 32 ack.serial_number)
    ∷ (116, ack.ethernet_mac)
    ∷ (124, be32_write ack.ip_address)
    ∷ (128, be32_write ack.subnet_mask)
    ∷ (132, be32_write ack.default_gateway)
    ∷ (136, be32_write ack.ntp_server)
    ∷ (140, copy_with_null_pad 32 ack.essid)
    ∷ (172, be32_write ack.device_status)
    ∷ (176, be16_write ack.station_type)
    ∷ (178, be16_write ack.priority_ch)
    ∷ (180, ack.ieee_11r ∷ [])
    ∷ (181, ack.ieee_11ai ∷ [])
    ∷ (182, ack.ieee_11k ∷ [])
    ∷ (183, ack.ieee_11v ∷ [])
    ∷ (224, pack_radio_state ack.wlan1)
    ∷ (288, pack_radio_state ack.wlan2)
    ∷ []

unfoldable pub get_device_info_ack_body : GetDeviceInfoAck → Bytes
get_device_info_ack_body ack = fill 352 (get_device_info_ack_writes ack)

unfoldable pub get_device_info_ack_pack : (frame_room seq_no : ℕ) → GetDeviceInfoAck → Option Bytes
get_device_info_ack_pack frame_room seq_no ack =
    frame_build frame_room cmd_ack req_get_device_info seq_no 408 (get_device_info_ack_body ack)

-- Whether a text field was terminated is not kept.
unfoldable pub get_device_info_ack_read : Bytes → GetDeviceInfoAck
get_device_info_ack_read body = record {
  result = be16_read (drop 0 body);
  error_cause = be16_read (drop 2 body);
  vendor_code = be32_read (drop 4 body);
  product_code = be16_read (drop 8 body);
  product_subcode = be16_read (drop 10 body);
  manufacture = unpack_date (drop 12 body);
  shipment = unpack_date (drop 16 body);
  firmware_version = (copy_string_field 32 (drop 20 body)).0;
  hardware_version = (copy_string_field 32 (drop 52 body)).0;
  serial_number = (copy_string_field 32 (drop 84 body)).0;
  ethernet_mac = take 6 (drop 116 body);
  ip_address = be32_read (drop 124 body);
  subnet_mask = be32_read (drop 128 body);
  default_gateway = be32_read (drop 132 body);
  ntp_server = be32_read (drop 136 body);
  essid = (copy_string_field 32 (drop 140 body)).0;
  device_status = be32_read (drop 172 body);
  station_type = be16_read (drop 176 body);
  priority_ch = be16_read (drop 178 body);
  ieee_11r = byte_at (drop 180 body) 0;
  ieee_11ai = byte_at (drop 181 body) 0;
  ieee_11k = byte_at (drop 182 body) 0;
  ieee_11v = byte_at (drop 183 body) 0;
  wlan1 = unpack_radio_state (drop 224 body);
  wlan2 = unpack_radio_state (drop 288 body);
}

unfoldable pub get_device_info_ack_unpack : Bytes → Option GetDeviceInfoAck
get_device_info_ack_unpack frame = do
  body ← parse_as cmd_ack req_get_device_info 352 frame
  some (get_device_info_ack_read body)
