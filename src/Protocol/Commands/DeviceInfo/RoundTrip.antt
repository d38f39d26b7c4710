-- ===== src/Protocol/Commands/DeviceInfo/RoundTrip.antt =====
-- GetDeviceInformation's answer: all 25 fields arrive.
use wlan_opc.Base.{
  ℕ, ◌≤◌, ◌≡◌, refl, ap, ◌∙◌, Bool, some, ◌>>=◌, Bytes, ◌++◌, length, get_elem?, fill, arith,
  IsAscending, length-fill, drop-fill, take-drop-fill_len, drop-fill_block, take-Reads,
}
use wlan_opc.Base.Int.{IsI8, to_u8, to_i8, to_i8-to_u8}
use wlan_opc.Protocol.Ids.{cmd_ack, req_get_device_info}
use wlan_opc.Protocol.Codec.{IsU16, IsU32}
use wlan_opc.Protocol.Codec.RoundTrip.{
  read8, read16, field8, field16, field32, length-be16_write, length-be32_write,
}
use wlan_opc.Protocol.CString.{copy_with_null_pad, length-copy_with_null_pad, string_field}
use wlan_opc.Protocol.Commands.Wire.{parse_as-frame_build}
use wlan_opc.Protocol.Commands.Records.{Date, WlanRadioState, GetDeviceInfoAck}
use wlan_opc.Protocol.Commands.DeviceInfo.{
  date_writes, pack_date, unpack_date, radio_state_writes, pack_radio_state, unpack_radio_state,
  get_device_info_ack_writes, get_device_info_ack_body, get_device_info_ack_pack,
  get_device_info_ack_read, get_device_info_ack_unpack,
}

pub record IsWireRadioState (r : WlanRadioState) : Type 0 where
  pub mac : length r.mac ≡ 6
  pub freq : IsU16 r.freq_mhz
  pub channel : IsU16 r.channel
  pub status : IsU16 r.status
  pub snr : IsI8 r.snr
  pub rssi : IsI8 r.rssi
  pub ap : length r.connect_ap_mac ≡ 6
  pub band : IsU16 r.scan_band
  pub chlist : length r.scan_chlist ≡ 8

pub record IsWireDeviceInfo (a : GetDeviceInfoAck) : Type 0 where
  pub result : IsU16 a.result
  pub cause : IsU16 a.error_cause
  pub vendor : IsU32 a.vendor_code
  pub product : IsU16 a.product_code
  pub subcode : IsU16 a.product_subcode
  pub made : IsU16 a.manufacture.year
  pub shipped : IsU16 a.shipment.year
  pub mac : length a.ethernet_mac ≡ 6
  pub ip : IsU32 a.ip_address
  pub mask : IsU32 a.subnet_mask
  pub gateway : IsU32 a.default_gateway
  pub ntp : IsU32 a.ntp_server
  pub status : IsU32 a.device_status
  pub station : IsU16 a.station_type
  pub priority : IsU16 a.priority_ch
  pub radio1 : IsWireRadioState a.wlan1
  pub radio2 : IsWireRadioState a.wlan2

-- A text as it arrives: cut at its first NUL or the field's width, and padded.
abbrev pub padded : GetDeviceInfoAck → GetDeviceInfoAck
padded a = record a {
  firmware_version = copy_with_null_pad 32 a.firmware_version;
  hardware_version = copy_with_null_pad 32 a.hardware_version;
  serial_number = copy_with_null_pad 32 a.serial_number;
  essid = copy_with_null_pad 32 a.essid;
}

date-IsAscending : (d : Date) → IsAscending 4 0 (date_writes d)
date-IsAscending d = omega (arith, length-be16_write)

length-pack_date : (d : Date) → length (pack_date d) ≡ 4
unfolding pack_date
length-pack_date d = length-fill 4 (date_writes d) (date-IsAscending d)

unpack_date-pack : (d : Date) (rest : Bytes) → IsU16 d.year → unpack_date (pack_date d ++ rest) ≡ d
unfolding unpack_date pack_date
unpack_date-pack d rest h =
    let ws = date_writes d in
    let p = fill 4 ws ++ rest in
    let at = λ (i off : ℕ) (bs : Bytes) (e : get_elem? ws i ≡ some (off, bs)).
      drop-fill_block 4 i off bs ws rest (date-IsAscending d) e in
    λ i. record {
      year = read16 p 0 d.year (at 0 0 _ refl) h i;
      month = read8 p 2 d.month (at 1 2 _ refl) i;
      day = read8 p 3 d.day (at 2 3 _ refl) i;
    }

radio_state-IsAscending :
    (r : WlanRadioState) → IsWireRadioState r → IsAscending 32 0 (radio_state_writes r)
radio_state-IsAscending r w = omega (arith, length-be16_write)

length-pack_radio_state :
    (r : WlanRadioState) → IsWireRadioState r → length (pack_radio_state r) ≡ 32
unfolding pack_radio_state
length-pack_radio_state r w = length-fill 32 (radio_state_writes r) (radio_state-IsAscending r w)

unpack_radio_state-pack :
    (r : WlanRadioState) (rest : Bytes)
    → IsWireRadioState r
    → unpack_radio_state (pack_radio_state r ++ rest) ≡ r
unfolding unpack_radio_state pack_radio_state
unpack_radio_state-pack r rest w =
    let ws = radio_state_writes r in
    let p = fill 32 ws ++ rest in
    let at = λ (i off : ℕ) (bs : Bytes) (e : get_elem? ws i ≡ some (off, bs)).
      drop-fill_block 32 i off bs ws rest (radio_state-IsAscending r w) e in
    λ i. record {
      mac = take-Reads p 0 6 r.mac (at 0 0 _ refl) w.mac i;
      mode = read8 p 6 r.mode (at 1 6 _ refl) i;
      bandwidth = read8 p 7 r.bandwidth (at 2 7 _ refl) i;
      freq_mhz = read16 p 8 r.freq_mhz (at 3 8 _ refl) w.freq i;
      channel = read16 p 10 r.channel (at 4 10 _ refl) w.channel i;
      status = read16 p 12 r.status (at 5 12 _ refl) w.status i;
      snr = (ap to_i8 (read8 p 14 (to_u8 r.snr) (at 6 14 _ refl)) ∙ to_i8-to_u8 r.snr w.snr) i;
      rssi = (ap to_i8 (read8 p 15 (to_u8 r.rssi) (at 7 15 _ refl)) ∙ to_i8-to_u8 r.rssi w.rssi) i;
      connect_ap_mac = take-Reads p 16 6 r.connect_ap_mac (at 8 16 _ refl) w.ap i;
      scan_band = read16 p 22 r.scan_band (at 9 22 _ refl) w.band i;
      scan_chlist = take-Reads p 24 8 r.scan_chlist (at 10 24 _ refl) w.chlist i;
    }

device_info-IsAscending :
    (a : GetDeviceInfoAck) → IsWireDeviceInfo a → IsAscending 352 0 (get_device_info_ack_writes a)
device_info-IsAscending a w = omega (
  arith,
  length-be16_write,
  length-be32_write,
  length-copy_with_null_pad,
  length-pack_date,
  length-pack_radio_state a.wlan1 w.radio1,
  length-pack_radio_state a.wlan2 w.radio2,
)

get_device_info_ack_read-body :
    (a : GetDeviceInfoAck)
    → IsWireDeviceInfo a
    → get_device_info_ack_read (get_device_info_ack_body a) ≡ padded a
unfolding get_device_info_ack_read get_device_info_ack_body
get_device_info_ack_read-body a w =
    let ws = get_device_info_ack_writes a in
    let asc = device_info-IsAscending a w in
    let text =
      λ (i off : ℕ) (src : Bytes) (e : get_elem? ws i ≡ some (off, copy_with_null_pad 32 src)).
        ap (λ (r : Bytes × Bool). r.0) (string_field 352 i off 31 src ws asc e) in
    let date =
      λ (i off : ℕ) (d : Date) (e : get_elem? ws i ≡ some (off, pack_date d)) (y : IsU16 d.year).
        let (rest, p) = drop-fill 352 i off (pack_date d) ws asc e in
        ap unpack_date p ∙ unpack_date-pack d rest y in
    let radio =
      λ (i off : ℕ) (r : WlanRadioState) (e : get_elem? ws i ≡ some (off, pack_radio_state r))
          (y : IsWireRadioState r).
        let (rest, p) = drop-fill 352 i off (pack_radio_state r) ws asc e in
        ap unpack_radio_state p ∙ unpack_radio_state-pack r rest y in
    λ i. record {
      result = field16 352 0 0 a.result ws asc refl w.result i;
      error_cause = field16 352 1 2 a.error_cause ws asc refl w.cause i;
      vendor_code = field32 352 2 4 a.vendor_code ws asc refl w.vendor i;
      product_code = field16 352 3 8 a.product_code ws asc refl w.product i;
      product_subcode = field16 352 4 10 a.product_subcode ws asc refl w.subcode i;
      manufacture = date 5 12 a.manufacture refl w.made i;
      shipment = date 6 16 a.shipment refl w.shipped i;
      firmware_version = text 7 20 a.firmware_version refl i;
      hardware_version = text 8 52 a.hardware_version refl i;
      serial_number = text 9 84 a.serial_number refl i;
      ethernet_mac = take-drop-fill_len 352 10 116 6 a.ethernet_mac ws asc refl w.mac i;
      ip_address = field32 352 11 124 a.ip_address ws asc refl w.ip i;
      subnet_mask = field32 352 12 128 a.subnet_mask ws asc refl w.mask i;
      default_gateway = field32 352 13 132 a.default_gateway ws asc refl w.gateway i;
      ntp_server = field32 352 14 136 a.ntp_server ws asc refl w.ntp i;
      essid = text 15 140 a.essid refl i;
      device_status = field32 352 16 172 a.device_status ws asc refl w.status i;
      station_type = field16 352 17 176 a.station_type ws asc refl w.station i;
      priority_ch = field16 352 18 178 a.priority_ch ws asc refl w.priority i;
      ieee_11r = field8 352 19 180 a.ieee_11r ws asc refl i;
      ieee_11ai = field8 352 20 181 a.ieee_11ai ws asc refl i;
      ieee_11k = field8 352 21 182 a.ieee_11k ws asc refl i;
      ieee_11v = field8 352 22 183 a.ieee_11v ws asc refl i;
      wlan1 = radio 23 224 a.wlan1 refl w.radio1 i;
      wlan2 = radio 24 288 a.wlan2 refl w.radio2 i;
    }

-- A packed GetDeviceInfo acknowledgment is returned by its unpack function, its texts padded to 32
-- bytes and every other field unchanged, when its fields fit their widths, the sequence number fits
-- 16 bits and the buffer holds 416 bytes.
pub get_device_info_ack_round_trip :
    (frame_room seq : ℕ) (a : GetDeviceInfoAck)
    → IsU16 seq
    → 416 ≤ frame_room
    → IsWireDeviceInfo a
    → (get_device_info_ack_pack frame_room seq a >>= get_device_info_ack_unpack) ≡ some (padded a)
unfolding get_device_info_ack_pack get_device_info_ack_unpack get_device_info_ack_body
get_device_info_ack_round_trip frame_room seq a s room w =
    parse_as-frame_build frame_room cmd_ack req_get_device_info seq 352 352 408
      (get_device_info_ack_body a) get_device_info_ack_read
      (length-fill 352 (get_device_info_ack_writes a) (device_info-IsAscending a w)) (omega arith) s
      room
    ∙ ap some (get_device_info_ack_read-body a w)
