-- ===== src/Protocol/Indications.antt =====
-- protocol/indications.c: the seven notifications that the board sends.
pub mod RoundTrip
pub mod Message
use wlan_opc.Base.{ℕ, Option, some, ◌>>=◌, Bytes, Writes, [], ◌∷◌, drop, take, fill}
use wlan_opc.Base.Int.{ℤ, to_u16, to_i8}
use wlan_opc.Protocol.Ids.{
  cmd_indication, ind_init_complete, ind_wlan_status_change, ind_roaming, ind_ap_disconnect,
  ind_fault_detect, ind_reset_notice, ind_keep_alive,
}
use wlan_opc.Protocol.Codec.{be16_read, be32_read, be16_write, be32_write}
use wlan_opc.Protocol.CString.{copy_with_null_pad, copy_string_field}
use wlan_opc.Protocol.Frame.{frame_build}
use wlan_opc.Protocol.Commands.{parse_as}

pub record IndInitComplete : Type 0 where
  pub status : ℕ

pub record IndWlanStatusChange : Type 0 where
  pub wlan_status : ℕ
  pub indication_ch : ℕ

pub record IndRoaming : Type 0 where
  pub current_snr : ℤ
  pub current_rssi : ℤ
  pub connect_ap_mac : Bytes
  pub ch_number : ℕ

pub record IndApDisconnect : Type 0 where
  pub message_id : ℕ
  pub result_code : ℕ
  pub disconnect_ap_mac : Bytes

pub record IndFaultDetect : Type 0 where
  pub congestion_id : ℕ
  pub current_val : ℕ

pub record IndResetNotice : Type 0 where
  pub reset_cause : ℕ

pub record IndKeepAlive : Type 0 where
  pub timestamp : Bytes

abbrev pub init_complete_writes : IndInitComplete → Writes
init_complete_writes ind = (0, be32_write ind.status) ∷ []

unfoldable pub init_complete_body : IndInitComplete → Bytes
init_complete_body ind = fill 4 (init_complete_writes ind)

unfoldable pub init_complete_pack : (frame_room seq_no : ℕ) → IndInitComplete → Option Bytes
init_complete_pack frame_room seq_no ind =
    frame_build frame_room cmd_indication ind_init_complete seq_no 60 (init_complete_body ind)

unfoldable pub init_complete_read : Bytes → IndInitComplete
init_complete_read body = record { status = be32_read (drop 0 body) }

unfoldable pub init_complete_unpack : Bytes → Option IndInitComplete
init_complete_unpack frame = do
  body ← parse_as cmd_indication ind_init_complete 4 frame
  some (init_complete_read body)

abbrev pub wlan_status_change_writes : IndWlanStatusChange → Writes
wlan_status_change_writes ind =
    (0, be16_write ind.wlan_status) ∷ (2, be16_write ind.indication_ch) ∷ []

unfoldable pub wlan_status_change_body : IndWlanStatusChange → Bytes
wlan_status_change_body ind = fill 4 (wlan_status_change_writes ind)

unfoldable pub wlan_status_change_pack :
    (frame_room seq_no : ℕ) → IndWlanStatusChange → Option Bytes
wlan_status_change_pack frame_room seq_no ind =
    frame_build frame_room cmd_indication ind_wlan_status_change seq_no 60
      (wlan_status_change_body ind)

unfoldable pub wlan_status_change_read : Bytes → IndWlanStatusChange
wlan_status_change_read body = record {
  wlan_status = be16_read (drop 0 body);
  indication_ch = be16_read (drop 2 body);
}

unfoldable pub wlan_status_change_unpack : Bytes → Option IndWlanStatusChange
wlan_status_change_unpack frame = do
  body ← parse_as cmd_indication ind_wlan_status_change 4 frame
  some (wlan_status_change_read body)

abbrev pub roaming_writes : IndRoaming → Writes
roaming_writes ind =
    (0, be16_write (to_u16 ind.current_snr))
    ∷ (2, be16_write (to_u16 ind.current_rssi))
    ∷ (4, ind.connect_ap_mac)
    ∷ (10, be16_write ind.ch_number)
    ∷ []

unfoldable pub roaming_body : IndRoaming → Bytes
roaming_body ind = fill 12 (roaming_writes ind)

unfoldable pub roaming_pack : (frame_room seq_no : ℕ) → IndRoaming → Option Bytes
roaming_pack frame_room seq_no ind =
    frame_build frame_room cmd_indication ind_roaming seq_no 68 (roaming_body ind)

unfoldable pub roaming_read : Bytes → IndRoaming
roaming_read body = record {
  current_snr = to_i8 (be16_read (drop 0 body));
  current_rssi = to_i8 (be16_read (drop 2 body));
  connect_ap_mac = take 6 (drop 4 body);
  ch_number = be16_read (drop 10 body);
}

unfoldable pub roaming_unpack : Bytes → Option IndRoaming
roaming_unpack frame = do
  body ← parse_as cmd_indication ind_roaming 12 frame
  some (roaming_read body)

abbrev pub ap_disconnect_writes : IndApDisconnect → Writes
ap_disconnect_writes ind =
    (0, be16_write ind.message_id)
    ∷ (2, be16_write ind.result_code)
    ∷ (4, ind.disconnect_ap_mac)
    ∷ []

unfoldable pub ap_disconnect_body : IndApDisconnect → Bytes
ap_disconnect_body ind = fill 12 (ap_disconnect_writes ind)

unfoldable pub ap_disconnect_pack : (frame_room seq_no : ℕ) → IndApDisconnect → Option Bytes
ap_disconnect_pack frame_room seq_no ind =
    frame_build frame_room cmd_indication ind_ap_disconnect seq_no 68 (ap_disconnect_body ind)

unfoldable pub ap_disconnect_read : Bytes → IndApDisconnect
ap_disconnect_read body = record {
  message_id = be16_read (drop 0 body);
  result_code = be16_read (drop 2 body);
  disconnect_ap_mac = take 6 (drop 4 body);
}

unfoldable pub ap_disconnect_unpack : Bytes → Option IndApDisconnect
ap_disconnect_unpack frame = do
  body ← parse_as cmd_indication ind_ap_disconnect 12 frame
  some (ap_disconnect_read body)

abbrev pub fault_detect_writes : IndFaultDetect → Writes
fault_detect_writes ind = (0, be16_write ind.congestion_id) ∷ (2, be16_write ind.current_val) ∷ []

unfoldable pub fault_detect_body : IndFaultDetect → Bytes
fault_detect_body ind = fill 4 (fault_detect_writes ind)

unfoldable pub fault_detect_pack : (frame_room seq_no : ℕ) → IndFaultDetect → Option Bytes
fault_detect_pack frame_room seq_no ind =
    frame_build frame_room cmd_indication ind_fault_detect seq_no 60 (fault_detect_body ind)

unfoldable pub fault_detect_read : Bytes → IndFaultDetect
fault_detect_read body = record {
  congestion_id = be16_read (drop 0 body);
  current_val = be16_read (drop 2 body);
}

unfoldable pub fault_detect_unpack : Bytes → Option IndFaultDetect
fault_detect_unpack frame = do
  body ← parse_as cmd_indication ind_fault_detect 4 frame
  some (fault_detect_read body)

abbrev pub reset_notice_writes : IndResetNotice → Writes
reset_notice_writes ind = (0, be32_write ind.reset_cause) ∷ []

unfoldable pub reset_notice_body : IndResetNotice → Bytes
reset_notice_body ind = fill 4 (reset_notice_writes ind)

unfoldable pub reset_notice_pack : (frame_room seq_no : ℕ) → IndResetNotice → Option Bytes
reset_notice_pack frame_room seq_no ind =
    frame_build frame_room cmd_indication ind_reset_notice seq_no 60 (reset_notice_body ind)

unfoldable pub reset_notice_read : Bytes → IndResetNotice
reset_notice_read body = record { reset_cause = be32_read (drop 0 body) }

unfoldable pub reset_notice_unpack : Bytes → Option IndResetNotice
reset_notice_unpack frame = do
  body ← parse_as cmd_indication ind_reset_notice 4 frame
  some (reset_notice_read body)

abbrev pub keep_alive_writes : IndKeepAlive → Writes
keep_alive_writes ind = (0, copy_with_null_pad 32 ind.timestamp) ∷ []

unfoldable pub keep_alive_body : IndKeepAlive → Bytes
keep_alive_body ind = fill 32 (keep_alive_writes ind)

unfoldable pub keep_alive_pack : (frame_room seq_no : ℕ) → IndKeepAlive → Option Bytes
keep_alive_pack frame_room seq_no ind =
    frame_build frame_room cmd_indication ind_keep_alive seq_no 88 (keep_alive_body ind)

unfoldable pub keep_alive_read : Bytes → IndKeepAlive
keep_alive_read body = record { timestamp = (copy_string_field 32 (drop 0 body)).0 }

unfoldable pub keep_alive_unpack : Bytes → Option IndKeepAlive
keep_alive_unpack frame = do
  body ← parse_as cmd_indication ind_keep_alive 32 frame
  some (keep_alive_read body)
