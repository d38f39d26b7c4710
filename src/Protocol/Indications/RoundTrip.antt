-- ===== src/Protocol/Indications/RoundTrip.antt =====
-- Each notification that is packed is what the matching unpack function returns.
use wlan_opc.Base.{
  ℕ, ◌≤◌, ◌≡◌, refl, ap, ◌∙◌, some, ◌>>=◌, length, arith, IsAscending, length-fill,
  take-drop-fill_len,
}
use wlan_opc.Base.Int.{IsI8, to_u16, to_i8, to_i8-to_u16, to_u16-lt}
use wlan_opc.Protocol.Ids.{
  cmd_indication, ind_init_complete, ind_wlan_status_change, ind_roaming, ind_ap_disconnect,
  ind_fault_detect, ind_reset_notice, ind_keep_alive,
}
use wlan_opc.Protocol.Codec.{IsU16, IsU32}
use wlan_opc.Protocol.Codec.RoundTrip.{field16, field32, length-be16_write, length-be32_write}
use wlan_opc.Protocol.CString.{copy_with_null_pad, length-copy_with_null_pad, string_field}
use wlan_opc.Protocol.Commands.Wire.{parse_as-frame_build}
use wlan_opc.Protocol.Indications.{
  IndInitComplete, IndWlanStatusChange, IndRoaming, IndApDisconnect, IndFaultDetect, IndResetNotice,
  IndKeepAlive, init_complete_pack, init_complete_unpack, init_complete_body, init_complete_read,
  init_complete_writes, wlan_status_change_pack, wlan_status_change_unpack, wlan_status_change_body,
  wlan_status_change_read, wlan_status_change_writes, roaming_pack, roaming_unpack, roaming_body,
  roaming_read, roaming_writes, ap_disconnect_pack, ap_disconnect_unpack, ap_disconnect_body,
  ap_disconnect_read, ap_disconnect_writes, fault_detect_pack, fault_detect_unpack,
  fault_detect_body, fault_detect_read, fault_detect_writes, reset_notice_pack, reset_notice_unpack,
  reset_notice_body, reset_notice_read, reset_notice_writes, keep_alive_pack, keep_alive_unpack,
  keep_alive_body, keep_alive_read, keep_alive_writes,
}

pub record IsWireInitComplete (ind : IndInitComplete) : Type 0 where
  pub status_fits : IsU32 ind.status

init_complete-IsAscending :
    (ind : IndInitComplete) → IsWireInitComplete ind → IsAscending 4 0 (init_complete_writes ind)
init_complete-IsAscending ind w = omega (arith, length-be32_write)

init_complete_read-body :
    (ind : IndInitComplete)
    → IsWireInitComplete ind
    → init_complete_read (init_complete_body ind) ≡ ind
unfolding init_complete_read init_complete_body
init_complete_read-body ind w =
    let ws = init_complete_writes ind in
    let asc = init_complete-IsAscending ind w in
    λ i. record { status = field32 4 0 0 ind.status ws asc refl w.status_fits i }

-- A packed InitComplete indication is returned unchanged by its unpack function, when its fields fit
-- their widths, the sequence number fits 16 bits and the buffer holds 68 bytes.
pub init_complete_round_trip :
    (frame_room seq : ℕ) (ind : IndInitComplete)
    → IsU16 seq
    → 68 ≤ frame_room
    → IsWireInitComplete ind
    → (init_complete_pack frame_room seq ind >>= init_complete_unpack) ≡ some (ind)
unfolding init_complete_pack init_complete_unpack init_complete_body
init_complete_round_trip frame_room seq ind s room w =
    parse_as-frame_build frame_room cmd_indication ind_init_complete seq 4 4 60
      (init_complete_body ind) init_complete_read
      (length-fill 4 (init_complete_writes ind) (init_complete-IsAscending ind w)) (omega arith) s
      room
    ∙ ap some (init_complete_read-body ind w)

pub record IsWireWlanStatusChange (ind : IndWlanStatusChange) : Type 0 where
  pub wlan_status_fits : IsU16 ind.wlan_status
  pub indication_ch_fits : IsU16 ind.indication_ch

wlan_status_change-IsAscending :
    (ind : IndWlanStatusChange)
    → IsWireWlanStatusChange ind
    → IsAscending 4 0 (wlan_status_change_writes ind)
wlan_status_change-IsAscending ind w = omega (arith, length-be16_write)

wlan_status_change_read-body :
    (ind : IndWlanStatusChange)
    → IsWireWlanStatusChange ind
    → wlan_status_change_read (wlan_status_change_body ind) ≡ ind
unfolding wlan_status_change_read wlan_status_change_body
wlan_status_change_read-body ind w =
    let ws = wlan_status_change_writes ind in
    let asc = wlan_status_change-IsAscending ind w in
    λ i. record {
      wlan_status = field16 4 0 0 ind.wlan_status ws asc refl w.wlan_status_fits i;
      indication_ch = field16 4 1 2 ind.indication_ch ws asc refl w.indication_ch_fits i;
    }

-- A packed WlanStatusChange indication is returned unchanged by its unpack function, when its fields fit
-- their widths, the sequence number fits 16 bits and the buffer holds 68 bytes.
pub wlan_status_change_round_trip :
    (frame_room seq : ℕ) (ind : IndWlanStatusChange)
    → IsU16 seq
    → 68 ≤ frame_room
    → IsWireWlanStatusChange ind
    → (wlan_status_change_pack frame_room seq ind >>= wlan_status_change_unpack) ≡ some (ind)
unfolding wlan_status_change_pack wlan_status_change_unpack wlan_status_change_body
wlan_status_change_round_trip frame_room seq ind s room w =
    parse_as-frame_build frame_room cmd_indication ind_wlan_status_change seq 4 4 60
      (wlan_status_change_body ind) wlan_status_change_read
      (length-fill 4 (wlan_status_change_writes ind) (wlan_status_change-IsAscending ind w))
      (omega arith) s room
    ∙ ap some (wlan_status_change_read-body ind w)

pub record IsWireRoaming (ind : IndRoaming) : Type 0 where
  pub current_snr_fits : IsI8 ind.current_snr
  pub current_rssi_fits : IsI8 ind.current_rssi
  pub connect_ap_mac_fits : length ind.connect_ap_mac ≡ 6
  pub ch_number_fits : IsU16 ind.ch_number

roaming-IsAscending : (ind : IndRoaming) → IsWireRoaming ind → IsAscending 12 0 (roaming_writes ind)
roaming-IsAscending ind w = omega (arith, length-be16_write)

roaming_read-body : (ind : IndRoaming) → IsWireRoaming ind → roaming_read (roaming_body ind) ≡ ind
unfolding roaming_read roaming_body
roaming_read-body ind w =
    let ws = roaming_writes ind in
    let asc = roaming-IsAscending ind w in
    λ i. record {
      current_snr =
          (ap to_i8
                (field16 12 0 0 (to_u16 ind.current_snr) ws asc refl (to_u16-lt ind.current_snr))
              ∙ to_i8-to_u16 ind.current_snr w.current_snr_fits)
            i;
      current_rssi =
          (ap to_i8
                (field16 12 1 2 (to_u16 ind.current_rssi) ws asc refl (to_u16-lt ind.current_rssi))
              ∙ to_i8-to_u16 ind.current_rssi w.current_rssi_fits)
            i;
      connect_ap_mac =
          take-drop-fill_len 12 2 4 6 ind.connect_ap_mac ws asc refl w.connect_ap_mac_fits i;
      ch_number = field16 12 3 10 ind.ch_number ws asc refl w.ch_number_fits i;
    }

-- A packed Roaming indication is returned unchanged by its unpack function, signed levels included,
-- when its fields fit their widths, the sequence number fits 16 bits and the buffer holds 76 bytes.
pub roaming_round_trip :
    (frame_room seq : ℕ) (ind : IndRoaming)
    → IsU16 seq
    → 76 ≤ frame_room
    → IsWireRoaming ind
    → (roaming_pack frame_room seq ind >>= roaming_unpack) ≡ some (ind)
unfolding roaming_pack roaming_unpack roaming_body
roaming_round_trip frame_room seq ind s room w =
    parse_as-frame_build frame_room cmd_indication ind_roaming seq 12 12 68 (roaming_body ind)
      roaming_read (length-fill 12 (roaming_writes ind) (roaming-IsAscending ind w)) (omega arith) s
      room
    ∙ ap some (roaming_read-body ind w)

pub record IsWireApDisconnect (ind : IndApDisconnect) : Type 0 where
  pub message_id_fits : IsU16 ind.message_id
  pub result_code_fits : IsU16 ind.result_code
  pub disconnect_ap_mac_fits : length ind.disconnect_ap_mac ≡ 6

ap_disconnect-IsAscending :
    (ind : IndApDisconnect) → IsWireApDisconnect ind → IsAscending 12 0 (ap_disconnect_writes ind)
ap_disconnect-IsAscending ind w = omega (arith, length-be16_write)

ap_disconnect_read-body :
    (ind : IndApDisconnect)
    → IsWireApDisconnect ind
    → ap_disconnect_read (ap_disconnect_body ind) ≡ ind
unfolding ap_disconnect_read ap_disconnect_body
ap_disconnect_read-body ind w =
    let ws = ap_disconnect_writes ind in
    let asc = ap_disconnect-IsAscending ind w in
    λ i. record {
      message_id = field16 12 0 0 ind.message_id ws asc refl w.message_id_fits i;
      result_code = field16 12 1 2 ind.result_code ws asc refl w.result_code_fits i;
      disconnect_ap_mac =
          take-drop-fill_len 12 2 4 6 ind.disconnect_ap_mac ws asc refl w.disconnect_ap_mac_fits i;
    }

-- A packed ApDisconnect indication is returned unchanged by its unpack function, when its fields fit
-- their widths, the sequence number fits 16 bits and the buffer holds 76 bytes.
pub ap_disconnect_round_trip :
    (frame_room seq : ℕ) (ind : IndApDisconnect)
    → IsU16 seq
    → 76 ≤ frame_room
    → IsWireApDisconnect ind
    → (ap_disconnect_pack frame_room seq ind >>= ap_disconnect_unpack) ≡ some (ind)
unfolding ap_disconnect_pack ap_disconnect_unpack ap_disconnect_body
ap_disconnect_round_trip frame_room seq ind s room w =
    parse_as-frame_build frame_room cmd_indication ind_ap_disconnect seq 12 12 68
      (ap_disconnect_body ind) ap_disconnect_read
      (length-fill 12 (ap_disconnect_writes ind) (ap_disconnect-IsAscending ind w)) (omega arith) s
      room
    ∙ ap some (ap_disconnect_read-body ind w)

pub record IsWireFaultDetect (ind : IndFaultDetect) : Type 0 where
  pub congestion_id_fits : IsU16 ind.congestion_id
  pub current_val_fits : IsU16 ind.current_val

fault_detect-IsAscending :
    (ind : IndFaultDetect) → IsWireFaultDetect ind → IsAscending 4 0 (fault_detect_writes ind)
fault_detect-IsAscending ind w = omega (arith, length-be16_write)

fault_detect_read-body :
    (ind : IndFaultDetect) → IsWireFaultDetect ind → fault_detect_read (fault_detect_body ind) ≡ ind
unfolding fault_detect_read fault_detect_body
fault_detect_read-body ind w =
    let ws = fault_detect_writes ind in
    let asc = fault_detect-IsAscending ind w in
    λ i. record {
      congestion_id = field16 4 0 0 ind.congestion_id ws asc refl w.congestion_id_fits i;
      current_val = field16 4 1 2 ind.current_val ws asc refl w.current_val_fits i;
    }

-- A packed FaultDetect indication is returned unchanged by its unpack function, when its fields fit
-- their widths, the sequence number fits 16 bits and the buffer holds 68 bytes.
pub fault_detect_round_trip :
    (frame_room seq : ℕ) (ind : IndFaultDetect)
    → IsU16 seq
    → 68 ≤ frame_room
    → IsWireFaultDetect ind
    → (fault_detect_pack frame_room seq ind >>= fault_detect_unpack) ≡ some (ind)
unfolding fault_detect_pack fault_detect_unpack fault_detect_body
fault_detect_round_trip frame_room seq ind s room w =
    parse_as-frame_build frame_room cmd_indication ind_fault_detect seq 4 4 60
      (fault_detect_body ind) fault_detect_read
      (length-fill 4 (fault_detect_writes ind) (fault_detect-IsAscending ind w)) (omega arith) s
      room
    ∙ ap some (fault_detect_read-body ind w)

pub record IsWireResetNotice (ind : IndResetNotice) : Type 0 where
  pub reset_cause_fits : IsU32 ind.reset_cause

reset_notice-IsAscending :
    (ind : IndResetNotice) → IsWireResetNotice ind → IsAscending 4 0 (reset_notice_writes ind)
reset_notice-IsAscending ind w = omega (arith, length-be32_write)

reset_notice_read-body :
    (ind : IndResetNotice) → IsWireResetNotice ind → reset_notice_read (reset_notice_body ind) ≡ ind
unfolding reset_notice_read reset_notice_body
reset_notice_read-body ind w =
    let ws = reset_notice_writes ind in
    let asc = reset_notice-IsAscending ind w in
    λ i. record { reset_cause = field32 4 0 0 ind.reset_cause ws asc refl w.reset_cause_fits i }

-- A packed ResetNotice indication is returned unchanged by its unpack function, when its fields fit
-- their widths, the sequence number fits 16 bits and the buffer holds 68 bytes.
pub reset_notice_round_trip :
    (frame_room seq : ℕ) (ind : IndResetNotice)
    → IsU16 seq
    → 68 ≤ frame_room
    → IsWireResetNotice ind
    → (reset_notice_pack frame_room seq ind >>= reset_notice_unpack) ≡ some (ind)
unfolding reset_notice_pack reset_notice_unpack reset_notice_body
reset_notice_round_trip frame_room seq ind s room w =
    parse_as-frame_build frame_room cmd_indication ind_reset_notice seq 4 4 60
      (reset_notice_body ind) reset_notice_read
      (length-fill 4 (reset_notice_writes ind) (reset_notice-IsAscending ind w)) (omega arith) s
      room
    ∙ ap some (reset_notice_read-body ind w)

keep_alive-IsAscending : (ind : IndKeepAlive) → IsAscending 32 0 (keep_alive_writes ind)
keep_alive-IsAscending ind = omega (arith, length-copy_with_null_pad)

keep_alive_read-body :
    (ind : IndKeepAlive)
    → keep_alive_read (keep_alive_body ind)
      ≡ record { timestamp = copy_with_null_pad 32 ind.timestamp }
unfolding keep_alive_read keep_alive_body
keep_alive_read-body ind =
    let ws = keep_alive_writes ind in
    let asc = keep_alive-IsAscending ind in
    λ i. record { timestamp = (string_field 32 0 0 31 ind.timestamp ws asc refl i).0 }

-- A packed KeepAlive indication is returned by its unpack function with its text padded to 32 bytes,
-- cut to 31 before the padding, when the sequence number fits 16 bits and the buffer holds 96 bytes.
pub keep_alive_round_trip :
    (frame_room seq : ℕ) (ind : IndKeepAlive)
    → IsU16 seq
    → 96 ≤ frame_room
    → (keep_alive_pack frame_room seq ind >>= keep_alive_unpack)
      ≡ some (record { timestamp = copy_with_null_pad 32 ind.timestamp })
unfolding keep_alive_pack keep_alive_unpack keep_alive_body
keep_alive_round_trip frame_room seq ind s room =
    parse_as-frame_build frame_room cmd_indication ind_keep_alive seq 32 32 88 (keep_alive_body ind)
      keep_alive_read (length-fill 32 (keep_alive_writes ind) (keep_alive-IsAscending ind))
      (omega arith) s room
    ∙ ap some (keep_alive_read-body ind)
