-- ===== src/Protocol/Indications/Message.antt =====
-- The seven indications as one family: what is sent, and what arrives.
use wlan_opc.Base.{ℕ, ◌≤◌, ◌≡◌, Option, some, none, Bytes, ◌>>=◌}
use wlan_opc.Protocol.Codec.{IsU16}
use wlan_opc.Protocol.CString.{copy_with_null_pad}
use wlan_opc.Protocol.Indications.{
  IndInitComplete, init_complete_pack, init_complete_unpack, IndWlanStatusChange,
  wlan_status_change_pack, wlan_status_change_unpack, IndRoaming, roaming_pack, roaming_unpack,
  IndApDisconnect, ap_disconnect_pack, ap_disconnect_unpack, IndFaultDetect, fault_detect_pack,
  fault_detect_unpack, IndResetNotice, reset_notice_pack, reset_notice_unpack, IndKeepAlive,
  keep_alive_pack, keep_alive_unpack,
}
use wlan_opc.Protocol.Indications.RoundTrip.{
  init_complete_round_trip, IsWireInitComplete, wlan_status_change_round_trip,
  IsWireWlanStatusChange, roaming_round_trip, IsWireRoaming, ap_disconnect_round_trip,
  IsWireApDisconnect, fault_detect_round_trip, IsWireFaultDetect, reset_notice_round_trip,
  IsWireResetNotice, keep_alive_round_trip,
}

pub data Indication : Type 0 where
  init_complete : IndInitComplete → Indication
  wlan_status_change : IndWlanStatusChange → Indication
  roaming : IndRoaming → Indication
  ap_disconnect : IndApDisconnect → Indication
  fault_detect : IndFaultDetect → Indication
  reset_notice : IndResetNotice → Indication
  keep_alive : IndKeepAlive → Indication

unfoldable pub indication_pack : (frame_room seq : ℕ) → Indication → Option Bytes
indication_pack room seq (init_complete ind) = init_complete_pack room seq ind
indication_pack room seq (wlan_status_change ind) = wlan_status_change_pack room seq ind
indication_pack room seq (roaming ind) = roaming_pack room seq ind
indication_pack room seq (ap_disconnect ind) = ap_disconnect_pack room seq ind
indication_pack room seq (fault_detect ind) = fault_detect_pack room seq ind
indication_pack room seq (reset_notice ind) = reset_notice_pack room seq ind
indication_pack room seq (keep_alive ind) = keep_alive_pack room seq ind

-- The unpack function of the same indication as the first argument.
unfoldable pub unpack_as : Indication → Bytes → Option Indication
unpack_as (init_complete _) frame = init_complete_unpack frame >>= λ ind. some (init_complete ind)
unpack_as (wlan_status_change _) frame =
    wlan_status_change_unpack frame >>= λ ind. some (wlan_status_change ind)
unpack_as (roaming _) frame = roaming_unpack frame >>= λ ind. some (roaming ind)
unpack_as (ap_disconnect _) frame = ap_disconnect_unpack frame >>= λ ind. some (ap_disconnect ind)
unpack_as (fault_detect _) frame = fault_detect_unpack frame >>= λ ind. some (fault_detect ind)
unpack_as (reset_notice _) frame = reset_notice_unpack frame >>= λ ind. some (reset_notice ind)
unpack_as (keep_alive _) frame = keep_alive_unpack frame >>= λ ind. some (keep_alive ind)

abbrev pub frame_size : Indication → ℕ
frame_size (init_complete ind) = 68
frame_size (wlan_status_change ind) = 68
frame_size (roaming ind) = 76
frame_size (ap_disconnect ind) = 76
frame_size (fault_detect ind) = 68
frame_size (reset_notice ind) = 68
frame_size (keep_alive ind) = 96

abbrev pub IsWire : Indication → Type 0
IsWire (init_complete ind) = IsWireInitComplete ind
IsWire (wlan_status_change ind) = IsWireWlanStatusChange ind
IsWire (roaming ind) = IsWireRoaming ind
IsWire (ap_disconnect ind) = IsWireApDisconnect ind
IsWire (fault_detect ind) = IsWireFaultDetect ind
IsWire (reset_notice ind) = IsWireResetNotice ind
IsWire (keep_alive ind) = Unit {0}

-- Only the text of KeepAlive is padded, and cut to leave room for its NUL.
abbrev pub arrived : Indication → Indication
arrived (keep_alive ind) = keep_alive (record { timestamp = copy_with_null_pad 32 ind.timestamp })
arrived (init_complete ind) = init_complete ind
arrived (wlan_status_change ind) = wlan_status_change ind
arrived (roaming ind) = roaming ind
arrived (ap_disconnect ind) = ap_disconnect ind
arrived (fault_detect ind) = fault_detect ind
arrived (reset_notice ind) = reset_notice ind

rewrap :
    {A : Type 0} (o : Option Bytes) (unpack : Bytes → Option A) (wrap : A → Indication) {a : A}
    → (o >>= unpack) ≡ some a
    → (o >>= λ frame. unpack frame >>= λ ind. some (wrap ind)) ≡ some (wrap a)
rewrap none unpack wrap e = absurd (cc)
rewrap (some frame) unpack wrap e = rw e

-- Each of the seven indications, packed, is returned by its unpack function unchanged but for the text
-- of KeepAlive, which is padded to 32 bytes and cut to 31; its fields fit their widths, the sequence
-- number fits 16 bits and the buffer holds the frame.
pub indication_round_trip :
    (frame_room seq : ℕ) (i : Indication)
    → IsU16 seq
    → frame_size i ≤ frame_room
    → IsWire i
    → (indication_pack frame_room seq i >>= unpack_as i) ≡ some (arrived i)
unfolding indication_pack unpack_as
indication_round_trip room seq (init_complete ind) hs hr w =
    rewrap (init_complete_pack room seq ind) init_complete_unpack init_complete
      (init_complete_round_trip room seq ind hs hr w)
indication_round_trip room seq (wlan_status_change ind) hs hr w =
    rewrap (wlan_status_change_pack room seq ind) wlan_status_change_unpack wlan_status_change
      (wlan_status_change_round_trip room seq ind hs hr w)
indication_round_trip room seq (roaming ind) hs hr w =
    rewrap (roaming_pack room seq ind) roaming_unpack roaming
      (roaming_round_trip room seq ind hs hr w)
indication_round_trip room seq (ap_disconnect ind) hs hr w =
    rewrap (ap_disconnect_pack room seq ind) ap_disconnect_unpack ap_disconnect
      (ap_disconnect_round_trip room seq ind hs hr w)
indication_round_trip room seq (fault_detect ind) hs hr w =
    rewrap (fault_detect_pack room seq ind) fault_detect_unpack fault_detect
      (fault_detect_round_trip room seq ind hs hr w)
indication_round_trip room seq (reset_notice ind) hs hr w =
    rewrap (reset_notice_pack room seq ind) reset_notice_unpack reset_notice
      (reset_notice_round_trip room seq ind hs hr w)
indication_round_trip room seq (keep_alive ind) hs hr w =
    rewrap (keep_alive_pack room seq ind) keep_alive_unpack keep_alive
      (keep_alive_round_trip room seq ind hs hr)
