-- ===== src/Opcd/Indication.antt =====
-- opcd/indication.c: the indications of the wireless link and of congestion, held back to the end of
-- the reporting period. `sendto` says of each datagram whether all of it was
-- sent.
pub mod Staging
use wlan_opc.Base.{
  ℕ, zero, suc, ◌+◌, ◌-◌, ◌%◌, Bool, true, false, not, ◌&&◌, ◌||◌, Option, none, some, List, [],
  ◌∷◌, ◌++◌, Bytes, ◌==◌, ◌/=◌, if◌then◌else◌, ltb, leb, set, get_or, take,
}
use wlan_opc.Base.Int.{ℤ}
use Prim.Native.Nat.{bit_and, bit_or}
use wlan_opc.Protocol.Ids.{frame_max}
use wlan_opc.Protocol.CString.{copy_with_null_pad}
use wlan_opc.Protocol.Indications.{
  IndWlanStatusChange, IndRoaming, IndApDisconnect, IndFaultDetect, IndKeepAlive,
  wlan_status_change_pack, roaming_pack, ap_disconnect_pack, fault_detect_pack, keep_alive_pack,
}
use wlan_opc.Opcd.FaultProbe.{
  FaultProbe, FaultReport, FaultRes, res_cpu, res_disk, res_net, res_mem, Measure, fault_probe_due,
  fault_probe_rearm,
}
use wlan_opc.Opcd.FaultProbe.Sample.{Readings, fault_probe_sample}
use wlan_opc.Opcd.State.{State, Datagram, IndCoalesce, no_coalesce, send_indication_frame, next_seq}
use wlan_opc.Opcd.IndicationConfig.{opcd_ind_radio_up}

abbrev pub ind_bit_wlan_status_change : ℕ
ind_bit_wlan_status_change = 0x02

abbrev pub ind_bit_roaming : ℕ
ind_bit_roaming = 0x04

abbrev pub ind_bit_ap_disconnect : ℕ
ind_bit_ap_disconnect = 0x08

abbrev pub ind_bit_fault_detect : ℕ
ind_bit_fault_detect = 0x10

abbrev pub ind_bit_keep_alive : ℕ
ind_bit_keep_alive = 0x80

abbrev pub wlan_status_connected : ℕ
wlan_status_connected = 1

abbrev pub congestion_cpu : ℕ
congestion_cpu = 1

abbrev pub congestion_memory : ℕ
congestion_memory = 2

abbrev pub congestion_disk_io : ℕ
congestion_disk_io = 3

abbrev pub congestion_network : ℕ
congestion_network = 4

-- Whether a bit is in the information that the client asked for.
abbrev pub wants : State → ℕ → Bool
wants st mask = bit_and st.indication_info_bits mask /= 0

-- What `send_indication_frame` returns is 0: nothing had to be sent, or all of it was.
unfoldable pub sent_all : (Datagram → Bool) → Option Bytes → List Datagram → Bool
sent_all sendto none sent = false
sent_all sendto (some frame) [] = true
sent_all sendto (some frame) (d ∷ ds) = sendto d

-- The state, what was handed to `sendto`, and whether the result is 0.
pub record Sending : Type 0 where
  pub state : State
  pub sent : List Datagram
  pub ok : Bool

-- A frame with the next number.
unfoldable pub emit : (Datagram → Bool) → State → (ℕ → Option Bytes) → Sending
unfolding next_seq
emit sendto st pack =
    let (seq, st1) = next_seq st in
    let sent = send_indication_frame st1 (pack seq) in
    record { state = st1; sent = sent; ok = sent_all sendto (pack seq) sent }

abbrev pub wlan_status_frame : IndWlanStatusChange → ℕ → Option Bytes
wlan_status_frame ind seq = wlan_status_change_pack frame_max seq ind

abbrev pub roaming_frame : IndRoaming → ℕ → Option Bytes
roaming_frame ind seq = roaming_pack frame_max seq ind

abbrev pub ap_disconnect_frame : IndApDisconnect → ℕ → Option Bytes
ap_disconnect_frame ind seq = ap_disconnect_pack frame_max seq ind

abbrev pub fault_detect_frame : IndFaultDetect → ℕ → Option Bytes
fault_detect_frame ind seq = fault_detect_pack frame_max seq ind

abbrev pub keep_alive_frame : IndKeepAlive → ℕ → Option Bytes
keep_alive_frame ind seq = keep_alive_pack frame_max seq ind

-- Changes are staged in the first element; the second is not used.
unfoldable pub stage_change : State → (IndCoalesce → IndCoalesce) → State
stage_change st change = record st {
  indication_coalesce =
      set st.indication_coalesce 0 (change (get_or st.indication_coalesce 0 no_coalesce));
}

-- Nothing is sent now.
abbrev pub quiet : State → Bool → Sending
quiet st ok = record { state = st; sent = []; ok = ok }

unfoldable pub stage_wlan : IndWlanStatusChange → IndCoalesce → IndCoalesce
stage_wlan ind c = record c {
  wlan_status = ind.wlan_status;
  wlan_ch = ind.indication_ch;
  wlan_pending = true;
}

unfoldable pub stage_roaming : IndRoaming → IndCoalesce → IndCoalesce
stage_roaming ind c = record c {
  roam_snr = ind.current_snr;
  roam_rssi = ind.current_rssi;
  roam_ch = ind.ch_number;
  roam_mac = ind.connect_ap_mac;
  roam_pending = true;
}

unfoldable pub stage_ap_disconnect : IndApDisconnect → IndCoalesce → IndCoalesce
stage_ap_disconnect ind c = record c {
  apd_msg_id = ind.message_id;
  apd_reason = ind.result_code;
  apd_mac = ind.disconnect_ap_mac;
  apd_pending = true;
}

unfoldable pub stage_fault : (slot val : ℕ) → IndCoalesce → IndCoalesce
stage_fault slot val c = record c {
  fault_val = set c.fault_val slot val;
  fault_pending = set c.fault_pending slot true;
}

unfoldable pub unstage_fault : (slot : ℕ) → IndCoalesce → IndCoalesce
unstage_fault slot c = record c { fault_pending = set c.fault_pending slot false }

-- What an element holds.
abbrev pub staged_wlan : IndCoalesce → IndWlanStatusChange
staged_wlan c = record { wlan_status = c.wlan_status; indication_ch = c.wlan_ch }

abbrev pub staged_roaming : IndCoalesce → IndRoaming
staged_roaming c = record {
  current_snr = c.roam_snr;
  current_rssi = c.roam_rssi;
  connect_ap_mac = c.roam_mac;
  ch_number = c.roam_ch;
}

abbrev pub staged_ap_disconnect : IndCoalesce → IndApDisconnect
staged_ap_disconnect c = record {
  message_id = c.apd_msg_id;
  result_code = c.apd_reason;
  disconnect_ap_mac = c.apd_mac;
}

-- The association is latched first, and a new one is reported; then the change itself.
unfoldable pub latch_assoc : (mono_now : ℕ) → State → IndWlanStatusChange → State × List Datagram
latch_assoc mono_now st ind =
    let latched = record st {
      wlan0_assoc_known = true;
      wlan0_assoc = ind.wlan_status == wlan_status_connected;
      wlan0_assoc_at = mono_now;
    } in
    if ind.wlan_status == wlan_status_connected then opcd_ind_radio_up latched else (latched, [])

unfoldable pub opcd_ind_wlan_status :
    (Datagram → Bool) → (mono_now : ℕ) → State → IndWlanStatusChange → Sending
opcd_ind_wlan_status sendto mono_now st ind =
    let (st1, up) = latch_assoc mono_now st ind in
    let now = emit sendto st1 (wlan_status_frame ind) in
    if not (wants st1 ind_bit_wlan_status_change)
    then record { state = st1; sent = up; ok = true }
    else if ltb 0 st1.indication_period_s
    then record { state = stage_change st1 (stage_wlan ind); sent = up; ok = true }
    else record { state = now.state; sent = up ++ now.sent; ok = now.ok }

unfoldable pub opcd_ind_roaming : (Datagram → Bool) → State → IndRoaming → Sending
opcd_ind_roaming sendto st ind =
    if not (wants st ind_bit_roaming)
    then quiet st true
    else if ltb 0 st.indication_period_s
    then quiet (stage_change st (stage_roaming ind)) true
    else emit sendto st (roaming_frame ind)

unfoldable pub opcd_ind_ap_disconnect : (Datagram → Bool) → State → IndApDisconnect → Sending
opcd_ind_ap_disconnect sendto st ind =
    if not (wants st ind_bit_ap_disconnect)
    then quiet st true
    else if ltb 0 st.indication_period_s
    then quiet (stage_change st (stage_ap_disconnect ind)) true
    else emit sendto st (ap_disconnect_frame ind)

unfoldable pub fault_slot : ℕ → Option ℕ
fault_slot id = if leb congestion_cpu id && leb id congestion_network then some (id - 1) else none

abbrev pub clear_slot : State → Option ℕ → State
clear_slot st none = st
clear_slot st (some slot) = stage_change st (unstage_fault slot)

unfoldable pub opcd_ind_fault_clear : State → ℕ → State
opcd_ind_fault_clear st id =
    if st.indication_period_s == 0 then st else clear_slot st (fault_slot id)

abbrev pub stage_slot : State → Option ℕ → (val : ℕ) → Sending
stage_slot st none val = quiet st false
stage_slot st (some slot) val = quiet (stage_change st (stage_fault slot val)) true

unfoldable pub opcd_ind_fault_detect : (Datagram → Bool) → State → IndFaultDetect → Sending
opcd_ind_fault_detect sendto st ind =
    if not (wants st ind_bit_fault_detect)
    then quiet st true
    else if ltb 0 st.indication_period_s
    then stage_slot st (fault_slot ind.congestion_id) ind.current_val
    else emit sendto st (fault_detect_frame ind)

-- An entry that the probe reports: when it could not be announced, it is to be reported again.
unfoldable pub announce_entry :
    (Datagram → Bool)
    → Measure
    → (id : ℕ) → FaultRes
    → State × List Datagram
    → State × List Datagram
announce_entry sendto m id res (st, sent) =
    let done =
      opcd_ind_fault_detect sendto st (record { congestion_id = id; current_val = m.pct }) in
    if not m.entered then (st, sent) else if done.ok then (done.state, sent ++ done.sent) else (
      record done.state { fault_probe = fault_probe_rearm done.state.fault_probe res },
      sent ++ done.sent,
    )

unfoldable pub withdraw_entry : Measure → (id : ℕ) → State × List Datagram → State × List Datagram
withdraw_entry m id (st, sent) = (if m.cleared then opcd_ind_fault_clear st id else st, sent)

unfoldable pub announce_report :
    (Datagram → Bool) → FaultReport → State × List Datagram → State × List Datagram
announce_report sendto rep st0 =
    let st1 = announce_entry sendto rep.cpu congestion_cpu res_cpu st0 in
    let st2 = announce_entry sendto rep.mem congestion_memory res_mem st1 in
    let st3 = announce_entry sendto rep.disk congestion_disk_io res_disk st2 in
    let st4 = announce_entry sendto rep.net congestion_network res_net st3 in
    let st5 = withdraw_entry rep.cpu congestion_cpu st4 in
    let st6 = withdraw_entry rep.mem congestion_memory st5 in
    let st7 = withdraw_entry rep.disk congestion_disk_io st6 in
    withdraw_entry rep.net congestion_network st7

unfoldable pub fault_probe_tick :
    (Datagram → Bool) → Readings → State → (elapsed_s : ℕ) → State × List Datagram
fault_probe_tick sendto readings st elapsed_s =
    let (due, p1) = fault_probe_due st.fault_probe elapsed_s in
    let (rep, p2) = fault_probe_sample p1 readings in
    if not (wants st ind_bit_fault_detect)
    then (st, [])
    else if not due
    then (record st { fault_probe = p1 }, [])
    else announce_report sendto rep (record st { fault_probe = p2 }, [])
