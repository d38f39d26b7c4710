-- ===== src/Opcd/Tick.antt =====
-- opcd/indication.c: the end of a reporting period, and the periodic tick. `sendto` says of each
-- datagram whether all of it was sent.
pub mod Expected
pub mod Flush
pub mod Period
use wlan_opc.Base.{
  ℕ, zero, suc, ◌+◌, ◌-◌, ◌%◌, Bool, true, false, not, ◌&&◌, ◌||◌, Option, none, some, List, [],
  ◌∷◌, ◌++◌, Bytes, ◌==◌, ◌/=◌, if◌then◌else◌, ltb, leb, set, get_or, take,
}
use wlan_opc.Base.Int.{ℤ}
use Prim.Native.Nat.{bit_and, bit_or}
use wlan_opc.Protocol.Ids.{frame_max}
use wlan_opc.Protocol.CString.{copy_with_null_pad}
use wlan_opc.Protocol.Indications.{
  IndWlanStatusChange, IndRoaming, IndApDisconnect, IndFaultDetect, IndKeepAlive,
  wlan_status_change_pack, roaming_pack, ap_disconnect_pack, fault_detect_pack, keep_alive_pack,
}
use wlan_opc.Opcd.FaultProbe.{
  FaultProbe, FaultReport, FaultRes, res_cpu, res_disk, res_net, res_mem, Measure, fault_probe_due,
  fault_probe_rearm,
}
use wlan_opc.Opcd.FaultProbe.Sample.{Readings, fault_probe_sample}
use wlan_opc.Opcd.State.{State, Datagram, IndCoalesce, no_coalesce, send_indication_frame, next_seq}
use wlan_opc.Opcd.IndicationConfig.{opcd_ind_radio_up}
use wlan_opc.Opcd.Indication.{
  staged_wlan, staged_roaming, staged_ap_disconnect, ind_bit_wlan_status_change, ind_bit_roaming,
  ind_bit_ap_disconnect, ind_bit_fault_detect, ind_bit_keep_alive, wlan_status_connected,
  congestion_cpu, congestion_memory, congestion_disk_io, congestion_network, wants, sent_all,
  Sending, emit, wlan_status_frame, roaming_frame, ap_disconnect_frame, fault_detect_frame,
  keep_alive_frame, stage_change, quiet, stage_wlan, stage_roaming, stage_ap_disconnect,
  stage_fault, unstage_fault, latch_assoc, opcd_ind_wlan_status, opcd_ind_roaming,
  opcd_ind_ap_disconnect, fault_slot, opcd_ind_fault_clear, opcd_ind_fault_detect, announce_entry,
  withdraw_entry, announce_report, fault_probe_tick,
}

-- The state, the frames handed over, and whether the change still waits.
pub record Attempt : Type 0 where
  pub state : State
  pub sent : List Datagram
  pub waits : Bool

-- A change that waits is sent; it waits on when that fails.
unfoldable pub attempt : (Datagram → Bool) → State → Bool → (ℕ → Option Bytes) → Attempt
attempt sendto st pending pack =
    let done = emit sendto st pack in
    if pending
    then record { state = done.state; sent = done.sent; waits = not done.ok }
    else record { state = st; sent = []; waits = false }

pub record FaultAttempts : Type 0 where
  pub state : State
  pub sent : List Datagram
  pub waiting : List Bool

-- The resources from `slot` on.
unfoldable pub flush_faults :
    (Datagram → Bool) → State → (slot : ℕ) → List Bool → List ℕ → FaultAttempts
flush_faults sendto st slot [] vals = record { state = st; sent = []; waiting = [] }
flush_faults sendto st slot (p ∷ ps) vals =
    let ind : IndFaultDetect = record {
      congestion_id = slot + 1;
      current_val = get_or vals slot 0;
    } in
    let here = attempt sendto st p (fault_detect_frame ind) in
    let rest = flush_faults sendto here.state (slot + 1) ps vals in
    record {
      state = rest.state;
      sent = here.sent ++ rest.sent;
      waiting = here.waits ∷ rest.waiting;
    }

-- One element of `indication_coalesce`.
unfoldable pub flush_one :
    (Datagram → Bool) → State → IndCoalesce → State × List Datagram × IndCoalesce
flush_one sendto st c =
    let wlan = attempt sendto st c.wlan_pending (wlan_status_frame (staged_wlan c)) in
    let roam = attempt sendto wlan.state c.roam_pending (roaming_frame (staged_roaming c)) in
    let apd =
      attempt sendto roam.state c.apd_pending (ap_disconnect_frame (staged_ap_disconnect c)) in
    let faults = flush_faults sendto apd.state 0 c.fault_pending c.fault_val in
    (
      faults.state,
      wlan.sent ++ (roam.sent ++ (apd.sent ++ faults.sent)),
      record c {
        wlan_pending = wlan.waits;
        roam_pending = roam.waits;
        apd_pending = apd.waits;
        fault_pending = faults.waiting;
      },
    )

unfoldable pub flush_all :
    (Datagram → Bool) → State → List IndCoalesce → State × List Datagram × List IndCoalesce
flush_all sendto st [] = (st, [], [])
flush_all sendto st (c ∷ cs) =
    let (st1, sent, c') = flush_one sendto st c in
    let (st2, rest, cs') = flush_all sendto st1 cs in (st2, sent ++ rest, c' ∷ cs')

unfoldable pub opcd_ind_keep_alive : (Datagram → Bool) → State → (timestamp : Bytes) → Sending
opcd_ind_keep_alive sendto st timestamp =
    if not (wants st ind_bit_keep_alive)
    then quiet st true
    else emit sendto st (keep_alive_frame (record { timestamp = copy_with_null_pad 32 timestamp }))

-- The end of a period: the staged changes, then the sign of life.
unfoldable pub flush_period :
    (Datagram → Bool) → State → (timestamp : Bytes) → State × List Datagram
flush_period sendto st timestamp =
    let (st1, sent, cs) = flush_all sendto st st.indication_coalesce in
    let alive = opcd_ind_keep_alive sendto (record st1 { indication_coalesce = cs }) timestamp in
    (alive.state, sent ++ alive.sent)

abbrev pub periodic_bits : ℕ
periodic_bits = 0x9E

-- The seconds since the last end of a period, and whether another has come.
unfoldable pub count_period : State → (elapsed_s : ℕ) → Bool × State
count_period st elapsed_s =
    let elapsed =
      (if ltb st.indication_period_s elapsed_s then st.indication_period_s else elapsed_s) in
    let counter = st.indication_tick_counter + elapsed in
    if ltb counter st.indication_period_s
    then (false, record st { indication_tick_counter = counter })
    else (true, record st { indication_tick_counter = 0 })

-- `timestamp` is the time of day in text.
unfoldable pub opcd_ind_tick_elapsed :
    (Datagram → Bool)
    → Readings
    → (timestamp : Bytes) → State
    → (elapsed_s : ℕ) → State × List Datagram
opcd_ind_tick_elapsed sendto readings timestamp st elapsed_s =
    let (st1, probed) = fault_probe_tick sendto readings st elapsed_s in
    let (ended, st2) = count_period st1 elapsed_s in
    let (st3, flushed) = flush_period sendto st2 timestamp in
    if not st.indication_enabled
    then (st, [])
    else if (st1.indication_period_s == 0) || not (wants st1 periodic_bits)
    then (st1, probed)
    else if not ended
    then (st2, probed)
    else (st3, probed ++ flushed)
