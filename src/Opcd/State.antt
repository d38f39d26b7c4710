-- ===== src/Opcd/State.antt =====
-- opcd/opcd_state.h: the part of `opcd_state_t` that the modelled operations read or write, and
-- the indications of opcd/indication.c that they send.
pub mod Sending
use wlan_opc.Base.{
  ℕ, ◌+◌, ◌-◌, ◌%◌, Bool, true, false, not, ◌&&◌, ◌||◌, Option, none, some, List, [], ◌∷◌, Bytes,
  ◌==◌, ◌/=◌, if◌then◌else◌, replicate, zeros,
}
use wlan_opc.Base.Int.{ℤ, pos}
use Prim.Native.Nat.{bit_and}
use wlan_opc.Protocol.Ids.{frame_max}
use wlan_opc.Protocol.Commands.Records.{IpcfgEntry, SetRadioConfigReq}
use wlan_opc.Opcd.FaultProbe.{FaultProbe}
use wlan_opc.Protocol.Indications.{
  IndInitComplete, IndResetNotice, init_complete_pack, reset_notice_pack,
}

abbrev pub max_slots : ℕ
max_slots = 128

-- A slot counts as present when its byte is not 0.
pub record IpList : Type 0 where
  pub slots : List IpcfgEntry
  pub present : List ℕ

abbrev pub no_entry : IpcfgEntry
no_entry = record {
  boundary_flag = 0;
  list_number = 0;
  ip_address = 0;
  subnet_mask = 0;
  default_gateway = 0;
  ntp_server = 0;
  essid = zeros 32;
}

-- After `memset(&list, 0, sizeof list)`.
abbrev pub no_ip_list : IpList
no_ip_list = record { slots = replicate max_slots no_entry; present = replicate max_slots 0 }

pub data PersistResource : Type 0 where
  persist_none : PersistResource
  persist_password : PersistResource
  persist_ip_list : PersistResource
  persist_radio : PersistResource

-- An acknowledgment that waits for its write.
pub record PendingAck : Type 0 where
  pub in_use : Bool
  pub no_ack : Bool
  pub resource : PersistResource
  pub req_id : ℕ
  pub seq : ℕ
  pub radio_gen : ℕ
  pub client_ip : ℕ
  pub client_port : ℕ

pub data RadioRecoveryState : Type 0 where
  healthy : RadioRecoveryState
  degraded_unknown_baseline : RadioRecoveryState
  degraded_restore_failed : RadioRecoveryState

-- The state changes of a link that wait for the end of the reporting period.
pub record IndCoalesce : Type 0 where
  pub wlan_pending : Bool
  pub wlan_status : ℕ
  pub wlan_ch : ℕ
  pub roam_pending : Bool
  pub roam_snr : ℤ
  pub roam_rssi : ℤ
  pub roam_mac : Bytes
  pub roam_ch : ℕ
  pub apd_pending : Bool
  pub apd_msg_id : ℕ
  pub apd_reason : ℕ
  pub apd_mac : Bytes
  pub fault_pending : List Bool
  pub fault_val : List ℕ

abbrev pub no_coalesce : IndCoalesce
no_coalesce = record {
  wlan_pending = false;
  wlan_status = 0;
  wlan_ch = 0;
  roam_pending = false;
  roam_snr = pos 0;
  roam_rssi = pos 0;
  roam_mac = zeros 6;
  roam_ch = 0;
  apd_pending = false;
  apd_msg_id = 0;
  apd_reason = 0;
  apd_mac = zeros 6;
  fault_pending = replicate 4 false;
  fault_val = zeros 4;
}

-- `udp_open` is `udp_fd >= 0` and `store_attached` is `store_async != NULL`; `default_station_type`
-- and `login_idle_s` stand in `conf`.
pub record State : Type 0 where
  pub default_station_type : ℕ
  pub login_idle_s : ℕ
  pub logged_in : Bool
  pub holder_ip : ℕ
  pub holder_port : ℕ
  pub idle_deadline : ℕ
  pub session_generation : ℕ
  pub password : Bytes
  pub password_unsynced : Bool
  pub password_unsynced_prev : Bytes
  pub radio : SetRadioConfigReq
  pub radio_committed : Bool
  pub radio_applied_known : Bool
  pub radio_recovery_state : RadioRecoveryState
  pub radio_gen : ℕ
  pub radio_revert_pending : Bool
  pub radio_revert_cfg : SetRadioConfigReq
  pub radio_revert_committed : Bool
  pub radio_persist_baseline_valid : Bool
  pub ip_list : IpList
  pub ip_list_staging : IpList
  pub ip_list_staging_active : Bool
  pub ip_change_pending : Bool
  pub ip_change_commit_armed : Bool
  pub ip_change_logout_deferred : Bool
  pub ip_change_list_no : ℕ
  pub ip_change_armed_no : ℕ
  pub ip_change_armed_entry : IpcfgEntry
  pub indication_enabled : Bool
  pub indication_recipient_ip : ℕ
  pub indication_recipient_port : ℕ
  pub indication_info_bits : ℕ
  pub indication_period_s : ℕ
  pub radio_up_reported : Bool
  pub wlan0_assoc_known : Bool
  pub wlan0_assoc : Bool
  pub wlan0_assoc_at : ℕ
  pub indication_seq : ℕ
  pub indication_tick_counter : ℕ
  pub indication_coalesce : List IndCoalesce
  pub fault_probe : FaultProbe
  pub boot_status : ℕ
  pub store_attached : Bool
  pub pending_acks : List PendingAck
  pub pending_password : Bytes
  pub pending_ip_list : IpList
  pub pending_ip_staging : IpList
  pub pending_ip_staging_active : Bool
  pub pending_ip_staging_session_generation : ℕ
  pub udp_open : Bool
  pub should_reset : Bool
  pub reset_notice_sent : Bool

-- What is handed to `sendto`.
pub record Datagram : Type 0 where
  pub dst_ip : ℕ
  pub dst_port : ℕ
  pub payload : Bytes

abbrev pub device_booting : ℕ
device_booting = 0

abbrev pub device_ready : ℕ
device_ready = 1

abbrev pub device_logged_in : ℕ
device_logged_in = 2

abbrev pub init_state_logged_in : ℕ
init_state_logged_in = 3

abbrev pub init_state_logged_out : ℕ
init_state_logged_out = 4

abbrev pub ind_bit_init_complete : ℕ
ind_bit_init_complete = 0x01

abbrev pub ind_bit_reset_notice : ℕ
ind_bit_reset_notice = 0x20

-- The datagrams sent; what `sendto` returns only changes the log and the result, which the callers
-- modelled here ignore.
unfoldable pub send_indication_frame : State → Option Bytes → List Datagram
send_indication_frame st none = []
send_indication_frame st (some frame) =
    if not st.indication_enabled || not st.udp_open
    then []
    else if (st.indication_recipient_ip == 0) || (st.indication_recipient_port == 0)
    then []
    else record {
      dst_ip = st.indication_recipient_ip;
      dst_port = st.indication_recipient_port;
      payload = frame;
    }
      ∷ []

-- The number for this frame, and the state with the next.
unfoldable pub next_seq : State → ℕ × State
next_seq st = (st.indication_seq, record st { indication_seq = (st.indication_seq + 1) % 65536 })

unfoldable pub opcd_ind_init_complete : State → ℕ → State × List Datagram
unfolding next_seq
opcd_ind_init_complete st status =
    let (seq, st1) = next_seq st in
    let frame = init_complete_pack frame_max seq (record { status = status }) in
    if bit_and st.indication_info_bits ind_bit_init_complete == 0
    then (st, [])
    else (st1, send_indication_frame st1 frame)

unfoldable pub opcd_ind_reset_notice : State → ℕ → State × List Datagram
unfolding next_seq
opcd_ind_reset_notice st cause =
    let (seq, st1) = next_seq st in
    let frame = reset_notice_pack frame_max seq (record { reset_cause = cause }) in
    if bit_and st.indication_info_bits ind_bit_reset_notice == 0
    then (st, [])
    else (st1, send_indication_frame st1 frame)

-- The main loop calls it after each response; cause 1 is a reset by the user.
unfoldable pub opcd_post_ack : State → State × List Datagram
opcd_post_ack st =
    if st.should_reset && not st.reset_notice_sent
    then opcd_ind_reset_notice (record st { reset_notice_sent = true }) 1
    else (st, [])
