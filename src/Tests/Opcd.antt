-- ===== src/Tests/Opcd.antt =====
-- The daemon's session, address list and address change at concrete values.
use wlan_opc.Base.{
  ℕ, ◌≡◌, ◌≢◌, ◌↔◌, ◌⊎◌, ◌≤◌, refl, true, false, none, some, Bytes, List, [], ◌∷◌, ◌++◌, length,
  take, zeros, set, replicate, arith,
}
use wlan_opc.Protocol.Codec.{Header, fixed_header_unpack, be16_read}
use wlan_opc.Protocol.Frame.{frame_parse, frame_len_valid}
use wlan_opc.Protocol.Commands.Records.{WlanRadioCfg, SetRadioConfigReq, IpcfgEntry}
use wlan_opc.Protocol.Commands.Simple.{
  logout_ack_pack, change_ip_address_ack_pack, reset_ack_pack, login_ack_pack, logout_req_unpack,
}
use wlan_opc.Protocol.Commands.Requests.{
  login_req_unpack, change_ip_address_req_unpack, change_ip_address_req_read,
}
use wlan_opc.Protocol.Commands.{parse_as}
use wlan_opc.Opcd.FaultProbe.{fault_probe_init}
use wlan_opc.Opcd.State.{
  no_coalesce, healthy, PendingAck, persist_none, State, IpList, no_entry, no_ip_list,
  persist_ip_list,
}
use wlan_opc.Opcd.Validators.{valid_ipcfg_addr, valid_opc_charset, strncmp_eq, ipcfg_entry_error}
use wlan_opc.Opcd.Session.{handle_login, handle_reset, session_owns, session_touch}
use wlan_opc.Opcd.Session.Laws.{
  text, strncmp_eq_iff, IsRefused, IsAdmissible, IsLoggedIn, handle_login-cases,
}
use wlan_opc.Opcd.IpList.{Stage, entry_error, stage_entry, stage_entries}
use wlan_opc.Opcd.IpList.Laws.{
  IsSoundStage, no_ip_list-IsSound, set_slot-IsSound, stage_entries-IsSoundStage,
}
use wlan_opc.Opcd.IpList.Cycle.{write_slots, stage_entries_cycle, stage_entries-uncommitted}
use wlan_opc.Opcd.IpChange.{
  handle_logout, handle_change_ip_address, change_error, slot_entry, slot_present,
  ipcfg_clashes_other_iface, persist_resource_busy, opcd_apply_pending_ip_change,
}
use wlan_opc.Opcd.IpChange.Laws.{outsider-IsRefused}
use wlan_opc.Opcd.IpChange.Pipeline.{
  IsArmed, IsApplied, handle_logout-handle_change_ip_address,
  opcd_apply_pending_ip_change-IsApplied,
}
use wlan_opc.Opcd.Machine.{Step, Reaches}
use wlan_opc.Opcd.Machine.Safe.{IsSafe}
use wlan_opc.Opcd.Machine.Reach.{Reaches-IsSafe}
use wlan_opc.Opcd.Intake.{opcd_intake_frame_len}
use wlan_opc.Opcd.Intake.Laws.{opcd_intake_frame_len-parses}

-- Logout, sequence number 9.
abbrev logout_frame : Bytes
logout_frame = 1 ∷ 1 ∷ 0xF0 ∷ 0x02 ∷ 0 ∷ 9 ∷ 0 ∷ 0 ∷ []

-- ChangeIpAddress to list 2.
abbrev pub change_frame : Bytes
change_frame = 1 ∷ 1 ∷ 0x10 ∷ 0x03 ∷ 0 ∷ 8 ∷ 0 ∷ 60 ∷ (zeros 56 ++ (0 ∷ 0 ∷ 0 ∷ 2 ∷ []))

abbrev pub an_entry : ℕ → ℕ → IpcfgEntry
an_entry flag number = record {
  boundary_flag = flag;
  list_number = number;
  ip_address = 0xC0A80105;
  subnet_mask = 0xFFFFFF00;
  default_gateway = 0xC0A80101;
  ntp_server = 0;
  essid = 77 ∷ 121 ∷ zeros 30;
}

abbrev a_list : IpList
a_list = record {
  slots = set no_ip_list.slots 1 (an_entry 3 2);
  present = set no_ip_list.present 1 1;
}

abbrev a_wlan : WlanRadioCfg
a_wlan = record { mode = 1; bandwidth = 1; scan_band = 0xFFFF; scan_chlist = zeros 8 }

abbrev a_radio : SetRadioConfigReq
a_radio = record { station_type = 1; priority_ch = 0; wlan1 = a_wlan; wlan2 = a_wlan }

abbrev no_ack_pending : PendingAck
no_ack_pending = record {
  in_use = false;
  no_ack = false;
  resource = persist_none;
  req_id = 0;
  seq = 0;
  radio_gen = 0;
  client_ip = 0;
  client_port = 0;
}

-- Held by 192.168.1.1.
abbrev pub a_state : State
a_state = record {
  default_station_type = 1;
  login_idle_s = 60;
  logged_in = true;
  holder_ip = 0xC0A80101;
  holder_port = 50607;
  idle_deadline = 100;
  session_generation = 1;
  password = 77 ∷ 121 ∷ zeros 126;
  password_unsynced = false;
  password_unsynced_prev = zeros 128;
  radio = a_radio;
  radio_committed = true;
  radio_applied_known = true;
  radio_recovery_state = healthy;
  radio_gen = 0;
  radio_revert_pending = false;
  radio_revert_cfg = a_radio;
  radio_revert_committed = false;
  radio_persist_baseline_valid = false;
  ip_list = a_list;
  ip_list_staging = no_ip_list;
  ip_list_staging_active = false;
  ip_change_pending = false;
  ip_change_commit_armed = false;
  ip_change_logout_deferred = false;
  ip_change_list_no = 0;
  ip_change_armed_no = 0;
  ip_change_armed_entry = no_entry;
  indication_enabled = true;
  indication_recipient_ip = 0xC0A80101;
  indication_recipient_port = 50607;
  indication_info_bits = 0xBF;
  indication_period_s = 0;
  radio_up_reported = false;
  wlan0_assoc_known = true;
  wlan0_assoc = true;
  wlan0_assoc_at = 40;
  indication_seq = 65535;
  indication_tick_counter = 0;
  indication_coalesce = replicate 2 no_coalesce;
  fault_probe = fault_probe_init;
  boot_status = 2;
  store_attached = true;
  pending_acks = replicate 16 no_ack_pending;
  pending_password = zeros 128;
  pending_ip_list = no_ip_list;
  pending_ip_staging = no_ip_list;
  pending_ip_staging_active = false;
  pending_ip_staging_session_generation = 0;
  udp_open = true;
  should_reset = false;
  reset_notice_sent = false;
}

change_frame_req : change_ip_address_req_unpack change_frame ≡ some (record { list_number = 2 })
unfolding change_ip_address_req_unpack frame_parse frame_len_valid fixed_header_unpack be16_read
    parse_as change_ip_address_req_read
change_frame_req = refl

logout_frame_req : logout_req_unpack logout_frame ≡ some tt
unfolding logout_req_unpack frame_parse frame_len_valid fixed_header_unpack be16_read
logout_frame_req = refl

pub owned : session_owns a_state 0xC0A80101 ≡ true
unfolding session_owns
owned = refl

pub not_owned : session_owns a_state 0xC0A80102 ≡ false
unfolding session_owns
not_owned = refl

taken :
    change_error
      (some (0x0A000001, 0xFF000000))
      (session_touch 50 a_state)
      (record { list_number = 2 })
    ≡ 0
unfolding change_error session_touch slot_present ipcfg_clashes_other_iface
taken = refl

idle : persist_resource_busy a_state.pending_acks persist_ip_list ≡ false
unfolding persist_resource_busy
idle = refl

handle_logout-handle_change_ip_address_example :
    IsArmed
      (handle_logout 1424
        (handle_change_ip_address 50 1424
          (some (0x0A000001, 0xFF000000))
          a_state
          change_frame
          0xC0A80101
          8).state
        logout_frame
        0xC0A80101
        9).state
      2
      (slot_entry a_list 2)
handle_logout-handle_change_ip_address_example =
    handle_logout-handle_change_ip_address 50 1424 (some (0x0A000001, 0xFF000000)) a_state
      change_frame logout_frame 0xC0A80101 8 9 (record { list_number = 2 }) change_frame_req owned
      taken logout_frame_req idle

outsider-IsRefused_example :
    IsRefused a_state
      (logout_ack_pack 1424 9)
      (handle_logout 1424 a_state logout_frame 0xC0A80102 9)
    × IsRefused a_state
        (change_ip_address_ack_pack 1424 9)
        (handle_change_ip_address 50 1424 none a_state logout_frame 0xC0A80102 9)
    × IsRefused a_state
        (reset_ack_pack 1424 9)
        (handle_reset 50 1424 a_state logout_frame 0xC0A80102 50607 9)
outsider-IsRefused_example =
    outsider-IsRefused 1424 a_state logout_frame 0xC0A80102 9 50 50607 none not_owned

abbrev armed_state : State
armed_state = record a_state { ip_change_commit_armed = true; ip_change_pending = true }

opcd_apply_pending_ip_change-IsApplied_example :
    IsApplied true armed_state (opcd_apply_pending_ip_change true armed_state).0
opcd_apply_pending_ip_change-IsApplied_example =
    opcd_apply_pending_ip_change-IsApplied true armed_state refl

handle_login-cases_example :
    IsRefused a_state
      (login_ack_pack 1424 9)
      (handle_login 50 1424 a_state logout_frame 0xC0A80102 50607 9)
    ⊎ ((req : _) × (login_req_unpack logout_frame ≡ some req)
        × IsAdmissible a_state req 0xC0A80102
        × IsLoggedIn
            (handle_login 50 1424 a_state logout_frame 0xC0A80102 50607 9).state
            0xC0A80102)
handle_login-cases_example = handle_login-cases 50 1424 a_state logout_frame 0xC0A80102 50607 9

abbrev two_texts : Bytes
two_texts = 77 ∷ 121 ∷ 0 ∷ 1 ∷ []

strncmp_eq_iff_example :
    (strncmp_eq 127 two_texts (77 ∷ 121 ∷ []) ≡ true)
    ↔ (text 127 two_texts ≡ text 127 (77 ∷ 121 ∷ []))
strncmp_eq_iff_example = strncmp_eq_iff 127 two_texts (77 ∷ 121 ∷ [])

abbrev a_stage : Stage
a_stage = record {
  candidate = no_ip_list;
  staging = no_ip_list;
  staging_active = false;
  committed = false;
}

abbrev an_update : List IpcfgEntry
an_update = an_entry 1 5 ∷ ((an_entry 0 6 ∷ []) ++ (an_entry 2 7 ∷ []))

abbrev pub updated : Stage
updated = record {
  candidate = write_slots no_ip_list an_update;
  staging = no_ip_list;
  staging_active = false;
  committed = true;
}

an_update_runs : stage_entries a_stage 0 7 an_update ≡ (updated, 0)
unfolding stage_entries entry_error ipcfg_entry_error valid_ipcfg_addr valid_opc_charset stage_entry
an_update_runs = refl

stage_entries_cycle_example :
    (updated.candidate ≡ write_slots no_ip_list an_update)
    × (updated.committed ≡ true)
    × (updated.staging_active ≡ false)
    × (updated.staging ≡ no_ip_list)
stage_entries_cycle_example =
    stage_entries_cycle a_stage updated 0 7 (an_entry 1 5) (an_entry 2 7) (an_entry 0 6 ∷ []) refl
      (refl, tt) refl an_update_runs

stage_entries-IsSoundStage_example : IsSoundStage (stage_entries a_stage 0 7 an_update).0
stage_entries-IsSoundStage_example =
    stage_entries-IsSoundStage a_stage 0 7 an_update
      (record { candidate = no_ip_list-IsSound; staging = no_ip_list-IsSound })

stage_entries-uncommitted_example :
    ((stage_entries a_stage 0 7 (an_entry 1 5 ∷ [])).0.candidate ≡ no_ip_list)
    × ((stage_entries a_stage 0 7 (an_entry 1 5 ∷ [])).0.committed ≡ false)
stage_entries-uncommitted_example =
    stage_entries-uncommitted a_stage 0 7 (an_entry 1 5 ∷ []) ((omega arith, omega arith), tt)

-- A datagram with three bytes behind the frame.
abbrev long_datagram : Bytes
long_datagram = logout_frame ++ (7 ∷ 7 ∷ 7 ∷ [])

long_intake : opcd_intake_frame_len long_datagram ≢ 0
unfolding opcd_intake_frame_len fixed_header_unpack be16_read
long_intake = omega arith

opcd_intake_frame_len-parses_example :
    (opcd_intake_frame_len long_datagram ≤ length long_datagram)
    × (hdr : Header) × (body : Bytes) × (fixed_header_unpack long_datagram ≡ some hdr)
    × (frame_parse (take (opcd_intake_frame_len long_datagram) long_datagram) ≡ some (hdr, body))
opcd_intake_frame_len-parses_example = opcd_intake_frame_len-parses long_datagram long_intake

a_list_entry : ipcfg_entry_error (an_entry 3 2) true ≡ 0
unfolding ipcfg_entry_error valid_ipcfg_addr valid_opc_charset
a_list_entry = refl

a_state-IsSafe : IsSafe a_state
a_state-IsSafe = record {
  lists = record {
    list =
        set_slot-IsSound no_ip_list 1 1 (an_entry 3 2) no_ip_list-IsSound (omega arith)
          (λ h. a_list_entry);
    staging = no_ip_list-IsSound;
    pending_list = no_ip_list-IsSound;
    pending_staging = no_ip_list-IsSound;
    armed = λ a. absurd (cc);
  };
}

-- A change to list 2 that is taken, then a Logout that arms it.
abbrev asked : State
asked = (handle_change_ip_address 50 1424 none a_state change_frame 0xC0A80101 8).state

abbrev left : State
left = (handle_logout 1424 asked logout_frame 0xC0A80101 9).state

a_run : Reaches a_state left
a_run =
    Reaches.next asked left
      (Reaches.next a_state asked Reaches.here
        (Step.change_ip_address 50 1424 none a_state change_frame 0xC0A80101 8))
      (Step.logout 1424 asked logout_frame 0xC0A80101 9)

Reaches-IsSafe_example : IsSafe left
Reaches-IsSafe_example = Reaches-IsSafe a_run a_state-IsSafe
