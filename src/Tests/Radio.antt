-- ===== src/Tests/Radio.antt =====
-- SetRadioConfig at concrete values.
use wlan_opc.Base.{◌≡◌, refl, true, false, none, some, zeros, get_elem?}
use wlan_opc.Protocol.Commands.Simple.{set_password_ack_pack, set_ip_config_list_ack_pack}
use wlan_opc.Opcd.Session.Laws.{IsRefused}
use wlan_opc.Opcd.Persist.{durable}
use wlan_opc.Opcd.Persist.ListHandler.{handle_set_ip_config_list}
use wlan_opc.Opcd.Persist.Password.{handle_set_password}
use wlan_opc.Opcd.IndicationConfig.{handle_set_indication_config}
use wlan_opc.Protocol.ScanChlist.{list_valid, band_known, band_supported, list_empty}
use wlan_opc.Protocol.Commands.Records.{WlanRadioCfg, SetRadioConfigReq}
use wlan_opc.Protocol.Commands.Simple.{set_radio_config_ack_pack, set_indication_config_ack_pack}
use wlan_opc.Protocol.Ids.{req_set_radio_config}
use wlan_opc.Opcd.IpChange.{persist_resource_busy}
use wlan_opc.Opcd.State.{State}
use wlan_opc.Opcd.Persist.{is_request_retransmission, complete_radio, persist_admit, persist_blob}
use wlan_opc.Opcd.RadioChecks.{
  radio_error, radio_baseline_covers, radio_cfg_differs, wlan_cfg_differs, valid_wlan_mode,
  valid_wlan_bw, valid_scan_band, same_bytes,
}
use wlan_opc.Opcd.Persist.Radio.{
  RadioAnswers, radio_pending, apply_radio, publish_radio, radio_admission, write_radio,
  accept_radio, handle_set_radio_config,
}
use wlan_opc.Opcd.RadioChecks.Laws.{IsTaken}
use wlan_opc.Opcd.Persist.Radio.Completion.{
  IsCommitted, radio_after, committed_after, apply_radio-complete_radio, accept_radio-IsCommitted,
}
use wlan_opc.Opcd.Persist.Refused.{settings-IsRefused}
use wlan_opc.Tests.Opcd.{a_state, not_owned}
use wlan_opc.Tests.Writes.{a_store, a_slot, config_frame, one_subnet}

-- The platform and the marker file take every change.
abbrev pub took : RadioAnswers
took = record { capability = 0; marker_written = true; applied = true }

-- 11ac at 80 MHz, no scan list.
abbrev ac_wlan : WlanRadioCfg
ac_wlan = record { mode = 9; bandwidth = 2; scan_band = 0xFFFF; scan_chlist = zeros 8 }

abbrev radio_req : SetRadioConfigReq
radio_req = record { station_type = 1; priority_ch = 0; wlan1 = ac_wlan; wlan2 = ac_wlan }

settings-IsRefused_example :
    IsRefused a_state
      (set_password_ack_pack 1424 9)
      (handle_set_password 50 1424 a_store a_state config_frame 0xC0A80102 50607 9)
    × IsRefused a_state
        (set_ip_config_list_ack_pack 1424 9)
        (handle_set_ip_config_list 50 1424 a_store a_state config_frame 0xC0A80102 50607 9)
    × IsRefused a_state
        (set_radio_config_ack_pack 1424 9)
        (handle_set_radio_config 50 1424 a_store took a_state config_frame 0xC0A80102 50607 9)
    × IsRefused a_state
        (set_indication_config_ack_pack 1424 9)
        (handle_set_indication_config 50 42 1424 one_subnet none a_state config_frame 0xC0A80102 9)
settings-IsRefused_example =
    settings-IsRefused 50 42 1424 a_store took one_subnet none a_state config_frame 0xC0A80102 50607
      9 not_owned

no_resend :
    is_request_retransmission a_state.pending_acks req_set_radio_config 0xC0A80101 50607 ≡ false
unfolding is_request_retransmission
no_resend = refl

apply_radio-complete_radio_example :
    let st' = (apply_radio 50 a_store took a_state radio_req 0xC0A80101 50607 9).0 in
    let covers = radio_baseline_covers a_state radio_req in
    ((apply_radio 50 a_store took a_state radio_req 0xC0A80101 50607 9).1 ≡ none)
    × (st'.radio ≡ radio_req)
    × (st'.radio_committed ≡ false)
    × (get_elem? st'.pending_acks 0
        ≡ some (record (radio_pending 0xC0A80101 50607 9) { radio_gen = st'.radio_gen }))
    × ((complete_radio (some true) st' st'.radio_gen durable).radio
        ≡ radio_after durable covers a_state.radio radio_req)
    × ((complete_radio (some true) st' st'.radio_gen durable).radio_committed
        ≡ committed_after durable covers a_state.radio_committed)
apply_radio-complete_radio_example =
    apply_radio-complete_radio 50 a_store took a_state radio_req 0xC0A80101 50607 9 0 durable refl
      a_slot no_resend refl refl refl refl

-- Without a writer thread a write is over when persist_blob returns.
abbrev unattached : State
unattached = record a_state { store_attached = false }

accepted_at_once : (accept_radio 50 a_store took unattached radio_req 0xC0A80101 50607 9).2 ≡ some 0
unfolding accept_radio radio_admission apply_radio publish_radio write_radio persist_resource_busy
    radio_error list_valid band_known band_supported list_empty same_bytes radio_cfg_differs
    wlan_cfg_differs persist_admit persist_blob valid_wlan_mode valid_wlan_bw valid_scan_band
accepted_at_once = refl

accept_radio-IsCommitted_example :
    IsTaken took.capability radio_req
    × IsCommitted unattached radio_req
        (accept_radio 50 a_store took unattached radio_req 0xC0A80101 50607 9).0
accept_radio-IsCommitted_example =
    accept_radio-IsCommitted 50 a_store took unattached radio_req 0xC0A80101 50607 9
      accepted_at_once
