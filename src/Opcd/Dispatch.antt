-- ===== src/Opcd/Dispatch.antt =====
-- opcd/handler.c: opcd_dispatch_table, and opcd_reject_bad_length, the answer to a datagram whose length
-- is wrong.
pub mod Laws
use wlan_opc.Base.{
  ℕ, Bool, true, false, not, ◌&&◌, ◌||◌, Option, none, some, List, [], ◌∷◌, Bytes, ◌==◌, ◌/=◌,
  if◌then◌else◌,
}
use wlan_opc.Protocol.Ids.{
  cmd_request, result_ng, err_packet_size, req_login, req_logout, req_get_basic_info,
  req_get_device_info, req_set_password, req_set_ip_config_list, req_change_ip_address,
  req_set_radio_config, req_set_indication_config, req_reset, frame_max,
}
use wlan_opc.Protocol.Codec.{Header, fixed_header_unpack}
use wlan_opc.Protocol.Commands.Simple.{simple_ack_pack}
use wlan_opc.Opcd.State.{State, Datagram}
use wlan_opc.Opcd.Session.{Inventory, ack_of, handle_login, handle_get_basic_info, handle_reset}
use wlan_opc.Opcd.IpChange.{handle_logout, handle_change_ip_address}
use wlan_opc.Opcd.Persist.{Store}
use wlan_opc.Opcd.Persist.Password.{handle_set_password}
use wlan_opc.Opcd.Persist.ListHandler.{handle_set_ip_config_list}
use wlan_opc.Opcd.Persist.Radio.{RadioAnswers, handle_set_radio_config}
use wlan_opc.Opcd.IndicationConfig.{handle_set_indication_config}
use wlan_opc.Opcd.DeviceInfo.{FreqSource, DeviceReadings, device_info_ng, handle_get_device_info}
use wlan_opc.Opcd.Intake.{Handler}

-- What the clocks, the files, the platform and the routes answer during one request.
pub record Answers : Type 0 where
  pub now : ℕ
  pub mono_now : ℕ
  pub room : ℕ
  pub inventory : Inventory
  pub freq_source : FreqSource
  pub readings : DeviceReadings
  pub store : Store
  pub radio : RadioAnswers
  pub other_iface : Option (ℕ × ℕ)
  pub route : ℕ → Option ℕ
  pub link : Option Bool

abbrev pub opcd_dispatch_table : Answers → List (ℕ × Handler)
opcd_dispatch_table a =
    (req_login, λ st frame ip port seq. handle_login a.now a.room st frame ip port seq)
    ∷ (req_logout, λ st frame ip port seq. handle_logout a.room st frame ip seq)
    ∷ (
      req_get_basic_info,
      λ st frame ip port seq. handle_get_basic_info a.inventory a.now a.room st frame ip port seq,
    )
    ∷ (
      req_get_device_info,
      λ st frame ip port seq.
          handle_get_device_info a.freq_source a.inventory a.readings a.now a.room st frame ip seq,
    )
    ∷ (
      req_set_password,
      λ st frame ip port seq. handle_set_password a.now a.room a.store st frame ip port seq,
    )
    ∷ (
      req_set_ip_config_list,
      λ st frame ip port seq. handle_set_ip_config_list a.now a.room a.store st frame ip port seq,
    )
    ∷ (
      req_change_ip_address,
      λ st frame ip port seq. handle_change_ip_address a.now a.room a.other_iface st frame ip seq,
    )
    ∷ (
      req_set_radio_config,
      λ st frame ip port seq.
          handle_set_radio_config a.now a.room a.store a.radio st frame ip port seq,
    )
    ∷ (
      req_set_indication_config,
      λ st frame ip port seq.
          handle_set_indication_config a.now a.mono_now a.room a.route a.link st frame ip seq,
    )
    ∷ (req_reset, λ st frame ip port seq. handle_reset a.now a.room st frame ip port seq)
    ∷ []

-- GetDeviceInfo has an answer of its own form.
unfoldable pub bad_length_ack : Header → Option Bytes
bad_length_ack hdr =
    if (hdr.command_type == cmd_request) && (hdr.req_indication_id == req_get_device_info)
    then device_info_ng frame_max hdr.sequence_number (ack_of err_packet_size)
    else simple_ack_pack frame_max hdr.req_indication_id hdr.sequence_number 60 result_ng
        err_packet_size

-- What is sent.
unfoldable pub opcd_reject_bad_length : State → Bytes → (cip cport : ℕ) → List Datagram
opcd_reject_bad_length st frame cip cport =
    if not st.logged_in || (st.holder_ip /= cip) then [] else elim (fixed_header_unpack frame) [
      | none ↦ []
      | some hdr ↦ elim (bad_length_ack hdr) [
        | none ↦ []
        | some resp ↦
            if st.udp_open
            then record { dst_ip = cip; dst_port = cport; payload = resp } ∷ []
            else []
      ]
    ]
