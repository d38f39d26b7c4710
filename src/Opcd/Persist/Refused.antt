-- ===== src/Opcd/Persist/Refused.antt =====
-- Requests that change settings, of a client that does not hold the session.
use wlan_opc.Base.{ℕ, ◌≡◌, inl, inr, false, Option, Bool, Bytes, Option-cases, arith}
use wlan_opc.Protocol.Commands.Simple.{
  set_password_ack_pack, set_ip_config_list_ack_pack, set_radio_config_ack_pack,
  set_indication_config_ack_pack,
}
use wlan_opc.Protocol.Commands.Requests.{
  set_radio_config_req_unpack, set_indication_config_req_unpack,
}
use wlan_opc.Opcd.State.{State}
use wlan_opc.Opcd.Session.{session_owns}
use wlan_opc.Opcd.Session.Laws.{IsRefused}
use wlan_opc.Opcd.IpChange.Laws.{check_login_required_outsider, IsRefused-ack}
use wlan_opc.Opcd.Persist.{Store}
use wlan_opc.Opcd.Persist.ListHandler.{handle_set_ip_config_list}
use wlan_opc.Opcd.Persist.Commit.{handle_set_ip_config_list-IsRefused}
use wlan_opc.Opcd.Persist.Password.{handle_set_password}
use wlan_opc.Opcd.Persist.Password.Laws.{handle_set_password-IsRefused}
use wlan_opc.Opcd.Persist.Radio.{RadioAnswers, radio_ack, handle_set_radio_config}
use wlan_opc.Opcd.IndicationConfig.{handle_set_indication_config}

module _ (now room : ℕ) (st : State) (frame : Bytes) (ip port seq : ℕ)
    (outside : session_owns st ip ≡ false) where
  handle_set_radio_config-IsRefused :
      (store : Store) (answers : RadioAnswers)
      → IsRefused st
          (set_radio_config_ack_pack room seq)
          (handle_set_radio_config now room store answers st frame ip port seq)
  unfolding handle_set_radio_config radio_ack
  handle_set_radio_config-IsRefused store answers =
      let (err, nz, e) = check_login_required_outsider now st ip outside in
      let pack = set_radio_config_ack_pack room seq in
      elim (Option-cases (set_radio_config_req_unpack frame)) [
        | inl u ↦ rw (u, handle_set_radio_config) (IsRefused-ack 3 (ground arith) pack)
        | inr (req, u) ↦ rw (u, e, handle_set_radio_config) (IsRefused-ack err nz pack)
      ]

  handle_set_indication_config-IsRefused :
      (mono_now : ℕ) (route : ℕ → Option ℕ) (link : Option Bool)
      → IsRefused st
          (set_indication_config_ack_pack room seq)
          (handle_set_indication_config now mono_now room route link st frame ip seq)
  unfolding handle_set_indication_config
  handle_set_indication_config-IsRefused mono_now route link =
      let (err, nz, e) = check_login_required_outsider now st ip outside in
      let pack = set_indication_config_ack_pack room seq in
      elim (Option-cases (set_indication_config_req_unpack frame)) [
        | inl u ↦ rw (u, handle_set_indication_config) (IsRefused-ack 3 (ground arith) pack)
        | inr (req, u) ↦ rw (u, e, handle_set_indication_config) (IsRefused-ack err nz pack)
      ]

-- A client that does not hold the session changes nothing by SetPassword, SetIpConfigList,
-- SetRadioConfig or SetIndicationConfig, whatever its frame and whatever the store, the platform and
-- the routes answer; each is answered NG and sends no indication.
pub settings-IsRefused :
    (now mono_now room : ℕ) (store : Store) (answers : RadioAnswers) (route : ℕ → Option ℕ)
    (link : Option Bool) (st : State) (frame : Bytes) (ip port seq : ℕ)
    → session_owns st ip ≡ false
    → IsRefused st
        (set_password_ack_pack room seq)
        (handle_set_password now room store st frame ip port seq)
      × IsRefused st
          (set_ip_config_list_ack_pack room seq)
          (handle_set_ip_config_list now room store st frame ip port seq)
      × IsRefused st
          (set_radio_config_ack_pack room seq)
          (handle_set_radio_config now room store answers st frame ip port seq)
      × IsRefused st
          (set_indication_config_ack_pack room seq)
          (handle_set_indication_config now mono_now room route link st frame ip seq)
settings-IsRefused now mono_now room store answers route link st frame ip port seq outside = (
  handle_set_password-IsRefused now room store st frame ip port seq outside,
  handle_set_ip_config_list-IsRefused now room store st frame ip port seq outside,
  handle_set_radio_config-IsRefused now room st frame ip port seq outside store answers,
  handle_set_indication_config-IsRefused now room st frame ip port seq outside mono_now route link,
)
