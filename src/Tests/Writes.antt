-- ===== src/Tests/Writes.antt =====
-- Settings that requests change, at concrete values.
use wlan_opc.Base.{
  ℕ, Option, ◌++◌, zeros, Bytes, ◌⊎◌, ◌∷◌, ◌≡◌, refl, true, none, some, [], if◌then◌else◌,
}
use wlan_opc.Opcd.Persist.{Store, reserved, durable, pending_ack_alloc, complete_ip_list, replaced}
use wlan_opc.Opcd.IpList.{write_slot}
use wlan_opc.Opcd.IplistText.{
  opc_iplist_text_format, put_slots, put_entry, put, key_text, decimal, digits, ipv4_str,
}
use wlan_opc.Protocol.CString.{bounded_strnlen}
use wlan_opc.Opcd.Persist.ListHandler.{commit_list}
use wlan_opc.Opcd.Persist.Commit.{IsFitting, complete_ip_list-commit_list}
use wlan_opc.Protocol.Codec.{be16_read, fixed_header_unpack}
use wlan_opc.Protocol.Frame.{frame_parse, frame_len_valid}
use wlan_opc.Protocol.CString.{copy_string_field, has_nul}
use wlan_opc.Protocol.Commands.{parse_as}
use wlan_opc.Protocol.Commands.Records.{SetPasswordReq}
use wlan_opc.Protocol.Commands.Requests.{set_password_req_unpack, set_password_req_read}
use wlan_opc.Opcd.Persist.Password.{handle_set_password}
use wlan_opc.Opcd.Persist.Password.Laws.{IsKept, IsChange, handle_set_password-IsChange}
use wlan_opc.Protocol.Commands.Records.{SetIndicationConfigReq}
use wlan_opc.Protocol.Commands.Requests.{
  set_indication_config_req_unpack, set_indication_config_req_read,
}
use wlan_opc.Opcd.Session.{session_touch}
use wlan_opc.Protocol.Codec.{be32_read}
use wlan_opc.Opcd.State.{opcd_ind_init_complete, next_seq}
use wlan_opc.Opcd.Validators.{valid_unicast_ipv4}
use wlan_opc.Opcd.IndicationConfig.{
  handle_set_indication_config, take_indication_config, notify_enabled, and_then,
  opcd_ind_coalesce_reset, configure_indications, opcd_ind_radio_up, is_associated,
  indication_config_error, indication_recipient_reachable,
}
use wlan_opc.Opcd.IndicationConfig.Laws.{IsConfigured, handle_set_indication_config-IsConfigured}
use wlan_opc.Tests.Opcd.{owned, a_state, updated}

abbrev pub a_store : Store
a_store = record {
  first = reserved;
  second = reserved;
  dones = [];
  radio_applied = none;
  submitted = true;
  written = true;
  outcome = durable;
}

pub a_slot : pending_ack_alloc a_state.pending_acks ≡ some 0
unfolding pending_ack_alloc
a_slot = refl

updated_fits : IsFitting updated.candidate
unfolding opc_iplist_text_format put_slots put_entry put key_text ipv4_str decimal digits
    bounded_strnlen write_slot
updated_fits = (_, refl)

complete_ip_list-commit_list_example :
    ((commit_list a_store a_state updated 0 0xC0A80101 50607 9).0.ip_list ≡ a_state.ip_list)
    × ((complete_ip_list
          (commit_list a_store a_state updated 0 0xC0A80101 50607 9).0
          durable).ip_list
        ≡ (if replaced durable then updated.candidate else a_state.ip_list))
complete_ip_list-commit_list_example =
    complete_ip_list-commit_list a_store a_state updated 0 0xC0A80101 50607 9 0 durable refl a_slot
      updated_fits refl refl

abbrev new_password : SetPasswordReq
new_password = record {
  old_password = 77 ∷ 121 ∷ zeros 126;
  new_password = 67 ∷ 68 ∷ zeros 126;
  old_password_terminated = true;
  new_password_terminated = true;
}

abbrev password_frame : Bytes
password_frame =
    1
    ∷ 1
    ∷ 0x10
    ∷ 0x01
    ∷ 0
    ∷ 9
    ∷ 1
    ∷ 56
    ∷ (zeros 56 ++ new_password.old_password ++ new_password.new_password)

password_frame_req : set_password_req_unpack password_frame ≡ some new_password
unfolding set_password_req_unpack parse_as frame_parse frame_len_valid fixed_header_unpack be16_read
    set_password_req_read copy_string_field has_nul
password_frame_req = refl

handle_set_password-IsChange_example :
    IsKept a_state
      (handle_set_password 50 1424 a_store a_state password_frame 0xC0A80101 50607 9).state
    ⊎ IsChange a_state new_password
handle_set_password-IsChange_example =
    handle_set_password-IsChange 50 1424 a_store a_state password_frame 0xC0A80101 50607 9
      new_password owned password_frame_req

-- All indications, every 10 seconds, to port 50000 of 192.168.1.1.
abbrev config_req : SetIndicationConfigReq
config_req = record {
  recipient_port = 50000;
  info_bits = 0xBF;
  period_seconds = 10;
  recipient_ip = 0xC0A80101;
}

-- A subnet of 24 bits.
abbrev pub one_subnet : ℕ → Option ℕ
one_subnet ip = some 0xFFFFFF00

abbrev pub config_frame : Bytes
config_frame =
    1
    ∷ 1
    ∷ 0x10
    ∷ 0x05
    ∷ 0
    ∷ 9
    ∷ 0
    ∷ 64
    ∷ (zeros 56 ++ (0xC3 ∷ 0x50 ∷ 0xBF ∷ 10 ∷ 0xC0 ∷ 0xA8 ∷ 1 ∷ 1 ∷ []))

config_frame_req : set_indication_config_req_unpack config_frame ≡ some config_req
unfolding set_indication_config_req_unpack parse_as frame_parse frame_len_valid fixed_header_unpack
    be16_read be32_read set_indication_config_req_read
config_frame_req = refl

-- Ready, associated and logged in are reported: three numbers are taken, from 65535.
config_notices : (take_indication_config 50 42 none a_state config_req).0.indication_seq ≡ 2
unfolding take_indication_config notify_enabled and_then opcd_ind_coalesce_reset
    configure_indications opcd_ind_radio_up is_associated opcd_ind_init_complete next_seq
    session_touch
config_notices = refl

-- The broadcast address of the subnet is refused.
broadcast_refused :
    indication_config_error one_subnet (record config_req { recipient_ip = 0xC0A801FF }) ≡ 0x12
unfolding indication_config_error valid_unicast_ipv4 indication_recipient_reachable
broadcast_refused = refl

handle_set_indication_config-IsConfigured_example :
    (((handle_set_indication_config 50 42 1424 one_subnet none a_state config_frame 0xC0A80101
          9).state
        ≡ session_touch 50 a_state)
      × ((handle_set_indication_config 50 42 1424 one_subnet none a_state config_frame 0xC0A80101
            9).sent
          ≡ []))
    ⊎ IsConfigured one_subnet config_req
        (handle_set_indication_config 50 42 1424 one_subnet none a_state config_frame 0xC0A80101
          9).state
        (handle_set_indication_config 50 42 1424 one_subnet none a_state config_frame 0xC0A80101
          9).sent
handle_set_indication_config-IsConfigured_example =
    handle_set_indication_config-IsConfigured 50 42 1424 one_subnet none a_state config_frame
      0xC0A80101 9 config_req owned config_frame_req
