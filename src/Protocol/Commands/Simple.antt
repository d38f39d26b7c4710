-- ===== src/Protocol/Commands/Simple.antt =====
-- protocol/commands.c: the simple acknowledgment, its eight instances, and the empty requests.
pub mod RoundTrip
use wlan_opc.Base.{ℕ, Option, some, ◌>>=◌, Bytes, List, [], ◌∷◌, drop, fill}
use wlan_opc.Protocol.Ids.{
  cmd_ack, req_login, req_logout, req_get_basic_info, req_get_device_info, req_set_password,
  req_set_ip_config_list, req_change_ip_address, req_set_radio_config, req_set_indication_config,
  req_reset,
}
use wlan_opc.Protocol.Codec.{be16_read, be16_write}
use wlan_opc.Protocol.Frame.{frame_build}
use wlan_opc.Protocol.Commands.{parse_as, empty_req_pack, empty_req_unpack}
use wlan_opc.Protocol.Commands.Records.{Ack}

abbrev pub simple_ack_length : ℕ
simple_ack_length = 60

unfoldable pub simple_ack_body : (result error_cause : ℕ) → Bytes
simple_ack_body result error_cause =
    fill 4 ((0, be16_write result) ∷ (2, be16_write error_cause) ∷ [])

unfoldable pub simple_ack_pack :
    (frame_room req_id seq_no length_field result error_cause : ℕ) → Option Bytes
simple_ack_pack frame_room req_id seq_no length_field result error_cause =
    frame_build frame_room cmd_ack req_id seq_no length_field (simple_ack_body result error_cause)

unfoldable pub simple_ack_unpack : Bytes → ℕ → Option Ack
simple_ack_unpack frame expected_req_id = do
  body ← parse_as cmd_ack expected_req_id 4 frame
  some (record { result = be16_read body; error_cause = be16_read (drop 2 body) })

unfoldable pub login_ack_pack : (frame_room seq_no : ℕ) → Ack → Option Bytes
unfolding simple_ack_pack
login_ack_pack frame_room seq_no ack =
    simple_ack_pack frame_room req_login seq_no simple_ack_length ack.result ack.error_cause

unfoldable pub login_ack_unpack : Bytes → Option Ack
unfolding simple_ack_unpack
login_ack_unpack frame = simple_ack_unpack frame req_login

unfoldable pub logout_ack_pack : (frame_room seq_no : ℕ) → Ack → Option Bytes
unfolding simple_ack_pack
logout_ack_pack frame_room seq_no ack =
    simple_ack_pack frame_room req_logout seq_no simple_ack_length ack.result ack.error_cause

unfoldable pub logout_ack_unpack : Bytes → Option Ack
unfolding simple_ack_unpack
logout_ack_unpack frame = simple_ack_unpack frame req_logout

unfoldable pub set_password_ack_pack : (frame_room seq_no : ℕ) → Ack → Option Bytes
unfolding simple_ack_pack
set_password_ack_pack frame_room seq_no ack =
    simple_ack_pack frame_room req_set_password seq_no simple_ack_length ack.result ack.error_cause

unfoldable pub set_password_ack_unpack : Bytes → Option Ack
unfolding simple_ack_unpack
set_password_ack_unpack frame = simple_ack_unpack frame req_set_password

unfoldable pub set_ip_config_list_ack_pack : (frame_room seq_no : ℕ) → Ack → Option Bytes
unfolding simple_ack_pack
set_ip_config_list_ack_pack frame_room seq_no ack =
    simple_ack_pack frame_room req_set_ip_config_list seq_no simple_ack_length ack.result
      ack.error_cause

unfoldable pub set_ip_config_list_ack_unpack : Bytes → Option Ack
unfolding simple_ack_unpack
set_ip_config_list_ack_unpack frame = simple_ack_unpack frame req_set_ip_config_list

unfoldable pub change_ip_address_ack_pack : (frame_room seq_no : ℕ) → Ack → Option Bytes
unfolding simple_ack_pack
change_ip_address_ack_pack frame_room seq_no ack =
    simple_ack_pack frame_room req_change_ip_address seq_no simple_ack_length ack.result
      ack.error_cause

unfoldable pub change_ip_address_ack_unpack : Bytes → Option Ack
unfolding simple_ack_unpack
change_ip_address_ack_unpack frame = simple_ack_unpack frame req_change_ip_address

unfoldable pub set_radio_config_ack_pack : (frame_room seq_no : ℕ) → Ack → Option Bytes
unfolding simple_ack_pack
set_radio_config_ack_pack frame_room seq_no ack =
    simple_ack_pack frame_room req_set_radio_config seq_no simple_ack_length ack.result
      ack.error_cause

unfoldable pub set_radio_config_ack_unpack : Bytes → Option Ack
unfolding simple_ack_unpack
set_radio_config_ack_unpack frame = simple_ack_unpack frame req_set_radio_config

unfoldable pub set_indication_config_ack_pack : (frame_room seq_no : ℕ) → Ack → Option Bytes
unfolding simple_ack_pack
set_indication_config_ack_pack frame_room seq_no ack =
    simple_ack_pack frame_room req_set_indication_config seq_no simple_ack_length ack.result
      ack.error_cause

unfoldable pub set_indication_config_ack_unpack : Bytes → Option Ack
unfolding simple_ack_unpack
set_indication_config_ack_unpack frame = simple_ack_unpack frame req_set_indication_config

unfoldable pub reset_ack_pack : (frame_room seq_no : ℕ) → Ack → Option Bytes
unfolding simple_ack_pack
reset_ack_pack frame_room seq_no ack =
    simple_ack_pack frame_room req_reset seq_no simple_ack_length ack.result ack.error_cause

unfoldable pub reset_ack_unpack : Bytes → Option Ack
unfolding simple_ack_unpack
reset_ack_unpack frame = simple_ack_unpack frame req_reset

unfoldable pub logout_req_pack : (frame_room seq_no : ℕ) → Option Bytes
unfolding empty_req_pack
logout_req_pack frame_room seq_no = empty_req_pack frame_room req_logout seq_no

unfoldable pub logout_req_unpack : Bytes → Option (Unit {0})
unfolding empty_req_unpack
logout_req_unpack frame = empty_req_unpack frame req_logout

unfoldable pub get_basic_info_req_pack : (frame_room seq_no : ℕ) → Option Bytes
unfolding empty_req_pack
get_basic_info_req_pack frame_room seq_no = empty_req_pack frame_room req_get_basic_info seq_no

unfoldable pub get_basic_info_req_unpack : Bytes → Option (Unit {0})
unfolding empty_req_unpack
get_basic_info_req_unpack frame = empty_req_unpack frame req_get_basic_info

unfoldable pub get_device_info_req_pack : (frame_room seq_no : ℕ) → Option Bytes
unfolding empty_req_pack
get_device_info_req_pack frame_room seq_no = empty_req_pack frame_room req_get_device_info seq_no

unfoldable pub get_device_info_req_unpack : Bytes → Option (Unit {0})
unfolding empty_req_unpack
get_device_info_req_unpack frame = empty_req_unpack frame req_get_device_info

unfoldable pub reset_req_pack : (frame_room seq_no : ℕ) → Option Bytes
unfolding empty_req_pack
reset_req_pack frame_room seq_no = empty_req_pack frame_room req_reset seq_no

unfoldable pub reset_req_unpack : Bytes → Option (Unit {0})
unfolding empty_req_unpack
reset_req_unpack frame = empty_req_unpack frame req_reset
