-- ===== src/Protocol/Ids.antt =====
-- protocol/proto.h and protocol/ids.h: the constants of the wire format.
use wlan_opc.Base.{ℕ}

abbrev pub protocol_version : ℕ
protocol_version = 0x01

-- Sizes of the fixed header, the common header, and the largest payload and frame.
abbrev pub fixed_header_size : ℕ
fixed_header_size = 8

abbrev pub header_size : ℕ
header_size = 64

abbrev pub payload_max : ℕ
payload_max = 1360

abbrev pub frame_max : ℕ
frame_max = 1424

abbrev pub cmd_request : ℕ
cmd_request = 0x01

abbrev pub cmd_ack : ℕ
cmd_ack = 0x02

abbrev pub cmd_indication : ℕ
cmd_indication = 0x03

abbrev pub result_ok : ℕ
result_ok = 0x0000

abbrev pub result_ng : ℕ
result_ng = 0x0001

abbrev pub err_none : ℕ
err_none = 0x0000

abbrev pub err_login_violation : ℕ
err_login_violation = 0x0001

abbrev pub err_login_condition : ℕ
err_login_condition = 0x0002

abbrev pub err_packet_size : ℕ
err_packet_size = 0x0003

abbrev pub err_nvram : ℕ
err_nvram = 0x0004

abbrev pub req_login : ℕ
req_login = 0xF001

abbrev pub req_logout : ℕ
req_logout = 0xF002

abbrev pub req_get_basic_info : ℕ
req_get_basic_info = 0x0001

abbrev pub req_get_device_info : ℕ
req_get_device_info = 0x0002

abbrev pub req_set_password : ℕ
req_set_password = 0x1001

abbrev pub req_set_ip_config_list : ℕ
req_set_ip_config_list = 0x1002

abbrev pub req_change_ip_address : ℕ
req_change_ip_address = 0x1003

abbrev pub req_set_radio_config : ℕ
req_set_radio_config = 0x1004

abbrev pub req_set_indication_config : ℕ
req_set_indication_config = 0x1005

abbrev pub req_reset : ℕ
req_reset = 0x2001

abbrev pub ind_init_complete : ℕ
ind_init_complete = 0x0001

abbrev pub ind_wlan_status_change : ℕ
ind_wlan_status_change = 0x0002

abbrev pub ind_roaming : ℕ
ind_roaming = 0x0004

abbrev pub ind_ap_disconnect : ℕ
ind_ap_disconnect = 0x0008

abbrev pub ind_fault_detect : ℕ
ind_fault_detect = 0x0010

abbrev pub ind_reset_notice : ℕ
ind_reset_notice = 0x0020

abbrev pub ind_keep_alive : ℕ
ind_keep_alive = 0x0080
