-- ===== src/Protocol/Commands/Records.antt =====
-- protocol/commands.h: the messages in host representation. A `char` or byte array is the list of
-- its bytes; an `int8_t` is an integer.
use wlan_opc.Base.{ℕ, Bool, List, Bytes}
use wlan_opc.Base.Int.{ℤ}

-- Result and ErrorCause, the body that all simple acknowledgments have.
pub record Ack : Type 0 where
  pub result : ℕ
  pub error_cause : ℕ

pub record Date : Type 0 where
  pub year : ℕ
  pub month : ℕ
  pub day : ℕ

pub record WlanRadioState : Type 0 where
  pub mac : Bytes
  pub mode : ℕ
  pub bandwidth : ℕ
  pub freq_mhz : ℕ
  pub channel : ℕ
  pub status : ℕ
  pub snr : ℤ
  pub rssi : ℤ
  pub connect_ap_mac : Bytes
  pub scan_band : ℕ
  pub scan_chlist : Bytes

pub record WlanRadioCfg : Type 0 where
  pub mode : ℕ
  pub bandwidth : ℕ
  pub scan_band : ℕ
  pub scan_chlist : Bytes

pub record LoginReq : Type 0 where
  pub password : Bytes
  pub password_terminated : Bool

pub record GetBasicInfoAck : Type 0 where
  pub vendor_code : ℕ
  pub product_code : ℕ
  pub product_subcode : ℕ
  pub device_status : ℕ
  pub station_type : ℕ

pub record GetDeviceInfoAck : Type 0 where
  pub result : ℕ
  pub error_cause : ℕ
  pub vendor_code : ℕ
  pub product_code : ℕ
  pub product_subcode : ℕ
  pub manufacture : Date
  pub shipment : Date
  pub firmware_version : Bytes
  pub hardware_version : Bytes
  pub serial_number : Bytes
  pub ethernet_mac : Bytes
  pub ip_address : ℕ
  pub subnet_mask : ℕ
  pub default_gateway : ℕ
  pub ntp_server : ℕ
  pub essid : Bytes
  pub device_status : ℕ
  pub station_type : ℕ
  pub priority_ch : ℕ
  pub ieee_11r : ℕ
  pub ieee_11ai : ℕ
  pub ieee_11k : ℕ
  pub ieee_11v : ℕ
  pub wlan1 : WlanRadioState
  pub wlan2 : WlanRadioState

pub record SetPasswordReq : Type 0 where
  pub old_password : Bytes
  pub new_password : Bytes
  pub old_password_terminated : Bool
  pub new_password_terminated : Bool

pub record IpcfgEntry : Type 0 where
  pub boundary_flag : ℕ
  pub list_number : ℕ
  pub ip_address : ℕ
  pub subnet_mask : ℕ
  pub default_gateway : ℕ
  pub ntp_server : ℕ
  pub essid : Bytes

-- `entries` holds the first `entry_count` entries of the array.
pub record SetIpConfigListReq : Type 0 where
  pub entries : List IpcfgEntry
  pub essid_terminated_mask : ℕ

pub record ChangeIpAddressReq : Type 0 where
  pub list_number : ℕ

pub record SetRadioConfigReq : Type 0 where
  pub station_type : ℕ
  pub priority_ch : ℕ
  pub wlan1 : WlanRadioCfg
  pub wlan2 : WlanRadioCfg

pub record SetIndicationConfigReq : Type 0 where
  pub recipient_port : ℕ
  pub info_bits : ℕ
  pub period_seconds : ℕ
  pub recipient_ip : ℕ
