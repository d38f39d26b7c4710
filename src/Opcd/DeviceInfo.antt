-- ===== src/Opcd/DeviceInfo.antt =====
-- opcd/handler.c: handle_get_device_info. What the platform and wifi_init_conf.json say is an argument;
-- a value that could not be read is 0 or zeros there. The snapshot file is not modelled.
pub mod Laws
use wlan_opc.Base.{
  ℕ, ◌/◌, Bool, true, false, not, ◌&&◌, ◌||◌, Option, none, some, [], Bytes, ◌==◌, ◌/=◌,
  if◌then◌else◌, zeros,
}
use wlan_opc.Base.Int.{ℤ, negsuc, pos}
use wlan_opc.Protocol.Ids.{err_none, err_packet_size, result_ok, result_ng}
use wlan_opc.Protocol.Commands.Records.{Ack, Date, WlanRadioState, WlanRadioCfg, GetDeviceInfoAck}
use wlan_opc.Protocol.Commands.Simple.{get_device_info_req_unpack}
use wlan_opc.Protocol.Commands.DeviceInfo.{get_device_info_ack_pack}
use wlan_opc.Protocol.ScanChlist.{band_unset, band_or_unset, derive_freq_ch}
use wlan_opc.Opcd.State.{State}
use wlan_opc.Opcd.Session.{
  Inventory, Outcome, LoginCheck, ack_of, check_login_required, session_touch,
  effective_station_type,
}
use wlan_opc.Opcd.Channel.{opc_chan_field, wlan_ch_unset}
use wlan_opc.Opcd.RadioChecks.{station_dual}

abbrev pub err_indication_setting_violation : ℕ
err_indication_setting_violation = 0x0010

-- -128
abbrev pub signal_invalid : ℤ
signal_invalid = negsuc 127

abbrev pub freq_unset : ℕ
freq_unset = 0xFFFF

abbrev pub status_invalid : ℕ
status_invalid = 0xFFFF

abbrev pub mode_unset : ℕ
mode_unset = 0xFF

abbrev pub bandwidth_unset : ℕ
bandwidth_unset = 0xFF

abbrev pub priority_ch_unset : ℕ
priority_ch_unset = 0xFFFF

pub data FreqSource : Type 0 where
  live : FreqSource
  auto : FreqSource
  config : FreqSource

pub record Link : Type 0 where
  pub freq_mhz : ℕ
  pub channel : ℕ
  pub bssid : Bytes
  pub snr : ℤ
  pub rssi : ℤ
  pub snr_valid : Bool
  pub rssi_valid : Bool
  pub associated : Bool

-- What is read of one interface: its address, its link when that could be read, and its mode and
-- bandwidth in the configuration of the device.
pub record WlanReadings : Type 0 where
  pub mac : Bytes
  pub link : Option Link
  pub conf_mode : ℕ
  pub conf_bandwidth : ℕ

pub record DeviceReadings : Type 0 where
  pub firmware_version : Bytes
  pub ntp_server : ℕ
  pub ethernet_mac : Bytes
  pub ip_address : ℕ
  pub subnet_mask : ℕ
  pub default_gateway : ℕ
  pub essid : Bytes
  pub wlan1 : WlanReadings
  pub wlan2 : WlanReadings

-- After `memset(&ack, 0, sizeof ack)`.
abbrev pub zero_wlan : WlanRadioState
zero_wlan = record {
  mac = zeros 6;
  mode = 0;
  bandwidth = 0;
  freq_mhz = 0;
  channel = 0;
  status = 0;
  snr = pos 0;
  rssi = pos 0;
  connect_ap_mac = zeros 6;
  scan_band = 0;
  scan_chlist = zeros 8;
}

abbrev zero_date : Date
zero_date = record { year = 0; month = 0; day = 0 }

abbrev pub zero_ack : GetDeviceInfoAck
zero_ack = record {
  result = 0;
  error_cause = 0;
  vendor_code = 0;
  product_code = 0;
  product_subcode = 0;
  manufacture = zero_date;
  shipment = zero_date;
  firmware_version = zeros 32;
  hardware_version = zeros 32;
  serial_number = zeros 32;
  ethernet_mac = zeros 6;
  ip_address = 0;
  subnet_mask = 0;
  default_gateway = 0;
  ntp_server = 0;
  essid = zeros 32;
  device_status = 0;
  station_type = 0;
  priority_ch = 0;
  ieee_11r = 0;
  ieee_11ai = 0;
  ieee_11k = 0;
  ieee_11v = 0;
  wlan1 = zero_wlan;
  wlan2 = zero_wlan;
}

unfoldable pub devinfo_wlan_unassociated : WlanRadioState → WlanRadioState
devinfo_wlan_unassociated w = record w {
  freq_mhz = freq_unset;
  channel = wlan_ch_unset;
  status = 0;
  snr = signal_invalid;
  rssi = signal_invalid;
  connect_ap_mac = zeros 6;
}

unfoldable pub devinfo_wlan_invalid : WlanRadioState
devinfo_wlan_invalid = record zero_wlan {
  mode = mode_unset;
  bandwidth = bandwidth_unset;
  freq_mhz = freq_unset;
  channel = wlan_ch_unset;
  status = status_invalid;
  snr = signal_invalid;
  rssi = signal_invalid;
  scan_band = band_unset;
}

unfoldable pub devinfo_wlan_cfg : WlanRadioCfg → WlanReadings → WlanRadioState → WlanRadioState
devinfo_wlan_cfg radio r w =
    if (radio.mode /= 0) && (radio.mode /= mode_unset)
    then record w { mode = radio.mode; bandwidth = radio.bandwidth }
    else record w { mode = r.conf_mode; bandwidth = r.conf_bandwidth }

abbrev uses_live : FreqSource → (live_ok : Bool) → Bool
uses_live live live_ok = true
uses_live auto live_ok = live_ok
uses_live config live_ok = false

-- The frequency and the CH field.
unfoldable pub select_devinfo_freq_ch :
    FreqSource → (assoc : Bool) → (live_freq live_ch cfg_freq cfg_ch : ℕ) → ℕ × ℕ
select_devinfo_freq_ch src assoc live_freq live_ch cfg_freq cfg_ch =
    let live_ok = assoc && (live_freq /= 0) in
    let use_live = uses_live src live_ok in
    let ch_field = opc_chan_field live_freq live_ch in
    if use_live && live_ok
    then (live_freq, if ch_field / 256 /= 0 then ch_field else wlan_ch_unset)
    else if use_live || (cfg_freq == 0)
    then (freq_unset, wlan_ch_unset)
    else (cfg_freq, cfg_ch)

abbrev link_associated : Option Link → Bool
link_associated none = false
link_associated (some l) = l.associated

abbrev live_freq_ch : Option Link → ℕ × ℕ
live_freq_ch none = (0, 0)
live_freq_ch (some l) = if l.associated then (l.freq_mhz, l.channel) else (0, 0)

-- The measured fields.
unfoldable pub measured : Option Link → WlanRadioState → WlanRadioState
measured none w = w
measured (some l) w =
    if l.associated
    then record w {
      connect_ap_mac = l.bssid;
      snr = if l.snr_valid then l.snr else w.snr;
      rssi = if l.rssi_valid then l.rssi else w.rssi;
      status = 1;
    }
    else w

abbrev pub linked : WlanReadings → WlanRadioState
linked r = measured r.link (devinfo_wlan_unassociated (record zero_wlan { mac = r.mac }))

-- The configured fields, over the measured ones of `link`.
unfoldable pub configured :
    FreqSource → Option Link → WlanRadioCfg → WlanReadings → WlanRadioState → WlanRadioState
configured src link radio r w =
    let band = band_or_unset radio.scan_band in
    let (live_freq, live_ch) = live_freq_ch link in
    let (cfg_freq, cfg_ch) = derive_freq_ch band radio.scan_chlist in
    let (freq, ch) =
      select_devinfo_freq_ch src (link_associated link) live_freq live_ch cfg_freq cfg_ch in
    devinfo_wlan_cfg radio r (record w {
      scan_band = band;
      scan_chlist = radio.scan_chlist;
      freq_mhz = freq;
      channel = ch;
    })

-- The block of WLAN 2; its link is only read for two stations.
unfoldable pub second_wlan : FreqSource → State → DeviceReadings → WlanRadioState
second_wlan src st r =
    let reads = st.radio.station_type == station_dual in
    let w = if reads then linked r.wlan2 else zero_wlan in
    if effective_station_type st == station_dual
    then configured src (if reads then r.wlan2.link else none) st.radio.wlan2 r.wlan2 w
    else devinfo_wlan_invalid

unfoldable pub device_info : FreqSource → Inventory → DeviceReadings → State → GetDeviceInfoAck
device_info src inv r st =
    let station = effective_station_type st in
    record {
      result = result_ok;
      error_cause = err_none;
      vendor_code = inv.vendor_code;
      product_code = inv.product_code;
      product_subcode = inv.product_subcode;
      manufacture = inv.manufacture_date;
      shipment = inv.shipment_date;
      firmware_version = r.firmware_version;
      hardware_version = inv.hardware_version;
      serial_number = inv.serial_number;
      ethernet_mac = r.ethernet_mac;
      ip_address = r.ip_address;
      subnet_mask = r.subnet_mask;
      default_gateway = r.default_gateway;
      ntp_server = r.ntp_server;
      essid = r.essid;
      device_status = st.boot_status;
      station_type = station;
      priority_ch =
          if (station == station_dual) && (st.radio.priority_ch /= 0)
          then st.radio.priority_ch
          else priority_ch_unset;
      ieee_11r = inv.ieee_11r;
      ieee_11ai = inv.ieee_11ai;
      ieee_11k = inv.ieee_11k;
      ieee_11v = inv.ieee_11v;
      wlan1 = configured src r.wlan1.link st.radio.wlan1 r.wlan1 (linked r.wlan1);
      wlan2 = second_wlan src st r;
    }

-- The answer NG has no other field.
abbrev pub device_info_ng : (room seq : ℕ) → Ack → Option Bytes
device_info_ng room seq ack =
    get_device_info_ack_pack room seq
      (record zero_ack { result = ack.result; error_cause = ack.error_cause })

-- The query of the holder of the session.
unfoldable pub answer_device_info :
    FreqSource → Inventory → DeviceReadings → (now room : ℕ) → State → (seq : ℕ) → Outcome
answer_device_info src inv r now room st seq =
    if st.indication_enabled
    then record {
      state = st;
      sent = [];
      resp = device_info_ng room seq (ack_of err_indication_setting_violation);
    }
    else record {
      state = session_touch now st;
      sent = [];
      resp = get_device_info_ack_pack room seq (device_info src inv r st);
    }

unfoldable pub handle_get_device_info :
    FreqSource
    → Inventory
    → DeviceReadings
    → (now room : ℕ) → State
    → Bytes
    → (ip seq : ℕ) → Outcome
handle_get_device_info src inv r now room st frame ip seq =
    elim (get_device_info_req_unpack frame) [
      | none ↦ record {
        state = st;
        sent = [];
        resp = device_info_ng room seq (ack_of err_packet_size);
      }
      | some _ ↦ elim (check_login_required now st ip) [
        | LoginCheck.refused err ↦ record {
          state = st;
          sent = [];
          resp = device_info_ng room seq (ack_of err);
        }
        | LoginCheck.admitted st1 ↦ answer_device_info src inv r now room st1 seq
      ]
    ]
