-- ===== src/Tests/DeviceInfo.antt =====
-- GetDeviceInfo at concrete values.
use wlan_opc.Base.{◌≡◌, ◌⊎◌, refl, true, false, none, some, Bytes, [], ◌∷◌, zeros}
use wlan_opc.Base.Int.{pos, negsuc}
use wlan_opc.Protocol.Commands.Records.{Date}
use wlan_opc.Protocol.Commands.Simple.{get_device_info_req_unpack}
use wlan_opc.Opcd.State.{State}
use wlan_opc.Opcd.Session.{Inventory, session_owns, session_touch, effective_station_type}
use wlan_opc.Opcd.Session.Laws.{IsRefused}
use wlan_opc.Opcd.Channel.{opc_chan_field}
use wlan_opc.Protocol.ScanChlist.{band_or_unset, derive_freq_ch, band_known}
use wlan_opc.Opcd.DeviceInfo.{
  Link, WlanReadings, DeviceReadings, live, device_info_ng, device_info, handle_get_device_info,
  configured, measured, devinfo_wlan_unassociated, devinfo_wlan_cfg, select_devinfo_freq_ch,
  second_wlan, devinfo_wlan_invalid,
}
use wlan_opc.Opcd.DeviceInfo.Laws.{IsTold, handle_get_device_info-cases}
use wlan_opc.Tests.Opcd.{a_state}

abbrev a_date : Date
a_date = record { year = 2026; month = 9; day = 18 }

abbrev pub an_inventory : Inventory
an_inventory = record {
  vendor_code = 0x00902CFB;
  product_code = 1;
  product_subcode = 0;
  hardware_version = 49 ∷ zeros 31;
  serial_number = 50 ∷ zeros 31;
  manufacture_date = a_date;
  shipment_date = a_date;
  ieee_11r = 1;
  ieee_11ai = 0;
  ieee_11k = 1;
  ieee_11v = 1;
}

-- On channel 36 with a signal of -60 dBm.
abbrev a_link : Link
a_link = record {
  freq_mhz = 5180;
  channel = 36;
  bssid = 2 ∷ zeros 5;
  snr = pos 30;
  rssi = negsuc 59;
  snr_valid = false;
  rssi_valid = true;
  associated = true;
}

abbrev no_wlan : WlanReadings
no_wlan = record { mac = zeros 6; link = none; conf_mode = 0xFF; conf_bandwidth = 0xFF }

abbrev pub readings : DeviceReadings
readings = record {
  firmware_version = 51 ∷ zeros 31;
  ntp_server = 0;
  ethernet_mac = zeros 6;
  ip_address = 0xC0A80105;
  subnet_mask = 0xFFFFFF00;
  default_gateway = 0;
  essid = 77 ∷ zeros 31;
  wlan1 = record no_wlan { link = some a_link };
  wlan2 = no_wlan;
}

live_channel : (device_info live an_inventory readings a_state).wlan1.channel ≡ 0x0224
unfolding device_info configured devinfo_wlan_cfg select_devinfo_freq_ch opc_chan_field
    band_or_unset derive_freq_ch band_known measured devinfo_wlan_unassociated
live_channel = refl

-- A metric that was not read is -128; no channel is configured.
unread_snr : (device_info live an_inventory readings a_state).wlan1.snr ≡ negsuc 127
unfolding device_info configured devinfo_wlan_cfg select_devinfo_freq_ch opc_chan_field
    band_or_unset derive_freq_ch band_known measured devinfo_wlan_unassociated
unread_snr = refl

single_station : (device_info live an_inventory readings a_state).wlan2 ≡ devinfo_wlan_invalid
unfolding device_info second_wlan effective_station_type
single_station = refl

-- GetDeviceInfo, sequence number 9.
abbrev info_frame : Bytes
info_frame = 1 ∷ 1 ∷ 0x00 ∷ 0x02 ∷ 0 ∷ 9 ∷ 0 ∷ 0 ∷ []

abbrev quiet_state : State
quiet_state = record a_state { indication_enabled = false }

handle_get_device_info-cases_example :
    let out =
      handle_get_device_info live an_inventory readings 50 1424 quiet_state info_frame 0xC0A80101
        9 in
    (((get_device_info_req_unpack info_frame ≡ none)
        ⊎ (session_owns quiet_state 0xC0A80101 ≡ false))
      × IsRefused quiet_state (device_info_ng 1424 9) out)
    ⊎ (((get_device_info_req_unpack info_frame ≡ some tt)
          × (session_owns quiet_state 0xC0A80101 ≡ true)
          × (quiet_state.indication_enabled ≡ true)
          × IsRefused (session_touch 50 quiet_state) (device_info_ng 1424 9) out)
        ⊎ IsTold live an_inventory readings 50 1424 quiet_state info_frame 0xC0A80101 9 out)
handle_get_device_info-cases_example =
    handle_get_device_info-cases live an_inventory readings 50 1424 quiet_state info_frame
      0xC0A80101 9
