-- ===== src/Tests/Restore.antt =====
-- The start with radio.conf, at concrete values.
use wlan_opc.Base.{
  Option, ◌≡◌, refl, Bool, true, false, not, some, Bytes, [], ◌∷◌, ◌++◌, zeros, arith,
}
use wlan_opc.Protocol.Codec.{be32_read}
use wlan_opc.Protocol.Commands.Records.{SetRadioConfigReq}
use wlan_opc.Protocol.ScanChlist.{
  list_valid, band_known, bad_bit, row_word, row_channel, list_normalize_rows, band_supported,
}
use wlan_opc.Opcd.Persist.{durable}
use wlan_opc.Opcd.RadioRestore.{
  radio_bytes, lists_valid, opcd_radio_conf_load, restore_committed, restore_migrated,
  opcd_radio_conf_restore, opcd_radio_conf_decode, opcd_radio_conf_migrate_lists, radio_of_bytes,
  wlan_of_bytes, wlan_bytes, le16_read, take_restored,
}
use wlan_opc.Opcd.RadioRestore.Laws.{
  IsKeepable, opcd_radio_conf_load-radio_bytes, opcd_radio_conf_load-committed,
}
use wlan_opc.Tests.Opcd.{a_state}

-- 5 GHz, channel 36, in the list `list`.
abbrev scanning : Bytes → SetRadioConfigReq
scanning list = record {
  station_type = 1;
  priority_ch = 0;
  wlan1 = record { mode = 9; bandwidth = 2; scan_band = 2; scan_chlist = list };
  wlan2 = record { mode = 0xFF; bandwidth = 0xFF; scan_band = 0xFFFF; scan_chlist = zeros 8 };
}

abbrev first_row : Bytes
first_row = 0 ∷ 0 ∷ 0 ∷ 1 ∷ zeros 4

abbrev second_row : Bytes
second_row = zeros 4 ++ (0 ∷ 0 ∷ 0 ∷ 1 ∷ [])

first_row_valid : lists_valid (scanning first_row) ≡ true
unfolding list_valid band_known bad_bit row_word row_channel be32_read
first_row_valid = refl

scanning-IsKeepable : IsKeepable (scanning first_row)
scanning-IsKeepable = record {
  station = omega arith;
  priority = omega arith;
  wlan1 = record { band = omega arith; list_size = refl };
  wlan2 = record { band = omega arith; list_size = refl };
  lists = first_row_valid;
}

opcd_radio_conf_load-radio_bytes_example :
    let l = opcd_radio_conf_load false durable (some (radio_bytes (scanning first_row))) a_state in
    (l.verdict ≡ restore_committed)
    × (l.state.radio ≡ scanning first_row)
    × (l.state.radio_committed ≡ not false)
    × (l.file ≡ some (radio_bytes (scanning first_row)))
opcd_radio_conf_load-radio_bytes_example =
    opcd_radio_conf_load-radio_bytes false durable a_state (scanning first_row) scanning-IsKeepable

-- A file of before, with the channel in the other row: it is moved and written back.
abbrev moved : Option Bytes
moved = some (radio_bytes (scanning second_row))

moved_verdict : (opcd_radio_conf_load false durable moved a_state).verdict ≡ restore_migrated
unfolding opcd_radio_conf_load take_restored opcd_radio_conf_restore opcd_radio_conf_decode
    opcd_radio_conf_migrate_lists radio_of_bytes wlan_of_bytes wlan_bytes radio_bytes le16_read
    list_valid band_known bad_bit row_word row_channel be32_read list_normalize_rows band_supported
moved_verdict = refl

moved_committed : (opcd_radio_conf_load false durable moved a_state).state.radio_committed ≡ true
unfolding opcd_radio_conf_load take_restored opcd_radio_conf_restore opcd_radio_conf_decode
    opcd_radio_conf_migrate_lists radio_of_bytes wlan_of_bytes wlan_bytes radio_bytes le16_read
    list_valid band_known bad_bit row_word row_channel be32_read list_normalize_rows band_supported
moved_committed = refl

opcd_radio_conf_load-committed_example :
    (◌≡◌ {A = Bool} false false)
    × (lists_valid (opcd_radio_conf_load false durable moved a_state).state.radio ≡ true)
opcd_radio_conf_load-committed_example =
    opcd_radio_conf_load-committed false durable moved a_state moved_committed
