-- ===== src/Opcd/RadioRestore.antt =====
-- opcd/handler.c: the radio configuration that the daemon starts with (opcd_radio_conf_load). The file
-- radio.conf is the memory of the struct, so its integers are little-endian, as on the processors of
-- the device. Log messages are not modelled.
pub mod Laws
use wlan_opc.Base.{
  ℕ, ◌+◌, ◌*◌, ◌/◌, ◌%◌, Bool, true, false, not, ◌&&◌, ◌||◌, Option, none, some, [], ◌∷◌, ◌++◌,
  Bytes, ◌==◌, ◌/=◌, leb, if◌then◌else◌, length, take, drop, zeros,
}
use wlan_opc.Protocol.Codec.{byte_at}
use wlan_opc.Protocol.Commands.Records.{WlanRadioCfg, SetRadioConfigReq}
use wlan_opc.Protocol.ScanChlist.{
  band_unset, band_2_4ghz, band_5ghz, list_set_channel, list_normalize_rows, list_valid,
}
use wlan_opc.Opcd.State.{State}
use wlan_opc.Opcd.RadioChecks.{station_dual}
use wlan_opc.Opcd.Persist.{StoreOutcome, replaced, is_durable}

unfoldable pub le16_read : Bytes → ℕ
le16_read p = byte_at p 0 + byte_at p 1 * 256

abbrev pub le16_write : ℕ → Bytes
le16_write v = (v % 256) ∷ (v / 256 % 256) ∷ []

unfoldable pub wlan_bytes : WlanRadioCfg → Bytes
wlan_bytes c = c.mode ∷ c.bandwidth ∷ (le16_write c.scan_band ++ c.scan_chlist)

-- The 28 bytes of the struct.
unfoldable pub radio_bytes : SetRadioConfigReq → Bytes
radio_bytes r =
    le16_write r.station_type
    ++ (le16_write r.priority_ch ++ (wlan_bytes r.wlan1 ++ wlan_bytes r.wlan2))

unfoldable pub wlan_of_bytes : Bytes → WlanRadioCfg
wlan_of_bytes p = record {
  mode = byte_at p 0;
  bandwidth = byte_at p 1;
  scan_band = le16_read (drop 2 p);
  scan_chlist = take 8 (drop 4 p);
}

unfoldable pub radio_of_bytes : Bytes → SetRadioConfigReq
radio_of_bytes p = record {
  station_type = le16_read p;
  priority_ch = le16_read (drop 2 p);
  wlan1 = wlan_of_bytes (drop 4 p);
  wlan2 = wlan_of_bytes (drop 16 p);
}

pub record LegacyRadioWlan : Type 0 where
  pub freq_mhz : ℕ
  pub channel : ℕ
  pub mode : ℕ
  pub bandwidth : ℕ

abbrev pub legacy_of_bytes : Bytes → LegacyRadioWlan
legacy_of_bytes p = record {
  freq_mhz = le16_read p;
  channel = le16_read (drop 2 p);
  mode = byte_at p 4;
  bandwidth = byte_at p 5;
}

unfoldable pub legacy_radio_wlan_convert : LegacyRadioWlan → WlanRadioCfg
legacy_radio_wlan_convert w =
    let band =
      if leb 2400 w.freq_mhz && leb w.freq_mhz 2484
      then band_2_4ghz
      else if leb 4900 w.freq_mhz && leb w.freq_mhz 5925
      then band_5ghz
      else band_unset in
    let ch = w.channel % 256 in
    record {
      mode = w.mode;
      bandwidth = w.bandwidth;
      scan_band = band;
      scan_chlist =
          if (band /= band_unset) && (ch /= 0) then list_set_channel (zeros 8) band ch else zeros 8;
    }

-- The configuration, and whether the file had the layout of an older version.
unfoldable pub opcd_radio_conf_decode : Bytes → Option (SetRadioConfigReq × Bool)
opcd_radio_conf_decode buf =
    if length buf == 28
    then some (radio_of_bytes buf, false)
    else if length buf == 16
    then some (
      record {
        station_type = le16_read buf;
        priority_ch = le16_read (drop 2 buf);
        wlan1 = legacy_radio_wlan_convert (legacy_of_bytes (drop 4 buf));
        wlan2 = legacy_radio_wlan_convert (legacy_of_bytes (drop 10 buf));
      },
      true,
    )
    else none

abbrev pub normalized : WlanRadioCfg → WlanRadioCfg
normalized w = record w { scan_chlist = (list_normalize_rows w.scan_band w.scan_chlist).0 }

abbrev pub moves : WlanRadioCfg → Bool
moves w = (list_normalize_rows w.scan_band w.scan_chlist).1

abbrev pub lists_valid : SetRadioConfigReq → Bool
lists_valid r =
    list_valid r.wlan1.scan_band r.wlan1.scan_chlist
    && (not (r.station_type == station_dual) || list_valid r.wlan2.scan_band r.wlan2.scan_chlist)

-- The configuration after the call, whether a list was moved, and whether the lists are valid then.
unfoldable pub opcd_radio_conf_migrate_lists : SetRadioConfigReq → SetRadioConfigReq × Bool × Bool
opcd_radio_conf_migrate_lists r =
    let dual = r.station_type == station_dual in
    let r1 = record r {
      wlan1 = normalized r.wlan1;
      wlan2 = if dual then normalized r.wlan2 else r.wlan2;
    } in
    (r1, moves r.wlan1 || (dual && moves r.wlan2), lists_valid r1)

pub data RadioRestore : Type 0 where
  restore_discard_size : RadioRestore
  restore_discard_invalid : RadioRestore
  restore_committed : RadioRestore
  restore_migrated : RadioRestore
  restore_legacy : RadioRestore

abbrev verdict_of : (moved valid legacy : Bool) → RadioRestore
verdict_of moved false legacy = restore_discard_invalid
verdict_of moved true true = restore_legacy
verdict_of true true false = restore_migrated
verdict_of false true false = restore_committed

-- The verdict, and the configuration of one that is not discarded.
unfoldable pub opcd_radio_conf_restore : Bytes → RadioRestore × Option SetRadioConfigReq
opcd_radio_conf_restore buf = elim (opcd_radio_conf_decode buf) [
  | none ↦ (restore_discard_size, none)
  | some (r, legacy) ↦
      let (r1, moved, valid) = opcd_radio_conf_migrate_lists r in
      (verdict_of moved valid legacy, if valid then some r1 else none)
]

abbrev pub unset_wlan : WlanRadioCfg
unset_wlan = record { mode = 0; bandwidth = 0; scan_band = band_unset; scan_chlist = zeros 8 }

abbrev pub default_radio : State → SetRadioConfigReq
default_radio st = record {
  station_type = st.default_station_type;
  priority_ch = 0;
  wlan1 = unset_wlan;
  wlan2 = unset_wlan;
}

pub record RadioLoad : Type 0 where
  pub state : State
  pub file : Option Bytes
  pub verdict : RadioRestore

-- What is done with a verdict: `marker` is whether the marker of a change is there, `o` how the write
-- of a migrated configuration ends.
unfoldable pub take_restored :
    (marker : Bool)
    → StoreOutcome
    → State
    → Option Bytes
    → RadioRestore × Option SetRadioConfigReq
    → RadioLoad
take_restored marker o st file (verdict, none) = record {
  state = record st { radio = default_radio st; radio_committed = false };
  file = file;
  verdict = verdict;
}
take_restored marker o st file (restore_legacy, some r) = record {
  state = record st { radio = r; radio_committed = false };
  file = file;
  verdict = restore_legacy;
}
take_restored marker o st file (restore_migrated, some r) = record {
  state = record st { radio = r; radio_committed = not marker && is_durable o };
  file = if replaced o then some (radio_bytes r) else file;
  verdict = restore_migrated;
}
take_restored marker o st file (verdict, some r) = record {
  state = record st { radio = r; radio_committed = not marker };
  file = file;
  verdict = verdict;
}

-- No file, or an empty one, is discarded.
abbrev pub restore_file : Option Bytes → RadioRestore × Option SetRadioConfigReq
restore_file none = (restore_discard_size, none)
restore_file (some []) = (restore_discard_size, none)
restore_file (some (b ∷ bs)) = opcd_radio_conf_restore (b ∷ bs)

unfoldable pub opcd_radio_conf_load :
    (marker : Bool) → StoreOutcome → Option Bytes → State → RadioLoad
opcd_radio_conf_load marker o file st = take_restored marker o st file (restore_file file)
