-- ===== src/Opcd/RadioChecks.antt =====
-- opcd/handler.c: the checks on the values of SetRadioConfig, and the comparison of two
-- configurations.
pub mod Laws
use wlan_opc.Base.{
  ℕ, ◌/◌, ◌%◌, Bool, true, false, not, ◌&&◌, ◌||◌, Option, none, some, [], ◌∷◌, Bytes, ◌==◌, ◌/=◌,
  if◌then◌else◌,
}
use wlan_opc.Protocol.Ids.{err_none}
use wlan_opc.Protocol.Commands.Records.{WlanRadioCfg, SetRadioConfigReq}
use wlan_opc.Protocol.ScanChlist.{band_unset, band_supported, bit_for_channel, list_valid}
use wlan_opc.Opcd.State.{State}

abbrev pub station_single : ℕ
station_single = 1

abbrev pub station_dual : ℕ
station_dual = 2

abbrev pub err_station_type : ℕ
err_station_type = 0x0010

abbrev pub err_radio_freq : ℕ
err_radio_freq = 0x0011

abbrev pub err_radio_scan_ch : ℕ
err_radio_scan_ch = 0x0012

abbrev pub err_radio_mode : ℕ
err_radio_mode = 0x0013

abbrev pub err_radio_bw : ℕ
err_radio_bw = 0x0014

abbrev pub err_radio_prio_band : ℕ
err_radio_prio_band = 0x0015

abbrev pub err_radio_prio_ch : ℕ
err_radio_prio_ch = 0x0016

-- 11a, 11b, 11g, 11n, 11ac, 11ax.
unfoldable pub valid_wlan_mode : ℕ → Bool
valid_wlan_mode m = (m == 4) || ((m == 5) || ((m == 6) || ((m == 7) || ((m == 9) || (m == 11)))))

-- 20, 40, 80, 160, 80+80 and 320 MHz.
unfoldable pub valid_wlan_bw : ℕ → Bool
valid_wlan_bw b = (b == 0) || ((b == 1) || ((b == 2) || ((b == 3) || ((b == 4) || (b == 12)))))

unfoldable pub valid_scan_band : ℕ → Bool
valid_scan_band band = (band == band_unset) || band_supported band

pub data PrioChVerdict : Type 0 where
  prio_ch_ok : PrioChVerdict
  prio_ch_bad_band : PrioChVerdict
  prio_ch_bad_ch : PrioChVerdict

abbrev found {ℓ} : {A : Type ℓ} → Option A → Bool
found none = false
found (some a) = true

unfoldable pub check_priority_ch : ℕ → PrioChVerdict
check_priority_ch prio =
    if not (band_supported (prio / 256))
    then prio_ch_bad_band
    else if prio % 256 == 0xFF
    then prio_ch_ok
    else if found (bit_for_channel (prio / 256) (prio % 256))
    then prio_ch_ok
    else prio_ch_bad_ch

abbrev pub verdict_error : PrioChVerdict → ℕ
verdict_error prio_ch_ok = err_none
verdict_error prio_ch_bad_band = err_radio_prio_band
verdict_error prio_ch_bad_ch = err_radio_prio_ch

-- `memcmp` of two arrays of one length is 0.
unfoldable pub same_bytes : Bytes → Bytes → Bool
same_bytes [] [] = true
same_bytes [] (b ∷ bs) = false
same_bytes (a ∷ as') [] = false
same_bytes (a ∷ as') (b ∷ bs) = (a == b) && same_bytes as' bs

unfoldable pub wlan_cfg_differs : WlanRadioCfg → WlanRadioCfg → Bool
wlan_cfg_differs a b =
    (a.mode /= b.mode)
    || ((a.bandwidth /= b.bandwidth)
        || ((a.scan_band /= b.scan_band) || not (same_bytes a.scan_chlist b.scan_chlist)))

unfoldable pub radio_cfg_differs : SetRadioConfigReq → SetRadioConfigReq → Bool
radio_cfg_differs a b =
    if (a.station_type /= b.station_type) || wlan_cfg_differs a.wlan1 b.wlan1
    then true
    else (a.station_type == station_dual)
      && ((a.priority_ch /= b.priority_ch) || wlan_cfg_differs a.wlan2 b.wlan2)

abbrev pub is_ok : PrioChVerdict → Bool
is_ok prio_ch_ok = true
is_ok _ = false

-- The configuration in effect can be restored after one that replaces it.
unfoldable pub radio_baseline_covers : State → (next : SetRadioConfigReq) → Bool
radio_baseline_covers st next =
    let r = st.radio in
    if not st.radio_applied_known
    then false
    else if (r.station_type /= station_single) && (r.station_type /= station_dual)
    then false
    else if not (valid_wlan_mode r.wlan1.mode) || not (valid_wlan_bw r.wlan1.bandwidth)
    then false
    else if not (valid_scan_band r.wlan1.scan_band)
        || not (list_valid r.wlan1.scan_band r.wlan1.scan_chlist)
    then false
    else if next.station_type == station_dual
    then if r.station_type /= station_dual
      then false
      else if not (valid_wlan_mode r.wlan2.mode)
          || (not (valid_wlan_bw r.wlan2.bandwidth)
              || not (is_ok (check_priority_ch r.priority_ch)))
      then false
      else valid_scan_band r.wlan2.scan_band && list_valid r.wlan2.scan_band r.wlan2.scan_chlist
    else true

-- The error cause of the values, 0 for a request that goes on. `capability` is what the platform's
-- validate_radio_config returns: 0, or that of a mode or a bandwidth it does not have.
unfoldable pub radio_error : (capability : ℕ) → SetRadioConfigReq → ℕ
radio_error capability req =
    let dual = req.station_type == station_dual in
    let verdict = (if dual then check_priority_ch req.priority_ch else prio_ch_ok) in
    if req.station_type /= station_single
    then err_station_type
    else if not (valid_wlan_mode req.wlan1.mode)
    then err_radio_mode
    else if not (valid_wlan_bw req.wlan1.bandwidth)
    then err_radio_bw
    else if dual && not (valid_wlan_mode req.wlan2.mode)
    then err_radio_mode
    else if dual && not (valid_wlan_bw req.wlan2.bandwidth)
    then err_radio_bw
    else if not (valid_scan_band req.wlan1.scan_band)
        || (dual && not (valid_scan_band req.wlan2.scan_band))
    then err_radio_freq
    else if not (list_valid req.wlan1.scan_band req.wlan1.scan_chlist)
        || (dual && not (list_valid req.wlan2.scan_band req.wlan2.scan_chlist))
    then err_radio_scan_ch
    else if not (is_ok verdict)
    then verdict_error verdict
    else capability
