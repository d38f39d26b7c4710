-- ===== src/Opcd/RadioChecks/Laws.antt =====
-- What the checks of a radio configuration and the comparison of two of them have found.
use wlan_opc.Base.{ℕ, ◌≡◌, refl, ap₂, true, false, [], ◌∷◌, Bytes, arith}
use wlan_opc.Protocol.Commands.Records.{WlanRadioCfg, SetRadioConfigReq}
use wlan_opc.Protocol.ScanChlist.{list_valid}
use wlan_opc.Opcd.RadioChecks.{
  valid_wlan_mode, valid_wlan_bw, valid_scan_band, same_bytes, wlan_cfg_differs, radio_cfg_differs,
  radio_error,
}

same_bytes→eq : (as' bs : Bytes) → same_bytes as' bs ≡ true → as' ≡ bs
unfolding same_bytes
same_bytes→eq [] [] h = refl
same_bytes→eq [] (b ∷ bs) h = absurd (cc)
same_bytes→eq (a ∷ as') [] h = absurd (cc)
same_bytes→eq (a ∷ as') (b ∷ bs) h =
    ap₂ (λ (x : ℕ) (xs : Bytes). x ∷ xs) (ground arith) (same_bytes→eq as' bs (ground arith))

wlan_cfg_differs→eq : (a b : WlanRadioCfg) → wlan_cfg_differs a b ≡ false → a ≡ b
unfolding wlan_cfg_differs
wlan_cfg_differs→eq a b h =
    let mode : a.mode ≡ b.mode = ground arith in
    let bandwidth : a.bandwidth ≡ b.bandwidth = ground arith in
    let band : a.scan_band ≡ b.scan_band = ground arith in
    let same : same_bytes a.scan_chlist b.scan_chlist ≡ true = ground arith in
    let list = same_bytes→eq a.scan_chlist b.scan_chlist same in
    λ i. record { mode = mode i; bandwidth = bandwidth i; scan_band = band i; scan_chlist = list i }

-- Two configurations of one that do not differ have the same station type and the same first WLAN.
pub radio_cfg_differs→eq :
    (a b : SetRadioConfigReq)
    → radio_cfg_differs a b ≡ false
    → (a.station_type ≡ b.station_type) × (a.wlan1 ≡ b.wlan1)
unfolding radio_cfg_differs
radio_cfg_differs→eq a b h =
    let one : wlan_cfg_differs a.wlan1 b.wlan1 ≡ false = ground arith in
    (ground arith, wlan_cfg_differs→eq a.wlan1 b.wlan1 one)

-- The values of a request that is taken.
pub record IsTaken (capability : ℕ) (req : SetRadioConfigReq) : Type 0 where
  pub station : req.station_type ≡ 1
  pub mode : valid_wlan_mode req.wlan1.mode ≡ true
  pub bandwidth : valid_wlan_bw req.wlan1.bandwidth ≡ true
  pub band : valid_scan_band req.wlan1.scan_band ≡ true
  pub channels : list_valid req.wlan1.scan_band req.wlan1.scan_chlist ≡ true
  pub capable : capability ≡ 0

pub radio_error-IsTaken :
    (capability : ℕ) (req : SetRadioConfigReq)
    → radio_error capability req ≡ 0
    → IsTaken capability req
unfolding radio_error
radio_error-IsTaken capability req e =
    let station : req.station_type ≡ 1 = ground arith in
    record {
      station = station;
      mode = ground arith;
      bandwidth = ground arith;
      band = ground arith;
      channels = ground arith;
      capable = ground arith;
    }
