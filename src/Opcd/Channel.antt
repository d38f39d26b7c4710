-- ===== src/Opcd/Channel.antt =====
-- opcd/chan_encode.c: the CH field, a band byte and a channel byte.
pub mod Laws
use wlan_opc.Base.{
  ℕ, ◌+◌, ◌*◌, ◌/◌, Bool, true, false, not, ◌&&◌, ◌||◌, ◌==◌, ◌/=◌, ltb, leb, if◌then◌else◌,
}
use wlan_opc.Protocol.ScanChlist.{band_2_4ghz, band_5ghz, band_6ghz}

abbrev pub wlan_ch_unset : ℕ
wlan_ch_unset = 0xFFFF

abbrev pub band_of_freq : ℕ → ℕ
band_of_freq freq_mhz =
    if leb 2412 freq_mhz && leb freq_mhz 2484
    then band_2_4ghz
    else if leb 5000 freq_mhz && leb freq_mhz 5895
    then band_5ghz
    else if leb 5955 freq_mhz && leb freq_mhz 7115
    then band_6ghz
    else 0

unfoldable pub opc_chan_field : (freq_mhz ch : ℕ) → ℕ
opc_chan_field freq_mhz ch = if (ch == 0) || ltb 255 ch then 0 else band_of_freq freq_mhz * 256 + ch

unfoldable pub opc_assoc_chan_field :
    (evt_freq evt_ch : ℕ) → (fb_valid : Bool) → (fb_freq fb_ch : ℕ) → ℕ
unfolding opc_chan_field
opc_assoc_chan_field evt_freq evt_ch fb_valid fb_freq fb_ch =
    let own = opc_chan_field evt_freq evt_ch in
    let fb_field = opc_chan_field fb_freq fb_ch in
    let ch = if (own == 0) && fb_valid && (fb_field / 256 /= 0) then fb_field else own in
    if ch /= 0 then ch else wlan_ch_unset

unfoldable pub opc_notify_chan_field : (freq_mhz ch : ℕ) → ℕ
unfolding opc_chan_field
opc_notify_chan_field freq_mhz ch =
    let field = opc_chan_field freq_mhz ch in if field / 256 /= 0 then field else wlan_ch_unset
