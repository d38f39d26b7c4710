-- ===== src/Opcd/Channel/Laws.antt =====
-- The CH field of a channel's own frequency names its band and the channel.
use wlan_opc.Base.{ℕ, ◌+◌, ◌*◌, ◌/◌, ◌%◌, ◌≡◌, refl, inl, inr, Bool, true, ◌||◌, some, ◌==◌, arith}
use wlan_opc.Base.Bits.{table, table_lem}
use wlan_opc.Protocol.ScanChlist.{band_known, row_channel, bit_for_channel, channel_mhz}
use wlan_opc.Protocol.ScanChlist.Channels.{
  band_known_cases, row_channel-bit_for_channel, bit_for_channel-known,
}
use wlan_opc.Opcd.Channel.{opc_chan_field}

abbrev is_named : (band rb : ℕ) → Bool
is_named band rb =
    let ch = row_channel band (rb / 32) (rb % 32) in
    (ch == 0) || (opc_chan_field (channel_mhz band ch) ch == band * 256 + ch)

named_24 : table (is_named 1) 64 ≡ true
unfolding table channel_mhz opc_chan_field
named_24 = refl

named_5 : table (is_named 2) 64 ≡ true
unfolding table channel_mhz opc_chan_field
named_5 = refl

named_6 : table (is_named 6) 64 ≡ true
unfolding table channel_mhz opc_chan_field
named_6 = refl

named_table : (band : ℕ) → band_known band ≡ true → table (is_named band) 64 ≡ true
named_table band known = elim (band_known_cases band known) [
  | inl e ↦ rw e named_24
  | inr (inl e) ↦ rw e named_5
  | inr (inr e) ↦ rw e named_6
]

-- For a channel of a band, the CH field of the channel's own frequency is the band's number and
-- the channel.
pub opc_chan_field-channel_mhz :
    (band ch row bit : ℕ)
    → bit_for_channel band ch ≡ some (row, bit)
    → opc_chan_field (channel_mhz band ch) ch ≡ band * 256 + ch
opc_chan_field-channel_mhz band ch row bit e =
    let (named, hr, hb) = row_channel-bit_for_channel band ch row bit e in
    let (known, present) = bit_for_channel-known band ch row bit e in
    let q : (32 * row + bit) / 32 ≡ row = omega arith in
    let r : (32 * row + bit) % 32 ≡ bit = omega arith in
    let entry =
      table_lem (is_named band) 64 (32 * row + bit) (named_table band known) (omega arith) in
    let fact : ((ch == 0) || (opc_chan_field (channel_mhz band ch) ch == band * 256 + ch)) ≡ true =
      rw (q, r, named) at entry in
    ground arith
