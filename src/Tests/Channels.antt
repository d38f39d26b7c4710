-- ===== src/Tests/Channels.antt =====
-- Channels of protocol/scan_chlist.c and opcd/chan_encode.c at concrete values.
use wlan_opc.Base.{◌≡◌, refl, some, ◌+◌, ◌*◌, ◌<◌, arith}
use wlan_opc.Protocol.ScanChlist.{band_known, row_channel, bit_for_channel, channel_mhz}
use wlan_opc.Protocol.ScanChlist.Channels.{bit_for_channel-row_channel, row_channel-bit_for_channel}
use wlan_opc.Opcd.Channel.{opc_chan_field}
use wlan_opc.Opcd.Channel.Laws.{opc_chan_field-channel_mhz}

bit_of_100 : bit_for_channel 2 100 ≡ some (0, 8)
unfolding bit_for_channel
bit_of_100 = refl

-- Channel 100 of the 5 GHz band.
bit_for_channel-row_channel_example : bit_for_channel 2 (row_channel 2 0 8) ≡ some (0, 8)
unfolding band_known row_channel
bit_for_channel-row_channel_example =
    bit_for_channel-row_channel 2 0 8 refl (omega arith) (omega arith)

row_channel-bit_for_channel_example : (row_channel 2 0 8 ≡ 100) × (0 < 2) × (8 < 32)
row_channel-bit_for_channel_example = row_channel-bit_for_channel 2 100 0 8 bit_of_100

opc_chan_field-channel_mhz_example : opc_chan_field (channel_mhz 2 100) 100 ≡ 2 * 256 + 100
opc_chan_field-channel_mhz_example = opc_chan_field-channel_mhz 2 100 0 8 bit_of_100
