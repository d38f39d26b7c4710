-- ===== src/Tests/Indications.antt =====
-- Indications of protocol/indications.c at concrete values.
use wlan_opc.Base.{◌≡◌, refl, some, ◌>>=◌, Bytes, [], ◌∷◌, arith}
use wlan_opc.Base.Int.{pos, negsuc}
use wlan_opc.Protocol.Indications.{IndRoaming}
use wlan_opc.Protocol.Indications.Message.{
  Indication, indication_pack, unpack_as, indication_round_trip,
}

abbrev an_ap : Bytes
an_ap = 0 ∷ 17 ∷ 34 ∷ 51 ∷ 68 ∷ 102 ∷ []

abbrev roamed : IndRoaming
roamed = record {
  current_snr = pos 31;
  current_rssi = negsuc 61;
  connect_ap_mac = an_ap;
  ch_number = 0x0224;
}

indication_round_trip_example :
    (indication_pack 1424 3 (Indication.roaming roamed) >>= unpack_as (Indication.roaming roamed))
    ≡ some (Indication.roaming roamed)
indication_round_trip_example =
    indication_round_trip 1424 3 (Indication.roaming roamed) (omega arith) (omega arith) (record {
      current_snr_fits = omega arith;
      current_rssi_fits = omega arith;
      connect_ap_mac_fits = refl;
      ch_number_fits = omega arith;
    })
