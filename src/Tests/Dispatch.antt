-- ===== src/Tests/Dispatch.antt =====
-- The dispatch over the table at concrete values.
use wlan_opc.Base.{◌≡◌, refl, none, Bytes, [], ◌∷◌, arith}
use wlan_opc.Opcd.DeviceInfo.{live}
use wlan_opc.Opcd.Intake.{opcd_dispatch}
use wlan_opc.Opcd.Dispatch.{Answers, opcd_dispatch_table, opcd_reject_bad_length}
use wlan_opc.Opcd.Dispatch.Laws.{opcd_dispatch-outsider}
use wlan_opc.Tests.Opcd.{a_state}
use wlan_opc.Tests.Writes.{a_store, one_subnet}
use wlan_opc.Tests.Radio.{took}
use wlan_opc.Tests.DeviceInfo.{an_inventory, readings}

abbrev answers : Answers
answers = record {
  now = 50;
  mono_now = 42;
  room = 1424;
  inventory = an_inventory;
  freq_source = live;
  readings = readings;
  store = a_store;
  radio = took;
  other_iface = none;
  route = one_subnet;
  link = none;
}

-- Reset, sequence number 9.
abbrev reset_frame : Bytes
reset_frame = 1 ∷ 1 ∷ 0x20 ∷ 0x01 ∷ 0 ∷ 9 ∷ 0 ∷ 0 ∷ []

opcd_dispatch-outsider_example :
    let out =
      (opcd_dispatch (opcd_dispatch_table answers) 50 a_state reset_frame 0xC0A80102 50607).0 in
    (out.state ≡ a_state)
    × (out.sent ≡ [])
    × (opcd_reject_bad_length a_state reset_frame 0xC0A80102 50607 ≡ [])
opcd_dispatch-outsider_example =
    opcd_dispatch-outsider a_state 0xC0A80102 refl (omega arith) answers reset_frame 50607 refl
