-- ===== src/Opcd/RadioRestore/Laws.antt =====
-- A radio configuration that was written is the one that the next start commits to.
use mathlib.Core.List.{append-nil}
use wlan_opc.Base.{
  ℕ, ◌<◌, ◌≡◌, refl, sym, ◌∙◌, ap, Bool, true, false, not, Option, none, some, [], ◌∷◌, ◌++◌, Bytes,
  ◌==◌, length, length-append, take-append, drop-append, Bool-cases, Option-cases, eq_of_some, inl,
  inr, arith,
}
use wlan_opc.Protocol.Commands.Records.{WlanRadioCfg, SetRadioConfigReq}
use wlan_opc.Protocol.ScanChlist.{band_known, band_supported, list_normalize_rows, list_valid}
use wlan_opc.Opcd.State.{State}
use wlan_opc.Opcd.RadioChecks.{station_dual}
use wlan_opc.Opcd.Persist.{StoreOutcome}
use wlan_opc.Opcd.RadioRestore.{
  le16_read, le16_write, wlan_bytes, radio_bytes, wlan_of_bytes, radio_of_bytes,
  opcd_radio_conf_decode, moves, lists_valid, opcd_radio_conf_migrate_lists, RadioRestore,
  opcd_radio_conf_restore, restore_committed, restore_legacy, restore_migrated,
  restore_discard_size, restore_discard_invalid, take_restored, restore_file, opcd_radio_conf_load,
}

-- The fields have the sizes of the struct.
pub record IsWlan (w : WlanRadioCfg) : Type 0 where
  pub band : w.scan_band < 65536
  pub list_size : length w.scan_chlist ≡ 8

le16_read-write : (v : ℕ) (rest : Bytes) → v < 65536 → le16_read (le16_write v ++ rest) ≡ v
unfolding le16_read
le16_read-write v rest h = omega arith

wlan_of_bytes-bytes :
    (w : WlanRadioCfg) (rest : Bytes) → IsWlan w → wlan_of_bytes (wlan_bytes w ++ rest) ≡ w
unfolding wlan_of_bytes wlan_bytes
wlan_of_bytes-bytes w rest h =
    rw
      (
        le16_read-write w.scan_band (w.scan_chlist ++ rest) h.band,
        take-append 8 w.scan_chlist rest h.list_size,
      )
      refl

list_normalize_rows_valid :
    (band : ℕ) (list : Bytes)
    → list_valid band list ≡ true
    → list_normalize_rows band list ≡ (list, false)
unfolding list_valid list_normalize_rows band_known band_supported
list_normalize_rows_valid band list h = ground arith

length-wlan_bytes : (w : WlanRadioCfg) → IsWlan w → length (wlan_bytes w) ≡ 12
unfolding wlan_bytes
length-wlan_bytes w h = omega (arith, h.list_size)

-- A configuration that the struct can hold, with lists that are valid.
pub record IsKeepable (r : SetRadioConfigReq) : Type 0 where
  pub station : r.station_type < 65536
  pub priority : r.priority_ch < 65536
  pub wlan1 : IsWlan r.wlan1
  pub wlan2 : IsWlan r.wlan2
  pub lists : lists_valid r ≡ true

radio_of_bytes-bytes : (r : SetRadioConfigReq) → IsKeepable r → radio_of_bytes (radio_bytes r) ≡ r
unfolding radio_of_bytes radio_bytes
radio_of_bytes-bytes r k =
    let second = wlan_bytes r.wlan2 in
    let first = wlan_bytes r.wlan1 in
    let last : wlan_of_bytes second ≡ r.wlan2 =
      ap wlan_of_bytes (sym (append-nil second)) ∙ wlan_of_bytes-bytes r.wlan2 [] k.wlan2 in
    rw
      (
        le16_read-write r.station_type (le16_write r.priority_ch ++ (first ++ second)) k.station,
        le16_read-write r.priority_ch (first ++ second) k.priority,
        wlan_of_bytes-bytes r.wlan1 second k.wlan1,
        drop-append 12 first second (length-wlan_bytes r.wlan1 k.wlan1),
        last,
      )
      refl

length-radio_bytes : (r : SetRadioConfigReq) → IsKeepable r → length (radio_bytes r) ≡ 28
unfolding radio_bytes
length-radio_bytes r k = omega (
  arith,
  length-wlan_bytes r.wlan1 k.wlan1,
  length-wlan_bytes r.wlan2 k.wlan2,
  length-append (wlan_bytes r.wlan1) (wlan_bytes r.wlan2),
)

migrate_valid :
    (r : SetRadioConfigReq)
    → lists_valid r ≡ true
    → opcd_radio_conf_migrate_lists r ≡ (r, false, true)
unfolding opcd_radio_conf_migrate_lists
migrate_valid r h =
    let v1 : list_valid r.wlan1.scan_band r.wlan1.scan_chlist ≡ true = ground arith in
    let n1 = list_normalize_rows_valid r.wlan1.scan_band r.wlan1.scan_chlist v1 in
    let m1 : moves r.wlan1 ≡ false = ap (λ (p : Bytes × Bool). p.1) n1 in
    elim (Bool-cases (r.station_type == station_dual)) [
      | inr single ↦ simp (single, n1, m1, v1) refl
      | inl dual ↦
          let v2 : list_valid r.wlan2.scan_band r.wlan2.scan_chlist ≡ true = ground arith in
          let n2 = list_normalize_rows_valid r.wlan2.scan_band r.wlan2.scan_chlist v2 in
          let m2 : moves r.wlan2 ≡ false = ap (λ (p : Bytes × Bool). p.1) n2 in
          simp (dual, n1, n2, m1, m2, v1, v2) refl
    ]

decode_bytes :
    (r : SetRadioConfigReq)
    → IsKeepable r
    → opcd_radio_conf_decode (radio_bytes r) ≡ some (r, false)
unfolding opcd_radio_conf_decode
decode_bytes r k = rw (length-radio_bytes r k, radio_of_bytes-bytes r k) refl

restore_bytes :
    (r : SetRadioConfigReq)
    → IsKeepable r
    → opcd_radio_conf_restore (radio_bytes r) ≡ (restore_committed, some r)
unfolding opcd_radio_conf_restore
restore_bytes r k =
    rw (decode_bytes r k, opcd_radio_conf_restore) (rw (migrate_valid r k.lists) refl)

restore_file_bytes :
    (r : SetRadioConfigReq)
    → restore_file (some (radio_bytes r)) ≡ opcd_radio_conf_restore (radio_bytes r)
unfolding radio_bytes
restore_file_bytes r = refl

-- A radio configuration whose lists are valid, and that a file holds as it is written, is in effect
-- after the next start; it is committed unless a marker shows that a change did not come to its end,
-- and the file stays as it is.
pub opcd_radio_conf_load-radio_bytes :
    (marker : Bool) (o : StoreOutcome) (st : State) (r : SetRadioConfigReq)
    → IsKeepable r
    → let l = opcd_radio_conf_load marker o (some (radio_bytes r)) st in
      (l.verdict ≡ restore_committed)
      × (l.state.radio ≡ r)
      × (l.state.radio_committed ≡ not marker)
      × (l.file ≡ some (radio_bytes r))
unfolding opcd_radio_conf_load take_restored
opcd_radio_conf_load-radio_bytes marker o st r k =
    rw (restore_file_bytes r, restore_bytes r k) (refl, refl, refl, refl)

migrate_checks :
    (r : SetRadioConfigReq)
    → lists_valid (opcd_radio_conf_migrate_lists r).0 ≡ (opcd_radio_conf_migrate_lists r).2
unfolding opcd_radio_conf_migrate_lists
migrate_checks r = refl

restored_valid :
    (buf : Bytes) (r : SetRadioConfigReq)
    → (opcd_radio_conf_restore buf).1 ≡ some r
    → lists_valid r ≡ true
unfolding opcd_radio_conf_restore
restored_valid buf r h = elim (Option-cases (opcd_radio_conf_decode buf)) [
  | inl size ↦ let h' = rw (size, opcd_radio_conf_restore) at h in absurd (cc)
  | inr ((r0, legacy), decoded) ↦
      let h' = rw (decoded, opcd_radio_conf_restore) at h in
      let m = opcd_radio_conf_migrate_lists r0 in
      elim (Bool-cases m.2) [
        | inr refused ↦ let h2 = simp refused at h' in absurd (cc)
        | inl valid ↦
            let same : m.0 ≡ r = eq_of_some (simp valid at h') in
            rw (← same) (migrate_checks r0 ∙ valid)
      ]
]

restore_file_valid :
    (file : Option Bytes) (r : SetRadioConfigReq)
    → (restore_file file).1 ≡ some r
    → lists_valid r ≡ true
restore_file_valid none r h = absurd (cc)
restore_file_valid (some []) r h = absurd (cc)
restore_file_valid (some (b ∷ bs)) r h = restored_valid (b ∷ bs) r h

take_restored-committed :
    (marker : Bool) (o : StoreOutcome) (st : State) (file : Option Bytes)
    (p : RadioRestore × Option SetRadioConfigReq)
    → ((r : SetRadioConfigReq) → p.1 ≡ some r → lists_valid r ≡ true)
    → (take_restored marker o st file p).state.radio_committed ≡ true
    → (marker ≡ false) × (lists_valid (take_restored marker o st file p).state.radio ≡ true)
unfolding take_restored
take_restored-committed marker o st file (verdict, none) valid h = absurd (cc)
take_restored-committed marker o st file (restore_legacy, some r) valid h = absurd (cc)
take_restored-committed marker o st file (restore_migrated, some r) valid h =
    (ground arith, valid r refl)
take_restored-committed marker o st file (restore_committed, some r) valid h =
    (ground arith, valid r refl)
take_restored-committed marker o st file (restore_discard_size, some r) valid h =
    (ground arith, valid r refl)
take_restored-committed marker o st file (restore_discard_invalid, some r) valid h =
    (ground arith, valid r refl)

-- Whatever radio.conf holds, a configuration that is committed after the start has lists that the
-- validator takes, those of WLAN 2 for two stations, and no change was under way.
pub opcd_radio_conf_load-committed :
    (marker : Bool) (o : StoreOutcome) (file : Option Bytes) (st : State)
    → (opcd_radio_conf_load marker o file st).state.radio_committed ≡ true
    → (marker ≡ false) × (lists_valid (opcd_radio_conf_load marker o file st).state.radio ≡ true)
unfolding opcd_radio_conf_load
opcd_radio_conf_load-committed marker o file st h =
    take_restored-committed marker o st file (restore_file file) (restore_file_valid file) h
