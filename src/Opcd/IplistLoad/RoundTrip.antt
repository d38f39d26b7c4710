-- ===== src/Opcd/IplistLoad/RoundTrip.antt =====
-- The text of a list is read as that list.
use wlan_opc.Base.{
  ℕ, suc, ◌+◌, ◌-◌, ◌≤◌, ◌<◌, ◌≡◌, ◌≢◌, refl, sym, ◌∙◌, inl, inr, Bool, true, false, some, List, [],
  ◌∷◌, ◌++◌, Bytes, length, get_or, replicate, ◌==◌, ◌/=◌, if◌then◌else◌, Bool-cases, arith,
}
use wlan_opc.Protocol.Commands.Records.{IpcfgEntry}
use wlan_opc.Opcd.State.{IpList, no_entry}
use wlan_opc.Opcd.Validators.{
  ipcfg_entry_error, valid_ipcfg_addr, valid_unicast_ipv4, valid_opc_charset,
}
use wlan_opc.Opcd.IpList.Laws.{IsSound}
use wlan_opc.Opcd.IplistText.{key_text, essid_text, opc_iplist_text_format}
use wlan_opc.Opcd.IplistText.Values.{text-IsOpc, valid_opc_charset-text, essid_text_le}
use wlan_opc.Opcd.IplistText.Slots.{restored, IsWritable, entry_text}
use wlan_opc.Opcd.IplistText.Format.{slots_text, opc_iplist_text_format-slots_text, slots_text_le}
use wlan_opc.Opcd.IplistText.RoundTrip.{
  restored_entries, restored_keys, opc_iplist_text_parse-slots_text,
}
use wlan_opc.Opcd.IplistLoad.{list_rejected, slot_cons, take_lists, iplist_from_text, without_bom}

-- The numbers of an entry are of 32 bits.
pub record IsNarrow (e : IpcfgEntry) : Type 0 where
  pub ip : e.ip_address < 4294967296
  pub mask : e.subnet_mask < 4294967296
  pub gw : e.default_gateway < 4294967296
  pub ntp : e.ntp_server < 4294967296

valid_charset : (e : IpcfgEntry) → ipcfg_entry_error e true ≡ 0 → valid_opc_charset e.essid ≡ true
unfolding ipcfg_entry_error
valid_charset e h = ground arith

valid-IsWritable : (e : IpcfgEntry) → IsNarrow e → ipcfg_entry_error e true ≡ 0 → IsWritable e
valid-IsWritable e n h = record {
  ip = n.ip;
  mask = n.mask;
  gw = n.gw;
  ntp = n.ntp;
  essid = text-IsOpc 31 e.essid (valid_charset e h);
}

-- What is read passes the checks again.
restored_error :
    (n : ℕ) (e : IpcfgEntry)
    → ipcfg_entry_error e true ≡ 0
    → ipcfg_entry_error (restored n e) true ≡ 0
unfolding ipcfg_entry_error
restored_error n e h =
    let c = valid_charset e h in
    let k : 32 - length (essid_text e) ≡ suc (31 - length (essid_text e)) =
      omega (arith, essid_text_le e) in
    let f = valid_opc_charset-text 31 (31 - length (essid_text e)) e.essid c in
    rw (k, f) (rw c at h)

address_given :
    (e : IpcfgEntry)
    → ipcfg_entry_error e true ≡ 0
    → ((e.ip_address == 0) ≡ false) × ((e.ip_address /= 0) ≡ true)
unfolding ipcfg_entry_error valid_ipcfg_addr valid_unicast_ipv4
address_given e h = (ground arith, ground arith)

-- The lists that are present, with the ESSID cut at its end; no boundary flag is kept.
unfoldable pub stored_lists : ℕ → List IpcfgEntry → List ℕ → IpList
stored_lists i [] ps = record { slots = []; present = [] }
stored_lists i (e ∷ es) [] = record { slots = []; present = [] }
stored_lists i (e ∷ es) (p ∷ ps) =
    let rest = stored_lists (i + 1) es ps in
    if p == 0 then slot_cons no_entry 0 rest else slot_cons (restored (i + 1) e) 1 rest

take_restored :
    (strict : Bool) (i : ℕ) (es : List IpcfgEntry) (ps : List ℕ)
    → length ps ≡ length es
    → ((j : ℕ) → get_or ps j 0 ≢ 0 → ipcfg_entry_error (get_or es j no_entry) true ≡ 0)
    → take_lists strict i
        (restored_entries i es ps)
        (restored_keys ps)
        (replicate (length es) false)
      ≡ some (stored_lists i es ps)
unfolding take_lists restored_entries restored_keys stored_lists list_rejected
take_restored strict i [] [] size ok = refl
take_restored strict i [] (p ∷ ps) size ok = absurd (omega arith)
take_restored strict i (e ∷ es) [] size ok = absurd (omega arith)
take_restored strict i (e ∷ es) (p ∷ ps) size ok =
    let ih = take_restored strict (i + 1) es ps (omega arith) (λ j. ok (suc j)) in
    elim (Bool-cases (p == 0)) [
      | inl z ↦ simp z (rw ih refl)
      | inr nz ↦
          let good = ok 0 (ground arith) in
          let valid = restored_error (i + 1) e good in
          let (given, given') = address_given e good in simp (nz, valid, given, given') (rw ih refl)
    ]

entry_text-without_bom :
    (n : ℕ) (e : IpcfgEntry) (rest : Bytes)
    → without_bom (entry_text n e ++ rest) ≡ entry_text n e ++ rest
unfolding key_text
entry_text-without_bom n e rest = refl

-- The text does not begin with a byte order mark.
slots_text-without_bom :
    (i : ℕ) (es : List IpcfgEntry) (ps : List ℕ)
    → without_bom (slots_text i es ps) ≡ slots_text i es ps
unfolding slots_text
slots_text-without_bom i [] ps = refl
slots_text-without_bom i (e ∷ es) [] = refl
slots_text-without_bom i (e ∷ es) (p ∷ ps) = elim (Bool-cases (p == 0)) [
  | inl z ↦ simp z (slots_text-without_bom (i + 1) es ps)
  | inr nz ↦ simp nz (entry_text-without_bom (i + 1) e (slots_text (i + 1) es ps))
]

-- A sound list whose numbers are of 32 bits is written whole by the daemon in at most 24576 bytes, and what is written is
-- taken again both as its own copy and, under the strict rules, as the customer's file: the same slots
-- are present, with the same addresses and the text of the ESSID.
pub iplist_from_text-format :
    (l : IpList) (strict : Bool)
    → IsSound l
    → ((j : ℕ) → get_or l.present j 0 ≢ 0 → IsNarrow (get_or l.slots j no_entry))
    → (text : Bytes) × (opc_iplist_text_format l 24576 ≡ some text)
      × (length text ≤ 24576)
      × (iplist_from_text strict text ≡ some (stored_lists 0 l.slots l.present))
unfolding iplist_from_text
iplist_from_text-format l strict sound narrow =
    let w = λ (j : ℕ) (p : get_or l.present j 0 ≢ 0).
      valid-IsWritable (get_or l.slots j no_entry) (narrow j p) (sound.valid j p) in
    let text = slots_text 0 l.slots l.present in
    let parsed = opc_iplist_text_parse-slots_text l sound.slots_len sound.present_len w in
    let taken =
      take_restored strict 0 l.slots l.present (sound.present_len ∙ sym sound.slots_len)
        sound.valid in
    (
      text,
      opc_iplist_text_format-slots_text l sound.slots_len w,
      omega (
        arith,
        slots_text_le 0 l.slots l.present (omega (arith, sound.slots_len)) w,
        sound.slots_len,
      ),
      rw (slots_text-without_bom 0 l.slots l.present, parsed) (simp sound.slots_len at taken),
    )
