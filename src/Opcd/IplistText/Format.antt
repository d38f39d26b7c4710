-- ===== src/Opcd/IplistText/Format.antt =====
-- The text that is written, and that it fits the buffer.
use mathlib.Core.List.{append_assoc, append-nil}
use wlan_opc.Base.{
  ℕ, suc, ◌+◌, ◌-◌, ◌*◌, ◌/◌, ◌%◌, ◌≤◌, ◌<◌, ◌≡◌, ◌≢◌, refl, ◌∙◌, ap, inl, inr, true, some, List,
  [], ◌∷◌, ◌++◌, Bytes, length, length-append, get_or, ◌==◌, ltb, if◌then◌else◌, Bool-cases, arith,
}
use wlan_opc.Protocol.Commands.Records.{IpcfgEntry}
use wlan_opc.Opcd.State.{IpList, no_entry}
use wlan_opc.Opcd.IplistText.{
  decimal, ipv4_str, essid_text, key_text, plain_line, quoted_line, put, put_entry, put_slots,
  opc_iplist_text_format, ip_address_name, subnet_mask_name, default_gateway_name, essid_name,
  ntp_server_name,
}
use wlan_opc.Opcd.IplistText.Digits.{decimal_cases}
use wlan_opc.Opcd.IplistText.Values.{essid_text_le}
use wlan_opc.Opcd.IplistText.Slots.{entry_text, IsWritable}

put-append :
    (cap : ℕ) (text key : Bytes) (n : ℕ) (value : Bytes)
    → length text + length (key_text key n ++ value) < cap
    → put cap text key n value ≡ some (text ++ (key_text key n ++ value))
unfolding put
put-append cap text key n value h =
    let k = key_text key n in
    let l1 : length (k ++ value) ≡ length k + length value = length-append k value in
    let l2 : length (text ++ k) ≡ length text + length k = length-append text k in
    let t1 : ltb (length k) (cap - length text) ≡ true = ground arith in
    let t2 : ltb (length value) (cap - length (text ++ k)) ≡ true = ground arith in
    rw (t1, t2, append_assoc text k value) refl

row :
    (t a b c d e : Bytes) → ((((t ++ a) ++ b) ++ c) ++ d) ++ e ≡ t ++ (a ++ (b ++ (c ++ (d ++ e))))
row t a b c d e = simp append_assoc

put_entry-append :
    (cap : ℕ) (text : Bytes) (n : ℕ) (e : IpcfgEntry)
    → length text + length (entry_text n e) < cap
    → put_entry cap text n e ≡ some (text ++ entry_text n e)
unfolding put_entry
put_entry-append cap text n e h =
    let ntp = key_text ntp_server_name n ++ plain_line (ipv4_str e.ntp_server) in
    let essid = key_text essid_name n ++ quoted_line (essid_text e) in
    let gw = key_text default_gateway_name n ++ plain_line (ipv4_str e.default_gateway) in
    let mask = key_text subnet_mask_name n ++ plain_line (ipv4_str e.subnet_mask) in
    let ip = key_text ip_address_name n ++ plain_line (ipv4_str e.ip_address) in
    let l1 = length-append ip (mask ++ (gw ++ (essid ++ ntp))) in
    let l2 = length-append mask (gw ++ (essid ++ ntp)) in
    let l3 = length-append gw (essid ++ ntp) in
    let l4 = length-append essid ntp in
    let a1 = length-append text ip in
    let a2 = length-append (text ++ ip) mask in
    let a3 = length-append ((text ++ ip) ++ mask) gw in
    let a4 = length-append (((text ++ ip) ++ mask) ++ gw) essid in
    rw
      (
        put-append cap text ip_address_name n (plain_line (ipv4_str e.ip_address)) (omega arith),
        put-append cap (text ++ ip) subnet_mask_name n (plain_line (ipv4_str e.subnet_mask))
            (omega arith),
        put-append cap ((text ++ ip) ++ mask) default_gateway_name n
            (plain_line (ipv4_str e.default_gateway)) (omega arith),
        put-append cap (((text ++ ip) ++ mask) ++ gw) essid_name n (quoted_line (essid_text e))
            (omega arith),
        put-append cap ((((text ++ ip) ++ mask) ++ gw) ++ essid) ntp_server_name n
            (plain_line (ipv4_str e.ntp_server)) (omega arith),
      )
      (ap some (row text ip mask gw essid ntp))

-- The text of the slots from the `i`-th on.
unfoldable pub slots_text : ℕ → List IpcfgEntry → List ℕ → Bytes
slots_text i [] ps = []
slots_text i (e ∷ es) [] = []
slots_text i (e ∷ es) (p ∷ ps) =
    let rest = slots_text (i + 1) es ps in if p == 0 then rest else entry_text (i + 1) e ++ rest

put_slots-append :
    (cap : ℕ) (text : Bytes) (i : ℕ) (es : List IpcfgEntry) (ps : List ℕ)
    → length text + length (slots_text i es ps) < cap
    → put_slots cap text i es ps ≡ some (text ++ slots_text i es ps)
unfolding put_slots slots_text
put_slots-append cap text i [] ps h = rw append-nil refl
put_slots-append cap text i (e ∷ es) [] h = rw append-nil refl
put_slots-append cap text i (e ∷ es) (p ∷ ps) h = elim (Bool-cases (p == 0)) [
  | inl z ↦ let h' = simp z at h in simp z (put_slots-append cap text (i + 1) es ps h')
  | inr nz ↦
      let h' = simp nz at h in
      let rest = slots_text (i + 1) es ps in
      let l1 = length-append (entry_text (i + 1) e) rest in
      let l2 = length-append text (entry_text (i + 1) e) in
      simp nz (
        rw (put_entry-append cap text (i + 1) e (omega arith)) (
          put_slots-append cap (text ++ entry_text (i + 1) e) (i + 1) es ps (omega arith)
          ∙ ap some (append_assoc text (entry_text (i + 1) e) rest)))
]

decimal_le : (v : ℕ) → v < 1000 → length (decimal v) ≤ 3
decimal_le v h = elim (decimal_cases v h) [
  | inl (a, e) ↦ rw e (omega arith)
  | inr (inl (a, b, e)) ↦ rw e (omega arith)
  | inr (inr (a, e)) ↦ rw e (omega arith)
]

ipv4_str_le : (ip : ℕ) → ip < 4294967296 → length (ipv4_str ip) ≤ 15
unfolding ipv4_str
ipv4_str_le ip h =
    let a = decimal (ip / 16777216) in
    let b = decimal (ip / 65536 % 256) in
    let c = decimal (ip / 256 % 256) in
    let d = decimal (ip % 256) in
    omega (
      arith,
      length-append a (b'.' ∷ (b ++ (b'.' ∷ (c ++ (b'.' ∷ d))))),
      length-append b (b'.' ∷ (c ++ (b'.' ∷ d))),
      length-append c (b'.' ∷ d),
      decimal_le (ip / 16777216) (omega arith),
      decimal_le (ip / 65536 % 256) (omega arith),
      decimal_le (ip / 256 % 256) (omega arith),
      decimal_le (ip % 256) (omega arith),
    )

piece_le :
    (name value : Bytes) (n room : ℕ)
    → n < 1000
    → length value ≤ room
    → length (key_text name n ++ value) ≤ length name + 4 + room
unfolding key_text
piece_le name value n room small h = omega (
  arith,
  length-append (name ++ (decimal n ++ (b'=' ∷ []))) value,
  length-append name (decimal n ++ (b'=' ∷ [])),
  length-append (decimal n) (b'=' ∷ []),
  decimal_le n small,
)

plain_le : (ip : ℕ) → ip < 4294967296 → length (plain_line (ipv4_str ip)) ≤ 16
plain_le ip h = omega (arith, length-append (ipv4_str ip) (b'\n' ∷ []), ipv4_str_le ip h)

quoted_le : (e : IpcfgEntry) → length (quoted_line (essid_text e)) ≤ 34
quoted_le e = omega (arith, length-append (essid_text e) (b'"' ∷ b'\n' ∷ []), essid_text_le e)

entry_text_le : (n : ℕ) (e : IpcfgEntry) → n < 1000 → IsWritable e → length (entry_text n e) ≤ 173
entry_text_le n e small w =
    let ntp = key_text ntp_server_name n ++ plain_line (ipv4_str e.ntp_server) in
    let essid = key_text essid_name n ++ quoted_line (essid_text e) in
    let gw = key_text default_gateway_name n ++ plain_line (ipv4_str e.default_gateway) in
    let mask = key_text subnet_mask_name n ++ plain_line (ipv4_str e.subnet_mask) in
    let ip = key_text ip_address_name n ++ plain_line (ipv4_str e.ip_address) in
    omega (
      arith,
      length-append ip (mask ++ (gw ++ (essid ++ ntp))),
      length-append mask (gw ++ (essid ++ ntp)),
      length-append gw (essid ++ ntp),
      length-append essid ntp,
      piece_le ip_address_name (plain_line (ipv4_str e.ip_address)) n 16 small (plain_le _ w.ip),
      piece_le subnet_mask_name (plain_line (ipv4_str e.subnet_mask)) n 16 small
          (plain_le _ w.mask),
      piece_le default_gateway_name (plain_line (ipv4_str e.default_gateway)) n 16 small
          (plain_le _ w.gw),
      piece_le essid_name (quoted_line (essid_text e)) n 34 small (quoted_le e),
      piece_le ntp_server_name (plain_line (ipv4_str e.ntp_server)) n 16 small (plain_le _ w.ntp),
    )

-- Every slot that is present can be written.
abbrev pub AreWritable : List IpcfgEntry → List ℕ → Type 0
AreWritable es ps = (j : ℕ) → get_or ps j 0 ≢ 0 → IsWritable (get_or es j no_entry)

pub slots_text_le :
    (i : ℕ) (es : List IpcfgEntry) (ps : List ℕ)
    → i + length es < 1000
    → AreWritable es ps
    → length (slots_text i es ps) ≤ 173 * length es
unfolding slots_text
slots_text_le i [] ps small w = omega arith
slots_text_le i (e ∷ es) [] small w = omega arith
slots_text_le i (e ∷ es) (p ∷ ps) small w =
    let rest = slots_text (i + 1) es ps in
    let ih = slots_text_le (i + 1) es ps (omega arith) (λ j. w (suc j)) in
    elim (Bool-cases (p == 0)) [
      | inl z ↦ simp z (omega arith)
      | inr nz ↦
          let own = entry_text_le (i + 1) e (omega arith) (w 0 (ground arith)) in
          simp nz (omega (arith, length-append (entry_text (i + 1) e) rest))
    ]

-- The buffer of 24576 bytes holds every list.
pub opc_iplist_text_format-slots_text :
    (l : IpList)
    → length l.slots ≡ 128
    → AreWritable l.slots l.present
    → opc_iplist_text_format l 24576 ≡ some (slots_text 0 l.slots l.present)
unfolding opc_iplist_text_format
opc_iplist_text_format-slots_text l size w =
    put_slots-append 24576 [] 0 l.slots l.present
      (omega (arith, slots_text_le 0 l.slots l.present (omega arith) w))
