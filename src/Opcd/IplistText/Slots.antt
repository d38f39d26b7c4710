-- ===== src/Opcd/IplistText/Slots.antt =====
-- The five lines of a list fill its entry.
use mathlib.Core.List.{append_assoc}
use wlan_opc.Base.{
  ℕ, suc, ◌+◌, ◌-◌, ◌≤◌, ◌<◌, ◌≡◌, refl, ◌∙◌, ap, Bool, false, some, List, [], ◌∷◌, ◌++◌, Bytes,
  length, get_or, set, get_or-append, set-append, ◌==◌, arith, All, All-append, zeros,
}
use Prim.Native.Nat.{bit_and, bit_or}
use wlan_opc.Protocol.Commands.Records.{IpcfgEntry}
use wlan_opc.Opcd.State.{no_entry}
use wlan_opc.Opcd.IplistText.{
  key_ip, key_mask, key_gw, key_essid, key_ntp, key_all, ipv4_str, essid_text, key_text, plain_line,
  quoted_line, ip_address_name, subnet_mask_name, default_gateway_name, essid_name, ntp_server_name,
}
use wlan_opc.Opcd.IplistText.Digits.{parse_ipv4-ipv4_str}
use wlan_opc.Opcd.IplistText.Parse.{
  IplistText, lines, parse_lines, take_value, parse_value, store_ipv4,
}
use wlan_opc.Opcd.IplistText.Lines.{IsClean, literal, ipv4_str-IsClean}
use wlan_opc.Opcd.IplistText.Values.{IsOpc, opc_char-IsClean, parse_essid-quoted, essid_text_le}
use wlan_opc.Opcd.IplistText.KeyLines.{
  IsRead, IsRead-ip_address, IsRead-subnet_mask, IsRead-default_gateway, IsRead-essid,
  IsRead-ntp_server,
}

-- A parse that stands at slot `length pre`.
pub record Cursor : Type 0 where
  pub pre : List IpcfgEntry
  pub post : List IpcfgEntry
  pub kpre : List ℕ
  pub kpost : List ℕ
  pub bad : List Bool
  pub final_newline : Bool

abbrev pub at_slot : Cursor → IpcfgEntry → ℕ → IplistText
at_slot c e k = record {
  entry = c.pre ++ (e ∷ c.post);
  keys = c.kpre ++ (k ∷ c.kpost);
  bad = c.bad;
  first_error_line = 0;
  final_newline = c.final_newline;
}

take_value-at_slot :
    (c : Cursor) (e e' : IpcfgEntry) (k bit n line : ℕ) (value : Bytes)
    → n ≡ suc (length c.pre)
    → length c.kpre ≡ length c.pre
    → bit_and k bit ≡ 0
    → parse_value bit value e ≡ some e'
    → take_value (at_slot c e k) bit n line value
      ≡ at_slot c (record e' { list_number = n }) (bit_or k bit)
unfolding take_value
take_value-at_slot c e e' k bit n line value at same fresh read =
    let i1 : n - 1 ≡ length c.pre = omega arith in
    let i2 : n - 1 ≡ length c.kpre = omega arith in
    let seen : get_or (c.kpre ++ (k ∷ c.kpost)) (n - 1) 0 ≡ k =
      rw i2 (get_or-append c.kpre k c.kpost 0) in
    let old : get_or (c.pre ++ (e ∷ c.post)) (n - 1) no_entry ≡ e =
      rw i1 (get_or-append c.pre e c.post no_entry) in
    let put_k : set (c.kpre ++ (k ∷ c.kpost)) (n - 1) (bit_or k bit)
        ≡ c.kpre ++ (bit_or k bit ∷ c.kpost) =
      rw i2 (set-append c.kpre k c.kpost (bit_or k bit)) in
    let put_e : set (c.pre ++ (e ∷ c.post)) (n - 1) (record e' { list_number = n })
        ≡ c.pre ++ (record e' { list_number = n } ∷ c.post) =
      rw i1 (set-append c.pre e c.post (record e' { list_number = n })) in
    rw (seen, fresh, old, read, seen, put_k, put_e) refl

parse_value-ipv4 :
    (bit ip : ℕ) (e : IpcfgEntry)
    → (bit == key_essid) ≡ false
    → ip < 4294967296
    → parse_value bit (ipv4_str ip) e ≡ some (store_ipv4 bit ip e)
unfolding parse_value
parse_value-ipv4 bit ip e other h = rw (other, parse_ipv4-ipv4_str ip h) refl

parse_value-essid :
    (s : Bytes) (e : IpcfgEntry)
    → length s ≤ 31
    → All IsOpc s
    → parse_value key_essid (b'"' ∷ (s ++ (b'"' ∷ []))) e
      ≡ some (record e { essid = s ++ zeros (32 - length s) })
unfolding parse_value
parse_value-essid s e le ok = rw (parse_essid-quoted s le ok) refl

-- The entry that is read for list `n`.
abbrev pub restored : ℕ → IpcfgEntry → IpcfgEntry
restored n e = record {
  boundary_flag = 0;
  list_number = n;
  ip_address = e.ip_address;
  subnet_mask = e.subnet_mask;
  default_gateway = e.default_gateway;
  ntp_server = e.ntp_server;
  essid = essid_text e ++ zeros (32 - length (essid_text e));
}

-- The five lines of list `n`.
abbrev pub entry_text : ℕ → IpcfgEntry → Bytes
entry_text n e =
    (key_text ip_address_name n ++ plain_line (ipv4_str e.ip_address))
    ++ ((key_text subnet_mask_name n ++ plain_line (ipv4_str e.subnet_mask))
        ++ ((key_text default_gateway_name n ++ plain_line (ipv4_str e.default_gateway))
            ++ ((key_text essid_name n ++ quoted_line (essid_text e))
                ++ (key_text ntp_server_name n ++ plain_line (ipv4_str e.ntp_server)))))

-- The numbers of an entry are of 32 bits, its text is in the charset.
pub record IsWritable (e : IpcfgEntry) : Type 0 where
  pub ip : e.ip_address < 4294967296
  pub mask : e.subnet_mask < 4294967296
  pub gw : e.default_gateway < 4294967296
  pub ntp : e.ntp_server < 4294967296
  pub essid : All IsOpc (essid_text e)

quoted-IsClean : (s : Bytes) → All IsOpc s → All IsClean (b'"' ∷ (s ++ (b'"' ∷ [])))
quoted-IsClean s h = (
  literal b'"' refl,
  All-append IsClean s (b'"' ∷ []) (opc_char-IsClean s h) (literal b'"' refl, tt),
)

five :
    (a b c d e rest : Bytes)
    → (a ++ (b ++ (c ++ (d ++ e)))) ++ rest ≡ a ++ (b ++ (c ++ (d ++ (e ++ rest))))
five a b c d e rest = simp append_assoc

-- One line at slot `n - 1`.
module _ (c : Cursor) (n : ℕ) (at : n ≡ suc (length c.pre)) (same : length c.kpre ≡ length c.pre)
    (hi : n ≤ 128) where
  step_ipv4 :
      (name : Bytes) (bit k ip line : ℕ) (e : IpcfgEntry) (rest : Bytes)
      → IsRead name bit
      → (bit == key_essid) ≡ false
      → bit_and k bit ≡ 0
      → ip < 4294967296
      → parse_lines
          (lines ((key_text name n ++ plain_line (ipv4_str ip)) ++ rest))
          line
          (at_slot c e k)
        ≡ parse_lines
            (lines rest)
            (line + 1)
            (at_slot c (record (store_ipv4 bit ip e) { list_number = n }) (bit_or k bit))
  step_ipv4 name bit k ip line e rest read other fresh small =
      read n line (ipv4_str ip) rest (at_slot c e k) (omega arith) hi (ipv4_str-IsClean ip small)
      ∙ ap (parse_lines (lines rest) (line + 1)) (
          take_value-at_slot c e (store_ipv4 bit ip e) k bit n line (ipv4_str ip) at same fresh
            (parse_value-ipv4 bit ip e other small))

  step_essid :
      (k line : ℕ) (s : Bytes) (e : IpcfgEntry) (rest : Bytes)
      → bit_and k key_essid ≡ 0
      → length s ≤ 31
      → All IsOpc s
      → parse_lines (lines ((key_text essid_name n ++ quoted_line s) ++ rest)) line (at_slot c e k)
        ≡ parse_lines (lines rest) (line + 1) (
            at_slot c
              (record e { essid = s ++ zeros (32 - length s); list_number = n })
              (bit_or k key_essid))
  step_essid k line s e rest fresh le ok =
      let value = b'"' ∷ (s ++ (b'"' ∷ [])) in
      let whole : (key_text essid_name n ++ quoted_line s) ++ rest
          ≡ (key_text essid_name n ++ plain_line value) ++ rest =
        simp append_assoc in
      ap (λ (t : Bytes). parse_lines (lines t) line (at_slot c e k)) whole
      ∙ IsRead-essid n line value rest (at_slot c e k) (omega arith) hi (quoted-IsClean s ok)
      ∙ ap (parse_lines (lines rest) (line + 1)) (
          take_value-at_slot c e (record e { essid = s ++ zeros (32 - length s) }) k key_essid n
            line value at same fresh (parse_value-essid s e le ok))

  -- The text of an entry, read at its slot.
  pub parse_entry :
      (line : ℕ) (e : IpcfgEntry) (rest : Bytes)
      → IsWritable e
      → parse_lines (lines (entry_text n e ++ rest)) line (at_slot c no_entry 0)
        ≡ parse_lines (lines rest) (line + 1 + 1 + 1 + 1 + 1) (at_slot c (restored n e) key_all)
  unfolding store_ipv4
  parse_entry line e rest w =
      let ntp = key_text ntp_server_name n ++ plain_line (ipv4_str e.ntp_server) in
      let essid = key_text essid_name n ++ quoted_line (essid_text e) in
      let gw = key_text default_gateway_name n ++ plain_line (ipv4_str e.default_gateway) in
      let mask = key_text subnet_mask_name n ++ plain_line (ipv4_str e.subnet_mask) in
      let ip = key_text ip_address_name n ++ plain_line (ipv4_str e.ip_address) in
      let e1 = record no_entry { ip_address = e.ip_address; list_number = n } in
      let e2 = record e1 { subnet_mask = e.subnet_mask } in
      let e3 = record e2 { default_gateway = e.default_gateway } in
      let e4 = record e3 { essid = essid_text e ++ zeros (32 - length (essid_text e)) } in
      let apart : entry_text n e ++ rest ≡ ip ++ (mask ++ (gw ++ (essid ++ (ntp ++ rest)))) =
        five ip mask gw essid ntp rest in
      ap (λ (t : Bytes). parse_lines (lines t) line (at_slot c no_entry 0)) apart
      ∙ step_ipv4 ip_address_name key_ip 0 e.ip_address line no_entry
          (mask ++ (gw ++ (essid ++ (ntp ++ rest)))) IsRead-ip_address refl refl w.ip
      ∙ step_ipv4 subnet_mask_name key_mask key_ip e.subnet_mask (line + 1) e1
          (gw ++ (essid ++ (ntp ++ rest))) IsRead-subnet_mask refl refl w.mask
      ∙ step_ipv4 default_gateway_name key_gw 3 e.default_gateway (line + 1 + 1) e2
          (essid ++ (ntp ++ rest)) IsRead-default_gateway refl refl w.gw
      ∙ step_essid 7 (line + 1 + 1 + 1) (essid_text e) e3 (ntp ++ rest) refl (essid_text_le e)
          w.essid
      ∙ step_ipv4 ntp_server_name key_ntp 15 e.ntp_server (line + 1 + 1 + 1 + 1) e4 rest
          IsRead-ntp_server refl refl w.ntp
