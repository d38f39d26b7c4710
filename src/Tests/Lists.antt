-- ===== src/Tests/Lists.antt =====
-- The text of the address list and the start of the daemon, at concrete values.
use wlan_opc.Base.{
  ℕ, zero, suc, ◌≡◌, ◌≢◌, ◌⊎◌, refl, true, false, some, Bytes, [], ◌∷◌, ◌++◌, ◌≤◌, length, get_or,
  replicate, get_or-replicate, length-replicate, arith, ap,
}
use wlan_opc.Opcd.State.{IpList, no_entry}
use wlan_opc.Opcd.Validators.{ipcfg_entry_error, valid_ipcfg_addr, valid_opc_charset}
use wlan_opc.Opcd.IpList.Laws.{IsSound}
use wlan_opc.Opcd.Persist.{durable}
use wlan_opc.Opcd.IplistText.{
  opc_iplist_text_format, put_slots, put_entry, put, key_text, decimal, digits, ipv4_str,
}
use wlan_opc.Opcd.IplistText.Parse.{
  opc_iplist_text_parse, parse_lines, parse_nonblank, parse_line, note, strip_return, lines,
}
use wlan_opc.Protocol.CString.{bounded_strnlen, has_nul}
use wlan_opc.Opcd.IplistLoad.{iplist_from_text}
use wlan_opc.Opcd.IplistLoad.RoundTrip.{IsNarrow, stored_lists, iplist_from_text-format}
use wlan_opc.Opcd.IplistLoad.Start.{
  Files, Endings, holds, absent, legacy_absent, legacy_list, opcd_iplist_load, user_applied,
}
use wlan_opc.Opcd.IplistLoad.Restart.{opcd_iplist_load-IsSound, opcd_iplist_load-format}
use wlan_opc.Tests.Opcd.{an_entry}

-- List 1 is present.
abbrev one_list : IpList
one_list = record { slots = an_entry 3 1 ∷ replicate 127 no_entry; present = 1 ∷ replicate 127 0 }

one_list-valid :
    (i : ℕ)
    → get_or one_list.present i 0 ≢ 0
    → ipcfg_entry_error (get_or one_list.slots i no_entry) true ≡ 0
unfolding ipcfg_entry_error valid_ipcfg_addr valid_opc_charset
one_list-valid zero h = refl
one_list-valid (suc i) h = absurd (h (get_or-replicate 127 i zero))

one_list-IsSound : IsSound one_list
one_list-IsSound = record {
  slots_len = ap suc (length-replicate 127 no_entry);
  present_len = ap suc (length-replicate 127 zero);
  valid = one_list-valid;
}

one_list-IsNarrow :
    (i : ℕ) → get_or one_list.present i 0 ≢ 0 → IsNarrow (get_or one_list.slots i no_entry)
one_list-IsNarrow zero h = record {
  ip = omega arith;
  mask = omega arith;
  gw = omega arith;
  ntp = omega arith;
}
one_list-IsNarrow (suc i) h = absurd (h (get_or-replicate 127 i zero))

-- IPAddress1=192.168.1.5, IPSubnetMask1=255.255.255.0, IPDefaultGateway1=192.168.1.1,
-- WL54EssId1="My", NTPServer1=0.0.0.0.
abbrev one_text : Bytes
one_text =
    (b'I' ∷ b'P' ∷ b'A' ∷ b'd' ∷ b'd' ∷ b'r' ∷ b'e' ∷ b's' ∷ b's' ∷ b'1' ∷ b'=' ∷ b'1' ∷ b'9' ∷ b'2'
      ∷ b'.' ∷ b'1' ∷ b'6' ∷ b'8' ∷ b'.' ∷ b'1' ∷ b'.' ∷ b'5' ∷ b'\n' ∷ [])
    ++ ((b'I' ∷ b'P' ∷ b'S' ∷ b'u' ∷ b'b' ∷ b'n' ∷ b'e' ∷ b't' ∷ b'M' ∷ b'a' ∷ b's' ∷ b'k' ∷ b'1'
          ∷ b'=' ∷ b'2' ∷ b'5' ∷ b'5' ∷ b'.' ∷ b'2' ∷ b'5' ∷ b'5' ∷ b'.' ∷ b'2' ∷ b'5' ∷ b'5' ∷ b'.'
          ∷ b'0' ∷ b'\n' ∷ [])
        ++ ((b'I' ∷ b'P' ∷ b'D' ∷ b'e' ∷ b'f' ∷ b'a' ∷ b'u' ∷ b'l' ∷ b't' ∷ b'G' ∷ b'a' ∷ b't'
              ∷ b'e' ∷ b'w' ∷ b'a' ∷ b'y' ∷ b'1' ∷ b'=' ∷ b'1' ∷ b'9' ∷ b'2' ∷ b'.' ∷ b'1' ∷ b'6'
              ∷ b'8' ∷ b'.' ∷ b'1' ∷ b'.' ∷ b'1' ∷ b'\n' ∷ [])
            ++ ((b'W' ∷ b'L' ∷ b'5' ∷ b'4' ∷ b'E' ∷ b's' ∷ b's' ∷ b'I' ∷ b'd' ∷ b'1' ∷ b'=' ∷ b'"'
                  ∷ b'M' ∷ b'y' ∷ b'"' ∷ b'\n' ∷ [])
                ++ (b'N' ∷ b'T' ∷ b'P' ∷ b'S' ∷ b'e' ∷ b'r' ∷ b'v' ∷ b'e' ∷ b'r' ∷ b'1' ∷ b'='
                    ∷ b'0' ∷ b'.' ∷ b'0' ∷ b'.' ∷ b'0' ∷ b'.' ∷ b'0' ∷ b'\n' ∷ []))))

one_list_text : opc_iplist_text_format one_list 24576 ≡ some one_text
unfolding opc_iplist_text_format put_slots put_entry put key_text ipv4_str decimal digits
    bounded_strnlen
one_list_text = refl

iplist_from_text-format_example :
    (text : Bytes) × (opc_iplist_text_format one_list 24576 ≡ some text)
    × (length text ≤ 24576)
    × (iplist_from_text true text ≡ some (stored_lists 0 one_list.slots one_list.present))
iplist_from_text-format_example =
    iplist_from_text-format one_list true one_list-IsSound one_list-IsNarrow

-- A line with an unknown key.
bad_line :
    (opc_iplist_text_parse (b'\n' ∷ b'\r' ∷ b'\n' ∷ b'x' ∷ b'1' ∷ b'\n' ∷ [])).first_error_line ≡ 3
unfolding opc_iplist_text_parse parse_lines parse_nonblank parse_line note strip_return lines
    has_nul
bad_line = refl

abbrev all_written : Endings
all_written = record {
  converted = durable;
  retired = true;
  own = durable;
  user = durable;
  user_last = durable;
  moved = true;
}

-- The daemon's copy, and a customer's file that it has written.
abbrev saved : Files
saved = record {
  own = holds one_text;
  legacy = legacy_absent;
  legacy_newer = false;
  user_path = true;
  user = holds one_text;
  user_last_path = true;
  user_last = holds one_text;
}

opcd_iplist_load-format_example :
    ((opcd_iplist_load saved all_written).0.ip_list
      ≡ stored_lists 0 one_list.slots one_list.present)
    ⊎ ((user : Bytes) × (saved.user ≡ holds user)
        × (iplist_from_text true user ≡ some (opcd_iplist_load saved all_written).0.ip_list)
        × ((opcd_iplist_load saved all_written).1 ≡ user_applied))
opcd_iplist_load-format_example =
    opcd_iplist_load-format one_list saved all_written one_text one_list-IsSound one_list-IsNarrow
      one_list_text refl refl

-- The first start after an update, with a binary file.
abbrev updated_files : Files
updated_files = record saved { own = absent; legacy = legacy_list one_list; user = absent }

opcd_iplist_load-IsSound_example : IsSound (opcd_iplist_load updated_files all_written).0.ip_list
opcd_iplist_load-IsSound_example =
    opcd_iplist_load-IsSound updated_files all_written
      (ap suc (length-replicate 127 no_entry), ap suc (length-replicate 127 zero))
