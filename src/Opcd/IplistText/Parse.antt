-- ===== src/Opcd/IplistText/Parse.antt =====
-- opcd/iplist_text.c: reading the text.
use wlan_opc.Base.{
  ℕ, zero, suc, ◌+◌, ◌-◌, ◌*◌, ◌%◌, ◌^◌, Bool, true, false, not, ◌&&◌, ◌||◌, Option, none, some,
  List, [], ◌∷◌, ◌++◌, Bytes, length, take, drop, get_or, set, replicate, zeros, ◌==◌, ◌/=◌, ltb,
  leb, if◌then◌else◌, ◌>>=◌,
}
use Prim.Native.Nat.{bit_and, bit_or}
use wlan_opc.Protocol.CString.{has_nul}
use wlan_opc.Protocol.Commands.Records.{IpcfgEntry}
use wlan_opc.Opcd.State.{max_slots, no_entry}
use wlan_opc.Opcd.IplistText.{key_ip, key_mask, key_gw, key_essid, keys}

abbrev pub is_digit : ℕ → Bool
is_digit c = leb 48 c && leb c 57

abbrev pub starts_with : (ℕ → Bool) → Bytes → Bool
starts_with test [] = false
starts_with test (c ∷ s) = test c

-- At most `room` digits; the number so far is `v`.
unfoldable pub scan_digits : (room v : ℕ) → Bytes → ℕ × Bytes
scan_digits zero v s = (v, s)
scan_digits (suc room) v [] = (v, [])
scan_digits (suc room) v (c ∷ s) =
    let rest = scan_digits room (v * 10 + (c - 48)) s in if is_digit c then rest else (v, c ∷ s)

unfoldable pub parse_octet : Bytes → Option (ℕ × Bytes)
parse_octet s =
    let (v, rest) = scan_digits 3 0 s in
    let nd = length s - length rest in
    if (nd == 0) || (ltb 255 v || (ltb 1 nd && starts_with (λ c. c == b'0') s))
    then none
    else if starts_with is_digit rest
    then none
    else some (v, rest)

abbrev pub skip : ℕ → Bytes → Option Bytes
skip c [] = none
skip c (d ∷ s) = if d == c then some s else none

-- The parts that are left, each behind a dot.
unfoldable pub parse_parts : (left ip : ℕ) → Bytes → Option ℕ
parse_parts zero ip [] = some ip
parse_parts zero ip (c ∷ s) = none
parse_parts (suc left) ip s = do
  s1 ← skip b'.' s
  p ← parse_octet s1
  parse_parts left ((ip * 256) % 2 ^ 32 + p.0) p.1

unfoldable pub parse_ipv4 : Bytes → Option ℕ
parse_ipv4 s = parse_octet s >>= λ p. parse_parts 3 p.0 p.1

-- What is known of the lists: `keys` are the keys seen, `first_error_line` counts from 1.
pub record IplistText : Type 0 where
  pub entry : List IpcfgEntry
  pub keys : List ℕ
  pub bad : List Bool
  pub first_error_line : ℕ
  pub final_newline : Bool

unfoldable pub note : IplistText → (line : ℕ) → IplistText
note out line = if out.first_error_line /= 0 then out else record out { first_error_line = line }

abbrev pub strip_prefix : Bytes → Bytes → Option Bytes
strip_prefix [] s = some s
strip_prefix (k ∷ key) [] = none
strip_prefix (k ∷ key) (c ∷ s) = let rest = strip_prefix key s in if k == c then rest else none

-- The first key that the line starts with, before a digit, and what is behind it.
abbrev pub find_key : List (Bytes × ℕ) → Bytes → Option (ℕ × Bytes)
find_key [] s = none
find_key ((name, bit) ∷ ks) s =
    let rest = find_key ks s in
    elim (strip_prefix name s) [
      | none ↦ rest
      | some p ↦ if starts_with is_digit p then some (bit, p) else rest
    ]

-- The list number and the value behind `=`.
unfoldable pub parse_number : Bytes → Option (ℕ × Bytes)
parse_number s =
    let (n, p) = scan_digits 4 0 s in
    if starts_with (λ c. c == b'0') s || (ltb n 1 || ltb max_slots n)
    then none
    else skip b'=' p >>= λ value. some (n, value)

abbrev pub has_byte : ℕ → Bytes → Bool
has_byte b [] = false
has_byte b (c ∷ s) = (c == b) || has_byte b s

-- The ESSID field of a quoted text.
unfoldable pub parse_essid : Bytes → Option Bytes
parse_essid s =
    let vlen = length s in
    let inner = take (vlen - 2) (drop 1 s) in
    if leb 2 vlen
      && ((get_or s 0 0 == b'"') && (get_or s (vlen - 1) 0 == b'"'))
      && (ltb (vlen - 2) 32 && not (has_byte b'"' inner))
    then some (inner ++ zeros (32 - (vlen - 2)))
    else none

unfoldable pub store_ipv4 : (bit v : ℕ) → IpcfgEntry → IpcfgEntry
store_ipv4 bit v e =
    if bit == key_ip
    then record e { ip_address = v }
    else if bit == key_mask
    then record e { subnet_mask = v }
    else if bit == key_gw
    then record e { default_gateway = v }
    else record e { ntp_server = v }

unfoldable pub parse_value : (bit : ℕ) → Bytes → IpcfgEntry → Option IpcfgEntry
parse_value bit s e =
    if bit == key_essid
    then (parse_essid s >>= λ essid. some (record e { essid = essid }))
    else (parse_ipv4 s >>= λ v. some (store_ipv4 bit v e))

-- A line that is wrong, of list `i + 1`.
abbrev pub reject_slot : IplistText → (i line : ℕ) → IplistText
reject_slot out i line = note (record out { bad = set out.bad i true }) line

unfoldable pub take_value : IplistText → (bit n line : ℕ) → Bytes → IplistText
take_value out bit n line s =
    let i = n - 1 in
    let seen = get_or out.keys i 0 in
    if bit_and seen bit /= 0
    then reject_slot out i line
    else elim (parse_value bit s (get_or out.entry i no_entry)) [
      | none ↦ reject_slot out i line
      | some e ↦ record out {
        entry = set out.entry i (record e { list_number = n });
        keys = set out.keys i (bit_or seen bit);
      }
    ]

unfoldable pub parse_line : Bytes → (line : ℕ) → IplistText → IplistText
parse_line s line out = if has_nul (length s) s then note out line else elim (find_key keys s) [
  | none ↦ note out line
  | some k ↦ elim (parse_number k.1) [
    | none ↦ note out line
    | some p ↦ take_value out k.0 p.0 line p.1
  ]
]

-- The lines, without the newlines that end them.
unfoldable pub lines : Bytes → List Bytes
lines [] = []
lines (c ∷ s) =
    let rest = lines s in
    if c == b'\n' then [] ∷ rest else elim rest [ [] ↦ (c ∷ []) ∷ [] | l ∷ ls ↦ (c ∷ l) ∷ ls ]

-- `if (end > p && end[-1] == '\r') end--;`
unfoldable pub strip_return : Bytes → Bytes
strip_return [] = []
strip_return (c ∷ []) = if c == b'\r' then [] else c ∷ []
strip_return (c ∷ d ∷ s) = c ∷ strip_return (d ∷ s)

-- A line that is not blank.
unfoldable pub parse_nonblank : Bytes → (line : ℕ) → IplistText → IplistText
parse_nonblank [] line out = out
parse_nonblank (c ∷ s) line out = parse_line (c ∷ s) line out

unfoldable pub parse_lines : List Bytes → (line : ℕ) → IplistText → IplistText
parse_lines [] line out = out
parse_lines (l ∷ ls) line out = parse_lines ls (line + 1) (parse_nonblank (strip_return l) line out)

abbrev pub ends_with_newline : Bytes → Bool
ends_with_newline [] = true
ends_with_newline s = get_or s (length s - 1) 0 == b'\n'

abbrev pub no_text : Bool → IplistText
no_text final_newline = record {
  entry = replicate max_slots no_entry;
  keys = replicate max_slots 0;
  bad = replicate max_slots false;
  first_error_line = 0;
  final_newline = final_newline;
}

unfoldable pub opc_iplist_text_parse : Bytes → IplistText
opc_iplist_text_parse s = parse_lines (lines s) 1 (no_text (ends_with_newline s))
