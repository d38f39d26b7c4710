-- ===== src/Opcd/IplistText.antt =====
-- opcd/iplist_text.c: the address list as a configuration text, one line for each key of each list.
-- The texts are lists of bytes. The message that goes with the first error is not modelled.
pub mod Parse
pub mod Digits
pub mod Lines
pub mod KeyLines
pub mod Values
pub mod Slots
pub mod Format
pub mod RoundTrip
use wlan_opc.Base.{
  ℕ, zero, suc, ◌+◌, ◌-◌, ◌*◌, ◌/◌, ◌%◌, ◌^◌, Bool, true, false, not, ◌&&◌, ◌||◌, Option, none,
  some, List, [], ◌∷◌, ◌++◌, Bytes, length, take, drop, get_or, set, replicate, zeros, ◌==◌, ◌/=◌,
  ltb, leb, if◌then◌else◌, ◌>>=◌, ◌>>◌, guard,
}
use Prim.Native.Nat.{bit_and, bit_or}
use wlan_opc.Protocol.CString.{bounded_strnlen, has_nul}
use wlan_opc.Protocol.Commands.Records.{IpcfgEntry}
use wlan_opc.Opcd.State.{IpList, max_slots, no_entry}

-- OPC_IPLIST_TEXT_MAX, the size of the buffer of a text.
abbrev pub text_max : ℕ
text_max = 24576

abbrev pub key_ip : ℕ
key_ip = 0x01

abbrev pub key_mask : ℕ
key_mask = 0x02

abbrev pub key_gw : ℕ
key_gw = 0x04

abbrev pub key_essid : ℕ
key_essid = 0x08

abbrev pub key_ntp : ℕ
key_ntp = 0x10

abbrev pub key_all : ℕ
key_all = 0x1F

abbrev pub ip_address_name : Bytes
ip_address_name = b'I' ∷ b'P' ∷ b'A' ∷ b'd' ∷ b'd' ∷ b'r' ∷ b'e' ∷ b's' ∷ b's' ∷ []

abbrev pub subnet_mask_name : Bytes
subnet_mask_name =
    b'I' ∷ b'P' ∷ b'S' ∷ b'u' ∷ b'b' ∷ b'n' ∷ b'e' ∷ b't' ∷ b'M' ∷ b'a' ∷ b's' ∷ b'k' ∷ []

abbrev pub default_gateway_name : Bytes
default_gateway_name =
    b'I' ∷ b'P' ∷ b'D' ∷ b'e' ∷ b'f' ∷ b'a' ∷ b'u' ∷ b'l' ∷ b't' ∷ b'G' ∷ b'a' ∷ b't' ∷ b'e' ∷ b'w'
    ∷ b'a' ∷ b'y' ∷ []

abbrev pub essid_name : Bytes
essid_name = b'W' ∷ b'L' ∷ b'5' ∷ b'4' ∷ b'E' ∷ b's' ∷ b's' ∷ b'I' ∷ b'd' ∷ []

abbrev pub ntp_server_name : Bytes
ntp_server_name = b'N' ∷ b'T' ∷ b'P' ∷ b'S' ∷ b'e' ∷ b'r' ∷ b'v' ∷ b'e' ∷ b'r' ∷ []

-- The table of the keys.
abbrev pub keys : List (Bytes × ℕ)
keys =
    (ip_address_name, key_ip)
    ∷ (subnet_mask_name, key_mask)
    ∷ (default_gateway_name, key_gw)
    ∷ (essid_name, key_essid)
    ∷ (ntp_server_name, key_ntp)
    ∷ []

-- `%u`. The ten digits of `fuel` hold every number of 32 bits.
unfoldable pub digits : (fuel : ℕ) → ℕ → Bytes
digits zero v = []
digits (suc fuel) v =
    let rest = digits fuel (v / 10) in
    if ltb v 10 then (48 + v) ∷ [] else rest ++ ((48 + v % 10) ∷ [])

unfoldable pub decimal : ℕ → Bytes
decimal v = digits 10 v

unfoldable pub ipv4_str : ℕ → Bytes
ipv4_str ip =
    decimal (ip / 16777216)
    ++ (b'.'
        ∷ (decimal (ip / 65536 % 256)
            ++ (b'.' ∷ (decimal (ip / 256 % 256) ++ (b'.' ∷ decimal (ip % 256))))))

-- `"%s%u="`
unfoldable pub key_text : Bytes → ℕ → Bytes
key_text key n = key ++ (decimal n ++ (b'=' ∷ []))

-- `text` is what the buffer of `cap` bytes holds; each `snprintf` needs room for a NUL too.
unfoldable pub put : (cap : ℕ) → (text key : Bytes) → ℕ → (value : Bytes) → Option Bytes
put cap text key n value = do
  guard (ltb (length (key_text key n)) (cap - length text))
  guard (ltb (length value) (cap - length (text ++ key_text key n)))
  some ((text ++ key_text key n) ++ value)

-- The text of a character array that is ended by force.
abbrev pub essid_text : IpcfgEntry → Bytes
essid_text e = take (bounded_strnlen e.essid 31) e.essid

abbrev pub quoted_line : Bytes → Bytes
quoted_line s = b'"' ∷ (s ++ (b'"' ∷ b'\n' ∷ []))

abbrev pub plain_line : Bytes → Bytes
plain_line s = s ++ (b'\n' ∷ [])

-- The five lines of list `n`.
unfoldable pub put_entry : (cap : ℕ) → (text : Bytes) → ℕ → IpcfgEntry → Option Bytes
put_entry cap text n e = do
  text1 ← put cap text ip_address_name n (plain_line (ipv4_str e.ip_address))
  text2 ← put cap text1 subnet_mask_name n (plain_line (ipv4_str e.subnet_mask))
  text3 ← put cap text2 default_gateway_name n (plain_line (ipv4_str e.default_gateway))
  text4 ← put cap text3 essid_name n (quoted_line (essid_text e))
  put cap text4 ntp_server_name n (plain_line (ipv4_str e.ntp_server))

-- The slots from the `i`-th on.
unfoldable pub put_slots :
    (cap : ℕ) → (text : Bytes) → (i : ℕ) → List IpcfgEntry → List ℕ → Option Bytes
put_slots cap text i [] present = some text
put_slots cap text i (e ∷ es) [] = some text
put_slots cap text i (e ∷ es) (p ∷ ps) =
    if p == 0
    then put_slots cap text (i + 1) es ps
    else put_entry cap text (i + 1) e >>= λ text1. put_slots cap text1 (i + 1) es ps

unfoldable pub opc_iplist_text_format : IpList → (cap : ℕ) → Option Bytes
opc_iplist_text_format l cap = if cap == 0 then none else put_slots cap [] 0 l.slots l.present
