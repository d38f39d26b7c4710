-- ===== src/Opcd/Validators.antt =====
-- opcd/handler.c: the checks on the values of a request.
use wlan_opc.Base.{
  ℕ, zero, suc, ◌+◌, ◌-◌, ◌/◌, ◌%◌, Bool, true, false, not, ◌&&◌, ◌||◌, Bytes, [], ◌∷◌, ◌==◌, ◌/=◌,
  leb, if◌then◌else◌,
}
use Prim.Native.Nat.{bit_and, bit_or}
use wlan_opc.Protocol.Commands.Records.{IpcfgEntry}

abbrev pub u32_max : ℕ
u32_max = 4294967295

-- `~x` on 32 bits.
abbrev pub bit_not32 : ℕ → ℕ
bit_not32 x = u32_max - x

unfoldable pub valid_unicast_ipv4 : ℕ → Bool
valid_unicast_ipv4 ip =
    if ip == 0
    then false
    else if ip == u32_max
    then false
    else if bit_and ip 0xF0000000 == 0xE0000000
    then false
    else true

unfoldable pub valid_netmask : ℕ → Bool
valid_netmask m = (m /= 0) && (bit_and (bit_not32 m) ((bit_not32 m + 1) % 4294967296) == 0)

unfoldable pub valid_ipcfg_addr : ℕ → Bool
unfolding valid_unicast_ipv4
valid_ipcfg_addr ip = valid_unicast_ipv4 ip && (ip / 16777216 /= 127)

-- A letter, a digit or one of `.-_+/:=~@`.
abbrev pub opc_char : ℕ → Bool
opc_char c =
    (leb 65 c && leb c 90)
    || (leb 97 c && leb c 122)
    || (leb 48 c && leb c 57)
    || (c == 46)
    || (c == 45)
    || (c == 95)
    || (c == 43)
    || (c == 47)
    || (c == 58)
    || (c == 61)
    || (c == 126)
    || (c == 64)

-- Up to the first NUL.
unfoldable pub valid_opc_charset : Bytes → Bool
valid_opc_charset [] = true
valid_opc_charset (c ∷ s) =
    let rest = valid_opc_charset s in if c == 0 then true else if opc_char c then rest else false

-- `strncmp(a, b, n) == 0`. An array that ends counts as ended by a NUL.
unfoldable pub strncmp_eq : ℕ → Bytes → Bytes → Bool
strncmp_eq zero a b = true
strncmp_eq (suc n) [] [] = true
strncmp_eq (suc n) [] (d ∷ b) = d == 0
strncmp_eq (suc n) (c ∷ a) [] = c == 0
strncmp_eq (suc n) (c ∷ a) (d ∷ b) =
    let rest = strncmp_eq n a b in if c /= d then false else if c == 0 then true else rest

abbrev pub err_ipcfg_ip : ℕ
err_ipcfg_ip = 0x0011

abbrev pub err_ipcfg_netmask : ℕ
err_ipcfg_netmask = 0x0012

abbrev pub err_ipcfg_gw : ℕ
err_ipcfg_gw = 0x0013

abbrev pub err_ipcfg_ntp : ℕ
err_ipcfg_ntp = 0x0014

abbrev pub err_ipcfg_essid_char : ℕ
err_ipcfg_essid_char = 0x0015

abbrev pub err_ipcfg_essid_nul : ℕ
err_ipcfg_essid_nul = 0x0016

-- 0 for an entry that is accepted.
unfoldable pub ipcfg_entry_error : IpcfgEntry → Bool → ℕ
unfolding valid_netmask
ipcfg_entry_error e essid_terminated =
    let net = bit_and e.ip_address e.subnet_mask in
    let bcast = bit_or net (bit_not32 e.subnet_mask) in
    if not (valid_ipcfg_addr e.ip_address)
    then err_ipcfg_ip
    else if not (valid_netmask e.subnet_mask)
    then err_ipcfg_netmask
    else if (e.subnet_mask /= u32_max) && ((e.ip_address == net) || (e.ip_address == bcast))
    then err_ipcfg_ip
    else if (e.default_gateway /= 0)
        && (not (valid_ipcfg_addr e.default_gateway)
            || (e.default_gateway == e.ip_address)
            || ((e.subnet_mask /= u32_max) && (bit_and e.default_gateway e.subnet_mask /= net)))
    then err_ipcfg_gw
    else if (e.ntp_server /= 0) && not (valid_ipcfg_addr e.ntp_server)
    then err_ipcfg_ntp
    else if not essid_terminated
    then err_ipcfg_essid_nul
    else if not (valid_opc_charset e.essid)
    then err_ipcfg_essid_char
    else 0
