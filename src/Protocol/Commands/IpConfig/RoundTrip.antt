-- ===== src/Protocol/Commands/IpConfig/RoundTrip.antt =====
-- SetIpConfigList: the list of entries that is packed arrives in order, and no other size does.
use wlan_opc.Base.{
  ℕ, zero, suc, ◌+◌, ◌*◌, ◌/◌, ◌%◌, ◌≤◌, ◌≡◌, ◌⊎◌, inl, inr, refl, ap, ◌∙◌, true, false, ◌||◌, some,
  inl, inr, ◌>>=◌, Bytes, List, [], ◌∷◌, ◌++◌, map, drop, length, get_elem?, fill, arith,
  IsAscending, length-fill, length-append, drop-append, drop-fill_block, All, ltb,
}
use wlan_opc.Protocol.Ids.{cmd_request, req_set_ip_config_list}
use wlan_opc.Protocol.Codec.{IsU16, IsU32}
use wlan_opc.Protocol.Codec.RoundTrip.{read16, read32, length-be16_write, length-be32_write}
use wlan_opc.Protocol.CString.{
  copy_with_null_pad, length-copy_with_null_pad, copy_string_field, copy_string_field-pad,
}
use wlan_opc.Protocol.Commands.{parse_as}
use wlan_opc.Protocol.Commands.Wire.{frame_build_sent}
use wlan_opc.Protocol.Commands.Records.{IpcfgEntry, SetIpConfigListReq}
use wlan_opc.Protocol.Commands.IpConfig.{
  ipcfg_entry_writes, pack_ipcfg_entry, unpack_ipcfg_entry, pack_entries,
  set_ip_config_list_req_pack, UnpackResult, ok, malformed, list_size, unpack_entries, read_entries,
  set_ip_config_list_req_unpack,
}

pub record IsWireEntry (e : IpcfgEntry) : Type 0 where
  pub flag : IsU16 e.boundary_flag
  pub number : IsU16 e.list_number
  pub ip : IsU32 e.ip_address
  pub mask : IsU32 e.subnet_mask
  pub gateway : IsU32 e.default_gateway
  pub ntp : IsU32 e.ntp_server

-- An entry as it arrives.
abbrev pub padded_entry : IpcfgEntry → IpcfgEntry
padded_entry e = record e { essid = copy_with_null_pad 32 e.essid }

entry-IsAscending : (e : IpcfgEntry) → IsAscending 64 0 (ipcfg_entry_writes e)
entry-IsAscending e = omega (arith, length-be16_write, length-be32_write, length-copy_with_null_pad)

length-pack_ipcfg_entry : (e : IpcfgEntry) → length (pack_ipcfg_entry e) ≡ 64
unfolding pack_ipcfg_entry
length-pack_ipcfg_entry e = length-fill 64 (ipcfg_entry_writes e) (entry-IsAscending e)

unpack_ipcfg_entry-pack :
    (e : IpcfgEntry) (rest : Bytes)
    → IsWireEntry e
    → unpack_ipcfg_entry (pack_ipcfg_entry e ++ rest) ≡ (padded_entry e, true)
unfolding unpack_ipcfg_entry pack_ipcfg_entry
unpack_ipcfg_entry-pack e rest w =
    let ws = ipcfg_entry_writes e in
    let p = fill 64 ws ++ rest in
    let at = λ (i off : ℕ) (bs : Bytes) (q : get_elem? ws i ≡ some (off, bs)).
      drop-fill_block 64 i off bs ws rest (entry-IsAscending e) q in
    let (tail, q) = at 6 20 _ refl in
    let text : copy_string_field 32 (drop 20 p) ≡ (copy_with_null_pad 32 e.essid, true) =
      ap (copy_string_field 32) q ∙ copy_string_field-pad 31 e.essid tail in
    λ i. (
      record {
        boundary_flag = read16 p 0 e.boundary_flag (at 0 0 _ refl) w.flag i;
        list_number = read16 p 2 e.list_number (at 1 2 _ refl) w.number i;
        ip_address = read32 p 4 e.ip_address (at 2 4 _ refl) w.ip i;
        subnet_mask = read32 p 8 e.subnet_mask (at 3 8 _ refl) w.mask i;
        default_gateway = read32 p 12 e.default_gateway (at 4 12 _ refl) w.gateway i;
        ntp_server = read32 p 16 e.ntp_server (at 5 16 _ refl) w.ntp i;
        essid = (text i).0;
      },
      (text i).1,
    )

length-pack_entries : (es : List IpcfgEntry) → length (pack_entries es) ≡ 64 * length es
unfolding pack_entries
length-pack_entries [] = refl
length-pack_entries (e ∷ es) = omega (
  arith,
  length-append (pack_ipcfg_entry e) (pack_entries es),
  length-pack_ipcfg_entry e,
  length-pack_entries es,
)

-- A mask of `n` ones.
abbrev pub all_terminated : ℕ → ℕ
all_terminated zero = 0
all_terminated (suc n) = 1 + 2 * all_terminated n

abbrev pub arrived : List IpcfgEntry → SetIpConfigListReq
arrived es = record {
  entries = map padded_entry es;
  essid_terminated_mask = all_terminated (length es);
}

unpack_entries-pack :
    (es : List IpcfgEntry)
    → All IsWireEntry es
    → unpack_entries (length es) (pack_entries es) ≡ arrived es
unfolding unpack_entries pack_entries
unpack_entries-pack [] w = refl
unpack_entries-pack (e ∷ es) (w, ws) =
    let tail : drop 64 (pack_ipcfg_entry e ++ pack_entries es) ≡ pack_entries es =
      drop-append 64 (pack_ipcfg_entry e) (pack_entries es) (length-pack_ipcfg_entry e) in
    rw (unpack_ipcfg_entry-pack e (pack_entries es) w, tail, unpack_entries-pack es ws)

read_entries-pack :
    (es : List IpcfgEntry)
    → 1 ≤ length es
    → length es ≤ 20
    → All IsWireEntry es
    → read_entries (pack_entries es) ≡ ok (arrived es)
unfolding read_entries
read_entries-pack es lo hi w =
    let size = length-pack_entries es in
    let none_left : (64 * length es / 64) ≡ length es = omega arith in
    rw (size, none_left, unpack_entries-pack es w) (ground arith)

unpack-parsed :
    (frame : Bytes) {body : Bytes}
    → parse_as cmd_request req_set_ip_config_list 0 frame ≡ some body
    → set_ip_config_list_req_unpack frame ≡ read_entries body
unfolding set_ip_config_list_req_unpack
unpack-parsed frame e = rw (e, set_ip_config_list_req_unpack)

-- A packed SetIpConfigList request of 1 to 20 entries is returned whole and in order by its unpack
-- function, each ESSID padded to 32 bytes and marked as terminated, when the fields fit their widths,
-- the sequence number fits 16 bits and the buffer holds the frame.
pub set_ip_config_list_req_round_trip :
    (frame_room seq : ℕ) (es : List IpcfgEntry)
    → IsU16 seq
    → 1 ≤ length es
    → length es ≤ 20
    → 64 + 64 * length es ≤ frame_room
    → All IsWireEntry es
    → (set_ip_config_list_req_pack frame_room seq es >>= λ frame.
        some (set_ip_config_list_req_unpack frame))
      ≡ some (ok (arrived es))
unfolding set_ip_config_list_req_pack
set_ip_config_list_req_round_trip frame_room seq es s lo hi room w =
    let n = length es in
    let size = length-pack_entries es in
    let (frame, built, parsed, _) =
      frame_build_sent frame_room cmd_request req_set_ip_config_list seq 0 (64 * n)
        ((56 + n * 64) % 65536) (pack_entries es) size (omega arith) s room in
    let few : (ltb n 1 || ltb 20 n) ≡ false = ground arith in
    rw (few, built) (ap some (unpack-parsed frame parsed ∙ read_entries-pack es lo hi w))

pub UnpackResult-cases :
    (u : UnpackResult SetIpConfigListReq)
    → ((req : SetIpConfigListReq) × (u ≡ ok req)) ⊎ ((u ≡ malformed) ⊎ (u ≡ list_size))
UnpackResult-cases (ok req) = inl (req, refl)
UnpackResult-cases malformed = inr (inl refl)
UnpackResult-cases list_size = inr (inr refl)
