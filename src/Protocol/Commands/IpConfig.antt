-- ===== src/Protocol/Commands/IpConfig.antt =====
-- protocol/commands.c: SetIpConfigList, the request with 1 to 20 entries of 64 bytes.
pub mod Entries
pub mod RoundTrip
use wlan_opc.Base.{
  ℕ, zero, suc, ◌+◌, ◌*◌, ◌/◌, ◌%◌, Bool, true, false, ◌||◌, Option, none, some, Bytes, Writes,
  List, [], ◌∷◌, ◌++◌, drop, fill, length, zeros, ltb, ◌==◌, ◌/=◌, if◌then◌else◌,
}
use wlan_opc.Protocol.Ids.{cmd_request, req_set_ip_config_list}
use wlan_opc.Protocol.Codec.{be16_read, be32_read, be16_write, be32_write}
use wlan_opc.Protocol.CString.{copy_with_null_pad, copy_string_field}
use wlan_opc.Protocol.Frame.{frame_build}
use wlan_opc.Protocol.Commands.{parse_as}
use wlan_opc.Protocol.Commands.Records.{IpcfgEntry, SetIpConfigListReq}

abbrev pub ipcfg_entry_len : ℕ
ipcfg_entry_len = 64

abbrev pub ipcfg_list_max_per_req : ℕ
ipcfg_list_max_per_req = 20

abbrev pub ipcfg_entry_writes : IpcfgEntry → Writes
ipcfg_entry_writes e =
    (0, be16_write e.boundary_flag)
    ∷ (2, be16_write e.list_number)
    ∷ (4, be32_write e.ip_address)
    ∷ (8, be32_write e.subnet_mask)
    ∷ (12, be32_write e.default_gateway)
    ∷ (16, be32_write e.ntp_server)
    ∷ (20, copy_with_null_pad 32 e.essid)
    ∷ (52, zeros 12)
    ∷ []

-- The 64 bytes of an entry, all of them written.
unfoldable pub pack_ipcfg_entry : IpcfgEntry → Bytes
pack_ipcfg_entry e = fill 64 (ipcfg_entry_writes e)

-- The entry, and whether its ESSID was terminated.
unfoldable pub unpack_ipcfg_entry : Bytes → IpcfgEntry × Bool
unpack_ipcfg_entry p =
    let (essid, terminated) = copy_string_field 32 (drop 20 p) in
    (
      record {
        boundary_flag = be16_read (drop 0 p);
        list_number = be16_read (drop 2 p);
        ip_address = be32_read (drop 4 p);
        subnet_mask = be32_read (drop 8 p);
        default_gateway = be32_read (drop 12 p);
        ntp_server = be32_read (drop 16 p);
        essid = essid;
      },
      terminated,
    )

-- Entry `i` stands at byte `64 * i`.
unfoldable pub pack_entries : List IpcfgEntry → Bytes
pack_entries [] = []
pack_entries (e ∷ es) = pack_ipcfg_entry e ++ pack_entries es

unfoldable pub set_ip_config_list_req_pack :
    (frame_room seq_no : ℕ) → List IpcfgEntry → Option Bytes
set_ip_config_list_req_pack frame_room seq_no entries =
    if ltb (length entries) 1 || ltb ipcfg_list_max_per_req (length entries)
    then none
    else frame_build frame_room cmd_request req_set_ip_config_list seq_no
        ((56 + length entries * ipcfg_entry_len) % 65536) (pack_entries entries)

-- 0, -1 and OPC_UNPACK_ERR_LIST_SIZE.
pub data UnpackResult {ℓ} (A : Type ℓ) : Type ℓ where
  ok : A → UnpackResult A
  malformed : UnpackResult A
  list_size : UnpackResult A

abbrev pub bit_of : Bool → ℕ
bit_of true = 1
bit_of false = 0

-- The first `n` entries of the body; bit `i` of the mask is set where entry `i` was terminated.
unfoldable pub unpack_entries : ℕ → Bytes → SetIpConfigListReq
unpack_entries zero body = record { entries = []; essid_terminated_mask = 0 }
unpack_entries (suc n) body =
    let (e, terminated) = unpack_ipcfg_entry body in
    let rest = unpack_entries n (drop ipcfg_entry_len body) in
    record {
      entries = e ∷ rest.entries;
      essid_terminated_mask = bit_of terminated + 2 * rest.essid_terminated_mask;
    }

unfoldable pub read_entries : Bytes → UnpackResult SetIpConfigListReq
read_entries body =
    if (length body == 0) || (length body % ipcfg_entry_len /= 0)
    then list_size
    else if ltb ipcfg_list_max_per_req (length body / ipcfg_entry_len)
    then list_size
    else ok (unpack_entries (length body / ipcfg_entry_len) body)

unfoldable pub set_ip_config_list_req_unpack : Bytes → UnpackResult SetIpConfigListReq
set_ip_config_list_req_unpack frame = elim (parse_as cmd_request req_set_ip_config_list 0 frame) [
  | none ↦ malformed
  | some body ↦ read_entries body
]
