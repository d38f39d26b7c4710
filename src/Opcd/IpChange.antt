-- ===== src/Opcd/IpChange.antt =====
-- opcd/handler.c: a change of the device's address, from ChangeIpAddress over Logout to its
-- application.
pub mod Pipeline
pub mod Laws
use wlan_opc.Base.{
  ℕ, suc, ◌+◌, ◌-◌, ◌%◌, Bool, true, false, not, ◌&&◌, ◌||◌, Option, none, some, List, [], ◌∷◌,
  Bytes, ◌==◌, ◌/=◌, ltb, leb, if◌then◌else◌, get_or,
}
use Prim.Native.Nat.{bit_and, bit_xor}
use wlan_opc.Protocol.Ids.{err_none, err_login_violation, err_login_condition, err_packet_size}
use wlan_opc.Protocol.Commands.Records.{IpcfgEntry, ChangeIpAddressReq}
use wlan_opc.Protocol.Commands.Simple.{
  logout_ack_pack, logout_req_unpack, change_ip_address_ack_pack,
}
use wlan_opc.Protocol.Commands.Requests.{change_ip_address_req_unpack}
use wlan_opc.Opcd.State.{
  State, IpList, PendingAck, PersistResource, persist_ip_list, max_slots, no_entry, Datagram,
}
use wlan_opc.Opcd.Validators.{u32_max}
use wlan_opc.Opcd.IpList.{err_slot_range}
use wlan_opc.Opcd.Session.{
  Outcome, LoginCheck, admitted, refused, ack_of, check_login_required, session_owns, session_touch,
  opcd_session_logout,
}

abbrev same_resource : PersistResource → PersistResource → Bool
same_resource PersistResource.persist_none PersistResource.persist_none = true
same_resource PersistResource.persist_password PersistResource.persist_password = true
same_resource PersistResource.persist_ip_list PersistResource.persist_ip_list = true
same_resource PersistResource.persist_radio PersistResource.persist_radio = true
same_resource _ _ = false

unfoldable pub persist_resource_busy : List PendingAck → PersistResource → Bool
persist_resource_busy [] r = false
persist_resource_busy (pa ∷ pas) r =
    let rest = persist_resource_busy pas r in
    if pa.in_use && same_resource pa.resource r then true else rest

unfoldable pub slot_present : IpList → ℕ → Bool
slot_present l n = get_or l.present (n - 1) 0 /= 0

abbrev pub slot_entry : IpList → ℕ → IpcfgEntry
slot_entry l n = get_or l.slots (n - 1) no_entry

-- A pending change takes the entry that its slot holds now, and is dropped if the slot is empty.
unfoldable pub arm_ip_change_from_committed : State → State
arm_ip_change_from_committed st =
    let n = st.ip_change_list_no in
    let in_range = leb 1 n && leb n max_slots in
    if in_range && not (slot_present st.ip_list n)
    then record st { ip_change_pending = false; ip_change_list_no = 0 }
    else if in_range
    then record st {
      ip_change_armed_entry = slot_entry st.ip_list n;
      ip_change_armed_no = n;
      ip_change_commit_armed = true;
    }
    else st

-- What Logout decides on a pending change: deferred while a write of the list is in flight.
unfoldable pub logout_ip_change : State → State
logout_ip_change st =
    if st.ip_change_pending && not st.ip_change_commit_armed
    then if persist_resource_busy st.pending_acks persist_ip_list
      then record st { ip_change_logout_deferred = true }
      else arm_ip_change_from_committed st
    else st

unfoldable pub logout_error : State → Option (Unit {0}) → ℕ → ℕ
logout_error st none ip = err_packet_size
logout_error st (some _) ip =
    if not st.logged_in
    then err_login_violation
    else if not (session_owns st ip)
    then err_login_condition
    else err_none

unfoldable pub handle_logout : (room : ℕ) → State → Bytes → (ip seq : ℕ) → Outcome
handle_logout room st frame ip seq =
    let err = logout_error st (logout_req_unpack frame) ip in
    let (st1, sent) = opcd_session_logout (logout_ip_change st) in
    if err == 0
    then record { state = st1; sent = sent; resp = logout_ack_pack room seq (ack_of err) }
    else record { state = st; sent = []; resp = logout_ack_pack room seq (ack_of err) }

-- `other` is the address and netmask of the other interface, none when it cannot be read.
unfoldable pub ipcfg_clashes_other_iface : Option (ℕ × ℕ) → IpcfgEntry → Bool
ipcfg_clashes_other_iface none e = false
ipcfg_clashes_other_iface (some (oip, omask)) e =
    if (oip == 0) || (omask == 0) || (omask == u32_max)
    then false
    else bit_and (bit_and (bit_xor e.ip_address oip) e.subnet_mask) omask == 0

abbrev pub err_slot_empty : ℕ
err_slot_empty = 0x0011

abbrev pub err_ip_change_conflict : ℕ
err_ip_change_conflict = 0x0012

abbrev pub err_ip_change_clash : ℕ
err_ip_change_clash = 0x0050

-- The error cause for a client that is admitted, 0 for a change that is taken.
unfoldable pub change_error : Option (ℕ × ℕ) → State → ChangeIpAddressReq → ℕ
change_error other st req =
    if st.ip_change_commit_armed || st.ip_change_logout_deferred
    then err_ip_change_conflict
    else if st.ip_list_staging_active
    then err_ip_change_conflict
    else if ltb req.list_number 1 || ltb max_slots req.list_number
    then err_slot_range
    else if not (slot_present st.ip_list req.list_number)
    then err_slot_empty
    else if ipcfg_clashes_other_iface other (slot_entry st.ip_list req.list_number)
    then err_ip_change_clash
    else err_none

-- The state and error cause of an admitted request.
unfoldable pub change_admitted : (now : ℕ) → Option (ℕ × ℕ) → State → ChangeIpAddressReq → State × ℕ
change_admitted now other st req =
    let err = change_error other st req in
    if err == 0
    then (
      session_touch now
          (record st { ip_change_pending = true; ip_change_list_no = req.list_number }),
      err,
    )
    else (st, err)

unfoldable pub handle_change_ip_address :
    (now room : ℕ) → Option (ℕ × ℕ) → State → Bytes → (ip seq : ℕ) → Outcome
handle_change_ip_address now room other st frame ip seq =
    elim (change_ip_address_req_unpack frame) [
      | none ↦ record {
        state = st;
        sent = [];
        resp = change_ip_address_ack_pack room seq (ack_of err_packet_size);
      }
      | some req ↦ elim (check_login_required now st ip) [
        | refused err ↦ record {
          state = st;
          sent = [];
          resp = change_ip_address_ack_pack room seq (ack_of err);
        }
        | admitted st1 ↦
            let (st2, err) = change_admitted now other st1 req in
            record {
              state = st2;
              sent = [];
              resp = change_ip_address_ack_pack room seq (ack_of err);
            }
      ]
    ]

-- The armed entry is handed to the platform's apply_ip_change, and `applied` is whether that
-- succeeded. The refresh of the peer route that follows it changes no state.
unfoldable pub apply_armed : Bool → State → State × List Datagram
apply_armed applied st =
    let disabled = record st { indication_enabled = false } in
    let (st1, sent) =
      if not applied
      then (st, [])
      else if disabled.logged_in
      then opcd_session_logout disabled
      else (disabled, []) in
    (
      record st1 {
        ip_change_pending = false;
        ip_change_commit_armed = false;
        ip_change_list_no = 0;
        ip_change_armed_no = 0;
        ip_change_armed_entry = no_entry;
      },
      sent,
    )

unfoldable pub opcd_apply_pending_ip_change : Bool → State → State × List Datagram
opcd_apply_pending_ip_change applied st =
    if not st.ip_change_commit_armed then (st, []) else apply_armed applied st
