-- ===== src/Opcd/IpList.antt =====
-- opcd/handler.c: the loop of handle_set_ip_config_list that stages the entries of a request.
pub mod Cycle
pub mod Laws
use wlan_opc.Base.{
  ℕ, suc, ◌+◌, ◌-◌, ◌%◌, Bool, true, false, not, ◌&&◌, ◌||◌, List, [], ◌∷◌, ◌==◌, ltb,
  if◌then◌else◌, set,
}
use wlan_opc.Base.Bits.{test_bit}
use wlan_opc.Protocol.Commands.Records.{IpcfgEntry}
use wlan_opc.Opcd.State.{IpList, max_slots, no_entry, no_ip_list}
use wlan_opc.Opcd.Validators.{ipcfg_entry_error}

abbrev pub list_boundary_continue : ℕ
list_boundary_continue = 0

abbrev pub list_boundary_start : ℕ
list_boundary_start = 1

abbrev pub list_boundary_end : ℕ
list_boundary_end = 2

abbrev pub list_boundary_start_end : ℕ
list_boundary_start_end = 3

abbrev pub err_slot_range : ℕ
err_slot_range = 0x0010

abbrev pub err_list_sequence : ℕ
err_list_sequence = 0x0018

-- The local variables of the loop: the list to commit, the list being staged, and whether a
-- commit happened.
pub record Stage : Type 0 where
  pub candidate : IpList
  pub staging : IpList
  pub staging_active : Bool
  pub committed : Bool

-- The error of an entry, 0 for one that is taken.
unfoldable pub entry_error : IpcfgEntry → (essid_terminated active : Bool) → ℕ
entry_error e essid_terminated active =
    let verr = if e.ip_address == 0 then 0 else ipcfg_entry_error e essid_terminated in
    if ltb e.list_number 1 || ltb max_slots e.list_number
    then err_slot_range
    else if not (verr == 0)
    then verr
    else if (e.boundary_flag == list_boundary_start) || (e.boundary_flag == list_boundary_start_end)
    then 0
    else if not active
    then err_list_sequence
    else 0

-- A zero address clears the slot.
unfoldable pub write_slot : IpList → IpcfgEntry → IpList
write_slot l e =
    let slot = e.list_number - 1 in
    if e.ip_address == 0
    then record { slots = set l.slots slot no_entry; present = set l.present slot 0 }
    else record { slots = set l.slots slot e; present = set l.present slot 1 }

-- An entry that is taken: START seeds the staged list, END commits it.
unfoldable pub stage_entry : Stage → IpcfgEntry → Stage
stage_entry s e =
    let seeds =
      (e.boundary_flag == list_boundary_start) || (e.boundary_flag == list_boundary_start_end) in
    let ends =
      (e.boundary_flag == list_boundary_end) || (e.boundary_flag == list_boundary_start_end) in
    let staging = write_slot (if seeds then s.candidate else s.staging) e in
    if ends
    then record {
      candidate = staging;
      staging = no_ip_list;
      staging_active = false;
      committed = true;
    }
    else record s { staging = staging; staging_active = if seeds then true else s.staging_active }

-- The entries from the `i`-th on, up to the first error, which is 0 when there is none.
unfoldable pub stage_entries : Stage → (i mask : ℕ) → List IpcfgEntry → Stage × ℕ
stage_entries s i mask [] = (s, 0)
stage_entries s i mask (e ∷ es) =
    let err = entry_error e (test_bit mask i) s.staging_active in
    let rest = stage_entries (stage_entry s e) (i + 1) mask es in
    if err == 0 then rest else (s, err)
