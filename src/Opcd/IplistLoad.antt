-- ===== src/Opcd/IplistLoad.antt =====
-- opcd/handler.c: the address list that a text or a binary file holds, with the checks of its values
-- (iplist_from_text, iplist_convert_legacy). Log messages are not modelled.
pub mod Start
pub mod Sound
pub mod RoundTrip
pub mod Restart
use wlan_opc.Base.{
  ℕ, ◌+◌, ◌≡◌, Bool, true, false, not, ◌&&◌, ◌||◌, Option, none, some, List, [], ◌∷◌, Bytes, length,
  ◌==◌, ◌/=◌, ltb, if◌then◌else◌, ◌>>=◌,
}
use wlan_opc.Protocol.CString.{has_nul}
use wlan_opc.Protocol.Commands.Records.{IpcfgEntry}
use wlan_opc.Opcd.State.{IpList, no_entry, no_ip_list}
use wlan_opc.Opcd.Validators.{ipcfg_entry_error, err_ipcfg_ip}
use wlan_opc.Opcd.RadioChecks.{same_bytes}
use wlan_opc.Opcd.Persist.{StoreOutcome, replaced, durable, unchanged}
use wlan_opc.Opcd.IplistText.{key_all, opc_iplist_text_format}
use wlan_opc.Opcd.IplistText.Parse.{IplistText, strip_prefix, opc_iplist_text_parse}

-- A UTF-8 byte order mark in front is left out.
abbrev pub without_bom : Bytes → Bytes
without_bom s = elim (strip_prefix (0xEF ∷ 0xBB ∷ 0xBF ∷ []) s) [ none ↦ s | some rest ↦ rest ]

-- A list that the text names is refused: a line of it is malformed, a key is missing, or a value is
-- rejected. An address 0 is an unset list, whose values are not checked.
unfoldable pub list_rejected : IpcfgEntry → (keys : ℕ) → (bad : Bool) → Bool
list_rejected e keys bad =
    bad || ((keys /= key_all) || ((e.ip_address /= 0) && (ipcfg_entry_error e true /= 0)))

-- Slot `i` in front of the slots behind it.
abbrev pub slot_cons : IpcfgEntry → ℕ → IpList → IpList
slot_cons e p l = record { slots = e ∷ l.slots; present = p ∷ l.present }

abbrev pub kept_entry : ℕ → IpcfgEntry → IpcfgEntry
kept_entry i e = record e { boundary_flag = 0; list_number = i + 1 }

-- The slots from the `i`-th on.
unfoldable pub take_lists :
    (strict : Bool) → (i : ℕ) → List IpcfgEntry → List ℕ → List Bool → Option IpList
take_lists strict i [] ks bs = some (record { slots = []; present = [] })
take_lists strict i (e ∷ es) [] bs = some (record { slots = []; present = [] })
take_lists strict i (e ∷ es) (k ∷ ks) [] = some (record { slots = []; present = [] })
take_lists strict i (e ∷ es) (k ∷ ks) (b ∷ bs) =
    let rest = take_lists strict (i + 1) es ks bs in
    if (k == 0) && not b
    then (rest >>= λ l. some (slot_cons no_entry 0 l))
    else if list_rejected e k b
    then (if strict then none else (rest >>= λ l. some (slot_cons no_entry 0 l)))
    else if e.ip_address == 0
    then (rest >>= λ l. some (slot_cons no_entry 0 l))
    else (rest >>= λ l. some (slot_cons (kept_entry i e) 1 l))

unfoldable pub iplist_from_text : (strict : Bool) → Bytes → Option IpList
iplist_from_text strict s =
    let t = opc_iplist_text_parse (without_bom s) in
    if (t.first_error_line /= 0) && strict then none else take_lists strict 0 t.entry t.keys t.bad

-- The lists of the binary file of older versions, each checked again.
unfoldable pub recheck_lists : (i : ℕ) → List IpcfgEntry → List ℕ → IpList
recheck_lists i [] ps = record { slots = []; present = [] }
recheck_lists i (e ∷ es) [] = record { slots = []; present = [] }
recheck_lists i (e ∷ es) (p ∷ ps) =
    let rest = recheck_lists (i + 1) es ps in
    let verr =
      (if e.ip_address == 0 then err_ipcfg_ip else ipcfg_entry_error e (has_nul 32 e.essid)) in
    if (p == 0) || (verr /= 0) then slot_cons no_entry 0 rest else slot_cons (kept_entry i e) 1 rest
