-- ===== src/Opcd/IplistLoad/Restart.antt =====
-- The list that the daemon starts with.
use wlan_opc.Base.{
  ℕ, zero, suc, ◌+◌, ◌≤◌, ◌≡◌, ◌≢◌, refl, sym, ◌∙◌, ap, ◌⊎◌, inl, inr, Bool, true, false, ◌&&◌,
  ◌||◌, some, List, [], ◌∷◌, Bytes, length, get_or, ◌==◌, ◌/=◌, ltb, if◌then◌else◌, Bool-cases,
  Option-cases, arith,
}
use wlan_opc.Protocol.Commands.Records.{IpcfgEntry}
use wlan_opc.Protocol.CString.{has_nul}
use wlan_opc.Opcd.State.{IpList, no_entry}
use wlan_opc.Opcd.Validators.{ipcfg_entry_error, err_ipcfg_ip}
use wlan_opc.Opcd.IpList.Laws.{IsSound, no_ip_list-IsSound}
use wlan_opc.Opcd.IplistText.{text_max, opc_iplist_text_format}
use wlan_opc.Opcd.IplistLoad.{iplist_from_text, recheck_lists, kept_entry}
use wlan_opc.Opcd.IplistLoad.Sound.{
  IsChecked, nil-IsChecked, cons-IsChecked, kept_entry_error, iplist_from_text-IsSound,
}
use wlan_opc.Opcd.IplistLoad.RoundTrip.{IsNarrow, stored_lists, iplist_from_text-format}
use wlan_opc.Opcd.IplistLoad.Start.{
  import_max, File, absent, no_stat, unreadable, holds, LegacyFile, legacy_absent,
  legacy_unreadable, legacy_wrong_size, legacy_list, Files, Endings, Loaded, user_applied,
  convert_list, convert_file, iplist_convert_legacy, iplist_write, load_text_file, load_with_text,
  load_own_file, iplist_load_own, is_converted, legacy_there, own_read, iplist_user_unreplaced,
  iplist_same, take_user, reject_user, load_user, opcd_iplist_load, iplist_retire_legacy,
}

terminated_error :
    (e : IpcfgEntry) (t : Bool) → ipcfg_entry_error e t ≡ 0 → ipcfg_entry_error e true ≡ 0
unfolding ipcfg_entry_error
terminated_error e true h = h
terminated_error e false h = ground arith

recheck_lists-IsChecked :
    (n i : ℕ) (es : List IpcfgEntry) (ps : List ℕ)
    → length es ≡ n
    → length ps ≡ n
    → IsChecked n (recheck_lists i es ps)
unfolding recheck_lists
recheck_lists-IsChecked zero i [] ps a b = nil-IsChecked
recheck_lists-IsChecked zero i (e ∷ es) ps a b = absurd (omega arith)
recheck_lists-IsChecked (suc n) i [] ps a b = absurd (omega arith)
recheck_lists-IsChecked (suc n) i (e ∷ es) [] a b = absurd (omega arith)
recheck_lists-IsChecked (suc n) i (e ∷ es) (p ∷ ps) a b =
    let ih = recheck_lists-IsChecked n (i + 1) es ps (omega arith) (omega arith) in
    let rest = recheck_lists (i + 1) es ps in
    let verr =
      (if e.ip_address == 0 then err_ipcfg_ip else ipcfg_entry_error e (has_nul 32 e.essid)) in
    elim (Bool-cases ((p == 0) || (verr /= 0))) [
      | inl dropped ↦ simp dropped (cons-IsChecked n 0 no_entry rest (λ h. absurd (h refl)) ih)
      | inr taken ↦
          let ok : ipcfg_entry_error e (has_nul 32 e.essid) ≡ 0 = ground arith in
          simp taken (
            cons-IsChecked n 1 (kept_entry i e) rest
              (λ h. kept_entry_error i e (terminated_error e (has_nul 32 e.essid) ok)) ih)
    ]

-- A binary file that is read has the size of a list.
abbrev pub IsSized : LegacyFile → Type 0
IsSized (legacy_list l) = (length l.slots ≡ 128) × (length l.present ≡ 128)
IsSized _ = Unit

convert_list-IsSound :
    (fs : Files) (e : Endings) (l : IpList)
    → length l.slots ≡ 128
    → length l.present ≡ 128
    → IsSound (convert_list fs e l).ip_list
unfolding convert_list
convert_list-IsSound fs e l a b =
    let c = recheck_lists-IsChecked 128 0 l.slots l.present a b in
    let sound : IsSound (recheck_lists 0 l.slots l.present) = record {
      slots_len = c.slots_len;
      present_len = c.present_len;
      valid = c.valid;
    } in
    elim (Bool-cases
      (iplist_write fs.own (recheck_lists 0 l.slots l.present) false e.converted).1) [
        | inl written ↦ simp written sound
        | inr unsaved ↦ simp unsaved sound
      ]

convert_file-IsSound :
    (fs : Files) (e : Endings) (f : LegacyFile) → IsSized f → IsSound (convert_file fs e f).ip_list
unfolding convert_file
convert_file-IsSound fs e legacy_absent s = no_ip_list-IsSound
convert_file-IsSound fs e legacy_unreadable s = no_ip_list-IsSound
convert_file-IsSound fs e legacy_wrong_size s = no_ip_list-IsSound
convert_file-IsSound fs e (legacy_list l) s = convert_list-IsSound fs e l s.0 s.1

load_text_file-IsSound : (fs : Files) (f : File) → IsSound (load_text_file fs f).ip_list
unfolding load_text_file
load_text_file-IsSound fs absent = no_ip_list-IsSound
load_text_file-IsSound fs no_stat = no_ip_list-IsSound
load_text_file-IsSound fs unreadable = no_ip_list-IsSound
load_text_file-IsSound fs (holds text) = elim (Bool-cases (ltb text_max (length text))) [
  | inl large ↦ simp large no_ip_list-IsSound
  | inr fits ↦ elim (Option-cases (iplist_from_text false text)) [
    | inl refused ↦ simp (fits, refused) no_ip_list-IsSound
    | inr (l, read) ↦ simp (fits, read) (iplist_from_text-IsSound false text l read)
  ]
]

load_with_text-IsSound :
    (fs : Files) (e : Endings) → IsSized fs.legacy → IsSound (load_with_text fs e).ip_list
unfolding load_with_text
load_with_text-IsSound fs e s = elim (Bool-cases (legacy_there fs.legacy)) [
  | inr alone ↦ simp alone (load_text_file-IsSound fs fs.own)
  | inl there ↦ elim (Bool-cases fs.legacy_newer) [
    | inr older ↦
        simp (there, older) (load_text_file-IsSound (iplist_retire_legacy fs e.retired) fs.own)
    | inl newer ↦ elim (Bool-cases (is_converted (iplist_convert_legacy fs e).own)) [
      | inl converted ↦ simp (there, newer, converted) (convert_file-IsSound fs e fs.legacy s)
      | inr not_read ↦
          simp (there, newer, not_read)
            (load_text_file-IsSound (iplist_convert_legacy fs e).files fs.own)
    ]
  ]
]

load_own_file-IsSound :
    (fs : Files) (e : Endings) (f : File)
    → IsSized fs.legacy
    → IsSound (load_own_file fs e f).ip_list
unfolding load_own_file
load_own_file-IsSound fs e absent s = convert_file-IsSound fs e fs.legacy s
load_own_file-IsSound fs e no_stat s = no_ip_list-IsSound
load_own_file-IsSound fs e unreadable s = load_with_text-IsSound fs e s
load_own_file-IsSound fs e (holds text) s = load_with_text-IsSound fs e s

-- The list after the customer's file: the list before it, unless that file was applied.
take_user-cases :
    (l : Loaded) (e : Endings) (text : Bytes) (list : IpList)
    → ((take_user l e text list).0.ip_list ≡ l.ip_list)
      ⊎ (((take_user l e text list).0.ip_list ≡ list)
          × ((take_user l e text list).1 ≡ user_applied))
unfolding take_user
take_user-cases l e text list =
    elim (Bool-cases (own_read l.own && iplist_user_unreplaced l.files text)) [
      | inr replaced_by ↦ inr (simp replaced_by (refl, refl))
      | inl kept ↦ elim (Bool-cases (iplist_same list l.ip_list)) [
        | inl same ↦ inl (simp (kept, same) refl)
        | inr differs ↦ inl (simp (kept, differs) refl)
      ]
    ]

load_user-cases :
    (l : Loaded) (e : Endings) (f : File)
    → ((load_user l e f).0.ip_list ≡ l.ip_list)
      ⊎ ((text : Bytes) × (list : IpList) × (f ≡ holds text)
          × (iplist_from_text true text ≡ some list)
          × ((load_user l e f).0.ip_list ≡ list)
          × ((load_user l e f).1 ≡ user_applied))
unfolding load_user reject_user
load_user-cases l e absent = inl refl
load_user-cases l e no_stat = inl refl
load_user-cases l e unreadable = inl refl
load_user-cases l e (holds text) = elim (Bool-cases (ltb import_max (length text))) [
  | inl large ↦ inl (simp large refl)
  | inr fits ↦ elim (Option-cases (iplist_from_text true text)) [
    | inl refused ↦ inl (simp (fits, refused) refl)
    | inr (list, read) ↦ elim (take_user-cases l e text list) [
      | inl same ↦ inl (simp (fits, read) same)
      | inr (a, b) ↦ inr (text, list, refl, read, simp (fits, read) a, simp (fits, read) b)
    ]
  ]
]

-- Whatever the files hold and however the writes end, the daemon starts with a sound list: every slot
-- that is present holds an entry that passes every check of SetIpConfigList. A binary file that is
-- read has 128 slots.
pub opcd_iplist_load-IsSound :
    (fs : Files) (e : Endings) → IsSized fs.legacy → IsSound (opcd_iplist_load fs e).0.ip_list
unfolding opcd_iplist_load
opcd_iplist_load-IsSound fs e s =
    let own = load_own_file-IsSound fs e fs.own s in
    elim (Bool-cases fs.user_path) [
      | inr unset ↦ simp unset own
      | inl set_path ↦ elim (load_user-cases (iplist_load_own fs e) e fs.user) [
        | inl same ↦ simp set_path (rw same own)
        | inr (text, list, at, read, eq, verdict) ↦
            simp set_path (rw eq (iplist_from_text-IsSound true text list read))
      ]
    ]

load_with_text_alone :
    (fs : Files) (e : Endings)
    → fs.legacy ≡ legacy_absent
    → load_with_text fs e ≡ load_text_file fs fs.own
unfolding load_with_text
load_with_text_alone fs e alone = rw alone refl

load_text_file_read :
    (fs : Files) (text : Bytes) (l : IpList)
    → length text ≤ 24576
    → iplist_from_text false text ≡ some l
    → (load_text_file fs (holds text)).ip_list ≡ l
unfolding load_text_file
load_text_file_read fs text l size read =
    let fits : ltb text_max (length text) ≡ false = ground arith in simp (fits, read) refl

load_own_read :
    (fs : Files) (e : Endings) (text : Bytes) (l : IpList)
    → fs.own ≡ holds text
    → fs.legacy ≡ legacy_absent
    → length text ≤ 24576
    → iplist_from_text false text ≡ some l
    → (iplist_load_own fs e).ip_list ≡ l
unfolding load_own_file
load_own_read fs e text l own alone size read =
    ap (λ (f : File). (load_own_file fs e f).ip_list) own
    ∙ ap (λ (d : Loaded). d.ip_list) (load_with_text_alone fs e alone)
    ∙ ap (λ (f : File). (load_text_file fs f).ip_list) own
    ∙ load_text_file_read fs text l size read

-- A sound list that the daemon has written as its own copy, without a binary file of an older version,
-- is in effect after the next start, however the writes of that start end, unless the customer's file
-- is applied; then the list is the one that the strict rules read from that file.
pub opcd_iplist_load-format :
    (l : IpList) (fs : Files) (e : Endings) (text : Bytes)
    → IsSound l
    → ((j : ℕ) → get_or l.present j 0 ≢ 0 → IsNarrow (get_or l.slots j no_entry))
    → opc_iplist_text_format l 24576 ≡ some text
    → fs.own ≡ holds text
    → fs.legacy ≡ legacy_absent
    → ((opcd_iplist_load fs e).0.ip_list ≡ stored_lists 0 l.slots l.present)
      ⊎ ((user : Bytes) × (fs.user ≡ holds user)
          × (iplist_from_text true user ≡ some (opcd_iplist_load fs e).0.ip_list)
          × ((opcd_iplist_load fs e).1 ≡ user_applied))
unfolding opcd_iplist_load
opcd_iplist_load-format l fs e text sound narrow written own alone =
    let (text', written', size, read) = iplist_from_text-format l false sound narrow in
    let same : text' ≡ text = cc in
    let kept =
      load_own_read fs e text (stored_lists 0 l.slots l.present) own alone (rw same at size)
        (rw same at read) in
    elim (Bool-cases fs.user_path) [
      | inr unset ↦ inl (simp unset kept)
      | inl set_path ↦ elim (load_user-cases (iplist_load_own fs e) e fs.user) [
        | inl unchanged_list ↦ inl (simp set_path (unchanged_list ∙ kept))
        | inr (user, list, at, strict, eq, verdict) ↦
            inr (user, at, simp set_path (strict ∙ ap some (sym eq)), simp set_path verdict)
      ]
    ]
