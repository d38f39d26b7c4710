-- ===== src/Opcd/IplistLoad/Start.antt =====
-- opcd/handler.c: the address list that the daemon starts with (iplist_convert_legacy,
-- iplist_load_own, opcd_iplist_load). The files are part of the state; how a write of one ends and
-- whether a rename works are arguments. Log messages are not modelled.
use wlan_opc.Base.{
  ℕ, Bool, true, false, not, ◌&&◌, Option, none, some, Bytes, length, ltb, if◌then◌else◌,
}
use wlan_opc.Opcd.State.{IpList, no_ip_list}
use wlan_opc.Opcd.RadioChecks.{same_bytes}
use wlan_opc.Opcd.Persist.{is_durable, StoreOutcome, replaced}
use wlan_opc.Opcd.IplistText.{text_max, opc_iplist_text_format}
use wlan_opc.Opcd.IplistLoad.{iplist_from_text, recheck_lists}

abbrev pub import_max : ℕ
import_max = 65536

-- A file: absent, not there to stat for another reason, not readable, or with its bytes.
pub data File : Type 0 where
  absent : File
  no_stat : File
  unreadable : File
  holds : Bytes → File

-- The binary file: what can be read of it.
pub data LegacyFile : Type 0 where
  legacy_absent : LegacyFile
  legacy_unreadable : LegacyFile
  legacy_wrong_size : LegacyFile
  legacy_list : IpList → LegacyFile

pub record Files : Type 0 where
  pub own : File
  pub legacy : LegacyFile
  -- The binary was written after the text and has the size of a list.
  pub legacy_newer : Bool
  pub user_path : Bool
  pub user : File
  pub user_last_path : Bool
  pub user_last : File

-- How the writes and renames of one start end.
pub record Endings : Type 0 where
  pub converted : StoreOutcome
  pub retired : Bool
  pub own : StoreOutcome
  pub user : StoreOutcome
  pub user_last : StoreOutcome
  pub moved : Bool

pub data IplistLoad : Type 0 where
  load_none : IplistLoad
  load_text : IplistLoad
  load_too_large : IplistLoad
  load_error : IplistLoad
  load_migrated : IplistLoad
  load_legacy_unsaved : IplistLoad
  load_legacy_discard : IplistLoad

pub data IplistUser : Type 0 where
  user_unset : IplistUser
  user_created : IplistUser
  user_applied : IplistUser
  user_kept : IplistUser
  user_rejected : IplistUser
  user_unusable : IplistUser

pub record Loaded : Type 0 where
  pub files : Files
  pub ip_list : IpList
  pub own : IplistLoad

-- What a file is after a write of `text`.
abbrev pub write_atomic : File → Bytes → StoreOutcome → File
write_atomic file text o = if replaced o then holds text else file

abbrev pub holds_same : File → Bytes → Bool
holds_same (holds cur) text = same_bytes cur text
holds_same _ text = false

-- The file, and whether it holds the list.
unfoldable pub iplist_write : File → IpList → (skip_if_same : Bool) → StoreOutcome → File × Bool
iplist_write file l skip_if_same o = elim (opc_iplist_text_format l text_max) [
  | none ↦ (file, false)
  | some text ↦
      if skip_if_same && holds_same file text
      then (file, true)
      else (write_atomic file text o, is_durable o)
]

unfoldable pub iplist_retire_legacy : Files → (retired : Bool) → Files
iplist_retire_legacy fs retired = if retired then record fs { legacy = legacy_absent } else fs

unfoldable pub convert_list : Files → Endings → IpList → Loaded
convert_list fs e l =
    let list = recheck_lists 0 l.slots l.present in
    let (own, written) = iplist_write fs.own list false e.converted in
    let fs1 = record fs { own = own } in
    if written
    then record { files = iplist_retire_legacy fs1 e.retired; ip_list = list; own = load_migrated }
    else record { files = fs1; ip_list = list; own = load_legacy_unsaved }

unfoldable pub convert_file : Files → Endings → LegacyFile → Loaded
convert_file fs e (legacy_list l) = convert_list fs e l
convert_file fs e legacy_wrong_size = record {
  files = fs;
  ip_list = no_ip_list;
  own = load_legacy_discard;
}
convert_file fs e legacy_unreadable = record { files = fs; ip_list = no_ip_list; own = load_none }
convert_file fs e legacy_absent = record { files = fs; ip_list = no_ip_list; own = load_none }

abbrev pub iplist_convert_legacy : Files → Endings → Loaded
iplist_convert_legacy fs e = convert_file fs e fs.legacy

-- The list of a text is all there is when it has none.
abbrev pub list_or_none : Option IpList → IpList
list_or_none none = no_ip_list
list_or_none (some l) = l

unfoldable pub load_text_file : Files → File → Loaded
load_text_file fs (holds text) =
    if ltb text_max (length text)
    then record { files = fs; ip_list = no_ip_list; own = load_too_large }
    else record {
      files = fs;
      ip_list = list_or_none (iplist_from_text false text);
      own = load_text;
    }
load_text_file fs _ = record { files = fs; ip_list = no_ip_list; own = load_error }

abbrev pub is_converted : IplistLoad → Bool
is_converted load_migrated = true
is_converted load_legacy_unsaved = true
is_converted _ = false

abbrev pub legacy_there : LegacyFile → Bool
legacy_there legacy_absent = false
legacy_there _ = true

-- With a text: a binary that is newer goes first, an older one is set aside.
unfoldable pub load_with_text : Files → Endings → Loaded
load_with_text fs e =
    let converted = iplist_convert_legacy fs e in
    if not (legacy_there fs.legacy)
    then load_text_file fs fs.own
    else if fs.legacy_newer
    then (if is_converted converted.own then converted else load_text_file converted.files fs.own)
    else load_text_file (iplist_retire_legacy fs e.retired) fs.own

unfoldable pub load_own_file : Files → Endings → File → Loaded
load_own_file fs e absent = iplist_convert_legacy fs e
load_own_file fs e no_stat = record { files = fs; ip_list = no_ip_list; own = load_error }
load_own_file fs e unreadable = load_with_text fs e
load_own_file fs e (holds text) = load_with_text fs e

abbrev pub iplist_load_own : Files → Endings → Loaded
iplist_load_own fs e = load_own_file fs e fs.own

unfoldable pub iplist_write_user : Files → Endings → IpList → Files
iplist_write_user fs e l = elim (opc_iplist_text_format l text_max) [
  | none ↦ fs
  | some text ↦
      let fs1 = record fs { user = write_atomic fs.user text e.user } in
      if replaced e.user && fs.user_last_path
      then record fs1 { user_last = write_atomic fs.user_last text e.user_last }
      else fs1
]

unfoldable pub iplist_user_unreplaced : Files → Bytes → Bool
iplist_user_unreplaced fs text = fs.user_last_path && holds_same fs.user_last text

unfoldable pub iplist_same : IpList → IpList → Bool
iplist_same a b = elim (opc_iplist_text_format a text_max) [
  | none ↦ false
  | some ta ↦ elim (opc_iplist_text_format b text_max) [ none ↦ false | some tb ↦ same_bytes ta tb ]
]

abbrev pub own_read : IplistLoad → Bool
own_read load_text = true
own_read load_migrated = true
own_read load_legacy_unsaved = true
own_read _ = false

-- A customer file that is valid: it is the list, unless the daemon wrote it.
unfoldable pub take_user : Loaded → Endings → Bytes → IpList → Loaded × IplistUser
take_user l e text list =
    let fs = l.files in
    let (own, written) = iplist_write fs.own list true e.own in
    if own_read l.own && iplist_user_unreplaced fs text
    then (
      if iplist_same list l.ip_list
          then l
          else record l { files = iplist_write_user fs e l.ip_list },
      user_kept,
    )
    else (
      record l {
        files = record fs {
          own = own;
          user_last =
              if written && fs.user_last_path
              then write_atomic fs.user_last text e.user_last
              else fs.user_last;
        };
        ip_list = list;
      },
      user_applied,
    )

-- One that is not: it is set aside, and the list in effect is written in its place.
unfoldable pub reject_user : Loaded → Endings → Loaded × IplistUser
reject_user l e =
    let fs = (if e.moved then record l.files { user = absent } else l.files) in
    (record l { files = iplist_write_user fs e l.ip_list }, user_rejected)

unfoldable pub load_user : Loaded → Endings → File → Loaded × IplistUser
load_user l e absent = (record l { files = iplist_write_user l.files e l.ip_list }, user_created)
load_user l e no_stat = (l, user_unusable)
load_user l e unreadable = (l, user_unusable)
load_user l e (holds text) =
    if ltb import_max (length text) then reject_user l e else elim (iplist_from_text true text) [
      | none ↦ reject_user l e
      | some list ↦ take_user l e text list
    ]

unfoldable pub opcd_iplist_load : Files → Endings → Loaded × IplistUser
opcd_iplist_load fs e =
    let l = iplist_load_own fs e in if fs.user_path then load_user l e fs.user else (l, user_unset)
