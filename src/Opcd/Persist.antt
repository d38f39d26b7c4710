-- ===== src/Opcd/Persist.antt =====
-- opcd/handler.c: the admission of a write, its hand-over to the store, and its completion. What the
-- store and its writer thread (opcd/store.c, opcd/store_async.c) answer is an argument.
pub mod ListHandler
pub mod Password
pub mod Radio
pub mod Refused
pub mod Commit
use wlan_opc.Base.{
  ℕ, zero, suc, ◌+◌, ◌%◌, Bool, true, false, not, ◌&&◌, ◌||◌, Option, none, some, List, [], ◌∷◌,
  ◌++◌, Bytes, ◌==◌, if◌then◌else◌, get_elem?, set, zeros,
}
use wlan_opc.Protocol.Ids.{
  frame_max, req_set_password, req_set_ip_config_list, req_set_radio_config,
}
use wlan_opc.Protocol.Commands.Records.{Ack, SetRadioConfigReq}
use wlan_opc.Protocol.Commands.Simple.{
  set_password_ack_pack, set_ip_config_list_ack_pack, set_radio_config_ack_pack,
}
use wlan_opc.Opcd.State.{
  State, PendingAck, PersistResource, Datagram, no_ip_list, degraded_unknown_baseline,
  degraded_restore_failed, healthy,
}
use wlan_opc.Opcd.Validators.{strncmp_eq}
use wlan_opc.Opcd.Session.{ack_of}
use wlan_opc.Opcd.IpChange.{persist_resource_busy, arm_ip_change_from_committed}

abbrev pub err_nvram : ℕ
err_nvram = 0x0004

-- What a write did to the file.
pub data StoreOutcome : Type 0 where
  unchanged : StoreOutcome
  replaced_unsynced : StoreOutcome
  durable : StoreOutcome

-- A finished write; `ok` is the result 0. The token of the customer file's copy is above all slots.
pub record Done : Type 0 where
  pub token : ℕ
  pub ok : Bool
  pub outcome : StoreOutcome

-- Whether the write replaced the file.
abbrev pub is_durable : StoreOutcome → Bool
is_durable StoreOutcome.durable = true
is_durable _ = false

abbrev pub replaced : StoreOutcome → Bool
replaced StoreOutcome.unchanged = false
replaced _ = true

-- The first slot that is free.
unfoldable pub pending_ack_alloc : List PendingAck → Option ℕ
pending_ack_alloc [] = none
pending_ack_alloc (pa ∷ pas) =
    let rest = pending_ack_alloc pas in
    if not pa.in_use then some 0 else elim rest [ none ↦ none | some i ↦ some (suc i) ]

-- A slot waits for this request of this client.
unfoldable pub is_request_retransmission : List PendingAck → (req_id ip port : ℕ) → Bool
is_request_retransmission [] req_id ip port = false
is_request_retransmission (pa ∷ pas) req_id ip port =
    let rest = is_request_retransmission pas req_id ip port in
    if pa.in_use && (pa.req_id == req_id) && (pa.client_ip == ip) && (pa.client_port == port)
    then true
    else rest

unfoldable pub password_note_outcome : State → Bytes → StoreOutcome → State
password_note_outcome st candidate StoreOutcome.durable = record st {
  password_unsynced = false;
  password_unsynced_prev = zeros 128;
}
password_note_outcome st candidate StoreOutcome.replaced_unsynced =
    if not (strncmp_eq 127 candidate st.password)
    then record st { password_unsynced_prev = st.password; password_unsynced = true }
    else st
password_note_outcome st candidate StoreOutcome.unchanged = st

unfoldable pub radio_arm_revert :
    State → SetRadioConfigReq → (baseline_committed baseline_valid : Bool) → State
radio_arm_revert st baseline baseline_committed baseline_valid =
    if not baseline_valid
    then record st {
      radio_applied_known = false;
      radio_committed = false;
      radio_recovery_state = degraded_unknown_baseline;
    }
    else record st {
      radio_revert_cfg = baseline;
      radio_revert_committed = baseline_committed;
      radio_revert_pending = true;
    }

-- `applied` is whether the platform took the configuration, none when there is no platform.
unfoldable pub opcd_radio_revert_drain : Option Bool → State → State
opcd_radio_revert_drain applied st =
    let failed = record st {
      radio_revert_pending = false;
      radio_applied_known = false;
      radio_committed = false;
      radio_recovery_state = degraded_restore_failed;
    } in
    if not st.radio_revert_pending then st else elim applied [
      | none ↦ failed
      | some false ↦ failed
      | some true ↦ record st {
        radio = st.radio_revert_cfg;
        radio_committed = st.radio_revert_committed;
        radio_applied_known = true;
        radio_recovery_state = healthy;
        radio_revert_pending = false;
      }
    ]

unfoldable pub complete_password : State → StoreOutcome → State
complete_password st outcome =
    let noted = password_note_outcome st st.pending_password outcome in
    let st1 = if replaced outcome then record noted { password = st.pending_password } else noted in
    record st1 { pending_password = zeros 128 }

-- The list written becomes the list in effect; the staged list only in the session that sent it.
unfoldable pub take_ip_list : State → State
take_ip_list st =
    let same =
      st.logged_in && (st.session_generation == st.pending_ip_staging_session_generation) in
    record st {
      ip_list = st.pending_ip_list;
      ip_list_staging = if same then st.pending_ip_staging else st.ip_list_staging;
      ip_list_staging_active =
          if same then st.pending_ip_staging_active else st.ip_list_staging_active;
    }

-- The change that a Logout left to be decided.
unfoldable pub decide_ip_change : State → State
decide_ip_change st =
    let st1 = record st { ip_change_logout_deferred = false } in
    if st.ip_change_logout_deferred
    then if st.ip_change_pending && not st.ip_change_commit_armed
      then arm_ip_change_from_committed st1
      else st1
    else st

unfoldable pub complete_ip_list : State → StoreOutcome → State
complete_ip_list st outcome =
    let st1 = if replaced outcome then take_ip_list st else st in
    decide_ip_change (record st1 {
      pending_ip_list = no_ip_list;
      pending_ip_staging = no_ip_list;
      pending_ip_staging_active = false;
      pending_ip_staging_session_generation = 0;
    })

-- Of the last radio configuration only.
unfoldable pub complete_radio : Option Bool → State → (radio_gen : ℕ) → StoreOutcome → State
complete_radio applied st radio_gen outcome =
    let reverted = opcd_radio_revert_drain applied (
      radio_arm_revert (record st { radio_committed = false }) st.radio_revert_cfg
        st.radio_revert_committed st.radio_persist_baseline_valid) in
    let st1 = if not (radio_gen == st.radio_gen) then st else elim outcome [
      | StoreOutcome.durable ↦ record st { radio_committed = true }
      | StoreOutcome.replaced_unsynced ↦ record st { radio_committed = false }
      | StoreOutcome.unchanged ↦ reverted
    ] in
    record st1 { radio_persist_baseline_valid = false }

unfoldable pub complete_resource : State → PersistResource → StoreOutcome → State
complete_resource st PersistResource.persist_password outcome = complete_password st outcome
complete_resource st PersistResource.persist_ip_list outcome = complete_ip_list st outcome
complete_resource st _ outcome = st

-- The answer to the request that waited, none for a request that has none.
unfoldable pub deferred_ack : PendingAck → Ack → Option Bytes
deferred_ack pa ack =
    if pa.req_id == req_set_password
    then set_password_ack_pack frame_max pa.seq ack
    else if pa.req_id == req_set_ip_config_list
    then set_ip_config_list_ack_pack frame_max pa.seq ack
    else if pa.req_id == req_set_radio_config
    then set_radio_config_ack_pack frame_max pa.seq ack
    else none

-- `sendto` of a response.
unfoldable pub send_ack : State → PendingAck → Option Bytes → List Datagram
send_ack st pa none = []
send_ack st pa (some frame) =
    if not pa.no_ack && st.udp_open
    then record { dst_ip = pa.client_ip; dst_port = pa.client_port; payload = frame } ∷ []
    else []

abbrev pub release : PendingAck → PendingAck
release pa = record pa { in_use = false }

-- One finished write that an acknowledgment waits for.
unfoldable pub complete_ack :
    Option Bool → State → ℕ → PendingAck → Bool → StoreOutcome → State × List Datagram
complete_ack applied st token pa ok outcome =
    let ack = ack_of (if ok then 0 else err_nvram) in
    let st1 = complete_resource st pa.resource outcome in
    let st2 =
      if pa.req_id == req_set_radio_config
      then complete_radio applied st1 pa.radio_gen outcome
      else st1 in
    (
      record st2 { pending_acks = set st2.pending_acks token (release pa) },
      send_ack st2 pa (deferred_ack pa ack),
    )

unfoldable pub complete : Option Bool → State → Done → State × List Datagram
complete applied st d = elim (get_elem? st.pending_acks d.token) [
  | none ↦ (st, [])
  | some pa ↦ if not pa.in_use then (st, []) else complete_ack applied st d.token pa d.ok d.outcome
]

unfoldable pub complete_all : Option Bool → State → List Done → State × List Datagram
complete_all applied st [] = (st, [])
complete_all applied st (d ∷ ds) =
    let (st1, sent) = complete applied st d in
    let (st2, more) = complete_all applied st1 ds in (st2, sent ++ more)

-- `dones` is what the store has finished.
unfoldable pub opcd_store_async_on_ready : Option Bool → State → List Done → State × List Datagram
opcd_store_async_on_ready applied st dones =
    if not st.store_attached then (st, []) else complete_all applied st dones

-- What the store answers to a reservation: taken, EAGAIN, or another error.
pub data Reserve : Type 0 where
  reserved : Reserve
  again : Reserve
  broken : Reserve

pub data Admission : Type 0 where
  admission_ok : Admission
  admission_busy : Admission
  admission_failed : Admission

-- What the store and the platform answer during one request.
pub record Store : Type 0 where
  pub first : Reserve
  pub second : Reserve
  pub dones : List Done
  pub radio_applied : Option Bool
  pub submitted : Bool
  pub written : Bool
  pub outcome : StoreOutcome

-- One attempt to reserve; none is to try again.
unfoldable pub admit_attempt : State → PersistResource → Reserve → Option Admission
admit_attempt st resource answer =
    if persist_resource_busy st.pending_acks resource
    then some admission_busy
    else elim (pending_ack_alloc st.pending_acks) [
      | none ↦ none
      | some slot ↦ elim answer [
        | Reserve.reserved ↦ some admission_ok
        | Reserve.again ↦ none
        | Reserve.broken ↦ some admission_failed
      ]
    ]

-- The attempt's answer, or what follows when there is none.
abbrev pub admit_or :
    Option Admission
    → State
    → List Datagram
    → State × List Datagram × Admission
    → State × List Datagram × Admission
admit_or none st sent later = later
admit_or (some a) st sent later = (st, sent, a)

-- Two attempts, with the finished writes taken in between.
unfoldable pub persist_admit : Store → State → PersistResource → State × List Datagram × Admission
persist_admit store st resource =
    let (st1, sent) = opcd_store_async_on_ready store.radio_applied st store.dones in
    let second =
      admit_or (admit_attempt st1 resource store.second) st1 sent (st1, sent, admission_busy) in
    if not st.store_attached
    then (st, [], admission_ok)
    else admit_or (admit_attempt st resource store.first) st [] second

-- The result of the hand-over: `ok` is the result 0.
pub record Persisted : Type 0 where
  pub state : State
  pub ok : Bool
  pub deferred : Bool
  pub outcome : StoreOutcome

unfoldable pub persist_blob : Store → State → PendingAck → Persisted
persist_blob store st pa =
    if not st.store_attached
    then record { state = st; ok = store.written; deferred = false; outcome = store.outcome }
    else elim (pending_ack_alloc st.pending_acks) [
      | none ↦ record { state = st; ok = false; deferred = false; outcome = unchanged }
      | some slot ↦
          if not store.submitted
          then record { state = st; ok = false; deferred = false; outcome = unchanged }
          else record {
            state = record st { pending_acks = set st.pending_acks slot pa };
            ok = true;
            deferred = true;
            outcome = unchanged;
          }
    ]
