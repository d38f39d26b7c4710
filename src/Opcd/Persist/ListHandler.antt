-- ===== src/Opcd/Persist/ListHandler.antt =====
-- opcd/handler.c: handle_set_ip_config_list with persist_ip_list.
use wlan_opc.Base.{
  ℕ, true, false, not, ◌&&◌, Option, none, some, List, [], Bytes, ◌==◌, if◌then◌else◌,
}
use wlan_opc.Protocol.Ids.{err_packet_size, req_set_ip_config_list}
use wlan_opc.Protocol.Commands.Records.{SetIpConfigListReq}
use wlan_opc.Protocol.Commands.Simple.{set_ip_config_list_ack_pack}
use wlan_opc.Protocol.Commands.IpConfig.{UnpackResult, set_ip_config_list_req_unpack}
use wlan_opc.Opcd.IplistText.{text_max, opc_iplist_text_format}
use wlan_opc.Opcd.State.{IpList, State, PendingAck, persist_ip_list, Datagram}
use wlan_opc.Opcd.Session.{Outcome, LoginCheck, ack_of, check_login_required, session_touch}
use wlan_opc.Opcd.IpList.{Stage, stage_entries}
use wlan_opc.Opcd.Persist.{
  Store, Persisted, Admission, unchanged, replaced, is_request_retransmission, persist_admit,
  persist_blob, err_nvram,
}

abbrev pub err_ipcfg_list_size : ℕ
err_ipcfg_list_size = 0x0017

unfoldable pub persist_list : Store → State → (candidate : IpList) → PendingAck → Persisted
persist_list store st candidate pa = elim (opc_iplist_text_format candidate text_max) [
  | none ↦ record { state = st; ok = false; deferred = false; outcome = unchanged }
  | some text ↦ persist_blob store st pa
]

-- The staged values wait for the write, or are taken when it is done, or are dropped.
unfoldable pub take_commit : Persisted → Stage → State
take_commit p s =
    if p.deferred
    then record p.state {
      pending_ip_list = s.candidate;
      pending_ip_staging = s.staging;
      pending_ip_staging_active = s.staging_active;
      pending_ip_staging_session_generation = p.state.session_generation;
    }
    else if replaced p.outcome
    then record p.state {
      ip_list = s.candidate;
      ip_list_staging = s.staging;
      ip_list_staging_active = s.staging_active;
    }
    else p.state

-- The state, and the error cause to answer with, none when the answer waits for the write.
unfoldable pub commit_list : Store → State → Stage → (err ip port seq : ℕ) → State × Option ℕ
commit_list store st s err ip port seq =
    let pa : PendingAck = record {
      in_use = true;
      no_ack = not (err == 0);
      resource = persist_ip_list;
      req_id = req_set_ip_config_list;
      seq = seq;
      radio_gen = 0;
      client_ip = ip;
      client_port = port;
    } in
    let p = persist_list store st s.candidate pa in
    let answer = if not p.ok && (err == 0) then err_nvram else err in
    if not s.committed
    then (
      record st { ip_list_staging = s.staging; ip_list_staging_active = s.staging_active },
      some err,
    )
    else (take_commit p s, if p.deferred && (err == 0) then none else some answer)

-- The lists that a request starts from.
unfoldable pub initial_stage : State → Stage
initial_stage st = record {
  candidate = st.ip_list;
  staging = st.ip_list_staging;
  staging_active = st.ip_list_staging_active;
  committed = false;
}

-- A request that was admitted.
unfoldable pub stage_request :
    (now : ℕ) → Store → State → SetIpConfigListReq → (ip port seq : ℕ) → State × Option ℕ
stage_request now store st req ip port seq =
    let (s, err) = stage_entries (initial_stage st) 0 req.essid_terminated_mask req.entries in
    commit_list store (session_touch now st) s err ip port seq

-- What follows the admission; a request that is not taken now is left to be sent again.
unfoldable pub after_admission :
    (now : ℕ)
    → Store
    → State
    → List Datagram
    → Admission
    → SetIpConfigListReq
    → (ip port seq : ℕ) → State × List Datagram × Option ℕ
after_admission now store st sent Admission.admission_busy req ip port seq =
    (session_touch now st, sent, none)
after_admission now store st sent Admission.admission_failed req ip port seq =
    (st, sent, some err_nvram)
after_admission now store st sent Admission.admission_ok req ip port seq =
    let (st1, answer) = stage_request now store st req ip port seq in (st1, sent, answer)

-- The request of a client that holds the session.
unfoldable pub accept_list :
    (now : ℕ)
    → Store
    → State
    → SetIpConfigListReq
    → (ip port seq : ℕ) → State × List Datagram × Option ℕ
accept_list now store st req ip port seq =
    let (st1, sent, admission) = persist_admit store st persist_ip_list in
    if is_request_retransmission st.pending_acks req_set_ip_config_list ip port
    then (session_touch now st, [], none)
    else after_admission now store st1 sent admission req ip port seq

unfoldable pub list_ack : (room seq : ℕ) → Option ℕ → Option Bytes
list_ack room seq none = none
list_ack room seq (some err) = set_ip_config_list_ack_pack room seq (ack_of err)

unfoldable pub handle_set_ip_config_list :
    (now room : ℕ) → Store → State → Bytes → (ip port seq : ℕ) → Outcome
handle_set_ip_config_list now room store st frame ip port seq =
    elim (set_ip_config_list_req_unpack frame) [
      | UnpackResult.list_size ↦ record {
        state = st;
        sent = [];
        resp = list_ack room seq (some err_ipcfg_list_size);
      }
      | UnpackResult.malformed ↦ record {
        state = st;
        sent = [];
        resp = list_ack room seq (some err_packet_size);
      }
      | UnpackResult.ok req ↦ elim (check_login_required now st ip) [
        | LoginCheck.refused err ↦ record {
          state = st;
          sent = [];
          resp = list_ack room seq (some err);
        }
        | LoginCheck.admitted st1 ↦
            let (st2, sent, answer) = accept_list now store st1 req ip port seq in
            record { state = st2; sent = sent; resp = list_ack room seq answer }
      ]
    ]
