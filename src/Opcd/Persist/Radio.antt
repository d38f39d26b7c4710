-- ===== src/Opcd/Persist/Radio.antt =====
-- opcd/handler.c: handle_set_radio_config with persist_radio. The marker file of a change under way
-- (radio_txn_arm, radio_txn_clear) is not state here: whether it could be written is an argument.
pub mod Completion
use wlan_opc.Base.{
  ℕ, ◌+◌, ◌%◌, ◌^◌, Bool, true, false, not, ◌&&◌, Option, none, some, List, [], ◌∷◌, Bytes, ◌==◌,
  if◌then◌else◌,
}
use wlan_opc.Protocol.Ids.{err_none, err_packet_size, req_set_radio_config}
use wlan_opc.Protocol.Commands.Records.{SetRadioConfigReq}
use wlan_opc.Protocol.Commands.Simple.{set_radio_config_ack_pack}
use wlan_opc.Protocol.Commands.Requests.{set_radio_config_req_unpack}
use wlan_opc.Opcd.State.{State, PendingAck, persist_radio, healthy, Datagram}
use wlan_opc.Opcd.Session.{Outcome, LoginCheck, ack_of, check_login_required, session_touch}
use wlan_opc.Opcd.IpChange.{persist_resource_busy}
use wlan_opc.Opcd.Persist.{
  Store, StoreOutcome, Persisted, Admission, replaced, persist_admit, persist_blob,
  radio_arm_revert, err_nvram,
}
use wlan_opc.Opcd.RadioChecks.{radio_error, radio_cfg_differs, radio_baseline_covers}

abbrev pub err_radio_apply : ℕ
err_radio_apply = 0x0050

-- What the platform and the marker file answer.
pub record RadioAnswers : Type 0 where
  pub capability : ℕ
  pub marker_written : Bool
  pub applied : Bool

-- The slot of a request of this client, with the generation that it writes.
unfoldable pub set_radio_gen : List PendingAck → (req_id ip port gen : ℕ) → List PendingAck
set_radio_gen [] req_id ip port gen = []
set_radio_gen (pa ∷ pas) req_id ip port gen =
    let rest = pa ∷ set_radio_gen pas req_id ip port gen in
    if pa.in_use && (pa.req_id == req_id) && (pa.client_ip == ip) && (pa.client_port == port)
    then record pa { radio_gen = gen } ∷ pas
    else rest

-- The platform took the configuration.
unfoldable pub publish_radio : State → SetRadioConfigReq → State
publish_radio st req = record st {
  radio = req;
  radio_applied_known = true;
  radio_recovery_state = healthy;
  radio_gen = (st.radio_gen + 1) % 2 ^ 32;
  radio_committed = false;
}

abbrev pub radio_pending : (ip port seq : ℕ) → PendingAck
radio_pending ip port seq = record {
  in_use = true;
  no_ack = false;
  resource = persist_radio;
  req_id = req_set_radio_config;
  seq = seq;
  radio_gen = 0;
  client_ip = ip;
  client_port = port;
}

-- The configuration published is written; `st` is the state before it was. The answer is none when it
-- waits for the write.
unfoldable pub write_radio :
    (now : ℕ) → Store → State → SetRadioConfigReq → (ip port seq : ℕ) → State × Option ℕ
write_radio now store st req ip port seq =
    let covers = radio_baseline_covers st req in
    let p = persist_blob store (publish_radio st req) (radio_pending ip port seq) in
    let s = p.state in
    if not p.ok
    then (
      session_touch now
          (if replaced p.outcome then s else radio_arm_revert s st.radio st.radio_committed covers),
      some err_nvram,
    )
    else if p.deferred
    then (
      session_touch now (record s {
        pending_acks = set_radio_gen s.pending_acks req_set_radio_config ip port s.radio_gen;
        radio_revert_cfg = st.radio;
        radio_revert_committed = st.radio_committed;
        radio_persist_baseline_valid = covers;
      }),
      none,
    )
    else (session_touch now (record s { radio_committed = true }), some err_none)

-- A request that differs from what is committed.
unfoldable pub apply_radio :
    (now : ℕ)
    → Store
    → RadioAnswers
    → State
    → SetRadioConfigReq
    → (ip port seq : ℕ) → State × Option ℕ
apply_radio now store answers st req ip port seq =
    let reverting =
      (if radio_cfg_differs req st.radio
        then radio_arm_revert st st.radio st.radio_committed (radio_baseline_covers st req)
        else st) in
    if not answers.marker_written
    then (session_touch now st, some err_nvram)
    else if not answers.applied
    then (session_touch now reverting, some err_radio_apply)
    else write_radio now store st req ip port seq

unfoldable pub radio_admission :
    (now : ℕ)
    → Store
    → RadioAnswers
    → State
    → List Datagram
    → Admission
    → SetRadioConfigReq
    → (ip port seq : ℕ) → State × List Datagram × Option ℕ
radio_admission now store answers st sent Admission.admission_busy req ip port seq =
    (session_touch now st, sent, none)
radio_admission now store answers st sent Admission.admission_failed req ip port seq =
    (st, sent, some err_nvram)
radio_admission now store answers st sent Admission.admission_ok req ip port seq =
    let (st1, answer) = apply_radio now store answers st req ip port seq in (st1, sent, answer)

-- The request of a client that holds the session.
unfoldable pub accept_radio :
    (now : ℕ)
    → Store
    → RadioAnswers
    → State
    → SetRadioConfigReq
    → (ip port seq : ℕ) → State × List Datagram × Option ℕ
accept_radio now store answers st req ip port seq =
    let (st1, sent, admission) = persist_admit store st persist_radio in
    let err = radio_error answers.capability req in
    if persist_resource_busy st.pending_acks persist_radio
    then (session_touch now st, [], none)
    else if not (err == 0)
    then (st, [], some err)
    else if st.radio_committed && not (radio_cfg_differs req st.radio)
    then (session_touch now st, [], some err_none)
    else radio_admission now store answers st1 sent admission req ip port seq

unfoldable pub radio_ack : (room seq : ℕ) → Option ℕ → Option Bytes
radio_ack room seq none = none
radio_ack room seq (some err) = set_radio_config_ack_pack room seq (ack_of err)

unfoldable pub handle_set_radio_config :
    (now room : ℕ) → Store → RadioAnswers → State → Bytes → (ip port seq : ℕ) → Outcome
handle_set_radio_config now room store answers st frame ip port seq =
    elim (set_radio_config_req_unpack frame) [
      | none ↦ record { state = st; sent = []; resp = radio_ack room seq (some err_packet_size) }
      | some req ↦ elim (check_login_required now st ip) [
        | LoginCheck.refused err ↦ record {
          state = st;
          sent = [];
          resp = radio_ack room seq (some err);
        }
        | LoginCheck.admitted st1 ↦
            let (st2, sent, answer) = accept_radio now store answers st1 req ip port seq in
            record { state = st2; sent = sent; resp = radio_ack room seq answer }
      ]
    ]
