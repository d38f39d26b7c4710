-- ===== src/Opcd/Persist/Password.antt =====
-- opcd/handler.c: handle_set_password with persist_password.
pub mod Laws
use wlan_opc.Base.{
  ℕ, ◌+◌, ◌-◌, Bool, true, false, not, ◌&&◌, ◌||◌, Option, none, some, List, [], ◌++◌, Bytes, ◌==◌,
  if◌then◌else◌, take, zeros,
}
use wlan_opc.Protocol.Ids.{err_none, err_packet_size, req_set_password}
use wlan_opc.Protocol.CString.{bounded_strnlen}
use wlan_opc.Protocol.Commands.Records.{SetPasswordReq}
use wlan_opc.Protocol.Commands.Simple.{set_password_ack_pack}
use wlan_opc.Protocol.Commands.Requests.{set_password_req_unpack}
use wlan_opc.Opcd.State.{State, PendingAck, persist_password, Datagram}
use wlan_opc.Opcd.Validators.{valid_opc_charset, strncmp_eq}
use wlan_opc.Opcd.Session.{
  Outcome, LoginCheck, ack_of, check_login_required, session_touch, err_pw_nul,
  err_password_mismatch,
}
use wlan_opc.Opcd.IpChange.{persist_resource_busy}
use wlan_opc.Opcd.Persist.{
  Store, Persisted, Admission, replaced, password_note_outcome, persist_admit, persist_blob,
  err_nvram,
}

abbrev pub err_new_pw_nul : ℕ
err_new_pw_nul = 0x0014

abbrev pub err_old_pw_char : ℕ
err_old_pw_char = 0x0011

abbrev pub err_new_pw_char : ℕ
err_new_pw_char = 0x0013

-- The request was taken before, and its write was not confirmed.
unfoldable pub password_resend_of_unsynced : State → SetPasswordReq → Bool
password_resend_of_unsynced st req =
    st.password_unsynced
    && strncmp_eq 127 req.old_password st.password_unsynced_prev
    && strncmp_eq 127 req.new_password st.password

-- The error cause of the values, 0 for a request that is taken.
unfoldable pub set_password_error : State → SetPasswordReq → ℕ
set_password_error st req =
    if not req.old_password_terminated
    then err_pw_nul
    else if not req.new_password_terminated
    then err_new_pw_nul
    else if not (valid_opc_charset req.old_password)
    then err_old_pw_char
    else if (bounded_strnlen req.new_password 127 == 0) || not (valid_opc_charset req.new_password)
    then err_new_pw_char
    else if not (strncmp_eq 127 req.old_password st.password)
        && not (password_resend_of_unsynced st req)
    then err_password_mismatch
    else err_none

-- The 128 bytes of the new password.
unfoldable pub candidate_of : SetPasswordReq → Bytes
candidate_of req =
    let newlen = bounded_strnlen req.new_password 127 in
    take newlen req.new_password ++ zeros (128 - newlen)

-- A write that was handed over, or done at once.
unfoldable pub take_password : Persisted → Bytes → State
take_password p candidate =
    let noted = password_note_outcome p.state candidate p.outcome in
    if p.deferred
    then record p.state { pending_password = candidate }
    else if replaced p.outcome
    then record noted { password = candidate }
    else noted

-- The state, and the error cause to answer with, none when the answer waits for the write.
unfoldable pub write_password :
    (now : ℕ) → Store → State → Bytes → (ip port seq : ℕ) → State × Option ℕ
write_password now store st candidate ip port seq =
    let pa : PendingAck = record {
      in_use = true;
      no_ack = false;
      resource = persist_password;
      req_id = req_set_password;
      seq = seq;
      radio_gen = 0;
      client_ip = ip;
      client_port = port;
    } in
    let p = persist_blob store (session_touch now st) pa in
    (
      take_password p candidate,
      if p.deferred then none else some (if p.ok then err_none else err_nvram),
    )

unfoldable pub password_admission :
    (now : ℕ)
    → Store
    → State
    → List Datagram
    → Admission
    → Bytes
    → (ip port seq : ℕ) → State × List Datagram × Option ℕ
password_admission now store st sent Admission.admission_busy c ip port seq =
    (session_touch now st, sent, none)
password_admission now store st sent Admission.admission_failed c ip port seq =
    (st, sent, some err_nvram)
password_admission now store st sent Admission.admission_ok c ip port seq =
    let (st1, answer) = write_password now store st c ip port seq in (st1, sent, answer)

-- The request of a client that holds the session.
unfoldable pub accept_password :
    (now : ℕ)
    → Store
    → State
    → SetPasswordReq
    → (ip port seq : ℕ) → State × List Datagram × Option ℕ
accept_password now store st req ip port seq =
    let (st1, sent, admission) = persist_admit store st persist_password in
    if persist_resource_busy st.pending_acks persist_password
    then (session_touch now st, [], none)
    else if not (set_password_error st req == 0)
    then (st, [], some (set_password_error st req))
    else password_admission now store st1 sent admission (candidate_of req) ip port seq

unfoldable pub password_ack : (room seq : ℕ) → Option ℕ → Option Bytes
password_ack room seq none = none
password_ack room seq (some err) = set_password_ack_pack room seq (ack_of err)

unfoldable pub handle_set_password :
    (now room : ℕ) → Store → State → Bytes → (ip port seq : ℕ) → Outcome
handle_set_password now room store st frame ip port seq = elim (set_password_req_unpack frame) [
  | none ↦ record { state = st; sent = []; resp = password_ack room seq (some err_packet_size) }
  | some req ↦ elim (check_login_required now st ip) [
    | LoginCheck.refused err ↦ record {
      state = st;
      sent = [];
      resp = password_ack room seq (some err);
    }
    | LoginCheck.admitted st1 ↦
        let (st2, sent, answer) = accept_password now store st1 req ip port seq in
        record { state = st2; sent = sent; resp = password_ack room seq answer }
  ]
]
