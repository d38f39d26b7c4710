-- ===== src/Opcd/Session.antt =====
-- opcd/handler.c: the login session, and the handlers of Login, GetBasicInfo and Reset. `room` is
-- the capacity of the response buffer, `now` the monotonic clock, and a response of none is the
-- length 0, where nothing is sent back.
pub mod Laws
use wlan_opc.Base.{
  ℕ, ◌+◌, ◌-◌, ◌%◌, Bool, true, false, not, ◌&&◌, ◌||◌, Option, none, some, List, [], ◌∷◌, Bytes,
  ◌==◌, ◌/=◌, if◌then◌else◌,
}
use wlan_opc.Protocol.Ids.{
  result_ok, result_ng, err_none, err_login_violation, err_login_condition, err_packet_size,
  req_get_basic_info,
}
use wlan_opc.Protocol.Codec.{byte_at}
use wlan_opc.Protocol.Commands.Records.{Date, Ack, GetBasicInfoAck, LoginReq}
use wlan_opc.Protocol.Commands.Simple.{
  simple_ack_pack, login_ack_pack, get_basic_info_req_unpack, reset_ack_pack, reset_req_unpack,
}
use wlan_opc.Protocol.Commands.Requests.{login_req_unpack, get_basic_info_ack_pack}
use wlan_opc.Opcd.State.{
  State, Datagram, device_booting, device_ready, device_logged_in, init_state_logged_in,
  init_state_logged_out, no_ip_list, opcd_ind_init_complete,
}
use wlan_opc.Opcd.Validators.{valid_opc_charset, strncmp_eq}

-- The state after a request, the indications sent, and the response.
pub record Outcome : Type 0 where
  pub state : State
  pub sent : List Datagram
  pub resp : Option Bytes

-- opcd/inventory.h, the part that GetBasicInfo reports.
pub record Inventory : Type 0 where
  pub vendor_code : ℕ
  pub product_code : ℕ
  pub product_subcode : ℕ
  pub hardware_version : Bytes
  pub serial_number : Bytes
  pub manufacture_date : Date
  pub shipment_date : Date
  pub ieee_11r : ℕ
  pub ieee_11ai : ℕ
  pub ieee_11k : ℕ
  pub ieee_11v : ℕ

unfoldable pub session_touch : ℕ → State → State
session_touch now st = record st { idle_deadline = now + st.login_idle_s }

unfoldable pub session_owns : State → ℕ → Bool
session_owns st client_ip = st.logged_in && (st.holder_ip == client_ip)

unfoldable pub effective_station_type : State → ℕ
effective_station_type st =
    if st.radio.station_type /= 0 then st.radio.station_type else st.default_station_type

pub data LoginCheck : Type 0 where
  admitted : State → LoginCheck
  refused : ℕ → LoginCheck

-- Admitted with the idle time restarted, or refused with an error cause and nothing changed.
unfoldable pub check_login_required : ℕ → State → ℕ → LoginCheck
unfolding session_touch session_owns
check_login_required now st client_ip =
    if not st.logged_in
    then refused err_login_violation
    else if not (session_owns st client_ip)
    then refused err_login_condition
    else admitted (session_touch now st)

unfoldable pub opcd_session_logout : State → State × List Datagram
unfolding opcd_ind_init_complete
opcd_session_logout st =
    let (st1, sent) = opcd_ind_init_complete st init_state_logged_out in
    (
      record st1 {
        session_generation = (st1.session_generation + 1) % 4294967296;
        logged_in = false;
        boot_status = device_ready;
        ip_list_staging_active = false;
        ip_list_staging = no_ip_list;
      },
      sent,
    )

abbrev pub err_pw_nul : ℕ
err_pw_nul = 0x0012

abbrev pub err_login_pw_char : ℕ
err_login_pw_char = 0x0011

abbrev pub err_password_mismatch : ℕ
err_password_mismatch = 0x0010

-- The error cause of a Login, 0 for one that succeeds. The comparison leaves out the last byte of
-- the 128.
unfoldable pub login_error : State → Option LoginReq → ℕ → ℕ
unfolding valid_opc_charset strncmp_eq
login_error st none ip = err_packet_size
login_error st (some req) ip =
    if st.boot_status == device_booting
    then err_login_violation
    else if st.logged_in && (st.holder_ip /= ip)
    then err_login_condition
    else if not req.password_terminated
    then err_pw_nul
    else if not (valid_opc_charset req.password)
    then err_login_pw_char
    else if byte_at st.password 0 == 0
    then err_password_mismatch
    else if not (strncmp_eq 127 req.password st.password)
    then err_password_mismatch
    else err_none

-- The session fields once the password is accepted.
unfoldable pub login_session : State → (ip port : ℕ) → State
login_session st ip port = record st {
  session_generation =
      if st.logged_in then st.session_generation else (st.session_generation + 1) % 4294967296;
  logged_in = true;
  holder_ip = ip;
  holder_port = port;
  boot_status = device_logged_in;
}

-- A fresh session drops a change that the last one left pending and not armed.
unfoldable pub login_drop_change : (was_active : Bool) → State → State
login_drop_change was_active st =
    if not was_active && not st.ip_change_commit_armed && not st.ip_change_logout_deferred
    then record st {
      ip_change_pending = false;
      ip_change_list_no = 0;
      ip_change_commit_armed = false;
    }
    else st

unfoldable pub login_accept : ℕ → State → (ip port : ℕ) → State × List Datagram
unfolding session_touch opcd_ind_init_complete login_drop_change login_session
login_accept now st ip port =
    opcd_ind_init_complete
      (session_touch now (login_drop_change st.logged_in (login_session st ip port)))
      init_state_logged_in

-- Result and ErrorCause of a simple acknowledgment.
abbrev pub ack_of : ℕ → Ack
ack_of err = record { result = if err == 0 then result_ok else result_ng; error_cause = err }

unfoldable pub handle_login : (now room : ℕ) → State → Bytes → (ip port seq : ℕ) → Outcome
unfolding login_error login_accept
handle_login now room st frame ip port seq =
    let err = login_error st (login_req_unpack frame) ip in
    let (st1, sent) = login_accept now st ip port in
    if err == 0
    then record { state = st1; sent = sent; resp = login_ack_pack room seq (ack_of err) }
    else record { state = st; sent = []; resp = login_ack_pack room seq (ack_of err) }

unfoldable pub pack_basic_info_ack : Inventory → State → (room seq : ℕ) → Option Bytes
unfolding effective_station_type
pack_basic_info_ack inv st room seq = get_basic_info_ack_pack room seq (record {
  vendor_code = inv.vendor_code;
  product_code = inv.product_code;
  product_subcode = inv.product_subcode;
  device_status = st.boot_status;
  station_type = effective_station_type st;
})

unfoldable pub handle_get_basic_info :
    Inventory → (now room : ℕ) → State → Bytes → (ip port seq : ℕ) → Outcome
unfolding session_owns session_touch pack_basic_info_ack
handle_get_basic_info inv now room st frame ip port seq =
    let st1 = if session_owns st ip then session_touch now st else st in
    elim (get_basic_info_req_unpack frame) [
      | none ↦ record {
        state = st;
        sent = [];
        resp = simple_ack_pack room req_get_basic_info seq 60 result_ng err_packet_size;
      }
      | some _ ↦ record { state = st1; sent = []; resp = pack_basic_info_ack inv st1 room seq }
    ]

unfoldable pub handle_reset : (now room : ℕ) → State → Bytes → (ip port seq : ℕ) → Outcome
unfolding check_login_required
handle_reset now room st frame ip port seq = elim (reset_req_unpack frame) [
  | none ↦ record { state = st; sent = []; resp = reset_ack_pack room seq (ack_of err_packet_size) }
  | some _ ↦ elim (check_login_required now st ip) [
    | refused err ↦ record { state = st; sent = []; resp = reset_ack_pack room seq (ack_of err) }
    | admitted st1 ↦ record {
      state = record st1 { should_reset = true };
      sent = [];
      resp = reset_ack_pack room seq (ack_of err_none);
    }
  ]
]
