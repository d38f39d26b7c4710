-- ===== src/Opcd/IndicationConfig.antt =====
-- opcd/handler.c: handle_set_indication_config with indication_recipient_reachable, and the functions
-- of opcd/indication.c that it calls.
pub mod Laws
use wlan_opc.Base.{
  ℕ, ◌+◌, ◌-◌, ◌/◌, Bool, true, false, not, ◌&&◌, ◌||◌, Option, none, some, List, [], ◌++◌, Bytes,
  ◌==◌, ◌/=◌, if◌then◌else◌, ltb, leb, replicate,
}
use Prim.Native.Nat.{bit_and, bit_or}
use wlan_opc.Protocol.Ids.{err_none, err_packet_size}
use wlan_opc.Protocol.Commands.Records.{SetIndicationConfigReq}
use wlan_opc.Protocol.Commands.Simple.{set_indication_config_ack_pack}
use wlan_opc.Protocol.Commands.Requests.{set_indication_config_req_unpack}
use wlan_opc.Opcd.State.{State, Datagram, no_coalesce, opcd_ind_init_complete, init_state_logged_in}
use wlan_opc.Opcd.FaultProbe.{fault_probe_reset_latch}
use wlan_opc.Opcd.Validators.{valid_unicast_ipv4}
use wlan_opc.Opcd.Session.{Outcome, LoginCheck, ack_of, check_login_required, session_touch}

abbrev pub err_ind_bits : ℕ
err_ind_bits = 0x0010

abbrev pub err_ind_recipient_ip : ℕ
err_ind_recipient_ip = 0x0012

abbrev pub ind_bits_reserved : ℕ
ind_bits_reserved = 0x40

abbrev pub init_state_ready : ℕ
init_state_ready = 1

abbrev pub init_state_radio_up : ℕ
init_state_radio_up = 2

-- Seconds for which the last association event is trusted.
abbrev pub assoc_latch_ttl_s : ℕ
assoc_latch_ttl_s = 5

-- `route` is the platform's lookup_direct_route: the netmask of a route without a gateway.
unfoldable pub indication_recipient_reachable : (route : ℕ → Option ℕ) → ℕ → Bool
indication_recipient_reachable route ip = if ip / 16777216 == 127 then true else elim (route ip) [
  | none ↦ false
  | some mask ↦ not (ltb mask 0xFFFFFFFE && (ip == bit_or ip (0xFFFFFFFF - mask)))
]

unfoldable pub opcd_ind_radio_up : State → State × List Datagram
opcd_ind_radio_up st =
    if not st.indication_enabled || st.radio_up_reported
    then (st, [])
    else opcd_ind_init_complete (record st { radio_up_reported = true }) init_state_radio_up

unfoldable pub opcd_ind_coalesce_reset : State → State
opcd_ind_coalesce_reset st = record st {
  indication_coalesce = replicate 2 no_coalesce;
  fault_probe = fault_probe_reset_latch st.fault_probe;
}

-- The error cause of the values, 0 for a request that is taken.
unfoldable pub indication_config_error : (route : ℕ → Option ℕ) → SetIndicationConfigReq → ℕ
indication_config_error route req =
    if not (bit_and req.info_bits ind_bits_reserved == 0)
    then err_ind_bits
    else if (req.info_bits /= 0)
        && (not (valid_unicast_ipv4 req.recipient_ip)
            || not (indication_recipient_reachable route req.recipient_ip))
    then err_ind_recipient_ip
    else err_none

unfoldable pub configure_indications : State → SetIndicationConfigReq → State
configure_indications st req = record st {
  indication_enabled = req.info_bits /= 0;
  indication_recipient_ip = req.recipient_ip;
  indication_recipient_port = req.recipient_port;
  indication_info_bits = req.info_bits;
  indication_period_s = req.period_seconds;
  indication_tick_counter = 0;
  radio_up_reported = false;
}

-- `mono_now` is the monotonic clock and `link` what get_link reports, none when it fails.
unfoldable pub is_associated : (mono_now : ℕ) → (link : Option Bool) → State → Bool
is_associated mono_now link st =
    if st.wlan0_assoc_known && leb (mono_now - st.wlan0_assoc_at) assoc_latch_ttl_s
    then st.wlan0_assoc
    else elim link [ none ↦ false | some associated ↦ associated ]

-- Two calls in a row, with what both send.
unfoldable pub and_then :
    State × List Datagram → (State → State × List Datagram) → State × List Datagram
and_then first then_send = ((then_send first.0).0, first.1 ++ (then_send first.0).1)

-- The notices on enabling: ready, associated, logged in.
unfoldable pub notify_enabled :
    (mono_now : ℕ) → (link : Option Bool) → State → State × List Datagram
notify_enabled mono_now link st =
    let ready = opcd_ind_init_complete st init_state_ready in
    let up =
      and_then ready
        (λ st1. if is_associated mono_now link st1 then opcd_ind_radio_up st1 else (st1, [])) in
    and_then up
      (λ st2. if st2.logged_in then opcd_ind_init_complete st2 init_state_logged_in else (st2, []))

-- The request of a client that holds the session, when its values are taken.
unfoldable pub take_indication_config :
    (now mono_now : ℕ)
    → (link : Option Bool) → State
    → SetIndicationConfigReq
    → State × List Datagram
take_indication_config now mono_now link st req =
    let st1 = session_touch now (opcd_ind_coalesce_reset (configure_indications st req)) in
    if st1.indication_enabled then notify_enabled mono_now link st1 else (st1, [])

unfoldable pub handle_set_indication_config :
    (now mono_now room : ℕ)
    → (route : ℕ → Option ℕ) → (link : Option Bool) → State
    → Bytes
    → (ip seq : ℕ) → Outcome
handle_set_indication_config now mono_now room route link st frame ip seq =
    let pack = set_indication_config_ack_pack room seq in
    elim (set_indication_config_req_unpack frame) [
      | none ↦ record { state = st; sent = []; resp = pack (ack_of err_packet_size) }
      | some req ↦ elim (check_login_required now st ip) [
        | LoginCheck.refused err ↦ record { state = st; sent = []; resp = pack (ack_of err) }
        | LoginCheck.admitted st1 ↦
            let err = indication_config_error route req in
            let (st2, sent) = take_indication_config now mono_now link st1 req in
            if err == 0
            then record { state = st2; sent = sent; resp = pack (ack_of err_none) }
            else record { state = st1; sent = []; resp = pack (ack_of err) }
      ]
    ]
