-- ===== src/Opcd/Machine/ConfigSafe.antt =====
-- The invariant over SetIndicationConfig.
use wlan_opc.Base.{
  ℕ, inl, inr, Bool, not, ◌||◌, Option, List, [], Bytes, ◌==◌, ◌/=◌, Bool-cases, Option-cases,
}
use wlan_opc.Protocol.Commands.Records.{SetIndicationConfigReq}
use wlan_opc.Protocol.Commands.Requests.{set_indication_config_req_unpack}
use wlan_opc.Opcd.State.{State, Datagram, init_state_logged_in}
use wlan_opc.Opcd.Session.{check_login_required, session_touch}
use wlan_opc.Opcd.IndicationConfig.{
  opcd_ind_radio_up, opcd_ind_coalesce_reset, indication_config_error, configure_indications,
  is_associated, and_then, notify_enabled, take_indication_config, handle_set_indication_config,
  init_state_ready, init_state_radio_up,
}
use wlan_opc.Opcd.Machine.Safe.{
  IsSafe, init_complete-IsSafe, check_login_required-IsSafe, either_sending-IsSafe,
}
use wlan_opc.Opcd.Machine.Requests.{LoginCheck-cases}

pub opcd_ind_radio_up-IsSafe : {st : State} → IsSafe st → IsSafe (opcd_ind_radio_up st).0
unfolding opcd_ind_radio_up
opcd_ind_radio_up-IsSafe {st} h =
    either_sending-IsSafe (not st.indication_enabled || st.radio_up_reported) (st, []) _ h
      (init_complete-IsSafe (record { lists = h.lists }) init_state_radio_up)

and_then-IsSafe :
    (first : State × List Datagram) (then_send : State → State × List Datagram)
    → IsSafe first.0
    → ((st : State) → IsSafe st → IsSafe (then_send st).0)
    → IsSafe (and_then first then_send).0
unfolding and_then
and_then-IsSafe first then_send h k = k first.0 h

notify_enabled-IsSafe :
    (mono_now : ℕ) (link : Option Bool) {st : State}
    → IsSafe st
    → IsSafe (notify_enabled mono_now link st).0
unfolding notify_enabled
notify_enabled-IsSafe mono_now link {st} h =
    and_then-IsSafe _ _
      (and_then-IsSafe _ _ (init_complete-IsSafe h init_state_ready) (λ st1 h1.
        either_sending-IsSafe (is_associated mono_now link st1) _ (st1, [])
          (opcd_ind_radio_up-IsSafe h1) h1))
      (λ st2 h2.
        either_sending-IsSafe st2.logged_in _ (st2, [])
          (init_complete-IsSafe h2 init_state_logged_in) h2)

take_indication_config-IsSafe :
    (now mono_now : ℕ) (link : Option Bool) (req : SetIndicationConfigReq) {st : State}
    → IsSafe st
    → IsSafe (take_indication_config now mono_now link st req).0
unfolding take_indication_config session_touch opcd_ind_coalesce_reset configure_indications
take_indication_config-IsSafe now mono_now link req {st} h =
    let st1 = session_touch now (opcd_ind_coalesce_reset (configure_indications st req)) in
    let h1 : IsSafe st1 = record { lists = h.lists } in
    either_sending-IsSafe (req.info_bits /= 0) _ (st1, []) (notify_enabled-IsSafe mono_now link h1)
      h1

pub handle_set_indication_config-IsSafe :
    (now mono_now room : ℕ) (route : ℕ → Option ℕ) (link : Option Bool) {st : State} (frame : Bytes)
    (ip seq : ℕ)
    → IsSafe st
    → IsSafe (handle_set_indication_config now mono_now room route link st frame ip seq).state
unfolding handle_set_indication_config
handle_set_indication_config-IsSafe now mono_now room route link {st} frame ip seq h =
    elim (Option-cases (set_indication_config_req_unpack frame)) [
      | inl u ↦ rw (u, handle_set_indication_config) h
      | inr (req, u) ↦ elim (LoginCheck-cases (check_login_required now st ip)) [
        | inr (err, r) ↦ rw (u, r, handle_set_indication_config) h
        | inl (st1, a) ↦
            let h1 = check_login_required-IsSafe h now ip a in
            let taken = take_indication_config-IsSafe now mono_now link req h1 in
            elim (Bool-cases (indication_config_error route req == 0)) [
              | inl ok ↦ rw (u, a, ok, handle_set_indication_config) taken
              | inr bad ↦ rw (u, a, bad, handle_set_indication_config) h1
            ]
      ]
    ]
