-- ===== src/Opcd/IndicationConfig/Laws.antt =====
-- Where the notices of SetIndicationConfig go.
use wlan_opc.Base.{
  ℕ, ◌≡◌, refl, inl, inr, Bool, true, false, Option, none, some, List, [], ◌∷◌, ◌++◌, Bytes, ◌==◌,
  ==_iff, ◌/=◌, if◌then◌else◌, Bool-cases, All, ◌≢◌, ◌⊎◌, arith, not, ◌||◌,
}
use Prim.Native.Nat.{bit_and}
use wlan_opc.Protocol.Commands.Records.{SetIndicationConfigReq}
use wlan_opc.Protocol.Commands.Requests.{set_indication_config_req_unpack}
use wlan_opc.Opcd.State.{
  State, Datagram, send_indication_frame, next_seq, opcd_ind_init_complete, ind_bit_init_complete,
  init_state_logged_in,
}
use wlan_opc.Opcd.Validators.{valid_unicast_ipv4}
use wlan_opc.Opcd.Session.{session_owns, session_touch}
use wlan_opc.Opcd.IpChange.Pipeline.{check_login_required_holder}
use wlan_opc.Opcd.IndicationConfig.{
  indication_recipient_reachable, opcd_ind_radio_up, opcd_ind_coalesce_reset,
  indication_config_error, configure_indications, is_associated, and_then, notify_enabled,
  take_indication_config, handle_set_indication_config, init_state_ready, init_state_radio_up,
}

-- The recipient of a state.
record IsRecipient (ip port : ℕ) (st : State) : Type 0 where
  address : st.indication_recipient_ip ≡ ip
  at_port : st.indication_recipient_port ≡ port

-- What sends notices: the recipient stays, and they go to it.
record IsAddressed (ip port : ℕ) (p : State × List Datagram) : Type 0 where
  recipient : IsRecipient ip port p.0
  sent : All (λ d. (d.dst_ip ≡ ip) × (d.dst_port ≡ port)) p.1

All-append {ℓ κ} :
    {A : Type ℓ} (P : A → Type κ) (xs ys : List A) → All P xs → All P ys → All P (xs ++ ys)
All-append P [] ys hx hy = hy
All-append P (x ∷ xs) ys (h, hx) hy = (h, All-append P xs ys hx hy)

send_indication_frame-All :
    (st : State) (frame : Option Bytes) (ip port : ℕ)
    → IsRecipient ip port st
    → All (λ d. (d.dst_ip ≡ ip) × (d.dst_port ≡ port)) (send_indication_frame st frame)
unfolding send_indication_frame
send_indication_frame-All st none ip port h = tt
send_indication_frame-All st (some frame) ip port h =
    elim (Bool-cases (not st.indication_enabled || not st.udp_open)) [
      | inl off ↦ simp off tt
      | inr on ↦
          elim (Bool-cases
            ((st.indication_recipient_ip == 0) || (st.indication_recipient_port == 0))) [
              | inl unset ↦ simp (on, unset) tt
              | inr set ↦ simp (on, set) ((h.address, h.at_port), tt)
            ]
    ]

opcd_ind_init_complete-IsAddressed :
    (st : State) (status ip port : ℕ)
    → IsRecipient ip port st
    → IsAddressed ip port (opcd_ind_init_complete st status)
unfolding opcd_ind_init_complete next_seq
opcd_ind_init_complete-IsAddressed st status ip port h =
    elim (Bool-cases (bit_and st.indication_info_bits ind_bit_init_complete == 0)) [
      | inl e ↦ simp e (record { recipient = h; sent = tt })
      | inr e ↦ simp e (record {
        recipient = record { address = h.address; at_port = h.at_port };
        sent =
            send_indication_frame-All _ _ ip port
              (record { address = h.address; at_port = h.at_port });
      })
    ]

opcd_ind_radio_up-IsAddressed :
    (st : State) (ip port : ℕ) → IsRecipient ip port st → IsAddressed ip port (opcd_ind_radio_up st)
unfolding opcd_ind_radio_up
opcd_ind_radio_up-IsAddressed st ip port h =
    let up =
      opcd_ind_init_complete-IsAddressed (record st { radio_up_reported = true })
        init_state_radio_up ip port (record { address = h.address; at_port = h.at_port }) in
    elim (Bool-cases (not st.indication_enabled || st.radio_up_reported)) [
      | inl e ↦ simp e (record { recipient = h; sent = tt })
      | inr e ↦ simp e up
    ]

either-IsAddressed :
    (b : Bool) (st : State) (p : State × List Datagram) (ip port : ℕ)
    → IsRecipient ip port st
    → IsAddressed ip port p
    → IsAddressed ip port (if b then p else (st, []))
either-IsAddressed true st p ip port h k = k
either-IsAddressed false st p ip port h k = record { recipient = h; sent = tt }

and_then-IsAddressed :
    (ip port : ℕ) (first : State × List Datagram) (then_send : State → State × List Datagram)
    → IsAddressed ip port first
    → ((st : State) → IsRecipient ip port st → IsAddressed ip port (then_send st))
    → IsAddressed ip port (and_then first then_send)
unfolding and_then
and_then-IsAddressed ip port first then_send h k =
    let rest = k first.0 h.recipient in
    record { recipient = rest.recipient; sent = All-append _ _ _ h.sent rest.sent }

notify_enabled-IsAddressed :
    (mono_now : ℕ) (link : Option Bool) (st : State) (ip port : ℕ)
    → IsRecipient ip port st
    → IsAddressed ip port (notify_enabled mono_now link st)
unfolding notify_enabled
notify_enabled-IsAddressed mono_now link st ip port h =
    and_then-IsAddressed ip port _ _
      (and_then-IsAddressed ip port _ _
        (opcd_ind_init_complete-IsAddressed st init_state_ready ip port h)
        (λ st1 h1.
          either-IsAddressed (is_associated mono_now link st1) st1 _ ip port h1
            (opcd_ind_radio_up-IsAddressed st1 ip port h1)))
      (λ st2 h2.
        either-IsAddressed st2.logged_in st2 _ ip port h2
          (opcd_ind_init_complete-IsAddressed st2 init_state_logged_in ip port h2))

take_indication_config-IsAddressed :
    (now mono_now : ℕ) (link : Option Bool) (st : State) (req : SetIndicationConfigReq)
    → IsAddressed req.recipient_ip req.recipient_port
        (take_indication_config now mono_now link st req)
unfolding take_indication_config session_touch opcd_ind_coalesce_reset configure_indications
take_indication_config-IsAddressed now mono_now link st req =
    let st1 = session_touch now (opcd_ind_coalesce_reset (configure_indications st req)) in
    let here : IsRecipient req.recipient_ip req.recipient_port st1 = record {
      address = refl;
      at_port = refl;
    } in
    either-IsAddressed (req.info_bits /= 0) st1 _ req.recipient_ip req.recipient_port here
      (notify_enabled-IsAddressed mono_now link st1 req.recipient_ip req.recipient_port here)

-- A recipient that indications may be sent to.
pub record IsDeliverable (route : ℕ → Option ℕ) (ip : ℕ) : Type 0 where
  pub unicast : valid_unicast_ipv4 ip ≡ true
  pub reachable : indication_recipient_reachable route ip ≡ true

indication_config_error-IsDeliverable :
    (route : ℕ → Option ℕ) (req : SetIndicationConfigReq)
    → indication_config_error route req ≡ 0
    → req.info_bits ≢ 0
    → IsDeliverable route req.recipient_ip
unfolding indication_config_error
indication_config_error-IsDeliverable route req e on = record {
  unicast = ground arith;
  reachable = ground arith;
}

-- What the answer to SetIndicationConfig leaves: indications are off, or go to the recipient of the
-- request, which may receive them; every notice sent went there.
pub record IsConfigured (route : ℕ → Option ℕ) (req : SetIndicationConfigReq) (st : State)
    (sent : List Datagram) : Type 0 where
  pub sent_to : All (λ d. (d.dst_ip ≡ req.recipient_ip) × (d.dst_port ≡ req.recipient_port)) sent
  pub recipient : st.indication_recipient_ip ≡ req.recipient_ip
  pub deliverable : req.info_bits ≢ 0 → IsDeliverable route req.recipient_ip

-- SetIndicationConfig of the holder of the session either changes nothing but the end of the session's
-- idle time and sends nothing, or it sends notices to the recipient of the request only, which is the
-- recipient from then on, and when the request enables indications that address is unicast and
-- reached without a gateway.
pub handle_set_indication_config-IsConfigured :
    (now mono_now room : ℕ) (route : ℕ → Option ℕ) (link : Option Bool) (st : State) (frame : Bytes)
    (ip seq : ℕ) (req : SetIndicationConfigReq)
    → session_owns st ip ≡ true
    → set_indication_config_req_unpack frame ≡ some req
    → (((handle_set_indication_config now mono_now room route link st frame ip seq).state
          ≡ session_touch now st)
        × ((handle_set_indication_config now mono_now room route link st frame ip seq).sent ≡ []))
      ⊎ IsConfigured route req
          (handle_set_indication_config now mono_now room route link st frame ip seq).state
          (handle_set_indication_config now mono_now room route link st frame ip seq).sent
unfolding handle_set_indication_config
handle_set_indication_config-IsConfigured now mono_now room route link st frame ip seq req owns e =
    let admitted = check_login_required_holder now st ip owns in
    elim (Bool-cases (indication_config_error route req == 0)) [
      | inl ok ↦
          let k = take_indication_config-IsAddressed now mono_now link (session_touch now st) req in
          let deliver = indication_config_error-IsDeliverable route req ((==_iff _ _).0 ok) in
          inr (
            rw (e, admitted, ok, handle_set_indication_config)
              (record { sent_to = k.sent; recipient = k.recipient.address; deliverable = deliver }))
      | inr bad ↦ inl (rw (e, admitted, bad, handle_set_indication_config) (refl, refl))
    ]
