-- ===== src/Opcd/DeviceInfo/Laws.antt =====
-- Who is told the information of the device, and what a query changes.
use wlan_opc.Base.{
  ℕ, ◌≡◌, refl, ◌∙◌, ◌⊎◌, inl, inr, true, false, none, some, ◌==◌, Bytes, Option-cases, Bool-cases,
  arith,
}
use wlan_opc.Protocol.Commands.Simple.{get_device_info_req_unpack}
use wlan_opc.Protocol.Commands.DeviceInfo.{get_device_info_ack_pack}
use wlan_opc.Opcd.State.{State}
use wlan_opc.Opcd.Session.{
  Outcome, Inventory, session_owns, session_touch, check_login_required, admitted,
}
use wlan_opc.Opcd.Session.Laws.{IsRefused}
use wlan_opc.Opcd.IpChange.Laws.{check_login_required_outsider, IsRefused-ack}
use wlan_opc.Opcd.DeviceInfo.{
  FreqSource, DeviceReadings, device_info, device_info_ng, answer_device_info,
  handle_get_device_info,
}

check_login_required_holder :
    (now : ℕ) (st : State) (ip : ℕ)
    → session_owns st ip ≡ true
    → check_login_required now st ip ≡ admitted (session_touch now st)
unfolding check_login_required session_owns session_touch
check_login_required_holder now st ip h =
    let a : st.logged_in ≡ true = ground arith in
    let b : (st.holder_ip == ip) ≡ true = ground arith in simp (a, b) refl

-- A query that is well formed, of a client that holds the session, while no indications are sent.
pub record IsTold (src : FreqSource) (inv : Inventory) (r : DeviceReadings) (now room : ℕ)
    (st : State) (frame : Bytes) (ip seq : ℕ) (out : Outcome) : Type 0 where
  pub asked : get_device_info_req_unpack frame ≡ some tt
  pub owns : session_owns st ip ≡ true
  pub quiet : st.indication_enabled ≡ false
  pub state : out.state ≡ session_touch now st
  pub resp :
      out.resp ≡ get_device_info_ack_pack room seq (device_info src inv r (session_touch now st))

session_touch-indication_enabled :
    (now : ℕ) (st : State) → (session_touch now st).indication_enabled ≡ st.indication_enabled
unfolding session_touch
session_touch-indication_enabled now st = refl

answer_device_info-IsRefused :
    (src : FreqSource) (inv : Inventory) (r : DeviceReadings) (now room : ℕ) (st : State) (seq : ℕ)
    → st.indication_enabled ≡ true
    → IsRefused st (device_info_ng room seq) (answer_device_info src inv r now room st seq)
unfolding answer_device_info
answer_device_info-IsRefused src inv r now room st seq sending =
    simp sending (IsRefused-ack 16 (ground arith) (device_info_ng room seq))

answer_device_info_quiet :
    (src : FreqSource) (inv : Inventory) (r : DeviceReadings) (now room : ℕ) (st : State) (seq : ℕ)
    → st.indication_enabled ≡ false
    → ((answer_device_info src inv r now room st seq).state ≡ session_touch now st)
      × ((answer_device_info src inv r now room st seq).resp
          ≡ get_device_info_ack_pack room seq (device_info src inv r st))
unfolding answer_device_info
answer_device_info_quiet src inv r now room st seq quiet = rw quiet (refl, refl)

session_touch-session_touch :
    (now : ℕ) (st : State) → session_touch now (session_touch now st) ≡ session_touch now st
unfolding session_touch
session_touch-session_touch now st = refl

answer_device_info-IsTold :
    (src : FreqSource) (inv : Inventory) (r : DeviceReadings) (now room : ℕ) (st : State)
    (frame : Bytes) (ip seq : ℕ)
    → get_device_info_req_unpack frame ≡ some tt
    → session_owns st ip ≡ true
    → st.indication_enabled ≡ false
    → IsTold src inv r now room st frame ip seq
        (answer_device_info src inv r now room (session_touch now st) seq)
answer_device_info-IsTold src inv r now room st frame ip seq asked owns quiet =
    let (state, resp) =
      answer_device_info_quiet src inv r now room (session_touch now st) seq
        (session_touch-indication_enabled now st ∙ quiet) in
    record {
      asked = asked;
      owns = owns;
      quiet = quiet;
      state = state ∙ session_touch-session_touch now st;
      resp = resp;
    }

-- The information of the device is only told for a request that unpacks, to the client that holds the
-- session, and only while no indications are sent; only the idle time of the session is then restarted.
-- A frame that does not unpack, or a client that does not hold the session, is answered NG without
-- information and nothing changes. The holder is answered NG too while indications are sent, where
-- only the idle time is restarted.
pub handle_get_device_info-cases :
    (src : FreqSource) (inv : Inventory) (r : DeviceReadings) (now room : ℕ) (st : State)
    (frame : Bytes) (ip seq : ℕ)
    → let out = handle_get_device_info src inv r now room st frame ip seq in
      (((get_device_info_req_unpack frame ≡ none) ⊎ (session_owns st ip ≡ false))
        × IsRefused st (device_info_ng room seq) out)
      ⊎ (((get_device_info_req_unpack frame ≡ some tt)
            × (session_owns st ip ≡ true)
            × (st.indication_enabled ≡ true)
            × IsRefused (session_touch now st) (device_info_ng room seq) out)
          ⊎ IsTold src inv r now room st frame ip seq out)
unfolding handle_get_device_info
handle_get_device_info-cases src inv r now room st frame ip seq =
    let pack = device_info_ng room seq in
    elim (Option-cases (get_device_info_req_unpack frame)) [
      | inl u ↦ inl (inl u, rw (u, handle_get_device_info) (IsRefused-ack 3 (ground arith) pack))
      | inr (req, u) ↦ elim (Bool-cases (session_owns st ip)) [
        | inr outside ↦
            let (err, nz, e) = check_login_required_outsider now st ip outside in
            inl (inr outside, rw (u, e, handle_get_device_info) (IsRefused-ack err nz pack))
        | inl owns ↦
            let e = check_login_required_holder now st ip owns in
            let kept = session_touch-indication_enabled now st in
            elim (Bool-cases st.indication_enabled) [
              | inl sending ↦ inr (
                  inl (
                    u,
                    owns,
                    sending,
                    rw (u, e, handle_get_device_info)
                        (answer_device_info-IsRefused src inv r now room (session_touch now st) seq
                          (kept ∙ sending)),
                  ))
              | inr quiet ↦ inr (
                  inr (
                    rw (u, e, handle_get_device_info)
                      (answer_device_info-IsTold src inv r now room st frame ip seq u owns quiet)))
            ]
      ]
    ]
