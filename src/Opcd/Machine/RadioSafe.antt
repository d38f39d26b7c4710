-- ===== src/Opcd/Machine/RadioSafe.antt =====
-- The invariant over SetRadioConfig and the restore that follows a failure.
use wlan_opc.Base.{ℕ, inl, inr, not, ◌&&◌, List, Bytes, ◌==◌, Bool-cases, Option-cases}
use wlan_opc.Protocol.Commands.Records.{SetRadioConfigReq}
use wlan_opc.Protocol.Commands.Requests.{set_radio_config_req_unpack}
use wlan_opc.Opcd.State.{State, Datagram, persist_radio}
use wlan_opc.Opcd.Session.{check_login_required, session_touch}
use wlan_opc.Opcd.IpChange.{persist_resource_busy}
use wlan_opc.Opcd.RadioChecks.{radio_error, radio_cfg_differs, radio_baseline_covers}
use wlan_opc.Opcd.Persist.{Store, Admission, replaced, persist_admit, persist_blob}
use wlan_opc.Opcd.Persist.Radio.{
  RadioAnswers, publish_radio, radio_pending, write_radio, apply_radio, radio_admission,
  accept_radio, handle_set_radio_config,
}
use wlan_opc.Opcd.Machine.Safe.{
  IsSafe, session_touch-IsSafe, check_login_required-IsSafe, either-IsSafe,
}
use wlan_opc.Opcd.Machine.Writes.{radio_arm_revert-IsSafe}
use wlan_opc.Opcd.Machine.Requests.{LoginCheck-cases}
use wlan_opc.Opcd.Machine.Admission.{persist_admit-IsSafe, persist_blob-IsSafe}

module _ {st : State} (h : IsSafe st) where
  publish_radio-IsSafe : (req : SetRadioConfigReq) → IsSafe (publish_radio st req)
  unfolding publish_radio
  publish_radio-IsSafe req = record { lists = h.lists }

module _ {st : State} (h : IsSafe st) (now : ℕ) (store : Store) (req : SetRadioConfigReq)
    (ip port seq : ℕ) where
  write_radio-IsSafe : IsSafe (write_radio now store st req ip port seq).0
  unfolding write_radio session_touch
  write_radio-IsSafe =
      let p = persist_blob store (publish_radio st req) (radio_pending ip port seq) in
      let safe =
        persist_blob-IsSafe (publish_radio-IsSafe h req) store (radio_pending ip port seq) in
      let reverting =
        either-IsSafe (replaced p.outcome) p.state _ safe (
          radio_arm_revert-IsSafe safe st.radio st.radio_committed
            (radio_baseline_covers st req)) in
      elim (Bool-cases p.ok) [
        | inr bad ↦ simp bad (record { lists = reverting.lists })
        | inl good ↦ elim (Bool-cases p.deferred) [
          | inl wait ↦ simp (good, wait) (record { lists = safe.lists })
          | inr now_done ↦ simp (good, now_done) (record { lists = safe.lists })
        ]
      ]

  apply_radio-IsSafe :
      (answers : RadioAnswers) → IsSafe (apply_radio now store answers st req ip port seq).0
  unfolding apply_radio session_touch
  apply_radio-IsSafe answers =
      let reverting =
        either-IsSafe (radio_cfg_differs req st.radio) _ st
          (radio_arm_revert-IsSafe h st.radio st.radio_committed (radio_baseline_covers st req))
          h in
      elim (Bool-cases answers.marker_written) [
        | inr unmarked ↦ simp unmarked (record { lists = h.lists })
        | inl marked ↦ elim (Bool-cases answers.applied) [
          | inr failed ↦ simp (marked, failed) (record { lists = reverting.lists })
          | inl applied ↦ simp (marked, applied) write_radio-IsSafe
        ]
      ]

radio_admission-IsSafe :
    (now : ℕ) (store : Store) (answers : RadioAnswers) {st : State} (sent : List Datagram)
    (a : Admission) (req : SetRadioConfigReq) (ip port seq : ℕ)
    → IsSafe st
    → IsSafe (radio_admission now store answers st sent a req ip port seq).0
unfolding radio_admission
radio_admission-IsSafe now store answers sent Admission.admission_busy req ip port seq h =
    session_touch-IsSafe h now
radio_admission-IsSafe now store answers sent Admission.admission_failed req ip port seq h = h
radio_admission-IsSafe now store answers sent Admission.admission_ok req ip port seq h =
    apply_radio-IsSafe h now store req ip port seq answers

module _ {st : State} (h : IsSafe st) where
  accept_radio-IsSafe :
      (now : ℕ) (store : Store) (answers : RadioAnswers) (req : SetRadioConfigReq) (ip port seq : ℕ)
      → IsSafe (accept_radio now store answers st req ip port seq).0
  unfolding accept_radio
  accept_radio-IsSafe now store answers req ip port seq =
      let (st1, sent, a) = persist_admit store st persist_radio in
      let admitted =
        radio_admission-IsSafe now store answers sent a req ip port seq
          (persist_admit-IsSafe h store persist_radio) in
      elim (Bool-cases (persist_resource_busy st.pending_acks persist_radio)) [
        | inl busy ↦ simp busy (session_touch-IsSafe h now)
        | inr free ↦ elim (Bool-cases (radio_error answers.capability req == 0)) [
          | inr bad ↦ simp (free, bad) h
          | inl good ↦
              elim (Bool-cases (st.radio_committed && not (radio_cfg_differs req st.radio))) [
                | inl equal ↦ simp (free, good, equal) (session_touch-IsSafe h now)
                | inr differs ↦ simp (free, good, differs) admitted
              ]
        ]
      ]

module _ {st : State} (h : IsSafe st) where
  pub handle_set_radio_config-IsSafe :
      (now room : ℕ) (store : Store) (answers : RadioAnswers) (frame : Bytes) (ip port seq : ℕ)
      → IsSafe (handle_set_radio_config now room store answers st frame ip port seq).state
  unfolding handle_set_radio_config
  handle_set_radio_config-IsSafe now room store answers frame ip port seq =
      elim (Option-cases (set_radio_config_req_unpack frame)) [
        | inl u ↦ rw (u, handle_set_radio_config) h
        | inr (req, u) ↦ elim (LoginCheck-cases (check_login_required now st ip)) [
          | inr (err, r) ↦ rw (u, r, handle_set_radio_config) h
          | inl (st1, a) ↦
              rw (u, a, handle_set_radio_config)
                (accept_radio-IsSafe (check_login_required-IsSafe h now ip a) now store answers req
                  ip port seq)
        ]
      ]
