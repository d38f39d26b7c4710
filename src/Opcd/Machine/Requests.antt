-- ===== src/Opcd/Machine/Requests.antt =====
-- The invariant over the requests that need the session, and the application of a change.
use wlan_opc.Base.{
  ℕ, ◌≡◌, refl, inl, inr, ◌⊎◌, Bool, true, false, not, ◌&&◌, Option, [], Bytes, leb, if◌then◌else◌,
  Bool-cases, Option-cases,
}
use wlan_opc.Protocol.Commands.Simple.{reset_req_unpack}
use wlan_opc.Protocol.Commands.Requests.{change_ip_address_req_unpack}
use wlan_opc.Opcd.State.{State}
use wlan_opc.Opcd.Session.{
  LoginCheck, admitted, refused, handle_reset, check_login_required, opcd_session_logout,
}
use wlan_opc.Opcd.IpChange.{handle_change_ip_address, apply_armed, opcd_apply_pending_ip_change}
use wlan_opc.Opcd.Intake.{expire_session}
use wlan_opc.Opcd.Machine.Safe.{
  IsSafe, check_login_required-IsSafe, change_admitted-IsSafe, opcd_session_logout-IsSafe,
  either_sending-IsSafe,
}

pub LoginCheck-cases :
    (c : LoginCheck) → ((st : State) × (c ≡ admitted st)) ⊎ ((err : ℕ) × (c ≡ refused err))
LoginCheck-cases (admitted st) = inl (st, refl)
LoginCheck-cases (refused err) = inr (err, refl)

module _ {st : State} (h : IsSafe st) where
  pub handle_change_ip_address-IsSafe :
      (now room : ℕ) (other : Option (ℕ × ℕ)) (frame : Bytes) (ip seq : ℕ)
      → IsSafe (handle_change_ip_address now room other st frame ip seq).state
  unfolding handle_change_ip_address
  handle_change_ip_address-IsSafe now room other frame ip seq =
      elim (Option-cases (change_ip_address_req_unpack frame)) [
        | inl n ↦ rw (n, handle_change_ip_address) h
        | inr (req, e) ↦ elim (LoginCheck-cases (check_login_required now st ip)) [
          | inr (err, r) ↦ rw (e, r, handle_change_ip_address) h
          | inl (st1, a) ↦
              rw (e, a, handle_change_ip_address)
                (change_admitted-IsSafe (check_login_required-IsSafe h now ip a) now other req)
        ]
      ]

  pub handle_reset-IsSafe :
      (now room : ℕ) (frame : Bytes) (ip port seq : ℕ)
      → IsSafe (handle_reset now room st frame ip port seq).state
  unfolding handle_reset
  handle_reset-IsSafe now room frame ip port seq = elim (Option-cases (reset_req_unpack frame)) [
    | inl n ↦ rw (n, handle_reset) h
    | inr (u, e) ↦ elim (LoginCheck-cases (check_login_required now st ip)) [
      | inr (err, r) ↦ rw (e, r, handle_reset) h
      | inl (st1, a) ↦
          let safe = check_login_required-IsSafe h now ip a in
          rw (e, a, handle_reset) (record { lists = safe.lists })
    ]
  ]

  pub expire_session-IsSafe : (now : ℕ) → IsSafe (expire_session now st).0
  unfolding expire_session
  expire_session-IsSafe now = elim (Bool-cases (st.logged_in && leb st.idle_deadline now)) [
    | inl t ↦ simp t (opcd_session_logout-IsSafe h)
    | inr f ↦ simp f h
  ]

  -- The state that the application of a change leaves, before the change is cleared.
  applied_session-IsSafe :
      (applied : Bool)
      → let off = record st { indication_enabled = false } in
        IsSafe
          (if not applied
            then (st, [])
            else if off.logged_in
            then opcd_session_logout off
            else (off, [])).0
  applied_session-IsSafe false = h
  applied_session-IsSafe true =
      let off : IsSafe (record st { indication_enabled = false }) = record { lists = h.lists } in
      let disabled = record st { indication_enabled = false } in
      either_sending-IsSafe st.logged_in (opcd_session_logout disabled) (disabled, [])
        (opcd_session_logout-IsSafe off) off

  apply_armed-IsSafe : (applied : Bool) → IsSafe (apply_armed applied st).0
  unfolding apply_armed
  apply_armed-IsSafe applied =
      let s = applied_session-IsSafe applied in
      record {
        lists = record {
          list = s.lists.list;
          staging = s.lists.staging;
          pending_list = s.lists.pending_list;
          pending_staging = s.lists.pending_staging;
          armed = λ a. absurd (cc);
        };
      }

  pub opcd_apply_pending_ip_change-IsSafe :
      (applied : Bool) → IsSafe (opcd_apply_pending_ip_change applied st).0
  unfolding opcd_apply_pending_ip_change
  opcd_apply_pending_ip_change-IsSafe applied = elim (Bool-cases st.ip_change_commit_armed) [
    | inl a ↦ simp a (apply_armed-IsSafe applied)
    | inr f ↦ simp f h
  ]
