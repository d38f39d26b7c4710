-- ===== src/Opcd/Machine/Safe.antt =====
-- The invariant of a run, and the session's operations.
use wlan_opc.Base.{
  ℕ, ◌-◌, ◌≤◌, ◌≡◌, inl, inr, Bool, true, false, not, ◌&&◌, Option, Bytes, ◌==◌, leb, if◌then◌else◌,
  Bool-cases, Option-cases, arith,
}
use wlan_opc.Protocol.Commands.Simple.{logout_req_unpack, get_basic_info_req_unpack}
use wlan_opc.Protocol.Commands.Requests.{login_req_unpack}
use wlan_opc.Protocol.Commands.Records.{IpcfgEntry, ChangeIpAddressReq}
use wlan_opc.Opcd.State.{IpList, State, opcd_ind_init_complete, persist_ip_list}
use wlan_opc.Opcd.State.Sending.{opcd_ind_init_complete-state}
use wlan_opc.Opcd.Validators.{ipcfg_entry_error}
use wlan_opc.Opcd.Session.{
  Inventory, admitted, session_touch, session_owns, login_error, login_session, login_drop_change,
  login_accept, handle_login, handle_get_basic_info, check_login_required, opcd_session_logout,
}
use wlan_opc.Opcd.IpList.Laws.{IsSound, no_ip_list-IsSound}
use wlan_opc.Opcd.IpChange.{
  slot_present, slot_entry, arm_ip_change_from_committed, logout_ip_change, logout_error,
  handle_logout, persist_resource_busy, change_error, change_admitted,
}
use wlan_opc.Opcd.IpChange.Pipeline.{opcd_session_logout-state}

-- An entry that the device may take, at a number that a list can have.
pub record IsApplicable (e : IpcfgEntry) (n : ℕ) : Type 0 where
  pub valid : ipcfg_entry_error e true ≡ 0
  pub lo : 1 ≤ n
  pub hi : n ≤ 128

-- Every list, in effect, staged or waiting for its write, is sound, and an armed change is one that
-- the device may take.
pub record IsSafeLists (l s pl ps : IpList) (is_armed : Bool) (e : IpcfgEntry) (n : ℕ)
    : Type 0 where
  pub list : IsSound l
  pub staging : IsSound s
  pub pending_list : IsSound pl
  pub pending_staging : IsSound ps
  pub armed : is_armed ≡ true → IsApplicable e n

pub record IsSafe (st : State) : Type 0 where
  pub lists :
      IsSafeLists st.ip_list st.ip_list_staging st.pending_ip_list st.pending_ip_staging
        st.ip_change_commit_armed st.ip_change_armed_entry st.ip_change_armed_no

pub either-IsSafe : (b : Bool) (x y : State) → IsSafe x → IsSafe y → IsSafe (if b then x else y)
either-IsSafe true x y hx hy = hx
either-IsSafe false x y hx hy = hy

pub either_sending-IsSafe {ℓ} :
    {B : Type ℓ} (b : Bool) (x y : State × B)
    → IsSafe x.0
    → IsSafe y.0
    → IsSafe (if b then x else y).0
either_sending-IsSafe true x y hx hy = hx
either_sending-IsSafe false x y hx hy = hy

pub either_answer-IsSafe {ℓ κ} :
    {B : Type ℓ} {C : Type κ} (b : Bool) (x y : State × B × C)
    → IsSafe x.0
    → IsSafe y.0
    → IsSafe (if b then x else y).0
either_answer-IsSafe true x y hx hy = hx
either_answer-IsSafe false x y hx hy = hy

module _ {st : State} (h : IsSafe st) where
  pub session_touch-IsSafe : (now : ℕ) → IsSafe (session_touch now st)
  unfolding session_touch
  session_touch-IsSafe now = record { lists = h.lists }

  pub init_complete-IsSafe : (status : ℕ) → IsSafe (opcd_ind_init_complete st status).0
  init_complete-IsSafe status =
      let (seq, e) = opcd_ind_init_complete-state st status in rw e (record { lists = h.lists })

  pub opcd_session_logout-IsSafe : IsSafe (opcd_session_logout st).0
  opcd_session_logout-IsSafe =
      let (seq, e) = opcd_session_logout-state st in
      rw e (record {
        lists = record {
          list = h.lists.list;
          staging = no_ip_list-IsSound;
          pending_list = h.lists.pending_list;
          pending_staging = h.lists.pending_staging;
          armed = h.lists.armed;
        };
      })

  login_session-IsSafe : (ip port : ℕ) → IsSafe (login_session st ip port)
  unfolding login_session
  login_session-IsSafe ip port = record { lists = h.lists }

  login_drop_change-IsSafe : (was : Bool) → IsSafe (login_drop_change was st)
  unfolding login_drop_change
  login_drop_change-IsSafe was =
      elim (Bool-cases
        (not was && not st.ip_change_commit_armed && not st.ip_change_logout_deferred)) [
          | inl e ↦ simp e (record {
            lists = record {
              list = h.lists.list;
              staging = h.lists.staging;
              pending_list = h.lists.pending_list;
              pending_staging = h.lists.pending_staging;
              armed = λ a. absurd (cc);
            };
          })
          | inr e ↦ simp e h
        ]

  pub check_login_required-IsSafe :
      (now ip : ℕ) {st' : State} → check_login_required now st ip ≡ admitted st' → IsSafe st'
  unfolding check_login_required
  check_login_required-IsSafe now ip {st'} e =
      let same : session_touch now st ≡ st' = ground arith in rw (← same) (session_touch-IsSafe now)

  -- A change is armed only with an entry of the list in effect.
  arm_committed :
      leb 1 st.ip_change_list_no && leb st.ip_change_list_no 128 ≡ true
      → slot_present st.ip_list st.ip_change_list_no ≡ true
      → IsApplicable (slot_entry st.ip_list st.ip_change_list_no) st.ip_change_list_no
  unfolding slot_present
  arm_committed range present = record {
    valid = h.lists.list.valid (st.ip_change_list_no - 1) (ground arith);
    lo = ground arith;
    hi = ground arith;
  }

  pub arm_ip_change_from_committed-IsSafe : IsSafe (arm_ip_change_from_committed st)
  unfolding arm_ip_change_from_committed
  arm_ip_change_from_committed-IsSafe =
      let dropped : IsSafe (record st { ip_change_pending = false; ip_change_list_no = 0 }) =
        record { lists = h.lists } in
      elim (Bool-cases (leb 1 st.ip_change_list_no && leb st.ip_change_list_no 128)) [
        | inr out ↦ simp out h
        | inl range ↦ elim (Bool-cases (slot_present st.ip_list st.ip_change_list_no)) [
          | inr empty ↦ simp (range, empty) dropped
          | inl present ↦
              simp (range, present)
                (record {
                  lists = record {
                    list = h.lists.list;
                    staging = h.lists.staging;
                    pending_list = h.lists.pending_list;
                    pending_staging = h.lists.pending_staging;
                    armed = λ a. arm_committed range present;
                  };
                })
        ]
      ]

module _ {st : State} (h : IsSafe st) where
  logout_ip_change-IsSafe : IsSafe (logout_ip_change st)
  unfolding logout_ip_change
  logout_ip_change-IsSafe =
      elim (Bool-cases (st.ip_change_pending && not st.ip_change_commit_armed)) [
        | inr f ↦ simp f h
        | inl t ↦ elim (Bool-cases (persist_resource_busy st.pending_acks persist_ip_list)) [
          | inr idle ↦ simp (t, idle) (arm_ip_change_from_committed-IsSafe h)
          | inl busy ↦ simp (t, busy) (record { lists = h.lists })
        ]
      ]

  login_accept-IsSafe : (now ip port : ℕ) → IsSafe (login_accept now st ip port).0
  unfolding login_accept
  login_accept-IsSafe now ip port =
      init_complete-IsSafe
        (session_touch-IsSafe
          (login_drop_change-IsSafe (login_session-IsSafe h ip port) st.logged_in) now)
        3

  pub handle_login-IsSafe :
      (now room : ℕ) (frame : Bytes) (ip port seq : ℕ)
      → IsSafe (handle_login now room st frame ip port seq).state
  unfolding handle_login
  handle_login-IsSafe now room frame ip port seq =
      elim (Bool-cases (login_error st (login_req_unpack frame) ip == 0)) [
        | inl ok ↦ simp ok (login_accept-IsSafe now ip port)
        | inr ng ↦ simp ng h
      ]

  pub handle_logout-IsSafe :
      (room : ℕ) (frame : Bytes) (ip seq : ℕ) → IsSafe (handle_logout room st frame ip seq).state
  unfolding handle_logout
  handle_logout-IsSafe room frame ip seq =
      elim (Bool-cases (logout_error st (logout_req_unpack frame) ip == 0)) [
        | inl ok ↦ simp ok (opcd_session_logout-IsSafe logout_ip_change-IsSafe)
        | inr ng ↦ simp ng h
      ]

  pub handle_get_basic_info-IsSafe :
      (inv : Inventory) (now room : ℕ) (frame : Bytes) (ip port seq : ℕ)
      → IsSafe (handle_get_basic_info inv now room st frame ip port seq).state
  unfolding handle_get_basic_info
  handle_get_basic_info-IsSafe inv now room frame ip port seq =
      elim (Option-cases (get_basic_info_req_unpack frame)) [
        | inl n ↦ rw (n, handle_get_basic_info) h
        | inr (u, e) ↦ elim (Bool-cases (session_owns st ip)) [
          | inl own ↦ rw (e, own, handle_get_basic_info) (session_touch-IsSafe h now)
          | inr other ↦ rw (e, other, handle_get_basic_info) h
        ]
      ]

  pub change_admitted-IsSafe :
      (now : ℕ) (other : Option (ℕ × ℕ)) (req : ChangeIpAddressReq)
      → IsSafe (change_admitted now other st req).0
  unfolding change_admitted
  change_admitted-IsSafe now other req =
      let marked : IsSafe
          (record st { ip_change_pending = true; ip_change_list_no = req.list_number }) =
        record { lists = h.lists } in
      elim (Bool-cases (change_error other st req == 0)) [
        | inl ok ↦ simp ok (session_touch-IsSafe marked now)
        | inr ng ↦ simp ng h
      ]
