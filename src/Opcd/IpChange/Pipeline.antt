-- ===== src/Opcd/IpChange/Pipeline.antt =====
-- How a change of address that is accepted reaches its application.
use wlan_opc.Base.{
  ℕ, ◌+◌, ◌%◌, ◌≤◌, ◌≡◌, refl, ◌∙◌, inl, inr, Bool, true, false, not, ◌&&◌, Option, some, [], Bytes,
  leb, if◌then◌else◌, Bool-cases, arith,
}
use wlan_opc.Protocol.Commands.Records.{ChangeIpAddressReq, IpcfgEntry}
use wlan_opc.Protocol.Commands.Requests.{change_ip_address_req_unpack}
use wlan_opc.Protocol.Commands.Simple.{logout_req_unpack}
use wlan_opc.Opcd.State.{State, no_entry, no_ip_list, persist_ip_list}
use wlan_opc.Opcd.State.Sending.{opcd_ind_init_complete-state}
use wlan_opc.Opcd.Session.{
  session_owns, session_touch, check_login_required, admitted, opcd_session_logout,
}
use wlan_opc.Opcd.IpChange.{
  handle_logout, logout_error, handle_change_ip_address, change_error, change_admitted,
  logout_ip_change, arm_ip_change_from_committed, slot_present, slot_entry, persist_resource_busy,
  apply_armed, opcd_apply_pending_ip_change,
}

-- A state with the session over.
abbrev pub after_logout : State → ℕ → State
after_logout st seq = record st {
  indication_seq = seq;
  session_generation = (st.session_generation + 1) % 4294967296;
  logged_in = false;
  boot_status = 1;
  ip_list_staging_active = false;
  ip_list_staging = no_ip_list;
}

pub opcd_session_logout-state :
    (st : State) → (seq : ℕ) × ((opcd_session_logout st).0 ≡ after_logout st seq)
unfolding opcd_session_logout
opcd_session_logout-state st = let (seq, e) = opcd_ind_init_complete-state st 4 in (seq, rw e)

-- The state after a change was taken.
abbrev with_change : ℕ → State → ℕ → State
with_change now st n =
    session_touch now (record st { ip_change_pending = true; ip_change_list_no = n })

pub check_login_required_holder :
    (now : ℕ) (st : State) (ip : ℕ)
    → session_owns st ip ≡ true
    → check_login_required now st ip ≡ admitted (session_touch now st)
unfolding check_login_required session_owns
check_login_required_holder now st ip h = elim (Bool-cases st.logged_in) [
  | inl t ↦ rw t (ground arith)
  | inr f ↦ absurd (ground arith)
]

module _ (now room : ℕ) (other : Option (ℕ × ℕ)) (st : State) (frame : Bytes) (ip seq : ℕ) where
  handle_change_ok :
      (req : ChangeIpAddressReq)
      → change_ip_address_req_unpack frame ≡ some req
      → session_owns st ip ≡ true
      → change_error other (session_touch now st) req ≡ 0
      → (handle_change_ip_address now room other st frame ip seq).state
        ≡ with_change now (session_touch now st) req.list_number
  unfolding handle_change_ip_address change_admitted
  handle_change_ok req e owns ok =
      rw (e, check_login_required_holder now st ip owns, ok, handle_change_ip_address)

-- What an accepted change knows.
record IsChangeable (st : State) (n : ℕ) : Type 0 where
  pub unarmed : st.ip_change_commit_armed ≡ false
  pub lo : 1 ≤ n
  pub hi : n ≤ 128
  pub present : slot_present st.ip_list n ≡ true

change_error-IsChangeable :
    (other : Option (ℕ × ℕ)) (st : State) (req : ChangeIpAddressReq)
    → change_error other st req ≡ 0
    → IsChangeable st req.list_number
unfolding change_error
change_error-IsChangeable other st req e = record {
  unarmed = ground arith;
  lo = ground arith;
  hi = ground arith;
  present = ground arith;
}

abbrev armed : State → State
armed st = record st {
  ip_change_armed_entry = slot_entry st.ip_list st.ip_change_list_no;
  ip_change_armed_no = st.ip_change_list_no;
  ip_change_commit_armed = true;
}

arm_ip_change_from_committed_ok :
    (st : State)
    → 1 ≤ st.ip_change_list_no
    → st.ip_change_list_no ≤ 128
    → slot_present st.ip_list st.ip_change_list_no ≡ true
    → arm_ip_change_from_committed st ≡ armed st
unfolding arm_ip_change_from_committed
arm_ip_change_from_committed_ok st lo hi p =
    let r : (leb 1 st.ip_change_list_no && leb st.ip_change_list_no 128) ≡ true = ground arith in
    rw (p, r)

logout_ip_change_ok :
    (st : State)
    → st.ip_change_pending ≡ true
    → IsChangeable st st.ip_change_list_no
    → persist_resource_busy st.pending_acks persist_ip_list ≡ false
    → logout_ip_change st ≡ armed st
unfolding logout_ip_change
logout_ip_change_ok st p h idle =
    simp (p, h.unarmed, idle, arm_ip_change_from_committed_ok st h.lo h.hi h.present)

-- The change waits to be applied with this entry, and the session is over.
pub record IsArmed (st : State) (n : ℕ) (e : IpcfgEntry) : Type 0 where
  pub armed : st.ip_change_commit_armed ≡ true
  pub number : st.ip_change_armed_no ≡ n
  pub entry : st.ip_change_armed_entry ≡ e
  pub over : st.logged_in ≡ false

logout_error_holder :
    (st : State) (u : Unit {0}) (ip : ℕ)
    → session_owns st ip ≡ true
    → logout_error st (some u) ip ≡ 0
unfolding logout_error session_owns
logout_error_holder st u ip h = ground arith

handle_logout_ok :
    (room : ℕ) (st : State) (frame : Bytes) (ip seq : ℕ)
    → logout_error st (logout_req_unpack frame) ip ≡ 0
    → (handle_logout room st frame ip seq).state ≡ (opcd_session_logout (logout_ip_change st)).0
unfolding handle_logout
handle_logout_ok room st frame ip seq e = rw e

handle_logout-IsArmed :
    (room : ℕ) (st : State) (frame : Bytes) (ip seq : ℕ)
    → logout_req_unpack frame ≡ some tt
    → session_owns st ip ≡ true
    → st.ip_change_pending ≡ true
    → IsChangeable st st.ip_change_list_no
    → persist_resource_busy st.pending_acks persist_ip_list ≡ false
    → IsArmed
        (handle_logout room st frame ip seq).state
        st.ip_change_list_no
        (slot_entry st.ip_list st.ip_change_list_no)
handle_logout-IsArmed room st frame ip seq e owns p h idle =
    let ok : logout_error st (logout_req_unpack frame) ip ≡ 0 =
      rw e (logout_error_holder st tt ip owns) in
    let (n, after) = opcd_session_logout-state (armed st) in
    rw (handle_logout_ok room st frame ip seq ok, logout_ip_change_ok st p h idle, after)
      (record { armed = refl; number = refl; entry = refl; over = refl })

session_owns-with_change :
    (now ip n : ℕ) (st : State)
    → session_owns (with_change now (session_touch now st) n) ip ≡ session_owns st ip
unfolding session_owns session_touch
session_owns-with_change now ip n st = refl

-- A change that ChangeIpAddress takes from the holder of the session is armed by the holder's
-- Logout, when no write of the list is in flight, with the number asked for and the entry that the
-- list holds there; the session is then over.
pub handle_logout-handle_change_ip_address :
    (now room : ℕ) (other : Option (ℕ × ℕ)) (st : State) (frame out : Bytes) (ip seq seq' : ℕ)
    (req : ChangeIpAddressReq)
    → change_ip_address_req_unpack frame ≡ some req
    → session_owns st ip ≡ true
    → change_error other (session_touch now st) req ≡ 0
    → logout_req_unpack out ≡ some tt
    → persist_resource_busy st.pending_acks persist_ip_list ≡ false
    → IsArmed
        (handle_logout room
          (handle_change_ip_address now room other st frame ip seq).state
          out
          ip
          seq').state
        req.list_number
        (slot_entry st.ip_list req.list_number)
handle_logout-handle_change_ip_address now room other st frame out ip seq seq' req e owns ok l
      idle =
    let h = change_error-IsChangeable other (session_touch now st) req ok in
    let st1 = with_change now (session_touch now st) req.list_number in
    rw (handle_change_ok now room other st frame ip seq req e owns ok) (
      unfold session_touch in
      handle_logout-IsArmed room st1 out ip seq' l
        (session_owns-with_change now ip req.list_number st ∙ owns) refl
        (record { unarmed = h.unarmed; lo = h.lo; hi = h.hi; present = h.present }) idle)

-- The session at the old address is over.
end_session :
    (st : State)
    → let st' = (if st.logged_in then opcd_session_logout st else (st, [])).0 in
      (st'.logged_in ≡ false) × (st'.indication_enabled ≡ st.indication_enabled)
end_session st =
    let (n, after) = opcd_session_logout-state st in
    elim (Bool-cases st.logged_in) [
      | inl l ↦ simp (l, after) (refl, refl)
      | inr l ↦ simp l (refl, refl)
    ]

-- What is left of a change, of the session and of the indications.
pub record IsApplied (applied : Bool) (st st' : State) : Type 0 where
  pub unarmed : st'.ip_change_commit_armed ≡ false
  pub idle : st'.ip_change_pending ≡ false
  pub entry : st'.ip_change_armed_entry ≡ no_entry
  pub session : st'.logged_in ≡ (not applied && st.logged_in)
  pub indication : st'.indication_enabled ≡ (not applied && st.indication_enabled)

pub apply_armed-IsApplied :
    (applied : Bool) (st : State) → IsApplied applied st (apply_armed applied st).0
unfolding apply_armed
apply_armed-IsApplied false st = record {
  unarmed = refl;
  idle = refl;
  entry = refl;
  session = refl;
  indication = refl;
}
apply_armed-IsApplied true st =
    let (over, off) = end_session (record st { indication_enabled = false }) in
    record { unarmed = refl; idle = refl; entry = refl; session = over; indication = off }

-- Applying the armed change leaves no change behind, armed or pending. When the platform took it, no
-- session is left and the indications are off; when it did not, both stay as they were.
pub opcd_apply_pending_ip_change-IsApplied :
    (applied : Bool) (st : State)
    → st.ip_change_commit_armed ≡ true
    → IsApplied applied st (opcd_apply_pending_ip_change applied st).0
opcd_apply_pending_ip_change-IsApplied applied st h =
    let e : opcd_apply_pending_ip_change applied st ≡ apply_armed applied st =
      unfold opcd_apply_pending_ip_change in simp h in
    rw e (apply_armed-IsApplied applied st)
