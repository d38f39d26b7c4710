-- ===== src/Opcd/IpChange/Laws.antt =====
-- What Logout, ChangeIpAddress and Reset do for whom, and how a change reaches its application.
use wlan_opc.Base.{
  ℕ, ◌≡◌, refl, ◌≢◌, inl, inr, false, Option, none, some, [], Bytes, ◌==◌, Bool-cases, Option-cases,
  arith,
}
use wlan_opc.Protocol.Commands.Records.{Ack}
use wlan_opc.Protocol.Commands.Requests.{change_ip_address_req_unpack}
use wlan_opc.Protocol.Commands.Simple.{
  logout_req_unpack, logout_ack_pack, change_ip_address_ack_pack, reset_ack_pack, reset_req_unpack,
}
use wlan_opc.Opcd.State.{State}
use wlan_opc.Opcd.Session.{
  session_owns, check_login_required, refused, handle_reset, opcd_session_logout, ack_of,
}
use wlan_opc.Opcd.Session.Laws.{IsRefused}
use wlan_opc.Opcd.IpChange.{handle_logout, logout_error, handle_change_ip_address, logout_ip_change}

pub check_login_required_outsider :
    (now : ℕ) (st : State) (ip : ℕ)
    → session_owns st ip ≡ false
    → (err : ℕ) × (err ≢ 0) × (check_login_required now st ip ≡ refused err)
unfolding check_login_required session_owns
check_login_required_outsider now st ip h = elim (Bool-cases st.logged_in) [
  | inl t ↦ (2, ground arith, ground arith)
  | inr f ↦ (1, ground arith, ground arith)
]

logout_error_outsider :
    (st : State) (req : Option (Unit {0})) (ip : ℕ)
    → session_owns st ip ≡ false
    → logout_error st req ip ≢ 0
unfolding logout_error
logout_error_outsider st none ip h = ground arith
logout_error_outsider st (some u) ip h = ground arith

module _ {st : State} (err : ℕ) (nz : err ≢ 0) (pack : Ack → Option Bytes) where
  pub IsRefused-ack : IsRefused st pack (record { state = st; sent = []; resp = pack (ack_of err) })
  IsRefused-ack =
      let f : (err == 0) ≡ false = ground arith in
      rw f (record { state = refl; sent = refl; cause = err; nonzero = nz; resp = refl })

module _ (room : ℕ) (st : State) (frame : Bytes) (ip seq : ℕ) where
  handle_logout_ng :
      logout_error st (logout_req_unpack frame) ip ≢ 0
      → IsRefused st (logout_ack_pack room seq) (handle_logout room st frame ip seq)
  unfolding handle_logout
  handle_logout_ng h =
      let err = logout_error st (logout_req_unpack frame) ip in
      let f : (err == 0) ≡ false = ground arith in
      rw f (record { state = refl; sent = refl; cause = err; nonzero = h; resp = refl })

  handle_logout_ok :
      logout_error st (logout_req_unpack frame) ip ≡ 0
      → (handle_logout room st frame ip seq).state ≡ (opcd_session_logout (logout_ip_change st)).0
  unfolding handle_logout
  handle_logout_ok e = rw e

  handle_reset_outsider :
      (now port : ℕ)
      → session_owns st ip ≡ false
      → IsRefused st (reset_ack_pack room seq) (handle_reset now room st frame ip port seq)
  unfolding handle_reset
  handle_reset_outsider now port h =
      let (err, nz, e) = check_login_required_outsider now st ip h in
      elim (Option-cases (reset_req_unpack frame)) [
        | inl n ↦
            rw (n, handle_reset)
              (record { state = refl; sent = refl; cause = 3; nonzero = ground arith; resp = refl })
        | inr (u, s) ↦ rw (s, e, handle_reset) (IsRefused-ack err nz (reset_ack_pack room seq))
      ]

  handle_change_outsider :
      (now : ℕ) (other : Option (ℕ × ℕ))
      → session_owns st ip ≡ false
      → IsRefused st
          (change_ip_address_ack_pack room seq)
          (handle_change_ip_address now room other st frame ip seq)
  unfolding handle_change_ip_address
  handle_change_outsider now other h =
      let (err, nz, e) = check_login_required_outsider now st ip h in
      elim (Option-cases (change_ip_address_req_unpack frame)) [
        | inl n ↦
            rw (n, handle_change_ip_address)
              (record { state = refl; sent = refl; cause = 3; nonzero = ground arith; resp = refl })
        | inr (req, s) ↦
            rw (s, e, handle_change_ip_address)
              (IsRefused-ack err nz (change_ip_address_ack_pack room seq))
      ]

  -- A client that does not hold the session changes nothing by Logout, ChangeIpAddress or Reset,
  -- whatever its frame; each is answered NG and sends no indication.
  pub outsider-IsRefused :
      (now port : ℕ) (other : Option (ℕ × ℕ))
      → session_owns st ip ≡ false
      → IsRefused st (logout_ack_pack room seq) (handle_logout room st frame ip seq)
        × IsRefused st
            (change_ip_address_ack_pack room seq)
            (handle_change_ip_address now room other st frame ip seq)
        × IsRefused st (reset_ack_pack room seq) (handle_reset now room st frame ip port seq)
  outsider-IsRefused now port other h = (
    handle_logout_ng (logout_error_outsider st (logout_req_unpack frame) ip h),
    handle_change_outsider now other h,
    handle_reset_outsider now port h,
  )
