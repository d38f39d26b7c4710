-- ===== src/Opcd/Persist/Password/Laws.antt =====
-- Which passwords are stored.
use wlan_opc.Base.{
  ℕ, ◌≡◌, ◌≢◌, refl, inl, inr, ◌⊎◌, true, false, some, Bytes, ◌==◌, ==_iff, Bool-cases,
  Option-cases, arith,
}
use wlan_opc.Protocol.CString.{bounded_strnlen}
use wlan_opc.Protocol.Commands.Records.{SetPasswordReq}
use wlan_opc.Protocol.Commands.Simple.{set_password_ack_pack}
use wlan_opc.Protocol.Commands.Requests.{set_password_req_unpack}
use wlan_opc.Opcd.State.{State, persist_password}
use wlan_opc.Opcd.Validators.{valid_opc_charset, strncmp_eq}
use wlan_opc.Opcd.Session.{session_owns, session_touch}
use wlan_opc.Opcd.IpChange.{persist_resource_busy}
use wlan_opc.Opcd.IpChange.Pipeline.{check_login_required_holder}
use wlan_opc.Opcd.Session.Laws.{IsRefused, text, strncmp_eq_iff}
use wlan_opc.Opcd.IpChange.Laws.{check_login_required_outsider, IsRefused-ack}
use wlan_opc.Opcd.Persist.{Store}
use wlan_opc.Opcd.Persist.Password.{
  password_resend_of_unsynced, set_password_error, accept_password, password_ack,
  handle_set_password,
}

-- What a request must be to be taken: the old password is the one in effect, or a write was not
-- confirmed and the request is the one of that write; both passwords end in a NUL and are of allowed
-- characters, and the new one is not empty.
pub record IsChange (st : State) (req : SetPasswordReq) : Type 0 where
  pub old :
      (text 127 req.old_password ≡ text 127 st.password)
      ⊎ ((st.password_unsynced ≡ true)
          × (text 127 req.old_password ≡ text 127 st.password_unsynced_prev)
          × (text 127 req.new_password ≡ text 127 st.password))
  pub old_chars : valid_opc_charset req.old_password ≡ true
  pub old_terminated : req.old_password_terminated ≡ true
  pub new_chars : valid_opc_charset req.new_password ≡ true
  pub new_length : bounded_strnlen req.new_password 127 ≢ 0
  pub new_terminated : req.new_password_terminated ≡ true

set_password_error-old :
    (st : State) (req : SetPasswordReq)
    → set_password_error st req ≡ 0
    → (strncmp_eq 127 req.old_password st.password ≡ true)
      ⊎ ((st.password_unsynced ≡ true)
          × (strncmp_eq 127 req.old_password st.password_unsynced_prev ≡ true)
          × (strncmp_eq 127 req.new_password st.password ≡ true))
unfolding set_password_error password_resend_of_unsynced
set_password_error-old st req e = ground arith

pub set_password_error-IsChange :
    (st : State) (req : SetPasswordReq) → set_password_error st req ≡ 0 → IsChange st req
unfolding set_password_error
set_password_error-IsChange st req e = record {
  old = elim (set_password_error-old st req e) [
    | inl same ↦ inl ((strncmp_eq_iff 127 req.old_password st.password).0 same)
    | inr (unsynced, prev, again) ↦ inr (
      unsynced,
      (strncmp_eq_iff 127 req.old_password st.password_unsynced_prev).0 prev,
      (strncmp_eq_iff 127 req.new_password st.password).0 again,
    )
  ];
  old_chars = ground arith;
  old_terminated = ground arith;
  new_chars = ground arith;
  new_length = ground arith;
  new_terminated = ground arith;
}

-- SetPassword of a client that does not hold the session changes nothing, whatever its frame, and is
-- answered NG.
pub handle_set_password-IsRefused :
    (now room : ℕ) (store : Store) (st : State) (frame : Bytes) (ip port seq : ℕ)
    → session_owns st ip ≡ false
    → IsRefused st
        (set_password_ack_pack room seq)
        (handle_set_password now room store st frame ip port seq)
unfolding handle_set_password password_ack
handle_set_password-IsRefused now room store st frame ip port seq h =
    let (err, nz, e) = check_login_required_outsider now st ip h in
    let pack = set_password_ack_pack room seq in
    elim (Option-cases (set_password_req_unpack frame)) [
      | inl u ↦ rw (u, handle_set_password) (IsRefused-ack 3 (ground arith) pack)
      | inr (req, u) ↦ rw (u, e, handle_set_password) (IsRefused-ack err nz pack)
    ]

-- The passwords of a state, in effect and waiting for its write.
pub record IsKept (st st' : State) : Type 0 where
  pub password : st'.password ≡ st.password
  pub pending : st'.pending_password ≡ st.pending_password

session_touch-IsKept : (now : ℕ) (st : State) → IsKept st (session_touch now st)
unfolding session_touch
session_touch-IsKept now st = record { password = refl; pending = refl }

accept_password-IsKept :
    (now : ℕ) (store : Store) (st : State) (req : SetPasswordReq) (ip port seq : ℕ)
    → set_password_error st req ≢ 0
    → IsKept st (accept_password now store st req ip port seq).0
unfolding accept_password
accept_password-IsKept now store st req ip port seq h =
    let bad : (set_password_error st req == 0) ≡ false = ground arith in
    elim (Bool-cases (persist_resource_busy st.pending_acks persist_password)) [
      | inl busy ↦ simp busy (session_touch-IsKept now st)
      | inr free ↦ simp (free, bad) (record { password = refl; pending = refl })
    ]

-- SetPassword of the holder of the session either keeps the password in effect and the one that waits
-- for its write, or both passwords of its request end in a NUL and are of allowed characters, the new
-- one is not empty, and the old one is the password in effect; while a write is not confirmed, the
-- request of that write may also be sent again.
pub handle_set_password-IsChange :
    (now room : ℕ) (store : Store) (st : State) (frame : Bytes) (ip port seq : ℕ)
    (req : SetPasswordReq)
    → session_owns st ip ≡ true
    → set_password_req_unpack frame ≡ some req
    → IsKept st (handle_set_password now room store st frame ip port seq).state ⊎ IsChange st req
unfolding handle_set_password session_touch
handle_set_password-IsChange now room store st frame ip port seq req owns e =
    let st1 = session_touch now st in
    elim (Bool-cases (set_password_error st1 req == 0)) [
      | inl ok ↦
          let c = set_password_error-IsChange st1 req ((==_iff _ _).0 ok) in
          inr (record {
            old = c.old;
            old_chars = c.old_chars;
            old_terminated = c.old_terminated;
            new_chars = c.new_chars;
            new_length = c.new_length;
            new_terminated = c.new_terminated;
          })
      | inr bad ↦
          let k = accept_password-IsKept now store st1 req ip port seq (ground arith) in
          inl (
            rw (e, check_login_required_holder now st ip owns, handle_set_password)
              (record { password = k.password; pending = k.pending }))
    ]
