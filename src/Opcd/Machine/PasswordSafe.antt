-- ===== src/Opcd/Machine/PasswordSafe.antt =====
-- The invariant over SetPassword.
use wlan_opc.Base.{ℕ, inl, inr, List, Bytes, ◌==◌, Bool-cases, Option-cases}
use wlan_opc.Protocol.Commands.Records.{SetPasswordReq}
use wlan_opc.Protocol.Commands.Requests.{set_password_req_unpack}
use wlan_opc.Opcd.State.{State, Datagram, persist_password}
use wlan_opc.Opcd.Session.{check_login_required}
use wlan_opc.Opcd.IpChange.{persist_resource_busy}
use wlan_opc.Opcd.Persist.{Store, Admission, Persisted, replaced, persist_admit}
use wlan_opc.Opcd.Persist.Password.{
  set_password_error, candidate_of, take_password, write_password, password_admission,
  accept_password, handle_set_password,
}
use wlan_opc.Opcd.Machine.Safe.{IsSafe, session_touch-IsSafe, check_login_required-IsSafe}
use wlan_opc.Opcd.Machine.Requests.{LoginCheck-cases}
use wlan_opc.Opcd.Machine.Writes.{password_note_outcome-IsSafe}
use wlan_opc.Opcd.Machine.Admission.{persist_admit-IsSafe, persist_blob-IsSafe}

take_password-IsSafe :
    (p : Persisted) (candidate : Bytes) → IsSafe p.state → IsSafe (take_password p candidate)
unfolding take_password
take_password-IsSafe p candidate h =
    let noted = password_note_outcome-IsSafe h candidate p.outcome in
    elim (Bool-cases p.deferred) [
      | inl wait ↦ simp wait (record { lists = h.lists })
      | inr now ↦ elim (Bool-cases (replaced p.outcome)) [
        | inl taken ↦ simp (now, taken) (record { lists = noted.lists })
        | inr kept ↦ simp (now, kept) noted
      ]
    ]

module _ {st : State} (h : IsSafe st) where
  write_password-IsSafe :
      (now : ℕ) (store : Store) (candidate : Bytes) (ip port seq : ℕ)
      → IsSafe (write_password now store st candidate ip port seq).0
  unfolding write_password
  write_password-IsSafe now store candidate ip port seq =
      take_password-IsSafe _ candidate (persist_blob-IsSafe (session_touch-IsSafe h now) store _)

password_admission-IsSafe :
    (now : ℕ) (store : Store) (st : State) (sent : List Datagram) (a : Admission) (c : Bytes)
    (ip port seq : ℕ)
    → IsSafe st
    → IsSafe (password_admission now store st sent a c ip port seq).0
unfolding password_admission
password_admission-IsSafe now store st sent Admission.admission_busy c ip port seq h =
    session_touch-IsSafe h now
password_admission-IsSafe now store st sent Admission.admission_failed c ip port seq h = h
password_admission-IsSafe now store st sent Admission.admission_ok c ip port seq h =
    write_password-IsSafe h now store c ip port seq

module _ {st : State} (h : IsSafe st) where
  accept_password-IsSafe :
      (now : ℕ) (store : Store) (req : SetPasswordReq) (ip port seq : ℕ)
      → IsSafe (accept_password now store st req ip port seq).0
  unfolding accept_password
  accept_password-IsSafe now store req ip port seq =
      let (st1, sent, a) = persist_admit store st persist_password in
      let c = candidate_of req in
      let admitted =
        password_admission-IsSafe now store st1 sent a c ip port seq
          (persist_admit-IsSafe h store persist_password) in
      elim (Bool-cases (persist_resource_busy st.pending_acks persist_password)) [
        | inl busy ↦ simp busy (session_touch-IsSafe h now)
        | inr free ↦ elim (Bool-cases (set_password_error st req == 0)) [
          | inl ok ↦ simp (free, ok) admitted
          | inr bad ↦ simp (free, bad) h
        ]
      ]

module _ {st : State} (h : IsSafe st) where
  pub handle_set_password-IsSafe :
      (now room : ℕ) (store : Store) (frame : Bytes) (ip port seq : ℕ)
      → IsSafe (handle_set_password now room store st frame ip port seq).state
  unfolding handle_set_password
  handle_set_password-IsSafe now room store frame ip port seq =
      elim (Option-cases (set_password_req_unpack frame)) [
        | inl u ↦ rw (u, handle_set_password) h
        | inr (req, u) ↦ elim (LoginCheck-cases (check_login_required now st ip)) [
          | inr (err, r) ↦ rw (u, r, handle_set_password) h
          | inl (st1, a) ↦
              rw (u, a, handle_set_password)
                (accept_password-IsSafe (check_login_required-IsSafe h now ip a) now store req ip
                  port seq)
        ]
      ]
