-- ===== src/Opcd/Session/Laws.antt =====
-- Who may log in.
use wlan_opc.Base.{
  ℕ, zero, suc, ◌≡◌, refl, ◌≢◌, ◌↔◌, inl, inr, ◌⊎◌, Bool, true, false, not, ◌&&◌, Option, none,
  some, [], ◌∷◌, Bytes, ◌==◌, ==_iff, if◌then◌else◌, take, Bool-cases, Option-cases, arith,
}
use wlan_opc.Protocol.Codec.{byte_at}
use wlan_opc.Protocol.CString.{bounded_strnlen}
use wlan_opc.Protocol.Commands.Records.{Ack, LoginReq}
use wlan_opc.Protocol.Commands.Requests.{login_req_unpack}
use wlan_opc.Protocol.Commands.Simple.{login_ack_pack}
use wlan_opc.Opcd.State.{State, device_booting, opcd_ind_init_complete}
use wlan_opc.Opcd.Validators.{strncmp_eq, valid_opc_charset}
use wlan_opc.Opcd.State.Sending.{opcd_ind_init_complete-state}
use wlan_opc.Opcd.Session.{
  session_touch, login_session, login_drop_change, Outcome, login_error, login_accept, handle_login,
}

-- The text that a character array holds, at most `n` bytes of it.
abbrev pub text : ℕ → Bytes → Bytes
text n s = take (bounded_strnlen s n) s

text_nil : (n : ℕ) → text n [] ≡ []
unfolding bounded_strnlen
text_nil zero = refl
text_nil (suc n) = refl

text_cons : (n c : ℕ) (s : Bytes) → text (suc n) (c ∷ s) ≡ (if c == 0 then [] else c ∷ text n s)
unfolding bounded_strnlen
text_cons n c s = elim (Bool-cases (c == 0)) [ inl e ↦ rw e | inr e ↦ rw e ]

-- Two texts are the same when they start with the same byte and go on the same, or both end.
strncmp_step :
    (n c d : ℕ) (a b : Bytes)
    → (strncmp_eq n a b ≡ true) ↔ (text n a ≡ text n b)
    → (strncmp_eq (suc n) (c ∷ a) (d ∷ b) ≡ true)
      ↔ ((if c == 0 then [] else c ∷ text n a) ≡ (if d == 0 then [] else d ∷ text n b))
unfolding strncmp_eq
strncmp_step n c d a b ih = ground arith

-- The comparison of two texts answers equal exactly when their first `n` bytes, cut at the first NUL,
-- are the same.
pub strncmp_eq_iff : (n : ℕ) (a b : Bytes) → (strncmp_eq n a b ≡ true) ↔ (text n a ≡ text n b)
unfolding strncmp_eq
strncmp_eq_iff zero a b = unfold bounded_strnlen in ground arith
strncmp_eq_iff (suc n) [] [] = unfold bounded_strnlen in ground arith
strncmp_eq_iff (suc n) [] (d ∷ b) = rw (text_cons n d b, text_nil (suc n)) (ground arith)
strncmp_eq_iff (suc n) (c ∷ a) [] = rw (text_cons n c a, text_nil (suc n)) (ground arith)
strncmp_eq_iff (suc n) (c ∷ a) (d ∷ b) =
    rw (text_cons n c a, text_cons n d b) (strncmp_step n c d a b (strncmp_eq_iff n a b))

-- What an accepted Login proves of its request.
pub record IsAdmissible (st : State) (req : LoginReq) (ip : ℕ) : Type 0 where
  pub booted : st.boot_status ≢ device_booting
  pub free : (st.logged_in ≡ false) ⊎ (st.holder_ip ≡ ip)
  pub terminated : req.password_terminated ≡ true
  pub charset : valid_opc_charset req.password ≡ true
  pub nonempty : byte_at st.password 0 ≢ 0
  pub password : text 127 req.password ≡ text 127 st.password

login_error-IsAdmissible :
    (st : State) (req : LoginReq) (ip : ℕ)
    → login_error st (some req) ip ≡ 0
    → IsAdmissible st req ip
unfolding login_error
login_error-IsAdmissible st req ip e =
    let same : strncmp_eq 127 req.password st.password ≡ true = ground arith in
    record {
      booted = ground arith;
      free = ground arith;
      terminated = ground arith;
      charset = ground arith;
      nonempty = ground arith;
      password = (strncmp_eq_iff 127 req.password st.password).0 same;
    }

login_error-none : (st : State) (ip : ℕ) → login_error st none ip ≢ 0
unfolding login_error
login_error-none st ip = ground arith

-- What an accepted Login leaves.
pub record IsLoggedIn (st : State) (ip : ℕ) : Type 0 where
  pub logged_in : st.logged_in ≡ true
  pub holder : st.holder_ip ≡ ip
  pub status : st.boot_status ≡ 2

init_complete-IsLoggedIn :
    (st : State) (status ip : ℕ)
    → IsLoggedIn st ip
    → IsLoggedIn (opcd_ind_init_complete st status).0 ip
init_complete-IsLoggedIn st status ip h =
    let (seq, e) = opcd_ind_init_complete-state st status in
    rw e (record { logged_in = h.logged_in; holder = h.holder; status = h.status })

session_touch-IsLoggedIn :
    (now : ℕ) (st : State) (ip : ℕ) → IsLoggedIn st ip → IsLoggedIn (session_touch now st) ip
unfolding session_touch
session_touch-IsLoggedIn now st ip h = record {
  logged_in = h.logged_in;
  holder = h.holder;
  status = h.status;
}

login_drop_change-IsLoggedIn :
    (was : Bool) (st : State) (ip : ℕ) → IsLoggedIn st ip → IsLoggedIn (login_drop_change was st) ip
unfolding login_drop_change
login_drop_change-IsLoggedIn was st ip h =
    elim (Bool-cases
      (not was && not st.ip_change_commit_armed && not st.ip_change_logout_deferred)) [
        | inl e ↦ rw e (record { logged_in = h.logged_in; holder = h.holder; status = h.status })
        | inr e ↦ rw e h
      ]

login_session-IsLoggedIn : (st : State) (ip port : ℕ) → IsLoggedIn (login_session st ip port) ip
unfolding login_session
login_session-IsLoggedIn st ip port = record { logged_in = refl; holder = refl; status = refl }

login_accept-IsLoggedIn :
    (now : ℕ) (st : State) (ip port : ℕ) → IsLoggedIn (login_accept now st ip port).0 ip
unfolding login_accept
login_accept-IsLoggedIn now st ip port =
    let st1 = login_session st ip port in
    let st2 = login_drop_change st.logged_in st1 in
    init_complete-IsLoggedIn (session_touch now st2) 3 ip (
      session_touch-IsLoggedIn now st2 ip
        (login_drop_change-IsLoggedIn st.logged_in st1 ip (login_session-IsLoggedIn st ip port)))

-- An answer NG to a request that changes nothing and sends no indication.
pub record IsRefused (st : State) (pack : Ack → Option Bytes) (out : Outcome) : Type 0 where
  pub state : out.state ≡ st
  pub sent : out.sent ≡ []
  pub cause : ℕ
  pub nonzero : cause ≢ 0
  pub resp : out.resp ≡ pack (record { result = 1; error_cause = cause })

module _ (now room : ℕ) (st : State) (frame : Bytes) (ip port seq : ℕ) where
  handle_login_ok :
      login_error st (login_req_unpack frame) ip ≡ 0
      → (handle_login now room st frame ip port seq).state ≡ (login_accept now st ip port).0
  unfolding handle_login
  handle_login_ok e = rw e

  handle_login_ng :
      login_error st (login_req_unpack frame) ip ≢ 0
      → IsRefused st (login_ack_pack room seq) (handle_login now room st frame ip port seq)
  unfolding handle_login
  handle_login_ng h =
      let err = login_error st (login_req_unpack frame) ip in
      let f : (err == 0) ≡ false = ground arith in
      rw f (record { state = refl; sent = refl; cause = err; nonzero = h; resp = refl })

  -- A Login either changes nothing, sends no indication and is answered NG, or its frame is a
  -- login request with the stored password, the device has booted and no other address holds the
  -- session, and the session is then held by the client.
  pub handle_login-cases :
      IsRefused st (login_ack_pack room seq) (handle_login now room st frame ip port seq)
      ⊎ ((req : LoginReq) × (login_req_unpack frame ≡ some req)
          × IsAdmissible st req ip
          × IsLoggedIn (handle_login now room st frame ip port seq).state ip)
  handle_login-cases = elim (Option-cases (login_req_unpack frame)) [
    | inl e ↦ inl (handle_login_ng (rw e (login_error-none st ip)))
    | inr (req, e) ↦ elim (Bool-cases (login_error st (some req) ip == 0)) [
      | inl z ↦
          let ok : login_error st (some req) ip ≡ 0 = (==_iff _ _).0 z in
          inr (
            req,
            e,
            login_error-IsAdmissible st req ip ok,
            rw (handle_login_ok (rw e ok)) (login_accept-IsLoggedIn now st ip port),
          )
      | inr z ↦ inl (handle_login_ng (rw e (ground arith)))
    ]
  ]
