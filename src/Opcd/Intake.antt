-- ===== src/Opcd/Intake.antt =====
-- opcd/handler.c: which part of a received datagram is the frame, the answer to a bad length, and
-- the dispatch.
pub mod Laws
use wlan_opc.Base.{
  ℕ, suc, ◌+◌, ◌-◌, ◌≤◌, ◌<◌, ◌≡◌, refl, Bool, true, false, not, ◌&&◌, ◌||◌, Option, none, some,
  List, [], ◌∷◌, ◌++◌, Bytes, ◌==◌, ◌/=◌, ltb, leb, if◌then◌else◌, length, take, arith,
}
use wlan_opc.Protocol.Ids.{fixed_header_size, header_size, frame_max, cmd_request}
use wlan_opc.Protocol.Codec.{Header, fixed_header_unpack}
use wlan_opc.Protocol.Frame.{frame_parse}
use wlan_opc.Opcd.State.{State, Datagram}
use wlan_opc.Opcd.Session.{Outcome, opcd_session_logout}

-- The size of the frame at the front of the datagram, 0 for a bad length.
unfoldable pub opcd_intake_frame_len : Bytes → ℕ
opcd_intake_frame_len frame = elim (fixed_header_unpack frame) [
  | none ↦ 0
  | some hdr ↦
      let want = fixed_header_size + hdr.length_field in
      let valid_extent =
        (want == fixed_header_size) || (leb header_size want && leb want frame_max) in
      if not valid_extent || ltb (length frame) want then 0 else want
]

-- A handler takes the state, the frame, the client's address and port, and the sequence number.
abbrev pub Handler : Type 0
Handler = State → Bytes → ℕ → ℕ → ℕ → Outcome

-- The rows of `opcd_dispatch_table` in order; the first with the id answers.
unfoldable pub find_handler : List (ℕ × Handler) → ℕ → Option Handler
find_handler [] req_id = none
find_handler ((id, fn) ∷ rows) req_id =
    let rest = find_handler rows req_id in if id == req_id then some fn else rest

-- A session whose idle time is over ends before the request is looked at.
unfoldable pub expire_session : ℕ → State → State × List Datagram
unfolding opcd_session_logout
expire_session now st =
    if st.logged_in && leb st.idle_deadline now then opcd_session_logout st else (st, [])

-- The table is a parameter; a request that is dropped is the return value -1.
unfoldable pub opcd_dispatch :
    List (ℕ × Handler) → (now : ℕ) → State → Bytes → (client_ip client_port : ℕ) → Outcome × Bool
unfolding expire_session find_handler
opcd_dispatch table now st frame client_ip client_port = elim (frame_parse frame) [
  | none ↦ (record { state = st; sent = []; resp = none }, false)
  | some (hdr, _) ↦
      let (st1, sent) = expire_session now st in
      if hdr.command_type /= cmd_request
      then (record { state = st; sent = []; resp = none }, false)
      else elim (find_handler table hdr.req_indication_id) [
        | none ↦ (record { state = st1; sent = sent; resp = none }, false)
        | some fn ↦
            let out = fn st1 frame client_ip client_port hdr.sequence_number in
            (record out { sent = sent ++ out.sent }, true)
      ]
]
