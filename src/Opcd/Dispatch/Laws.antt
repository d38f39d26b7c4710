-- ===== src/Opcd/Dispatch/Laws.antt =====
-- What the daemon does with the frames of a client that does not hold the session.
use mathlib.Core.Path.{subst}
use mathlib.Core.Option.{some-injective}
use wlan_opc.Base.{
  ℕ, ◌≡◌, ◌≢◌, refl, sym, ◌∙◌, inl, inr, true, false, some, List, [], ◌∷◌, Bytes, ◌==◌, ◌/=◌, leb,
  All, Bool-cases, Option-cases, arith,
}
use wlan_opc.Protocol.Ids.{cmd_request}
use wlan_opc.Protocol.Frame.{frame_parse}
use wlan_opc.Protocol.Commands.Simple.{get_basic_info_req_unpack}
use wlan_opc.Opcd.State.{State}
use wlan_opc.Opcd.Session.{Outcome, Inventory, session_owns, handle_login, handle_get_basic_info}
use wlan_opc.Opcd.Session.Laws.{IsRefused, handle_login-cases}
use wlan_opc.Opcd.IpChange.Laws.{outsider-IsRefused}
use wlan_opc.Opcd.Persist.Refused.{settings-IsRefused}
use wlan_opc.Opcd.DeviceInfo.{FreqSource, DeviceReadings, handle_get_device_info}
use wlan_opc.Opcd.DeviceInfo.Laws.{handle_get_device_info-cases}
use wlan_opc.Opcd.Intake.{Handler, find_handler, expire_session, opcd_dispatch}
use wlan_opc.Opcd.Dispatch.{Answers, opcd_dispatch_table, opcd_reject_bad_length}

-- Nothing is changed and nothing is sent besides the answer.
record IsQuiet (st : State) (out : Outcome) : Type 0 where
  pub state : out.state ≡ st
  pub sent : out.sent ≡ []

IsRefused-IsQuiet : {st : State} {pack : _} {out : Outcome} → IsRefused st pack out → IsQuiet st out
IsRefused-IsQuiet r = record { state = r.state; sent = r.sent }

find_handler-here :
    (k id : ℕ) (f : Handler) (rows : List (ℕ × Handler))
    → (k == id) ≡ true
    → find_handler ((k, f) ∷ rows) id ≡ some f
unfolding find_handler
find_handler-here k id f rows t = rw t

find_handler-there :
    (k id : ℕ) (f : Handler) (rows : List (ℕ × Handler))
    → (k == id) ≡ false
    → find_handler ((k, f) ∷ rows) id ≡ find_handler rows id
unfolding find_handler
find_handler-there k id f rows t = rw t

module _ (P : Handler → Type 0) where
  find_handler-All :
      (rows : List (ℕ × Handler)) (id : ℕ) (fn : Handler)
      → All (λ row. P row.1) rows
      → find_handler rows id ≡ some fn
      → P fn
  unfolding find_handler
  find_handler-All [] id fn ps e = absurd (ground arith)
  find_handler-All ((k, f) ∷ rows) id fn ps e = elim (Bool-cases (k == id)) [
    | inl t ↦ subst P (some-injective f fn (sym (find_handler-here k id f rows t) ∙ e)) (ps.0)
    | inr t ↦ find_handler-All rows id fn (ps.1) (sym (find_handler-there k id f rows t) ∙ e)
  ]

module _ (st : State) (ip : ℕ) (active : st.logged_in ≡ true) (other : st.holder_ip ≢ ip) where
  outside : session_owns st ip ≡ false
  unfolding session_owns
  outside = ground arith

  expire_session-running :
      (now : ℕ) → leb st.idle_deadline now ≡ false → expire_session now st ≡ (st, [])
  unfolding expire_session
  expire_session-running now running = rw (active, running)

  handle_login-IsQuiet :
      (now room : ℕ) (frame : Bytes) (port seq : ℕ)
      → IsQuiet st (handle_login now room st frame ip port seq)
  handle_login-IsQuiet now room frame port seq =
      elim (handle_login-cases now room st frame ip port seq) [
        | inl r ↦ IsRefused-IsQuiet r
        | inr (req, u, ok, l) ↦
            absurd (elim (ok.free) [ inl f ↦ ground arith | inr same ↦ other same ])
      ]

  handle_get_basic_info-IsQuiet :
      (inv : Inventory) (now room : ℕ) (frame : Bytes) (port seq : ℕ)
      → IsQuiet st (handle_get_basic_info inv now room st frame ip port seq)
  unfolding handle_get_basic_info
  handle_get_basic_info-IsQuiet inv now room frame port seq =
      elim (Option-cases (get_basic_info_req_unpack frame)) [
        | inl u ↦ rw (u, handle_get_basic_info) (record { state = refl; sent = refl })
        | inr (req, u) ↦
            rw (u, outside, handle_get_basic_info) (record { state = refl; sent = refl })
      ]

  handle_get_device_info-IsQuiet :
      (src : FreqSource) (inv : Inventory) (r : DeviceReadings) (now room : ℕ) (frame : Bytes)
      (seq : ℕ)
      → IsQuiet st (handle_get_device_info src inv r now room st frame ip seq)
  handle_get_device_info-IsQuiet src inv r now room frame seq =
      let out = outside in
      elim (handle_get_device_info-cases src inv r now room st frame ip seq) [
        | inl (reason, refused) ↦ IsRefused-IsQuiet refused
        | inr (inl (asked, owns, sending, u)) ↦ absurd (ground arith)
        | inr (inr told) ↦ let owns = told.owns in absurd (ground arith)
      ]

  opcd_dispatch_table-IsQuiet :
      (a : Answers) (frame : Bytes) (port seq : ℕ)
      → All (λ row. IsQuiet st (row.1 st frame ip port seq)) (opcd_dispatch_table a)
  opcd_dispatch_table-IsQuiet a frame port seq =
      let (logout, change, reset) =
        outsider-IsRefused a.room st frame ip seq a.now port a.other_iface outside in
      let (password, lists, radio, indication) =
        settings-IsRefused a.now a.mono_now a.room a.store a.radio a.route a.link st frame ip port
          seq outside in
      (
        handle_login-IsQuiet a.now a.room frame port seq,
        (
          IsRefused-IsQuiet logout,
          (
            handle_get_basic_info-IsQuiet a.inventory a.now a.room frame port seq,
            (
              handle_get_device_info-IsQuiet a.freq_source a.inventory a.readings a.now a.room frame
                  seq,
              (
                IsRefused-IsQuiet password,
                (
                  IsRefused-IsQuiet lists,
                  (
                    IsRefused-IsQuiet change,
                    (
                      IsRefused-IsQuiet radio,
                      (IsRefused-IsQuiet indication, (IsRefused-IsQuiet reset, tt)),
                    ),
                  ),
                ),
              ),
            ),
          ),
        ),
      )

  -- While another client holds the session and its idle time is not over, no datagram of the others
  -- changes the state or sends an indication, whatever the frame is and whatever the clocks, the files
  -- and the platform answer; a datagram of a bad length is not answered.
  pub opcd_dispatch-outsider :
      (a : Answers) (frame : Bytes) (port : ℕ)
      → leb st.idle_deadline a.now ≡ false
      → let out = (opcd_dispatch (opcd_dispatch_table a) a.now st frame ip port).0 in
        (out.state ≡ st) × (out.sent ≡ []) × (opcd_reject_bad_length st frame ip port ≡ [])
  unfolding opcd_dispatch opcd_reject_bad_length
  opcd_dispatch-outsider a frame port running =
      let going = expire_session-running a.now running in
      let foreign : (st.holder_ip /= ip) ≡ true = ground arith in
      let silent : opcd_reject_bad_length st frame ip port ≡ [] = rw (active, foreign) in
      elim (Option-cases (frame_parse frame)) [
        | inl u ↦ rw (u, opcd_dispatch) (refl, refl, silent)
        | inr ((hdr, body), u) ↦ elim (Bool-cases (hdr.command_type /= cmd_request)) [
          | inl c ↦ rw (u, c, opcd_dispatch) (refl, refl, silent)
          | inr c ↦
              elim (Option-cases (find_handler (opcd_dispatch_table a) hdr.req_indication_id)) [
                | inl none_found ↦ rw (u, c, none_found, going, opcd_dispatch) (refl, refl, silent)
                | inr (fn, found) ↦
                    let still =
                      find_handler-All (λ h. IsQuiet st (h st frame ip port hdr.sequence_number))
                        (opcd_dispatch_table a) hdr.req_indication_id fn
                        (opcd_dispatch_table-IsQuiet a frame port hdr.sequence_number) found in
                    rw (u, c, found, going, opcd_dispatch) (still.state, still.sent, silent)
              ]
        ]
      ]
