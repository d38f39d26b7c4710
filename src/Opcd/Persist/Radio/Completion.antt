-- ===== src/Opcd/Persist/Radio/Completion.antt =====
-- When a radio configuration counts as committed, and what the end of its write decides.
use wlan_opc.Base.{
  ℕ, suc, ◌≡◌, ◌⊎◌, refl, sym, ap, ◌∙◌, ap₂, inl, inr, Bool, true, false, not, ◌&&◌, Option, none,
  some, List, [], ◌∷◌, ◌==◌, ==_iff, eq→==, Bool-cases, Option-cases, get_elem?, set, arith,
}
use wlan_opc.Protocol.Ids.{req_set_radio_config}
use wlan_opc.Protocol.Commands.Records.{SetRadioConfigReq}
use wlan_opc.Opcd.State.{State, PendingAck, persist_radio, Datagram}
use wlan_opc.Opcd.Session.{session_touch}
use wlan_opc.Opcd.IpChange.{persist_resource_busy}
use wlan_opc.Opcd.Persist.{
  Store, StoreOutcome, pending_ack_alloc, is_request_retransmission, persist_blob, radio_arm_revert,
  opcd_radio_revert_drain, complete_radio, Admission,
}
use wlan_opc.Opcd.RadioChecks.Laws.{IsTaken, radio_cfg_differs→eq, radio_error-IsTaken}
use wlan_opc.Opcd.RadioChecks.{radio_cfg_differs, radio_baseline_covers, radio_error}
use wlan_opc.Opcd.Persist.Radio.{
  RadioAnswers, set_radio_gen, publish_radio, radio_pending, write_radio, apply_radio,
  radio_admission, accept_radio,
}

persist_blob-radio :
    (store : Store) (st : State) (pa : PendingAck)
    → (persist_blob store st pa).state.radio ≡ st.radio
unfolding persist_blob
persist_blob-radio store st pa = elim (Option-cases (pending_ack_alloc st.pending_acks)) [
  | inl full ↦ rw (full, persist_blob) (ground arith)
  | inr (slot, free) ↦ rw (free, persist_blob) (ground arith)
]

-- What an answer OK promises: the configuration is the one of the request, or the one that was in
-- effect and committed before, when that has the station type and the first WLAN of the request.
pub record IsCommitted (st : State) (req : SetRadioConfigReq) (st' : State) : Type 0 where
  pub committed : st'.radio_committed ≡ true
  pub station : st'.radio.station_type ≡ req.station_type
  pub wlan1 : st'.radio.wlan1 ≡ req.wlan1
  pub whole : (st'.radio ≡ req) ⊎ ((st'.radio ≡ st.radio) × (st.radio_committed ≡ true))

-- A state that takes the configuration of the request over.
taken-IsCommitted :
    (st st' : State) (req : SetRadioConfigReq)
    → st'.radio_committed ≡ true
    → st'.radio ≡ req
    → IsCommitted st req st'
taken-IsCommitted st st' req committed radio = record {
  committed = committed;
  station = ap (λ (r : SetRadioConfigReq). r.station_type) radio;
  wlan1 = ap (λ (r : SetRadioConfigReq). r.wlan1) radio;
  whole = inl radio;
}

-- A request that does not differ from the configuration in effect.
equal-IsCommitted :
    (now : ℕ) (st : State) (req : SetRadioConfigReq)
    → st.radio_committed ≡ true
    → radio_cfg_differs req st.radio ≡ false
    → IsCommitted st req (session_touch now st)
unfolding session_touch
equal-IsCommitted now st req committed same =
    let (station, wlan1) = radio_cfg_differs→eq req st.radio same in
    record {
      committed = committed;
      station = sym station;
      wlan1 = sym wlan1;
      whole = inr (refl, committed);
    }

write_radio-IsCommitted :
    (now : ℕ) (store : Store) (before st : State) (req : SetRadioConfigReq) (ip port seq : ℕ)
    → (write_radio now store st req ip port seq).1 ≡ some 0
    → IsCommitted before req (write_radio now store st req ip port seq).0
unfolding write_radio session_touch publish_radio
write_radio-IsCommitted now store before st req ip port seq e =
    let p = persist_blob store (publish_radio st req) (radio_pending ip port seq) in
    elim (Bool-cases p.ok) [
      | inr bad ↦ let e' = simp bad at e in absurd (ground arith)
      | inl good ↦ elim (Bool-cases p.deferred) [
        | inl wait ↦ let e' = simp (good, wait) at e in absurd (cc)
        | inr now_done ↦
            simp (good, now_done)
              (taken-IsCommitted before _ req refl
                (persist_blob-radio store (publish_radio st req) (radio_pending ip port seq)))
      ]
    ]

apply_radio-IsCommitted :
    (now : ℕ) (store : Store) (answers : RadioAnswers) (before st : State) (req : SetRadioConfigReq)
    (ip port seq : ℕ)
    → (apply_radio now store answers st req ip port seq).1 ≡ some 0
    → IsCommitted before req (apply_radio now store answers st req ip port seq).0
unfolding apply_radio
apply_radio-IsCommitted now store answers before st req ip port seq e =
    elim (Bool-cases answers.marker_written) [
      | inr unmarked ↦ let e' = simp unmarked at e in absurd (ground arith)
      | inl marked ↦ elim (Bool-cases answers.applied) [
        | inr failed ↦ let e' = simp (marked, failed) at e in absurd (ground arith)
        | inl applied ↦
            let e' = simp (marked, applied) at e in
            simp (marked, applied) (write_radio-IsCommitted now store before st req ip port seq e')
      ]
    ]

radio_admission-IsCommitted :
    (now : ℕ) (store : Store) (answers : RadioAnswers) (before st : State) (sent : List Datagram)
    (a : Admission) (req : SetRadioConfigReq) (ip port seq : ℕ)
    → (radio_admission now store answers st sent a req ip port seq).2 ≡ some 0
    → IsCommitted before req (radio_admission now store answers st sent a req ip port seq).0
unfolding radio_admission
radio_admission-IsCommitted now store answers before st sent Admission.admission_busy req ip port
      seq e =
    absurd (cc)
radio_admission-IsCommitted now store answers before st sent Admission.admission_failed req ip port
      seq e =
    absurd (ground arith)
radio_admission-IsCommitted now store answers before st sent Admission.admission_ok req ip port seq
      e =
    apply_radio-IsCommitted now store answers before st req ip port seq e

-- A request of the holder of the session that is answered OK at once is for a single station, and
-- its mode, bandwidth, band and channels are valid and the platform has them. The configuration then in
-- effect is committed and has the station type and the first WLAN of the request. It is the whole
-- request, or the one that was in effect and committed before.
pub accept_radio-IsCommitted :
    (now : ℕ) (store : Store) (answers : RadioAnswers) (st : State) (req : SetRadioConfigReq)
    (ip port seq : ℕ)
    → (accept_radio now store answers st req ip port seq).2 ≡ some 0
    → IsTaken answers.capability req
      × IsCommitted st req (accept_radio now store answers st req ip port seq).0
unfolding accept_radio session_touch
accept_radio-IsCommitted now store answers st req ip port seq e =
    elim (Bool-cases (persist_resource_busy st.pending_acks persist_radio)) [
      | inl busy ↦ let e' = simp busy at e in absurd (cc)
      | inr free ↦ elim (Bool-cases (radio_error answers.capability req == 0)) [
        | inr bad ↦ let e' = simp (free, bad) at e in absurd (ground arith)
        | inl good ↦
            elim (Bool-cases (st.radio_committed && not (radio_cfg_differs req st.radio))) [
              | inl equal ↦ (
                radio_error-IsTaken answers.capability req ((==_iff _ _).0 good),
                simp (free, good, equal)
                    (equal-IsCommitted now st req (ground arith) (ground arith)),
              )
              | inr differs ↦
                  let e' = simp (free, good, differs) at e in
                  (
                    radio_error-IsTaken answers.capability req ((==_iff _ _).0 good),
                    simp (free, good, differs)
                        (radio_admission-IsCommitted now store answers st _ _ _ req ip port seq e'),
                  )
            ]
      ]
    ]

-- The configuration in effect after the write, and whether it is committed.
abbrev pub radio_after :
    StoreOutcome → (covers : Bool) → (old new : SetRadioConfigReq) → SetRadioConfigReq
radio_after StoreOutcome.unchanged true old new = old
radio_after StoreOutcome.unchanged false old new = new
radio_after StoreOutcome.replaced_unsynced covers old new = new
radio_after StoreOutcome.durable covers old new = new

abbrev pub committed_after : StoreOutcome → (covers was_committed : Bool) → Bool
committed_after StoreOutcome.unchanged covers was = covers && was
committed_after StoreOutcome.replaced_unsynced covers was = false
committed_after StoreOutcome.durable covers was = true

radio_after_eq :
    (o : StoreOutcome) {covers covers' : Bool} {old old' new new' : SetRadioConfigReq}
    → covers ≡ covers'
    → old ≡ old'
    → new ≡ new'
    → radio_after o covers old new ≡ radio_after o covers' old' new'
radio_after_eq o c e n = λ i. radio_after o (c i) (e i) (n i)

set_radio_gen-set :
    (pas : List PendingAck) (slot ip port seq gen : ℕ)
    → pending_ack_alloc pas ≡ some slot
    → is_request_retransmission pas req_set_radio_config ip port ≡ false
    → get_elem?
        (set_radio_gen (set pas slot (radio_pending ip port seq)) req_set_radio_config ip port gen)
        slot
      ≡ some (record (radio_pending ip port seq) { radio_gen = gen })
unfolding pending_ack_alloc is_request_retransmission set_radio_gen
set_radio_gen-set [] slot ip port seq gen e r = absurd (cc)
set_radio_gen-set (pa ∷ pas) slot ip port seq gen e r = elim (Bool-cases pa.in_use) [
  | inr free ↦
      let here : slot ≡ 0 = ground arith in
      rw here (
        simp
          (
            eq→== req_set_radio_config req_set_radio_config refl,
            eq→== ip ip refl,
            eq→== port port refl,
          )
          refl)
  | inl used ↦ elim (Option-cases (pending_ack_alloc pas)) [
    | inl full ↦ absurd (ground arith)
    | inr (i, free) ↦
        let there : slot ≡ suc i = ground arith in
        let other : (pa.in_use
              && (pa.req_id == req_set_radio_config)
              && (pa.client_ip == ip)
              && (pa.client_port == port))
            ≡ false =
          ground arith in
        let more : is_request_retransmission pas req_set_radio_config ip port ≡ false =
          ground arith in
        rw there (simp other (set_radio_gen-set pas i ip port seq gen free more))
  ]
]

-- The state that waits for the write.
record IsWaiting (st : State) (req : SetRadioConfigReq) (slot ip port seq : ℕ)
    (p : State × Option ℕ) : Type 0 where
  answer : p.1 ≡ none
  radio : p.0.radio ≡ req
  committed : p.0.radio_committed ≡ false
  no_revert : p.0.radio_revert_pending ≡ st.radio_revert_pending
  baseline : p.0.radio_revert_cfg ≡ st.radio
  baseline_committed : p.0.radio_revert_committed ≡ st.radio_committed
  baseline_valid : p.0.radio_persist_baseline_valid ≡ radio_baseline_covers st req
  write :
      get_elem? p.0.pending_acks slot
      ≡ some (record (radio_pending ip port seq) { radio_gen = p.0.radio_gen })

write_radio-IsWaiting :
    (now : ℕ) (store : Store) (st : State) (req : SetRadioConfigReq) (ip port seq slot : ℕ)
    → st.store_attached ≡ true
    → pending_ack_alloc st.pending_acks ≡ some slot
    → store.submitted ≡ true
    → is_request_retransmission st.pending_acks req_set_radio_config ip port ≡ false
    → IsWaiting st req slot ip port seq (write_radio now store st req ip port seq)
unfolding write_radio session_touch publish_radio persist_blob
write_radio-IsWaiting now store st req ip port seq slot on free sent fresh =
    simp (on, free, sent)
      (record {
        answer = refl;
        radio = refl;
        committed = refl;
        no_revert = refl;
        baseline = refl;
        baseline_committed = refl;
        baseline_valid = refl;
        write = set_radio_gen-set st.pending_acks slot ip port seq _ free fresh;
      })

complete_radio_outcome :
    (st : State) (o : StoreOutcome)
    → st.radio_revert_pending ≡ false
    → ((complete_radio (some true) st st.radio_gen o).radio
        ≡ radio_after o st.radio_persist_baseline_valid st.radio_revert_cfg st.radio)
      × ((complete_radio (some true) st st.radio_gen o).radio_committed
          ≡ committed_after o st.radio_persist_baseline_valid st.radio_revert_committed)
unfolding complete_radio opcd_radio_revert_drain radio_arm_revert
complete_radio_outcome st StoreOutcome.durable quiet =
    simp (eq→== st.radio_gen st.radio_gen refl) (refl, refl)
complete_radio_outcome st StoreOutcome.replaced_unsynced quiet =
    simp (eq→== st.radio_gen st.radio_gen refl) (refl, refl)
complete_radio_outcome st StoreOutcome.unchanged quiet =
    elim (Bool-cases st.radio_persist_baseline_valid) [
      | inl valid ↦ simp (eq→== st.radio_gen st.radio_gen refl, valid) (refl, refl)
      | inr unknown ↦ simp (eq→== st.radio_gen st.radio_gen refl, unknown, quiet) (refl, refl)
    ]

-- With the writer attached, a slot free and no request of this client waiting, a configuration that
-- the platform took is in effect but not committed while its write is under way, and the slot is bound
-- to its generation. The end of that write commits it when it is durable, leaves it uncommitted when
-- the file was replaced but not synced, and when the file was not replaced puts the configuration
-- before it back, committed as it was, if that one can be restored. The platform takes the restored
-- one, and no other restore is pending.
pub apply_radio-complete_radio :
    (now : ℕ) (store : Store) (answers : RadioAnswers) (st : State) (req : SetRadioConfigReq)
    (ip port seq slot : ℕ) (o : StoreOutcome)
    → st.store_attached ≡ true
    → pending_ack_alloc st.pending_acks ≡ some slot
    → is_request_retransmission st.pending_acks req_set_radio_config ip port ≡ false
    → st.radio_revert_pending ≡ false
    → store.submitted ≡ true
    → answers.marker_written ≡ true
    → answers.applied ≡ true
    → let st' = (apply_radio now store answers st req ip port seq).0 in
      let covers = radio_baseline_covers st req in
      ((apply_radio now store answers st req ip port seq).1 ≡ none)
      × (st'.radio ≡ req)
      × (st'.radio_committed ≡ false)
      × (get_elem? st'.pending_acks slot
          ≡ some (record (radio_pending ip port seq) { radio_gen = st'.radio_gen }))
      × ((complete_radio (some true) st' st'.radio_gen o).radio ≡ radio_after o covers st.radio req)
      × ((complete_radio (some true) st' st'.radio_gen o).radio_committed
          ≡ committed_after o covers st.radio_committed)
unfolding apply_radio
apply_radio-complete_radio now store answers st req ip port seq slot o on free fresh quiet sent
      marked applied =
    let w = write_radio-IsWaiting now store st req ip port seq slot on free sent fresh in
    let st' = (write_radio now store st req ip port seq).0 in
    let (radio, committed) = complete_radio_outcome st' o (w.no_revert ∙ quiet) in
    simp (marked, applied)
      (
        w.answer,
        w.radio,
        w.committed,
        w.write,
        radio ∙ radio_after_eq o w.baseline_valid w.baseline w.radio,
        committed ∙ ap₂ (committed_after o) w.baseline_valid w.baseline_committed,
      )
