-- ===== src/Opcd/Machine/Writes.antt =====
-- The invariant over the completion of writes.
use wlan_opc.Base.{
  ℕ, inl, inr, Bool, true, false, not, ◌&&◌, Option, none, some, List, [], ◌∷◌, Bytes, ◌==◌,
  if◌then◌else◌, get_elem?, Bool-cases, Option-cases,
}
use wlan_opc.Protocol.Ids.{req_set_radio_config}
use wlan_opc.Protocol.Commands.Records.{SetRadioConfigReq}
use wlan_opc.Opcd.State.{IpList, State, PendingAck, PersistResource}
use wlan_opc.Opcd.Validators.{strncmp_eq}
use wlan_opc.Opcd.IpList.Laws.{IsSound, no_ip_list-IsSound}
use wlan_opc.Opcd.IpChange.{arm_ip_change_from_committed}
use wlan_opc.Opcd.Persist.{
  StoreOutcome, Done, replaced, password_note_outcome, radio_arm_revert, opcd_radio_revert_drain,
  complete_password, take_ip_list, decide_ip_change, complete_ip_list, complete_radio,
  complete_resource, complete_ack, complete, complete_all,
}
use wlan_opc.Opcd.Machine.Safe.{
  IsSafe, arm_ip_change_from_committed-IsSafe, either-IsSafe, either_sending-IsSafe,
}

either-IsSound : (b : Bool) (l m : IpList) → IsSound l → IsSound m → IsSound (if b then l else m)
either-IsSound true l m hl hm = hl
either-IsSound false l m hl hm = hm

module _ {st : State} (h : IsSafe st) where
  pub password_note_outcome-IsSafe :
      (candidate : Bytes) (o : StoreOutcome) → IsSafe (password_note_outcome st candidate o)
  unfolding password_note_outcome
  password_note_outcome-IsSafe candidate StoreOutcome.unchanged = h
  password_note_outcome-IsSafe candidate StoreOutcome.durable = record { lists = h.lists }
  password_note_outcome-IsSafe candidate StoreOutcome.replaced_unsynced =
      elim (Bool-cases (strncmp_eq 127 candidate st.password)) [
        | inl e ↦ simp e h
        | inr e ↦ simp e (record { lists = h.lists })
      ]

  complete_password-IsSafe : (o : StoreOutcome) → IsSafe (complete_password st o)
  unfolding complete_password
  complete_password-IsSafe o =
      let noted = password_note_outcome st st.pending_password o in
      let n : IsSafe noted = password_note_outcome-IsSafe st.pending_password o in
      let taken : IsSafe (record noted { password = st.pending_password }) = record {
        lists = n.lists;
      } in
      let s =
        either-IsSafe (replaced o) (record noted { password = st.pending_password }) noted taken
          n in
      record { lists = s.lists }

  take_ip_list-IsSafe : IsSafe (take_ip_list st)
  unfolding take_ip_list
  take_ip_list-IsSafe =
      let same =
        st.logged_in && (st.session_generation == st.pending_ip_staging_session_generation) in
      record {
        lists = record {
          list = h.lists.pending_list;
          staging =
              either-IsSound same st.pending_ip_staging st.ip_list_staging h.lists.pending_staging
                h.lists.staging;
          pending_list = h.lists.pending_list;
          pending_staging = h.lists.pending_staging;
          armed = h.lists.armed;
        };
      }

  decide_ip_change-IsSafe : IsSafe (decide_ip_change st)
  unfolding decide_ip_change
  decide_ip_change-IsSafe =
      let st1 = record st { ip_change_logout_deferred = false } in
      let s1 : IsSafe st1 = record { lists = h.lists } in
      let waiting = st.ip_change_pending && not st.ip_change_commit_armed in
      either-IsSafe st.ip_change_logout_deferred
        (if waiting then arm_ip_change_from_committed st1 else st1) st
        (either-IsSafe waiting (arm_ip_change_from_committed st1) st1
          (arm_ip_change_from_committed-IsSafe s1) s1)
        h

module _ {st : State} (h : IsSafe st) where
  complete_ip_list-IsSafe : (o : StoreOutcome) → IsSafe (complete_ip_list st o)
  unfolding complete_ip_list
  complete_ip_list-IsSafe o =
      let s = either-IsSafe (replaced o) (take_ip_list st) st (take_ip_list-IsSafe h) h in
      decide_ip_change-IsSafe (record {
        lists = record {
          list = s.lists.list;
          staging = s.lists.staging;
          pending_list = no_ip_list-IsSound;
          pending_staging = no_ip_list-IsSound;
          armed = s.lists.armed;
        };
      })

  pub radio_arm_revert-IsSafe :
      (cfg : SetRadioConfigReq) (committed valid : Bool)
      → IsSafe (radio_arm_revert st cfg committed valid)
  unfolding radio_arm_revert
  radio_arm_revert-IsSafe cfg committed valid = elim (Bool-cases valid) [
    | inl e ↦ rw e (record { lists = h.lists })
    | inr e ↦ rw e (record { lists = h.lists })
  ]

  pub opcd_radio_revert_drain-IsSafe :
      (applied : Option Bool) → IsSafe (opcd_radio_revert_drain applied st)
  unfolding opcd_radio_revert_drain
  opcd_radio_revert_drain-IsSafe applied = elim (Bool-cases st.radio_revert_pending) [
    | inr f ↦ simp f h
    | inl t ↦ elim applied as (λ a. IsSafe (opcd_radio_revert_drain a st)) [
      | none ↦ simp t (record { lists = h.lists })
      | some false ↦ simp t (record { lists = h.lists })
      | some true ↦ simp t (record { lists = h.lists })
    ]
  ]

module _ {st : State} (h : IsSafe st) where
  complete_radio-IsSafe :
      (applied : Option Bool) (gen : ℕ) (o : StoreOutcome)
      → IsSafe (complete_radio applied st gen o)
  unfolding complete_radio
  complete_radio-IsSafe applied gen o =
      let off : IsSafe (record st { radio_committed = false }) = record { lists = h.lists } in
      let on : IsSafe (record st { radio_committed = true }) = record { lists = h.lists } in
      let armed =
        radio_arm_revert-IsSafe off st.radio_revert_cfg st.radio_revert_committed
          st.radio_persist_baseline_valid in
      let reverted = opcd_radio_revert_drain-IsSafe armed applied in
      elim (Bool-cases (gen == st.radio_gen)) [
        | inr other ↦ simp other (record { lists = h.lists })
        | inl mine ↦ elim o as (λ k. IsSafe (complete_radio applied st gen k)) [
          | StoreOutcome.durable ↦ simp mine (record { lists = on.lists })
          | StoreOutcome.replaced_unsynced ↦ simp mine (record { lists = off.lists })
          | StoreOutcome.unchanged ↦ simp mine (record { lists = reverted.lists })
        ]
      ]

  complete_resource-IsSafe :
      (r : PersistResource) (o : StoreOutcome) → IsSafe (complete_resource st r o)
  unfolding complete_resource
  complete_resource-IsSafe PersistResource.persist_none o = h
  complete_resource-IsSafe PersistResource.persist_password o = complete_password-IsSafe h o
  complete_resource-IsSafe PersistResource.persist_ip_list o = complete_ip_list-IsSafe h o
  complete_resource-IsSafe PersistResource.persist_radio o = h

module _ {st : State} (h : IsSafe st) where
  complete_ack-IsSafe :
      (applied : Option Bool) (token : ℕ) (pa : PendingAck) (ok : Bool) (o : StoreOutcome)
      → IsSafe (complete_ack applied st token pa ok o).0
  unfolding complete_ack
  complete_ack-IsSafe applied token pa ok o =
      let st1 = complete_resource st pa.resource o in
      let s1 = complete_resource-IsSafe h pa.resource o in
      let s2 =
        either-IsSafe (pa.req_id == req_set_radio_config)
          (complete_radio applied st1 pa.radio_gen o) st1
          (complete_radio-IsSafe s1 applied pa.radio_gen o) s1 in
      record { lists = s2.lists }

  complete-IsSafe : (applied : Option Bool) (d : Done) → IsSafe (complete applied st d).0
  unfolding complete
  complete-IsSafe applied d = elim (Option-cases (get_elem? st.pending_acks d.token)) [
    | inl no_slot ↦ rw (no_slot, complete) h
    | inr (pa, e) ↦
        rw (e, complete)
          (either_sending-IsSafe (not pa.in_use) (st, [])
            (complete_ack applied st d.token pa d.ok d.outcome) h
            (complete_ack-IsSafe applied d.token pa d.ok d.outcome))
  ]

pub complete_all-IsSafe :
    (applied : Option Bool) (ds : List Done) (st : State)
    → IsSafe st
    → IsSafe (complete_all applied st ds).0
unfolding complete_all
complete_all-IsSafe applied [] st h = h
complete_all-IsSafe applied (d ∷ ds) st h =
    complete_all-IsSafe applied ds (complete applied st d).0 (complete-IsSafe h applied d)
