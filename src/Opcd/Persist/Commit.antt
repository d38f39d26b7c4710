-- ===== src/Opcd/Persist/Commit.antt =====
-- When a list that was sent takes effect, and for whom it is taken at all.
use wlan_opc.Base.{
  ℕ, ◌≡◌, refl, ◌∙◌, inl, inr, true, false, not, ◌&&◌, some, Bytes, leb, if◌then◌else◌, Bool-cases,
  arith,
}
use wlan_opc.Protocol.Commands.Simple.{set_ip_config_list_ack_pack}
use wlan_opc.Protocol.Commands.IpConfig.{set_ip_config_list_req_unpack}
use wlan_opc.Protocol.Commands.IpConfig.RoundTrip.{UnpackResult-cases}
use wlan_opc.Opcd.IplistText.{opc_iplist_text_format}
use wlan_opc.Opcd.State.{IpList, State, PendingAck}
use wlan_opc.Opcd.Session.{session_owns}
use wlan_opc.Opcd.Session.Laws.{IsRefused}
use wlan_opc.Opcd.IpList.{Stage}
use wlan_opc.Opcd.IpChange.{arm_ip_change_from_committed, slot_present}
use wlan_opc.Opcd.IpChange.Laws.{check_login_required_outsider, IsRefused-ack}
use wlan_opc.Opcd.Persist.{
  Store, StoreOutcome, Persisted, replaced, pending_ack_alloc, persist_blob, take_ip_list,
  decide_ip_change, complete_ip_list,
}
use wlan_opc.Opcd.Persist.ListHandler.{
  persist_list, take_commit, commit_list, handle_set_ip_config_list, list_ack,
}

arm_ip_change_from_committed-ip_list :
    (st : State) → (arm_ip_change_from_committed st).ip_list ≡ st.ip_list
unfolding arm_ip_change_from_committed
arm_ip_change_from_committed-ip_list st =
    elim (Bool-cases (leb 1 st.ip_change_list_no && leb st.ip_change_list_no 128)) [
      | inr out ↦ simp out
      | inl range ↦ elim (Bool-cases (slot_present st.ip_list st.ip_change_list_no)) [
        | inl present ↦ simp (range, present)
        | inr empty ↦ simp (range, empty)
      ]
    ]

decide_ip_change-ip_list : (st : State) → (decide_ip_change st).ip_list ≡ st.ip_list
unfolding decide_ip_change
decide_ip_change-ip_list st = elim (Bool-cases st.ip_change_logout_deferred) [
  | inr decided ↦ simp decided
  | inl wait ↦ elim (Bool-cases (st.ip_change_pending && not st.ip_change_commit_armed)) [
    | inl asked ↦
        simp (wait, asked)
          (arm_ip_change_from_committed-ip_list (record st { ip_change_logout_deferred = false }))
    | inr idle ↦ simp (wait, idle)
  ]
]

complete_ip_list-ip_list :
    (st : State) (o : StoreOutcome)
    → (complete_ip_list st o).ip_list ≡ (if replaced o then st.pending_ip_list else st.ip_list)
unfolding complete_ip_list take_ip_list
complete_ip_list-ip_list st StoreOutcome.unchanged = decide_ip_change-ip_list _
complete_ip_list-ip_list st StoreOutcome.durable = decide_ip_change-ip_list _
complete_ip_list-ip_list st StoreOutcome.replaced_unsynced = decide_ip_change-ip_list _

-- The text of the list fits its buffer.
abbrev pub IsFitting : IpList → Type 0
IsFitting l = (text : Bytes) × (opc_iplist_text_format l 24576 ≡ some text)

persist_list-deferred :
    (store : Store) (st : State) (l : IpList) (pa : PendingAck) (slot : ℕ)
    → st.store_attached ≡ true
    → pending_ack_alloc st.pending_acks ≡ some slot
    → IsFitting l
    → store.submitted ≡ true
    → ((persist_list store st l pa).deferred ≡ true)
      × ((persist_list store st l pa).state.ip_list ≡ st.ip_list)
unfolding persist_list persist_blob
persist_list-deferred store st l pa slot on free (text, fits) sent =
    rw (fits, persist_list) (simp (on, free, sent) (refl, refl))

take_commit-deferred :
    (p : Persisted) (s : Stage)
    → p.deferred ≡ true
    → ((take_commit p s).ip_list ≡ p.state.ip_list)
      × ((take_commit p s).pending_ip_list ≡ s.candidate)
unfolding take_commit
take_commit-deferred p s wait = simp wait (refl, refl)

commit_list-deferred :
    (store : Store) (st : State) (s : Stage) (err ip port seq slot : ℕ)
    → st.store_attached ≡ true
    → pending_ack_alloc st.pending_acks ≡ some slot
    → IsFitting s.candidate
    → store.submitted ≡ true
    → s.committed ≡ true
    → ((commit_list store st s err ip port seq).0.ip_list ≡ st.ip_list)
      × ((commit_list store st s err ip port seq).0.pending_ip_list ≡ s.candidate)
unfolding commit_list
commit_list-deferred store st s err ip port seq slot on free fits sent done =
    let (wait, list) = persist_list-deferred store st s.candidate _ slot on free fits sent in
    let (same, pending) = take_commit-deferred (persist_list store st s.candidate _) s wait in
    simp done (same ∙ list, pending)

-- With the writer attached and a slot free, a list that a request committed, and whose text fits its
-- buffer, is not yet in effect when the write is handed over. When the write is done it takes effect if the file was replaced, synced or
-- not, and otherwise the list before it stays.
pub complete_ip_list-commit_list :
    (store : Store) (st : State) (s : Stage) (err ip port seq slot : ℕ) (o : StoreOutcome)
    → st.store_attached ≡ true
    → pending_ack_alloc st.pending_acks ≡ some slot
    → IsFitting s.candidate
    → store.submitted ≡ true
    → s.committed ≡ true
    → ((commit_list store st s err ip port seq).0.ip_list ≡ st.ip_list)
      × ((complete_ip_list (commit_list store st s err ip port seq).0 o).ip_list
          ≡ (if replaced o then s.candidate else st.ip_list))
complete_ip_list-commit_list store st s err ip port seq slot o on free fits sent done =
    let (list, pending) =
      commit_list-deferred store st s err ip port seq slot on free fits sent done in
    let st1 = (commit_list store st s err ip port seq).0 in
    (list, rw (complete_ip_list-ip_list st1 o, list, pending))

-- SetIpConfigList of a client that does not hold the session changes nothing, whatever its frame, and
-- is answered NG.
pub handle_set_ip_config_list-IsRefused :
    (now room : ℕ) (store : Store) (st : State) (frame : Bytes) (ip port seq : ℕ)
    → session_owns st ip ≡ false
    → IsRefused st
        (set_ip_config_list_ack_pack room seq)
        (handle_set_ip_config_list now room store st frame ip port seq)
unfolding handle_set_ip_config_list list_ack
handle_set_ip_config_list-IsRefused now room store st frame ip port seq h =
    let (err, nz, e) = check_login_required_outsider now st ip h in
    let pack = set_ip_config_list_ack_pack room seq in
    elim (UnpackResult-cases (set_ip_config_list_req_unpack frame)) [
      | inr (inl u) ↦ rw (u, handle_set_ip_config_list) (IsRefused-ack 3 (ground arith) pack)
      | inr (inr u) ↦ rw (u, handle_set_ip_config_list) (IsRefused-ack 23 (ground arith) pack)
      | inl (req, u) ↦ rw (u, e, handle_set_ip_config_list) (IsRefused-ack err nz pack)
    ]
