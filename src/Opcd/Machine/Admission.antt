-- ===== src/Opcd/Machine/Admission.antt =====
-- The invariant over the admission of a write and its hand-over.
use wlan_opc.Base.{inl, inr, Bool, not, Option, none, some, List, [], Bool-cases, Option-cases}
use wlan_opc.Opcd.State.{Datagram, State, PendingAck, PersistResource}
use wlan_opc.Opcd.Persist.{
  Done, Store, Admission, admission_ok, admission_busy, complete_all, admit_or,
  opcd_store_async_on_ready, persist_admit, admit_attempt, persist_blob, pending_ack_alloc,
}
use wlan_opc.Opcd.Machine.Safe.{either_answer-IsSafe, IsSafe, either_sending-IsSafe}
use wlan_opc.Opcd.Machine.Writes.{complete_all-IsSafe}

admit_or-IsSafe :
    (o : Option Admission) (st : State) (sent : List Datagram)
    (later : State × List Datagram × Admission)
    → IsSafe st
    → IsSafe later.0
    → IsSafe (admit_or o st sent later).0
admit_or-IsSafe none st sent later h l = l
admit_or-IsSafe (some a) st sent later h l = h

module _ {st : State} (h : IsSafe st) where
  pub opcd_store_async_on_ready-IsSafe :
      (applied : Option Bool) (ds : List Done) → IsSafe (opcd_store_async_on_ready applied st ds).0
  unfolding opcd_store_async_on_ready
  opcd_store_async_on_ready-IsSafe applied ds =
      either_sending-IsSafe (not st.store_attached) (st, []) (complete_all applied st ds) h
        (complete_all-IsSafe applied ds st h)

  pub persist_admit-IsSafe :
      (store : Store) (r : PersistResource) → IsSafe (persist_admit store st r).0
  unfolding persist_admit
  persist_admit-IsSafe store r =
      let (st1, sent) = opcd_store_async_on_ready store.radio_applied st store.dones in
      let s1 = opcd_store_async_on_ready-IsSafe store.radio_applied store.dones in
      let later =
        admit_or (admit_attempt st1 r store.second) st1 sent (st1, sent, admission_busy) in
      either_answer-IsSafe (not st.store_attached) (st, [], admission_ok)
        (admit_or (admit_attempt st r store.first) st [] later) h
        (admit_or-IsSafe (admit_attempt st r store.first) st [] later h (
          admit_or-IsSafe (admit_attempt st1 r store.second) st1 sent (st1, sent, admission_busy) s1
            s1))

  pub persist_blob-IsSafe :
      (store : Store) (pa : PendingAck) → IsSafe (persist_blob store st pa).state
  unfolding persist_blob
  persist_blob-IsSafe store pa = elim (Bool-cases st.store_attached) [
    | inr off ↦ simp off h
    | inl on ↦ elim (Option-cases (pending_ack_alloc st.pending_acks)) [
      | inl full ↦ simp (on, full) h
      | inr (slot, e) ↦ elim (Bool-cases store.submitted) [
        | inl sent ↦ simp (on, e, sent) (record { lists = h.lists })
        | inr lost ↦ simp (on, e, lost) h
      ]
    ]
  ]
