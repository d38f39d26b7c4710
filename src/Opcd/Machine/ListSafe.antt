-- ===== src/Opcd/Machine/ListSafe.antt =====
-- The invariant over SetIpConfigList.
use wlan_opc.Base.{ℕ, inl, inr, none, List, [], Bytes, Bool-cases, Option-cases}
use wlan_opc.Protocol.Ids.{req_set_ip_config_list}
use wlan_opc.Protocol.Commands.Records.{SetIpConfigListReq}
use wlan_opc.Protocol.Commands.IpConfig.{set_ip_config_list_req_unpack}
use wlan_opc.Protocol.Commands.IpConfig.RoundTrip.{UnpackResult-cases}
use wlan_opc.Opcd.State.{IpList, Datagram, State, PendingAck, persist_ip_list}
use wlan_opc.Opcd.Session.{check_login_required, session_touch}
use wlan_opc.Opcd.IpList.{Stage, stage_entries}
use wlan_opc.Opcd.IpList.Laws.{IsSoundStage, stage_entries-IsSoundStage}
use wlan_opc.Opcd.Persist.{
  Store, Admission, Persisted, replaced, persist_admit, is_request_retransmission,
}
use wlan_opc.Opcd.Persist.ListHandler.{
  persist_list, take_commit, commit_list, initial_stage, stage_request, after_admission,
  accept_list, handle_set_ip_config_list,
}
use wlan_opc.Opcd.Machine.Safe.{
  IsSafe, session_touch-IsSafe, check_login_required-IsSafe, either_answer-IsSafe,
}
use wlan_opc.Opcd.IplistText.{text_max, opc_iplist_text_format}
use wlan_opc.Opcd.Machine.Requests.{LoginCheck-cases}
use wlan_opc.Opcd.Machine.Admission.{persist_admit-IsSafe, persist_blob-IsSafe}

module _ {st : State} (h : IsSafe st) where
  persist_list-IsSafe :
      (store : Store) (l : IpList) (pa : PendingAck) → IsSafe (persist_list store st l pa).state
  unfolding persist_list
  persist_list-IsSafe store l pa = elim (Option-cases (opc_iplist_text_format l text_max)) [
    | inl long ↦ rw (long, persist_list) h
    | inr (text, fits) ↦ rw (fits, persist_list) (persist_blob-IsSafe h store pa)
  ]

take_commit-IsSafe :
    (p : Persisted) (s : Stage) → IsSafe p.state → IsSoundStage s → IsSafe (take_commit p s)
unfolding take_commit
take_commit-IsSafe p s h t = elim (Bool-cases p.deferred) [
  | inl wait ↦ simp wait (record {
    lists = record {
      list = h.lists.list;
      staging = h.lists.staging;
      pending_list = t.candidate;
      pending_staging = t.staging;
      armed = h.lists.armed;
    };
  })
  | inr now ↦ elim (Bool-cases (replaced p.outcome)) [
    | inl taken ↦
        simp (now, taken)
          (record {
            lists = record {
              list = t.candidate;
              staging = t.staging;
              pending_list = h.lists.pending_list;
              pending_staging = h.lists.pending_staging;
              armed = h.lists.armed;
            };
          })
    | inr dropped ↦ simp (now, dropped) h
  ]
]

module _ {st : State} (h : IsSafe st) where
  commit_list-IsSafe :
      (store : Store) (s : Stage) (err ip port seq : ℕ)
      → IsSoundStage s
      → IsSafe (commit_list store st s err ip port seq).0
  unfolding commit_list
  commit_list-IsSafe store s err ip port seq t = elim (Bool-cases s.committed) [
    | inl c ↦ simp c (take_commit-IsSafe _ s (persist_list-IsSafe h store _ _) t)
    | inr more ↦ simp more (record {
      lists = record {
        list = h.lists.list;
        staging = t.staging;
        pending_list = h.lists.pending_list;
        pending_staging = h.lists.pending_staging;
        armed = h.lists.armed;
      };
    })
  ]

module _ {st : State} (h : IsSafe st) where
  stage_request-IsSafe :
      (now : ℕ) (store : Store) (req : SetIpConfigListReq) (ip port seq : ℕ)
      → IsSafe (stage_request now store st req ip port seq).0
  unfolding stage_request
  stage_request-IsSafe now store req ip port seq =
      let run = stage_entries (initial_stage st) 0 req.essid_terminated_mask req.entries in
      let start : IsSoundStage (initial_stage st) =
        unfold initial_stage in record { candidate = h.lists.list; staging = h.lists.staging } in
      commit_list-IsSafe (session_touch-IsSafe h now) store run.0 run.1 ip port seq (
        stage_entries-IsSoundStage (initial_stage st) 0 req.essid_terminated_mask req.entries start)

after_admission-IsSafe :
    (now : ℕ) (store : Store) (st : State) (sent : List Datagram) (a : Admission)
    (req : SetIpConfigListReq) (ip port seq : ℕ)
    → IsSafe st
    → IsSafe (after_admission now store st sent a req ip port seq).0
unfolding after_admission
after_admission-IsSafe now store st sent Admission.admission_busy req ip port seq h =
    session_touch-IsSafe h now
after_admission-IsSafe now store st sent Admission.admission_failed req ip port seq h = h
after_admission-IsSafe now store st sent Admission.admission_ok req ip port seq h =
    stage_request-IsSafe h now store req ip port seq

module _ {st : State} (h : IsSafe st) where
  accept_list-IsSafe :
      (now : ℕ) (store : Store) (req : SetIpConfigListReq) (ip port seq : ℕ)
      → IsSafe (accept_list now store st req ip port seq).0
  unfolding accept_list
  accept_list-IsSafe now store req ip port seq =
      let (st1, sent, a) = persist_admit store st persist_ip_list in
      either_answer-IsSafe
        (is_request_retransmission st.pending_acks req_set_ip_config_list ip port)
        (session_touch now st, [], none) (after_admission now store st1 sent a req ip port seq)
        (session_touch-IsSafe h now)
        (after_admission-IsSafe now store st1 sent a req ip port seq
          (persist_admit-IsSafe h store persist_ip_list))

module _ {st : State} (h : IsSafe st) where
  pub handle_set_ip_config_list-IsSafe :
      (now room : ℕ) (store : Store) (frame : Bytes) (ip port seq : ℕ)
      → IsSafe (handle_set_ip_config_list now room store st frame ip port seq).state
  unfolding handle_set_ip_config_list
  handle_set_ip_config_list-IsSafe now room store frame ip port seq =
      elim (UnpackResult-cases (set_ip_config_list_req_unpack frame)) [
        | inr (inl e) ↦ rw (e, handle_set_ip_config_list) h
        | inr (inr e) ↦ rw (e, handle_set_ip_config_list) h
        | inl (req, e) ↦ elim (LoginCheck-cases (check_login_required now st ip)) [
          | inr (err, r) ↦ rw (e, r, handle_set_ip_config_list) h
          | inl (st1, a) ↦
              rw (e, a, handle_set_ip_config_list)
                (accept_list-IsSafe (check_login_required-IsSafe h now ip a) now store req ip port
                  seq)
        ]
      ]
