-- ===== src/Opcd/IpList/Laws.antt =====
-- A committed list only holds entries that pass every check.
use wlan_opc.Base.{
  ℕ, zero, ◌+◌, ◌-◌, ◌≤◌, ◌<◌, ◌≡◌, refl, ◌∙◌, ◌≢◌, inl, inr, Bool, true, false, ◌||◌, List, [],
  ◌∷◌, ◌==◌, ==_iff, if◌then◌else◌, length, set, get_or, length-set, get_or-set_same,
  get_or-set_other, get_or-replicate, length-replicate, Bool-cases, arith,
}
use wlan_opc.Base.Bits.{test_bit}
use wlan_opc.Protocol.Commands.Records.{IpcfgEntry}
use wlan_opc.Opcd.State.{IpList, no_entry, no_ip_list}
use wlan_opc.Opcd.Validators.{ipcfg_entry_error}
use wlan_opc.Opcd.IpList.{Stage, entry_error, write_slot, stage_entry, stage_entries}

-- Every slot that is present holds an entry without error.
pub record IsSound (l : IpList) : Type 0 where
  pub slots_len : length l.slots ≡ 128
  pub present_len : length l.present ≡ 128
  pub valid :
      (i : ℕ) → get_or l.present i 0 ≢ 0 → ipcfg_entry_error (get_or l.slots i no_entry) true ≡ 0

pub no_ip_list-IsSound : IsSound no_ip_list
no_ip_list-IsSound = record {
  slots_len = length-replicate 128 no_entry;
  present_len = length-replicate 128 zero;
  valid = λ i h. absurd (h (get_or-replicate 128 i zero));
}

ipcfg_entry_error_terminated :
    (e : IpcfgEntry) (t : Bool) → ipcfg_entry_error e t ≡ 0 → ipcfg_entry_error e true ≡ 0
unfolding ipcfg_entry_error
ipcfg_entry_error_terminated e true h = h
ipcfg_entry_error_terminated e false h = ground arith

-- What an entry that is taken is known to be.
pub record IsTaken (e : IpcfgEntry) : Type 0 where
  pub lo : 1 ≤ e.list_number
  pub hi : e.list_number ≤ 128
  pub valid : e.ip_address ≢ 0 → ipcfg_entry_error e true ≡ 0

pub entry_error-IsTaken :
    (e : IpcfgEntry) (t active : Bool) → entry_error e t active ≡ 0 → IsTaken e
unfolding entry_error
entry_error-IsTaken e t active h = record {
  lo = ground arith;
  hi = ground arith;
  valid = λ nz. ipcfg_entry_error_terminated e t (ground arith);
}

pub set_slot-IsSound :
    (l : IpList) (k p : ℕ) (e : IpcfgEntry)
    → IsSound l
    → k < 128
    → (p ≢ 0 → ipcfg_entry_error e true ≡ 0)
    → IsSound (record { slots = set l.slots k e; present = set l.present k p })
set_slot-IsSound l k p e s lt ok = record {
  slots_len = length-set l.slots k e ∙ s.slots_len;
  present_len = length-set l.present k p ∙ s.present_len;
  valid = λ i h. elim (Bool-cases (k == i)) [
    | inl t ↦
        let same : k ≡ i = (==_iff k i).0 t in
        let at_p = get_or-set_same l.present k p zero (omega (arith, s.present_len)) in
        let at_s = get_or-set_same l.slots k e no_entry (omega (arith, s.slots_len)) in
        rw (← same, at_s) (ok (rw (← same, at_p) at h))
    | inr f ↦
        let differ : k ≢ i = ground arith in
        rw (get_or-set_other l.slots k i e no_entry differ)
          (s.valid i (rw (get_or-set_other l.present k i p zero differ) at h))
  ];
}

pub write_slot-IsSound :
    (l : IpList) (e : IpcfgEntry) → IsSound l → IsTaken e → IsSound (write_slot l e)
unfolding write_slot
write_slot-IsSound l e s t =
    let slot = e.list_number - 1 in
    elim (Bool-cases (e.ip_address == 0)) [
      | inl z ↦
          simp z (
            set_slot-IsSound l slot 0 no_entry s (omega (arith, t.lo, t.hi)) (λ h. absurd (h refl)))
      | inr z ↦
          simp z (
            set_slot-IsSound l slot 1 e s (omega (arith, t.lo, t.hi)) (λ h. t.valid (ground arith)))
    ]

-- Both lists of a stage are sound.
pub record IsSoundStage (s : Stage) : Type 0 where
  pub candidate : IsSound s.candidate
  pub staging : IsSound s.staging

either-IsSound : (b : Bool) (l m : IpList) → IsSound l → IsSound m → IsSound (if b then l else m)
either-IsSound true l m hl hm = hl
either-IsSound false l m hl hm = hm

pub stage_entry-IsSoundStage :
    (s : Stage) (e : IpcfgEntry) → IsSoundStage s → IsTaken e → IsSoundStage (stage_entry s e)
unfolding stage_entry
stage_entry-IsSoundStage s e h t =
    let seeds = (e.boundary_flag == 1) || (e.boundary_flag == 3) in
    let ends = (e.boundary_flag == 2) || (e.boundary_flag == 3) in
    let base = if seeds then s.candidate else s.staging in
    let written =
      write_slot-IsSound base e (either-IsSound seeds s.candidate s.staging h.candidate h.staging)
        t in
    elim (Bool-cases ends) [
      | inl y ↦ simp y (record { candidate = written; staging = no_ip_list-IsSound })
      | inr n ↦ simp n (record { candidate = h.candidate; staging = written })
    ]

-- However the entries of a request run, and wherever an error stops them, the list to commit and
-- the staged list only ever hold entries that pass every check, in slots 1 to 128.
pub stage_entries-IsSoundStage :
    (s : Stage) (i mask : ℕ) (es : List IpcfgEntry)
    → IsSoundStage s
    → IsSoundStage (stage_entries s i mask es).0
unfolding stage_entries
stage_entries-IsSoundStage s i mask [] h = h
stage_entries-IsSoundStage s i mask (e ∷ es) h =
    elim (Bool-cases (entry_error e (test_bit mask i) s.staging_active == 0)) [
      | inl ok ↦
          let taken =
            entry_error-IsTaken e (test_bit mask i) s.staging_active ((==_iff _ _).0 ok) in
          simp ok (
            stage_entries-IsSoundStage (stage_entry s e) (i + 1) mask es
              (stage_entry-IsSoundStage s e h taken))
      | inr ng ↦ simp ng h
    ]
