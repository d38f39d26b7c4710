-- ===== src/Opcd/IpList/Cycle.antt =====
-- The cycle from START to END: what is committed, and when.
use wlan_opc.Base.{
  ℕ, ◌+◌, ◌≡◌, refl, ap, sym, ◌∙◌, ◌≢◌, inl, inr, true, false, ◌||◌, List, [], ◌∷◌, ◌++◌, ◌==◌, All,
  Bool-cases, arith,
}
use wlan_opc.Base.Bits.{test_bit}
use wlan_opc.Protocol.Commands.Records.{IpcfgEntry}
use wlan_opc.Opcd.State.{IpList, no_ip_list}
use wlan_opc.Opcd.IpList.{Stage, entry_error, write_slot, stage_entry, stage_entries}

-- The entries written one after another.
abbrev pub write_slots : IpList → List IpcfgEntry → IpList
write_slots l [] = l
write_slots l (e ∷ es) = write_slots (write_slot l e) es

-- A request that runs to its end without error takes its first entry and goes on.
taken_cons :
    (s s' : Stage) (i mask : ℕ) (e : IpcfgEntry) (es : List IpcfgEntry)
    → stage_entries s i mask (e ∷ es) ≡ (s', 0)
    → stage_entries (stage_entry s e) (i + 1) mask es ≡ (s', 0)
unfolding stage_entries
taken_cons s s' i mask e es h =
    elim (Bool-cases (entry_error e (test_bit mask i) s.staging_active == 0)) [
      | inl ok ↦ simp ok at h
      | inr ng ↦ absurd (let f = simp ng at h in ground arith)
    ]

-- After END nothing is staged and the staged list is the one to commit.
abbrev committed_stage : IpList → Stage
committed_stage l = record {
  candidate = l;
  staging = no_ip_list;
  staging_active = false;
  committed = true;
}

stage_entry_end :
    (s : Stage) (e : IpcfgEntry)
    → e.boundary_flag ≡ 2
    → stage_entry s e ≡ committed_stage (write_slot s.staging e)
unfolding stage_entry
stage_entry_end s e f = rw f

stage_entry_continue :
    (s : Stage) (e : IpcfgEntry)
    → e.boundary_flag ≡ 0
    → stage_entry s e ≡ record s { staging = write_slot s.staging e }
unfolding stage_entry
stage_entry_continue s e f = rw f

stage_entry_start :
    (s : Stage) (e : IpcfgEntry)
    → e.boundary_flag ≡ 1
    → stage_entry s e ≡ record s { staging = write_slot s.candidate e; staging_active = true }
unfolding stage_entry
stage_entry_start s e f = rw f

stage_entries_nil : (s s' : Stage) (i mask : ℕ) → stage_entries s i mask [] ≡ (s', 0) → s ≡ s'
unfolding stage_entries
stage_entries_nil s s' i mask h = ap (λ (r : Stage × ℕ). r.0) h

stage_entries_tail :
    (s s' : Stage) (i mask : ℕ) (es : List IpcfgEntry) (last : IpcfgEntry)
    → All (λ (e : IpcfgEntry). e.boundary_flag ≡ 0) es
    → last.boundary_flag ≡ 2
    → stage_entries s i mask (es ++ (last ∷ [])) ≡ (s', 0)
    → s' ≡ committed_stage (write_slots s.staging (es ++ (last ∷ [])))
stage_entries_tail s s' i mask [] last c f h =
    sym (stage_entries_nil (stage_entry s last) s' (i + 1) mask (taken_cons s s' i mask last [] h))
    ∙ stage_entry_end s last f
stage_entries_tail s s' i mask (e ∷ es) last c f h =
    stage_entries_tail (record s { staging = write_slot s.staging e }) s' (i + 1) mask es last c.1 f
      (rw (stage_entry_continue s e c.0) at (taken_cons s s' i mask e (es ++ (last ∷ [])) h))

-- A request START, CONTINUE, ..., END whose entries are all taken commits exactly the list that it
-- started from with its entries written in order, and leaves nothing staged; what was staged before
-- has no effect.
pub stage_entries_cycle :
    (s s' : Stage) (i mask : ℕ) (first last : IpcfgEntry) (es : List IpcfgEntry)
    → first.boundary_flag ≡ 1
    → All (λ (e : IpcfgEntry). e.boundary_flag ≡ 0) es
    → last.boundary_flag ≡ 2
    → stage_entries s i mask (first ∷ (es ++ (last ∷ []))) ≡ (s', 0)
    → (s'.candidate ≡ write_slots s.candidate (first ∷ (es ++ (last ∷ []))))
      × (s'.committed ≡ true)
      × (s'.staging_active ≡ false)
      × (s'.staging ≡ no_ip_list)
stage_entries_cycle s s' i mask first last es f c l h =
    let e =
      stage_entries_tail
        (record s { staging = write_slot s.candidate first; staging_active = true }) s' (i + 1) mask
        es last c l
        (rw (stage_entry_start s first f) at
          (taken_cons s s' i mask first (es ++ (last ∷ [])) h)) in
    rw e (refl, refl, refl, refl)

stage_entry_open :
    (s : Stage) (e : IpcfgEntry)
    → e.boundary_flag ≢ 2
    → e.boundary_flag ≢ 3
    → ((stage_entry s e).candidate ≡ s.candidate) × ((stage_entry s e).committed ≡ s.committed)
unfolding stage_entry
stage_entry_open s e h k =
    let no : ((e.boundary_flag == 2) || (e.boundary_flag == 3)) ≡ false = ground arith in
    simp no (refl, refl)

-- Without an END among its entries a request commits nothing: the list in effect is the same,
-- whether or not an entry is refused.
pub stage_entries-uncommitted :
    (s : Stage) (i mask : ℕ) (es : List IpcfgEntry)
    → All (λ (e : IpcfgEntry). (e.boundary_flag ≢ 2) × (e.boundary_flag ≢ 3)) es
    → ((stage_entries s i mask es).0.candidate ≡ s.candidate)
      × ((stage_entries s i mask es).0.committed ≡ s.committed)
unfolding stage_entries
stage_entries-uncommitted s i mask [] c = (refl, refl)
stage_entries-uncommitted s i mask (e ∷ es) c =
    elim (Bool-cases (entry_error e (test_bit mask i) s.staging_active == 0)) [
      | inl ok ↦
          let (same, still) = stage_entry_open s e c.0.0 c.0.1 in
          let (later, late) = stage_entries-uncommitted (stage_entry s e) (i + 1) mask es c.1 in
          simp ok (later ∙ same, late ∙ still)
      | inr ng ↦ simp ng (refl, refl)
    ]
