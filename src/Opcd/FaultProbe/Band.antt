-- ===== src/Opcd/FaultProbe/Band.antt =====
-- What the probe reports over a sequence of samples.
use wlan_opc.Base.{
  ℕ, ◌+◌, ◌*◌, ◌/◌, ◌%◌, ◌^◌, ◌≤◌, ◌<◌, ◌≡◌, refl, ap, sym, ◌∙◌, inl, inr, ◌⊎◌, ◌↔◌, Bool, true,
  false, ◌&&◌, some, List, [], ◌∷◌, ◌++◌, map, All, ltb, leb→le, min, Bool-cases, arith,
}
use wlan_opc.Opcd.FaultProbe.{
  FaultProbe, FaultRes, res_cpu, res_disk, res_net, res_mem, Deltas, measure_net, Latch, Measure,
  FaultReport, release_pct, fault_over, measure, fault_evaluate,
}
use wlan_opc.Opcd.FaultProbe.Sample.{
  net_delta, Readings, announce, sample_deltas, remember, is_some, pair_or_zero, fault_probe_sample,
}

-- The reports of a sequence of samples, and the probe after it.
unfoldable pub run_samples : FaultProbe → List Readings → List FaultReport × FaultProbe
run_samples p [] = ([], p)
run_samples p (r ∷ rs) =
    let (out, p1) = fault_probe_sample p r in let (outs, p2) = run_samples p1 rs in (out ∷ outs, p2)

abbrev pub bit : Bool → ℕ
bit true = 1
bit false = 0

-- How many reports have a flag.
abbrev pub count_if : (FaultReport → Bool) → List FaultReport → ℕ
count_if flag [] = 0
count_if flag (x ∷ xs) = bit (flag x) + count_if flag xs

-- Entries and announcements before are clears and announcements after.
abbrev IsBalanced : Latch → Measure → Latch → Type 0
IsBalanced l m l' = bit m.entered + bit l.notified ≡ bit m.cleared + bit l'.notified

announce-IsBalanced :
    (measured : Bool) (l : Latch) (m : Measure)
    → m.entered ≡ false
    → m.cleared ≡ false
    → IsBalanced l (announce measured l m).0 (announce measured l m).1
unfolding announce
announce-IsBalanced measured l m e c = ground arith

abbrev pub measure_of : FaultRes → FaultReport → Measure
measure_of res_cpu out = out.cpu
measure_of res_disk out = out.disk
measure_of res_net out = out.net
measure_of res_mem out = out.mem

abbrev pub latch_of : FaultRes → FaultProbe → Latch
latch_of res_cpu p = p.cpu
latch_of res_disk p = p.disk
latch_of res_net p = p.net
latch_of res_mem p = p.mem

-- What is evaluated has no transition yet.
abbrev IsPlain : Measure → Type 0
IsPlain m = (m.entered ≡ false) × (m.cleared ≡ false)

fault_evaluate-IsPlain :
    (res : FaultRes) (p : FaultProbe) (d : Deltas) → IsPlain (measure_of res (fault_evaluate p d))
unfolding fault_evaluate measure measure_net
fault_evaluate-IsPlain res_cpu p d = ground arith
fault_evaluate-IsPlain res_disk p d = ground arith
fault_evaluate-IsPlain res_net p d = ground arith
fault_evaluate-IsPlain res_mem p d = ground arith

fault_probe_sample-IsBalanced :
    (res : FaultRes) (p : FaultProbe) (r : Readings)
    → IsBalanced
        (latch_of res p)
        (measure_of res (fault_probe_sample p r).0)
        (latch_of res (fault_probe_sample p r).1)
unfolding fault_probe_sample remember
fault_probe_sample-IsBalanced res_cpu p r =
    let (e, c) = fault_evaluate-IsPlain res_cpu p (sample_deltas p r) in
    let latched = announce-IsBalanced (is_some r.cpu && p.cpu_primed) p.cpu _ e c in
    elim (Bool-cases p.primed) [ inl on ↦ simp on latched | inr off ↦ simp off refl ]
fault_probe_sample-IsBalanced res_disk p r =
    let (e, c) = fault_evaluate-IsPlain res_disk p (sample_deltas p r) in
    let latched = announce-IsBalanced (is_some r.disk && p.disk_primed) p.disk _ e c in
    elim (Bool-cases p.primed) [ inl on ↦ simp on latched | inr off ↦ simp off refl ]
fault_probe_sample-IsBalanced res_net p r =
    let (e, c) = fault_evaluate-IsPlain res_net p (sample_deltas p r) in
    let latched = announce-IsBalanced (is_some (net_delta p r.net)) p.net _ e c in
    elim (Bool-cases p.primed) [ inl on ↦ simp on latched | inr off ↦ simp off refl ]
fault_probe_sample-IsBalanced res_mem p r =
    let (e, c) = fault_evaluate-IsPlain res_mem p (sample_deltas p r) in
    let latched = announce-IsBalanced (is_some r.mem) p.mem _ e c in
    elim (Bool-cases p.primed) [ inl on ↦ simp on latched | inr off ↦ simp off refl ]

-- Over every sequence of samples, each resource's entries and the announcement that stood before are as
-- many as its clears and the announcement that stands after: no entry is announced again before it
-- cleared, and none clears that was not announced.
pub run_samples-balance :
    (res : FaultRes) (p : FaultProbe) (rs : List Readings)
    → count_if (λ out. (measure_of res out).entered) (run_samples p rs).0
        + bit (latch_of res p).notified
      ≡ count_if (λ out. (measure_of res out).cleared) (run_samples p rs).0
        + bit (latch_of res (run_samples p rs).1).notified
unfolding run_samples
run_samples-balance res p [] = refl
run_samples-balance res p (r ∷ rs) = omega (
  arith,
  fault_probe_sample-IsBalanced res p r,
  run_samples-balance res (fault_probe_sample p r).1 rs,
)

-- The band alone, over a sequence of percentages.
abbrev pub band : FaultProbe → Bool → List ℕ → Bool
band p c [] = c
band p c (x ∷ xs) = band p (fault_over p c x) xs

release_pct-le : (p : FaultProbe) → release_pct p ≤ p.threshold_pct
unfolding release_pct
release_pct-le p = ground arith

-- Some percentage reached the threshold, and none after it fell below the release level.
pub record IsTriggered (p : FaultProbe) (xs : List ℕ) : Type 0 where
  pub before : List ℕ
  pub top : ℕ
  pub after : List ℕ
  pub parts : xs ≡ before ++ (top ∷ after)
  pub reached : p.threshold_pct ≤ top
  pub kept : All (λ x. release_pct p ≤ x) after

over_cases :
    (p : FaultProbe) (c : Bool) (x : ℕ) (xs : List ℕ)
    → fault_over p c x ≡ true
    → All (λ y. release_pct p ≤ y) xs
    → ((c ≡ true) × All (λ y. release_pct p ≤ y) (x ∷ xs)) ⊎ IsTriggered p (x ∷ xs)
unfolding fault_over
over_cases p true x xs over kept = inl (refl, (leb→le _ _ over, kept))
over_cases p false x xs over kept = inr (record {
  before = [];
  top = x;
  after = xs;
  parts = refl;
  reached = leb→le _ _ over;
  kept = kept;
})

band-IsTriggered :
    (p : FaultProbe) (c : Bool) (xs : List ℕ)
    → band p c xs ≡ true
    → ((c ≡ true) × All (λ x. release_pct p ≤ x) xs) ⊎ IsTriggered p xs
band-IsTriggered p c [] h = inl (h, tt)
band-IsTriggered p c (x ∷ xs) h = elim (band-IsTriggered p (fault_over p c x) xs h) [
  | inl (over, kept) ↦ over_cases p c x xs over kept
  | inr t ↦ inr (record {
    before = x ∷ t.before;
    top = t.top;
    after = t.after;
    parts = ap (λ l. x ∷ l) t.parts;
    reached = t.reached;
    kept = t.kept;
  })
]

fault_over-true :
    (p : FaultProbe) (c : Bool) (x : ℕ)
    → (p.threshold_pct ≤ x) ⊎ ((c ≡ true) × (release_pct p ≤ x))
    → fault_over p c x ≡ true
unfolding fault_over
fault_over-true p true x (inl h) = ground (arith, release_pct-le p)
fault_over-true p true x (inr (c, h)) = ground arith
fault_over-true p false x (inl h) = ground arith
fault_over-true p false x (inr (c, h)) = absurd (cc)

band-kept :
    (p : FaultProbe) (c : Bool) (xs : List ℕ)
    → c ≡ true
    → All (λ x. release_pct p ≤ x) xs
    → band p c xs ≡ true
band-kept p c [] e h = e
band-kept p c (x ∷ xs) e h =
    band-kept p (fault_over p c x) xs (fault_over-true p c x (inr (e, h.0))) h.1

band-append :
    (p : FaultProbe) (c : Bool) (xs ys : List ℕ) → band p c (xs ++ ys) ≡ band p (band p c xs) ys
band-append p c [] ys = refl
band-append p c (x ∷ xs) ys = band-append p (fault_over p c x) xs ys

IsTriggered-band : (p : FaultProbe) (c : Bool) (xs : List ℕ) → IsTriggered p xs → band p c xs ≡ true
IsTriggered-band p c xs t = rw t.parts (
    band-append p c t.before (t.top ∷ t.after)
    ∙ band-kept p _ t.after (fault_over-true p (band p c t.before) t.top (inl t.reached)) t.kept)

fault_over-same :
    (p q : FaultProbe) (c : Bool) (x : ℕ)
    → q.threshold_pct ≡ p.threshold_pct
    → q.clear_pct ≡ p.clear_pct
    → fault_over q c x ≡ fault_over p c x
unfolding fault_over
fault_over-same p q c x t l = ground arith

band-same :
    (p q : FaultProbe) (c : Bool) (xs : List ℕ)
    → q.threshold_pct ≡ p.threshold_pct
    → q.clear_pct ≡ p.clear_pct
    → band q c xs ≡ band p c xs
band-same p q c [] t l = refl
band-same p q c (x ∷ xs) t l =
    band-same p q (fault_over q c x) xs t l ∙ ap (λ b. band p b xs) (fault_over-same p q c x t l)

-- The percentage of memory in use.
abbrev pub mem_pct : Readings → ℕ
mem_pct r = min 100 ((pair_or_zero r.mem).0 * 100 % 2 ^ 64 / (pair_or_zero r.mem).1)

abbrev pub IsMeasured : Readings → Type 0
IsMeasured r = (used : ℕ) × (total : ℕ) × (r.mem ≡ some (used, total)) × (0 < total)

-- One sample of memory.
record IsSampled (p : FaultProbe) (r : Readings) (q : FaultProbe) : Type 0 where
  congested : q.mem.congested ≡ fault_over p p.mem.congested (mem_pct r)
  primed : q.primed ≡ true
  threshold : q.threshold_pct ≡ p.threshold_pct
  clear : q.clear_pct ≡ p.clear_pct

announce_mem :
    (p : FaultProbe) (r : Readings)
    → IsMeasured r
    → (announce (is_some r.mem) p.mem (fault_evaluate p (sample_deltas p r)).mem).1.congested
      ≡ fault_over p p.mem.congested (mem_pct r)
unfolding announce fault_evaluate measure sample_deltas
announce_mem p r (used, total, e, pos) =
    let positive : ltb 0 total ≡ true = ground arith in simp (e, positive) refl

fault_probe_sample-IsSampled :
    (p : FaultProbe) (r : Readings)
    → p.primed ≡ true
    → IsMeasured r
    → IsSampled p r (fault_probe_sample p r).1
unfolding fault_probe_sample remember
fault_probe_sample-IsSampled p r on measured = simp on (record {
  congested = announce_mem p r measured;
  primed = refl;
  threshold = refl;
  clear = refl;
})

run_samples-band :
    (p : FaultProbe) (rs : List Readings)
    → p.primed ≡ true
    → All IsMeasured rs
    → (run_samples p rs).1.mem.congested ≡ band p p.mem.congested (map mem_pct rs)
unfolding run_samples
run_samples-band p [] on h = refl
run_samples-band p (r ∷ rs) on (h, hs) =
    let q = (fault_probe_sample p r).1 in
    let s = fault_probe_sample-IsSampled p r on h in
    run_samples-band q rs s.primed hs
    ∙ band-same p q q.mem.congested (map mem_pct rs) s.threshold s.clear
    ∙ ap (λ c. band p c (map mem_pct rs)) s.congested

-- After samples that all read the memory, memory counts as congested exactly when the percentage in use
-- reached the threshold and was not below the release level since; the probe took a sample before, and
-- memory did not count as congested then.
pub run_samples-IsTriggered :
    (p : FaultProbe) (rs : List Readings)
    → p.primed ≡ true
    → p.mem.congested ≡ false
    → All IsMeasured rs
    → ((run_samples p rs).1.mem.congested ≡ true) ↔ IsTriggered p (map mem_pct rs)
run_samples-IsTriggered p rs on clear h =
    let e = run_samples-band p rs on h in
    (
      λ congested. elim (band-IsTriggered p p.mem.congested (map mem_pct rs) (sym e ∙ congested)) [
        | inl (was, _) ↦ absurd (cc)
        | inr t ↦ t
      ],
      λ t. e ∙ IsTriggered-band p p.mem.congested (map mem_pct rs) t,
    )
