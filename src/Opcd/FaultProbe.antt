-- ===== src/Opcd/FaultProbe.antt =====
-- opcd/fault_probe.c: the congestion probe. What is read from /proc and from link.json is an
-- argument, `Readings`; the file names and the count of samples without a survey, which only changes
-- the log, are left out.
pub mod Sample
pub mod Band
pub mod Period
use wlan_opc.Base.{
  ℕ, ◌+◌, ◌-◌, ◌*◌, ◌/◌, ◌%◌, ◌^◌, Bool, true, false, not, ◌&&◌, ◌||◌, Option, none, some, List, [],
  ◌∷◌, ◌==◌, if◌then◌else◌, ltb, leb, min, length, get_or,
}

-- One resource: `*_congested` is the state of the band, `*_notified` whether an entry was announced.
pub record Latch : Type 0 where
  pub congested : Bool
  pub notified : Bool

pub record FaultProbe : Type 0 where
  pub threshold_pct : ℕ
  pub clear_pct : ℕ
  pub probe_interval_s : ℕ
  pub probe_countdown_s : ℕ
  pub cpu : Latch
  pub mem : Latch
  pub disk : Latch
  pub net : Latch
  pub primed : Bool
  pub cpu_primed : Bool
  pub disk_primed : Bool
  pub net_primed : Bool
  pub cpu_busy : ℕ
  pub cpu_total : ℕ
  pub disk_io_ms : ℕ
  pub net_active_ms : ℕ
  pub net_busy_ms : ℕ
  pub net_mono_ms : ℕ
  pub mono_ms : ℕ

-- The four members of the report for one resource.
pub record Measure : Type 0 where
  pub over : Bool
  pub pct : ℕ
  pub entered : Bool
  pub cleared : Bool

pub record FaultReport : Type 0 where
  pub cpu : Measure
  pub mem : Measure
  pub disk : Measure
  pub net : Measure

pub data FaultRes : Type 0 where
  res_cpu : FaultRes
  res_disk : FaultRes
  res_net : FaultRes
  res_mem : FaultRes

abbrev pub threshold_pct_default : ℕ
threshold_pct_default = 80

abbrev pub clear_band_pct : ℕ
clear_band_pct = 10

abbrev pub clear_pct_default : ℕ
clear_pct_default = 70

abbrev pub net_clock_slack_ms : ℕ
net_clock_slack_ms = 500

abbrev pub probe_interval_default : ℕ
probe_interval_default = 10

abbrev pub probe_interval_max : ℕ
probe_interval_max = 3600

abbrev pub no_latch : Latch
no_latch = record { congested = false; notified = false }

abbrev pub fault_probe_init : FaultProbe
fault_probe_init = record {
  threshold_pct = threshold_pct_default;
  clear_pct = clear_pct_default;
  probe_interval_s = probe_interval_default;
  probe_countdown_s = 0;
  cpu = no_latch;
  mem = no_latch;
  disk = no_latch;
  net = no_latch;
  primed = false;
  cpu_primed = false;
  disk_primed = false;
  net_primed = false;
  cpu_busy = 0;
  cpu_total = 0;
  disk_io_ms = 0;
  net_active_ms = 0;
  net_busy_ms = 0;
  net_mono_ms = 0;
  mono_ms = 0;
}

-- The level below which a congested resource is released.
unfoldable pub release_pct : FaultProbe → ℕ
release_pct p =
    if (p.clear_pct == 0) || ltb p.threshold_pct p.clear_pct then p.threshold_pct else p.clear_pct

unfoldable pub fault_over : FaultProbe → Bool → ℕ → Bool
unfolding release_pct
fault_over p in_band pct = if in_band then leb (release_pct p) pct else leb p.threshold_pct pct

-- `part * 100 / whole` in 64 bits, at most 100; nothing is measured where the whole is 0.
unfoldable pub measure : FaultProbe → Bool → (part whole : ℕ) → Measure
measure p in_band part whole =
    let pct = min 100 (part * 100 % 2 ^ 64 / whole) in
    if ltb 0 whole
    then record { over = fault_over p in_band pct; pct = pct; entered = false; cleared = false }
    else record { over = false; pct = 0; entered = false; cleared = false }

-- The busy time of the channel may exceed its active time, so it is compared first.
unfoldable pub measure_net : FaultProbe → Bool → (busy active : ℕ) → Measure
measure_net p in_band busy active =
    let pct = (if leb active busy then 100 else busy * 100 % 2 ^ 64 / active) in
    if ltb 0 active
    then record { over = fault_over p in_band pct; pct = pct; entered = false; cleared = false }
    else record { over = false; pct = 0; entered = false; cleared = false }

-- What is evaluated: differences since the last sample, and the memory.
pub record Deltas : Type 0 where
  pub d_busy : ℕ
  pub d_total : ℕ
  pub d_disk_ms : ℕ
  pub elapsed_ms : ℕ
  pub d_net_busy_ms : ℕ
  pub d_net_active_ms : ℕ
  pub mem_used_kb : ℕ
  pub mem_total_kb : ℕ

unfoldable pub fault_evaluate : FaultProbe → Deltas → FaultReport
fault_evaluate p d = record {
  cpu = measure p p.cpu.congested d.d_busy d.d_total;
  mem = measure p p.mem.congested d.mem_used_kb d.mem_total_kb;
  disk = measure p p.disk.congested d.d_disk_ms d.elapsed_ms;
  net = measure_net p p.net.congested d.d_net_busy_ms d.d_net_active_ms;
}

-- The level kept without a clear level in the file.
unfoldable pub derived_clear_pct : ℕ → ℕ
derived_clear_pct threshold =
    let band = min (threshold / 2) clear_band_pct in
    if ltb band threshold then threshold - band else 1

-- The end of opcd_fault_probe_conf: the threshold read and, where it was given, the clear level.
unfoldable pub conf_clear_pct : (threshold_pct : ℕ) → (clear_seen : Option ℕ) → ℕ
unfolding derived_clear_pct
conf_clear_pct threshold clear_seen =
    let clear : ℕ = elim clear_seen [ none ↦ derived_clear_pct threshold | some given ↦ given ] in
    if ltb threshold clear then threshold else clear

-- Sums of 64 bits.
unfoldable pub sum64 : ℕ → List ℕ → ℕ
sum64 acc [] = acc
sum64 acc (v ∷ vs) = sum64 ((acc + v) % 2 ^ 64) vs

-- The end of opcd_fault_parse_proc_stat, with the numbers of the line: busy and total. The fourth is
-- idle, the fifth waiting for I/O.
unfoldable pub proc_stat_usage : List ℕ → Option (ℕ × ℕ)
unfolding sum64
proc_stat_usage vs =
    let total = sum64 0 vs in
    if ltb (length vs) 4
    then none
    else some ((total + 2 ^ 64 + 2 ^ 64 - get_or vs 3 0 - get_or vs 4 0) % 2 ^ 64, total)

-- The memory that is not in use, at most the total.
unfoldable pub not_used_kb : (total not_used : ℕ) → List ℕ → ℕ
not_used_kb total not_used [] = not_used
not_used_kb total not_used (v ∷ vs) =
    not_used_kb total (if ltb (total - not_used) v then total else not_used + v) vs

-- The end of opcd_fault_parse_meminfo, with MemTotal and the other keys when all were seen: used and
-- total.
unfoldable pub meminfo_usage : (total : ℕ) → List ℕ → Option (ℕ × ℕ)
unfolding not_used_kb
meminfo_usage total vs = if total == 0 then none else some (total - not_used_kb total 0 vs, total)

unfoldable pub fault_probe_due : FaultProbe → (elapsed_s : ℕ) → Bool × FaultProbe
fault_probe_due p elapsed_s =
    let interval = (if p.probe_interval_s == 0 then 1 else p.probe_interval_s) in
    let elapsed = (if ltb interval elapsed_s then interval else elapsed_s) in
    let countdown = (p.probe_countdown_s + elapsed) % 2 ^ 32 in
    if ltb countdown interval
    then (false, record p { probe_countdown_s = countdown })
    else (true, record p { probe_countdown_s = 0 })

-- Only the announcement is forgotten; the band state stays.
abbrev pub forget : Latch → Latch
forget l = record l { notified = false }

unfoldable pub fault_probe_rearm : FaultProbe → FaultRes → FaultProbe
fault_probe_rearm p FaultRes.res_cpu = record p { cpu = forget p.cpu }
fault_probe_rearm p FaultRes.res_disk = record p { disk = forget p.disk }
fault_probe_rearm p FaultRes.res_net = record p { net = forget p.net }
fault_probe_rearm p FaultRes.res_mem = record p { mem = forget p.mem }

unfoldable pub fault_probe_reset_latch : FaultProbe → FaultProbe
fault_probe_reset_latch p = record p {
  cpu = forget p.cpu;
  mem = forget p.mem;
  disk = forget p.disk;
  net = forget p.net;
}
