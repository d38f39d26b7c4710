-- ===== src/Opcd/FaultProbe/Sample.antt =====
-- opcd/fault_probe.c: opcd_fault_probe_sample.
use wlan_opc.Base.{
  ℕ, ◌-◌, Bool, true, false, not, ◌&&◌, Option, none, some, if◌then◌else◌, ltb, leb,
}
use wlan_opc.Opcd.FaultProbe.{
  Latch, FaultProbe, Measure, FaultReport, net_clock_slack_ms, Deltas, fault_evaluate,
}

-- What could be read: `none` where a file or a field is missing.
pub record Readings : Type 0 where
  -- busy and total ticks
  pub cpu : Option (ℕ × ℕ)
  -- milliseconds of I/O
  pub disk : Option ℕ
  -- used and total kB
  pub mem : Option (ℕ × ℕ)
  -- active, busy and monotonic milliseconds of the survey
  pub net : Option (ℕ × ℕ × ℕ)
  pub now : ℕ

-- A counter that went back gives no difference.
abbrev pub delta : ℕ → ℕ → ℕ
delta new old = if leb old new then new - old else 0

unfoldable pub cpu_delta : FaultProbe → Option (ℕ × ℕ) → ℕ × ℕ
cpu_delta p none = (0, 0)
cpu_delta p (some (busy, total)) =
    if p.cpu_primed then (delta busy p.cpu_busy, delta total p.cpu_total) else (0, 0)

unfoldable pub disk_delta : FaultProbe → Option ℕ → ℕ
disk_delta p none = 0
disk_delta p (some disk) = if p.disk_primed then delta disk p.disk_io_ms else 0

-- The busy and active time between two surveys of one channel: the clock of the survey moved, and the
-- active time moved by as much, up to the slack. `none` when the pair is not comparable.
unfoldable pub net_delta : FaultProbe → Option (ℕ × ℕ × ℕ) → Option (ℕ × ℕ)
net_delta p none = none
net_delta p (some (active, busy, mono)) =
    let da = active - p.net_active_ms in
    let dm = mono - p.net_mono_ms in
    let skew = (if ltb dm da then da - dm else dm - da) in
    if p.net_primed
      && leb p.net_active_ms active
      && leb p.net_busy_ms busy
      && ltb p.net_mono_ms mono
      && ltb 0 da
      && leb skew net_clock_slack_ms
    then some (busy - p.net_busy_ms, da)
    else none

abbrev pub pair_or_zero : Option (ℕ × ℕ) → ℕ × ℕ
pair_or_zero none = (0, 0)
pair_or_zero (some d) = d

abbrev pub is_some {ℓ} : {A : Type ℓ} → Option A → Bool
is_some none = false
is_some (some a) = true

unfoldable pub sample_deltas : FaultProbe → Readings → Deltas
sample_deltas p r = record {
  d_busy = (cpu_delta p r.cpu).0;
  d_total = (cpu_delta p r.cpu).1;
  d_disk_ms = disk_delta p r.disk;
  elapsed_ms = if ltb p.mono_ms r.now then r.now - p.mono_ms else 1;
  d_net_busy_ms = (pair_or_zero (net_delta p r.net)).0;
  d_net_active_ms = (pair_or_zero (net_delta p r.net)).1;
  mem_used_kb = (pair_or_zero r.mem).0;
  mem_total_kb = (pair_or_zero r.mem).1;
}

-- A resource that was measured: its transitions, and its latch.
unfoldable pub announce : Bool → Latch → Measure → Measure × Latch
announce measured l m =
    if measured
    then (
      record m { entered = m.over && not l.notified; cleared = not m.over && l.notified },
      record { congested = m.over; notified = m.over },
    )
    else (m, l)

-- The readings kept for the next sample.
unfoldable pub remember : FaultProbe → Readings → FaultProbe
remember p r = record p {
  cpu_busy = elim r.cpu [ none ↦ p.cpu_busy | some v ↦ v.0 ];
  cpu_total = elim r.cpu [ none ↦ p.cpu_total | some v ↦ v.1 ];
  disk_io_ms = elim r.disk [ none ↦ p.disk_io_ms | some v ↦ v ];
  net_active_ms = elim r.net [ none ↦ p.net_active_ms | some v ↦ v.0 ];
  net_busy_ms = elim r.net [ none ↦ p.net_busy_ms | some v ↦ v.1 ];
  net_mono_ms = elim r.net [ none ↦ p.net_mono_ms | some v ↦ v.2 ];
  cpu_primed = is_some r.cpu;
  disk_primed = is_some r.disk;
  net_primed = is_some r.net;
  mono_ms = r.now;
  primed = true;
}

abbrev pub no_measure : Measure
no_measure = record { over = false; pct = 0; entered = false; cleared = false }

abbrev pub no_report : FaultReport
no_report = record { cpu = no_measure; mem = no_measure; disk = no_measure; net = no_measure }

unfoldable pub fault_probe_sample : FaultProbe → Readings → FaultReport × FaultProbe
fault_probe_sample p r =
    let out = fault_evaluate p (sample_deltas p r) in
    let (cpu, cpu_latch) = announce (is_some r.cpu && p.cpu_primed) p.cpu out.cpu in
    let (mem, mem_latch) = announce (is_some r.mem) p.mem out.mem in
    let (disk, disk_latch) = announce (is_some r.disk && p.disk_primed) p.disk out.disk in
    let (net, net_latch) = announce (is_some (net_delta p r.net)) p.net out.net in
    let latched = record p {
      cpu = cpu_latch;
      mem = mem_latch;
      disk = disk_latch;
      net = net_latch;
    } in
    if p.primed
    then (record { cpu = cpu; mem = mem; disk = disk; net = net }, remember latched r)
    else (no_report, remember p r)
