-- ===== src/Opcd/FaultProbe/Period.antt =====
-- How often the probe samples.
use wlan_opc.Base.{
  ℕ, zero, suc, ◌+◌, ◌*◌, ◌^◌, ◌<◌, ◌≡◌, refl, if◌then◌else◌, arith, Bool-cases, inl, inr,
}
use wlan_opc.Opcd.FaultProbe.{FaultProbe, fault_probe_due}

-- `n` ticks of a second: how often a sample was due, and the probe.
unfoldable pub due_ticks : FaultProbe → ℕ → ℕ × FaultProbe
due_ticks p zero = (0, p)
due_ticks p (suc n) =
    let (due, p1) = fault_probe_due p 1 in
    let (count, p2) = due_ticks p1 n in (if due then count + 1 else count, p2)

-- With an interval of `i` seconds.
abbrev IsRunning : ℕ → FaultProbe → Type 0
IsRunning i p = (p.probe_interval_s ≡ i) × (p.probe_countdown_s < i)

fault_probe_due_second :
    (i : ℕ) (p : FaultProbe)
    → i < 2 ^ 32
    → IsRunning i p
    → IsRunning i (fault_probe_due p 1).1
      × ((if (fault_probe_due p 1).0 then i else 0) + (fault_probe_due p 1).1.probe_countdown_s
          ≡ p.probe_countdown_s + 1)
unfolding fault_probe_due
fault_probe_due_second i p small (same, below) = ground arith

due_ticks-IsRunning :
    (i : ℕ) (p : FaultProbe) (n : ℕ)
    → i < 2 ^ 32
    → IsRunning i p
    → IsRunning i (due_ticks p n).1
      × ((due_ticks p n).0 * i + (due_ticks p n).1.probe_countdown_s ≡ p.probe_countdown_s + n)
unfolding due_ticks
due_ticks-IsRunning i p zero small h = (h, omega arith)
due_ticks-IsRunning i p (suc n) small h =
    let p1 = (fault_probe_due p 1).1 in
    let (h1, step) = fault_probe_due_second i p small h in
    let (h2, rest) = due_ticks-IsRunning i p1 n small h1 in
    elim (Bool-cases (fault_probe_due p 1).0) [
      | inl due ↦ let step' = rw due at step in rw due (h2, grind arith)
      | inr idle ↦ let step' = rw idle at step in rw idle (h2, omega arith)
    ]

-- Over any number of ticks of a second, the samples times the interval, and the seconds that are left,
-- are the seconds that passed, and fewer seconds than the interval are left; so a sample is due in
-- every interval, and never two. The countdown starts below the interval, which is not 0.
pub due_ticks-period :
    (p : FaultProbe) (n : ℕ)
    → p.probe_interval_s < 2 ^ 32
    → p.probe_countdown_s < p.probe_interval_s
    → ((due_ticks p n).0 * p.probe_interval_s + (due_ticks p n).1.probe_countdown_s
        ≡ p.probe_countdown_s + n)
      × ((due_ticks p n).1.probe_countdown_s < p.probe_interval_s)
due_ticks-period p n small below =
    let (h, sum) = due_ticks-IsRunning p.probe_interval_s p n small (refl, below) in (sum, h.1)
