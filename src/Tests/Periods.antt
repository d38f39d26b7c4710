-- ===== src/Tests/Periods.antt =====
-- The congestion probe and the reporting period at concrete values.
use wlan_opc.Base.{
  ◌%◌, ◌==◌, get_or, ℕ, ◌+◌, ◌*◌, ◌<◌, ◌≡◌, ◌↔◌, refl, Bool, true, some, none, List, [], ◌∷◌, map,
  arith,
}
use wlan_opc.Opcd.FaultProbe.{FaultProbe, fault_probe_init, res_mem}
use wlan_opc.Opcd.FaultProbe.Sample.{Readings}
use wlan_opc.Opcd.FaultProbe.Band.{
  run_samples, bit, count_if, mem_pct, IsMeasured, IsTriggered, run_samples-balance,
  run_samples-IsTriggered,
}
use wlan_opc.Opcd.FaultProbe.Period.{due_ticks, due_ticks-period}
use wlan_opc.Opcd.State.{State, Datagram, IndCoalesce}
use wlan_opc.Opcd.Indication.Staging.{LinkEvent, indicate_all}
use wlan_opc.Opcd.Tick.{flush_all}
use wlan_opc.Opcd.Tick.Expected.{
  changes_all, flags_all, content, to_recipient, expected_sent, expected_waits, delivered,
  count_true,
}
use wlan_opc.Opcd.Tick.Flush.{flush_all-conserves}
use wlan_opc.Opcd.Tick.Period.{period_ticks, period_ticks_period}
use wlan_opc.Tests.Opcd.{a_state}

abbrev memory : ℕ → Readings
memory used = record { cpu = none; disk = none; mem = some (used, 100); net = none; now = 0 }

abbrev a_probe : FaultProbe
a_probe = record fault_probe_init { primed = true }

abbrev some_samples : List Readings
some_samples = memory 10 ∷ memory 85 ∷ memory 75 ∷ memory 71 ∷ []

measured : (used : ℕ) → IsMeasured (memory used)
measured used = (used, 100, refl, omega arith)

run_samples-IsTriggered_example :
    ((run_samples a_probe some_samples).1.mem.congested ≡ true)
    ↔ IsTriggered a_probe (map mem_pct some_samples)
run_samples-IsTriggered_example =
    run_samples-IsTriggered a_probe some_samples refl refl
      (measured 10, (measured 85, (measured 75, (measured 71, tt))))

run_samples-balance_example :
    count_if (λ out. out.mem.entered) (run_samples a_probe some_samples).0 + 0
    ≡ count_if (λ out. out.mem.cleared) (run_samples a_probe some_samples).0
      + bit (run_samples a_probe some_samples).1.mem.notified
run_samples-balance_example = run_samples-balance res_mem a_probe some_samples

due_ticks-period_example :
    ((due_ticks fault_probe_init 25).0 * 10 + (due_ticks fault_probe_init 25).1.probe_countdown_s
      ≡ 0 + 25)
    × ((due_ticks fault_probe_init 25).1.probe_countdown_s < 10)
due_ticks-period_example = due_ticks-period fault_probe_init 25 (omega arith) (omega arith)

abbrev a_period : State
a_period = record a_state { indication_period_s = 10 }

abbrev some_events : List LinkEvent
some_events =
    LinkEvent.wlan_status 50 (record { wlan_status = 2; indication_ch = 0 })
    ∷ LinkEvent.fault_detect (record { congestion_id = 2; current_val = 91 })
    ∷ LinkEvent.wlan_status 51 (record { wlan_status = 1; indication_ch = 36 })
    ∷ LinkEvent.fault_clear 2
    ∷ []

abbrev all_sent : Datagram → Bool
all_sent d = true

abbrev staged : List IndCoalesce
staged = (indicate_all all_sent a_period some_events).indication_coalesce

-- Every second frame is lost.
abbrev half_sent : Datagram → Bool
half_sent d = get_or d.payload 5 0 % 2 == 0

flush_all-conserves_example :
    let out = flush_all half_sent a_period staged in
    (out.1 ≡ expected_sent (to_recipient a_period) 65535 (changes_all staged))
    × (flags_all out.2
        ≡ expected_waits half_sent (to_recipient a_period) 65535 (changes_all staged))
    × (map content out.2 ≡ map content staged)
    × (delivered half_sent out.1 + count_true (flags_all out.2) ≡ count_true (flags_all staged))
flush_all-conserves_example =
    flush_all-conserves half_sent a_period staged
      (record { enabled = refl; open_socket = refl; address = omega arith; port = omega arith })

period_ticks_period_example :
    ((period_ticks a_period 25).0 * 10 + (period_ticks a_period 25).1.indication_tick_counter
      ≡ 0 + 25)
    × ((period_ticks a_period 25).1.indication_tick_counter < 10)
period_ticks_period_example = period_ticks_period a_period 25 (omega arith)
