-- ===== src/Opcd/Tick/Period.antt =====
-- When the reporting periods end.
use wlan_opc.Base.{
  ℕ, zero, suc, ◌+◌, ◌*◌, ◌<◌, ◌≡◌, refl, inl, inr, if◌then◌else◌, Bool-cases, arith,
}
use wlan_opc.Opcd.State.{State}
use wlan_opc.Opcd.Tick.{count_period}

-- `n` ticks of a second: how many periods ended, and the state.
unfoldable pub period_ticks : State → ℕ → ℕ × State
period_ticks st zero = (0, st)
period_ticks st (suc n) =
    let (ended, st1) = count_period st 1 in
    let (count, st2) = period_ticks st1 n in (if ended then count + 1 else count, st2)

-- With a period of `k` seconds.
abbrev IsCounting : ℕ → State → Type 0
IsCounting k st = (st.indication_period_s ≡ k) × (st.indication_tick_counter < k)

count_period-second :
    (k : ℕ) (st : State)
    → IsCounting k st
    → IsCounting k (count_period st 1).1
      × ((if (count_period st 1).0 then k else 0) + (count_period st 1).1.indication_tick_counter
          ≡ st.indication_tick_counter + 1)
unfolding count_period
count_period-second k st (same, below) = ground arith

period_ticks-IsCounting :
    (k : ℕ) (st : State) (n : ℕ)
    → IsCounting k st
    → IsCounting k (period_ticks st n).1
      × ((period_ticks st n).0 * k + (period_ticks st n).1.indication_tick_counter
          ≡ st.indication_tick_counter + n)
unfolding period_ticks
period_ticks-IsCounting k st zero h = (h, omega arith)
period_ticks-IsCounting k st (suc n) h =
    let st1 = (count_period st 1).1 in
    let (h1, step) = count_period-second k st h in
    let (h2, rest) = period_ticks-IsCounting k st1 n h1 in
    elim (Bool-cases (count_period st 1).0) [
      | inl ended ↦ let step' = rw ended at step in rw ended (h2, grind arith)
      | inr going ↦ let step' = rw going at step in rw going (h2, omega arith)
    ]

-- Over any number of ticks of a second, the periods that ended times their length, and the seconds
-- since, are the seconds that passed, and the seconds since are fewer than a period: every period ends
-- when its last second passes. The counter starts below the period, which is not 0.
pub period_ticks_period :
    (st : State) (n : ℕ)
    → st.indication_tick_counter < st.indication_period_s
    → ((period_ticks st n).0 * st.indication_period_s
          + (period_ticks st n).1.indication_tick_counter
        ≡ st.indication_tick_counter + n)
      × ((period_ticks st n).1.indication_tick_counter < st.indication_period_s)
period_ticks_period st n below =
    let (h, sum) = period_ticks-IsCounting st.indication_period_s st n (refl, below) in (sum, h.1)
