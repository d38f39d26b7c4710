-- ===== src/Opcd/Indication/Staging/Latest.antt =====
-- What waits for the end of a period is the last change of each kind.
use wlan_opc.Base.{ℕ, ◌<◌, ◌≡◌, length}
use wlan_opc.Opcd.State.{State}
use wlan_opc.Opcd.Indication.Staging.{Waiting, waiting}

-- A state with a reporting period, in which the client asked for the bits.
record IsHolding (bits : ℕ) (st : State) : Type 0 where
  period : 0 < st.indication_period_s
  asked_for : st.indication_info_bits ≡ bits
  has_link : 0 < length st.indication_coalesce

-- A call that keeps the period and the bits, and what waits as described.
record IsNoted (bits : ℕ) (w : Waiting) (st : State) : Type 0 where
  holding : IsHolding bits st
  noted : waiting st ≡ w

-- The link is latched, which keeps the period, the bits and what waits.
record IsLatched (st st' : State) : Type 0 where
  period : st'.indication_period_s ≡ st.indication_period_s
  bits : st'.indication_info_bits ≡ st.indication_info_bits
  coalesce : st'.indication_coalesce ≡ st.indication_coalesce
