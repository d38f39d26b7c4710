-- ===== src/Opcd/Indication/Staging.antt =====
-- The changes of the link and the resources, and what waits of them for the end of a period.
pub mod Latest
use wlan_opc.Base.{
  ℕ, zero, suc, ◌<◌, ◌≡◌, refl, ap, ◌∙◌, sym, inl, inr, Bool, true, false, not, ◌||◌, Option, none,
  some, List, [], ◌∷◌, ◌++◌, ◌==◌, if◌then◌else◌, ltb, length, set, get_or, length-set, ◌/=◌,
  Bool-cases, Option-cases, arith,
}
use mathlib.Core.Path.{subst}
use Prim.Native.Nat.{bit_and}
use wlan_opc.Protocol.Indications.{IndWlanStatusChange, IndRoaming, IndApDisconnect, IndFaultDetect}
use wlan_opc.Opcd.State.{State, Datagram, IndCoalesce, no_coalesce, opcd_ind_init_complete}
use wlan_opc.Opcd.State.Sending.{opcd_ind_init_complete-state}
use wlan_opc.Opcd.IndicationConfig.{opcd_ind_radio_up, init_state_radio_up}
use wlan_opc.Opcd.Indication.{
  Sending, quiet, wants, stage_change, stage_wlan, stage_roaming, stage_ap_disconnect, stage_fault,
  unstage_fault, latch_assoc, opcd_ind_wlan_status, opcd_ind_roaming, opcd_ind_ap_disconnect,
  opcd_ind_fault_detect, opcd_ind_fault_clear, fault_slot, staged_wlan, staged_roaming,
  staged_ap_disconnect, ind_bit_wlan_status_change, ind_bit_roaming, ind_bit_ap_disconnect,
  ind_bit_fault_detect, wlan_status_connected,
}

-- What happens to the link and to the resources.
pub data LinkEvent : Type 0 where
  wlan_status : (mono_now : ℕ) → IndWlanStatusChange → LinkEvent
  roaming : IndRoaming → LinkEvent
  ap_disconnect : IndApDisconnect → LinkEvent
  fault_detect : IndFaultDetect → LinkEvent
  fault_clear : (id : ℕ) → LinkEvent

unfoldable pub indicate : (Datagram → Bool) → State → LinkEvent → Sending
indicate sendto st (wlan_status mono_now ind) = opcd_ind_wlan_status sendto mono_now st ind
indicate sendto st (roaming ind) = opcd_ind_roaming sendto st ind
indicate sendto st (ap_disconnect ind) = opcd_ind_ap_disconnect sendto st ind
indicate sendto st (fault_detect ind) = opcd_ind_fault_detect sendto st ind
indicate sendto st (fault_clear id) = quiet (opcd_ind_fault_clear st id) true

unfoldable pub indicate_all : (Datagram → Bool) → State → List LinkEvent → State
indicate_all sendto st [] = st
indicate_all sendto st (e ∷ es) = indicate_all sendto (indicate sendto st e).state es

-- The changes that wait, each kind at most once, and congestion by resource.
pub record Waiting : Type 0 where
  pub wlan : Option IndWlanStatusChange
  pub roaming : Option IndRoaming
  pub ap_disconnect : Option IndApDisconnect
  pub faults : List (Option ℕ)

abbrev pub if_pending {ℓ} : {A : Type ℓ} → Bool → A → Option A
if_pending true a = some a
if_pending false a = none

abbrev pub pending_faults : List Bool → List ℕ → List (Option ℕ)
pending_faults [] vs = []
pending_faults (p ∷ ps) [] = []
pending_faults (p ∷ ps) (v ∷ vs) = if_pending p v ∷ pending_faults ps vs

unfoldable pub waiting_in : IndCoalesce → Waiting
waiting_in c = record {
  wlan = if_pending c.wlan_pending (staged_wlan c);
  roaming = if_pending c.roam_pending (staged_roaming c);
  ap_disconnect = if_pending c.apd_pending (staged_ap_disconnect c);
  faults = pending_faults c.fault_pending c.fault_val;
}

abbrev pub asked : (bits mask : ℕ) → Bool
asked bits mask = bit_and bits mask /= 0

abbrev pub replace_fault : Option ℕ → Option ℕ → Waiting → Waiting
replace_fault none v w = w
replace_fault (some slot) v w = record w { faults = set w.faults slot v }

-- The description: a change of a kind that the client asked for replaces what waited of that kind.
unfoldable pub note : (bits : ℕ) → LinkEvent → Waiting → Waiting
note bits (wlan_status mono_now ind) w =
    if asked bits ind_bit_wlan_status_change then record w { wlan = some ind } else w
note bits (roaming ind) w =
    if asked bits ind_bit_roaming then record w { roaming = some ind } else w
note bits (ap_disconnect ind) w =
    if asked bits ind_bit_ap_disconnect then record w { ap_disconnect = some ind } else w
note bits (fault_detect ind) w =
    if asked bits ind_bit_fault_detect
    then replace_fault (fault_slot ind.congestion_id) (some ind.current_val) w
    else w
note bits (fault_clear id) w = replace_fault (fault_slot id) none w

unfoldable pub note_all : (bits : ℕ) → List LinkEvent → Waiting → Waiting
note_all bits [] w = w
note_all bits (e ∷ es) w = note_all bits es (note bits e w)

pub pending_faults-set :
    (ps : List Bool) (vs : List ℕ) (k v : ℕ)
    → pending_faults (set ps k true) (set vs k v) ≡ set (pending_faults ps vs) k (some v)
pending_faults-set [] vs k v = refl
pending_faults-set (p ∷ ps) [] zero v = refl
pending_faults-set (p ∷ ps) [] (suc k) v = refl
pending_faults-set (p ∷ ps) (x ∷ vs) zero v = refl
pending_faults-set (p ∷ ps) (x ∷ vs) (suc k) v =
    ap (λ l. if_pending p x ∷ l) (pending_faults-set ps vs k v)

pub pending_faults-unset :
    (ps : List Bool) (vs : List ℕ) (k : ℕ)
    → pending_faults (set ps k false) vs ≡ set (pending_faults ps vs) k none
pending_faults-unset [] vs k = refl
pending_faults-unset (p ∷ ps) [] zero = refl
pending_faults-unset (p ∷ ps) [] (suc k) = refl
pending_faults-unset (p ∷ ps) (x ∷ vs) zero = refl
pending_faults-unset (p ∷ ps) (x ∷ vs) (suc k) =
    ap (λ l. if_pending p x ∷ l) (pending_faults-unset ps vs k)

abbrev pub waiting : State → Waiting
waiting st = waiting_in (get_or st.indication_coalesce 0 no_coalesce)
