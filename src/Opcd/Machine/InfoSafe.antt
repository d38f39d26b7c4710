-- ===== src/Opcd/Machine/InfoSafe.antt =====
-- The invariant over GetDeviceInfo.
use wlan_opc.Base.{ℕ, inl, inr, Bytes}
use wlan_opc.Opcd.State.{State}
use wlan_opc.Opcd.Session.{Inventory}
use wlan_opc.Opcd.DeviceInfo.{FreqSource, DeviceReadings, handle_get_device_info}
use wlan_opc.Opcd.DeviceInfo.Laws.{handle_get_device_info-cases}
use wlan_opc.Opcd.Machine.Safe.{IsSafe, session_touch-IsSafe}

pub handle_get_device_info-IsSafe :
    {st : State} (h : IsSafe st) (src : FreqSource) (inv : Inventory) (r : DeviceReadings)
    (now room : ℕ) (frame : Bytes) (ip seq : ℕ)
    → IsSafe (handle_get_device_info src inv r now room st frame ip seq).state
handle_get_device_info-IsSafe {st} h src inv r now room frame ip seq =
    elim (handle_get_device_info-cases src inv r now room st frame ip seq) [
      | inl (reason, refused) ↦ rw refused.state h
      | inr (inl (asked, owns, sending, refused)) ↦ rw refused.state (session_touch-IsSafe h now)
      | inr (inr told) ↦ rw told.state (session_touch-IsSafe h now)
    ]
