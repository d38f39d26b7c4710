-- ===== src/Opcd/Machine.antt =====
-- opcd/handler.c: the runs of the daemon, as sequences of the operations that are modelled.
pub mod Safe
pub mod Requests
pub mod Writes
pub mod Admission
pub mod ListSafe
pub mod PasswordSafe
pub mod ConfigSafe
pub mod TickSafe
pub mod RadioSafe
pub mod InfoSafe
pub mod Reach
use wlan_opc.Base.{ℕ, Bool, Option, List, Bytes}
use wlan_opc.Opcd.State.{State, Datagram}
use wlan_opc.Opcd.FaultProbe.Sample.{Readings}
use wlan_opc.Opcd.Indication.Staging.{LinkEvent, indicate}
use wlan_opc.Opcd.Tick.{opcd_ind_tick_elapsed}
use wlan_opc.Opcd.DeviceInfo.{FreqSource, DeviceReadings, handle_get_device_info}
use wlan_opc.Opcd.Session.{Inventory, handle_login, handle_get_basic_info, handle_reset}
use wlan_opc.Opcd.IpChange.{handle_logout, handle_change_ip_address, opcd_apply_pending_ip_change}
use wlan_opc.Opcd.Persist.Radio.{RadioAnswers, handle_set_radio_config}
use wlan_opc.Opcd.Persist.{Store, Done, opcd_radio_revert_drain, opcd_store_async_on_ready}
use wlan_opc.Opcd.Persist.ListHandler.{handle_set_ip_config_list}
use wlan_opc.Opcd.Persist.Password.{handle_set_password}
use wlan_opc.Opcd.IndicationConfig.{handle_set_indication_config}
use wlan_opc.Opcd.Intake.{expire_session}

-- One operation, with any frame, client, clock and answers of the store and the platform.
pub data Step : State → State → Type 0 where
  login :
      (now room : ℕ) (st : State) (frame : Bytes) (ip port seq : ℕ)
      → Step st (handle_login now room st frame ip port seq).state
  logout :
      (room : ℕ) (st : State) (frame : Bytes) (ip seq : ℕ)
      → Step st (handle_logout room st frame ip seq).state
  get_device_info :
      (src : FreqSource) (inv : Inventory) (r : DeviceReadings) (now room : ℕ) (st : State)
      (frame : Bytes) (ip seq : ℕ)
      → Step st (handle_get_device_info src inv r now room st frame ip seq).state
  get_basic_info :
      (inv : Inventory) (now room : ℕ) (st : State) (frame : Bytes) (ip port seq : ℕ)
      → Step st (handle_get_basic_info inv now room st frame ip port seq).state
  set_ip_config_list :
      (now room : ℕ) (store : Store) (st : State) (frame : Bytes) (ip port seq : ℕ)
      → Step st (handle_set_ip_config_list now room store st frame ip port seq).state
  set_password :
      (now room : ℕ) (store : Store) (st : State) (frame : Bytes) (ip port seq : ℕ)
      → Step st (handle_set_password now room store st frame ip port seq).state
  set_radio_config :
      (now room : ℕ) (store : Store) (answers : RadioAnswers) (st : State) (frame : Bytes)
      (ip port seq : ℕ)
      → Step st (handle_set_radio_config now room store answers st frame ip port seq).state
  radio_revert : (applied : Option Bool) (st : State) → Step st (opcd_radio_revert_drain applied st)
  set_indication_config :
      (now mono_now room : ℕ) (route : ℕ → Option ℕ) (link : Option Bool) (st : State)
      (frame : Bytes) (ip seq : ℕ)
      → Step st (handle_set_indication_config now mono_now room route link st frame ip seq).state
  change_ip_address :
      (now room : ℕ) (other : Option (ℕ × ℕ)) (st : State) (frame : Bytes) (ip seq : ℕ)
      → Step st (handle_change_ip_address now room other st frame ip seq).state
  reset :
      (now room : ℕ) (st : State) (frame : Bytes) (ip port seq : ℕ)
      → Step st (handle_reset now room st frame ip port seq).state
  link_event :
      (sendto : Datagram → Bool) (st : State) (e : LinkEvent) → Step st (indicate sendto st e).state
  tick :
      (sendto : Datagram → Bool) (readings : Readings) (timestamp : Bytes) (st : State)
      (elapsed_s : ℕ)
      → Step st (opcd_ind_tick_elapsed sendto readings timestamp st elapsed_s).0
  expire : (now : ℕ) (st : State) → Step st (expire_session now st).0
  writes_done :
      (radio_applied : Option Bool) (st : State) (dones : List Done)
      → Step st (opcd_store_async_on_ready radio_applied st dones).0
  apply_ip_change :
      (applied : Bool) (st : State) → Step st (opcd_apply_pending_ip_change applied st).0

pub data Reaches (st : State) : State → Type 0 where
  here : Reaches st st
  next : (mid st' : State) → Reaches st mid → Step mid st' → Reaches st st'
