-- ===== src/Opcd/Machine/Reach.antt =====
-- The invariant of every run.
use wlan_opc.Opcd.State.{State}
use wlan_opc.Opcd.Machine.{Step, Reaches}
use wlan_opc.Opcd.Machine.InfoSafe.{handle_get_device_info-IsSafe}
use wlan_opc.Opcd.Machine.Safe.{
  IsSafe, handle_login-IsSafe, handle_logout-IsSafe, handle_get_basic_info-IsSafe,
}
use wlan_opc.Opcd.Machine.Requests.{
  handle_change_ip_address-IsSafe, handle_reset-IsSafe, expire_session-IsSafe,
  opcd_apply_pending_ip_change-IsSafe,
}
use wlan_opc.Opcd.Machine.Admission.{opcd_store_async_on_ready-IsSafe}
use wlan_opc.Opcd.Machine.ListSafe.{handle_set_ip_config_list-IsSafe}
use wlan_opc.Opcd.Machine.PasswordSafe.{handle_set_password-IsSafe}
use wlan_opc.Opcd.Machine.ConfigSafe.{handle_set_indication_config-IsSafe}
use wlan_opc.Opcd.Machine.TickSafe.{indicate-IsSafe, opcd_ind_tick_elapsed-IsSafe}
use wlan_opc.Opcd.Machine.RadioSafe.{handle_set_radio_config-IsSafe}
use wlan_opc.Opcd.Machine.Writes.{opcd_radio_revert_drain-IsSafe}

pub Step-IsSafe : {st st' : State} → Step st st' → IsSafe st → IsSafe st'
Step-IsSafe (Step.login now room st frame ip port seq) h =
    handle_login-IsSafe h now room frame ip port seq
Step-IsSafe (Step.logout room st frame ip seq) h = handle_logout-IsSafe h room frame ip seq
Step-IsSafe (Step.get_device_info src inv r now room st frame ip seq) h =
    handle_get_device_info-IsSafe h src inv r now room frame ip seq
Step-IsSafe (Step.get_basic_info inv now room st frame ip port seq) h =
    handle_get_basic_info-IsSafe h inv now room frame ip port seq
Step-IsSafe (Step.set_ip_config_list now room store st frame ip port seq) h =
    handle_set_ip_config_list-IsSafe h now room store frame ip port seq
Step-IsSafe (Step.set_password now room store st frame ip port seq) h =
    handle_set_password-IsSafe h now room store frame ip port seq
Step-IsSafe (Step.set_radio_config now room store answers st frame ip port seq) h =
    handle_set_radio_config-IsSafe h now room store answers frame ip port seq
Step-IsSafe (Step.radio_revert applied st) h = opcd_radio_revert_drain-IsSafe h applied
Step-IsSafe (Step.set_indication_config now mono_now room route link st frame ip seq) h =
    handle_set_indication_config-IsSafe now mono_now room route link frame ip seq h
Step-IsSafe (Step.change_ip_address now room other st frame ip seq) h =
    handle_change_ip_address-IsSafe h now room other frame ip seq
Step-IsSafe (Step.reset now room st frame ip port seq) h =
    handle_reset-IsSafe h now room frame ip port seq
Step-IsSafe (Step.link_event sendto st e) h = indicate-IsSafe h sendto e
Step-IsSafe (Step.tick sendto readings timestamp st elapsed_s) h =
    opcd_ind_tick_elapsed-IsSafe sendto readings timestamp elapsed_s h
Step-IsSafe (Step.expire now st) h = expire_session-IsSafe h now
Step-IsSafe (Step.writes_done applied st dones) h = opcd_store_async_on_ready-IsSafe h applied dones
Step-IsSafe (Step.apply_ip_change applied st) h = opcd_apply_pending_ip_change-IsSafe h applied

-- In every run, whatever the requests, their order, the clock, and the answers of the store and the
-- platform: the list in effect, the staged list and the lists that wait for their write hold only
-- entries that pass the checks, and a change that is armed has such an entry and a number from 1 to
-- 128, when this is so in the first state.
pub Reaches-IsSafe : {st st' : State} → Reaches st st' → IsSafe st → IsSafe st'
Reaches-IsSafe Reaches.here h = h
Reaches-IsSafe (Reaches.next mid st' run step) h = Step-IsSafe step (Reaches-IsSafe run h)
