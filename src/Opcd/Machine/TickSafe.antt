-- ===== src/Opcd/Machine/TickSafe.antt =====
-- The invariant over the events of the link and the periodic tick, which leave every list as it is.
use wlan_opc.Base.{
  ℕ, ◌+◌, Bool, true, false, not, ◌||◌, Option, none, some, List, [], ◌∷◌, ◌++◌, Bytes, ◌==◌,
  if◌then◌else◌, ltb,
}
use wlan_opc.Protocol.Indications.{IndWlanStatusChange, IndRoaming, IndApDisconnect, IndFaultDetect}
use wlan_opc.Opcd.FaultProbe.{
  FaultReport, FaultRes, Measure, fault_probe_due, fault_probe_rearm, res_cpu, res_disk, res_net,
  res_mem,
}
use wlan_opc.Opcd.FaultProbe.Sample.{Readings, fault_probe_sample}
use wlan_opc.Opcd.State.{State, Datagram, IndCoalesce, next_seq}
use wlan_opc.Opcd.IndicationConfig.{opcd_ind_radio_up}
use wlan_opc.Opcd.Indication
use wlan_opc.Opcd.Indication.{Sending, emit, stage_change}
use wlan_opc.Opcd.Indication.Staging.{
  LinkEvent, wlan_status, roaming, ap_disconnect, fault_detect, fault_clear, indicate,
}
use wlan_opc.Opcd.Tick
use wlan_opc.Opcd.Tick.{
  attempt, flush_faults, flush_one, flush_all, flush_period, opcd_ind_tick_elapsed,
}
use wlan_opc.Opcd.Machine.Safe.{IsSafe, either-IsSafe, either_sending-IsSafe}
use wlan_opc.Opcd.Machine.ConfigSafe.{opcd_ind_radio_up-IsSafe}

either_result-IsSafe :
    (b : Bool) (x y : Sending) → IsSafe x.state → IsSafe y.state → IsSafe (if b then x else y).state
either_result-IsSafe true x y hx hy = hx
either_result-IsSafe false x y hx hy = hy

either_second-IsSafe :
    (b : Bool) (x y : Bool × State) → IsSafe x.1 → IsSafe y.1 → IsSafe (if b then x else y).1
either_second-IsSafe true x y hx hy = hx
either_second-IsSafe false x y hx hy = hy

module _ {st : State} (h : IsSafe st) where
  emit-IsSafe :
      (sendto : Datagram → Bool) (pack : ℕ → Option Bytes) → IsSafe (emit sendto st pack).state
  unfolding emit next_seq
  emit-IsSafe sendto pack = record { lists = h.lists }

  stage_change-IsSafe : (change : IndCoalesce → IndCoalesce) → IsSafe (stage_change st change)
  unfolding stage_change
  stage_change-IsSafe change = record { lists = h.lists }

  stage_slot-IsSafe : (slot : Option ℕ) (val : ℕ) → IsSafe (Indication.stage_slot st slot val).state
  stage_slot-IsSafe none val = h
  stage_slot-IsSafe (some slot) val = stage_change-IsSafe _

  clear_slot-IsSafe : (slot : Option ℕ) → IsSafe (Indication.clear_slot st slot)
  clear_slot-IsSafe none = h
  clear_slot-IsSafe (some slot) = stage_change-IsSafe _

module _ {st : State} (h : IsSafe st) (sendto : Datagram → Bool) where
  latch_assoc-IsSafe :
      (mono_now : ℕ) (ind : IndWlanStatusChange) → IsSafe (Indication.latch_assoc mono_now st ind).0
  unfolding Indication.latch_assoc
  latch_assoc-IsSafe mono_now ind =
      let connected = ind.wlan_status == Indication.wlan_status_connected in
      let latched = record st {
        wlan0_assoc_known = true;
        wlan0_assoc = connected;
        wlan0_assoc_at = mono_now;
      } in
      let safe : IsSafe latched = record { lists = h.lists } in
      either_sending-IsSafe connected (opcd_ind_radio_up latched) (latched, [])
        (opcd_ind_radio_up-IsSafe safe) safe

  roaming-IsSafe : (ind : IndRoaming) → IsSafe (Indication.opcd_ind_roaming sendto st ind).state
  unfolding Indication.opcd_ind_roaming
  roaming-IsSafe ind =
      either_result-IsSafe _ _ _ h
        (either_result-IsSafe _ _ _ (stage_change-IsSafe h _) (emit-IsSafe h sendto _))

  ap_disconnect-IsSafe :
      (ind : IndApDisconnect) → IsSafe (Indication.opcd_ind_ap_disconnect sendto st ind).state
  unfolding Indication.opcd_ind_ap_disconnect
  ap_disconnect-IsSafe ind =
      either_result-IsSafe _ _ _ h
        (either_result-IsSafe _ _ _ (stage_change-IsSafe h _) (emit-IsSafe h sendto _))

  fault_detect-IsSafe :
      (ind : IndFaultDetect) → IsSafe (Indication.opcd_ind_fault_detect sendto st ind).state
  unfolding Indication.opcd_ind_fault_detect
  fault_detect-IsSafe ind = either_result-IsSafe _ _ _ h (
      either_result-IsSafe _ _ _
        (stage_slot-IsSafe h (Indication.fault_slot ind.congestion_id) ind.current_val)
        (emit-IsSafe h sendto _))

  fault_clear-IsSafe : (id : ℕ) → IsSafe (Indication.opcd_ind_fault_clear st id)
  unfolding Indication.opcd_ind_fault_clear
  fault_clear-IsSafe id = either-IsSafe _ _ _ h (clear_slot-IsSafe h (Indication.fault_slot id))

module _ {st : State} (h : IsSafe st) (sendto : Datagram → Bool) where
  wlan_status-IsSafe :
      (mono_now : ℕ) (ind : IndWlanStatusChange)
      → IsSafe (Indication.opcd_ind_wlan_status sendto mono_now st ind).state
  unfolding Indication.opcd_ind_wlan_status
  wlan_status-IsSafe mono_now ind =
      let latched = latch_assoc-IsSafe h sendto mono_now ind in
      either_result-IsSafe _ _ _ latched
        (either_result-IsSafe _ _ _ (stage_change-IsSafe latched _) (emit-IsSafe latched sendto _))

  pub indicate-IsSafe : (e : LinkEvent) → IsSafe (indicate sendto st e).state
  unfolding indicate
  indicate-IsSafe (wlan_status mono_now ind) = wlan_status-IsSafe mono_now ind
  indicate-IsSafe (roaming ind) = roaming-IsSafe h sendto ind
  indicate-IsSafe (ap_disconnect ind) = ap_disconnect-IsSafe h sendto ind
  indicate-IsSafe (fault_detect ind) = fault_detect-IsSafe h sendto ind
  indicate-IsSafe (fault_clear id) = fault_clear-IsSafe h sendto id

module _ (sendto : Datagram → Bool) where
  announce_entry-IsSafe :
      (m : Measure) (id : ℕ) (res : FaultRes) (p : State × List Datagram)
      → IsSafe p.0
      → IsSafe (Indication.announce_entry sendto m id res p).0
  unfolding Indication.announce_entry
  announce_entry-IsSafe m id res (st, sent) h =
      let done =
        Indication.opcd_ind_fault_detect sendto st
          (record { congestion_id = id; current_val = m.pct }) in
      let safe =
        fault_detect-IsSafe h sendto (record { congestion_id = id; current_val = m.pct }) in
      either_sending-IsSafe (not m.entered) (st, sent) _ h
        (either_sending-IsSafe done.ok (done.state, sent ++ done.sent)
          (
            record done.state { fault_probe = fault_probe_rearm done.state.fault_probe res },
            sent ++ done.sent,
          )
          safe (record { lists = safe.lists }))

  withdraw_entry-IsSafe :
      (m : Measure) (id : ℕ) (p : State × List Datagram)
      → IsSafe p.0
      → IsSafe (Indication.withdraw_entry m id p).0
  unfolding Indication.withdraw_entry
  withdraw_entry-IsSafe m id (st, sent) h =
      either-IsSafe m.cleared (Indication.opcd_ind_fault_clear st id) st
        (fault_clear-IsSafe h sendto id) h

  announce_report-IsSafe :
      (rep : FaultReport) (p : State × List Datagram)
      → IsSafe p.0
      → IsSafe (Indication.announce_report sendto rep p).0
  unfolding Indication.announce_report
  announce_report-IsSafe rep p h = withdraw_entry-IsSafe rep.net 4 _ (
      withdraw_entry-IsSafe rep.disk 3 _ (
        withdraw_entry-IsSafe rep.mem 2 _ (
          withdraw_entry-IsSafe rep.cpu 1 _ (
            announce_entry-IsSafe rep.net 4 res_net _ (
              announce_entry-IsSafe rep.disk 3 res_disk _ (
                announce_entry-IsSafe rep.mem 2 res_mem _
                  (announce_entry-IsSafe rep.cpu 1 res_cpu p h)))))))

  fault_probe_tick-IsSafe :
      (readings : Readings) {st : State} (elapsed_s : ℕ)
      → IsSafe st
      → IsSafe (Indication.fault_probe_tick sendto readings st elapsed_s).0
  unfolding Indication.fault_probe_tick
  fault_probe_tick-IsSafe readings {st} elapsed_s h =
      let (due, p1) = fault_probe_due st.fault_probe elapsed_s in
      let (rep, p2) = fault_probe_sample p1 readings in
      either_sending-IsSafe _ (st, []) _ h
        (either_sending-IsSafe (not due) (record st { fault_probe = p1 }, []) _
          (record { lists = h.lists })
          (announce_report-IsSafe rep (record st { fault_probe = p2 }, [])
            (record { lists = h.lists })))

  attempt-IsSafe :
      {st : State} (pending : Bool) (pack : ℕ → Option Bytes)
      → IsSafe st
      → IsSafe (attempt sendto st pending pack).state
  unfolding attempt
  attempt-IsSafe true pack h = emit-IsSafe h sendto pack
  attempt-IsSafe false pack h = h

  flush_faults-IsSafe :
      (slot : ℕ) (ps : List Bool) (vals : List ℕ) (st : State)
      → IsSafe st
      → IsSafe (flush_faults sendto st slot ps vals).state
  unfolding flush_faults
  flush_faults-IsSafe slot [] vals st h = h
  flush_faults-IsSafe slot (p ∷ ps) vals st h =
      flush_faults-IsSafe (slot + 1) ps vals _ (attempt-IsSafe p _ h)

  flush_all-IsSafe :
      (cs : List IndCoalesce) (st : State) → IsSafe st → IsSafe (flush_all sendto st cs).0
  unfolding flush_all flush_one
  flush_all-IsSafe [] st h = h
  flush_all-IsSafe (c ∷ cs) st h = flush_all-IsSafe cs _ (
      flush_faults-IsSafe 0 c.fault_pending c.fault_val _ (
        attempt-IsSafe c.apd_pending _
          (attempt-IsSafe c.roam_pending _ (attempt-IsSafe c.wlan_pending _ h))))

  flush_period-IsSafe :
      {st : State} (timestamp : Bytes) → IsSafe st → IsSafe (flush_period sendto st timestamp).0
  unfolding flush_period Tick.opcd_ind_keep_alive
  flush_period-IsSafe {st} timestamp h =
      let flushed = flush_all-IsSafe st.indication_coalesce st h in
      let cs = (flush_all sendto st st.indication_coalesce).2 in
      let safe : IsSafe
          (record (flush_all sendto st st.indication_coalesce).0 { indication_coalesce = cs }) =
        record { lists = flushed.lists } in
      either_result-IsSafe _ _ _ safe (emit-IsSafe safe sendto _)

  count_period-IsSafe :
      {st : State} (elapsed_s : ℕ) → IsSafe st → IsSafe (Tick.count_period st elapsed_s).1
  unfolding Tick.count_period
  count_period-IsSafe {st} elapsed_s h =
      let elapsed =
        (if ltb st.indication_period_s elapsed_s then st.indication_period_s else elapsed_s) in
      let counter = st.indication_tick_counter + elapsed in
      either_second-IsSafe (ltb counter st.indication_period_s)
        (false, record st { indication_tick_counter = counter })
        (true, record st { indication_tick_counter = 0 }) (record { lists = h.lists })
        (record { lists = h.lists })

  pub opcd_ind_tick_elapsed-IsSafe :
      (readings : Readings) (timestamp : Bytes) {st : State} (elapsed_s : ℕ)
      → IsSafe st
      → IsSafe (opcd_ind_tick_elapsed sendto readings timestamp st elapsed_s).0
  unfolding opcd_ind_tick_elapsed
  opcd_ind_tick_elapsed-IsSafe readings timestamp {st} elapsed_s h =
      let (st1, probed) = Indication.fault_probe_tick sendto readings st elapsed_s in
      let (ended, st2) = Tick.count_period st1 elapsed_s in
      let (st3, flushed) = flush_period sendto st2 timestamp in
      let safe1 = fault_probe_tick-IsSafe readings elapsed_s h in
      let safe2 = count_period-IsSafe elapsed_s safe1 in
      let silent =
        (st1.indication_period_s == 0) || not (Indication.wants st1 Tick.periodic_bits) in
      either_sending-IsSafe {B = List Datagram} (not st.indication_enabled) (st, []) _ h
        (either_sending-IsSafe silent (st1, probed) _ safe1
          (either_sending-IsSafe (not ended) (st2, probed) (st3, probed ++ flushed) safe2
            (flush_period-IsSafe timestamp safe2)))
