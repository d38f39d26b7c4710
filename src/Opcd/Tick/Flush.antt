-- ===== src/Opcd/Tick/Flush.antt =====
-- opcd/indication.c: what the end of a period hands over, and which changes wait on.
use wlan_opc.Base.{
  ℕ, ◌+◌, ◌≡◌, ◌≢◌, refl, sym, ap, ap₂, ◌∙◌, Bool, true, false, not, Option, none, some, List, [],
  ◌∷◌, ◌++◌, ◌==◌, ◌||◌, get_or, map, Bytes, arith,
}
use wlan_opc.Opcd.State.{State, Datagram, IndCoalesce, send_indication_frame, next_seq}
use wlan_opc.Opcd.Indication.{
  emit, sent_all, wlan_status_frame, roaming_frame, ap_disconnect_frame, fault_detect_frame,
  staged_wlan, staged_roaming, staged_ap_disconnect,
}
use wlan_opc.Opcd.Tick.{attempt, flush_faults, flush_one, flush_all}
use wlan_opc.Opcd.Tick.Expected.{
  Change, fault_changes, changes_of, changes_all, flags_of, flags_all, content, to_recipient,
  handed, arrives, seq_after, expected_sent, expected_waits, seq_after-append, expected_sent-append,
  expected_waits-append, delivered, count_true, expected_count, changes_all_flags,
}

-- Indications are on and have somewhere to go.
pub record IsAddressable (st : State) : Type 0 where
  pub enabled : st.indication_enabled ≡ true
  pub open_socket : st.udp_open ≡ true
  pub address : st.indication_recipient_ip ≢ 0
  pub port : st.indication_recipient_port ≢ 0

send_indication_frame-handed :
    (st : State) (frame : Option Bytes)
    → IsAddressable st
    → send_indication_frame st frame ≡ handed (to_recipient st) frame
unfolding send_indication_frame
send_indication_frame-handed st none h = refl
send_indication_frame-handed st (some frame) h =
    let on : (not st.indication_enabled || not st.udp_open) ≡ false =
      ground (arith, h.enabled, h.open_socket) in
    let set : ((st.indication_recipient_ip == 0) || (st.indication_recipient_port == 0)) ≡ false =
      ground (arith, h.address, h.port) in
    simp (on, set)

sent_all-arrives :
    (sendto : Datagram → Bool) (to : Bytes → Datagram) (frame : Option Bytes)
    → sent_all sendto frame (handed to frame) ≡ arrives sendto to frame
unfolding sent_all
sent_all-arrives sendto to none = refl
sent_all-arrives sendto to (some frame) = refl

handed-nil :
    (to : Bytes → Datagram) (frame : Option Bytes) → handed to frame ++ [] ≡ handed to frame
handed-nil to none = refl
handed-nil to (some frame) = refl

-- From `st` to `st'` the changes `cs` were tried: what was handed over, and which of them wait on.
record IsFlushed (sendto : Datagram → Bool) (st : State) (cs : List Change) (st' : State)
    (ds : List Datagram) (flags : List Bool) : Type 0 where
  addressable : IsAddressable st'
  to : to_recipient st' ≡ to_recipient st
  seq : st'.indication_seq ≡ seq_after st.indication_seq cs
  sent : ds ≡ expected_sent (to_recipient st) st.indication_seq cs
  waits : flags ≡ expected_waits sendto (to_recipient st) st.indication_seq cs

module _ {sendto : Datagram → Bool} {st : State} where
  IsFlushed-nil : IsAddressable st → IsFlushed sendto st [] st [] []
  IsFlushed-nil h = record { addressable = h; to = refl; seq = refl; sent = refl; waits = refl }

  IsFlushed-append :
      {as' bs : List Change} {st1 st2 : State} {sent1 sent2 : List Datagram}
      {waits1 waits2 : List Bool}
      → IsFlushed sendto st as' st1 sent1 waits1
      → IsFlushed sendto st1 bs st2 sent2 waits2
      → IsFlushed sendto st (as' ++ bs) st2 (sent1 ++ sent2) (waits1 ++ waits2)
  IsFlushed-append {as'} {bs} f g =
      let to = to_recipient st in
      let n = st.indication_seq in
      record {
        addressable = g.addressable;
        to = g.to ∙ f.to;
        seq = g.seq ∙ ap (λ (k : ℕ). seq_after k bs) f.seq ∙ sym (seq_after-append n as' bs);
        sent =
            ap₂ (λ (xs ys : List Datagram). xs ++ ys) f.sent
              (g.sent ∙ ap₂ (λ (t : Bytes → Datagram) (k : ℕ). expected_sent t k bs) f.to f.seq)
            ∙ sym (expected_sent-append to n as' bs);
        waits =
            ap₂ (λ (xs ys : List Bool). xs ++ ys) f.waits
              (g.waits
                ∙ ap₂ (λ (t : Bytes → Datagram) (k : ℕ). expected_waits sendto t k bs) f.to f.seq)
            ∙ sym (expected_waits-append sendto to n as' bs);
      }

  attempt-IsFlushed :
      (pending : Bool) (frame : ℕ → Option Bytes)
      → IsAddressable st
      → let a = attempt sendto st pending frame in
        IsFlushed sendto st
          (record { waits = pending; frame = frame } ∷ [])
          a.state
          a.sent
          (a.waits ∷ [])
  unfolding attempt emit next_seq
  attempt-IsFlushed false frame h = record {
    addressable = h;
    to = refl;
    seq = refl;
    sent = refl;
    waits = refl;
  }
  attempt-IsFlushed true frame h =
      let st1 = (next_seq st).1 in
      let f = frame st.indication_seq in
      let h1 : IsAddressable st1 = record {
        enabled = h.enabled;
        open_socket = h.open_socket;
        address = h.address;
        port = h.port;
      } in
      let out = send_indication_frame-handed st1 f h1 in
      record {
        addressable = h1;
        to = refl;
        seq = refl;
        sent = out ∙ sym (handed-nil (to_recipient st) f);
        waits =
            ap (λ (b : Bool). not b ∷ [])
              (ap (sent_all sendto f) out ∙ sent_all-arrives sendto (to_recipient st) f);
      }

flush_faults-IsFlushed :
    (sendto : Datagram → Bool) (st : State) (slot : ℕ) (ps : List Bool) (vals : List ℕ)
    → IsAddressable st
    → let a = flush_faults sendto st slot ps vals in
      IsFlushed sendto st (fault_changes slot ps vals) a.state a.sent a.waiting
unfolding flush_faults
flush_faults-IsFlushed sendto st slot [] vals h = IsFlushed-nil h
flush_faults-IsFlushed sendto st slot (p ∷ ps) vals h =
    let pack =
      fault_detect_frame (record { congestion_id = slot + 1; current_val = get_or vals slot 0 }) in
    let here = attempt-IsFlushed {sendto = sendto} {st = st} p pack h in
    let st1 = (attempt sendto st p pack).state in
    IsFlushed-append here (flush_faults-IsFlushed sendto st1 (slot + 1) ps vals here.addressable)

flush_one-IsFlushed :
    (sendto : Datagram → Bool) (st : State) (c : IndCoalesce)
    → IsAddressable st
    → let out = flush_one sendto st c in
      IsFlushed sendto st (changes_of c) out.0 out.1 (flags_of out.2)
unfolding flush_one
flush_one-IsFlushed sendto st c h =
    let wlan =
      attempt-IsFlushed {sendto = sendto} {st = st} c.wlan_pending
        (wlan_status_frame (staged_wlan c)) h in
    let roam =
      attempt-IsFlushed {sendto = sendto} c.roam_pending (roaming_frame (staged_roaming c))
        wlan.addressable in
    let apd =
      attempt-IsFlushed {sendto = sendto} c.apd_pending
        (ap_disconnect_frame (staged_ap_disconnect c)) roam.addressable in
    let faults = flush_faults-IsFlushed sendto _ 0 c.fault_pending c.fault_val apd.addressable in
    IsFlushed-append wlan (IsFlushed-append roam (IsFlushed-append apd faults))

flush_all-IsFlushed :
    (sendto : Datagram → Bool) (st : State) (cs : List IndCoalesce)
    → IsAddressable st
    → let out = flush_all sendto st cs in
      IsFlushed sendto st (changes_all cs) out.0 out.1 (flags_all out.2)
unfolding flush_all
flush_all-IsFlushed sendto st [] h = IsFlushed-nil h
flush_all-IsFlushed sendto st (c ∷ cs) h =
    let one = flush_one-IsFlushed sendto st c h in
    IsFlushed-append one (flush_all-IsFlushed sendto (flush_one sendto st c).0 cs one.addressable)

flush_all-content :
    (sendto : Datagram → Bool) (st : State) (cs : List IndCoalesce)
    → map content (flush_all sendto st cs).2 ≡ map content cs
unfolding flush_all flush_one
flush_all-content sendto st [] = refl
flush_all-content sendto st (c ∷ cs) =
    ap (λ (rest : List IndCoalesce). content c ∷ rest)
      (flush_all-content sendto (flush_one sendto st c).0 cs)

-- At the end of a period the frames of exactly the changes that waited are handed over: for each
-- element its WLAN status, its roaming, its disconnect and its congested resources, in this order, with
-- consecutive sequence numbers, to the recipient; a frame that cannot be built is left out. A change
-- waits on exactly when it waited and its own frame was not built and sent in full, whichever sends
-- fail, and what the elements hold is kept. So the datagrams sent in full and the changes that still
-- wait are together as many as the changes that waited. Indications are on, the socket is open and the
-- recipient is set.
pub flush_all-conserves :
    (sendto : Datagram → Bool) (st : State) (cs : List IndCoalesce)
    → IsAddressable st
    → let out = flush_all sendto st cs in
      (out.1 ≡ expected_sent (to_recipient st) st.indication_seq (changes_all cs))
      × (flags_all out.2
          ≡ expected_waits sendto (to_recipient st) st.indication_seq (changes_all cs))
      × (map content out.2 ≡ map content cs)
      × (delivered sendto out.1 + count_true (flags_all out.2) ≡ count_true (flags_all cs))
flush_all-conserves sendto st cs h =
    let f = flush_all-IsFlushed sendto st cs h in
    let count = expected_count sendto (to_recipient st) st.indication_seq (changes_all cs) in
    (
      f.sent,
      f.waits,
      flush_all-content sendto st cs,
      ap₂ (λ (ds : List Datagram) (ws : List Bool). delivered sendto ds + count_true ws) f.sent
            f.waits
          ∙ count
          ∙ ap count_true (changes_all_flags cs),
    )
